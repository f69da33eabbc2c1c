-- ===== src/Examples.antt =====
-- Runs of the models on concrete data, and the theorems at inputs that meet their conditions.
mod Framing
mod Streams
mod Files
mod Network
mod Blocks
mod Commands
mod Trees
mod Listings
mod Kerberos
