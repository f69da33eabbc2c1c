-- ===== src/Client.antt =====
-- The package at the repository's root: the client, its files and its file system operations.
pub mod Exceptions
pub mod Requests
pub mod Writer
pub mod Namespace
pub mod Reader
pub mod Queries
pub mod Walk
pub mod Connecting
