-- ===== src/Command.antt =====
-- The commands of cmd/hdfs.
pub mod Cat
pub mod Paths
pub mod Move
pub mod Globs
pub mod Listing
pub mod Changing
pub mod Main
pub mod Complete
