-- ===== src/Rpc.antt =====
-- Package internal/rpc: framing of messages, datanode failover, block writing and block reading.
pub mod Varint
pub mod Framing
pub mod WriteStream
pub mod Failover
pub mod Datatransfer
pub mod BlockWriter
pub mod ReadStream
pub mod Namenode
pub mod Kerberos
pub mod Reading
pub mod ChecksumReader
pub mod BlockReader
