-- ===== src/Lib.antt =====
-- The Go client for HDFS: files that are written in blocks to datanodes, read back, and listed, and
-- the protocol below them.
--
-- The parts of the program, and the modules that model them:
--
-- * Rpc.Framing (internal/rpc/rpc.go): packets to and from the namenode, messages with their length
--   and requests to datanodes. `Proto` stands for the protobuf library, Rpc.Varint for the varints of
--   the standard library. Rpc.Framing.RoundTrip and Rpc.Framing.Malformed hold the proofs.
-- * Rpc.WriteStream (internal/rpc/block_write_stream.go): the packets of a block on one connection.
--   Flush has `Write`, `flush`, `ackPackets` and `finish`; Interleaving has the writer and the
--   goroutine of `ackPackets` as a step relation over the fields that they share.
-- * Rpc.BlockWriter (internal/rpc/block_writer.go): one block, over the stream; `connect_next` dials
--   the first datanode and hands it the others. Rpc.Datatransfer has the messages and connections
--   that it needs.
-- * Rpc.Failover (internal/rpc/datanode_failover.go): which datanode is tried next.
-- * Rpc.ReadStream (internal/rpc/block_read_stream.go): reading packets of a block into a buffer of
--   the caller, with the checksums.
-- * Rpc.ChecksumReader (internal/rpc/checksum_reader.go): the checksum of a block, over the failover.
--   Rpc.Reading has the messages that reading a block needs.
-- * Rpc.Namenode (internal/rpc/namenode.go): the connection to one of several namenodes, its handshake,
--   and `Execute` with its retries, as a loop on fuel. Calls, Hosts and Retries hold the proofs.
-- * Rpc.BlockReader (internal/rpc/block_reader.go): reading a block, from one datanode after the other.
--   Progress, Connecting, Rounds and Corrupt hold the proofs.
-- * Client.Writer (file_writer.go, and the defaults of client.go): a file open for writing. Blocks
--   has the starting, writing and closing of blocks; Finalizing, Taking, Rounds and Contents are
--   about what `Write` leaves in them, Closing about what `Close` tells the namenode.
-- * Client.Reader (file_reader.go): the position, the block that holds it, and listings; its child Contents
--   has `Read` over the readers of the blocks, Whole `ReadAt` and `Checksum`.
-- * Client.Namespace (stat.go, mkdir.go, remove.go, rename.go, perms.go), Client.Queries
--   (content_summary.go, stat_fs.go, readdir.go, and the lease of client.go) and
--   Client.Exceptions (error.go).
-- * Client.Walk (walk.go): the walk over a tree of files; its child Trees has the trees, and Order and
--   Steps the proofs.
-- * Rpc.Kerberos (internal/rpc/kerberos.go): the SASL handshake; `Sasl` stands for gokrb5 and the
--   messages. Handshake has the proofs.
-- * Command.Cat (cmd/hdfs/cat.go): what `cat`, `head` and `tail` print. Command.Paths (cmd/hdfs/paths.go):
--   the namenode and the paths of the arguments. Command.Globs (the same file): the expansion of globs, with
--   Found and Stuck for the proofs. Command.Move (cmd/hdfs/mv.go): `mv` over Client.Namespace.
-- * Command.Listing (cmd/hdfs/ls.go and du.go): what they print; its child Pages is about the loop over the
--   pages of a directory, which Client.Reader.Paging is about too. Command.Changing (cmd/hdfs/rm.go,
--   mkdir.go, touch.go, chmod.go, chown.go, df.go). Command.Main (cmd/hdfs/main.go): the clients of the
--   commands, with Cached for the proofs; Command.Complete (cmd/hdfs/complete.go, main.go).
-- * Client.Connecting (client.go): the options of a client, and its making.
-- * Hadoopconf (hadoopconf/hadoopconf.go): the namenodes of a configuration.
--
-- How they interact: the operations of the client pass a `World` on (Client.Requests), which holds the
-- calls to the namenode so far, the dials to datanodes, and the streams of the blocks that were closed.
-- A `Namenode` answers each call knowing all calls before it, and so may be any namenode; a `Protocol`
-- answers each dial with a connection, whose writes may fail, or with an error. What was written to a
-- block is what its stream has put into packets and still buffers.
--
-- Bytes are numbers below 256 where the code relies on it; integers of 64 bits wrap around where the
-- source computes with sums that may leave their range. Panics are results. The loop of
-- `FileWriter.Write` has two rounds of fuel for each byte and one more, since a round either takes a
-- byte, or starts a block, which only a block without room makes it do first. How often `Readdir` asks
-- is up to the namenode, so its fuel is an argument, as are those of `Execute` and of
-- `FileReader.Read`, which may go on for ever, and the depth of a walk, of `expandGlobs` and of `duDir`.
-- `ReadChecksum` has a round for each datanode, and `BlockReader.Read` two, and one for an open stream;
-- the copy that seeks forward two for each byte of the connection; `tail` one for each byte.
--
-- Not modelled: the loop over the namenodes for a client with Kerberos, reading and parsing of
-- configuration files, get.go, put.go, checksum.go, util.go and kerberos.go below cmd/hdfs, which copy
-- to local files, print, or call libraries; the columns of a long listing, timeouts and deadlines, and
-- the generated code below internal/protocol, which the messages of the model stand for. The buffer of
-- the checksums of a packet holds nothing behind them in the model: a read at a chunk that has none
-- panics there, where the source goes on with what the capacity of the buffer holds.
pub mod Prelude
pub mod Rpc
pub mod Client
pub mod Command
pub mod Hadoopconf
mod Examples
