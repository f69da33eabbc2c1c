-- ===== src/Rpc/Reading.antt =====
-- What block_reader.go and checksum_reader.go of internal/rpc share: the messages that they write and
-- read, and the datanodes that hold a block.
use hdfs.Prelude.{ℕ, Bool, List, map, Bytes, String}
use hdfs.Prelude.Errors.{Result}
use hdfs.Rpc.Framing.{read_prefixed_message}
use hdfs.Rpc.Datatransfer.{ExtendedBlock, LocatedBlock, Conn, Protocol, get_datanode_address}
use hdfs.Rpc.Failover.{Failures}

-- `OpReadBlockProto`
pub record OpReadBlock : Type 0 where
  pub block : ExtendedBlock
  pub token : ℕ
  pub client_name : String
  pub offset : ℕ
  pub len : ℕ

-- `ChecksumTypeProto`
pub data ChecksumType : Type 0 where
  crc32 crc32c : ChecksumType
  other : ℕ → ChecksumType

-- `ReadOpChecksumInfoProto`
pub record ReadInfo : Type 0 where
  pub checksum_type : ChecksumType
  pub bytes_per_checksum : ℕ
  pub chunk_offset : ℕ

-- The generated code and the libraries: `protocol` with what reading needs besides. `crc32c_sum` is the
-- checksum with the table of Castagnoli. `clock` is the time at which a failure is noted, by the
-- dials, and `pooled` what the buffer of `ioutil.Discard` holds, by the dials and the reads into it.
pub record ReadProtocol : Type 1 where
  pub protocol : Protocol
  pub op_read_block : OpReadBlock → protocol.proto.Message
  pub op_block_checksum : ExtendedBlock → ℕ → protocol.proto.Message
  pub md5 : protocol.proto.Message → Bytes
  pub read_info : protocol.proto.Message → ReadInfo
  pub crc32c_sum : Bytes → ℕ
  pub unmarshal_header : Bytes → ℕ × Bool
  pub clock : ℕ → ℕ
  pub pooled : ℕ → ℕ → Bytes

-- The failures that all readers share, and the dials so far.
pub record Datanodes : Type 0 where
  pub failures : Failures
  pub dials : ℕ

module _ (R : ReadProtocol) where
  open R use {protocol}

  -- The addresses of the datanodes of a block.
  unfoldable pub addresses : LocatedBlock → Bool → List String
  addresses block use_hostname = map (λ d. get_datanode_address protocol d use_hostname) block.locs

  -- `readBlockOpResponse`, with the rest of the connection.
  unfoldable pub read_block_op_response : Conn → Result (protocol.proto.Message × Bytes)
  read_block_op_response conn =
      read_prefixed_message protocol.proto conn.got conn.incoming protocol.new_response
