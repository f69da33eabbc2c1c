-- ===== src/Rpc/Datatransfer.antt =====
-- What the block operations of internal/rpc share: the generated messages that they fill in or read,
-- connections to datanodes, and datanode addresses.
use hdfs.Prelude.{ℕ, ◌⊎◌, Bool, Option, List, Bytes, String, if◌then◌else◌}
use hdfs.Prelude.Errors.{Error, Result}
use hdfs.Rpc.Framing.{Proto}
use hdfs.Rpc.WriteStream.{Environment, PacketHeader}
use hdfs.Rpc.WriteStream.Flush.{AckRead}
use Prim.Native.String.{◌++◌ as ◌<>◌}

-- `DatanodeIDProto`, `ExtendedBlockProto` and `LocatedBlockProto`, in the fields that the code reads.
pub record DatanodeId : Type 0 where
  pub ip_addr : String
  pub host_name : String
  pub xfer_port : ℕ

pub record ExtendedBlock : Type 0 where
  pub block_id : ℕ
  pub generation_stamp : ℕ
  pub num_bytes : ℕ

pub record LocatedBlock : Type 0 where
  pub b : ExtendedBlock
  pub offset : ℕ
  pub locs : List DatanodeId
  pub block_token : ℕ

pub data Stage : Type 0 where
  pipeline_setup_append pipeline_setup_create : Stage

-- `OpWriteBlockProto`; the requested checksum is always CRC32 of chunks of 512 bytes.
pub record OpWriteBlock : Type 0 where
  pub block : ExtendedBlock
  pub token : ℕ
  pub client_name : String
  pub targets : List DatanodeId
  pub stage : Stage
  pub pipeline_size : ℕ
  pub min_bytes_rcvd : ℕ
  pub max_bytes_rcvd : ℕ
  pub latest_generation_stamp : ℕ

-- An open connection, as the environment decides about it: the error of `SetDeadline`, those of its
-- writes, the bytes that come back, how many of them the first read gets, and the acks that follow.
pub record Conn : Type 0 where
  pub deadline_error : Option Error
  pub conn_write : Bytes → Bytes → Option Error
  pub incoming : Bytes
  pub got : ℕ
  pub acks : List AckRead

-- The generated code and the libraries that the operations call. A dial may end differently each
-- time, so it is given the number of dials before it.
pub record Protocol : Type 1 where
  pub proto : Proto
  pub op_write_block : OpWriteBlock → proto.Message
  pub new_response : proto.Message
  pub is_success : proto.Message → Bool
  pub marshal_header : PacketHeader → Bytes ⊎ Error
  pub crc : Bytes → ℕ
  pub dial : ℕ → String → Result Conn
  pub sprint : ℕ → String

module _ (P : Protocol) where
  open P use {marshal_header, crc, sprint}

  -- What a write stream over a connection calls.
  abbrev pub stream_environment : Conn → Environment
  stream_environment c = record {
    marshal_header = marshal_header;
    crc = crc;
    conn_write = c.conn_write;
  }

  -- `fmt.Sprintf("%s:%d", host, port)`
  unfoldable pub get_datanode_address : DatanodeId → Bool → String
  get_datanode_address datanode use_hostname =
      (if use_hostname then datanode.host_name else datanode.ip_addr)
      <> ":"
      <> sprint datanode.xfer_port
