-- ===== src/Rpc/BlockWriter.antt =====
-- internal/rpc/block_writer.go: writing one block to the first datanode of its pipeline.
pub mod Contents
pub mod Closing
use hdfs.Prelude.{
  ℕ, suc, ◌+◌, ◌-◌, Bool, true, false, Option, none, some, List, [], ◌∷◌, ◌++◌, Bytes, length, take,
  String, ltb, leb, if◌then◌else◌, ◌&&◌,
}
use hdfs.Prelude.Errors.{Error, Result, ok, err, panic, ◌>>=◌}
use hdfs.Rpc.Framing.{write_block_op, write_block_op_request, read_prefixed_message}
use hdfs.Rpc.Datatransfer.{
  DatanodeId, ExtendedBlock, LocatedBlock, Stage, pipeline_setup_append, pipeline_setup_create,
  OpWriteBlock, Conn, Protocol, stream_environment, get_datanode_address,
}
use hdfs.Rpc.WriteStream.{WriteStream, new_block_write_stream}
use hdfs.Rpc.WriteStream.Flush

pub record BlockWriter : Type 0 where
  pub client_name : String
  pub block : LocatedBlock
  pub block_size : ℕ
  pub offset : ℕ
  pub append : Bool
  pub use_datanode_hostname : Bool
  -- `conn` and `stream`, which are set together.
  pub stream : Option (Conn × WriteStream)
  pub closed : Bool

unfoldable pub current_pipeline : BlockWriter → List DatanodeId
current_pipeline bw = bw.block.locs

unfoldable pub current_stage : BlockWriter → Stage
current_stage bw = if bw.append then pipeline_setup_append else pipeline_setup_create

unfoldable pub generation_timestamp : BlockWriter → ℕ
generation_timestamp bw = if bw.append then bw.block.b.generation_stamp else 0

-- The message of `writeBlockWriteRequest`, for the datanodes behind the first.
unfoldable pub write_request : BlockWriter → List DatanodeId → OpWriteBlock
write_request bw targets = record {
  block = bw.block.b;
  token = bw.block.block_token;
  client_name = bw.client_name;
  targets = targets;
  stage = current_stage bw;
  pipeline_size = length targets;
  min_bytes_rcvd = bw.block.b.num_bytes;
  max_bytes_rcvd = bw.offset;
  latest_generation_stamp = generation_timestamp bw;
}

unfoldable pub error_or : {A : Type 0} → Option Error → Result A → Result A
error_or none r = r
error_or (some e) r = err e

-- `blockFull`, and what is left of `b` for the block.
abbrev pub block_full : BlockWriter → Bytes → Bool
block_full bw b = ltb bw.block_size (bw.offset + length b)

abbrev pub fitting : BlockWriter → Bytes → Bytes
fitting bw b = if block_full bw b then take (bw.block_size - bw.offset) b else b

-- `ErrEndOfBlock`, which only `Write` below returns, or any other error.
pub data Failure : Type 0 where
  end_of_block : Failure
  failed : Error → Failure

module _ (P : Protocol) where
  open P use {proto, op_write_block, new_response, is_success, dial}

  -- `connectNext` behind the choice of the datanode, as the `dials`-th dial: the open connection and
  -- the request that was written to it.
  unfoldable pub connect_to : BlockWriter → ℕ → DatanodeId → List DatanodeId → Result (Conn × Bytes)
  connect_to bw dials first targets = do
    conn ← dial dials (get_datanode_address P first bw.use_datanode_hostname)
    request ←
        error_or conn.deadline_error
          (write_block_op_request proto write_block_op (op_write_block (write_request bw targets)))
    (resp, rest) ←
        error_or (conn.conn_write [] request)
          (read_prefixed_message proto conn.got conn.incoming new_response)
    if is_success resp then ok (conn, request) else err Error.write_failed

  -- A block with no datanode makes it panic.
  unfoldable pub connect_next : BlockWriter → ℕ → Result (Conn × WriteStream)
  connect_next bw dials = elim (current_pipeline bw) [
    | [] ↦ panic
    | ◌∷◌ first targets ↦ connect_to bw dials first targets >>= λ c.
        ok (c.0, record (new_block_write_stream bw.offset) { written = c.1 })
  ]

  -- The write on an open stream, of the part of `b` that fits the block.
  unfoldable pub write_stream :
      BlockWriter → Conn × WriteStream → Bytes → Bool → BlockWriter × ℕ × Option Failure
  write_stream bw (conn, s) b block_full =
      let (s', n, e) = Flush.write (stream_environment P conn) s b in
      (
        record bw { stream = some (conn, s'); offset = bw.offset + n },
        n,
        elim e [ some x ↦ some (failed x) | none ↦ if block_full then some end_of_block else none ],
      )

  -- `Write`, with the number of dials so far: the writer, the dials, the bytes taken and the error.
  unfoldable pub write : BlockWriter → ℕ → Bytes → Result (BlockWriter × ℕ × ℕ × Option Failure)
  write bw dials b =
      if leb bw.block_size bw.offset then ok (bw, dials, 0, some end_of_block) else elim bw.stream [
        | some s ↦
            let (bw', n, e) = write_stream bw s (fitting bw b) (block_full bw b) in
            ok (bw', dials, n, e)
        | none ↦ elim (connect_next bw dials) [
          | ok s ↦
              let (bw', n, e) = write_stream bw s (fitting bw b) (block_full bw b) in
              ok (bw', dials + 1, n, e)
          | err e ↦ ok (bw, dials + 1, 0, some (failed e))
          | panic ↦ panic
        ]
      ]

  unfoldable pub flush : BlockWriter → BlockWriter × Option Error
  flush bw = elim bw.stream [
    | none ↦ (bw, none)
    | some (conn, s) ↦
        let (s', e) = Flush.flush (stream_environment P conn) true s in
        (record bw { stream = some (conn, s') }, e)
  ]

  unfoldable pub close : BlockWriter → BlockWriter × Option Error
  close bw = elim bw.stream [
    | none ↦ (record bw { closed = true }, none)
    | some (conn, s) ↦
        let (s', e) = Flush.finish (stream_environment P conn) conn.acks s in
        (record bw { closed = true; stream = some (conn, s') }, e)
  ]
