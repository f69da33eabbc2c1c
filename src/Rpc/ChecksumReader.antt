-- ===== src/Rpc/ChecksumReader.antt =====
-- internal/rpc/checksum_reader.go: the checksum of a block, from the first of its datanodes that answers.
pub mod Attempts
pub mod Answers
use hdfs.Prelude.{
  ℕ, zero, suc, ◌+◌, Bool, true, false, Option, none, some, List, [], ◌∷◌, ◌++◌, Bytes, length,
  String, ◌==◌, if◌then◌else◌,
}
use hdfs.Prelude.Errors.{Error, Result, ok, err, panic, ◌>>=◌}
use hdfs.Rpc.Framing.{checksum_block_op, data_transfer_version, make_prefixed_message}
use hdfs.Rpc.Datatransfer.{LocatedBlock, Conn, Protocol}
use hdfs.Rpc.BlockWriter.{error_or}
use hdfs.Rpc.Failover.{
  Failures, Failover, new_datanode_failover, record_failure, num_remaining, last_error, next,
}
use hdfs.Rpc.Reading.{ReadProtocol, Datanodes, addresses, read_block_op_response}

pub record ChecksumReader : Type 0 where
  pub block : LocatedBlock
  pub use_datanode_hostname : Bool
  pub datanodes : Option Failover

-- How the loop ends: with a checksum, when no datanode is left, or in a panic.
pub data Attempt : Type 0 where
  found : Datanodes → Failover → Bytes → Attempt
  exhausted : Datanodes → Failover → Attempt
  panicked : Attempt
  out_of_fuel : Attempt

module _ (R : ReadProtocol) where
  open R use {protocol, op_block_checksum, md5, clock}

  -- `writeBlockChecksumRequest`
  unfoldable pub checksum_request : LocatedBlock → Result Bytes
  checksum_request block = do
    op_bytes ← make_prefixed_message protocol.proto (op_block_checksum block.b block.block_token)
    ok ((0 ∷ data_transfer_version ∷ checksum_block_op ∷ []) ++ op_bytes)

  -- `readChecksum`, as the dial number `dials`. The status of the response is not looked at.
  unfoldable pub read_checksum_from : LocatedBlock → ℕ → String → Result Bytes
  read_checksum_from block dials address = do
    conn ← protocol.dial dials address
    request ← error_or conn.deadline_error (checksum_request block)
    (resp, rest) ← error_or (conn.conn_write [] request) (read_block_op_response R conn)
    ok (md5 resp)

  -- The loop of `ReadChecksum`. Each round takes a datanode from the list.
  unfoldable pub attempts : ℕ → LocatedBlock → Datanodes → Failover → Attempt
  attempts zero block net df = if num_remaining df == 0 then exhausted net df else out_of_fuel
  attempts (suc fuel) block net df =
      let round : Attempt = elim (next net.failures df) [
        | panic ↦ panicked
        | err e ↦ panicked
        | ok (address, df') ↦ elim (read_checksum_from block net.dials address) [
          | panic ↦ panicked
          | ok sum ↦ found (record net { dials = net.dials + 1 }) df' sum
          | err e ↦
              let (failures, df'') = record_failure (clock net.dials) e (net.failures, df') in
              attempts fuel block (record { failures = failures; dials = net.dials + 1 }) df''
        ]
      ] in
      if num_remaining df == 0 then exhausted net df else round

  -- What `ReadChecksum` makes of it. Its test of the last error is the wrong way round.
  unfoldable pub conclude :
      ChecksumReader → Attempt → Result (ChecksumReader × Datanodes × Bytes × Option Error)
  conclude cr (found net df sum) = ok (record cr { datanodes = some df }, net, sum, none)
  conclude cr (exhausted net df) = ok (
    record cr { datanodes = some df },
    net,
    [],
    elim (last_error df) [ none ↦ none | some e ↦ some Error.no_datanodes ],
  )
  conclude cr panicked = panic
  conclude cr out_of_fuel = panic

  -- `ReadChecksum`: the reader, the checksum, which is [] for nil, and the error.
  unfoldable pub read_checksum :
      ChecksumReader → Datanodes → Result (ChecksumReader × Datanodes × Bytes × Option Error)
  read_checksum cr net =
      let df : Failover = elim cr.datanodes [
        | none ↦ new_datanode_failover (addresses R cr.block cr.use_datanode_hostname)
        | some df ↦ df
      ] in
      conclude cr (attempts (num_remaining df) cr.block net df)
