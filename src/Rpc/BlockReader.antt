-- ===== src/Rpc/BlockReader.antt =====
-- internal/rpc/block_reader.go: the bytes of a block, from one of its datanodes after the other.
pub mod Progress
pub mod Connecting
pub mod Rounds
pub mod Corrupt
use hdfs.Prelude.{
  ℕ, zero, suc, ◌+◌, ◌-◌, ◌*◌, Bool, true, false, not, Option, none, some, List, [], ◌∷◌, ◌++◌,
  Bytes, length, take, String, ltb, leb, ◌==◌, if◌then◌else◌,
}
use hdfs.Prelude.Errors.{is_eof, Error, Result, ok, err, panic, ◌>>=◌}
use hdfs.Rpc.Framing.{read_block_op, write_block_op_request}
use hdfs.Rpc.Datatransfer.{LocatedBlock, Conn, Protocol}
use hdfs.Rpc.BlockWriter.{error_or}
use hdfs.Rpc.Failover.{
  Failures, Failover, new_datanode_failover, record_failure, num_remaining, last_error, next,
}
use hdfs.Rpc.ReadStream.{Codec, ReadStream, new_block_read_stream, read}
use hdfs.Rpc.Reading.{
  ReadProtocol, Datanodes, ChecksumType, ReadInfo, addresses, read_block_op_response,
}

-- A stream with the checksum that it was made with.
pub record OpenStream : Type 0 where
  pub codec : Codec
  pub reader : ReadStream

pub record BlockReader : Type 0 where
  pub client_name : String
  pub block : LocatedBlock
  pub offset : ℕ
  pub use_datanode_hostname : Bool
  pub datanodes : Option Failover
  pub stream : Option OpenStream
  pub closed : Bool

-- How a copy to `ioutil.Discard` ends: with what is left to be discarded.
pub data Discarded : Type 0 where
  discarded : ReadStream → ℕ → Option Error → Discarded
  copy_panicked : Discarded
  copy_unfinished : Discarded

-- The loop of `io.CopyN(ioutil.Discard, stream, left)`, which reads into a buffer that the pool gives
-- it, cut to what is left.
unfoldable pub discard : Codec → (ℕ → Bytes) → ℕ → ℕ → ReadStream → ℕ → Discarded
discard C buffer zero reads s left = copy_unfinished
discard C buffer (suc fuel) reads s left =
    let round : Discarded = elim (read C s (take left (buffer reads))) [
      | panic ↦ copy_panicked
      | err e ↦ copy_panicked
      | ok (s', b, n, e) ↦ elim e [
        | some x ↦ discarded s' (left - n) (if is_eof x then none else some x)
        | none ↦ discard C buffer fuel (reads + 1) s' (left - n)
      ]
    ] in
    if left == 0 then discarded s 0 none else round

-- The rounds of the copy: as many as its measure of progress allows.
abbrev pub discard_fuel : ReadStream → ℕ
discard_fuel s = 2 * length s.incoming + 1

-- The error of `connectNext` for a copy: none if it is complete, and a stream that ends too soon has
-- ended unexpectedly.
abbrev pub discard_error : ℕ → Option Error → Option Error
discard_error left e =
    if left == 0 then none else some (elim e [ none ↦ Error.unexpected_eof | some x ↦ x ])

-- How an attempt to connect ends: with a stream, and the error of `SetDeadline` on its connection, or
-- with an error and no stream.
pub data Connected : Type 0 where
  connected : OpenStream → Option Error → Connected
  not_connected : Error → Connected
  connect_panicked : Connected
  connect_unfinished : Connected

-- Two rounds for each datanode, one for an open stream, and the last one.
abbrev pub read_fuel : BlockReader → Failover → ℕ
read_fuel br df = 2 * num_remaining df + (elim br.stream [ none ↦ 0 | some os ↦ 1 ]) + 1

-- `Close`
unfoldable pub close : BlockReader → BlockReader
close br = record br { closed = true }

-- How `Read` ends: with the reader, the failures, the buffer, the count and the error.
pub data ReadOutcome : Type 0 where
  returned : BlockReader → Datanodes → Bytes → ℕ → Option Error → ReadOutcome
  panicked : ReadOutcome
  unfinished : ReadOutcome

pub data Round : Type 0 where
  ended : ReadOutcome → Round
  again : BlockReader → Datanodes → Failover → Bytes → Round

module _ (R : ReadProtocol) where
  open R use {protocol, op_read_block, read_info, crc32c_sum, unmarshal_header, clock, pooled}

  -- `writeBlockReadRequest`. It is called with an offset in the block.
  unfoldable pub block_read_request : BlockReader → Result Bytes
  block_read_request br = write_block_op_request protocol.proto read_block_op (
      op_read_block (record {
        block = br.block.b;
        token = br.block.block_token;
        client_name = br.client_name;
        offset = br.offset;
        len = br.block.b.num_bytes - br.offset;
      }))

  -- The switch over the checksum type.
  unfoldable pub codec_for : ChecksumType → Result Codec
  codec_for ChecksumType.crc32 = ok (record { crc = protocol.crc; unmarshal = unmarshal_header })
  codec_for ChecksumType.crc32c = ok (record { crc = crc32c_sum; unmarshal = unmarshal_header })
  codec_for (ChecksumType.other n) = err Error.unsupported_checksum

  -- The request and the response: the stream, and at which offset of the block it starts.
  unfoldable pub request_stream : BlockReader → Conn → Result (OpenStream × ℕ)
  request_stream br conn = do
    request ← block_read_request br
    (resp, rest) ← error_or (conn.conn_write [] request) (read_block_op_response R conn)
    codec ←
        if protocol.is_success resp
        then codec_for (read_info resp).checksum_type
        else err Error.read_failed
    ok (
      record {
        codec = codec;
        reader = new_block_read_stream rest (read_info resp).bytes_per_checksum;
      },
      (read_info resp).chunk_offset,
    )

  -- Seeking forward by `amount` in a new stream.
  unfoldable pub skip : ℕ → Conn → OpenStream → ℕ → Connected
  skip dials conn os amount =
      elim (discard os.codec (pooled dials) (discard_fuel os.reader) 0 os.reader amount) [
        | copy_panicked ↦ connect_panicked
        | copy_unfinished ↦ connect_unfinished
        | discarded s left e ↦ elim (discard_error left e) [
          | some x ↦ not_connected x
          | none ↦ connected (record os { reader = s }) conn.deadline_error
        ]
      ]

  -- `connectNext` to an address, as the dial number `dials`.
  unfoldable pub connect_to : BlockReader → ℕ → String → Connected
  connect_to br dials address = elim (protocol.dial dials address) [
    | panic ↦ connect_panicked
    | err e ↦ not_connected e
    | ok conn ↦ elim (request_stream br conn) [
      | panic ↦ connect_panicked
      | err e ↦ not_connected e
      | ok (os, chunk_offset) ↦ skip dials conn os (br.offset - chunk_offset)
    ]
  ]

  -- `recordFailure`
  unfoldable pub fail_datanode :
      Error → BlockReader → Datanodes → Failover → BlockReader × Datanodes × Failover
  fail_datanode e br net df =
      let (failures, df') = record_failure (clock net.dials) e (net.failures, df) in
      (record br { datanodes = some df' }, record net { failures = failures }, df')

  -- How `Read` ends when nothing is left to try.
  unfoldable pub give_up : BlockReader → Datanodes → Failover → Bytes → ReadOutcome
  give_up br net df b =
      returned br net b 0 (some (elim (last_error df) [ none ↦ Error.no_datanodes | some e ↦ e ]))

  -- Reading from an open stream.
  unfoldable pub read_stream : BlockReader → Datanodes → Failover → Bytes → OpenStream → Round
  read_stream br net df b os = elim (read os.codec os.reader b) [
    | panic ↦ ended panicked
    | err e ↦ ended panicked
    | ok (s, b', n, e) ↦
        let br1 : BlockReader = record br {
          offset = br.offset + n;
          stream = some (record os { reader = s });
        } in
        elim e [
          | none ↦ ended (returned br1 net b' n none)
          | some x ↦
              let (br2, net2, df2) = fail_datanode x (record br1 { stream = none }) net df in
              if is_eof x
              then ended (returned br1 net b' n (some x))
              else if ltb 0 n
              then ended (returned br2 net2 b' n none)
              else again br2 net2 df2 b'
        ]
  ]

  -- What a round makes of an attempt to connect.
  unfoldable pub use_connection : BlockReader → Datanodes → Failover → Bytes → Connected → Round
  use_connection br net df b connect_panicked = ended panicked
  use_connection br net df b connect_unfinished = ended unfinished
  use_connection br net df b (not_connected e) =
      let (br', net', df') = fail_datanode e br net df in again br' net' df' b
  use_connection br net df b (connected os none) =
      read_stream (record br { stream = some os }) net df b os
  use_connection br net df b (connected os (some e)) =
      let (br', net', df') = fail_datanode e (record br { stream = some os }) net df in
      again br' net' df' b

  -- A round without a stream, on the next datanode.
  unfoldable pub connect_round : BlockReader → Datanodes → Failover → Bytes → Round
  connect_round br net df b = elim (next net.failures df) [
    | panic ↦ ended panicked
    | err e ↦ ended panicked
    | ok (address, df') ↦
        use_connection (record br { datanodes = some df' }) (record net { dials = net.dials + 1 })
          df' b (connect_to br net.dials address)
  ]

  -- A round of the main loop of `Read`.
  unfoldable pub read_round : BlockReader → Datanodes → Failover → Bytes → Round
  read_round br net df b = elim br.stream [
    | some os ↦ read_stream br net df b os
    | none ↦
        if num_remaining df == 0 then ended (give_up br net df b) else connect_round br net df b
  ]

  -- The main loop of `Read`.
  unfoldable pub read_loop : ℕ → BlockReader → Datanodes → Failover → Bytes → ReadOutcome
  read_loop zero br net df b = unfinished
  read_loop (suc fuel) br net df b = elim (read_round br net df b) [
    | ended r ↦ r
    | again br' net' df' b' ↦ read_loop fuel br' net' df' b'
  ]

  -- `Read`
  unfoldable pub read_block : BlockReader → Datanodes → Bytes → ReadOutcome
  read_block br net b =
      let df : Failover = elim br.datanodes [
        | none ↦ new_datanode_failover (addresses R br.block br.use_datanode_hostname)
        | some df ↦ df
      ] in
      if br.closed
      then returned br net b 0 (some Error.closed_pipe)
      else if leb br.block.b.num_bytes br.offset
      then returned (close br) net b 0 (some Error.eof)
      else read_loop (read_fuel br df) (record br { datanodes = some df }) net df b
