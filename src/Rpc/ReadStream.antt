-- ===== src/Rpc/ReadStream.antt =====
-- internal/rpc/block_read_stream.go: the packets of a block, read from one datanode.
pub mod Small
pub mod Chunks
use hdfs.Prelude.{
  ℕ, zero, suc, ◌+◌, ◌-◌, ◌*◌, ◌/◌, Bool, true, false, Option, none, some, List, [], ◌∷◌, ◌++◌,
  Bytes, length, take, drop, min, ltb, leb, ◌==◌, ◌&&◌, if◌then◌else◌,
}
use hdfs.Prelude.Errors.{◌>>=◌, Error, Result, ok, err, panic}

-- What the stream needs of the libraries: `crc32.Checksum` with the stream's table, and what
-- `proto.Unmarshal` leaves in a packet header: its data length, and whether
-- the packet is the last one. A negative data length is left out. The source does not look at the error of `Unmarshal`.
pub record Codec : Type 0 where
  pub crc : Bytes → ℕ
  pub unmarshal : Bytes → ℕ × Bool

-- `incoming` is what the reader still has, before its end.
pub record ReadStream : Type 0 where
  pub incoming : Bytes
  pub chunk_size : ℕ
  pub checksums : Bytes
  pub chunk : Bytes
  pub packet_length : ℕ
  pub chunk_index : ℕ
  pub num_chunks : ℕ
  pub last_packet : Bool

unfoldable pub new_block_read_stream : Bytes → ℕ → ReadStream
new_block_read_stream incoming chunk_size = record {
  incoming = incoming;
  chunk_size = chunk_size;
  checksums = [];
  chunk = [];
  packet_length = 0;
  chunk_index = 0;
  num_chunks = 0;
  last_packet = false;
}

-- `binary.BigEndian` on the bytes of a number.
abbrev pub from_big_endian : ℕ → Bytes → ℕ
from_big_endian n [] = n
from_big_endian n (x ∷ xs) = from_big_endian (n * 256 + x) xs

-- The error of `io.ReadFull` for `n` bytes, and of `io.CopyN`, which does not tell a short read from
-- the end.
abbrev pub read_full_error : ℕ → Bytes → Option Error
read_full_error n incoming =
    if leb n (length incoming)
    then none
    else if length incoming == 0
    then some Error.eof
    else some Error.unexpected_eof

abbrev pub copy_error : ℕ → Bytes → Option Error
copy_error n incoming = if leb n (length incoming) then none else some Error.eof

-- `math.Ceil` of the quotient. Chunk sizes are positive.
abbrev pub ceil_div : ℕ → ℕ → ℕ
ceil_div n m = (n + (m - 1)) / m

module _ (C : Codec) where
  open C use {crc, unmarshal}

  -- `validateChecksum`, for a buffer without capacity behind the checksums: a slice beyond them is
  -- `panic`. In the source it is one only where the capacity of the buffer ends, and before that it
  -- takes the bytes that stand there, as it may at a packet that is empty.
  unfoldable pub validate_checksum : ReadStream → Bytes → Result (Unit {0})
  validate_checksum s b =
      let sum = take 4 (drop (4 * s.chunk_index) s.checksums) in
      if ltb (length sum) 4
      then panic
      else if crc b == from_big_endian 0 sum
      then ok tt
      else err Error.invalid_checksum

  -- `readPacketHeader`: the header, or the error, with what is left.
  unfoldable pub read_packet_header : Bytes → (ℕ × Bool) × Bytes × Option Error
  read_packet_header incoming =
      let size = from_big_endian 0 (drop 4 (take 6 incoming)) in
      let rest = drop 6 incoming in
      elim (read_full_error 6 incoming) [
        | some e ↦ ((0, false), rest, some e)
        | none ↦ elim (read_full_error size rest) [
          | some e ↦ ((0, false), drop size rest, some e)
          | none ↦ (unmarshal (take size rest), drop size rest, none)
        ]
      ]

  unfoldable pub start_packet : ReadStream → ReadStream × Option Error
  start_packet s =
      let ((data_length, last_packet), rest, e) = read_packet_header s.incoming in
      let num_chunks = ceil_div data_length s.chunk_size in
      let s' = record s {
        incoming = drop (num_chunks * 4) rest;
        checksums = take (num_chunks * 4) rest;
      } in
      elim e [
        | some x ↦ (record s { incoming = rest }, some x)
        | none ↦ elim (copy_error (num_chunks * 4) rest) [
          | some x ↦ (s', some x)
          | none ↦ (
            record s' {
              packet_length = data_length;
              num_chunks = num_chunks;
              chunk_index = 0;
              last_packet = last_packet;
            },
            none,
          )
        ]
      ]

  -- A read from the chunk that is buffered, into `b`: the stream, `b`, and the count.
  unfoldable pub read_buffered : ReadStream → Bytes → ReadStream × Bytes × ℕ
  read_buffered s b =
      let n = min (length b) (length s.chunk) in
      (record s { chunk = drop n s.chunk }, take n s.chunk ++ drop n b, n)

  -- The read of a buffer that is smaller than a chunk: the next chunk of `size` bytes is buffered.
  unfoldable pub read_chunk :
      ReadStream → ℕ → Bytes → Result (ReadStream × Bytes × ℕ × Option Error)
  read_chunk s size b =
      let s1 : ReadStream = record s {
        incoming = drop size s.incoming;
        chunk = s.chunk ++ take size s.incoming;
      } in
      let (s2, b2, n) = read_buffered (record s1 { chunk_index = s1.chunk_index + 1 }) b in
      elim (copy_error size s.incoming) [
        | some e ↦ ok (s1, b, 0, some e)
        | none ↦ elim (validate_checksum s1 s1.chunk) [
          | ok _ ↦ ok (s2, b2, n, none)
          | err _ ↦ ok (s1, b, 0, none)
          | panic ↦ panic
        ]
      ]

  unfoldable pub read_small :
      ReadStream → ℕ → Bytes → Result (ReadStream × Bytes × ℕ × Option Error)
  read_small s remaining b =
      read_chunk s (if ltb remaining s.chunk_size then remaining else s.chunk_size) b

  -- The loop that validates `chunks` chunks of `b`, of which the first `off` bytes are validated.
  unfoldable pub validate_chunks : ℕ → ReadStream → ℕ → Bytes → Result (ReadStream × Option Error)
  validate_chunks zero s off b = ok (s, none)
  validate_chunks (suc chunks) s off b =
      let end = if leb (length b) (off + s.chunk_size) then length b else off + s.chunk_size in
      let rest =
        validate_chunks chunks (record s { chunk_index = s.chunk_index + 1 }) (off + s.chunk_size)
          b in
      elim (validate_checksum s (take (end - off) (drop off b))) [
        | ok _ ↦ rest
        | err e ↦ ok (s, some e)
        | panic ↦ panic
      ]

  -- The end of a read of `amount` bytes of whole chunks.
  unfoldable pub chunks_read :
      Bytes → ℕ → ReadStream × Option Error → ReadStream × Bytes × ℕ × Option Error
  chunks_read b amount (s, some e) = (s, b, amount, some e)
  chunks_read b amount (s, none) = (
    s,
    b,
    amount,
    if (s.chunk_index == s.num_chunks) && s.last_packet then some Error.eof else none,
  )

  -- The read of `amount` bytes, in `chunks` chunks. What `b` holds behind the bytes that are read stays.
  unfoldable pub read_amount :
      ReadStream → ℕ → ℕ → Bytes → Result (ReadStream × Bytes × ℕ × Option Error)
  read_amount s chunks amount b =
      let got = take amount s.incoming in
      let b' = got ++ drop (length got) b in
      let s1 : ReadStream = record s { incoming = drop amount s.incoming } in
      elim (read_full_error amount s.incoming) [
        | some e ↦ ok (s1, b', length got, some e)
        | none ↦ validate_chunks chunks s1 0 b' >>= λ r. ok (chunks_read b' amount r)
      ]

  -- The read of whole chunks.
  unfoldable pub read_chunks :
      ReadStream → ℕ → Bytes → Result (ReadStream × Bytes × ℕ × Option Error)
  read_chunks s remaining b =
      if ltb remaining (length b)
      then read_amount s (s.num_chunks - s.chunk_index) remaining b
      else read_amount s (length b / s.chunk_size) (length b / s.chunk_size * s.chunk_size) b

  -- `Read` behind the start of a packet.
  unfoldable pub read_packet : ReadStream → Bytes → Result (ReadStream × Bytes × ℕ × Option Error)
  read_packet s b =
      let remaining = s.packet_length - s.chunk_index * s.chunk_size in
      let (s', b', n) = read_buffered s b in
      if ltb 0 (length s.chunk)
      then ok (s', b', n, none)
      else if ltb (length b) s.chunk_size
      then read_small s remaining b
      else read_chunks s remaining b

  -- `Read` into `b`: the stream, `b`, the count and the error.
  unfoldable pub read : ReadStream → Bytes → Result (ReadStream × Bytes × ℕ × Option Error)
  read s b =
      let (s1, e) = start_packet s in
      if s.chunk_index == s.num_chunks
      then if s.last_packet
        then ok (s, b, 0, some Error.eof)
        else elim e [ some x ↦ ok (s1, b, 0, some x) | none ↦ read_packet s1 b ]
      else read_packet s b
