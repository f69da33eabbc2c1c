-- ===== src/Rpc/WriteStream.antt =====
-- internal/rpc/block_write_stream.go: a stream of packets to one datanode. The bytes written to the
-- connection and the packets put in the channel are kept in full, oldest first.
pub mod Flush
pub mod Packets
pub mod Sending
pub mod Finishing
pub mod Acks
pub mod Interleaving
use hdfs.Prelude.{
  ℕ, zero, suc, ◌+◌, ◌-◌, ◌*◌, ◌/◌, ◌%◌, ◌^◌, min, ◌⊎◌, inl, inr, Bool, true, false, ◌&&◌, ◌||◌,
  Option, none, some, List, [], ◌∷◌, ◌++◌, Bytes, length, take, drop, ltb, leb, ◌==◌, if◌then◌else◌,
}
use hdfs.Prelude.Errors.{Error}
use hdfs.Prelude.Int.{ℤ, pos, negsuc, ◌==ℤ◌}
use hdfs.Rpc.Framing.{big_endian_u32}

abbrev pub outbound_packet_size : ℕ
outbound_packet_size = 65536

abbrev pub outbound_chunk_size : ℕ
outbound_chunk_size = 512

abbrev pub heart_beat_seqno : ℤ
heart_beat_seqno = negsuc 0

pub record OutboundPacket : Type 0 where
  pub seqno : ℕ
  pub offset : ℕ
  pub last : Bool
  pub checksums : Bytes
  pub payload : Bytes

-- The fields of `PacketHeaderProto`.
pub record PacketHeader : Type 0 where
  pub offset_in_block : ℕ
  pub seqno : ℤ
  pub last_packet_in_block : Bool
  pub data_len : ℕ

pub record WriteStream : Type 0 where
  pub written : Bytes
  pub buf : Bytes
  pub offset : ℕ
  pub closed : Bool
  pub packets : List OutboundPacket
  pub seqno : ℕ
  pub ack_error : Option Error
  pub acks_done : Bool

-- What the stream calls: protobuf's `Marshal` of a packet header, `crc32.Checksum` with the IEEE
-- table, and the connection's `Write`, whose error may depend on all that was written before.
pub record Environment : Type 0 where
  pub marshal_header : PacketHeader → Bytes ⊎ Error
  pub crc : Bytes → ℕ
  pub conn_write : Bytes → Bytes → Option Error

unfoldable pub new_block_write_stream : ℕ → WriteStream
new_block_write_stream offset = record {
  written = [];
  buf = [];
  offset = offset;
  closed = false;
  packets = [];
  seqno = 1;
  ack_error = none;
  acks_done = false;
}

unfoldable pub get_ack_error : WriteStream → Option Error
get_ack_error s = if s.acks_done then s.ack_error else none

-- `binary.BigEndian.PutUint16`
unfoldable pub big_endian_u16 : ℕ → Bytes
big_endian_u16 n = (n / 2 ^ 8 % 256) ∷ (n % 256) ∷ []

-- The length of the next packet: at most a packet's size, what is buffered, and what is left up to
-- the next chunk boundary where the stream does not stand on one.
unfoldable pub next_packet_length : ℕ → ℕ → ℕ
next_packet_length offset buffered =
    let packet_length =
      if ltb buffered outbound_packet_size then buffered else outbound_packet_size in
    let alignment = offset % outbound_chunk_size in
    if ltb 0 alignment && ltb (outbound_chunk_size - alignment) packet_length
    then outbound_chunk_size - alignment
    else packet_length

-- `math.Ceil(float64(n) / 512)`, which is exact for the lengths that occur.
unfoldable pub chunk_count : ℕ → ℕ
chunk_count n = (n + (outbound_chunk_size - 1)) / outbound_chunk_size

-- One connection write behind another: the first error stops.
unfoldable pub write_parts :
    (Bytes → Bytes → Option Error) → List Bytes → Bytes → Bytes × Option Error
write_parts conn_write [] written = (written, none)
write_parts conn_write (part ∷ parts) written =
    let rest = write_parts conn_write parts (written ++ part) in
    elim (conn_write written part) [ some e ↦ (written, some e) | none ↦ rest ]

module _ (env : Environment) where
  open env use {marshal_header, crc, conn_write}

  -- The checksums of the chunks from chunk `i` on, `n` of them.
  unfoldable pub chunk_checksums : ℕ → ℕ → Bytes → Bytes
  chunk_checksums zero i data_bytes = []
  chunk_checksums (suc n) i data_bytes =
      let chunk_off = i * outbound_chunk_size in
      let chunk_end = min (chunk_off + outbound_chunk_size) (length data_bytes) in
      big_endian_u32 (crc (take (chunk_end - chunk_off) (drop chunk_off data_bytes)))
      ++ chunk_checksums n (i + 1) data_bytes

  -- The packet, and the buffer that is left.
  unfoldable pub make_packet : WriteStream → OutboundPacket × Bytes
  make_packet s =
      let packet_length = next_packet_length s.offset (length s.buf) in
      let payload = take packet_length s.buf in
      (
        record {
          seqno = s.seqno;
          offset = s.offset;
          last = false;
          checksums = chunk_checksums (chunk_count packet_length) 0 payload;
          payload = payload;
        },
        drop packet_length s.buf,
      )

  unfoldable pub packet_header : OutboundPacket → PacketHeader
  packet_header p = record {
    offset_in_block = p.offset;
    seqno = pos p.seqno;
    last_packet_in_block = p.last;
    data_len = length p.payload;
  }

  -- The bytes before the checksums: the total length, which leaves the header out, the header's
  -- length and the header.
  unfoldable pub header_bytes : ℕ → Bytes → Bytes
  header_bytes total info =
      big_endian_u32 (total % 2 ^ 32) ++ big_endian_u16 (length info % 2 ^ 16) ++ info

  unfoldable pub write_packet : OutboundPacket → Bytes → Bytes × Option Error
  write_packet p written = elim (marshal_header (packet_header p)) [
    | inl info ↦
        write_parts conn_write
          (header_bytes (length p.payload + length p.checksums + 4) info
            ∷ p.checksums
            ∷ p.payload
            ∷ [])
          written
    | inr e ↦ (written, some e)
  ]

  unfoldable pub write_heart_beat_packet : Bytes → Bytes × Option Error
  write_heart_beat_packet written =
      let header : PacketHeader = record {
        offset_in_block = 0;
        seqno = heart_beat_seqno;
        last_packet_in_block = false;
        data_len = 0;
      } in
      elim (marshal_header header) [
        | inl info ↦ write_parts conn_write (header_bytes 4 info ∷ []) written
        | inr e ↦ (written, some e)
      ]
