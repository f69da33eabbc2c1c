-- ===== src/Rpc/Framing/Malformed.antt =====
-- Two inputs that internal/rpc/rpc.go does not survive: a first read of a single byte in
-- `readPrefixedMessage`, and a message length that leaves no room for itself in `readRPCPacket`.
use hdfs.Prelude.{
  ℕ, suc, ◌-◌, ◌≤◌, ◌<◌, ◌≡◌, ◌∙◌, min, List, [], ◌∷◌, ◌++◌, Bytes, length, take, drop, replicate,
  arith, length-append, take-append, drop-append,
}
use hdfs.Prelude.Errors.{ok, panic, ◌>>=◌}
use hdfs.Rpc.Varint.{put_uvarint_small, uvarint_small}
use hdfs.Rpc.Framing.{
  Proto, big_endian_u32, read_full, read_body, read_message_after, read_message, read_messages,
  read_rpc_packet, read_prefixed_message,
}
use hdfs.Rpc.Framing.RoundTrip.{framed, read_full_ok, read_full_front, u32_of-big_endian_u32}

module _ (proto : Proto) where
  open proto use {Message, marshal, unmarshal}

  -- When the first read of a message of 4 to 127 bytes gets one byte, four zero bytes stand for the
  -- first four of the message, and the last four bytes of it are left on the connection.
  pub read_prefixed_message_short_read :
      (b rest : Bytes) (t : Message)
      → 4 ≤ length b
      → length b < 128
      → read_prefixed_message proto 1 (framed b ++ rest) t ≡ (
          unmarshal t (replicate 4 0 ++ take (length b - 4) b) >>= λ m.
          ok (m, drop (length b - 4) b ++ rest))
  unfolding read_prefixed_message read_message_after read_body
  read_prefixed_message_short_read b rest t h small =
      rw (put_uvarint_small (length b) small)
        (rw (one, uvarint_small (length b) (replicate 4 0) small, four, tail) (ground arith))
    where
      k : ℕ
      k = length b - 4

      one : min 1 (min 5 (suc (length (b ++ rest)))) ≡ 1
      one = omega arith

      four : min (length b) (5 - 1) ≡ 4
      four = omega arith

      tail : read_full k (b ++ rest) ≡ ok (take k b, drop k b ++ rest)
      tail =
          read_full_ok k (b ++ rest) (omega (arith, length-append b rest))
          ∙ rw (take-append k b rest (omega arith), drop-append k b rest (omega arith))

  -- A packet of 1 to 127 bytes whose first byte is its own length makes the caller panic.
  pub read_rpc_packet_overlong :
      (q rest : Bytes) (t : Message) (ts : List Message)
      → length q < 127
      → read_rpc_packet proto
          (big_endian_u32 (suc (length q)) ++ (suc (length q) ∷ q) ++ rest)
          (t ∷ ts)
        ≡ panic
  unfolding read_rpc_packet read_messages read_message read_full big_endian_u32
  read_rpc_packet_overlong q rest t ts h =
      let size : ℕ = suc (length q) in
      rw
        (
          read_full_front (big_endian_u32 size) ((size ∷ q) ++ rest),
          u32_of-big_endian_u32 size [] (omega arith),
          read_full_front (size ∷ q) rest,
        )
        (ground (arith, uvarint_small size q (omega arith)))
