-- ===== src/Rpc/WriteStream/Packets.antt =====
-- What the packets of a block_write_stream carry: sizes, alignment, checksums, and the bytes in order.
use hdfs.Prelude.{
  ℕ, zero, suc, ◌+◌, ◌-◌, ◌*◌, ◌%◌, ◌≤◌, ◌<◌, ◌≡◌, refl, sym, ap, ◌∙◌, min, ◌⊎◌, false, List, [],
  ◌∷◌, ◌++◌, Bytes, length, take, drop, arith, length-take, length-drop, take-append-drop, take-min,
  drop-drop, append_assoc,
}
use hdfs.Rpc.Framing.{big_endian_u32}
use hdfs.Rpc.WriteStream.{
  WriteStream, OutboundPacket, Environment, next_packet_length, chunk_count, chunk_checksums,
  make_packet,
}

-- The length of a packet: something is sent, no more than is buffered or fits, and a packet that
-- starts inside a chunk ends in it.
pub next_packet_length_bounds :
    (o n : ℕ)
    → 0 < n
    → (0 < next_packet_length o n)
      × (next_packet_length o n ≤ n)
      × (next_packet_length o n ≤ 65536)
      × ((o % 512 ≡ 0) ⊎ (o % 512 + next_packet_length o n ≤ 512))
unfolding next_packet_length
next_packet_length_bounds o n h = ground arith

-- The bytes that packets carry.
abbrev pub payloads : List OutboundPacket → Bytes
payloads [] = []
payloads (p ∷ ps) = p.payload ++ payloads ps

pub payloads-append :
    (ps qs : List OutboundPacket) → payloads (ps ++ qs) ≡ payloads ps ++ payloads qs
payloads-append [] qs = refl
payloads-append (p ∷ ps) qs =
    rw (payloads-append ps qs) (sym (append_assoc p.payload (payloads ps) (payloads qs)))

-- All bytes that a stream has taken: those of its packets and those in its buffer.
abbrev pub taken : WriteStream → Bytes
taken s = payloads s.packets ++ s.buf

module _ (env : Environment) where
  open env use {crc}

  -- The checksums as the protocol has them: one for each 512 bytes, from the front.
  abbrev pub checksums_of : ℕ → Bytes → Bytes
  checksums_of zero b = []
  checksums_of (suc n) b = big_endian_u32 (crc (take 512 b)) ++ checksums_of n (drop 512 b)

  cut_chunk :
      (off : ℕ) (b : Bytes)
      → take (min (off + 512) (length b) - off) (drop off b) ≡ take 512 (drop off b)
  cut_chunk off b = ap (λ k. take k (drop off b)) cut ∙ take-min 512 (drop off b)
    where
      cut : min (off + 512) (length b) - off ≡ min 512 (length (drop off b))
      cut = omega (arith, length-drop off b)

  chunk_checksums-checksums_of :
      (n i : ℕ) (b : Bytes) → chunk_checksums env n i b ≡ checksums_of n (drop (i * 512) b)
  unfolding chunk_checksums
  chunk_checksums-checksums_of zero i b = refl
  chunk_checksums-checksums_of (suc n) i b =
      rw
        (cut_chunk (i * 512) b, chunk_checksums-checksums_of n (i + 1) b, drop-drop 512 (i * 512) b)
        (ap (λ k. big_endian_u32 (crc (take 512 (drop (i * 512) b))) ++ checksums_of n (drop k b))
          (omega arith))

  -- The next packet of a stream at offset `o` and sequence number `q`.
  pub record IsPacket (o q : ℕ) (p : OutboundPacket) : Type 0 where
    pub at_offset : p.offset ≡ o
    pub at_seqno : p.seqno ≡ q
    pub not_last : p.last ≡ false
    pub not_empty : 0 < length p.payload
    pub fits : length p.payload ≤ 65536
    pub aligned : (o % 512 ≡ 0) ⊎ (o % 512 + length p.payload ≤ 512)
    pub checked : p.checksums ≡ checksums_of (chunk_count (length p.payload)) p.payload

  -- Packets one behind the other, from offset `o` and sequence number `q` up to `o'` and `q'`.
  abbrev pub IsRun : ℕ → ℕ → List OutboundPacket → ℕ → ℕ → Type 0
  IsRun o q [] o' q' = (o ≡ o') × (q ≡ q')
  IsRun o q (p ∷ ps) o' q' = IsPacket o q p × IsRun (o + length p.payload) (q + 1) ps o' q'

  pub IsRun-append :
      (ps qs : List OutboundPacket) (o q o' q' o'' q'' : ℕ)
      → IsRun o q ps o' q'
      → IsRun o' q' qs o'' q''
      → IsRun o q (ps ++ qs) o'' q''
  IsRun-append [] qs o q o' q' o'' q'' (e, f) r = rw (e, f) r
  IsRun-append (p ∷ ps) qs o q o' q' o'' q'' (x, xs) r =
      (x, IsRun-append ps qs (o + length p.payload) (q + 1) o' q' o'' q'' xs r)

  -- The packet that `make_packet` cuts off the buffer.
  pub make_packet_lem :
      (s : WriteStream)
      → 0 < length s.buf
      → IsPacket s.offset s.seqno (make_packet env s).0
        × ((make_packet env s).0.payload ++ (make_packet env s).1 ≡ s.buf)
  unfolding make_packet
  make_packet_lem s h = (
    record {
      at_offset = refl;
      at_seqno = refl;
      not_last = refl;
      not_empty = omega (arith, size, bounds);
      fits = omega (arith, size, bounds);
      aligned = rw size bounds.3;
      checked = rw size (chunk_checksums-checksums_of (chunk_count n) 0 (take n s.buf));
    },
    take-append-drop n s.buf,
  )
    where
      n : ℕ
      n = next_packet_length s.offset (length s.buf)

      bounds :
          (0 < n)
          × (n ≤ length s.buf)
          × (n ≤ 65536)
          × ((s.offset % 512 ≡ 0) ⊎ (s.offset % 512 + n ≤ 512))
      bounds = next_packet_length_bounds s.offset (length s.buf) h

      size : length (take n s.buf) ≡ n
      size = omega (arith, length-take n s.buf, bounds)
