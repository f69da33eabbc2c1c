-- ===== src/Rpc/ReadStream/Chunks.antt =====
-- Reads of whole chunks: what is read has been compared with the checksums of the packet.
use hdfs.Prelude.{
  drop-drop, ℕ, suc, ◌+◌, ◌-◌, ◌*◌, ◌/◌, ◌≤◌, ◌<◌, ◌≡◌, refl, sym, ap, ◌∙◌, true, none, some, List,
  [], ◌∷◌, ◌++◌, Bytes, length, take, drop, arith, leb, append_assoc, length-append, take_front,
  drop_front, ◌==◌, ◌&&◌, if◌then◌else◌,
}
use hdfs.Prelude.Errors.{Error, ok}
use hdfs.Rpc.ReadStream.{
  read_amount, Codec, ReadStream, from_big_endian, validate_checksum, validate_chunks, chunks_read,
  read_chunks, read_packet, read,
}

abbrev pub joined : List Bytes → Bytes
joined [] = []
joined (c ∷ cs) = c ++ joined cs

abbrev pub count : List Bytes → ℕ
count [] = 0
count (c ∷ cs) = suc (count cs)

module _ (C : Codec) where
  open C use {crc}

  -- The chunks have the size of a chunk, and the checksums that stand in `sums` from place `i` on.
  abbrev pub Matches : Bytes → ℕ → ℕ → List Bytes → Type 0
  Matches sums size i [] = Unit
  Matches sums size i (c ∷ cs) =
      (length c ≡ size)
      × (length (take 4 (drop (4 * i) sums)) ≡ 4)
      × (from_big_endian 0 (take 4 (drop (4 * i) sums)) ≡ crc c)
      × Matches sums size (i + 1) cs

  validate_one :
      (s : ReadStream) (b : Bytes)
      → length (take 4 (drop (4 * s.chunk_index) s.checksums)) ≡ 4
      → from_big_endian 0 (take 4 (drop (4 * s.chunk_index) s.checksums)) ≡ crc b
      → validate_checksum C s b ≡ ok tt
  unfolding validate_checksum
  validate_one s b h k = ground arith

  chunk_end :
      (off size whole : ℕ)
      → off + size ≤ whole
      → (if leb whole (off + size) then whole else off + size) - off ≡ size
  chunk_end off size whole h = ground arith

  validate_step :
      (chunks : ℕ) (s : ReadStream) (off : ℕ) (b c : Bytes)
      → off + s.chunk_size ≤ length b
      → take s.chunk_size (drop off b) ≡ c
      → validate_checksum C s c ≡ ok tt
      → validate_chunks C (suc chunks) s off b
        ≡ validate_chunks C chunks
            (record s { chunk_index = s.chunk_index + 1 })
            (off + s.chunk_size)
            b
  unfolding validate_chunks
  validate_step chunks s off b c h front good =
      rw (validate_chunks, chunk_end off s.chunk_size (length b) h, front, good) refl

  validate_all :
      (cs : List Bytes) (s : ReadStream) (off : ℕ) (b post : Bytes)
      → Matches s.checksums s.chunk_size s.chunk_index cs
      → drop off b ≡ joined cs ++ post
      → off + length (joined cs) ≤ length b
      → validate_chunks C (count cs) s off b
        ≡ ok (record s { chunk_index = s.chunk_index + count cs }, none)
  unfolding validate_chunks
  validate_all [] s off b post m split h =
      ap (λ (n : ℕ). ok (record s { chunk_index = n }, none)) (omega arith)
  validate_all (c ∷ cs) s off b post (size, has_sum, good, m) split h =
      validate_step (count cs) s off b c within (ap (take s.chunk_size) behind ∙ front)
        (validate_one s c has_sum good)
      ∙ validate_all cs (record s { chunk_index = s.chunk_index + 1 }) (off + s.chunk_size) b post m
          next later
      ∙ ap (λ (n : ℕ). ok (record s { chunk_index = n }, none)) (omega arith)
    where
      within : off + s.chunk_size ≤ length b
      within = omega (arith, h, size, length-append c (joined cs))

      later : off + s.chunk_size + length (joined cs) ≤ length b
      later = omega (arith, h, size, length-append c (joined cs))

      behind : drop off b ≡ c ++ (joined cs ++ post)
      behind = split ∙ append_assoc c (joined cs) post

      front : take s.chunk_size (c ++ (joined cs ++ post)) ≡ c
      front = rw (sym size) (take_front c (joined cs ++ post))

      next : drop (off + s.chunk_size) b ≡ joined cs ++ post
      next =
          sym (drop-drop s.chunk_size off b)
          ∙ ap (drop s.chunk_size) behind
          ∙ rw (sym size) (drop_front c (joined cs ++ post))

  amount_step :
      (s s2 : ReadStream) (n m : ℕ) (b got rest : Bytes)
      → take m s.incoming ≡ got
      → drop m s.incoming ≡ rest
      → leb m (length s.incoming) ≡ true
      → validate_chunks C n (record s { incoming = rest }) 0 (got ++ drop (length got) b)
        ≡ ok (s2, none)
      → read_amount C s n m b ≡ ok (chunks_read C (got ++ drop (length got) b) m (s2, none))
  unfolding read_amount
  amount_step s s2 n m b got rest front behind enough valid =
      rw (read_amount, enough, front, behind, valid) refl

  joined_length :
      (sums : Bytes) (size i : ℕ) (cs : List Bytes)
      → Matches sums size i cs
      → count cs * size ≡ length (joined cs)
  joined_length sums size i [] m = omega arith
  joined_length sums size i (c ∷ cs) (l, _, _, m) =
      omega (arith, l, joined_length sums size (i + 1) cs m, length-append c (joined cs))

  module _ (s : ReadStream) (cs : List Bytes) (rest b : Bytes) where
    -- A stream before the chunks `cs`, with nothing buffered, and as many chunks fit into `b`.
    pub record IsAhead : Type 0 where
      pub arriving : s.incoming ≡ joined cs ++ rest
      pub nothing : s.chunk ≡ []
      pub more : s.chunk_index < s.num_chunks
      pub in_packet : length b ≤ s.packet_length - s.chunk_index * s.chunk_size
      pub no_less : s.chunk_size ≤ length b
      pub fitting : length b / s.chunk_size ≡ count cs
      pub matching : Matches s.checksums s.chunk_size s.chunk_index cs

    read_is_whole : IsAhead → read C s b ≡ read_amount C s (count cs) (count cs * s.chunk_size) b
    unfolding read read_packet read_chunks
    read_is_whole p =
        let q = p.more in
        let r = p.nothing in
        let l = p.no_less in let k = p.in_packet in let f = p.fitting in ground arith

    -- A read of a buffer that holds whole chunks only as far as the packet goes, with nothing buffered:
    -- if the chunks that come next have the checksums of the packet, they are read in order to the
    -- front of the buffer, count as read, and what the buffer holds behind them stays. The read
    -- reports the end with the last chunk of the last packet, and else no error.
    pub read_whole_lem :
        IsAhead
        → let size = length (joined cs) in
          let s' : ReadStream = record s {
            incoming = rest;
            chunk_index = s.chunk_index + count cs;
          } in
          let e =
            if (s'.chunk_index == s'.num_chunks) && s'.last_packet then some Error.eof else none in
          read C s b ≡ ok (s', joined cs ++ drop size b, size, e)
    unfolding chunks_read
    read_whole_lem p =
        read_is_whole p
        ∙ ap (λ (n : ℕ). read_amount C s (count cs) n b) amount
        ∙ amount_step s _ (count cs) (length (joined cs)) b (joined cs) rest front behind enough (
            validate_all cs (record s { incoming = rest }) 0
              (joined cs ++ drop (length (joined cs)) b) (drop (length (joined cs)) b) p.matching
              refl (omega (arith, length-append (joined cs) (drop (length (joined cs)) b))))
      where
        amount : count cs * s.chunk_size ≡ length (joined cs)
        amount = joined_length s.checksums s.chunk_size s.chunk_index cs p.matching

        front : take (length (joined cs)) s.incoming ≡ joined cs
        front = rw p.arriving (take_front (joined cs) rest)

        behind : drop (length (joined cs)) s.incoming ≡ rest
        behind = rw p.arriving (drop_front (joined cs) rest)

        enough : leb (length (joined cs)) (length s.incoming) ≡ true
        enough = let e = ap length p.arriving in ground (arith, length-append (joined cs) rest)
