-- ===== src/Rpc/ReadStream/Small.antt =====
-- Reads of a buffer that is smaller than a chunk, and of one that is larger than a short chunk.
use hdfs.Prelude.{
  append-nil, ap, drop_all, ◌∙◌, drop_front, take_front, sym, length-append, ℕ, ◌+◌, ◌*◌, ◌≤◌, ◌<◌,
  ◌≡◌, ◌≢◌, refl, true, none, [], ◌++◌, Bytes, length, take, drop, arith, min, leb,
}
use hdfs.Prelude.Errors.{Error, ok, err}
use hdfs.Rpc.ReadStream.{
  read_chunk, Codec, ReadStream, from_big_endian, validate_checksum, read_buffered, read_small,
  read_packet, read,
}

module _ (C : Codec) where
  open C use {crc}

  -- The checksum of the current chunk.
  abbrev pub current_sum : ReadStream → Bytes
  current_sum s = take 4 (drop (4 * s.chunk_index) s.checksums)

  validate_good :
      (s : ReadStream) (b : Bytes)
      → length (current_sum s) ≡ 4
      → from_big_endian 0 (current_sum s) ≡ crc b
      → validate_checksum C s b ≡ ok tt
  unfolding validate_checksum
  validate_good s b h k = ground arith

  -- A wrong checksum.
  pub validate_bad :
      (s : ReadStream) (b : Bytes)
      → length (current_sum s) ≡ 4
      → from_big_endian 0 (current_sum s) ≢ crc b
      → validate_checksum C s b ≡ err Error.invalid_checksum
  unfolding validate_checksum
  validate_bad s b h k = ground arith

  read_buffered_front :
      (s : ReadStream) (b : Bytes)
      → length b ≤ length s.chunk
      → read_buffered C s b
        ≡ (record s { chunk = drop (length b) s.chunk }, take (length b) s.chunk, length b)
  unfolding read_buffered
  read_buffered_front s b h =
      let n : min (length b) (length s.chunk) ≡ length b = omega arith in
      rw (n, drop_all (length b) b (omega arith), append-nil (take (length b) s.chunk)) refl

  module _ (s : ReadStream) (content rest b : Bytes) where
    -- A stream before a chunk `content`, with nothing buffered.
    pub record IsBefore : Type 0 where
      pub arriving : s.incoming ≡ content ++ rest
      pub whole : length content ≡ s.chunk_size
      pub nothing : s.chunk ≡ []
      pub more : s.chunk_index < s.num_chunks
      pub in_packet : s.chunk_index * s.chunk_size + s.chunk_size ≤ s.packet_length
      pub has_sum : length (current_sum s) ≡ 4

    -- The stream with the chunk in its buffer.
    abbrev pub buffered : ReadStream
    buffered = record s { incoming = rest; chunk = content }

    read_is_small : IsBefore → length b < s.chunk_size → read C s b ≡ read_chunk C s s.chunk_size b
    unfolding read read_packet read_small
    read_is_small p h =
        let q = p.more in let r = p.nothing in let room = p.in_packet in ground arith

    arrives :
        IsBefore
        → (leb s.chunk_size (length s.incoming) ≡ true)
          × (s.chunk ++ take s.chunk_size s.incoming ≡ content)
          × (drop s.chunk_size s.incoming ≡ rest)
    arrives p =
        let e = p.arriving in
        let l = p.whole in
        (
          ground (arith, length-append content rest),
          rw (p.nothing, sym l, e) (take_front content rest),
          rw (sym l, e) (drop_front content rest),
        )

    read_good :
        IsBefore
        → from_big_endian 0 (current_sum s) ≡ crc content
        → let (s', b', n) =
            read_buffered C (record buffered { chunk_index = s.chunk_index + 1 }) b in
          read_chunk C s s.chunk_size b ≡ ok (s', b', n, none)
    unfolding read_chunk
    read_good p k =
        let (same, fetched, left) = arrives p in
        let good = validate_good buffered content p.has_sum k in
        rw (read_chunk, same, fetched, left, good) (rw (fetched, left) refl)

    read_bad :
        IsBefore
        → from_big_endian 0 (current_sum s) ≢ crc content
        → read_chunk C s s.chunk_size b ≡ ok (buffered, b, 0, none)
    unfolding read_chunk
    read_bad p k =
        let (same, fetched, left) = arrives p in
        let bad = validate_bad buffered content p.has_sum k in
        rw (read_chunk, same, fetched, left, bad) (rw (fetched, left) refl)

    read_rest :
        IsBefore
        → length b < s.chunk_size
        → read C buffered b
          ≡ ok (
            record buffered { chunk = drop (length b) content },
            take (length b) content,
            length b,
            none,
          )
    unfolding read read_packet
    read_rest p h =
        let q = p.more in
        let l = p.whole in
        let front = read_buffered_front buffered b (omega (arith, l)) in ground arith

    -- The read of a buffer smaller than the chunk that comes next, with nothing buffered. If the
    -- checksum is right, the front of the chunk is read and the chunk counts as read, its rest
    -- being buffered. If it is wrong, the read takes nothing and reports no error, and the next read
    -- gives out the front of the wrong chunk, with no error either.
    pub read_small_lem :
        IsBefore
        → length b < s.chunk_size
        → (from_big_endian 0 (current_sum s) ≡ crc content
            → read C s b
              ≡ ok (
                record buffered {
                  chunk = drop (length b) content;
                  chunk_index = s.chunk_index + 1;
                },
                take (length b) content,
                length b,
                none,
              ))
          × (from_big_endian 0 (current_sum s) ≢ crc content
              → (read C s b ≡ ok (buffered, b, 0, none))
                × (read C buffered b
                    ≡ ok (
                      record buffered { chunk = drop (length b) content },
                      take (length b) content,
                      length b,
                      none,
                    )))
    read_small_lem p h = (
      (λ k.
          read_is_small p h
          ∙ read_good p k
          ∙ ap (λ (r : ReadStream × Bytes × ℕ). ok (r.0, r.1, r.2, none))
              (read_buffered_front (record buffered { chunk_index = s.chunk_index + 1 }) b
                (omega (arith, p.whole)))),
      λ k. (read_is_small p h ∙ read_bad p k, read_rest p h),
    )
