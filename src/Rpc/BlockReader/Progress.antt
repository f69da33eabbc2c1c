-- ===== src/Rpc/BlockReader/Progress.antt =====
-- Reads of the stream of a block, and what they leave of the connection.
use hdfs.Prelude.{
  ℕ, zero, suc, ◌+◌, ◌-◌, ◌*◌, ◌/◌, ◌≤◌, ◌<◌, ◌≡◌, ◌≢◌, min, refl, sym, ap, ◌∙◌, inl, inr, Bool,
  Option, none, ◌++◌, Bytes, length, take, drop, arith, leb, ltb, ◌==◌, if◌then◌else◌, Bool-cases,
  Option-cases, length-take, length-drop, length-append,
}
use hdfs.Prelude.Errors.{Error, ok, panic, Result-cases}
use hdfs.Rpc.ReadStream.{
  Codec, ReadStream, new_block_read_stream, ceil_div, copy_error, read_full_error,
  validate_checksum, read_packet_header, start_packet, read_buffered, read_chunk, read_small,
  validate_chunks, chunks_read, read_amount, read_chunks, read_packet, read, from_big_endian,
}
use native.Mathlib.Nat.{
  lt-div-mul-add, suc-mul, add-mul, le-div_iff_mul-le, div-eq_of_lt, div-mul-le_self,
}

-- What the fields of a stream say about one another.
pub record IsSound (s : ReadStream) : Type 0 where
  pub positive : 0 < s.chunk_size
  pub num : s.num_chunks ≡ ceil_div s.packet_length s.chunk_size
  pub index : s.chunk_index ≤ s.num_chunks
  pub sums : length s.checksums ≤ 4 * s.num_chunks

-- What is left, where a byte on the connection counts twice.
abbrev pub measure : ReadStream → ℕ
measure s = 2 * length s.incoming + length s.chunk

-- From one stream to the next: never more is left, and less in the middle of a packet.
pub record Progresses (s s' : ReadStream) : Type 0 where
  pub sound : IsSound s'
  pub no_more : measure s' ≤ measure s
  pub less : s.chunk_index < s.num_chunks → measure s' < measure s

pub new-IsSound :
    (b : Bytes) (chunk_size : ℕ) → 0 < chunk_size → IsSound (new_block_read_stream b chunk_size)
unfolding new_block_read_stream
new-IsSound b cs h = record {
  positive = h;
  num = sym (div-eq_of_lt {n = 0 + (cs - 1)} {m = cs} (omega arith));
  index = omega arith;
  sums = omega arith;
}

-- A chunk that is left of a packet has bytes.
in_packet :
    (s : ReadStream)
    → IsSound s
    → s.chunk_index < s.num_chunks
    → s.chunk_index * s.chunk_size < s.packet_length
in_packet s h more =
    let q : suc s.chunk_index ≤ (s.packet_length + (s.chunk_size - 1)) / s.chunk_size =
      omega (arith, h.num) in
    let m = (le-div_iff_mul-le h.positive).0 q in
    let p = h.positive in let e = suc-mul s.chunk_index s.chunk_size in omega arith

-- Whole chunks that fit what is left of a packet.
fits_packet :
    (s : ReadStream) (amount : ℕ)
    → IsSound s
    → amount ≤ s.packet_length - s.chunk_index * s.chunk_size
    → 0 < amount
    → s.chunk_index + amount / s.chunk_size ≤ s.num_chunks
fits_packet s amount h fits some_left =
    let q = amount / s.chunk_size in
    let m : q * s.chunk_size ≤ amount = div-mul-le_self amount s.chunk_size in
    let e = add-mul s.chunk_index q s.chunk_size in
    let k =
      (le-div_iff_mul-le {x = s.chunk_index + q} {y = s.packet_length + (s.chunk_size - 1)}
          h.positive).1
        (omega arith) in
    omega (arith, h.num)

module _ (C : Codec) where
  validate_checksum_has_sum :
      (s : ReadStream) (b : Bytes)
      → validate_checksum C s b ≢ panic
      → 4 * s.chunk_index + 4 ≤ length s.checksums
  unfolding validate_checksum
  validate_checksum_has_sum s b h =
      let sum = take 4 (drop (4 * s.chunk_index) s.checksums) in
      elim (Bool-cases (ltb (length sum) 4)) [
        | inl short ↦ absurd (h (ground arith))
        | inr long ↦
            let l = length-take 4 (drop (4 * s.chunk_index) s.checksums) in
            let l' = length-drop (4 * s.chunk_index) s.checksums in
            let k : 4 ≤ length sum = ground arith in omega arith
      ]

  validate_chunks_end :
      (chunks : ℕ) (s s' : ReadStream) (off : ℕ) (b : Bytes)
      → validate_chunks C chunks s off b ≡ ok (s', none)
      → s' ≡ record s { chunk_index = s.chunk_index + chunks }
  unfolding validate_chunks
  validate_chunks_end zero s s' off b h =
      let e : s' ≡ s = ground arith in
      let k : s.chunk_index ≡ s.chunk_index + 0 = omega arith in
      e ∙ ap (λ i. record s { chunk_index = i }) k
  validate_chunks_end (suc chunks) s s' off b h =
      let end = if leb (length b) (off + s.chunk_size) then length b else off + s.chunk_size in
      elim (Result-cases (validate_checksum C s (take (end - off) (drop off b)))) [
        | inl (u, k) ↦
            validate_chunks_end chunks (record s { chunk_index = s.chunk_index + 1 }) s'
              (off + s.chunk_size) b (ground arith)
            ∙ ap (λ i. record s { chunk_index = i })
                (let e : s.chunk_index + 1 + chunks ≡ s.chunk_index + suc chunks = omega arith in e)
        | inr (inl (e, k)) ↦ absurd (ground arith)
        | inr (inr k) ↦ absurd (ground arith)
      ]

  module _ (s s' : ReadStream) (b b' : Bytes) (n : ℕ) where
    taken :
        (chunks amount : ℕ)
        → IsSound s
        → s.chunk_index + chunks ≤ s.num_chunks
        → (s.chunk_index < s.num_chunks → 0 < amount)
        → amount ≤ length s.incoming
        → Progresses s
            (record s { incoming = drop amount s.incoming; chunk_index = s.chunk_index + chunks })
    taken chunks amount h fits some_left inside =
        let l = length-drop amount s.incoming in
        record {
          sound = record { positive = h.positive; num = h.num; index = fits; sums = h.sums };
          no_more = omega arith;
          less = λ k. let m = some_left k in omega arith;
        }

    -- A chunk that is buffered, of which `out` bytes are given out.
    buffers :
        (size out index : ℕ)
        → IsSound s
        → index ≤ s.num_chunks
        → (s.chunk_index < s.num_chunks → 0 < size)
        → size ≤ length s.incoming
        → Progresses s (record s {
          incoming = drop size s.incoming;
          chunk = drop out (s.chunk ++ take size s.incoming);
          chunk_index = index;
        })
    buffers size out index h fits some_left inside =
        let l = length-drop size s.incoming in
        let l1 = length-take size s.incoming in
        let l2 = length-append s.chunk (take size s.incoming) in
        let l3 = length-drop out (s.chunk ++ take size s.incoming) in
        record {
          sound = record { positive = h.positive; num = h.num; index = fits; sums = h.sums };
          no_more = omega arith;
          less = λ k. let m = some_left k in omega arith;
        }

    -- A read of whole chunks.
    read_amount-Progresses :
        (chunks amount : ℕ)
        → IsSound s
        → s.chunk_index + chunks ≤ s.num_chunks
        → (s.chunk_index < s.num_chunks → 0 < amount)
        → read_amount C s chunks amount b ≡ ok (s', b', n, none)
        → Progresses s s'
    unfolding read_amount chunks_read
    read_amount-Progresses chunks amount h fits some_left e =
        let got = take amount s.incoming in
        let all = got ++ drop (length got) b in
        let s1 : ReadStream = record s { incoming = drop amount s.incoming } in
        elim (Option-cases (read_full_error amount s.incoming)) [
          | inr (x, k) ↦ absurd (ground arith)
          | inl k ↦ elim (Result-cases (validate_chunks C chunks s1 0 all)) [
            | inr (inl (x, l)) ↦ absurd (ground arith)
            | inr (inr l) ↦ absurd (ground arith)
            | inl (r, l) ↦
                let (s2, o) = r in
                elim (Option-cases o) [
                  | inr (x, m) ↦ absurd (ground arith)
                  | inl m ↦
                      let same : s' ≡ s2 = ground arith in
                      let ends =
                        validate_chunks_end chunks s1 s2 0 all (l ∙ ap (λ o. ok (s2, o)) m) in
                      rw (same, ends) (taken chunks amount h fits some_left (ground arith))
                ]
          ]
        ]

    read_small-Progresses :
        (remaining : ℕ)
        → IsSound s
        → (s.chunk_index < s.num_chunks → 0 < remaining)
        → read_small C s remaining b ≡ ok (s', b', n, none)
        → Progresses s s'
    unfolding read_small read_chunk read_buffered
    read_small-Progresses remaining h some_left e =
        let size = if ltb remaining s.chunk_size then remaining else s.chunk_size in
        let p = h.positive in
        let some_size : s.chunk_index < s.num_chunks → 0 < size =
          λ k. let m = some_left k in ground arith in
        let s1 : ReadStream = record s {
          incoming = drop size s.incoming;
          chunk = s.chunk ++ take size s.incoming;
        } in
        elim (Option-cases (copy_error size s.incoming)) [
          | inr (x, k) ↦ absurd (ground arith)
          | inl k ↦
              let inside : size ≤ length s.incoming = ground arith in
              elim (Result-cases (validate_checksum C s1 s1.chunk)) [
                | inr (inr l) ↦ absurd (ground arith)
                | inr (inl (x, l)) ↦
                    let same : s' ≡ s1 = ground arith in
                    rw same (buffers size 0 s.chunk_index h h.index some_size inside)
                | inl (u, l) ↦
                    let same : s' ≡ record s1 {
                      chunk_index = s.chunk_index + 1;
                      chunk = drop (min (length b) (length s1.chunk)) s1.chunk;
                    } =
                      ground arith in
                    let has =
                      validate_checksum_has_sum s1 s1.chunk (λ bad. absurd (ground arith)) in
                    let sums = h.sums in
                    rw same (
                      buffers size (min (length b) (length s1.chunk)) (s.chunk_index + 1) h
                        (omega arith) some_size inside)
              ]
        ]

    read_chunks-Progresses :
        IsSound s
        → s.chunk_size ≤ length b
        → read_chunks C s (s.packet_length - s.chunk_index * s.chunk_size) b ≡ ok (s', b', n, none)
        → Progresses s s'
    unfolding read_chunks
    read_chunks-Progresses h large e =
        let remaining = s.packet_length - s.chunk_index * s.chunk_size in
        let p = h.positive in
        elim (Bool-cases (ltb remaining (length b))) [
          | inl short ↦
              read_amount-Progresses (s.num_chunks - s.chunk_index) remaining h
                (let i = h.index in omega arith) (λ k. let m = in_packet s h k in omega arith)
                (ground arith)
          | inr long ↦
              read_amount-Progresses (length b / s.chunk_size)
                (length b / s.chunk_size * s.chunk_size) h
                (fits_packet s (length b) h (ground arith) (omega arith))
                (λ k. let m = lt-div-mul-add {a = length b} p in omega arith) (ground arith)
        ]

    -- A read in a packet.
    read_packet-Progresses :
        IsSound s → 0 < length b → read_packet C s b ≡ ok (s', b', n, none) → Progresses s s'
    unfolding read_packet read_buffered
    read_packet-Progresses h some_room e =
        let remaining = s.packet_length - s.chunk_index * s.chunk_size in
        elim (Bool-cases (ltb 0 (length s.chunk))) [
          | inl buffered ↦
              let out = min (length b) (length s.chunk) in
              let same : s' ≡ record s { chunk = drop out s.chunk } = ground arith in
              let l = length-drop out s.chunk in
              let some_chunk : 0 < length s.chunk = ground arith in
              rw same (record {
                sound = record {
                  positive = h.positive;
                  num = h.num;
                  index = h.index;
                  sums = h.sums;
                };
                no_more = omega arith;
                less = λ k. omega arith;
              })
          | inr none_left ↦ elim (Bool-cases (ltb (length b) s.chunk_size)) [
            | inl small ↦
                read_small-Progresses remaining h (λ k. let m = in_packet s h k in omega arith)
                  (ground arith)
            | inr large ↦ read_chunks-Progresses h (ground arith) (ground arith)
          ]
        ]

  read_packet_header_takes :
      (incoming : Bytes)
      → (read_packet_header C incoming).2 ≡ none
      → length (read_packet_header C incoming).1 + 6 ≤ length incoming
  unfolding read_packet_header
  read_packet_header_takes incoming h =
      let size = from_big_endian 0 (drop 4 (take 6 incoming)) in
      let rest = drop 6 incoming in
      let l1 = length-drop 6 incoming in
      let l2 = length-drop size rest in
      elim (Option-cases (read_full_error 6 incoming)) [
        | inr (x, k) ↦ absurd (ground arith)
        | inl k ↦ elim (Option-cases (read_full_error size rest)) [
          | inr (x, l) ↦ absurd (ground arith)
          | inl l ↦
              let whole : 6 ≤ length incoming = ground arith in
              let same : (read_packet_header C incoming).1 ≡ drop size rest = ground arith in
              rw same (omega arith)
        ]
      ]

  module _ (s : ReadStream) where
    abbrev header : (ℕ × Bool) × Bytes × Option Error
    header = read_packet_header C s.incoming

    abbrev sums_size : ℕ
    sums_size = ceil_div header.0.0 s.chunk_size * 4

    -- The stream behind the header of a packet and its checksums.
    abbrev packet_started : ReadStream
    packet_started = record s {
      incoming = drop sums_size header.1;
      checksums = take sums_size header.1;
      packet_length = header.0.0;
      num_chunks = ceil_div header.0.0 s.chunk_size;
      chunk_index = 0;
      last_packet = header.0.1;
    }

    start_packet_inv :
        (start_packet C s).1 ≡ none
        → (header.2 ≡ none)
          × (sums_size ≤ length header.1)
          × ((start_packet C s).0 ≡ packet_started)
    unfolding start_packet
    start_packet_inv h = elim (Option-cases header.2) [
      | inr (x, k) ↦ absurd (ground arith)
      | inl k ↦ elim (Option-cases (copy_error sums_size header.1)) [
        | inr (x, l) ↦ absurd (ground arith)
        | inl l ↦ (k, ground arith, ground arith)
      ]
    ]

    -- A packet that starts.
    start_packet-IsSound :
        0 < s.chunk_size
        → (start_packet C s).1 ≡ none
        → IsSound (start_packet C s).0 × (measure (start_packet C s).0 < measure s)
    start_packet-IsSound positive h =
        let (k, inside, same) = start_packet_inv h in
        let takes = read_packet_header_takes s.incoming k in
        let l1 = length-take sums_size header.1 in
        let l2 = length-drop sums_size header.1 in
        rw same (
          record { positive = positive; num = refl; index = omega arith; sums = omega arith },
          omega arith,
        )

  -- A read into a buffer that is not empty, if it reports no error, leaves less, in such a stream.
  pub read-Progresses :
      (s s' : ReadStream) (b b' : Bytes) (n : ℕ)
      → IsSound s
      → 0 < length b
      → read C s b ≡ ok (s', b', n, none)
      → IsSound s' × (measure s' < measure s)
  unfolding read
  read-Progresses s s' b b' n h some_room e = elim (Bool-cases (s.chunk_index == s.num_chunks)) [
    | inr inside ↦
        let i = h.index in
        let p = read_packet-Progresses s s' b b' n h some_room (ground arith) in
        (p.sound, p.less (ground arith))
    | inl at_end ↦ elim (Bool-cases s.last_packet) [
      | inl last ↦ absurd (ground arith)
      | inr more ↦ elim (Option-cases (start_packet C s).1) [
        | inr (x, k) ↦ absurd (ground arith)
        | inl k ↦
            let (sound, less) = start_packet-IsSound s h.positive k in
            let p =
              read_packet-Progresses (start_packet C s).0 s' b b' n sound some_room
                (ground arith) in
            let no_more = p.no_more in (p.sound, omega arith)
      ]
    ]
  ]
