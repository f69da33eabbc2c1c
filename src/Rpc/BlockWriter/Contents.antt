-- ===== src/Rpc/BlockWriter/Contents.antt =====
-- A block writer takes the bytes in order, as many as the block has room for.
use hdfs.Prelude.{
  subst, ℕ, ◌+◌, ◌-◌, ◌≤◌, ◌<◌, ◌≡◌, refl, sym, ap, ◌∙◌, ◌⊎◌, inl, inr, Bool, true, false, Option,
  none, some, [], ◌++◌, Bytes, length, take, arith, append-nil, append_assoc, length-take, take_all,
  leb, Bool-cases, Option-cases,
}
use hdfs.Prelude.Errors.{Result-cases, Error, ok, err, panic}
use hdfs.Rpc.Datatransfer.{Conn, Protocol, stream_environment}
use hdfs.Rpc.WriteStream.{new_block_write_stream, WriteStream, get_ack_error}
use hdfs.Rpc.WriteStream.Packets.{taken}
use hdfs.Rpc.WriteStream.Sending.{taken-Sends, write_lem}
use hdfs.Rpc.BlockWriter.{
  Failure, end_of_block, failed, block_full, fitting, BlockWriter, connect_next, write_stream,
  write,
}

-- The bytes that the block's stream has taken.
abbrev pub stream_contents : Option (Conn × WriteStream) → Bytes
stream_contents none = []
stream_contents (some (conn, s)) = taken s

abbrev pub contents : BlockWriter → Bytes
contents bw = stream_contents bw.stream

-- The stream has not been finished.
abbrev pub IsOpen : Option (Conn × WriteStream) → Type 0
IsOpen none = Unit
IsOpen (some (conn, s)) = (s.closed ≡ false) × (s.acks_done ≡ false)

module _ (P : Protocol) where
  write_stream_lem :
      (bw : BlockWriter) (conn : Conn) (s : WriteStream) (b : Bytes) (full : Bool)
      → IsOpen (some (conn, s))
      → let (bw', n, e) = write_stream P bw (conn, s) b full in
        (n ≡ length b)
        × (bw'.offset ≡ bw.offset + length b)
        × (bw'.block_size ≡ bw.block_size)
        × IsOpen bw'.stream
        × (contents bw' ≡ taken s ++ b)
        × (e ≡ none → full ≡ false)
        × (e ≡ some end_of_block → full ≡ true)
  unfolding write_stream
  write_stream_lem bw conn s b full (is_open, running) =
      let (n, sends, _small) = write_lem (stream_environment P conn) s b is_open quiet in
      (
        n,
        ap (λ (k : ℕ). bw.offset + k) n,
        refl,
        (sends.still_closed ∙ is_open, sends.same_done ∙ running),
        taken-Sends _ _ _ sends ∙ sym (append_assoc _ s.buf b),
        (λ e. ground arith),
        λ e. ground arith,
      )
    where
      quiet : get_ack_error s ≡ none
      quiet = unfold get_ack_error in rw running

  -- A write of `bw` that took `n` bytes of `b`.
  pub record Wrote (bw : BlockWriter) (b : Bytes) (bw' : BlockWriter) (n : ℕ) (e : Option Failure)
      : Type 0 where
    pub within : n ≤ length b
    pub moved : bw'.offset ≡ bw.offset + n
    pub same_size : bw'.block_size ≡ bw.block_size
    pub no_overrun : bw'.offset ≤ bw'.block_size
    pub still_open : IsOpen bw'.stream
    pub content : contents bw' ≡ contents bw ++ take n b
    pub complete : e ≡ none → n ≡ length b
    pub at_end : e ≡ some end_of_block → bw'.offset ≡ bw'.block_size
    pub progress :
        bw.offset < bw.block_size → 0 < length b → (0 < n) ⊎ ((x : Error) × (e ≡ some (failed x)))

  fitting_lem :
      (bw : BlockWriter) (b : Bytes)
      → bw.offset ≤ bw.block_size
      → let n = length (fitting bw b) in
        (n ≤ length b)
        × (bw.offset + n ≤ bw.block_size)
        × (take n b ≡ fitting bw b)
        × (block_full bw b ≡ false → n ≡ length b)
        × (block_full bw b ≡ true → bw.offset + n ≡ bw.block_size)
        × (bw.offset < bw.block_size → 0 < length b → 0 < n)
  fitting_lem bw b h = elim (Bool-cases (block_full bw b)) [
    | inl full ↦
        let k = bw.block_size - bw.offset in
        let size : length (take k b) ≡ k = ground (arith, length-take k b) in
        rw (full, size)
          (
            ground (arith, length-take k b),
            omega arith,
            refl,
            (λ e. cc),
            (λ e. omega arith),
            λ p q. omega arith,
          )
    | inr room ↦ rw room (
      omega arith,
      ground arith,
      take_all (length b) b (omega arith),
      (λ e. refl),
      (λ e. cc),
      λ p q. q,
    )
  ]

  -- The ways that a write goes.
  module _ (bw : BlockWriter) (dials : ℕ) (b : Bytes) where
    write_full :
        bw.block_size ≤ bw.offset → write P bw dials b ≡ ok (bw, dials, 0, some end_of_block)
    unfolding write
    write_full h = ground arith

    write_on :
        {s : Conn × WriteStream}
        → bw.offset < bw.block_size
        → bw.stream ≡ some s
        → let (bw', n, e) = write_stream P bw s (fitting bw b) (block_full bw b) in
          write P bw dials b ≡ ok (bw', dials, n, e)
    unfolding write
    write_on h k = ground arith

    write_connected :
        {s : Conn × WriteStream}
        → bw.offset < bw.block_size
        → bw.stream ≡ none
        → connect_next P bw dials ≡ ok s
        → let (bw', n, e) = write_stream P bw s (fitting bw b) (block_full bw b) in
          write P bw dials b ≡ ok (bw', dials + 1, n, e)
    unfolding write
    write_connected h k l = ground arith

    write_unconnected :
        {e : Error}
        → bw.offset < bw.block_size
        → bw.stream ≡ none
        → connect_next P bw dials ≡ err e
        → write P bw dials b ≡ ok (bw, dials + 1, 0, some (failed e))
    unfolding write
    write_unconnected h k l = ground arith

    write_panic :
        bw.offset < bw.block_size
        → bw.stream ≡ none
        → connect_next P bw dials ≡ panic
        → write P bw dials b ≡ panic
    unfolding write
    write_panic h k l = ground arith

  -- A new connection has an open stream that has taken nothing.
  connect_next_lem :
      (bw : BlockWriter) (dials : ℕ) (conn : Conn) (s : WriteStream)
      → connect_next P bw dials ≡ ok (conn, s)
      → IsOpen (some (conn, s)) × (taken s ≡ [])
  unfolding connect_next new_block_write_stream
  connect_next_lem bw dials conn s h = ground arith

  Wrote-write_stream :
      (bw : BlockWriter) (conn : Conn) (s : WriteStream) (b : Bytes)
      → bw.offset ≤ bw.block_size
      → IsOpen (some (conn, s))
      → taken s ≡ contents bw
      → let (bw', n, e) = write_stream P bw (conn, s) (fitting bw b) (block_full bw b) in
        Wrote bw b bw' n e
  Wrote-write_stream bw conn s b h o same =
      let (n, at, size, still, content, whole, cut) =
        write_stream_lem bw conn s (fitting bw b) (block_full bw b) o in
      let (short, room, front, all, filled, some_taken) = fitting_lem bw b h in
      record {
        within = omega (arith, n, short);
        moved = omega (arith, n, at);
        same_size = size;
        no_overrun = omega (arith, at, size, room);
        still_open = still;
        content = content ∙ rw (n, front, same);
        complete = λ e. n ∙ all (whole e);
        at_end = λ e. omega (arith, at, size, filled (cut e));
        progress = λ p q. inl (omega (arith, n, some_taken p q));
      }

  -- How a write ends: it panics, or it takes a front part of `b`.
  abbrev pub Ends : BlockWriter → ℕ → Bytes → Type 0
  Ends bw dials b =
      (write P bw dials b ≡ panic)
      ⊎ ((bw' : BlockWriter) × (d : ℕ) × (n : ℕ) × (e : Option Failure) × (write P bw dials b
            ≡ ok (bw', d, n, e))
          × Wrote bw b bw' n e)

  Wrote-none :
      (bw : BlockWriter) (b : Bytes) (e : Failure)
      → IsOpen bw.stream
      → bw.offset ≤ bw.block_size
      → (e ≡ end_of_block → bw.offset ≡ bw.block_size)
      → (bw.offset < bw.block_size → (x : Error) × (e ≡ failed x))
      → Wrote bw b bw 0 (some e)
  Wrote-none bw b e o h at other = record {
    within = omega arith;
    moved = omega arith;
    same_size = refl;
    no_overrun = h;
    still_open = o;
    content = sym (append-nil (contents bw));
    complete = λ x. cc;
    at_end = λ x. at (cc);
    progress = λ p q. let (x, y) = other p in inr (x, ap some y);
  }

  -- `Write` of a block writer whose stream has not been finished and whose offset lies in the block
  -- panics or returns. Then it has taken a front part of `b`, in order and behind what the block
  -- holds; the offset has moved by its length and not beyond the block size; the stream is still not
  -- finished; and without an error all of `b` is taken.
  pub write-Ends :
      (bw : BlockWriter) (dials : ℕ) (b : Bytes)
      → IsOpen bw.stream
      → bw.offset ≤ bw.block_size
      → Ends bw dials b
  write-Ends bw dials b o h = elim (Bool-cases (leb bw.block_size bw.offset)) [
    | inl full ↦ inr (
      bw,
      dials,
      0,
      some end_of_block,
      write_full bw dials b (ground arith),
      Wrote-none bw b end_of_block o h (λ e. ground arith) (λ p. absurd (ground arith)),
    )
    | inr room ↦ elim (Option-cases bw.stream) [
      | inr ((conn, s), e) ↦ inr (
        _,
        _,
        _,
        _,
        write_on bw dials b (ground arith) e,
        Wrote-write_stream bw conn s b h (subst IsOpen e o) (sym (ap stream_contents e)),
      )
      | inl e ↦ elim (Result-cases (connect_next P bw dials)) [
        | inl ((conn, s), c) ↦
            let (fresh, nothing) = connect_next_lem bw dials conn s c in
            inr (
              _,
              _,
              _,
              _,
              write_connected bw dials b (ground arith) e c,
              Wrote-write_stream bw conn s b h fresh (nothing ∙ sym (ap stream_contents e)),
            )
        | inr (inl (x, c)) ↦ inr (
          bw,
          dials + 1,
          0,
          some (failed x),
          write_unconnected bw dials b (ground arith) e c,
          Wrote-none bw b (failed x) o h (λ e. cc) (λ p. (x, refl)),
        )
        | inr (inr c) ↦ inl (write_panic bw dials b (ground arith) e c)
      ]
    ]
  ]
