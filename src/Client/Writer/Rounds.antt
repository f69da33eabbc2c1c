-- ===== src/Client/Writer/Rounds.antt =====
-- The loop of `FileWriter.Write`: how a round goes, and how the loop ends.
use hdfs.Prelude.{
  nil_of_length, subst, length-drop, ℕ, zero, suc, ◌+◌, ◌≤◌, ◌<◌, ◌≡◌, refl, ap, ◌∙◌, ◌⊎◌, inl, inr,
  Option, none, some, [], ◌∷◌, Bytes, arith, Option-cases, length, drop,
}
use hdfs.Prelude.Errors.{Error, ok, panic}
use hdfs.Rpc.Datatransfer.{Protocol}
use hdfs.Rpc.BlockWriter
use hdfs.Rpc.BlockWriter.{BlockWriter, Failure, end_of_block, failed}
use hdfs.Rpc.BlockWriter.Contents.{IsOpen, Wrote, write-Ends}
use hdfs.Client.Requests.{Namenode, World}
use hdfs.Client.Writer.{FileWriter, Options, Run, done, panicked}
use hdfs.Client.Writer.Blocks.{start_new_block, write_loop}
use hdfs.Client.Writer.Finalizing.{Starts, start_new_block_lem}
use hdfs.Client.Writer.Taking.{IsReady, Took, after, dialled}
use hdfs.Client.Writer.Taking.{Took-one, Took-next, Took-nothing, IsReady-fresh}

module _ (P : Protocol) (N : Namenode) (o : Options) where
  -- A run of the loop panics or returns; it counts at most the bytes of `b`, and all of them, which
  -- are taken then, if it returns no error.
  abbrev pub LoopEnds :
      FileWriter → World → ℕ → Bytes → Run (FileWriter × World × ℕ × Option Error) → Type 0
  LoopEnds f w off b run =
      (run ≡ panicked)
      ⊎ ((f' : FileWriter) × (w' : World) × (n : ℕ) × (e : Option Error) × (run
            ≡ done (f', w', n, e))
          × (n ≤ off + length b)
          × (e ≡ none → (n ≡ off + length b) × Took f w b f' w'))

  -- The ways that a round goes.
  module _ (k : ℕ) (f : FileWriter) (w : World) (off : ℕ) (x : ℕ) (b : Bytes)
      (bw : BlockWriter) where
    loop_panic :
        f.block_writer ≡ some bw
        → BlockWriter.write P bw w.dials (x ∷ b) ≡ panic
        → write_loop P N o (suc k) f w off (x ∷ b) ≡ panicked
    unfolding write_loop
    loop_panic h p = ground arith

    module _ {bw' : BlockWriter} {d n : ℕ} where
      loop_failed :
          {e : Error}
          → f.block_writer ≡ some bw
          → BlockWriter.write P bw w.dials (x ∷ b) ≡ ok (bw', d, n, some (failed e))
          → write_loop P N o (suc k) f w off (x ∷ b)
            ≡ done (after f bw', dialled w d, off + n, some e)
      unfolding write_loop
      loop_failed h p = ground arith

      loop_on :
          f.block_writer ≡ some bw
          → BlockWriter.write P bw w.dials (x ∷ b) ≡ ok (bw', d, n, none)
          → write_loop P N o (suc k) f w off (x ∷ b)
            ≡ write_loop P N o k (after f bw') (dialled w d) (off + n) (drop n (x ∷ b))
      unfolding write_loop
      loop_on h p = ground arith

      loop_stuck :
          {f' : FileWriter} {w' : World} {e : Error}
          → f.block_writer ≡ some bw
          → BlockWriter.write P bw w.dials (x ∷ b) ≡ ok (bw', d, n, some end_of_block)
          → start_new_block P N o (after f bw') (dialled w d) ≡ (f', w', some e)
          → write_loop P N o (suc k) f w off (x ∷ b) ≡ done (f', w', off + n, some e)
      unfolding write_loop
      loop_stuck h p q = ground arith

      loop_next :
          {f' : FileWriter} {w' : World}
          → f.block_writer ≡ some bw
          → BlockWriter.write P bw w.dials (x ∷ b) ≡ ok (bw', d, n, some end_of_block)
          → start_new_block P N o (after f bw') (dialled w d) ≡ (f', w', none)
          → write_loop P N o (suc k) f w off (x ∷ b)
            ≡ write_loop P N o k f' w' (off + n) (drop n (x ∷ b))
      unfolding write_loop
      loop_next h p q = ground arith

  -- The rounds that the rest of `b` may still take, for a block with or without room.
  abbrev Enough : ℕ → BlockWriter → ℕ → Type 0
  Enough fuel bw size =
      (size + size + 1 ≤ fuel) ⊎ ((size + size ≤ fuel) × (bw.offset < bw.block_size))

  loop_nil :
      (fuel : ℕ) (f : FileWriter) (w : World) (off : ℕ)
      → write_loop P N o fuel f w off [] ≡ done (f, w, off, none)
  unfolding write_loop
  loop_nil fuel f w off = refl

  ends_on :
      (k : ℕ) (f : FileWriter) (w : World) (off : ℕ) (x : ℕ) (b : Bytes) (bw bw' : BlockWriter)
      (d n : ℕ)
      → IsReady f bw
      → BlockWriter.write P bw w.dials (x ∷ b) ≡ ok (bw', d, n, none)
      → Wrote P bw (x ∷ b) bw' n none
      → LoopEnds f w off (x ∷ b) (write_loop P N o (suc k) f w off (x ∷ b))
  ends_on k f w off x b bw bw' d n r p t = inr (
    after f bw',
    dialled w d,
    off + n,
    none,
    loop_on k f w off x b bw r.current p
        ∙ ap (write_loop P N o k (after f bw') (dialled w d) (off + n))
            (nil_of_length (drop n (x ∷ b)) (omega (arith, length-drop n (x ∷ b), t.complete refl)))
        ∙ loop_nil k (after f bw') (dialled w d) (off + n),
    omega (arith, t.within),
    λ q. (omega (arith, t.complete refl), Took-one P N o f w (x ∷ b) bw bw' d n r t),
  )

  module _ (size : ℕ) (positive : 0 < size) where
    fewer :
        (k : ℕ) (x : ℕ) (b : Bytes) (bw : BlockWriter) {bw' : BlockWriter} (n : ℕ)
        → Enough (suc k) bw (length (x ∷ b))
        → Wrote P bw (x ∷ b) bw' n (some end_of_block)
        → length (drop n (x ∷ b)) + length (drop n (x ∷ b)) ≤ k
    fewer k x b bw n (inl h) t = omega (arith, length-drop n (x ∷ b), t.within)
    fewer k x b bw n (inr (h, room)) t = elim (t.progress room (omega arith)) [
      | inl p ↦ omega (arith, length-drop n (x ∷ b), t.within)
      | inr (y, e) ↦ absurd (ground arith)
    ]

    -- What `fuel` rounds do.
    abbrev Ending : ℕ → Type 0
    Ending fuel =
        (f : FileWriter) (w : World) (off : ℕ) (b : Bytes) (bw : BlockWriter)
        → f.block_size ≡ size
        → IsReady f bw
        → Enough fuel bw (length b)
        → LoopEnds f w off b (write_loop P N o fuel f w off b)

    -- After the write of a round that filled the block.
    ends_next :
        (k : ℕ) (f : FileWriter) (w : World) (off : ℕ) (x : ℕ) (b : Bytes) (bw bw' : BlockWriter)
        (d n : ℕ)
        → Ending k
        → f.block_size ≡ size
        → IsReady f bw
        → Enough (suc k) bw (length (x ∷ b))
        → BlockWriter.write P bw w.dials (x ∷ b) ≡ ok (bw', d, n, some end_of_block)
        → Wrote P bw (x ∷ b) bw' n (some end_of_block)
        → LoopEnds f w off (x ∷ b) (write_loop P N o (suc k) f w off (x ∷ b))
    ends_next k f w off x b bw bw' d n again same r h p t =
        let started = start_new_block P N o (after f bw') (dialled w d) in
        elim (Option-cases started.2) [
          | inr (e, q) ↦ inr (
            started.0,
            started.1,
            off + n,
            some e,
            loop_stuck k f w off x b bw r.current p
                (ap (λ (e : Option Error). (started.0, started.1, e)) q),
            omega (arith, t.within),
            λ q. absurd (ground arith),
          )
          | inl q ↦
              let eq : started ≡ (started.0, started.1, none) =
                ap (λ (e : Option Error). (started.0, started.1, e)) q in
              let s : Starts P N o (after f bw') (dialled w d) started.0 started.1 =
                start_new_block_lem P N o (after f bw') (dialled w d)
                  (λ c e.
                    let same : bw' ≡ c = cc in
                    subst (λ (c : BlockWriter). IsOpen c.stream) same t.still_open)
                  eq in
              let (next, ready, room) = IsReady-fresh P N o (omega (arith, same, positive)) s in
              elim (again started.0 started.1 (off + n) (drop n (x ∷ b)) next (s.same_size ∙ same)
                ready (inr (fewer k x b bw n h t, room))) [
                  | inl panics ↦ inl (loop_next k f w off x b bw r.current p eq ∙ panics)
                  | inr (f', w', m, e, run, bound, all) ↦ inr (
                    f',
                    w',
                    m,
                    e,
                    loop_next k f w off x b bw r.current p eq ∙ run,
                    omega (arith, length-drop n (x ∷ b), bound, t.within),
                    λ g.
                        let (count, took) = all g in
                        (
                          omega (arith, length-drop n (x ∷ b), count, t.within),
                          Took-next P N o f w (x ∷ b) bw bw' d n r t s took,
                        ),
                  )
                ]
        ]

    pub write_loop_ends : (fuel : ℕ) → Ending fuel
    write_loop_ends fuel f w off [] bw same r h = inr (
      f,
      w,
      off,
      none,
      loop_nil fuel f w off,
      omega arith,
      λ q. (omega arith, Took-nothing P N o f w bw r),
    )
    write_loop_ends zero f w off (x ∷ b) bw same r h = absurd (ground arith)
    write_loop_ends (suc k) f w off (x ∷ b) bw same r h =
        elim (write-Ends P bw w.dials (x ∷ b) r.is_open r.within) [
          | inl p ↦ inl (loop_panic k f w off x b bw r.current p)
          | inr (bw', d, n, none, p, t) ↦ ends_on k f w off x b bw bw' d n r p t
          | inr (bw', d, n, some (failed e), p, t) ↦ inr (
            _,
            _,
            _,
            _,
            loop_failed k f w off x b bw r.current p,
            omega (arith, t.within),
            (λ q. absurd (ground arith)),
          )
          | inr (bw', d, n, some end_of_block, p, t) ↦
              ends_next k f w off x b bw bw' d n (write_loop_ends k) same r h p t
        ]
