-- ===== src/Client/Writer/Contents.antt =====
-- What `FileWriter.Write` leaves in the blocks of a file.
use hdfs.Prelude.{
  subst, ◌+◌, ◌<◌, ◌≡◌, refl, sym, ap, ◌∙◌, ◌⊎◌, inl, inr, false, Option, none, some, Bytes, arith,
  Option-cases, length,
}
use hdfs.Prelude.Errors.{Error}
use hdfs.Rpc.Datatransfer.{Protocol}
use hdfs.Rpc.BlockWriter.{BlockWriter}
use hdfs.Client.Requests.{Namenode, World}
use hdfs.Client.Writer.{FileWriter, Options, done}
use hdfs.Client.Writer.Blocks.{start_new_block, write_loop, write}
use hdfs.Client.Writer.Finalizing.{Starts, start_new_block_lem}
use hdfs.Client.Writer.Taking.{IsReady}
use hdfs.Client.Writer.Taking.{IsReady-fresh, Took-first}
use hdfs.Client.Writer.Rounds.{LoopEnds, write_loop_ends}

module _ (P : Protocol) (N : Namenode) (o : Options) where
  -- The ways that a write starts.
  module _ (f : FileWriter) (w : World) (b : Bytes) where
    write_current :
        {bw : BlockWriter}
        → f.closed ≡ false
        → f.block_writer ≡ some bw
        → write P N o f w b ≡ write_loop P N o (length b + length b + 1) f w 0 b
    unfolding write
    write_current h e = ground arith

    module _ {f' : FileWriter} {w' : World} where
      write_first :
          f.closed ≡ false
          → f.block_writer ≡ none
          → start_new_block P N o f w ≡ (f', w', none)
          → write P N o f w b ≡ write_loop P N o (length b + length b + 1) f' w' 0 b
      unfolding write
      write_first h e k = ground arith

      write_stuck :
          {x : Error}
          → f.closed ≡ false
          → f.block_writer ≡ none
          → start_new_block P N o f w ≡ (f', w', some x)
          → write P N o f w b ≡ done (f', w', 0, some x)
      unfolding write
      write_stuck h e k = ground arith

  -- `Write` of a file that is not closed, whose blocks have a positive size and whose block writer, if
  -- there is one, is ready, never runs out of fuel: it panics or returns. It counts at most the bytes
  -- of `b`. If it returns no error, it counts all of them; they stand, in order and across the blocks,
  -- behind the bytes that the file held; each block that the calls to the namenode have finalized on
  -- the way has the block size; and a block writer is ready again.
  pub write_takes :
      (f : FileWriter) (w : World) (b : Bytes)
      → f.closed ≡ false
      → 0 < f.block_size
      → ((f.block_writer ≡ none) ⊎ ((bw : BlockWriter) × IsReady f bw))
      → LoopEnds P N o f w 0 b (write P N o f w b)
  write_takes f w b open_file positive (inr (bw, r)) =
      subst (LoopEnds P N o f w 0 b) (sym (write_current f w b open_file r.current)) (
        write_loop_ends P N o f.block_size positive (length b + length b + 1) f w 0 b bw refl r
          (inl (omega arith)))
  write_takes f w b open_file positive (inl e) =
      let started = start_new_block P N o f w in
      elim (Option-cases started.2) [
        | inr (x, q) ↦ inr (
          started.0,
          started.1,
          0,
          some x,
          write_stuck f w b open_file e (ap (λ (e : Option Error). (started.0, started.1, e)) q),
          omega arith,
          λ q. absurd (ground arith),
        )
        | inl q ↦
            let eq : started ≡ (started.0, started.1, none) =
              ap (λ (e : Option Error). (started.0, started.1, e)) q in
            let s : Starts P N o f w started.0 started.1 =
              start_new_block_lem P N o f w (λ bw h. absurd (ground arith)) eq in
            let (next, ready, room) = IsReady-fresh P N o positive s in
            elim (write_loop_ends P N o f.block_size positive (length b + length b + 1) started.0
              started.1 0 b next s.same_size ready (inl (omega arith))) [
                | inl panics ↦ inl (write_first f w b open_file e eq ∙ panics)
                | inr (f', w', n, x, run, bound, all) ↦ inr (
                  f',
                  w',
                  n,
                  x,
                  write_first f w b open_file e eq ∙ run,
                  bound,
                  λ g. let (count, took) = all g in (count, Took-first P N o f w b e s took),
                )
              ]
      ]
