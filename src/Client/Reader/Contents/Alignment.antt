-- ===== src/Client/Reader/Contents/Alignment.antt =====
-- `Read` of a file, and the position of the reader of the block.
use hdfs.Prelude.{
  subst, ℕ, zero, suc, ◌+◌, ◌≡◌, ◌≢◌, ◌<◌, refl, sym, ap, ◌∙◌, ◌⊎◌, inl, inr, none, some, List, [],
  ◌∷◌, Bytes, length, String, arith, Bool-cases, Option-cases,
}
use hdfs.Prelude.Int.{pos, ltb_ℤ}
use hdfs.Prelude.Errors.{Error, is_eof}
use hdfs.Rpc.Datatransfer.{LocatedBlock}
use hdfs.Rpc.Failover.Timed.{AreTimed}
use hdfs.Rpc.Reading.{ReadProtocol, Datanodes}
use hdfs.Rpc.BlockReader.{returned, close}
use hdfs.Rpc.BlockReader.Connecting.{IsUsable}
use hdfs.Rpc.BlockReader.Rounds.{read_block-Ends}
use hdfs.Client.Requests.{Namenode, World}
use hdfs.Client.Writer.{Options}
use hdfs.Client.Reader.{FileReader, size, block_at, get_blocks, get_new_block_reader}
use hdfs.Client.Reader.Contents.{FileRead, file_returned, read_file_loop, read_blocks, read_file}
use hdfs.Client.Reader.Contents.Rounds.{
  HasReader, IsAligned, FileEnds, new_reader-HasReader, no_new_reader, round_goes, round_ends,
  round_fails, Goes-FileEnds,
}

module _ (R : ReadProtocol) (N : Namenode) (o : Options) (base : String → String) (u : IsUsable R)
    (clocked : (n : ℕ) → R.clock n ≢ 0) where
  loop-FileEnds :
      (fuel : ℕ) (f : FileReader) (w : World) (net : Datanodes) (b : Bytes)
      → AreTimed net.failures
      → HasReader f
      → FileEnds R N o base f.offset (read_file_loop R N o base fuel f w net b)
  unfolding read_file_loop close
  loop-FileEnds zero f w net b timed h = inr (inl refl)
  loop-FileEnds (suc fuel) f w net b timed (br, has, at) =
      elim (read_block-Ends R u clocked br net b timed) [
        | inl (closed, k) ↦
            let f1 : FileReader = record f { block_reader = none; offset = f.offset + 0 } in
            inr (
              inr (
                f1,
                w,
                net,
                b,
                0,
                some Error.closed_pipe,
                ground arith,
                refl,
                inl refl,
                inr (Error.closed_pipe, refl),
              ))
        | inr (open_reader, inl k) ↦ inl (ground arith)
        | inr (open_reader, inr (br', net', b', n, e, k, same_block, timed', moved, kind)) ↦
            let at' : br'.block.offset + br'.offset ≡ f.offset + n =
              let l = ap (λ (c : LocatedBlock). c.offset) same_block in omega arith in
            let rest =
              λ (g : FileReader) (h : HasReader g). loop-FileEnds fuel g w net' b' timed' h in
            elim (Option-cases e) [
              | inl l ↦
                  Goes-FileEnds R N o base fuel f w net net' b b' br br' n has at'
                    (round_goes R N o base fuel f w net net' b b' br br' n has
                      (k ∙ ap (λ e. returned br' net' b' n e) l))
                    rest
              | inr (x, l) ↦ elim (Bool-cases (is_eof x)) [
                | inl ends ↦
                    let end : x ≡ Error.eof = ground arith in
                    Goes-FileEnds R N o base fuel f w net net' b b' br br' n has at'
                      (round_ends R N o base fuel f w net net' b b' br br' n has
                        (k ∙ ap (λ e. returned br' net' b' n e) (l ∙ ap some end)))
                      rest
                | inr other ↦
                    rw
                      (round_fails R N o base fuel f w net net' b b' br br' n has x other
                        (k ∙ ap (λ e. returned br' net' b' n e) l))
                      (inr (
                        inr (
                          record f { block_reader = none; offset = f.offset + n },
                          w,
                          net',
                          b',
                          n,
                          some x,
                          refl,
                          refl,
                          inl refl,
                          inr (x, refl),
                        )))
              ]
            ]
      ]

  -- An error before anything is read.
  nothing_read :
      (f g : FileReader) (w : World) (net : Datanodes) (b : Bytes) (x : Error) (r : FileRead)
      → r ≡ file_returned g w net b 0 (some x)
      → g.offset ≡ f.offset
      → IsAligned g
      → FileEnds R N o base f.offset r
  nothing_read f g w net b x r k kept aligned =
      inr (inr (g, w, net, b, 0, some x, k, omega arith, aligned, inr (x, refl)))

  read_blocks-FileEnds :
      (fuel : ℕ) (f : FileReader) (w : World) (net : Datanodes) (b : Bytes)
      → AreTimed net.failures
      → IsAligned f
      → FileEnds R N o base f.offset (read_blocks R N o base fuel f w net b)
  unfolding read_blocks
  read_blocks-FileEnds fuel f w net b timed (inr h) =
      let has = h.1 in
      let same : read_blocks R N o base fuel f w net b ≡ read_file_loop R N o base fuel f w net b =
        ground arith in
      rw same (loop-FileEnds fuel f w net b timed h)
  read_blocks-FileEnds fuel f w net b timed (inl fresh) =
      let g = (get_new_block_reader N o base f).0 in
      elim (Option-cases (block_at f.offset f.blocks)) [
        | inl k ↦
            let made = no_new_reader R N o base f k in
            nothing_read f f w net b Error.invalid_offset _ (ground arith) refl (inl fresh)
        | inr (block, k) ↦
            let (h, kept, done) = new_reader-HasReader R N o base f block k in
            let same : read_blocks R N o base fuel f w net b
                ≡ read_file_loop R N o base fuel g w net b =
              ground arith in
            rw same (
              subst (λ start. FileEnds R N o base start (read_file_loop R N o base fuel g w net b))
                kept (loop-FileEnds fuel g w net b timed h))
      ]

  get_blocks_keeps :
      (f : FileReader) (w : World)
      → ((get_blocks N o base f w).0.offset ≡ f.offset)
        × ((get_blocks N o base f w).0.block_reader ≡ f.block_reader)
  unfolding get_blocks
  get_blocks_keeps f w = (ground arith, ground arith)

  kept-IsAligned :
      (f : FileReader) (w : World) → IsAligned f → IsAligned (get_blocks N o base f w).0
  kept-IsAligned f w (inl fresh) = inl ((get_blocks_keeps f w).1 ∙ fresh)
  kept-IsAligned f w (inr (br, has, at)) =
      inr (br, (get_blocks_keeps f w).1 ∙ has, at ∙ sym (get_blocks_keeps f w).0)

  List-cases :
      (blocks : List LocatedBlock)
      → (blocks ≡ []) ⊎ ((c : LocatedBlock) × (cs : List LocatedBlock) × (blocks ≡ c ∷ cs))
  List-cases [] = inl refl
  List-cases (c ∷ cs) = inr (c, cs, refl)

  -- `Read` into a buffer that is not empty, of a file that has no block reader, or one at its position,
  -- with failures and a clock that are never the zero time, streams that have a chunk size and a
  -- copy buffer with room. If it gets out of its loop and does not panic, the position has moved by
  -- the count, the file has no block reader, or one at the new position, and there are bytes or
  -- an error.
  pub read_file-FileEnds :
      (fuel : ℕ) (f : FileReader) (w : World) (net : Datanodes) (b : Bytes)
      → AreTimed net.failures
      → IsAligned f
      → 0 < length b
      → FileEnds R N o base f.offset (read_file R N o base fuel f w net b)
  unfolding read_file
  read_file-FileEnds fuel f w net b timed aligned room =
      let r = read_file R N o base fuel f w net b in
      let failed = λ (x : Error) (k : r ≡ file_returned f w net b 0 (some x)).
        nothing_read f f w net b x r k refl aligned in
      elim (Bool-cases f.closed) [
        | inl closed ↦ failed Error.closed_pipe (ground arith)
        | inr open_file ↦ elim (Bool-cases f.info.is_dir) [
          | inl dir ↦ failed (Error.path_error "read" f.name Error.is_directory) (ground arith)
          | inr file ↦ elim (Bool-cases (ltb_ℤ (pos f.offset) (size f))) [
            | inr at_end ↦ failed Error.eof (ground arith)
            | inl inside ↦ elim (List-cases f.blocks) [
              | inr (c, cs, known) ↦
                  let same : r ≡ read_blocks R N o base fuel f w net b = ground arith in
                  rw same (read_blocks-FileEnds fuel f w net b timed aligned)
              | inl unknown ↦
                  let got = get_blocks N o base f w in
                  let aligned' = kept-IsAligned f w aligned in
                  let kept = (get_blocks_keeps f w).0 in
                  elim (Option-cases got.2) [
                    | inr (x, k) ↦ nothing_read f got.0 got.1 net b x r (ground arith) kept aligned'
                    | inl k ↦
                        let same : r ≡ read_blocks R N o base fuel got.0 got.1 net b =
                          ground arith in
                        rw same (
                          subst
                            (λ start.
                              FileEnds R N o base start
                                (read_blocks R N o base fuel got.0 got.1 net b))
                            kept (read_blocks-FileEnds fuel got.0 got.1 net b timed aligned'))
                  ]
            ]
          ]
        ]
      ]
