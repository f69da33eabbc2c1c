-- ===== src/Client/Writer/Blocks.antt =====
-- file_writer.go: writing a file block by block, and closing it.
use hdfs.Prelude.{
  ℕ, zero, suc, ◌+◌, inl, inr, true, false, Option, none, some, [], ◌∷◌, ◌++◌, Bytes, length, drop,
  String, if◌then◌else◌,
}
use hdfs.Prelude.Errors.{Error, ok, err, panic}
use hdfs.Rpc.Datatransfer.{ExtendedBlock, Protocol}
use hdfs.Rpc.BlockWriter
use hdfs.Rpc.BlockWriter.{BlockWriter, Failure, end_of_block, failed}
use hdfs.Client.Exceptions.{interpret_exception}
use hdfs.Client.Requests.{Request, Namenode, World, execute}
use hdfs.Client.Writer.{
  FileWriter, Options, Run, done, panicked, out_of_fuel, remove_file, new_block_writer, create,
}

-- `finalizeBlock`, with the block writer. It sets the length of the block in place, so whoever holds
-- the block sees it: `finalized` below. A block writer that cannot be closed is kept.
abbrev pub finalized : BlockWriter → ExtendedBlock
finalized bw = record (bw.block.b) { num_bytes = bw.offset }

-- The stream of a closed block writer, whose connection is closed as well.
unfoldable pub hang_up : BlockWriter → World → World
hang_up bw w = elim bw.stream [
  | none ↦ w
  | some s ↦ record w { transcripts = w.transcripts ++ (s ∷ []) }
]

module _ (P : Protocol) (N : Namenode) (o : Options) where
  open N use {on_add_block, on_update_block_for_pipeline, on_complete}

  unfoldable pub finalize_block :
      FileWriter → BlockWriter → World → FileWriter × World × Option Error
  finalize_block f bw w =
      let (bw', e) = BlockWriter.close P bw in
      let w1 = hang_up bw' w in
      let updated = record bw' { block = record (bw'.block) { b = finalized bw' } } in
      let (answer, w2) =
        execute on_update_block_for_pipeline (Request.update_block_for_pipeline (finalized bw'))
          w1 in
      elim e [
        | some x ↦ (record f { block_writer = some bw' }, w1, some x)
        | none ↦ elim answer [
          | inr x ↦ (record f { block_writer = some updated }, w2, some x)
          | inl _ ↦ (record f { block_writer = none }, w2, none)
        ]
      ]

  -- The call of `addBlock`, with the block before.
  unfoldable pub add_block :
      FileWriter → Option ExtendedBlock → World → FileWriter × World × Option Error
  add_block f previous w =
      let (answer, w') = execute on_add_block (Request.add_block f.name previous) w in
      elim answer [
        | inr e ↦ (f, w', some (Error.path_error "create" f.name (interpret_exception e)))
        | inl block ↦ (
          record f { block_writer = some (new_block_writer o block f.block_size 0 false) },
          w',
          none,
        )
      ]

  unfoldable pub start_new_block : FileWriter → World → FileWriter × World × Option Error
  start_new_block f w = elim f.block_writer [
    | none ↦ add_block f none w
    | some bw ↦
        let (f', w', e) = finalize_block f bw w in
        elim e [ some x ↦ (f', w', some x) | none ↦ add_block f' (some (finalized bw)) w' ]
  ]

  -- The loop of `Write` over what is left of `b`, behind the first `off` bytes. A writer without a
  -- block writer makes it panic.
  unfoldable pub write_loop :
      ℕ → FileWriter → World → ℕ → Bytes → Run (FileWriter × World × ℕ × Option Error)
  write_loop fuel f w off [] = done (f, w, off, none)
  write_loop zero f w off (x ∷ b) = out_of_fuel
  write_loop (suc fuel) f w off (x ∷ b) = elim f.block_writer [
    | none ↦ panicked
    | some bw ↦ elim (BlockWriter.write P bw w.dials (x ∷ b)) [
      | panic ↦ panicked
      | err e ↦ panicked
      | ok (bw', dials, n, e) ↦
          let f1 : FileWriter = record f { block_writer = some bw' } in
          let w1 : World = record w { dials = dials } in
          elim e [
            | none ↦ write_loop fuel f1 w1 (off + n) (drop n (x ∷ b))
            | some (failed e) ↦ done (f1, w1, off + n, some e)
            | some end_of_block ↦ elim (start_new_block f1 w1).2 [
              | some e ↦
                  done ((start_new_block f1 w1).0, (start_new_block f1 w1).1, off + n, some e)
              | none ↦
                  write_loop fuel (start_new_block f1 w1).0 (start_new_block f1 w1).1 (off + n)
                    (drop n (x ∷ b))
            ]
          ]
    ]
  ]

  -- Two rounds for each byte, and one that finds the first block full, are enough.
  unfoldable pub write : FileWriter → World → Bytes → Run (FileWriter × World × ℕ × Option Error)
  write f w b =
      let fuel = length b + length b + 1 in
      if f.closed then done (f, w, 0, some Error.closed_pipe) else elim f.block_writer [
        | some _ ↦ write_loop fuel f w 0 b
        | none ↦ elim (start_new_block f w).2 [
          | some e ↦ done ((start_new_block f w).0, (start_new_block f w).1, 0, some e)
          | none ↦ write_loop fuel (start_new_block f w).0 (start_new_block f w).1 0 b
        ]
      ]

  unfoldable pub flush : FileWriter → FileWriter × Option Error
  flush f = if f.closed then (f, some Error.closed_pipe) else elim f.block_writer [
    | none ↦ (f, none)
    | some bw ↦ let (bw', e) = BlockWriter.flush P bw in (record f { block_writer = some bw' }, e)
  ]

  -- The call of `complete`, with the last block.
  unfoldable pub complete :
      FileWriter → Option ExtendedBlock → World → FileWriter × World × Option Error
  complete f last_block w =
      let (answer, w') = execute on_complete (Request.complete f.name last_block) w in
      elim answer [
        | inr e ↦ (f, w', some (Error.path_error "create" f.name e))
        | inl _ ↦ (f, w', none)
      ]

  unfoldable pub close : FileWriter → World → FileWriter × World × Option Error
  close f w =
      let f1 : FileWriter = record f { closed = true } in
      let w1 = remove_file w in
      if f.closed then (f, w, some Error.closed_pipe) else elim f.block_writer [
        | none ↦ complete f1 none w1
        | some bw ↦
            let (f2, w2, e) = finalize_block f1 bw w1 in
            elim e [ some x ↦ (f2, w2, some x) | none ↦ complete f2 (some (finalized bw)) w2 ]
      ]

  unfoldable pub create_empty_file : String → World → World × Option Error
  create_empty_file name w =
      let (created, w1) = create N o name w in
      elim created [ inr e ↦ (w1, some e) | inl f ↦ let (f', w2, e) = close f w1 in (w2, e) ]
