-- ===== src/Client/Reader/Contents.antt =====
-- The reading of file_reader.go: `Read` of an open file, over the readers of its blocks.
pub mod Stuck
pub mod Rounds
pub mod Alignment
use hdfs.Prelude.{
  ℕ, zero, suc, ◌+◌, ◌-◌, ◌⊎◌, inl, inr, Bool, true, false, not, Option, none, some, List, [], ◌∷◌,
  Bytes, length, String, ltb, ◌==◌, ◌&&◌, if◌then◌else◌,
}
use hdfs.Prelude.Int.{ℤ, pos, ltb_ℤ}
use hdfs.Prelude.Errors.{Error, is_eof}
use hdfs.Rpc.Reading.{ReadProtocol, Datanodes}
use hdfs.Rpc.BlockReader.{
  BlockReader, ReadOutcome, returned, panicked, unfinished, read_block, close,
}
use hdfs.Client.Requests.{Namenode, World}
use hdfs.Client.Writer.{Options}
use hdfs.Client.Reader.{FileReader, size, get_blocks, get_new_block_reader}

-- How `Read` ends: with the file, the calls, the failures, the buffer, the count and the error.
pub data FileRead : Type 0 where
  file_returned : FileReader → World → Datanodes → Bytes → ℕ → Option Error → FileRead
  file_panicked : FileRead
  file_unfinished : FileRead

module _ (R : ReadProtocol) (N : Namenode) (o : Options) (base : String → String) where
  -- The loop of `Read`. It does not look at the error of `getNewBlockReader`, and it goes on for `fuel`
  -- rounds at most.
  unfoldable pub read_file_loop : ℕ → FileReader → World → Datanodes → Bytes → FileRead
  read_file_loop zero f w net b = file_unfinished
  read_file_loop (suc fuel) f w net b = elim f.block_reader [
    | none ↦ file_panicked
    | some br ↦ elim (read_block R br net b) [
      | panicked ↦ file_panicked
      | unfinished ↦ file_unfinished
      | returned br' net' b' n e ↦
          let f1 : FileReader = record f { block_reader = some br'; offset = f.offset + n } in
          let closed : FileReader = record f1 { block_reader = some (close br') } in
          let next = read_file_loop fuel (get_new_block_reader N o base closed).0 w net' b' in
          let go_on = if ltb 0 n then file_returned f1 w net' b' n none else next in
          elim e [
            | none ↦ go_on
            | some x ↦
                if is_eof x
                then go_on
                else file_returned (record f1 { block_reader = none }) w net' b' n (some x)
          ]
    ]
  ]

  -- `Read` behind the look-up of the blocks.
  unfoldable pub read_blocks : ℕ → FileReader → World → Datanodes → Bytes → FileRead
  read_blocks fuel f w net b = elim f.block_reader [
    | some br ↦ read_file_loop fuel f w net b
    | none ↦
        let (f', e) = get_new_block_reader N o base f in
        elim e [
          | some x ↦ file_returned f' w net b 0 (some x)
          | none ↦ read_file_loop fuel f' w net b
        ]
  ]

  -- `Read` into `b`.
  unfoldable pub read_file : ℕ → FileReader → World → Datanodes → Bytes → FileRead
  read_file fuel f w net b =
      let (f', w', e) = get_blocks N o base f w in
      let looked_up = elim e as (λ x. FileRead) [
        | some x ↦ file_returned f' w' net b 0 (some x)
        | none ↦ read_blocks fuel f' w' net b
      ] in
      if f.closed
      then file_returned f w net b 0 (some Error.closed_pipe)
      else if f.info.is_dir
      then file_returned f w net b 0 (some (Error.path_error "read" f.name Error.is_directory))
      else if not (ltb_ℤ (pos f.offset) (size f))
      then file_returned f w net b 0 (some Error.eof)
      else if length b == 0
      then file_returned f w net b 0 none
      else (elim f.blocks [ [] ↦ looked_up | block ∷ blocks ↦ read_blocks fuel f w net b ])
