-- ===== src/Client/Reader/Whole.antt =====
-- The rest of the reading in file_reader.go, over `Read` and over the readers of the checksums of blocks:
-- `ReadAt`, which fills its buffer, and `Checksum`.
use hdfs.Prelude.Int.{ltb_ℤ, pos, ℤ}
use hdfs.Rpc.Datatransfer.{LocatedBlock}
use hdfs.Client.Reader.{seek, get_blocks, padding, FileReader}
use hdfs.Client.Writer.{Options}
use hdfs.Client.Reader.Contents.{read_file, file_unfinished, file_panicked, file_returned, FileRead}
use hdfs.Prelude.Errors.{◌>>=◌, panic, ok, Result, is_eof, Error}
use hdfs.Client.Requests.{World, Namenode}
use hdfs.Prelude.{
  ◌+◌, drop, take, ◌==◌, replicate, length, ◌⊎◌, Bytes, List, String, ◌&&◌, ltb, Option, ℕ, [], ◌∷◌,
  ◌++◌, none, some, true, false, zero, suc, inl, inr, if◌then◌else◌,
}
use hdfs.Rpc.Reading.{ReadProtocol, Datanodes}
use hdfs.Rpc.ChecksumReader.{read_checksum}

-- The error of a buffer that is not full, as `io.ReadFull` reports it and `ReadAt` changes it back.
abbrev pub end_error : ℕ → Error → Error
end_error n e = if ltb 0 n && is_eof e then Error.unexpected_eof else e

abbrev pub as_eof : Error → Error
as_eof Error.unexpected_eof = Error.eof
as_eof e = e

abbrev pub map_error : (Error → Error) → FileRead → FileRead
map_error f (file_returned r w net b n none) = file_returned r w net b n none
map_error f (file_returned r w net b n (some e)) = file_returned r w net b n (some (f e))
map_error f file_panicked = file_panicked
map_error f file_unfinished = file_unfinished

module _ (R : ReadProtocol) (N : Namenode) (o : Options) (base : String → String) where
  -- `io.ReadFull` of the rest `b` of a buffer, of which `filled` is full, in at most `rounds` reads.
  unfoldable pub fill_buffer : ℕ → ℕ → FileReader → World → Datanodes → Bytes → Bytes → FileRead
  fill_buffer zero fuel f w net filled b = file_unfinished
  fill_buffer (suc rounds) fuel f w net filled b = elim (length b == 0) [
    | true ↦ file_returned f w net filled (length filled) none
    | false ↦ elim (read_file R N o base fuel f w net b) [
      | file_panicked ↦ file_panicked
      | file_unfinished ↦ file_unfinished
      | file_returned f' w' net' b' n e ↦ elim e [
        | none ↦ fill_buffer rounds fuel f' w' net' (filled ++ take n b') (drop n b')
        | some x ↦
            let total = length filled + n in
            file_returned f' w' net' (filled ++ b') total
              (if n == length b then none else some (end_error total x))
      ]
    ]
  ]

  unfoldable pub read_at : ℕ → ℕ → FileReader → World → Datanodes → Bytes → ℤ → FileRead
  read_at rounds fuel f w net b off =
      let (f', _, failed) = seek f off (pos 0) in
      let refused = λ (e : Error). file_returned f' w net b 0 (some e) in
      if f.closed
      then file_returned f w net b 0 (some Error.closed_pipe)
      else if ltb_ℤ off (pos 0)
      then file_returned f w net b 0 (some (Error.path_error "readat" f.name Error.negative_offset))
      else (elim failed as (λ x. FileRead) [
        | some e ↦ refused e
        | none ↦ map_error as_eof (fill_buffer rounds fuel f' w net [] b)
      ])

  -- The loop of `Checksum` over the blocks: their checksums, in order.
  unfoldable pub block_checksums :
      List LocatedBlock → List Bytes → Datanodes → Result (Datanodes × (List Bytes ⊎ Error))
  block_checksums [] sums net = ok (net, inl sums)
  block_checksums (block ∷ blocks) sums net =
      read_checksum R
        (record {
          block = block;
          use_datanode_hostname = o.use_datanode_hostname;
          datanodes = none;
        })
        net
      >>= λ r. elim r.3 [
        | some e ↦ ok (r.1, inr e)
        | none ↦ block_checksums blocks (sums ++ (r.2 ∷ [])) r.1
      ]

  abbrev pub joined : List Bytes → Bytes
  joined [] = []
  joined (sum ∷ sums) = sum ++ joined sums

  -- The hash of the checksums and the zeroes behind them; `md5` is `md5.New` with `Write` and `Sum`.
  unfoldable pub hash_of : (Bytes → Bytes) → List Bytes → Result Bytes
  hash_of md5 sums = elim (padding sums) [
    | none ↦ panic
    | some zeroes ↦ ok (md5 (joined sums ++ replicate zeroes 0))
  ]

  unfoldable pub checksum :
      (Bytes → Bytes)
      → FileReader
      → World
      → Datanodes
      → Result (FileReader × World × Datanodes × (Bytes ⊎ Error))
  checksum md5 f w net =
      let (asked, w', failed) = get_blocks N o base f w in
      let known : FileReader × World × Option Error = elim f.blocks [
        | [] ↦ (asked, w', failed)
        | block ∷ blocks ↦ (f, w, none)
      ] in
      if f.info.is_dir
      then ok (f, w, net, inr (Error.path_error "checksum" f.name Error.is_directory))
      else (elim known.2 as (λ x. Result (FileReader × World × Datanodes × (Bytes ⊎ Error))) [
        | some e ↦ ok (known.0, known.1, net, inr e)
        | none ↦ block_checksums known.0.blocks [] net >>= λ r. elim r.1 [
          | inr e ↦ ok (known.0, known.1, r.0, inr e)
          | inl sums ↦ hash_of md5 sums >>= λ sum. ok (known.0, known.1, r.0, inl sum)
        ]
      ])
