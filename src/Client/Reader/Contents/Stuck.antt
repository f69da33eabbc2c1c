-- ===== src/Client/Reader/Contents/Stuck.antt =====
-- `Read` of a file over blocks whose streams end at once.
use hdfs.Prelude.{
  ℕ, zero, suc, ◌+◌, ◌-◌, ◌≡◌, ◌<◌, refl, ◌∙◌, true, false, none, some, List, [], ◌∷◌, Bytes,
  length, String, arith,
}
use hdfs.Prelude.Int.{pos, ltb_ℤ}
use hdfs.Prelude.Errors.{Error}
use hdfs.Rpc.Datatransfer.{LocatedBlock}
use hdfs.Rpc.Reading.{ReadProtocol, Datanodes}
use hdfs.Rpc.BlockReader.{BlockReader, returned, read_block, close}
use hdfs.Client.Requests.{Namenode, World}
use hdfs.Client.Writer.{Options}
use hdfs.Client.Reader.{FileReader, size, block_at, get_new_block_reader}
use hdfs.Client.Reader.Contents.{file_unfinished, read_file_loop, read_blocks, read_file}

module _ (R : ReadProtocol) (N : Namenode) (o : Options) (base : String → String) where
  -- The reader that `getNewBlockReader` makes for a block.
  abbrev pub new_reader : ℕ → LocatedBlock → BlockReader
  new_reader offset block = record {
    client_name = o.client_name;
    block = block;
    offset = offset - block.offset;
    use_datanode_hostname = o.use_datanode_hostname;
    datanodes = none;
    stream = none;
    closed = false;
  }

  get_new_block_reader_at :
      (f : FileReader) (block : LocatedBlock)
      → block_at f.offset f.blocks ≡ some block
      → get_new_block_reader N o base f
        ≡ (record f { block_reader = some (new_reader f.offset block) }, none)
  unfolding get_new_block_reader
  get_new_block_reader_at f block h = rw (get_new_block_reader, h) refl

  blocks_some :
      (offset : ℕ) (block : LocatedBlock) (blocks : List LocatedBlock)
      → block_at offset blocks ≡ some block
      → (c : LocatedBlock) × (cs : List LocatedBlock) × (blocks ≡ c ∷ cs)
  unfolding block_at
  blocks_some offset block [] h = absurd (ground arith)
  blocks_some offset block (c ∷ cs) h = (c, cs, refl)

  -- Reads of the block end at once, at this place, as long as the datanodes are as they are.
  pub record EndsAtOnce (f : FileReader) (block : LocatedBlock) (b : Bytes)
      (IsSame : Datanodes → Type 0) : Type 0 where
    pub here : block_at f.offset f.blocks ≡ some block
    pub at_once :
        (net : Datanodes)
        → IsSame net
        → (br : BlockReader) × (net' : Datanodes) × (read_block R (new_reader f.offset block) net b
            ≡ returned br net' b 0 (some Error.eof))
          × IsSame net'

  module _ (f : FileReader) (block : LocatedBlock) (b : Bytes) (IsSame : Datanodes → Type 0)
      (h : EndsAtOnce f block b IsSame) where
    loop_stuck :
        (fuel : ℕ) (w : World) (net : Datanodes)
        → IsSame net
        → read_file_loop R N o base fuel
            (record f { block_reader = some (new_reader f.offset block) })
            w
            net
            b
          ≡ file_unfinished
    unfolding read_file_loop
    loop_stuck zero w net same = refl
    loop_stuck (suc fuel) w net same =
        let (br, net', ended, same') = h.at_once net same in
        let again = loop_stuck fuel w net' same' in
        let e : f.offset + 0 ≡ f.offset = omega arith in
        let made : get_new_block_reader N o base
              (record f { block_reader = some (close br); offset = f.offset + 0 })
            ≡ (record f { block_reader = some (new_reader f.offset block) }, none) =
          rw e
            (get_new_block_reader_at (record f { block_reader = some (close br) }) block h.here) in
        rw (read_file_loop, ended, made) again

    -- If the readers of the block at the position of an open file end at once, without a byte, however often
    -- they are tried, then `Read` into a buffer that is not empty never returns: it does not get out
    -- of its loop in any number of rounds.
    pub read_file_stuck :
        (fuel : ℕ) (w : World) (net : Datanodes)
        → f.closed ≡ false
        → f.info.is_dir ≡ false
        → ltb_ℤ (pos f.offset) (size f) ≡ true
        → 0 < length b
        → f.block_reader ≡ none
        → IsSame net
        → read_file R N o base fuel f w net b ≡ file_unfinished
    unfolding read_file read_blocks
    read_file_stuck fuel w net open_file file inside room fresh same =
        let (c, cs, blocks) = blocks_some f.offset block f.blocks h.here in
        let made = get_new_block_reader_at f block h.here in
        let first : read_file R N o base fuel f w net b ≡ read_blocks R N o base fuel f w net b =
          ground arith in
        let opened : FileReader = record f { block_reader = some (new_reader f.offset block) } in
        let second : read_blocks R N o base fuel f w net b
            ≡ read_file_loop R N o base fuel opened w net b =
          ground arith in
        first ∙ second ∙ loop_stuck fuel w net same
