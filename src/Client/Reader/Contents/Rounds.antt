-- ===== src/Client/Reader/Contents/Rounds.antt =====
-- A round of `Read` of a file, and where it leaves the reader of the block.
use hdfs.Prelude.{
  subst, ℕ, suc, ◌+◌, ◌-◌, ◌≡◌, ◌<◌, ◌≤◌, refl, sym, ◌⊎◌, inl, inr, false, Option, none, some, List,
  [], ◌∷◌, Bytes, String, leb, ltb, ◌==◌, ◌&&◌, arith, Bool-cases, Option-cases,
}
use hdfs.Prelude.Errors.{Error, is_eof}
use hdfs.Rpc.Datatransfer.{LocatedBlock}
use hdfs.Rpc.Reading.{ReadProtocol, Datanodes}
use hdfs.Rpc.BlockReader.{BlockReader, returned, read_block, close}
use hdfs.Client.Requests.{Namenode, World}
use hdfs.Client.Writer.{Options}
use hdfs.Client.Reader.{FileReader, block_at, block_end, get_new_block_reader}
use hdfs.Client.Reader.Contents.{
  FileRead, file_returned, file_panicked, file_unfinished, read_file_loop,
}

-- The reader of a block, at the position of the file.
abbrev pub HasReader : FileReader → Type 0
HasReader f =
    (br : BlockReader) × (f.block_reader ≡ some br) × (br.block.offset + br.offset ≡ f.offset)

abbrev pub IsAligned : FileReader → Type 0
IsAligned f = (f.block_reader ≡ none) ⊎ HasReader f

block_at-start :
    (off : ℕ) (blocks : List LocatedBlock) (block : LocatedBlock)
    → block_at off blocks ≡ some block
    → block.offset ≤ off
unfolding block_at
block_at-start off [] block h = absurd (ground arith)
block_at-start off (c ∷ cs) block h =
    elim (Bool-cases (leb c.offset off && ltb off (block_end c))) [
      | inl here ↦
          let e : c ≡ block = ground arith in let k : c.offset ≤ off = ground arith in rw (sym e) k
      | inr later ↦ block_at-start off cs block (ground arith)
    ]

module _ (R : ReadProtocol) (N : Namenode) (o : Options) (base : String → String) where
  pub new_reader-HasReader :
      (f : FileReader) (block : LocatedBlock)
      → block_at f.offset f.blocks ≡ some block
      → HasReader (get_new_block_reader N o base f).0
        × ((get_new_block_reader N o base f).0.offset ≡ f.offset)
        × ((get_new_block_reader N o base f).1 ≡ none)
  unfolding get_new_block_reader
  new_reader-HasReader f block k =
      let low = block_at-start f.offset f.blocks block k in
      let br : BlockReader = record {
        client_name = o.client_name;
        block = block;
        offset = f.offset - block.offset;
        use_datanode_hostname = o.use_datanode_hostname;
        datanodes = none;
        stream = none;
        closed = false;
      } in
      let same : get_new_block_reader N o base f ≡ (record f { block_reader = some br }, none) =
        ground arith in
      rw same ((br, refl, omega arith), refl, refl)

  pub no_new_reader :
      (f : FileReader)
      → block_at f.offset f.blocks ≡ none
      → get_new_block_reader N o base f ≡ (f, some Error.invalid_offset)
  unfolding get_new_block_reader
  no_new_reader f k = ground arith

  -- A new reader, or the one from before.
  new-HasReader :
      (f : FileReader)
      → HasReader f
      → HasReader (get_new_block_reader N o base f).0
        × ((get_new_block_reader N o base f).0.offset ≡ f.offset)
  new-HasReader f h = elim (Option-cases (block_at f.offset f.blocks)) [
    | inl k ↦ rw (no_new_reader f k) (h, refl)
    | inr (block, k) ↦ let (h', kept, done) = new_reader-HasReader f block k in (h', kept)
  ]

  -- How `Read` ends from a position: in a panic, not within its rounds, or with the position moved by the
  -- count and the reader of the block at it, and with bytes or an error.
  abbrev pub FileEnds : ℕ → FileRead → Type 0
  FileEnds start r =
      (r ≡ file_panicked)
      ⊎ ((r ≡ file_unfinished)
          ⊎ ((f : FileReader) × (w : World) × (net : Datanodes) × (b : Bytes) × (n : ℕ)
              × (e : Option Error) × (r ≡ file_returned f w net b n e)
              × (f.offset ≡ start + n)
              × IsAligned f
              × ((0 < n) ⊎ ((x : Error) × (e ≡ some x)))))

  -- A round of which the reader of the block reports no error, or the end.
  module _ (fuel : ℕ) (f : FileReader) (w : World) (net net' : Datanodes) (b b' : Bytes)
      (br br' : BlockReader) (n : ℕ) (has : f.block_reader ≡ some br) where
    abbrev pub moved_file : FileReader
    moved_file = record f { block_reader = some br'; offset = f.offset + n }

    abbrev pub closed_file : FileReader
    closed_file = record moved_file { block_reader = some (close br') }

    abbrev pub Goes : Type 0
    Goes =
        (0 < n
          → read_file_loop R N o base (suc fuel) f w net b
            ≡ file_returned moved_file w net' b' n none)
        × (n ≡ 0
            → read_file_loop R N o base (suc fuel) f w net b
              ≡ read_file_loop R N o base fuel (get_new_block_reader N o base closed_file).0 w net'
                  b')

    pub round_goes : read_block R br net b ≡ returned br' net' b' n none → Goes
    unfolding read_file_loop
    round_goes k = (λ some_read. ground arith, λ none_read. ground arith)

    pub round_ends : read_block R br net b ≡ returned br' net' b' n (some Error.eof) → Goes
    unfolding read_file_loop
    round_ends k = (λ some_read. ground arith, λ none_read. ground arith)

    pub round_fails :
        (x : Error)
        → is_eof x ≡ false
        → read_block R br net b ≡ returned br' net' b' n (some x)
        → read_file_loop R N o base (suc fuel) f w net b
          ≡ file_returned (record moved_file { block_reader = none }) w net' b' n (some x)
    unfolding read_file_loop
    round_fails x other k = ground arith

    -- Such a round, before the rest.
    pub Goes-FileEnds :
        br'.block.offset + br'.offset ≡ f.offset + n
        → Goes
        → ((g : FileReader)
            → HasReader g
            → FileEnds g.offset (read_file_loop R N o base fuel g w net' b'))
        → FileEnds f.offset (read_file_loop R N o base (suc fuel) f w net b)
    unfolding close
    Goes-FileEnds at goes rest = elim (Bool-cases (n == 0)) [
      | inr some_read ↦ rw (goes.0 (ground arith)) (
          inr (
            inr (
              moved_file,
              w,
              net',
              b',
              n,
              none,
              refl,
              refl,
              inr (br', refl, at),
              inl (ground arith),
            )))
      | inl none_read ↦
          let none_left : n ≡ 0 = ground arith in
          let (h, kept) = new-HasReader closed_file (close br', refl, at) in
          let g = (get_new_block_reader N o base closed_file).0 in
          let place : g.offset ≡ f.offset = omega arith in
          rw (goes.1 none_left) (
            subst (λ start. FileEnds start (read_file_loop R N o base fuel g w net' b')) place
              (rest g h))
    ]
