-- ===== src/Client/Reader/Positions.antt =====
-- The position of a file reader, the block that it lies in, and the padding of a file's checksum.
use hdfs.Prelude.Errors.{Error}
use hdfs.Prelude.{
  true, ℕ, zero, suc, ◌+◌, ◌-◌, ◌*◌, ◌^◌, ◌≤◌, ◌<◌, ◌≡◌, ◌≢◌, refl, ◌⊎◌, inl, inr, none, some, List,
  [], ◌∷◌, Bytes, length, arith, Bool-cases, String,
}
use hdfs.Prelude.Int.{ℤ, pos}
use hdfs.Rpc.Datatransfer.{LocatedBlock}
use hdfs.Client.Requests.{Namenode}
use hdfs.Client.Writer.{Options}
use hdfs.Client.Reader.Targets.{IsTarget, IsInt64, seek_target-Aims}
use hdfs.Client.Reader.{
  false, ltb, FileReader, BlockReader, move_to, seek, block_at, get_new_block_reader,
}

-- `Seek` on every branch, with an offset of 64 bits, and if the file stands within it. A closed file
-- reports a closed pipe; a whence other than 0, 1 and 2 and a target that is negative or beyond
-- the end are errors too, and all three leave the reader as it is. Else the position is the target,
-- and the block reader is dropped if the position has changed and nothing else has.
pub seek_lem :
    (f : FileReader) (offset whence : ℤ)
    → f.offset ≤ f.info.len
    → f.info.len < 2 ^ 63
    → IsInt64 offset
    → let (f', n, e) = seek f offset whence in
      ((f.closed ≡ true) × (f' ≡ f) × (n ≡ 0) × (e ≡ some Error.closed_pipe))
      ⊎ (((f.closed ≡ false)
            × (e ≡ none)
            × IsTarget f offset whence n
            × (n ≤ f.info.len)
            × (f'.offset ≡ n)
            × (n ≡ f.offset → f' ≡ f)
            × (n ≢ f.offset → f' ≡ record f { offset = n; block_reader = none }))
          ⊎ (((f.closed ≡ false)
                × (f' ≡ f)
                × (n ≡ f.offset)
                × (e ≡ some Error.invalid_whence)
                × (whence ≢ pos 0)
                × (whence ≢ pos 1)
                × (whence ≢ pos 2))
              ⊎ ((f.closed ≡ false)
                  × (f' ≡ f)
                  × (n ≡ f.offset)
                  × (e ≡ some Error.invalid_offset)
                  × ((whence ≡ pos 0) ⊎ ((whence ≡ pos 1) ⊎ (whence ≡ pos 2)))
                  × ((k : ℕ) → IsTarget f offset whence k → f.info.len < k))))
unfolding seek move_to
seek_lem f offset whence within small whole = elim (Bool-cases f.closed) [
  | inl shut ↦ inl (ground arith, ground arith, ground arith, ground arith)
  | inr at_work ↦ elim (seek_target-Aims f within small offset whence whole) [
    | inr (inr (e, h0, h1, h2)) ↦
        inr (inr (inl (at_work, ground arith, ground arith, ground arith, h0, h1, h2)))
    | inr (inl (n, e, known, beyond)) ↦
        inr (inr (inr (at_work, ground arith, ground arith, ground arith, known, beyond)))
    | inl (n, e, known, target, unique) ↦ elim (Bool-cases (ltb f.info.len n)) [
      | inl outside ↦ inr (
          inr (
            inr (
              at_work,
              ground arith,
              ground arith,
              ground arith,
              known,
              λ k t. let l = unique k t in ground arith,
            )))
      | inr inside ↦
          let r : seek f offset whence ≡ (move_to f n, n, none) = ground arith in
          rw r (
            inr (
              inl (
                at_work,
                refl,
                target,
                ground arith,
                ground arith,
                (λ k. ground arith),
                λ k. ground arith,
              )))
    ]
  ]
]

-- The blocks follow each other from `start` on and end at `finish`.
abbrev pub Tiles : ℕ → List LocatedBlock → ℕ → Type 0
Tiles start [] finish = start ≡ finish
Tiles start (block ∷ blocks) finish =
    (block.offset ≡ start) × Tiles (start + block.b.num_bytes) blocks finish

abbrev pub IsIn : List LocatedBlock → LocatedBlock → Type 0
IsIn [] block = ⊥
IsIn (b ∷ blocks) block = (block ≡ b) ⊎ IsIn blocks block

Tiles-≤ :
    (start : ℕ) (blocks : List LocatedBlock) (finish : ℕ)
    → Tiles start blocks finish
    → start ≤ finish
Tiles-≤ start [] finish h = omega arith
Tiles-≤ start (b ∷ blocks) finish (e, h) =
    omega (arith, Tiles-≤ (start + b.b.num_bytes) blocks finish h)

-- The block that holds an offset is found.
block_at_lem :
    (start off : ℕ) (blocks : List LocatedBlock) (finish : ℕ)
    → Tiles start blocks finish
    → finish < 2 ^ 64
    → start ≤ off
    → off < finish
    → (block : LocatedBlock) × (block_at off blocks ≡ some block)
      × IsIn blocks block
      × (block.offset ≤ off)
      × (off < block.offset + block.b.num_bytes)
unfolding block_at
block_at_lem start off [] finish h small from to = absurd (omega arith)
block_at_lem start off (b ∷ blocks) finish (e, h) small from to =
    let bound = Tiles-≤ (start + b.b.num_bytes) blocks finish h in
    elim (Bool-cases (ltb off (start + b.b.num_bytes))) [
      | inl here ↦ (b, ground arith, inl refl, ground arith, ground arith)
      | inr later ↦
          let (block, found, is_in, low, high) =
            block_at_lem (start + b.b.num_bytes) off blocks finish h small (ground arith) to in
          (block, ground arith, inr is_in, low, high)
    ]

module _ (N : Namenode) (o : Options) (base : String → String) where
  -- If the blocks of a file lie one behind the other and cover it, `getNewBlockReader` finds, for every
  -- position before the end, one of them that holds the position, and reads it from there.
  pub get_new_block_reader_lem :
      (f : FileReader)
      → Tiles 0 f.blocks f.info.len
      → f.info.len < 2 ^ 64
      → f.offset < f.info.len
      → let (f', e) = get_new_block_reader N o base f in
        (e ≡ none)
        × ((br : BlockReader) × (f'.block_reader ≡ some br)
            × IsIn f.blocks br.block
            × (br.block.offset + br.offset ≡ f.offset)
            × (br.offset < br.block.b.num_bytes))
  unfolding get_new_block_reader
  get_new_block_reader_lem f tiles small inside =
      let (block, found, is_in, low, high) =
        block_at_lem 0 f.offset f.blocks f.info.len tiles small (omega arith) inside in
      (
        ground arith,
        (
          record {
            client_name = o.client_name;
            block = block;
            offset = f.offset - block.offset;
            use_datanode_hostname = o.use_datanode_hostname;
            datanodes = none;
            stream = none;
            closed = false;
          },
          ground arith,
          is_in,
          omega arith,
          omega arith,
        ),
      )

abbrev pub total_length : List Bytes → ℕ
total_length [] = 0
total_length (sum ∷ sums) = length sum + total_length sums

-- 32, doubled so many times.
abbrev pub doubled : ℕ → ℕ
doubled zero = 32
doubled (suc k) = doubled k * 2

-- It takes no fewer doublings to hold `total`.
abbrev pub Fits : ℕ → ℕ → Type 0
Fits k total = (total ≤ doubled k) × ((k ≡ 0) ⊎ (doubled k < 2 * total))
