-- ===== src/Client/Reader.antt =====
-- file_reader.go: a file open for reading, its position, the block that holds a position, and the
-- entries of a directory.
pub mod Targets
pub mod Positions
pub mod Listing
pub mod Paging
pub mod Contents
pub mod Whole
use hdfs.Prelude.{
  ℕ, zero, suc, ◌+◌, ◌-◌, ◌*◌, ◌%◌, ◌^◌, ◌⊎◌, inl, inr, Bool, true, false, not, Option, none, some,
  List, [], ◌∷◌, ◌++◌, map, Bytes, length, take, replicate, String, ltb, leb, ◌==◌, ◌&&◌, ◌||◌,
  if◌then◌else◌,
}
use hdfs.Prelude.Int.{ℤ, pos, negsuc, ◌+ℤ◌, ltb_ℤ, ◌==ℤ◌, pos_part}
use hdfs.Prelude.Errors.{Error}
use hdfs.Rpc.Datatransfer.{LocatedBlock}
use hdfs.Rpc.BlockReader.{BlockReader}
use hdfs.Client.Exceptions.{interpret_exception}
use hdfs.Client.Requests.{Request, FileStatus, Namenode, World, execute}
use hdfs.Client.Writer.{Options, Run, done, panicked, out_of_fuel, get_file_info}

-- `blocks` is [] until the blocks are known, as the source's is nil.
pub record FileReader : Type 0 where
  pub name : String
  pub info : FileStatus
  pub blocks : List LocatedBlock
  pub block_reader : Option BlockReader
  pub offset : ℕ
  pub readdir_last : String
  pub closed : Bool

-- A number of 64 bits as a signed one, and the result of a signed operation.
abbrev pub signed : ℕ → ℤ
signed n = if ltb n (2 ^ 63) then pos n else negsuc (2 ^ 64 - 1 - n)

abbrev pub int64 : ℤ → ℤ
int64 (pos n) = signed (n % 2 ^ 64)
int64 (negsuc n) = signed (2 ^ 64 - 1 - n % 2 ^ 64)

-- `info.Size()`
abbrev pub size : FileReader → ℤ
size f = signed f.info.len

-- Where `Seek` is to go, for the three values of `whence`.
unfoldable pub seek_target : FileReader → ℤ → ℤ → Option ℤ
seek_target f offset whence =
    if whence ==ℤ pos 0
    then some offset
    else if whence ==ℤ pos 1
    then some (int64 (pos f.offset +ℤ offset))
    else if whence ==ℤ pos 2
    then some (int64 (size f +ℤ offset))
    else none

-- `Seek` at an offset that is neither negative nor beyond the end.
unfoldable pub move_to : FileReader → ℕ → FileReader
move_to f off = if f.offset == off then f else record f { offset = off; block_reader = none }

unfoldable pub seek : FileReader → ℤ → ℤ → FileReader × ℕ × Option Error
seek f offset whence =
    if f.closed then (f, 0, some Error.closed_pipe) else elim (seek_target f offset whence) [
      | none ↦ (f, f.offset, some Error.invalid_whence)
      | some (negsuc n) ↦ (f, f.offset, some Error.invalid_offset)
      | some (pos off) ↦
          if ltb_ℤ (size f) (pos off)
          then (f, f.offset, some Error.invalid_offset)
          else (move_to f off, off, none)
    ]

-- The loop of `getNewBlockReader`: the first block that holds the offset.
abbrev pub block_end : LocatedBlock → ℕ
block_end block = (block.offset + block.b.num_bytes) % 2 ^ 64

unfoldable pub block_at : ℕ → List LocatedBlock → Option LocatedBlock
block_at off [] = none
block_at off (block ∷ blocks) =
    let rest = block_at off blocks in
    if leb block.offset off && ltb off (block_end block) then some block else rest

unfoldable pub close : FileReader → FileReader
close f = record f { closed = true }

-- The padding of `Checksum`: the length of the checksums so far, and the padded length.
unfoldable pub pad : List Bytes → ℕ → ℕ → ℕ × ℕ
pad [] total padded = (total, padded)
pad (sum ∷ sums) total padded =
    let total' = total + length sum in
    pad sums total' (if ltb padded total' then padded * 2 else padded)

-- How many zeroes `Checksum` writes to the hash behind the checksums of the blocks, or none if it
-- panics, for a number below 0.
unfoldable pub padding : List Bytes → Option ℕ
padding sums =
    let (total, padded) = pad sums 0 32 in if ltb padded total then none else some (padded - total)

abbrev pub map_run : {A B : Type 0} → (A → B) → Run A → Run B
map_run f (done a) = done (f a)
map_run f panicked = panicked
map_run f out_of_fuel = out_of_fuel

-- `base` is `path.Base`.
module _ (N : Namenode) (o : Options) (base : String → String) where
  open N use {on_get_listing, on_get_block_locations}

  unfoldable pub open_file : String → World → (FileReader ⊎ Error) × World
  open_file name w =
      let (info, w') = get_file_info N o name w in
      (
        elim info [
          | inr e ↦ inr (Error.path_error "open" name (interpret_exception e))
          | inl status ↦ inl (record {
            name = name;
            info = status;
            blocks = [];
            block_reader = none;
            offset = 0;
            readdir_last = "";
            closed = false;
          })
        ],
        w',
      )

  unfoldable pub get_blocks : FileReader → World → FileReader × World × Option Error
  get_blocks f w =
      let request = Request.get_block_locations f.name 0 f.info.len in
      let (answer, w') = execute on_get_block_locations request w in
      elim answer [
        | inr e ↦ (f, w', some e)
        | inl blocks ↦ (record f { blocks = blocks }, w', none)
      ]

  unfoldable pub get_new_block_reader : FileReader → FileReader × Option Error
  get_new_block_reader f = elim (block_at f.offset f.blocks) [
    | none ↦ (f, some Error.invalid_offset)
    | some block ↦ (
      record f {
        block_reader = some (record {
          client_name = o.client_name;
          block = block;
          offset = f.offset - block.offset;
          use_datanode_hostname = o.use_datanode_hostname;
          datanodes = none;
          stream = none;
          closed = false;
        });
      },
      none,
    )
  ]

  -- `newFileInfo(status, "").Name()`
  abbrev pub entry_name : FileStatus → String
  entry_name status = base status.path

  -- The name of the last entry, or `last` if there is none.
  abbrev pub last_name : String → List FileStatus → String
  last_name last [] = last
  last_name last (status ∷ statuses) = last_name (entry_name status) statuses

  -- `readdir`: a batch of entries, and how many remain.
  unfoldable pub read_batch : FileReader → World → ((List FileStatus × ℕ) ⊎ Error) × World
  read_batch f w =
      let (answer, w') = execute on_get_listing (Request.get_listing f.name f.readdir_last) w in
      (
        elim answer [
          | inr e ↦ inr e
          | inl none ↦ inr Error.not_exist
          | inl (some batch) ↦ inl batch
        ],
        w',
      )

  -- The loop of `Readdir` for at most `limit` entries, or all for 0.
  unfoldable pub readdir_loop :
      ℕ
      → FileReader
      → World
      → ℕ
      → List FileStatus
      → Run (FileReader × World × (List FileStatus ⊎ Error))
  readdir_loop zero f w limit res = out_of_fuel
  readdir_loop (suc fuel) f w limit res =
      let (batch, w') = read_batch f w in
      elim batch [
        | inr e ↦ done (f, w', inr (Error.path_error "readdir" f.name (interpret_exception e)))
        | inl (statuses, remaining) ↦
            let f' : FileReader = record f { readdir_last = last_name f.readdir_last statuses } in
            let res' = res ++ statuses in
            let rest = readdir_loop fuel f' w' limit res' in
            if (remaining == 0) || (ltb 0 limit && leb limit (length res'))
            then done (f', w', inl res')
            else rest
      ]

  -- The end of `Readdir`: entries that are too many are forgotten.
  unfoldable pub cut :
      ℕ
      → FileReader × World × (List FileStatus ⊎ Error)
      → FileReader × World × (List FileStatus ⊎ Error)
  cut limit (f, w, inr e) = (f, w, inr e)
  cut limit (f, w, inl res) =
      if limit == 0
      then (f, w, inl res)
      else if length res == 0
      then (f, w, inr Error.eof)
      else if ltb limit (length res)
      then (
        record f { readdir_last = last_name f.readdir_last (take limit res) },
        w,
        inl (take limit res),
      )
      else (f, w, inl res)

  -- `Readdir`. How many batches there are is up to the namenode.
  unfoldable pub readdir :
      ℕ → FileReader → World → ℤ → Run (FileReader × World × (List FileStatus ⊎ Error))
  readdir fuel f w n =
      let limit = pos_part n in
      let f' : FileReader = if limit == 0 then record f { readdir_last = "" } else f in
      if f.closed
      then done (f, w, inr Error.closed_pipe)
      else if not f.info.is_dir
      then done (f, w, inr (Error.path_error "readdir" f.name Error.not_a_directory))
      else map_run (cut limit) (readdir_loop fuel f' w limit [])

  unfoldable pub readdirnames :
      ℕ → FileReader → World → ℤ → Run (FileReader × World × (List String ⊎ Error))
  readdirnames fuel f w n =
      if f.closed then done (f, w, inr Error.closed_pipe) else map_run names (readdir fuel f w n)
    where
      names :
          FileReader × World × (List FileStatus ⊎ Error)
          → FileReader × World × (List String ⊎ Error)
      names (f, w, inr e) = (f, w, inr e)
      names (f, w, inl res) = (f, w, inl (map entry_name res))
