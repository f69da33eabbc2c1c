-- ===== src/Client/Writer.antt =====
-- file_writer.go: a file open for writing, and how it is created or appended to.
pub mod Blocks
pub mod Finalizing
pub mod Taking
pub mod Rounds
pub mod Contents
pub mod Closing
use hdfs.Prelude.{
  refl, ◌≡◌, ℕ, zero, suc, ◌+◌, ◌-◌, ◌%◌, ◌^◌, ◌⊎◌, inl, inr, Bool, true, false, not, Option, none,
  some, List, [], ◌∷◌, ◌++◌, Bytes, length, drop, String, if◌then◌else◌,
}
use hdfs.Prelude.Errors.{Error, ok, err, panic}
use hdfs.Rpc.Datatransfer.{ExtendedBlock, LocatedBlock, Conn, Protocol}
use hdfs.Rpc.WriteStream.{WriteStream}
use hdfs.Rpc.BlockWriter
use hdfs.Rpc.BlockWriter.{BlockWriter, Failure, end_of_block, failed}
use hdfs.Client.Exceptions.{interpret_exception, is_not_exist}
use hdfs.Client.Requests.{Request, FileStatus, Namenode, World, execute}

pub record FileWriter : Type 0 where
  pub name : String
  pub replication : ℕ
  pub block_size : ℕ
  pub block_writer : Option BlockWriter
  pub closed : Bool

-- What the calls of a file depend on besides the namenode.
pub record Options : Type 0 where
  pub client_name : String
  pub use_datanode_hostname : Bool

-- How a loop of the model ends: with a value, in a panic, or because its fuel is used up.
pub data Run (A : Type 0) : Type 0 where
  done : A → Run A
  panicked : Run A
  out_of_fuel : Run A

abbrev pub and_then : {A B : Type 0} → Run A → (A → Run B) → Run B
and_then (done a) f = f a
and_then panicked f = panicked
and_then out_of_fuel f = out_of_fuel

pub Run-cases :
    {A : Type 0} (r : Run A) → ((a : A) × (r ≡ done a)) ⊎ ((r ≡ panicked) ⊎ (r ≡ out_of_fuel))
Run-cases (done a) = inl (a, refl)
Run-cases panicked = inr (inl refl)
Run-cases out_of_fuel = inr (inr refl)

-- `atomic.AddUint64` of 1, and of the complement of 0.
unfoldable pub add_file : World → World
add_file w = record w { files_w_open = (w.files_w_open + 1) % 2 ^ 64 }

unfoldable pub remove_file : World → World
remove_file w = record w { files_w_open = (w.files_w_open + (2 ^ 64 - 1)) % 2 ^ 64 }

unfoldable pub new_block_writer : Options → LocatedBlock → ℕ → ℕ → Bool → BlockWriter
new_block_writer o block block_size offset append = record {
  client_name = o.client_name;
  block = block;
  block_size = block_size;
  offset = offset;
  append = append;
  use_datanode_hostname = o.use_datanode_hostname;
  stream = none;
  closed = false;
}

module _ (N : Namenode) (o : Options) where
  open N use {on_get_file_info, on_create, on_append, on_get_server_defaults}

  -- `getFileInfo` (stat.go). A response with no status is `os.ErrNotExist`.
  unfoldable pub get_file_info : String → World → (FileStatus ⊎ Error) × World
  get_file_info name w =
      let (answer, w') = execute on_get_file_info (Request.get_file_info name) w in
      (
        elim answer [
          | inr e ↦ inr e
          | inl none ↦ inr Error.not_exist
          | inl (some status) ↦ inl status
        ],
        w',
      )

  -- `fetchDefaults` (client.go): the defaults are asked for once.
  unfoldable pub fetch_defaults : World → ((ℕ × ℕ) ⊎ Error) × World
  fetch_defaults w = elim w.defaults [
    | some d ↦ (inl d, w)
    | none ↦
        let (answer, w') = execute on_get_server_defaults Request.get_server_defaults w in
        elim answer [ inr e ↦ (inr e, w') | inl d ↦ (inl d, record w' { defaults = some d }) ]
  ]

  unfoldable pub create_file : String → ℕ → ℕ → ℕ → World → (FileWriter ⊎ Error) × World
  create_file name replication block_size perm w =
      let (answer, w') = execute on_create (Request.create name perm replication block_size) w in
      elim answer [
        | inr e ↦ (inr (Error.path_error "create" name (interpret_exception e)), w')
        | inl _ ↦ (
          inl (record {
            name = name;
            replication = replication;
            block_size = block_size;
            block_writer = none;
            closed = false;
          }),
          add_file w',
        )
      ]

  -- `Create`: mode 0644.
  unfoldable pub create : String → World → (FileWriter ⊎ Error) × World
  create name w =
      let (info, w1) = get_file_info name w in
      let (defaults, w2) = fetch_defaults w1 in
      elim info [
        | inl _ ↦ (inr (Error.path_error "create" name Error.exist), w1)
        | inr e ↦
            if not (is_not_exist (interpret_exception e))
            then (inr (Error.path_error "create" name (interpret_exception e)), w1)
            else elim defaults [
              | inr x ↦ (inr x, w2)
              | inl (replication, block_size) ↦ create_file name replication block_size 0o644 w2
            ]
      ]

  -- `Append`: the last block goes on from its length, if there is one that is not full.
  unfoldable pub append : String → World → (FileWriter ⊎ Error) × World
  append name w =
      let (info, w1) = get_file_info name w in
      let (answer, w2) = execute on_append (Request.append name) w1 in
      elim info [
        | inr e ↦ (inr (Error.path_error "append" name (interpret_exception e)), w1)
        | inl _ ↦ elim answer [
          | inr e ↦ (inr (Error.path_error "append" name (interpret_exception e)), w2)
          | inl (last, replication, block_size) ↦ (
            inl (record {
              name = name;
              replication = replication;
              block_size = block_size;
              block_writer = elim last [
                | none ↦ none
                | some block ↦ some (new_block_writer o block block_size block.b.num_bytes true)
              ];
              closed = false;
            }),
            add_file w2,
          )
        ]
      ]
