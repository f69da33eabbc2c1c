-- ===== src/Client/Requests.antt =====
-- The calls that the client makes to the namenode through `NamenodeConnection.Execute`, and the
-- client's own state. The namenode answers each call as it likes, knowing all calls before it.
use hdfs.Prelude.{ℕ, ◌⊎◌, Bool, Option, List, ◌∷◌, String}
use hdfs.Prelude.Errors.{Error}
use hdfs.Rpc.Datatransfer.{ExtendedBlock, LocatedBlock, Conn}
use hdfs.Rpc.WriteStream.{WriteStream}

-- `HdfsFileStatusProto`, in the fields that the code reads.
pub record FileStatus : Type 0 where
  pub path : String
  pub is_dir : Bool
  pub len : ℕ

pub data Request : Type 0 where
  get_file_info : String → Request
  -- The fields are src, permission, replication and block size.
  create : String → ℕ → ℕ → ℕ → Request
  append : String → Request
  get_server_defaults : Request
  add_block : String → Option ExtendedBlock → Request
  update_block_for_pipeline : ExtendedBlock → Request
  complete : String → Option ExtendedBlock → Request
  renew_lease : Request
  delete : String → Bool → Request
  rename2 : String → String → Bool → Request
  mkdirs : String → ℕ → Bool → Request
  get_listing : String → String → Request
  get_block_locations : String → ℕ → ℕ → Request
  set_permission : String → ℕ → Request
  set_owner : String → String → String → Request
  set_times : String → ℕ → ℕ → Request
  get_content_summary : String → Request
  get_fs_stats : Request

-- `ContentSummaryProto`.
pub record Summary : Type 0 where
  pub length : ℕ
  pub file_count : ℕ
  pub directory_count : ℕ
  pub quota : ℕ
  pub space_consumed : ℕ
  pub space_quota : ℕ

-- `FsInfo`, whose fields are those of the response to `getFsStats`.
pub record FsInfo : Type 0 where
  pub capacity : ℕ
  pub used : ℕ
  pub remaining : ℕ
  pub under_replicated : ℕ
  pub corrupt_blocks : ℕ
  pub missing_blocks : ℕ
  pub missing_repl_one_blocks : ℕ
  pub blocks_in_future : ℕ
  pub pending_deletion_blocks : ℕ

-- All calls so far, the latest first.
abbrev pub History : Type 0
History = List Request

-- What a call answers: a response, or an error.
abbrev pub Answer : Type 0 → Type 0
Answer A = A ⊎ Error

pub record Namenode : Type 0 where
  pub on_get_file_info : History → Answer (Option FileStatus)
  pub on_create : History → Answer (Unit {0})
  -- The last block if it is not full, the replication and the block size.
  pub on_append : History → Answer (Option LocatedBlock × ℕ × ℕ)
  -- The replication and the block size.
  pub on_get_server_defaults : History → Answer (ℕ × ℕ)
  pub on_add_block : History → Answer LocatedBlock
  pub on_update_block_for_pipeline : History → Answer (Unit {0})
  pub on_complete : History → Answer (Unit {0})
  pub on_renew_lease : History → Answer (Unit {0})
  -- The result, where the response has one.
  pub on_delete : History → Answer (Option Bool)
  pub on_rename2 : History → Answer (Unit {0})
  -- The result.
  pub on_mkdirs : History → Answer Bool
  -- The entries and how many remain, if the directory is there.
  pub on_get_listing : History → Answer (Option (List FileStatus × ℕ))
  pub on_get_block_locations : History → Answer (List LocatedBlock)
  pub on_set_permission : History → Answer (Unit {0})
  pub on_set_owner : History → Answer (Unit {0})
  pub on_set_times : History → Answer (Unit {0})
  pub on_get_content_summary : History → Answer Summary
  pub on_get_fs_stats : History → Answer FsInfo

-- The state of a client: the calls to the namenode, the dials to datanodes, the streams of the
-- blocks that were closed with their connections, the number of files open for writing, and the
-- cached server defaults.
pub record World : Type 0 where
  pub history : History
  pub dials : ℕ
  pub transcripts : List (Conn × WriteStream)
  pub files_w_open : ℕ
  pub defaults : Option (ℕ × ℕ)

-- `Execute`: the call joins the history, which decides its answer.
abbrev pub execute {ℓ} : {A : Type ℓ} → (History → A) → Request → World → A × World
execute on request w =
    let history = request ∷ w.history in (on history, record w { history = history })
