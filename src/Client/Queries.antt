-- ===== src/Client/Queries.antt =====
-- content_summary.go, stat_fs.go, readdir.go and the lease of client.go: what the client asks for
-- besides files, and how it keeps the lease of the files that it writes.
use hdfs.Prelude.{
  ℕ, ◌+◌, ◌^◌, ◌<◌, ◌≡◌, ◌⊎◌, inl, inr, Option, none, some, List, ◌∷◌, String, arith, ◌==◌,
  if◌then◌else◌,
}
use hdfs.Prelude.Int.{ℤ, pos}
use hdfs.Prelude.Errors.{Error}
use hdfs.Client.Exceptions.{interpret_exception}
use hdfs.Client.Requests.{Request, FileStatus, Summary, FsInfo, Namenode, World, execute}
use hdfs.Client.Writer.{Options, Run, done, add_file, remove_file}
use hdfs.Client.Reader.{FileReader, signed, map_run, open_file, readdir}

pub record ContentSummary : Type 0 where
  pub name : String
  pub content_summary : Summary

-- `Size`, `SizeAfterReplication`, `FileCount`, `DirectoryCount`, `NameQuota` and `SpaceQuota`: the
-- numbers of the response as signed ones.
abbrev pub content_numbers : ContentSummary → ℤ × ℤ × ℤ × ℤ × ℤ × ℤ
content_numbers cs =
    let s = cs.content_summary in
    (
      signed s.length,
      signed s.space_consumed,
      signed s.file_count,
      signed s.directory_count,
      signed s.quota,
      signed s.space_quota,
    )

module _ (N : Namenode) (o : Options) (base : String → String) where
  open N use {on_renew_lease, on_get_content_summary, on_get_fs_stats}

  unfoldable pub get_content_summary : String → World → (ContentSummary ⊎ Error) × World
  get_content_summary name w =
      let (answer, w') = execute on_get_content_summary (Request.get_content_summary name) w in
      (
        elim answer [
          | inr e ↦ inr (Error.path_error "content summary" name (interpret_exception e))
          | inl summary ↦ inl (record { name = name; content_summary = summary })
        ],
        w',
      )

  unfoldable pub stat_fs : World → (FsInfo ⊎ Error) × World
  stat_fs w = execute on_get_fs_stats Request.get_fs_stats w

  -- `ReadDir`: all entries of a directory.
  unfoldable pub read_dir : ℕ → String → World → Run (World × (List FileStatus ⊎ Error))
  read_dir fuel dirname w =
      let (opened, w1) = open_file N o base dirname w in
      elim opened [
        | inr e ↦ done (w1, inr e)
        | inl f ↦
            map_run (λ (r : FileReader × World × (List FileStatus ⊎ Error)). (r.1, r.2))
              (readdir N o base fuel f w1 (pos 0))
      ]

  -- `leaseRenew`: nothing is asked for while no file is open for writing.
  unfoldable pub lease_renew : World → Option Error × World
  lease_renew w =
      let (answer, w') = execute on_renew_lease Request.renew_lease w in
      if w.files_w_open == 0
      then (none, w)
      else elim answer [ inl _ ↦ (none, w') | inr e ↦ (some e, w') ]

  -- A file that is opened for writing makes the client renew its lease, unless 2 ^ 64 - 1 files are
  -- open; when it is closed the number of open files is the one from before, and a client with no
  -- other file does not renew its lease any more.
  pub lease_renew_lem :
      (w : World)
      → w.files_w_open + 1 < 2 ^ 64
      → ((lease_renew (add_file w)).1.history ≡ Request.renew_lease ∷ w.history)
        × ((remove_file (add_file w)).files_w_open ≡ w.files_w_open)
        × (w.files_w_open ≡ 0
            → lease_renew (remove_file (add_file w)) ≡ (none, remove_file (add_file w)))
  unfolding lease_renew add_file remove_file
  lease_renew_lem w h = (ground arith, ground arith, λ e. ground arith)
