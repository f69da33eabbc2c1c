-- ===== src/Client/Namespace.antt =====
-- stat.go, mkdir.go, remove.go, rename.go and perms.go: the operations on the namespace. Times are in
-- seconds, as `Unix` gives them.
pub mod Outcomes
use hdfs.Prelude.{
  ℕ, ◌*◌, ◌%◌, ◌^◌, ◌⊎◌, inl, inr, Bool, true, false, not, Option, none, some, String, ◌&&◌,
  if◌then◌else◌,
}
use hdfs.Prelude.Errors.{Error}
use hdfs.Client.Exceptions.{interpret_exception, is_not_exist}
use hdfs.Client.Requests.{Request, FileStatus, Namenode, World, execute}
use hdfs.Client.Writer.{Options, get_file_info}

-- `&os.PathError{op, name, interpretException(err)}`
abbrev pub interpreted : String → String → Error → Option Error
interpreted op name e = some (Error.path_error op name (interpret_exception e))

-- The end of an operation that only makes one call.
abbrev pub answered : {A : Type 0} → String → String → A ⊎ Error → Option Error
answered op name (inl _) = none
answered op name (inr e) = interpreted op name e

-- `clean` is `path.Clean`.
module _ (N : Namenode) (o : Options) (clean : String → String) where
  open N use {on_mkdirs, on_delete, on_rename2, on_set_permission, on_set_owner, on_set_times}

  unfoldable pub stat : String → World → (FileStatus ⊎ Error) × World
  stat name w =
      let (info, w') = get_file_info N o name w in
      (
        elim info [
          | inl status ↦ inl status
          | inr e ↦ inr (Error.path_error "stat" name (interpret_exception e))
        ],
        w',
      )

  -- `mkdir`, which `Mkdir` and `MkdirAll` call.
  unfoldable pub make_dir : String → ℕ → Bool → World → Option Error × World
  make_dir name perm create_parent w =
      let dirname = clean name in
      let (info, w1) = get_file_info N o dirname w in
      let (answer, w2) = execute on_mkdirs (Request.mkdirs dirname perm create_parent) w1 in
      elim info [
        | inl status ↦
            if create_parent && status.is_dir
            then (none, w1)
            else (some (Error.path_error "mkdir" dirname Error.exist), w1)
        | inr e ↦
            if not (is_not_exist (interpret_exception e))
            then (interpreted "mkdir" dirname e, w1)
            else (answered "mkdir" dirname answer, w2)
      ]

  unfoldable pub mkdir : String → ℕ → World → Option Error × World
  mkdir name perm w = make_dir name perm false w

  unfoldable pub mkdir_all : String → ℕ → World → Option Error × World
  mkdir_all name perm w = make_dir name perm true w

  -- `delete`. It passes the error of `getFileInfo` on as it is, and does not look at the result.
  unfoldable pub delete : String → Bool → World → Option Error × World
  delete name recursive w =
      let (info, w1) = get_file_info N o name w in
      let (answer, w2) = execute on_delete (Request.delete name recursive) w1 in
      elim info [
        | inr e ↦ (some (Error.path_error "remove" name e), w1)
        | inl _ ↦ elim answer [
          | inr e ↦ (interpreted "remove" name e, w2)
          | inl none ↦ (some (Error.path_error "remove" name Error.empty_response), w2)
          | inl (some _) ↦ (none, w2)
        ]
      ]

  unfoldable pub remove : String → World → Option Error × World
  remove name w = delete name false w

  unfoldable pub remove_all : String → World → Option Error × World
  remove_all name w =
      let (e, w') = delete name true w in
      elim e [ none ↦ (none, w') | some x ↦ (if is_not_exist x then none else some x, w') ]

  unfoldable pub rename : String → String → World → Option Error × World
  rename oldpath newpath w =
      let (info, w1) = get_file_info N o newpath w in
      let (answer, w2) = execute on_rename2 (Request.rename2 oldpath newpath true) w1 in
      let go : Option Error × World = (answered "rename" oldpath answer, w2) in
      elim info [
        | inl _ ↦ go
        | inr e ↦
            if not (is_not_exist (interpret_exception e))
            then (interpreted "rename" newpath e, w1)
            else go
      ]

  unfoldable pub chmod : String → ℕ → World → Option Error × World
  chmod name perm w =
      let (answer, w') = execute on_set_permission (Request.set_permission name perm) w in
      (answered "chmod" name answer, w')

  unfoldable pub chown : String → String → String → World → Option Error × World
  chown name user group w =
      let (answer, w') = execute on_set_owner (Request.set_owner name user group) w in
      (answered "chown" name answer, w')

  unfoldable pub chtimes : String → ℕ → ℕ → World → Option Error × World
  chtimes name atime mtime w =
      let request = Request.set_times name (mtime * 1000 % 2 ^ 64) (atime * 1000 % 2 ^ 64) in
      let (answer, w') = execute on_set_times request w in (answered "chtimes" name answer, w')
