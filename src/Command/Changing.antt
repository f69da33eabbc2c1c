-- ===== src/Command/Changing.antt =====
-- cmd/hdfs/rm.go, mkdir.go, touch.go, chmod.go, chown.go and df.go: the commands that change files, behind
-- the expansion of their paths.
use hdfs.Rpc.Datatransfer.{Protocol}
use hdfs.Client.Exceptions.{is_not_exist}
use hdfs.Client.Writer.Blocks.{create_empty_file}
use hdfs.Client.Walk.{walk, Walked}
use hdfs.Client.Namespace.{chtimes, chown, mkdir, chmod, remove_all, stat, mkdir_all}
use hdfs.Client.Writer.{and_then, done, Run, Options}
use hdfs.Prelude.Errors.{Error}
use hdfs.Command.Globs.{has_glob, PathPackage}
use hdfs.Client.Requests.{FileStatus, Namenode, FsInfo, World}
use hdfs.Prelude.{
  ◌+◌, ◌/◌, ◌^◌, ◌%◌, ◌*◌, ◌==◌, ℕ, Bool, true, false, List, [], ◌∷◌, ◌++◌, String, Option, none,
  some, inl, inr, if◌then◌else◌, not, ◌&&◌, ◌||◌,
}

-- The errors that were printed, and the exit status.
abbrev pub Screen : Type 0
Screen = List Error × ℕ

-- An error that ends the command stands behind what was printed.
abbrev pub Ending : Type 0
Ending = Screen × World × Option Error

abbrev pub complain : Error → Screen → Screen
complain e s = (s.0 ++ (e ∷ []), 1)

-- `pathErr.Op = "remove"`
abbrev pub as_remove : Error → Error
as_remove (Error.path_error op path e) = Error.path_error "remove" path e
as_remove e = e

-- `os.IsExist`
abbrev pub is_exist : Error → Bool
is_exist Error.exist = true
is_exist Error.not_empty = true
is_exist (Error.path_error op path Error.exist) = true
is_exist (Error.path_error op path Error.not_empty) = true
is_exist e = false

-- `0755 | os.ModeDir`
abbrev pub directory_mode : ℕ
directory_mode = 2 ^ 31 + 0o755

-- The owner and the group that the first argument of `chown` names: the group is the owner's if there is
-- none. `split_n` is `strings.SplitN` at a colon, into two parts at most.
unfoldable pub owner_of : (String → List String) → String → Option (String × String)
owner_of split_n arg = elim (split_n arg) [
  | [] ↦ none
  | owner ∷ [] ↦ some (owner, owner)
  | owner ∷ group ∷ more ↦ some (owner, group)
]

-- The last number that `df` prints, none where it divides by zero.
unfoldable pub use_percent : FsInfo → Option ℕ
use_percent fs = if fs.capacity == 0 then none else some (100 * fs.used % 2 ^ 64 / fs.capacity)

module _ (p : PathPackage) (N : Namenode) (o : Options) where
  open p use {clean, base}

  -- `rm` of the expanded paths.
  unfoldable pub rm : Bool → Bool → List String → Screen → World → Ending
  rm recursive force [] s w = (s, w, none)
  rm recursive force (path ∷ paths) s w =
      let (info, w1) = stat N o clean path w in
      let (failed, w2) = remove_all N o clean path w1 in
      elim info [
        | inr e ↦
            rm recursive force paths
              (if force && is_not_exist e then s else complain (as_remove e) s) w1
        | inl status ↦ elim (not recursive && status.is_dir) [
          | true ↦
              rm recursive force paths
                (complain (Error.path_error "remove" path Error.is_directory) s) w1
          | false ↦ elim failed [ some e ↦ (s, w2, some e) | none ↦ rm recursive force paths s w2 ]
        ]
      ]

  -- `mkdir` of the normalized paths.
  unfoldable pub make_directories : Bool → List String → World → Option Error × World
  make_directories all [] w = (none, w)
  make_directories all (path ∷ paths) w =
      let made =
        if all
        then mkdir_all N o clean path directory_mode w
        else mkdir N o clean path directory_mode w in
      elim (has_glob path) [
        | true ↦ (some (Error.path_error "mkdir" path Error.not_exist), w)
        | false ↦ elim made.0 [
          | none ↦ make_directories all paths made.1
          | some e ↦ elim (all && is_exist e) [
            | true ↦ make_directories all paths made.1
            | false ↦ (some e, made.1)
          ]
        ]
      ]

  -- `touch` of the normalized paths, at the time `now`. `net` is the network of the datanodes.
  unfoldable pub touch : Protocol → ℕ → Bool → List String → World → Option Error × World
  touch net now no_create [] w = (none, w)
  touch net now no_create (path ∷ paths) w =
      let (info, w1) = stat N o clean path w in
      let (changed, w2) = chtimes N o clean path now now w1 in
      let (w3, created) = create_empty_file net N o path w1 in
      elim (has_glob path) [
        | true ↦ (some (Error.path_error "mkdir" path Error.not_exist), w)
        | false ↦ elim info [
          | inl status ↦ elim changed [
            | some e ↦ (some e, w2)
            | none ↦ touch net now no_create paths w2
          ]
          | inr e ↦ elim (not (is_not_exist e) || no_create) [
            | true ↦ (some e, w1)
            | false ↦ elim created [
              | some x ↦ (some x, w3)
              | none ↦ touch net now no_create paths w3
            ]
          ]
        ]
      ]

  -- The `visit` of `chmod` and `chown`, for one of the two calls. It does not look at the error that it is
  -- given.
  abbrev pub visit :
      (String → World → Option Error × World)
      → Screen
      → World
      → String
      → Option FileStatus
      → Option Error
      → Walked Screen
  visit change s w path info error =
      let (failed, w') = change path w in
      done (elim failed [ none ↦ s | some e ↦ complain e s ], w', failed)

  -- The loop of `chmod` and `chown` over the expanded paths.
  unfoldable pub change_all :
      (String → String → String)
      → (List String → List String)
      → ℕ
      → ℕ
      → (String → World → Option Error × World)
      → Bool
      → List String
      → Screen
      → World
      → Run Ending
  change_all join sort batches depth change recursive [] s w = done (s, w, none)
  change_all join sort batches depth change recursive (path ∷ paths) s w =
      let (info, w1) = stat N o clean path w in
      elim recursive [
        | true ↦ and_then (walk N o base join sort (visit change) batches depth path s w) λ r.
            change_all join sort batches depth change recursive paths
              (elim r.2 [ none ↦ r.0 | some e ↦ complain e r.0 ]) r.1
        | false ↦ elim info [
          | inr e ↦ done (s, w1, some e)
          | inl status ↦
              and_then (visit change s w1 path (some status) none)
                λ r. change_all join sort batches depth change recursive paths r.0 r.1
        ]
      ]

  -- `chmod` with the mode that `strconv.ParseUint` has given.
  unfoldable pub chmod_all :
      (String → String → String)
      → (List String → List String)
      → ℕ
      → ℕ
      → ℕ
      → Bool
      → List String
      → World
      → Run Ending
  chmod_all join sort batches depth mode recursive paths w =
      change_all join sort batches depth (λ path. chmod N o clean path mode) recursive paths ([], 0)
        w

  unfoldable pub chown_all :
      (String → String → String)
      → (List String → List String)
      → ℕ
      → ℕ
      → String × String
      → Bool
      → List String
      → World
      → Run Ending
  chown_all join sort batches depth who recursive paths w =
      change_all join sort batches depth (λ path. chown N o clean path who.0 who.1) recursive paths
        ([], 0) w
