-- ===== src/Client/Walk.antt =====
-- walk.go: the walk over a tree of files.
pub mod Trees
pub mod Steps
pub mod Order
use hdfs.Prelude.Int.{pos}
use hdfs.Client.Reader.{readdirnames, open_file, FileReader}
use hdfs.Client.Writer.{and_then, panicked, out_of_fuel, done, Options, Run}
use hdfs.Client.Requests.{FileStatus, Namenode, World}
use hdfs.Prelude.Errors.{Error}
use hdfs.Prelude.{
  zero, not, ◌&&◌, suc, inr, ℕ, inl, ◌⊎◌, String, Bool, true, false, List, [], ◌∷◌, Option, none,
  some, if◌then◌else◌,
}

abbrev pub is_skip_dir : Error → Bool
is_skip_dir Error.skip_dir = true
is_skip_dir e = false

abbrev pub is_dir : Option FileStatus → Bool
is_dir none = false
is_dir (some status) = status.is_dir

-- What `Open` gives a callback: the status of the file, and the error.
abbrev pub info_of : FileReader ⊎ Error → Option FileStatus
info_of (inl f) = some f.info
info_of (inr e) = none

abbrev pub error_of : FileReader ⊎ Error → Option Error
error_of (inl f) = none
error_of (inr e) = some e

-- What a walk comes to: the state of the callback, that of the client, and the error.
abbrev pub Walked : Type 0 → Type 0
Walked S = Run (S × World × Option Error)

module _ {S : Type 0} (join : String → String → String) where
  -- The loop over the names in a directory, for what `walk` does at a path.
  unfoldable pub walk_names :
      (String → S → World → Walked S) → String → List String → S → World → Walked S
  walk_names visit path [] s w = done (s, w, none)
  walk_names visit path (name ∷ names) s w = and_then (visit (join path name) s w) λ r. elim r.2 [
    | some e ↦ done (r.0, r.1, some e)
    | none ↦ walk_names visit path names r.0 r.1
  ]

-- `join` is `filepath.Join` with the slashes that `filepath.ToSlash` makes, and `sort` is
-- `sort.Strings`. A callback has a state of its own, and may call the client.
module _ (N : Namenode) (o : Options) (base : String → String) (join : String → String → String)
    (sort : List String → List String) {S : Type 0}
    (walk_fn : S → World → String → Option FileStatus → Option Error → Walked S) where
  -- `walk` of a tree that is no deeper than `depth`, whose directories are listed in `batches` calls at
  -- most.
  unfoldable pub walk : ℕ → ℕ → String → S → World → Walked S
  walk batches zero path s w = out_of_fuel
  walk batches (suc depth) path s w =
      let visit = walk batches depth in
      let (opened, w1) = open_file N o base path w in
      and_then (walk_fn s w1 path (info_of opened) (error_of opened)) λ r. elim r.2 [
        | some e ↦
            done (r.0, r.1, if is_dir (info_of opened) && is_skip_dir e then none else some e)
        | none ↦ elim opened [
          | inr e ↦ done (r.0, r.1, none)
          | inl f ↦
              if not f.info.is_dir
              then done (r.0, r.1, none)
              else and_then (readdirnames N o base batches f r.1 (pos 0)) λ listed. elim listed.2 [
                | inr e ↦ walk_fn r.0 listed.1 path (some f.info) (some e)
                | inl names ↦ walk_names join visit path (sort names) r.0 listed.1
              ]
        ]
      ]
