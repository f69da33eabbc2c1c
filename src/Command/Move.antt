-- ===== src/Command/Move.antt =====
-- cmd/hdfs/mv.go: moving files, behind the expansion of the paths. An error ends the command.
pub mod Overwriting
use hdfs.Prelude.{
  ◌⊎◌, inl, inr, Bool, true, false, not, Option, none, some, List, [], ◌∷◌, String, ◌&&◌,
  if◌then◌else◌,
}
use hdfs.Prelude.Errors.{Error, Result, ok, err, panic}
use hdfs.Client.Exceptions.{is_not_exist}
use hdfs.Client.Requests.{FileStatus, Namenode, World}
use hdfs.Client.Writer.{Options}
use hdfs.Client.Namespace.{stat, rename}

-- `pathErr.Op = "rename"`
abbrev pub as_rename : Error → Error
as_rename (Error.path_error op path e) = Error.path_error "rename" path e
as_rename e = e

-- `clean` is `path.Clean`, `base` the last part that `path.Split` gives, and `join` is `path.Join`.
module _ (N : Namenode) (o : Options) (clean base : String → String)
    (join : String → String → String) where
  -- What `moveTo` has against a destination, by its status and that of the source.
  unfoldable pub refusal : String → Bool → FileStatus → FileStatus ⊎ Error → Option Error
  refusal dest force source (inl status) =
      if status.is_dir && not source.is_dir
      then some Error.replaces_directory
      else if not force
      then some (Error.path_error "rename" dest Error.exist)
      else none
  refusal dest force source (inr e) = if not (is_not_exist e) then some e else none

  unfoldable pub move_to : String → String → Bool → World → Option Error × World
  move_to source dest force w =
      let (source_info, w1) = stat N o clean source w in
      let (dest_info, w2) = stat N o clean dest w1 in
      let renamed = rename N o clean source dest w2 in
      elim source_info [
        | inr e ↦ (some (as_rename e), w1)
        | inl status ↦ elim (refusal dest force status dest_info) [
          | some e ↦ (some e, w2)
          | none ↦ renamed
        ]
      ]

  unfoldable pub move_into : List String → String → Bool → World → Option Error × World
  move_into [] dest force w = (none, w)
  move_into (source ∷ sources) dest force w =
      let (e, w') = move_to source (join dest (base source)) force w in
      let rest = move_into sources dest force w' in elim e [ some x ↦ (some x, w') | none ↦ rest ]

  -- The end of `mv`, which moves a single source.
  unfoldable pub move_one : List String → String → Bool → World → Result (Option Error × World)
  move_one [] dest force w = panic
  move_one (source ∷ []) dest force w = ok (move_to source dest force w)
  move_one (source ∷ more ∷ sources) dest force w = ok (some Error.many_sources, w)

  -- `mv` of the expanded sources.
  unfoldable pub mv : List String → String → Bool → Bool → World → Result (Option Error × World)
  mv sources dest force treat_dest_as_file w =
      let (dest_info, w1) = stat N o clean dest w in
      elim dest_info [
        | inl status ↦
            if not treat_dest_as_file && status.is_dir
            then ok (move_into sources dest force w1)
            else move_one sources dest force w1
        | inr e ↦ if not (is_not_exist e) then ok (some e, w1) else move_one sources dest force w1
      ]
