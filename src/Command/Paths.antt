-- ===== src/Command/Paths.antt =====
-- cmd/hdfs/paths.go: the namenode and the paths that the arguments of a command name.
pub mod Hosts
use hdfs.Prelude.{◌⊎◌, inl, inr, Bool, not, List, [], ◌∷◌, ◌++◌, String, ◌&&◌, if◌then◌else◌}
use hdfs.Prelude.Errors.{Error}
use text.Mathlib.Text.{◌==◌ as str_eq}

-- What `url.Parse` gives of an argument.
pub record Url : Type 0 where
  pub host : String
  pub path : String

-- `parse` is `url.Parse`, and `clean` is `path.Clean`.
module _ (parse : String → Url ⊎ Error) (clean : String → String) where
  -- The host that a url names is another one than an earlier one has.
  abbrev pub is_other_host : Url → String → Bool
  is_other_host url namenode =
      not (str_eq url.host "") && (not (str_eq namenode "") && not (str_eq namenode url.host))

  -- The loop of `normalizePaths`: the clean paths so far, and the namenode.
  unfoldable pub normalize_loop :
      List String → List String → String → (List String × String) ⊎ Error
  normalize_loop [] clean_paths namenode = inl (clean_paths, namenode)
  normalize_loop (raw_url ∷ paths) clean_paths namenode = elim (parse raw_url) [
    | inr e ↦ inr e
    | inl url ↦
        let rest =
          normalize_loop paths (clean_paths ++ (clean url.path ∷ []))
            (if str_eq url.host "" then namenode else url.host) in
        if is_other_host url namenode then inr Error.multiple_namenode_urls else rest
  ]

  unfoldable pub normalize_paths : List String → (List String × String) ⊎ Error
  normalize_paths paths = normalize_loop paths [] ""
