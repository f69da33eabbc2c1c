-- ===== src/Command/Globs.antt =====
-- cmd/hdfs/paths.go: the expansion of the globs in the arguments of a command.
pub mod Cuts
pub mod Found
pub mod Stuck
use hdfs.Client.Queries.{read_dir}
use hdfs.Client.Exceptions.{is_not_exist}
use hdfs.Prelude.Errors.{not_exist, Error}
use hdfs.Client.Namespace.{stat}
use hdfs.Command.Paths.{normalize_paths, Url}
use hdfs.Client.Writer.{and_then, panicked, done, out_of_fuel, Options, Run}
use hdfs.Client.Requests.{World, FileStatus, Namenode}
use hdfs.Prelude.{
  take, get_elem?, drop, ◌+◌, ℕ, ◌||◌, Option, ◌⊎◌, inl, inr, Bool, true, false, not, List, [], ◌∷◌,
  ◌++◌, String, ◌&&◌, if◌then◌else◌, zero, suc, none, some,
}
use Prim.Native.String.{len, slice, ◌++◌ as ◌<>◌}
use text.Mathlib.Text.{◌==◌ as str_eq}

-- What the commands use of the packages path and strings: `path.Clean`, `path.Base`, `path.Join`,
-- `path.IsAbs`, `path.Match` without its error, and `strings.Split` at "/".
pub record PathPackage : Type 0 where
  pub clean : String → String
  pub base : String → String
  pub join : List String → String
  pub is_abs : String → Bool
  pub match : String → String → Bool
  pub split : String → List String

-- The regular expression of `hasGlob` at one byte: one of the three, at the start or behind anything but
-- a backslash.
abbrev pub is_glob_char : String → Bool
is_glob_char c = str_eq c "[" || (str_eq c "*" || str_eq c "?")

abbrev pub glob_at : String → ℕ → Bool
glob_at s zero = is_glob_char (slice s 0 1)
glob_at s (suc i) = is_glob_char (slice s (suc i) (i + 2)) && not (str_eq (slice s i (i + 1)) "\\")

abbrev pub any_below : (ℕ → Bool) → ℕ → Bool
any_below test zero = false
any_below test (suc n) = test n || any_below test n

unfoldable pub has_glob : String → Bool
has_glob fragment = any_below (glob_at fragment) (len fragment)

-- The loop that looks for the first part with a glob: it stops at the last part in any case.
unfoldable pub split_at : List String → ℕ
split_at [] = 0
split_at (part ∷ []) = 0
split_at (part ∷ next ∷ parts) =
    let rest = split_at (next ∷ parts) in if has_glob part then 0 else suc rest

-- A path cut at its first glob.
pub record Cut : Type 0 where
  pub base : String
  pub glob : String
  pub next : String
  pub remainder : String

-- What the loops come to: the paths that were found, or an error.
abbrev pub Expansion : Type 0
Expansion = Run (World × (List String ⊎ Error))

module _ (p : PathPackage) where
  open p use {clean, base, join, is_abs, match, split}

  -- The start of `expandGlobs`, or none where it panics.
  unfoldable pub cut_at_glob : String → Option Cut
  cut_at_glob globbed_path =
      let parts = drop 1 (split globbed_path) in
      let at = split_at parts in
      elim (get_elem? parts at) [
        | none ↦ none
        | some glob ↦ some (record {
          base = "/" <> join (take at parts);
          glob = glob;
          next = elim (get_elem? parts (at + 1)) [ none ↦ "" | some next ↦ next ];
          remainder = elim (get_elem? parts (at + 1)) [
            | none ↦ ""
            | some next ↦ join (drop (at + 2) parts)
          ];
        })
      ]

  -- `newPath`
  abbrev pub new_path : Cut → FileStatus → String
  new_path cut status = join (cut.base ∷ base status.path ∷ cut.next ∷ cut.remainder ∷ [])

  -- `userDir`
  abbrev pub user_dir : String → String
  user_dir user = join ("/user" ∷ user ∷ [])

  abbrev pub absolute : String → String → String
  absolute home path = if is_abs path then path else join (home ∷ path ∷ [])

  module _ (N : Namenode) (o : Options) where
    -- One round of the loop over the entries of the directory: the paths that it adds.
    unfoldable pub expand_entry :
        (String → World → Expansion) → Cut → FileStatus → World → Expansion
    expand_entry expand cut status w =
        let path = new_path cut status in
        let (found, w') = stat N o clean path w in
        let children = expand path w in
        if not (match cut.glob (base status.path))
        then done (w, inl [])
        else if has_glob path
        then (if status.is_dir then children else done (w, inl []))
        else elim found [
          | inl _ ↦ done (w', inl (path ∷ []))
          | inr e ↦ done (w', if is_not_exist e then inl [] else inr e)
        ]

    unfoldable pub expand_entries :
        (String → World → Expansion) → Cut → List FileStatus → List String → World → Expansion
    expand_entries expand cut [] res w = done (w, inl res)
    expand_entries expand cut (status ∷ statuses) res w =
        and_then (expand_entry expand cut status w) λ r. elim r.1 [
          | inr e ↦ done (r.0, inr e)
          | inl paths ↦ expand_entries expand cut statuses (res ++ paths) r.0
        ]

    -- `expandGlobs`, no deeper than `depth`, of directories that are listed in `batches` calls.
    unfoldable pub expand_globs : ℕ → ℕ → String → World → Expansion
    expand_globs batches zero globbed_path w = out_of_fuel
    expand_globs batches (suc depth) globbed_path w =
        let expand = expand_globs batches depth in
        elim (cut_at_glob globbed_path) [
          | none ↦ panicked
          | some cut ↦ and_then (read_dir N o base batches cut.base w) λ r. elim r.1 [
            | inr e ↦ done (r.0, inr e)
            | inl statuses ↦ expand_entries expand cut statuses [] r.0
          ]
        ]

    -- `expandPaths` of the paths behind `res`.
    unfoldable pub expand_loop : ℕ → ℕ → String → List String → List String → World → Expansion
    expand_loop batches depth home [] res w = done (w, inl res)
    expand_loop batches depth home (path ∷ paths) res w =
        let full = absolute home path in
        elim (has_glob full) [
          | false ↦ expand_loop batches depth home paths (res ++ (full ∷ [])) w
          | true ↦ and_then (expand_globs batches depth full w) λ r. elim r.1 [
            | inr e ↦ done (r.0, inr e)
            | inl [] ↦ done (r.0, inr (Error.path_error "stat" full Error.not_exist))
            | inl (found ∷ more) ↦ expand_loop batches depth home paths (res ++ (found ∷ more)) r.0
          ]
        ]

    unfoldable pub expand_paths : ℕ → ℕ → String → List String → World → Expansion
    expand_paths batches depth user paths w = expand_loop batches depth (user_dir user) paths [] w

    -- `getClientAndExpandedPaths`. `parse` is `url.Parse`, and `get_client` the error of `getClient` for
    -- a host; the client that it gives otherwise has this namenode.
    unfoldable pub get_client_and_expanded_paths :
        (String → Url ⊎ Error)
        → (String → Option Error)
        → ℕ
        → ℕ
        → String
        → List String
        → World
        → Expansion
    get_client_and_expanded_paths parse get_client batches depth user paths w =
        elim (normalize_paths parse clean paths) [
          | inr e ↦ done (w, inr e)
          | inl (normalized, host) ↦ elim (get_client host) [
            | some e ↦ done (w, inr e)
            | none ↦ expand_paths batches depth user normalized w
          ]
        ]
