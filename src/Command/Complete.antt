-- ===== src/Command/Complete.antt =====
-- cmd/hdfs/complete.go, and the choice of the command in cmd/hdfs/main.go.
pub mod Known
use hdfs.Command.Listing.{each_page}
use hdfs.Client.Reader.{open_file}
use hdfs.Prelude.Errors.{Error}
use hdfs.Command.Paths.{normalize_paths, Url}
use hdfs.Client.Writer.{panicked, done, Run, Options}
use hdfs.Client.Requests.{World, Namenode, FileStatus}
use hdfs.Command.Globs.{has_glob, user_dir, PathPackage}
use hdfs.Prelude.{
  ◌+◌, drop, ◌⊎◌, ℕ, Bool, true, false, List, [], ◌∷◌, String, Option, none, some, inl, inr,
  if◌then◌else◌, not, ◌++◌, zero, suc, ◌||◌, ◌&&◌,
}
use hdfs.Prelude.Int.{sub_ℕ, ◌==ℤ◌, ℤ, pos, negsuc}
use Prim.Native.String.{len, slice, ◌++◌ as ◌<>◌}
use text.Mathlib.Text.{◌==◌ as str_eq, starts_with}

abbrev pub known_commands : List String
known_commands =
    "ls" ∷ "rm" ∷ "mv" ∷ "mkdir" ∷ "touch" ∷ "chmod" ∷ "chown" ∷ "cat" ∷ "head" ∷ "tail" ∷ "du"
    ∷ "checksum" ∷ "get" ∷ "getmerge" ∷ "put" ∷ "df" ∷ []

abbrev pub is_one_of : String → List String → Bool
is_one_of command [] = false
is_one_of command (c ∷ cs) = str_eq command c || is_one_of command cs

unfoldable pub is_known_command : String → Bool
is_known_command command = is_one_of command known_commands

-- The loop of `countPosition`, and its result.
abbrev pub count_words : List String → ℕ → ℕ
count_words [] position = position
count_words (w ∷ words) position =
    count_words words (if starts_with w "-" then position else position + 1)

unfoldable pub count_position : List String → ℤ
count_position words = sub_ℕ (count_words words 0) 1

-- What is to be completed: a path of the local file system, nothing, or a path of the client.
pub data Completion : Type 0 where
  local_file nothing : Completion
  path : String → Completion

unfoldable pub complete_arg : String → String → ℤ → Completion
complete_arg command fragment position =
    if (str_eq command "put" && (position ==ℤ pos 1))
      || ((str_eq command "get" || str_eq command "getmerge") && (position ==ℤ pos 2))
    then Completion.local_file
    else if (str_eq command "chmod" || str_eq command "chown") && (position ==ℤ pos 1)
    then Completion.nothing
    else if not (starts_with fragment "-")
    then Completion.path fragment
    else Completion.nothing

-- `words[len(words)-1]`
abbrev pub last_word : String → List String → String
last_word last [] = last
last_word last (w ∷ words) = last_word w words

-- What `complete` prints: all commands, or what is to be completed; `split` is `strings.Split` at a space.
unfoldable pub complete : (String → List String) → List String → List String ⊎ Completion
complete split (command ∷ line ∷ []) = elim (drop 1 (split line)) [
  | [] ↦ inl known_commands
  | word ∷ [] ↦ inl known_commands
  | word ∷ next ∷ words ↦
      if is_known_command word
      then inr (complete_arg word (last_word next words) (count_position (word ∷ next ∷ words)))
      else inr Completion.nothing
]
complete split args = inl known_commands

-- The paths that `completePath` prints of a page.
module _ (p : PathPackage) where
  unfoldable pub complete_names : String → String → List FileStatus → List String
  complete_names dir prefix [] = []
  complete_names dir prefix (file ∷ files) =
      let rest = complete_names dir prefix files in
      let name = p.base file.path in
      let full = p.join (dir ∷ name ∷ []) in
      if starts_with name prefix then (if file.is_dir then full <> "/" else full) ∷ rest else rest

  -- `completePath` behind its client. `split` is `path.Split`, and `ends_in_slash` is
  -- `strings.HasSuffix` with a slash. It prints nothing behind an error, not even a line's end.
  module _ (N : Namenode) (o : Options) (parse : String → Url ⊎ Error)
      (get_client : String → Option Error) (split : String → String × String)
      (ends_in_slash : String → Bool) where
    -- The directory, the prefix and whether to go on.
    unfoldable pub completed_in : String → String → String → Option (String × String)
    completed_in user fragment normalized =
        let full = if str_eq normalized "" then user_dir p user <> "/" else normalized in
        if not (str_eq normalized "") && has_glob normalized
        then none
        else some (if ends_in_slash fragment then (full, "") else split full)

    unfoldable pub complete_path :
        ℕ → ℕ → String → String → World → Run (List String × World × Option Error)
    complete_path batches rounds user fragment w =
        elim (normalize_paths parse p.clean (fragment ∷ [])) [
          | inr e ↦ done ([], w, some e)
          | inl ([], host) ↦ panicked
          | inl (normalized ∷ more, host) ↦ elim (get_client host) [
            | some e ↦ done ([], w, some e)
            | none ↦ elim (completed_in user fragment normalized) [
              | none ↦ done ([], w, none)
              | some (dir, prefix) ↦
                  let (opened, w1) = open_file N o p.base dir w in
                  elim opened [
                    | inr e ↦ done ([], w1, some e)
                    | inl f ↦
                        each_page N o p.base
                          (λ partial names w'.
                            done (names ++ complete_names dir prefix partial, w', none))
                          batches 1000 rounds f [] w1
                  ]
            ]
          ]
        ]

-- What `main` runs for a command. The flags are parsed by the library.
pub data Command : Type 0 where
  show_version list_files remove_files move_files make_directories touch_files change_owner
        change_mode show_files :
      Command
  print_section : Bool → Command
  disk_usage checksums get_file get_merged put_file disk_free complete_line help unknown : Command

unfoldable pub command_of : String → Command
command_of command =
    if is_one_of command ("-v" ∷ "--version" ∷ [])
    then Command.show_version
    else if str_eq command "ls"
    then Command.list_files
    else if str_eq command "rm"
    then Command.remove_files
    else if str_eq command "mv"
    then Command.move_files
    else if str_eq command "mkdir"
    then Command.make_directories
    else if str_eq command "touch"
    then Command.touch_files
    else if str_eq command "chown"
    then Command.change_owner
    else if str_eq command "chmod"
    then Command.change_mode
    else if str_eq command "cat"
    then Command.show_files
    else if is_one_of command ("head" ∷ "tail" ∷ [])
    then Command.print_section (str_eq command "tail")
    else if str_eq command "du"
    then Command.disk_usage
    else if str_eq command "checksum"
    then Command.checksums
    else if str_eq command "get"
    then Command.get_file
    else if str_eq command "getmerge"
    then Command.get_merged
    else if str_eq command "put"
    then Command.put_file
    else if str_eq command "df"
    then Command.disk_free
    else if str_eq command "complete"
    then Command.complete_line
    else if is_one_of command ("help" ∷ "-h" ∷ "-help" ∷ "--help" ∷ [])
    then Command.help
    else Command.unknown
