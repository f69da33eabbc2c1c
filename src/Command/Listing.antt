-- ===== src/Command/Listing.antt =====
-- cmd/hdfs/ls.go and cmd/hdfs/du.go, behind the expansion of the paths: what they print of files and
-- directories. A `tabwriter` keeps what it is given until it is flushed.
pub mod Pages
use hdfs.Client.Queries.{get_content_summary, content_numbers}
use hdfs.Client.Namespace.{stat}
use hdfs.Client.Reader.{int64, readdir, signed, open_file, FileReader}
use hdfs.Prelude.Errors.{is_eof, Error}
use hdfs.Prelude.Int.{◌+ℤ◌, pos, ℤ}
use hdfs.Client.Writer.{done, out_of_fuel, and_then, Run, Options}
use hdfs.Client.Requests.{World, FileStatus, Namenode}
use hdfs.Command.Globs.{user_dir, PathPackage}
use hdfs.Prelude.{
  map, ◌==◌, length, ◌⊎◌, Bool, ℕ, Option, List, String, [], ◌∷◌, ◌++◌, if◌then◌else◌, not, inl,
  inr, none, some, true, false, zero, suc, ◌&&◌, ◌||◌,
}
use text.Mathlib.Text.{starts_with}

-- A line of output: the long form of a file, a name, an empty line, the head of a directory, and the size
-- of a path; or an error, which goes to the other output.
pub data Line : Type 0 where
  long_line : String → FileStatus → Line
  name_line : String → Line
  blank : Line
  header : String → Line
  size_line : ℤ → String → Line
  notice : Error → Line

-- The output so far, and the error that ends the command, if any.
abbrev pub Output : Type 0
Output = List Line × World × Option Error

module _ (N : Namenode) (o : Options) (base : String → String) {S : Type 0}
    (handle : List FileStatus → S → World → Run (S × World × Option Error)) where
  -- The loop over the pages of a directory, of `limit` entries at most, until the end of the file or an
  -- error. A handler may end it with an error of its own.
  unfoldable pub each_page : ℕ → ℕ → ℕ → FileReader → S → World → Run (S × World × Option Error)
  each_page batches limit zero f s w = out_of_fuel
  each_page batches limit (suc rounds) f s w =
      and_then (readdir N o base batches f w (pos limit)) λ r. elim r.2 [
        | inr e ↦ done (s, r.1, if is_eof e then none else some e)
        | inl partial ↦
            and_then (handle partial s r.1)
              λ t. elim t.2 [ some x ↦ done t | none ↦ each_page batches limit rounds r.0 t.0 t.1 ]
      ]

-- `fi.Size()`
abbrev pub file_size : FileStatus → ℤ
file_size status = signed status.len

module _ (p : PathPackage) where
  -- `printFiles`
  unfoldable pub print_files : Bool → Bool → List FileStatus → List Line
  print_files long all [] = []
  print_files long all (file ∷ files) =
      let rest = print_files long all files in
      let name = p.base file.path in
      if not all && starts_with name "."
      then rest
      else (if long then long_line name file else name_line name) ∷ rest

module _ (p : PathPackage) (N : Namenode) (o : Options) where
  open p use {clean, base, join}

  -- What `printDir` prints in front of the entries, for which it asks for the status of the directory and
  -- that of its parent if it is to print them in the long form.
  unfoldable pub print_dots : Bool → Bool → String → World → Output
  print_dots long all dir w =
      let (info, w1) = stat N o clean dir w in
      let (parent, w2) = stat N o clean (join (dir ∷ ".." ∷ [])) w1 in
      if not all
      then ([], w, none)
      else if not long
      then (name_line "." ∷ name_line ".." ∷ [], w, none)
      else elim info [
        | inr e ↦ ([], w1, some e)
        | inl status ↦ elim parent [
          | inr e ↦ ([], w2, some e)
          | inl above ↦ (long_line "." status ∷ long_line ".." above ∷ [], w2, none)
        ]
      ]

  -- An error ends the command before the lines in the long form are flushed.
  abbrev pub flushed : Bool → Output → Output
  flushed long (lines, w, none) = (lines, w, none)
  flushed long (lines, w, some e) = (if long then [] else lines, w, some e)

  abbrev pub map_output : (Output → Output) → Run Output → Run Output
  map_output f r = and_then r (λ out. done (f out))

  -- `printDir`, of pages of 100 entries.
  unfoldable pub print_dir : ℕ → ℕ → Bool → Bool → String → World → Run Output
  print_dir batches rounds long all dir w =
      let (opened, w1) = open_file N o base dir w in
      elim opened [
        | inr e ↦ done ([], w1, some e)
        | inl f ↦
            let (dots, w2, failed) = print_dots long all dir w1 in
            elim failed [
              | some e ↦ done ([], w2, some e)
              | none ↦ map_output (flushed long) (
                  each_page N o base
                    (λ partial lines w'. done (lines ++ print_files p long all partial, w', none))
                    batches 100 rounds f dots w2)
            ]
      ]

  -- The first loop of `ls`: the files with their status, and the directories.
  unfoldable pub classify :
      List String
      → List (String × FileStatus)
      → List String
      → World
      → ((List (String × FileStatus) × List String) ⊎ Error) × World
  classify [] files dirs w = (inl (files, dirs), w)
  classify (path ∷ paths) files dirs w =
      let (info, w') = stat N o clean path w in
      let as_file =
        λ (status : FileStatus). classify paths (files ++ ((path, status) ∷ [])) dirs w' in
      let as_dir = classify paths files (dirs ++ (path ∷ [])) w' in
      elim info [
        | inr e ↦ (inr e, w')
        | inl status ↦ if status.is_dir then as_dir else as_file status
      ]

  abbrev pub file_line : Bool → String × FileStatus → Line
  file_line long (path, status) = if long then long_line path status else name_line path

  -- The last loop of `ls`: `first` is whether nothing was printed before.
  unfoldable pub print_dirs :
      ℕ → ℕ → Bool → Bool → Bool → List String → List Line → World → Run Output
  print_dirs batches rounds long all first [] lines w = done (lines, w, none)
  print_dirs batches rounds long all first (dir ∷ dirs) lines w =
      let head = if first then header dir ∷ [] else blank ∷ header dir ∷ [] in
      and_then (print_dir batches rounds long all dir w) λ r. elim r.2 [
        | some e ↦ done (lines ++ (head ++ r.0), r.1, some e)
        | none ↦ print_dirs batches rounds long all false dirs (lines ++ (head ++ r.0)) r.1
      ]

  abbrev pub print_all :
      ℕ → ℕ → Bool → Bool → List (String × FileStatus) → List String → World → Run Output
  print_all batches rounds long all [] (dir ∷ []) w = print_dir batches rounds long all dir w
  print_all batches rounds long all files dirs w =
      print_dirs batches rounds long all (length files == 0) dirs (map (file_line long) files) w

  abbrev pub or_home : String → List String → List String
  or_home user [] = user_dir p user ∷ []
  or_home user (path ∷ paths) = path ∷ paths

  -- `ls` of the expanded paths, or of the home of the user.
  unfoldable pub ls : ℕ → ℕ → String → List String → Bool → Bool → World → Run Output
  ls batches rounds user paths long all w =
      let (classified, w') = classify (or_home user paths) [] [] w in
      elim classified [
        | inr e ↦ done ([], w', some e)
        | inl (files, dirs) ↦ print_all batches rounds long all files dirs w'
      ]

  -- What `duDir` has printed and added up.
  abbrev pub Counted : Type 0
  Counted = List Line × ℤ

  -- The loop over the entries of a page, for what `duDir` does with a directory below. An entry without a
  -- status ends it, and the size of all is 0.
  unfoldable pub du_entries :
      (String → List Line → World → Run (Counted × World))
      → String
      → List FileStatus
      → Counted
      → World
      → Run (Counted × World × Option Error)
  du_entries below dir [] s w = done (s, w, none)
  du_entries below dir (child ∷ children) s w =
      let path = join (dir ∷ base child.path ∷ []) in
      let (info, w1) = stat N o clean path w in
      elim info [
        | inr e ↦ done ((s.0, pos 0), w1, some e)
        | inl status ↦
            let counted : Run (Counted × World) =
              if status.is_dir then below path s.0 w1 else done ((s.0, file_size status), w1) in
            and_then counted λ r.
              du_entries below dir children
                (r.0.0 ++ (size_line r.0.1 path ∷ []), int64 (s.1 +ℤ r.0.1)) r.1
      ]

  -- `duDir`, no deeper than `depth`, of pages of 100 entries.
  unfoldable pub du_dir : ℕ → ℕ → ℕ → String → List Line → World → Run (Counted × World)
  du_dir batches rounds zero dir lines w = out_of_fuel
  du_dir batches rounds (suc depth) dir lines w =
      let below = du_dir batches rounds depth in
      let (opened, w1) = open_file N o base dir w in
      elim opened [
        | inr e ↦ done ((lines ++ (notice e ∷ []), pos 0), w1)
        | inl f ↦
            and_then
              (each_page N o base (du_entries below dir) batches 100 rounds f (lines, pos 0) w1)
              λ r. elim r.2 [
                | none ↦ done (r.0, r.1)
                | some e ↦ done ((r.0.0 ++ (notice e ∷ []), r.0.1), r.1)
              ]
      ]

  -- One round of the loop of `du`: the size of a path, or the error that is printed.
  unfoldable pub du_path :
      ℕ → ℕ → ℕ → Bool → String → List Line → World → Run (List Line × World × (ℤ ⊎ Error))
  du_path batches rounds depth summarize path lines w =
      let (info, w1) = stat N o clean path w in
      let (summary, w2) = get_content_summary N o base path w1 in
      elim info [
        | inr e ↦ done (lines, w1, inr e)
        | inl status ↦
            if not status.is_dir
            then done (lines, w1, inl (file_size status))
            else if summarize
            then done
                (lines, w2, elim summary [ inr e ↦ inr e | inl cs ↦ inl ((content_numbers cs).0) ])
            else and_then (du_dir batches rounds depth path lines w1)
                λ r. done (r.0.0, r.1, inl r.0.1)
      ]

  -- The loop of `du` over the expanded paths, with the exit status.
  unfoldable pub du :
      ℕ → ℕ → ℕ → Bool → List String → List Line → ℕ → World → Run (List Line × ℕ × World)
  du batches rounds depth summarize [] lines status w = done (lines, status, w)
  du batches rounds depth summarize (path ∷ paths) lines status w =
      and_then (du_path batches rounds depth summarize path lines w) λ r. elim r.2 [
        | inr e ↦ du batches rounds depth summarize paths (r.0 ++ (notice e ∷ [])) 1 r.1
        | inl size ↦
            du batches rounds depth summarize paths (r.0 ++ (size_line size path ∷ [])) status r.1
      ]
