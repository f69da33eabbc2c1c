-- ===== src/Command/Listing/Pages.antt =====
-- The loop over the pages of a directory, and what `ls` prints of one.
use hdfs.Command.Globs.{PathPackage}
use hdfs.Prelude.Int.{pos}
use hdfs.Client.Reader.Paging.{readdir-Page, Lists}
use hdfs.Prelude.Errors.{Error}
use hdfs.Command.Listing.{
  Output, flushed, map_output, starts_with, name_line, print_dots, Line, print_files, print_dir,
  each_page,
}
use hdfs.Client.Reader.{last_name, open_file, readdir, FileReader}
use hdfs.Client.Writer.{done, Run, Options}
use hdfs.Client.Requests.{World, FileStatus, Namenode}
use hdfs.Client.Walk.Trees.{reader}
use hdfs.Prelude.{
  refl, append_assoc, length-append, sym, ◌&&◌, append-nil, ◌||◌, ◌∙◌, Bool-cases, ap, Bool,
  nil_of_length, arith, length, ℕ, ◌≡◌, List, String, Option, [], ◌∷◌, ◌++◌, if◌then◌else◌, not,
  inl, inr, none, true, false, zero, suc, ◌<◌, ◌+◌,
}

module _ (N : Namenode) (o : Options) (base : String → String) where
  module _ {A : Type 0} (g : List FileStatus → List A) (g_nil : g [] ≡ [])
      (g_append : (xs ys : List FileStatus) → g (xs ++ ys) ≡ g xs ++ g ys) where
    -- A handler that adds what `g` makes of a page.
    abbrev pub adding : List FileStatus → List A → World → Run (List A × World × Option Error)
    adding partial s w = done (s ++ g partial, w, none)

    module _ (batches limit rounds : ℕ) (f : FileReader) (s : List A) (w : World) where
      page_last :
          (f' : FileReader) (w' : World)
          → readdir N o base batches f w (pos limit) ≡ done (f', w', inr Error.eof)
          → each_page N o base adding batches limit (suc rounds) f s w ≡ done (s, w', none)
      unfolding each_page
      page_last f' w' h = ground arith

      page_on :
          (f' : FileReader) (w' : World) (xs : List FileStatus)
          → readdir N o base batches f w (pos limit) ≡ done (f', w', inl xs)
          → each_page N o base adding batches limit (suc rounds) f s w
            ≡ each_page N o base adding batches limit rounds f' (s ++ g xs) w'
      unfolding each_page
      page_on f' w' xs h = ground arith

    each_page_all :
        (after : String → List FileStatus) (batches limit rounds : ℕ) (f : FileReader) (s : List A)
        (w : World)
        → Lists N o base f.name after
        → f.closed ≡ false
        → f.info.is_dir ≡ true
        → 0 < limit
        → length (after f.readdir_last) < batches
        → length (after f.readdir_last) < rounds
        → (w' : World) × (each_page N o base adding batches limit rounds f s w
            ≡ done (s ++ g (after f.readdir_last), w', none))
    each_page_all after batches limit zero f s w l opened dir p h k = absurd (omega arith)
    each_page_all after batches limit (suc rounds) f s w l opened dir p h k =
        elim (readdir-Page N o base after f limit batches w l opened dir p h) [
          | inl (nothing, (f', w', e)) ↦
              let empty = nil_of_length (after f.readdir_last) nothing in
              let all : s ++ g (after f.readdir_last) ≡ s =
                ap (λ t. s ++ t) (ap g empty ∙ g_nil) ∙ append-nil s in
              (
                w',
                page_last batches limit rounds f s w f' w' e
                    ∙ ap (λ t. done (t, w', none)) (sym all),
              )
          | inr (xs, page) ↦
              let f' : FileReader = record f {
                readdir_last = last_name N o base f.readdir_last xs;
              } in
              let behind = l.moves f.readdir_last xs page.ys page.parts in
              let whole : length (after f.readdir_last) ≡ length xs + length page.ys =
                ap length page.parts ∙ length-append xs page.ys in
              let left = ap length behind in
              let some_entry = page.some_entry in
              let (w', e) =
                each_page_all after batches limit rounds f' (s ++ g xs) page.w' l opened dir p
                  (omega (arith, whole, left)) (omega (arith, whole, left, some_entry)) in
              let all : (s ++ g xs) ++ g (after f'.readdir_last) ≡ s ++ g (after f.readdir_last) =
                append_assoc s (g xs) (g (after f'.readdir_last))
                ∙ ap (λ t. s ++ t)
                    (sym (g_append xs (after f'.readdir_last))
                      ∙ ap g (ap (λ t. xs ++ t) behind ∙ sym page.parts)) in
              (
                w',
                page_on batches limit rounds f s w f' page.w' xs page.result
                    ∙ e
                    ∙ ap (λ t. done (t, w', none)) all,
              )
        ]

-- The entries that `ls` shows by their names.
abbrev pub visible : (String → String) → Bool → List FileStatus → List Line
visible base all [] = []
visible base all (file ∷ files) =
    let rest = visible base all files in
    if all || not (starts_with (base file.path) ".")
    then name_line (base file.path) ∷ rest
    else rest

abbrev pub dots : Bool → List Line
dots all = if all then name_line "." ∷ name_line ".." ∷ [] else []

module _ (p : PathPackage) where
  print_files_nil : (all : Bool) → print_files p false all [] ≡ []
  unfolding print_files
  print_files_nil all = refl

  print_files-append :
      (all : Bool) (xs ys : List FileStatus)
      → print_files p false all (xs ++ ys)
        ≡ print_files p false all xs ++ print_files p false all ys
  unfolding print_files
  print_files-append all [] ys = refl
  print_files-append all (x ∷ xs) ys =
      let ih = print_files-append all xs ys in
      elim (Bool-cases (not all && starts_with (p.base x.path) ".")) [
        | inl hidden ↦ ground arith
        | inr shown ↦ ground arith
      ]

  print_files-visible :
      (all : Bool) (files : List FileStatus)
      → print_files p false all files ≡ visible p.base all files
  unfolding print_files
  print_files-visible all [] = refl
  print_files-visible all (x ∷ xs) = let ih = print_files-visible all xs in ground arith

module _ (p : PathPackage) (N : Namenode) (o : Options) where
  open p use {base}

  print_dots_short :
      (all : Bool) (dir : String) (w : World)
      → print_dots p N o false all dir w ≡ (dots all, w, none)
  unfolding print_dots
  print_dots_short true dir w = refl
  print_dots_short false dir w = refl

  print_dir_pages :
      (all : Bool) (dir : String) (f : FileReader) (batches rounds : ℕ) (w : World)
      → (open_file N o base dir w).0 ≡ inl f
      → print_dir p N o batches rounds false all dir w
        ≡ map_output p N o (flushed p N o false) (
            each_page N o base
              (adding N o base
                (print_files p false all)
                (print_files_nil p all)
                (print_files-append p all))
              batches
              100
              rounds
              f
              (dots all)
              (open_file N o base dir w).1)
  unfolding print_dir
  print_dir_pages all dir f batches rounds w opened =
      let w1 = (open_file N o base dir w).1 in
      let short = print_dots_short all dir w1 in
      rw (opened, print_dir, short)
        (ap
          (λ (r : Output). map_output p N o (flushed p N o false) (
            each_page N o base
              (adding N o base (print_files p false all) (print_files_nil p all)
                (print_files-append p all))
              batches 100 rounds f r.0 r.1))
          short)

  -- `ls` of one directory that the namenode lists, in the short form, prints the names of all its
  -- entries, each of them once and in order, but for those that begin with a dot unless all are asked
  -- for; then the two dots come first. It needs one round for each entry and one more, and as many
  -- calls, and ends without an error.
  pub print_dir_lem :
      (all : Bool) (dir : String) (status : FileStatus) (after : String → List FileStatus)
      (batches rounds : ℕ) (w : World)
      → (open_file N o base dir w).0 ≡ inl (reader dir status)
      → status.is_dir ≡ true
      → Lists N o base dir after
      → length (after "") < batches
      → length (after "") < rounds
      → (w' : World) × (print_dir p N o batches rounds false all dir w
          ≡ done (dots all ++ visible base all (after ""), w', none))
  print_dir_lem all dir status after batches rounds w opened is_dir l h k =
      let w1 = (open_file N o base dir w).1 in
      let (w', e) =
        each_page_all N o base (print_files p false all) (print_files_nil p all)
          (print_files-append p all) after batches 100 rounds (reader dir status) (dots all) w1 l
          refl is_dir (omega arith) h k in
      (
        w',
        print_dir_pages all dir (reader dir status) batches rounds w opened
            ∙ ap (map_output p N o (flushed p N o false)) e
            ∙ ap (λ t. done (dots all ++ t, w', none)) (print_files-visible p all (after "")),
      )
