-- ===== src/Command/Globs/Found.antt =====
-- The paths that the expansion of globs gives.
use hdfs.Prelude.Errors.{Error}
use hdfs.Client.Exceptions.{is_not_exist}
use hdfs.Client.Queries.{read_dir}
use hdfs.Client.Namespace.{stat}
use hdfs.Client.Writer.{Run-cases, done, Options}
use hdfs.Client.Requests.{FileStatus, World, Namenode}
use Prim.Native.String.{◌++◌ as ◌<>◌}
use hdfs.Command.Globs.Cuts.{entry_path, Parts-cases, cut_front, new_path_is, cut_at_glob_lem}
use hdfs.Command.Globs.{
  user_dir, expand_loop, expand_paths, absolute, new_path, cut_at_glob, Cut, Expansion, has_glob,
  expand_entry, expand_entries, expand_globs, PathPackage,
}
use hdfs.Prelude.{
  none, some, All-map, ap, drop, append_assoc, ◌∙◌, append-nil, All-append, ◌⊎◌, ◌++◌, Sum-cases,
  Bool-cases, sym, All, List, ◌≡◌, arith, ℕ, String, refl, inl, inr, true, false, [], ◌∷◌, zero,
  suc, ◌≢◌,
}

module _ (p : PathPackage) (N : Namenode) (o : Options) where
  open p use {clean, base, join, match, split}

  -- A path without a glob that the namenode had a status for.
  abbrev pub IsFound : String → Type 0
  IsFound path =
      (has_glob path ≡ false)
      × ((w : World) × (status : FileStatus) × ((stat N o clean path w).0 ≡ inl status))

  -- A path comes from another one with globs, no deeper than this: of the parts of the latter, those in
  -- front of the first with a glob, or of the last, name a directory, which the namenode has listed at
  -- some time with an entry whose name matches this part. With the name in place of the part, this is
  -- the path, which is found; or it still has a glob, the entry is a directory, and the path comes
  -- from that.
  abbrev pub Comes : ℕ → ℕ → String → String → Type 0
  Comes batches zero globbed path = ⊥
  Comes batches (suc depth) globbed path =
      (front : List String) × (glob : String) × (back : List String) × (drop 1 (split globbed)
        ≡ front ++ (glob ∷ back))
      × All (λ part. has_glob part ≡ false) front
      × ((has_glob glob ≡ true) ⊎ (back ≡ []))
      × ((w : World) × (w' : World) × (seen : List FileStatus) × (status : FileStatus)
          × (unseen : List FileStatus) × (read_dir N o base batches ("/" <> join front) w
              ≡ done (w', inl (seen ++ (status ∷ unseen))))
          × (match glob (base status.path) ≡ true)
          × (((path ≡ entry_path p front status back) × IsFound path)
              ⊎ ((has_glob (entry_path p front status back) ≡ true)
                  × (status.is_dir ≡ true)
                  × Comes batches depth (entry_path p front status back) path)))

  -- An expansion gives only such paths.
  abbrev Finds : (String → String → Type 0) → (String → World → Expansion) → Type 0
  Finds Gives expand =
      (path : String) (w w' : World) (paths : List String)
      → expand path w ≡ done (w', inl paths)
      → All (Gives path) paths

  -- What one entry of the directory gives.
  abbrev OfEntry : (String → String → Type 0) → Cut → FileStatus → String → Type 0
  OfEntry Gives cut status path =
      (match cut.glob (base status.path) ≡ true)
      × (((path ≡ new_path p cut status) × IsFound path)
          ⊎ ((has_glob (new_path p cut status) ≡ true)
              × (status.is_dir ≡ true)
              × Gives (new_path p cut status) path))

  module _ (Gives : String → String → Type 0) (expand : String → World → Expansion)
      (finds : Finds Gives expand) (cut : Cut) where
    expand_entry-OfEntry :
        (status : FileStatus) (w w' : World) (paths : List String)
        → expand_entry p N o expand cut status w ≡ done (w', inl paths)
        → All (OfEntry Gives cut status) paths
    unfolding expand_entry
    expand_entry-OfEntry status w w' paths h =
        elim (Bool-cases (match cut.glob (base status.path))) [
          | inr other ↦ let empty : paths ≡ [] = ground arith in rw empty tt
          | inl matches ↦ elim (Bool-cases (has_glob (new_path p cut status))) [
            | inl glob ↦ elim (Bool-cases status.is_dir) [
              | inl dir ↦
                  All-map (Gives (new_path p cut status)) (OfEntry Gives cut status)
                    (λ path gives. (matches, inr (glob, dir, gives))) paths
                    (finds (new_path p cut status) w w' paths (ground arith))
              | inr file ↦ let empty : paths ≡ [] = ground arith in rw empty tt
            ]
            | inr plain ↦ elim (Sum-cases (stat N o clean (new_path p cut status) w).0) [
              | inl (s, k) ↦
                  let one : paths ≡ new_path p cut status ∷ [] = ground arith in
                  rw one ((matches, inl (refl, (plain, (w, s, k)))), tt)
              | inr (e, k) ↦ elim (Bool-cases (is_not_exist e)) [
                | inl missing ↦ let empty : paths ≡ [] = ground arith in rw empty tt
                | inr other ↦ absurd (ground arith)
              ]
            ]
          ]
        ]

    expand_entries-Finds :
        (Good : String → Type 0) (seen statuses : List FileStatus) (res : List String)
        (w w' : World) (paths : List String)
        → ((before : List FileStatus) (status : FileStatus) (after : List FileStatus)
            → seen ++ statuses ≡ before ++ (status ∷ after)
            → (path : String) → OfEntry Gives cut status path
            → Good path)
        → All Good res
        → expand_entries p N o expand cut statuses res w ≡ done (w', inl paths)
        → All Good paths
    unfolding expand_entries
    expand_entries-Finds Good seen [] res w w' paths turn found h =
        let same : res ≡ paths = ground arith in rw (sym same) found
    expand_entries-Finds Good seen (status ∷ statuses) res w w' paths turn found h =
        elim (Run-cases (expand_entry p N o expand cut status w)) [
          | inr (inl k) ↦ absurd (ground arith)
          | inr (inr k) ↦ absurd (ground arith)
          | inl ((w1, inr e), k) ↦ absurd (ground arith)
          | inl ((w1, inl more), k) ↦
              expand_entries-Finds Good (seen ++ (status ∷ [])) statuses (res ++ more) w1 w' paths
                (λ before s after e.
                  turn before s after (sym (append_assoc seen (status ∷ []) statuses) ∙ e))
                (All-append Good res more found (
                  All-map (OfEntry Gives cut status) Good (turn seen status statuses refl) more
                    (expand_entry-OfEntry status w w1 more k)))
                (ground arith)
        ]

  expand_globs-Finds :
      (batches depth : ℕ) → Finds (Comes batches depth) (expand_globs p N o batches depth)
  unfolding expand_globs cut_at_glob
  expand_globs-Finds batches zero path w w' paths h = absurd (ground arith)
  expand_globs-Finds batches (suc depth) path w w' paths h =
      elim (Parts-cases p (drop 1 (split path))) [
        | inl empty ↦
            let k : cut_at_glob p path ≡ none = rw (cut_at_glob, empty) refl in
            absurd (ground arith)
        | inr (front, glob, back, e, all, last, at) ↦
            let cut = cut_front p front glob back in
            let k : cut_at_glob p path ≡ some cut = cut_at_glob_lem p path front glob back e at in
            elim (Run-cases (read_dir N o base batches cut.base w)) [
              | inr (inl l) ↦ absurd (ground arith)
              | inr (inr l) ↦ absurd (ground arith)
              | inl ((w1, inr x), l) ↦ absurd (ground arith)
              | inl ((w1, inl statuses), l) ↦
                  expand_entries-Finds (Comes batches depth) (expand_globs p N o batches depth)
                    (expand_globs-Finds batches depth) cut (Comes batches (suc depth) path) []
                    statuses [] w1 w' paths
                    (λ before status after listed q of_entry. (
                      front,
                      glob,
                      back,
                      e,
                      all,
                      last,
                      (
                        w,
                        w1,
                        before,
                        status,
                        after,
                        l ∙ ap (λ (s : List FileStatus). done (w1, inl s)) listed,
                        of_entry.0,
                        rw (sym (new_path_is p front glob back status)) of_entry.1,
                      ),
                    ))
                    tt (ground arith)
            ]
      ]

  module _ (home : String) where
    abbrev pub full : String → String
    full path = absolute p home path

    -- What each argument gives, in order: itself, or paths that come from it, one at least.
    abbrev pub Expands : ℕ → ℕ → List String → List String → Type 0
    Expands batches depth [] res = res ≡ []
    Expands batches depth (path ∷ paths) res =
        ((rest : List String) × (has_glob (full path) ≡ false)
          × (res ≡ full path ∷ rest)
          × Expands batches depth paths rest)
        ⊎ ((found : List String) × (rest : List String) × (has_glob (full path) ≡ true)
            × (found ≢ [])
            × All (Comes batches depth (full path)) found
            × (res ≡ found ++ rest)
            × Expands batches depth paths rest)

    expand_loop-Expands :
        (batches depth : ℕ) (paths res : List String) (w w' : World) (all : List String)
        → expand_loop p N o batches depth home paths res w ≡ done (w', inl all)
        → (more : List String) × (all ≡ res ++ more) × Expands batches depth paths more
    unfolding expand_loop
    expand_loop-Expands batches depth [] res w w' all h =
        let same : res ≡ all = ground arith in ([], sym (append-nil res ∙ same), refl)
    expand_loop-Expands batches depth (path ∷ paths) res w w' all h =
        elim (Bool-cases (has_glob (full path))) [
          | inr plain ↦
              let (more, e, expands) =
                expand_loop-Expands batches depth paths (res ++ (full path ∷ [])) w w' all
                  (ground arith) in
              (
                full path ∷ more,
                e ∙ append_assoc res (full path ∷ []) more,
                inl (more, plain, refl, expands),
              )
          | inl glob ↦ elim (Run-cases (expand_globs p N o batches depth (full path) w)) [
            | inr (inl k) ↦ absurd (ground arith)
            | inr (inr k) ↦ absurd (ground arith)
            | inl ((w1, inr e), k) ↦ absurd (ground arith)
            | inl ((w1, inl []), k) ↦ absurd (ground arith)
            | inl ((w1, inl (x ∷ xs)), k) ↦
                let (more, e, expands) =
                  expand_loop-Expands batches depth paths (res ++ (x ∷ xs)) w1 w' all
                    (ground arith) in
                (
                  (x ∷ xs) ++ more,
                  e ∙ append_assoc res (x ∷ xs) more,
                  inr (
                    x ∷ xs,
                    more,
                    glob,
                    (λ n. cc),
                    expand_globs-Finds batches depth (full path) w w1 (x ∷ xs) k,
                    refl,
                    expands,
                  ),
                )
          ]
        ]

    -- A first argument whose globs find nothing is an error.
    expand_loop_nothing :
        (batches depth : ℕ) (path : String) (paths res : List String) (w w' : World)
        → has_glob (full path) ≡ true
        → expand_globs p N o batches depth (full path) w ≡ done (w', inl [])
        → expand_loop p N o batches depth home (path ∷ paths) res w
          ≡ done (w', inr (Error.path_error "stat" (full path) Error.not_exist))
    unfolding expand_loop
    expand_loop_nothing batches depth path paths res w w' glob k = ground arith

  -- If `expandPaths` gives paths, they are what its arguments give, in order. An argument without a glob
  -- gives itself, from the home of the user if it is not absolute. Any other gives one path or more,
  -- none of which has a glob and each of which had a status and comes from the argument: by entries
  -- that were listed in the directories in front of its globs, and whose names match them.
  pub expand_paths-Expands :
      (batches depth : ℕ) (user : String) (paths : List String) (w w' : World) (all : List String)
      → expand_paths p N o batches depth user paths w ≡ done (w', inl all)
      → Expands (user_dir p user) batches depth paths all
  unfolding expand_paths
  expand_paths-Expands batches depth user paths w w' all h =
      let (more, e, expands) =
        expand_loop-Expands (user_dir p user) batches depth paths [] w w' all h in
      rw e expands
