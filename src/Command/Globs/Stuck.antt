-- ===== src/Command/Globs/Stuck.antt =====
-- Globs that are expanded to themselves.
use hdfs.Client.Queries.{read_dir}
use hdfs.Client.Writer.{done, out_of_fuel, Options}
use hdfs.Client.Requests.{World, FileStatus, Namenode}
use hdfs.Command.Globs.{
  Expansion, expand_entries, expand_entry, expand_globs, has_glob, new_path, cut_at_glob, Cut,
  PathPackage,
}
use hdfs.Prelude.{arith, ◌∙◌, ap, List, ◌≡◌, String, ℕ, refl, inl, true, [], ◌∷◌, zero, suc, some}

module _ (p : PathPackage) (N : Namenode) (o : Options) (batches : ℕ) (g : String) (cut : Cut)
    (status : FileStatus) (cut_is : cut_at_glob p g ≡ some cut) (dir : status.is_dir ≡ true)
    (matches : p.match cut.glob (p.base status.path) ≡ true) (again : new_path p cut status ≡ g)
    (glob : has_glob g ≡ true) where
  entry_again :
      (expand : String → World → Expansion) (w : World)
      → expand_entry p N o expand cut status w ≡ expand g w
  unfolding expand_entry
  entry_again expand w =
      let also : has_glob (new_path p cut status) ≡ true = ap has_glob again ∙ glob in
      let inner : expand_entry p N o expand cut status w ≡ expand (new_path p cut status) w =
        ground arith in
      inner ∙ ap (λ path. expand path w) again

  entries_stuck :
      (expand : String → World → Expansion) (statuses : List FileStatus) (w : World)
      → expand g w ≡ out_of_fuel
      → expand_entries p N o expand cut (status ∷ statuses) [] w ≡ out_of_fuel
  unfolding expand_entries
  entries_stuck expand statuses w h = let e = entry_again expand w in ground arith

  -- A glob of which the first match is a directory that has the glob for its name: if the directory
  -- that is searched can be listed at any time, with that one first, `expandGlobs` never
  -- returns, however deep it may go.
  pub expand_globs_stuck :
      ((w : World)
        → (w' : World) × (statuses : List FileStatus) × (read_dir N o p.base batches cut.base w
            ≡ done (w', inl (status ∷ statuses))))
      → (depth : ℕ) (w : World) → expand_globs p N o batches depth g w ≡ out_of_fuel
  unfolding expand_globs
  expand_globs_stuck lists zero w = refl
  expand_globs_stuck lists (suc depth) w =
      let (w', statuses, listed) = lists w in
      let inner =
        entries_stuck (expand_globs p N o batches depth) statuses w'
          (expand_globs_stuck lists depth w') in
      ground arith
