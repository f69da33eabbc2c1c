-- ===== src/Client/Walk/Steps.antt =====
-- The branches of a walk at a path, and of the loop over the names in a directory.
use hdfs.Prelude.Int.{pos}
use hdfs.Client.Reader.{readdirnames, FileReader, open_file}
use hdfs.Client.Walk.{is_skip_dir, some, suc, none, done, Error, walk_names, Walked, walk}
use hdfs.Client.Walk.Trees.{reader, lift, Callback}
use hdfs.Client.Writer.{Options}
use hdfs.Client.Requests.{FileStatus, World, Namenode}
use hdfs.Prelude.{
  arith, Option-cases, ◌≡◌, ℕ, List, String, refl, [], ◌∷◌, true, false, if◌then◌else◌, inl, inr,
}

module _ (N : Namenode) (o : Options) (base : String → String) (join : String → String → String)
    (sort : List String → List String) (batches : ℕ) {S : Type 0} (f : Callback S) where
  module _ (path : String) (d : ℕ) (s : S) (w : World) where
    abbrev pub opened : World
    opened = (open_file N o base path w).1

    abbrev pub walked : Walked S
    walked = walk N o base join sort (lift f) batches (suc d) path s w

    pub walk_missing :
        (e : Error)
        → (open_file N o base path w).0 ≡ inr e
        → walked ≡ lift f s opened path none (some e)
    unfolding walk
    walk_missing e h = elim (Option-cases (f s path none (some e)).1) [
      | inl k ↦ ground arith
      | inr (x, k) ↦ ground arith
    ]

    module _ (status : FileStatus)
        (h : (open_file N o base path w).0 ≡ inl (reader path status)) where
      pub walk_leaf : status.is_dir ≡ false → walked ≡ lift f s opened path (some status) none
      unfolding walk
      walk_leaf k = elim (Option-cases (f s path (some status) none).1) [
        | inl n ↦ ground arith
        | inr (x, n) ↦ ground arith
      ]

      pub walk_refused :
          status.is_dir ≡ true
          → (x : Error) → (f s path (some status) none).1 ≡ some x
          → walked
            ≡ done ((f s path (some status) none).0, opened, if is_skip_dir x then none else some x)
      unfolding walk
      walk_refused k x n = ground arith

      pub walk_inside :
          status.is_dir ≡ true
          → (f s path (some status) none).1 ≡ none
          → (r : FileReader) (w' : World) → (e : Error)
          → readdirnames N o base batches (reader path status) opened (pos 0) ≡ done (r, w', inr e)
          → walked ≡ lift f (f s path (some status) none).0 w' path (some status) (some e)
      unfolding walk
      walk_inside k n r w' e l = ground arith

      pub walk_listed :
          status.is_dir ≡ true
          → (f s path (some status) none).1 ≡ none
          → (r : FileReader) (w' : World) → (names : List String)
          → readdirnames N o base batches (reader path status) opened (pos 0)
            ≡ done (r, w', inl names)
          → walked
            ≡ walk_names join
                (walk N o base join sort (lift f) batches d)
                path
                (sort names)
                (f s path (some status) none).0
                w'
      unfolding walk
      walk_listed k n r w' names l = ground arith

  module _ (visit : String → S → World → Walked S) (path : String) (s : S) (w : World) where
    pub names_end : walk_names join visit path [] s w ≡ done (s, w, none)
    unfolding walk_names
    names_end = refl

    module _ (name : String) (names : List String) (s' : S) (w' : World) where
      pub names_stop :
          (x : Error)
          → visit (join path name) s w ≡ done (s', w', some x)
          → walk_names join visit path (name ∷ names) s w ≡ done (s', w', some x)
      unfolding walk_names
      names_stop x h = rw h

      pub names_on :
          visit (join path name) s w ≡ done (s', w', none)
          → walk_names join visit path (name ∷ names) s w ≡ walk_names join visit path names s' w'
      unfolding walk_names
      names_on h = rw h
