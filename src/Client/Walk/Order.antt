-- ===== src/Client/Walk/Order.antt =====
-- The order of a walk over a tree that the namenode serves.
use hdfs.Client.Walk.Steps.{
  names_end, walk_listed, walk_inside, opened, walk_refused, walk_leaf, names_stop, walk_missing,
  names_on,
}
use hdfs.Client.Walk.{done, walk_names, walk, Error, Walked}
use hdfs.Client.Walk.Trees.{
  end, child, depth_children, ServesChildren, Children, visits_children, node, run_enters,
  run_refused, unlisted, leaf, then_run-nil, run_plain, then_run, run, names_of, missing, lift,
  depth, Serves, Visit, visits, Tree, Callback,
}
use hdfs.Client.Writer.{Options}
use hdfs.Client.Requests.{World, Namenode}
use hdfs.Prelude.{
  Option-cases, none, append-nil, some, sym, append_assoc, suc, ap, ◌∙◌, arith, ◌≤◌, ◌≡◌, ◌++◌, ℕ,
  List, String, Option, refl, [], ◌∷◌, zero, inl, inr,
}

module _ (N : Namenode) (o : Options) (base : String → String) (join : String → String → String)
    (sort : List String → List String) (batches : ℕ) where
  module _ {S : Type 0} (f : Callback S) where
    -- A walk, or a loop over the children, does what the calls do, also with more calls behind.
    abbrev Follows : List Visit → S → World → Walked S → Type 0
    Follows vs s w walked =
        (r : S × Option Error) × (w' : World) × (walked ≡ done (r.0, w', r.1))
        × ((rest : List Visit) → run f 0 (vs ++ rest) s ≡ then_run f r rest)

    -- A child that was walked, and the loop over the names behind it.
    names-Follows :
        (visit : String → S → World → Walked S) (path : String) (s : S) (w : World) (name : String)
        (names : List String) (vs more : List Visit)
        → Follows vs s w (visit (join path name) s w)
        → ((s' : S) (w' : World) → Follows more s' w' (walk_names join visit path names s' w'))
        → Follows (vs ++ more) s w (walk_names join visit path (name ∷ names) s w)
    names-Follows visit path s w name names vs more ((s', none), w', e, follows) behind =
        let (r, w'', e2, follows2) = behind s' w' in
        (
          r,
          w'',
          names_on N o base join sort batches f visit path s w name names s' w' e ∙ e2,
          λ rest.
              ap (λ all. run f 0 all s) (append_assoc vs more rest)
              ∙ follows (more ++ rest)
              ∙ follows2 rest,
        )
    names-Follows visit path s w name names vs more ((s', some x), w', e, follows) behind = (
      (s', some x),
      w',
      names_stop N o base join sort batches f visit path s w name names s' w' x e,
      λ rest. ap (λ all. run f 0 all s) (append_assoc vs more rest) ∙ follows (more ++ rest),
    )

    mutual
      unfolding visits Serves depth

      walk-Follows :
          (t : Tree) (path : String) (d : ℕ) (s : S) (w : World)
          → Serves N o base join sort batches t path
          → depth t ≤ d
          → Follows (visits join t path) s w (walk N o base join sort (lift f) batches d path s w)
      walk-Follows (missing e) path zero s w h k = absurd (omega arith)
      walk-Follows (missing e) path (suc d) s w h k = (
        _,
        _,
        walk_missing N o base join sort batches f path d s w e (h w),
        run_plain f path none (some e) s,
      )
      walk-Follows (leaf status) path zero s w h k = absurd (omega arith)
      walk-Follows (leaf status) path (suc d) s w (h, file) k = (
        _,
        _,
        walk_leaf N o base join sort batches f path d s w status (h w) file,
        run_plain f path (some status) none s,
      )
      walk-Follows (unlisted status e) path zero s w h k = absurd (omega arith)
      walk-Follows (unlisted status e) path (suc d) s w (h, dir, lists) k =
          elim (Option-cases (f s path (some status) none).1) [
            | inr (x, n) ↦ (
              _,
              _,
              walk_refused N o base join sort batches f path d s w status (h w) dir x n,
              run_refused f path status s
                  (record { path = path; info = some status; error = some e; inside = none } ∷ []) x
                  n,
            )
            | inl n ↦
                let (r, w', listed) = lists (opened N o base join sort batches f path d s w) in
                (
                  _,
                  _,
                  walk_inside N o base join sort batches f path d s w status (h w) dir n r w' e
                      listed,
                  λ rest.
                      run_enters f path status s
                        (record { path = path; info = some status; error = some e; inside = none }
                          ∷ [])
                        n
                        (record { path = path; info = some status; error = some e; inside = none }
                          ∷ rest)
                      ∙ run_plain f path (some status) (some e) (f s path (some status) none).0
                          rest,
                )
          ]
      walk-Follows (node status children) path zero s w h k = absurd (omega arith)
      walk-Follows (node status children) path (suc d) s w (h, dir, (names, sorts, lists), all) k =
          elim (Option-cases (f s path (some status) none).1) [
            | inr (x, n) ↦ (
              _,
              _,
              walk_refused N o base join sort batches f path d s w status (h w) dir x n,
              run_refused f path status s (visits_children join children path) x n,
            )
            | inl n ↦
                let (r, w', listed) = lists (opened N o base join sort batches f path d s w) in
                let s' = (f s path (some status) none).0 in
                let (after, w'', e, follows) =
                  walk_names-Follows children path d s' w' all (omega arith) in
                (
                  after,
                  w'',
                  walk_listed N o base join sort batches f path d s w status (h w) dir n r w' names
                        listed
                      ∙ rw sorts e,
                  λ rest.
                      run_enters f path status s (visits_children join children path) n
                        (visits_children join children path ++ rest)
                      ∙ follows rest,
                )
          ]

      walk_names-Follows :
          (children : Children) (path : String) (d : ℕ) (s : S) (w : World)
          → ServesChildren N o base join sort batches children path
          → depth_children children ≤ d
          → Follows (visits_children join children path) s w (
              walk_names join
                (walk N o base join sort (lift f) batches d)
                path
                (names_of children)
                s
                w)
      walk_names-Follows end path d s w h k =
          ((s, none), w, names_end N o base join sort batches f _ path s w, λ rest. refl)
      walk_names-Follows (child name t children) path d s w (h, hs) k =
          names-Follows (walk N o base join sort (lift f) batches d) path s w name
            (names_of children) (visits join t (join path name))
            (visits_children join children path)
            (walk-Follows t (join path name) d s w h (omega arith))
            (λ s' w'. walk_names-Follows children path d s' w' hs (omega arith))

  -- A walk over a tree that the namenode serves, no deeper than there is fuel, with a callback that does
  -- not call the client, returns what the calls of the tree come to one by one, in the order of the
  -- names: a call that answers an error ends it, but with `SkipDir` for a directory the calls for
  -- what the directory holds are left out.
  pub walk-run :
      {S : Type 0} (f : Callback S) (t : Tree) (path : String) (s : S) (w : World)
      → Serves N o base join sort batches t path
      → (w' : World) × (walk N o base join sort (lift f) batches (depth t) path s w
          ≡ let r = run f 0 (visits join t path) s in done (r.0, w', r.1))
  walk-run f t path s w h =
      let (r, w', e, follows) = walk-Follows f t path (depth t) s w h (omega arith) in
      let all : run f 0 (visits join t path) s ≡ r =
        ap (λ vs. run f 0 vs s) (sym (append-nil (visits join t path)))
        ∙ follows []
        ∙ then_run-nil f r in
      (w', rw all e)
