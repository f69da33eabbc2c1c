-- ===== src/Client/Walk/Trees.antt =====
-- What a walk finds: trees of files that the namenode serves, and the calls that are made for them.
use hdfs.Client.Walk.{pos, done, is_skip_dir, Walked}
use hdfs.Client.Reader.{readdirnames, open_file, FileReader}
use hdfs.Client.Writer.{Options}
use hdfs.Client.Requests.{FileStatus, World, Namenode}
use hdfs.Prelude.Errors.{Error}
use hdfs.Prelude.{
  Bool-cases, arith, max, Option-cases, some, ◌++◌, suc, ◌≡◌, length, none, String, List, ℕ, Option,
  refl, [], ◌∷◌, true, false, if◌then◌else◌, zero, inl, inr,
}

-- What there is at a path: nothing that can be opened, a file, a directory that cannot be listed, or
-- one with its children in the order of their names.
mutual
  pub data Tree : Type 0 where
    missing : Error → Tree
    leaf : FileStatus → Tree
    unlisted : FileStatus → Error → Tree
    node : FileStatus → Children → Tree

  pub data Children : Type 0 where
    end : Children
    child : String → Tree → Children → Children

abbrev pub names_of : Children → List String
names_of end = []
names_of (child name t children) = name ∷ names_of children

unfoldable mutual
  pub depth : Tree → ℕ
  depth (missing e) = 1
  depth (leaf status) = 1
  depth (unlisted status e) = 1
  depth (node status children) = suc (depth_children children)

  pub depth_children : Children → ℕ
  depth_children end = 0
  depth_children (child name t children) = max (depth t) (depth_children children)

-- A call of the callback, and, if it may skip the directory, how many of the calls that follow are for
-- what the directory holds.
pub record Visit : Type 0 where
  pub path : String
  pub info : Option FileStatus
  pub error : Option Error
  pub inside : Option ℕ

module _ (join : String → String → String) where
  -- The calls of a whole walk, in their order.
  unfoldable mutual
    pub visits : Tree → String → List Visit
    visits (missing e) path =
        record { path = path; info = none; error = some e; inside = none } ∷ []
    visits (leaf status) path =
        record { path = path; info = some status; error = none; inside = none } ∷ []
    visits (unlisted status e) path =
        record { path = path; info = some status; error = none; inside = some 1 }
        ∷ record { path = path; info = some status; error = some e; inside = none }
        ∷ []
    visits (node status children) path =
        record {
          path = path;
          info = some status;
          error = none;
          inside = some (length (visits_children children path));
        }
        ∷ visits_children children path

    pub visits_children : Children → String → List Visit
    visits_children end path = []
    visits_children (child name t children) path =
        visits t (join path name) ++ visits_children children path

-- A callback that does not call the client, on its own state.
abbrev pub Callback : Type 0 → Type 0
Callback S = S → String → Option FileStatus → Option Error → S × Option Error

-- The calls one by one, of which the first `skip` are left out: a directory may be skipped, and any
-- other error is the end.
unfoldable pub run : {S : Type 0} → Callback S → ℕ → List Visit → S → S × Option Error
run f skip [] s = (s, none)
run f (suc skip) (v ∷ vs) s = run f skip vs s
run f zero (v ∷ vs) s =
    let called = f s v.path v.info v.error in
    elim called.1 [
      | none ↦ run f 0 vs called.0
      | some e ↦ elim v.inside [
        | none ↦ (called.0, some e)
        | some n ↦ elim (is_skip_dir e) [ true ↦ run f n vs called.0 | false ↦ (called.0, some e) ]
      ]
    ]

module _ {S : Type 0} (f : Callback S) where
  -- What comes behind calls that have come to `r`.
  abbrev pub then_run : S × Option Error → List Visit → S × Option Error
  then_run r rest = elim r.1 [ none ↦ run f 0 rest r.0 | some e ↦ (r.0, some e) ]

  pub run_skips : (vs rest : List Visit) (s : S) → run f (length vs) (vs ++ rest) s ≡ run f 0 rest s
  unfolding run
  run_skips [] rest s = refl
  run_skips (v ∷ vs) rest s = run_skips vs rest s

  pub then_run-nil : (r : S × Option Error) → then_run r [] ≡ r
  unfolding run
  then_run-nil (s, none) = refl
  then_run-nil (s, some e) = refl

  -- The two ways that the calls for a directory go on.
  module _ (path : String) (status : FileStatus) (s : S) (vs : List Visit) where
    abbrev entry : Visit
    entry = record { path = path; info = some status; error = none; inside = some (length vs) }

    pub run_refused :
        (x : Error)
        → (f s path (some status) none).1 ≡ some x
        → (rest : List Visit)
        → run f 0 (entry ∷ (vs ++ rest)) s
          ≡ then_run ((f s path (some status) none).0, if is_skip_dir x then none else some x) rest
    unfolding run
    run_refused x n rest = elim (Bool-cases (is_skip_dir x)) [
      | inl k ↦ let skipped = run_skips vs rest (f s path (some status) none).0 in ground arith
      | inr k ↦ ground arith
    ]

    pub run_enters :
        (f s path (some status) none).1 ≡ none
        → (rest : List Visit)
        → run f 0 (entry ∷ rest) s ≡ run f 0 rest (f s path (some status) none).0
    unfolding run
    run_enters n rest = ground arith

  -- A call that may not skip.
  pub run_plain :
      (path : String) (info : Option FileStatus) (error : Option Error) (s : S) (rest : List Visit)
      → run f 0 (record { path = path; info = info; error = error; inside = none } ∷ rest) s
        ≡ then_run (f s path info error) rest
  unfolding run
  run_plain path info error s rest = elim (Option-cases (f s path info error).1) [
    | inl n ↦ ground arith
    | inr (x, n) ↦ ground arith
  ]

-- The callback, as `walk` takes it.
abbrev pub lift :
    {S : Type 0} → Callback S → S → World → String → Option FileStatus → Option Error → Walked S
lift f s w path info e = let r = f s path info e in done (r.0, w, r.1)

-- What `Open` gives of a status.
abbrev pub reader : String → FileStatus → FileReader
reader path status = record {
  name = path;
  info = status;
  blocks = [];
  block_reader = none;
  offset = 0;
  readdir_last = "";
  closed = false;
}

module _ (N : Namenode) (o : Options) (base : String → String) (join : String → String → String)
    (sort : List String → List String) (batches : ℕ) where
  -- The namenode serves a tree at a path, whatever it was asked before.
  unfoldable mutual
    pub Serves : Tree → String → Type 0
    Serves (missing e) path = (w : World) → (open_file N o base path w).0 ≡ inr e
    Serves (leaf status) path =
        ((w : World) → (open_file N o base path w).0 ≡ inl (reader path status))
        × (status.is_dir ≡ false)
    Serves (unlisted status e) path =
        ((w : World) → (open_file N o base path w).0 ≡ inl (reader path status))
        × (status.is_dir ≡ true)
        × ((w : World)
            → (f : FileReader) × (w' : World) × (readdirnames N o base batches (reader path status)
                  w (pos 0)
                ≡ done (f, w', inr e)))
    Serves (node status children) path =
        ((w : World) → (open_file N o base path w).0 ≡ inl (reader path status))
        × (status.is_dir ≡ true)
        × ((names : List String) × (sort names ≡ names_of children)
            × ((w : World)
                → (f : FileReader) × (w' : World) × (readdirnames N o base batches
                      (reader path status) w (pos 0)
                    ≡ done (f, w', inl names))))
        × ServesChildren children path

    pub ServesChildren : Children → String → Type 0
    ServesChildren end path = Unit {0}
    ServesChildren (child name t children) path =
        Serves t (join path name) × ServesChildren children path
