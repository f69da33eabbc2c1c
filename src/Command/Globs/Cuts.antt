-- ===== src/Command/Globs/Cuts.antt =====
-- A path that is cut at its first glob.
use hdfs.Client.Requests.{FileStatus}
use Prim.Native.String.{◌++◌ as ◌<>◌}
use hdfs.Command.Globs.{split_at, new_path, cut_at_glob, Cut, has_glob, PathPackage}
use hdfs.Prelude.{
  none, ◌+◌, take, get_elem?, some, length, ap, drop, ◌∙◌, ◌⊎◌, ◌++◌, Bool-cases, All, List, ◌≡◌,
  arith, ℕ, String, refl, inl, inr, true, false, [], ◌∷◌, suc,
}

module _ (p : PathPackage) where
  open p use {base, join, split}

  -- What the entry of a directory gives for a path of these parts.
  abbrev pub entry_path : List String → FileStatus → List String → String
  entry_path front status [] = join (("/" <> join front) ∷ base status.path ∷ "" ∷ "" ∷ [])
  entry_path front status (next ∷ back) =
      join (("/" <> join front) ∷ base status.path ∷ next ∷ join back ∷ [])

  -- The parts that a path is cut into.
  abbrev pub Parts : List String → Type 0
  Parts parts =
      (front : List String) × (glob : String) × (back : List String) × (parts
        ≡ front ++ (glob ∷ back))
      × All (λ part. has_glob part ≡ false) front
      × ((has_glob glob ≡ true) ⊎ (back ≡ []))
      × (split_at parts ≡ length front)

  split_at-Parts : (part : String) (parts : List String) → Parts (part ∷ parts)
  unfolding split_at
  split_at-Parts part [] = ([], part, [], refl, tt, inr refl, refl)
  split_at-Parts part (next ∷ parts) = elim (Bool-cases (has_glob part)) [
    | inl glob ↦ ([], part, next ∷ parts, refl, tt, inl glob, ground arith)
    | inr plain ↦
        let (front, glob, back, e, all, last, at) = split_at-Parts next parts in
        (
          part ∷ front,
          glob,
          back,
          ap (λ (l : List String). part ∷ l) e,
          (plain, all),
          last,
          ground arith,
        )
  ]

  pub Parts-cases : (parts : List String) → (parts ≡ []) ⊎ Parts parts
  Parts-cases [] = inl refl
  Parts-cases (part ∷ parts) = inr (split_at-Parts part parts)

  abbrev pub cut_front : List String → String → List String → Cut
  cut_front front glob back = record {
    base = "/" <> join front;
    glob = glob;
    next = elim back [ [] ↦ "" | next ∷ more ↦ next ];
    remainder = elim back [ [] ↦ "" | next ∷ more ↦ join more ];
  }

  pub new_path_is :
      (front : List String) (glob : String) (back : List String) (status : FileStatus)
      → new_path p (cut_front front glob back) status ≡ entry_path front status back
  new_path_is front glob [] status = refl
  new_path_is front glob (next ∷ back) status = refl

  get-behind :
      (front xs : List String) (i : ℕ) → get_elem? (front ++ xs) (length front + i) ≡ get_elem? xs i
  get-behind [] xs i = let e : 0 + i ≡ i = omega arith in ap (λ j. get_elem? xs j) e
  get-behind (x ∷ front) xs i =
      let e : suc (length front) + i ≡ suc (length front + i) = omega arith in
      ap (λ j. get_elem? (x ∷ (front ++ xs)) j) e ∙ get-behind front xs i

  drop-behind : (front xs : List String) (i : ℕ) → drop (length front + i) (front ++ xs) ≡ drop i xs
  drop-behind [] xs i = let e : 0 + i ≡ i = omega arith in ap (λ j. drop j xs) e
  drop-behind (x ∷ front) xs i =
      let e : suc (length front) + i ≡ suc (length front + i) = omega arith in
      ap (λ j. drop j (x ∷ (front ++ xs))) e ∙ drop-behind front xs i

  take-front : (front xs : List String) → take (length front) (front ++ xs) ≡ front
  take-front [] xs = refl
  take-front (x ∷ front) xs = ap (λ (l : List String). x ∷ l) (take-front front xs)

  get-front :
      (front : List String) (glob : String) (back : List String)
      → get_elem? (front ++ (glob ∷ back)) (length front) ≡ some glob
  get-front [] glob back = refl
  get-front (x ∷ front) glob back = get-front front glob back

  pub cut_at_glob_lem :
      (globbed : String) (front : List String) (glob : String) (back : List String)
      → drop 1 (split globbed) ≡ front ++ (glob ∷ back)
      → split_at (drop 1 (split globbed)) ≡ length front
      → cut_at_glob p globbed ≡ some (cut_front front glob back)
  unfolding cut_at_glob
  cut_at_glob_lem globbed front glob [] e at =
      let parts = drop 1 (split globbed) in
      let i = split_at parts in
      let g : get_elem? parts i ≡ some glob = rw (at, e) (get-front front glob []) in
      let g1 : get_elem? parts (i + 1) ≡ none = rw (at, e) (get-behind front (glob ∷ []) 1) in
      let t : take i parts ≡ front = rw (at, e) (take-front front (glob ∷ [])) in
      rw (cut_at_glob, g, g1, t) refl
  cut_at_glob_lem globbed front glob (next ∷ back) e at =
      let parts = drop 1 (split globbed) in
      let i = split_at parts in
      let g : get_elem? parts i ≡ some glob = rw (at, e) (get-front front glob (next ∷ back)) in
      let g1 : get_elem? parts (i + 1) ≡ some next =
        rw (at, e) (get-behind front (glob ∷ next ∷ back) 1) in
      let t : take i parts ≡ front = rw (at, e) (take-front front (glob ∷ next ∷ back)) in
      let d : drop (i + 2) parts ≡ back = rw (at, e) (drop-behind front (glob ∷ next ∷ back) 2) in
      rw (cut_at_glob, g, g1, t, d) refl
