-- ===== src/Rpc/Failover/Choice.antt =====
-- What `next` picks from the datanodes that are left, and that every call takes one away.
use hdfs.Prelude.{
  ℕ, zero, suc, ◌+◌, ◌≤◌, ◌<◌, ◌≡◌, refl, sym, ◌∙◌, ◌≢◌, ◌⊎◌, inl, inr, Option, none, some, List,
  [], ◌∷◌, ◌++◌, length, length-append, take_front, drop_behind, get_elem?-append, All-append,
  All-map, append-nil, append_assoc, String, arith, All, ltb, ◌==◌, ◌||◌, Option-cases, Bool-cases,
  true, false,
}
use hdfs.Prelude.Errors.{Error, ok}
use hdfs.Rpc.Failover.{Failures, Failover, pick, next, remove_at, num_remaining}

module _ (failures : Failures) where
  -- The address has failed, not before the time `t`.
  abbrev pub FailedSince : ℕ → String → Type 0
  FailedSince t a = (f : ℕ) × (failures a ≡ some f) × (t ≤ f)

  -- Recorded failures do not carry the zero time.
  abbrev pub IsTimed : List String → Type 0
  IsTimed = All (λ a. failures a ≢ some 0)

  -- What makes an address the choice from `front ++ (a ∷ back)`: it never failed and all before it
  -- have, or all have failed, it the longest ago and those before it later.
  abbrev pub IsChoice : List String → String → List String → Type 0
  IsChoice front a back =
      ((failures a ≡ none) × All (FailedSince 0) front)
      ⊎ ((f : ℕ) × (failures a ≡ some f)
          × All (FailedSince (suc f)) front
          × All (FailedSince f) back)

  FailedSince-weaken :
      (s t : ℕ) (xs : List String) → s ≤ t → All (FailedSince t) xs → All (FailedSince s) xs
  FailedSince-weaken s t xs h =
      All-map (FailedSince t) (FailedSince s) (λ a (f, e, le). (f, e, omega arith)) xs

  -- The best address of those that the loop has seen.
  record Best (seen : List String) (i oldest : ℕ) : Type 0 where
    front : List String
    best : String
    back : List String
    parts : seen ≡ front ++ (best ∷ back)
    index : length front ≡ i
    at : failures best ≡ some oldest
    earlier : All (FailedSince (suc oldest)) front
    later : All (FailedSince oldest) back

  Best-all :
      {seen : List String} {i oldest : ℕ} → Best seen i oldest → All (FailedSince oldest) seen
  Best-all {oldest} b = rw b.parts (
      All-append (FailedSince oldest) b.front (b.best ∷ b.back)
        (FailedSince-weaken oldest (suc oldest) b.front (omega arith) b.earlier)
        ((oldest, b.at, omega arith), b.later))

  -- A list with its choice at index `i`.
  pub record Chosen (datanodes : List String) (i : ℕ) : Type 0 where
    pub front : List String
    pub address : String
    pub back : List String
    pub parts : datanodes ≡ front ++ (address ∷ back)
    pub index : length front ≡ i
    pub choice : IsChoice front address back

  snoc : (seen rest : List String) (a : String) → seen ++ (a ∷ rest) ≡ (seen ++ (a ∷ [])) ++ rest
  snoc seen rest a = sym (append_assoc seen (a ∷ []) rest)

  -- The rounds of the loop.
  module _ (address : String) (rest : List String) (i : ℕ) (picked : Option ℕ) (oldest : ℕ) where
    pick_fresh : failures address ≡ none → pick failures (address ∷ rest) i picked oldest ≡ some i
    unfolding pick
    pick_fresh h = ground arith

    pick_better :
        (f : ℕ)
        → failures address ≡ some f
        → (oldest == 0 || ltb f oldest) ≡ true
        → pick failures (address ∷ rest) i picked oldest ≡ pick failures rest (i + 1) (some i) f
    unfolding pick
    pick_better f h k = ground arith

    pick_worse :
        (f : ℕ)
        → failures address ≡ some f
        → (oldest == 0 || ltb f oldest) ≡ false
        → pick failures (address ∷ rest) i picked oldest ≡ pick failures rest (i + 1) picked oldest
    unfolding pick
    pick_worse f h k = ground arith

  Picks : List String → ℕ → Option ℕ → ℕ → List String → Type 0
  Picks rest i picked oldest whole =
      (k : ℕ) × (pick failures rest i picked oldest ≡ some k) × Chosen whole k

  pick_from :
      (rest seen : List String) (i j oldest : ℕ)
      → length seen ≡ i
      → IsTimed rest
      → Best seen j oldest
      → 0 < oldest
      → Picks rest i (some j) oldest (seen ++ rest)
  unfolding Picks
  pick_from [] seen i j oldest at timed b pos = (
    j,
    unfold pick in refl,
    record {
      front = b.front;
      address = b.best;
      back = b.back;
      parts = append-nil seen ∙ b.parts;
      index = b.index;
      choice = inr (oldest, b.at, b.earlier, b.later);
    },
  )
  pick_from (a ∷ rest) seen i j oldest at timed b pos = elim (Option-cases (failures a)) [
    | inl never ↦ (
      i,
      pick_fresh a rest i (some j) oldest never,
      record {
        front = seen;
        address = a;
        back = rest;
        parts = refl;
        index = at;
        choice = inl (never, FailedSince-weaken 0 oldest seen (omega arith) (Best-all b));
      },
    )
    | inr (f, failed) ↦ elim (Bool-cases (oldest == 0 || ltb f oldest)) [
      | inl better ↦
          rw (pick_better a rest i (some j) oldest f failed better, snoc seen rest a)
            (pick_from rest (seen ++ (a ∷ [])) (i + 1) i f
              (omega (arith, length-append seen (a ∷ []))) timed.1
              (record {
                front = seen;
                best = a;
                back = [];
                parts = refl;
                index = at;
                at = failed;
                earlier = FailedSince-weaken (suc f) oldest seen (ground arith) (Best-all b);
                later = tt;
              })
              (nonzero f failed))
      | inr worse ↦
          rw (pick_worse a rest i (some j) oldest f failed worse, snoc seen rest a)
            (pick_from rest (seen ++ (a ∷ [])) (i + 1) j oldest
              (omega (arith, length-append seen (a ∷ []))) timed.1
              (record {
                front = b.front;
                best = b.best;
                back = b.back ++ (a ∷ []);
                parts = rw b.parts (append_assoc b.front (b.best ∷ b.back) (a ∷ []));
                index = b.index;
                at = b.at;
                earlier = b.earlier;
                later =
                    All-append (FailedSince oldest) b.back (a ∷ []) b.later
                      ((f, failed, ground arith), tt);
              })
              pos)
    ]
  ]
    where
      nonzero : (f : ℕ) → failures a ≡ some f → 0 < f
      nonzero zero e = absurd (timed.0 e)
      nonzero (suc f) e = omega arith

  pick_start :
      (a : String) (rest : List String) → IsTimed (a ∷ rest) → Picks (a ∷ rest) 0 none 0 (a ∷ rest)
  unfolding Picks
  pick_start a rest timed = elim (Option-cases (failures a)) [
    | inl never ↦ (
      0,
      pick_fresh a rest 0 none 0 never,
      record {
        front = [];
        address = a;
        back = rest;
        parts = refl;
        index = refl;
        choice = inl (never, tt);
      },
    )
    | inr (f, failed) ↦ rw (pick_better a rest 0 none 0 f failed refl) (
        pick_from rest (a ∷ []) 1 0 f refl timed.1
          (record {
            front = [];
            best = a;
            back = [];
            parts = refl;
            index = refl;
            at = failed;
            earlier = tt;
            later = tt;
          })
          (nonzero f failed))
  ]
    where
      nonzero : (f : ℕ) → failures a ≡ some f → 0 < f
      nonzero zero e = absurd (timed.0 e)
      nonzero (suc f) e = omega arith

  -- What `next` does to the datanodes: it takes one away, which is the choice.
  pub record Takes (df : Failover) : Type 0 where
    pub front : List String
    pub address : String
    pub back : List String
    pub parts : df.datanodes ≡ front ++ (address ∷ back)
    pub choice : IsChoice front address back
    pub taken :
        next failures df
        ≡ ok (address, record df { datanodes = front ++ back; current_datanode = address })

  remove_at_parts :
      (l front back : List String) (a : String) (k : ℕ) (current : String) (last : Option Error)
      → l ≡ front ++ (a ∷ back)
      → length front ≡ k
      → remove_at (record { datanodes = l; current_datanode = current; last_err = last }) k
        ≡ ok (a, record { datanodes = front ++ back; current_datanode = a; last_err = last })
  unfolding remove_at
  remove_at_parts l front back a k current last e index =
      rw (e, ← index)
        (ground (
          arith,
          get_elem?-append front back a,
          take_front front (a ∷ back),
          drop_behind front back a,
        ))

  next_from :
      (l : List String) (current : String) (last : Option Error)
      → l ≢ []
      → IsTimed l
      → Takes (record { datanodes = l; current_datanode = current; last_err = last })
  unfolding next num_remaining Picks
  next_from [] current last some_left timed = absurd (some_left refl)
  next_from (a ∷ rest) current last some_left timed =
      let (k, picked, c) = pick_start a rest timed in
      record {
        front = c.front;
        address = c.address;
        back = c.back;
        parts = c.parts;
        choice = c.choice;
        taken = ground (
          arith,
          picked,
          remove_at_parts (a ∷ rest) c.front c.back c.address k current last c.parts c.index,
        );
      }

  -- With a datanode left, and failures that carry a time, `next` does not panic. It takes the first
  -- datanode that never failed, and if all have failed the first of those whose failure is the
  -- oldest; the others stay in their order, and the datanode becomes the current one.
  pub next_lem : (df : Failover) → df.datanodes ≢ [] → IsTimed df.datanodes → Takes df
  next_lem df some_left timed =
      next_from df.datanodes df.current_datanode df.last_err some_left timed
