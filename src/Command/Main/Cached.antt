-- ===== src/Command/Main/Cached.antt =====
-- When `getClient` makes a connection.
use hdfs.Client.Connecting.{refuse_options, ClientOptions, new_client}
use hdfs.Prelude.Errors.{Result-cases, ok}
use hdfs.Command.Main.{
  options_for, named, cached_client, make_client, Clients, get_client, Environment,
}
use hdfs.Prelude.{
  sym, ap, ◌∙◌, Sum-cases, ◌+◌, arith, length, Option-cases, Bool-cases, ◌⊎◌, ◌≢◌, ◌≡◌, refl, true,
  false, ◌∷◌, String, none, some, inl, inr,
}
use text.Mathlib.Text.{◌==◌ as str_eq}
use text.Mathlib.TextEquality.{eq_iff}

module _ {C : Type 0} (env : Environment C) where
  open env use {getenv, connect}

  -- How `getClient` comes to a client: it was there; or it was made, and is kept under the name of the
  -- namenode.
  abbrev Comes : String → Clients C → Clients C → C → Type 0
  Comes namenode s s' c =
      ((cached_client namenode s.cached ≡ some c) × (s' ≡ s))
      ⊎ ((cached_client namenode s.cached ≡ none)
          × ((options : ClientOptions) × (s' ≡ record {
            cached = (named env namenode, c) ∷ s.cached;
            tried = options ∷ s.tried;
          })))

  make_client_lem :
      (namenode : String) (options : ClientOptions) (s s' : Clients C) (c : C)
      → make_client env namenode options s ≡ (s', inl c)
      → s' ≡ record { cached = (namenode, c) ∷ s.cached; tried = options ∷ s.tried }
  unfolding make_client new_client
  make_client_lem namenode options s s' c h = elim (Option-cases (refuse_options options)) [
    | inr (e, k) ↦ absurd (ground arith)
    | inl k ↦ elim (Sum-cases (connect s.tried options)) [
      | inr (e, l) ↦ absurd (ground arith)
      | inl (c', l) ↦ ground arith
    ]
  ]

  get_client-Comes :
      (namenode : String) (s s' : Clients C) (c : C)
      → get_client env namenode s ≡ ok (s', inl c)
      → Comes namenode s s' c
  unfolding get_client
  get_client-Comes namenode s s' c h = elim (Option-cases (cached_client namenode s.cached)) [
    | inr (c', k) ↦ inl (let e : c' ≡ c = ground arith in k ∙ ap (λ x. some x) e, ground arith)
    | inl k ↦ elim (Sum-cases env.load) [
      | inr (e, l) ↦ absurd (ground arith)
      | inl (conf, l) ↦ elim (Result-cases (options_for env (named env namenode) conf)) [
        | inr (inl (e, m)) ↦ absurd (ground arith)
        | inr (inr m) ↦ absurd (ground arith)
        | inl (inr e, m) ↦ absurd (ground arith)
        | inl (inl options, m) ↦
            let made : make_client env (named env namenode) options s ≡ (s', inl c) =
              ground arith in
            inr (k, (options, make_client_lem (named env namenode) options s s' c made))
      ]
    ]
  ]

  str_eq_self : (a : String) → str_eq a a ≡ true
  str_eq_self a = (eq_iff a a).1 refl

  str_ne : (a b : String) → a ≢ b → str_eq a b ≡ false
  str_ne a b h = elim (Bool-cases (str_eq a b)) [
    | inl e ↦ absurd (h ((eq_iff a b).0 e))
    | inr e ↦ e
  ]

  named_self :
      (namenode : String)
      → (namenode ≢ "") ⊎ (getenv "HADOOP_NAMENODE" ≡ "")
      → named env namenode ≡ namenode
  named_self namenode (inl h) = let e = str_ne namenode "" h in ground arith
  named_self namenode (inr h) = elim (Bool-cases (str_eq namenode "")) [
    | inl e ↦ let same = (eq_iff namenode "").0 e in ground arith
    | inr e ↦ ground arith
  ]

  found_again :
      (namenode : String) (s : Clients C) (c : C)
      → cached_client namenode s.cached ≡ some c
      → get_client env namenode s ≡ ok (s, inl c)
  unfolding get_client
  found_again namenode s c h = rw (h, get_client)

  kept_again :
      (namenode : String) (s s' : Clients C) (c : C)
      → Comes namenode s s' c
      → (namenode ≢ "") ⊎ (getenv "HADOOP_NAMENODE" ≡ "")
      → get_client env namenode s' ≡ ok (s', inl c)
  kept_again namenode s s' c (inl (there, same)) own =
      found_again namenode s' c
        (ap (λ (t : Clients C). cached_client namenode t.cached) same ∙ there)
  kept_again namenode s s' c (inr (nothing, (options, made))) own =
      let first : cached_client namenode ((named env namenode, c) ∷ s.cached) ≡ some c =
        rw (named_self namenode own, str_eq_self namenode) in
      found_again namenode s' c
        (ap (λ (t : Clients C). cached_client namenode t.cached) made ∙ first)

  -- A client for no name is kept under another one.
  not_kept :
      (namenode : String) (s s' : Clients C) (c : C)
      → Comes namenode s s' c
      → namenode ≡ ""
      → getenv "HADOOP_NAMENODE" ≢ ""
      → cached_client namenode s.cached ≡ none
      → cached_client namenode s'.cached ≡ none
  not_kept namenode s s' c (inl (there, same)) empty other nothing = absurd (ground arith)
  not_kept namenode s s' c (inr (_, (options, made))) empty other nothing =
      let is_empty = (eq_iff namenode "").1 empty in
      let env_name : named env namenode ≡ getenv "HADOOP_NAMENODE" = ground arith in
      let differs =
        str_ne namenode (named env namenode) (λ e. other (sym env_name ∙ sym e ∙ empty)) in
      let skipped : cached_client namenode ((named env namenode, c) ∷ s.cached) ≡ none =
        rw (differs) nothing in
      ap (λ (t : Clients C). cached_client namenode t.cached) made ∙ skipped

  tried_again :
      (namenode : String) (s s' : Clients C) (c : C)
      → cached_client namenode s.cached ≡ none
      → Comes namenode s s' c
      → length s'.tried ≡ length s.tried + 1
  tried_again namenode s s' c nothing (inl (there, same)) = absurd (ground arith)
  tried_again namenode s s' c nothing (inr (_, (options, made))) =
      let tried = ap (λ (t : Clients C). length t.tried) made in omega (arith, tried)

  -- A client that `getClient` gives for a named namenode, or where the environment names none, is given
  -- again the next time, and no connection is made. But where the environment names one, and no
  -- client is kept under the empty name, a client for no name is connected anew each time.
  pub get_client_again :
      (namenode : String) (s s' : Clients C) (c : C)
      → get_client env namenode s ≡ ok (s', inl c)
      → ((namenode ≢ "") ⊎ (getenv "HADOOP_NAMENODE" ≡ "")
          → get_client env namenode s' ≡ ok (s', inl c))
        × (namenode ≡ ""
            → getenv "HADOOP_NAMENODE" ≢ ""
            → cached_client namenode s.cached ≡ none
            → (s'' : Clients C) (c' : C) → get_client env namenode s' ≡ ok (s'', inl c')
            → length s''.tried ≡ length s'.tried + 1)
  get_client_again namenode s s' c h =
      let comes = get_client-Comes namenode s s' c h in
      (
        λ own. kept_again namenode s s' c comes own,
        λ empty other nothing s'' c' again.
            tried_again namenode s' s'' c' (not_kept namenode s s' c comes empty other nothing)
              (get_client-Comes namenode s' s'' c' again),
      )
