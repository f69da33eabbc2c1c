-- ===== src/Hadoopconf/Namenodes.antt =====
-- Which hosts `Namenodes` lists.
use hdfs.Prelude.{
  if◌then◌else◌, Option-cases, ◌≡◌, refl, ap, ◌⊎◌, inl, inr, Bool, true, false, not, ◌&&◌, ◌||◌,
  Option, none, some, List, [], ◌∷◌, String, arith, Bool-cases,
}
use hdfs.Prelude.Errors.{Result, ok, panic}
use hdfs.Hadoopconf.{
  Conf, Entry, member, insert, remove_all, entry_of, collect, sorted, namenodes, contains,
  rpc_address_prefix, ha_prefix,
}
use text.Mathlib.Text.{◌==◌ as str_eq, starts_with}
use Prim.Native.String.{len, slice}
use text.Mathlib.TextEquality.{eq_iff}

member-insert :
    (x y : String) (xs : List String) → member x (insert y xs) ≡ (str_eq x y || member x xs)
member-insert x y xs = elim (Bool-cases (member y xs)) [
  | inr fresh ↦ ground arith
  | inl known ↦ elim (Bool-cases (str_eq x y)) [
    | inr other ↦ ground arith
    | inl same ↦
        let e : x ≡ y = (eq_iff x y).0 same in
        let k : member x xs ≡ true = rw e known in ground arith
  ]
]

member-remove_all :
    (x : String) (clusters xs : List String)
    → member x (remove_all clusters xs) ≡ (member x xs && not (member x clusters))
member-remove_all x clusters [] = refl
member-remove_all x clusters (y ∷ xs) =
    let rest = member-remove_all x clusters xs in
    elim (Bool-cases (str_eq x y)) [
      | inr other ↦ ground arith
      | inl same ↦
          let e : x ≡ y = (eq_iff x y).0 same in
          let k : member x clusters ≡ member y clusters = ap (λ t. member t clusters) e in
          ground arith
    ]

module _ (host_of : String → Option String) (sort : List String → List String) where
  -- Whether a property names the host: as that of a default file system, or as the value of an rpc
  -- address. Every key that has fs.default in it stands for a default file system.
  abbrev pub names : String → String → String → Bool
  names x key value =
      if contains key "fs.default"
      then elim (host_of value) [ none ↦ false | some h ↦ str_eq x h ]
      else starts_with key "dfs.namenode.rpc-address." && str_eq x value

  -- Whether the key is that of another property, and names the cluster behind its prefix of 17 bytes.
  abbrev pub names_cluster : String → String → String → Bool
  names_cluster x key value =
      not (contains key "fs.default")
      && not (starts_with key "dfs.namenode.rpc-address.")
      && starts_with key "dfs.ha.namenodes."
      && str_eq x (slice key 17 (len key))

  -- A default file system that is no url.
  abbrev pub is_invalid : String → String → Bool
  is_invalid key value =
      contains key "fs.default" && elim (host_of value) [ none ↦ true | some h ↦ false ]

  abbrev pub some_property : (String → String → Bool) → Conf → Bool
  some_property test [] = false
  some_property test ((key, value) ∷ conf) = test key value || some_property test conf

  -- What these say of a property that the loop takes for an entry.
  abbrev Says : String → String → Entry → Type 0
  Says key value (Entry.host y) =
      (is_invalid key value ≡ false)
      × ((x : String) → names x key value ≡ str_eq x y)
      × ((x : String) → names_cluster x key value ≡ false)
  Says key value (Entry.cluster y) =
      (is_invalid key value ≡ false)
      × ((x : String) → names x key value ≡ false)
      × ((x : String) → names_cluster x key value ≡ str_eq x y)
  Says key value Entry.other =
      (is_invalid key value ≡ false)
      × ((x : String) → names x key value ≡ false)
      × ((x : String) → names_cluster x key value ≡ false)
  Says key value Entry.invalid = is_invalid key value ≡ true

  entry_of-Says : (key value : String) → Says key value (entry_of host_of sort key value)
  unfolding entry_of
  entry_of-Says key value = elim (Bool-cases (contains key "fs.default")) [
    | inl default ↦ elim (Option-cases (host_of value)) [
      | inl k ↦
          let e : entry_of host_of sort key value ≡ Entry.invalid = ground arith in
          rw e (ground arith)
      | inr (h, k) ↦
          let e : entry_of host_of sort key value ≡ Entry.host h = ground arith in
          rw e (ground arith, (λ x. ground arith), λ x. ground arith)
    ]
    | inr named ↦ elim (Bool-cases (starts_with key rpc_address_prefix)) [
      | inl rpc ↦
          let e : entry_of host_of sort key value ≡ Entry.host value = ground arith in
          rw e (ground arith, (λ x. ground arith), λ x. ground arith)
      | inr none_of ↦ elim (Bool-cases (starts_with key ha_prefix)) [
        | inl ha ↦
            let e : entry_of host_of sort key value ≡ Entry.cluster (slice key 17 (len key)) =
              ground arith in
            rw e (ground arith, (λ x. ground arith), λ x. ground arith)
        | inr rest ↦
            let e : entry_of host_of sort key value ≡ Entry.other = ground arith in
            rw e (ground arith, (λ x. ground arith), λ x. ground arith)
      ]
    ]
  ]

  -- What the loop collects.
  abbrev Collects : Conf → List String → List String → Result (List String × List String) → Type 0
  Collects conf hosts clusters r =
      ((r ≡ panic) × (some_property is_invalid conf ≡ true))
      ⊎ ((hosts' : List String) × (clusters' : List String) × (r ≡ ok (hosts', clusters'))
          × (some_property is_invalid conf ≡ false)
          × ((x : String) → member x hosts' ≡ (member x hosts || some_property (names x) conf))
          × ((x : String)
              → member x clusters' ≡ (member x clusters || some_property (names_cluster x) conf)))

  -- The first property, before the rest.
  module _ (key value : String) (conf : Conf) (hosts clusters : List String)
      (rest : (hosts clusters : List String)
        → Collects conf hosts clusters (collect host_of sort conf hosts clusters)) where
    Collects-after :
        (e : Entry)
        → entry_of host_of sort key value ≡ e
        → Says key value e
        → Collects
            ((key, value) ∷ conf)
            hosts
            clusters
            (collect host_of sort ((key, value) ∷ conf) hosts clusters)
    unfolding collect
    Collects-after Entry.invalid k says = inl (ground arith, ground arith)
    Collects-after Entry.other k (i0, n, m) = elim (rest hosts clusters) [
      | inl (p, i) ↦ inl (ground arith, ground arith)
      | inr (hosts', clusters', p, i, h, c) ↦ inr (
        hosts',
        clusters',
        ground arith,
        ground arith,
        (λ x. let l = h x in let a = n x in ground arith),
        λ x. let l = c x in let a = m x in ground arith,
      )
    ]
    Collects-after (Entry.host y) k (i0, n, m) = elim (rest (insert y hosts) clusters) [
      | inl (p, i) ↦ inl (ground arith, ground arith)
      | inr (hosts', clusters', p, i, h, c) ↦ inr (
        hosts',
        clusters',
        ground arith,
        ground arith,
        (λ x. let l = h x in let a = n x in let b = member-insert x y hosts in ground arith),
        λ x. let l = c x in let a = m x in ground arith,
      )
    ]
    Collects-after (Entry.cluster y) k (i0, n, m) = elim (rest hosts (y ∷ clusters)) [
      | inl (p, i) ↦ inl (ground arith, ground arith)
      | inr (hosts', clusters', p, i, h, c) ↦ inr (
        hosts',
        clusters',
        ground arith,
        ground arith,
        (λ x. let l = h x in let a = n x in ground arith),
        λ x. let l = c x in let a = m x in ground arith,
      )
    ]

  collect-Collects :
      (conf : Conf) (hosts clusters : List String)
      → Collects conf hosts clusters (collect host_of sort conf hosts clusters)
  unfolding collect
  collect-Collects [] hosts clusters =
      inr (hosts, clusters, refl, refl, (λ x. ground arith), λ x. ground arith)
  collect-Collects ((key, value) ∷ conf) hosts clusters =
      Collects-after key value conf hosts clusters (λ h c. collect-Collects conf h c)
        (entry_of host_of sort key value) refl (entry_of-Says key value)

  abbrev pub listed : Option (List String) → List String
  listed none = []
  listed (some xs) = xs

  member-sorted :
      ((x : String) (xs : List String) → member x (sort xs) ≡ member x xs)
      → (x : String) (xs : List String) → member x (listed (sorted host_of sort xs)) ≡ member x xs
  member-sorted keeps x [] = refl
  member-sorted keeps x (y ∷ ys) = keeps x (y ∷ ys)

  -- `Namenodes`, with a sort that keeps what it sorts, panics just if the value of a property whose key
  -- has fs.default in it is no url. Else it lists a string just if it is the host of such a value,
  -- or the value of another property whose key begins with dfs.namenode.rpc-address., and is not
  -- what stands behind dfs.ha.namenodes. in the key of any other property.
  pub namenodes_lem :
      ((x : String) (xs : List String) → member x (sort xs) ≡ member x xs)
      → (conf : Conf)
      → ((namenodes host_of sort conf ≡ panic) × (some_property is_invalid conf ≡ true))
        ⊎ ((r : Option (List String)) × (namenodes host_of sort conf ≡ ok r)
            × (some_property is_invalid conf ≡ false)
            × ((x : String)
                → member x (listed r)
                  ≡ (some_property (names x) conf && not (some_property (names_cluster x) conf))))
  unfolding namenodes
  namenodes_lem keeps conf = elim (collect-Collects conf [] []) [
    | inl (p, i) ↦ inl (rw (namenodes, p) refl, i)
    | inr (hosts, clusters, p, i, h, c) ↦
        let rest = remove_all clusters hosts in
        inr (
          sorted host_of sort rest,
          rw (namenodes, p) refl,
          i,
          λ x.
              let l = h x in
              let m = c x in
              let n = member-remove_all x clusters hosts in
              let s : member x (listed (sorted host_of sort rest)) ≡ member x rest =
                member-sorted keeps x rest in
              ground arith,
        )
  ]
