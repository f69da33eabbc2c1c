-- ===== src/Command/Paths/Hosts.antt =====
-- What `normalizePaths` answers.
use hdfs.Prelude.{
  ◌≡◌, ◌≢◌, refl, sym, ap, ◌∙◌, ◌⊎◌, inl, inr, true, false, List, [], ◌∷◌, ◌++◌, String, arith,
  Bool-cases, Sum-cases, append_assoc, append-nil, if◌then◌else◌,
}
use hdfs.Prelude.Errors.{Error}
use hdfs.Command.Paths.{Url, is_other_host, normalize_loop, normalize_paths}
use text.Mathlib.Text.{◌==◌ as str_eq}
use text.Mathlib.TextEquality.{eq_iff}

module _ (parse : String → Url ⊎ Error) (clean : String → String) where
  -- The paths of the urls, one by one, which name this namenode or none.
  abbrev pub AllFrom : String → List String → List String → Type 0
  AllFrom namenode [] paths = paths ≡ []
  AllFrom namenode (raw ∷ raws) [] = ⊥
  AllFrom namenode (raw ∷ raws) (path ∷ paths) =
      ((url : Url) × (parse raw ≡ inl url)
        × (path ≡ clean url.path)
        × ((url.host ≡ "") ⊎ (url.host ≡ namenode)))
      × AllFrom namenode raws paths

  -- One of the arguments names a host.
  abbrev pub Names : String → List String → Type 0
  Names host [] = ⊥
  Names host (raw ∷ raws) =
      ((url : Url) × (parse raw ≡ inl url) × (url.host ≡ host)) ⊎ Names host raws

  abbrev pub Unparsed : Error → List String → Type 0
  Unparsed e [] = ⊥
  Unparsed e (raw ∷ raws) = (parse raw ≡ inr e) ⊎ Unparsed e raws

  -- From a namenode on: the paths with a namenode, which is the one from before if there was one, or is
  -- named by an argument; or the error of an argument; or two hosts, of which the first may be
  -- the one from before.
  abbrev pub Normalized :
      String → List String → List String → (List String × String) ⊎ Error → Type 0
  Normalized before raws done r =
      ((paths : List String) × (namenode : String) × (r ≡ inl (done ++ paths, namenode))
        × AllFrom namenode raws paths
        × ((before ≡ namenode) ⊎ ((before ≡ "") × Names namenode raws)))
      ⊎ (((e : Error) × (r ≡ inr e) × Unparsed e raws)
          ⊎ ((r ≡ inr Error.multiple_namenode_urls)
              × ((a : String) × (b : String) × (a ≢ "")
                  × (b ≢ "")
                  × (a ≢ b)
                  × ((a ≡ before) ⊎ Names a raws)
                  × Names b raws)))

  module _ (before host : String) where
    same_host : str_eq before host ≡ true → before ≡ host
    same_host h = (eq_iff before host).0 h

    other_host : str_eq before host ≡ false → before ≢ host
    other_host h k = let l = (eq_iff before host).1 k in ground arith

  -- What the first argument makes of the namenode: it names none, or it names this one, which is the
  -- one from before if there was one.
  abbrev Keeps : String → String → Url → Type 0
  Keeps before namenode url =
      ((url.host ≡ "") × (namenode ≡ before))
      ⊎ ((url.host ≢ "") × (namenode ≡ url.host) × ((before ≡ "") ⊎ (before ≡ url.host)))

  module _ (before namenode raw : String) (raws : List String) (url : Url)
      (parsed : parse raw ≡ inl url) where
    host_after :
        (last : String)
        → Keeps before namenode url
        → (namenode ≡ last) ⊎ ((namenode ≡ "") × Names last raws)
        → ((url.host ≡ "") ⊎ (url.host ≡ last))
          × ((before ≡ last) ⊎ ((before ≡ "") × Names last (raw ∷ raws)))
    host_after last (inl (empty, kept)) (inl e) = (inl empty, inl (sym kept ∙ e))
    host_after last (inl (empty, kept)) (inr (e, named)) =
        (inl empty, inr (sym kept ∙ e, inr named))
    host_after last (inr (named, new, inl none_before)) (inl e) =
        (inr (sym new ∙ e), inr (none_before, inl (url, parsed, sym new ∙ e)))
    host_after last (inr (named, new, inr same)) (inl e) =
        (inr (sym new ∙ e), inl (same ∙ sym new ∙ e))
    host_after last (inr (named, new, h)) (inr (e, later)) = absurd (named (sym new ∙ e))

    Names-after :
        (a : String)
        → Keeps before namenode url
        → (a ≡ namenode) ⊎ Names a raws
        → (a ≡ before) ⊎ Names a (raw ∷ raws)
    Names-after a k (inr named) = inr (inr named)
    Names-after a (inl (empty, kept)) (inl e) = inl (e ∙ kept)
    Names-after a (inr (named, new, h)) (inl e) = inr (inl (url, parsed, sym (e ∙ new)))

    -- The first argument, and the rest.
    Normalized-after :
        (done : List String) (r : (List String × String) ⊎ Error)
        → Keeps before namenode url
        → Normalized namenode raws (done ++ (clean url.path ∷ [])) r
        → Normalized before (raw ∷ raws) done r
    Normalized-after done r keeps (inl (paths, last, e, all, who)) =
        let (host, who') = host_after last keeps who in
        inl (
          clean url.path ∷ paths,
          last,
          e ∙ ap (λ d. inl (d, last)) (append_assoc done (clean url.path ∷ []) paths),
          ((url, parsed, refl, host), all),
          who',
        )
    Normalized-after done r keeps (inr (inl (e, k, bad))) = inr (inl (e, k, inr bad))
    Normalized-after done r keeps (inr (inr (k, (a, b, ha, hb, ne, na, nb)))) =
        inr (inr (k, (a, b, ha, hb, ne, Names-after a keeps na, inr nb)))

    loop_goes_on :
        (done : List String)
        → is_other_host parse clean url before ≡ false
        → normalize_loop parse clean (raw ∷ raws) done before
          ≡ normalize_loop parse clean raws
              (done ++ (clean url.path ∷ []))
              (if str_eq url.host "" then before else url.host)
    unfolding normalize_loop
    loop_goes_on done h = rw (normalize_loop, parsed, h) refl

    loop_stops :
        (done : List String)
        → is_other_host parse clean url before ≡ true
        → normalize_loop parse clean (raw ∷ raws) done before ≡ inr Error.multiple_namenode_urls
    unfolding normalize_loop
    loop_stops done h = rw (normalize_loop, parsed, h) refl

  other_hosts :
      (url : Url) (before : String)
      → is_other_host parse clean url before ≡ true
      → (before ≢ "") × (url.host ≢ "") × (before ≢ url.host)
  other_hosts url before h = (
    other_host before "" (ground arith),
    other_host url.host "" (ground arith),
    other_host before url.host (ground arith),
  )

  Keeps-host :
      (url : Url) (before : String)
      → is_other_host parse clean url before ≡ false
      → Keeps before (if str_eq url.host "" then before else url.host) url
  Keeps-host url before h = elim (Bool-cases (str_eq url.host "")) [
    | inl empty ↦ inl (same_host url.host "" empty, ground arith)
    | inr named ↦ elim (Bool-cases (str_eq before "")) [
      | inl fresh ↦
          inr (other_host url.host "" named, ground arith, inl (same_host before "" fresh))
      | inr known ↦ inr (
        other_host url.host "" named,
        ground arith,
        inr (same_host before url.host (ground arith)),
      )
    ]
  ]

  normalize_loop-Normalized :
      (raws done : List String) (before : String)
      → Normalized before raws done (normalize_loop parse clean raws done before)
  unfolding normalize_loop
  normalize_loop-Normalized [] done before =
      inl ([], before, ap (λ d. inl (d, before)) (sym (append-nil done)), refl, inl refl)
  normalize_loop-Normalized (raw ∷ raws) done before = elim (Sum-cases (parse raw)) [
    | inr (e, k) ↦ inr (inl (e, rw (normalize_loop, k) refl, inl k))
    | inl (url, k) ↦ elim (Bool-cases (is_other_host parse clean url before)) [
      | inl other ↦
          let (known, named, differ) = other_hosts url before other in
          inr (
            inr (
              loop_stops before before raw raws url k done other,
              (before, url.host, known, named, differ, inl refl, inl (url, k, refl)),
            ))
      | inr same ↦
          let namenode = if str_eq url.host "" then before else url.host in
          rw (loop_goes_on before namenode raw raws url k done same) (
            Normalized-after before namenode raw raws url k done
              (normalize_loop parse clean raws (done ++ (clean url.path ∷ [])) namenode)
              (Keeps-host url before same)
              (normalize_loop-Normalized raws (done ++ (clean url.path ∷ [])) namenode))
    ]
  ]

  -- `normalizePaths` on every branch: it gives the clean path of each argument, in order, so that a
  -- relative one stays relative, and a host that each of them names unless it names none, and that
  -- is named by one of them or is empty; or the error of an argument that is no url; or, for two
  -- arguments that name different hosts, the error that says so.
  pub normalize_paths-Normalized :
      (raws : List String) → Normalized "" raws [] (normalize_paths parse clean raws)
  unfolding normalize_paths
  normalize_paths-Normalized raws = normalize_loop-Normalized raws [] ""
