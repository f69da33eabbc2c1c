-- ===== src/Client/Reader/Paging.antt =====
-- The pages of a directory: what `Readdir` reads from where it last stopped.
use hdfs.Prelude.Int.{pos}
use hdfs.Client.Reader.Listing.{round_on, moved, round_last}
use hdfs.Prelude.Errors.{Error}
use hdfs.Client.Reader.{map_run, readdir, cut, readdir_loop, FileReader, read_batch, last_name}
use hdfs.Client.Writer.{done, Run, Options}
use hdfs.Client.Requests.{World, Request, FileStatus, Namenode}
use hdfs.Prelude.{
  min, drop, take, ltb→lt, take-append-drop, length-take, subst, sym, leb, ◌&&◌, ltb, ◌||◌,
  length-append, ◌∙◌, ap, append_assoc, Bool-cases, ◌==◌, ◌⊎◌, arith, length, ◌≡◌, ℕ, List, String,
  refl, [], ◌∷◌, zero, suc, true, false, inl, inr, some, ◌<◌, ◌≤◌, ◌++◌, ◌+◌,
}

module _ (N : Namenode) (o : Options) (base : String → String) where
  -- The namenode lists a directory: behind each name that a reader may have got to stand the entries
  -- `after` it, in order, and an answer has some of them, one at least while there are any.
  pub record Lists (name : String) (after : String → List FileStatus) : Type 0 where
    pub moves :
        (last : String) (xs ys : List FileStatus)
        → after last ≡ xs ++ ys
        → after (last_name N o base last xs) ≡ ys
    pub batch : List Request → String → List FileStatus
    pub rest : List Request → String → List FileStatus
    pub parts : (h : List Request) (last : String) → after last ≡ batch h last ++ rest h last
    pub answers :
        (h : List Request) (last : String)
        → N.on_get_listing (Request.get_listing name last ∷ h)
          ≡ inl (some (batch h last, length (rest h last)))
    pub advances :
        (h : List Request) (last : String) → length (batch h last) ≡ 0 → length (rest h last) ≡ 0

  last_name_of_some :
      (a b : String) (xs : List FileStatus)
      → 0 < length xs
      → last_name N o base a xs ≡ last_name N o base b xs
  last_name_of_some a b [] h = absurd (omega arith)
  last_name_of_some a b (x ∷ xs) h = refl

  last_name-append :
      (a : String) (xs ys : List FileStatus)
      → last_name N o base a (xs ++ ys) ≡ last_name N o base (last_name N o base a xs) ys
  last_name-append a [] ys = refl
  last_name-append a (x ∷ xs) ys = last_name-append (base x.path) xs ys

  module _ (after : String → List FileStatus) (limit : ℕ) where
    -- What the loop has read behind `res`: some of the entries, and all of them unless it has enough.
    record Read (f : FileReader) (res : List FileStatus)
        (r : Run (FileReader × World × (List FileStatus ⊎ Error))) : Type 0 where
      xs : List FileStatus
      ys : List FileStatus
      w' : World
      parts : after f.readdir_last ≡ xs ++ ys
      enough : (length ys ≡ 0) ⊎ (limit ≤ length (res ++ xs))
      result :
          r
          ≡ done (
            record f { readdir_last = last_name N o base f.readdir_last xs },
            w',
            inl (res ++ xs),
          )

    read_batch_lem :
        (f : FileReader) (w : World) (l : Lists f.name after)
        → (w' : World) × (read_batch N o base f w ≡ (
          inl (l.batch w.history f.readdir_last, length (l.rest w.history f.readdir_last)),
          w',
        ))
    unfolding read_batch
    read_batch_lem f w l =
        ((read_batch N o base f w).1, let e = l.answers w.history f.readdir_last in rw e)

    stops :
        (n m : ℕ)
        → 0 < limit
        → (n == 0) || (ltb 0 limit && leb limit m) ≡ true
        → (n ≡ 0) ⊎ (limit ≤ m)
    stops n m p h = elim (Bool-cases (n == 0)) [
      | inl none_left ↦ inl (ground arith)
      | inr left ↦ inr (ground arith)
    ]

    stays : (n m : ℕ) → (n == 0) || (ltb 0 limit && leb limit m) ≡ false → 0 < n
    stays n m h = ground arith

    shorter :
        (f : FileReader) (w : World) (fuel : ℕ) (l : Lists f.name after)
        → length (after f.readdir_last) < suc fuel
        → 0 < length (l.rest w.history f.readdir_last)
        → length (after (last_name N o base f.readdir_last (l.batch w.history f.readdir_last)))
          < fuel
    shorter f w fuel l h k =
        let xs = l.batch w.history f.readdir_last in
        let ys = l.rest w.history f.readdir_last in
        let parts = l.parts w.history f.readdir_last in
        let whole : length (after f.readdir_last) ≡ length xs + length ys =
          ap length parts ∙ length-append xs ys in
        let behind = ap length (l.moves f.readdir_last xs ys parts) in
        let some_read = l.advances w.history f.readdir_last in ground arith

    again :
        (f : FileReader) (w' : World) (last : String) (xs more res : List FileStatus)
        → ◌≡◌ {A = Run (FileReader × World × (List FileStatus ⊎ Error))}
            (done (
              record f { readdir_last = last_name N o base (last_name N o base last xs) more },
              w',
              inl ((res ++ xs) ++ more),
            ))
            (done (
              record f { readdir_last = last_name N o base last (xs ++ more) },
              w',
              inl (res ++ (xs ++ more)),
            ))
    again f w' last xs more res = rw (last_name-append last xs more, append_assoc res xs more)

    readdir_loop-Read :
        (fuel : ℕ) (f : FileReader) (w : World) (res : List FileStatus)
        → Lists f.name after
        → 0 < limit
        → length (after f.readdir_last) < fuel
        → Read f res (readdir_loop N o base fuel f w limit res)
    readdir_loop-Read zero f w res l p h = absurd (omega arith)
    readdir_loop-Read (suc fuel) f w res l p h =
        let last = f.readdir_last in
        let xs = l.batch w.history last in
        let ys = l.rest w.history last in
        let (w', answered) = read_batch_lem f w l in
        let parts = l.parts w.history last in
        elim (Bool-cases ((length ys == 0) || (ltb 0 limit && leb limit (length (res ++ xs))))) [
          | inl ends ↦ record {
            xs = xs;
            ys = ys;
            w' = w';
            parts = parts;
            enough = stops (length ys) (length (res ++ xs)) p ends;
            result = round_last N o base fuel f w limit res answered ends;
          }
          | inr goes_on ↦
              let r =
                readdir_loop-Read fuel (moved N o base fuel f w limit res xs) w' (res ++ xs) l p
                  (shorter f w fuel l h (stays (length ys) (length (res ++ xs)) goes_on)) in
              record {
                xs = xs ++ r.xs;
                ys = r.ys;
                w' = r.w';
                parts =
                    parts
                    ∙ ap (λ t. xs ++ t) (sym (l.moves last xs ys parts) ∙ r.parts)
                    ∙ sym (append_assoc xs r.xs r.ys);
                enough =
                    subst (λ (t : List FileStatus). (length r.ys ≡ 0) ⊎ (limit ≤ length t))
                      (append_assoc res xs r.xs) r.enough;
                result =
                    round_on N o base fuel f w limit res answered goes_on
                    ∙ r.result
                    ∙ again f r.w' last xs r.xs res;
              }
        ]

  -- A page: nothing if nothing is left, and else some of the entries that come next, no more than asked
  -- for, behind which the reader stands.
  module _ (after : String → List FileStatus) (f : FileReader) (limit : ℕ) where
    pub record PageOf (xs : List FileStatus)
        (r : Run (FileReader × World × (List FileStatus ⊎ Error))) : Type 0 where
      pub ys : List FileStatus
      pub w' : World
      pub parts : after f.readdir_last ≡ xs ++ ys
      pub some_entry : 0 < length xs
      pub few : length xs ≤ limit
      pub result :
          r ≡ done (record f { readdir_last = last_name N o base f.readdir_last xs }, w', inl xs)

    abbrev pub Page : Run (FileReader × World × (List FileStatus ⊎ Error)) → Type 0
    Page r =
        ((length (after f.readdir_last) ≡ 0)
          × ((f' : FileReader) × (w' : World) × (r ≡ done (f', w', inr Error.eof))))
        ⊎ ((xs : List FileStatus) × PageOf xs r)

    module _ (g : FileReader) (xs : List FileStatus) (w' : World) (p : 0 < limit) where
      cut_none : length xs ≡ 0 → cut N o base limit (g, w', inl xs) ≡ (g, w', inr Error.eof)
      unfolding cut
      cut_none h = ground arith

      cut_few :
          0 < length xs → length xs ≤ limit → cut N o base limit (g, w', inl xs) ≡ (g, w', inl xs)
      unfolding cut
      cut_few h k = ground arith

      cut_more :
          limit < length xs
          → cut N o base limit (g, w', inl xs) ≡ (
            record g { readdir_last = last_name N o base g.readdir_last (take limit xs) },
            w',
            inl (take limit xs),
          )
      unfolding cut
      cut_more h = ground arith

    cut-Page :
        (xs ys : List FileStatus) (w' : World)
        → after f.readdir_last ≡ xs ++ ys
        → (length ys ≡ 0) ⊎ (limit ≤ length xs)
        → 0 < limit
        → Page (
            done (
              cut N o base limit
                (record f { readdir_last = last_name N o base f.readdir_last xs }, w', inl xs)))
    cut-Page xs ys w' parts enough p =
        let g : FileReader = record f { readdir_last = last_name N o base f.readdir_last xs } in
        let whole : length (after f.readdir_last) ≡ length xs + length ys =
          ap length parts ∙ length-append xs ys in
        elim (Bool-cases (length xs == 0)) [
          | inl empty ↦
              inl (ground arith, (g, w', ap (λ t. done t) (cut_none g xs w' p (ground arith))))
          | inr entries ↦ elim (Bool-cases (ltb limit (length xs))) [
            | inr few ↦ inr (
              xs,
              record {
                ys = ys;
                w' = w';
                parts = parts;
                some_entry = ground arith;
                few = ground arith;
                result = ap (λ t. done t) (cut_few g xs w' p (ground arith) (ground arith));
              },
            )
            | inl more ↦
                let long : limit < length xs = ltb→lt limit (length xs) more in
                let taken : length (take limit xs) ≡ limit =
                  length-take limit xs
                  ∙ (let m : min limit (length xs) ≡ limit = omega arith in m) in
                inr (
                  take limit xs,
                  record {
                    ys = drop limit xs ++ ys;
                    w' = w';
                    parts =
                        parts
                        ∙ ap (λ t. t ++ ys) (sym (take-append-drop limit xs))
                        ∙ append_assoc (take limit xs) (drop limit xs) ys;
                    some_entry = omega (arith, taken);
                    few = omega (arith, taken);
                    result =
                        ap (λ t. done t) (cut_more g xs w' p long)
                        ∙ ap
                            (λ (t : String).
                              done (record f { readdir_last = t }, w', inl (take limit xs)))
                            (last_name_of_some (last_name N o base f.readdir_last xs) f.readdir_last
                              (take limit xs) (omega (arith, taken)));
                  },
                )
          ]
        ]

  -- `Readdir` of a directory that the namenode lists, with as many calls as it has entries and one more.
  pub readdir-Page :
      (after : String → List FileStatus) (f : FileReader) (limit fuel : ℕ) (w : World)
      → Lists f.name after
      → f.closed ≡ false
      → f.info.is_dir ≡ true
      → 0 < limit
      → length (after f.readdir_last) < fuel
      → Page after f limit (readdir N o base fuel f w (pos limit))
  unfolding readdir
  readdir-Page after f limit fuel w l opened dir p h =
      let r = readdir_loop-Read after limit fuel f w [] l p h in
      let same : readdir N o base fuel f w (pos limit)
          ≡ map_run (cut N o base limit) (readdir_loop N o base fuel f w limit []) =
        ground arith in
      let read = same ∙ ap (map_run (cut N o base limit)) r.result in
      subst (Page after f limit) (sym read)
        (cut-Page after f limit r.xs r.ys r.w' r.parts r.enough p)
