-- ===== src/Client/Reader/Listing.antt =====
-- What `Readdir` returns, and that it returns.
use hdfs.Prelude.{
  ℕ, zero, suc, ◌+◌, ◌≤◌, ◌<◌, ◌≡◌, refl, ◌⊎◌, inl, inr, true, false, some, List, [], ◌∷◌, ◌++◌,
  length, take, arith, length-take, length-append, Sum-cases, Bool-cases, String, ltb, leb, ◌==◌,
  ◌&&◌, ◌||◌, ◌∙◌, ap,
}
use hdfs.Prelude.Int.{ℤ, pos_part}
use hdfs.Prelude.Errors.{Error}
use hdfs.Client.Exceptions.{interpret_exception}
use hdfs.Client.Requests.{Request, FileStatus, Namenode, World}
use hdfs.Client.Writer.{Options, done}
use hdfs.Client.Reader.{FileReader, map_run, last_name, read_batch, readdir_loop, cut, readdir}

module _ (N : Namenode) (o : Options) (base : String → String) where
  -- The entries that `cut` leaves.
  cut_lem :
      (limit : ℕ) (r : FileReader × World × (List FileStatus ⊎ Error)) (f : FileReader) (w : World)
      (res : List FileStatus)
      → cut N o base limit r ≡ (f, w, inl res)
      → 0 < limit
      → (0 < length res) × (length res ≤ limit)
  unfolding cut
  cut_lem limit (f', w', inr e) f w res h p = absurd (ground arith)
  cut_lem limit (f', w', inl all) f w res h p = elim (Bool-cases (ltb limit (length all))) [
    | inl more ↦
        let res_is : take limit all ≡ res = ground arith in
        let l : length (take limit all) ≡ length res = ap length res_is in
        let n = length-take limit all in ground arith
    | inr few ↦
        let res_is : all ≡ res = ground arith in
        let l : length all ≡ length res = ap length res_is in ground arith
  ]

  -- Every answer to a listing that says that entries remain has an entry.
  abbrev pub Progresses : Type 0
  Progresses =
      (h : List Request) (remaining : ℕ)
      → N.on_get_listing h ≡ inl (some ([], remaining))
      → remaining ≡ 0

  -- The ways that a round goes.
  module _ (fuel : ℕ) (f : FileReader) (w : World) (limit : ℕ) (res : List FileStatus) where
    abbrev pub moved : List FileStatus → FileReader
    moved statuses = record f { readdir_last = last_name N o base f.readdir_last statuses }

    module _ {w' : World} where
      round_error :
          {e : Error}
          → read_batch N o base f w ≡ (inr e, w')
          → (r : FileReader × World × (List FileStatus ⊎ Error)) × (readdir_loop N o base
                (suc fuel)
                f
                w
                limit
                res
              ≡ done r)
      unfolding readdir_loop
      round_error {e = e} h =
          ((f, w', inr (Error.path_error "readdir" f.name (interpret_exception e))), ground arith)

      module _ {statuses : List FileStatus} {remaining : ℕ} where
        pub round_last :
            read_batch N o base f w ≡ (inl (statuses, remaining), w')
            → (remaining == 0) || (ltb 0 limit && leb limit (length (res ++ statuses))) ≡ true
            → readdir_loop N o base (suc fuel) f w limit res
              ≡ done (moved statuses, w', inl (res ++ statuses))
        unfolding readdir_loop
        round_last h k = ground arith

        pub round_on :
            read_batch N o base f w ≡ (inl (statuses, remaining), w')
            → (remaining == 0) || (ltb 0 limit && leb limit (length (res ++ statuses))) ≡ false
            → readdir_loop N o base (suc fuel) f w limit res
              ≡ readdir_loop N o base fuel (moved statuses) w' limit (res ++ statuses)
        unfolding readdir_loop
        round_on h k = ground arith

  batch_of :
      (f : FileReader) (w : World) {statuses : List FileStatus} {remaining : ℕ}
      → Progresses
      → (read_batch N o base f w).0 ≡ inl (statuses, remaining)
      → 0 < remaining
      → 0 < length statuses
  unfolding read_batch
  batch_of f w {statuses = []} {remaining = remaining} progresses h p =
      let n =
        progresses (Request.get_listing f.name f.readdir_last ∷ w.history) remaining
          (ground arith) in
      absurd (omega (arith, n))
  batch_of f w {statuses = x ∷ statuses} progresses h p = omega arith

  readdir_loop_ends :
      (fuel : ℕ) (f : FileReader) (w : World) (limit : ℕ) (res : List FileStatus)
      → Progresses
      → length res < limit
      → limit ≤ length res + fuel
      → (r : FileReader × World × (List FileStatus ⊎ Error)) × (readdir_loop N o base fuel f w limit
            res
          ≡ done r)
  readdir_loop_ends zero f w limit res progresses p h = absurd (omega arith)
  readdir_loop_ends (suc fuel) f w limit res progresses p h =
      let w' = (read_batch N o base f w).1 in
      elim (Sum-cases (read_batch N o base f w).0) [
        | inr (e, k) ↦
            round_error fuel f w limit res (ap (λ (b : (List FileStatus × ℕ) ⊎ Error). (b, w')) k)
        | inl ((statuses, remaining), k) ↦
            let batch : read_batch N o base f w ≡ (inl (statuses, remaining), w') =
              ap (λ (b : (List FileStatus × ℕ) ⊎ Error). (b, w')) k in
            elim (Bool-cases
              ((remaining == 0) || (ltb 0 limit && leb limit (length (res ++ statuses))))) [
                | inl last ↦ (_, round_last fuel f w limit res batch last)
                | inr more ↦
                    let l = length-append res statuses in
                    let some_left : 0 < length statuses =
                      batch_of f w progresses k (ground arith) in
                    let (r, e) =
                      readdir_loop_ends fuel (moved fuel f w limit res statuses) w' limit
                        (res ++ statuses) progresses (ground arith) (omega (arith, l, some_left)) in
                    (r, round_on fuel f w limit res batch more ∙ e)
              ]
      ]

  -- The ways that `Readdir` goes, with enough fuel for `n` entries.
  module _ (f : FileReader) (w : World) (n : ℤ) where
    refused :
        (f.closed ≡ true) ⊎ (f.info.is_dir ≡ false)
        → (e : Error) × (readdir N o base (pos_part n) f w n ≡ done (f, w, inr e))
    unfolding readdir
    refused (inl c) = (Error.closed_pipe, ground arith)
    refused (inr d) = elim (Bool-cases f.closed) [
      | inl c ↦ (Error.closed_pipe, ground arith)
      | inr c ↦ (Error.path_error "readdir" f.name Error.not_a_directory, ground arith)
    ]

    listed :
        f.closed ≡ false
        → f.info.is_dir ≡ true
        → 0 < pos_part n
        → readdir N o base (pos_part n) f w n
          ≡ map_run
              (cut N o base (pos_part n))
              (readdir_loop N o base (pos_part n) f w (pos_part n) [])
    unfolding readdir
    listed c d p = rw (readdir, c, d, above) refl
      where
        above : (pos_part n == 0) ≡ false
        above = ground arith

  -- `Readdir` for a positive number of entries, on a namenode that gives an entry at least whenever
  -- entries remain, returns after as many calls at most as the number says. If it returns entries,
  -- these are one at least, and not more than the number.
  pub readdir_lem :
      (f : FileReader) (w : World) (n : ℤ)
      → Progresses
      → 0 < pos_part n
      → (r : FileReader × World × (List FileStatus ⊎ Error)) × (readdir N o base (pos_part n) f w n
          ≡ done r)
        × ((res : List FileStatus) → r.2 ≡ inl res → (0 < length res) × (length res ≤ pos_part n))
  readdir_lem f w n progresses p = elim (Bool-cases f.closed) [
    | inl c ↦ let (e, run) = refused f w n (inl c) in (_, run, λ res h. absurd (ground arith))
    | inr c ↦ elim (Bool-cases f.info.is_dir) [
      | inr d ↦ let (e, run) = refused f w n (inr d) in (_, run, λ res h. absurd (ground arith))
      | inl d ↦
          let limit = pos_part n in
          let (r, run) = readdir_loop_ends limit f w limit [] progresses p (omega arith) in
          let r' = cut N o base limit r in
          (
            r',
            listed f w n c d p ∙ ap (map_run (cut N o base limit)) run,
            λ res h.
                cut_lem limit r r'.0 r'.1 res
                  (ap (λ (l : List FileStatus ⊎ Error). (r'.0, r'.1, l)) h) p,
          )
    ]
  ]
