-- ===== src/Rpc/ChecksumReader/Attempts.antt =====
-- The attempts of `ReadChecksum`, one for each datanode.
use hdfs.Prelude.{
  sym, nil_of_length, ◌<◌, ℕ, zero, suc, ◌+◌, ◌≤◌, ◌≡◌, ◌≢◌, refl, ap, ◌⊎◌, inl, inr, none, some,
  List, [], ◌∷◌, ◌++◌, Bytes, length, length-append, String, arith, ◌==◌, Bool-cases,
}
use hdfs.Prelude.Errors.{Error, ok, err, panic, Result-cases}
use hdfs.Rpc.Datatransfer.{LocatedBlock}
use hdfs.Rpc.Failover.{Failover, record_failure, num_remaining, last_error, next}
use hdfs.Rpc.Failover.Timed.{IsAmong, IsAmong-here, AreTimed, IsTimed-all, AreTimed-record_failure}
use hdfs.Rpc.Failover.Choice.{Takes, next_lem}
use hdfs.Rpc.Reading.{ReadProtocol, Datanodes}
use hdfs.Rpc.ChecksumReader.{Attempt, found, exhausted, panicked, read_checksum_from, attempts}

module _ (R : ReadProtocol) (block : LocatedBlock) where
  -- Dials from `d` on to some datanodes of a list, one after another, each of which has failed and
  -- is taken off the list; and what is left of it.
  abbrev pub Failed : ℕ → List String → List String → List String → Type 0
  Failed d datanodes [] left = left ≡ datanodes
  Failed d datanodes (address ∷ tried) left =
      (front : List String) × (back : List String) × (datanodes ≡ front ++ (address ∷ back))
      × ((e : Error) × (read_checksum_from R block d address ≡ err e))
      × Failed (d + 1) (front ++ back) tried left

  -- How the attempts end: after some failures one of the datanodes left has answered, or reading from
  -- it has panicked; or none is left, and the last one's error is noted.
  abbrev pub Ends : Datanodes → Failover → Attempt → Type 0
  Ends net df r =
      (tried : List String) × (left : List String) × Failed net.dials df.datanodes tried left
      × (((address : String) × (d : ℕ) × (d ≡ net.dials + length tried)
            × IsAmong address left
            × (((r ≡ panicked) × (read_checksum_from R block d address ≡ panic))
                ⊎ ((net' : Datanodes) × (df' : Failover) × (sum : Bytes) × (r ≡ found net' df' sum)
                    × (read_checksum_from R block d address ≡ ok sum)
                    × (net'.dials ≡ d + 1))))
          ⊎ ((left ≡ [])
              × ((net' : Datanodes) × (df' : Failover) × (r ≡ exhausted net' df')
                  × (net'.dials ≡ net.dials + length df.datanodes)
                  × (df.datanodes ≡ [] → last_error df' ≡ last_error df)
                  × (df.datanodes ≢ [] → last_error df' ≢ none))))

  attempts_none :
      (fuel : ℕ) (net : Datanodes) (df : Failover)
      → length df.datanodes ≡ 0
      → attempts R fuel block net df ≡ exhausted net df
  unfolding attempts num_remaining
  attempts_none zero net df h = ground arith
  attempts_none (suc fuel) net df h = ground arith

  module _ (fuel : ℕ) (net : Datanodes) (df df' : Failover) (address : String) where
    attempt_found :
        {sum : Bytes}
        → 0 < length df.datanodes
        → next net.failures df ≡ ok (address, df')
        → read_checksum_from R block net.dials address ≡ ok sum
        → attempts R (suc fuel) block net df ≡ found (record net { dials = net.dials + 1 }) df' sum
    unfolding attempts num_remaining
    attempt_found h k l = ground arith

    attempt_panic :
        0 < length df.datanodes
        → next net.failures df ≡ ok (address, df')
        → read_checksum_from R block net.dials address ≡ panic
        → attempts R (suc fuel) block net df ≡ panicked
    unfolding attempts num_remaining
    attempt_panic h k l = ground arith

    attempt_failed :
        {e : Error}
        → 0 < length df.datanodes
        → next net.failures df ≡ ok (address, df')
        → read_checksum_from R block net.dials address ≡ err e
        → attempts R (suc fuel) block net df
          ≡ attempts R fuel block
              (record {
                failures = (record_failure (R.clock net.dials) e (net.failures, df')).0;
                dials = net.dials + 1;
              })
              (record df' { last_err = some e })
    unfolding attempts num_remaining record_failure
    attempt_failed h k l = ground arith

  -- An attempt that failed, before the rest.
  Ends-after :
      (front back : List String) (address : String) (net net' : Datanodes) (df rest : Failover)
      (e : Error) (r : Attempt)
      → df.datanodes ≡ front ++ (address ∷ back)
      → rest.datanodes ≡ front ++ back
      → rest.last_err ≡ some e
      → read_checksum_from R block net.dials address ≡ err e
      → net'.dials ≡ net.dials + 1
      → Ends net' rest r
      → Ends net df r
  unfolding last_error
  Ends-after front back address net net' df rest e r parts rest_is noted bad dials
        (tried, left, failed, inl (a, d, at, among, x)) =
      (
        address ∷ tried,
        left,
        (front, back, parts, (e, bad), rw (sym dials, sym rest_is) failed),
        inl (a, d, omega (arith, at, dials), among, x),
      )
  Ends-after front back address net net' df rest e r parts rest_is noted bad dials
        (tried, left, failed, inr (none_left, (net'', df', end, count, same, error))) =
      (
        address ∷ tried,
        left,
        (front, back, parts, (e, bad), rw (sym dials, sym rest_is) failed),
        inr (
          none_left,
          (
            net'',
            df',
            end,
            omega (
              arith,
              ap length parts,
              ap length rest_is,
              count,
              dials,
              length-append front back,
              length-append front (address ∷ back),
            ),
            (λ empty. absurd (
                omega
                  (arith, ap length empty, ap length parts, length-append front (address ∷ back)))),
            λ some_left none_noted. elim (Bool-cases (length rest.datanodes == 0)) [
              | inl empty ↦ let k = same (nil_of_length rest.datanodes (ground arith)) in cc
              | inr more ↦
                  error (λ k. let l : length rest.datanodes ≡ 0 = ap length k in ground arith)
                    none_noted
            ],
          ),
        ),
      )

  pub attempts_end :
      (fuel : ℕ) (net : Datanodes) (df : Failover)
      → ((n : ℕ) → R.clock n ≢ 0)
      → AreTimed net.failures
      → length df.datanodes ≤ fuel
      → Ends net df (attempts R fuel block net df)
  attempts_end zero net df clocked timed enough =
      let nil = nil_of_length df.datanodes (omega arith) in
      (
        [],
        df.datanodes,
        refl,
        inr (
          nil,
          (
            net,
            df,
            attempts_none zero net df (omega arith),
            omega arith,
            (λ e. refl),
            λ some_left. absurd (some_left nil),
          ),
        ),
      )
  attempts_end (suc fuel) net df clocked timed enough =
      elim (Bool-cases (length df.datanodes == 0)) [
        | inl empty ↦
            let nil = nil_of_length df.datanodes (ground arith) in
            (
              [],
              df.datanodes,
              refl,
              inr (
                nil,
                (
                  net,
                  df,
                  attempts_none (suc fuel) net df (ground arith),
                  ground arith,
                  (λ e. refl),
                  λ some_left. absurd (some_left nil),
                ),
              ),
            )
        | inr more ↦
            let t : Takes net.failures df =
              next_lem net.failures df
                (λ k. let l : length df.datanodes ≡ 0 = ap length k in ground arith)
                (IsTimed-all net.failures df.datanodes timed) in
            let df' : Failover = record df {
              datanodes = t.front ++ t.back;
              current_datanode = t.address;
            } in
            let some_left : 0 < length df.datanodes = ground arith in
            let among : IsAmong t.address df.datanodes =
              rw t.parts (IsAmong-here t.address t.front t.back) in
            elim (Result-cases (read_checksum_from R block net.dials t.address)) [
              | inl (sum, k) ↦ (
                [],
                df.datanodes,
                refl,
                inl (
                  t.address,
                  net.dials,
                  omega arith,
                  among,
                  inr (
                    record net { dials = net.dials + 1 },
                    df',
                    sum,
                    attempt_found fuel net df df' t.address some_left t.taken k,
                    k,
                    refl,
                  ),
                ),
              )
              | inr (inr k) ↦ (
                [],
                df.datanodes,
                refl,
                inl (
                  t.address,
                  net.dials,
                  omega arith,
                  among,
                  inl (attempt_panic fuel net df df' t.address some_left t.taken k, k),
                ),
              )
              | inr (inl (e, k)) ↦
                  let net' : Datanodes = record {
                    failures = (record_failure (R.clock net.dials) e (net.failures, df')).0;
                    dials = net.dials + 1;
                  } in
                  let rest : Failover = record df' { last_err = some e } in
                  rw (attempt_failed fuel net df df' t.address some_left t.taken k) (
                    Ends-after t.front t.back t.address net net' df rest e
                      (attempts R fuel block net' rest) t.parts refl refl k refl
                      (attempts_end fuel net' rest clocked
                        (AreTimed-record_failure (R.clock net.dials) e net.failures df'
                          (clocked net.dials) timed)
                        (omega (
                          arith,
                          ap length t.parts,
                          length-append t.front t.back,
                          length-append t.front (t.address ∷ t.back),
                        ))))
            ]
      ]
