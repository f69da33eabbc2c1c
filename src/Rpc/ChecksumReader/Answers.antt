-- ===== src/Rpc/ChecksumReader/Answers.antt =====
-- What `ReadChecksum` of a new reader answers, over the datanodes of its block.
use hdfs.Prelude.{
  arith, ℕ, ◌+◌, ◌≡◌, ◌≢◌, refl, ◌⊎◌, inl, inr, Option, none, some, List, [], Bytes, length, String,
  Option-cases,
}
use hdfs.Prelude.Errors.{Error, Result, ok, panic}
use hdfs.Rpc.Failover.{Failover, new_datanode_failover, num_remaining, last_error}
use hdfs.Rpc.Reading.{ReadProtocol, Datanodes, addresses}
use hdfs.Rpc.ChecksumReader.{
  ChecksumReader, Attempt, exhausted, read_checksum_from, attempts, conclude, read_checksum,
}
use hdfs.Rpc.ChecksumReader.Attempts.{Ends, Failed, attempts_end}
use hdfs.Rpc.Failover.Timed.{IsAmong, AreTimed}

module _ (R : ReadProtocol) (cr : ChecksumReader) (net : Datanodes) where
  abbrev locs : List String
  locs = addresses R cr.block cr.use_datanode_hostname

  abbrev fresh : Failover
  fresh = new_datanode_failover locs

  -- After some datanodes were dialled, one after another, and have failed, the next dial has gone to
  -- one that is left, which has answered, or reading from it has panicked; or none is left, which is
  -- an error only if there were any.
  abbrev pub Answers : Result (ChecksumReader × Datanodes × Bytes × Option Error) → Type 0
  Answers r =
      (tried : List String) × (left : List String) × Failed R cr.block net.dials locs tried left
      × (((address : String) × (d : ℕ) × (d ≡ net.dials + length tried)
            × IsAmong address left
            × (((r ≡ panic) × (read_checksum_from R cr.block d address ≡ panic))
                ⊎ ((cr' : ChecksumReader) × (net' : Datanodes) × (sum : Bytes) × (r
                      ≡ ok (cr', net', sum, none))
                    × (read_checksum_from R cr.block d address ≡ ok sum)
                    × (net'.dials ≡ d + 1))))
          ⊎ ((left ≡ [])
              × ((cr' : ChecksumReader) × (net' : Datanodes) × (net'.dials
                    ≡ net.dials + length locs)
                  × (locs ≡ [] → r ≡ ok (cr', net', [], none))
                  × (locs ≢ [] → r ≡ ok (cr', net', [], some Error.no_datanodes)))))

  conclude_exhausted_none :
      (net' : Datanodes) (df : Failover)
      → last_error df ≡ none
      → conclude R cr (exhausted net' df) ≡ ok (record cr { datanodes = some df }, net', [], none)
  unfolding conclude
  conclude_exhausted_none net' df h = rw h refl

  conclude_exhausted_some :
      (net' : Datanodes) (df : Failover)
      → last_error df ≢ none
      → conclude R cr (exhausted net' df)
        ≡ ok (record cr { datanodes = some df }, net', [], some Error.no_datanodes)
  unfolding conclude
  conclude_exhausted_some net' df h = elim (Option-cases (last_error df)) [
    | inl k ↦ absurd (h k)
    | inr (e, k) ↦ rw k refl
  ]

  concluded : (r : Attempt) → Ends R cr.block net fresh r → Answers (conclude R cr r)
  unfolding conclude new_datanode_failover last_error
  concluded r (tried, left, failed, inl (a, d, at, among, inl (k, l))) =
      rw k (tried, left, failed, inl (a, d, at, among, inl (refl, l)))
  concluded r (tried, left, failed, inl (a, d, at, among, inr (net', df', sum, k, l, count))) =
      rw k (
        tried,
        left,
        failed,
        inl (a, d, at, among, inr (record cr { datanodes = some df' }, net', sum, refl, l, count)),
      )
  concluded r (tried, left, failed, inr (none_left, (net', df', k, count, same, error))) = rw k (
    tried,
    left,
    failed,
    inr (
      none_left,
      (
        record cr { datanodes = some df' },
        net',
        count,
        (λ empty. conclude_exhausted_none net' df' (same empty)),
        λ some_left. conclude_exhausted_some net' df' (error some_left),
      ),
    ),
  )

  read_checksum_fresh :
      cr.datanodes ≡ none
      → read_checksum R cr net ≡ conclude R cr (attempts R (num_remaining fresh) cr.block net fresh)
  unfolding read_checksum
  read_checksum_fresh h = rw h refl

  -- `ReadChecksum` of a new reader, with failures and a clock that are never the zero time, returns.
  -- It dials datanodes of the block one after another, each at most once, since one that has failed
  -- is taken off those that are left. Once one of these answers, after as many failures as there
  -- were dials before, it gives the checksum without an error and dials no more, or panics as reading
  -- from it does. If none answers, each was dialled once and has failed, and the result is no
  -- checksum and an error; of a block with no datanodes it is no checksum and no error.
  pub read_checksum-Answers :
      ((n : ℕ) → R.clock n ≢ 0)
      → AreTimed net.failures
      → cr.datanodes ≡ none
      → Answers (read_checksum R cr net)
  unfolding new_datanode_failover num_remaining
  read_checksum-Answers clocked timed h = rw (read_checksum_fresh h) (
      concluded _
        (attempts_end R cr.block (num_remaining fresh) net fresh clocked timed (omega arith)))
