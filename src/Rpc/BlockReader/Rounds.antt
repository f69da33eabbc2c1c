-- ===== src/Rpc/BlockReader/Rounds.antt =====
-- The rounds of `Read` of a block.
use hdfs.Prelude.{
  ℕ, zero, suc, ◌+◌, ◌*◌, ◌<◌, ◌≡◌, ◌≢◌, refl, ap, ◌⊎◌, inl, inr, true, false, Option, none, some,
  [], ◌∷◌, ◌++◌, Bytes, length, arith, ◌==◌, leb, ltb, subst, Bool-cases, Option-cases,
  length-append, nil_of_length,
}
use hdfs.Prelude.Errors.{is_eof, Error, Result-cases}
use hdfs.Rpc.Failover.{Failover, new_datanode_failover, record_failure, num_remaining, last_error}
use hdfs.Rpc.Failover.Choice.{Takes, next_lem}
use hdfs.Rpc.Failover.Timed.{AreTimed, IsTimed-all, AreTimed-record_failure}
use hdfs.Rpc.ReadStream.{read}
use hdfs.Rpc.Reading.{ReadProtocol, Datanodes, addresses}
use hdfs.Rpc.BlockReader.{
  LocatedBlock, BlockReader, OpenStream, Connected, connected, not_connected, connect_panicked,
  connect_unfinished, ReadOutcome, returned, panicked, Round, ended, again, connect_to,
  fail_datanode, give_up, read_stream, use_connection, connect_round, read_round, read_loop,
  read_fuel, close, read_block,
}
use hdfs.Rpc.BlockReader.Connecting.{IsUsable, connect_to-ends}

-- How many rounds are left: two for each datanode, and one for an open stream.
abbrev rounds : BlockReader → Failover → ℕ
rounds br df = 2 * length df.datanodes + (elim br.stream [ none ↦ 0 | some os ↦ 1 ])

-- How a read from `start` ends: in a panic, or with the offset moved by the count, and an error other than
-- the end only when nothing was read and no datanode is left. The block stays, and failures have a time.
abbrev pub Ends : LocatedBlock → ℕ → ReadOutcome → Type 0
Ends block start r =
    (r ≡ panicked)
    ⊎ ((br : BlockReader) × (net : Datanodes) × (b : Bytes) × (n : ℕ) × (e : Option Error) × (r
          ≡ returned br net b n e)
        × (br.block ≡ block)
        × AreTimed net.failures
        × (br.offset ≡ start + n)
        × ((e ≡ none)
            ⊎ ((e ≡ some Error.eof)
                ⊎ ((n ≡ 0)
                    × (br.stream ≡ none)
                    × ((x : Error) × (df : Failover) × (e ≡ some x)
                        × (br.datanodes ≡ some df)
                        × (df.datanodes ≡ []))))))

-- The state of the next round.
record OnGoing (block : LocatedBlock) (start limit : ℕ) (br : BlockReader) (net : Datanodes)
    (df : Failover) : Type 0 where
  pub same_block : br.block ≡ block
  pub place : br.offset ≡ start
  pub known : br.datanodes ≡ some df
  pub timed : AreTimed net.failures
  pub fewer : rounds br df < limit

abbrev RoundEnds : LocatedBlock → ℕ → ℕ → Round → Type 0
RoundEnds block start limit r =
    ((o : ReadOutcome) × (r ≡ ended o) × Ends block start o)
    ⊎ ((br : BlockReader) × (net : Datanodes) × (df : Failover) × (b : Bytes) × (r
          ≡ again br net df b)
        × OnGoing block start limit br net df)

eof_is : (e : Error) → is_eof e ≡ true → e ≡ Error.eof
eof_is e h = ground arith

module _ (R : ReadProtocol) (u : IsUsable R) (clocked : (n : ℕ) → R.clock n ≢ 0) where
  failed-OnGoing :
      (e : Error) (start limit : ℕ) (br : BlockReader) (net : Datanodes) (df : Failover)
      → br.offset ≡ start
      → AreTimed net.failures
      → rounds br df < limit
      → OnGoing br.block start limit
          (fail_datanode R e br net df).0
          (fail_datanode R e br net df).1
          (fail_datanode R e br net df).2
  unfolding fail_datanode record_failure
  failed-OnGoing e start limit br net df place timed fewer = record {
    same_block = refl;
    place = place;
    known = refl;
    timed = AreTimed-record_failure (R.clock net.dials) e net.failures df (clocked net.dials) timed;
    fewer = fewer;
  }

  failed_block :
      (e : Error) (br : BlockReader) (net : Datanodes) (df : Failover)
      → (fail_datanode R e br net df).0.block ≡ br.block
  unfolding fail_datanode
  failed_block e br net df = refl

  failed-timed :
      (e : Error) (br : BlockReader) (net : Datanodes) (df : Failover)
      → AreTimed net.failures
      → AreTimed (fail_datanode R e br net df).1.failures
  unfolding fail_datanode
  failed-timed e br net df timed =
      AreTimed-record_failure (R.clock net.dials) e net.failures df (clocked net.dials) timed

  failed_offset :
      (e : Error) (br : BlockReader) (net : Datanodes) (df : Failover)
      → (fail_datanode R e br net df).0.offset ≡ br.offset
  unfolding fail_datanode
  failed_offset e br net df = refl

  read_stream-Ends :
      (br : BlockReader) (net : Datanodes) (df : Failover) (b : Bytes) (os : OpenStream) (limit : ℕ)
      → AreTimed net.failures
      → 2 * length df.datanodes < limit
      → RoundEnds br.block br.offset limit (read_stream R br net df b os)
  unfolding read_stream
  read_stream-Ends br net df b os limit timed fewer =
      elim (Result-cases (read os.codec os.reader b)) [
        | inr (inr k) ↦ inl (panicked, ground arith, inl refl)
        | inr (inl (e, k)) ↦ inl (panicked, ground arith, inl refl)
        | inl (r, k) ↦
            let (s, b', n, o) = r in
            let br1 : BlockReader = record br {
              offset = br.offset + n;
              stream = some (record os { reader = s });
            } in
            let br2 : BlockReader = record br1 { stream = none } in
            elim (Option-cases o) [
              | inl l ↦ inl (
                returned br1 net b' n none,
                ground arith,
                inr (br1, net, b', n, none, refl, refl, timed, refl, inl refl),
              )
              | inr (x, l) ↦
                  let failed = fail_datanode R x br2 net df in
                  elim (Bool-cases (is_eof x)) [
                    | inl at_end ↦ inl (
                      returned br1 net b' n (some x),
                      ground arith,
                      inr (
                        br1,
                        net,
                        b',
                        n,
                        some x,
                        refl,
                        refl,
                        timed,
                        refl,
                        inr (inl (ap some (eof_is x at_end))),
                      ),
                    )
                    | inr other ↦ elim (Bool-cases (ltb 0 n)) [
                      | inl some_read ↦ inl (
                        returned failed.0 failed.1 b' n none,
                        ground arith,
                        inr (
                          failed.0,
                          failed.1,
                          b',
                          n,
                          none,
                          refl,
                          failed_block x br2 net df,
                          failed-timed x br2 net df timed,
                          failed_offset x br2 net df,
                          inl refl,
                        ),
                      )
                      | inr none_read ↦ inr (
                        failed.0,
                        failed.1,
                        failed.2,
                        b',
                        ground arith,
                        failed-OnGoing x br.offset limit br2 net df (ground arith) timed
                            (omega arith),
                      )
                    ]
                  ]
            ]
      ]

  use_connection-Ends :
      (br : BlockReader) (net : Datanodes) (df : Failover) (b : Bytes) (c : Connected) (limit : ℕ)
      → br.stream ≡ none
      → AreTimed net.failures
      → 2 * length df.datanodes + 1 < limit
      → c ≢ connect_unfinished
      → RoundEnds br.block br.offset limit (use_connection R br net df b c)
  unfolding use_connection
  use_connection-Ends br net df b connect_panicked limit closed timed fewer k =
      inl (panicked, refl, inl refl)
  use_connection-Ends br net df b connect_unfinished limit closed timed fewer k = absurd (k refl)
  use_connection-Ends br net df b (not_connected e) limit closed timed fewer k =
      let failed = fail_datanode R e br net df in
      inr (
        failed.0,
        failed.1,
        failed.2,
        b,
        refl,
        failed-OnGoing e br.offset limit br net df refl timed (rw closed (omega arith)),
      )
  use_connection-Ends br net df b (connected os none) limit closed timed fewer k =
      read_stream-Ends (record br { stream = some os }) net df b os limit timed (omega arith)
  use_connection-Ends br net df b (connected os (some e)) limit closed timed fewer k =
      let br1 : BlockReader = record br { stream = some os } in
      let failed = fail_datanode R e br1 net df in
      inr (
        failed.0,
        failed.1,
        failed.2,
        b,
        refl,
        failed-OnGoing e br.offset limit br1 net df refl timed fewer,
      )

  connect_round-Ends :
      (br : BlockReader) (net : Datanodes) (df : Failover) (b : Bytes)
      → br.stream ≡ none
      → AreTimed net.failures
      → 0 < length df.datanodes
      → RoundEnds br.block br.offset (2 * length df.datanodes) (connect_round R br net df b)
  unfolding connect_round
  connect_round-Ends br net df b closed timed some_left =
      let t : Takes net.failures df =
        next_lem net.failures df (λ k. let l : length df.datanodes ≡ 0 = ap length k in omega arith)
          (IsTimed-all net.failures df.datanodes timed) in
      let df' : Failover = record df {
        datanodes = t.front ++ t.back;
        current_datanode = t.address;
      } in
      rw (connect_round, t.taken)
        (use_connection-Ends (record br { datanodes = some df' })
          (record net { dials = net.dials + 1 }) df' b (connect_to R br net.dials t.address)
          (2 * length df.datanodes) closed timed
          (omega (
            arith,
            ap length t.parts,
            length-append t.front t.back,
            length-append t.front (t.address ∷ t.back),
          ))
          (connect_to-ends R u br net.dials t.address))

  -- A reader that is given up has no stream and no datanodes.
  give_up-Ends :
      (br : BlockReader) (net : Datanodes) (df : Failover) (b : Bytes)
      → AreTimed net.failures
      → br.stream ≡ none
      → br.datanodes ≡ some df
      → df.datanodes ≡ []
      → Ends br.block br.offset (give_up R br net df b)
  unfolding give_up
  give_up-Ends br net df b timed closed known nothing =
      let x : Error = elim (last_error df) [ none ↦ Error.no_datanodes | some e ↦ e ] in
      inr (
        br,
        net,
        b,
        0,
        some x,
        refl,
        refl,
        timed,
        omega arith,
        inr (inr (refl, closed, (x, df, refl, known, nothing))),
      )

  read_round-Ends :
      (br : BlockReader) (net : Datanodes) (df : Failover) (b : Bytes)
      → AreTimed net.failures
      → br.datanodes ≡ some df
      → RoundEnds br.block br.offset (rounds br df) (read_round R br net df b)
  unfolding read_round num_remaining
  read_round-Ends br net df b timed known = elim (Option-cases br.stream) [
    | inr (os, k) ↦
        let same : read_round R br net df b ≡ read_stream R br net df b os = ground arith in
        let left : rounds br df ≡ 2 * length df.datanodes + 1 = rw k refl in
        rw (same, left)
          (read_stream-Ends br net df b os (2 * length df.datanodes + 1) timed (omega arith))
    | inl k ↦ elim (Bool-cases (length df.datanodes == 0)) [
      | inl empty ↦ inl (
        give_up R br net df b,
        ground arith,
        give_up-Ends br net df b timed k known (nil_of_length df.datanodes (ground arith)),
      )
      | inr more ↦
          let same : read_round R br net df b ≡ connect_round R br net df b = ground arith in
          let left : rounds br df ≡ 2 * length df.datanodes = rw k (omega arith) in
          rw (same, left) (connect_round-Ends br net df b k timed (ground arith))
    ]
  ]

  read_loop-Ends :
      (fuel : ℕ) (br : BlockReader) (net : Datanodes) (df : Failover) (b : Bytes)
      → AreTimed net.failures
      → br.datanodes ≡ some df
      → rounds br df < fuel
      → Ends br.block br.offset (read_loop R fuel br net df b)
  unfolding read_loop
  read_loop-Ends zero br net df b timed known enough = absurd (omega arith)
  read_loop-Ends (suc fuel) br net df b timed known enough =
      elim (read_round-Ends br net df b timed known) [
        | inl (o, k, h) ↦ rw (read_loop, k) h
        | inr (br', net', df', b', k, g) ↦
            let fewer = g.fewer in
            let rest = read_loop-Ends fuel br' net' df' b' g.timed g.known (omega arith) in
            rw (read_loop, k)
              (subst (λ (p : LocatedBlock × ℕ). Ends p.0 p.1 (read_loop R fuel br' net' df' b'))
                (λ i. (g.same_block i, g.place i)) rest)
      ]

  pub read_block-Ends :
      (br : BlockReader) (net : Datanodes) (b : Bytes)
      → AreTimed net.failures
      → ((br.closed ≡ true)
          × (read_block R br net b ≡ returned br net b 0 (some Error.closed_pipe)))
        ⊎ ((br.closed ≡ false) × Ends br.block br.offset (read_block R br net b))
  unfolding read_block close num_remaining
  read_block-Ends br net b timed =
      let df : Failover = elim br.datanodes [
        | none ↦ new_datanode_failover (addresses R br.block br.use_datanode_hostname)
        | some df ↦ df
      ] in
      let br1 : BlockReader = record br { datanodes = some df } in
      elim (Bool-cases br.closed) [
        | inl closed ↦ inl (closed, ground arith)
        | inr open_reader ↦ elim (Bool-cases (leb br.block.b.num_bytes br.offset)) [
          | inl at_end ↦
              let same : read_block R br net b ≡ returned (close br) net b 0 (some Error.eof) =
                ground arith in
              inr (
                open_reader,
                inr (
                  close br,
                  net,
                  b,
                  0,
                  some Error.eof,
                  same,
                  refl,
                  timed,
                  omega arith,
                  inr (inl refl),
                ),
              )
          | inr inside ↦
              let same : read_block R br net b ≡ read_loop R (read_fuel br df) br1 net df b =
                ground arith in
              inr (
                open_reader,
                rw same (read_loop-Ends (read_fuel br df) br1 net df b timed refl (omega arith)),
              )
        ]
      ]
