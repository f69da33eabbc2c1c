-- ===== src/Rpc/Namenode/Hosts.antt =====
-- Which hosts `resolveConnection` tries, and what it leaves of them.
use hdfs.Prelude.{
  false, ℕ, ◌+◌, ◌≡◌, refl, sym, ap, ◌∙◌, ◌⊎◌, inl, inr, true, Option, none, some, List, [], ◌∷◌,
  ◌++◌, arith, Bool-cases, Sum-cases, append_assoc, append-nil,
}
use hdfs.Prelude.Errors.{err, Error, ok, Result-cases}
use hdfs.Rpc.Namenode.{
  Wire, Host, NamenodeConnection, Network, resolve_connection, resolve_loop, Resolved, failed_at,
  is_backing_off, do_namenode_handshake, current_host,
}

module _ (net : Network) where
  open net use {dial, clock}

  -- The host backs off at this tick of the clock, and is passed over.
  abbrev pub Waits : ℕ → Host → Host → Type 0
  Waits t h h' = (is_backing_off net h (clock t) ≡ true) × (h' ≡ h)

  -- The host does not back off at tick `t`, and dial `d`, which goes to its address, or the handshake
  -- over the wire that this dial gives, has failed; the host has the error and the time after it.
  abbrev pub Fails : NamenodeConnection → ℕ → ℕ → Host → Host → Type 0
  Fails c d t h h' =
      (is_backing_off net h (clock t) ≡ false)
      × ((e : Error) × ((dial d h.address ≡ inr e)
            ⊎ ((wire : Wire) × (dial d h.address ≡ inl wire)
                × (do_namenode_handshake net c wire ≡ err e)))
          × (h' ≡ record h { last_error = some e; last_error_at = clock (t + 1) }))

  -- The host does not back off, and dial `d` to its address and the handshake give the wire.
  abbrev pub Connects : NamenodeConnection → ℕ → ℕ → Host → Host → Wire → Type 0
  Connects c d t h h' wire =
      (is_backing_off net h (clock t) ≡ false)
      × ((first : Wire) × (dial d h.address ≡ inl first)
          × (do_namenode_handshake net c first ≡ ok wire))
      × (h' ≡ h)

  -- All hosts, one by one, from a dial and a tick on.
  abbrev pub AllRefuse : NamenodeConnection → ℕ → ℕ → List Host → List Host → Type 0
  AllRefuse c d t [] hosts = hosts ≡ []
  AllRefuse c d t (h ∷ hosts) [] = ⊥
  AllRefuse c d t (h ∷ hosts) (h' ∷ hosts') =
      (Waits t h h' × AllRefuse c d (t + 1) hosts hosts')
      ⊎ (Fails c d t h h' × AllRefuse c (d + 1) (t + 2) hosts hosts')

  -- One of them gives the wire, those before it have refused, and those behind it are as they were.
  abbrev pub OneConnects : NamenodeConnection → ℕ → ℕ → List Host → List Host → Wire → Type 0
  OneConnects c d t [] hosts wire = ⊥
  OneConnects c d t (h ∷ hosts) [] wire = ⊥
  OneConnects c d t (h ∷ hosts) (h' ∷ hosts') wire =
      (Connects c d t h h' wire × (hosts' ≡ hosts))
      ⊎ ((Waits t h h' × OneConnects c d (t + 1) hosts hosts' wire)
          ⊎ (Fails c d t h h' × OneConnects c (d + 1) (t + 2) hosts hosts' wire))

  -- How the loop ends.
  abbrev Ends : NamenodeConnection → List Host → Resolved → Resolved → Type 0
  Ends c hosts r r' =
      (hosts' : List Host) × (r'.hosts ≡ r.hosts ++ hosts')
      × (((wire : Wire) × (r'.conn ≡ some wire) × OneConnects c r.dials r.ticks hosts hosts' wire)
          ⊎ ((r'.conn ≡ none) × AllRefuse c r.dials r.ticks hosts hosts'))

  module _ (c : NamenodeConnection) (h h' : Host) (hosts : List Host) (r s r' : Resolved)
      (seen : s.hosts ≡ r.hosts ++ (h' ∷ [])) where
    hosts_after :
        (hosts' : List Host) → r'.hosts ≡ s.hosts ++ hosts' → r'.hosts ≡ r.hosts ++ (h' ∷ hosts')
    hosts_after hosts' all =
        all ∙ ap (λ (l : List Host). l ++ hosts') seen ∙ append_assoc r.hosts (h' ∷ []) hosts'

    -- One host that was passed over, before the rest.
    Ends-Waits :
        Waits r.ticks h h'
        → s.dials ≡ r.dials
        → s.ticks ≡ r.ticks + 1
        → Ends c hosts s r'
        → Ends c (h ∷ hosts) r r'
    Ends-Waits waits d t (hosts', all, inl (wire, opened, one)) = (
      h' ∷ hosts',
      hosts_after hosts' all,
      inl (wire, opened, inr (inl (waits, rw (sym d, sym t) one))),
    )
    Ends-Waits waits d t (hosts', all, inr (shut, rest)) =
        (h' ∷ hosts', hosts_after hosts' all, inr (shut, inl (waits, rw (sym d, sym t) rest)))

    -- One host that failed, before the rest.
    Ends-Fails :
        Fails c r.dials r.ticks h h'
        → s.dials ≡ r.dials + 1
        → s.ticks ≡ r.ticks + 2
        → Ends c hosts s r'
        → Ends c (h ∷ hosts) r r'
    Ends-Fails fails d t (hosts', all, inl (wire, opened, one)) = (
      h' ∷ hosts',
      hosts_after hosts' all,
      inl (wire, opened, inr (inr (fails, rw (sym d, sym t) one))),
    )
    Ends-Fails fails d t (hosts', all, inr (shut, rest)) =
        (h' ∷ hosts', hosts_after hosts' all, inr (shut, inr (fails, rw (sym d, sym t) rest)))

  resolve_loop-Ends :
      (c : NamenodeConnection) (i : ℕ) (hosts : List Host) (r r' : Resolved)
      → r.conn ≡ none
      → resolve_loop net c i hosts r ≡ ok r'
      → Ends c hosts r r'
  unfolding resolve_loop
  resolve_loop-Ends c i [] r r' closed h =
      let same : r ≡ r' = cc in
      (
        [],
        ap (λ (s : Resolved). s.hosts) (sym same) ∙ sym (append-nil r.hosts),
        inr (rw same at closed, refl),
      )
  resolve_loop-Ends c i (host ∷ hosts) r r' closed h =
      elim (Bool-cases (is_backing_off net host (clock r.ticks))) [
        | inl waits ↦
            let s : Resolved = record r { hosts = r.hosts ++ (host ∷ []); ticks = r.ticks + 1 } in
            Ends-Waits c host host hosts r s r' refl (waits, refl) refl refl
              (resolve_loop-Ends c (i + 1) hosts s r' closed (ground arith))
        | inr tried ↦
            let after = λ (e : Error).
              let s : Resolved = record {
                hosts = r.hosts ++ (failed_at net e (clock (r.ticks + 1)) host ∷ []);
                host = some i;
                conn = none;
                error = some e;
                dials = r.dials + 1;
                ticks = r.ticks + 2;
              } in
              s in
            let go =
              λ (e : Error)
                  (why : (dial r.dials host.address ≡ inr e)
                    ⊎ ((wire : Wire) × (dial r.dials host.address ≡ inl wire)
                        × (do_namenode_handshake net c wire ≡ err e)))
                  (again : resolve_loop net c (i + 1) hosts (after e) ≡ ok r').
                Ends-Fails c host (failed_at net e (clock (r.ticks + 1)) host) hosts r (after e) r'
                  refl (tried, (e, why, refl)) refl refl
                  (resolve_loop-Ends c (i + 1) hosts (after e) r' refl again) in
            elim (Sum-cases (dial r.dials host.address)) [
              | inr (e, k) ↦ go e (inl k) (ground arith)
              | inl (wire, k) ↦ elim (Result-cases (do_namenode_handshake net c wire)) [
                | inl (wire', l) ↦ (
                  host ∷ hosts,
                  ground arith,
                  inl (wire', ground arith, inl ((tried, (wire, k, l), refl), refl)),
                )
                | inr (inl (e, l)) ↦ go e (inr (wire, k, l)) (ground arith)
                | inr (inr l) ↦ absurd (ground arith)
              ]
            ]
      ]

  -- `resolveConnection` of a client that is not connected, when it does not panic, goes through the
  -- hosts in order. One that backs off at the tick of the clock it is looked at is passed over, and
  -- stays as it is; to the address of any other goes the next dial. Without an error the client is
  -- connected over what the dial to one of them and the handshake have given, and all before it
  -- were passed over or have failed. With an error, which says that there are no namenodes, it is
  -- not connected, and this holds of all of them. A host that has failed has the error of its dial
  -- or of its handshake and the time after it noted, and is else as it was.
  pub resolve_connection_ends :
      (c c' : NamenodeConnection) (e : Option Error)
      → c.conn ≡ none
      → resolve_connection net c ≡ ok (c', e)
      → ((e ≡ none)
          × ((wire : Wire) × (c'.conn ≡ some wire)
              × OneConnects c c.dials c.ticks c.host_list c'.host_list wire))
        ⊎ ((e ≡ some Error.no_namenodes)
            × (c'.conn ≡ none)
            × AllRefuse c c.dials c.ticks c.host_list c'.host_list)
  unfolding resolve_connection
  resolve_connection_ends c c' e closed h =
      let r : Resolved = record {
        hosts = [];
        host = c.host;
        conn = none;
        error = elim (current_host c) [ none ↦ none | some h ↦ h.last_error ];
        dials = c.dials;
        ticks = c.ticks;
      } in
      elim (Result-cases (resolve_loop net c 0 c.host_list r)) [
        | inr (inl (x, k)) ↦ absurd (ground arith)
        | inr (inr k) ↦ absurd (ground arith)
        | inl (r', k) ↦
            let (hosts', all, ended) = resolve_loop-Ends c 0 c.host_list r r' refl k in
            let list : c'.host_list ≡ hosts' = ground arith in
            elim ended [
              | inl (wire, opened, one) ↦ inl (ground arith, (wire, ground arith, rw list one))
              | inr (none_open, refused) ↦ inr (ground arith, ground arith, rw list refused)
            ]
      ]
