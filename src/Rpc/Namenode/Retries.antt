-- ===== src/Rpc/Namenode/Retries.antt =====
-- The retries of `Execute`, on connections that are at their end.
use hdfs.Prelude.{
  ℕ, zero, suc, ◌+◌, ◌%◌, ◌^◌, ◌≤◌, ◌≡◌, refl, ◌∙◌, inl, true, none, some, List, [], ◌∷◌, ◌++◌,
  Bytes, String, arith,
}
use hdfs.Prelude.Errors.{Error, ok, err}
use hdfs.Rpc.Framing.{make_rpc_packet, read_rpc_packet, read_full}
use hdfs.Rpc.Namenode.{
  Wire, Host, NamenodeConnection, Network, unfinished, send, written_to, resolve_connection,
  resolve_loop, mark_failure_low, rpc_header, handshake_call_id, effective_user,
  mark_transient_failure, write_request, read_response, execute_loop, execute,
  do_namenode_handshake, backoff_duration,
}

module _ (net : Network) where
  open net use {proto, dial, clock}

  -- A namenode whose connections take every write and then are at their end.
  pub record IsDead (address : String) (since : ℕ) : Type 0 where
    pub dialled :
        (n : ℕ)
        → (wire : Wire) × (dial n address ≡ inl wire)
          × (wire.incoming ≡ [])
          × ((b b' : Bytes) → wire.conn_write b b' ≡ none)
    pub awake : (n : ℕ) → since + backoff_duration ≤ clock n
    pub marshals : (ms : List proto.Message) → (b : Bytes) × (make_rpc_packet proto ms ≡ ok b)

  -- The only host, which has not been found to have failed since `since`.
  pub record IsWaiting (address : String) (since : ℕ) (c : NamenodeConnection) : Type 0 where
    pub closed : c.conn ≡ none
    pub alone :
        (h : Host) × (c.host_list ≡ h ∷ []) × (h.address ≡ address) × (h.last_error_at ≡ since)

  module _ (address : String) (since : ℕ) (d : IsDead address since) where
    send_dead :
        (wire : Wire) (b : Bytes)
        → ((a a' : Bytes) → wire.conn_write a a' ≡ none)
        → send wire b ≡ ok (record wire { written = wire.written ++ b })
    unfolding send
    send_dead wire b h = let k = h wire.written b in ground arith

    handshake_dead :
        (c : NamenodeConnection) (wire : Wire)
        → ((a a' : Bytes) → wire.conn_write a a' ≡ none)
        → (b : Bytes) × (do_namenode_handshake net c wire ≡ ok (record wire { written = b }))
    unfolding do_namenode_handshake
    handshake_dead c wire h =
        let (packet, made) = d.marshals (
          net.request_header handshake_call_id c.client_id
          ∷ net.connection_context (effective_user c.user c.kerberos_realm)
          ∷ []) in
        (
          wire.written ++ rpc_header ++ packet,
          rw (send_dead wire rpc_header h, made)
              (send_dead (record wire { written = wire.written ++ rpc_header }) packet h),
        )

    resolve_dead :
        (c : NamenodeConnection)
        → IsWaiting address since c
        → (c1 : NamenodeConnection) × (wire : Wire) × (resolve_connection net c ≡ ok (c1, none))
          × (c1.conn ≡ some wire)
          × (c1.host ≡ some 0)
          × (c1.host_list ≡ c.host_list)
          × (wire.incoming ≡ [])
          × ((b b' : Bytes) → wire.conn_write b b' ≡ none)
    unfolding resolve_connection resolve_loop
    resolve_dead c w =
        let (h, hosts, addr, at) = w.alone in
        let (wire, dials, ended, takes) = d.dialled c.dials in
        let (b, shakes) = handshake_dead c wire takes in
        let up = d.awake c.ticks in
        let none_yet = w.closed in
        let dial_h : dial c.dials h.address ≡ inl wire = rw addr dials in
        (
          record c {
            conn = some (record wire { written = b });
            host = some 0;
            dials = c.dials + 1;
            ticks = c.ticks + 1;
          },
          record wire { written = b },
          ground arith,
          refl,
          refl,
          refl,
          ended,
          takes,
        )

    -- Reading from a connection that is at its end.
    read_dead :
        (c : NamenodeConnection) (wire : Wire) (resp : proto.Message)
        → wire.incoming ≡ []
        → read_response net c wire resp ≡ err Error.eof
    unfolding read_response read_rpc_packet read_full
    read_dead c wire resp e = rw e refl

    waits_again :
        (c : NamenodeConnection) (wire : Wire) (h : Host)
        → c.host ≡ some 0
        → c.host_list ≡ h ∷ []
        → h.address ≡ address
        → h.last_error_at ≡ since
        → IsWaiting address since (mark_transient_failure net Error.eof (written_to c wire))
    unfolding mark_transient_failure mark_failure_low
    waits_again c wire h at hosts addr time = record {
      closed = ground arith;
      alone = (record h { write_error = true }, ground arith, addr, time);
    }

    round_dead :
        (fuel : ℕ) (c : NamenodeConnection) (method : String) (req resp : proto.Message)
        → IsWaiting address since c
        → (c' : NamenodeConnection) × IsWaiting address since c'
          × (execute_loop net (suc fuel) c method req resp
              ≡ execute_loop net fuel c' method req resp)
    unfolding execute_loop
    round_dead fuel c method req resp w =
        let (h, hosts, addr, time) = w.alone in
        let (c1, wire, resolved, opened, at, same, ended, takes) = resolve_dead c w in
        let (packet, made) = d.marshals (
          net.request_header c1.current_request_id c1.client_id
          ∷ net.method_header method
          ∷ req
          ∷ []) in
        let wire' : Wire = record wire { written = wire.written ++ packet } in
        let wrote : write_request net c1 wire method req ≡ ok wire' =
          unfold write_request in rw made (send_dead wire packet takes) in
        let eof = read_dead c1 wire' resp ended in
        (
          mark_transient_failure net Error.eof (written_to c1 wire'),
          waits_again c1 wire' h at (same ∙ hosts) addr time,
          ground arith,
        )

    loop_unfinished :
        (fuel : ℕ) (c : NamenodeConnection) (method : String) (req resp : proto.Message)
        → IsWaiting address since c
        → execute_loop net fuel c method req resp ≡ unfinished
    unfolding execute_loop
    loop_unfinished zero c method req resp w = refl
    loop_unfinished (suc fuel) c method req resp w =
        let (c', w', same) = round_dead fuel c method req resp w in
        same ∙ loop_unfinished fuel c' method req resp w'

    -- With a single namenode whose connections take requests and then are at their end, and that is not
    -- backing off, `Execute` never returns: it does not get out of its loop in any number of rounds.
    pub execute_unfinished :
        (fuel : ℕ) (c : NamenodeConnection) (method : String) (req resp : proto.Message)
        → IsWaiting address since c
        → execute net fuel c method req resp ≡ unfinished
    unfolding execute
    execute_unfinished fuel c method req resp w =
        loop_unfinished fuel (record c { current_request_id = (c.current_request_id + 1) % 2 ^ 32 })
          method req resp (record { closed = w.closed; alone = w.alone })
