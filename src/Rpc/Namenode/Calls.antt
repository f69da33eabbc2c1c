-- ===== src/Rpc/Namenode/Calls.antt =====
-- What a call that is answered has sent and received.
use hdfs.Prelude.{
  ℕ, zero, suc, ◌+◌, ◌%◌, ◌^◌, ◌≡◌, ap, ◌∙◌, ◌⊎◌, inl, inr, Bool, true, false, Option, none, some,
  List, [], ◌∷◌, ◌++◌, Bytes, String, arith, Bool-cases, Option-cases,
}
use hdfs.Prelude.Errors.{is_eof, Error, ok, Result-cases}
use hdfs.Rpc.Framing.{make_rpc_packet, read_rpc_packet}
use hdfs.Rpc.Namenode.{
  Wire, NamenodeConnection, Network, answered, send, behind_packet, is_standby, written_to,
  resolve_connection, mark_failure_low, mark_failure, mark_transient_failure, write_request,
  check_response, read_response, execute_loop, execute,
}

module _ (net : Network) where
  open net use {proto, request_header, method_header, response_header, call_id, is_success}

  -- The same call of the same client.
  pub record IsSameCall (c c' : NamenodeConnection) : Type 0 where
    pub same_id : c'.current_request_id ≡ c.current_request_id
    pub same_client : c'.client_id ≡ c.client_id

  IsSameCall-trans : {a b c : NamenodeConnection} → IsSameCall a b → IsSameCall b c → IsSameCall a c
  IsSameCall-trans h k = record {
    same_id = k.same_id ∙ h.same_id;
    same_client = k.same_client ∙ h.same_client;
  }

  IsSameCall-resolve :
      (c c' : NamenodeConnection) (e : Option Error)
      → resolve_connection net c ≡ ok (c', e)
      → IsSameCall c c'
  unfolding resolve_connection
  IsSameCall-resolve c c' e h = elim (Option-cases c.conn) [
    | inr (wire, k) ↦ ground arith
    | inl k ↦ ground arith
  ]

  IsSameCall-written : (c : NamenodeConnection) (wire : Wire) → IsSameCall c (written_to c wire)
  IsSameCall-written c wire = ground arith

  IsSameCall-mark :
      (e : Error) (rw_error : Bool) (c : NamenodeConnection)
      → IsSameCall c (mark_failure_low net e rw_error c)
  unfolding mark_failure_low
  IsSameCall-mark e rw_error c = ground arith

  -- A call `c` answered by `m`: its request was written whole to the connection, and the packet that was
  -- read next from it carries the call's id, success and `m`.
  pub record Exchange (c : NamenodeConnection) (method : String) (req resp : proto.Message)
      (c' : NamenodeConnection) (m : proto.Message) : Type 0 where
    pub before : Wire
    pub packet : Bytes
    pub header : proto.Message
    pub rest : Bytes
    pub request :
        make_rpc_packet proto
          (request_header c.current_request_id c.client_id ∷ method_header method ∷ req ∷ [])
        ≡ ok packet
    pub accepted : before.conn_write before.written packet ≡ none
    pub response :
        read_rpc_packet proto before.incoming (response_header ∷ resp ∷ [])
        ≡ ok (header ∷ m ∷ [], rest)
    pub same_id : call_id header ≡ c.current_request_id
    pub success : is_success header ≡ true
    pub still_open :
        c'.conn
        ≡ some (record before {
          written = before.written ++ packet;
          incoming = behind_packet before.incoming;
        })
    pub same_call : IsSameCall c c'

  Exchange-earlier :
      {b c c' : NamenodeConnection} {method : String} {req resp m : proto.Message}
      → IsSameCall b c
      → Exchange c method req resp c' m
      → Exchange b method req resp c' m
  Exchange-earlier s x = record {
    before = x.before;
    packet = x.packet;
    header = x.header;
    rest = x.rest;
    request = rw (← s.same_id, ← s.same_client) x.request;
    accepted = x.accepted;
    response = x.response;
    same_id = x.same_id ∙ s.same_id;
    success = x.success;
    still_open = x.still_open;
    same_call = IsSameCall-trans s x.same_call;
  }

  write_request_inv :
      (c : NamenodeConnection) (wire wire' : Wire) (method : String) (req : proto.Message)
      → write_request net c wire method req ≡ ok wire'
      → (packet : Bytes) × (make_rpc_packet proto
            (request_header c.current_request_id c.client_id ∷ method_header method ∷ req ∷ [])
          ≡ ok packet)
        × (wire.conn_write wire.written packet ≡ none)
        × (wire' ≡ record wire { written = wire.written ++ packet })
  unfolding write_request send
  write_request_inv c wire wire' method req h =
      elim (Result-cases (
        make_rpc_packet proto
          (request_header c.current_request_id c.client_id ∷ method_header method ∷ req ∷ []))) [
            | inl (packet, e) ↦ elim (Option-cases (wire.conn_write wire.written packet)) [
              | inl k ↦ (packet, e, k, ground arith)
              | inr (x, k) ↦ absurd (ground arith)
            ]
            | inr (inl (x, e)) ↦ absurd (ground arith)
            | inr (inr e) ↦ absurd (ground arith)
          ]

  check_inv :
      (id : ℕ) (messages : List proto.Message) (m : proto.Message)
      → check_response net id messages ≡ ok m
      → (header : proto.Message) × (messages ≡ header ∷ m ∷ [])
        × (call_id header ≡ id)
        × (is_success header ≡ true)
  unfolding check_response
  check_inv id [] m h = absurd (ground arith)
  check_inv id (a ∷ []) m h = absurd (ground arith)
  check_inv id (a ∷ b ∷ []) m h = (
    a,
    (let same : b ≡ m = ground arith in ap (λ (x : proto.Message). a ∷ x ∷ []) same),
    ground arith,
    ground arith,
  )
  check_inv id (a ∷ b ∷ c ∷ messages) m h = absurd (ground arith)

  read_response_inv :
      (c : NamenodeConnection) (wire : Wire) (resp m : proto.Message)
      → read_response net c wire resp ≡ ok m
      → (header : proto.Message) × (rest : Bytes) × (read_rpc_packet proto wire.incoming
            (response_header ∷ resp ∷ [])
          ≡ ok (header ∷ m ∷ [], rest))
        × (call_id header ≡ c.current_request_id)
        × (is_success header ≡ true)
  unfolding read_response
  read_response_inv c wire resp m h =
      elim (Result-cases (read_rpc_packet proto wire.incoming (response_header ∷ resp ∷ []))) [
        | inl ((messages, rest), e) ↦
            let (header, messages_are, id, success) =
              check_inv c.current_request_id messages m (rw e at h) in
            (
              header,
              rest,
              e ∙ ap (λ (l : List proto.Message). ok (l, rest)) messages_are,
              id,
              success,
            )
        | inr (inl (x, e)) ↦ absurd (ground arith)
        | inr (inr e) ↦ absurd (ground arith)
      ]

  -- A round of the loop that leads to an answer is the last one, or is followed by another.
  round_inv :
      (fuel : ℕ) (c : NamenodeConnection) (method : String) (req resp : proto.Message)
      (c' : NamenodeConnection) (m : proto.Message)
      → execute_loop net (suc fuel) c method req resp ≡ answered c' m
      → (c1 : NamenodeConnection) × (resolve_connection net c ≡ ok (c1, none))
        × (((c2 : NamenodeConnection) × IsSameCall c1 c2
              × (execute_loop net fuel c2 method req resp ≡ answered c' m))
            ⊎ ((wire : Wire) × (wire' : Wire) × (c1.conn ≡ some wire)
                × (write_request net c1 wire method req ≡ ok wire')
                × (read_response net c1 wire' resp ≡ ok m)
                × (c' ≡ written_to c1 wire')))
  unfolding execute_loop mark_failure mark_transient_failure
  round_inv fuel c method req resp c' m h = elim (Result-cases (resolve_connection net c)) [
    | inr (inl (x, e)) ↦ absurd (ground arith)
    | inr (inr e) ↦ absurd (ground arith)
    | inl ((c1, some x), e) ↦ absurd (ground arith)
    | inl ((c1, none), e) ↦ elim (Option-cases c1.conn) [
      | inl k ↦ absurd (ground arith)
      | inr (wire, k) ↦ elim (Result-cases (write_request net c1 wire method req)) [
        | inr (inr l) ↦ absurd (ground arith)
        | inr (inl (x, l)) ↦
            (c1, e, inl (mark_transient_failure net x c1, IsSameCall-mark x true c1, ground arith))
        | inl (wire', l) ↦ elim (Result-cases (read_response net c1 wire' resp)) [
          | inr (inr q) ↦ absurd (ground arith)
          | inl (m', q) ↦ (c1, e, inr (wire, wire', k, l, ground arith, ground arith))
          | inr (inl (x, q)) ↦ elim (Bool-cases (is_eof x)) [
            | inl t ↦ (
              c1,
              e,
              inl (
                mark_transient_failure net x (written_to c1 wire'),
                IsSameCall-trans (IsSameCall-written c1 wire')
                    (IsSameCall-mark x true (written_to c1 wire')),
                ground arith,
              ),
            )
            | inr f ↦ elim (Bool-cases (is_standby x)) [
              | inl t ↦ (
                c1,
                e,
                inl (
                  mark_failure net x (written_to c1 wire'),
                  IsSameCall-trans (IsSameCall-written c1 wire')
                      (IsSameCall-mark x false (written_to c1 wire')),
                  ground arith,
                ),
              )
              | inr g ↦ absurd (ground arith)
            ]
          ]
        ]
      ]
    ]
  ]

  Exchange-round :
      (c : NamenodeConnection) (wire wire' : Wire) (method : String) (req resp : proto.Message)
      (c' : NamenodeConnection) (m : proto.Message)
      → write_request net c wire method req ≡ ok wire'
      → read_response net c wire' resp ≡ ok m
      → c' ≡ written_to c wire'
      → Exchange c method req resp c' m
  Exchange-round c wire wire' method req resp c' m wrote got end =
      let (packet, made, accepted, wire_is) = write_request_inv c wire wire' method req wrote in
      let (header, rest, read_back, id, success) = read_response_inv c wire' resp m got in
      let kept : wire'.incoming ≡ wire.incoming = ap (λ (u : Wire). u.incoming) wire_is in
      let opened : (written_to c wire').conn
          ≡ some (record wire' { incoming = behind_packet wire'.incoming }) =
        ground arith in
      record {
        before = wire;
        packet = packet;
        header = header;
        rest = rest;
        request = made;
        accepted = accepted;
        response = rw kept at read_back;
        same_id = id;
        success = success;
        still_open =
            ap (λ (d : NamenodeConnection). d.conn) end
            ∙ opened
            ∙ ap (λ (u : Wire). some (record u { incoming = behind_packet u.incoming })) wire_is;
        same_call = rw end (IsSameCall-written c wire');
      }

  loop_answered :
      (fuel : ℕ) (c : NamenodeConnection) (method : String) (req resp : proto.Message)
      (c' : NamenodeConnection) (m : proto.Message)
      → execute_loop net fuel c method req resp ≡ answered c' m
      → Exchange c method req resp c' m
  unfolding execute_loop
  loop_answered zero c method req resp c' m h = absurd (ground arith)
  loop_answered (suc fuel) c method req resp c' m h =
      let (c1, e, next) = round_inv fuel c method req resp c' m h in
      let resolved = IsSameCall-resolve c c1 none e in
      elim next [
        | inl (c2, same, again) ↦
            Exchange-earlier (IsSameCall-trans resolved same)
              (loop_answered fuel c2 method req resp c' m again)
        | inr (wire, wire', open_wire, wrote, got, end) ↦
            Exchange-earlier resolved
              (Exchange-round c1 wire wire' method req resp c' m wrote got end)
      ]

  -- `Execute` that answers has had an exchange with a namenode under the next call id.
  pub execute-answered :
      (fuel : ℕ) (c : NamenodeConnection) (method : String) (req resp : proto.Message)
      (c' : NamenodeConnection) (m : proto.Message)
      → execute net fuel c method req resp ≡ answered c' m
      → Exchange
          (record c { current_request_id = (c.current_request_id + 1) % 2 ^ 32 })
          method
          req
          resp
          c'
          m
  unfolding execute
  execute-answered fuel c method req resp c' m h =
      loop_answered fuel (record c { current_request_id = (c.current_request_id + 1) % 2 ^ 32 })
        method req resp c' m h
