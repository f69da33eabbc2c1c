-- ===== src/Rpc/Kerberos/Handshake.antt =====
-- What a handshake that succeeds has exchanged.
use hdfs.Rpc.Framing.{make_rpc_packet}
use hdfs.Prelude.Errors.{chain_of_ok, Result-cases, ok}
use hdfs.Rpc.Kerberos.{
  respond, verified, found_mechanism, get_kerberos_ticket, str_eq, sasl_rpc_call_id,
  kerberos_mechanism, sent_or_not, do_kerberos_handshake, write_sasl_request, same_state, SaslState,
  read_sasl_response, Sasl,
}
use hdfs.Rpc.Namenode.{send, behind_packet, read_response, Wire, NamenodeConnection, Network}
use hdfs.Prelude.{
  subst, Option-cases, ap, sym, ◌∙◌, Bool-cases, Option, ◌⊎◌, Bytes, List, arith, ◌≡◌, [], ◌∷◌,
  ◌++◌, inl, inr, none, some, true,
}

module _ (net : Network) (sasl : Sasl net.proto.Message) where
  open net use {proto, request_header}
  open sasl use {
    Mechanism, EncryptionKey, WrapToken, sasl_message, sasl_response, state_of, auths, token_of,
    method, service_principle_name, get_service_ticket, new_neg_token, unmarshal_token,
    verify_check_sum, payload, sign, split_host,
  }

  -- A message of the server for a connection, which is read behind it.
  abbrev pub Receives : NamenodeConnection → Wire → SaslState → proto.Message → Wire → Type 0
  Receives c wire state m wire' =
      (read_response net c wire sasl_response ≡ ok m)
      × (same_state (state_of m) state ≡ true)
      × (wire' ≡ record wire { incoming = behind_packet wire.incoming })

  read_sasl_response-Receives :
      (c : NamenodeConnection) (wire wire' : Wire) (state : SaslState) (m : proto.Message)
      → read_sasl_response net sasl c wire state ≡ ok (m, wire')
      → Receives c wire state m wire'
  unfolding read_sasl_response
  read_sasl_response-Receives c wire wire' state m h = ground arith

  -- A request of the client, which is written whole.
  abbrev pub Sends : NamenodeConnection → Wire → proto.Message → Bytes → Wire → Type 0
  Sends c wire req packet wire' =
      (make_rpc_packet proto (request_header sasl_rpc_call_id c.client_id ∷ req ∷ []) ≡ ok packet)
      × (wire' ≡ record wire { written = wire.written ++ packet })

  write_sasl_request-Sends :
      (c : NamenodeConnection) (wire wire' : Wire) (req : proto.Message)
      → write_sasl_request net sasl c wire req ≡ ok wire'
      → (packet : Bytes) × Sends c wire req packet wire'
  unfolding write_sasl_request send
  write_sasl_request-Sends c wire wire' req h =
      let (packet, made, sent) =
        chain_of_ok (make_rpc_packet proto (request_header sasl_rpc_call_id c.client_id ∷ req ∷ []))
          (send wire) h in
      (packet, (made, ground arith))

  abbrev pub IsAmong : Mechanism → List Mechanism → Type 0
  IsAmong m [] = ⊥
  IsAmong m (x ∷ xs) = (x ≡ m) ⊎ IsAmong m xs

  kerberos_mechanism_lem :
      (ms : List Mechanism) (before : Option Mechanism) (m : Mechanism)
      → kerberos_mechanism method ms before ≡ some m
      → (before ≡ some m) ⊎ (IsAmong m ms × (str_eq (method m) "KERBEROS" ≡ true))
  unfolding kerberos_mechanism
  kerberos_mechanism_lem [] before m h = inl h
  kerberos_mechanism_lem (x ∷ ms) before m h = elim (kerberos_mechanism_lem ms _ m h) [
    | inr (among, k) ↦ inr (inr among, k)
    | inl e ↦ elim (Bool-cases (str_eq (method x) "KERBEROS")) [
      | inl is ↦ let same : x ≡ m = ground arith in inr (inl same, rw (sym same) is)
      | inr other ↦ inl (ground arith)
    ]
  ]

  -- The first request, which may have failed to be written.
  abbrev pub Starts : NamenodeConnection → Wire → Wire → Type 0
  Starts c wire wire' =
      (wire' ≡ wire)
      ⊎ ((packet : Bytes) × Sends c wire (sasl_message SaslState.negotiate [] []) packet wire')

  starts_lem :
      (c : NamenodeConnection) (wire wire' : Wire)
      → sent_or_not net sasl wire
          (write_sasl_request net sasl c wire (sasl_message SaslState.negotiate [] []))
        ≡ ok wire'
      → Starts c wire wire'
  starts_lem c wire wire' h =
      elim (Result-cases
        (write_sasl_request net sasl c wire (sasl_message SaslState.negotiate [] []))) [
          | inl (w, k) ↦
              let same : w ≡ wire' = ground arith in
              inr (write_sasl_request-Sends c wire wire' _ (k ∙ ap (λ x. ok x) same))
          | inr (inl (e, k)) ↦ inl (ground arith)
          | inr (inr k) ↦ absurd (ground arith)
        ]

  mechanism_found :
      (ms : List Mechanism) (m : Mechanism)
      → found_mechanism net sasl (kerberos_mechanism method ms none) ≡ ok m
      → IsAmong m ms × (str_eq (method m) "KERBEROS" ≡ true)
  mechanism_found ms m h = elim (Option-cases (kerberos_mechanism method ms none)) [
    | inl k ↦ absurd (ground arith)
    | inr (x, k) ↦
        elim (kerberos_mechanism_lem ms none m
          (let same : kerberos_mechanism method ms none ≡ some m = ground arith in same)) [
            | inl never ↦ absurd (ground arith)
            | inr found ↦ found
          ]
  ]

  checked_lem :
      (token : WrapToken) (key : EncryptionKey)
      → verified net sasl token key ≡ ok tt
      → verify_check_sum token key ≡ none
  checked_lem token key h = ground arith

  same_wire : (a b : Wire) → ok a ≡ ok b → a ≡ b
  same_wire a b h = cc

  -- What follows a challenge: its token has a checksum that is right under the key, its payload is signed
  -- with the key and sent, and the namenode answers that this is a success.
  pub record Responds (c : NamenodeConnection) (key : EncryptionKey) (challenged : proto.Message)
      (wire end : Wire) : Type 0 where
    pub server_token : WrapToken
    pub signed : Bytes
    pub packet : Bytes
    pub after : Wire
    pub last : proto.Message
    pub opens : unmarshal_token (token_of challenged) ≡ ok server_token
    pub verifies : verify_check_sum server_token key ≡ none
    pub signs : sign (payload server_token) key ≡ ok signed
    pub answers : Sends c wire (sasl_message SaslState.response signed []) packet after
    pub succeeds : Receives c after SaslState.success last end

  respond-Responds :
      (c : NamenodeConnection) (key : EncryptionKey) (challenged : proto.Message) (wire end : Wire)
      → respond net sasl c key challenged wire ≡ ok end
      → Responds c key challenged wire end
  unfolding respond
  respond-Responds c key challenged wire end h =
      let (server_token, opens, h1) = chain_of_ok (unmarshal_token (token_of challenged)) _ h in
      let (_, checked, h2) = chain_of_ok (verified net sasl server_token key) _ h1 in
      let (signed, signs, h3) = chain_of_ok (sign (payload server_token) key) _ h2 in
      let (after, sent, h4) =
        chain_of_ok (write_sasl_request net sasl c wire (sasl_message SaslState.response signed []))
          _ h3 in
      let ((last, end'), received, h5) =
        chain_of_ok (read_sasl_response net sasl c after SaslState.success) _ h4 in
      let (packet, answers) = write_sasl_request-Sends c wire after _ sent in
      record {
        server_token = server_token;
        signed = signed;
        packet = packet;
        after = after;
        last = last;
        opens = opens;
        verifies = checked_lem server_token key checked;
        signs = signs;
        answers = answers;
        succeeds =
            subst (Receives c after SaslState.success last) (same_wire end' end h5)
              (read_sasl_response-Receives c after end' SaslState.success last received);
      }

  -- An exchange in which both sides have shown that they have the session key of a ticket for the
  -- namenode.
  pub record Authenticates (c : NamenodeConnection) (wire end : Wire) : Type 0 where
    pub wire1 : Wire
    pub wire2 : Wire
    pub wire3 : Wire
    pub wire4 : Wire
    pub offer : proto.Message
    pub challenged : proto.Message
    pub mechanism : Mechanism
    pub token : Bytes
    pub key : EncryptionKey
    pub packet : Bytes
    pub starts : Starts c wire wire1
    pub offered : Receives c wire1 SaslState.negotiate offer wire2
    pub among : IsAmong mechanism (auths offer)
    pub is_kerberos : str_eq (method mechanism) "KERBEROS" ≡ true
    pub ticket : get_kerberos_ticket net sasl c ≡ ok (token, key)
    pub initiates :
        Sends c wire2 (sasl_message SaslState.initiate token (mechanism ∷ [])) packet wire3
    pub challenges : Receives c wire3 SaslState.challenge challenged wire4
    pub responds : Responds c key challenged wire4 end

  -- A Kerberos handshake that reports no error has gone through all of the exchange, under the call id
  -- of SASL: the namenode offered Kerberos; it was sent the token of a ticket for it; the token
  -- that it sent back has a checksum that is right under the session key, with which its payload
  -- was signed and sent; and it answered that this was a success.
  pub do_kerberos_handshake-Authenticates :
      (conn : NamenodeConnection) (wire end : Wire)
      → do_kerberos_handshake net sasl conn wire ≡ ok end
      → Authenticates (record conn { current_request_id = sasl_rpc_call_id }) wire end
  unfolding do_kerberos_handshake
  do_kerberos_handshake-Authenticates conn wire end h =
      let c : NamenodeConnection = record conn { current_request_id = sasl_rpc_call_id } in
      let (wire1, first, h1) =
        chain_of_ok
          (sent_or_not net sasl wire
            (write_sasl_request net sasl c wire (sasl_message SaslState.negotiate [] [])))
          _ h in
      let ((offer, wire2), second, h2) =
        chain_of_ok (read_sasl_response net sasl c wire1 SaslState.negotiate) _ h1 in
      let (mechanism, found, h3) =
        chain_of_ok (found_mechanism net sasl (kerberos_mechanism method (auths offer) none)) _
          h2 in
      let ((token, key), ticket, h4) = chain_of_ok (get_kerberos_ticket net sasl c) _ h3 in
      let (wire3, third, h5) =
        chain_of_ok
          (write_sasl_request net sasl c wire2
            (sasl_message SaslState.initiate token (mechanism ∷ [])))
          _ h4 in
      let ((challenged, wire4), fourth, h6) =
        chain_of_ok (read_sasl_response net sasl c wire3 SaslState.challenge) _ h5 in
      let (packet, initiates) = write_sasl_request-Sends c wire2 wire3 _ third in
      let (among, is_kerberos) = mechanism_found (auths offer) mechanism found in
      record {
        wire1 = wire1;
        wire2 = wire2;
        wire3 = wire3;
        wire4 = wire4;
        offer = offer;
        challenged = challenged;
        mechanism = mechanism;
        token = token;
        key = key;
        packet = packet;
        starts = starts_lem c wire wire1 first;
        offered = read_sasl_response-Receives c wire1 wire2 SaslState.negotiate offer second;
        among = among;
        is_kerberos = is_kerberos;
        ticket = ticket;
        initiates = initiates;
        challenges =
            read_sasl_response-Receives c wire3 wire4 SaslState.challenge challenged fourth;
        responds = respond-Responds c key challenged wire4 end h6;
      }
