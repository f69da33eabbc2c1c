-- ===== src/Rpc/Kerberos.antt =====
-- internal/rpc/kerberos.go, and the handshake of internal/rpc/namenode.go for a client with Kerberos.
pub mod Handshake
use hdfs.Rpc.Framing.{make_rpc_packet}
use hdfs.Prelude.Errors.{panic, Error, ◌>>=◌, ok, err, Result}
use hdfs.Rpc.Namenode.{
  effective_user, handshake_call_id, behind_packet, read_response, send, current_host,
  NamenodeConnection, Wire, Network,
}
use hdfs.Prelude.{
  ◌||◌, ◌⊎◌, ◌&&◌, ◌==◌, ltb, List, Option, String, Bytes, Bool, ℕ, ◌+◌, ◌-◌, ◌^◌, ◌++◌, [], ◌∷◌,
  inl, inr, if◌then◌else◌, none, some, true, false,
}
use Prim.Native.String.{len, slice, ◌++◌ as ◌<>◌}
use text.Mathlib.Text.{◌==◌ as str_eq, starts_with, find?}

-- -33, in the 32 bits of an int32.
abbrev pub sasl_rpc_call_id : ℕ
sasl_rpc_call_id = 2 ^ 32 - 33

-- `RpcSaslProto_SaslState`, in the values that the code names.
pub data SaslState : Type 0 where
  negotiate initiate challenge response success : SaslState
  unknown : ℕ → SaslState

abbrev pub same_state : SaslState → SaslState → Bool
same_state SaslState.negotiate SaslState.negotiate = true
same_state SaslState.initiate SaslState.initiate = true
same_state SaslState.challenge SaslState.challenge = true
same_state SaslState.response SaslState.response = true
same_state SaslState.success SaslState.success = true
same_state (SaslState.unknown a) (SaslState.unknown b) = a == b
same_state a b = false

-- What the handshake uses of the generated messages, of gokrb5 and of package net. `sasl_message` makes
-- a message of a state, a token and the mechanisms. An `EncryptionKey` and a `WrapToken` are the
-- library's; `verify_check_sum` is given the token and the key.
pub record Sasl (Message : Type 0) : Type 1 where
  pub Mechanism : Type 0
  pub Ticket : Type 0
  pub EncryptionKey : Type 0
  pub WrapToken : Type 0
  pub sasl_message : SaslState → Bytes → List Mechanism → Message
  pub sasl_response : Message
  pub state_of : Message → SaslState
  pub auths : Message → List Mechanism
  pub token_of : Message → Bytes
  pub method : Mechanism → String
  pub service_principle_name : String
  pub get_service_ticket : String → (Ticket × EncryptionKey) ⊎ Error
  pub new_neg_token : Ticket → EncryptionKey → Result Bytes
  pub unmarshal_token : Bytes → Result WrapToken
  pub verify_check_sum : WrapToken → EncryptionKey → Option Error
  pub payload : WrapToken → Bytes
  pub sign : Bytes → EncryptionKey → Result Bytes
  pub split_host : String → String

-- The loop over the mechanisms: the last one for Kerberos.
unfoldable pub kerberos_mechanism : {M : Type 0} → (M → String) → List M → Option M → Option M
kerberos_mechanism method [] mechanism = mechanism
kerberos_mechanism method (m ∷ ms) mechanism =
    kerberos_mechanism method ms (if str_eq (method m) "KERBEROS" then some m else mechanism)

-- `replaceSPNHostWildcard`. What the expression finds is "_HOST" behind the first slash, which is not
-- the first character, and in front of an at, a slash or the end.
unfoldable pub replace_spn_host_wildcard : String → String → String
replace_spn_host_wildcard spn host = elim (find? spn "/") [
  | none ↦ spn
  | some slash ↦
      let from = slash + 1 in
      let to = slash + 6 in
      let next = slice spn to (to + 1) in
      if ltb 0 slash
        && (str_eq (slice spn from to) "_HOST"
            && (str_eq next "@" || (str_eq next "/" || (len spn == to))))
      then slice spn 0 from <> host <> slice spn to (len spn)
      else spn
]

module _ (net : Network) (sasl : Sasl net.proto.Message) where
  open net use {proto, request_header, connection_context}
  open sasl use {
    Mechanism, EncryptionKey, WrapToken, sasl_message, sasl_response, state_of, auths, token_of,
    method, service_principle_name, get_service_ticket, new_neg_token, unmarshal_token,
    verify_check_sum, payload, sign, split_host,
  }

  unfoldable pub write_sasl_request : NamenodeConnection → Wire → proto.Message → Result Wire
  write_sasl_request c wire req = do
    packet ← make_rpc_packet proto (request_header sasl_rpc_call_id c.client_id ∷ req ∷ [])
    send wire packet

  -- The response, and the connection behind it.
  unfoldable pub read_sasl_response :
      NamenodeConnection → Wire → SaslState → Result (proto.Message × Wire)
  read_sasl_response c wire expected = do
    resp ← read_response net c wire sasl_response
    if same_state (state_of resp) expected
        then ok (resp, record wire { incoming = behind_packet wire.incoming })
        else err (Error.unexpected_sasl_state)

  -- `getKerberosTicket`
  unfoldable pub get_kerberos_ticket : NamenodeConnection → Result (Bytes × EncryptionKey)
  get_kerberos_ticket c =
      let address : String = elim (current_host c) [ none ↦ "" | some h ↦ h.address ] in
      let spn = replace_spn_host_wildcard service_principle_name (split_host address) in
      elim (get_service_ticket spn) [
        | inr e ↦ err e
        | inl (ticket, key) ↦ new_neg_token ticket key >>= λ token. ok (token, key)
      ]

  -- The first request: its error is not looked at.
  abbrev pub sent_or_not : Wire → Result Wire → Result Wire
  sent_or_not wire (ok wire') = ok wire'
  sent_or_not wire (err e) = ok wire
  sent_or_not wire panic = panic

  abbrev pub verified : WrapToken → EncryptionKey → Result (Unit {0})
  verified token key = elim (verify_check_sum token key) [ none ↦ ok tt | some e ↦ err e ]

  abbrev pub found_mechanism : Option Mechanism → Result Mechanism
  found_mechanism none = err (Error.kerberos_not_supported)
  found_mechanism (some m) = ok m

  -- The end of `doKerberosHandshake`: the token of the challenge is verified, and its payload signed.
  unfoldable pub respond : NamenodeConnection → EncryptionKey → proto.Message → Wire → Result Wire
  respond c key challenged wire4 = do
    server_token ← unmarshal_token (token_of challenged)
    _ ← verified server_token key
    signed ← sign (payload server_token) key
    wire5 ← write_sasl_request c wire4 (sasl_message SaslState.response signed [])
    (_, wire6) ← read_sasl_response c wire5 SaslState.success
    ok wire6

  -- `doKerberosHandshake`, for which `currentRequestID` is that of all requests.
  unfoldable pub do_kerberos_handshake : NamenodeConnection → Wire → Result Wire
  do_kerberos_handshake conn wire = do
    let c = record conn { current_request_id = sasl_rpc_call_id }
    wire1 ← sent_or_not wire (write_sasl_request c wire (sasl_message SaslState.negotiate [] []))
    (offer, wire2) ← read_sasl_response c wire1 SaslState.negotiate
    mechanism ← found_mechanism (kerberos_mechanism method (auths offer) none)
    (token, key) ← get_kerberos_ticket c
    wire3 ← write_sasl_request c wire2 (sasl_message SaslState.initiate token (mechanism ∷ []))
    (challenged, wire4) ← read_sasl_response c wire3 SaslState.challenge
    respond c key challenged wire4

  -- "hrpc", the version, the service class and SASL.
  abbrev pub sasl_rpc_header : Bytes
  sasl_rpc_header = 0x68 ∷ 0x72 ∷ 0x70 ∷ 0x63 ∷ 0x09 ∷ 0x0 ∷ 0xdf ∷ []

  -- `doNamenodeHandshake`: the connection counts its calls from 0 again.
  unfoldable pub do_kerberized_handshake :
      NamenodeConnection → Wire → Result (NamenodeConnection × Wire)
  do_kerberized_handshake c wire = do
    wire1 ← send wire sasl_rpc_header
    wire2 ← do_kerberos_handshake c wire1
    packet ← make_rpc_packet proto (
        request_header handshake_call_id c.client_id
        ∷ connection_context (effective_user c.user c.kerberos_realm)
        ∷ [])
    wire3 ← send wire2 packet
    ok (record c { current_request_id = 0 }, wire3)
