-- ===== src/Examples/Kerberos.antt =====
-- A run of the Kerberos handshake.
use hdfs.Prelude.Errors.{Error, ok}
use hdfs.Rpc.Kerberos.Handshake.{do_kerberos_handshake-Authenticates, Authenticates}
use hdfs.Rpc.Namenode.{Network, Wire, NamenodeConnection}
use hdfs.Rpc.Kerberos.{
  sasl_rpc_call_id, do_kerberos_handshake, replace_spn_host_wildcard, SaslState, Sasl,
}
use text.Mathlib.Text.{◌==◌ as str_eq}
use hdfs.Rpc.Kerberos.{
  write_sasl_request, read_sasl_response, get_kerberos_ticket, kerberos_mechanism, respond,
}
use hdfs.Rpc.Framing.{
  make_rpc_packet, append_messages, make_prefixed_message, read_rpc_packet, read_full, u32_of,
  read_messages, read_message, big_endian_u32,
}
use hdfs.Rpc.Namenode.{send, read_response, check_response}
use hdfs.Rpc.Varint.{uvarint, put_uvarint}
use hdfs.Prelude.{inr, true, ◌==◌, ℕ, String, Bytes, [], ◌∷◌, none, inl, refl, if◌then◌else◌, ◌≡◌}

-- Messages are their own bytes: the first one of a SASL message is its state.
abbrev state_number : ℕ → SaslState
state_number n =
    if n == 1
    then SaslState.negotiate
    else if n == 2
    then SaslState.challenge
    else if n == 3
    then SaslState.success
    else SaslState.unknown n

abbrev sasl_network : Network
sasl_network = record {
  proto = record { Message = Bytes; marshal = λ m. ok m; unmarshal = λ t b. ok b };
  request_header = λ id client_id. 7 ∷ [];
  method_header = λ method. 0 ∷ [];
  connection_context = λ user. 0 ∷ [];
  response_header = [];
  call_id = λ m. sasl_rpc_call_id;
  is_success = λ m. true;
  exception = λ m. "";
  dial = λ n address. inr Error.eof;
  clock = λ n. 0;
}

abbrev sasl : Sasl Bytes
sasl = record {
  Mechanism = String;
  Ticket = String;
  EncryptionKey = ℕ;
  WrapToken = Bytes;
  sasl_message = λ state token mechanisms. 9 ∷ token;
  sasl_response = [];
  state_of = λ m. elim m [ [] ↦ SaslState.unknown 0 | n ∷ rest ↦ state_number n ];
  auths = λ m. "TOKEN" ∷ "KERBEROS" ∷ [];
  token_of = λ m. 5 ∷ [];
  method = λ m. m;
  service_principle_name = "nn/_HOST@EXAMPLE.COM";
  get_service_ticket =
      λ spn. if str_eq spn "nn/host@EXAMPLE.COM" then inl (spn, 42) else inr Error.eof;
  new_neg_token = λ ticket key. ok (key ∷ []);
  unmarshal_token = λ b. ok b;
  verify_check_sum = λ token key. none;
  payload = λ token. token;
  sign = λ b key. ok (key ∷ b);
  split_host = λ address. "host";
}

abbrev sasl_client : NamenodeConnection
sasl_client = record {
  client_id = [];
  user = "me";
  kerberos_realm = "";
  current_request_id = 4;
  conn = none;
  host = none;
  host_list = [];
  dials = 0;
  ticks = 0;
}

-- The namenode's three answers.
abbrev answering : Wire
answering = record {
  conn_write = λ written b. none;
  written = [];
  incoming =
      0 ∷ 0 ∷ 0 ∷ 4 ∷ 1 ∷ 0 ∷ 1 ∷ 1 ∷ 0 ∷ 0 ∷ 0 ∷ 4 ∷ 1 ∷ 0 ∷ 1 ∷ 2 ∷ 0 ∷ 0 ∷ 0 ∷ 4 ∷ 1 ∷ 0 ∷ 1 ∷ 3
      ∷ [];
}

-- What was written: three packets of a header and a message.
abbrev answered : Wire
answered = record answering {
  written =
      0 ∷ 0 ∷ 0 ∷ 4 ∷ 1 ∷ 7 ∷ 1 ∷ 9 ∷ 0 ∷ 0 ∷ 0 ∷ 5 ∷ 1 ∷ 7 ∷ 2 ∷ 9 ∷ 42 ∷ 0 ∷ 0 ∷ 0 ∷ 6 ∷ 1 ∷ 7 ∷ 3
      ∷ 9 ∷ 42 ∷ 5 ∷ [];
  incoming = [];
}

do_kerberos_handshake-Authenticates_example :
    Authenticates sasl_network sasl
      (record sasl_client { current_request_id = sasl_rpc_call_id })
      answering
      answered
unfolding do_kerberos_handshake write_sasl_request make_rpc_packet append_messages
    make_prefixed_message send read_sasl_response read_response read_rpc_packet read_full u32_of
    read_messages read_message uvarint check_response get_kerberos_ticket kerberos_mechanism
    replace_spn_host_wildcard respond big_endian_u32 put_uvarint
do_kerberos_handshake-Authenticates_example =
    do_kerberos_handshake-Authenticates sasl_network sasl sasl_client answering answered refl

wildcard_at_end : replace_spn_host_wildcard "nn/_HOST" "host" ≡ "nn/host"
unfolding replace_spn_host_wildcard
wildcard_at_end = refl

no_wildcard : replace_spn_host_wildcard "nn/_HOSTS" "host" ≡ "nn/_HOSTS"
unfolding replace_spn_host_wildcard
no_wildcard = refl
