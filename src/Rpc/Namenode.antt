-- ===== src/Rpc/Namenode.antt =====
-- internal/rpc/namenode.go, for a client without Kerberos: the connection to one of several namenodes,
-- and calls over it. Call ids are the 32 bits of an int32; times are nanoseconds since Go's zero time.

pub mod Calls
pub mod Retries
pub mod Hosts
use hdfs.Prelude.{
  ◌-◌, ℕ, zero, suc, ◌+◌, ◌%◌, ◌^◌, ◌⊎◌, inl, inr, Bool, true, false, not, Option, none, some, List,
  [], ◌∷◌, ◌++◌, map, Bytes, drop, take, String, ltb, ◌==◌, ◌&&◌, if◌then◌else◌,
}
use hdfs.Prelude.Errors.{is_eof, Error, Result, ok, err, panic, ◌>>=◌}
use hdfs.Rpc.Framing.{Proto, u32_of, make_rpc_packet, read_rpc_packet}
use text.Mathlib.Text.{◌==◌ as str_eq}
use Prim.Native.String.{◌++◌ as ◌<>◌}

abbrev pub backoff_duration : ℕ
backoff_duration = 5000000000

abbrev pub handshake_call_id : ℕ
handshake_call_id = 2 ^ 32 - 3

abbrev pub standby_exception_class : String
standby_exception_class = "org.apache.hadoop.ipc.StandbyException"

-- "hrpc", the version, the service class and no authentication.
abbrev pub rpc_header : Bytes
rpc_header = 0x68 ∷ 0x72 ∷ 0x70 ∷ 0x63 ∷ 0x09 ∷ 0x0 ∷ 0x0 ∷ []

-- A connection: the errors of its writes, what was written, and what the other side sends and has not
-- been read.
pub record Wire : Type 0 where
  pub conn_write : Bytes → Bytes → Option Error
  pub written : Bytes
  pub incoming : Bytes

-- `namenodeHost`
pub record Host : Type 0 where
  pub address : String
  pub last_error : Option Error
  pub last_error_at : ℕ
  pub write_error : Bool

-- The connection with the index of its host. `dials` and `ticks` count the dials and the looks at the
-- clock so far.
pub record NamenodeConnection : Type 0 where
  pub client_id : Bytes
  pub user : String
  pub kerberos_realm : String
  pub current_request_id : ℕ
  pub conn : Option Wire
  pub host : Option ℕ
  pub host_list : List Host
  pub dials : ℕ
  pub ticks : ℕ

-- The generated messages and the network. A dial may end differently each time, so it is given the
-- number of dials before it, and the clock the number of looks at it.
pub record Network : Type 1 where
  pub proto : Proto
  pub request_header : ℕ → Bytes → proto.Message
  pub method_header : String → proto.Message
  pub connection_context : String → proto.Message
  pub response_header : proto.Message
  pub call_id : proto.Message → ℕ
  pub is_success : proto.Message → Bool
  pub exception : proto.Message → String
  pub dial : ℕ → String → Wire ⊎ Error
  pub clock : ℕ → ℕ

-- `conn.Write`
unfoldable pub send : Wire → Bytes → Result Wire
send wire b = elim (wire.conn_write wire.written b) [
  | some e ↦ err e
  | none ↦ ok (record wire { written = wire.written ++ b })
]

-- What a read of a packet leaves, also one that fails.
abbrev pub behind_packet : Bytes → Bytes
behind_packet r = drop (4 + u32_of (take 4 r)) r

abbrev pub is_standby : Error → Bool
is_standby (Error.remote exception) = str_eq exception standby_exception_class
is_standby e = false

-- A change of the host at an index.
abbrev pub update_host : (Host → Host) → ℕ → List Host → List Host
update_host f i [] = []
update_host f zero (h ∷ hosts) = f h ∷ hosts
update_host f (suc i) (h ∷ hosts) = h ∷ update_host f i hosts

abbrev pub host_at : ℕ → List Host → Option Host
host_at i [] = none
host_at zero (h ∷ hosts) = some h
host_at (suc i) (h ∷ hosts) = host_at i hosts

abbrev pub current_host : NamenodeConnection → Option Host
current_host c = elim c.host [ none ↦ none | some i ↦ host_at i c.host_list ]

abbrev pub change_host : (Host → Host) → NamenodeConnection → NamenodeConnection
change_host f c = elim c.host [
  | none ↦ c
  | some i ↦ record c { host_list = update_host f i c.host_list }
]

abbrev pub new_host : String → Host
new_host address = record {
  address = address;
  last_error = none;
  last_error_at = 0;
  write_error = false;
}

-- What the loop of `resolveConnection` has come to: the hosts that it has seen, the last one tried with
-- its connection, the last error, the dials and the looks at the clock.
pub record Resolved : Type 0 where
  pub hosts : List Host
  pub host : Option ℕ
  pub conn : Option Wire
  pub error : Option Error
  pub dials : ℕ
  pub ticks : ℕ

-- `newConnectionContext` gives the user a realm if there is one.
abbrev pub effective_user : String → String → String
effective_user user realm = if str_eq realm "" then user else user <> "@" <> realm

-- How a call ends: with the response, with an error, in a panic, or not within its fuel.
pub data Outcome {ℓ} (A : Type ℓ) : Type ℓ where
  answered : NamenodeConnection → A → Outcome A
  failed : NamenodeConnection → Error → Outcome A
  panicked : Outcome A
  unfinished : Outcome A

-- The connection after a request was written and a packet was read: the host has no write error.
abbrev pub written_to : NamenodeConnection → Wire → NamenodeConnection
written_to c wire =
    change_host (λ h. record h { write_error = false })
      (record c { conn = some (record wire { incoming = behind_packet wire.incoming }) })

module _ (net : Network) where
  open net use {
    proto, request_header, method_header, connection_context, response_header, call_id, is_success,
    exception, dial, clock,
  }

  -- `doNamenodeHandshake`
  unfoldable pub do_namenode_handshake : NamenodeConnection → Wire → Result Wire
  do_namenode_handshake c wire = do
    wire' ← send wire rpc_header
    packet ← make_rpc_packet proto (
        request_header handshake_call_id c.client_id
        ∷ connection_context (effective_user c.user c.kerberos_realm)
        ∷ [])
    send wire' packet

  -- `markFailure` on a host, at the time `now`.
  abbrev pub failed_at : Error → ℕ → Host → Host
  failed_at e now h = record h { last_error = some e; last_error_at = now }

  -- `lastErrorAt.After(time.Now().Add(-backoffDuration))`
  abbrev pub is_backing_off : Host → ℕ → Bool
  is_backing_off h now = ltb now (h.last_error_at + backoff_duration)

  -- The loop of `resolveConnection` over the hosts from index `i` on.
  unfoldable pub resolve_loop : NamenodeConnection → ℕ → List Host → Resolved → Result Resolved
  resolve_loop c i [] r = ok r
  resolve_loop c i (h ∷ hosts) r =
      let waits =
        resolve_loop c (i + 1) hosts
          (record r { hosts = r.hosts ++ (h ∷ []); ticks = r.ticks + 1 }) in
      let fails = λ (e : Error). resolve_loop c (i + 1) hosts (record {
        hosts = r.hosts ++ (failed_at e (clock (r.ticks + 1)) h ∷ []);
        host = some i;
        conn = none;
        error = some e;
        dials = r.dials + 1;
        ticks = r.ticks + 2;
      }) in
      if is_backing_off h (clock r.ticks) then waits else elim (dial r.dials h.address) [
        | inr e ↦ fails e
        | inl wire ↦ elim (do_namenode_handshake c wire) [
          | panic ↦ panic
          | err e ↦ fails e
          | ok wire' ↦ ok (record {
            hosts = r.hosts ++ (h ∷ hosts);
            host = some i;
            conn = some wire';
            error = none;
            dials = r.dials + 1;
            ticks = r.ticks + 1;
          })
        ]
      ]

  -- `resolveConnection`. Its error wraps the last one.
  unfoldable pub resolve_connection :
      NamenodeConnection → Result (NamenodeConnection × Option Error)
  resolve_connection c = elim c.conn [
    | some wire ↦ ok (c, none)
    | none ↦
        resolve_loop c 0 c.host_list (record {
          hosts = [];
          host = c.host;
          conn = none;
          error = elim (current_host c) [ none ↦ none | some h ↦ h.last_error ];
          dials = c.dials;
          ticks = c.ticks;
        })
        >>= λ r. ok (
          record c {
            conn = r.conn;
            host = r.host;
            host_list = r.hosts;
            dials = r.dials;
            ticks = r.ticks;
          },
          elim r.conn [ none ↦ some Error.no_namenodes | some wire ↦ none ],
        )
  ]

  -- `markFailureLow`
  unfoldable pub mark_failure_low : Error → Bool → NamenodeConnection → NamenodeConnection
  mark_failure_low e rw_error c =
      let closed : NamenodeConnection = record c { conn = none } in
      elim (current_host c) [
        | none ↦ closed
        | some h ↦
            if rw_error && not h.write_error
            then change_host (λ h. record h { write_error = true }) closed
            else record (change_host (failed_at e (clock c.ticks)) closed) { ticks = c.ticks + 1 }
      ]

  unfoldable pub mark_failure : Error → NamenodeConnection → NamenodeConnection
  mark_failure e c = mark_failure_low e false c

  unfoldable pub mark_transient_failure : Error → NamenodeConnection → NamenodeConnection
  mark_transient_failure e c = mark_failure_low e true c

  -- `writeRequest`
  unfoldable pub write_request : NamenodeConnection → Wire → String → proto.Message → Result Wire
  write_request c wire method req = do
    packet ←
        make_rpc_packet proto
          (request_header c.current_request_id c.client_id ∷ method_header method ∷ req ∷ [])
    send wire packet

  -- What `readResponse` makes of the two messages.
  unfoldable pub check_response : ℕ → List proto.Message → Result proto.Message
  check_response id (header ∷ resp ∷ []) =
      if not (call_id header == id)
      then err Error.unexpected_sequence
      else if not (is_success header)
      then err (Error.remote (exception header))
      else ok resp
  check_response id messages = panic

  -- `readResponse`
  unfoldable pub read_response : NamenodeConnection → Wire → proto.Message → Result proto.Message
  read_response c wire resp =
      read_rpc_packet proto wire.incoming (response_header ∷ resp ∷ []) >>= λ r.
      check_response c.current_request_id r.0

  -- `Execute` with the connection it may retry on. A call that goes on for more than `fuel` rounds is
  -- `unfinished`.
  unfoldable pub execute_loop :
      ℕ → NamenodeConnection → String → proto.Message → proto.Message → Outcome proto.Message
  execute_loop zero c method req resp = unfinished
  execute_loop (suc fuel) c method req resp = elim (resolve_connection c) [
    | panic ↦ panicked
    | err e ↦ failed c e
    | ok (c1, e) ↦ elim e [
      | some e ↦ failed c1 e
      | none ↦ elim c1.conn [
        | none ↦ panicked
        | some wire ↦ elim (write_request c1 wire method req) [
          | panic ↦ panicked
          | err e ↦ execute_loop fuel (mark_transient_failure e c1) method req resp
          | ok wire' ↦ elim (read_response c1 wire' resp) [
            | panic ↦ panicked
            | ok m ↦ answered (written_to c1 wire') m
            | err e ↦
                let lost =
                  execute_loop fuel (mark_transient_failure e (written_to c1 wire')) method req
                    resp in
                let standby =
                  execute_loop fuel (mark_failure e (written_to c1 wire')) method req resp in
                if is_eof e
                then lost
                else if is_standby e
                then standby
                else failed (written_to c1 wire') e
          ]
        ]
      ]
    ]
  ]

  -- `Execute`
  unfoldable pub execute :
      ℕ → NamenodeConnection → String → proto.Message → proto.Message → Outcome proto.Message
  execute fuel c method req resp =
      execute_loop fuel (record c { current_request_id = (c.current_request_id + 1) % 2 ^ 32 })
        method req resp

  -- `NewNamenodeConnection` for a user, with the client id that `newClientID` has made.
  unfoldable pub new_namenode_connection : List String → String → Bytes → Result NamenodeConnection
  new_namenode_connection addresses user client_id =
      let c : NamenodeConnection = record {
        client_id = client_id;
        user = user;
        kerberos_realm = "";
        current_request_id = 0;
        conn = none;
        host = none;
        host_list = map new_host addresses;
        dials = 0;
        ticks = 0;
      } in
      if str_eq user ""
      then err Error.user_not_specified
      else resolve_connection c >>= λ r. elim r.1 [ some e ↦ err e | none ↦ ok r.0 ]
