-- ===== src/Examples/Network.antt =====
-- Runs of calls to a namenode, and of the readers of a block.
use hdfs.Prelude.{
  ◌%◌, ◌^◌, drop, replicate, ℕ, ◌+◌, ◌≡◌, refl, ◌⊎◌, inl, inr, true, false, none, some, List, [],
  ◌∷◌, ◌++◌, Bytes, length, arith,
}
use hdfs.Prelude.Errors.{Error, ok, err}
use hdfs.Rpc.Varint.{put_uvarint, uvarint}
use hdfs.Rpc.Namenode.Retries.{IsDead, execute_unfinished}
use hdfs.Rpc.Namenode.Hosts.{AllRefuse, OneConnects, resolve_connection_ends}
use hdfs.Rpc.Datatransfer.{LocatedBlock}
use hdfs.Rpc.Reading.{ReadProtocol, Datanodes, ChecksumType}
use hdfs.Rpc.ChecksumReader.{ChecksumReader, read_checksum}
use hdfs.Rpc.ChecksumReader.Answers.{Answers, read_checksum-Answers}
use hdfs.Rpc.Framing.{
  make_rpc_packet, append_messages, make_prefixed_message, read_rpc_packet, read_full, u32_of,
  read_messages, read_message, big_endian_u32,
}
use hdfs.Rpc.Namenode.{
  rpc_header, handshake_call_id, unfinished, failed_at, execute_loop, resolve_connection,
  resolve_loop, do_namenode_handshake, send, write_request, read_response, check_response, Wire,
  NamenodeConnection, Network, answered, execute, new_host,
}
use hdfs.Rpc.Namenode.Calls.{Exchange, execute-answered}

-- Headers are single bytes: the call id. A namenode that answers the first call with 9, and one whose
-- connections are at their end.
abbrev network_of : Bytes → Network
network_of incoming = record {
  proto = record { Message = Bytes; marshal = λ m. ok m; unmarshal = λ t b. ok b };
  request_header = λ id client_id. id ∷ [];
  method_header = λ method. 0 ∷ [];
  connection_context = λ user. 0 ∷ [];
  response_header = [];
  call_id = λ m. elim m [ [] ↦ 0 | id ∷ rest ↦ id ];
  is_success = λ m. true;
  exception = λ m. "";
  dial = λ n address.
      inl (record { conn_write = λ written b. none; written = []; incoming = incoming });
  clock = λ n. 10000000000;
}

abbrev living : Network
living = network_of (0 ∷ 0 ∷ 0 ∷ 4 ∷ 1 ∷ 1 ∷ 1 ∷ 9 ∷ [])

abbrev client : NamenodeConnection
client = record {
  client_id = [];
  user = "me";
  kerberos_realm = "";
  current_request_id = 0;
  conn = none;
  host = none;
  host_list = new_host "nn" ∷ [];
  dials = 0;
  ticks = 0;
}

abbrev connected : NamenodeConnection
connected = record client {
  current_request_id = 1;
  conn = some (record {
    conn_write = λ written b. none;
    written =
        rpc_header
        ++ (0 ∷ 0 ∷ 0 ∷ 4 ∷ 1 ∷ handshake_call_id ∷ 1 ∷ 0 ∷ [])
        ++ (0 ∷ 0 ∷ 0 ∷ 6 ∷ 1 ∷ 1 ∷ 1 ∷ 0 ∷ 1 ∷ 5 ∷ []);
    incoming = [];
  });
  host = some 0;
  dials = 1;
  ticks = 1;
}

execute_run : execute living 1 client "m" (5 ∷ []) [] ≡ answered connected (9 ∷ [])
unfolding execute execute_loop resolve_connection resolve_loop do_namenode_handshake send
    make_rpc_packet append_messages make_prefixed_message write_request read_response
    read_rpc_packet read_full u32_of read_messages read_message uvarint check_response
    big_endian_u32 put_uvarint
execute_run = refl

execute-answered_example :
    Exchange living (record client { current_request_id = 1 }) "m" (5 ∷ []) [] connected (9 ∷ [])
execute-answered_example =
    execute-answered living 1 client "m" (5 ∷ []) [] connected (9 ∷ []) execute_run

abbrev dead : Network
dead = network_of []

append_messages-ok :
    (ms : List Bytes) (packet : Bytes) (len : ℕ)
    → (r : Bytes × ℕ) × (append_messages dead.proto ms packet len ≡ ok r)
unfolding append_messages make_prefixed_message
append_messages-ok [] packet len = ((packet, len), refl)
append_messages-ok (m ∷ ms) packet len =
    append_messages-ok ms (packet ++ (put_uvarint (length m) ++ m))
      (len + length (put_uvarint (length m) ++ m))

dead-IsDead : IsDead dead "nn" 0
unfolding make_rpc_packet
dead-IsDead = record {
  dialled = λ n. (
    record { conn_write = λ written b. none; written = []; incoming = [] },
    refl,
    refl,
    λ b c. refl,
  );
  awake = λ n. omega arith;
  marshals = λ ms.
      let (r, k) = append_messages-ok ms (replicate 4 0) 0 in
      (big_endian_u32 (r.1 % 2 ^ 32) ++ drop 4 r.0, rw k refl);
}

execute_unfinished_example : execute dead 1000 client "m" (5 ∷ []) [] ≡ unfinished
execute_unfinished_example =
    execute_unfinished dead "nn" 0 dead-IsDead 1000 client "m" (5 ∷ []) []
      (record { closed = refl; alone = (new_host "nn", refl, refl, refl) })

abbrev refusing : Network
refusing = record dead { dial = λ n address. inr (Error.transport 1) }

abbrev refused : NamenodeConnection
refused = record client {
  host = some 0;
  host_list = failed_at refusing (Error.transport 1) 10000000000 (new_host "nn") ∷ [];
  dials = 1;
  ticks = 2;
}

resolve_run : resolve_connection refusing client ≡ ok (refused, some Error.no_namenodes)
unfolding resolve_connection resolve_loop
resolve_run = refl

resolve_connection_ends_example :
    ((some Error.no_namenodes ≡ none)
      × ((wire : Wire) × (refused.conn ≡ some wire)
          × OneConnects refusing client 0 0 client.host_list refused.host_list wire))
    ⊎ ((some Error.no_namenodes ≡ some Error.no_namenodes)
        × (refused.conn ≡ none)
        × AllRefuse refusing client 0 0 client.host_list refused.host_list)
resolve_connection_ends_example =
    resolve_connection_ends refusing client refused (some Error.no_namenodes) refl resolve_run

abbrev pub reading : ReadProtocol
reading = record {
  protocol = record {
    proto = record { Message = Bytes; marshal = λ m. ok m; unmarshal = λ t b. ok b };
    op_write_block = λ o. 1 ∷ [];
    new_response = [];
    is_success = λ m. true;
    marshal_header = λ h. inl (1 ∷ 2 ∷ []);
    crc = λ b. length b;
    dial = λ dials address. err (Error.transport 1);
    sprint = λ n. "50010";
  };
  op_read_block = λ o. 1 ∷ [];
  op_block_checksum = λ b token. 1 ∷ [];
  md5 = λ m. m;
  read_info = λ m. record {
    checksum_type = ChecksumType.crc32;
    bytes_per_checksum = 512;
    chunk_offset = 0;
  };
  crc32c_sum = λ b. length b;
  unmarshal_header = λ b. (0, true);
  clock = λ n. 1 + n;
  pooled = λ n k. 0 ∷ [];
}

abbrev pub two_locs : LocatedBlock
two_locs = record {
  b = record { block_id = 7; generation_stamp = 1; num_bytes = 10 };
  offset = 0;
  locs =
      record { ip_addr = "10.0.0.1"; host_name = "dn"; xfer_port = 50010 }
      ∷ record { ip_addr = "10.0.0.2"; host_name = "dm"; xfer_port = 50010 }
      ∷ [];
  block_token = 0;
}

abbrev checksum_reader : ChecksumReader
checksum_reader = record { block = two_locs; use_datanode_hostname = false; datanodes = none }

abbrev pub no_failures : Datanodes
no_failures = record { failures = λ address. none; dials = 0 }

read_checksum-Answers_example :
    Answers reading checksum_reader no_failures (read_checksum reading checksum_reader no_failures)
read_checksum-Answers_example =
    read_checksum-Answers reading checksum_reader no_failures (λ n. ground arith)
      (λ a. ground arith) refl
