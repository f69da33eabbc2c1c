-- ===== src/Examples/Framing.antt =====
-- Runs of internal/rpc/rpc.go with a protobuf library whose messages are their own bytes.
use hdfs.Prelude.{◌≡◌, refl, List, [], ◌∷◌, ◌++◌, Bytes, All, arith}
use hdfs.Prelude.Errors.{ok, panic}
use hdfs.Rpc.Framing.{
  Proto, big_endian_u32, make_rpc_packet, read_rpc_packet, make_prefixed_message,
  read_prefixed_message,
}
use hdfs.Rpc.Framing.RoundTrip.{
  Sent, IsExchange, templates, messages, framed, read_rpc_packet-make_rpc_packet,
  read_prefixed_message-make,
}
use hdfs.Rpc.Framing.Malformed.{read_prefixed_message_short_read, read_rpc_packet_overlong}
use hdfs.Rpc.Varint.{put_uvarint}

abbrev raw : Proto
raw = record { Message = Bytes; marshal = λ m. ok m; unmarshal = λ t b. ok b }

abbrev exchanges : List (Sent raw)
exchanges = ([], 7 ∷ 8 ∷ 9 ∷ [], 7 ∷ 8 ∷ 9 ∷ []) ∷ ([], [], []) ∷ []

exchanges-IsExchange : All (IsExchange raw) exchanges
exchanges-IsExchange = (
  record { sent = refl; parsed = refl; fresh = λ e. absurd (omega arith); fits = omega arith },
  (record { sent = refl; parsed = refl; fresh = λ e. refl; fits = omega arith }, tt),
)

read_rpc_packet-make_rpc_packet_example :
    (packet : Bytes) × (make_rpc_packet raw (messages raw exchanges) ≡ ok packet)
    × (read_rpc_packet raw (packet ++ (5 ∷ [])) (templates raw exchanges)
        ≡ ok (messages raw exchanges, 5 ∷ []))
unfolding put_uvarint
read_rpc_packet-make_rpc_packet_example =
    read_rpc_packet-make_rpc_packet raw exchanges (5 ∷ []) exchanges-IsExchange (omega arith)

abbrev five : Bytes
five = 1 ∷ 2 ∷ 3 ∷ 4 ∷ 5 ∷ []

read_prefixed_message-make_example :
    (b : Bytes) × (make_prefixed_message raw five ≡ ok b)
    × (read_prefixed_message raw 5 (b ++ (6 ∷ [])) [] ≡ ok (five, 6 ∷ []))
unfolding put_uvarint
read_prefixed_message-make_example =
    read_prefixed_message-make raw 5 ([], five, five) (6 ∷ [])
      (record { sent = refl; parsed = refl; fresh = λ e. absurd (omega arith); fits = omega arith })
      (omega arith) (omega arith) (omega arith)

read_prefixed_message_short_read_example :
    read_prefixed_message raw 1 (framed five ++ (6 ∷ [])) []
    ≡ ok (0 ∷ 0 ∷ 0 ∷ 0 ∷ 1 ∷ [], 2 ∷ 3 ∷ 4 ∷ 5 ∷ 6 ∷ [])
read_prefixed_message_short_read_example =
    read_prefixed_message_short_read raw five (6 ∷ []) [] (omega arith) (omega arith)

read_rpc_packet_overlong_example :
    read_rpc_packet raw (big_endian_u32 3 ++ (3 ∷ 1 ∷ 2 ∷ []) ++ []) ([] ∷ []) ≡ panic
read_rpc_packet_overlong_example = read_rpc_packet_overlong raw (1 ∷ 2 ∷ []) [] [] [] (omega arith)
