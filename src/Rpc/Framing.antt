-- ===== src/Rpc/Framing.antt =====
-- internal/rpc/rpc.go: length-prefixed messages, rpc packets and datanode op requests.
-- A connection that is read is the list of the bytes still to come, and then its end.
pub mod RoundTrip
pub mod Malformed
use hdfs.Prelude.{
  ℕ, ◌+◌, ◌-◌, ◌*◌, ◌/◌, ◌%◌, ◌^◌, min, max, Option, none, some, List, [], ◌∷◌, ◌++◌, Bytes, length,
  take, drop, replicate, ltb, leb, ◌==◌, if◌then◌else◌,
}
use hdfs.Prelude.Errors.{Error, Result, ok, err, panic, ◌>>=◌}
use hdfs.Rpc.Varint.{put_uvarint, uvarint}

-- The protobuf library. `unmarshal` is given the message that it fills in, whose type it parses.
pub record Proto : Type 1 where
  pub Message : Type 0
  pub marshal : Message → Result Bytes
  pub unmarshal : Message → Bytes → Result Message

-- `binary.BigEndian`
unfoldable pub big_endian_u32 : ℕ → Bytes
big_endian_u32 n = (n / 2 ^ 24 % 256) ∷ (n / 2 ^ 16 % 256) ∷ (n / 2 ^ 8 % 256) ∷ (n % 256) ∷ []

unfoldable pub u32_of : Bytes → ℕ
u32_of (a ∷ b ∷ c ∷ d ∷ rest) = a * 2 ^ 24 + b * 2 ^ 16 + c * 2 ^ 8 + d
u32_of _ = 0

-- `io.ReadFull` into a buffer of `n` bytes: the bytes and what the connection has left.
unfoldable pub read_full : ℕ → Bytes → Result (Bytes × Bytes)
read_full n s =
    if leb n (length s)
    then ok (take n s, drop n s)
    else if length s == 0
    then err Error.eof
    else err Error.unexpected_eof

abbrev pub max_varint_len32 : ℕ
max_varint_len32 = 5

abbrev pub data_transfer_version : ℕ
data_transfer_version = 0x1c

abbrev pub write_block_op : ℕ
write_block_op = 0x50

abbrev pub read_block_op : ℕ
read_block_op = 0x51

abbrev pub checksum_block_op : ℕ
checksum_block_op = 0x55

module _ (proto : Proto) where
  open proto use {Message, marshal, unmarshal}

  unfoldable pub make_prefixed_message : Message → Result Bytes
  make_prefixed_message msg = do
    msg_bytes ← marshal msg
    ok (put_uvarint (length msg_bytes) ++ msg_bytes)

  -- The loop over `msgs`: the packet so far, and the length of the messages in it.
  unfoldable pub append_messages : List Message → Bytes → ℕ → Result (Bytes × ℕ)
  append_messages [] packet len = ok (packet, len)
  append_messages (msg ∷ msgs) packet len = do
    b ← make_prefixed_message msg
    append_messages msgs (packet ++ b) (len + length b)

  -- Four bytes are kept for the length, which is put in at the end.
  unfoldable pub make_rpc_packet : List Message → Result Bytes
  make_rpc_packet msgs = do
    (packet, len) ← append_messages msgs (replicate 4 0) 0
    ok (big_endian_u32 (len % 2 ^ 32) ++ drop 4 packet)

  -- One round of the loop of `readRPCPacket` on a packet that is not empty. Slicing beyond the
  -- packet panics.
  unfoldable pub read_message : Message → Bytes → Result (Message × Bytes)
  read_message msg packet = elim (uvarint packet) [
    | none ↦ err Error.malformed_rpc_message
    | some (msg_length, n) ↦
        if ltb (length packet) msg_length
        then err Error.malformed_rpc_message
        else if msg_length == 0
        then ok (msg, drop n packet)
        else if ltb (length (drop n packet)) msg_length
        then panic
        else unmarshal msg (take msg_length (drop n packet)) >>= λ m.
            ok (m, drop msg_length (drop n packet))
  ]

  unfoldable pub read_messages : List Message → Bytes → Result (List Message × Bytes)
  read_messages [] packet = ok ([], packet)
  read_messages (msg ∷ msgs) packet =
      let rest =
        read_message msg packet >>= λ p. read_messages msgs p.1 >>= λ q. ok (p.0 ∷ q.0, q.1) in
      if length packet == 0 then ok (msg ∷ msgs, []) else rest

  -- The messages after the call, and the connection.
  unfoldable pub read_rpc_packet : Bytes → List Message → Result (List Message × Bytes)
  read_rpc_packet r msgs = do
    (packet_length, r1) ← read_full 4 r
    (packet, r2) ← read_full (u32_of packet_length) r1
    (filled, left) ← read_messages msgs packet
    if ltb 0 (length left) then err Error.malformed_rpc_message else ok (filled, r2)

  -- What follows the decoded length: the copy takes what it needs from the rest of the buffer, also
  -- from bytes that no read has filled.
  unfoldable pub read_body : Bytes → Bytes → Message → Option (ℕ × ℕ) → Result (Message × Bytes)
  read_body varint_bytes r msg none = err Error.unexpected_eof
  read_body varint_bytes r msg (some (resp_length, varint_length)) =
      let extra_length = min resp_length (max_varint_len32 - varint_length) in
      read_full (resp_length - extra_length) r >>= λ p.
      unmarshal msg (take extra_length (drop varint_length varint_bytes) ++ p.0) >>= λ m.
      ok (m, p.1)

  -- `readPrefixedMessage` when its first read has got `n` bytes, behind which the buffer is zero.
  unfoldable pub read_message_after : ℕ → Bytes → Message → Result (Message × Bytes)
  read_message_after n r msg =
      let varint_bytes = take n r ++ replicate (max_varint_len32 - n) 0 in
      read_body varint_bytes (drop n r) msg (uvarint varint_bytes)

  -- `got` is how many bytes the connection hands over in one read, at least one: `io.ReadAtLeast`
  -- asks for one byte and has room for five.
  unfoldable pub read_prefixed_message : ℕ → Bytes → Message → Result (Message × Bytes)
  read_prefixed_message got r msg =
      if length r == 0
      then err Error.eof
      else read_message_after (max 1 (min got (min max_varint_len32 (length r)))) r msg

  unfoldable pub write_block_op_request : ℕ → Message → Result Bytes
  write_block_op_request op msg = do
    msg_bytes ← make_prefixed_message msg
    ok ((0 ∷ data_transfer_version ∷ op ∷ []) ++ msg_bytes)
