-- ===== src/Rpc/Framing/RoundTrip.antt =====
-- What internal/rpc/rpc.go writes, it reads back: rpc packets and single messages.
use hdfs.Prelude.{
  ℕ, ◌+◌, ◌-◌, ◌^◌, ◌≤◌, ◌<◌, ◌≡◌, refl, sym, ap, ◌∙◌, min, max, List, [], ◌∷◌, ◌++◌, Bytes, length,
  take, drop, replicate, append-nil, append_assoc, arith, length-append, take_front, drop_front,
  take_past, drop_past, take-append, drop-append, take-append-drop, length-take, length-drop,
  take_all, le→leb, All,
}
use native.Mathlib.Nat.{add-zero, add_assoc}
use hdfs.Prelude.Errors.{ok}
use hdfs.Rpc.Varint.{
  put_uvarint, uvarint-put_uvarint, length-put_uvarint, length-put_uvarint-le_five,
}
use hdfs.Rpc.Framing.{
  Proto, big_endian_u32, u32_of, read_full, make_prefixed_message, append_messages, make_rpc_packet,
  read_message, read_messages, read_message_after, read_body, read_rpc_packet,
  read_prefixed_message,
}

pub u32_of-big_endian_u32 : (n : ℕ) (rest : Bytes) → n < 2 ^ 32 → u32_of (big_endian_u32 n) ≡ n
unfolding u32_of big_endian_u32
u32_of-big_endian_u32 n rest h = omega arith

pub read_full_ok : (n : ℕ) (s : Bytes) → n ≤ length s → read_full n s ≡ ok (take n s, drop n s)
unfolding read_full
read_full_ok n s h = rw (le→leb n (length s) h)

-- A full read of what stands in front.
pub read_full_front : (xs ys : Bytes) → read_full (length xs) (xs ++ ys) ≡ ok (xs, ys)
read_full_front xs ys =
    read_full_ok (length xs) (xs ++ ys) (omega (arith, length-append xs ys))
    ∙ rw (take_front xs ys, drop_front xs ys)

-- A message with its length in front.
abbrev pub framed : Bytes → Bytes
framed b = put_uvarint (length b) ++ b

length-framed : (b rest : Bytes) → length b < length (framed b ++ rest)
length-framed b rest = omega (
  arith,
  length-append (put_uvarint (length b)) b,
  length-append (framed b) rest,
  length-put_uvarint (length b),
)

nil_front : (b rest : Bytes) → length b ≡ 0 → b ++ rest ≡ rest
nil_front [] rest h = refl
nil_front (x ∷ b) rest h = absurd (omega arith)

module _ (proto : Proto) where
  open proto use {Message, marshal, unmarshal}

  -- A message with the fresh message that it is parsed into, and its bytes.
  abbrev pub Sent : Type 0
  Sent = Message × Message × Bytes

  -- The library writes the message as these bytes and parses them as the message. What has no
  -- bytes is the fresh message itself.
  pub record IsExchange (s : Sent) : Type 0 where
    pub sent : marshal s.1 ≡ ok s.2
    pub parsed : unmarshal s.0 s.2 ≡ ok s.1
    pub fresh : length s.2 ≡ 0 → s.0 ≡ s.1
    pub fits : length s.2 < 2 ^ 64

  abbrev pub templates : List Sent → List Message
  templates [] = []
  templates (s ∷ ss) = s.0 ∷ templates ss

  abbrev pub messages : List Sent → List Message
  messages [] = []
  messages (s ∷ ss) = s.1 ∷ messages ss

  abbrev pub framed_all : List Sent → Bytes
  framed_all [] = []
  framed_all (s ∷ ss) = framed s.2 ++ framed_all ss

  append_messages-framed_all :
      (ss : List Sent) (packet : Bytes) (len : ℕ)
      → All IsExchange ss
      → append_messages proto (messages ss) packet len
        ≡ ok (packet ++ framed_all ss, len + length (framed_all ss))
  unfolding append_messages make_prefixed_message
  append_messages-framed_all [] packet len x = rw (append-nil packet, add-zero len)
  append_messages-framed_all (s ∷ ss) packet len (x, xs) = rw (
    x.sent,
    append_messages-framed_all ss _ _ xs,
    append_assoc packet (framed s.2) (framed_all ss),
    length-append (framed s.2) (framed_all ss),
    add_assoc len (length (framed s.2)),
  )

  read_message_lem :
      (s : Sent) (rest : Bytes)
      → IsExchange s
      → read_message proto s.0 (framed s.2 ++ rest) ≡ ok (s.1, rest)
  unfolding read_message
  read_message_lem (t, m, b) rest x = rw (append_assoc (put_uvarint (length b)) b rest) (
      ground (
        arith,
        uvarint-put_uvarint (length b) (b ++ rest) x.fits,
        drop_front (put_uvarint (length b)) (b ++ rest),
        drop_front b rest,
        take_front b rest,
        length-append b rest,
        length-append (put_uvarint (length b)) (b ++ rest),
        nil_front b rest,
        x.sent,
        x.parsed,
        x.fresh,
      ))

  read_messages_lem :
      (ss : List Sent)
      → All IsExchange ss
      → read_messages proto (templates ss) (framed_all ss) ≡ ok (messages ss, [])
  unfolding read_messages
  read_messages_lem [] x = refl
  read_messages_lem (s ∷ ss) (x, xs) =
      rw (read_message_lem s (framed_all ss) x, read_messages_lem ss xs)
        (ground (arith, length-framed s.2 (framed_all ss)))

  make_rpc_packet_lem :
      (ss : List Sent)
      → All IsExchange ss
      → length (framed_all ss) < 2 ^ 32
      → make_rpc_packet proto (messages ss)
        ≡ ok (big_endian_u32 (length (framed_all ss)) ++ framed_all ss)
  unfolding make_rpc_packet
  make_rpc_packet_lem ss x h =
      rw (append_messages-framed_all ss (replicate 4 0) 0 x)
        (ap (λ n. ok (big_endian_u32 n ++ framed_all ss)) (omega arith))

  -- Messages that the protobuf library writes and parses back go through a packet of less than
  -- 2 ^ 32 bytes: `make_rpc_packet` writes one, and `read_rpc_packet` reads the same messages from a
  -- connection that begins with it, and takes no byte of what follows.
  pub read_rpc_packet-make_rpc_packet :
      (ss : List Sent) (rest : Bytes)
      → All IsExchange ss
      → length (framed_all ss) < 2 ^ 32
      → (packet : Bytes) × (make_rpc_packet proto (messages ss) ≡ ok packet)
        × (read_rpc_packet proto (packet ++ rest) (templates ss) ≡ ok (messages ss, rest))
  unfolding read_rpc_packet big_endian_u32 u32_of
  read_rpc_packet-make_rpc_packet ss rest x h =
      let size : ℕ = length (framed_all ss) in
      (
        big_endian_u32 size ++ framed_all ss,
        make_rpc_packet_lem ss x h,
        rw (
          append_assoc (big_endian_u32 size) (framed_all ss) rest,
          read_full_front (big_endian_u32 size) (framed_all ss ++ rest),
          u32_of-big_endian_u32 size [] h,
          read_full_front (framed_all ss) rest,
          read_messages_lem ss x,
        ),
      )

  -- With the five bytes of the buffer filled, the body goes on where they end.
  read_message_after_five :
      (s : Sent) (rest : Bytes)
      → IsExchange s
      → length s.2 < 2 ^ 35
      → 5 ≤ length (framed s.2)
      → read_message_after proto 5 (framed s.2 ++ rest) s.0 ≡ ok (s.1, rest)
  unfolding read_message_after read_body
  read_message_after_five (t, m, b) rest x small long = rw (
    buffer,
    uvarint-put_uvarint size front x.fits,
    ahead,
    drop_front prefix front,
    whole_front,
    tail,
    back,
    take-append-drop k b,
    x.parsed,
  )
    where
      size : ℕ
      size = length b

      prefix : Bytes
      prefix = put_uvarint size

      k : ℕ
      k = 5 - length prefix

      front : Bytes
      front = take k b

      room : (length prefix ≤ 5) × (k ≤ size)
      room = (length-put_uvarint-le_five size small, omega (arith, length-append prefix b))

      buffer : take 5 (framed b ++ rest) ++ replicate 0 0 ≡ prefix ++ front
      buffer = rw (
        append_assoc prefix b rest,
        append-nil,
        take_past 5 prefix (b ++ rest) room.0,
        take-append k b rest room.1,
      )

      ahead : min size k ≡ k
      ahead = omega (arith, room.1)

      whole_front : take k front ≡ front
      whole_front = take_all k front (omega (arith, length-take k b))

      tail : drop 5 (framed b ++ rest) ≡ drop k b ++ rest
      tail = rw (
        append_assoc prefix b rest,
        drop_past 5 prefix (b ++ rest) room.0,
        drop-append k b rest room.1,
      )

      back : read_full (size - k) (drop k b ++ rest) ≡ ok (drop k b, rest)
      back = rw (sym (length-drop k b)) (read_full_front (drop k b) rest)

  -- A single message of at least five bytes with its length, of which the first read gets five,
  -- comes back, and what follows it stays on the connection.
  pub read_prefixed_message-make :
      (got : ℕ) (s : Sent) (rest : Bytes)
      → IsExchange s
      → 5 ≤ got
      → length s.2 < 2 ^ 35
      → 5 ≤ length (framed s.2)
      → (b : Bytes) × (make_prefixed_message proto s.1 ≡ ok b)
        × (read_prefixed_message proto got (b ++ rest) s.0 ≡ ok (s.1, rest))
  unfolding make_prefixed_message read_prefixed_message
  read_prefixed_message-make got (t, m, b) rest x hg small long = (
    framed b,
    rw x.sent,
    ground (
      arith,
      length-append (framed b) rest,
      read_message_after_five (t, m, b) rest x small long,
      five,
    ),
  )
    where
      five : max 1 (min got (min 5 (length (framed b ++ rest)))) ≡ 5
      five = omega (arith, length-append (framed b) rest)
