-- ===== src/Rpc/WriteStream/Flush.antt =====
-- internal/rpc/block_write_stream.go: `flush`, `Write`, `finish` and the loop that reads acks.
use hdfs.Prelude.{
  ℕ, zero, suc, ◌+◌, Bool, true, false, not, ◌&&◌, ◌||◌, Option, none, some, List, [], ◌∷◌, ◌++◌,
  Bytes, length, ltb, leb, if◌then◌else◌,
}
use hdfs.Prelude.Errors.{Error}
use hdfs.Prelude.Int.{ℤ, pos, ◌==ℤ◌}
use hdfs.Rpc.WriteStream.{
  WriteStream, OutboundPacket, Environment, outbound_packet_size, heart_beat_seqno, get_ack_error,
  make_packet, write_packet,
}

-- The condition of the loop of `flush`.
abbrev pub wants_packet : Bool → WriteStream → Bool
wants_packet force s = ltb 0 (length s.buf) && (force || leb outbound_packet_size (length s.buf))

module _ (env : Environment) where
  -- The body of the loop of `flush`: the packet goes into the channel before it is written.
  unfoldable pub send_packet : WriteStream → WriteStream × Option Error
  send_packet s =
      let (packet, buf) = make_packet env s in
      let (written, e) = write_packet env packet s.written in
      (
        record s {
          written = written;
          buf = buf;
          offset = s.offset + length packet.payload;
          packets = s.packets ++ (packet ∷ []);
          seqno = s.seqno + 1;
        },
        e,
      )

  -- A round takes a byte of the buffer at least, so its length is enough fuel.
  unfoldable pub flush_loop : ℕ → Bool → WriteStream → WriteStream × Option Error
  flush_loop zero force s = (s, none)
  flush_loop (suc fuel) force s = elim (wants_packet force s) [
    | false ↦ (s, none)
    | true ↦ elim (send_packet s).1 [
      | some e ↦ ((send_packet s).0, some e)
      | none ↦ flush_loop fuel force (send_packet s).0
    ]
  ]

  unfoldable pub flush : Bool → WriteStream → WriteStream × Option Error
  flush force s = elim (get_ack_error s) [
    | some e ↦ (s, some e)
    | none ↦ flush_loop (length s.buf) force s
  ]

  -- The number of bytes taken, and the error.
  unfoldable pub write : WriteStream → Bytes → WriteStream × ℕ × Option Error
  write s b = if s.closed then (s, 0, some Error.closed_pipe) else elim (get_ack_error s) [
    | some e ↦ (s, 0, some e)
    | none ↦ let (s', e) = flush false (record s { buf = s.buf ++ b }) in (s', length b, e)
  ]

-- What `readPrefixedMessage` gives the ack loop, one after the other: an ack, with a status for
-- each datanode of the pipeline that is true for SUCCESS, or an error of the connection.
pub data AckRead : Type 0 where
  ack : ℤ → List Bool → AckRead
  unreadable : Error → AckRead

-- The index of the first datanode that did not succeed, as the error that carries it.
unfoldable pub reply_error : ℕ → List Bool → Option Error
reply_error i [] = none
reply_error i (success ∷ replies) =
    let rest = reply_error (i + 1) replies in if success then rest else some (Error.ack_failed i)

-- `ackPackets`: the error that it leaves behind when it has gone through the packets. A connection
-- with no more acks is at its end.
unfoldable pub ack_packets : List OutboundPacket → List AckRead → Option Error
ack_packets [] acks = none
ack_packets (p ∷ ps) [] = some Error.eof
ack_packets (p ∷ ps) (unreadable e ∷ acks) = some e
ack_packets (p ∷ ps) (ack seqno replies ∷ acks) =
    let same = ack_packets (p ∷ ps) acks in
    let next = ack_packets ps acks in
    elim (reply_error 0 replies) [
      | some e ↦ some e
      | none ↦
          if seqno ==ℤ heart_beat_seqno
          then same
          else if not (seqno ==ℤ pos p.seqno)
          then some Error.invalid_seqno
          else next
    ]

module _ (env : Environment) where
  unfoldable pub last_packet : WriteStream → OutboundPacket
  last_packet s = record {
    seqno = s.seqno;
    offset = s.offset;
    last = true;
    checksums = [];
    payload = [];
  }

  -- `finish` up to its deferred function.
  unfoldable pub finish_body : WriteStream → WriteStream × Option Error
  finish_body s = elim (get_ack_error s) [
    | some e ↦ (s, some e)
    | none ↦
        let (s', flushed) = flush env true s in
        let (written, sent) = write_packet env (last_packet s') s'.written in
        elim flushed [
          | some e ↦ (s', some e)
          | none ↦
              (record s' { written = written; packets = s'.packets ++ (last_packet s' ∷ []) }, sent)
        ]
  ]

  -- The deferred function closes the channel, waits for the ack loop, and looks for its error.
  unfoldable pub finish : List AckRead → WriteStream → WriteStream × Option Error
  finish acks s =
      let (s', e) = finish_body (record s { closed = true }) in
      let t : WriteStream = record s' {
        acks_done = true;
        ack_error = ack_packets s'.packets acks;
      } in
      if s.closed then (s, none) else elim e [ some x ↦ (t, some x) | none ↦ (t, get_ack_error t) ]
