-- ===== src/Rpc/WriteStream/Finishing.antt =====
-- `finish` of a block_write_stream: what it sends, and when it succeeds.
use hdfs.Prelude.{
  ◌≡◌, refl, sym, ◌∙◌, inl, inr, true, false, none, some, List, [], ◌∷◌, ◌++◌, arith, append-nil,
  nil_of_length, Option-cases,
}
use hdfs.Prelude.Errors.{Error}
use hdfs.Rpc.WriteStream.{WriteStream, OutboundPacket, Environment, get_ack_error}
use hdfs.Rpc.WriteStream.Flush.{
  wants_packet, flush, AckRead, ack_packets, finish_body, finish, last_packet,
}
use hdfs.Rpc.WriteStream.Packets.{taken, IsRun, payloads, payloads-append}
use hdfs.Rpc.WriteStream.Sending.{Sends, taken-Sends, flush_lem}

module _ (env : Environment) where
  -- Where `finish` stops, and where it goes on to the last packet.
  finish_stopped :
      (acks : List AckRead) (s : WriteStream) {e : Error}
      → s.closed ≡ false
      → s.acks_done ≡ false
      → (flush env true (record s { closed = true })).1 ≡ some e
      → let t : WriteStream = (flush env true (record s { closed = true })).0 in
        ((finish env acks s).0.packets ≡ t.packets) × ((finish env acks s).0.buf ≡ t.buf)
  unfolding finish finish_body get_ack_error
  finish_stopped acks s is_open running h = ground arith

  finish_through :
      (acks : List AckRead) (s : WriteStream)
      → s.closed ≡ false
      → s.acks_done ≡ false
      → (flush env true (record s { closed = true })).1 ≡ none
      → let t : WriteStream = (flush env true (record s { closed = true })).0 in
        ((finish env acks s).0.packets ≡ t.packets ++ (last_packet env t ∷ []))
        × ((finish env acks s).0.buf ≡ t.buf)
  unfolding finish finish_body get_ack_error
  finish_through acks s is_open running h = ground arith

  -- Finishing takes nothing away from what the stream has taken, also when it fails.
  pub finish_taken :
      (acks : List AckRead) (s : WriteStream)
      → s.closed ≡ false
      → s.acks_done ≡ false
      → taken (finish env acks s).0 ≡ taken s
  finish_taken acks s is_open running = elim (Option-cases (flush env true start).1) [
    | inr (e, stopped) ↦
        let (packets, buf) = finish_stopped acks s is_open running stopped in
        rw (packets, buf) (taken-Sends env start t sends)
    | inl through ↦
        let (packets, buf) = finish_through acks s is_open running through in
        rw
          (
            packets,
            buf,
            payloads-append t.packets (last_packet env t ∷ []),
            empty,
            append-nil (payloads t.packets),
          )
          (taken-Sends env start t sends)
  ]
    where
      start : WriteStream
      start = record s { closed = true }

      t : WriteStream
      t = (flush env true start).0

      sends : Sends env start t
      sends = (flush_lem env true start (unfold get_ack_error in rw running)).0

      empty : payloads (last_packet env t ∷ []) ≡ []
      empty = unfold last_packet in refl

  finish_parts :
      (acks : List AckRead) (s : WriteStream) {u : WriteStream}
      → s.closed ≡ false
      → s.acks_done ≡ false
      → finish env acks s ≡ (u, none)
      → let t : WriteStream = (flush env true (record s { closed = true })).0 in
        ((flush env true (record s { closed = true })).1 ≡ none)
        × (u.packets ≡ t.packets ++ (last_packet env t ∷ []))
        × (ack_packets u.packets acks ≡ none)
  unfolding finish finish_body get_ack_error
  finish_parts acks s is_open running done = ground arith

  -- `u` is `s` after all that was buffered has been sent, with the marker of the block's end.
  pub record Finishes (acks : List AckRead) (s u : WriteStream) : Type 0 where
    pub sent : List OutboundPacket
    pub end : OutboundPacket
    pub grown : u.packets ≡ s.packets ++ sent ++ (end ∷ [])
    pub run : IsRun env s.offset s.seqno sent end.offset end.seqno
    pub carried : payloads sent ≡ s.buf
    pub is_last : end.last ≡ true
    pub no_data : end.payload ≡ []
    pub acknowledged : ack_packets u.packets acks ≡ none

  -- When `finish` of an open stream answers no error, the packets of the stream are those from
  -- before, then a well-formed run that carries the whole buffer, then one empty packet marked as
  -- the last, at the offset and sequence number that the run ends with; and the ack loop went
  -- through all of them without an error.
  pub finish_lem :
      (acks : List AckRead) (s : WriteStream) {u : WriteStream}
      → s.closed ≡ false
      → s.acks_done ≡ false
      → finish env acks s ≡ (u, none)
      → Finishes acks s u
  finish_lem acks s {u} is_open running done = record {
    sent = sends.sent;
    end = last_packet env t;
    grown = packets ∙ rw sends.grown;
    run = unfold last_packet in sends.run;
    carried = sym (append-nil (payloads sends.sent)) ∙ rw (← drained) sends.carried;
    is_last = unfold last_packet in refl;
    no_data = unfold last_packet in refl;
    acknowledged = acknowledged;
  }
    where
      start : WriteStream
      start = record s { closed = true }

      t : WriteStream
      t = (flush env true start).0

      packets : u.packets ≡ t.packets ++ (last_packet env t ∷ [])
      packets = (finish_parts acks s is_open running done).1

      acknowledged : ack_packets u.packets acks ≡ none
      acknowledged = (finish_parts acks s is_open running done).2

      quiet : get_ack_error start ≡ none
      quiet = unfold get_ack_error in rw running

      sends : Sends env start t
      sends = (flush_lem env true start quiet).0

      stop : (w : WriteStream) → wants_packet true w ≡ false → w.buf ≡ []
      stop w h = nil_of_length w.buf (ground arith)

      drained : t.buf ≡ []
      drained =
          stop t ((flush_lem env true start quiet).1 (finish_parts acks s is_open running done).0)
