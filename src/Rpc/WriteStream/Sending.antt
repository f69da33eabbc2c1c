-- ===== src/Rpc/WriteStream/Sending.antt =====
-- `flush` and `Write` of a block_write_stream: no byte is lost, doubled or moved.
use hdfs.Prelude.{
  ℕ, zero, suc, ◌≤◌, ◌<◌, ◌≡◌, refl, sym, ap, ◌∙◌, inl, inr, true, false, Bool, none, some, List,
  [], ◌∷◌, ◌++◌, Bytes, length, arith, length-append, append-nil, append_assoc, Bool-cases,
  Option-cases,
}
use hdfs.Prelude.Errors.{Error}
use hdfs.Rpc.WriteStream.{WriteStream, OutboundPacket, Environment, make_packet, get_ack_error}
use hdfs.Rpc.WriteStream.Flush.{send_packet, wants_packet, flush_loop, flush, write}
use hdfs.Rpc.WriteStream.Packets.{
  taken, IsRun, payloads, IsRun-append, payloads-append, make_packet_lem,
}

module _ (env : Environment) where
  -- `s'` comes from `s` by sending a front part of the buffer as a run of packets.
  pub record Sends (s s' : WriteStream) : Type 0 where
    pub sent : List OutboundPacket
    pub grown : s'.packets ≡ s.packets ++ sent
    pub run : IsRun env s.offset s.seqno sent s'.offset s'.seqno
    pub carried : payloads sent ++ s'.buf ≡ s.buf
    pub still_closed : s'.closed ≡ s.closed
    pub same_error : s'.ack_error ≡ s.ack_error
    pub same_done : s'.acks_done ≡ s.acks_done

  Sends-refl : (s : WriteStream) → Sends s s
  Sends-refl s = record {
    sent = [];
    grown = sym (append-nil s.packets);
    run = (refl, refl);
    carried = refl;
    still_closed = refl;
    same_error = refl;
    same_done = refl;
  }

  Sends-trans : (s t u : WriteStream) → Sends s t → Sends t u → Sends s u
  Sends-trans s t u a b = record {
    sent = a.sent ++ b.sent;
    grown = b.grown ∙ rw a.grown (append_assoc s.packets a.sent b.sent);
    run = IsRun-append env a.sent b.sent _ _ _ _ _ _ a.run b.run;
    carried =
        rw
          (
            payloads-append a.sent b.sent,
            append_assoc (payloads a.sent) (payloads b.sent) u.buf,
            b.carried,
          )
          a.carried;
    still_closed = b.still_closed ∙ a.still_closed;
    same_error = b.same_error ∙ a.same_error;
    same_done = b.same_done ∙ a.same_done;
  }

  Sends-send_packet : (s : WriteStream) → 0 < length s.buf → Sends s (send_packet env s).0
  unfolding send_packet
  Sends-send_packet s h =
      let (packet, buf) = make_packet env s in
      let (is_packet, carried) = make_packet_lem env s h in
      record {
        sent = packet ∷ [];
        grown = refl;
        run = (is_packet, (refl, refl));
        carried = rw (append-nil packet.payload) carried;
        still_closed = refl;
        same_error = refl;
        same_done = refl;
      }

  send_packet-length :
      (s : WriteStream) → 0 < length s.buf → length (send_packet env s).0.buf < length s.buf
  unfolding send_packet
  send_packet-length s h =
      let (packet, buf) = make_packet env s in
      let (is_packet, carried) = make_packet_lem env s h in
      omega (
        arith,
        is_packet.not_empty,
        length-append packet.payload buf,
        ap (λ (b : Bytes). length b) carried,
      )

  -- Sending takes nothing away from what the stream has taken.
  pub taken-Sends : (s s' : WriteStream) → Sends s s' → taken s' ≡ taken s
  taken-Sends s s' x = rw (
    x.grown,
    payloads-append s.packets x.sent,
    append_assoc (payloads s.packets) (payloads x.sent) s'.buf,
    x.carried,
  )

  -- The three ways a round of the loop goes.
  flush_loop_stop :
      (fuel : ℕ) (force : Bool) (s : WriteStream)
      → wants_packet force s ≡ false
      → flush_loop env (suc fuel) force s ≡ (s, none)
  unfolding flush_loop
  flush_loop_stop fuel force s h = ground arith

  flush_loop_fail :
      (fuel : ℕ) (force : Bool) (s : WriteStream) {e : Error}
      → wants_packet force s ≡ true
      → (send_packet env s).1 ≡ some e
      → flush_loop env (suc fuel) force s ≡ ((send_packet env s).0, some e)
  unfolding flush_loop
  flush_loop_fail fuel force s h k = ground arith

  flush_loop_next :
      (fuel : ℕ) (force : Bool) (s : WriteStream)
      → wants_packet force s ≡ true
      → (send_packet env s).1 ≡ none
      → flush_loop env (suc fuel) force s ≡ flush_loop env fuel force (send_packet env s).0
  unfolding flush_loop
  flush_loop_next fuel force s h k = ground arith

  wants_packet-length :
      (force : Bool) (s : WriteStream) → wants_packet force s ≡ true → 0 < length s.buf
  wants_packet-length force s h = ground arith

  Sends-flush_loop :
      (fuel : ℕ) (force : Bool) (s : WriteStream) → Sends s (flush_loop env fuel force s).0
  Sends-flush_loop zero force s = unfold flush_loop in Sends-refl s
  Sends-flush_loop (suc fuel) force s = elim (Bool-cases (wants_packet force s)) [
    | inr stop ↦ rw (flush_loop_stop fuel force s stop) (Sends-refl s)
    | inl go ↦
        let first : Sends s (send_packet env s).0 =
          Sends-send_packet s (wants_packet-length force s go) in
        elim (Option-cases (send_packet env s).1) [
          | inl fine ↦ rw (flush_loop_next fuel force s go fine) (
              Sends-trans s (send_packet env s).0 _ first
                (Sends-flush_loop fuel force (send_packet env s).0))
          | inr (e, failed) ↦ rw (flush_loop_fail fuel force s go failed) first
        ]
  ]

  -- With no error the loop has ended by its test.
  flush_loop_ends :
      (fuel : ℕ) (force : Bool) (s : WriteStream)
      → length s.buf ≤ fuel
      → (flush_loop env fuel force s).1 ≡ none
      → wants_packet force (flush_loop env fuel force s).0 ≡ false
  flush_loop_ends zero force s h e = unfold flush_loop in ground arith
  flush_loop_ends (suc fuel) force s h e = elim (Bool-cases (wants_packet force s)) [
    | inr stop ↦ rw (flush_loop_stop fuel force s stop) stop
    | inl go ↦ elim (Option-cases (send_packet env s).1) [
      | inl fine ↦ rw (flush_loop_next fuel force s go fine) (
          flush_loop_ends fuel force (send_packet env s).0 (shorter go)
            (rw (flush_loop_next fuel force s go fine) at e))
      | inr (x, failed) ↦ cc (flush_loop_fail fuel force s go failed)
    ]
  ]
    where
      shorter : wants_packet force s ≡ true → length (send_packet env s).0.buf ≤ fuel
      shorter go = omega (arith, send_packet-length s (wants_packet-length force s go))

  flush_quiet :
      (force : Bool) (s : WriteStream)
      → get_ack_error s ≡ none
      → flush env force s ≡ flush_loop env (length s.buf) force s
  unfolding flush
  flush_quiet force s quiet = ground arith

  -- What a flush leaves behind: sent packets in order, and without an error an empty buffer where
  -- it was forced, and less than a packet's size where it was not.
  pub flush_lem :
      (force : Bool) (s : WriteStream)
      → get_ack_error s ≡ none
      → Sends s (flush env force s).0
        × ((flush env force s).1 ≡ none → wants_packet force (flush env force s).0 ≡ false)
  flush_lem force s quiet = rw (flush_quiet force s quiet) (
    Sends-flush_loop (length s.buf) force s,
    λ e. flush_loop_ends (length s.buf) force s (omega arith) e,
  )

  write_quiet :
      (s : WriteStream) (b : Bytes)
      → s.closed ≡ false
      → get_ack_error s ≡ none
      → let (s', e) = flush env false (record s { buf = s.buf ++ b }) in
        write env s b ≡ (s', length b, e)
  unfolding write
  write_quiet s b is_open quiet = ground arith

  -- `Write` on an open stream that knows of no ack error: it takes all of `b`. The buffer and `b`
  -- together are the bytes of the packets that it sends, a well-formed run that goes on from the
  -- stream's offset and sequence number, and of the new buffer, in this order. Without an error less
  -- than a packet's size stays buffered.
  pub write_lem :
      (s : WriteStream) (b : Bytes)
      → s.closed ≡ false
      → get_ack_error s ≡ none
      → ((write env s b).1 ≡ length b)
        × Sends (record s { buf = s.buf ++ b }) (write env s b).0
        × ((write env s b).2 ≡ none → length (write env s b).0.buf < 65536)
  write_lem s b is_open quiet =
      let t : WriteStream = record s { buf = s.buf ++ b } in
      let (sends, ends) = flush_lem false t (unfold get_ack_error in quiet) in
      rw (write_quiet s b is_open quiet) (refl, sends, λ e. small (flush env false t).0 (ends e))
    where
      small : (u : WriteStream) → wants_packet false u ≡ false → length u.buf < 65536
      small u stop = ground arith
