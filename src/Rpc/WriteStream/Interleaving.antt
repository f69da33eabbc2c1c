-- ===== src/Rpc/WriteStream/Interleaving.antt =====
-- internal/rpc/block_write_stream.go: the writer and the goroutine of `ackPackets`, which share the
-- channel of packets, `ackError` and `acksDone`, in any order of their steps.
use hdfs.Prelude.{
  ℕ, ◌<◌, ◌≡◌, Bool, true, false, ◌⊎◌, Option, none, some, List, [], ◌∷◌, ◌++◌, length, arith,
}
use hdfs.Prelude.Errors.{Error}
use hdfs.Rpc.WriteStream.{OutboundPacket, WriteStream, get_ack_error}

abbrev pub max_packets_in_queue : ℕ
max_packets_in_queue = 5

-- Where the goroutine stands: before a receive, reading acks for a packet, emptying the channel
-- after an error, or behind the loop.
pub data Phase : Type 0 where
  receiving : Phase
  awaiting : OutboundPacket → Phase
  draining : Phase
  returned : Phase

pub record Shared : Type 0 where
  pub queue : List OutboundPacket
  pub channel_closed : Bool
  pub phase : Phase
  pub ack_error : Option Error
  pub acks_done : Bool

abbrev pub started : Shared
started = record {
  queue = [];
  channel_closed = false;
  phase = receiving;
  ack_error = none;
  acks_done = false;
}

-- `send` and `close` are steps of the writer, the others of the goroutine.
pub data Step : Shared → Shared → Type 0 where
  send :
      (s : Shared) (p : OutboundPacket)
      → s.channel_closed ≡ false
      → length s.queue < max_packets_in_queue
      → Step s (record s { queue = s.queue ++ (p ∷ []) })
  close : (s : Shared) → s.channel_closed ≡ false → Step s (record s { channel_closed = true })
  receive :
      (s : Shared) (p : OutboundPacket) (ps : List OutboundPacket)
      → s.phase ≡ receiving
      → s.queue ≡ p ∷ ps
      → Step s (record s { phase = awaiting p; queue = ps })
  confirm :
      (s : Shared) (p : OutboundPacket)
      → s.phase ≡ awaiting p
      → Step s (record s { phase = receiving })
  fail :
      (s : Shared) (p : OutboundPacket) (e : Error)
      → s.phase ≡ awaiting p
      → Step s (record s { phase = draining; ack_error = some e })
  drain :
      (s : Shared) (p : OutboundPacket) (ps : List OutboundPacket)
      → s.phase ≡ draining
      → s.queue ≡ p ∷ ps
      → Step s (record s { queue = ps })
  leave :
      (s : Shared)
      → (s.phase ≡ receiving) ⊎ (s.phase ≡ draining)
      → s.queue ≡ []
      → s.channel_closed ≡ true
      → Step s (record s { phase = returned })
  signal : (s : Shared) → s.phase ≡ returned → Step s (record s { acks_done = true })

pub data Reach : Shared → Type 0 where
  start : Reach started
  next : {s t : Shared} → Reach s → Step s t → Reach t

record IsOrderly (s : Shared) : Type 0 where
  after_loop : s.acks_done ≡ true → s.phase ≡ returned
  after_close : s.phase ≡ returned → s.channel_closed ≡ true

Step-IsOrderly : {s t : Shared} → Step s t → IsOrderly s → IsOrderly t
Step-IsOrderly (send s p h k) o = ground arith
Step-IsOrderly (close s h) o = ground arith
Step-IsOrderly (receive s p ps h k) o = ground arith
Step-IsOrderly (confirm s p h) o = ground arith
Step-IsOrderly (fail s p e h) o = ground arith
Step-IsOrderly (drain s p ps h k) o = ground arith
Step-IsOrderly (leave s h k l) o = ground arith
Step-IsOrderly (signal s h) o = ground arith

Reach-IsOrderly : {s : Shared} → Reach s → IsOrderly s
Reach-IsOrderly start = ground arith
Reach-IsOrderly (next r st) = Step-IsOrderly st (Reach-IsOrderly r)

-- The fields that the goroutine shares with the stream.
abbrev pub view : Shared → WriteStream → WriteStream
view s w = record w { ack_error = s.ack_error; acks_done = s.acks_done }

-- Whatever the writer and the ack loop have done, as long as the channel of packets is open
-- `getAckError` answers nil, also when the ack loop has met an error: `Write` and `Flush` never
-- report one, and only the end of the stream does.
pub get_ack_error_silent :
    (s : Shared) (w : WriteStream)
    → Reach s
    → s.channel_closed ≡ false
    → get_ack_error (view s w) ≡ none
unfolding get_ack_error
get_ack_error_silent s w r is_open = ground (arith, o.after_loop, o.after_close)
  where
    o : IsOrderly s
    o = Reach-IsOrderly r
