-- ===== src/Rpc/WriteStream/Acks.antt =====
-- The ack loop of a block_write_stream: what it accepts, and when the writer can see its error.
use hdfs.Prelude.{
  ℕ, ◌+◌, ◌≡◌, refl, sym, ◌∙◌, ◌↔◌, inl, inr, true, false, Bool, none, some, List, [], ◌∷◌, arith,
  Bool-cases, Option-cases, All,
}
use hdfs.Prelude.Errors.{Error}
use hdfs.Prelude.Int.{ℤ, pos, ◌==ℤ◌, ==ℤ→eq}
use hdfs.Rpc.WriteStream.{OutboundPacket, heart_beat_seqno}
use hdfs.Rpc.WriteStream.Flush.{AckRead, ack, unreadable, reply_error, ack_packets}

-- All datanodes of the pipeline succeeded.
abbrev pub AllSucceed : List Bool → Type 0
AllSucceed = All (λ b. b ≡ true)

-- An independent description: each packet in turn is answered, perhaps after heartbeats, by an ack
-- with its sequence number in which all datanodes succeeded.
pub data Acknowledges : List OutboundPacket → List AckRead → Type 0 where
  finished : (acks : List AckRead) → Acknowledges [] acks
  heart_beat :
      (p : OutboundPacket) (ps : List OutboundPacket) (replies : List Bool) (acks : List AckRead)
      → AllSucceed replies
      → Acknowledges (p ∷ ps) acks
      → Acknowledges (p ∷ ps) (ack heart_beat_seqno replies ∷ acks)
  answered :
      (p : OutboundPacket) (ps : List OutboundPacket) (replies : List Bool) (acks : List AckRead)
      → AllSucceed replies
      → Acknowledges ps acks
      → Acknowledges (p ∷ ps) (ack (pos p.seqno) replies ∷ acks)

reply_error-AllSucceed :
    (i : ℕ) (replies : List Bool) → AllSucceed replies → reply_error i replies ≡ none
unfolding reply_error
reply_error-AllSucceed i [] h = refl
reply_error-AllSucceed i (b ∷ bs) h = ground (arith, reply_error-AllSucceed (i + 1) bs h.1)

AllSucceed-reply_error :
    (i : ℕ) (replies : List Bool) → reply_error i replies ≡ none → AllSucceed replies
unfolding reply_error
AllSucceed-reply_error i [] h = tt
AllSucceed-reply_error i (true ∷ bs) h = (refl, AllSucceed-reply_error (i + 1) bs h)
AllSucceed-reply_error i (false ∷ bs) h = cc

ack_packets-Acknowledges :
    {ps : List OutboundPacket} {acks : List AckRead}
    → Acknowledges ps acks
    → ack_packets ps acks ≡ none
unfolding ack_packets
ack_packets-Acknowledges (finished acks) = refl
ack_packets-Acknowledges (heart_beat p ps replies acks h a) =
    rw (reply_error-AllSucceed 0 replies h, ack_packets) (ack_packets-Acknowledges a)
ack_packets-Acknowledges (answered p ps replies acks h a) =
    ground (arith, reply_error-AllSucceed 0 replies h, ack_packets-Acknowledges a)

-- The ways in which an ack is taken.
module _ (p : OutboundPacket) (ps : List OutboundPacket) (seqno : ℤ) (replies : List Bool)
    (acks : List AckRead) where
  ack_packets_failed :
      {e : Error}
      → reply_error 0 replies ≡ some e
      → ack_packets (p ∷ ps) (ack seqno replies ∷ acks) ≡ some e
  unfolding ack_packets
  ack_packets_failed h = ground arith

  ack_packets_beat :
      reply_error 0 replies ≡ none
      → (seqno ==ℤ heart_beat_seqno) ≡ true
      → ack_packets (p ∷ ps) (ack seqno replies ∷ acks) ≡ ack_packets (p ∷ ps) acks
  unfolding ack_packets
  ack_packets_beat h k = ground arith

  ack_packets_wrong :
      reply_error 0 replies ≡ none
      → (seqno ==ℤ heart_beat_seqno) ≡ false
      → (seqno ==ℤ pos p.seqno) ≡ false
      → ack_packets (p ∷ ps) (ack seqno replies ∷ acks) ≡ some Error.invalid_seqno
  unfolding ack_packets
  ack_packets_wrong h k l = ground arith

  ack_packets_right :
      reply_error 0 replies ≡ none
      → (seqno ==ℤ heart_beat_seqno) ≡ false
      → (seqno ==ℤ pos p.seqno) ≡ true
      → ack_packets (p ∷ ps) (ack seqno replies ∷ acks) ≡ ack_packets ps acks
  unfolding ack_packets
  ack_packets_right h k l = ground arith

Acknowledges-ack_packets :
    (ps : List OutboundPacket) (acks : List AckRead)
    → ack_packets ps acks ≡ none
    → Acknowledges ps acks
Acknowledges-ack_packets [] acks h = finished acks
Acknowledges-ack_packets (p ∷ ps) [] h = unfold ack_packets in cc
Acknowledges-ack_packets (p ∷ ps) (unreadable e ∷ acks) h = unfold ack_packets in cc
Acknowledges-ack_packets (p ∷ ps) (ack seqno replies ∷ acks) h =
    elim (Option-cases (reply_error 0 replies)) [
      | inr (e, failed) ↦ cc (ack_packets_failed p ps seqno replies acks failed)
      | inl fine ↦ elim (Bool-cases (seqno ==ℤ heart_beat_seqno)) [
        | inl beat ↦ rw (==ℤ→eq seqno heart_beat_seqno beat) (
            heart_beat p ps replies acks (AllSucceed-reply_error 0 replies fine) (
              Acknowledges-ack_packets (p ∷ ps) acks
                (sym (ack_packets_beat p ps seqno replies acks fine beat) ∙ h)))
        | inr own ↦ elim (Bool-cases (seqno ==ℤ pos p.seqno)) [
          | inl right ↦ rw (==ℤ→eq seqno (pos p.seqno) right) (
              answered p ps replies acks (AllSucceed-reply_error 0 replies fine) (
                Acknowledges-ack_packets ps acks
                  (sym (ack_packets_right p ps seqno replies acks fine own right) ∙ h)))
          | inr wrong ↦ cc (ack_packets_wrong p ps seqno replies acks fine own wrong)
        ]
      ]
    ]

-- The ack loop ends without an error exactly when the acks answer the packets in order, each by
-- its sequence number and with success of every datanode, heartbeats aside.
pub ack_packets_iff :
    (ps : List OutboundPacket) (acks : List AckRead)
    → (ack_packets ps acks ≡ none) ↔ Acknowledges ps acks
ack_packets_iff ps acks = (Acknowledges-ack_packets ps acks, ack_packets-Acknowledges)
