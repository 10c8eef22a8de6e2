-- ===== src/System.antt =====
-- A transmitter and a receiver with a network between them, as src/launcher.cpp connects them: what
-- the one hands to its transmit function may reach the other's receive function, with any delay, in
-- any order, again, or not at all, and so may its ACKs on their way back. Data that arrive are not
-- corrupted; the transmitter may also receive any other bytes as ACKs.
pub mod Prefix
pub mod Safety
pub mod Delivery
pub mod Protocols
pub mod Retransmission
pub mod Conversation
pub mod LastAck
pub mod Stream
use arq_benchmark.Base.{
  ℕ, List, [], ◌∷◌, ◌++◌, Option, none, some, get_elem?, length, replicate, Outcome, returns, ◌>>=◌,
}
use arq_benchmark.Common.Host.{Host}
use arq_benchmark.Common.SequenceNumber.{next_sn}
use arq_benchmark.Common.DataPacketHeader.{packed_size}
use arq_benchmark.Common.DataPacket.{DataPacket, update_sequence_number}
use arq_benchmark.Rt.Buffer.{RtBuffer}
use arq_benchmark.Rs.Buffer.{RsBuffer}
use arq_benchmark.Transmitter
use arq_benchmark.Transmitter.{Transmitter}
use arq_benchmark.Receiver
use arq_benchmark.Receiver.{Receiver}

pub record System (T R : Type 0) : Type 0 where
  pub transmitter : Transmitter T
  pub receiver : Receiver R

-- A step of the transmitter's threads; the arrival of a copy of the `i`th array of bytes that was
-- sent, at the front of the array that is received into; a receive call that gives nothing; the two
-- other steps of the receiver; and the arrival at the transmitter of a copy of the `j`th array that
-- the receiver sent. The functions are the receiver's clock.
pub data Event : Type 0 where
  transmits : Transmitter.Step → Event
  arrives : (ℕ → ℕ) → ℕ → List ℕ → Event
  times_out : (ℕ → ℕ) → Event
  acks : Event
  gets_packet : Event
  ack_arrives : ℕ → List ℕ → Event

module _ {T R : Type 0} (host : Host) (rt : RtBuffer T) (rs : RsBuffer R) (fuel : ℕ) where
  abbrev receiver_step : Receiver.Step → System T R → Outcome (System T R)
  receiver_step s x =
      Receiver.step host rs fuel s x.receiver >>= λ r. returns (record x { receiver = r })

  -- Where no such array was sent, nothing arrives.
  unfoldable pub step : Event → System T R → Outcome (System T R)
  step (transmits s) x =
      Transmitter.step host rt s x.transmitter >>= λ t. returns (record x { transmitter = t })
  step (arrives clock i tail) x = elim (get_elem? x.transmitter.sent i) [
    | none ↦ returns x
    | some span ↦ receiver_step (Receiver.resequences clock (some (length span)) (span ++ tail)) x
  ]
  step (times_out clock) x =
      receiver_step (Receiver.resequences clock none (replicate packed_size 0)) x
  step acks x = receiver_step Receiver.acks x
  step gets_packet x = receiver_step Receiver.gets_packet x
  step (ack_arrives j tail) x = elim (get_elem? x.receiver.sent j) [
    | none ↦ returns x
    | some span ↦
        (Transmitter.step host rt (Transmitter.takes_ack (some (length span)) (span ++ tail))
            x.transmitter
          >>= λ t. returns (record x { transmitter = t }))
  ]

  unfoldable pub run : List Event → System T R → Outcome (System T R)
  unfolding step
  run [] x = returns x
  run (e ∷ events) x = step e x >>= run events

-- The packets that the application submits in the course of the events.
abbrev pub submissions : List Event → List DataPacket
submissions [] = []
submissions (transmits (Transmitter.sends now packet) ∷ events) = packet ∷ submissions events
submissions (transmits (Transmitter.transmits clock) ∷ events) = submissions events
submissions (transmits Transmitter.processes ∷ events) = submissions events
submissions (transmits (Transmitter.takes_ack received recv_buffer) ∷ events) = submissions events
submissions (arrives clock i tail ∷ events) = submissions events
submissions (times_out clock ∷ events) = submissions events
submissions (acks ∷ events) = submissions events
submissions (gets_packet ∷ events) = submissions events
submissions (ack_arrives j tail ∷ events) = submissions events

-- They, with consecutive numbers.
abbrev pub numbered : Host → ℕ → List DataPacket → List DataPacket
numbered host sn [] = []
numbered host sn (p ∷ ps) = update_sequence_number host sn p ∷ numbered host (next_sn sn) ps
