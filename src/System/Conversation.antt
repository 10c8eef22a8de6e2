-- ===== src/System/Conversation.antt =====
-- A whole conversation, as the list of its steps: the application submits a packet when the one
-- before is acknowledged, the network loses some of the copies of each packet and of its ACKs, and
-- the transmitter sends again what is timed out.
pub mod Pair
pub mod Sending
pub mod Receiving
pub mod Exchange
pub mod Ending
pub mod Completion
pub mod Protocols
use arq_benchmark.Base.{ℕ, zero, suc, ◌+◌, ◌*◌, List, [], ◌∷◌, ◌++◌, map}
use arq_benchmark.Common.DataPacket.{DataPacket}
use arq_benchmark.Rt.GoBackN.{Readings}
use arq_benchmark.Transmitter
use arq_benchmark.System.{Event, transmits, arrives, acks, ack_arrives}

-- A packet, how many copies of it are lost before one arrives, and how many of the ACKs.
pub record Message : Type 0 where
  pub packet : DataPacket
  pub data_losses : ℕ
  pub ack_losses : ℕ

-- A clock that stands still.
abbrev pub readings_at : ℕ → Readings
readings_at now = record { check = λ i. now; stamp = now }

-- Nanoseconds that are more than a timeout of so many microseconds.
abbrev pub pause : ℕ → ℕ
pause timeout = (timeout + 1) * 1000

-- One pass of the transmitting thread.
abbrev pub transmits_at : ℕ → Event
transmits_at now = transmits (Transmitter.transmits (readings_at now))

-- A schedule is written with the steps that follow it, `next`. They depend on the time, and on how
-- many arrays the transmitter and the receiver have sent.
module _ (timeout : ℕ) (rx_clock : ℕ → ℕ) (tail : List ℕ) where
  -- Array `s` of the transmitter, its latest, is lost, and its packet is sent again, so many times.
  abbrev pub resends : ℕ → ℕ → ℕ → (ℕ → ℕ → List Event) → List Event
  resends now s zero next = next now s
  resends now s (suc losses) next =
      transmits_at (now + pause timeout) ∷ resends (now + pause timeout) (suc s) losses next

  -- ACK `a`, the latest, is lost; its packet is sent again, arrives, and is acknowledged again.
  abbrev pub acks_again : ℕ → ℕ → ℕ → ℕ → (ℕ → ℕ → ℕ → List Event) → List Event
  acks_again now s a zero next = next now s a
  acks_again now s a (suc losses) next =
      transmits_at (now + pause timeout)
      ∷ arrives rx_clock (suc s) tail
      ∷ acks
      ∷ acks_again (now + pause timeout) (suc s) (suc a) losses next

  -- From the submission of a packet to the last ACK of it, where `s` and `a` arrays were sent before.
  abbrev pub exchange : ℕ → ℕ → ℕ → Message → (ℕ → ℕ → ℕ → List Event) → List Event
  exchange now s a message next =
      transmits (Transmitter.sends now message.packet)
      ∷ transmits_at now
      ∷ resends now s message.data_losses (λ now' s'.
        arrives rx_clock s' tail
        ∷ acks
        ∷ acks_again now' s' a message.ack_losses (λ now'' s'' a''.
          ack_arrives a'' tail ∷ transmits Transmitter.processes ∷ next now'' (suc s'') (suc a'')))

  -- The messages one after the other.
  abbrev pub conversation : ℕ → ℕ → ℕ → List Message → (ℕ → ℕ → ℕ → List Event) → List Event
  conversation now s a [] next = next now s a
  conversation now s a (message ∷ messages) next =
      exchange now s a message (λ now' s' a'. conversation now' s' a' messages next)

  -- The messages, and then the end of the transmission.
  abbrev pub whole_conversation : List Message → DataPacket → ℕ → List Event
  whole_conversation messages last losses = conversation 0 0 0 messages (λ now s a.
      exchange now s a (record { packet = last; data_losses = losses; ack_losses = 0 })
        (λ now' s' a'. []))

abbrev pub packets_of : List Message → List DataPacket
packets_of messages = map (λ m. m.packet) messages

-- A copy with these bytes behind it, as it is read from the array that is received into.
abbrev pub followed_by : List ℕ → DataPacket → DataPacket
followed_by tail p = record p { bytes = p.bytes ++ tail }
