-- ===== src/System/Conversation/Pair.antt =====
-- A transmitter and a receiver that hold a conversation: the buffers, and the state.
use arq_benchmark.Base.{ℕ, suc, ◌<◌, ◌≡◌, refl, ap, List, ◌∷◌, returns, ◌>>=◌, ◌==◌}
use arq_benchmark.Common.Host.{Host, IsNetworkOrder, u16_mod}
use arq_benchmark.Common.DataPacket.{DataPacket, is_end_of_tx, update_sequence_number}
use arq_benchmark.Common.DataPacket.Consistent.{IsConsistent, update_sequence_number-IsConsistent}
use arq_benchmark.Common.OutputBuffer.{ReceiveBufferObject}
use arq_benchmark.Common.TxBufferObject.{TransmitBufferObject}
use arq_benchmark.Rt.Buffer.{RtBuffer}
use arq_benchmark.Rt.Serial as Rt
use arq_benchmark.Rs.Buffer.{RsBuffer}
use arq_benchmark.Rs.Serial as Rs
use arq_benchmark.Transmitter.{Transmitter}
use arq_benchmark.Receiver.{Receiver}
use arq_benchmark.System.{System, Event, step, run}
use arq_benchmark.System.Conversation.{followed_by}

-- The packet that was submitted at one time, and sent last at another.
abbrev pub sent_at : ℕ → ℕ → ℕ → DataPacket → TransmitBufferObject
sent_at first last n packet = record {
  packet = packet;
  info = record { first_tx_time = first; last_tx_time = last; sequence_number = n };
}

-- A transmitter and a receiver between them.
abbrev pub pair : {T R : Type 0} → Transmitter T → Receiver R → System T R
pair t r = record { transmitter = t; receiver = r }

-- The buffers of one protocol, each with the laws that an exchange relies on.
pub record SerialPair (T R : Type 0) : Type 1 where
  pub rt : RtBuffer T
  pub timeout : ℕ
  pub Idle : ℕ → T → Type 0
  pub Holding : ℕ → TransmitBufferObject → T → Type 0
  pub rt_laws : Rt.IsSerial rt timeout Idle Holding
  pub rs : RsBuffer R
  pub Expecting : ℕ → R → Type 0
  pub Given : ℕ → R → Type 0
  pub rs_laws : Rs.IsSerial rs Expecting Given

module _ {T R : Type 0} (laws : SerialPair T R) (host : Host) (fuel : ℕ) where
  -- A step that returns leaves the rest of the run.
  pub run-returns :
      (e : Event) (events : List Event) (x y : System T R)
      → step host laws.rt laws.rs (suc (suc fuel)) e x ≡ returns y
      → run host laws.rt laws.rs (suc (suc fuel)) (e ∷ events) x
        ≡ run host laws.rt laws.rs (suc (suc fuel)) events y
  unfolding run
  run-returns e events x y q = rw (q, ◌>>=◌) refl

-- What waits for the application after a packet went through.
abbrev pub received_at : (ℕ → ℕ) → List ℕ → DataPacket → ReceiveBufferObject
received_at rx_clock tail packet = record { packet = followed_by tail packet; rx_time = rx_clock 0 }

-- Numbering a packet keeps it consistent, and the end of the transmission the end.
pub numbered_packet :
    (host : Host) (order : IsNetworkOrder host) (n : ℕ) (packet : DataPacket)
    → n < u16_mod
    → IsConsistent packet
    → IsConsistent (update_sequence_number host n packet)
      × ((update_sequence_number host n packet).header.sequence_number ≡ n)
      × (is_end_of_tx (update_sequence_number host n packet) ≡ is_end_of_tx packet)
unfolding is_end_of_tx
numbered_packet host order n packet small valid =
    let (v, header, payload) =
      update_sequence_number-IsConsistent host order n packet small valid in
    (v, ap (λ h. h.sequence_number) header, ap (λ h. h.length_ == 0) header)
