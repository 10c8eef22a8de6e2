-- ===== src/Rt/Buffer.antt =====
-- src/arq/common/retransmission_buffer.hpp: what the transmitter asks of a retransmission buffer.
-- The class template is an interface, `RtBuffer`; `IsRtBuffer` is what its clients may rely on.
use arq_benchmark.Base.{ℕ, ◌≡◌, Bool, true, List, Option, Outcome, returns}
use arq_benchmark.Common.TxBufferObject.{TransmitBufferObject}
use arq_benchmark.Rt.GoBackN.{Readings}

-- A buffer `B` behind the operations of `RetransmissionBuffer<B>`.
pub record RtBuffer (B : Type 0) : Type 0 where
  pub add_packet : TransmitBufferObject → B → Outcome B
  pub try_get_packet_span : Readings → B → Outcome (Option (List ℕ) × B)
  pub ready_for_new_packet : B → Bool
  pub packets_pending : B → Bool
  pub acknowledge_packet : ℕ → B → Outcome B

-- From a valid buffer every call returns, and leaves a valid buffer, if a packet is added only to a
-- buffer that is ready for it.
pub record IsRtBuffer {B : Type 0} (ops : RtBuffer B) (IsValid : B → Type 0) : Type 0 where
  pub add_returns :
      (packet : TransmitBufferObject) (b : B)
      → IsValid b
      → ops.ready_for_new_packet b ≡ true
      → (b' : B) × (ops.add_packet packet b ≡ returns b') × IsValid b'
  pub try_get_returns :
      (clock : Readings) (b : B)
      → IsValid b
      → (span : Option (List ℕ)) × (b' : B) × (ops.try_get_packet_span clock b ≡ returns (span, b'))
        × IsValid b'
  pub acknowledge_returns :
      (seq_num : ℕ) (b : B)
      → IsValid b
      → (b' : B) × (ops.acknowledge_packet seq_num b ≡ returns b') × IsValid b'
