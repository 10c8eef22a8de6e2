-- ===== src/Rs/Buffer.antt =====
-- src/arq/common/resequencing_buffer.hpp: what the receiver asks of a resequencing buffer. The class
-- template is an interface.
use arq_benchmark.Base.{ℕ, suc, ◌+◌, ◌≤◌, ◌≡◌, ◌⊎◌, Bool, Option, none, some, Outcome, returns}
use arq_benchmark.Common.DataPacket.{DataPacket}

-- A buffer `B` behind the operations of `ResequencingBuffer<B>`.
pub record RsBuffer (B : Type 0) : Type 0 where
  -- The option is a sequence number to send as an ACK.
  pub add_packet : DataPacket → B → Outcome (Option ℕ × B)
  pub packets_pending : B → Bool
  pub get_next_packet : B → Option DataPacket × B

-- From a valid buffer every call returns, and leaves a valid buffer. At most `bound` packets more
-- wait to be given out after one is added, and each that is given out is one less.
pub record IsRsBuffer {B : Type 0} (ops : RsBuffer B) (IsValid : B → Type 0) (waiting : B → ℕ)
    (bound : ℕ) : Type 0 where
  pub add_returns :
      (packet : DataPacket) (b : B)
      → IsValid b
      → (ack : Option ℕ) × (b' : B) × (ops.add_packet packet b ≡ returns (ack, b'))
        × IsValid b'
        × (waiting b' ≤ waiting b + bound)
  pub get_next_returns :
      (b : B)
      → IsValid b
      → IsValid (ops.get_next_packet b).1
        × (((ops.get_next_packet b).0 ≡ none) × (waiting (ops.get_next_packet b).1 ≡ 0)
            ⊎ ((p : DataPacket) × ((ops.get_next_packet b).0 ≡ some p)
                × (suc (waiting (ops.get_next_packet b).1) ≡ waiting b)))
