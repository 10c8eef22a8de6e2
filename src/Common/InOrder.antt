-- ===== src/Common/InOrder.antt =====
-- Packets in the order of their sequence numbers, which come back to 0 behind 65535.
use arq_benchmark.Base.{ℕ, ◌+◌, ◌%◌, ◌<◌, ◌≡◌, refl, ◌∙◌, List, [], ◌∷◌, ◌++◌, length, arith}
use arq_benchmark.Common.Host.{u16_mod}
use arq_benchmark.Common.SequenceNumber.{next_sn}
use arq_benchmark.Common.DataPacket.{DataPacket}

-- Packets that carry consecutive numbers from `first` on, with the number `next` to follow.
abbrev pub InOrder : ℕ → List DataPacket → ℕ → Type 0
InOrder first [] next = first ≡ next
InOrder first (p ∷ ps) next = (p.header.sequence_number ≡ first) × InOrder (next_sn first) ps next

pub InOrder-append :
    (first middle next : ℕ) (ps qs : List DataPacket)
    → InOrder first ps middle
    → InOrder middle qs next
    → InOrder first (ps ++ qs) next
InOrder-append first middle next [] qs h k = rw h k
InOrder-append first middle next (p ∷ ps) qs h k =
    (h.0, InOrder-append (next_sn first) middle next ps qs h.1 k)

pub InOrder-snoc :
    (first next : ℕ) (ps : List DataPacket) (p : DataPacket)
    → InOrder first ps next
    → p.header.sequence_number ≡ next
    → InOrder first (ps ++ p ∷ []) (next_sn next)
InOrder-snoc first next ps p h e = InOrder-append first next (next_sn next) ps (p ∷ []) h (e, refl)

-- The number to follow is as far on as there are packets.
pub InOrder-length :
    (first next : ℕ) (ps : List DataPacket)
    → first < u16_mod
    → InOrder first ps next
    → next ≡ (first + length ps) % u16_mod
InOrder-length first next [] lt h = omega arith
InOrder-length first next (p ∷ ps) lt h =
    InOrder-length (next_sn first) next ps (omega arith) h.1 ∙ omega arith
