-- ===== src/Rt/GoBackN/Holds.antt =====
-- A Go-Back-N retransmission buffer that holds a list of packets, oldest first.
use arq_benchmark.Base.{
  ℕ, ◌<◌, ◌≡◌, ◌≤◌, refl, List, [], Option, none, arith, length, length-replicate,
  get_elem?-replicate, ring_lt, ◌+◌, ◌%◌,
}
use arq_benchmark.Common.Host.{u16_mod, size_mod}
use arq_benchmark.Common.TxBufferObject.{TransmitBufferObject}
use arq_benchmark.Rt.Slots.{Represents}
use arq_benchmark.Rt.GoBackN.{GoBackN, new}

-- The circular buffer holds the packets, and the counter of the packets is no less than their number.
pub record Tracks (b : GoBackN) (ps : List TransmitBufferObject) : Type 0 where
  pub ring : Represents b.buffer b.window_size b.start_idx ps
  pub at_least : length ps ≤ b.packets_in_buffer
  pub counter_size : b.packets_in_buffer < size_mod
  pub window_u16 : b.window_size < u16_mod
  pub next_u16 : b.next_to_ack < u16_mod

-- The same, with the counter exact.
pub record Holds (b : GoBackN) (ps : List TransmitBufferObject) : Type 0 where
  pub tracks : Tracks b ps
  pub counted : b.packets_in_buffer ≡ length ps

-- A new buffer holds nothing.
pub new-Holds :
    (window timeout first : ℕ)
    → 0 < window
    → window < u16_mod
    → first < u16_mod
    → Holds (new window timeout first) []
unfolding new
new-Holds window timeout first pos small h = record { tracks = tracked; counted = refl }
  where
    tracked : Tracks (new window timeout first) []
    tracked = record {
      ring = record {
        storage = length-replicate {A = Option TransmitBufferObject} window none;
        start_in = pos;
        fits = omega arith;
        slots = λ i hi.
            get_elem?-replicate window none ((0 + i) % window)
              (omega (arith, ring_lt window 0 i pos));
      };
      at_least = omega arith;
      counter_size = omega arith;
      window_u16 = small;
      next_u16 = h;
    }
