-- ===== src/Base/Slots.antt =====
-- Writes to the slots of a circular buffer, by their offset from its start.
use Prim.Native.Nat.{ℕ, ◌+◌, ◌%◌, ◌<◌}
use mathlib.Core.Path.{◌≡◌}
use mathlib.Core.Logic.{◌≢◌}
use mathlib.Core.List.{List}
use mathlib.Core.Option.{some}
use native.Mathlib.Omega.{arith}
use arq_benchmark.Base.Lists.{length, get_elem?, set, get_elem?-set_self, get_elem?-set_ne}
use arq_benchmark.Base.Ring.{ring_lt, ring_ne}

module _ {ℓ} {A : Type ℓ} where
  pub slot-set_self :
      (buffer : List A) (w start k : ℕ) (v : A)
      → length buffer ≡ w
      → start < w
      → get_elem? (set buffer ((start + k) % w) v) ((start + k) % w) ≡ some v
  slot-set_self buffer w start k v len h =
      get_elem?-set_self buffer ((start + k) % w) v (omega (arith, ring_lt w start k h))

  pub slot-set_ne :
      (buffer : List A) (w start k i : ℕ) (v : A)
      → start < w
      → k < w
      → i < w
      → k ≢ i
      → get_elem? (set buffer ((start + k) % w) v) ((start + i) % w)
        ≡ get_elem? buffer ((start + i) % w)
  slot-set_ne buffer w start k i v h hk hi ne =
      get_elem?-set_ne buffer ((start + k) % w) ((start + i) % w) v (ring_ne w start k i h hk hi ne)
