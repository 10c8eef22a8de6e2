-- ===== src/Base/Ring.antt =====
-- Indices of a circular buffer: `(start + i) % w`.
use Prim.Native.Nat.{ℕ, ◌+◌, ◌-◌, ◌%◌, ◌≤◌, ◌<◌}
use mathlib.Core.Path.{◌≡◌, ap, ◌∙◌}
use mathlib.Core.Logic.{◌≢◌, ◌⊎◌, inl, inr}
use native.Mathlib.Omega.{arith}
use native.Mathlib.Nat.{mod-add-mod, mod-eq_of_lt, mod-eq-sub-mod}
use native.Mathlib.Decide.{dec_lt}

-- Such an index either has not gone round, or has once.
pub ring_index :
    (w s i : ℕ)
    → s < w
    → i ≤ w
    → ((s + i < w) × ((s + i) % w ≡ s + i)) ⊎ ((w ≤ s + i) × ((s + i) % w ≡ s + i - w))
ring_index w s i hs hi = elim (dec_lt (s + i) w) [
  | yes p ↦ inl (p, mod-eq_of_lt p)
  | no p ↦ inr (
    omega arith,
    mod-eq-sub-mod {n = s + i} {m = w} (omega arith)
        ∙ mod-eq_of_lt {n = s + i - w} {m = w} (omega arith),
  )
]

pub ring_lt : (w s i : ℕ) → s < w → (s + i) % w < w
ring_lt w s i hs = omega arith

pub ring_start : (w s : ℕ) → s < w → (s + 0) % w ≡ s
ring_start w s hs = omega (arith, ring_index w s 0 hs)

-- Distinct offsets below `w` are distinct slots.
pub ring_ne : (w s i j : ℕ) → s < w → i < w → j < w → i ≢ j → (s + i) % w ≢ (s + j) % w
ring_ne w s i j hs hi hj ne =
    omega (arith, ring_index w s i hs (omega arith), ring_index w s j hs (omega arith))

-- The step of the loops, `idx = (idx + 1) % w`.
pub ring_next : (w s i : ℕ) → ((s + i) % w + 1) % w ≡ (s + (i + 1)) % w
ring_next w s i = mod-add-mod (s + i) w 1 ∙ ap (λ k. k % w) (omega arith)

-- After a whole round the index is back at the start, and not before.
pub ring_round : (w s i : ℕ) → s < w → i < w → (s + (i + 1)) % w ≡ s → i + 1 ≡ w
ring_round w s i hs hi e = omega (arith, ring_index w s (i + 1) hs (omega arith))

pub ring_full : (w s : ℕ) → s < w → (s + w) % w ≡ s
ring_full w s hs = omega (arith, ring_index w s w hs (omega arith))

-- Offsets from a start that has moved by `k`.
pub ring_shift : (w s k j : ℕ) → ((s + k) % w + j) % w ≡ (s + (k + j)) % w
ring_shift w s k j = mod-add-mod (s + k) w j ∙ ap (λ n. n % w) (omega arith)

pub ring_wrap : (w s i : ℕ) → s < w → w ≤ i → i < w + w → (s + i) % w ≡ (s + (i - w)) % w
ring_wrap w s i hs lo hi =
    mod-eq-sub-mod {n = s + i} {m = w} (omega arith) ∙ ap (λ n. n % w) (omega arith)
