-- ===== src/Rs/SelectiveRepeat/Window.antt =====
-- The sliding window of a Selective Repeat resequencing buffer, as the list of its slots in the order
-- of their sequence numbers.
use arq_benchmark.Base.{
  ℕ, zero, suc, ◌+◌, ◌%◌, ◌≤◌, ◌<◌, ◌≡◌, refl, ap, sym, ◌∙◌, List, [], ◌∷◌, ◌++◌, Option, none,
  some, arith, length, get_elem?, set, drop, replicate, length-replicate, get_elem?-replicate,
  ring_lt,
}
use arq_benchmark.Common.Host.{u16_mod}
use arq_benchmark.Common.DataPacket.{DataPacket}
use arq_benchmark.Rs.SelectiveRepeat.{SelectiveRepeat, new}

module _ {ℓ} {A : Type ℓ} where
  -- The occupied slots.
  abbrev pub count : List (Option A) → ℕ
  count [] = 0
  count (none ∷ slots) = count slots
  count (some a ∷ slots) = suc (count slots)

  -- The packets before the first free slot.
  abbrev pub run_of : List (Option A) → List A
  run_of [] = []
  run_of (none ∷ slots) = []
  run_of (some a ∷ slots) = a ∷ run_of slots

  pub count-le-length : (slots : List (Option A)) → count slots ≤ length slots
  count-le-length [] = omega arith
  count-le-length (none ∷ slots) = omega (arith, count-le-length slots)
  count-le-length (some a ∷ slots) = omega (arith, count-le-length slots)

  pub run_of-le-length : (slots : List (Option A)) → length (run_of slots) ≤ length slots
  run_of-le-length [] = omega arith
  run_of-le-length (none ∷ slots) = omega arith
  run_of-le-length (some a ∷ slots) = omega (arith, run_of-le-length slots)

  pub run_of-le-count : (slots : List (Option A)) → length (run_of slots) ≤ count slots
  run_of-le-count [] = omega arith
  run_of-le-count (none ∷ slots) = omega arith
  run_of-le-count (some a ∷ slots) = omega (arith, run_of-le-count slots)

  pub count-set :
      (slots : List (Option A)) (i : ℕ) (a : A)
      → get_elem? slots i ≡ some none
      → count (set slots i (some a)) ≡ suc (count slots)
  count-set [] i a e = cc
  count-set (none ∷ slots) zero a e = refl
  count-set (some x ∷ slots) zero a e = cc
  count-set (none ∷ slots) (suc i) a e = count-set slots i a e
  count-set (some x ∷ slots) (suc i) a e = ap suc (count-set slots i a e)

  pub count-append : (xs ys : List (Option A)) → count (xs ++ ys) ≡ count xs + count ys
  count-append [] ys = omega arith
  count-append (none ∷ xs) ys = count-append xs ys
  count-append (some x ∷ xs) ys = omega (arith, count-append xs ys)

  pub get_elem?-append_right :
      (xs ys : List A) (i : ℕ) → get_elem? (xs ++ ys) (length xs + i) ≡ get_elem? ys i
  get_elem?-append_right [] ys i = ap (get_elem? ys) (omega arith)
  get_elem?-append_right (x ∷ xs) ys i =
      let e : suc (length xs) + i ≡ suc (length xs + i) = omega arith in
      ap (get_elem? (x ∷ xs ++ ys)) e ∙ get_elem?-append_right xs ys i

pub count-replicate {ℓ} : (A : Type ℓ) (n : ℕ) → count {A = A} (replicate n none) ≡ 0
count-replicate A zero = refl
count-replicate A (suc n) = count-replicate A n

-- Slot `start + i` is the `i`th of the window.
pub record HasWindow (b : SelectiveRepeat) (slots : List (Option DataPacket)) : Type 0 where
  pub storage : length b.buffer ≡ b.window_size
  pub start_in : b.start_idx < b.window_size
  pub width : length slots ≡ b.window_size
  pub at :
      (i : ℕ)
      → i < b.window_size
      → get_elem? b.buffer ((b.start_idx + i) % b.window_size) ≡ get_elem? slots i
  pub counted : b.packets_in_buffer ≡ count slots
  pub window_u16 : b.window_size < u16_mod
  pub earliest_u16 : b.earliest_expected < u16_mod

-- The window after its first `k` slots have left it.
abbrev pub slide : ℕ → List (Option DataPacket) → List (Option DataPacket)
slide k slots = drop k slots ++ replicate k none

-- A new buffer has an empty window.
pub new-HasWindow :
    (window first : ℕ)
    → 0 < window
    → window < u16_mod
    → first < u16_mod
    → HasWindow (new window first) (replicate window none)
unfolding new
new-HasWindow window first pos small h = record {
  storage = length-replicate {A = Option DataPacket} window none;
  start_in = pos;
  width = length-replicate {A = Option DataPacket} window none;
  at = λ i hi.
      get_elem?-replicate window none ((0 + i) % window) (ring_lt window 0 i pos)
      ∙ sym (get_elem?-replicate window none i hi);
  counted = sym (count-replicate DataPacket window);
  window_u16 = small;
  earliest_u16 = h;
}
