-- ===== src/Rs/SelectiveRepeat/Scan.antt =====
-- The loop of `updateBuffer` against the list of the window's slots.
use arq_benchmark.Base.{
  ℕ, suc, ◌+◌, ◌-◌, ◌%◌, ◌<◌, ◌≡◌, refl, ap, sym, ◌∙◌, List, [], ◌∷◌, ◌++◌, Option, none, some,
  append_assoc, append-nil, arith, length, get_elem?, set, drop, length-set, slot-set_self,
  slot-set_ne, ring_next, ring_round, ring_full, ℕ_discrete, ne→not_==, ==_refl, returns, ◌⊎◌, inl,
  inr, Outcome, subst,
}
use arq_benchmark.Common.Host.{u16_mod, size_mod}
use arq_benchmark.Common.DataPacket.{DataPacket}
use arq_benchmark.Util.SafeQueue
use arq_benchmark.Rs.SelectiveRepeat.{SelectiveRepeat, update_scan}
use arq_benchmark.Rs.SelectiveRepeat.Window.{count, run_of, count-le-length}

-- The loop after `i` rounds, with buffer `X`, counter `Z` and the slots `rest` before it.
pub record At (b : SelectiveRepeat) (X : List (Option DataPacket)) (Z i : ℕ)
    (rest : List (Option DataPacket)) : Type 0 where
  pub stored : length X ≡ b.window_size
  pub start_in : b.start_idx < b.window_size
  pub width : i + length rest ≡ b.window_size
  pub below : (j : ℕ) → j < i → get_elem? X ((b.start_idx + j) % b.window_size) ≡ some none
  pub above :
      (j : ℕ)
      → j < length rest
      → get_elem? X ((b.start_idx + (i + j)) % b.window_size) ≡ get_elem? rest j
  pub counts : Z ≡ count rest
  pub window_u16 : b.window_size < u16_mod

abbrev pub here : SelectiveRepeat → ℕ → ℕ
here b i = (b.start_idx + i) % b.window_size

abbrev pub loop_state :
    SelectiveRepeat → List (Option DataPacket) → ℕ → List DataPacket → SelectiveRepeat
loop_state b X Z q = record b {
  buffer = X;
  packets_in_buffer = Z;
  shadow_buffer = record { queue = q };
}

module _ (b : SelectiveRepeat) (X : List (Option DataPacket)) (Z i : ℕ) (p : DataPacket)
    (rest : List (Option DataPacket)) (a : At b X Z i (some p ∷ rest)) where
  -- A packet that is forwarded.
  At-forward : At b (set X (here b i) none) ((Z + (size_mod - 1)) % size_mod) (i + 1) rest
  At-forward = record {
    stored = length-set X (here b i) none ∙ a.stored;
    start_in = a.start_in;
    width = omega (arith, a.width);
    below = λ j lt. cleared j lt (ℕ_discrete j i);
    above = λ j lt.
        ap (λ n. get_elem? (set X (here b i) none) (here b n)) (omega arith)
        ∙ slot-set_ne X b.window_size b.start_idx i (i + suc j) none a.start_in
            (omega (arith, a.width)) (omega (arith, a.width)) (omega arith)
        ∙ a.above (suc j) (omega arith);
    counts = omega (arith, a.counts, count-le-length rest, a.width, a.window_u16);
    window_u16 = a.window_u16;
  }
    where
      cleared :
          (j : ℕ)
          → j < i + 1
          → Dec (j ≡ i)
          → get_elem? (set X (here b i) none) (here b j) ≡ some none
      cleared j lt (yes e) =
          rw e (slot-set_self X b.window_size b.start_idx i none a.stored a.start_in)
      cleared j lt (no ne) =
          slot-set_ne X b.window_size b.start_idx i j none a.start_in (omega (arith, a.width))
            (omega (arith, a.width)) (λ e. ne (sym e))
          ∙ a.below j (omega arith)

-- Where the loop stops, and what it leaves: at the first free slot, or back at the start.
abbrev pub Stops :
    SelectiveRepeat → List (Option DataPacket) → ℕ → ℕ → List (Option DataPacket) → ℕ → Type 0
Stops b X Z i rest new_start =
    ((length (run_of rest) < length rest)
      × (new_start ≡ here b (i + length (run_of rest)))
      × At b X Z (i + length (run_of rest)) (drop (length (run_of rest)) rest))
    ⊎ ((length (run_of rest) ≡ length rest) × (new_start ≡ b.start_idx) × At b X Z b.window_size [])

abbrev pub Drains :
    SelectiveRepeat
    → List DataPacket
    → ℕ
    → List (Option DataPacket)
    → Outcome (SelectiveRepeat × ℕ)
    → Type 0
Drains b q i rest r =
    (X : List (Option DataPacket)) × (Z : ℕ) × (new_start : ℕ) × (r
      ≡ returns (loop_state b X Z (q ++ run_of rest), new_start))
    × Stops b X Z i rest new_start

module _ (b : SelectiveRepeat) where
  -- The slot that round `i` looks at.
  slot-At :
      (X : List (Option DataPacket)) (Z i : ℕ) (s : Option DataPacket)
      (rest : List (Option DataPacket))
      → At b X Z i (s ∷ rest)
      → get_elem? X (here b i) ≡ some s
  slot-At X Z i s rest a = ap (λ n. get_elem? X (here b n)) (omega arith) ∙ a.above 0 (omega arith)

  abbrev cleared_at : List (Option DataPacket) → ℕ → List (Option DataPacket)
  cleared_at X i = set X (here b i) none

  abbrev one_less : ℕ → ℕ
  one_less Z = (Z + (size_mod - 1)) % size_mod

  -- A packet that is not in the last slot is forwarded, and the loop goes on.
  update_scan-step :
      (fuel : ℕ) (rest : List (Option DataPacket)) (p : DataPacket) (X : List (Option DataPacket))
      (Z i : ℕ) (q : List DataPacket)
      → At b X Z i (some p ∷ rest)
      → 0 < length rest
      → update_scan (suc fuel) (loop_state b X Z q) (here b i)
        ≡ update_scan fuel
            (loop_state b (cleared_at X i) (one_less Z) (q ++ p ∷ []))
            (here b (i + 1))
  unfolding update_scan SafeQueue.push
  update_scan-step fuel rest p X Z i q a more =
      rw
        (
          slot-At X Z i (some p) rest a,
          update_scan,
          ring_next b.window_size b.start_idx i,
          ne→not_== (here b (i + 1)) b.start_idx (λ back. absurd (
              omega (
                arith,
                a.width,
                ring_round b.window_size b.start_idx i a.start_in (omega (arith, a.width)) back,
              ))),
        )
        (ap (update_scan fuel (loop_state b (cleared_at X i) (one_less Z) (q ++ p ∷ [])))
          (ring_next b.window_size b.start_idx i))

  -- The loop forwards the run of packets that it meets, in order.
  pub update_scan-Drains :
      (rest : List (Option DataPacket)) (s : Option DataPacket) (X : List (Option DataPacket))
      (Z i : ℕ) (q : List DataPacket)
      → At b X Z i (s ∷ rest)
      → Drains b q i (s ∷ rest) (update_scan (suc (length rest)) (loop_state b X Z q) (here b i))
  unfolding update_scan SafeQueue.push
  update_scan-Drains rest none X Z i q a = (
    X,
    Z,
    here b i,
    rw (slot-At X Z i none rest a, append-nil q),
    inl (
      omega arith,
      ap (here b) (omega arith),
      subst (λ n. At b X Z n (none ∷ rest)) (omega arith) a,
    ),
  )
  update_scan-Drains [] (some p) X Z i q a =
      let last : i + 1 ≡ b.window_size = omega (arith, a.width) in
      (
        cleared_at X i,
        one_less Z,
        b.start_idx,
        rw (
          slot-At X Z i (some p) [] a,
          update_scan,
          ring_next b.window_size b.start_idx i,
          last,
          ring_full b.window_size b.start_idx a.start_in,
          ==_refl b.start_idx,
        ),
        inr (
          refl,
          refl,
          subst (λ n. At b (cleared_at X i) (one_less Z) n []) last (At-forward b X Z i p [] a),
        ),
      )
  update_scan-Drains (s ∷ rest) (some p) X Z i q a =
      let (X', Z', new_start, e, stops) =
        update_scan-Drains rest s (cleared_at X i) (one_less Z) (i + 1) (q ++ p ∷ [])
          (At-forward b X Z i p (s ∷ rest) a) in
      (
        X',
        Z',
        new_start,
        update_scan-step (suc (length rest)) (s ∷ rest) p X Z i q a (omega arith)
            ∙ e
            ∙ ap (λ l. returns (loop_state b X' Z' l, new_start))
                (append_assoc q (p ∷ []) (run_of (s ∷ rest))),
        elim stops [
          | inl (lt, here_now, at) ↦ inl (
            omega arith,
            here_now ∙ ap (here b) (omega arith),
            subst (λ n. At b X' Z' n (drop (length (run_of (s ∷ rest))) (s ∷ rest))) (omega arith)
                at,
          )
          | inr (all, back, at) ↦ inr (omega arith, back, at)
        ],
      )
