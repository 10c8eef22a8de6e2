-- ===== src/Rs/SelectiveRepeat/Update.antt =====
-- `updateBuffer` against the list of the window's slots.
use arq_benchmark.Base.{
  ℕ, ◌+◌, ◌-◌, ◌%◌, ◌≤◌, ◌<◌, ◌≡◌, refl, ap, sym, ◌∙◌, List, [], ◌∷◌, ◌++◌, Option, none, arith,
  length, get_elem?, drop, drop_all, replicate, length-append, length-replicate,
  get_elem?-replicate, get_elem?-append_left, ring_lt, ring_start, ring_shift, ring_wrap,
  ring_index, ℕ_discrete, dec_lt, ne→not_==, ==_refl, returns, if◌then◌else◌, ltb, lt→ltb,
  le→not_ltb, ◌⊎◌, inl, inr, ◌>>=◌, subst,
}
use arq_benchmark.Common.Host.{u16_mod, size_mod}
use arq_benchmark.Common.DataPacket.{DataPacket}
use arq_benchmark.Rs.SelectiveRepeat.{SelectiveRepeat, update_scan, move_start, update_buffer}
use arq_benchmark.Rs.SelectiveRepeat.Scan.{At, here, loop_state, Drains, update_scan-Drains}
use arq_benchmark.Rs.SelectiveRepeat.Window.{
  count, run_of, HasWindow, slide, count-append, count-replicate, get_elem?-append_right,
}

-- A window of which `k` slots have been emptied, seen from the slot behind them.
get_elem?-slid :
    (b : SelectiveRepeat) (X : List (Option DataPacket)) (Z k i : ℕ)
    (rest : List (Option DataPacket))
    → At b X Z k rest
    → i < b.window_size
    → get_elem? X ((here b k + i) % b.window_size) ≡ get_elem? (rest ++ replicate k none) i
get_elem?-slid b X Z k i rest a lt =
    ap (get_elem? X) (ring_shift b.window_size b.start_idx k i) ∙ seen (dec_lt i (length rest))
  where
    seen :
        Dec (i < length rest)
        → get_elem? X (here b (k + i)) ≡ get_elem? (rest ++ replicate k none) i
    seen (yes inside) =
        a.above i inside ∙ sym (get_elem?-append_left rest (replicate k none) i inside)
    seen (no outside) =
        let j = i - length rest in
        let split : length rest + j ≡ i = omega arith in
        ap (get_elem? X) (
          ring_wrap b.window_size b.start_idx (k + i) a.start_in (omega (arith, a.width))
            (omega (arith, a.width)))
        ∙ a.below (k + i - b.window_size) (omega (arith, a.width))
        ∙ sym (get_elem?-replicate k none j (omega (arith, a.width)))
        ∙ sym (get_elem?-append_right rest (replicate k none) j)
        ∙ ap (get_elem? (rest ++ replicate k none)) split

-- How far the start has moved: the two differences of the code.
distance :
    (s n k w : ℕ)
    → s < w
    → w < u16_mod
    → 0 < k
    → k < w
    → ((s + k < w) × (n ≡ s + k)) ⊎ ((w ≤ s + k) × (n ≡ s + k - w))
    → (if ltb s n then n - s else ((n + size_mod - s) % size_mod + w) % size_mod) ≡ k
distance s n k w hs hw pos lt (inl (before, e)) = rw (lt→ltb s n (omega arith)) (omega arith)
distance s n k w hs hw pos lt (inr (round, e)) = rw (le→not_ltb s n (omega arith)) (omega arith)

-- Moving the start by `k` slots moves the sequence number by `k`, also where the index goes round.
move_start-here :
    (b : SelectiveRepeat) (k : ℕ)
    → k < b.window_size
    → b.start_idx < b.window_size
    → b.window_size < u16_mod
    → b.earliest_expected < u16_mod
    → move_start b (here b k)
      ≡ record b { earliest_expected = (b.earliest_expected + k) % u16_mod; start_idx = here b k }
unfolding move_start
move_start-here b k lt hs hw he = elim (ℕ_discrete k 0) [
  | yes e ↦
      let stays : here b k ≡ b.start_idx =
        ap (here b) e ∙ ring_start b.window_size b.start_idx hs in
      rw (stays, ==_refl b.start_idx) (ap (λ n. record b { earliest_expected = n }) (omega arith))
  | no ne ↦
      let index = ring_index b.window_size b.start_idx k hs (omega arith) in
      rw (ne→not_== (here b k) b.start_idx (omega (arith, index))) (
        ap
          (λ n. record b {
            earliest_expected = (b.earliest_expected + n) % u16_mod;
            start_idx = here b k;
          })
          (distance b.start_idx (here b k) k b.window_size hs hw (omega arith) lt index))
]

move_start_same : (b : SelectiveRepeat) → move_start b b.start_idx ≡ b
unfolding move_start
move_start_same b = rw (==_refl b.start_idx)

-- What `updateBuffer` leaves: the run of packets at the start of the window is in the shadow buffer,
-- in order, and the window has slid behind it; but the earliest expected number and the start index
-- follow only if the run does not fill the window.
pub record Updated (b : SelectiveRepeat) (slots : List (Option DataPacket)) (b' : SelectiveRepeat)
    : Type 0 where
  pub window : HasWindow b' (slide (length (run_of slots)) slots)
  pub forwarded : b'.shadow_buffer.queue ≡ b.shadow_buffer.queue ++ run_of slots
  pub expects : b'.earliest_expected ≡ (
      if ltb (length (run_of slots)) b.window_size
      then (b.earliest_expected + length (run_of slots)) % u16_mod
      else b.earliest_expected)
  pub same_size : b'.window_size ≡ b.window_size
  pub same_acks : b'.can_send_acks ≡ b.can_send_acks

module _ (b : SelectiveRepeat) (slots : List (Option DataPacket)) (h : HasWindow b slots) where
  -- How the loop starts.
  begin : At b b.buffer b.packets_in_buffer 0 slots
  begin = record {
    stored = h.storage;
    start_in = h.start_in;
    width = omega (arith, h.width);
    below = λ j lt. absurd (omega arith);
    above = λ j lt.
        ap (λ n. get_elem? b.buffer (here b n)) (omega arith) ∙ h.at j (omega (arith, h.width));
    counts = h.counted;
    window_u16 = h.window_u16;
  }

  module _ (X : List (Option DataPacket)) (Z : ℕ) where
    abbrev drained : SelectiveRepeat
    drained = loop_state b X Z (b.shadow_buffer.queue ++ run_of slots)

    abbrev moved : SelectiveRepeat
    moved = record drained {
      earliest_expected = (b.earliest_expected + length (run_of slots)) % u16_mod;
      start_idx = here b (length (run_of slots));
    }

    -- The run ends at a free slot.
    moved-Updated :
        length (run_of slots) < b.window_size
        → At b X Z (length (run_of slots)) (drop (length (run_of slots)) slots)
        → Updated b slots moved
    moved-Updated lt a =
        let k = length (run_of slots) in
        record {
          window = record {
            storage = a.stored;
            start_in = ring_lt b.window_size b.start_idx k h.start_in;
            width = omega (
              arith,
              a.width,
              length-append (drop k slots) (replicate k none),
              length-replicate {A = Option DataPacket} k none,
            );
            at = λ i hi. get_elem?-slid b X Z k i (drop k slots) a hi;
            counted = omega (
              arith,
              a.counts,
              count-append (drop k slots) (replicate k none),
              count-replicate DataPacket k,
            );
            window_u16 = h.window_u16;
            earliest_u16 = omega arith;
          };
          forwarded = refl;
          expects = rw (lt→ltb k b.window_size lt);
          same_size = refl;
          same_acks = refl;
        }

    -- The run fills the window.
    drained-Updated :
        length (run_of slots) ≡ b.window_size → At b X Z b.window_size [] → Updated b slots drained
    drained-Updated all a =
        let k = length (run_of slots) in
        let nothing : drop k slots ≡ [] = drop_all k slots (omega (arith, h.width)) in
        record {
          window = record {
            storage = a.stored;
            start_in = h.start_in;
            width = omega (
              arith,
              ap length nothing,
              length-append (drop k slots) (replicate k none),
              length-replicate {A = Option DataPacket} k none,
            );
            at = λ i hi.
                a.below i hi
                ∙ sym (get_elem?-replicate k none i (omega arith))
                ∙ ap (λ l. get_elem? (l ++ replicate k none) i) (sym nothing);
            counted = omega (
              arith,
              a.counts,
              ap count nothing,
              count-append (drop k slots) (replicate k none),
              count-replicate DataPacket k,
            );
            window_u16 = h.window_u16;
            earliest_u16 = h.earliest_u16;
          };
          forwarded = refl;
          expects = rw (le→not_ltb k b.window_size (omega arith));
          same_size = refl;
          same_acks = refl;
        }

  -- The loop, from its first round on.
  update_buffer-scan :
      (c : SelectiveRepeat) (new_start : ℕ)
      → update_scan (length slots) b (here b 0) ≡ returns (c, new_start)
      → update_buffer b ≡ returns (move_start c new_start)
  unfolding update_buffer
  update_buffer-scan c new_start e =
      ap (λ o. o >>= (λ (x, n). returns (move_start x n)))
        (ap (λ n. update_scan n b b.start_idx) (sym h.width)
          ∙ ap (update_scan (length slots) b)
              (sym (ring_start b.window_size b.start_idx h.start_in))
          ∙ e)

  update_buffer-stops :
      Drains b b.shadow_buffer.queue 0 slots (update_scan (length slots) b (here b 0))
      → (b' : SelectiveRepeat) × (update_buffer b ≡ returns b') × Updated b slots b'
  update_buffer-stops (X, Z, new_start, e, inl (lt, there, a)) =
      let k = length (run_of slots) in
      let at_k : At b X Z k (drop k slots) =
        subst (λ n. At b X Z n (drop k slots)) (omega arith) a in
      (
        moved X Z,
        update_buffer-scan (drained X Z) new_start e
            ∙ ap (λ n. returns (move_start (drained X Z) n)) (there ∙ ap (here b) (omega arith))
            ∙ ap returns (
                move_start-here (drained X Z) k (omega (arith, h.width)) h.start_in h.window_u16
                  h.earliest_u16),
        moved-Updated X Z (omega (arith, h.width)) at_k,
      )
  update_buffer-stops (X, Z, new_start, e, inr (all, back, a)) = (
    drained X Z,
    update_buffer-scan (drained X Z) new_start e
        ∙ ap (λ n. returns (move_start (drained X Z) n)) back
        ∙ ap returns (move_start_same (drained X Z)),
    drained-Updated X Z (omega (arith, h.width)) a,
  )

-- `updateBuffer` returns on every window: the loop ends inside its fuel and reads no slot out of
-- range. `Updated` says what it leaves.
pub update_buffer_refines :
    (b : SelectiveRepeat) (slots : List (Option DataPacket))
    → HasWindow b slots
    → (b' : SelectiveRepeat) × (update_buffer b ≡ returns b') × Updated b slots b'
update_buffer_refines b [] h = absurd (omega (arith, h.width, h.start_in))
update_buffer_refines b (s ∷ rest) h = update_buffer-stops b (s ∷ rest) h (
    update_scan-Drains b rest s b.buffer b.packets_in_buffer 0 b.shadow_buffer.queue
      (begin b (s ∷ rest) h))
