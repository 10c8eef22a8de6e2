-- ===== src/Rt/GoBackN/Acknowledge.antt =====
-- `do_acknowledgePacket` against the list of the packets that the buffer holds.
use arq_benchmark.Base.{
  ℕ, zero, suc, ◌+◌, ◌-◌, ◌%◌, ◌≤◌, ◌<◌, ◌≡◌, refl, ap, ◌∙◌, false, List, [], Option, none, some,
  arith, length, get_elem?, set, length-set, get_elem?-set_self, get_elem?-set_ne, drop,
  length-drop, ring_lt, ring_ne, returns, ◌>>=◌, ℕ_discrete, ◌⊎◌, inl, inr, Bool-cases, subst,
  drop_all, ltb, leb, lt→ltb, le→leb, lt→not_leb, le→not_ltb,
}
use native.Mathlib.Numerals.{add-one}
use arq_benchmark.Common.Host.{size_mod, u16_mod}
use arq_benchmark.Common.TxBufferObject.{TransmitBufferObject}
use arq_benchmark.Rt.Slots.{Represents-drop}
use arq_benchmark.Rt.GoBackN.{
  GoBackN, ack_round, ack_loop, advance, do_acknowledge_packet, do_packets_pending,
  do_ready_for_new_packet,
}
use arq_benchmark.Rt.GoBackN.Holds.{Tracks, Holds}

module _ (b : GoBackN) where
  -- The first `n` slots from the start on are cleared.
  pub cleared_buffer : ℕ → List (Option TransmitBufferObject)
  cleared_buffer zero = b.buffer
  cleared_buffer (suc n) = set (cleared_buffer n) ((b.start_idx + n) % b.window_size) none

  abbrev pub cleared : ℕ → GoBackN
  cleared n = record b {
    buffer = cleared_buffer n;
    packets_in_buffer = (b.packets_in_buffer + (size_mod - n)) % size_mod;
  }

  length-cleared_buffer : (n : ℕ) → length (cleared_buffer n) ≡ length b.buffer
  unfolding cleared_buffer
  length-cleared_buffer zero = refl
  length-cleared_buffer (suc n) =
      length-set (cleared_buffer n) ((b.start_idx + n) % b.window_size) none
      ∙ length-cleared_buffer n

module _ (b : GoBackN) (ps : List TransmitBufferObject) (h : Tracks b ps) where
  abbrev here : ℕ → ℕ
  here i = (b.start_idx + i) % b.window_size

  cleared_below :
      (n i : ℕ) → n ≤ b.window_size → i < n → get_elem? (cleared_buffer b n) (here i) ≡ some none
  unfolding cleared_buffer
  cleared_below zero i le lt = absurd (omega arith)
  cleared_below (suc n) i le lt = elim (ℕ_discrete n i) [
    | yes e ↦ rw (← e) (
        get_elem?-set_self (cleared_buffer b n) (here n) none (
          omega (
            arith,
            ring_lt b.window_size b.start_idx n h.ring.start_in,
            length-cleared_buffer b n,
            h.ring.storage,
          )))
    | no ne ↦
        get_elem?-set_ne (cleared_buffer b n) (here n) (here i) none
          (ring_ne b.window_size b.start_idx n i h.ring.start_in (omega arith) (omega arith) ne)
        ∙ cleared_below n i (omega arith) (omega arith)
  ]

  cleared_above :
      (n i : ℕ)
      → i < b.window_size
      → n ≤ i
      → get_elem? (cleared_buffer b n) (here i) ≡ some (get_elem? ps i)
  unfolding cleared_buffer
  cleared_above zero i lt le = h.ring.slots i lt
  cleared_above (suc n) i lt le =
      get_elem?-set_ne (cleared_buffer b n) (here n) (here i) none
        (ring_ne b.window_size b.start_idx n i h.ring.start_in (omega arith) lt (omega arith))
      ∙ cleared_above n i lt (omega arith)

  -- A round whose number is acknowledged clears its slot.
  ack_round-clears :
      (acked i : ℕ)
      → i < b.window_size
      → b.next_to_ack + i ≤ acked
      → ack_round acked i (cleared b i) ≡ returns (cleared b (suc i))
  unfolding ack_round cleared_buffer
  ack_round-clears acked i lt le =
      rw
        (
          le→leb (b.next_to_ack + i) acked le,
          lt→ltb (here i) (length (cleared_buffer b i)) (
              omega (
                arith,
                ring_lt b.window_size b.start_idx i h.ring.start_in,
                length-cleared_buffer b i,
                h.ring.storage,
              )),
        )
        (ap (λ n. returns (record b { buffer = cleared_buffer b (suc i); packets_in_buffer = n }))
          (omega (arith, h.window_u16)))

  -- A round beyond the acknowledged numbers does nothing, and so do those after it.
  ack_loop-idle :
      (rounds acked i : ℕ) (x : GoBackN)
      → acked < x.next_to_ack + i
      → ack_loop rounds acked i x ≡ returns x
  unfolding ack_loop ack_round
  ack_loop-idle zero acked i x lt = refl
  ack_loop-idle (suc rounds) acked i x lt =
      rw (lt→not_leb (x.next_to_ack + i) acked lt, ◌>>=◌)
        (ack_loop-idle rounds acked (i + 1) x (omega arith))

  -- The loop clears as many slots as numbers are acknowledged.
  ack_loop-clears :
      (rounds acked k i : ℕ)
      → acked + 1 ≡ b.next_to_ack + k
      → i ≤ k
      → k ≤ i + rounds
      → i + rounds ≡ b.window_size
      → ack_loop rounds acked i (cleared b i) ≡ returns (cleared b k)
  unfolding ack_loop
  ack_loop-clears zero acked k i sn le enough all =
      let last : i ≡ k = omega arith in ap (λ n. returns (cleared b n)) last
  ack_loop-clears (suc rounds) acked k i sn le enough all = elim (ℕ_discrete i k) [
    | yes e ↦
        ack_loop-idle (suc rounds) acked i (cleared b i) (omega arith)
        ∙ ap (λ n. returns (cleared b n)) e
    | no ne ↦
        rw (ack_round-clears acked i (omega arith) (omega arith), add-one, ◌>>=◌)
          (ack_loop-clears rounds acked k (suc i) sn (omega arith) (omega arith) (omega arith))
  ]

  whole_loop :
      (acked k : ℕ)
      → acked + 1 ≡ b.next_to_ack + k
      → k ≤ b.window_size
      → ack_loop b.window_size acked 0 b ≡ returns (cleared b k)
  unfolding cleared_buffer
  whole_loop acked k sn le =
      ap (λ n. ack_loop b.window_size acked 0 (record b { packets_in_buffer = n }))
        (omega (arith, h.counter_size, h.window_u16, h.ring.fits))
      ∙ ack_loop-clears b.window_size acked k 0 sn (omega arith) (omega arith) (omega arith)

  -- The state that `k` acknowledged packets lead to.
  abbrev pub acknowledged : ℕ → ℕ → GoBackN
  acknowledged acked k = record (cleared b k) {
    start_idx = (b.start_idx + k) % b.window_size;
    next_to_ack = (acked + 1) % u16_mod;
  }

  pub do_acknowledge_packet-inside :
      (acked k : ℕ)
      → acked + 1 ≡ b.next_to_ack + k
      → 0 < k
      → k ≤ b.window_size
      → 0 < b.packets_in_buffer
      → do_acknowledge_packet acked b ≡ returns (acknowledged acked k)
  unfolding do_acknowledge_packet do_packets_pending advance
  do_acknowledge_packet-inside acked k sn pos le some_held =
      rw
        (
          lt→not_leb (b.next_to_ack + b.window_size) acked (omega arith),
          lt→ltb 0 b.packets_in_buffer some_held,
          whole_loop acked k sn le,
          ◌>>=◌,
          le→leb b.next_to_ack acked (omega arith),
        )
        (ap
          (λ n.
            returns (record (cleared b k) { start_idx = n; next_to_ack = (acked + 1) % u16_mod }))
          (ap (λ n. n % b.window_size) (omega (arith, h.ring.start_in, h.window_u16))))

  -- Whatever the acknowledged number, the slots of the packets up to it are free, and the counter
  -- is no less than the number of the packets that are left.
  pub acknowledged-Tracks :
      (acked k : ℕ) → k ≤ b.window_size → Tracks (acknowledged acked k) (drop k ps)
  acknowledged-Tracks acked k le = record {
    ring =
        Represents-drop k h.ring (length-cleared_buffer b k ∙ h.ring.storage) le
          (λ i lt below. cleared_below k i le below) (λ i lt above. cleared_above k i lt above);
    at_least = omega (arith, h.at_least, h.counter_size, h.window_u16, length-drop k ps);
    counter_size = omega arith;
    window_u16 = h.window_u16;
    next_u16 = omega arith;
  }

  -- An ACK below the next one to come, or a window or more beyond it, or to an empty buffer,
  -- changes nothing.
  pub do_acknowledge_packet-ignored :
      (acked : ℕ)
      → (acked < b.next_to_ack)
        ⊎ ((b.next_to_ack + b.window_size ≤ acked) ⊎ (b.packets_in_buffer ≡ 0))
      → do_acknowledge_packet acked b ≡ returns b
  unfolding do_acknowledge_packet do_packets_pending advance
  do_acknowledge_packet-ignored acked (inl old) = elim (Bool-cases (ltb 0 b.packets_in_buffer)) [
    | inl pending ↦ rw (
      lt→not_leb (b.next_to_ack + b.window_size) acked (omega arith),
      pending,
      ack_loop-idle b.window_size acked 0 b (omega arith),
      ◌>>=◌,
      lt→not_leb b.next_to_ack acked old,
    )
    | inr empty ↦ rw (lt→not_leb (b.next_to_ack + b.window_size) acked (omega arith), empty)
  ]
  do_acknowledge_packet-ignored acked (inr (inl beyond)) =
      rw (le→leb (b.next_to_ack + b.window_size) acked beyond)
  do_acknowledge_packet-ignored acked (inr (inr e)) =
      elim (Bool-cases (leb (b.next_to_ack + b.window_size) acked)) [
        | inl beyond ↦ rw beyond
        | inr inside ↦ rw (inside, le→not_ltb 0 b.packets_in_buffer (omega arith))
      ]

-- An ACK for one of as many numbers as there are packets, from the next to be acknowledged on.
pub do_acknowledge_packet-counted :
    (b : GoBackN) (ps : List TransmitBufferObject) (acked : ℕ)
    → Holds b ps
    → b.next_to_ack ≤ acked
    → acked < b.next_to_ack + length ps
    → (b' : GoBackN) × (do_acknowledge_packet acked b ≡ returns b')
      × Holds b' (drop (acked + 1 - b.next_to_ack) ps)
      × (b'.next_to_ack ≡ (acked + 1) % u16_mod)
do_acknowledge_packet-counted b ps acked h lo hi =
    let k = acked + 1 - b.next_to_ack in
    let le : k ≤ b.window_size = omega (arith, h.tracks.ring.fits) in
    (
      acknowledged b ps h.tracks acked k,
      do_acknowledge_packet-inside b ps h.tracks acked k (omega arith) (omega arith) le
          (omega (arith, h.counted)),
      record {
        tracks = acknowledged-Tracks b ps h.tracks acked k le;
        counted =
            omega (arith, h.counted, h.tracks.ring.fits, h.tracks.window_u16, length-drop k ps);
      },
      refl,
    )

-- An ACK inside the window for a number that no held packet has makes the counter of the packets
-- wrap below zero, and the buffer refuses every new packet.
pub do_acknowledge_packet-unsent :
    (b : GoBackN) (ps : List TransmitBufferObject) (acked : ℕ)
    → Holds b ps
    → 0 < length ps
    → b.next_to_ack + length ps ≤ acked
    → acked < b.next_to_ack + b.window_size
    → (b' : GoBackN) × (do_acknowledge_packet acked b ≡ returns b')
      × Tracks b' []
      × (do_ready_for_new_packet b' ≡ false)
unfolding do_ready_for_new_packet
do_acknowledge_packet-unsent b ps acked h some_held lo hi =
    let k = acked + 1 - b.next_to_ack in
    (
      acknowledged b ps h.tracks acked k,
      do_acknowledge_packet-inside b ps h.tracks acked k (omega arith) (omega arith) (omega arith)
          (omega (arith, h.counted)),
      subst (Tracks (acknowledged b ps h.tracks acked k)) (drop_all k ps (omega arith))
          (acknowledged-Tracks b ps h.tracks acked k (omega arith)),
      le→not_ltb ((b.packets_in_buffer + (size_mod - k)) % size_mod) b.window_size
          (omega (arith, h.counted, h.tracks.window_u16)),
    )
