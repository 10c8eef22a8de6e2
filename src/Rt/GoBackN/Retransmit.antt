-- ===== src/Rt/GoBackN/Retransmit.antt =====
-- `do_tryGetPacketSpan` against the list of the packets that the buffer holds.
use arq_benchmark.Base.{
  ℕ, zero, suc, ◌+◌, ◌%◌, ◌<◌, ◌≡◌, refl, ap, ◌∙◌, Bool, true, false, List, Option, none, some,
  arith, length, get_elem?, set, get_elem?_out, ring_next, ring_round, ring_start, ring_full,
  ne→not_==, ==_refl, Outcome, returns, ◌==◌, ℕ_discrete, ◌⊎◌, inl, inr, Option-cases, Bool-cases,
  length-set, dec_lt, subst, ltb,
}
use arq_benchmark.Common.DataPacket.{get_read_span}
use arq_benchmark.Common.TxBufferObject.{
  TransmitBufferObject, is_packet_timed_out, update_last_tx_time,
}
use arq_benchmark.Rt.Slots.{Represents-replace}
use arq_benchmark.Rt.GoBackN.{
  GoBackN, Readings, try_scan, do_try_get_packet_span, do_packets_pending, next_idx,
}
use arq_benchmark.Rt.GoBackN.Holds.{Tracks}

-- Is the `i`th of these packets there, and timed out when round `i` looks at it?
abbrev pub timed_out_at : ℕ → Readings → List TransmitBufferObject → ℕ → Bool
timed_out_at interval clock ps i = elim (get_elem? ps i) [
  | none ↦ false
  | some p ↦ is_packet_timed_out interval (clock.check i) p
]

-- The buffer with the `i`th packet stamped.
abbrev pub stamped : Readings → GoBackN → ℕ → TransmitBufferObject → GoBackN
stamped clock b i p = record b {
  buffer =
      set b.buffer ((b.start_idx + i) % b.window_size) (some (update_last_tx_time clock.stamp p));
}

-- The bytes of the earliest packet that is timed out are given out, or nothing is timed out and
-- nothing changes.
abbrev pub Retransmits :
    Readings → GoBackN → List TransmitBufferObject → Outcome (Option (List ℕ) × GoBackN) → Type 0
Retransmits clock b ps r =
    (((i : ℕ) → timed_out_at b.timeout_interval clock ps i ≡ false) × (r ≡ returns (none, b)))
    ⊎ ((i : ℕ) × (p : TransmitBufferObject) × (get_elem? ps i ≡ some p)
        × (timed_out_at b.timeout_interval clock ps i ≡ true)
        × ((j : ℕ) → j < i → timed_out_at b.timeout_interval clock ps j ≡ false)
        × (r ≡ returns (some (get_read_span p.packet), stamped clock b i p))
        × Tracks (stamped clock b i p) (set ps i (update_last_tx_time clock.stamp p)))

module _ (clock : Readings) (b : GoBackN) (ps : List TransmitBufferObject) (h : Tracks b ps) where
  abbrev here : ℕ → ℕ
  here i = (b.start_idx + i) % b.window_size

  -- What a round does when its slot gives nothing, if the next index is `idx`.
  abbrev rest_at : ℕ → ℕ → ℕ → Outcome (Option (List ℕ) × GoBackN)
  rest_at fuel i idx = elim (idx == b.start_idx) [
    | true ↦ returns (none, b)
    | false ↦ try_scan fuel clock b (i + 1) idx
  ]

  try_scan-skip :
      (fuel i : ℕ)
      → i < b.window_size
      → timed_out_at b.timeout_interval clock ps i ≡ false
      → try_scan (suc fuel) clock b i (here i) ≡ rest_at fuel i (here (i + 1))
  unfolding try_scan
  try_scan-skip fuel i hi miss =
      skipped (Option-cases (get_elem? ps i))
      ∙ ap (rest_at fuel i) (ring_next b.window_size b.start_idx i)
    where
      skipped :
          (get_elem? ps i ≡ none) ⊎ ((p : TransmitBufferObject) × (get_elem? ps i ≡ some p))
          → try_scan (suc fuel) clock b i (here i) ≡ rest_at fuel i (next_idx b (here i))
      skipped (inl e) = rw (h.ring.slots i hi, e, try_scan)
      skipped (inr (p, e)) = rw (h.ring.slots i hi, e, try_scan, (rw (e, timed_out_at) at miss))

  try_scan-hit :
      (fuel i : ℕ) (p : TransmitBufferObject)
      → i < b.window_size
      → get_elem? ps i ≡ some p
      → timed_out_at b.timeout_interval clock ps i ≡ true
      → try_scan (suc fuel) clock b i (here i)
        ≡ returns (some (get_read_span p.packet), stamped clock b i p)
  unfolding try_scan
  try_scan-hit fuel i p hi e hit =
      rw (h.ring.slots i hi, e, try_scan, (rw (e, timed_out_at) at hit))

  lt_of_get : (i : ℕ) (p : TransmitBufferObject) → get_elem? ps i ≡ some p → i < length ps
  lt_of_get i p e = elim (dec_lt i (length ps)) [
    | yes lt ↦ lt
    | no ge ↦ let out : get_elem? ps i ≡ none = get_elem?_out ps i (omega arith) in cc
  ]

  stamped-Tracks :
      (i : ℕ) (p : TransmitBufferObject)
      → i < length ps
      → Tracks (stamped clock b i p) (set ps i (update_last_tx_time clock.stamp p))
  stamped-Tracks i p lt = record {
    ring = Represents-replace i (update_last_tx_time clock.stamp p) h.ring lt;
    at_least = omega (arith, h.at_least, length-set ps i (update_last_tx_time clock.stamp p));
    counter_size = h.counter_size;
    window_u16 = h.window_u16;
    next_u16 = h.next_u16;
  }

  before_suc :
      (i : ℕ)
      → ((j : ℕ) → j < i → timed_out_at b.timeout_interval clock ps j ≡ false)
      → timed_out_at b.timeout_interval clock ps i ≡ false
      → (j : ℕ) → j < i + 1
      → timed_out_at b.timeout_interval clock ps j ≡ false
  before_suc i before miss j lt = elim (ℕ_discrete j i) [
    | yes e ↦ rw e miss
    | no ne ↦ before j (omega arith)
  ]

  -- After a whole round nothing is timed out.
  nothing :
      (i : ℕ)
      → i + 1 ≡ b.window_size
      → ((j : ℕ) → j < i + 1 → timed_out_at b.timeout_interval clock ps j ≡ false)
      → (j : ℕ) → timed_out_at b.timeout_interval clock ps j ≡ false
  nothing i last before j = elim (dec_lt j (i + 1)) [
    | yes lt ↦ before j lt
    | no ge ↦ rw (get_elem?_out ps j (omega (arith, h.ring.fits)), timed_out_at)
  ]

  found :
      (fuel i : ℕ) (p : TransmitBufferObject)
      → i < b.window_size
      → ((j : ℕ) → j < i → timed_out_at b.timeout_interval clock ps j ≡ false)
      → get_elem? ps i ≡ some p
      → timed_out_at b.timeout_interval clock ps i ≡ true
      → Retransmits clock b ps (try_scan (suc fuel) clock b i (here i))
  found fuel i p hi before e hit =
      inr
        (i, p, e, hit, before, try_scan-hit fuel i p hi e hit, stamped-Tracks i p (lt_of_get i p e))

  is_there :
      (i : ℕ)
      → timed_out_at b.timeout_interval clock ps i ≡ true
      → (p : TransmitBufferObject) × (get_elem? ps i ≡ some p)
  is_there i hit = elim (Option-cases (get_elem? ps i)) [
    | inl e ↦ let no_hit : false ≡ true = rw (e, timed_out_at) at hit in cc
    | inr there ↦ there
  ]

  -- From round `i` on, if the rounds before it found nothing.
  try_scan-Retransmits :
      (fuel i : ℕ)
      → i + suc fuel ≡ b.window_size
      → ((j : ℕ) → j < i → timed_out_at b.timeout_interval clock ps j ≡ false)
      → Retransmits clock b ps (try_scan (suc fuel) clock b i (here i))
  try_scan-Retransmits zero i enough before =
      elim (Bool-cases (timed_out_at b.timeout_interval clock ps i)) [
        | inl hit ↦ let (p, e) = is_there i hit in found zero i p (omega arith) before e hit
        | inr miss ↦ inl (
          nothing i (omega arith) (before_suc i before miss),
          try_scan-skip zero i (omega arith) miss
              ∙ (let last : i + 1 ≡ b.window_size = omega arith in
                  rw (
                    last,
                    ring_full b.window_size b.start_idx h.ring.start_in,
                    rest_at,
                    ==_refl b.start_idx,
                  )),
        )
      ]
  try_scan-Retransmits (suc fuel) i enough before =
      let more = try_scan-Retransmits fuel (i + 1) (omega arith) in
      elim (Bool-cases (timed_out_at b.timeout_interval clock ps i)) [
        | inl hit ↦ let (p, e) = is_there i hit in found (suc fuel) i p (omega arith) before e hit
        | inr miss ↦
            rw
              (
                try_scan-skip (suc fuel) i (omega arith) miss,
                rest_at,
                ne→not_== (here (i + 1)) b.start_idx (λ back. absurd (
                    omega (
                      arith,
                      ring_round b.window_size b.start_idx i h.ring.start_in (omega arith) back,
                    ))),
              )
              (more (before_suc i before miss))
      ]

  whole_scan :
      (w : ℕ) → w ≡ b.window_size → Retransmits clock b ps (try_scan w clock b 0 b.start_idx)
  whole_scan zero e = absurd (omega (arith, h.ring.start_in))
  whole_scan (suc fuel) e =
      subst (λ idx. Retransmits clock b ps (try_scan (suc fuel) clock b 0 idx))
        (ring_start b.window_size b.start_idx h.ring.start_in)
        (try_scan-Retransmits fuel 0 (omega arith) (λ j lt. absurd (omega arith)))

  -- `do_tryGetPacketSpan` gives out the bytes of the earliest held packet that is timed out, and
  -- stamps that packet with the time; where none is, it gives nothing and changes nothing.
  pub do_try_get_packet_span_refines : Retransmits clock b ps (do_try_get_packet_span clock b)
  unfolding do_try_get_packet_span do_packets_pending
  do_try_get_packet_span_refines = elim (Bool-cases (ltb 0 b.packets_in_buffer)) [
    | inl pending ↦ rw pending (whole_scan b.window_size refl)
    | inr empty ↦
        rw empty
          (inl (λ i. rw (get_elem?_out ps i (ground (arith, h.at_least)), timed_out_at), refl))
  ]
