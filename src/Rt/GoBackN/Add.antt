-- ===== src/Rt/GoBackN/Add.antt =====
-- `do_addPacket` against the list of the packets that the buffer holds.
use arq_benchmark.Base.{
  ℕ, zero, suc, ◌+◌, ◌%◌, ◌≤◌, ◌<◌, ◌≡◌, ap, sym, ◌∙◌, List, [], ◌∷◌, ◌++◌, some, arith, length,
  set, get_elem?_in, get_elem?_out, length-append, ring_next, ring_round, ring_start, ring_full,
  ne→not_==, ==_refl, returns, throws, ◌⊎◌, inl, inr, ℕ_discrete, dec_lt,
}
use arq_benchmark.Common.Host.{size_mod}
use arq_benchmark.Common.TxBufferObject.{TransmitBufferObject}
use arq_benchmark.Rt.Slots.{Represents-append}
use arq_benchmark.Rt.GoBackN.{GoBackN, add_scan, do_add_packet}
use arq_benchmark.Rt.GoBackN.Holds.{Tracks, Holds}

-- The buffer with a packet in its first free slot.
abbrev pub with_packet : GoBackN → TransmitBufferObject → ℕ → GoBackN
with_packet b packet n = record b {
  buffer = set b.buffer ((b.start_idx + n) % b.window_size) (some packet);
  packets_in_buffer = (b.packets_in_buffer + 1) % size_mod;
}

module _ (packet : TransmitBufferObject) (b : GoBackN) (ps : List TransmitBufferObject)
    (h : Tracks b ps) where
  -- The scan walks over the occupied slots.
  add_scan-occupied :
      (fuel i : ℕ)
      → i < length ps
      → i + 1 < b.window_size
      → add_scan (suc fuel) packet b ((b.start_idx + i) % b.window_size)
        ≡ add_scan fuel packet b ((b.start_idx + (i + 1)) % b.window_size)
  unfolding add_scan
  add_scan-occupied fuel i hi more =
      let (p, e) = get_elem?_in ps i hi in
      rw
        (
          h.ring.slots i (omega arith),
          e,
          add_scan,
          ring_next b.window_size b.start_idx i,
          ne→not_== ((b.start_idx + (i + 1)) % b.window_size) b.start_idx (λ back. absurd (
              omega (
                arith,
                ring_round b.window_size b.start_idx i h.ring.start_in (omega arith) back,
              ))),
        )
        (ap (add_scan fuel packet b) (ring_next b.window_size b.start_idx i))

  -- Until it finds the first free slot, if there is one.
  add_scan-free :
      (fuel i : ℕ)
      → length ps < b.window_size
      → i ≤ length ps
      → length ps < i + fuel
      → add_scan fuel packet b ((b.start_idx + i) % b.window_size)
        ≡ returns (with_packet b packet (length ps))
  unfolding add_scan
  add_scan-free zero i room le enough = absurd (omega arith)
  add_scan-free (suc fuel) i room le enough = elim (ℕ_discrete i (length ps)) [
    | yes e ↦
        rw (h.ring.slots i (omega arith), get_elem?_out ps i (omega arith), add_scan)
          (ap (λ n. returns (with_packet b packet n)) e)
    | no ne ↦
        add_scan-occupied fuel i (omega arith) (omega arith)
        ∙ add_scan-free fuel (i + 1) room (omega arith) (omega arith)
  ]

  -- In a full buffer it comes back to the start.
  add_scan-full :
      (fuel i : ℕ)
      → length ps ≡ b.window_size
      → i < length ps
      → length ps ≤ i + fuel
      → add_scan fuel packet b ((b.start_idx + i) % b.window_size) ≡ throws
  unfolding add_scan
  add_scan-full zero i full le enough = absurd (omega arith)
  add_scan-full (suc fuel) i full le enough = elim (ℕ_discrete (i + 1) b.window_size) [
    | yes e ↦
        let (p, q) = get_elem?_in ps i le in
        rw (
          h.ring.slots i (omega arith),
          q,
          add_scan,
          ring_next b.window_size b.start_idx i,
          e,
          ring_full b.window_size b.start_idx h.ring.start_in,
          ==_refl b.start_idx,
        )
    | no ne ↦
        add_scan-occupied fuel i le (omega arith)
        ∙ add_scan-full fuel (i + 1) full (omega arith) (omega arith)
  ]

  -- The new packet is held behind the others.
  pub with_packet-Tracks :
      length ps < b.window_size
      → b.packets_in_buffer + 1 < size_mod
      → Tracks (with_packet b packet (length ps)) (ps ++ packet ∷ [])
  with_packet-Tracks room small = record {
    ring = Represents-append packet h.ring room;
    at_least = omega (arith, h.at_least, length-append ps (packet ∷ []));
    counter_size = omega arith;
    window_u16 = h.window_u16;
    next_u16 = h.next_u16;
  }

  at_start :
      add_scan b.window_size packet b b.start_idx
      ≡ add_scan b.window_size packet b ((b.start_idx + 0) % b.window_size)
  at_start =
      ap (add_scan b.window_size packet b)
        (sym (ring_start b.window_size b.start_idx h.ring.start_in))

  pub do_add_packet-room :
      length ps < b.window_size
      → do_add_packet packet b ≡ returns (with_packet b packet (length ps))
  unfolding do_add_packet
  do_add_packet-room room =
      at_start ∙ add_scan-free b.window_size 0 room (omega arith) (omega arith)

  do_add_packet-full : length ps ≡ b.window_size → do_add_packet packet b ≡ throws
  unfolding do_add_packet
  do_add_packet-full all =
      at_start ∙ add_scan-full b.window_size 0 all (omega (arith, h.ring.start_in)) (omega arith)

-- While there is room the packet goes behind those that the buffer holds, and a full buffer throws;
-- the scan reads no slot out of range and does not run out of fuel.
pub do_add_packet_refines :
    (packet : TransmitBufferObject) (b : GoBackN) (ps : List TransmitBufferObject)
    → Holds b ps
    → ((length ps < b.window_size)
        × ((b' : GoBackN) × (do_add_packet packet b ≡ returns b') × Holds b' (ps ++ packet ∷ [])))
      ⊎ ((length ps ≡ b.window_size) × (do_add_packet packet b ≡ throws))
do_add_packet_refines packet b ps h = elim (dec_lt (length ps) b.window_size) [
  | yes room ↦ inl (
    room,
    (
      with_packet b packet (length ps),
      do_add_packet-room packet b ps h.tracks room,
      record {
        tracks =
            with_packet-Tracks packet b ps h.tracks room
              (omega (arith, h.counted, h.tracks.window_u16));
        counted = omega (arith, h.counted, h.tracks.window_u16, length-append ps (packet ∷ []));
      },
    ),
  )
  | no full ↦
      let all : length ps ≡ b.window_size = omega (arith, h.tracks.ring.fits) in
      inr (all, do_add_packet-full packet b ps h.tracks all)
]
