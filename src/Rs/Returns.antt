-- ===== src/Rs/Returns.antt =====
-- The resequencing buffers of the protocols against the laws that a receiver relies on.
use arq_benchmark.Base.{
  ℕ, suc, ◌+◌, ◌-◌, ◌≤◌, ◌<◌, ◌≡◌, refl, ap, ◌∙◌, true, List, [], ◌∷◌, Option, none, some, length,
  arith, Bool-cases, Option-cases, inl, inr, ◌⊎◌, returns, ◌==◌, ltb, get_elem?_in, set,
  length-append, length-set, dec_lt,
}
use arq_benchmark.Common.DataPacket.{DataPacket}
use arq_benchmark.Rs.Buffer.{IsRsBuffer}
use arq_benchmark.Rs.Instances.{go_back_n, stop_and_wait, selective_repeat}
use arq_benchmark.Rs.GoBackN
use arq_benchmark.Rs.GoBackN.{GoBackN}
use arq_benchmark.Rs.StopAndWait
use arq_benchmark.Rs.StopAndWait.{StopAndWait}
use arq_benchmark.Rs.SelectiveRepeat
use arq_benchmark.Rs.SelectiveRepeat.{SelectiveRepeat, do_add_packet}
use arq_benchmark.Rs.SelectiveRepeat.Window.{HasWindow, run_of, run_of-le-length}
use arq_benchmark.Rs.SelectiveRepeat.Add.{
  do_add_packet-rejects, do_add_packet-duplicate, do_add_packet-accepts,
}
use arq_benchmark.Util.SafeQueue

-- What a queue gives.
try_pop-shorter :
    (q : List DataPacket)
    → let x = SafeQueue.try_pop (record { queue = q }) in
      ((x.0 ≡ none) × (length x.1.queue ≡ 0))
      ⊎ ((p : DataPacket) × (x.0 ≡ some p) × (suc (length x.1.queue) ≡ length q))
unfolding SafeQueue.try_pop
try_pop-shorter [] = inl (refl, refl)
try_pop-shorter (p ∷ q) = inr (p, refl, refl)

abbrev pub gbn_waiting : GoBackN → ℕ
gbn_waiting b = length b.shadow_buffer.queue

pub go_back_n-IsRsBuffer : IsRsBuffer go_back_n (λ b. Unit {0}) gbn_waiting 1
unfolding GoBackN.do_add_packet GoBackN.do_get_next_packet SafeQueue.push
go_back_n-IsRsBuffer = record {
  add_returns = λ packet b v. (
    _,
    _,
    refl,
    tt,
    elim (Bool-cases (packet.header.sequence_number == b.next_sequence_number)) [
      | inl p ↦ rw p (omega (arith, length-append b.shadow_buffer.queue (packet ∷ [])))
      | inr p ↦ rw p (omega arith)
    ],
  );
  get_next_returns = λ b v. (tt, try_pop-shorter b.shadow_buffer.queue);
}

abbrev pub held : Option DataPacket → ℕ
held none = 0
held (some p) = 1

abbrev pub saw_waiting : StopAndWait → ℕ
saw_waiting b = held b.packet_for_delivery

pub stop_and_wait-IsRsBuffer : IsRsBuffer stop_and_wait (λ b. Unit {0}) saw_waiting 1
unfolding StopAndWait.do_add_packet StopAndWait.do_get_next_packet
stop_and_wait-IsRsBuffer = record {
  add_returns =
      λ packet b v. (_, _, refl, tt, added packet b.expected_packet_seq_num b.packet_for_delivery);
  get_next_returns = λ b v. (tt, given b.expected_packet_seq_num b.packet_for_delivery);
}
  where
    added :
        (packet : DataPacket) (expected : ℕ) (o : Option DataPacket)
        → let b : StopAndWait = record {
          expected_packet_seq_num = expected;
          packet_for_delivery = o;
        } in
          saw_waiting (StopAndWait.do_add_packet packet b).1 ≤ held o + 1
    added packet expected (some p) = omega arith
    added packet expected none = elim (Bool-cases (packet.header.sequence_number == expected)) [
      | inl p ↦ rw p (omega arith)
      | inr p ↦ elim (Bool-cases (ltb packet.header.sequence_number expected)) [
        | inl q ↦ rw (p, q) (omega arith)
        | inr q ↦ rw (p, q) (omega arith)
      ]
    ]

    given :
        (expected : ℕ) (o : Option DataPacket)
        → let x =
            StopAndWait.do_get_next_packet
              (record { expected_packet_seq_num = expected; packet_for_delivery = o }) in
          ((x.0 ≡ none) × (saw_waiting x.1 ≡ 0))
          ⊎ ((p : DataPacket) × (x.0 ≡ some p) × (suc (saw_waiting x.1) ≡ held o))
    given expected none = inl (refl, refl)
    given expected (some p) = inr (p, refl, refl)

-- A buffer with a window of `w` slots.
abbrev pub HasSlots : ℕ → SelectiveRepeat → Type 0
HasSlots w b = (b.window_size ≡ w) × (slots : List (Option DataPacket)) × HasWindow b slots

abbrev pub sr_waiting : SelectiveRepeat → ℕ
sr_waiting b = length b.shadow_buffer.queue

module _ (w : ℕ) (packet : DataPacket) (b : SelectiveRepeat) (size : b.window_size ≡ w)
    (slots : List (Option DataPacket)) (h : HasWindow b slots) where
  abbrev Added : Type 0
  Added =
      (ack : Option ℕ) × (b' : SelectiveRepeat) × (do_add_packet packet b ≡ returns (ack, b'))
      × HasSlots w b'
      × (sr_waiting b' ≤ sr_waiting b + w)

  added_inside :
      (i : ℕ) → packet.header.sequence_number ≡ b.earliest_expected + i → i < b.window_size → Added
  added_inside i sn inside =
      let (slot, e) = get_elem?_in slots i (omega (arith, h.width)) in
      elim (Option-cases slot) [
        | inr (p, q) ↦ (
          _,
          record b { can_send_acks = true },
          do_add_packet-duplicate b slots packet h i sn inside p (e ∙ ap some q),
          (
            size,
            slots,
            record {
              storage = h.storage;
              start_in = h.start_in;
              width = h.width;
              at = h.at;
              counted = h.counted;
              window_u16 = h.window_u16;
              earliest_u16 = h.earliest_u16;
            },
          ),
          omega arith,
        )
        | inl q ↦
            let (b', returned, u) =
              do_add_packet-accepts b slots packet h i sn inside (e ∙ ap some q) in
            let now = set slots i (some packet) in
            (
              _,
              b',
              returned,
              (u.same_size ∙ size, _, u.window),
              omega (
                arith,
                ap length u.forwarded,
                length-append b.shadow_buffer.queue (run_of now),
                run_of-le-length now,
                length-set slots i (some packet),
                h.width,
              ),
            )
      ]

  added_anywhere : Added
  added_anywhere = elim (dec_lt packet.header.sequence_number b.earliest_expected) [
    | yes early ↦
        (_, b, do_add_packet-rejects b slots packet h (inl early), (size, slots, h), omega arith)
    | no ge ↦ elim (dec_lt packet.header.sequence_number (b.earliest_expected + b.window_size)) [
      | no late ↦ (
        _,
        b,
        do_add_packet-rejects b slots packet h (inr (omega arith)),
        (size, slots, h),
        omega arith,
      )
      | yes inside ↦
          added_inside (packet.header.sequence_number - b.earliest_expected) (omega arith)
            (omega arith)
    ]
  ]

pub selective_repeat-IsRsBuffer : (w : ℕ) → IsRsBuffer selective_repeat (HasSlots w) sr_waiting w
unfolding SelectiveRepeat.do_get_next_packet
selective_repeat-IsRsBuffer w = record {
  add_returns = λ packet b (size, slots, h). added_anywhere w packet b size slots h;
  get_next_returns = λ b (size, slots, h). (
    (
      size,
      slots,
      record {
        storage = h.storage;
        start_in = h.start_in;
        width = h.width;
        at = h.at;
        counted = h.counted;
        window_u16 = h.window_u16;
        earliest_u16 = h.earliest_u16;
      },
    ),
    try_pop-shorter b.shadow_buffer.queue,
  );
}
