-- ===== src/Rt/Origin.antt =====
-- Where the bytes come from that a retransmission buffer gives out: a law of its interface, beside
-- those of `Buffer`, and the buffers of the protocols under it.
use arq_benchmark.Base.{
  ℕ, zero, suc, ◌+◌, ◌%◌, ◌≡◌, refl, Bool, true, false, not, List, All, OnSome, All-set,
  All-get_elem?, All-replicate, Option, none, some, is_some, get_elem?, Option-cases, Bool-cases,
  inl, inr, subst, ◌==◌, ltb, leb, length, Outcome, returns, OnReturn, OnReturn->>=,
}
use arq_benchmark.Common.DataPacket.{DataPacket, get_read_span}
use arq_benchmark.Common.TxBufferObject.{
  TransmitBufferObject, is_packet_timed_out, update_last_tx_time,
}
use arq_benchmark.Rt.Buffer.{RtBuffer}
use arq_benchmark.Rt.GoBackN
use arq_benchmark.Rt.GoBackN.{
  GoBackN, Readings, add_scan, try_scan, next_idx, ack_round, ack_loop, advance,
}
use arq_benchmark.Rt.StopAndWait
use arq_benchmark.Rt.StopAndWait.{StopAndWait}
use arq_benchmark.Rt.Instances.{go_back_n, stop_and_wait}

-- The bytes of a packet that `P` holds of.
abbrev pub IsSpan : (DataPacket → Type 0) → List ℕ → Type 0
IsSpan P bytes = (p : DataPacket) × P p × (bytes ≡ get_read_span p)

-- `Holds` says that `P` holds of all packets of a buffer. It stays so, if `P` holds of the packets
-- that are added; and what is given out are the bytes of such a packet.
pub record IsFaithful {B : Type 0} (ops : RtBuffer B) (P : DataPacket → Type 0) (Holds : B → Type 0)
    : Type 0 where
  pub add_keeps :
      (packet : TransmitBufferObject) (b : B)
      → P packet.packet
      → Holds b
      → OnReturn Holds (ops.add_packet packet b)
  pub try_get_keeps :
      (clock : Readings) (b : B)
      → Holds b
      → OnReturn (λ x. OnSome (IsSpan P) x.0 × Holds x.1) (ops.try_get_packet_span clock b)
  pub acknowledge_keeps :
      (seq_num : ℕ) (b : B) → Holds b → OnReturn Holds (ops.acknowledge_packet seq_num b)

module _ (P : DataPacket → Type 0) where
  abbrev pub OfObject : TransmitBufferObject → Type 0
  OfObject t = P t.packet

  abbrev pub RingHolds : GoBackN → Type 0
  RingHolds b = All (OnSome OfObject) b.buffer

  abbrev Given : Option (List ℕ) × GoBackN → Type 0
  Given x = OnSome (IsSpan P) x.0 × RingHolds x.1

  slot_holds :
      (b : GoBackN) (i : ℕ) (t : TransmitBufferObject)
      → RingHolds b
      → get_elem? b.buffer i ≡ some (some t)
      → P t.packet
  slot_holds b i t h e =
      subst (OnSome (OnSome OfObject)) e (All-get_elem? (OnSome OfObject) b.buffer i h)

  add_scan-RingHolds :
      (fuel : ℕ) (packet : TransmitBufferObject) (b : GoBackN) (i : ℕ)
      → P packet.packet
      → RingHolds b
      → OnReturn RingHolds (add_scan fuel packet b i)
  unfolding add_scan
  add_scan-RingHolds zero packet b i k h = tt
  add_scan-RingHolds (suc fuel) packet b i k h = elim (Option-cases (get_elem? b.buffer i)) [
    | inl e ↦ rw (e, add_scan) tt
    | inr (none, e) ↦ rw (e, add_scan) (All-set (OnSome OfObject) b.buffer i (some packet) h k)
    | inr (some t, e) ↦ elim (Bool-cases (next_idx b i == b.start_idx)) [
      | inl q ↦ rw (e, q, add_scan) tt
      | inr q ↦ rw (e, q, add_scan) (add_scan-RingHolds fuel packet b (next_idx b i) k h)
    ]
  ]

  next_round :
      (fuel : ℕ) (clock : Readings) (b : GoBackN) (i idx : ℕ)
      → RingHolds b
      → (last : Bool) → OnReturn Given (try_scan fuel clock b (i + 1) (next_idx b idx))
      → OnReturn Given (elim last as (λ c. Outcome (Option (List ℕ) × GoBackN)) [
        | true ↦ returns (none, b)
        | false ↦ try_scan fuel clock b (i + 1) (next_idx b idx)
      ])
  next_round fuel clock b i idx h true next = (tt, h)
  next_round fuel clock b i idx h false next = next

  try_scan-RingHolds :
      (fuel : ℕ) (clock : Readings) (b : GoBackN) (i idx : ℕ)
      → RingHolds b
      → OnReturn Given (try_scan fuel clock b i idx)
  unfolding try_scan get_read_span update_last_tx_time
  try_scan-RingHolds zero clock b i idx h = tt
  try_scan-RingHolds (suc fuel) clock b i idx h = elim (Option-cases (get_elem? b.buffer idx)) [
    | inl e ↦ rw (e, try_scan) tt
    | inr (none, e) ↦
        rw (e, try_scan)
          (next_round fuel clock b i idx h (next_idx b idx == b.start_idx)
            (try_scan-RingHolds fuel clock b (i + 1) (next_idx b idx) h))
    | inr (some t, e) ↦
        elim (Bool-cases (is_packet_timed_out b.timeout_interval (clock.check i) t)) [
          | inl q ↦
              rw (e, q, try_scan)
                (
                  (t.packet, slot_holds b idx t h e, refl),
                  All-set (OnSome OfObject) b.buffer idx (some (update_last_tx_time clock.stamp t))
                      h (slot_holds b idx t h e),
                )
          | inr q ↦
              rw (e, q, try_scan)
                (next_round fuel clock b i idx h (next_idx b idx == b.start_idx)
                  (try_scan-RingHolds fuel clock b (i + 1) (next_idx b idx) h))
        ]
  ]

  ack_round-RingHolds :
      (acked i : ℕ) (b : GoBackN) → RingHolds b → OnReturn RingHolds (ack_round acked i b)
  unfolding ack_round
  ack_round-RingHolds acked i b h = elim (Bool-cases (leb (b.next_to_ack + i) acked)) [
    | inl p ↦ elim (Bool-cases (ltb ((b.start_idx + i) % b.window_size) (length b.buffer))) [
      | inl q ↦ rw (p, q) (All-set (OnSome OfObject) b.buffer _ none h tt)
      | inr q ↦ rw (p, q) tt
    ]
    | inr p ↦ rw p h
  ]

  ack_loop-RingHolds :
      (rounds acked i : ℕ) (b : GoBackN)
      → RingHolds b
      → OnReturn RingHolds (ack_loop rounds acked i b)
  unfolding ack_loop
  ack_loop-RingHolds zero acked i b h = h
  ack_loop-RingHolds (suc rounds) acked i b h =
      OnReturn->>= RingHolds RingHolds (ack_round acked i b) (ack_loop rounds acked (i + 1))
        (ack_round-RingHolds acked i b h) (λ c k. ack_loop-RingHolds rounds acked (i + 1) c k)

  advance-RingHolds : (acked : ℕ) (b : GoBackN) → RingHolds b → RingHolds (advance acked b)
  unfolding advance
  advance-RingHolds acked b h = elim (Bool-cases (leb b.next_to_ack acked)) [
    | inl p ↦ rw p h
    | inr p ↦ rw p h
  ]

  -- The circular buffer of Go-Back-N and of Selective Repeat.
  pub go_back_n-IsFaithful : IsFaithful go_back_n P RingHolds
  unfolding GoBackN.do_add_packet GoBackN.do_try_get_packet_span GoBackN.do_acknowledge_packet
  go_back_n-IsFaithful = record {
    add_keeps = λ packet b k h. add_scan-RingHolds b.window_size packet b b.start_idx k h;
    try_get_keeps = λ clock b h. elim (Bool-cases (GoBackN.do_packets_pending b)) [
      | inl p ↦ rw (p, not) (try_scan-RingHolds b.window_size clock b 0 b.start_idx h)
      | inr p ↦ rw (p, not) (tt, h)
    ];
    acknowledge_keeps = λ sn b h. elim (Bool-cases (leb (b.next_to_ack + b.window_size) sn)) [
      | inl p ↦ rw p h
      | inr p ↦ elim (Bool-cases (GoBackN.do_packets_pending b)) [
        | inr q ↦ rw (p, q, not) h
        | inl q ↦
            rw (p, q, not)
              (OnReturn->>= RingHolds RingHolds (ack_loop b.window_size sn 0 b)
                (λ c. returns (advance sn c)) (ack_loop-RingHolds b.window_size sn 0 b h)
                (λ c k. advance-RingHolds sn c k))
      ]
    ];
  }

  pub new-RingHolds : (w timeout first : ℕ) → RingHolds (GoBackN.new w timeout first)
  unfolding GoBackN.new
  new-RingHolds w timeout first = All-replicate (OnSome OfObject) w none tt

  abbrev pub PacketHolds : StopAndWait → Type 0
  PacketHolds b = OnSome OfObject b.retransmit_packet

  pub stop_and_wait-IsFaithful : IsFaithful stop_and_wait P PacketHolds
  unfolding StopAndWait.do_add_packet StopAndWait.do_try_get_packet_span
      StopAndWait.do_acknowledge_packet get_read_span update_last_tx_time
  stop_and_wait-IsFaithful = record {
    add_keeps = λ packet b k h. elim (Bool-cases (is_some b.retransmit_packet)) [
      | inl p ↦ rw p tt
      | inr p ↦ rw p k
    ];
    try_get_keeps = λ clock b h. given clock b.timeout_interval b.retransmit_packet h;
    acknowledge_keeps = λ sn b h. kept sn b.timeout_interval b.retransmit_packet h;
  }
    where
      given :
          (clock : Readings) (timeout : ℕ) (held : Option TransmitBufferObject)
          → OnSome OfObject held
          → let x =
              StopAndWait.do_try_get_packet_span clock
                (record { timeout_interval = timeout; retransmit_packet = held }) in
            OnSome (IsSpan P) x.0 × PacketHolds x.1
      given clock timeout none h = (tt, tt)
      given clock timeout (some p) h =
          elim (Bool-cases (is_packet_timed_out timeout (clock.check 0) p)) [
            | inl q ↦ rw q ((p.packet, h, refl), h)
            | inr q ↦ rw q (tt, h)
          ]

      kept :
          (sn timeout : ℕ) (held : Option TransmitBufferObject)
          → OnSome OfObject held
          → PacketHolds (
              StopAndWait.do_acknowledge_packet sn
                (record { timeout_interval = timeout; retransmit_packet = held }))
      kept sn timeout none h = tt
      kept sn timeout (some p) h = elim (Bool-cases (sn == p.info.sequence_number)) [
        | inl q ↦ rw q tt
        | inr q ↦ rw q h
      ]
