-- ===== src/Rs/Origin.antt =====
-- Where the packets come from that a resequencing buffer gives out: a law of its interface, and the
-- buffers of the protocols under it.
use arq_benchmark.Base.{
  ℕ, zero, suc, ◌+◌, true, List, [], ◌∷◌, All, OnSome, All-set, All-append, All-get_elem?, Option,
  none, some, is_some, get_elem?, Option-cases, Bool-cases, inl, inr, subst, ◌==◌, ◌||◌, ltb, leb,
  returns, OnReturn, OnReturn->>=,
}
use arq_benchmark.Common.DataPacket.{DataPacket}
use arq_benchmark.Rs.Buffer.{RsBuffer}
use arq_benchmark.Rs.GoBackN
use arq_benchmark.Rs.GoBackN.{GoBackN}
use arq_benchmark.Rs.StopAndWait
use arq_benchmark.Rs.StopAndWait.{StopAndWait}
use arq_benchmark.Rs.SelectiveRepeat
use arq_benchmark.Rs.SelectiveRepeat.{
  SelectiveRepeat, update_scan, move_start, update_buffer, insert, forward, next_idx, insertion_idx,
  with_ack,
}
use arq_benchmark.Rs.Instances.{go_back_n, stop_and_wait, selective_repeat}
use arq_benchmark.Util.SafeQueue

-- `Holds` says that `P` holds of all packets of a buffer. It stays so, if `P` holds of the packets
-- that are added; and `P` holds of what is given out.
pub record IsFaithful {B : Type 0} (ops : RsBuffer B) (P : DataPacket → Type 0) (Holds : B → Type 0)
    : Type 0 where
  pub add_keeps :
      (packet : DataPacket) (b : B)
      → P packet
      → Holds b
      → OnReturn (λ x. Holds x.1) (ops.add_packet packet b)
  pub get_next_keeps :
      (b : B) → Holds b → OnSome P (ops.get_next_packet b).0 × Holds (ops.get_next_packet b).1

module _ (P : DataPacket → Type 0) where
  try_pop_keeps :
      (q : List DataPacket)
      → All P q
      → OnSome P (SafeQueue.try_pop (record { queue = q })).0
        × All P (SafeQueue.try_pop (record { queue = q })).1.queue
  unfolding SafeQueue.try_pop
  try_pop_keeps [] h = (tt, tt)
  try_pop_keeps (p ∷ q) h = h

  abbrev pub ShadowHolds : GoBackN → Type 0
  ShadowHolds b = All P b.shadow_buffer.queue

  pub go_back_n-IsFaithful : IsFaithful go_back_n P ShadowHolds
  unfolding GoBackN.do_add_packet GoBackN.do_get_next_packet SafeQueue.push
  go_back_n-IsFaithful = record {
    add_keeps = λ packet b k h.
        elim (Bool-cases (packet.header.sequence_number == b.next_sequence_number)) [
          | inl p ↦ rw p (All-append P b.shadow_buffer.queue (packet ∷ []) h (k, tt))
          | inr p ↦ rw p h
        ];
    get_next_keeps = λ b h. try_pop_keeps b.shadow_buffer.queue h;
  }

  abbrev pub DeliveryHolds : StopAndWait → Type 0
  DeliveryHolds b = OnSome P b.packet_for_delivery

  pub stop_and_wait-IsFaithful : IsFaithful stop_and_wait P DeliveryHolds
  unfolding StopAndWait.do_add_packet StopAndWait.do_get_next_packet
  stop_and_wait-IsFaithful = record {
    add_keeps = λ packet b k h. elim (Bool-cases (is_some b.packet_for_delivery)) [
      | inl p ↦ rw p h
      | inr p ↦ elim (Bool-cases (packet.header.sequence_number == b.expected_packet_seq_num)) [
        | inl q ↦ rw (p, q) k
        | inr q ↦ elim (Bool-cases (ltb packet.header.sequence_number b.expected_packet_seq_num)) [
          | inl r ↦ rw (p, q, r) h
          | inr r ↦ rw (p, q, r) h
        ]
      ]
    ];
    get_next_keeps = λ b h. given b.expected_packet_seq_num b.packet_for_delivery h;
  }
    where
      given :
          (expected : ℕ) (held : Option DataPacket)
          → OnSome P held
          → let x =
              StopAndWait.do_get_next_packet
                (record { expected_packet_seq_num = expected; packet_for_delivery = held }) in
            OnSome P x.0 × DeliveryHolds x.1
      given expected none h = (tt, tt)
      given expected (some p) h = (h, tt)

  abbrev pub WindowHolds : SelectiveRepeat → Type 0
  WindowHolds b = All (OnSome P) b.buffer × All P b.shadow_buffer.queue

  forward-WindowHolds :
      (b : SelectiveRepeat) (i : ℕ) (p : DataPacket)
      → P p
      → WindowHolds b
      → WindowHolds (forward b i p)
  unfolding SafeQueue.push
  forward-WindowHolds b i p k h = (
    All-set (OnSome P) b.buffer i none h.0 tt,
    All-append P b.shadow_buffer.queue (p ∷ []) h.1 (k, tt),
  )

  update_scan-WindowHolds :
      (fuel : ℕ) (b : SelectiveRepeat) (i : ℕ)
      → WindowHolds b
      → OnReturn (λ x. WindowHolds x.0) (update_scan fuel b i)
  unfolding update_scan
  update_scan-WindowHolds zero b i h = tt
  update_scan-WindowHolds (suc fuel) b i h = elim (Option-cases (get_elem? b.buffer i)) [
    | inl e ↦ rw (e, update_scan) tt
    | inr (none, e) ↦ rw (e, update_scan) h
    | inr (some p, e) ↦
        let k : P p = subst (OnSome (OnSome P)) e (All-get_elem? (OnSome P) b.buffer i h.0) in
        elim (Bool-cases (next_idx b i == b.start_idx)) [
          | inl q ↦ rw (e, q, update_scan) (forward-WindowHolds b i p k h)
          | inr q ↦
              rw (e, q, update_scan)
                (update_scan-WindowHolds fuel (forward b i p) (next_idx b i)
                  (forward-WindowHolds b i p k h))
        ]
  ]

  move_start-WindowHolds :
      (b : SelectiveRepeat) (i : ℕ) → WindowHolds b → WindowHolds (move_start b i)
  unfolding move_start
  move_start-WindowHolds b i h = elim (Bool-cases (i == b.start_idx)) [
    | inl p ↦ rw p h
    | inr p ↦ rw p h
  ]

  update_buffer-WindowHolds :
      (b : SelectiveRepeat) → WindowHolds b → OnReturn WindowHolds (update_buffer b)
  unfolding update_buffer
  update_buffer-WindowHolds b h =
      OnReturn->>= (λ x. WindowHolds x.0) WindowHolds (update_scan b.window_size b b.start_idx)
        (λ x. returns (move_start x.0 x.1)) (update_scan-WindowHolds b.window_size b b.start_idx h)
        (λ x k. move_start-WindowHolds x.0 x.1 k)

  insert-WindowHolds :
      (b : SelectiveRepeat) (i : ℕ) (p : DataPacket)
      → P p
      → WindowHolds b
      → OnReturn WindowHolds (insert b i p)
  unfolding insert
  insert-WindowHolds b i p k h = elim (Option-cases (get_elem? b.buffer i)) [
    | inl e ↦ rw (e, insert) tt
    | inr (some q, e) ↦ rw (e, insert) h
    | inr (none, e) ↦
        rw (e, insert)
          (update_buffer-WindowHolds _ (All-set (OnSome P) b.buffer i (some p) h.0 k, h.1))
  ]

  pub selective_repeat-IsFaithful : IsFaithful selective_repeat P WindowHolds
  unfolding SelectiveRepeat.do_add_packet SelectiveRepeat.do_get_next_packet
  selective_repeat-IsFaithful = record {
    add_keeps = λ packet b k h.
        let received = packet.header.sequence_number in
        elim (Bool-cases (
          ltb received b.earliest_expected || leb (b.earliest_expected + b.window_size) received)) [
            | inl p ↦ rw p h
            | inr p ↦ rw p (
                OnReturn->>= WindowHolds (λ x. WindowHolds x.1)
                  (insert (record b { can_send_acks = true }) (insertion_idx b received) packet)
                  (λ c. returns (with_ack c))
                  (insert-WindowHolds (record b { can_send_acks = true }) (insertion_idx b received)
                    packet k h)
                  (λ c v. v))
          ];
    get_next_keeps = λ b h. let (k, v) = try_pop_keeps b.shadow_buffer.queue h.1 in (k, (h.0, v));
  }
