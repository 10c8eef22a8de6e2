-- ===== src/System/Safety.antt =====
-- What a receiver hands out, over any pair of buffers that keep the laws of `Rt.Origin` and
-- `Rs.Origin`.
use arq_benchmark.Base.{
  ℕ, zero, suc, ◌<◌, ◌≡◌, refl, sym, subst, List, [], ◌∷◌, ◌++◌, All, OnSome, All-get_elem?,
  get_elem?, get_elem?-append_length, append_assoc, length, replicate, none, some, Option-cases,
  inl, inr, arith, Outcome, returns, OnReturn, OnReturn->>=, ◌>>=◌,
}
use arq_benchmark.Common.Host.{Host, IsNetworkOrder, u16_mod}
use arq_benchmark.Common.SequenceNumber.{first_sequence_number, next_sn}
use arq_benchmark.Common.InOrder.{InOrder}
use arq_benchmark.Common.DataPacket.{DataPacket, get_read_span}
use arq_benchmark.Common.DataPacket.Consistent.{IsConsistent, from_serial-get_read_span}
use arq_benchmark.Common.DataPacketHeader.{packed_size}
use arq_benchmark.Rt.Buffer.{RtBuffer}
use arq_benchmark.Rt.Origin as RtOrigin
use arq_benchmark.Rt.Origin.{IsSpan}
use arq_benchmark.Rs.Buffer.{RsBuffer}
use arq_benchmark.Rs.Origin as RsOrigin
use arq_benchmark.Transmitter
use arq_benchmark.Transmitter.Origin as Origin
use arq_benchmark.Receiver
use arq_benchmark.Receiver.{receive_packet}
use arq_benchmark.Receiver.Origin.{
  output, IsGenuine, resequencing_round-IsGenuine, try_get_packet-IsGenuine,
  ack_thread_round-IsGenuine,
}
use arq_benchmark.System.{
  System, Event, transmits, arrives, times_out, acks, gets_packet, ack_arrives, step, run,
  submissions, numbered,
}
use arq_benchmark.System.Prefix.{IsCopyOfOne, AreCopies, InOrder-AreCopies}

-- A consistent packet that is one of `ps`.
abbrev pub IsOneOf : List DataPacket → DataPacket → Type 0
IsOneOf ps p = IsConsistent p × (i : ℕ) × (get_elem? ps i ≡ some p)

pub All-IsOneOf :
    (before ps : List DataPacket) → All IsConsistent ps → All (IsOneOf (before ++ ps)) ps
All-IsOneOf before [] v = tt
All-IsOneOf before (p ∷ ps) v = (
  (v.0, length before, get_elem?-append_length before p ps),
  subst (λ l. All (IsOneOf l) ps) (append_assoc before (p ∷ []) ps)
      (All-IsOneOf (before ++ p ∷ []) ps v.1),
)

module _ {T R : Type 0} (rt : RtBuffer T) (rs : RsBuffer R)
    (HoldsT : (DataPacket → Type 0) → T → Type 0) (HoldsR : (DataPacket → Type 0) → R → Type 0)
    (rt_laws : (P : DataPacket → Type 0) → RtOrigin.IsFaithful rt P (HoldsT P))
    (rs_laws : (P : DataPacket → Type 0) → RsOrigin.IsFaithful rs P (HoldsR P)) (host : Host)
    (order : IsNetworkOrder host) (fuel : ℕ) (ps : List DataPacket) where
  -- What is sent are the bytes of packets of `ps`, and what is received are copies of them.
  pub record IsLinked (last : ℕ) (x : System T R) : Type 0 where
    pub origin :
        Origin.IsOrigin rt
          (IsOneOf ps)
          (HoldsT (IsOneOf ps))
          (rt_laws (IsOneOf ps))
          last
          x.transmitter
    pub genuine :
        IsGenuine rs
          (IsCopyOfOne ps)
          (HoldsR (IsCopyOfOne ps))
          (rs_laws (IsCopyOfOne ps))
          first_sequence_number
          x.receiver

  -- The packets that are still to be submitted are among `ps`.
  abbrev pub AreListed : ℕ → List Event → Type 0
  AreListed last events = All (IsOneOf ps) (numbered host (next_sn last) (submissions events))

  receive_packet-copy :
      (n : ℕ) (p : DataPacket) (tail : List ℕ)
      → IsOneOf ps p
      → OnReturn (OnSome (IsCopyOfOne ps)) (receive_packet host (some n) (get_read_span p ++ tail))
  unfolding receive_packet
  receive_packet-copy zero p tail k = tt
  receive_packet-copy (suc n) p tail k =
      let (v, i, e) = k in
      rw (from_serial-get_read_span host order p tail v) (i, p, e, (tail, refl))

  receiver_part :
      (last : ℕ) (x : System T R) (o : Outcome (Receiver.Receiver R))
      → IsLinked last x
      → OnReturn
          (IsGenuine rs
            (IsCopyOfOne ps)
            (HoldsR (IsCopyOfOne ps))
            (rs_laws (IsCopyOfOne ps))
            first_sequence_number)
          o
      → OnReturn (IsLinked last) (o >>= λ r. returns (record x { receiver = r }))
  receiver_part last x o v h =
      OnReturn->>= _ (IsLinked last) o (λ r. returns (record x { receiver = r })) h
        (λ r g. record { origin = v.origin; genuine = g })

  transmitter_part :
      (last last' : ℕ) (x : System T R) (o : Outcome (Transmitter.Transmitter T))
      → IsLinked last x
      → OnReturn
          (Origin.IsOrigin rt (IsOneOf ps) (HoldsT (IsOneOf ps)) (rt_laws (IsOneOf ps)) last')
          o
      → OnReturn (IsLinked last') (o >>= λ t. returns (record x { transmitter = t }))
  transmitter_part last last' x o v h =
      OnReturn->>= _ (IsLinked last') o (λ t. returns (record x { transmitter = t })) h
        (λ t g. record { origin = g; genuine = v.genuine })

  arrives-IsLinked :
      (last : ℕ) (clock : ℕ → ℕ) (i : ℕ) (tail : List ℕ) (x : System T R)
      → IsLinked last x
      → OnReturn (IsLinked last) (step host rt rs fuel (arrives clock i tail) x)
  unfolding step Receiver.step
  arrives-IsLinked last clock i tail x v = elim (Option-cases (get_elem? x.transmitter.sent i)) [
    | inl e ↦ rw (e, step) v
    | inr (span, e) ↦
        let (p, k, same) =
          subst (OnSome (IsSpan (IsOneOf ps))) e
            (All-get_elem? (IsSpan (IsOneOf ps)) x.transmitter.sent i v.origin.spans) in
        rw (e, step)
          (receiver_part last x _ v (
            resequencing_round-IsGenuine rs (IsCopyOfOne ps) (HoldsR (IsCopyOfOne ps))
              (rs_laws (IsCopyOfOne ps)) first_sequence_number host fuel clock (some (length span))
              (span ++ tail) x.receiver
              (subst
                (λ s.
                  OnReturn (OnSome (IsCopyOfOne ps))
                    (receive_packet host (some (length span)) (s ++ tail)))
                (sym same) (receive_packet-copy (length span) p tail k))
              v.genuine))
  ]

  ack_arrives-IsLinked :
      (last j : ℕ) (tail : List ℕ) (x : System T R)
      → IsLinked last x
      → OnReturn (IsLinked last) (step host rt rs fuel (ack_arrives j tail) x)
  unfolding step Transmitter.step
  ack_arrives-IsLinked last j tail x v = elim (Option-cases (get_elem? x.receiver.sent j)) [
    | inl e ↦ rw (e, step) v
    | inr (span, e) ↦
        rw (e, step)
          (transmitter_part last last x
            (Transmitter.step host rt (Transmitter.takes_ack (some (length span)) (span ++ tail))
              x.transmitter)
            v
            (Origin.takes_ack-IsOrigin rt (IsOneOf ps) (HoldsT (IsOneOf ps)) (rt_laws (IsOneOf ps))
              last host (some (length span)) (span ++ tail) x.transmitter v.origin))
  ]

  -- Every event keeps the link.
  pub step-IsLinked :
      (last : ℕ) (e : Event) (events : List Event) (x : System T R)
      → AreListed last (e ∷ events)
      → IsLinked last x
      → (last' : ℕ) × OnReturn (IsLinked last') (step host rt rs fuel e x) × AreListed last' events
  unfolding step Transmitter.step Receiver.step receive_packet
  step-IsLinked last (transmits (Transmitter.sends now packet)) events x l v = (
    next_sn last,
    record {
      origin =
          Origin.send_packet-IsOrigin rt (IsOneOf ps) (HoldsT (IsOneOf ps)) (rt_laws (IsOneOf ps))
            last host now packet x.transmitter l.0 v.origin;
      genuine = v.genuine;
    },
    l.1,
  )
  step-IsLinked last (transmits (Transmitter.transmits clock)) events x l v = (
    last,
    transmitter_part last last x _ v (
        Origin.transmits-IsOrigin rt (IsOneOf ps) (HoldsT (IsOneOf ps)) (rt_laws (IsOneOf ps)) last
          host clock x.transmitter v.origin),
    l,
  )
  step-IsLinked last (transmits Transmitter.processes) events x l v = (
    last,
    transmitter_part last last x _ v (
        Origin.processes-IsOrigin rt (IsOneOf ps) (HoldsT (IsOneOf ps)) (rt_laws (IsOneOf ps)) last
          host x.transmitter v.origin),
    l,
  )
  step-IsLinked last (transmits (Transmitter.takes_ack received recv_buffer)) events x l v = (
    last,
    transmitter_part last last x
        (Transmitter.step host rt (Transmitter.takes_ack received recv_buffer) x.transmitter) v
        (Origin.takes_ack-IsOrigin rt (IsOneOf ps) (HoldsT (IsOneOf ps)) (rt_laws (IsOneOf ps)) last
          host received recv_buffer x.transmitter v.origin),
    l,
  )
  step-IsLinked last (arrives clock i tail) events x l v =
      (last, arrives-IsLinked last clock i tail x v, l)
  step-IsLinked last (times_out clock) events x l v = (
    last,
    receiver_part last x _ v (
        resequencing_round-IsGenuine rs (IsCopyOfOne ps) (HoldsR (IsCopyOfOne ps))
          (rs_laws (IsCopyOfOne ps)) first_sequence_number host fuel clock none
          (replicate packed_size 0) x.receiver tt v.genuine),
    l,
  )
  step-IsLinked last acks events x l v = (
    last,
    record {
      origin = v.origin;
      genuine =
          ack_thread_round-IsGenuine rs (IsCopyOfOne ps) (HoldsR (IsCopyOfOne ps))
            (rs_laws (IsCopyOfOne ps)) first_sequence_number host x.receiver v.genuine;
    },
    l,
  )
  step-IsLinked last gets_packet events x l v = (
    last,
    record {
      origin = v.origin;
      genuine =
          try_get_packet-IsGenuine rs (IsCopyOfOne ps) (HoldsR (IsCopyOfOne ps))
            (rs_laws (IsCopyOfOne ps)) first_sequence_number x.receiver v.genuine;
    },
    l,
  )
  step-IsLinked last (ack_arrives j tail) events x l v =
      (last, ack_arrives-IsLinked last j tail x v, l)

  run-IsLinked :
      (last : ℕ) (events : List Event) (x : System T R)
      → AreListed last events
      → IsLinked last x
      → OnReturn (λ y. (last' : ℕ) × IsLinked last' y) (run host rt rs fuel events x)
  unfolding run
  run-IsLinked last [] x l v = (last, v)
  run-IsLinked last (e ∷ events) x l v =
      let (last', w, l') = step-IsLinked last e events x l v in
      OnReturn->>= (IsLinked last') (λ y. (n : ℕ) × IsLinked n y) (step host rt rs fuel e x)
        (run host rt rs fuel events) w (λ y h. run-IsLinked last' events y l' h)

  -- Linked systems hand out copies, in order, of the packets that were submitted.
  pub IsLinked-AreCopies :
      (last next : ℕ) (x : System T R)
      → length ps < u16_mod
      → InOrder first_sequence_number ps next
      → IsLinked last x
      → AreCopies (output x.receiver) ps
  IsLinked-AreCopies last next x few o v =
      InOrder-AreCopies first_sequence_number x.receiver.output_buffer.next_sequence_number next ps
        (output x.receiver) (omega arith) few o v.genuine.in_order v.genuine.genuine
