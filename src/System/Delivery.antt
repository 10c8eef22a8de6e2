-- ===== src/System/Delivery.antt =====
-- Whole runs of a transmitter and a receiver, over any pair of buffers that keep the laws of their
-- interfaces.
use arq_benchmark.Base.{
  ℕ, ◌<◌, ◌≤◌, ◌≡◌, refl, ap, subst, List, [], ◌∷◌, ◌++◌, All, OnSome, All-get_elem?, get_elem?,
  length, length-append, length-replicate, replicate, none, some, Option-cases, inl, inr, arith,
  Outcome, returns, OnReturn, ◌>>=◌,
}
use arq_benchmark.Common.Host.{Host, IsNetworkOrder, u16_mod}
use arq_benchmark.Common.SequenceNumber.{first_sequence_number, previous_sn}
use arq_benchmark.Common.DataPacket.{DataPacket, get_read_span}
use arq_benchmark.Common.DataPacket.Consistent.{IsConsistent}
use arq_benchmark.Common.DataPacketHeader.{packed_size}
use arq_benchmark.Common.InputBuffer
use arq_benchmark.Rt.Buffer.{RtBuffer, IsRtBuffer}
use arq_benchmark.Rt.Origin as RtOrigin
use arq_benchmark.Rt.Origin.{IsSpan}
use arq_benchmark.Rs.Buffer.{RsBuffer, IsRsBuffer}
use arq_benchmark.Rs.Origin as RsOrigin
use arq_benchmark.Transmitter
use arq_benchmark.Transmitter.Safety.{step-IsSafe}
use arq_benchmark.Receiver
use arq_benchmark.Receiver.InSequence.{HasRoom}
use arq_benchmark.Receiver.Origin.{output}
use arq_benchmark.Receiver.Progress.{IsReady, step-Returns}
use arq_benchmark.System.{
  System, Event, transmits, arrives, times_out, acks, gets_packet, ack_arrives, step, run,
  submissions, numbered,
}
use arq_benchmark.System.Prefix.{AreCopies, numbered-InOrder}
use arq_benchmark.System.Safety.{
  IsOneOf, IsLinked, AreListed, All-IsOneOf, step-IsLinked, IsLinked-AreCopies,
}

module _ {T R : Type 0} (rt : RtBuffer T) (rs : RsBuffer R)
    (HoldsT : (DataPacket → Type 0) → T → Type 0) (HoldsR : (DataPacket → Type 0) → R → Type 0)
    (rt_origin : (P : DataPacket → Type 0) → RtOrigin.IsFaithful rt P (HoldsT P))
    (rs_origin : (P : DataPacket → Type 0) → RsOrigin.IsFaithful rs P (HoldsR P))
    (IsValidT : T → Type 0) (rt_laws : IsRtBuffer rt IsValidT) (IsValidR : R → Type 0)
    (waiting : R → ℕ) (bound : ℕ) (rs_laws : IsRsBuffer rs IsValidR waiting bound) where
  module _ (host : Host) (order : IsNetworkOrder host) (fuel : ℕ) (enough : bound < fuel)
      (ps : List DataPacket) where
    -- Both sides are valid, and the receiver takes copies of what the transmitter was given.
    record IsSound (last : ℕ) (x : System T R) : Type 0 where
      pub linked : IsLinked rt rs HoldsT HoldsR rt_origin rs_origin host order fuel ps last x
      pub valid : IsValidT x.transmitter.retransmission_buffer
      pub ready : IsReady rs IsValidR waiting bound rs_laws x.receiver

    abbrev Steps : Outcome (System T R) → Type 0
    Steps o =
        (y : System T R) × (o ≡ returns y)
        × IsValidT y.transmitter.retransmission_buffer
        × IsReady rs IsValidR waiting bound rs_laws y.receiver

    receiver-Steps :
        (last : ℕ) (s : Receiver.Step) (x : System T R)
        → HasRoom s
        → IsSound last x
        → Steps
            (Receiver.step host rs fuel s x.receiver >>= λ r. returns (record x { receiver = r }))
    receiver-Steps last s x room v =
        let (r, e, w) =
          step-Returns rs IsValidR waiting bound rs_laws host order fuel s x.receiver enough room
            v.ready in
        (record x { receiver = r }, rw (e, ◌>>=◌), v.valid, w)

    arrival_room :
        (last i : ℕ) (span tail : List ℕ) (x : System T R)
        → get_elem? x.transmitter.sent i ≡ some span
        → IsSound last x
        → packed_size ≤ length (span ++ tail)
    unfolding get_read_span
    arrival_room last i span tail x e v =
        let (p, k, same) =
          subst (OnSome (IsSpan (IsOneOf ps))) e
            (All-get_elem? (IsSpan (IsOneOf ps)) x.transmitter.sent i v.linked.origin.spans) in
        let (c, j, q) = k in omega (arith, ap length same, c.size, length-append span tail)

    step-Steps :
        (last : ℕ) (e : Event) (x : System T R) → IsSound last x → Steps (step host rt rs fuel e x)
    unfolding step
    step-Steps last (transmits s) x v =
        let (t, e, w) = step-IsSafe rt IsValidT rt_laws host s x.transmitter v.valid in
        (record x { transmitter = t }, rw (e, ◌>>=◌), w, v.ready)
    step-Steps last (arrives clock i tail) x v =
        elim (Option-cases (get_elem? x.transmitter.sent i)) [
          | inl e ↦ (x, rw (e, step), v.valid, v.ready)
          | inr (span, e) ↦
              let (y, q, w, w') =
                receiver-Steps last (Receiver.resequences clock (some (length span)) (span ++ tail))
                  x (arrival_room last i span tail x e v) v in
              (y, rw (e, step) q, w, w')
        ]
    step-Steps last (times_out clock) x v =
        receiver-Steps last (Receiver.resequences clock none (replicate packed_size 0)) x
          (omega (arith, length-replicate {A = ℕ} packed_size 0)) v
    step-Steps last acks x v = receiver-Steps last Receiver.acks x tt v
    step-Steps last gets_packet x v = receiver-Steps last Receiver.gets_packet x tt v
    step-Steps last (ack_arrives j tail) x v = elim (Option-cases (get_elem? x.receiver.sent j)) [
      | inl e ↦ (x, rw (e, step), v.valid, v.ready)
      | inr (span, e) ↦
          let (t, q, w) =
            step-IsSafe rt IsValidT rt_laws host
              (Transmitter.takes_ack (some (length span)) (span ++ tail)) x.transmitter v.valid in
          (record x { transmitter = t }, rw (e, step, q, ◌>>=◌), w, v.ready)
    ]

    run-IsSound :
        (last : ℕ) (events : List Event) (x : System T R)
        → AreListed rt rs HoldsT HoldsR rt_origin rs_origin host order fuel ps last events
        → IsSound last x
        → (y : System T R) × (run host rt rs fuel events x ≡ returns y)
          × ((last' : ℕ) × IsSound last' y)
    unfolding run
    run-IsSound last [] x l v = (x, refl, (last, v))
    run-IsSound last (e ∷ events) x l v =
        let (last', w, l') =
          step-IsLinked rt rs HoldsT HoldsR rt_origin rs_origin host order fuel ps last e events x l
            v.linked in
        let (y, q, valid, ready) = step-Steps last e x v in
        let linked =
          subst
            (OnReturn (IsLinked rt rs HoldsT HoldsR rt_origin rs_origin host order fuel ps last')) q
            w in
        let (z, q', v') =
          run-IsSound last' events y l'
            (record { linked = linked; valid = valid; ready = ready }) in
        (z, rw (q, q', ◌>>=◌), v')

  -- Every run of a new transmitter and a new receiver returns, if a delivery has fuel for the packets
  -- that may wait; and the receiver hands out copies of the packets that the transmitter was given, in
  -- order, with nothing left out before the last of them.
  pub run-AreCopies :
      (host : Host) (fuel : ℕ) (events : List Event) (t : T) (r : R)
      → IsNetworkOrder host
      → bound < fuel
      → All IsConsistent (submissions events)
      → length (submissions events) < u16_mod
      → IsValidT t
      → ((P : DataPacket → Type 0) → HoldsT P t)
      → IsValidR r
      → waiting r ≡ 0
      → ((P : DataPacket → Type 0) → HoldsR P r)
      → (y : System T R) × (run host rt rs fuel events
            (record { transmitter = Transmitter.new t; receiver = Receiver.new r })
          ≡ returns y)
        × AreCopies (output y.receiver) (numbered host first_sequence_number (submissions events))
  unfolding Transmitter.new Receiver.new InputBuffer.new
  run-AreCopies host fuel events t r order enough consistent few vt ht vr empty hr =
      let ((next, o), kept, len) =
        numbered-InOrder host order first_sequence_number (submissions events) (omega arith)
          consistent in
      let ps = numbered host first_sequence_number (submissions events) in
      let (y, e, (last', v)) =
        run-IsSound host order fuel enough ps (previous_sn first_sequence_number) events
          (record { transmitter = Transmitter.new t; receiver = Receiver.new r })
          (All-IsOneOf [] ps kept)
          (record {
            linked = record {
              origin = record { queued = tt; held = ht _; spans = tt; numbered = refl };
              genuine = record { held = hr _; genuine = tt; in_order = refl };
            };
            valid = vt;
            ready = (vr, empty);
          }) in
      (
        y,
        e,
        IsLinked-AreCopies rt rs HoldsT HoldsR rt_origin rs_origin host order fuel ps last' next y
            (omega arith) o v.linked,
      )
