-- ===== src/System/Protocols.antt =====
-- A transmitter and a receiver with the buffers of one protocol.
use arq_benchmark.Base.{
  ℕ, ◌<◌, ◌≤◌, ◌≡◌, refl, List, All, All-replicate, OnSome, length, none, [], arith, returns,
}
use arq_benchmark.Common.Host.{Host, IsNetworkOrder, u16_mod}
use arq_benchmark.Common.SequenceNumber.{first_sequence_number}
use arq_benchmark.Common.DataPacket.Consistent.{IsConsistent}
use arq_benchmark.Rt.Buffer.{RtBuffer}
use arq_benchmark.Rt.GoBackN
use arq_benchmark.Rt.StopAndWait
use arq_benchmark.Rt.SelectiveRepeat
use arq_benchmark.Rt.Instances.{
  go_back_n, stop_and_wait, selective_repeat, IsRing, go_back_n-IsRtBuffer,
  selective_repeat-IsRtBuffer, stop_and_wait-IsRtBuffer,
}
use arq_benchmark.Rt.GoBackN.Holds.{new-Holds}
use arq_benchmark.Rt.Origin.{
  RingHolds, PacketHolds, go_back_n-IsFaithful, stop_and_wait-IsFaithful, new-RingHolds,
}
use arq_benchmark.Rs.Buffer.{RsBuffer}
use arq_benchmark.Rs.GoBackN as RsGoBackN
use arq_benchmark.Rs.StopAndWait as RsStopAndWait
use arq_benchmark.Rs.SelectiveRepeat as RsSelectiveRepeat
use arq_benchmark.Rs.SelectiveRepeat.Window.{new-HasWindow}
use arq_benchmark.Rs.Instances as Rs
use arq_benchmark.Rs.Origin as RsOrigin
use arq_benchmark.Rs.Origin.{ShadowHolds, DeliveryHolds, WindowHolds}
use arq_benchmark.Rs.Returns.{
  gbn_waiting, saw_waiting, sr_waiting, HasSlots, go_back_n-IsRsBuffer, stop_and_wait-IsRsBuffer,
  selective_repeat-IsRsBuffer,
}
use arq_benchmark.Transmitter
use arq_benchmark.Receiver
use arq_benchmark.Receiver.Origin.{output}
use arq_benchmark.System.{System, Event, run, submissions, numbered}
use arq_benchmark.System.Prefix.{AreCopies}
use arq_benchmark.System.Delivery.{run-AreCopies}

-- The run returns from a new transmitter and a new receiver, and the receiver gives out copies of the
-- packets that were submitted, in order.
abbrev pub Delivers :
    {T R : Type 0} → Host → RtBuffer T → RsBuffer R → ℕ → List Event → T → R → Type 0
Delivers {T} {R} host rt rs fuel events t r =
    (y : System T R) × (run host rt rs fuel events
        (record { transmitter = Transmitter.new t; receiver = Receiver.new r })
      ≡ returns y)
    × AreCopies (output y.receiver) (numbered host first_sequence_number (submissions events))

module _ (host : Host) (order : IsNetworkOrder host) (events : List Event)
    (consistent : All IsConsistent (submissions events))
    (few : length (submissions events) < u16_mod) (timeout : ℕ) where
  pub stop_and_wait-Delivers :
      (fuel : ℕ)
      → 2 ≤ fuel
      → Delivers host stop_and_wait Rs.stop_and_wait fuel events
          (StopAndWait.new timeout)
          (RsStopAndWait.new first_sequence_number)
  unfolding StopAndWait.new RsStopAndWait.new
  stop_and_wait-Delivers fuel enough =
      run-AreCopies stop_and_wait Rs.stop_and_wait PacketHolds DeliveryHolds
        stop_and_wait-IsFaithful RsOrigin.stop_and_wait-IsFaithful (λ b. Unit {0})
        stop_and_wait-IsRtBuffer (λ b. Unit {0}) saw_waiting 1 stop_and_wait-IsRsBuffer host fuel
        events (StopAndWait.new timeout) (RsStopAndWait.new first_sequence_number) order
        (omega arith) consistent few tt (λ P. tt) tt refl (λ P. tt)

  module _ (window : ℕ) (pos : 0 < window) (small : window < u16_mod) where
    valid : IsRing (GoBackN.new window timeout first_sequence_number)
    valid = ([], (new-Holds window timeout first_sequence_number pos small (omega arith)).tracks)

    pub go_back_n-Delivers :
        (fuel : ℕ)
        → 2 ≤ fuel
        → Delivers host go_back_n Rs.go_back_n fuel events
            (GoBackN.new window timeout first_sequence_number)
            (RsGoBackN.new first_sequence_number)
    unfolding RsGoBackN.new
    go_back_n-Delivers fuel enough =
        run-AreCopies go_back_n Rs.go_back_n RingHolds ShadowHolds go_back_n-IsFaithful
          RsOrigin.go_back_n-IsFaithful IsRing go_back_n-IsRtBuffer (λ b. Unit {0}) gbn_waiting 1
          go_back_n-IsRsBuffer host fuel events (GoBackN.new window timeout first_sequence_number)
          (RsGoBackN.new first_sequence_number) order (omega arith) consistent few valid
          (λ P. new-RingHolds P window timeout first_sequence_number) tt refl (λ P. tt)

    pub selective_repeat-Delivers :
        (rs_window fuel : ℕ)
        → 0 < rs_window
        → rs_window < u16_mod
        → rs_window < fuel
        → Delivers host selective_repeat Rs.selective_repeat fuel events
            (SelectiveRepeat.new window timeout first_sequence_number)
            (RsSelectiveRepeat.new rs_window first_sequence_number)
    unfolding RsSelectiveRepeat.new
    selective_repeat-Delivers rs_window fuel rs_pos rs_small enough =
        run-AreCopies selective_repeat Rs.selective_repeat RingHolds WindowHolds
          go_back_n-IsFaithful RsOrigin.selective_repeat-IsFaithful IsRing
          selective_repeat-IsRtBuffer (HasSlots rs_window) sr_waiting rs_window
          (selective_repeat-IsRsBuffer rs_window) host fuel events
          (SelectiveRepeat.new window timeout first_sequence_number)
          (RsSelectiveRepeat.new rs_window first_sequence_number) order enough consistent few valid
          (λ P. new-RingHolds P window timeout first_sequence_number)
          (refl, _, new-HasWindow rs_window first_sequence_number rs_pos rs_small (omega arith))
          refl (λ P. (All-replicate (OnSome P) rs_window none tt, tt))
