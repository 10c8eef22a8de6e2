-- ===== src/Tests/Rt.antt =====
-- The retransmission buffers.
use arq_benchmark.Base.{
  ℕ, zero, suc, ◌+◌, ◌*◌, ◌%◌, ◌<◌, ◌≤◌, ◌≡◌, ◌++◌, ◌⊎◌, refl, false, List, [], ◌∷◌, some, none,
  arith, length, drop, get_elem?, returns, throws,
}
use arq_benchmark.Common.Host.{u16_mod}
use arq_benchmark.Common.TxBufferObject.{TransmitBufferObject}
use arq_benchmark.Rt.GoBackN.{
  GoBackN, Readings, do_add_packet, do_try_get_packet_span, do_acknowledge_packet,
  do_ready_for_new_packet,
}
use arq_benchmark.Rt.GoBackN.Holds.{Tracks, Holds}
use arq_benchmark.Rt.GoBackN.Add.{do_add_packet_refines}
use arq_benchmark.Rt.GoBackN.Retransmit.{Retransmits, do_try_get_packet_span_refines}
use arq_benchmark.Rt.GoBackN.Acknowledge.{do_acknowledge_packet-unsent}
use arq_benchmark.Rt.GoBackN.Numbered.{IsNumbered, do_acknowledge_packet_refines}
use arq_benchmark.Rt.GoBackN
use arq_benchmark.Rt.StopAndWait
use arq_benchmark.Rt.Instances
use arq_benchmark.Rt.WindowOfOne.{Call, adds, tries, acknowledges, trace, new-trace}
use arq_benchmark.Tests.Fixtures.{submitted}

abbrev held : List TransmitBufferObject
held = submitted 1 7 ∷ submitted 2 8 ∷ []

-- Two packets, the second around the end of the ring.
abbrev ring : GoBackN
ring = record {
  timeout_interval = 5;
  window_size = 3;
  buffer = some (submitted 2 8) ∷ none ∷ some (submitted 1 7) ∷ [];
  start_idx = 2;
  next_to_ack = 7;
  packets_in_buffer = 2;
}

ring_slots : (i : ℕ) → i < 3 → get_elem? ring.buffer ((2 + i) % 3) ≡ some (get_elem? held i)
ring_slots zero h = refl
ring_slots (suc zero) h = refl
ring_slots (suc (suc zero)) h = refl
ring_slots (suc (suc (suc i))) h = absurd (omega arith)

ring-Holds : Holds ring held
ring-Holds = record {
  tracks = record {
    ring = record {
      storage = refl;
      start_in = omega arith;
      fits = omega arith;
      slots = ring_slots;
    };
    at_least = omega arith;
    counter_size = omega arith;
    window_u16 = omega arith;
    next_u16 = omega arith;
  };
  counted = refl;
}

do_add_packet_refines_example :
    ((length held < ring.window_size)
      × ((b' : GoBackN) × (do_add_packet (submitted 3 9) ring ≡ returns b')
          × Holds b' (held ++ submitted 3 9 ∷ [])))
    ⊎ ((length held ≡ ring.window_size) × (do_add_packet (submitted 3 9) ring ≡ throws))
do_add_packet_refines_example = do_add_packet_refines (submitted 3 9) ring held ring-Holds

-- The first check finds no timeout, and the second does.
abbrev clock : Readings
clock = record { check = λ i. i * 9000; stamp = 9100 }

do_try_get_packet_span_refines_example :
    Retransmits clock ring held (do_try_get_packet_span clock ring)
do_try_get_packet_span_refines_example =
    do_try_get_packet_span_refines clock ring held ring-Holds.tracks

do_acknowledge_packet_refines_example :
    ((ring.next_to_ack + 1 < u16_mod)
      × ((b' : GoBackN) × (do_acknowledge_packet 8 ring ≡ returns b')
          × Holds b' (drop 2 held)
          × IsNumbered b'.next_to_ack (drop 2 held)
          × (b'.next_to_ack ≡ (ring.next_to_ack + 1 + 1) % u16_mod)))
    ⊎ ((u16_mod ≤ ring.next_to_ack + 1) × (do_acknowledge_packet 8 ring ≡ returns ring))
do_acknowledge_packet_refines_example =
    do_acknowledge_packet_refines ring held 1 (submitted 2 8) ring-Holds (refl, (refl, tt)) refl

do_acknowledge_packet-unsent_example :
    (b' : GoBackN) × (do_acknowledge_packet 9 ring ≡ returns b')
    × Tracks b' []
    × (do_ready_for_new_packet b' ≡ false)
do_acknowledge_packet-unsent_example =
    do_acknowledge_packet-unsent ring held 9 ring-Holds (omega arith) (omega arith) (omega arith)

-- A packet is sent again, an ACK for another number does nothing, and a second packet follows.
abbrev calls : List Call
calls =
    adds (submitted 0 65535)
    ∷ tries (record { check = λ i. 9000; stamp = 9001 })
    ∷ acknowledges 3
    ∷ acknowledges 65535
    ∷ adds (submitted 9 0)
    ∷ adds (submitted 9 1)
    ∷ []

new-trace_example :
    trace Instances.go_back_n calls (GoBackN.new 1 5 65535)
    ≡ trace Instances.stop_and_wait calls (StopAndWait.new 5)
new-trace_example = new-trace 5 65535 calls (refl, (refl, (refl, tt)))
