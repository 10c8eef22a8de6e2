-- ===== src/Tests/Rs.antt =====
-- The resequencing buffers.
use arq_benchmark.Base.{
  ℕ, zero, suc, ◌+◌, ◌%◌, ◌<◌, ◌≡◌, ◌++◌, refl, true, List, [], ◌∷◌, Option, some, none, arith,
  length, replicate, set, ltb, if◌then◌else◌, get_elem?, returns,
}
use arq_benchmark.Common.SequenceNumber.{previous_sn, max_sequence_number}
use arq_benchmark.Common.DataPacket.{DataPacket}
use arq_benchmark.Rs.SelectiveRepeat.{SelectiveRepeat, new, do_add_packet, update_buffer}
use arq_benchmark.Rs.SelectiveRepeat.Window.{HasWindow, new-HasWindow, run_of}
use arq_benchmark.Rs.SelectiveRepeat.Update.{Updated, update_buffer_refines}
use arq_benchmark.Rs.SelectiveRepeat.Add.{do_add_packet-accepts}
use arq_benchmark.Rs.SelectiveRepeat.Full.{do_add_packet-full_window}
use arq_benchmark.Rs.SelectiveRepeat.Order.{IsOrdered, new-IsOrdered, do_add_packet-IsOrdered}
use arq_benchmark.Rs.GoBackN
use arq_benchmark.Rs.GoBackN.{do_add_packet-cumulative}
use arq_benchmark.Rs.StopAndWait
use arq_benchmark.Rs.StopAndWait.{repeat_after_delivery}
use arq_benchmark.Util.SafeQueue
use arq_benchmark.Tests.Fixtures.{packet}

abbrev free : List (Option DataPacket)
free = none ∷ none ∷ none ∷ []

-- The second and the third slot of the window hold their packets; it starts at index 1.
abbrev gap : SelectiveRepeat
gap = record {
  window_size = 3;
  buffer = some (packet 6) ∷ none ∷ some (packet 5) ∷ [];
  start_idx = 1;
  earliest_expected = 4;
  packets_in_buffer = 2;
  shadow_buffer = SafeQueue.new;
  can_send_acks = true;
}

abbrev gap_slots : List (Option DataPacket)
gap_slots = none ∷ some (packet 5) ∷ some (packet 6) ∷ []

gap-at : (i : ℕ) → i < 3 → get_elem? gap.buffer ((1 + i) % 3) ≡ get_elem? gap_slots i
gap-at zero h = refl
gap-at (suc zero) h = refl
gap-at (suc (suc zero)) h = refl
gap-at (suc (suc (suc i))) h = absurd (omega arith)

gap-HasWindow : HasWindow gap gap_slots
gap-HasWindow = record {
  storage = refl;
  start_in = omega arith;
  width = refl;
  at = gap-at;
  counted = refl;
  window_u16 = omega arith;
  earliest_u16 = omega arith;
}

-- The first two slots of the window hold their packets, and `updateBuffer` was not called yet.
abbrev ready : SelectiveRepeat
ready = record {
  window_size = 3;
  buffer = none ∷ some (packet 4) ∷ some (packet 5) ∷ [];
  start_idx = 1;
  earliest_expected = 4;
  packets_in_buffer = 2;
  shadow_buffer = SafeQueue.new;
  can_send_acks = true;
}

abbrev ready_slots : List (Option DataPacket)
ready_slots = some (packet 4) ∷ some (packet 5) ∷ none ∷ []

ready-at : (i : ℕ) → i < 3 → get_elem? ready.buffer ((1 + i) % 3) ≡ get_elem? ready_slots i
ready-at zero h = refl
ready-at (suc zero) h = refl
ready-at (suc (suc zero)) h = refl
ready-at (suc (suc (suc i))) h = absurd (omega arith)

update_buffer_refines_example :
    (b' : SelectiveRepeat) × (update_buffer ready ≡ returns b') × Updated ready ready_slots b'
update_buffer_refines_example = update_buffer_refines ready ready_slots (record {
  storage = refl;
  start_in = omega arith;
  width = refl;
  at = ready-at;
  counted = refl;
  window_u16 = omega arith;
  earliest_u16 = omega arith;
})

do_add_packet-accepts_example :
    (b' : SelectiveRepeat) × (do_add_packet (packet 1) (new 3 0)
      ≡ returns (some (previous_sn b'.earliest_expected), b'))
    × Updated (record (new 3 0) { can_send_acks = true }) (set free 1 (some (packet 1))) b'
unfolding new
do_add_packet-accepts_example =
    do_add_packet-accepts (new 3 0) free (packet 1)
      (new-HasWindow 3 0 (omega arith) (omega arith) (omega arith)) 1 (omega arith) (omega arith)
      refl

do_add_packet-full_window_example :
    (b' : SelectiveRepeat) × (do_add_packet (packet 4) gap
      ≡ returns (some (previous_sn gap.earliest_expected), b'))
    × (b'.earliest_expected ≡ gap.earliest_expected)
    × (b'.shadow_buffer.queue
        ≡ gap.shadow_buffer.queue ++ run_of (set gap_slots 0 (some (packet 4))))
    × (length (run_of (set gap_slots 0 (some (packet 4)))) ≡ gap.window_size)
    × HasWindow b' (replicate gap.window_size none)
do_add_packet-full_window_example =
    do_add_packet-full_window gap gap_slots (packet 4) 0 gap-HasWindow (omega arith) (omega arith)
      refl refl

do_add_packet-IsOrdered_example :
    (ack : Option ℕ) × (b' : SelectiveRepeat) × (slots' : List (Option DataPacket)) × (do_add_packet
        (packet 65535)
        (new 3 65534)
      ≡ returns (ack, b'))
    × IsOrdered b' slots' 65534
unfolding new
do_add_packet-IsOrdered_example =
    do_add_packet-IsOrdered (new 3 65534) free 65534 (packet 65535)
      (new-IsOrdered 3 65534 (omega arith) (omega arith) (omega arith)) (omega arith) (omega arith)

abbrev second : GoBackN.GoBackN
second = record {
  shadow_buffer = record { queue = packet 65535 ∷ [] };
  next_sequence_number = 0;
  can_send_acks = true;
}

do_add_packet-cumulative_example :
    GoBackN.IsOrdered 65535 (GoBackN.do_add_packet (packet 0) second).1
    × ((GoBackN.do_add_packet (packet 0) second).0 ≡ (
        if (GoBackN.do_add_packet (packet 0) second).1.can_send_acks
        then some (previous_sn (GoBackN.do_add_packet (packet 0) second).1.next_sequence_number)
        else none))
do_add_packet-cumulative_example =
    do_add_packet-cumulative 65535 (packet 0) second
      (record { in_order = (refl, refl); next_u16 = omega arith })

abbrev last_number : StopAndWait.StopAndWait
last_number = record { expected_packet_seq_num = 65535; packet_for_delivery = none }

repeat_after_delivery_example :
    let (ack, held) = StopAndWait.do_add_packet (packet 65535) last_number in
    let (given, waiting) = StopAndWait.do_get_next_packet held in
    (ack ≡ some (packet 65535).header.sequence_number)
    × (given ≡ some (packet 65535))
    × (waiting.packet_for_delivery ≡ none)
    × (StopAndWait.do_add_packet (packet 65535) waiting ≡ (
      if ltb (packet 65535).header.sequence_number max_sequence_number
          then some (packet 65535).header.sequence_number
          else none,
      waiting,
    ))
repeat_after_delivery_example =
    repeat_after_delivery (packet 65535) last_number refl refl (omega arith)
