-- ===== src/Tests/Common.antt =====
-- Queues, headers, packets and conversations.
use arq_benchmark.Base.{
  ℕ, ◌<◌, ◌≤◌, ◌≡◌, ◌++◌, ◌⊎◌, refl, true, false, List, [], ◌∷◌, All, arith, length, min, map,
  returns, throws, undefined,
}
use arq_benchmark.Common.Host.{byte_mod}
use arq_benchmark.Common.SequenceNumber.{serialise_seq_num}
use arq_benchmark.Common.DataPacketHeader
use arq_benchmark.Common.DataPacketHeader.{DataPacketHeader, packed_size, data_pkt_max_payload_size}
use arq_benchmark.Common.DataPacketHeader.Wire.{deserialise-serialise}
use arq_benchmark.Common.DataPacket.{
  DataPacket, get_read_span, get_payload_read_span, update_sequence_number, update_data_length,
  from_serial, resize,
}
use arq_benchmark.Common.DataPacket.Consistent.{
  IsConsistent, update_sequence_number-IsConsistent, from_serial-get_read_span,
  from_serial_never_throws, payload-update_data_length,
}
use arq_benchmark.Common.InOrder.{InOrder}
use arq_benchmark.Common.InputBuffer.{new, add_all}
use arq_benchmark.Common.InputBuffer.Numbering.{packets, IsNumbered, add_all_numbers}
use arq_benchmark.Common.OutputBuffer
use arq_benchmark.Common.OutputBuffer.{OutputBuffer, IsSequenced, delivered, add_packet-IsSequenced}
use arq_benchmark.Common.ConversationId.{ConversationIdAllocator, get_new_id, contains}
use arq_benchmark.Common.ConversationId.Fresh.{get_new_id_fresh}
use arq_benchmark.Util.SafeQueue
use arq_benchmark.Util.SafeQueue.{
  SafeQueue, Call, pushes, tries_pop, waits_pop, run, pushed, run_fifo,
}
use arq_benchmark.Tests.Fixtures.{host, host-IsNetworkOrder, packet, packet-IsConsistent}

abbrev calls : List (Call ℕ)
calls = tries_pop ∷ pushes 4 ∷ pushes 5 ∷ tries_pop ∷ waits_pop ∷ tries_pop ∷ []

abbrev waiting : SafeQueue ℕ
waiting = record { queue = 3 ∷ [] }

run_fifo_example :
    (run waiting calls).0 ++ (run waiting calls).1.queue ≡ waiting.queue ++ pushed calls
run_fifo_example = run_fifo waiting calls

calls-run : run waiting calls ≡ (3 ∷ 4 ∷ 5 ∷ [], record { queue = [] })
unfolding run SafeQueue.try_pop SafeQueue.push SafeQueue.pop_wait
calls-run = refl

sequence_number_bytes : serialise_seq_num host 258 (7 ∷ 7 ∷ 7 ∷ []) ≡ (true, 1 ∷ 2 ∷ 7 ∷ [])
unfolding serialise_seq_num
sequence_number_bytes = refl

abbrev buffer : List ℕ
buffer = 7 ∷ 7 ∷ 7 ∷ 7 ∷ 7 ∷ 7 ∷ []

deserialise-serialise_example :
    ((packed_size ≤ length buffer)
      × (DataPacketHeader.deserialise host
            (packet 0).header
            (DataPacketHeader.serialise host (packet 258).header buffer).1
          ≡ (true, (packet 258).header)))
    ⊎ ((length buffer < packed_size)
        × (DataPacketHeader.serialise host (packet 258).header buffer ≡ (false, buffer))
        × (DataPacketHeader.deserialise host (packet 0).header buffer ≡ (false, (packet 0).header)))
deserialise-serialise_example =
    deserialise-serialise host host-IsNetworkOrder (packet 258).header (packet 0).header buffer
      (packet-IsConsistent 258 (omega arith)).in_range

update_sequence_number-IsConsistent_example :
    IsConsistent (update_sequence_number host 300 (packet 258))
    × ((update_sequence_number host 300 (packet 258)).header
        ≡ record (packet 258).header { sequence_number = 300 })
    × (get_payload_read_span (update_sequence_number host 300 (packet 258))
        ≡ get_payload_read_span (packet 258))
update_sequence_number-IsConsistent_example =
    update_sequence_number-IsConsistent host host-IsNetworkOrder 300 (packet 258) (omega arith)
      (packet-IsConsistent 258 (omega arith))

from_serial-get_read_span_example :
    from_serial host (get_read_span (packet 258) ++ 0 ∷ 0 ∷ [])
    ≡ returns (record (packet 258) { bytes = (packet 258).bytes ++ 0 ∷ 0 ∷ [] })
from_serial-get_read_span_example =
    from_serial-get_read_span host host-IsNetworkOrder (packet 258) (0 ∷ 0 ∷ [])
      (packet-IsConsistent 258 (omega arith))

abbrev short_data : List ℕ
short_data = 1 ∷ 0 ∷ 0 ∷ []

from_serial_never_throws_example :
    ((packed_size ≤ length short_data)
      × ((hdr : DataPacketHeader.DataPacketHeader) × (from_serial host short_data
            ≡ returns (record { header = hdr; bytes = short_data }))))
    ⊎ ((length short_data < packed_size) × (from_serial host short_data ≡ undefined))
from_serial_never_throws_example = from_serial_never_throws host host-IsNetworkOrder short_data

payload-update_data_length_example :
    ((update_data_length host 3 (packet 258)).header.length_ ≡ min 3 data_pkt_max_payload_size)
    × (get_payload_read_span (update_data_length host 3 (packet 258))
        ≡ resize (min 3 data_pkt_max_payload_size) (get_payload_read_span (packet 258)))
payload-update_data_length_example =
    payload-update_data_length host host-IsNetworkOrder 3 (packet 258)
      (packet-IsConsistent 258 (omega arith))

abbrev submissions : List (ℕ × DataPacket)
submissions = (10, packet 0) ∷ (20, packet 5) ∷ []

add_all_numbers_example :
    let queued = (add_all host submissions (new 65535)).input_packets.queue in
    ((next : ℕ) × InOrder 65535 (packets queued) next)
    × All IsNumbered queued
    × (map get_payload_read_span (packets queued)
        ≡ map (λ s. get_payload_read_span s.1) submissions)
add_all_numbers_example =
    add_all_numbers host host-IsNetworkOrder 65535 submissions (omega arith)
      (packet-IsConsistent 0 (omega arith), (packet-IsConsistent 5 (omega arith), tt))

add_packet-IsSequenced_example :
    IsSequenced 0 (OutputBuffer.add_packet 9 (packet 0) OutputBuffer.new).1
    × ((((packet 0).header.sequence_number ≡ OutputBuffer.new.next_sequence_number)
          × ((OutputBuffer.add_packet 9 (packet 0) OutputBuffer.new).0 ≡ true)
          × (delivered (OutputBuffer.add_packet 9 (packet 0) OutputBuffer.new).1
              ≡ delivered OutputBuffer.new ++ packet 0 ∷ []))
        ⊎ (¬ ((packet 0).header.sequence_number ≡ OutputBuffer.new.next_sequence_number)
            × (OutputBuffer.add_packet 9 (packet 0) OutputBuffer.new ≡ (false, OutputBuffer.new))))
add_packet-IsSequenced_example = add_packet-IsSequenced 0 9 (packet 0) OutputBuffer.new refl

abbrev two_ids : ConversationIdAllocator
two_ids = record { last_allocated = 254; allocated_ids = 255 ∷ 254 ∷ [] }

get_new_id_fresh_example :
    ((length two_ids.allocated_ids < byte_mod)
      × ((id : ℕ) × (get_new_id two_ids
            ≡ returns
                (id, record { last_allocated = id; allocated_ids = id ∷ two_ids.allocated_ids }))
          × (contains id two_ids.allocated_ids ≡ false)
          × (id < byte_mod)))
    ⊎ ((length two_ids.allocated_ids ≡ byte_mod) × (get_new_id two_ids ≡ throws))
get_new_id_fresh_example = get_new_id_fresh two_ids (omega arith)
