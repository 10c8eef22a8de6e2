-- ===== src/Rs/StopAndWait.antt =====
-- src/arq/resequencing_buffers/stop_and_wait_rs.{hpp,cpp}: one packet at a time.
use arq_benchmark.Base.{
  ℕ, ◌<◌, ◌≡◌, Bool, Option, none, some, is_some, ◌==◌, ltb, if◌then◌else◌, arith,
}
use arq_benchmark.Common.SequenceNumber.{next_sn, max_sequence_number}
use arq_benchmark.Common.DataPacket.{DataPacket}

pub record StopAndWait : Type 0 where
  pub expected_packet_seq_num : ℕ
  pub packet_for_delivery : Option DataPacket

unfoldable pub new : ℕ → StopAndWait
new first_seq_num = record { expected_packet_seq_num = first_seq_num; packet_for_delivery = none }

unfoldable pub do_add_packet : DataPacket → StopAndWait → Option ℕ × StopAndWait
do_add_packet packet b =
    let received = packet.header.sequence_number in
    if is_some b.packet_for_delivery
    then (none, b)
    else if received == b.expected_packet_seq_num
    then (some received, record b { packet_for_delivery = some packet })
    else if ltb received b.expected_packet_seq_num
    then (some received, b)
    else (none, b)

unfoldable pub do_packets_pending : StopAndWait → Bool
do_packets_pending b = is_some b.packet_for_delivery

unfoldable pub do_get_next_packet : StopAndWait → Option DataPacket × StopAndWait
do_get_next_packet b = elim b.packet_for_delivery [
  | none ↦ (none, b)
  | some packet ↦ (
    some packet,
    record {
      packet_for_delivery = none;
      expected_packet_seq_num = next_sn b.expected_packet_seq_num;
    },
  )
]

-- A packet that is handed over and its repeats: the packet that is expected is acknowledged and can
-- be taken once, and after that its repeat is acknowledged again and changes nothing; but behind the
-- last sequence number the expected number is 0, and the repeat is neither acknowledged nor taken.
pub repeat_after_delivery :
    (packet : DataPacket) (b : StopAndWait)
    → b.packet_for_delivery ≡ none
    → packet.header.sequence_number ≡ b.expected_packet_seq_num
    → packet.header.sequence_number < 65536
    → let (ack, held) = do_add_packet packet b in
      let (given, waiting) = do_get_next_packet held in
      (ack ≡ some packet.header.sequence_number)
      × (given ≡ some packet)
      × (waiting.packet_for_delivery ≡ none)
      × (do_add_packet packet waiting ≡ (
        if ltb packet.header.sequence_number max_sequence_number
            then some packet.header.sequence_number
            else none,
        waiting,
      ))
unfolding do_add_packet do_get_next_packet
repeat_after_delivery packet b free sn small = ground arith
