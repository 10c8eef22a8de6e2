-- ===== src/Rs/DummySctp.antt =====
-- src/arq/resequencing_buffers/dummy_sctp_rs.{hpp,cpp}: SCTP delivers in order, in reads of the size of
-- the MTU, so the buffer trims what it is given. `subspan(0, n)` wants `n` bytes.
pub mod Trims
use arq_benchmark.Base.{
  ℕ, ◌+◌, Bool, not, List, Option, none, some, length, take, ltb, ◌==◌, if◌then◌else◌, Outcome,
  returns, undefined, ◌>>=◌,
}
use arq_benchmark.Common.Host.{Host}
use arq_benchmark.Common.SequenceNumber.{next_sn}
use arq_benchmark.Common.DataPacketHeader.{packed_size}
use arq_benchmark.Common.DataPacket.{DataPacket, from_serial, get_read_span, is_end_of_tx}
use arq_benchmark.Util.SafeQueue
use arq_benchmark.Util.SafeQueue.{SafeQueue}

-- `packet_payload_length` of arq_common.hpp.
abbrev pub packet_payload_length : ℕ
packet_payload_length = 1000

pub record DummySctp : Type 0 where
  pub shadow_buffer : SafeQueue DataPacket
  pub next_sequence_number : ℕ

unfoldable pub new : ℕ → DummySctp
new first_seq_num = record { shadow_buffer = SafeQueue.new; next_sequence_number = first_seq_num }

abbrev pub first_bytes : ℕ → List ℕ → Outcome (List ℕ)
first_bytes n span = if ltb (length span) n then undefined else returns (take n span)

-- The bytes of the packet, without those behind it.
abbrev pub trimmed : DataPacket → List ℕ → Outcome (List ℕ)
trimmed received span =
    first_bytes (if is_end_of_tx received then packed_size else packet_payload_length + packed_size)
      span

abbrev pub accept : DataPacket → DummySctp → Option ℕ × DummySctp
accept packet b =
    if packet.header.sequence_number == b.next_sequence_number
    then (
      some packet.header.sequence_number,
      record {
        shadow_buffer = SafeQueue.push b.shadow_buffer packet;
        next_sequence_number = next_sn b.next_sequence_number;
      },
    )
    else (none, b)

unfoldable pub do_add_packet : Host → DataPacket → DummySctp → Outcome (Option ℕ × DummySctp)
do_add_packet host packet b =
    let span = get_read_span packet in
    if ltb (length span) packed_size
    then returns (none, b)
    else (from_serial host span >>= λ received. trimmed received span >>= λ own_bytes.
        from_serial host own_bytes >>= λ own. returns (accept own b))

unfoldable pub do_packets_pending : DummySctp → Bool
do_packets_pending b = not (SafeQueue.is_empty b.shadow_buffer)

unfoldable pub do_get_next_packet : DummySctp → Option DataPacket × DummySctp
do_get_next_packet b =
    let (packet, q) = SafeQueue.try_pop b.shadow_buffer in (packet, record b { shadow_buffer = q })
