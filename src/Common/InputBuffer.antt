-- ===== src/Common/InputBuffer.antt =====
-- src/arq/common/input_buffer.{hpp,cpp}: numbers the packets that the application submits, and queues
-- them for transmission. A reading of the clock is an argument.
use arq_benchmark.Base.{ℕ, List, [], ◌∷◌, Option}
use arq_benchmark.Common.Host.{Host}
use arq_benchmark.Common.SequenceNumber.{next_sn, previous_sn}
use arq_benchmark.Common.DataPacket.{DataPacket, update_sequence_number}
use arq_benchmark.Common.TxBufferObject.{PacketInfo, TransmitBufferObject}
use arq_benchmark.Util.SafeQueue
use arq_benchmark.Util.SafeQueue.{SafeQueue}
pub mod Numbering

pub record InputBuffer : Type 0 where
  pub input_packets : SafeQueue TransmitBufferObject
  pub last_sequence_number : ℕ

unfoldable pub new : ℕ → InputBuffer
new first_seq_num = record {
  input_packets = SafeQueue.new;
  last_sequence_number = previous_sn first_seq_num;
}

unfoldable pub get_next_info : ℕ → InputBuffer → PacketInfo × InputBuffer
get_next_info now ib =
    let sn = next_sn ib.last_sequence_number in
    (
      record { first_tx_time = now; last_tx_time = now; sequence_number = sn },
      record ib { last_sequence_number = sn },
    )

unfoldable pub add_packet : Host → ℕ → DataPacket → InputBuffer → InputBuffer
unfolding get_next_info
add_packet host now packet ib =
    let (info, numbered) = get_next_info now ib in
    record numbered {
      input_packets = SafeQueue.push numbered.input_packets (record {
        packet = update_sequence_number host info.sequence_number packet;
        info = info;
      });
    }

unfoldable pub get_packet : InputBuffer → Option TransmitBufferObject × InputBuffer
get_packet ib =
    let (next, q) = SafeQueue.pop_wait ib.input_packets in (next, record ib { input_packets = q })

unfoldable pub try_get_packet : InputBuffer → Option TransmitBufferObject × InputBuffer
try_get_packet ib =
    let (next, q) = SafeQueue.try_pop ib.input_packets in (next, record ib { input_packets = q })

-- Packets that are submitted one after the other, each with the time of its submission.
unfoldable pub add_all : Host → List (ℕ × DataPacket) → InputBuffer → InputBuffer
add_all host [] ib = ib
add_all host ((now, packet) ∷ more) ib = add_all host more (add_packet host now packet ib)
