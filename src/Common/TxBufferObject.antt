-- ===== src/Common/TxBufferObject.antt =====
-- src/arq/common/tx_buffer_object.hpp, and `isPacketTimedOut` of retransmission_buffer.hpp. A time is
-- a count of nanoseconds, as libstdc++'s clocks count, and a reading of the clock is an argument.
use arq_benchmark.Base.{ℕ, ◌-◌, ◌/◌, Bool, ltb}
use arq_benchmark.Common.DataPacket.{DataPacket}
use arq_benchmark.Common.DataPacket

pub record PacketInfo : Type 0 where
  pub first_tx_time : ℕ
  pub last_tx_time : ℕ
  pub sequence_number : ℕ

pub record TransmitBufferObject : Type 0 where
  pub packet : DataPacket
  pub info : PacketInfo

unfoldable pub update_last_tx_time : ℕ → TransmitBufferObject → TransmitBufferObject
update_last_tx_time now p = record p { info = record p.info { last_tx_time = now } }

unfoldable pub is_end_of_tx : TransmitBufferObject → Bool
is_end_of_tx p = DataPacket.is_end_of_tx p.packet

-- The interval is in microseconds, and `duration_cast` rounds towards zero. A clock that was set
-- back gives a negative count, which is no more than an interval, as the 0 is here.
unfoldable pub is_packet_timed_out : ℕ → ℕ → TransmitBufferObject → Bool
is_packet_timed_out timeout_interval now p =
    ltb timeout_interval ((now - p.info.last_tx_time) / 1000)
