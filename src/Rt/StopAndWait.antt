-- ===== src/Rt/StopAndWait.antt =====
-- src/arq/retransmission_buffers/stop_and_wait_rt.{hpp,cpp}: one packet at a time.
use arq_benchmark.Base.{
  ℕ, Bool, List, Option, none, some, is_some, not, ◌==◌, if◌then◌else◌, Outcome, returns, throws,
}
use arq_benchmark.Common.DataPacket.{get_read_span}
use arq_benchmark.Common.TxBufferObject.{
  TransmitBufferObject, is_packet_timed_out, update_last_tx_time,
}
use arq_benchmark.Rt.GoBackN.{Readings}

pub record StopAndWait : Type 0 where
  pub timeout_interval : ℕ
  pub retransmit_packet : Option TransmitBufferObject

unfoldable pub new : ℕ → StopAndWait
new timeout = record { timeout_interval = timeout; retransmit_packet = none }

unfoldable pub do_add_packet : TransmitBufferObject → StopAndWait → Outcome StopAndWait
do_add_packet packet b =
    if is_some b.retransmit_packet
    then throws
    else returns (record b { retransmit_packet = some packet })

unfoldable pub do_try_get_packet_span : Readings → StopAndWait → Option (List ℕ) × StopAndWait
do_try_get_packet_span clock b = elim b.retransmit_packet [
  | none ↦ (none, b)
  | some p ↦
      if is_packet_timed_out b.timeout_interval (clock.check 0) p
      then (
        some (get_read_span (update_last_tx_time clock.stamp p).packet),
        record b { retransmit_packet = some (update_last_tx_time clock.stamp p) },
      )
      else (none, b)
]

unfoldable pub do_ready_for_new_packet : StopAndWait → Bool
do_ready_for_new_packet b = not (is_some b.retransmit_packet)

unfoldable pub do_packets_pending : StopAndWait → Bool
do_packets_pending b = is_some b.retransmit_packet

unfoldable pub do_acknowledge_packet : ℕ → StopAndWait → StopAndWait
do_acknowledge_packet ack_sequence_number b = elim b.retransmit_packet [
  | none ↦ b
  | some p ↦
      if ack_sequence_number == p.info.sequence_number
      then record b { retransmit_packet = none }
      else b
]
