-- ===== src/Rt/SelectiveRepeat.antt =====
-- src/arq/retransmission_buffers/selective_repeat_rt.{hpp,cpp}. The class repeats that of Go-Back-N,
-- member by member and statement by statement, but for the texts that are logged and thrown; so do
-- these definitions, by name.
use arq_benchmark.Base.{ℕ, Bool, List, Option, Outcome}
use arq_benchmark.Common.TxBufferObject.{TransmitBufferObject}
use arq_benchmark.Rt.GoBackN
use arq_benchmark.Rt.GoBackN.{GoBackN, Readings}

abbrev pub SelectiveRepeat : Type 0
SelectiveRepeat = GoBackN

abbrev pub new : ℕ → ℕ → ℕ → SelectiveRepeat
new = GoBackN.new

abbrev pub do_add_packet : TransmitBufferObject → SelectiveRepeat → Outcome SelectiveRepeat
do_add_packet = GoBackN.do_add_packet

abbrev pub do_try_get_packet_span :
    Readings → SelectiveRepeat → Outcome (Option (List ℕ) × SelectiveRepeat)
do_try_get_packet_span = GoBackN.do_try_get_packet_span

abbrev pub do_ready_for_new_packet : SelectiveRepeat → Bool
do_ready_for_new_packet = GoBackN.do_ready_for_new_packet

abbrev pub do_packets_pending : SelectiveRepeat → Bool
do_packets_pending = GoBackN.do_packets_pending

abbrev pub do_acknowledge_packet : ℕ → SelectiveRepeat → Outcome SelectiveRepeat
do_acknowledge_packet = GoBackN.do_acknowledge_packet
