-- ===== src/Rt/DummySctp.antt =====
-- src/arq/retransmission_buffers/dummy_sctp_rt.{hpp,cpp}: SCTP retransmits by itself, so nothing is
-- kept.
use arq_benchmark.Base.{ℕ, Bool, true, false, List, Option, none}
use arq_benchmark.Common.TxBufferObject.{TransmitBufferObject}

-- The timeout of the base class, which is not used.
pub record DummySctp : Type 0 where
  pub timeout_interval : ℕ

unfoldable pub new : DummySctp
new = record { timeout_interval = 0 }

unfoldable pub do_add_packet : TransmitBufferObject → DummySctp → DummySctp
do_add_packet packet b = b

unfoldable pub do_try_get_packet_span : DummySctp → Option (List ℕ) × DummySctp
do_try_get_packet_span b = (none, b)

unfoldable pub do_ready_for_new_packet : DummySctp → Bool
do_ready_for_new_packet b = true

unfoldable pub do_packets_pending : DummySctp → Bool
do_packets_pending b = false

unfoldable pub do_acknowledge_packet : ℕ → DummySctp → DummySctp
do_acknowledge_packet seq_num b = b
