-- ===== src/Rs/Instances.antt =====
-- The resequencing buffers behind the interface of the receiver.
use arq_benchmark.Base.{returns}
use arq_benchmark.Common.Host.{Host}
use arq_benchmark.Rs.Buffer.{RsBuffer}
use arq_benchmark.Rs.SelectiveRepeat
use arq_benchmark.Rs.GoBackN
use arq_benchmark.Rs.StopAndWait
use arq_benchmark.Rs.DummySctp

abbrev pub go_back_n : RsBuffer GoBackN.GoBackN
go_back_n = record {
  add_packet = λ packet b. returns (GoBackN.do_add_packet packet b);
  packets_pending = GoBackN.do_packets_pending;
  get_next_packet = GoBackN.do_get_next_packet;
}

abbrev pub selective_repeat : RsBuffer SelectiveRepeat.SelectiveRepeat
selective_repeat = record {
  add_packet = SelectiveRepeat.do_add_packet;
  packets_pending = SelectiveRepeat.do_packets_pending;
  get_next_packet = SelectiveRepeat.do_get_next_packet;
}

abbrev pub stop_and_wait : RsBuffer StopAndWait.StopAndWait
stop_and_wait = record {
  add_packet = λ packet b. returns (StopAndWait.do_add_packet packet b);
  packets_pending = StopAndWait.do_packets_pending;
  get_next_packet = StopAndWait.do_get_next_packet;
}

abbrev pub dummy_sctp : Host → RsBuffer DummySctp.DummySctp
dummy_sctp host = record {
  add_packet = DummySctp.do_add_packet host;
  packets_pending = DummySctp.do_packets_pending;
  get_next_packet = DummySctp.do_get_next_packet;
}
