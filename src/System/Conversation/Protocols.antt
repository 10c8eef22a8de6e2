-- ===== src/System/Conversation/Protocols.antt =====
-- The pairs of buffers of src/launcher.cpp that a whole conversation can be held with.
use arq_benchmark.Base.{ℕ}
use arq_benchmark.Rt.GoBackN.{GoBackN}
use arq_benchmark.Rt.StopAndWait.{StopAndWait}
use arq_benchmark.Rt.SelectiveRepeat.{SelectiveRepeat}
use arq_benchmark.Rt.Instances as Rt
use arq_benchmark.Rt.Serial as RtSerial
use arq_benchmark.Rs.GoBackN as RsGoBackN
use arq_benchmark.Rs.StopAndWait as RsStopAndWait
use arq_benchmark.Rs.SelectiveRepeat as RsSelectiveRepeat
use arq_benchmark.Rs.Instances as Rs
use arq_benchmark.Rs.Serial as RsSerial
use arq_benchmark.System.Conversation.Pair.{SerialPair}

module _ (timeout : ℕ) where
  abbrev pub stop_and_wait_pair : SerialPair StopAndWait RsStopAndWait.StopAndWait
  stop_and_wait_pair = record {
    rt = Rt.stop_and_wait;
    timeout = timeout;
    Idle = RtSerial.SawIdle timeout;
    Holding = RtSerial.SawHolding timeout;
    rt_laws = RtSerial.stop_and_wait-IsSerial timeout;
    rs = Rs.stop_and_wait;
    Expecting = RsSerial.SawExpecting;
    Given = RsSerial.SawGiven;
    rs_laws = RsSerial.stop_and_wait-IsSerial;
  }

  abbrev pub go_back_n_pair : SerialPair GoBackN RsGoBackN.GoBackN
  go_back_n_pair = record {
    rt = Rt.go_back_n;
    timeout = timeout;
    Idle = RtSerial.RingIdle timeout;
    Holding = RtSerial.RingHolding timeout;
    rt_laws = RtSerial.go_back_n-IsSerial timeout;
    rs = Rs.go_back_n;
    Expecting = RsSerial.GbnExpecting;
    Given = RsSerial.GbnGiven;
    rs_laws = RsSerial.go_back_n-IsSerial;
  }

  abbrev pub selective_repeat_pair : SerialPair SelectiveRepeat RsSelectiveRepeat.SelectiveRepeat
  selective_repeat_pair = record {
    rt = Rt.selective_repeat;
    timeout = timeout;
    Idle = RtSerial.RingIdle timeout;
    Holding = RtSerial.RingHolding timeout;
    rt_laws = RtSerial.go_back_n-IsSerial timeout;
    rs = Rs.selective_repeat;
    Expecting = RsSerial.IsEmptyAt;
    Given = RsSerial.SrGiven;
    rs_laws = RsSerial.selective_repeat-IsSerial;
  }
