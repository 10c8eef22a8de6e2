-- ===== src/Rt/Instances.antt =====
-- The four classes that derive from `RetransmissionBuffer`, behind its interface.
use arq_benchmark.Base.{
  ℕ, ◌+◌, ◌-◌, ◌<◌, ◌≡◌, refl, true, List, Option, none, some, returns, arith, length, ltb→lt,
  dec_lt, inl, inr,
}
use arq_benchmark.Common.TxBufferObject.{TransmitBufferObject}
use arq_benchmark.Rt.GoBackN
use arq_benchmark.Rt.GoBackN.{GoBackN, Readings}
use arq_benchmark.Rt.GoBackN.Holds.{Tracks}
use arq_benchmark.Rt.GoBackN.Add.{with_packet, do_add_packet-room, with_packet-Tracks}
use arq_benchmark.Rt.GoBackN.Retransmit.{stamped, do_try_get_packet_span_refines}
use arq_benchmark.Rt.GoBackN.Acknowledge.{
  acknowledged, do_acknowledge_packet-inside, acknowledged-Tracks, do_acknowledge_packet-ignored,
}
use arq_benchmark.Rt.StopAndWait
use arq_benchmark.Rt.StopAndWait.{StopAndWait}
use arq_benchmark.Rt.DummySctp
use arq_benchmark.Rt.DummySctp.{DummySctp}
use arq_benchmark.Rt.SelectiveRepeat
use arq_benchmark.Rt.SelectiveRepeat.{SelectiveRepeat}
use arq_benchmark.Rt.Buffer.{RtBuffer, IsRtBuffer}

abbrev pub go_back_n : RtBuffer GoBackN
go_back_n = record {
  add_packet = GoBackN.do_add_packet;
  try_get_packet_span = GoBackN.do_try_get_packet_span;
  ready_for_new_packet = GoBackN.do_ready_for_new_packet;
  packets_pending = GoBackN.do_packets_pending;
  acknowledge_packet = GoBackN.do_acknowledge_packet;
}

abbrev pub selective_repeat : RtBuffer SelectiveRepeat
selective_repeat = record {
  add_packet = SelectiveRepeat.do_add_packet;
  try_get_packet_span = SelectiveRepeat.do_try_get_packet_span;
  ready_for_new_packet = SelectiveRepeat.do_ready_for_new_packet;
  packets_pending = SelectiveRepeat.do_packets_pending;
  acknowledge_packet = SelectiveRepeat.do_acknowledge_packet;
}

abbrev pub stop_and_wait : RtBuffer StopAndWait
stop_and_wait = record {
  add_packet = StopAndWait.do_add_packet;
  try_get_packet_span = λ clock b. returns (StopAndWait.do_try_get_packet_span clock b);
  ready_for_new_packet = StopAndWait.do_ready_for_new_packet;
  packets_pending = StopAndWait.do_packets_pending;
  acknowledge_packet = λ sn b. returns (StopAndWait.do_acknowledge_packet sn b);
}

abbrev pub dummy_sctp : RtBuffer DummySctp
dummy_sctp = record {
  add_packet = λ packet b. returns (DummySctp.do_add_packet packet b);
  try_get_packet_span = λ clock b. returns (DummySctp.do_try_get_packet_span b);
  ready_for_new_packet = DummySctp.do_ready_for_new_packet;
  packets_pending = DummySctp.do_packets_pending;
  acknowledge_packet = λ sn b. returns (DummySctp.do_acknowledge_packet sn b);
}

-- A circular buffer is valid that holds some list of packets.
abbrev pub IsRing : GoBackN → Type 0
IsRing b = (ps : List TransmitBufferObject) × Tracks b ps

add_returns :
    (packet : TransmitBufferObject) (b : GoBackN)
    → IsRing b
    → GoBackN.do_ready_for_new_packet b ≡ true
    → (b' : GoBackN) × (GoBackN.do_add_packet packet b ≡ returns b') × IsRing b'
unfolding GoBackN.do_ready_for_new_packet
add_returns packet b (ps, t) ready =
    let room : b.packets_in_buffer < b.window_size = ltb→lt _ _ ready in
    (
      with_packet b packet (length ps),
      do_add_packet-room packet b ps t (omega (arith, t.at_least)),
      (
        _,
        with_packet-Tracks packet b ps t (omega (arith, t.at_least)) (omega (arith, t.window_u16)),
      ),
    )

try_get_returns :
    (clock : Readings) (b : GoBackN)
    → IsRing b
    → (span : Option (List ℕ)) × (b' : GoBackN) × (GoBackN.do_try_get_packet_span clock b
        ≡ returns (span, b'))
      × IsRing b'
try_get_returns clock b (ps, t) = elim (do_try_get_packet_span_refines clock b ps t) [
  | inl (nothing, e) ↦ (none, b, e, (ps, t))
  | inr (i, p, there, hit, before, e, t') ↦ (_, stamped clock b i p, e, (_, t'))
]

acknowledge_returns :
    (seq_num : ℕ) (b : GoBackN)
    → IsRing b
    → (b' : GoBackN) × (GoBackN.do_acknowledge_packet seq_num b ≡ returns b') × IsRing b'
acknowledge_returns seq_num b (ps, t) = elim (dec_lt seq_num b.next_to_ack) [
  | yes old ↦ (b, do_acknowledge_packet-ignored b ps t seq_num (inl old), (ps, t))
  | no new ↦ elim (dec_lt seq_num (b.next_to_ack + b.window_size)) [
    | no beyond ↦
        (b, do_acknowledge_packet-ignored b ps t seq_num (inr (inl (omega arith))), (ps, t))
    | yes inside ↦ elim (dec_lt 0 b.packets_in_buffer) [
      | no empty ↦
          (b, do_acknowledge_packet-ignored b ps t seq_num (inr (inr (omega arith))), (ps, t))
      | yes pending ↦
          let k = seq_num + 1 - b.next_to_ack in
          (
            acknowledged b ps t seq_num k,
            do_acknowledge_packet-inside b ps t seq_num k (omega arith) (omega arith) (omega arith)
                pending,
            (_, acknowledged-Tracks b ps t seq_num k (omega arith)),
          )
    ]
  ]
]

-- A Go-Back-N buffer that holds some packets keeps the interface's promise, whichever numbers are
-- acknowledged.
pub go_back_n-IsRtBuffer : IsRtBuffer go_back_n IsRing
go_back_n-IsRtBuffer = record {
  add_returns = add_returns;
  try_get_returns = try_get_returns;
  acknowledge_returns = acknowledge_returns;
}

pub selective_repeat-IsRtBuffer : IsRtBuffer selective_repeat IsRing
selective_repeat-IsRtBuffer = go_back_n-IsRtBuffer

-- Every state of a Stop-and-Wait buffer is valid.
pub stop_and_wait-IsRtBuffer : IsRtBuffer stop_and_wait (λ b. Unit {0})
unfolding StopAndWait.do_add_packet StopAndWait.do_ready_for_new_packet
stop_and_wait-IsRtBuffer = record {
  add_returns =
      λ packet b v ready. (record b { retransmit_packet = some packet }, ground arith, tt);
  try_get_returns = λ clock b v. (_, _, refl, tt);
  acknowledge_returns = λ sn b v. (_, refl, tt);
}

pub dummy_sctp-IsRtBuffer : IsRtBuffer dummy_sctp (λ b. Unit {0})
dummy_sctp-IsRtBuffer = record {
  add_returns = λ packet b v ready. (_, refl, tt);
  try_get_returns = λ clock b v. (_, _, refl, tt);
  acknowledge_returns = λ sn b v. (_, refl, tt);
}
