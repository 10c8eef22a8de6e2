-- ===== src/Launcher/Start/Configured.antt =====
-- src/launcher.cpp: the transmitter that `startTransmitter` makes for a protocol, and the receiver
-- that `startReceiver` makes, with a network between them.
use arq_benchmark.Base.{ℕ, ◌<◌, ◌*◌, ◌≡◌, false, Option, List, All, length, arith}
use arq_benchmark.Common.Host.{Host, IsNetworkOrder, u16_mod}
use arq_benchmark.Common.DataPacket.Consistent.{IsConsistent}
use arq_benchmark.Rt.Instances as Rt
use arq_benchmark.Rs.Instances as Rs
use arq_benchmark.System.{Event, submissions}
use arq_benchmark.System.Protocols.{
  Delivers, stop_and_wait-Delivers, go_back_n-Delivers, selective_repeat-Delivers,
}
use arq_benchmark.Launcher.Config.{
  ArqProtocol, dummy_sctp, stop_and_wait, go_back_n, selective_repeat, ServerConfig,
}
use arq_benchmark.Launcher.Start.{
  TransmitterBuffer, saw_buffer, gbn_buffer, sr_buffer, transmitter_buffer, window_or_default,
  ReceiverBuffer, saw_rs_buffer, gbn_rs_buffer, sr_rs_buffer, receiver_buffer, is_dummy_sctp,
}

-- The two buffers are of one protocol, the run returns from a new transmitter and a new receiver with
-- them, and the receiver gives out copies of the packets that were submitted, in order.
abbrev pub PairDelivers : Host → ℕ → List Event → TransmitterBuffer → ReceiverBuffer → Type 0
PairDelivers host fuel events (saw_buffer t) (saw_rs_buffer r) =
    Delivers host Rt.stop_and_wait Rs.stop_and_wait fuel events t r
PairDelivers host fuel events (gbn_buffer t) (gbn_rs_buffer r) =
    Delivers host Rt.go_back_n Rs.go_back_n fuel events t r
PairDelivers host fuel events (sr_buffer t) (sr_rs_buffer r) =
    Delivers host Rt.selective_repeat Rs.selective_repeat fuel events t r
PairDelivers host fuel events _ _ = ⊥

-- Whichever of the three ARQ protocols is configured, with no window or with one from 1 to 65535: if
-- fewer than 65536 packets are submitted, and each is consistent, then every order of the steps of
-- the transmitter and of the receiver returns, whatever the network loses, repeats, delays or puts
-- in another order, and whatever comes back as ACKs; and what the application is given, followed by
-- what waits for it, is the first so many of the packets that were submitted, in order, each with its
-- number, its header, and its bytes with those behind it in the array. A delivery has fuel for
-- 101 rounds or more.
pub transmitter_buffer-receiver_buffer :
    (host : Host) (events : List Event) (protocol : ArqProtocol) (window_size : Option ℕ)
    (server : ServerConfig) (fuel : ℕ)
    → IsNetworkOrder host
    → is_dummy_sctp protocol ≡ false
    → 0 < window_or_default window_size
    → window_or_default window_size < u16_mod
    → 100 < fuel
    → All IsConsistent (submissions events)
    → length (submissions events) < u16_mod
    → PairDelivers host fuel events
        (transmitter_buffer protocol window_size server)
        (receiver_buffer protocol)
unfolding transmitter_buffer receiver_buffer
transmitter_buffer-receiver_buffer host events dummy_sctp window_size server fuel order arq pos
      small enough consistent few =
    absurd (cc arq)
transmitter_buffer-receiver_buffer host events stop_and_wait window_size server fuel order arq pos
      small enough consistent few =
    stop_and_wait-Delivers host order events consistent few (server.arq_timeout * 1000) fuel
      (omega arith)
transmitter_buffer-receiver_buffer host events go_back_n window_size server fuel order arq pos small
      enough consistent few =
    go_back_n-Delivers host order events consistent few (server.arq_timeout * 1000)
      (window_or_default window_size) pos small fuel (omega arith)
transmitter_buffer-receiver_buffer host events selective_repeat window_size server fuel order arq
      pos small enough consistent few =
    selective_repeat-Delivers host order events consistent few (server.arq_timeout * 1000)
      (window_or_default window_size) pos small 100 fuel (omega arith) (omega arith) enough
