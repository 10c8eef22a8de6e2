-- ===== src/Launcher/Start/Conversation.antt =====
-- src/launcher.cpp: a whole conversation between the transmitter that `startTransmitter` makes for a
-- protocol and the receiver that `startReceiver` makes.
use arq_benchmark.Base.{
  ℕ, suc, ◌*◌, ◌<◌, ◌≡◌, refl, true, false, List, [], ◌∷◌, ◌++◌, All, length, arith, Option,
}
use arq_benchmark.Common.Host.{Host, IsNetworkOrder, u16_mod}
use arq_benchmark.Common.SequenceNumber.{first_sequence_number}
use arq_benchmark.Common.DataPacket.{DataPacket, is_end_of_tx}
use arq_benchmark.Common.DataPacket.Consistent.{IsConsistent}
use arq_benchmark.Rt.GoBackN
use arq_benchmark.Rt.StopAndWait
use arq_benchmark.Rt.SelectiveRepeat
use arq_benchmark.Rt.Instances as Rt
use arq_benchmark.Rt.Serial.{new-RingAt}
use arq_benchmark.Rs.GoBackN as RsGoBackN
use arq_benchmark.Rs.StopAndWait as RsStopAndWait
use arq_benchmark.Rs.SelectiveRepeat as RsSelectiveRepeat
use arq_benchmark.Rs.Instances as Rs
use arq_benchmark.Rs.Serial.{new-IsEmptyAt}
use arq_benchmark.System.Conversation.{Message, whole_conversation, packets_of}
use arq_benchmark.System.Conversation.Completion.{Completes, whole_conversation-Completes}
use arq_benchmark.System.Conversation.Protocols.{
  stop_and_wait_pair, go_back_n_pair, selective_repeat_pair,
}
use arq_benchmark.Launcher.Config.{
  ArqProtocol, dummy_sctp, stop_and_wait, go_back_n, selective_repeat, ServerConfig,
}
use arq_benchmark.Launcher.Start.{
  TransmitterBuffer, saw_buffer, gbn_buffer, sr_buffer, transmitter_buffer, window_or_default,
  ReceiverBuffer, saw_rs_buffer, gbn_rs_buffer, sr_rs_buffer, receiver_buffer, is_dummy_sctp,
}

-- The two buffers are of one protocol, and the conversation completes with them.
abbrev pub PairCompletes :
    Host
    → ℕ
    → (ℕ → ℕ)
    → List ℕ
    → List Message
    → DataPacket
    → ℕ
    → ℕ
    → TransmitterBuffer
    → ReceiverBuffer
    → Type 0
PairCompletes host fuel rx_clock tail messages last losses timeout (saw_buffer t)
      (saw_rs_buffer r) =
    Completes host Rt.stop_and_wait Rs.stop_and_wait fuel
      (whole_conversation timeout rx_clock tail messages last losses) tail
      (packets_of messages ++ last ∷ []) t r
PairCompletes host fuel rx_clock tail messages last losses timeout (gbn_buffer t)
      (gbn_rs_buffer r) =
    Completes host Rt.go_back_n Rs.go_back_n fuel
      (whole_conversation timeout rx_clock tail messages last losses) tail
      (packets_of messages ++ last ∷ []) t r
PairCompletes host fuel rx_clock tail messages last losses timeout (sr_buffer t) (sr_rs_buffer r) =
    Completes host Rt.selective_repeat Rs.selective_repeat fuel
      (whole_conversation timeout rx_clock tail messages last losses) tail
      (packets_of messages ++ last ∷ []) t r
PairCompletes host fuel rx_clock tail messages last losses timeout _ _ = ⊥

-- Whichever of the three ARQ protocols is configured, with no window or with one from 1 to 65535: when
-- the application submits fewer than 65536 consistent packets with data, one after the other, and
-- then the end of the transmission, and the network loses any number of copies of each of them, and
-- any number of the ACKs of all but the last, whose one ACK arrives, then retransmission gets
-- everything through. The run
-- returns; copies of all the packets, in order, each with its number and the bytes behind it in the
-- array, wait for the receiver's application; and the transmitter knows that the end of the
-- transmission was acknowledged, and the receiver that it has acknowledged it, so that the loops of
-- both end. A delivery has fuel for 2 rounds or more.
pub transmitter_buffer-whole_conversation :
    (host : Host) (rx_clock : ℕ → ℕ) (tail : List ℕ) (messages : List Message) (last : DataPacket)
    (losses : ℕ) (protocol : ArqProtocol) (window_size : Option ℕ) (server : ServerConfig)
    (fuel : ℕ)
    → IsNetworkOrder host
    → is_dummy_sctp protocol ≡ false
    → 0 < window_or_default window_size
    → window_or_default window_size < u16_mod
    → length messages < u16_mod
    → All (λ m. IsConsistent m.packet × (is_end_of_tx m.packet ≡ false)) messages
    → IsConsistent last
    → is_end_of_tx last ≡ true
    → PairCompletes host
        (suc (suc fuel))
        rx_clock
        tail
        messages
        last
        losses
        (server.arq_timeout * 1000)
        (transmitter_buffer protocol window_size server)
        (receiver_buffer protocol)
unfolding transmitter_buffer receiver_buffer StopAndWait.new RsStopAndWait.new RsGoBackN.new
transmitter_buffer-whole_conversation host rx_clock tail messages last losses dummy_sctp window_size
      server fuel order arq pos small few all valid final =
    absurd (cc arq)
transmitter_buffer-whole_conversation host rx_clock tail messages last losses stop_and_wait
      window_size server fuel order arq pos small few all valid final =
    let timeout = server.arq_timeout * 1000 in
    whole_conversation-Completes (stop_and_wait_pair timeout) host order fuel rx_clock tail messages
      last losses (StopAndWait.new timeout) (RsStopAndWait.new first_sequence_number) refl refl few
      all valid final
transmitter_buffer-whole_conversation host rx_clock tail messages last losses go_back_n window_size
      server fuel order arq pos small few all valid final =
    let timeout = server.arq_timeout * 1000 in
    let window = window_or_default window_size in
    whole_conversation-Completes (go_back_n_pair timeout) host order fuel rx_clock tail messages
      last losses (GoBackN.new window timeout first_sequence_number)
      (RsGoBackN.new first_sequence_number)
      (new-RingAt timeout window first_sequence_number pos small (omega arith)) (refl, refl) few all
      valid final
transmitter_buffer-whole_conversation host rx_clock tail messages last losses selective_repeat
      window_size server fuel order arq pos small few all valid final =
    let timeout = server.arq_timeout * 1000 in
    let window = window_or_default window_size in
    whole_conversation-Completes (selective_repeat_pair timeout) host order fuel rx_clock tail
      messages last losses (SelectiveRepeat.new window timeout first_sequence_number)
      (RsSelectiveRepeat.new 100 first_sequence_number)
      (new-RingAt timeout window first_sequence_number pos small (omega arith))
      (new-IsEmptyAt 100 first_sequence_number (omega arith) (omega arith) (omega arith)) few all
      valid final
