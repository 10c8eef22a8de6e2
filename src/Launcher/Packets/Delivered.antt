-- ===== src/Launcher/Packets/Delivered.antt =====
-- src/launcher.cpp: what `transmitPackets` submits, on its way from the transmitter of
-- `startTransmitter` to the receiver of `startReceiver`.
use arq_benchmark.Base.{
  append-nil, ℕ, zero, suc, ◌+◌, ◌*◌, ◌<◌, ◌≡◌, refl, sym, ap, ◌∙◌, true, false, List, [], ◌∷◌,
  ◌++◌, All, append_assoc, length, arith, ◌==◌,
}
use arq_benchmark.Common.Host.{Host, IsNetworkOrder, u16_mod}
use arq_benchmark.Common.DataPacket.{DataPacket, is_end_of_tx}
use arq_benchmark.Common.DataPacket.Consistent.{IsConsistent}
use arq_benchmark.Rs.DummySctp.{packet_payload_length}
use arq_benchmark.System.Conversation.{Message, packets_of}
use arq_benchmark.Launcher.Config.{CommonConfig, ServerConfig}
use arq_benchmark.Launcher.Start.{
  transmitter_buffer, receiver_buffer, window_or_default, is_dummy_sctp,
}
use arq_benchmark.Launcher.Start.Conversation.{PairCompletes, transmitter_buffer-whole_conversation}
use arq_benchmark.Launcher.Packets.{input_packet, end_of_tx_packet, transmit_loop, transmit_packets}
use arq_benchmark.Launcher.Packets.Numbered.{
  length-random_bytes, length-payload, input_packet-IsConsistent, end_of_tx_packet-IsConsistent,
}

-- The packet of one round, with what the network loses of it and of its ACKs.
abbrev pub message : Host → (ℕ → ℕ → ℕ) → (ℕ → ℕ) → (ℕ → ℕ) → ℕ → Message
message host dist data_losses ack_losses i = record {
  packet = input_packet host (dist i);
  data_losses = data_losses i;
  ack_losses = ack_losses i;
}

-- Those of the rounds from `i` on.
abbrev pub messages : Host → (ℕ → ℕ → ℕ) → (ℕ → ℕ) → (ℕ → ℕ) → ℕ → ℕ → List Message
messages host dist data_losses ack_losses zero i = []
messages host dist data_losses ack_losses (suc rounds) i =
    message host dist data_losses ack_losses i
    ∷ messages host dist data_losses ack_losses rounds (i + 1)

-- A send function that lists what it is given.
abbrev pub listed : ℕ → DataPacket → List DataPacket → List DataPacket
listed i p sent = sent ++ p ∷ []

module _ (host : Host) (dist : ℕ → ℕ → ℕ) (data_losses ack_losses : ℕ → ℕ) where
  transmit_loop-listed :
      (n i : ℕ) (sent : List DataPacket)
      → transmit_loop host listed dist n i sent
        ≡ sent ++ packets_of (messages host dist data_losses ack_losses n i)
  unfolding transmit_loop
  transmit_loop-listed zero i sent = sym (append-nil sent)
  transmit_loop-listed (suc n) i sent =
      transmit_loop-listed n (i + 1) (sent ++ input_packet host (dist i) ∷ [])
      ∙ append_assoc sent (input_packet host (dist i) ∷ []) _

  transmit_packets-listed :
      (num : ℕ)
      → transmit_packets host listed dist num []
        ≡ packets_of (messages host dist data_losses ack_losses num 0) ++ end_of_tx_packet host ∷ []
  unfolding transmit_packets
  transmit_packets-listed num =
      ap (λ l. l ++ end_of_tx_packet host ∷ []) (transmit_loop-listed num 0 [])

  length-messages : (n i : ℕ) → length (messages host dist data_losses ack_losses n i) ≡ n
  length-messages zero i = refl
  length-messages (suc n) i = ap suc (length-messages n (i + 1))

  module _ (order : IsNetworkOrder host) where
    input_packet-goes_on : (i : ℕ) → is_end_of_tx (input_packet host (dist i)) ≡ false
    unfolding is_end_of_tx
    input_packet-goes_on i =
        let (v, payload) = input_packet-IsConsistent host order (dist i) in
        let full : (input_packet host (dist i)).header.length_ ≡ packet_payload_length =
          sym (length-payload (input_packet host (dist i)) v)
          ∙ ap length payload
          ∙ length-random_bytes packet_payload_length (dist i) 0 in
        ap (λ n. n == 0) full

    end_of_tx_packet-ends : is_end_of_tx (end_of_tx_packet host) ≡ true
    unfolding is_end_of_tx
    end_of_tx_packet-ends =
        let (v, payload) = end_of_tx_packet-IsConsistent host order in
        ap (λ n. n == 0) (sym (length-payload (end_of_tx_packet host) v) ∙ ap length payload)

    All-messages :
        (n i : ℕ)
        → All
            (λ m. IsConsistent m.packet × (is_end_of_tx m.packet ≡ false))
            (messages host dist data_losses ack_losses n i)
    All-messages zero i = tt
    All-messages (suc n) i = (
      ((input_packet-IsConsistent host order (dist i)).0, input_packet-goes_on i),
      All-messages n (i + 1),
    )

-- Whichever of the three ARQ protocols is configured, with no window or with one from 1 to 65535, and
-- however many packets are to be sent, up to 65535: let the packets that `transmitPackets` submits, of
-- random bytes and the one for the end, be submitted to the transmitter, each when the one before is
-- acknowledged. However many copies of each of them the network loses, and however many ACKs of all
-- but the last, whose one ACK arrives, the run returns, copies of just these packets are the receiver's output, in order,
-- each with its number and the bytes behind it in the array, and the transmitter and the receiver
-- know that the end of the transmission is acknowledged. A delivery has fuel for 2 rounds or more.
pub transmit_packets-whole_conversation :
    (host : Host) (dist : ℕ → ℕ → ℕ) (data_losses ack_losses : ℕ → ℕ) (rx_clock : ℕ → ℕ)
    (tail : List ℕ) (common : CommonConfig) (server : ServerConfig) (fuel : ℕ)
    → IsNetworkOrder host
    → is_dummy_sctp common.arq_protocol ≡ false
    → 0 < window_or_default common.window_size
    → window_or_default common.window_size < u16_mod
    → server.tx_pkts.num < u16_mod
    → let sent = messages host dist data_losses ack_losses server.tx_pkts.num 0 in
      (transmit_packets host listed dist server.tx_pkts.num []
        ≡ packets_of sent ++ end_of_tx_packet host ∷ [])
      × PairCompletes host
          (suc (suc fuel))
          rx_clock
          tail
          sent
          (end_of_tx_packet host)
          (data_losses server.tx_pkts.num)
          (server.arq_timeout * 1000)
          (transmitter_buffer common.arq_protocol common.window_size server)
          (receiver_buffer common.arq_protocol)
transmit_packets-whole_conversation host dist data_losses ack_losses rx_clock tail common server
      fuel order arq pos small few =
    let num = server.tx_pkts.num in
    let sent = messages host dist data_losses ack_losses num 0 in
    (
      transmit_packets-listed host dist data_losses ack_losses num,
      transmitter_buffer-whole_conversation host rx_clock tail sent (end_of_tx_packet host)
          (data_losses num) common.arq_protocol common.window_size server fuel order arq pos small
          (omega (arith, length-messages host dist data_losses ack_losses num 0))
          (All-messages host dist data_losses ack_losses order num 0)
          (end_of_tx_packet-IsConsistent host order).0
          (end_of_tx_packet-ends host dist data_losses ack_losses order),
    )
