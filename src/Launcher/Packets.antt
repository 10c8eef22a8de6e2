-- ===== src/Launcher/Packets.antt =====
-- src/launcher.cpp, `transmitPackets`: packets with random data, and one for the end. The readings of
-- the random numbers are an argument, as is the function that sends a packet, which is given the
-- number of the call.
pub mod Numbered
pub mod Delivered
use arq_benchmark.Base.{ℕ, zero, suc, ◌+◌, List, [], ◌∷◌, length}
use arq_benchmark.Common.Host.{Host}
use arq_benchmark.Common.DataPacket.{
  DataPacket, new, update_data_length, update_conversation_id, get_payload_read_span, write_payload,
}
use arq_benchmark.Rs.DummySctp.{packet_payload_length}

-- The bytes that the distribution gives, from the `i`th on.
abbrev pub random_bytes : ℕ → (ℕ → ℕ) → ℕ → List ℕ
random_bytes zero dist i = []
random_bytes (suc n) dist i = dist i ∷ random_bytes n dist (i + 1)

-- A packet of the loop; every byte of its payload is written.
unfoldable pub input_packet : Host → (ℕ → ℕ) → DataPacket
input_packet host dist =
    let p =
      update_conversation_id host 1 (update_data_length host packet_payload_length (new host)) in
    write_payload (random_bytes (length (get_payload_read_span p)) dist 0) p

unfoldable pub end_of_tx_packet : Host → DataPacket
end_of_tx_packet host = update_data_length host 0 (update_conversation_id host 1 (new host))

module _ {S : Type 0} (host : Host) (send : ℕ → DataPacket → S → S) (dist : ℕ → ℕ → ℕ) where
  -- The loop, from its round `i` on.
  pub transmit_loop : ℕ → ℕ → S → S
  transmit_loop zero i s = s
  transmit_loop (suc rounds) i s =
      transmit_loop rounds (i + 1) (send i (input_packet host (dist i)) s)

  unfoldable pub transmit_packets : ℕ → S → S
  unfolding transmit_loop
  transmit_packets num_packets s =
      send num_packets (end_of_tx_packet host) (transmit_loop num_packets 0 s)
