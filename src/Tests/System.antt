-- ===== src/Tests/System.antt =====
-- Conversations over a network that loses packets and ACKs.
use arq_benchmark.Base.{
  ℕ, replicate, length-replicate, map, ◌≡◌, refl, true, false, List, [], ◌∷◌, ◌++◌, none, some,
  arith, returns,
}
use arq_benchmark.Common.SequenceNumber.{deserialise_seq_num}
use arq_benchmark.Common.DataPacket.{is_end_of_tx}
use arq_benchmark.Rt.StopAndWait
use arq_benchmark.Rt.Instances as Rt
use arq_benchmark.Rs.StopAndWait as RsStopAndWait
use arq_benchmark.Rs.Instances as Rs
use arq_benchmark.Transmitter
use arq_benchmark.System
use arq_benchmark.System.{
  System, Event, numbered, transmits, arrives, times_out, acks, gets_packet, ack_arrives,
}
use arq_benchmark.System.Conversation.{Message, packets_of}
use arq_benchmark.System.LastAck.{lost_last_ack}
use arq_benchmark.System.Stream.{stream}
use arq_benchmark.System.Stream.Sent.{submits, submits-stream}
use arq_benchmark.System.Conversation.{readings_at}
use arq_benchmark.Rt.DummySctp
use arq_benchmark.Rs.DummySctp as RsDummySctp
use arq_benchmark.Receiver
use arq_benchmark.Receiver.{Receiver}
use arq_benchmark.Receiver.Serial.{ack_of}
use arq_benchmark.Common.OutputBuffer.{delivered}
use arq_benchmark.Common.DataPacket.{DataPacket}
use arq_benchmark.Common.DataPacket.Consistent.{IsConsistent}
use arq_benchmark.Launcher.Config.{go_back_n, selective_repeat, ServerConfig, CommonConfig}
use arq_benchmark.Launcher.Start.{transmitter_buffer, receiver_buffer}
use arq_benchmark.Launcher.Start.Conversation.{PairCompletes, transmitter_buffer-whole_conversation}
use arq_benchmark.Launcher.Packets.{transmit_packets, end_of_tx_packet}
use arq_benchmark.Launcher.Packets.Delivered.{messages, listed, transmit_packets-whole_conversation}
use arq_benchmark.Tests.Fixtures.{
  host, host-IsNetworkOrder, packet, packet-IsConsistent, final, final-IsConsistent,
}

abbrev clock : ℕ → ℕ
clock i = i

abbrev server : ServerConfig
server = record {
  do_not_verify_client_addr = true;
  tx_pkts = record { num = 3; ms_interval = 1 };
  arq_timeout = 5;
}

abbrev common : CommonConfig
common = record {
  server_names = record { host_name = "127.0.0.1"; service_name = "65534" };
  client_names = record { host_name = "127.0.0.1"; service_name = "65535" };
  arq_protocol = selective_repeat;
  window_size = none;
}

-- Two copies of the first packet are lost, and one ACK of each.
abbrev lossy : List Message
lossy =
    record { packet = packet 4; data_losses = 2; ack_losses = 1 }
    ∷ record { packet = packet 9; data_losses = 0; ack_losses = 1 }
    ∷ []

going_on : (sn : ℕ) → is_end_of_tx (packet sn) ≡ false
unfolding is_end_of_tx
going_on sn = refl

ending : is_end_of_tx final ≡ true
unfolding is_end_of_tx
ending = refl

transmitter_buffer-whole_conversation_example :
    PairCompletes host 2 clock
      (7 ∷ [])
      lossy
      final
      1
      5000
      (transmitter_buffer go_back_n (some 8) server)
      (receiver_buffer go_back_n)
transmitter_buffer-whole_conversation_example =
    transmitter_buffer-whole_conversation host clock (7 ∷ []) lossy final 1 go_back_n (some 8)
      server 0 host-IsNetworkOrder refl (omega arith) (omega arith) (omega arith)
      (
        (packet-IsConsistent 4 (omega arith), going_on 4),
        ((packet-IsConsistent 9 (omega arith), going_on 9), tt),
      )
      final-IsConsistent ending

transmit_packets-whole_conversation_example :
    let sent = messages host (λ i j. i) clock clock 3 0 in
    (transmit_packets host listed (λ i j. i) 3 [] ≡ packets_of sent ++ end_of_tx_packet host ∷ [])
    × PairCompletes host 2 clock
        (7 ∷ [])
        sent
        (end_of_tx_packet host)
        3
        5000
        (transmitter_buffer selective_repeat none server)
        (receiver_buffer selective_repeat)
transmit_packets-whole_conversation_example =
    transmit_packets-whole_conversation host (λ i j. i) clock clock clock (7 ∷ []) common server 0
      host-IsNetworkOrder refl (omega arith) (omega arith) (omega arith)

-- The end of the transmission has number 0; its ACK was sent and is lost.
abbrev unheard : System StopAndWait.StopAndWait RsStopAndWait.StopAndWait
unheard = record {
  transmitter = record {
    input_buffer = record { input_packets = record { queue = [] }; last_sequence_number = 0 };
    retransmission_buffer = record {
      timeout_interval = 5;
      retransmit_packet = some (record {
        packet = final;
        info = record { first_tx_time = 0; last_tx_time = 0; sequence_number = 0 };
      });
    };
    ack_queue = record { queue = 9 ∷ [] };
    end_of_tx_seq_num = some 0;
    end_of_tx_acked = false;
    sent = final.bytes ∷ [];
  };
  receiver = record {
    output_buffer = record {
      output_packets = record { queue = record { packet = final; rx_time = 0 } ∷ [] };
      next_sequence_number = 1;
    };
    resequencing_buffer = record { expected_packet_seq_num = 1; packet_for_delivery = none };
    ack_queue = record { queue = [] };
    acked_end_of_tx = true;
    end_of_tx_sn = some 0;
    sent = (0 ∷ 0 ∷ []) ∷ [];
    handed_out = [];
  };
}

-- The packet is sent again and arrives, nothing is sent back, and the transmitter receives an ACK of
-- another packet.
abbrev later : List Event
later =
    transmits (Transmitter.transmits (record { check = λ i. 9000; stamp = 9000 }))
    ∷ arrives clock 1 []
    ∷ acks
    ∷ ack_arrives 1 []
    ∷ transmits (Transmitter.takes_ack (some 2) (0 ∷ 9 ∷ []))
    ∷ transmits Transmitter.processes
    ∷ gets_packet
    ∷ times_out clock
    ∷ []

not_the_ack : ¬ (deserialise_seq_num host 0 (0 ∷ 9 ∷ []) ≡ (true, 0))
unfolding deserialise_seq_num
not_the_ack e = absurd (cc e)

lost_last_ack_example :
    (y : System StopAndWait.StopAndWait RsStopAndWait.StopAndWait) × (System.run host
        Rt.stop_and_wait Rs.stop_and_wait 2 later unheard
      ≡ returns y)
    × (y.transmitter.end_of_tx_acked ≡ false)
    × (y.receiver.sent ≡ (0 ∷ 0 ∷ []) ∷ [])
lost_last_ack_example =
    lost_last_ack Rt.stop_and_wait (λ b. Unit {0}) Rt.stop_and_wait-IsRtBuffer Rs.stop_and_wait host
      2 0 later unheard
      (record {
        nothing_new = refl;
        ends = refl;
        waits = refl;
        others = (λ e. absurd (omega arith), tt);
        valid = tt;
      })
      refl (tt, (tt, (tt, (λ span e. absurd (cc e), (not_the_ack, (tt, (tt, (tt, tt))))))))

-- A packet with 1000 bytes of data.
abbrev large : DataPacket
large = record {
  header = record { id = 1; sequence_number = 0; length_ = 1000 };
  bytes = 1 ∷ 0 ∷ 0 ∷ 3 ∷ 232 ∷ replicate 1000 7;
}

large-IsConsistent : IsConsistent large
large-IsConsistent = record {
  in_range = record { id_byte = omega arith; sn_u16 = omega arith; length_u16 = omega arith };
  bounded = omega arith;
  size = omega (arith, length-replicate {A = ℕ} 1000 7);
  starts = refl;
}

submits-stream_example :
    let packets = numbered host 0 (large ∷ final ∷ []) in
    (t : Transmitter.Transmitter DummySctp.DummySctp) × (r : Receiver RsDummySctp.DummySctp)
    × (Transmitter.run host Rt.dummy_sctp
          (submits 9 (readings_at 9) (large ∷ final ∷ []))
          (Transmitter.new DummySctp.new)
        ≡ returns t)
    × (t.sent ≡ map (λ p. p.bytes) packets)
    × (Receiver.run host
          (Rs.dummy_sctp host)
          2
          (stream clock (λ p. 5 ∷ []) packets)
          (Receiver.new (RsDummySctp.new 0))
        ≡ returns r)
    × (delivered r.output_buffer ≡ packets)
    × (r.sent ≡ map (λ p. ack_of host p.header.sequence_number) packets)
    × (r.acked_end_of_tx ≡ true)
submits-stream_example =
    submits-stream host 9 (readings_at 9) host-IsNetworkOrder 0 clock (λ p. 5 ∷ []) (large ∷ [])
      final ((large-IsConsistent, refl), tt) final-IsConsistent refl
