-- ===== src/Tests/Launcher.antt =====
-- The command line, the packets of the launcher, and a whole transmission.
use arq_benchmark.Base.{
  ℕ, zero, suc, none, ◌<◌, get_elem?, returns, false, ◌+◌, ◌*◌, ◌%◌, ◌≡◌, ◌⊎◌, ◌↔◌, refl, true,
  List, [], ◌∷◌, ◌++◌, All, map, some, arith,
}
use arq_benchmark.Common.SequenceNumber.{first_sequence_number}
use arq_benchmark.Common.InOrder.{InOrder}
use arq_benchmark.Common.DataPacket.{get_payload_read_span}
use arq_benchmark.Common.InputBuffer.Numbering.{packets, IsNumbered}
use arq_benchmark.Rt.DummySctp
use arq_benchmark.Transmitter
use arq_benchmark.Util.Logging.{Logger, initial}
use arq_benchmark.Launcher.Main.{End, Run, exits, failure, generate_configuration, main}
use arq_benchmark.Launcher.Main.Joins.{EndsAs, main_outcome}
use arq_benchmark.Util.Os.{value}
use arq_benchmark.System
use arq_benchmark.System.{System, Event, transmits, arrives, times_out, acks, gets_packet}
use arq_benchmark.Launcher.Config.{
  go_back_n, arq_protocol_to_string, parsed, get_arq_protocol_from_str,
  get_arq_protocol_from_str-arq_protocol_to_string, ServerConfig, LauncherConfig,
}
use arq_benchmark.Launcher.Options.{parse_options}
use arq_benchmark.Launcher.Options.RoundTrip.{
  Request, options_of, lookup, config_of, parse_options-options_of,
}
use arq_benchmark.Launcher.Packets.{transmit_packets}
use arq_benchmark.Launcher.Packets.Numbered.{send, drawn, transmit_packets-IsNumbered}
use arq_benchmark.Launcher.Start.{transmitter_buffer, receiver_buffer}
use arq_benchmark.Launcher.Start.Configured.{PairDelivers, transmitter_buffer-receiver_buffer}
use arq_benchmark.Rt.GoBackN
use arq_benchmark.Rt.GoBackN.Holds.{Tracks}
use arq_benchmark.Rt.Instances as Rt
use arq_benchmark.Rs.GoBackN as RsGoBackN
use arq_benchmark.Rs.Instances as Rs
use arq_benchmark.Common.OutputBuffer
use arq_benchmark.Common.TxBufferObject.{is_packet_timed_out}
use arq_benchmark.Receiver.Round.{output}
use arq_benchmark.System.Retransmission.{transmits-arrives}
use arq_benchmark.Tests.Fixtures.{host, host-IsNetworkOrder, packet, packet-IsConsistent, submitted}

abbrev request : Request
request = record {
  logging_level = 3;
  server_names = record { host_name = "localhost"; service_name = "65534" };
  client_names = record { host_name = "10.0.0.7"; service_name = "65535" };
  launch_server = true;
  launch_client = true;
  num = 10;
  ms_interval = 100;
  arq_timeout = 50;
  arq_protocol = go_back_n;
  window_size = 8;
}

parse_options-options_of_example :
    parse_options (lookup (options_of request)) initial
    ≡ parsed (config_of request, record initial { logging_level = 3 })
parse_options-options_of_example = parse_options-options_of request initial (omega arith)

get_arq_protocol_from_str-arq_protocol_to_string_example :
    (get_arq_protocol_from_str "go-back-n" ≡ parsed go_back_n)
    ↔ ("go-back-n" ≡ arq_protocol_to_string go_back_n)
get_arq_protocol_from_str-arq_protocol_to_string_example =
    get_arq_protocol_from_str-arq_protocol_to_string "go-back-n" go_back_n

-- The transmitter returns, and the receiver would go on for ever.
abbrev tx_end : LauncherConfig → End
tx_end config = some (value tt)

abbrev rx_end : LauncherConfig → End
rx_end config = none

main_outcome_example :
    let vm = some (lookup (options_of request)) in
    (((config : LauncherConfig × Logger) → ¬ (generate_configuration vm initial ≡ parsed config))
      × (main tx_end rx_end 2 vm initial ≡ returns (exits failure none)))
    ⊎ ((config : LauncherConfig × Logger) × (run : Run) × (generate_configuration vm initial
          ≡ parsed config)
        × (main tx_end rx_end 2 vm initial ≡ returns run)
        × EndsAs tx_end rx_end config.0 config.1 run)
main_outcome_example =
    main_outcome tx_end rx_end 2 (some (lookup (options_of request))) initial (omega arith)

abbrev clock : ℕ → ℕ
clock i = 1000 * i

abbrev dist : ℕ → ℕ → ℕ
dist i j = (i + j) % 256

transmit_packets-IsNumbered_example :
    let t =
      transmit_packets host
        (send host host-IsNetworkOrder clock dist)
        dist
        2
        (Transmitter.new DummySctp.new) in
    let queued = t.input_buffer.input_packets.queue in
    ((next : ℕ) × InOrder first_sequence_number (packets queued) next)
    × All IsNumbered queued
    × (map get_payload_read_span (packets queued)
        ≡ drawn host host-IsNetworkOrder clock dist 2 0 ++ [] ∷ [])
transmit_packets-IsNumbered_example =
    transmit_packets-IsNumbered host host-IsNetworkOrder clock dist DummySctp.new 2

abbrev server : ServerConfig
server = record {
  do_not_verify_client_addr = true;
  tx_pkts = record { num = 2; ms_interval = 1 };
  arq_timeout = 5;
}

-- Two packets of which the second arrives first, and then both after it.
abbrev events : List Event
events =
    transmits (Transmitter.sends 0 (packet 7))
    ∷ transmits (Transmitter.sends 1 (packet 7))
    ∷ transmits (Transmitter.transmits (record { check = λ i. 2; stamp = 2 }))
    ∷ transmits (Transmitter.transmits (record { check = λ i. 3; stamp = 3 }))
    ∷ arrives (λ i. 4) 1 (0 ∷ [])
    ∷ arrives (λ i. 5) 0 []
    ∷ arrives (λ i. 6) 1 []
    ∷ times_out (λ i. 7)
    ∷ acks
    ∷ transmits (Transmitter.takes_ack (some 2) (0 ∷ 1 ∷ []))
    ∷ gets_packet
    ∷ gets_packet
    ∷ []

transmitter_buffer-receiver_buffer_example :
    PairDelivers host 101 events
      (transmitter_buffer go_back_n (some 8) server)
      (receiver_buffer go_back_n)
transmitter_buffer-receiver_buffer_example =
    transmitter_buffer-receiver_buffer host events go_back_n (some 8) server 101 host-IsNetworkOrder
      refl (omega arith) (omega arith) (omega arith)
      (packet-IsConsistent 7 (omega arith), (packet-IsConsistent 7 (omega arith), tt)) (omega arith)

-- The first packet was sent at 0 and lost; nothing has arrived.
abbrev lost : System GoBackN.GoBackN RsGoBackN.GoBackN
lost = record {
  transmitter = record {
    input_buffer = record { input_packets = record { queue = [] }; last_sequence_number = 0 };
    retransmission_buffer = record {
      timeout_interval = 5;
      window_size = 1;
      buffer = some (submitted 0 0) ∷ [];
      start_idx = 0;
      next_to_ack = 0;
      packets_in_buffer = 1;
    };
    ack_queue = record { queue = [] };
    end_of_tx_seq_num = none;
    end_of_tx_acked = false;
    sent = (packet 0).bytes ∷ [];
  };
  receiver = record {
    output_buffer = OutputBuffer.new;
    resequencing_buffer = record {
      shadow_buffer = record { queue = [] };
      next_sequence_number = 0;
      can_send_acks = false;
    };
    ack_queue = record { queue = [] };
    acked_end_of_tx = false;
    end_of_tx_sn = none;
    sent = [];
    handed_out = [];
  };
}

lost-Tracks : Tracks lost.transmitter.retransmission_buffer (submitted 0 0 ∷ [])
lost-Tracks = record {
  ring = record { storage = refl; start_in = omega arith; fits = omega arith; slots = slot };
  at_least = omega arith;
  counter_size = omega arith;
  window_u16 = omega arith;
  next_u16 = omega arith;
}
  where
    slot :
        (i : ℕ)
        → i < 1
        → get_elem? (some (submitted 0 0) ∷ []) ((0 + i) % 1)
          ≡ some (get_elem? (submitted 0 0 ∷ []) i)
    slot zero h = refl
    slot (suc i) h = absurd (omega arith)

late : is_packet_timed_out 5 9000 (submitted 0 0) ≡ true
unfolding is_packet_timed_out
late = refl

transmits-arrives_example :
    (y : System GoBackN.GoBackN RsGoBackN.GoBackN) × (System.run host Rt.go_back_n Rs.go_back_n 2
        (transmits (Transmitter.transmits (record { check = λ i. 9000; stamp = 9001 }))
          ∷ arrives clock 1 (0 ∷ [])
          ∷ [])
        lost
      ≡ returns y)
    × (output y.receiver ≡ record (packet 0) { bytes = (packet 0).bytes ++ 0 ∷ [] } ∷ [])
transmits-arrives_example =
    transmits-arrives host 0 lost (submitted 0 0) [] 0 (record { check = λ i. 9000; stamp = 9001 })
      clock (0 ∷ []) host-IsNetworkOrder lost-Tracks (packet-IsConsistent 0 (omega arith)) late
      (record { in_order = refl; empty = refl; same_next = refl }) refl refl
