-- ===== src/Tests/Transmitter.antt =====
-- The transmitter.
use arq_benchmark.Base.{ℕ, ◌≡◌, List, [], ◌∷◌, some, none, true, false, ◌⊎◌, arith, returns}
use arq_benchmark.Rt.GoBackN
use arq_benchmark.Rt.GoBackN.{Readings}
use arq_benchmark.Rt.StopAndWait
use arq_benchmark.Rt.Instances.{go_back_n, stop_and_wait, IsRing, stop_and_wait-IsRtBuffer}
use arq_benchmark.Transmitter.{
  Transmitter, Step, sends, transmits, processes, takes_ack, new, run, process_ack_queue,
}
use arq_benchmark.Common.InputBuffer
use arq_benchmark.Transmitter.AckQueue.{process_ack_queue-returns}
use arq_benchmark.Transmitter.Safety.{run-IsSafe}
use arq_benchmark.Transmitter.Protocols.{run-go_back_n}
use arq_benchmark.Tests.Fixtures.{host, packet, submitted}

abbrev at : ℕ → Readings
at now = record { check = λ i. now; stamp = now }

-- Two packets are sent, the first is acknowledged, and the second times out.
abbrev steps : List Step
steps =
    sends 0 (packet 9)
    ∷ sends 0 (packet 9)
    ∷ transmits (at 0)
    ∷ transmits (at 0)
    ∷ takes_ack (some 2) (0 ∷ 0 ∷ [])
    ∷ processes
    ∷ transmits (at 900000)
    ∷ []

run-IsSafe_example :
    (t' : Transmitter StopAndWait.StopAndWait) × (run host stop_and_wait steps
        (new (StopAndWait.new 5))
      ≡ returns t')
    × Unit {0}
run-IsSafe_example =
    run-IsSafe stop_and_wait (λ b. Unit {0}) stop_and_wait-IsRtBuffer host steps
      (new (StopAndWait.new 5)) tt

run-go_back_n_example :
    (t : Transmitter GoBackN.GoBackN) × (run host go_back_n steps (new (GoBackN.new 2 5 0))
      ≡ returns t)
    × IsRing t.retransmission_buffer
run-go_back_n_example = run-go_back_n host 2 5 0 steps (omega arith) (omega arith) (omega arith)

-- Two ACKs wait, the first for a packet that is not held.
abbrev acked : Transmitter StopAndWait.StopAndWait
acked = record {
  input_buffer = InputBuffer.new 0;
  retransmission_buffer = record { timeout_interval = 5; retransmit_packet = some (submitted 0 4) };
  ack_queue = record { queue = 3 ∷ 4 ∷ [] };
  end_of_tx_seq_num = none;
  end_of_tx_acked = false;
  sent = [];
}

process_ack_queue-returns_example :
    (t' : Transmitter StopAndWait.StopAndWait) × (process_ack_queue stop_and_wait 3 acked
      ≡ returns t')
    × Unit {0}
    × ((t'.ack_queue.queue ≡ []) ⊎ (t'.end_of_tx_acked ≡ true))
process_ack_queue-returns_example =
    process_ack_queue-returns stop_and_wait (λ b. Unit {0}) stop_and_wait-IsRtBuffer 3 acked tt
      (omega arith)
