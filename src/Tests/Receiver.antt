-- ===== src/Tests/Receiver.antt =====
-- The receiver.
use arq_benchmark.Base.{ℕ, ◌≡◌, ◌++◌, List, [], ◌∷◌, some, none, arith, replicate, returns}
use arq_benchmark.Common.SequenceNumber.{first_sequence_number}
use arq_benchmark.Common.InOrder.{InOrder}
use arq_benchmark.Rs.GoBackN
use arq_benchmark.Rs.GoBackN.{GoBackN}
use arq_benchmark.Rs.Instances.{go_back_n}
use arq_benchmark.Receiver.{Receiver, Step, resequences, acks, gets_packet, new, run}
use arq_benchmark.Receiver.Round.{output}
use arq_benchmark.Receiver.InSequence.{run-InOrder}
use arq_benchmark.Tests.Fixtures.{host, host-IsNetworkOrder, packet}

abbrev received : ℕ → List ℕ
received sn = (packet sn).bytes ++ replicate 5 0

-- The second packet arrives first, and again behind the first one.
abbrev steps : List Step
steps =
    resequences (λ i. i) (some 7) (received 1)
    ∷ resequences (λ i. i) (some 7) (received 0)
    ∷ acks
    ∷ gets_packet
    ∷ resequences (λ i. i) none (received 0)
    ∷ resequences (λ i. i) (some 7) (received 1)
    ∷ []

run-InOrder_example :
    (r : Receiver GoBackN) × (run host go_back_n 2 steps (new (GoBackN.new first_sequence_number))
      ≡ returns r)
    × InOrder first_sequence_number (output r) r.output_buffer.next_sequence_number
run-InOrder_example =
    run-InOrder host 2 steps host-IsNetworkOrder (omega arith)
      (omega arith, (omega arith, (tt, (tt, (omega arith, (omega arith, tt))))))
