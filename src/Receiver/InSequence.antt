-- ===== src/Receiver/InSequence.antt =====
-- The order in which a receiver with a Go-Back-N buffer hands packets out.
use arq_benchmark.Base.{
  ℕ, suc, ◌-◌, ◌≤◌, ◌≡◌, refl, sym, Bool, false, List, [], ◌∷◌, All, Option, none, some, length,
  arith, ◌==◌, returns, ◌>>=◌, if-holds, map, append_assoc, subst,
}
use arq_benchmark.Common.Host.{Host, IsNetworkOrder}
use arq_benchmark.Common.SequenceNumber.{first_sequence_number}
use arq_benchmark.Common.DataPacketHeader.{packed_size}
use arq_benchmark.Common.InOrder.{InOrder}
use arq_benchmark.Common.OutputBuffer
use arq_benchmark.Common.OutputBuffer.{delivered}
use arq_benchmark.Rs.GoBackN
use arq_benchmark.Rs.GoBackN.{GoBackN}
use arq_benchmark.Rs.Instances.{go_back_n}
use arq_benchmark.Util.SafeQueue
use arq_benchmark.Receiver.{
  Receiver, Step, resequences, acks, gets_packet, new, try_get_packet, send_ack, ack_thread_round,
  step, run,
}
use arq_benchmark.Receiver.Round.{output, IsSynced, Delivers, resequencing_round-IsSynced}

-- The receive function fills an array that has room for a header.
abbrev pub HasRoom : Step → Type 0
HasRoom (resequences clock received recv_buffer) = packed_size ≤ length recv_buffer
HasRoom acks = Unit {0}
HasRoom gets_packet = Unit {0}

-- The receiver with other packets in its output buffer.
abbrev with_queue : Receiver GoBackN → List OutputBuffer.ReceiveBufferObject → Receiver GoBackN
with_queue r q = record r {
  output_buffer = record r.output_buffer { output_packets = record { queue = q } };
}

module _ (first : ℕ) where
  try_get_packet-IsSynced :
      (r : Receiver GoBackN) → IsSynced first r → IsSynced first (try_get_packet r)
  unfolding try_get_packet OutputBuffer.try_get_packet SafeQueue.try_pop
  try_get_packet-IsSynced r v = at r.output_buffer.output_packets.queue v
    where
      at :
          (q : List OutputBuffer.ReceiveBufferObject)
          → IsSynced first (with_queue r q)
          → IsSynced first (try_get_packet (with_queue r q))
      at [] w = w
      at (p ∷ q) w = record {
        in_order =
            subst (λ l. InOrder first l r.output_buffer.next_sequence_number)
              (sym (append_assoc r.handed_out (p.packet ∷ []) (map (λ x. x.packet) q))) w.in_order;
        empty = w.empty;
        same_next = w.same_next;
      }

  send_ack-IsSynced :
      (host : Host) (sn : ℕ) (r : Receiver GoBackN)
      → IsSynced first r
      → IsSynced first (send_ack host sn r)
  unfolding send_ack
  send_ack-IsSynced host sn r v = if-holds (IsSynced first) _ _ r v v

  ack_thread_round-IsSynced :
      (host : Host) (r : Receiver GoBackN)
      → IsSynced first r
      → IsSynced first (ack_thread_round host r)
  unfolding ack_thread_round
  ack_thread_round-IsSynced host r v =
      if-holds (IsSynced first) r.acked_end_of_tx r _ v (popped (SafeQueue.try_pop r.ack_queue).0)
    where
      popped :
          (next : Option ℕ)
          → IsSynced first (elim next as (λ o. Receiver GoBackN) [
            | none ↦ r
            | some sn ↦
                record (send_ack host sn
                  (record r { ack_queue = (SafeQueue.try_pop r.ack_queue).1 })) {
                    acked_end_of_tx = elim r.end_of_tx_sn as (λ o. Bool) [
                      | none ↦ false
                      | some eot ↦ sn == eot
                    ];
                  }
          ])
      popped none = v
      popped (some sn) =
          send_ack-IsSynced host sn (record r { ack_queue = (SafeQueue.try_pop r.ack_queue).1 }) v

  step-IsSynced :
      (host : Host) (order : IsNetworkOrder host) (fuel : ℕ) (s : Step) (r : Receiver GoBackN)
      → HasRoom s
      → IsSynced first r
      → Delivers first (step host go_back_n (suc (suc fuel)) s r)
  unfolding step
  step-IsSynced host order fuel (resequences clock received recv_buffer) r room v =
      resequencing_round-IsSynced first host order fuel clock received recv_buffer r room v
  step-IsSynced host order fuel acks r room v =
      (ack_thread_round host r, refl, ack_thread_round-IsSynced host r v)
  step-IsSynced host order fuel gets_packet r room v =
      (try_get_packet r, refl, try_get_packet-IsSynced r v)

  run-IsSynced :
      (host : Host) (order : IsNetworkOrder host) (fuel : ℕ) (steps : List Step)
      (r : Receiver GoBackN)
      → All HasRoom steps
      → IsSynced first r
      → Delivers first (run host go_back_n (suc (suc fuel)) steps r)
  unfolding run
  run-IsSynced host order fuel [] r rooms v = (r, refl, v)
  run-IsSynced host order fuel (s ∷ steps) r rooms v =
      let (r', e, v') = step-IsSynced host order fuel s r rooms.0 v in
      let (r'', e', v'') = run-IsSynced host order fuel steps r' rooms.1 v' in
      (r'', rw (e, e', ◌>>=◌), v'')

-- Every run of the threads of a new receiver with a Go-Back-N buffer returns, if the arrays that are
-- received into have room for a header and a delivery has fuel for two rounds; and what the
-- application was given, followed by what waits for it, carries consecutive numbers from the first
-- one on, whatever arrives.
pub run-InOrder :
    (host : Host) (fuel : ℕ) (steps : List Step)
    → IsNetworkOrder host
    → 2 ≤ fuel
    → All HasRoom steps
    → (r : Receiver GoBackN) × (run host go_back_n fuel steps
          (new (GoBackN.new first_sequence_number))
        ≡ returns r)
      × InOrder first_sequence_number (output r) r.output_buffer.next_sequence_number
unfolding new GoBackN.new
run-InOrder host fuel steps order enough rooms =
    let (r, e, v) =
      run-IsSynced first_sequence_number host order (fuel - 2) steps
        (new (GoBackN.new first_sequence_number)) rooms
        (record { in_order = refl; empty = refl; same_next = refl }) in
    (
      r,
      subst (λ n. run host go_back_n n steps (new (GoBackN.new first_sequence_number)) ≡ returns r)
          (omega arith) e,
      v.in_order,
    )
