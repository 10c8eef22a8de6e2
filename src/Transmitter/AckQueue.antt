-- ===== src/Transmitter/AckQueue.antt =====
-- `processAckQueue` of a transmitter takes every ACK from the queue.
use arq_benchmark.Base.{
  ℕ, zero, suc, ◌+◌, ◌<◌, ◌≡◌, true, false, [], Bool-cases, ◌⊎◌, inl, inr, length, returns, ◌>>=◌,
  arith,
}
use arq_benchmark.Rt.Buffer.{RtBuffer, IsRtBuffer}
use arq_benchmark.Util.SafeQueue
use arq_benchmark.Transmitter.{Transmitter, process_ack, process_ack_queue, holds_number}

module _ {B : Type 0} (ops : RtBuffer B) (IsValid : B → Type 0)
    (laws : IsRtBuffer ops IsValid) where
  -- A pass ends the loop where the transmission is over or no ACK waits, and takes one if not.
  pub process_ack-cases :
      (t : Transmitter B)
      → IsValid t.retransmission_buffer
      → ((process_ack ops t ≡ returns (false, t))
          × ((t.ack_queue.queue ≡ []) ⊎ (t.end_of_tx_acked ≡ true)))
        ⊎ ((t' : Transmitter B) × (process_ack ops t ≡ returns (true, t'))
            × IsValid t'.retransmission_buffer
            × (length t'.ack_queue.queue + 1 ≡ length t.ack_queue.queue))
  unfolding process_ack
  process_ack-cases t v =
      let q = (SafeQueue.try_pop t.ack_queue).1 in
      elim (Bool-cases t.end_of_tx_acked) [
        | inl acked ↦ inl (simp acked, inr acked)
        | inr waits ↦ elim (SafeQueue.try_pop-cases t.ack_queue) [
          | inl (none_left, e) ↦ inl (simp (waits, e), inl none_left)
          | inr (sn, e, fewer) ↦ elim (Bool-cases (holds_number t.end_of_tx_seq_num sn)) [
            | inl last ↦ inr (
              record t { ack_queue = q; end_of_tx_acked = true },
              simp (waits, e, last),
              v,
              fewer,
            )
            | inr other ↦
                let (b, r, v') = laws.acknowledge_returns sn t.retransmission_buffer v in
                inr (
                  record t { ack_queue = q; retransmission_buffer = b },
                  simp (waits, e, other, r, ◌>>=◌),
                  v',
                  fewer,
                )
          ]
        ]
      ]

  -- Over a buffer that keeps the laws of `IsRtBuffer`, from a valid one, and with fuel for one round
  -- more than there are ACKs in the queue, `processAckQueue` returns with a valid buffer, and leaves
  -- no ACK in the queue, unless the end of the transmission is acknowledged.
  pub process_ack_queue-returns :
      (fuel : ℕ) (t : Transmitter B)
      → IsValid t.retransmission_buffer
      → length t.ack_queue.queue < fuel
      → (t' : Transmitter B) × (process_ack_queue ops fuel t ≡ returns t')
        × IsValid t'.retransmission_buffer
        × ((t'.ack_queue.queue ≡ []) ⊎ (t'.end_of_tx_acked ≡ true))
  unfolding process_ack_queue
  process_ack_queue-returns zero t v enough = absurd (omega arith)
  process_ack_queue-returns (suc fuel) t v enough = elim (process_ack-cases t v) [
    | inl (e, over) ↦ (t, rw (e, ◌>>=◌), v, over)
    | inr (t1, e, v1, fewer) ↦
        let (t', e', v', over) = process_ack_queue-returns fuel t1 v1 (omega (arith, fewer)) in
        (t', rw (e, ◌>>=◌) e', v', over)
  ]
