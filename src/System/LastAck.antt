-- ===== src/System/LastAck.antt =====
-- The end of a conversation whose last ACK is lost: the receiver's threads end as soon as they have
-- sent it (receiver.hpp:114-129), and the transmitter's wait for it (transmitter.hpp:116-160).
use arq_benchmark.Base.{
  ℕ, ◌≡◌, refl, ap, ◌∙◌, true, false, List, [], ◌∷◌, ◌++◌, All, none, some, Outcome, returns, ◌>>=◌,
  get_elem?, length, Option-cases, inl, inr, replicate, sym,
}
use arq_benchmark.Common.Host.{Host}
use arq_benchmark.Common.SequenceNumber.{deserialise_seq_num}
use arq_benchmark.Common.DataPacketHeader.{packed_size}
use arq_benchmark.Rt.Buffer.{RtBuffer, IsRtBuffer}
use arq_benchmark.Rs.Buffer.{RsBuffer}
use arq_benchmark.Transmitter
use arq_benchmark.Transmitter.{
  Transmitter, transmit, attempt_packet_retransmission, attempt_new_packet_transmission,
  transmit_packet_data, process_ack, ack_thread_round, holds_number,
}
use arq_benchmark.Receiver
use arq_benchmark.Receiver.Done.{IsDone, step-IsDone}
use arq_benchmark.System.{
  System, Event, transmits, arrives, times_out, acks, gets_packet, ack_arrives, step, run,
}
use arq_benchmark.Transmitter.Waiting.{Waits, transmit-Waits, process_ack-Waits, takes_ack-Waits}

module _ {T R : Type 0} (rt : RtBuffer T) (IsValid : T → Type 0) (laws : IsRtBuffer rt IsValid)
    (rs : RsBuffer R) (host : Host) (fuel n : ℕ) where
  -- The application submits nothing more, and nothing arrives that is read as an ACK of packet `n`:
  -- neither one of these arrays nor other bytes.
  abbrev pub IsWithoutAck : List (List ℕ) → Event → Type 0
  IsWithoutAck sent (transmits (Transmitter.sends now packet)) = ⊥
  IsWithoutAck sent (transmits (Transmitter.transmits clock)) = Unit
  IsWithoutAck sent (transmits Transmitter.processes) = Unit
  IsWithoutAck sent (transmits (Transmitter.takes_ack received recv_buffer)) =
      ¬ (deserialise_seq_num host 0 recv_buffer ≡ (true, n))
  IsWithoutAck sent (arrives clock i tail) = Unit
  IsWithoutAck sent (times_out clock) = Unit
  IsWithoutAck sent acks = Unit
  IsWithoutAck sent gets_packet = Unit
  IsWithoutAck sent (ack_arrives j tail) =
      (span : List ℕ)
      → get_elem? sent j ≡ some span
      → ¬ (deserialise_seq_num host 0 (span ++ tail) ≡ (true, n))

  record IsStuck (sent : List (List ℕ)) (x : System T R) : Type 0 where
    waits : Waits IsValid n x.transmitter
    done : IsDone sent x.receiver

  abbrev StaysStuck : List (List ℕ) → Outcome (System T R) → Type 0
  StaysStuck sent o = (y : System T R) × (o ≡ returns y) × IsStuck sent y

  receiver-StaysStuck :
      (sent : List (List ℕ)) (s : Receiver.Step) (x : System T R)
      → IsStuck sent x
      → StaysStuck sent
          (Receiver.step host rs fuel s x.receiver >>= λ r. returns (record x { receiver = r }))
  receiver-StaysStuck sent s x k =
      let (r, e, d) = step-IsDone rs host fuel sent s x.receiver k.done in
      (record x { receiver = r }, rw (e, ◌>>=◌), record { waits = k.waits; done = d })

  transmitter-StaysStuck :
      (sent : List (List ℕ)) (x : System T R) (o : Outcome (Transmitter T))
      → IsStuck sent x
      → (t : Transmitter T) × (o ≡ returns t) × Waits IsValid n t
      → StaysStuck sent (o >>= λ t. returns (record x { transmitter = t }))
  transmitter-StaysStuck sent x o k (t, e, w) =
      (record x { transmitter = t }, rw (e, ◌>>=◌), record { waits = w; done = k.done })

  step-StaysStuck :
      (sent : List (List ℕ)) (e : Event) (x : System T R)
      → IsWithoutAck sent e
      → IsStuck sent x
      → StaysStuck sent (step host rt rs fuel e x)
  unfolding step Transmitter.step
  step-StaysStuck sent (transmits (Transmitter.sends now packet)) x free k = absurd free
  step-StaysStuck sent (transmits (Transmitter.transmits clock)) x free k =
      transmitter-StaysStuck sent x _ k
        (transmit-Waits rt IsValid laws host n clock x.transmitter k.waits)
  step-StaysStuck sent (transmits Transmitter.processes) x free k =
      transmitter-StaysStuck sent x _ k
        (process_ack-Waits rt IsValid laws host n x.transmitter k.waits)
  step-StaysStuck sent (transmits (Transmitter.takes_ack received recv_buffer)) x free k =
      transmitter-StaysStuck sent x
        (Transmitter.step host rt (Transmitter.takes_ack received recv_buffer) x.transmitter) k
        (
          _,
          refl,
          takes_ack-Waits rt IsValid laws host n received recv_buffer x.transmitter free k.waits,
        )
  step-StaysStuck sent (arrives clock i tail) x free k =
      elim (Option-cases (get_elem? x.transmitter.sent i)) [
        | inl e ↦ (x, rw (e, step), k)
        | inr (span, e) ↦
            let (y, q, k') =
              receiver-StaysStuck sent
                (Receiver.resequences clock (some (length span)) (span ++ tail)) x k in
            (y, rw (e, step) q, k')
      ]
  step-StaysStuck sent (times_out clock) x free k =
      receiver-StaysStuck sent (Receiver.resequences clock none (replicate packed_size 0)) x k
  step-StaysStuck sent acks x free k = receiver-StaysStuck sent Receiver.acks x k
  step-StaysStuck sent gets_packet x free k = receiver-StaysStuck sent Receiver.gets_packet x k
  step-StaysStuck sent (ack_arrives j tail) x free k =
      elim (Option-cases (get_elem? x.receiver.sent j)) [
        | inl e ↦ (x, rw (e, step), k)
        | inr (span, e) ↦
            let (y, q, k') =
              transmitter-StaysStuck sent x
                (Transmitter.step host rt
                  (Transmitter.takes_ack (some (length span)) (span ++ tail)) x.transmitter)
                k
                (
                  _,
                  refl,
                  takes_ack-Waits rt IsValid laws host n (some (length span)) (span ++ tail)
                      x.transmitter (free span (ap (λ l. get_elem? l j) (sym k.done.1) ∙ e))
                      k.waits,
                ) in
            (y, rw (e, step, ◌>>=◌) q, k')
      ]

  run-StaysStuck :
      (sent : List (List ℕ)) (events : List Event) (x : System T R)
      → All (IsWithoutAck sent) events
      → IsStuck sent x
      → StaysStuck sent (run host rt rs fuel events x)
  unfolding run
  run-StaysStuck sent [] x free k = (x, refl, k)
  run-StaysStuck sent (e ∷ events) x free k =
      let (y, q, k') = step-StaysStuck sent e x free.0 k in
      let (z, q', k'') = run-StaysStuck sent events y free.1 k' in (z, rw (q, q', ◌>>=◌), k'')

  -- Once the receiver has acknowledged the end of the transmission and that ACK does not arrive, the
  -- transmitter waits for it for ever. For every list of events in which the application submits
  -- nothing more, and nothing arrives that is read as that ACK, neither of what the receiver has sent
  -- nor other bytes, the run returns, the receiver sends nothing more, and the transmitter is not told
  -- that the end of the transmission is acknowledged, so that its threads go on.
  pub lost_last_ack :
      (events : List Event) (x : System T R)
      → Waits IsValid n x.transmitter
      → x.receiver.acked_end_of_tx ≡ true
      → All (IsWithoutAck x.receiver.sent) events
      → (y : System T R) × (run host rt rs fuel events x ≡ returns y)
        × (y.transmitter.end_of_tx_acked ≡ false)
        × (y.receiver.sent ≡ x.receiver.sent)
  lost_last_ack events x w done free =
      let (y, e, k) =
        run-StaysStuck x.receiver.sent events x free (record { waits = w; done = (done, refl) }) in
      (y, e, k.waits.waits, k.done.1)
