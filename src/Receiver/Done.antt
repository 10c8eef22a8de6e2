-- ===== src/Receiver/Done.antt =====
-- src/arq/receiver.hpp, after the end of the transmission is acknowledged.
use arq_benchmark.Base.{ℕ, ◌≡◌, true, List, [], ◌∷◌, ◌++◌, Option-cases, inl, inr, returns}
use arq_benchmark.Common.Host.{Host}
use arq_benchmark.Common.OutputBuffer
use arq_benchmark.Rs.Buffer.{RsBuffer}
use arq_benchmark.Receiver.{
  Receiver, Step, resequences, acks, gets_packet, step, resequencing_round, ack_thread_round,
  try_get_packet,
}

abbrev pub IsDone : {R : Type 0} → List (List ℕ) → Receiver R → Type 0
IsDone sent r = (r.acked_end_of_tx ≡ true) × (r.sent ≡ sent)

-- What the receiver does once it has acknowledged the end of the transmission: it sends nothing more.
module _ {R : Type 0} (rs : RsBuffer R) (host : Host) (fuel : ℕ) where
  pub step-IsDone :
      (sent : List (List ℕ)) (s : Step) (r : Receiver R)
      → IsDone sent r
      → (r' : Receiver R) × (step host rs fuel s r ≡ returns r') × IsDone sent r'
  unfolding step resequencing_round ack_thread_round try_get_packet
  step-IsDone sent (resequences clock received recv_buffer) r d = (r, simp d.0, d)
  step-IsDone sent acks r d = (r, simp d.0, d)
  step-IsDone sent gets_packet r d =
      elim (Option-cases (OutputBuffer.try_get_packet r.output_buffer).0) [
        | inl e ↦ (
          record r { output_buffer = (OutputBuffer.try_get_packet r.output_buffer).1 },
          simp (e, try_get_packet),
          d,
        )
        | inr (p, e) ↦ (
          record r {
            output_buffer = (OutputBuffer.try_get_packet r.output_buffer).1;
            handed_out = r.handed_out ++ p.packet ∷ [];
          },
          simp (e, try_get_packet),
          d,
        )
      ]
