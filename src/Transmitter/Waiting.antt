-- ===== src/Transmitter/Waiting.antt =====
-- A transmitter that has sent all it was given and waits for the ACK of the last packet: what its
-- threads do (src/arq/transmitter.hpp, transmitThread and ackThread).
use arq_benchmark.Base.{
  ℕ, ◌≡◌, ◌≢◌, true, false, List, [], ◌∷◌, ◌++◌, All, Option, none, some, Outcome, returns, ◌>>=◌,
  Option-cases, Bool-cases, inl, inr, ltb, not, ne→not_==, sym, if-holds, All-append,
}
use arq_benchmark.Common.Host.{Host}
use arq_benchmark.Common.SequenceNumber.{deserialise_seq_num}
use arq_benchmark.Common.InputBuffer
use arq_benchmark.Rt.Buffer.{RtBuffer, IsRtBuffer}
use arq_benchmark.Rt.GoBackN.{Readings}
use arq_benchmark.Util.SafeQueue
use arq_benchmark.Transmitter.{
  Transmitter, transmit, attempt_packet_retransmission, attempt_new_packet_transmission,
  transmit_packet_data, process_ack, ack_thread_round,
}

-- Nothing is left to be sent but what the retransmission buffer holds, packet `n` ends the
-- transmission, and no ACK of it is there.
pub record Waits {T : Type 0} (IsValid : T → Type 0) (n : ℕ) (t : Transmitter T) : Type 0 where
  pub nothing_new : t.input_buffer.input_packets.queue ≡ []
  pub ends : t.end_of_tx_seq_num ≡ some n
  pub waits : t.end_of_tx_acked ≡ false
  pub others : All (λ sn. sn ≢ n) t.ack_queue.queue
  pub valid : IsValid t.retransmission_buffer

-- A number that is taken from the queue, and those that stay.
popped :
    {n : ℕ} (q : SafeQueue.SafeQueue ℕ) (sn : ℕ)
    → (SafeQueue.try_pop q).0 ≡ some sn
    → All (λ m. m ≢ n) q.queue
    → (rest : List ℕ) × (sn ≢ n) × All (λ m. m ≢ n) (SafeQueue.try_pop q).1.queue
unfolding SafeQueue.try_pop
popped {n} q sn e others = go q.queue e others
  where
    go :
        (l : List ℕ)
        → let r : SafeQueue.SafeQueue ℕ = record { queue = l } in
          (SafeQueue.try_pop r).0 ≡ some sn
          → All (λ m. m ≢ n) l
          → let r : SafeQueue.SafeQueue ℕ = record { queue = l } in
            (rest : List ℕ) × (sn ≢ n) × All (λ m. m ≢ n) (SafeQueue.try_pop r).1.queue
    go [] e others = absurd (cc e)
    go (m ∷ l) e others = (l, (λ q. others.0 (cc (e, q))), others.1)

module _ {T : Type 0} (rt : RtBuffer T) (IsValid : T → Type 0) (laws : IsRtBuffer rt IsValid)
    (host : Host) (n : ℕ) where
  abbrev pub StillWaits : Outcome (Transmitter T) → Type 0
  StillWaits o = (t' : Transmitter T) × (o ≡ returns t') × Waits IsValid n t'

  try_get_packet-nothing :
      (ib : InputBuffer.InputBuffer)
      → ib.input_packets.queue ≡ []
      → InputBuffer.try_get_packet ib ≡ (none, ib)
  unfolding InputBuffer.try_get_packet SafeQueue.try_pop
  try_get_packet-nothing ib e = simp (e, InputBuffer.try_get_packet, SafeQueue.try_pop)

  attempt_new-nothing :
      (t : Transmitter T)
      → t.input_buffer.input_packets.queue ≡ []
      → attempt_new_packet_transmission rt t ≡ returns (false, t)
  unfolding attempt_new_packet_transmission
  attempt_new-nothing t e = elim (Bool-cases (rt.ready_for_new_packet t.retransmission_buffer)) [
    | inl ready ↦ simp (ready, try_get_packet-nothing t.input_buffer e, not)
    | inr full ↦ simp (full, not)
  ]

  pub transmit-Waits :
      (clock : Readings) (t : Transmitter T) → Waits IsValid n t → StillWaits (transmit rt clock t)
  unfolding transmit attempt_packet_retransmission transmit_packet_data
  transmit-Waits clock t w =
      let (span, b, e, v) = laws.try_get_returns clock t.retransmission_buffer w.valid in
      gives span b e v
    where
      gives :
          (span : Option (List ℕ)) (b : T)
          → rt.try_get_packet_span clock t.retransmission_buffer ≡ returns (span, b)
          → IsValid b
          → StillWaits (transmit rt clock t)
      gives (some bytes) b e v = (
        record t { retransmission_buffer = b; sent = t.sent ++ bytes ∷ [] },
        simp (e, ◌>>=◌),
        record {
          nothing_new = w.nothing_new;
          ends = w.ends;
          waits = w.waits;
          others = w.others;
          valid = v;
        },
      )
      gives none b e v = (
        record t { retransmission_buffer = b },
        simp (e, ◌>>=◌, attempt_new-nothing (record t { retransmission_buffer = b }) w.nothing_new),
        record {
          nothing_new = w.nothing_new;
          ends = w.ends;
          waits = w.waits;
          others = w.others;
          valid = v;
        },
      )

  pub process_ack-Waits :
      (t : Transmitter T)
      → Waits IsValid n t
      → StillWaits (process_ack rt t >>= λ (more, t'). returns t')
  unfolding process_ack
  process_ack-Waits t w = elim (Option-cases (SafeQueue.try_pop t.ack_queue).0) [
    | inl e ↦ (t, simp (w.waits, e, ◌>>=◌), w)
    | inr (sn, e) ↦
        let (rest, other, kept) = popped t.ack_queue sn e w.others in
        let (b, r, v) = laws.acknowledge_returns sn t.retransmission_buffer w.valid in
        (
          record t { ack_queue = (SafeQueue.try_pop t.ack_queue).1; retransmission_buffer = b },
          simp (w.waits, w.ends, e, ne→not_== n sn (λ q. other (sym q)), r, ◌>>=◌),
          record {
            nothing_new = w.nothing_new;
            ends = w.ends;
            waits = w.waits;
            others = kept;
            valid = v;
          },
        )
  ]

  -- These bytes are not read as an ACK of packet `n`.
  abbrev pub IsNotAck : List ℕ → Type 0
  IsNotAck recv_buffer = ¬ (deserialise_seq_num host 0 recv_buffer ≡ (true, n))

  pub takes_ack-Waits :
      (received : Option ℕ) (recv_buffer : List ℕ) (t : Transmitter T)
      → IsNotAck recv_buffer
      → Waits IsValid n t
      → Waits IsValid n (ack_thread_round host received recv_buffer t)
  unfolding ack_thread_round SafeQueue.push
  takes_ack-Waits none recv_buffer t other w = w
  takes_ack-Waits (some m) recv_buffer t other w =
      if-holds (Waits IsValid n) (ltb 0 m) _ _
        (elim (Bool-cases (deserialise_seq_num host 0 recv_buffer).0) [
          | inr short ↦ rw short w
          | inl done ↦ rw done (record {
            nothing_new = w.nothing_new;
            ends = w.ends;
            waits = w.waits;
            others =
                All-append (λ sn. sn ≢ n) t.ack_queue.queue _ w.others
                  ((λ q. other (λ i. (done i, q i))), tt);
            valid = w.valid;
          })
        ])
        w
