-- ===== src/Transmitter/Safety.antt =====
-- No thread of a transmitter throws or leaves an array, whatever the network does.
use arq_benchmark.Base.{
  ℕ, ◌≡◌, refl, Bool, true, false, not, List, [], ◌∷◌, Option, none, some, Bool-cases, Option-cases,
  inl, inr, if◌then◌else◌, if-holds, Outcome, returns, ◌>>=◌, ltb,
}
use arq_benchmark.Common.DataPacket.{get_read_span}
use arq_benchmark.Common.Host.{Host}
use arq_benchmark.Common.InputBuffer
use arq_benchmark.Common.SequenceNumber.{deserialise_seq_num}
use arq_benchmark.Common.TxBufferObject.{TransmitBufferObject, is_end_of_tx}
use arq_benchmark.Rt.Buffer.{RtBuffer, IsRtBuffer}
use arq_benchmark.Rt.GoBackN.{Readings}
use arq_benchmark.Transmitter.{
  Transmitter, Step, sends, transmits, processes, takes_ack, step, run, send_packet,
  transmit_packet_data, ack_thread_round, attempt_packet_retransmission,
  attempt_new_packet_transmission, transmit_new, transmit, process_ack,
}
use arq_benchmark.Transmitter.AckQueue.{process_ack-cases}

module _ {B : Type 0} (ops : RtBuffer B) (IsValid : B → Type 0)
    (laws : IsRtBuffer ops IsValid) where
  abbrev pub IsSafe : Transmitter B → Type 0
  IsSafe t = IsValid t.retransmission_buffer

  -- `o` returns a transmitter whose buffer is valid.
  abbrev pub ReturnsSafe : Outcome (Transmitter B) → Type 0
  ReturnsSafe o = (t : Transmitter B) × (o ≡ returns t) × IsSafe t

  abbrev BothSafe : Outcome (Bool × Transmitter B) → Type 0
  BothSafe o = (done : Bool) × (t : Transmitter B) × (o ≡ returns (done, t)) × IsSafe t

  attempt_packet_retransmission-IsSafe :
      (clock : Readings) (t : Transmitter B)
      → IsSafe t
      → BothSafe (attempt_packet_retransmission ops clock t)
  unfolding attempt_packet_retransmission
  attempt_packet_retransmission-IsSafe clock t v =
      let (span, b, e, v') = laws.try_get_returns clock t.retransmission_buffer v in
      elim (Option-cases span) [
        | inl q ↦ (false, record t { retransmission_buffer = b }, rw (e, q, ◌>>=◌), v')
        | inr (bytes, q) ↦ (
          true,
          transmit_packet_data bytes (record t { retransmission_buffer = b }),
          rw (e, q, ◌>>=◌),
          v',
        )
      ]

  transmit_new-IsSafe :
      (p : TransmitBufferObject) (t : Transmitter B)
      → IsSafe t
      → ops.ready_for_new_packet t.retransmission_buffer ≡ true
      → ReturnsSafe (transmit_new ops p t)
  unfolding transmit_new
  transmit_new-IsSafe p t v ready =
      let (b, e, v') = laws.add_returns p t.retransmission_buffer v ready in
      (
        transmit_packet_data (get_read_span p.packet) (record t {
          retransmission_buffer = b;
          end_of_tx_seq_num =
              if is_end_of_tx p then some p.info.sequence_number else t.end_of_tx_seq_num;
        }),
        rw (e, ◌>>=◌),
        v',
      )

  attempt_new_packet_transmission-IsSafe :
      (t : Transmitter B) → IsSafe t → BothSafe (attempt_new_packet_transmission ops t)
  unfolding attempt_new_packet_transmission
  attempt_new_packet_transmission-IsSafe t v =
      elim (Bool-cases (ops.ready_for_new_packet t.retransmission_buffer)) [
        | inr not_ready ↦ (false, t, rw (not_ready, not), v)
        | inl ready ↦
            let ib = (InputBuffer.try_get_packet t.input_buffer).1 in
            elim (Option-cases (InputBuffer.try_get_packet t.input_buffer).0) [
              | inl q ↦ (false, record t { input_buffer = ib }, rw (ready, q, not), v)
              | inr (p, q) ↦
                  let (t', e, v') =
                    transmit_new-IsSafe p (record t { input_buffer = ib }) v ready in
                  (true, t', rw (ready, q, e, not, ◌>>=◌), v')
            ]
      ]

  transmit-IsSafe :
      (clock : Readings) (t : Transmitter B) → IsSafe t → ReturnsSafe (transmit ops clock t)
  unfolding transmit
  transmit-IsSafe clock t v =
      let (done, t', e, v') = attempt_packet_retransmission-IsSafe clock t v in
      elim (Bool-cases done) [
        | inl q ↦ (t', rw (e, q, ◌>>=◌), v')
        | inr q ↦
            let (done', t'', e', v'') = attempt_new_packet_transmission-IsSafe t' v' in
            (t'', rw (e, q, e', ◌>>=◌), v'')
      ]

  process_ack-IsSafe : (t : Transmitter B) → IsSafe t → BothSafe (process_ack ops t)
  process_ack-IsSafe t v = elim (process_ack-cases ops IsValid laws t v) [
    | inl (e, over) ↦ (false, t, e, v)
    | inr (t', e, v', fewer) ↦ (true, t', e, v')
  ]

  ack_thread_round-IsSafe :
      (host : Host) (received : Option ℕ) (recv_buffer : List ℕ) (t : Transmitter B)
      → IsSafe t
      → IsSafe (ack_thread_round host received recv_buffer t)
  unfolding ack_thread_round
  ack_thread_round-IsSafe host none recv_buffer t v = v
  ack_thread_round-IsSafe host (some n) recv_buffer t v =
      if-holds IsSafe (ltb 0 n) _ _ (if-holds IsSafe done _ _ v v) v
    where
      done : Bool
      done = (deserialise_seq_num host 0 recv_buffer).0

  pub step-IsSafe :
      (host : Host) (s : Step) (t : Transmitter B) → IsSafe t → ReturnsSafe (step host ops s t)
  unfolding step send_packet
  step-IsSafe host (sends now packet) t v = (send_packet host now packet t, refl, v)
  step-IsSafe host (transmits clock) t v = transmit-IsSafe clock t v
  step-IsSafe host processes t v =
      let (more, t', e, v') = process_ack-IsSafe t v in (t', rw (e, ◌>>=◌), v')
  step-IsSafe host (takes_ack received recv_buffer) t v = (
    ack_thread_round host received recv_buffer t,
    refl,
    ack_thread_round-IsSafe host received recv_buffer t v,
  )

  -- Over a retransmission buffer that keeps the laws, and from a valid one, every run of the
  -- transmitter's threads returns and leaves the buffer valid: whatever is sent, at whatever times,
  -- whichever bytes come back as ACKs, no thread throws or leaves an array.
  pub run-IsSafe :
      (host : Host) (steps : List Step) (t : Transmitter B)
      → IsSafe t
      → (t' : Transmitter B) × (run host ops steps t ≡ returns t')
        × IsValid t'.retransmission_buffer
  unfolding run
  run-IsSafe host [] t v = (t, refl, v)
  run-IsSafe host (s ∷ steps) t v =
      let (t', e, v') = step-IsSafe host s t v in
      let (t'', e', v'') = run-IsSafe host steps t' v' in (t'', rw (e, e', ◌>>=◌), v'')
