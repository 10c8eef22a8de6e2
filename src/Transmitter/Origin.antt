-- ===== src/Transmitter/Origin.antt =====
-- Where the bytes come from that a transmitter sends.
use arq_benchmark.Base.{
  ℕ, ◌≡◌, refl, Bool, true, false, not, List, [], ◌∷◌, All, All-append, OnSome, Option, none, some,
  Bool-cases, inl, inr, subst, sym, ap, if◌then◌else◌, ltb, Outcome, returns, OnReturn,
  OnReturn->>=, if-holds, ◌>>=◌,
}
use arq_benchmark.Common.Host.{Host}
use arq_benchmark.Common.SequenceNumber.{next_sn, deserialise_seq_num}
use arq_benchmark.Common.DataPacket.{DataPacket, get_read_span, update_sequence_number}
use arq_benchmark.Common.InputBuffer
use arq_benchmark.Common.InputBuffer.{InputBuffer}
use arq_benchmark.Common.TxBufferObject.{TransmitBufferObject}
use arq_benchmark.Rt.Buffer.{RtBuffer}
use arq_benchmark.Rt.GoBackN.{Readings}
use arq_benchmark.Rt.Origin.{IsFaithful, IsSpan, OfObject}
use arq_benchmark.Util.SafeQueue
use arq_benchmark.Transmitter.{
  Transmitter, transmits, processes, takes_ack, step, send_packet, transmit_packet_data,
  ack_thread_round, attempt_packet_retransmission, holds_number, attempt_new_packet_transmission,
  transmit_new, transmit, process_ack,
}

module _ {B : Type 0} (ops : RtBuffer B) (P : DataPacket → Type 0) (Holds : B → Type 0)
    (laws : IsFaithful ops P Holds) where
  -- `P` holds of all packets in the buffers, what was sent are the bytes of such packets, and the
  -- packet that was numbered last has the number `last`.
  pub record IsOrigin (last : ℕ) (t : Transmitter B) : Type 0 where
    pub queued : All (OfObject P) t.input_buffer.input_packets.queue
    pub held : Holds t.retransmission_buffer
    pub spans : All (IsSpan P) t.sent
    pub numbered : t.input_buffer.last_sequence_number ≡ last

  abbrev Keeps : ℕ → Outcome (Transmitter B) → Type 0
  Keeps last = OnReturn (IsOrigin last)

  abbrev KeepsBoth : ℕ → Outcome (Bool × Transmitter B) → Type 0
  KeepsBoth last = OnReturn (λ x. IsOrigin last x.1)

  attempt_packet_retransmission-IsOrigin :
      (last : ℕ) (clock : Readings) (t : Transmitter B)
      → IsOrigin last t
      → KeepsBoth last (attempt_packet_retransmission ops clock t)
  unfolding attempt_packet_retransmission transmit_packet_data
  attempt_packet_retransmission-IsOrigin last clock t v =
      OnReturn->>= (λ x. OnSome (IsSpan P) x.0 × Holds x.1) (λ x. IsOrigin last x.1)
        (ops.try_get_packet_span clock t.retransmission_buffer) _
        (laws.try_get_keeps clock t.retransmission_buffer v.held) (λ x h. sent x.0 x.1 h.0 h.1)
    where
      sent :
          (span : Option (List ℕ)) (b : B)
          → OnSome (IsSpan P) span
          → Holds b
          → KeepsBoth last (elim span as (λ o. Outcome (Bool × Transmitter B)) [
            | none ↦ returns (false, record t { retransmission_buffer = b })
            | some bytes ↦
                returns (true, transmit_packet_data bytes (record t { retransmission_buffer = b }))
          ])
      sent none b s h = record {
        queued = v.queued;
        held = h;
        spans = v.spans;
        numbered = v.numbered;
      }
      sent (some bytes) b s h = record {
        queued = v.queued;
        held = h;
        spans = All-append (IsSpan P) t.sent (bytes ∷ []) v.spans (s, tt);
        numbered = v.numbered;
      }

  transmit_new-IsOrigin :
      (last : ℕ) (p : TransmitBufferObject) (t : Transmitter B)
      → P p.packet
      → IsOrigin last t
      → Keeps last (transmit_new ops p t)
  unfolding transmit_new transmit_packet_data get_read_span
  transmit_new-IsOrigin last p t k v =
      OnReturn->>= Holds (IsOrigin last) (ops.add_packet p t.retransmission_buffer) _
        (laws.add_keeps p t.retransmission_buffer k v.held)
        (λ b h. record {
          queued = v.queued;
          held = h;
          spans =
              All-append (IsSpan P) t.sent (get_read_span p.packet ∷ []) v.spans
                ((p.packet, k, refl), tt);
          numbered = v.numbered;
        })

  try_pop_keeps :
      (q : List TransmitBufferObject)
      → All (OfObject P) q
      → OnSome (OfObject P) (SafeQueue.try_pop (record { queue = q })).0
        × All (OfObject P) (SafeQueue.try_pop (record { queue = q })).1.queue
  unfolding SafeQueue.try_pop
  try_pop_keeps [] h = (tt, tt)
  try_pop_keeps (p ∷ q) h = h

  attempt_new_packet_transmission-IsOrigin :
      (last : ℕ) (t : Transmitter B)
      → IsOrigin last t
      → KeepsBoth last (attempt_new_packet_transmission ops t)
  unfolding attempt_new_packet_transmission InputBuffer.try_get_packet
  attempt_new_packet_transmission-IsOrigin last t v =
      let (k, queued) = try_pop_keeps t.input_buffer.input_packets.queue v.queued in
      elim (Bool-cases (ops.ready_for_new_packet t.retransmission_buffer)) [
        | inr p ↦ rw (p, not) v
        | inl p ↦ rw (p, not) (taken (SafeQueue.try_pop t.input_buffer.input_packets).0 k queued)
      ]
    where
      popped : Transmitter B
      popped = record t { input_buffer = (InputBuffer.try_get_packet t.input_buffer).1 }

      taken :
          (next : Option TransmitBufferObject)
          → OnSome (OfObject P) next
          → All (OfObject P) (SafeQueue.try_pop t.input_buffer.input_packets).1.queue
          → KeepsBoth last (elim next as (λ o. Outcome (Bool × Transmitter B)) [
            | none ↦ returns (false, popped)
            | some p ↦ (transmit_new ops p popped >>= λ t'. returns (true, t'))
          ])
      taken none k q = record { queued = q; held = v.held; spans = v.spans; numbered = v.numbered }
      taken (some p) k q =
          OnReturn->>= (IsOrigin last) (λ x. IsOrigin last x.1) (transmit_new ops p popped) _
            (transmit_new-IsOrigin last p popped k
              (record { queued = q; held = v.held; spans = v.spans; numbered = v.numbered }))
            (λ t' h. h)

  transmit-IsOrigin :
      (last : ℕ) (clock : Readings) (t : Transmitter B)
      → IsOrigin last t
      → Keeps last (transmit ops clock t)
  unfolding transmit
  transmit-IsOrigin last clock t v =
      OnReturn->>= (λ x. IsOrigin last x.1) (IsOrigin last)
        (attempt_packet_retransmission ops clock t) _
        (attempt_packet_retransmission-IsOrigin last clock t v) (λ x h. next x.0 x.1 h)
    where
      next :
          (done : Bool) (t' : Transmitter B)
          → IsOrigin last t'
          → Keeps last (elim done as (λ c. Outcome (Transmitter B)) [
            | true ↦ returns t'
            | false ↦ (attempt_new_packet_transmission ops t' >>= λ (done', t''). returns t'')
          ])
      next true t' h = h
      next false t' h =
          OnReturn->>= (λ x. IsOrigin last x.1) (IsOrigin last)
            (attempt_new_packet_transmission ops t') _
            (attempt_new_packet_transmission-IsOrigin last t' h) (λ x k. k)

  process_ack-IsOrigin :
      (last : ℕ) (t : Transmitter B) → IsOrigin last t → KeepsBoth last (process_ack ops t)
  unfolding process_ack
  process_ack-IsOrigin last t v =
      if-holds (KeepsBoth last) t.end_of_tx_acked _ _ v (popped (SafeQueue.try_pop t.ack_queue).0)
    where
      rest : Transmitter B
      rest = record t { ack_queue = (SafeQueue.try_pop t.ack_queue).1 }

      kept : (b : B) → Holds b → IsOrigin last (record rest { retransmission_buffer = b })
      kept b h = record { queued = v.queued; held = h; spans = v.spans; numbered = v.numbered }

      acked :
          (sn : ℕ) (eot : Bool)
          → KeepsBoth last (
              if eot
              then returns (true, record rest { end_of_tx_acked = true })
              else (ops.acknowledge_packet sn t.retransmission_buffer >>= λ b.
                  returns (true, record rest { retransmission_buffer = b })))
      acked sn eot =
          if-holds (KeepsBoth last) eot _ _
            (record { queued = v.queued; held = v.held; spans = v.spans; numbered = v.numbered })
            (OnReturn->>= Holds (λ x. IsOrigin last x.1)
              (ops.acknowledge_packet sn t.retransmission_buffer)
              (λ b. returns (true, record rest { retransmission_buffer = b }))
              (laws.acknowledge_keeps sn t.retransmission_buffer v.held) (λ b h. kept b h))

      popped :
          (next : Option ℕ)
          → KeepsBoth last (elim next as (λ o. Outcome (Bool × Transmitter B)) [
            | none ↦ returns (false, t)
            | some sn ↦
                if holds_number t.end_of_tx_seq_num sn
                then returns (true, record rest { end_of_tx_acked = true })
                else (ops.acknowledge_packet sn t.retransmission_buffer >>= λ b.
                    returns (true, record rest { retransmission_buffer = b }))
          ])
      popped none = v
      popped (some sn) = acked sn (holds_number t.end_of_tx_seq_num sn)

  ack_thread_round-IsOrigin :
      (last : ℕ) (host : Host) (received : Option ℕ) (recv_buffer : List ℕ) (t : Transmitter B)
      → IsOrigin last t
      → IsOrigin last (ack_thread_round host received recv_buffer t)
  unfolding ack_thread_round
  ack_thread_round-IsOrigin last host none recv_buffer t v = v
  ack_thread_round-IsOrigin last host (some n) recv_buffer t v =
      if-holds (IsOrigin last) (ltb 0 n) _ _ (if-holds (IsOrigin last) done _ _ pushed v) v
    where
      done : Bool
      done = (deserialise_seq_num host 0 recv_buffer).0

      pushed : IsOrigin last (record t {
        ack_queue = SafeQueue.push t.ack_queue (deserialise_seq_num host 0 recv_buffer).1;
      })
      pushed = record { queued = v.queued; held = v.held; spans = v.spans; numbered = v.numbered }

  pub send_packet-IsOrigin :
      (last : ℕ) (host : Host) (now : ℕ) (packet : DataPacket) (t : Transmitter B)
      → P (update_sequence_number host (next_sn last) packet)
      → IsOrigin last t
      → IsOrigin (next_sn last) (send_packet host now packet t)
  unfolding send_packet InputBuffer.add_packet InputBuffer.get_next_info SafeQueue.push
  send_packet-IsOrigin last host now packet t k v = record {
    queued =
        All-append (OfObject P) t.input_buffer.input_packets.queue _ v.queued
          (subst (λ n. P (update_sequence_number host (next_sn n) packet)) (sym v.numbered) k, tt);
    held = v.held;
    spans = v.spans;
    numbered = ap next_sn v.numbered;
  }

  -- The other steps of the threads.
  pub transmits-IsOrigin :
      (last : ℕ) (host : Host) (clock : Readings) (t : Transmitter B)
      → IsOrigin last t
      → OnReturn (IsOrigin last) (step host ops (transmits clock) t)
  unfolding step
  transmits-IsOrigin last host clock t v = transmit-IsOrigin last clock t v

  pub processes-IsOrigin :
      (last : ℕ) (host : Host) (t : Transmitter B)
      → IsOrigin last t
      → OnReturn (IsOrigin last) (step host ops processes t)
  unfolding step
  processes-IsOrigin last host t v =
      OnReturn->>= (λ x. IsOrigin last x.1) (IsOrigin last) (process_ack ops t) _
        (process_ack-IsOrigin last t v) (λ x h. h)

  pub takes_ack-IsOrigin :
      (last : ℕ) (host : Host) (received : Option ℕ) (recv_buffer : List ℕ) (t : Transmitter B)
      → IsOrigin last t
      → OnReturn (IsOrigin last) (step host ops (takes_ack received recv_buffer) t)
  unfolding step
  takes_ack-IsOrigin last host received recv_buffer t v =
      ack_thread_round-IsOrigin last host received recv_buffer t v
