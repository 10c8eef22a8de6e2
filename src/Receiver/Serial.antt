-- ===== src/Receiver/Serial.antt =====
-- The threads of a receiver that is given one packet at a time, over any resequencing buffer that
-- keeps the laws of `Rs.Serial`.
use arq_benchmark.Base.{
  ℕ, suc, ◌+◌, ◌<◌, ◌≡◌, refl, ap, ◌∙◌, Bool, true, false, List, [], ◌∷◌, ◌++◌, Option, none, some,
  returns, ◌>>=◌, if◌then◌else◌, ==_refl, replicate,
}
use arq_benchmark.Common.Host.{Host}
use arq_benchmark.Common.ControlPacket
use arq_benchmark.Common.SequenceNumber.{next_sn, max_sequence_number, serialise_seq_num}
use arq_benchmark.Common.DataPacket.{DataPacket, is_end_of_tx}
use arq_benchmark.Common.OutputBuffer
use arq_benchmark.Common.OutputBuffer.{ReceiveBufferObject}
use arq_benchmark.Rs.Buffer.{RsBuffer}
use arq_benchmark.Rs.Serial.{IsSerial}
use arq_benchmark.Util.SafeQueue
use arq_benchmark.Receiver.{
  Receiver, receive_packet, take_packet, deliver, resequencing_round, ack_thread_round, send_ack,
}

-- A receiver whose output buffer holds these packets.
abbrev pub holding :
    {B : Type 0}
    → ℕ
    → B
    → List ReceiveBufferObject
    → List ℕ
    → Option ℕ
    → Bool
    → List (List ℕ)
    → Receiver B
holding next b output acks eot acked sent = record {
  output_buffer = record {
    output_packets = record { queue = output };
    next_sequence_number = next;
  };
  resequencing_buffer = b;
  ack_queue = record { queue = acks };
  acked_end_of_tx = acked;
  end_of_tx_sn = eot;
  sent = sent;
  handed_out = [];
}

-- The array that `sendAck` hands to the transmit function.
abbrev pub ack_of : Host → ℕ → List ℕ
ack_of host n =
    (ControlPacket.serialise host (record { sequence_number = n })
      (replicate ControlPacket.size_of 0)).1

module _ {B : Type 0} (ops : RsBuffer B) (output : List ReceiveBufferObject)
    (sent : List (List ℕ)) where
  pub take_packet-some :
      (n next : ℕ) (b b' : B) (p : DataPacket)
      → ops.add_packet p b ≡ returns (some n, b')
      → p.header.sequence_number ≡ n
      → take_packet ops p (holding next b output [] none false sent)
        ≡ returns
            (holding next b' output (n ∷ []) (if is_end_of_tx p then some n else none) false sent)
  unfolding take_packet SafeQueue.push
  take_packet-some n next b b' p adds sn = simp (adds, sn, ◌>>=◌)

  module _ (fuel : ℕ) (clock : ℕ → ℕ) (i : ℕ) (acks : List ℕ) (eot : Option ℕ) where
    pub deliver-ends :
        (next : ℕ) (b : B)
        → ops.get_next_packet b ≡ (none, b)
        → deliver ops (suc fuel) clock i (holding next b output acks eot false sent)
          ≡ returns (holding next b output acks eot false sent)
    unfolding deliver
    deliver-ends next b ends = simp (ends, deliver)

    pub deliver-goes :
        (n : ℕ) (b b' : B) (p : DataPacket)
        → ops.get_next_packet b ≡ (some p, b')
        → p.header.sequence_number ≡ n
        → deliver ops (suc fuel) clock i (holding n b output acks eot false sent)
          ≡ deliver ops fuel clock (i + 1) (
              holding
                (next_sn n)
                b'
                (output ++ record { packet = p; rx_time = clock i } ∷ [])
                acks
                eot
                false
                sent)
    unfolding deliver OutputBuffer.add_packet SafeQueue.push
    deliver-goes n b b' p gives sn = simp (gives, sn, deliver, ==_refl n)

module _ {B : Type 0} (ops : RsBuffer B) (host : Host) (fuel : ℕ) (clock : ℕ → ℕ)
    (received : Option ℕ) (recv_buffer : List ℕ) where
  pub resequencing_round-goes :
      (r r' r'' : Receiver B) (p : DataPacket)
      → r.acked_end_of_tx ≡ false
      → receive_packet host received recv_buffer ≡ returns (some p)
      → take_packet ops p r ≡ returns r'
      → deliver ops fuel clock 0 r' ≡ returns r''
      → resequencing_round ops host fuel clock received recv_buffer r ≡ returns r''
  unfolding resequencing_round
  resequencing_round-goes r r' r'' p going e takes delivers = simp (going, e, takes, ◌>>=◌) delivers

module _ {B : Type 0} (ops : RsBuffer B) (Expecting Given : ℕ → B → Type 0)
    (laws : IsSerial ops Expecting Given) (host : Host) (fuel : ℕ) (clock : ℕ → ℕ)
    (received : Option ℕ) (recv_buffer : List ℕ) (n : ℕ) (b : B) (output : List ReceiveBufferObject)
    (sent : List (List ℕ)) (p : DataPacket) (sn : p.header.sequence_number ≡ n)
    (e : receive_packet host received recv_buffer ≡ returns (some p)) where
  -- The packet that comes next goes through to the output buffer, and its ACK waits.
  pub resequencing_round-next :
      Expecting n b
      → (b' : B) × (resequencing_round ops host
            (suc (suc fuel))
            clock
            received
            recv_buffer
            (holding n b output [] none false sent)
          ≡ returns (
              holding
                (next_sn n)
                b'
                (output ++ record { packet = p; rx_time = clock 0 } ∷ [])
                (n ∷ [])
                (if is_end_of_tx p then some n else none)
                false
                sent))
        × Given n b'
  resequencing_round-next v =
      let (held, given, adds, gives, ends, w) = laws.accept n p b v sn in
      let eot : Option ℕ = if is_end_of_tx p then some n else none in
      let longer = output ++ record { packet = p; rx_time = clock 0 } ∷ [] in
      (
        given,
        resequencing_round-goes ops host (suc (suc fuel)) clock received recv_buffer
            (holding n b output [] none false sent) (holding n held output (n ∷ []) eot false sent)
            (holding (next_sn n) given longer (n ∷ []) eot false sent) p refl e
            (take_packet-some ops output sent n n b held p adds sn)
            (deliver-goes ops output sent (suc fuel) clock 0 (n ∷ []) eot n held given p gives sn
              ∙ deliver-ends ops longer sent fuel clock (0 + 1) (n ∷ []) eot (next_sn n) given
                  ends),
        w,
      )

  -- The packet again is acknowledged, and nothing else changes.
  pub resequencing_round-again :
      Given n b
      → n < max_sequence_number
      → is_end_of_tx p ≡ false
      → resequencing_round ops host
          (suc (suc fuel))
          clock
          received
          recv_buffer
          (holding (next_sn n) b output [] none false sent)
        ≡ returns (holding (next_sn n) b output (n ∷ []) none false sent)
  resequencing_round-again v small more =
      let (adds, ends) = laws.repeat n p b v sn small in
      resequencing_round-goes ops host (suc (suc fuel)) clock received recv_buffer
        (holding (next_sn n) b output [] none false sent)
        (holding (next_sn n) b output (n ∷ []) (if is_end_of_tx p then some n else none) false sent)
        (holding (next_sn n) b output (n ∷ []) none false sent) p refl e
        (take_packet-some ops output sent n (next_sn n) b b p adds sn)
        (ap
            (λ c.
              deliver ops (suc (suc fuel)) clock 0
                (holding (next_sn n) b output (n ∷ []) (if c then some n else none) false sent))
            more
          ∙ deliver-ends ops output sent (suc fuel) clock 0 (n ∷ []) none (next_sn n) b ends)

module _ {B : Type 0} (host : Host) where
  -- The ACK that waits is sent; it is the last one if it is for the end of the transmission.
  pub ack_thread_round-sends :
      (next n : ℕ) (b : B) (output : List ReceiveBufferObject) (eot : Bool) (sent : List (List ℕ))
      → ack_thread_round host
          (holding next b output (n ∷ []) (if eot then some n else none) false sent)
        ≡ holding next b output [] (if eot then some n else none) eot (sent ++ ack_of host n ∷ [])
  unfolding ack_thread_round send_ack SafeQueue.try_pop ControlPacket.serialise serialise_seq_num
  ack_thread_round-sends next n b output true sent = rw (==_refl n) refl
  ack_thread_round-sends next n b output false sent = refl
