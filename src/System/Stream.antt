-- ===== src/System/Stream.antt =====
-- SCTP: the receiver reads what the transmitter sent in order and without loss, each packet with the
-- rest of the read behind it (src/arq/receiver.hpp, with resequencing_buffers/dummy_sctp_rs.cpp).
pub mod Sent
use arq_benchmark.Base.{
  ℕ, suc, ◌+◌, ◌≡◌, refl, ap, ◌∙◌, true, false, List, [], ◌∷◌, ◌++◌, map, All, Option, none, some,
  Outcome, returns, ◌>>=◌, length, append_assoc, append-nil, if◌then◌else◌, sym, map-append, inl,
  inr,
}
use arq_benchmark.Common.Host.{Host, IsNetworkOrder}
use arq_benchmark.Common.SequenceNumber.{first_sequence_number, next_sn}
use arq_benchmark.Common.InOrder.{InOrder}
use arq_benchmark.Common.DataPacket.{DataPacket, get_read_span, is_end_of_tx}
use arq_benchmark.Common.DataPacket.Consistent.{IsConsistent}
use arq_benchmark.Common.OutputBuffer.{ReceiveBufferObject, delivered}
use arq_benchmark.Rs.DummySctp
use arq_benchmark.Rs.DummySctp.{DummySctp, packet_payload_length, do_get_next_packet}
use arq_benchmark.Rs.DummySctp.Trims.{IsWhole, empty, do_add_packet-trims}
use arq_benchmark.Rs.Instances.{dummy_sctp}
use arq_benchmark.Util.SafeQueue
use arq_benchmark.Receiver
use arq_benchmark.Receiver.{Receiver, Step, resequences, acks, step, run, resequencing_round}
use arq_benchmark.Receiver.Serial.{
  holding, ack_of, take_packet-some, deliver-goes, deliver-ends, resequencing_round-goes,
  ack_thread_round-sends,
}
use arq_benchmark.System.Retransmission.{receives_copy}

-- Each packet is read, with the bytes that the array has behind it, and acknowledged.
abbrev pub stream : (ℕ → ℕ) → (DataPacket → List ℕ) → List DataPacket → List Step
stream clock tail [] = []
stream clock tail (p ∷ ps) =
    resequences clock (some (length p.bytes)) (p.bytes ++ tail p) ∷ acks ∷ stream clock tail ps

stream-append :
    (clock : ℕ → ℕ) (tail : DataPacket → List ℕ) (ps qs : List DataPacket)
    → stream clock tail (ps ++ qs) ≡ stream clock tail ps ++ stream clock tail qs
stream-append clock tail [] qs = refl
stream-append clock tail (p ∷ ps) qs =
    ap (λ l. resequences clock (some (length p.bytes)) (p.bytes ++ tail p) ∷ acks ∷ l)
      (stream-append clock tail ps qs)

module _ (host : Host) (order : IsNetworkOrder host) (fuel : ℕ) (clock : ℕ → ℕ)
    (tail : DataPacket → List ℕ) where
  abbrev received : DataPacket → ReceiveBufferObject
  received p = record { packet = p; rx_time = clock 0 }

  abbrev ack_for : DataPacket → List ℕ
  ack_for p = ack_of host p.header.sequence_number

  abbrev runs : List Step → Receiver DummySctp → Outcome (Receiver DummySctp)
  runs steps r = run host (dummy_sctp host) (suc (suc fuel)) steps r

  module _ (n : ℕ) (p : DataPacket) (v : IsConsistent p) (whole : IsWhole p)
      (sn : p.header.sequence_number ≡ n) (output : List ReceiveBufferObject)
      (sent : List (List ℕ)) where
    -- A packet goes through without the bytes behind it, and its ACK waits.
    resequencing_round-trims :
        resequencing_round
          (dummy_sctp host)
          host
          (suc (suc fuel))
          clock
          (some (length p.bytes))
          (p.bytes ++ tail p)
          (holding n (empty n) output [] none false sent)
        ≡ returns (
            holding
              (next_sn n)
              (empty (next_sn n))
              (output ++ received p ∷ [])
              (n ∷ [])
              (if is_end_of_tx p then some n else none)
              false
              sent)
    unfolding get_read_span do_get_next_packet SafeQueue.try_pop is_end_of_tx
    resequencing_round-trims =
        let ops = dummy_sctp host in
        let held : DummySctp = record {
          shadow_buffer = record { queue = p ∷ [] };
          next_sequence_number = next_sn n;
        } in
        let whole_array : DataPacket = record p { bytes = p.bytes ++ tail p } in
        let eot : Option ℕ = if is_end_of_tx p then some n else none in
        resequencing_round-goes ops host (suc (suc fuel)) clock (some (length p.bytes))
          (p.bytes ++ tail p) (holding n (empty n) output [] none false sent)
          (holding n held output (n ∷ []) eot false sent)
          (holding (next_sn n) (empty (next_sn n)) (output ++ received p ∷ []) (n ∷ []) eot false
            sent)
          whole_array refl (receives_copy host order p (tail p) v)
          (take_packet-some ops output sent n n (empty n) held whole_array
            (do_add_packet-trims host order n p (tail p) v whole sn) sn)
          (deliver-goes ops output sent (suc fuel) clock 0 (n ∷ []) eot n held (empty (next_sn n)) p
              refl sn
            ∙ deliver-ends ops (output ++ received p ∷ []) sent fuel clock (0 + 1) (n ∷ []) eot
                (next_sn n) (empty (next_sn n)) refl)

    -- It is read and acknowledged.
    run-packet :
        (steps : List Step)
        → runs
            (resequences clock (some (length p.bytes)) (p.bytes ++ tail p) ∷ acks ∷ steps)
            (holding n (empty n) output [] none false sent)
          ≡ runs steps (
              holding
                (next_sn n)
                (empty (next_sn n))
                (output ++ received p ∷ [])
                []
                (if is_end_of_tx p then some n else none)
                (is_end_of_tx p)
                (sent ++ ack_for p ∷ []))
    unfolding run step
    run-packet steps =
        rw
          (
            resequencing_round-trims,
            ◌>>=◌,
            ack_thread_round-sends host (next_sn n) n (empty (next_sn n))
                (output ++ received p ∷ []) (is_end_of_tx p) sent,
            sn,
          )
          refl

  -- Packets that carry consecutive numbers go through one after the other.
  run-packets :
      (n next : ℕ) (ps : List DataPacket) (steps : List Step) (output : List ReceiveBufferObject)
      (sent : List (List ℕ))
      → InOrder n ps next
      → All (λ p. IsConsistent p × IsWhole p × (is_end_of_tx p ≡ false)) ps
      → runs (stream clock tail ps ++ steps) (holding n (empty n) output [] none false sent)
        ≡ runs steps (
            holding next
              (empty next)
              (output ++ map received ps)
              []
              none
              false
              (sent ++ map ack_for ps))
  run-packets n next [] steps output sent in_order all =
      rw (append-nil output, append-nil sent)
        (ap (λ m. runs steps (holding m (empty m) output [] none false sent)) in_order)
  run-packets n next (p ∷ ps) steps output sent in_order all =
      let (sn, rest) = in_order in
      let ((v, whole, going), others) = all in
      run-packet n p v whole sn output sent (stream clock tail ps ++ steps)
      ∙ ap
          (λ c. runs (stream clock tail ps ++ steps) (
            holding (next_sn n) (empty (next_sn n)) (output ++ received p ∷ []) []
              (if c then some n else none) c (sent ++ ack_for p ∷ [])))
          going
      ∙ run-packets (next_sn n) next ps steps (output ++ received p ∷ []) (sent ++ ack_for p ∷ [])
          rest others
      ∙ ap
          (λ l. runs steps (
            holding next (empty next) l [] none false ((sent ++ ack_for p ∷ []) ++ map ack_for ps)))
          (append_assoc output (received p ∷ []) (map received ps))
      ∙ ap
          (λ l.
            runs steps
              (holding next (empty next) (output ++ map received (p ∷ ps)) [] none false l))
          (append_assoc sent (ack_for p ∷ []) (map ack_for ps))

  packets-received :
      (ps : List DataPacket) (p : DataPacket)
      → map (λ r. r.packet) (map received ps ++ received p ∷ []) ≡ ps ++ p ∷ []
  packets-received [] p = refl
  packets-received (q ∷ ps) p = ap (◌∷◌ q) (packets-received ps p)

  -- A packet with 1000 bytes of data does not end the transmission.
  All-going :
      (ps : List DataPacket)
      → All (λ p. IsConsistent p × (p.header.length_ ≡ packet_payload_length)) ps
      → All (λ p. IsConsistent p × IsWhole p × (is_end_of_tx p ≡ false)) ps
  unfolding is_end_of_tx
  All-going [] all = tt
  All-going (p ∷ ps) ((v, e), all) = ((v, inr e, rw e refl), All-going ps all)

  -- Over SCTP, with reads that give the packets of a transmission in order, each from the front of its
  -- array and with any bytes behind it: if they are consistent, carry consecutive numbers from the first
  -- one on, have 1000 bytes of data each, or, the last, none, then the run of the receiver returns, what
  -- waits for the application is just these packets, in order, without the bytes behind them, they are
  -- acknowledged in order, and the receiver knows that it has acknowledged the end. A delivery has fuel
  -- for 2 rounds or more.
  pub run-stream :
      (ps : List DataPacket) (last : DataPacket)
      → InOrder first_sequence_number ps last.header.sequence_number
      → All (λ p. IsConsistent p × (p.header.length_ ≡ packet_payload_length)) ps
      → IsConsistent last
      → last.header.length_ ≡ 0
      → (r : Receiver DummySctp) × (runs
            (stream clock tail (ps ++ last ∷ []))
            (Receiver.new (DummySctp.new first_sequence_number))
          ≡ returns r)
        × (delivered r.output_buffer ≡ ps ++ last ∷ [])
        × (r.sent ≡ map (λ p. ack_of host p.header.sequence_number) (ps ++ last ∷ []))
        × (r.acked_end_of_tx ≡ true)
  unfolding Receiver.new DummySctp.new is_end_of_tx run
  run-stream ps last in_order all v none_left =
      let n = last.header.sequence_number in
      let close : runs [] (
            holding (next_sn n) (empty (next_sn n)) (map received ps ++ received last ∷ []) []
              (if is_end_of_tx last then some n else none) (is_end_of_tx last)
              (map ack_for ps ++ ack_for last ∷ []))
          ≡ returns (
              holding (next_sn n) (empty (next_sn n)) (map received ps ++ received last ∷ []) []
                (some n) true (map ack_for ps ++ ack_for last ∷ [])) =
        rw none_left refl in
      (
        holding (next_sn n) (empty (next_sn n)) (map received ps ++ received last ∷ []) [] (some n)
            true (map ack_for ps ++ ack_for last ∷ []),
        ap
              (λ steps.
                runs steps
                  (holding first_sequence_number (empty first_sequence_number) [] [] none false []))
              (stream-append clock tail ps (last ∷ []))
            ∙ run-packets first_sequence_number n ps (stream clock tail (last ∷ [])) [] [] in_order
                (All-going ps all)
            ∙ run-packet n last v (inl none_left) refl (map received ps) (map ack_for ps) []
            ∙ close,
        packets-received ps last,
        sym (map-append ack_for ps (last ∷ [])),
        refl,
      )
