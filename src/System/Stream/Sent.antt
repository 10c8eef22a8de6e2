-- ===== src/System/Stream/Sent.antt =====
-- SCTP from end to end: a transmitter that keeps nothing, and a receiver that reads what it sent
-- (src/arq/transmitter.hpp with retransmission_buffers/dummy_sctp_rt.cpp, and `System.Stream`).
use arq_benchmark.Base.{
  ℕ, suc, ◌≡◌, refl, ap, ◌∙◌, true, false, List, [], ◌∷◌, ◌++◌, map, All, Option, none, some, arith,
  Outcome, returns, append_assoc, append-nil, if◌then◌else◌, sym, map-append, subst,
}
use arq_benchmark.Common.Host.{Host, IsNetworkOrder}
use arq_benchmark.Common.SequenceNumber.{first_sequence_number, next_sn, previous_sn}
use arq_benchmark.Common.InOrder.{InOrder}
use arq_benchmark.Common.DataPacket.{DataPacket, get_read_span, update_sequence_number}
use arq_benchmark.Common.DataPacket
use arq_benchmark.Common.DataPacket.Consistent.{IsConsistent, update_sequence_number-IsConsistent}
use arq_benchmark.Common.TxBufferObject.{is_end_of_tx}
use arq_benchmark.Common.InputBuffer
use arq_benchmark.Common.OutputBuffer.{delivered}
use arq_benchmark.Rt.DummySctp as Rt
use arq_benchmark.Rt.GoBackN.{Readings}
use arq_benchmark.Rt.Instances as RtInstances
use arq_benchmark.Rs.DummySctp as Rs
use arq_benchmark.Rs.DummySctp.{packet_payload_length}
use arq_benchmark.Rs.Instances as RsInstances
use arq_benchmark.Transmitter
use arq_benchmark.Transmitter.{
  Transmitter, sends, transmits, send_packet, transmit, transmit_new, attempt_packet_retransmission,
  attempt_new_packet_transmission, transmit_packet_data,
}
use arq_benchmark.Transmitter.Serial.{waiting}
use arq_benchmark.Util.SafeQueue
use arq_benchmark.Receiver
use arq_benchmark.Receiver.{Receiver}
use arq_benchmark.Receiver.Serial.{ack_of}
use arq_benchmark.System.{numbered}
use arq_benchmark.System.Stream.{stream, run-stream}

-- Each packet is submitted, and then sent.
abbrev pub submits : ℕ → Readings → List DataPacket → List Transmitter.Step
submits now clock [] = []
submits now clock (p ∷ ps) = sends now p ∷ transmits clock ∷ submits now clock ps

module _ (host : Host) (now : ℕ) (clock : Readings) where
  abbrev runs :
      List Transmitter.Step → Transmitter Rt.DummySctp → Outcome (Transmitter Rt.DummySctp)
  runs steps t = Transmitter.run host RtInstances.dummy_sctp steps t

  run-submit :
      (last : ℕ) (packet : DataPacket) (eot : Option ℕ) (sent : List (List ℕ))
      (steps : List Transmitter.Step)
      → let p = update_sequence_number host (next_sn last) packet in
        runs (sends now packet ∷ transmits clock ∷ steps) (waiting last Rt.new [] eot false sent)
        ≡ runs steps (
            waiting
              (next_sn last)
              Rt.new
              []
              (if DataPacket.is_end_of_tx p then some (next_sn last) else eot)
              false
              (sent ++ p.bytes ∷ []))
  unfolding Transmitter.run Transmitter.step transmit send_packet transmit_new
      attempt_packet_retransmission attempt_new_packet_transmission transmit_packet_data
      InputBuffer.add_packet InputBuffer.get_next_info InputBuffer.try_get_packet SafeQueue.push
      SafeQueue.try_pop Rt.do_add_packet Rt.do_try_get_packet_span Rt.do_ready_for_new_packet
      get_read_span is_end_of_tx
  run-submit last packet eot sent steps = refl

  -- With its number, a packet is consistent and has as much data as before.
  module _ (order : IsNetworkOrder host) where
    sized :
        (n len : ℕ) (p : DataPacket)
        → IsConsistent p
        → p.header.length_ ≡ len
        → let q = update_sequence_number host (next_sn n) p in
          IsConsistent q × (q.header.length_ ≡ len) × (q.header.sequence_number ≡ next_sn n)
    sized n len p v e =
        let (v', header, payload) =
          update_sequence_number-IsConsistent host order (next_sn n) p (omega arith) v in
        (v', ap (λ h. h.length_) header ∙ e, ap (λ h. h.sequence_number) header)

    -- Packets with 1000 bytes of data are sent under consecutive numbers.
    run-submits :
        (last : ℕ) (ps : List DataPacket) (sent : List (List ℕ)) (steps : List Transmitter.Step)
        → All (λ p. IsConsistent p × (p.header.length_ ≡ packet_payload_length)) ps
        → (last' : ℕ) × (runs
              (submits now clock ps ++ steps)
              (waiting last Rt.new [] none false sent)
            ≡ runs steps (
                waiting last' Rt.new [] none false
                  (sent ++ map (λ p. p.bytes) (numbered host (next_sn last) ps))))
          × ((p : DataPacket)
              → numbered host (next_sn last) (ps ++ p ∷ [])
                ≡ numbered host (next_sn last) ps
                  ++ update_sequence_number host (next_sn last') p ∷ [])
          × InOrder (next_sn last) (numbered host (next_sn last) ps) (next_sn last')
          × All
              (λ p. IsConsistent p × (p.header.length_ ≡ packet_payload_length))
              (numbered host (next_sn last) ps)
    unfolding DataPacket.is_end_of_tx
    run-submits last [] sent steps all = (
      last,
      ap (λ l. runs steps (waiting last Rt.new [] none false l)) (sym (append-nil sent)),
      λ p. refl,
      refl,
      tt,
    )
    run-submits last (p ∷ ps) sent steps ((v, len), all) =
        let n = next_sn last in
        let q = update_sequence_number host n p in
        let (v', len', sn) = sized last packet_payload_length p v len in
        let going : DataPacket.is_end_of_tx q ≡ false = rw len' refl in
        let (last', e, splits, in_order, others) =
          run-submits n ps (sent ++ q.bytes ∷ []) steps all in
        (
          last',
          run-submit last p none sent (submits now clock ps ++ steps)
              ∙ ap
                  (λ c.
                    runs (submits now clock ps ++ steps) (
                      waiting n Rt.new [] (if c then some n else none) false
                        (sent ++ q.bytes ∷ [])))
                  going
              ∙ e
              ∙ ap (λ l. runs steps (waiting last' Rt.new [] none false l))
                  (append_assoc sent (q.bytes ∷ [])
                    (map (λ p. p.bytes) (numbered host (next_sn n) ps))),
          λ p'. ap (◌∷◌ q) (splits p'),
          (sn, in_order),
          ((v', len'), others),
        )

    submits-append :
        (ps qs : List DataPacket)
        → submits now clock (ps ++ qs) ≡ submits now clock ps ++ submits now clock qs
    submits-append [] qs = refl
    submits-append (p ∷ ps) qs = ap (λ l. sends now p ∷ transmits clock ∷ l) (submits-append ps qs)

    -- Over SCTP from end to end: if the application submits consistent packets of 1000 bytes of data,
    -- and then the end of the transmission, each is sent in the next pass of the transmitting thread,
    -- under consecutive numbers; and a receiver that reads what was sent, in order, each array from the
    -- front and with any bytes behind it, gives the application just these packets, without the bytes
    -- behind them, sends an ACK for each, in order, and knows that it has acknowledged the end. A
    -- delivery has fuel for 2 rounds or more.
    pub submits-stream :
        (fuel : ℕ) (rx_clock : ℕ → ℕ) (tail : DataPacket → List ℕ) (ps : List DataPacket)
        (last : DataPacket)
        → All (λ p. IsConsistent p × (p.header.length_ ≡ packet_payload_length)) ps
        → IsConsistent last
        → last.header.length_ ≡ 0
        → let packets = numbered host first_sequence_number (ps ++ last ∷ []) in
          (t : Transmitter Rt.DummySctp) × (r : Receiver Rs.DummySctp) × (runs
              (submits now clock (ps ++ last ∷ []))
              (Transmitter.new Rt.new)
            ≡ returns t)
          × (t.sent ≡ map (λ p. p.bytes) packets)
          × (Receiver.run host
                (RsInstances.dummy_sctp host)
                (suc (suc fuel))
                (stream rx_clock tail packets)
                (Receiver.new (Rs.new first_sequence_number))
              ≡ returns r)
          × (delivered r.output_buffer ≡ packets)
          × (r.sent ≡ map (λ p. ack_of host p.header.sequence_number) packets)
          × (r.acked_end_of_tx ≡ true)
    unfolding Transmitter.new InputBuffer.new Transmitter.run DataPacket.is_end_of_tx
    submits-stream fuel rx_clock tail ps last all v none_left =
        let start = previous_sn first_sequence_number in
        let (last', e, splits, in_order, sized_all) =
          run-submits start ps [] (submits now clock (last ∷ [])) all in
        let n = next_sn last' in
        let end = update_sequence_number host n last in
        let (v', len, sn) = sized last' 0 last v none_left in
        let before = numbered host first_sequence_number ps in
        let (r, received, gives, answers, done) =
          run-stream host order fuel rx_clock tail before end
            (subst (InOrder first_sequence_number before) (sym sn) in_order) sized_all v' len in
        let same : before ++ end ∷ [] ≡ numbered host first_sequence_number (ps ++ last ∷ []) =
          sym (splits last) in
        (
          _,
          r,
          ap (λ steps. runs steps (waiting start Rt.new [] none false []))
                (submits-append ps (last ∷ []))
              ∙ e
              ∙ run-submit last' last none (map (λ p. p.bytes) before) [],
          sym (map-append (λ p. p.bytes) before (end ∷ [])) ∙ ap (map (λ p. p.bytes)) same,
          ap
                (λ l.
                  Receiver.run host (RsInstances.dummy_sctp host) (suc (suc fuel))
                    (stream rx_clock tail l) (Receiver.new (Rs.new first_sequence_number)))
                (sym same)
              ∙ received,
          gives ∙ same,
          answers ∙ ap (map (λ p. ack_of host p.header.sequence_number)) same,
          done,
        )
