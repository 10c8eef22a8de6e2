-- ===== src/System/Conversation/Receiving.antt =====
-- What the receiver does in an exchange: it takes a copy of a packet, and acknowledges it.
use arq_benchmark.Base.{
  ℕ, zero, suc, ◌+◌, ◌<◌, ◌≡◌, refl, ap, ◌∙◌, false, List, [], ◌∷◌, ◌++◌, Option, none, some, arith,
  returns, ◌>>=◌, length, length-append, get_elem?, get_elem?-append_length, Outcome,
}
use arq_benchmark.Common.Host.{Host, IsNetworkOrder, u16_mod}
use arq_benchmark.Common.SequenceNumber.{next_sn, max_sequence_number}
use arq_benchmark.Common.DataPacket.{DataPacket, get_read_span, update_sequence_number}
use arq_benchmark.Common.DataPacket
use arq_benchmark.Common.DataPacket.Consistent.{IsConsistent}
use arq_benchmark.Common.OutputBuffer.{ReceiveBufferObject}
use arq_benchmark.Transmitter.{Transmitter}
use arq_benchmark.Transmitter.Serial.{waiting, ending}
use arq_benchmark.Receiver
use arq_benchmark.Receiver.{Receiver, resequencing_round, ack_thread_round}
use arq_benchmark.Receiver.Serial.{
  holding, ack_of, resequencing_round-next, resequencing_round-again, ack_thread_round-sends,
}
use arq_benchmark.System.{System, Event, arrives, acks, step, run}
use arq_benchmark.System.Retransmission.{receives_copy}
use arq_benchmark.System.Conversation.{pause, acks_again, followed_by}
use arq_benchmark.System.Conversation.Pair.{SerialPair, pair, sent_at, run-returns}
use arq_benchmark.System.Conversation.Sending.{again}

module _ {T R : Type 0} (laws : SerialPair T R) (host : Host) (order : IsNetworkOrder host)
    (fuel : ℕ) (rx_clock : ℕ → ℕ) (tail : List ℕ) where
  abbrev runs : List Event → System T R → Outcome (System T R)
  runs events x = run host laws.rt laws.rs (suc (suc fuel)) events x

  -- A packet with its number, and what was sent before it.
  module _ (n : ℕ) (packet : DataPacket) (valid : IsConsistent packet)
      (sn : packet.header.sequence_number ≡ n) (small : n < u16_mod) (first : ℕ) where
    abbrev latest : T → ℕ → Option ℕ → List (List ℕ) → Transmitter T
    latest b last eot before = waiting last b [] eot false (before ++ packet.bytes ∷ [])

    -- A copy of the latest array arrives, and leads to this receiver.
    arrival :
        (t : Transmitter T) (before : List (List ℕ)) (r r' : Receiver R) (events : List Event)
        → t.sent ≡ before ++ packet.bytes ∷ []
        → resequencing_round laws.rs host
            (suc (suc fuel))
            rx_clock
            (some (length packet.bytes))
            (packet.bytes ++ tail)
            r
          ≡ returns r'
        → runs (arrives rx_clock (length before) tail ∷ acks ∷ events) (pair t r)
          ≡ runs events (pair t (ack_thread_round host r'))
    unfolding step Receiver.step get_read_span
    arrival t before r r' events sent e =
        let there : get_elem? t.sent (length before) ≡ some packet.bytes =
          ap (λ l. get_elem? l (length before)) sent
          ∙ get_elem?-append_length before packet.bytes [] in
        run-returns laws host fuel (arrives rx_clock (length before) tail) (acks ∷ events)
          (pair t r) (pair t r') (rw (there, step, e, ◌>>=◌) refl)
        ∙ run-returns laws host fuel acks events (pair t r') (pair t (ack_thread_round host r'))
            refl

    -- The packet that comes next arrives and is acknowledged.
    pub arrives-next :
        (last : ℕ) (b : T) (eot : Option ℕ) (before : List (List ℕ)) (rb : R)
        (output : List ReceiveBufferObject) (acked : List (List ℕ)) (events : List Event)
        → laws.Expecting n rb
        → (rb' : R) × (runs
              (arrives rx_clock (length before) tail ∷ acks ∷ events)
              (pair (latest b last eot before) (holding n rb output [] none false acked))
            ≡ runs events (
                pair (latest b last eot before) (
                  holding
                    (next_sn n)
                    rb'
                    (output
                      ++ record { packet = followed_by tail packet; rx_time = rx_clock 0 } ∷ [])
                    []
                    (ending (DataPacket.is_end_of_tx packet) n)
                    (DataPacket.is_end_of_tx packet)
                    (acked ++ ack_of host n ∷ []))))
          × laws.Given n rb'
    unfolding DataPacket.is_end_of_tx get_read_span
    arrives-next last b eot before rb output acked events v =
        let one : ReceiveBufferObject = record {
          packet = followed_by tail packet;
          rx_time = rx_clock 0;
        } in
        let ends = DataPacket.is_end_of_tx packet in
        let r = holding n rb output [] none false acked in
        let (rb', e, w) =
          resequencing_round-next laws.rs laws.Expecting laws.Given laws.rs_laws host fuel rx_clock
            (some (length packet.bytes)) (packet.bytes ++ tail) n rb output acked
            (followed_by tail packet) sn (receives_copy host order packet tail valid) v in
        (
          rb',
          arrival (latest b last eot before) before r
                (holding (next_sn n) rb' (output ++ one ∷ []) (n ∷ []) (ending ends n) false acked)
                events refl e
              ∙ ap (λ x. runs events (pair (latest b last eot before) x))
                  (ack_thread_round-sends host (next_sn n) n rb' (output ++ one ∷ []) ends acked),
          w,
        )

    -- The packet arrives again and is acknowledged again.
    arrives-again :
        (last : ℕ) (b : T) (before : List (List ℕ)) (rb : R) (output : List ReceiveBufferObject)
        (acked : List (List ℕ)) (events : List Event)
        → laws.Given n rb
        → n < max_sequence_number
        → DataPacket.is_end_of_tx packet ≡ false
        → runs
            (arrives rx_clock (length before) tail ∷ acks ∷ events)
            (pair (latest b last none before) (holding (next_sn n) rb output [] none false acked))
          ≡ runs events (
              pair
                (latest b last none before)
                (holding (next_sn n) rb output [] none false (acked ++ ack_of host n ∷ [])))
    unfolding DataPacket.is_end_of_tx get_read_span
    arrives-again last b before rb output acked events v few more =
        arrival (latest b last none before) before
          (holding (next_sn n) rb output [] none false acked)
          (holding (next_sn n) rb output (n ∷ []) none false acked) events refl
          (resequencing_round-again laws.rs laws.Expecting laws.Given laws.rs_laws host fuel
            rx_clock (some (length packet.bytes)) (packet.bytes ++ tail) n rb output acked
            (followed_by tail packet) sn (receives_copy host order packet tail valid) v few more)
        ∙ ap (λ x. runs events (pair (latest b last none before) x))
            (ack_thread_round-sends host (next_sn n) n rb output false acked)

    -- The ACK is lost, so many times; the receiver has given the packet out already.
    pub acks_again-Given :
        (losses now last : ℕ) (b : T) (before : List (List ℕ)) (rb : R)
        (output : List ReceiveBufferObject) (acked : List (List ℕ)) (next : ℕ → ℕ → ℕ → List Event)
        → laws.Holding n (sent_at first now n packet) b
        → laws.Given n rb
        → n < max_sequence_number
        → DataPacket.is_end_of_tx packet ≡ false
        → (now' : ℕ) × (b' : T) × (before' acked' : List (List ℕ)) × (runs
              (acks_again laws.timeout rx_clock tail now (length before) (length acked) losses next)
              (pair
                (latest b last none before)
                (holding (next_sn n) rb output [] none false (acked ++ ack_of host n ∷ [])))
            ≡ runs (next now' (length before') (length acked')) (
                pair
                  (latest b' last none before')
                  (holding (next_sn n) rb output [] none false (acked' ++ ack_of host n ∷ []))))
          × laws.Holding n (sent_at first now' n packet) b'
    acks_again-Given zero now last b before rb output acked next h v few more =
        (now, b, before, acked, refl, h)
    acks_again-Given (suc losses) now last b before rb output acked next h v few more =
        let longer = before ++ packet.bytes ∷ [] in
        let more_acks = acked ++ ack_of host n ∷ [] in
        let r = holding (next_sn n) rb output [] none false more_acks in
        let count : suc (length before) ≡ length longer =
          omega (arith, length-append before (packet.bytes ∷ [])) in
        let count_acks : suc (length acked) ≡ length more_acks =
          omega (arith, length-append acked (ack_of host n ∷ [])) in
        let (b', e, h') =
          again laws host order fuel rx_clock tail n packet valid sn small first now last b none
            longer r _ h in
        let rest = λ (s a : ℕ).
          arrives rx_clock s tail
          ∷ acks
          ∷ acks_again laws.timeout rx_clock tail (now + pause laws.timeout) s a losses next in
        let (now'', b'', before'', acked'', e'', h'') =
          acks_again-Given losses (now + pause laws.timeout) last b' longer rb output more_acks next
            h' v few more in
        (
          now'',
          b'',
          before'',
          acked'',
          e
              ∙ ap (λ s. runs (rest s (suc (length acked))) (pair (latest b' last none longer) r))
                  count
              ∙ ap (λ a. runs (rest (length longer) a) (pair (latest b' last none longer) r))
                  count_acks
              ∙ arrives-again last b' longer rb output more_acks _ v few more
              ∙ e'',
          h'',
        )
