-- ===== src/System/Conversation/Exchange.antt =====
-- An exchange: a packet is submitted, sent until a copy arrives, and acknowledged until an ACK
-- arrives.
use arq_benchmark.Base.{
  ℕ, suc, ◌<◌, ◌≡◌, refl, sym, ap, ◌∙◌, subst, false, List, [], ◌∷◌, ◌++◌, none, arith, Outcome,
  length, length-append,
}
use arq_benchmark.Common.Host.{Host, IsNetworkOrder}
use arq_benchmark.Common.SequenceNumber.{next_sn}
use arq_benchmark.Common.DataPacket.{DataPacket, is_end_of_tx, update_sequence_number}
use arq_benchmark.Common.DataPacket.Consistent.{IsConsistent}
use arq_benchmark.Common.OutputBuffer.{ReceiveBufferObject}
use arq_benchmark.Transmitter
use arq_benchmark.Transmitter.Serial.{waiting, ending, process_ack-frees}
use arq_benchmark.Receiver.Serial.{holding, ack_of}
use arq_benchmark.System.{System, Event, transmits, arrives, acks, ack_arrives, run}
use arq_benchmark.System.Conversation.{Message, exchange, resends, acks_again}
use arq_benchmark.System.Conversation.Pair.{SerialPair, pair, sent_at, received_at, numbered_packet}
use arq_benchmark.System.Conversation.Sending.{
  sends-transmits, resends-Holding, ack_arrives-processes,
}
use arq_benchmark.System.Conversation.Receiving.{arrives-next, acks_again-Given}

module _ {T R : Type 0} (laws : SerialPair T R) (host : Host) (order : IsNetworkOrder host)
    (fuel : ℕ) (rx_clock : ℕ → ℕ) (tail : List ℕ) where
  abbrev runs : List Event → System T R → Outcome (System T R)
  runs events x = run host laws.rt laws.rs (suc (suc fuel)) events x

  -- The run goes on with what follows, both sides are free again, and these packets wait for the
  -- application.
  abbrev pub Exchanged :
      ℕ → List ReceiveBufferObject → (ℕ → ℕ → ℕ → List Event) → Outcome (System T R) → Type 0
  Exchanged n waits next o =
      (now : ℕ) × (b : T) × (rb : R) × (before acked : List (List ℕ)) × (o
        ≡ runs (next now (length before) (length acked)) (
            pair (waiting n b [] none false before)
              (holding (next_sn n) rb waits [] none false acked)))
      × laws.Idle (next_sn n) b
      × laws.Expecting (next_sn n) rb

  module _ (n : ℕ) (packet : DataPacket) (valid : IsConsistent packet)
      (sn : packet.header.sequence_number ≡ n) (few : n < 65535)
      (more : is_end_of_tx packet ≡ false) (first : ℕ) (waits : List ReceiveBufferObject)
      (next : ℕ → ℕ → ℕ → List Event) where
    acknowledged :
        (now now' : ℕ) (b : T) (rb : R) (before acked : List (List ℕ))
        → laws.Holding n (sent_at first now n packet) b
        → laws.Given n rb
        → Exchanged n waits next (
            runs
              (ack_arrives (length acked) tail
                ∷ transmits Transmitter.processes
                ∷ next now' (suc (length before)) (suc (length acked)))
              (pair
                (waiting n b [] none false (before ++ packet.bytes ∷ []))
                (holding (next_sn n) rb waits [] none false (acked ++ ack_of host n ∷ []))))
    acknowledged now now' b rb before acked h v =
        let sent = before ++ packet.bytes ∷ [] in
        let all_acks = acked ++ ack_of host n ∷ [] in
        let count : suc (length before) ≡ length sent =
          omega (arith, length-append before (packet.bytes ∷ [])) in
        let count_acks : suc (length acked) ≡ length all_acks =
          omega (arith, length-append acked (ack_of host n ∷ [])) in
        let r = holding (next_sn n) rb waits [] none false all_acks in
        let (b', e, w) =
          process_ack-frees laws.rt laws.timeout laws.Idle laws.Holding laws.rt_laws host n n b sent
            (sent_at first now n packet) h in
        let t = waiting n b' [] none false sent in
        (
          now',
          b',
          rb,
          sent,
          all_acks,
          ack_arrives-processes laws host order fuel rx_clock tail n n b none sent acked r t
                (next now' (suc (length before)) (suc (length acked))) (omega arith) refl e
              ∙ ap (λ s. runs (next now' s (suc (length acked))) (pair t r)) count
              ∙ ap (λ a. runs (next now' (length sent) a) (pair t r)) count_acks,
          w,
          laws.rs_laws.expects_next n rb v,
        )

    -- The ACK arrives after so many losses.
    acknowledged_again :
        (losses now : ℕ) (b : T) (rb : R) (before acked : List (List ℕ))
        → laws.Holding n (sent_at first now n packet) b
        → laws.Given n rb
        → Exchanged n waits next (
            runs
              (acks_again laws.timeout rx_clock tail now
                (length before)
                (length acked)
                losses
                (λ now' s a.
                  ack_arrives a tail ∷ transmits Transmitter.processes ∷ next now' (suc s) (suc a)))
              (pair
                (waiting n b [] none false (before ++ packet.bytes ∷ []))
                (holding (next_sn n) rb waits [] none false (acked ++ ack_of host n ∷ []))))
    acknowledged_again losses now b rb before acked h v =
        let (now', b', before', acked', e, h') =
          acks_again-Given laws host order fuel rx_clock tail n packet valid sn (omega arith) first
            losses now n b before rb waits acked _ h v few more in
        subst (Exchanged n waits next) (sym e) (acknowledged now' now' b' rb before' acked' h' v)

  module _ (n : ℕ) (packet : DataPacket) (valid : IsConsistent packet)
      (sn : packet.header.sequence_number ≡ n) (few : n < 65535)
      (more : is_end_of_tx packet ≡ false) (first : ℕ) (waits : List ReceiveBufferObject)
      (ack_losses : ℕ) (next : ℕ → ℕ → ℕ → List Event) where
    abbrev longer : List ReceiveBufferObject
    longer = waits ++ received_at rx_clock tail packet ∷ []

    abbrev answers : ℕ → ℕ → ℕ → List Event
    answers a now s =
        arrives rx_clock s tail
        ∷ acks
        ∷ acks_again laws.timeout rx_clock tail now s a ack_losses (λ now' s' a'.
          ack_arrives a' tail ∷ transmits Transmitter.processes ∷ next now' (suc s') (suc a'))

    -- A copy of the packet arrives.
    accepted :
        (now : ℕ) (b : T) (rb : R) (before acked : List (List ℕ))
        → laws.Holding n (sent_at first now n packet) b
        → laws.Expecting n rb
        → Exchanged n longer next (
            runs (answers (length acked) now (length before)) (
              pair
                (waiting n b [] none false (before ++ packet.bytes ∷ []))
                (holding n rb waits [] none false acked)))
    accepted now b rb before acked h w =
        let (rb', e, v) =
          arrives-next laws host order fuel rx_clock tail n packet valid sn (omega arith) first n b
            none before rb waits acked _ w in
        let t = waiting n b [] none false (before ++ packet.bytes ∷ []) in
        let going =
          ap
            (λ c.
              runs
                (acks_again laws.timeout rx_clock tail now (length before) (length acked) ack_losses
                  (λ now' s a.
                    ack_arrives a tail
                    ∷ transmits Transmitter.processes
                    ∷ next now' (suc s) (suc a)))
                (pair t
                  (holding (next_sn n) rb' longer [] (ending c n) c (acked ++ ack_of host n ∷ []))))
            more in
        subst (Exchanged n longer next) (sym (e ∙ going)) (
          acknowledged_again n packet valid sn few more first longer next ack_losses now b rb'
            before acked h v)

    -- A copy arrives after so many losses.
    accepted_again :
        (losses now : ℕ) (b : T) (rb : R) (before acked : List (List ℕ))
        → laws.Holding n (sent_at first now n packet) b
        → laws.Expecting n rb
        → Exchanged n longer next (
            runs
              (resends laws.timeout rx_clock tail now
                (length before)
                losses
                (answers (length acked)))
              (pair
                (waiting n b [] none false (before ++ packet.bytes ∷ []))
                (holding n rb waits [] none false acked)))
    accepted_again losses now b rb before acked h w =
        let (now', b', before', e, h') =
          resends-Holding laws host order fuel rx_clock tail n packet valid sn (omega arith) first
            losses now n b none before (holding n rb waits [] none false acked)
            (answers (length acked)) h in
        subst (Exchanged n longer next) (sym e) (accepted now' b' rb before' acked h' w)

  -- A packet is submitted, sent until a copy arrives, and acknowledged until an ACK arrives.
  pub exchange-Exchanged :
      (last now : ℕ) (message : Message) (b : T) (rb : R) (before acked : List (List ℕ))
      (waits : List ReceiveBufferObject) (next : ℕ → ℕ → ℕ → List Event)
      → laws.Idle (next_sn last) b
      → laws.Expecting (next_sn last) rb
      → next_sn last < 65535
      → IsConsistent message.packet
      → is_end_of_tx message.packet ≡ false
      → Exchanged
          (next_sn last)
          (waits
            ++ received_at rx_clock tail (update_sequence_number host (next_sn last) message.packet)
              ∷ [])
          next
          (runs
            (exchange laws.timeout rx_clock tail now (length before) (length acked) message next)
            (pair
              (waiting last b [] none false before)
              (holding (next_sn last) rb waits [] none false acked)))
  exchange-Exchanged last now message b rb before acked waits next v w few valid more =
      let n = next_sn last in
      let p = update_sequence_number host n message.packet in
      let (valid', sn, same) = numbered_packet host order n message.packet (omega arith) valid in
      let r = holding n rb waits [] none false acked in
      let (b', e, h) =
        sends-transmits laws host order fuel rx_clock tail now last b before r message.packet _ v in
      let events = resends laws.timeout rx_clock tail now (length before) message.data_losses (
        answers n p valid' sn few (same ∙ more) now waits message.ack_losses next (length acked)) in
      let going =
        ap (λ c. runs events (pair (waiting n b' [] (ending c n) false (before ++ p.bytes ∷ [])) r))
          (same ∙ more) in
      subst (Exchanged n (waits ++ received_at rx_clock tail p ∷ []) next) (sym (e ∙ going)) (
        accepted_again n p valid' sn few (same ∙ more) now waits message.ack_losses next
          message.data_losses now b' rb before acked h w)
