-- ===== src/System/Conversation/Ending.antt =====
-- The exchange that ends the transmission.
use arq_benchmark.Base.{
  ℕ, suc, ◌<◌, ◌≡◌, refl, sym, ap, ◌∙◌, subst, true, false, List, [], ◌∷◌, ◌++◌, none, some, arith,
  Outcome, returns, length,
}
use arq_benchmark.Common.Host.{Host, IsNetworkOrder, u16_mod}
use arq_benchmark.Common.SequenceNumber.{next_sn}
use arq_benchmark.Common.DataPacket.{DataPacket, is_end_of_tx, update_sequence_number}
use arq_benchmark.Common.DataPacket.Consistent.{IsConsistent}
use arq_benchmark.Common.OutputBuffer.{ReceiveBufferObject}
use arq_benchmark.Transmitter
use arq_benchmark.Transmitter.Serial.{waiting, ending, process_ack-ends}
use arq_benchmark.Receiver.Serial.{holding, ack_of}
use arq_benchmark.System.{System, Event, transmits, arrives, acks, ack_arrives, run}
use arq_benchmark.System.Conversation.{exchange, resends}
use arq_benchmark.System.Conversation.Pair.{SerialPair, pair, sent_at, received_at, numbered_packet}
use arq_benchmark.System.Conversation.Sending.{
  sends-transmits, resends-Holding, ack_arrives-processes,
}
use arq_benchmark.System.Conversation.Receiving.{arrives-next}

module _ {T R : Type 0} (laws : SerialPair T R) (host : Host) (order : IsNetworkOrder host)
    (fuel : ℕ) (rx_clock : ℕ → ℕ) (tail : List ℕ) where
  abbrev runs : List Event → System T R → Outcome (System T R)
  runs events x = run host laws.rt laws.rs (suc (suc fuel)) events x

  -- The run ends, and both sides know that the transmission has ended.
  abbrev pub Ended : ℕ → List ReceiveBufferObject → Outcome (System T R) → Type 0
  Ended n waits o =
      (b : T) × (rb : R) × (before acked : List (List ℕ)) × (o
        ≡ returns (
            pair (waiting n b [] (some n) true before)
              (holding (next_sn n) rb waits [] (some n) true acked)))

  module _ (n : ℕ) (packet : DataPacket) (valid : IsConsistent packet)
      (sn : packet.header.sequence_number ≡ n) (small : n < u16_mod)
      (final : is_end_of_tx packet ≡ true) (first : ℕ) (waits : List ReceiveBufferObject)
      (acked : List (List ℕ)) where
    abbrev last_answer : ℕ → ℕ → List Event
    last_answer now s =
        arrives rx_clock s tail
        ∷ acks
        ∷ ack_arrives (length acked) tail
        ∷ transmits Transmitter.processes
        ∷ []

    -- A copy of the last packet arrives, and so does its ACK.
    accepted-Ended :
        (now : ℕ) (b : T) (rb : R) (before : List (List ℕ))
        → laws.Expecting n rb
        → Ended n (waits ++ received_at rx_clock tail packet ∷ []) (
            runs (last_answer now (length before)) (
              pair
                (waiting n b [] (some n) false (before ++ packet.bytes ∷ []))
                (holding n rb waits [] none false acked)))
    unfolding run
    accepted-Ended now b rb before w =
        let events = ack_arrives (length acked) tail ∷ transmits Transmitter.processes ∷ [] in
        let (rb', e, v) =
          arrives-next laws host order fuel rx_clock tail n packet valid sn small first n b (some n)
            before rb waits acked events w in
        let sent = before ++ packet.bytes ∷ [] in
        let t = waiting n b [] (some n) false sent in
        let longer = waits ++ received_at rx_clock tail packet ∷ [] in
        let going =
          ap
            (λ c. runs events (
              pair t
                (holding (next_sn n) rb' longer [] (ending c n) c (acked ++ ack_of host n ∷ []))))
            final in
        (
          b,
          rb',
          sent,
          acked ++ ack_of host n ∷ [],
          e
              ∙ going
              ∙ ack_arrives-processes laws host order fuel rx_clock tail n n b (some n) sent acked
                  (holding (next_sn n) rb' longer [] (some n) true (acked ++ ack_of host n ∷ []))
                  (waiting n b [] (some n) true sent) [] small refl
                  (process_ack-ends laws.rt laws.timeout laws.Idle laws.Holding laws.rt_laws host n
                    n b sent),
        )

    resends-Ended :
        (losses now : ℕ) (b : T) (rb : R) (before : List (List ℕ))
        → laws.Holding n (sent_at first now n packet) b
        → laws.Expecting n rb
        → Ended n (waits ++ received_at rx_clock tail packet ∷ []) (
            runs (resends laws.timeout rx_clock tail now (length before) losses last_answer) (
              pair
                (waiting n b [] (some n) false (before ++ packet.bytes ∷ []))
                (holding n rb waits [] none false acked)))
    resends-Ended losses now b rb before h w =
        let (now', b', before', e, h') =
          resends-Holding laws host order fuel rx_clock tail n packet valid sn small first losses
            now n b (some n) before (holding n rb waits [] none false acked) last_answer h in
        subst (Ended n (waits ++ received_at rx_clock tail packet ∷ [])) (sym e)
          (accepted-Ended now' b' rb before' w)

  -- The last packet is submitted, and sent until a copy arrives; its ACK arrives.
  pub exchange-Ended :
      (last now losses : ℕ) (packet : DataPacket) (b : T) (rb : R) (before acked : List (List ℕ))
      (waits : List ReceiveBufferObject)
      → laws.Idle (next_sn last) b
      → laws.Expecting (next_sn last) rb
      → IsConsistent packet
      → is_end_of_tx packet ≡ true
      → Ended
          (next_sn last)
          (waits
            ++ received_at rx_clock tail (update_sequence_number host (next_sn last) packet) ∷ [])
          (runs
            (exchange laws.timeout rx_clock tail now
              (length before)
              (length acked)
              (record { packet = packet; data_losses = losses; ack_losses = 0 })
              (λ now' s a. []))
            (pair
              (waiting last b [] none false before)
              (holding (next_sn last) rb waits [] none false acked)))
  exchange-Ended last now losses packet b rb before acked waits v w valid final =
      let n = next_sn last in
      let p = update_sequence_number host n packet in
      let (valid', sn, same) = numbered_packet host order n packet (omega arith) valid in
      let events =
        resends laws.timeout rx_clock tail now (length before) losses
          (last_answer n p valid' sn (omega arith) (same ∙ final) now waits acked) in
      let (b', e, h) =
        sends-transmits laws host order fuel rx_clock tail now last b before
          (holding n rb waits [] none false acked) packet events v in
      let going =
        ap
          (λ c. runs events (
            pair (waiting n b' [] (ending c n) false (before ++ p.bytes ∷ []))
              (holding n rb waits [] none false acked)))
          (same ∙ final) in
      subst (Ended n (waits ++ received_at rx_clock tail p ∷ [])) (sym (e ∙ going)) (
        resends-Ended n p valid' sn (omega arith) (same ∙ final) now waits acked losses now b' rb
          before h w)
