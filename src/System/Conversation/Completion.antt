-- ===== src/System/Conversation/Completion.antt =====
-- Whole conversations, over any pair of buffers that keep the laws of `Rt.Serial` and `Rs.Serial`.
use arq_benchmark.Base.{
  ℕ, suc, ◌+◌, ◌<◌, ◌≡◌, refl, sym, ap, subst, true, false, List, [], ◌∷◌, ◌++◌, All, none, arith,
  Outcome, returns, length, map, append_assoc,
}
use arq_benchmark.Common.Host.{Host, IsNetworkOrder, u16_mod}
use arq_benchmark.Common.SequenceNumber.{first_sequence_number, previous_sn, next_sn}
use arq_benchmark.Common.DataPacket.{DataPacket, is_end_of_tx, update_sequence_number}
use arq_benchmark.Common.DataPacket.Consistent.{IsConsistent}
use arq_benchmark.Common.InputBuffer
use arq_benchmark.Common.OutputBuffer.{ReceiveBufferObject}
use arq_benchmark.Rt.Buffer.{RtBuffer}
use arq_benchmark.Rs.Buffer.{RsBuffer}
use arq_benchmark.Transmitter
use arq_benchmark.Transmitter.Serial.{waiting}
use arq_benchmark.Receiver
use arq_benchmark.Receiver.{Receiver}
use arq_benchmark.Receiver.Origin.{output}
use arq_benchmark.Receiver.Serial.{holding}
use arq_benchmark.System.{System, Event, run, numbered}
use arq_benchmark.System.Conversation.{
  Message, exchange, conversation, whole_conversation, packets_of, followed_by,
}
use arq_benchmark.System.Conversation.Pair.{SerialPair, pair, received_at}
use arq_benchmark.System.Conversation.Exchange.{exchange-Exchanged}
use arq_benchmark.System.Conversation.Ending.{Ended, exchange-Ended}

module _ {T R : Type 0} (laws : SerialPair T R) (host : Host) (order : IsNetworkOrder host)
    (fuel : ℕ) (rx_clock : ℕ → ℕ) (tail : List ℕ) where
  abbrev runs : List Event → System T R → Outcome (System T R)
  runs events x = run host laws.rt laws.rs (suc (suc fuel)) events x

  Ended-before :
      {o o' : Outcome (System T R)} (n : ℕ) (waits more : List ReceiveBufferObject)
      (p : ReceiveBufferObject)
      → o ≡ o'
      → Ended laws host order fuel rx_clock tail n (waits ++ p ∷ [] ++ more) o'
      → Ended laws host order fuel rx_clock tail n (waits ++ (p ∷ more)) o
  Ended-before {o} {o'} n waits more p e ended =
      subst (Ended laws host order fuel rx_clock tail n (waits ++ (p ∷ more))) (sym e) (
        subst (λ l. Ended laws host order fuel rx_clock tail n l o')
          (append_assoc waits (p ∷ []) more) ended)

  -- The packets of the messages, and then the last packet.
  pub conversation-Ended :
      (messages : List Message) (packet : DataPacket) (losses last now : ℕ) (b : T) (rb : R)
      (before acked : List (List ℕ)) (waits : List ReceiveBufferObject)
      → laws.Idle (next_sn last) b
      → laws.Expecting (next_sn last) rb
      → next_sn last + length messages < u16_mod
      → All (λ m. IsConsistent m.packet × (is_end_of_tx m.packet ≡ false)) messages
      → IsConsistent packet
      → is_end_of_tx packet ≡ true
      → (n : ℕ) × Ended laws host order fuel rx_clock tail n
          (waits
            ++ map
                (received_at rx_clock tail)
                (numbered host (next_sn last) (packets_of messages ++ packet ∷ [])))
          (runs
            (conversation laws.timeout rx_clock tail now
              (length before)
              (length acked)
              messages
              (λ now' s a.
                exchange laws.timeout rx_clock tail now' s a
                  (record { packet = packet; data_losses = losses; ack_losses = 0 })
                  (λ now'' s' a'. [])))
            (pair
              (waiting last b [] none false before)
              (holding (next_sn last) rb waits [] none false acked)))
  conversation-Ended [] packet losses last now b rb before acked waits v w few all valid final = (
    next_sn last,
    exchange-Ended laws host order fuel rx_clock tail last now losses packet b rb before acked waits
        v w valid final,
  )
  conversation-Ended (m ∷ messages) packet losses last now b rb before acked waits v w few all valid
        final =
      let n = next_sn last in
      let p = update_sequence_number host n m.packet in
      let next = λ (now' s a : ℕ).
        conversation laws.timeout rx_clock tail now' s a messages (λ now'' s' a'.
          exchange laws.timeout rx_clock tail now'' s' a'
            (record { packet = packet; data_losses = losses; ack_losses = 0 })
            (λ now''' s'' a''. [])) in
      let (now', b', rb', before', acked', e, v', w') =
        exchange-Exchanged laws host order fuel rx_clock tail last now m b rb before acked waits
          next v w (omega arith) all.0.0 all.0.1 in
      let (n', ended) =
        conversation-Ended messages packet losses n now' b' rb' before' acked'
          (waits ++ received_at rx_clock tail p ∷ []) v' w' (omega arith) all.1 valid final in
      (
        n',
        Ended-before n' waits
            (map (received_at rx_clock tail)
              (numbered host (next_sn n) (packets_of messages ++ packet ∷ [])))
            (received_at rx_clock tail p) e ended,
      )

map-received :
    (rx_clock : ℕ → ℕ) (tail : List ℕ) (ps : List DataPacket)
    → map (λ r. r.packet) (map (received_at rx_clock tail) ps) ≡ map (followed_by tail) ps
map-received rx_clock tail [] = refl
map-received rx_clock tail (p ∷ ps) =
    ap (λ l. followed_by tail p ∷ l) (map-received rx_clock tail ps)

-- `messages` and then `last`, of which so many copies are lost: the run from a new transmitter and a
-- new receiver returns, copies of all the packets, with their numbers, wait for the application, in
-- order, and both sides know that the transmission has ended.
abbrev pub Completes :
    {T R : Type 0}
    → Host
    → RtBuffer T
    → RsBuffer R
    → ℕ
    → List Event
    → List ℕ
    → List DataPacket
    → T
    → R
    → Type 0
Completes {T} {R} host rt rs fuel events tail packets t r =
    (y : System T R) × (run host rt rs fuel events
        (record { transmitter = Transmitter.new t; receiver = Receiver.new r })
      ≡ returns y)
    × (output y.receiver ≡ map (followed_by tail) (numbered host first_sequence_number packets))
    × (y.transmitter.end_of_tx_acked ≡ true)
    × (y.receiver.acked_end_of_tx ≡ true)

pub whole_conversation-Completes :
    {T R : Type 0} (laws : SerialPair T R) (host : Host) (order : IsNetworkOrder host) (fuel : ℕ)
    (rx_clock : ℕ → ℕ) (tail : List ℕ) (messages : List Message) (last : DataPacket) (losses : ℕ)
    (t : T) (r : R)
    → laws.Idle first_sequence_number t
    → laws.Expecting first_sequence_number r
    → length messages < u16_mod
    → All (λ m. IsConsistent m.packet × (is_end_of_tx m.packet ≡ false)) messages
    → IsConsistent last
    → is_end_of_tx last ≡ true
    → Completes host laws.rt laws.rs
        (suc (suc fuel))
        (whole_conversation laws.timeout rx_clock tail messages last losses)
        tail
        (packets_of messages ++ last ∷ [])
        t
        r
unfolding Transmitter.new Receiver.new InputBuffer.new
whole_conversation-Completes laws host order fuel rx_clock tail messages last losses t r v w few all
      valid final =
    let (n, (b, rb, before, acked, e)) =
      conversation-Ended laws host order fuel rx_clock tail messages last losses
        (previous_sn first_sequence_number) 0 t r [] [] [] v w (omega arith) all valid final in
    (
      _,
      e,
      map-received rx_clock tail
          (numbered host first_sequence_number (packets_of messages ++ last ∷ [])),
      refl,
      refl,
    )
