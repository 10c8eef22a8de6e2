-- ===== src/System/Conversation/Sending.antt =====
-- What the transmitter does in an exchange: it sends a packet until a copy arrives, and takes the
-- ACK.
use arq_benchmark.Base.{
  ℕ, zero, suc, ◌+◌, ◌-◌, ◌/◌, ◌%◌, ◌<◌, ◌≡◌, refl, ap, ◌∙◌, true, false, List, [], ◌∷◌, ◌++◌,
  Option, none, some, arith, returns, ◌>>=◌, length, length-append, get_elem?,
  get_elem?-append_length, lt→ltb, replicate, Outcome,
}
use arq_benchmark.Common.Host.{Host, IsNetworkOrder, u16_mod, byte_mod}
use arq_benchmark.Common.ControlPacket
use arq_benchmark.Common.SequenceNumber.{
  next_sn, wire_u16, serialise_seq_num_wire, deserialise_seq_num, deserialise_seq_num_wire,
}
use arq_benchmark.Common.DataPacket.{DataPacket, get_read_span, update_sequence_number}
use arq_benchmark.Common.DataPacket
use arq_benchmark.Common.DataPacket.Consistent.{IsConsistent}
use arq_benchmark.Common.TxBufferObject.{is_packet_timed_out, update_last_tx_time, is_end_of_tx}
use arq_benchmark.Transmitter
use arq_benchmark.Transmitter.{Transmitter, process_ack}
use arq_benchmark.Transmitter.Serial.{
  waiting, ending, transmit-send_packet, transmit-again, ack_thread_round-pushes,
}
use arq_benchmark.Receiver.{Receiver}
use arq_benchmark.Receiver.Serial.{ack_of}
use arq_benchmark.System.{System, Event, transmits, ack_arrives, step, run}
use arq_benchmark.System.Conversation.{readings_at, pause, transmits_at, resends}
use arq_benchmark.System.Conversation.Pair.{SerialPair, pair, sent_at, run-returns}

timed_out_after :
    (timeout first now n : ℕ) (packet : DataPacket)
    → is_packet_timed_out timeout (now + pause timeout) (sent_at first now n packet) ≡ true
unfolding is_packet_timed_out
timed_out_after timeout first now n packet =
    lt→ltb timeout ((now + pause timeout - now) / 1000) (omega arith)

-- The bytes of an ACK are read as its number.
ack_of-read :
    (host : Host) (order : IsNetworkOrder host) (n : ℕ) (tail : List ℕ)
    → n < u16_mod
    → (ack_of host n ≡ wire_u16 n)
      × (deserialise_seq_num host 0 (ack_of host n ++ tail) ≡ (true, n))
unfolding ControlPacket.serialise
ack_of-read host order n tail small =
    let wire : ack_of host n ≡ wire_u16 n =
      ap (λ x. x.1) (serialise_seq_num_wire host order n (replicate 2 0) small (omega arith)) in
    (
      wire,
      ap (λ l. deserialise_seq_num host 0 (l ++ tail)) wire
          ∙ deserialise_seq_num_wire host order 0 (n / byte_mod) (n % byte_mod) tail (omega arith)
              (omega arith)
          ∙ ap (λ m. (true, m)) (omega arith),
    )

module _ {T R : Type 0} (laws : SerialPair T R) (host : Host) (order : IsNetworkOrder host)
    (fuel : ℕ) (rx_clock : ℕ → ℕ) (tail : List ℕ) where
  abbrev runs : List Event → System T R → Outcome (System T R)
  runs events x = run host laws.rt laws.rs (suc (suc fuel)) events x

  -- A packet with its number, and what was sent before it.
  module _ (n : ℕ) (packet : DataPacket) (valid : IsConsistent packet)
      (sn : packet.header.sequence_number ≡ n) (small : n < u16_mod) (first : ℕ) where
    pub again :
        (now last : ℕ) (b : T) (eot : Option ℕ) (sent : List (List ℕ)) (r : Receiver R)
        (events : List Event)
        → laws.Holding n (sent_at first now n packet) b
        → (b' : T) × (runs
              (transmits_at (now + pause laws.timeout) ∷ events)
              (pair (waiting last b [] eot false sent) r)
            ≡ runs events (pair (waiting last b' [] eot false (sent ++ packet.bytes ∷ [])) r))
          × laws.Holding n (sent_at first (now + pause laws.timeout) n packet) b'
    unfolding step Transmitter.step update_last_tx_time get_read_span
    again now last b eot sent r events h =
        let (b', e, h') =
          transmit-again laws.rt laws.timeout laws.Idle laws.Holding laws.rt_laws host
            (readings_at (now + pause laws.timeout)) last n b eot sent (sent_at first now n packet)
            h (timed_out_after laws.timeout first now n packet) in
        (
          b',
          run-returns laws host fuel (transmits_at (now + pause laws.timeout)) events
              (pair (waiting last b [] eot false sent) r)
              (pair (waiting last b' [] eot false (sent ++ packet.bytes ∷ [])) r)
              (rw (e, ◌>>=◌) refl),
          h',
        )

    -- However many copies are lost, the packet is the latest array, and is held.
    pub resends-Holding :
        (losses now last : ℕ) (b : T) (eot : Option ℕ) (before : List (List ℕ)) (r : Receiver R)
        (next : ℕ → ℕ → List Event)
        → laws.Holding n (sent_at first now n packet) b
        → (now' : ℕ) × (b' : T) × (before' : List (List ℕ)) × (runs
              (resends laws.timeout rx_clock tail now (length before) losses next)
              (pair (waiting last b [] eot false (before ++ packet.bytes ∷ [])) r)
            ≡ runs
                (next now' (length before'))
                (pair (waiting last b' [] eot false (before' ++ packet.bytes ∷ [])) r))
          × laws.Holding n (sent_at first now' n packet) b'
    resends-Holding zero now last b eot before r next h = (now, b, before, refl, h)
    resends-Holding (suc losses) now last b eot before r next h =
        let longer = before ++ packet.bytes ∷ [] in
        let count : suc (length before) ≡ length longer =
          omega (arith, length-append before (packet.bytes ∷ [])) in
        let (b', e, h') = again now last b eot longer r _ h in
        let (now'', b'', before'', e'', h'') =
          resends-Holding losses (now + pause laws.timeout) last b' eot longer r next h' in
        (
          now'',
          b'',
          before'',
          e
              ∙ ap
                  (λ s.
                    runs
                      (resends laws.timeout rx_clock tail (now + pause laws.timeout) s losses next)
                      (pair (waiting last b' [] eot false (longer ++ packet.bytes ∷ [])) r))
                  count
              ∙ e'',
          h'',
        )

  -- The latest ACK arrives, and is processed.
  pub ack_arrives-processes :
      (last n : ℕ) (b : T) (eot : Option ℕ) (sent acked : List (List ℕ)) (r : Receiver R)
      (t' : Transmitter T) (events : List Event)
      → n < u16_mod
      → r.sent ≡ acked ++ ack_of host n ∷ []
      → process_ack laws.rt (waiting last b (n ∷ []) eot false sent) ≡ returns (true, t')
      → runs
          (ack_arrives (length acked) tail ∷ transmits Transmitter.processes ∷ events)
          (pair (waiting last b [] eot false sent) r)
        ≡ runs events (pair t' r)
  unfolding step Transmitter.step
  ack_arrives-processes last n b eot sent acked r t' events small answer frees =
      let there : get_elem? r.sent (length acked) ≡ some (ack_of host n) =
        ap (λ l. get_elem? l (length acked)) answer
        ∙ get_elem?-append_length acked (ack_of host n) [] in
      let (wire, reads) = ack_of-read host order n tail small in
      let two : length (ack_of host n) ≡ suc 1 = ap length wire in
      let t = waiting last b [] eot false sent in
      let t'' = waiting last b (n ∷ []) eot false sent in
      let pushes : Transmitter.ack_thread_round host (some (length (ack_of host n)))
            (ack_of host n ++ tail) t
          ≡ t'' =
        ap (λ m. Transmitter.ack_thread_round host (some m) (ack_of host n ++ tail) t) two
        ∙ ack_thread_round-pushes host last n 1 b eot sent (ack_of host n ++ tail) reads in
      run-returns laws host fuel (ack_arrives (length acked) tail)
        (transmits Transmitter.processes ∷ events) (pair t r) (pair t'' r)
        (rw (there, step, pushes, ◌>>=◌) refl)
      ∙ run-returns laws host fuel (transmits Transmitter.processes) events (pair t'' r) (pair t' r)
          (rw (frees, ◌>>=◌) refl)

  -- A packet is submitted, and sent.
  pub sends-transmits :
      (now last : ℕ) (b : T) (sent : List (List ℕ)) (r : Receiver R) (packet : DataPacket)
      (events : List Event)
      → laws.Idle (next_sn last) b
      → let p = update_sequence_number host (next_sn last) packet in
        (b' : T) × (runs
            (transmits (Transmitter.sends now packet) ∷ transmits_at now ∷ events)
            (pair (waiting last b [] none false sent) r)
          ≡ runs events (
              pair
                (waiting
                  (next_sn last)
                  b'
                  []
                  (ending (DataPacket.is_end_of_tx p) (next_sn last))
                  false
                  (sent ++ p.bytes ∷ []))
                r))
        × laws.Holding (next_sn last) (sent_at now now (next_sn last) p) b'
  unfolding step Transmitter.step is_end_of_tx get_read_span
  sends-transmits now last b sent r packet events v =
      let p = update_sequence_number host (next_sn last) packet in
      let (b', e, h) =
        transmit-send_packet laws.rt laws.timeout laws.Idle laws.Holding laws.rt_laws host
          (readings_at now) now last b sent packet v in
      let t = Transmitter.send_packet host now packet (waiting last b [] none false sent) in
      (
        b',
        run-returns laws host fuel (transmits (Transmitter.sends now packet))
              (transmits_at now ∷ events) (pair (waiting last b [] none false sent) r) (pair t r)
              refl
            ∙ run-returns laws host fuel (transmits_at now) events (pair t r)
                (pair
                  (waiting (next_sn last) b' [] (ending (DataPacket.is_end_of_tx p) (next_sn last))
                    false (sent ++ p.bytes ∷ []))
                  r)
                (rw (e, ◌>>=◌) refl),
        h,
      )
