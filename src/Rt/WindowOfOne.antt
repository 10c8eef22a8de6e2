-- ===== src/Rt/WindowOfOne.antt =====
-- A Go-Back-N buffer with a window of one packet, beside a Stop-and-Wait buffer.
use arq_benchmark.Base.{
  ℕ, ◌+◌, ◌-◌, ◌%◌, ◌≡◌, ◌≢◌, refl, sym, ap, Bool, true, false, not, List, [], ◌∷◌, Option, none,
  some, Bool-cases, inl, inr, ◌==◌, ==_iff, ==_refl, leb, not_leb→lt, le→leb, lt→not_leb, arith,
  if◌then◌else◌, Outcome, returns, throws, ◌>>=◌,
}
use arq_benchmark.Common.Host.{size_mod}
use arq_benchmark.Common.SequenceNumber.{next_sn}
use arq_benchmark.Common.DataPacket.{get_read_span}
use arq_benchmark.Common.TxBufferObject.{
  TransmitBufferObject, is_packet_timed_out, update_last_tx_time,
}
use arq_benchmark.Rt.Buffer.{RtBuffer}
use arq_benchmark.Rt.GoBackN
use arq_benchmark.Rt.GoBackN.{GoBackN, Readings, add_scan, try_scan, ack_loop, ack_round, advance}
use arq_benchmark.Rt.StopAndWait
use arq_benchmark.Rt.StopAndWait.{StopAndWait}
use arq_benchmark.Rt.Instances.{go_back_n, stop_and_wait}

-- The calls that change a buffer.
pub data Call : Type 0 where
  adds : TransmitBufferObject → Call
  tries : Readings → Call
  acknowledges : ℕ → Call

module _ {B : Type 0} (ops : RtBuffer B) where
  abbrev pub call : Call → B → Outcome (Option (List ℕ) × B)
  call (adds packet) b = ops.add_packet packet b >>= λ b'. returns (none, b')
  call (tries clock) b = ops.try_get_packet_span clock b
  call (acknowledges sn) b = ops.acknowledge_packet sn b >>= λ b'. returns (none, b')

  -- What can be seen of a buffer: the bytes that each call gives out, and after it whether the buffer
  -- is ready for a packet and whether packets are pending.
  abbrev pub trace : List Call → B → Outcome (List (Option (List ℕ) × Bool × Bool))
  trace [] b = returns []
  trace (c ∷ calls) b = call c b >>= λ (given, b'). trace calls b' >>= λ rest.
      returns ((given, ops.ready_for_new_packet b', ops.packets_pending b') ∷ rest)

-- The packets that are added carry consecutive numbers.
abbrev pub AreNumbered : ℕ → List Call → Type 0
AreNumbered n [] = Unit
AreNumbered n (adds packet ∷ calls) =
    (packet.info.sequence_number ≡ n) × AreNumbered (next_sn n) calls
AreNumbered n (tries clock ∷ calls) = AreNumbered n calls
AreNumbered n (acknowledges sn ∷ calls) = AreNumbered n calls

module _ (timeout : ℕ) where
  abbrev saw : Option TransmitBufferObject → StopAndWait
  saw held = record { timeout_interval = timeout; retransmit_packet = held }

  -- The Go-Back-N buffer with the same packet; `n` is the number of the next packet.
  abbrev gbn : ℕ → Option TransmitBufferObject → GoBackN
  gbn n none = record {
    timeout_interval = timeout;
    window_size = 1;
    buffer = none ∷ [];
    start_idx = 0;
    next_to_ack = n;
    packets_in_buffer = 0;
  }
  gbn n (some p) = record {
    timeout_interval = timeout;
    window_size = 1;
    buffer = some p ∷ [];
    start_idx = 0;
    next_to_ack = p.info.sequence_number;
    packets_in_buffer = 1;
  }

  -- The number of the next packet is the one behind that of the packet that is held.
  abbrev Follows : ℕ → Option TransmitBufferObject → Type 0
  Follows n none = Unit {0}
  Follows n (some p) = n ≡ next_sn p.info.sequence_number

  gbn-add :
      (n : ℕ) (p : TransmitBufferObject)
      → p.info.sequence_number ≡ n
      → GoBackN.do_add_packet p (gbn n none) ≡ returns (gbn (next_sn n) (some p))
  unfolding GoBackN.do_add_packet add_scan
  gbn-add n p e = rw e refl

  gbn-add_full :
      (n : ℕ) (p held : TransmitBufferObject) → GoBackN.do_add_packet p (gbn n (some held)) ≡ throws
  unfolding GoBackN.do_add_packet add_scan
  gbn-add_full n p held = refl

  gbn-try :
      (clock : Readings) (n : ℕ) (p : TransmitBufferObject)
      → GoBackN.do_try_get_packet_span clock (gbn n (some p)) ≡ (
          if is_packet_timed_out timeout (clock.check 0) p
          then returns
              (some (get_read_span p.packet), gbn n (some (update_last_tx_time clock.stamp p)))
          else returns (none, gbn n (some p)))
  unfolding GoBackN.do_try_get_packet_span try_scan GoBackN.do_packets_pending update_last_tx_time
  gbn-try clock n p = elim (Bool-cases (is_packet_timed_out timeout (clock.check 0) p)) [
    | inl e ↦ rw (e, GoBackN.do_try_get_packet_span, try_scan) refl
    | inr e ↦ rw (e, GoBackN.do_try_get_packet_span, try_scan) refl
  ]

  -- The ACK for the packet that is held, and any other.
  gbn-acknowledge :
      (n : ℕ) (p : TransmitBufferObject)
      → n ≡ next_sn p.info.sequence_number
      → GoBackN.do_acknowledge_packet p.info.sequence_number (gbn n (some p)) ≡ returns (gbn n none)
  unfolding GoBackN.do_acknowledge_packet ack_loop ack_round advance GoBackN.do_packets_pending
  gbn-acknowledge n p e =
      let sn = p.info.sequence_number in
      let inside : leb (sn + 1) sn ≡ false = lt→not_leb (sn + 1) sn (omega arith) in
      let first : leb (sn + 0) sn ≡ true = le→leb (sn + 0) sn (omega arith) in
      let moved : leb sn sn ≡ true = le→leb sn sn (omega arith) in
      let start : (0 + (sn + 1 - sn)) % size_mod % 1 ≡ 0 = omega arith in
      rw (inside, first, moved, start, e, ◌>>=◌) refl

  gbn-acknowledge_other :
      (n sn : ℕ) (p : TransmitBufferObject)
      → sn ≢ p.info.sequence_number
      → GoBackN.do_acknowledge_packet sn (gbn n (some p)) ≡ returns (gbn n (some p))
  unfolding GoBackN.do_acknowledge_packet ack_loop ack_round advance GoBackN.do_packets_pending
  gbn-acknowledge_other n sn p ne = elim (Bool-cases (leb (p.info.sequence_number + 1) sn)) [
    | inl late ↦ rw late refl
    | inr early ↦
        let below = not_leb→lt _ _ early in
        let first : leb (p.info.sequence_number + 0) sn ≡ false =
          lt→not_leb (p.info.sequence_number + 0) sn (omega (arith, ne)) in
        let moved : leb p.info.sequence_number sn ≡ false =
          lt→not_leb p.info.sequence_number sn (omega (arith, ne)) in
        rw (early, first, moved, ◌>>=◌) refl
  ]

  gbn-acknowledge_nothing :
      (n sn : ℕ) → GoBackN.do_acknowledge_packet sn (gbn n none) ≡ returns (gbn n none)
  unfolding GoBackN.do_acknowledge_packet GoBackN.do_packets_pending
  gbn-acknowledge_nothing n sn = elim (Bool-cases (leb (n + 1) sn)) [
    | inl late ↦ rw late refl
    | inr early ↦ rw (early, not) refl
  ]

  trace-same :
      (calls : List Call) (n : ℕ) (held : Option TransmitBufferObject)
      → AreNumbered n calls
      → Follows n held
      → trace go_back_n calls (gbn n held) ≡ trace stop_and_wait calls (saw held)
  unfolding StopAndWait.do_add_packet StopAndWait.do_try_get_packet_span
      StopAndWait.do_acknowledge_packet StopAndWait.do_ready_for_new_packet
      StopAndWait.do_packets_pending GoBackN.do_ready_for_new_packet GoBackN.do_packets_pending
      update_last_tx_time get_read_span GoBackN.do_try_get_packet_span
  trace-same [] n held k f = refl
  trace-same (adds p ∷ calls) n none k f =
      rw (gbn-add n p k.0, trace-same calls (next_sn n) (some p) k.1 (ap next_sn (sym k.0)), ◌>>=◌)
        refl
  trace-same (adds p ∷ calls) n (some held) k f = rw (gbn-add_full n p held, ◌>>=◌) refl
  trace-same (tries clock ∷ calls) n none k f = rw (trace-same calls n none k f, ◌>>=◌) refl
  trace-same (tries clock ∷ calls) n (some p) k f =
      elim (Bool-cases (is_packet_timed_out timeout (clock.check 0) p)) [
        | inl e ↦
            rw
              (
                gbn-try clock n p,
                e,
                trace-same calls n (some (update_last_tx_time clock.stamp p)) k f,
                ◌>>=◌,
              )
              refl
        | inr e ↦ rw (gbn-try clock n p, e, trace-same calls n (some p) k f, ◌>>=◌) refl
      ]
  trace-same (acknowledges sn ∷ calls) n none k f =
      rw (gbn-acknowledge_nothing n sn, trace-same calls n none k f, ◌>>=◌) refl
  trace-same (acknowledges sn ∷ calls) n (some p) k f =
      elim (Bool-cases (sn == p.info.sequence_number)) [
        | inl e ↦
            let same : sn ≡ p.info.sequence_number = (==_iff _ _).0 e in
            rw
              (
                same,
                ==_refl p.info.sequence_number,
                gbn-acknowledge n p f,
                trace-same calls n none k tt,
                ◌>>=◌,
              )
              refl
        | inr e ↦
            rw
              (
                gbn-acknowledge_other n sn p (λ q. cc (e, (==_iff _ _).1 q)),
                e,
                trace-same calls n (some p) k f,
                ◌>>=◌,
              )
              refl
      ]

-- Whatever calls are made of them, as long as the packets that are added carry consecutive numbers: a
-- new Go-Back-N buffer with a window of one packet and a new Stop-and-Wait buffer with the same
-- timeout give out the same bytes, are ready for a packet and have packets pending at the same times,
-- and throw at the same call, if one does.
pub new-trace :
    (timeout first : ℕ) (calls : List Call)
    → AreNumbered first calls
    → trace go_back_n calls (GoBackN.new 1 timeout first)
      ≡ trace stop_and_wait calls (StopAndWait.new timeout)
unfolding GoBackN.new StopAndWait.new
new-trace timeout first calls k = trace-same timeout calls first none k tt
