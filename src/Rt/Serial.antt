-- ===== src/Rt/Serial.antt =====
-- Retransmission buffers that hold one packet at a time: what a client relies on that adds a packet
-- only when the one before is acknowledged.
use arq_benchmark.Base.{
  ℕ, zero, suc, ◌<◌, ◌≡◌, refl, sym, ap, ◌∙◌, true, List, [], ◌∷◌, none, some, arith, returns, inl,
  inr, lt→ltb, subst, ==_refl,
}
use arq_benchmark.Common.Host.{u16_mod}
use arq_benchmark.Common.SequenceNumber.{next_sn}
use arq_benchmark.Common.DataPacket.{get_read_span}
use arq_benchmark.Common.TxBufferObject.{
  TransmitBufferObject, is_packet_timed_out, update_last_tx_time,
}
use arq_benchmark.Rt.Buffer.{RtBuffer}
use arq_benchmark.Rt.GoBackN
use arq_benchmark.Rt.GoBackN.{GoBackN, Readings}
use arq_benchmark.Rt.GoBackN.Holds.{Holds, Tracks, new-Holds}
use arq_benchmark.Rt.GoBackN.Add.{with_packet, do_add_packet-room, with_packet-Tracks}
use arq_benchmark.Rt.GoBackN.Retransmit.{stamped, do_try_get_packet_span_refines}
use arq_benchmark.Rt.GoBackN.Acknowledge.{
  acknowledged, do_acknowledge_packet-inside, acknowledged-Tracks,
}
use arq_benchmark.Rt.StopAndWait
use arq_benchmark.Rt.StopAndWait.{StopAndWait}
use arq_benchmark.Rt.Instances.{go_back_n, stop_and_wait}

-- `Idle n b`: nothing is held, and packet `n` comes next. `Holding n p b`: `p`, with number `n`, is
-- held. A packet is given out again when it is timed out, and its own ACK takes it off.
pub record IsSerial {B : Type 0} (ops : RtBuffer B) (timeout : ℕ) (Idle : ℕ → B → Type 0)
    (Holding : ℕ → TransmitBufferObject → B → Type 0) : Type 0 where
  pub idle_ready : (n : ℕ) (b : B) → Idle n b → ops.ready_for_new_packet b ≡ true
  pub idle_try :
      (clock : Readings) (n : ℕ) (b : B)
      → Idle n b
      → ops.try_get_packet_span clock b ≡ returns (none, b)
  pub add :
      (n : ℕ) (p : TransmitBufferObject) (b : B)
      → Idle n b
      → p.info.sequence_number ≡ n
      → (b' : B) × (ops.add_packet p b ≡ returns b') × Holding n p b'
  pub holding_try :
      (clock : Readings) (n : ℕ) (p : TransmitBufferObject) (b : B)
      → Holding n p b
      → is_packet_timed_out timeout (clock.check 0) p ≡ true
      → (b' : B) × (ops.try_get_packet_span clock b ≡ returns (some (get_read_span p.packet), b'))
        × Holding n (update_last_tx_time clock.stamp p) b'
  pub acknowledge :
      (n : ℕ) (p : TransmitBufferObject) (b : B)
      → Holding n p b
      → (b' : B) × (ops.acknowledge_packet n b ≡ returns b') × Idle (next_sn n) b'

module _ (timeout : ℕ) where
  abbrev pub SawIdle : ℕ → StopAndWait → Type 0
  SawIdle n b = b ≡ record { timeout_interval = timeout; retransmit_packet = none }

  abbrev pub SawHolding : ℕ → TransmitBufferObject → StopAndWait → Type 0
  SawHolding n p b =
      (p.info.sequence_number ≡ n)
      × (b ≡ record { timeout_interval = timeout; retransmit_packet = some p })

  pub stop_and_wait-IsSerial : IsSerial stop_and_wait timeout SawIdle SawHolding
  unfolding StopAndWait.do_add_packet StopAndWait.do_try_get_packet_span
      StopAndWait.do_ready_for_new_packet StopAndWait.do_acknowledge_packet update_last_tx_time
      get_read_span
  stop_and_wait-IsSerial = record {
    idle_ready = λ n b e. rw e refl;
    idle_try = λ clock n b e. rw e refl;
    add = λ n p b e sn. (_, rw e refl, (sn, refl));
    holding_try = λ clock n p b h late. (_, rw (h.1, late) refl, (h.0, refl));
    acknowledge = λ n p b h. (_, rw (h.1, h.0, ==_refl n) refl, refl);
  }

  -- The buffer holds these packets, and the number of the earliest, or of the next, is `n`.
  pub record RingAt (n : ℕ) (ps : List TransmitBufferObject) (b : GoBackN) : Type 0 where
    pub holds : Holds b ps
    pub next : b.next_to_ack ≡ n
    pub interval : b.timeout_interval ≡ timeout

  abbrev pub RingIdle : ℕ → GoBackN → Type 0
  RingIdle n b = RingAt n [] b

  abbrev pub RingHolding : ℕ → TransmitBufferObject → GoBackN → Type 0
  RingHolding n p b = RingAt n (p ∷ []) b

  ring_ready : (n : ℕ) (b : GoBackN) → RingIdle n b → GoBackN.do_ready_for_new_packet b ≡ true
  unfolding GoBackN.do_ready_for_new_packet
  ring_ready n b h =
      lt→ltb b.packets_in_buffer b.window_size
        (omega (arith, h.holds.counted, h.holds.tracks.ring.start_in))

  RingIdle-try :
      (clock : Readings) (n : ℕ) (b : GoBackN)
      → RingIdle n b
      → GoBackN.do_try_get_packet_span clock b ≡ returns (none, b)
  RingIdle-try clock n b h = elim (do_try_get_packet_span_refines clock b [] h.holds.tracks) [
    | inl (nothing, e) ↦ e
    | inr (i, p, there, hit, before, e, t) ↦ absurd (cc there)
  ]

  ring_add :
      (n : ℕ) (p : TransmitBufferObject) (b : GoBackN)
      → RingIdle n b
      → (b' : GoBackN) × (GoBackN.do_add_packet p b ≡ returns b') × RingHolding n p b'
  ring_add n p b h =
      let room : 0 < b.window_size = omega (arith, h.holds.tracks.ring.start_in) in
      (
        with_packet b p 0,
        do_add_packet-room p b [] h.holds.tracks room,
        record {
          holds = record {
            tracks =
                with_packet-Tracks p b [] h.holds.tracks room
                  (omega (arith, h.holds.counted, h.holds.tracks.window_u16));
            counted = omega (arith, h.holds.counted);
          };
          next = h.next;
          interval = h.interval;
        },
      )

  ring_try :
      (clock : Readings) (n : ℕ) (p : TransmitBufferObject) (b : GoBackN)
      → RingHolding n p b
      → is_packet_timed_out timeout (clock.check 0) p ≡ true
      → (b' : GoBackN) × (GoBackN.do_try_get_packet_span clock b
          ≡ returns (some (get_read_span p.packet), b'))
        × RingHolding n (update_last_tx_time clock.stamp p) b'
  ring_try clock n p b h late =
      elim (do_try_get_packet_span_refines clock b (p ∷ []) h.holds.tracks) [
        | inl (never, e) ↦ absurd (cc (never 0, late, h.interval))
        | inr (zero, q, same, hit, before, e, t) ↦
            let here : p ≡ q = cc same in
            (
              stamped clock b 0 q,
              e ∙ ap (λ x. returns (some (get_read_span x.packet), stamped clock b 0 q)) (sym here),
              record {
                holds = record {
                  tracks =
                      subst
                        (λ x. Tracks (stamped clock b 0 q) (update_last_tx_time clock.stamp x ∷ []))
                        (sym here) t;
                  counted = h.holds.counted;
                };
                next = h.next;
                interval = h.interval;
              },
            )
        | inr (suc i, q, there, hit, before, e, t) ↦ absurd (cc there)
      ]

  ring_acknowledge :
      (n : ℕ) (p : TransmitBufferObject) (b : GoBackN)
      → RingHolding n p b
      → (b' : GoBackN) × (GoBackN.do_acknowledge_packet n b ≡ returns b') × RingIdle (next_sn n) b'
  ring_acknowledge n p b h =
      let t = h.holds.tracks in
      (
        acknowledged b (p ∷ []) t n 1,
        do_acknowledge_packet-inside b (p ∷ []) t n 1 (omega (arith, h.next)) (omega arith)
            t.ring.fits (omega (arith, h.holds.counted)),
        record {
          holds = record {
            tracks = acknowledged-Tracks b (p ∷ []) t n 1 t.ring.fits;
            counted = omega (arith, h.holds.counted, t.window_u16);
          };
          next = refl;
          interval = h.interval;
        },
      )

  pub go_back_n-IsSerial : IsSerial go_back_n timeout RingIdle RingHolding
  go_back_n-IsSerial = record {
    idle_ready = ring_ready;
    idle_try = RingIdle-try;
    add = λ n p b h sn. ring_add n p b h;
    holding_try = ring_try;
    acknowledge = ring_acknowledge;
  }

  pub new-RingAt :
      (window first : ℕ)
      → 0 < window
      → window < u16_mod
      → first < u16_mod
      → RingIdle first (GoBackN.new window timeout first)
  unfolding GoBackN.new
  new-RingAt window first pos small h = record {
    holds = new-Holds window timeout first pos small h;
    next = refl;
    interval = refl;
  }
