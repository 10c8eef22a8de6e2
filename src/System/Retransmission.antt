-- ===== src/System/Retransmission.antt =====
-- A Go-Back-N transmitter that sends its earliest packet again, and the receiver that gets it.
use arq_benchmark.Base.{
  ℕ, zero, suc, ◌+◌, ◌≡◌, refl, sym, ap, ◌∙◌, true, false, List, [], ◌∷◌, ◌++◌, some, length,
  get_elem?, get_elem?-append_length, inl, inr, arith, returns, ◌>>=◌,
}
use arq_benchmark.Common.Host.{Host, IsNetworkOrder}
use arq_benchmark.Common.DataPacket.{DataPacket, get_read_span}
use arq_benchmark.Common.DataPacket.Consistent.{IsConsistent, from_serial-get_read_span}
use arq_benchmark.Common.TxBufferObject.{TransmitBufferObject, is_packet_timed_out}
use arq_benchmark.Rt.GoBackN
use arq_benchmark.Rt.GoBackN.{Readings}
use arq_benchmark.Rt.GoBackN.Holds.{Tracks}
use arq_benchmark.Rt.GoBackN.Retransmit.{do_try_get_packet_span_refines, stamped}
use arq_benchmark.Rt.Instances as Rt
use arq_benchmark.Rs.GoBackN as RsGoBackN
use arq_benchmark.Rs.Instances as Rs
use arq_benchmark.Transmitter
use arq_benchmark.Transmitter.{Transmitter, transmit, attempt_packet_retransmission}
use arq_benchmark.Receiver
use arq_benchmark.Receiver.{receive_packet}
use arq_benchmark.Receiver.Round.{output, IsSynced}
use arq_benchmark.Receiver.Accepts.{resequencing_round-accepts}
use arq_benchmark.System.{System, transmits, arrives, step, run}

-- The earliest packet is sent again, if it is timed out.
resends_earliest :
    (clock : Readings) (b : GoBackN.GoBackN) (p : TransmitBufferObject)
    (ps : List TransmitBufferObject)
    → Tracks b (p ∷ ps)
    → is_packet_timed_out b.timeout_interval (clock.check 0) p ≡ true
    → (b' : GoBackN.GoBackN) × (GoBackN.do_try_get_packet_span clock b
        ≡ returns (some (get_read_span p.packet), b'))
resends_earliest clock b p ps h late = elim (do_try_get_packet_span_refines clock b (p ∷ ps) h) [
  | inl (never, e) ↦ absurd (cc (never 0, late))
  | inr (zero, q, same, hit, before, e, h') ↦
      let here : p ≡ q = cc same in
      (
        stamped clock b 0 q,
        e ∙ ap (λ t. returns (some (get_read_span t.packet), stamped clock b 0 q)) (sym here),
      )
  | inr (suc i, q, same, hit, before, e, h') ↦ absurd (cc (before 0 (omega arith), late))
]

transmit-resends :
    (clock : Readings) (t : Transmitter GoBackN.GoBackN) (p : TransmitBufferObject)
    (ps : List TransmitBufferObject)
    → Tracks t.retransmission_buffer (p ∷ ps)
    → is_packet_timed_out t.retransmission_buffer.timeout_interval (clock.check 0) p ≡ true
    → (t' : Transmitter GoBackN.GoBackN) × (transmit Rt.go_back_n clock t ≡ returns t')
      × (t'.sent ≡ t.sent ++ get_read_span p.packet ∷ [])
unfolding transmit attempt_packet_retransmission Transmitter.transmit_packet_data
transmit-resends clock t p ps h late =
    let (b', e) = resends_earliest clock t.retransmission_buffer p ps h late in
    (
      record t { retransmission_buffer = b'; sent = t.sent ++ get_read_span p.packet ∷ [] },
      rw (e, ◌>>=◌),
      refl,
    )

pub receives_copy :
    (host : Host) (order : IsNetworkOrder host) (p : DataPacket) (tail : List ℕ)
    → IsConsistent p
    → receive_packet host (some (length (get_read_span p))) (get_read_span p ++ tail)
      ≡ returns (some (record p { bytes = p.bytes ++ tail }))
unfolding receive_packet get_read_span
receives_copy host order p tail v =
    let some_bytes : length p.bytes ≡ suc (4 + p.header.length_) = v.size ∙ omega arith in
    rw (some_bytes, from_serial-get_read_span host order p tail v, ◌>>=◌)

-- With Go-Back-N, if the earliest packet that the transmitter holds is timed out and is the one that
-- the receiver expects, then one pass of the transmitting thread and the arrival of what it sent are enough:
-- both return, and the receiver's output is longer by that packet, with the bytes behind it in the
-- array. The receiver has not acknowledged the end of the transmission.
pub transmits-arrives :
    (host : Host) (fuel : ℕ) (x : System GoBackN.GoBackN RsGoBackN.GoBackN)
    (p : TransmitBufferObject) (ps : List TransmitBufferObject) (first : ℕ) (clock : Readings)
    (rx_clock : ℕ → ℕ) (tail : List ℕ)
    → IsNetworkOrder host
    → Tracks x.transmitter.retransmission_buffer (p ∷ ps)
    → IsConsistent p.packet
    → is_packet_timed_out x.transmitter.retransmission_buffer.timeout_interval (clock.check 0) p
      ≡ true
    → IsSynced first x.receiver
    → x.receiver.acked_end_of_tx ≡ false
    → p.packet.header.sequence_number ≡ x.receiver.output_buffer.next_sequence_number
    → (y : System GoBackN.GoBackN RsGoBackN.GoBackN) × (run host Rt.go_back_n Rs.go_back_n
          (suc (suc fuel))
          (transmits (Transmitter.transmits clock)
            ∷ arrives rx_clock (length x.transmitter.sent) tail
            ∷ [])
          x
        ≡ returns y)
      × (output y.receiver
          ≡ output x.receiver ++ record p.packet { bytes = p.packet.bytes ++ tail } ∷ [])
unfolding run step Transmitter.step Receiver.step
transmits-arrives host fuel x p ps first clock rx_clock tail order h v late synced going number =
    let (t', e, sent) = transmit-resends clock x.transmitter p ps h late in
    let there : get_elem? t'.sent (length x.transmitter.sent) ≡ some (get_read_span p.packet) =
      ap (λ l. get_elem? l (length x.transmitter.sent)) sent
      ∙ get_elem?-append_length x.transmitter.sent (get_read_span p.packet) [] in
    let (r', e', longer) =
      resequencing_round-accepts first host fuel rx_clock (some (length (get_read_span p.packet)))
        (get_read_span p.packet ++ tail) x.receiver
        (record p.packet { bytes = p.packet.bytes ++ tail }) synced going
        (receives_copy host order p.packet tail v) number in
    (record { transmitter = t'; receiver = r' }, rw (e, there, e', step, ◌>>=◌) refl, longer)
