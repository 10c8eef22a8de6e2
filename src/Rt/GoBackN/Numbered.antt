-- ===== src/Rt/GoBackN/Numbered.antt =====
-- `do_acknowledgePacket` on packets with consecutive sequence numbers, of which the function assumes
-- that they do not wrap.
use arq_benchmark.Base.{
  ℕ, zero, suc, ◌+◌, ◌-◌, ◌%◌, ◌≤◌, ◌<◌, ◌≡◌, ◌⊎◌, inl, inr, sym, ap, ◌∙◌, subst, List, [], ◌∷◌,
  some, arith, length, dec_lt, get_elem?, drop, returns,
}
use arq_benchmark.Common.Host.{u16_mod}
use arq_benchmark.Common.SequenceNumber.{next_sn}
use arq_benchmark.Common.TxBufferObject.{TransmitBufferObject}
use arq_benchmark.Rt.GoBackN.{GoBackN, do_acknowledge_packet}
use arq_benchmark.Rt.GoBackN.Holds.{Holds}
use arq_benchmark.Rt.GoBackN.Acknowledge.{
  do_acknowledge_packet-counted, do_acknowledge_packet-ignored,
}

-- The packets carry consecutive numbers from this one on, which come back to 0 behind 65535.
abbrev pub IsNumbered : ℕ → List TransmitBufferObject → Type 0
IsNumbered first [] = Unit
IsNumbered first (p ∷ ps) = (p.info.sequence_number ≡ first) × IsNumbered (next_sn first) ps

IsNumbered-at :
    (first k : ℕ) (ps : List TransmitBufferObject) (p : TransmitBufferObject)
    → first < u16_mod
    → IsNumbered first ps
    → get_elem? ps k ≡ some p
    → (k < length ps)
      × (p.info.sequence_number ≡ (first + k) % u16_mod)
      × IsNumbered ((first + k + 1) % u16_mod) (drop (suc k) ps)
IsNumbered-at first k [] p small h e = absurd (cc e)
IsNumbered-at first zero (q ∷ ps) p small h e =
    let same : q ≡ p = cc e in
    (
      omega arith,
      ap (λ r. r.info.sequence_number) (sym same) ∙ h.0 ∙ omega arith,
      subst (λ n. IsNumbered n ps) (omega arith) h.1,
    )
IsNumbered-at first (suc k) (q ∷ ps) p small h e =
    let (within, number, rest) = IsNumbered-at (next_sn first) k ps p (omega arith) h.1 e in
    (
      omega arith,
      number ∙ omega arith,
      subst (λ n. IsNumbered n (drop (suc k) ps)) (omega arith) rest,
    )

-- The packets that the circular buffer holds carry consecutive numbers, from the next one to be
-- acknowledged on. An ACK for one of them takes it and all before it off the list of packets, and the
-- number behind it is the next to be acknowledged, if it is reached with no wrap behind 65535; an ACK
-- for a packet behind such a wrap changes nothing.
pub do_acknowledge_packet_refines :
    (b : GoBackN) (ps : List TransmitBufferObject) (k : ℕ) (p : TransmitBufferObject)
    → Holds b ps
    → IsNumbered b.next_to_ack ps
    → get_elem? ps k ≡ some p
    → let acked = p.info.sequence_number in
      ((b.next_to_ack + k < u16_mod)
        × ((b' : GoBackN) × (do_acknowledge_packet acked b ≡ returns b')
            × Holds b' (drop (suc k) ps)
            × IsNumbered b'.next_to_ack (drop (suc k) ps)
            × (b'.next_to_ack ≡ (b.next_to_ack + k + 1) % u16_mod)))
      ⊎ ((u16_mod ≤ b.next_to_ack + k) × (do_acknowledge_packet acked b ≡ returns b))
do_acknowledge_packet_refines b ps k p h numbers e =
    let (within, number, rest) = IsNumbered-at b.next_to_ack k ps p h.tracks.next_u16 numbers e in
    elim (dec_lt (b.next_to_ack + k) u16_mod) [
      | yes straight ↦
          let sn : p.info.sequence_number ≡ b.next_to_ack + k = number ∙ omega arith in
          let (b', returned, held, next) =
            do_acknowledge_packet-counted b ps (b.next_to_ack + k) h (omega arith) (omega arith) in
          let count : b.next_to_ack + k + 1 - b.next_to_ack ≡ suc k = omega arith in
          let next' : b'.next_to_ack ≡ (b.next_to_ack + k + 1) % u16_mod = next in
          inl (
            straight,
            (
              b',
              ap (λ n. do_acknowledge_packet n b) sn ∙ returned,
              subst (λ n. Holds b' (drop n ps)) count held,
              subst (λ n. IsNumbered n (drop (suc k) ps)) (sym next') rest,
              next',
            ),
          )
      | no wrapped ↦ inr (
        omega arith,
        do_acknowledge_packet-ignored b ps h.tracks p.info.sequence_number (
            inl (
              omega (
                arith, number, within, h.tracks.ring.fits, h.tracks.window_u16, h.tracks.next_u16,
              ))),
      )
    ]
