-- ===== src/System/Prefix.antt =====
-- Packets that are received in the order in which they were submitted.
use arq_benchmark.Base.{
  ℕ, zero, suc, ◌+◌, ◌%◌, ◌<◌, ◌≤◌, ◌≡◌, refl, sym, ◌∙◌, ap, subst, List, [], ◌∷◌, ◌++◌, All,
  get_elem?, drop, length, some, arith,
}
use arq_benchmark.Common.Host.{Host, IsNetworkOrder, u16_mod}
use arq_benchmark.Common.SequenceNumber.{next_sn}
use arq_benchmark.Common.InOrder.{InOrder}
use arq_benchmark.Common.DataPacket.{DataPacket}
use arq_benchmark.Common.DataPacket.Consistent.{IsConsistent, update_sequence_number-IsConsistent}
use arq_benchmark.System.{numbered}

-- A packet as it is received: its header, and its bytes with any bytes behind them.
abbrev pub IsCopy : DataPacket → DataPacket → Type 0
IsCopy p q = (tail : List ℕ) × (q ≡ record p { bytes = p.bytes ++ tail })

-- The packets are copies of the first ones of the others, in order.
abbrev pub AreCopies : List DataPacket → List DataPacket → Type 0
AreCopies [] ps = Unit
AreCopies (q ∷ qs) [] = ⊥
AreCopies (q ∷ qs) (p ∷ ps) = IsCopy p q × AreCopies qs ps

-- A copy of one of the packets.
abbrev pub IsCopyOfOne : List DataPacket → DataPacket → Type 0
IsCopyOfOne ps q = (i : ℕ) × (p : DataPacket) × (get_elem? ps i ≡ some p) × IsCopy p q

InOrder-get_elem? :
    (first next : ℕ) (ps : List DataPacket) (i : ℕ) (p : DataPacket)
    → first < u16_mod
    → InOrder first ps next
    → get_elem? ps i ≡ some p
    → p.header.sequence_number ≡ (first + i) % u16_mod
InOrder-get_elem? first next [] i p lt o e = absurd (cc e)
InOrder-get_elem? first next (q ∷ ps) zero p lt o e =
    let same : q ≡ p = cc e in
    subst (λ x. x.header.sequence_number ≡ (first + 0) % u16_mod) same (omega (arith, o.0))
InOrder-get_elem? first next (q ∷ ps) (suc i) p lt o e =
    InOrder-get_elem? (next_sn first) next ps i p (omega arith) o.1 e ∙ omega arith

get_elem?-length :
    (ps : List DataPacket) (i : ℕ) (p : DataPacket) → get_elem? ps i ≡ some p → i < length ps
get_elem?-length [] i p e = absurd (cc e)
get_elem?-length (q ∷ ps) zero p e = omega arith
get_elem?-length (q ∷ ps) (suc i) p e = omega (arith, get_elem?-length ps i p e)

drop_at :
    (ps : List DataPacket) (i : ℕ) (p : DataPacket)
    → get_elem? ps i ≡ some p
    → drop i ps ≡ p ∷ drop (suc i) ps
drop_at [] i p e = absurd (cc e)
drop_at (q ∷ ps) zero p e = let same : q ≡ p = cc e in ap (λ x. x ∷ ps) same
drop_at (q ∷ ps) (suc i) p e = drop_at ps i p e

-- Copies that carry consecutive numbers, of packets whose numbers do not repeat.
copies_from :
    (first next last : ℕ) (ps qs : List DataPacket) (k : ℕ)
    → first < u16_mod
    → length ps < u16_mod
    → k ≤ length ps
    → InOrder first ps last
    → InOrder ((first + k) % u16_mod) qs next
    → All (IsCopyOfOne ps) qs
    → AreCopies qs (drop k ps)
copies_from first next last ps [] k lt few le o o' c = tt
copies_from first next last ps (q ∷ qs) k lt few le o o' c =
    let (i, p, e, (tail, copy)) = c.0 in
    let inside = get_elem?-length ps i p e in
    let number : p.header.sequence_number ≡ (first + i) % u16_mod =
      InOrder-get_elem? first last ps i p lt o e in
    let number' : p.header.sequence_number ≡ (first + k) % u16_mod =
      sym (ap (λ x. x.header.sequence_number) copy) ∙ o'.0 in
    let here : i ≡ k = same_index i k inside (sym number ∙ number') in
    let e' : get_elem? ps k ≡ some p = subst (λ j. get_elem? ps j ≡ some p) here e in
    subst (AreCopies (q ∷ qs)) (sym (drop_at ps k p e')) (
      (tail, copy),
      copies_from first next last ps qs (suc k) lt few (omega (arith, here, inside)) o
          (subst (λ n. InOrder n qs next) (omega arith) o'.1) c.1,
    )
  where
    same_index : (i k' : ℕ) → i < length ps → (first + i) % u16_mod ≡ (first + k) % u16_mod → i ≡ k
    same_index i k' inside e = omega arith

-- Copies in order, of fewer than 65536 packets in order, are copies of the first ones.
pub InOrder-AreCopies :
    (first next last : ℕ) (ps qs : List DataPacket)
    → first < u16_mod
    → length ps < u16_mod
    → InOrder first ps last
    → InOrder first qs next
    → All (IsCopyOfOne ps) qs
    → AreCopies qs ps
InOrder-AreCopies first next last ps qs lt few o o' c =
    copies_from first next last ps qs 0 lt few (omega arith) o
      (subst (λ n. InOrder n qs next) (omega arith) o') c

module _ (host : Host) (order : IsNetworkOrder host) where
  pub numbered-InOrder :
      (sn : ℕ) (ps : List DataPacket)
      → sn < u16_mod
      → All IsConsistent ps
      → ((last : ℕ) × InOrder sn (numbered host sn ps) last)
        × All IsConsistent (numbered host sn ps)
        × (length (numbered host sn ps) ≡ length ps)
  numbered-InOrder sn [] lt v = ((sn, refl), tt, refl)
  numbered-InOrder sn (p ∷ ps) lt v =
      let (kept, header, payload) = update_sequence_number-IsConsistent host order sn p lt v.0 in
      let ((last, o), rest, len) = numbered-InOrder (next_sn sn) ps (omega arith) v.1 in
      ((last, (ap (λ h. h.sequence_number) header, o)), (kept, rest), ap suc len)
