-- ===== src/Rs/SelectiveRepeat/Order.antt =====
-- The order in which a Selective Repeat resequencing buffer gives packets out.
use arq_benchmark.Base.{
  ℕ, zero, suc, ◌+◌, ◌-◌, ◌%◌, ◌≤◌, ◌<◌, ◌≡◌, refl, ap, ◌∙◌, subst, true, List, [], ◌∷◌, ◌++◌,
  Option, none, some, arith, length, get_elem?, set, drop, replicate, returns, lt→ltb, dec_lt,
  Option-cases, get_elem?_in, inl, inr,
}
use arq_benchmark.Common.Host.{u16_mod}
use arq_benchmark.Common.SequenceNumber.{next_sn}
use arq_benchmark.Common.InOrder.{InOrder, InOrder-append}
use arq_benchmark.Common.DataPacket.{DataPacket}
use arq_benchmark.Rs.SelectiveRepeat.{SelectiveRepeat, new, do_add_packet}
use arq_benchmark.Rs.SelectiveRepeat.Add.{
  do_add_packet-accepts, do_add_packet-rejects, do_add_packet-duplicate,
}
use arq_benchmark.Rs.SelectiveRepeat.Update.{Updated}
use arq_benchmark.Rs.SelectiveRepeat.Window.{
  count, run_of, HasWindow, new-HasWindow, slide, count-set, run_of-le-count,
}

-- The packets that a window holds carry the numbers of their slots, from `n` on.
abbrev pub Numbered : ℕ → List (Option DataPacket) → Type 0
Numbered n [] = Unit {0}
Numbered n (none ∷ slots) = Numbered (suc n) slots
Numbered n (some p ∷ slots) =
    (p.header.sequence_number ≡ n) × (n < u16_mod) × Numbered (suc n) slots

Numbered-set :
    (n i : ℕ) (slots : List (Option DataPacket)) (p : DataPacket)
    → Numbered n slots
    → get_elem? slots i ≡ some none
    → p.header.sequence_number ≡ n + i
    → n + i < u16_mod
    → Numbered n (set slots i (some p))
Numbered-set n i [] p v e sn lt = tt
Numbered-set n zero (none ∷ slots) p v e sn lt = (omega arith, omega arith, v)
Numbered-set n (suc i) (none ∷ slots) p v e sn lt =
    Numbered-set (suc n) i slots p v e (omega arith) (omega arith)
Numbered-set n zero (some q ∷ slots) p v e sn lt = cc
Numbered-set n (suc i) (some q ∷ slots) p v e sn lt =
    (v.0, v.1, Numbered-set (suc n) i slots p v.2 e (omega arith) (omega arith))

-- No packet carries a number beyond 65535.
run_of_beyond :
    (n : ℕ) (slots : List (Option DataPacket)) → Numbered n slots → u16_mod ≤ n → run_of slots ≡ []
run_of_beyond n [] v le = refl
run_of_beyond n (none ∷ slots) v le = refl
run_of_beyond n (some p ∷ slots) v le = absurd (omega arith)

-- So such a window may be numbered anew.
Numbered-beyond :
    (n m : ℕ) (slots : List (Option DataPacket)) → Numbered n slots → u16_mod ≤ n → Numbered m slots
Numbered-beyond n m [] v le = tt
Numbered-beyond n m (none ∷ slots) v le = Numbered-beyond (suc n) (suc m) slots v (omega arith)
Numbered-beyond n m (some p ∷ slots) v le = absurd (omega arith)

Numbered-drop :
    (n k : ℕ) (slots : List (Option DataPacket))
    → Numbered n slots
    → Numbered (n + k) (drop k slots)
Numbered-drop n zero slots v = subst (λ m. Numbered m slots) (omega arith) v
Numbered-drop n (suc k) [] v = tt
Numbered-drop n (suc k) (none ∷ slots) v =
    subst (λ m. Numbered m (drop k slots)) (omega arith) (Numbered-drop (suc n) k slots v)
Numbered-drop n (suc k) (some p ∷ slots) v =
    subst (λ m. Numbered m (drop k slots)) (omega arith) (Numbered-drop (suc n) k slots v.2)

Numbered-replicate : (n k : ℕ) → Numbered n (replicate k none)
Numbered-replicate n zero = tt
Numbered-replicate n (suc k) = Numbered-replicate (suc n) k

Numbered-append_free :
    (n k : ℕ) (slots : List (Option DataPacket))
    → Numbered n slots
    → Numbered n (slots ++ replicate k none)
Numbered-append_free n k [] v = Numbered-replicate n k
Numbered-append_free n k (none ∷ slots) v = Numbered-append_free (suc n) k slots v
Numbered-append_free n k (some p ∷ slots) v = (v.0, v.1, Numbered-append_free (suc n) k slots v.2)

-- The run ends at the last number at the latest.
run_of_bound :
    (n : ℕ) (slots : List (Option DataPacket))
    → Numbered n slots
    → n < u16_mod
    → n + length (run_of slots) ≤ u16_mod
run_of_bound n [] v lt = omega arith
run_of_bound n (none ∷ slots) v lt = omega arith
run_of_bound n (some p ∷ slots) v lt = elim (dec_lt (suc n) u16_mod) [
  | yes more ↦ omega (arith, run_of_bound (suc n) slots v.2 more)
  | no last ↦ omega (arith, ap length (run_of_beyond (suc n) slots v.2 (omega arith)))
]

-- The run carries consecutive numbers.
run_of-InOrder :
    (n : ℕ) (slots : List (Option DataPacket))
    → Numbered n slots
    → n < u16_mod
    → InOrder n (run_of slots) ((n + length (run_of slots)) % u16_mod)
run_of-InOrder n [] v lt = omega arith
run_of-InOrder n (none ∷ slots) v lt = omega arith
run_of-InOrder n (some p ∷ slots) v lt =
    (v.0, rest (dec_lt (suc n) u16_mod) (run_of-InOrder (suc n) slots v.2))
  where
    rest :
        Dec (suc n < u16_mod)
        → (suc n < u16_mod
            → InOrder (suc n) (run_of slots) ((suc n + length (run_of slots)) % u16_mod))
        → InOrder (next_sn n) (run_of slots) ((n + suc (length (run_of slots))) % u16_mod)
    rest (yes more) ih =
        let first : suc n ≡ next_sn n = omega arith in
        let next : (suc n + length (run_of slots)) % u16_mod
            ≡ (n + suc (length (run_of slots))) % u16_mod =
          ap (λ m. m % u16_mod) (omega arith) in
        subst (λ m. InOrder m (run_of slots) ((n + suc (length (run_of slots))) % u16_mod)) first
          (subst (λ m. InOrder (suc n) (run_of slots) m) next (ih more))
    rest (no last) ih =
        let done : run_of slots ≡ [] = run_of_beyond (suc n) slots v.2 (omega arith) in
        rw done (omega arith)

-- The slots that are left are numbered from the new earliest number on.
slide-Numbered :
    (n : ℕ) (slots : List (Option DataPacket))
    → Numbered n slots
    → n < u16_mod
    → Numbered ((n + length (run_of slots)) % u16_mod) (slide (length (run_of slots)) slots)
slide-Numbered n slots v lt =
    let k = length (run_of slots) in
    Numbered-append_free ((n + k) % u16_mod) k (drop k slots) (kept (dec_lt (n + k) u16_mod))
  where
    kept :
        Dec (n + length (run_of slots) < u16_mod)
        → Numbered ((n + length (run_of slots)) % u16_mod) (drop (length (run_of slots)) slots)
    kept (yes small) =
        let same : n + length (run_of slots) ≡ (n + length (run_of slots)) % u16_mod =
          omega arith in
        subst (λ m. Numbered m (drop (length (run_of slots)) slots)) same
          (Numbered-drop n (length (run_of slots)) slots v)
    kept (no wrapped) =
        Numbered-beyond (n + length (run_of slots)) _ (drop (length (run_of slots)) slots)
          (Numbered-drop n (length (run_of slots)) slots v) (omega arith)

-- A buffer whose window holds the given slots, numbered from the earliest expected number on, and
-- whose shadow buffer holds the packets from `first` up to that number, in order.
pub record IsOrdered (b : SelectiveRepeat) (slots : List (Option DataPacket)) (first : ℕ)
    : Type 0 where
  pub window : HasWindow b slots
  pub numbered : Numbered b.earliest_expected slots
  pub in_order : InOrder first b.shadow_buffer.queue b.earliest_expected

-- The numbers move with the window, unless it was filled.
Updated-IsOrdered :
    (b b' : SelectiveRepeat) (slots : List (Option DataPacket)) (first : ℕ)
    → Numbered b.earliest_expected slots
    → b.earliest_expected < u16_mod
    → InOrder first b.shadow_buffer.queue b.earliest_expected
    → length (run_of slots) < b.window_size
    → Updated b slots b'
    → IsOrdered b' (slide (length (run_of slots)) slots) first
Updated-IsOrdered b b' slots first v lt o open_slot u =
    let moves : b'.earliest_expected ≡ (b.earliest_expected + length (run_of slots)) % u16_mod =
      u.expects ∙ rw (lt→ltb (length (run_of slots)) b.window_size open_slot) in
    record {
      window = u.window;
      numbered = rw moves (slide-Numbered b.earliest_expected slots v lt);
      in_order =
          rw (moves, u.forwarded)
            (InOrder-append first b.earliest_expected _ b.shadow_buffer.queue (run_of slots) o
              (run_of-InOrder b.earliest_expected slots v lt));
    }

-- As long as a slot of the window stays free, a packet with any number leaves a buffer that is
-- ordered: it is refused, or dropped as a duplicate, or put into its slot, and the packets that go to
-- the shadow buffer carry the numbers that follow those already there, without a gap or a repeat.
pub do_add_packet-IsOrdered :
    (b : SelectiveRepeat) (slots : List (Option DataPacket)) (first : ℕ) (packet : DataPacket)
    → IsOrdered b slots first
    → packet.header.sequence_number < u16_mod
    → count slots + 1 < b.window_size
    → (ack : Option ℕ) × (b' : SelectiveRepeat) × (slots' : List (Option DataPacket))
      × (do_add_packet packet b ≡ returns (ack, b'))
      × IsOrdered b' slots' first
do_add_packet-IsOrdered b slots first packet v small room =
    elim (dec_lt packet.header.sequence_number b.earliest_expected) [
      | yes early ↦ (_, b, slots, do_add_packet-rejects b slots packet v.window (inl early), v)
      | no ge ↦ elim (dec_lt packet.header.sequence_number (b.earliest_expected + b.window_size)) [
        | no late ↦
            (_, b, slots, do_add_packet-rejects b slots packet v.window (inr (omega arith)), v)
        | yes inside ↦
            in_window (packet.header.sequence_number - b.earliest_expected) (omega arith)
              (omega arith)
      ]
    ]
  where
    new_slot :
        (i : ℕ)
        → packet.header.sequence_number ≡ b.earliest_expected + i
        → i < b.window_size
        → get_elem? slots i ≡ some none
        → (ack : Option ℕ) × (b' : SelectiveRepeat) × (slots' : List (Option DataPacket))
          × (do_add_packet packet b ≡ returns (ack, b'))
          × IsOrdered b' slots' first
    new_slot i sn inside free =
        let (b', returned, u) = do_add_packet-accepts b slots packet v.window i sn inside free in
        let now = set slots i (some packet) in
        (
          _,
          b',
          _,
          returned,
          Updated-IsOrdered (record b { can_send_acks = true }) b' now first
              (Numbered-set b.earliest_expected i slots packet v.numbered free sn (omega arith))
              v.window.earliest_u16 v.in_order
              (omega (arith, run_of-le-count now, count-set slots i packet free)) u,
        )

    in_window :
        (i : ℕ)
        → packet.header.sequence_number ≡ b.earliest_expected + i
        → i < b.window_size
        → (ack : Option ℕ) × (b' : SelectiveRepeat) × (slots' : List (Option DataPacket))
          × (do_add_packet packet b ≡ returns (ack, b'))
          × IsOrdered b' slots' first
    in_window i sn inside =
        let (s, e) = get_elem?_in slots i (omega (arith, v.window.width)) in
        elim (Option-cases s) [
          | inl free ↦ new_slot i sn inside (e ∙ ap some free)
          | inr (held, there) ↦ (
            _,
            record b { can_send_acks = true },
            slots,
            do_add_packet-duplicate b slots packet v.window i sn inside held (e ∙ ap some there),
            record {
              window = record {
                storage = v.window.storage;
                start_in = v.window.start_in;
                width = v.window.width;
                at = v.window.at;
                counted = v.window.counted;
                window_u16 = v.window.window_u16;
                earliest_u16 = v.window.earliest_u16;
              };
              numbered = v.numbered;
              in_order = v.in_order;
            },
          )
        ]

-- A new buffer is ordered.
pub new-IsOrdered :
    (window first : ℕ)
    → 0 < window
    → window < u16_mod
    → first < u16_mod
    → IsOrdered (new window first) (replicate window none) first
unfolding new
new-IsOrdered window first pos small h = record {
  window = new-HasWindow window first pos small h;
  numbered = Numbered-replicate first window;
  in_order = refl;
}
