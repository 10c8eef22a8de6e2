-- ===== src/Rs/Serial.antt =====
-- Resequencing buffers that are given one packet at a time: what a client relies on that gives a
-- packet, and gives it again, before the next.
use arq_benchmark.Base.{
  ℕ, zero, suc, ◌<◌, ◌≡◌, refl, sym, ap, ◌∙◌, subst, true, false, [], ◌∷◌, ◌++◌, none, some, arith,
  returns, inl, lt→ltb, set, replicate, ==_refl, ltb, ne→not_==, ◌==◌, if◌then◌else◌, length,
  get_elem?-replicate,
}
use arq_benchmark.Common.Host.{u16_mod}
use arq_benchmark.Common.SequenceNumber.{next_sn, previous_sn, max_sequence_number}
use arq_benchmark.Common.DataPacket.{DataPacket}
use arq_benchmark.Rs.Buffer.{RsBuffer}
use arq_benchmark.Rs.Instances.{go_back_n, stop_and_wait, selective_repeat}
use arq_benchmark.Rs.GoBackN
use arq_benchmark.Rs.GoBackN.{GoBackN}
use arq_benchmark.Rs.StopAndWait
use arq_benchmark.Rs.StopAndWait.{StopAndWait}
use arq_benchmark.Rs.SelectiveRepeat
use arq_benchmark.Rs.SelectiveRepeat.{SelectiveRepeat}
use arq_benchmark.Rs.SelectiveRepeat.Window.{HasWindow, new-HasWindow, slide, run_of}
use arq_benchmark.Rs.SelectiveRepeat.Update.{Updated}
use arq_benchmark.Rs.SelectiveRepeat.Add.{do_add_packet-rejects, do_add_packet-accepts}
use arq_benchmark.Util.SafeQueue

-- `Expecting n b`: packet `n` comes next, and nothing waits. `Given n b`: packet `n` was the last that
-- was given out. A packet that comes next is acknowledged and given out; the same packet again is
-- acknowledged and not given out, if its number is not the last.
pub record IsSerial {B : Type 0} (ops : RsBuffer B) (Expecting Given : ℕ → B → Type 0)
    : Type 0 where
  pub accept :
      (n : ℕ) (p : DataPacket) (b : B)
      → Expecting n b
      → p.header.sequence_number ≡ n
      → (held given : B) × (ops.add_packet p b ≡ returns (some n, held))
        × (ops.get_next_packet held ≡ (some p, given))
        × (ops.get_next_packet given ≡ (none, given))
        × Given n given
  pub repeat :
      (n : ℕ) (p : DataPacket) (b : B)
      → Given n b
      → p.header.sequence_number ≡ n
      → n < max_sequence_number
      → (ops.add_packet p b ≡ returns (some n, b)) × (ops.get_next_packet b ≡ (none, b))
  pub expects_next : (n : ℕ) (b : B) → Given n b → Expecting (next_sn n) b

abbrev pub SawExpecting : ℕ → StopAndWait → Type 0
SawExpecting n b = b ≡ record { expected_packet_seq_num = n; packet_for_delivery = none }

abbrev pub SawGiven : ℕ → StopAndWait → Type 0
SawGiven n b = SawExpecting (next_sn n) b

pub stop_and_wait-IsSerial : IsSerial stop_and_wait SawExpecting SawGiven
unfolding StopAndWait.do_add_packet StopAndWait.do_get_next_packet
stop_and_wait-IsSerial = record {
  accept = λ n p b e sn. (
    record { expected_packet_seq_num = n; packet_for_delivery = some p },
    record { expected_packet_seq_num = next_sn n; packet_for_delivery = none },
    rw (e, sn, ==_refl n) refl,
    refl,
    refl,
    refl,
  );
  repeat = λ n p b e sn small.
      let other : (n == next_sn n) ≡ false = ne→not_== n (next_sn n) (λ q. absurd (omega arith)) in
      let below : ltb n (next_sn n) ≡ true = lt→ltb n (next_sn n) (omega arith) in
      (rw (e, sn, other, below) refl, rw e refl);
  expects_next = λ n b e. e;
}

-- The buffer has nothing to give out.
abbrev pub GbnExpecting : ℕ → GoBackN → Type 0
GbnExpecting n b = (b.shadow_buffer ≡ SafeQueue.new) × (b.next_sequence_number ≡ n)

abbrev pub GbnGiven : ℕ → GoBackN → Type 0
GbnGiven n b = b ≡ record {
  shadow_buffer = SafeQueue.new;
  next_sequence_number = next_sn n;
  can_send_acks = true;
}

pub go_back_n-IsSerial : IsSerial go_back_n GbnExpecting GbnGiven
unfolding GoBackN.do_add_packet GoBackN.do_get_next_packet SafeQueue.push SafeQueue.try_pop
go_back_n-IsSerial = record {
  accept = λ n p b e sn. (
    record {
      shadow_buffer = record { queue = p ∷ [] };
      next_sequence_number = next_sn n;
      can_send_acks = true;
    },
    record {
      shadow_buffer = SafeQueue.new;
      next_sequence_number = next_sn n;
      can_send_acks = true;
    },
    simp (e.0, e.1, sn, ==_refl n),
    refl,
    refl,
    refl,
  );
  repeat = λ n p b e sn small.
      let other : (n == next_sn n) ≡ false = ne→not_== n (next_sn n) (λ q. absurd (omega arith)) in
      let back : previous_sn (next_sn n) ≡ n = omega arith in
      (rw (e, sn, other, back) refl, rw e refl);
  expects_next = λ n b e. (ap (λ x. x.shadow_buffer) e, ap (λ x. x.next_sequence_number) e);
}

-- The window is empty, and so is the shadow buffer.
pub record IsEmptyAt (n : ℕ) (b : SelectiveRepeat) : Type 0 where
  pub window : HasWindow b (replicate b.window_size none)
  pub empty : b.shadow_buffer.queue ≡ []
  pub next : b.earliest_expected ≡ n
  pub wide : 1 < b.window_size

abbrev pub SrGiven : ℕ → SelectiveRepeat → Type 0
SrGiven n b = IsEmptyAt (next_sn n) b × (b.can_send_acks ≡ true)

replicate-snoc {ℓ} : {A : Type ℓ} (n : ℕ) (a : A) → replicate n a ++ a ∷ [] ≡ a ∷ replicate n a
replicate-snoc zero a = refl
replicate-snoc (suc n) a = ap (λ l. a ∷ l) (replicate-snoc n a)

-- An empty window that takes a packet in its first slot.
first_slot :
    (w : ℕ) (p : DataPacket)
    → 1 < w
    → (run_of (set (replicate w none) 0 (some p)) ≡ p ∷ [])
      × (slide 1 (set (replicate w none) 0 (some p)) ≡ replicate w none)
first_slot zero p wide = absurd (omega arith)
first_slot (suc zero) p wide = absurd (omega arith)
first_slot (suc (suc w)) p wide = (refl, replicate-snoc (suc w) none)

sr_get_next :
    (b : SelectiveRepeat)
    → b.shadow_buffer.queue ≡ []
    → SelectiveRepeat.do_get_next_packet b ≡ (none, b)
unfolding SelectiveRepeat.do_get_next_packet SafeQueue.try_pop
sr_get_next b e = simp (e, SelectiveRepeat.do_get_next_packet, SafeQueue.try_pop)

sr_get_next_one :
    (b : SelectiveRepeat) (p : DataPacket)
    → b.shadow_buffer.queue ≡ p ∷ []
    → SelectiveRepeat.do_get_next_packet b ≡ (some p, record b { shadow_buffer = SafeQueue.new })
unfolding SelectiveRepeat.do_get_next_packet SafeQueue.try_pop
sr_get_next_one b p e = simp (e, SelectiveRepeat.do_get_next_packet, SafeQueue.try_pop)

-- The window after the packet went through it.
sr_passed :
    (n : ℕ) (p : DataPacket) (b b' : SelectiveRepeat)
    → IsEmptyAt n b
    → Updated (record b { can_send_acks = true }) (set (replicate b.window_size none) 0 (some p)) b'
    → (b'.shadow_buffer.queue ≡ p ∷ [])
      × (b'.earliest_expected ≡ next_sn n)
      × SrGiven n (record b' { shadow_buffer = SafeQueue.new })
sr_passed n p b b' v u =
    let (runs, slides) = first_slot b.window_size p v.wide in
    let one : length (run_of (set (replicate b.window_size none) 0 (some p))) ≡ 1 =
      ap length runs in
    let next : b'.earliest_expected ≡ next_sn n =
      u.expects ∙ rw (one, lt→ltb 1 b.window_size v.wide) (ap (λ m. next_sn m) v.next) in
    let window : HasWindow b' (replicate b'.window_size none) =
      subst (HasWindow b')
        (ap (λ k. slide k (set (replicate b.window_size none) 0 (some p))) one
          ∙ slides
          ∙ ap (λ w. replicate w none) (sym u.same_size))
        u.window in
    (
      u.forwarded ∙ rw (v.empty, runs) refl,
      next,
      (
        record {
          window = record {
            storage = window.storage;
            start_in = window.start_in;
            width = window.width;
            at = window.at;
            counted = window.counted;
            window_u16 = window.window_u16;
            earliest_u16 = window.earliest_u16;
          };
          empty = refl;
          next = next;
          wide = omega (arith, u.same_size, v.wide);
        },
        u.same_acks,
      ),
    )

sr_accept :
    (n : ℕ) (p : DataPacket) (b : SelectiveRepeat)
    → IsEmptyAt n b
    → p.header.sequence_number ≡ n
    → (held given : SelectiveRepeat) × (SelectiveRepeat.do_add_packet p b ≡ returns (some n, held))
      × (SelectiveRepeat.do_get_next_packet held ≡ (some p, given))
      × (SelectiveRepeat.do_get_next_packet given ≡ (none, given))
      × SrGiven n given
sr_accept n p b v sn =
    let (b', e, u) =
      do_add_packet-accepts b (replicate b.window_size none) p v.window 0
        (omega (arith, v.next, sn)) (omega (arith, v.wide))
        (get_elem?-replicate b.window_size none 0 (omega (arith, v.wide))) in
    let (one, next, done) = sr_passed n p b b' v u in
    let back : previous_sn b'.earliest_expected ≡ n =
      omega (arith, next, v.window.earliest_u16, v.next) in
    (
      b',
      record b' { shadow_buffer = SafeQueue.new },
      e ∙ ap (λ m. returns (some m, b')) back,
      sr_get_next_one b' p one,
      sr_get_next (record b' { shadow_buffer = SafeQueue.new }) refl,
      done,
    )

pub selective_repeat-IsSerial : IsSerial selective_repeat IsEmptyAt SrGiven
selective_repeat-IsSerial = record {
  accept = sr_accept;
  repeat = λ n p b v sn small. (
    do_add_packet-rejects b (replicate b.window_size none) p v.0.window
          (inl (omega (arith, sn, v.0.next)))
        ∙ ap (λ c. returns (if c then some (previous_sn b.earliest_expected) else none, b)) v.1
        ∙ ap (λ m. returns (some m, b)) (omega (arith, v.0.next)),
    sr_get_next b v.0.empty,
  );
  expects_next = λ n b v. v.0;
}

-- A new buffer whose window has room for two packets.
pub new-IsEmptyAt :
    (window first : ℕ)
    → 1 < window
    → window < u16_mod
    → first < u16_mod
    → IsEmptyAt first (SelectiveRepeat.new window first)
unfolding SelectiveRepeat.new
new-IsEmptyAt window first wide small h = record {
  window = new-HasWindow window first (omega arith) small h;
  empty = refl;
  next = refl;
  wide = wide;
}
