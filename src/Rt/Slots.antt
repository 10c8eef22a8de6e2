-- ===== src/Rt/Slots.antt =====
-- A circular buffer that holds a list of packets from its start index on, as the Go-Back-N and the
-- Selective Repeat retransmission buffers do.
use arq_benchmark.Base.{
  ℕ, ◌+◌, ◌-◌, ◌%◌, ◌≤◌, ◌<◌, ◌≡◌, ◌≢◌, ap, sym, ◌∙◌, List, [], ◌∷◌, ◌++◌, Option, none, some,
  arith, length, get_elem?, set, drop, length-append, length-set, length-drop, get_elem?-set_self,
  get_elem?-set_ne, get_elem?_out, get_elem?-append_left, get_elem?-append_length, get_elem?-drop,
  slot-set_self, slot-set_ne, ring_lt, ring_shift, ring_wrap, dec_lt, ℕ_discrete,
}

module _ {ℓ} {A : Type ℓ} where
  -- Slot `start + i` holds the `i`th packet, and the slots behind the last one are empty.
  pub record Represents (buffer : List (Option A)) (w start : ℕ) (ps : List A) : Type ℓ where
    pub storage : length buffer ≡ w
    pub start_in : start < w
    pub fits : length ps ≤ w
    pub slots : (i : ℕ) → i < w → get_elem? buffer ((start + i) % w) ≡ some (get_elem? ps i)

  get_elem?-snoc_ne :
      (ps : List A) (p : A) (i : ℕ) → i ≢ length ps → get_elem? (ps ++ p ∷ []) i ≡ get_elem? ps i
  get_elem?-snoc_ne ps p i ne = elim (dec_lt i (length ps)) [
    | yes h ↦ get_elem?-append_left ps (p ∷ []) i h
    | no h ↦
        get_elem?_out (ps ++ p ∷ []) i (omega (arith, length-append ps (p ∷ [])))
        ∙ sym (get_elem?_out ps i (omega arith))
  ]

module _ {ℓ} {A : Type ℓ} where
  -- A slot that is written, in a buffer that then holds another list.
  Represents-set :
      {buffer : List (Option A)} {w start : ℕ} {ps : List A} (k : ℕ) (v : Option A) (qs : List A)
      → Represents buffer w start ps
      → k < w
      → length qs ≤ w
      → get_elem? qs k ≡ v
      → ((i : ℕ) → i ≢ k → get_elem? qs i ≡ get_elem? ps i)
      → Represents (set buffer ((start + k) % w) v) w start qs
  Represents-set {buffer} {w} {start} {ps} k v qs r hk fits self others = record {
    storage = length-set buffer ((start + k) % w) v ∙ r.storage;
    start_in = r.start_in;
    fits = fits;
    slots = λ i h. slot i h (ℕ_discrete i k);
  }
    where
      slot :
          (i : ℕ)
          → i < w
          → Dec (i ≡ k)
          → get_elem? (set buffer ((start + k) % w) v) ((start + i) % w) ≡ some (get_elem? qs i)
      slot i h (yes e) = rw (e, self) (slot-set_self buffer w start k v r.storage r.start_in)
      slot i h (no ne) =
          slot-set_ne buffer w start k i v r.start_in hk h (λ e. ne (sym e))
          ∙ r.slots i h
          ∙ ap some (sym (others i ne))

  -- The first free slot takes one more packet.
  pub Represents-append :
      {buffer : List (Option A)} {w start : ℕ} {ps : List A} (p : A)
      → Represents buffer w start ps
      → length ps < w
      → Represents (set buffer ((start + length ps) % w) (some p)) w start (ps ++ p ∷ [])
  Represents-append {ps = ps} p r room =
      Represents-set (length ps) (some p) (ps ++ p ∷ []) r room
        (omega (arith, length-append ps (p ∷ []))) (get_elem?-append_length ps p [])
        (get_elem?-snoc_ne ps p)

  -- A packet is replaced by another.
  pub Represents-replace :
      {buffer : List (Option A)} {w start : ℕ} {ps : List A} (k : ℕ) (p : A)
      → Represents buffer w start ps
      → k < length ps
      → Represents (set buffer ((start + k) % w) (some p)) w start (set ps k p)
  Represents-replace {ps = ps} k p r h =
      Represents-set k (some p) (set ps k p) r (omega (arith, r.fits))
        (omega (arith, r.fits, length-set ps k p)) (get_elem?-set_self ps k p h)
        (λ i ne. get_elem?-set_ne ps k i p (λ e. ne (sym e)))

  -- The slots below `k` are cleared, and the start moves up by `k`.
  pub Represents-drop :
      {buffer cleared : List (Option A)} {w start : ℕ} {ps : List A} (k : ℕ)
      → Represents buffer w start ps
      → length cleared ≡ w
      → k ≤ w
      → ((i : ℕ) → i < w → i < k → get_elem? cleared ((start + i) % w) ≡ some none)
      → ((i : ℕ) → i < w → k ≤ i → get_elem? cleared ((start + i) % w) ≡ some (get_elem? ps i))
      → Represents cleared w ((start + k) % w) (drop k ps)
  Represents-drop {cleared = cleared} {w} {start} {ps} k r len hk below above = record {
    storage = len;
    start_in = ring_lt w start k r.start_in;
    fits = omega (arith, r.fits, length-drop k ps);
    slots = λ i h.
        ap (get_elem? cleared) (ring_shift w start k i)
        ∙ slot i h (dec_lt (k + i) w)
        ∙ ap some (sym (get_elem?-drop k ps i));
  }
    where
      slot :
          (i : ℕ)
          → i < w
          → Dec (k + i < w)
          → get_elem? cleared ((start + (k + i)) % w) ≡ some (get_elem? ps (k + i))
      slot i h (yes p) = above (k + i) p (omega arith)
      slot i h (no p) =
          ap (get_elem? cleared) (ring_wrap w start (k + i) r.start_in (omega arith) (omega arith))
          ∙ below (k + i - w) (omega arith) (omega arith)
          ∙ ap some (sym (get_elem?_out ps (k + i) (omega (arith, r.fits))))
