-- ===== src/Common/ConversationId/Fresh.antt =====
-- The IDs that an allocator gives out.
use arq_benchmark.Base.{
  ℕ, zero, suc, ◌+◌, ◌%◌, ◌≤◌, ◌<◌, ◌≡◌, ◌≢◌, refl, ap, ◌∙◌, true, false, List, [], ◌∷◌, some,
  length, ◌==◌, ne→not_==, returns, throws, Bool-cases, ◌⊎◌, inl, inr, arith, ℕ_discrete,
}
use arq_benchmark.Common.Host.{byte_mod}
use arq_benchmark.Common.ConversationId
use arq_benchmark.Common.ConversationId.{
  ConversationIdAllocator, contains, erase, next_free, get_new_id,
}

-- Removing an ID that is there makes the list shorter by one, and loses no other ID.
length-erase :
    (id : ℕ) (ids : List ℕ) → contains id ids ≡ true → length ids ≡ suc (length (erase id ids))
length-erase id [] e = cc
length-erase id (x ∷ ids) e = elim (Bool-cases (x == id)) [
  | inl hit ↦ rw hit
  | inr miss ↦ rw miss (ap suc (length-erase id ids (rw miss at e)))
]

contains-erase_ne :
    (id other : ℕ) (ids : List ℕ) → other ≢ id → contains other (erase id ids) ≡ contains other ids
contains-erase_ne id other [] ne = refl
contains-erase_ne id other (x ∷ ids) ne = ground (arith, contains-erase_ne id other ids ne)

-- So a list that has `n` different IDs has at least `n` entries.
pigeonhole :
    (n : ℕ) (f : ℕ → ℕ) (ids : List ℕ)
    → ((i j : ℕ) → i < n → j < n → i ≢ j → f i ≢ f j)
    → ((i : ℕ) → i < n → contains (f i) ids ≡ true)
    → n ≤ length ids
pigeonhole zero f ids inj all = omega arith
pigeonhole (suc n) f ids inj all = omega (
  arith,
  length-erase (f n) ids (all n (omega arith)),
  pigeonhole n f (erase (f n) ids) (λ i j hi hj. inj i j (omega arith) (omega arith))
      (λ i hi.
        contains-erase_ne (f n) (f i) ids (inj i n (omega arith) (omega arith) (omega arith))
        ∙ all i (omega arith)),
)

-- The search ends at an ID that is free, or has seen `fuel` IDs in a row that are taken.
next_free_cases :
    (fuel : ℕ) (ids : List ℕ) (last : ℕ)
    → ((id : ℕ) × (next_free fuel ids last ≡ some id) × (contains id ids ≡ false) × (id < byte_mod))
      ⊎ ((i : ℕ) → i < fuel → contains ((last + suc i) % byte_mod) ids ≡ true)
unfolding next_free
next_free_cases zero ids last = inr (λ i lt. absurd (omega arith))
next_free_cases (suc fuel) ids last = elim (Bool-cases (contains ((last + 1) % byte_mod) ids)) [
  | inr free ↦ inl ((last + 1) % byte_mod, rw (free, next_free), free, omega arith)
  | inl taken ↦ elim (next_free_cases fuel ids ((last + 1) % byte_mod)) [
    | inl (id, found, free, small) ↦ inl (id, rw (taken, next_free) found, free, small)
    | inr all ↦ inr (λ i lt. later i lt taken all)
  ]
]
  where
    later :
        (i : ℕ)
        → i < suc fuel
        → contains ((last + 1) % byte_mod) ids ≡ true
        → ((j : ℕ) → j < fuel → contains (((last + 1) % byte_mod + suc j) % byte_mod) ids ≡ true)
        → contains ((last + suc i) % byte_mod) ids ≡ true
    later zero lt taken all = ap (λ n. contains n ids) (omega arith) ∙ taken
    later (suc i) lt taken all = ap (λ n. contains n ids) (omega arith) ∙ all i (omega arith)

-- While fewer than 256 IDs are allocated `getNewID` returns one that was not, below 256, and adds just
-- that one to the set; when all are, it throws.
pub get_new_id_fresh :
    (a : ConversationIdAllocator)
    → length a.allocated_ids ≤ byte_mod
    → ((length a.allocated_ids < byte_mod)
        × ((id : ℕ) × (get_new_id a
              ≡ returns (id, record { last_allocated = id; allocated_ids = id ∷ a.allocated_ids }))
            × (contains id a.allocated_ids ≡ false)
            × (id < byte_mod)))
      ⊎ ((length a.allocated_ids ≡ byte_mod) × (get_new_id a ≡ throws))
unfolding get_new_id
get_new_id_fresh a bound = elim (ℕ_discrete (length a.allocated_ids) byte_mod) [
  | yes full ↦ inr (full, rw full)
  | no ne ↦ inl (omega arith, found ne (next_free_cases byte_mod a.allocated_ids a.last_allocated))
]
  where
    found :
        length a.allocated_ids ≢ byte_mod
        → ((id : ℕ) × (next_free byte_mod a.allocated_ids a.last_allocated ≡ some id)
            × (contains id a.allocated_ids ≡ false)
            × (id < byte_mod))
          ⊎ ((i : ℕ)
              → i < byte_mod
              → contains ((a.last_allocated + suc i) % byte_mod) a.allocated_ids ≡ true)
        → (id : ℕ) × (get_new_id a
            ≡ returns (id, record { last_allocated = id; allocated_ids = id ∷ a.allocated_ids }))
          × (contains id a.allocated_ids ≡ false)
          × (id < byte_mod)
    found ne (inl (id, e, free, small)) =
        (id, rw (ne→not_== (length a.allocated_ids) byte_mod ne, e), free, small)
    found ne (inr all) = absurd (
        omega (
          arith,
          pigeonhole byte_mod (λ i. (a.last_allocated + suc i) % byte_mod) a.allocated_ids
              (λ i j hi hj d. omega arith) all,
        ))

-- The first ID of a new allocator.
pub get_new_id-first :
    get_new_id ConversationId.new
    ≡ returns (1, record { last_allocated = 1; allocated_ids = 1 ∷ [] })
unfolding get_new_id next_free
get_new_id-first = refl
