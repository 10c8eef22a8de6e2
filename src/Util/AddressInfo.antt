-- ===== src/Util/AddressInfo.antt =====
-- src/util/address_info.hpp: the linked list that `getaddrinfo` gives, in memory, and the iterator that
-- walks it. `Util.Socket` has the list of its entries.
use arq_benchmark.Base.{
  ℕ, zero, suc, ◌<◌, ◌≡◌, refl, ap, ◌∙◌, Bool, true, false, List, [], ◌∷◌, Option, none, some,
  length, arith, ◌==◌, Outcome, returns, undefined, out_of_fuel, ◌>>=◌,
}
use arq_benchmark.Util.Os.{AddrInfo}

-- An `addrinfo` with its `ai_next`. A pointer is an address, and `none` is `nullptr`.
pub record Node : Type 0 where
  pub info : AddrInfo
  pub ai_next : Option ℕ

abbrev pub Memory : Type 0
Memory = ℕ → Node

pub record ConstIterator : Type 0 where
  pub current : Option ℕ

abbrev pub begin : Option ℕ → ConstIterator
begin info = record { current = info }

abbrev pub end : ConstIterator
end = record { current = none }

-- Both point to the same address, or nowhere.
unfoldable pub equals : ConstIterator → ConstIterator → Bool
equals it other = elim it.current [
  | none ↦ elim other.current [ none ↦ true | some q ↦ false ]
  | some p ↦ elim other.current [ none ↦ false | some q ↦ p == q ]
]

-- `operator*`
unfoldable pub dereference : Memory → ConstIterator → Outcome AddrInfo
dereference memory it = elim it.current [ none ↦ undefined | some p ↦ returns (memory p).info ]

-- `operator++()`
unfoldable pub increment : Memory → ConstIterator → Outcome ConstIterator
increment memory it = elim it.current [
  | none ↦ undefined
  | some p ↦ returns (record { current = (memory p).ai_next })
]

-- `operator++(int)`: the iterator as it was, and as it is then.
unfoldable pub post_increment : Memory → ConstIterator → Outcome (ConstIterator × ConstIterator)
unfolding increment
post_increment memory it = increment memory it >>= λ it'. returns (it, it')

-- A range-for over an `AddressInfo`: the entries that its body sees.
unfoldable pub visit : ℕ → Memory → ConstIterator → Outcome (List AddrInfo)
unfolding equals dereference increment
visit zero memory it = out_of_fuel
visit (suc fuel) memory it = elim (equals it end) [
  | true ↦ returns []
  | false ↦
      (dereference memory it >>= λ info.
      increment memory it >>= visit fuel memory >>= λ infos. returns (info ∷ infos))
]

-- From this pointer on, the memory holds these entries, linked in order and ended by `nullptr`.
abbrev pub Links : Memory → Option ℕ → List AddrInfo → Type 0
Links memory pointer [] = pointer ≡ none
Links memory pointer (info ∷ infos) =
    (p : ℕ) × (pointer ≡ some p) × ((memory p).info ≡ info) × Links memory (memory p).ai_next infos

visit-node :
    (memory : Memory) (p fuel : ℕ)
    → visit (suc fuel) memory (begin (some p)) ≡ (
        visit fuel memory (begin (memory p).ai_next) >>= λ infos. returns ((memory p).info ∷ infos))
unfolding visit equals dereference increment
visit-node memory p fuel = refl

-- With fuel for one round more than there are entries, a range-for over the list that a pointer links
-- ends, reads no memory through a null pointer, and sees each entry once, in order.
pub visit-begin :
    (memory : Memory) (pointer : Option ℕ) (infos : List AddrInfo) (fuel : ℕ)
    → Links memory pointer infos
    → length infos < fuel
    → visit fuel memory (begin pointer) ≡ returns infos
unfolding visit equals dereference increment
visit-begin memory pointer infos zero links enough = absurd (omega arith)
visit-begin memory pointer [] (suc fuel) e enough = rw e refl
visit-begin memory pointer (info ∷ infos) (suc fuel) (p, e, same, links) enough =
    ap (λ q. visit (suc fuel) memory (begin q)) e
    ∙ visit-node memory p fuel
    ∙ rw (visit-begin memory (memory p).ai_next infos fuel links (omega arith), same, ◌>>=◌) refl
