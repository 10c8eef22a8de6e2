-- ===== src/Common/ConversationId.antt =====
-- src/arq/common/conversation_id.{hpp,cpp}. The set of the allocated IDs is a list with no repeats. The
-- loop of `getNewID` has 256 rounds of fuel; `Fresh` shows that an ID is found within them.
use arq_benchmark.Base.{
  ℕ, zero, suc, ◌+◌, ◌%◌, Bool, true, false, List, [], ◌∷◌, Option, none, some, length, ◌==◌,
  if◌then◌else◌, Outcome, returns, throws, out_of_fuel,
}
use arq_benchmark.Common.Host.{byte_mod}
pub mod Fresh

pub record ConversationIdAllocator : Type 0 where
  pub last_allocated : ℕ
  pub allocated_ids : List ℕ

abbrev pub new : ConversationIdAllocator
new = record { last_allocated = 0; allocated_ids = [] }

abbrev pub contains : ℕ → List ℕ → Bool
contains id [] = false
contains id (x ∷ ids) = if x == id then true else contains id ids

abbrev pub erase : ℕ → List ℕ → List ℕ
erase id [] = []
erase id (x ∷ ids) = if x == id then ids else x ∷ erase id ids

-- `while (allocatedIDs.contains(++lastAllocated))`: the ID at which it stops.
pub next_free : ℕ → List ℕ → ℕ → Option ℕ
next_free zero ids last = none
next_free (suc fuel) ids last =
    let id = (last + 1) % byte_mod in
    elim (contains id ids) [ true ↦ next_free fuel ids id | false ↦ some id ]

unfoldable pub get_new_id : ConversationIdAllocator → Outcome (ℕ × ConversationIdAllocator)
unfolding next_free
get_new_id a =
    if length a.allocated_ids == byte_mod
    then throws
    else elim (next_free byte_mod a.allocated_ids a.last_allocated) [
      | none ↦ out_of_fuel
      | some id ↦ returns (id, record { last_allocated = id; allocated_ids = id ∷ a.allocated_ids })
    ]

unfoldable pub register_id : ℕ → ConversationIdAllocator → Bool × ConversationIdAllocator
register_id id a =
    if contains id a.allocated_ids
    then (false, a)
    else (true, record a { allocated_ids = id ∷ a.allocated_ids })

unfoldable pub release_id : ℕ → ConversationIdAllocator → Bool × ConversationIdAllocator
release_id id a =
    if contains id a.allocated_ids
    then (true, record a { allocated_ids = erase id a.allocated_ids })
    else (false, a)
