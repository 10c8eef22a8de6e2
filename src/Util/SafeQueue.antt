-- ===== src/Util/SafeQueue.antt =====
-- src/util/safe_queue.hpp: a queue under a mutex. Each method holds the mutex from its first line to
-- its last, so a call is one step on the elements, oldest first, and the interleavings of threads are
-- sequences of such steps. The condition variable only wakes a thread that waits in `pop_wait`.
use arq_benchmark.Base.{
  ℕ, Bool, true, false, Option, none, some, List, [], ◌∷◌, ◌++◌, length, ◌≡◌, refl, ◌∙◌, ap, sym,
  append-nil, append_assoc, arith, ◌+◌, ◌⊎◌, inl, inr,
}

pub record SafeQueue {ℓ} (A : Type ℓ) : Type ℓ where
  -- `queue_`, its front first.
  pub queue : List A

module _ {ℓ} {A : Type ℓ} where
  abbrev pub new : SafeQueue A
  new = record { queue = [] }

  unfoldable pub push : SafeQueue A → A → SafeQueue A
  push q value = record { queue = q.queue ++ value ∷ [] }

  unfoldable pub try_pop : SafeQueue A → Option A × SafeQueue A
  try_pop q = elim q.queue [ [] ↦ (none, q) | val ∷ rest ↦ (some val, record { queue = rest }) ]

  -- One pass of the loop of `pop_wait`: `none` while the thread waits for an element.
  unfoldable pub pop_wait : SafeQueue A → Option A × SafeQueue A
  pop_wait q = elim q.queue [ [] ↦ (none, q) | val ∷ rest ↦ (some val, record { queue = rest }) ]

  unfoldable pub is_empty : SafeQueue A → Bool
  is_empty q = elim q.queue [ [] ↦ true | _ ∷ _ ↦ false ]

  unfoldable pub size : SafeQueue A → ℕ
  size q = length q.queue

-- The calls that change a queue, as the threads that share it make them in some order.
pub data Call {ℓ} (A : Type ℓ) : Type ℓ where
  pushes : A → Call A
  tries_pop waits_pop : Call A

abbrev pub push_front {ℓ} : {A : Type ℓ} → Option A → List A → List A
push_front none xs = xs
push_front (some x) xs = x ∷ xs

module _ {ℓ} {A : Type ℓ} where
  -- The elements that the calls hand out, in order, and the queue after them.
  unfoldable pub run : SafeQueue A → List (Call A) → List A × SafeQueue A
  run q [] = ([], q)
  run q (pushes x ∷ cs) = run (push q x) cs
  run q (tries_pop ∷ cs) =
      let (val, q') = try_pop q in let (vals, r) = run q' cs in (push_front val vals, r)
  run q (waits_pop ∷ cs) =
      let (val, q') = pop_wait q in let (vals, r) = run q' cs in (push_front val vals, r)

  -- The elements that the calls put in.
  pub pushed : List (Call A) → List A
  pushed [] = []
  pushed (pushes x ∷ cs) = x ∷ pushed cs
  pushed (tries_pop ∷ cs) = pushed cs
  pushed (waits_pop ∷ cs) = pushed cs

  -- What a pop hands out, put back in front, is the queue before it.
  push_front-try_pop : (q : SafeQueue A) → push_front (try_pop q).0 (try_pop q).1.queue ≡ q.queue
  unfolding try_pop
  push_front-try_pop q = ground arith

  push_front-append :
      (o : Option A) (xs ys : List A) → push_front o xs ++ ys ≡ push_front o (xs ++ ys)
  push_front-append none xs ys = refl
  push_front-append (some x) xs ys = refl

  -- A pop, followed by calls that keep the law, keeps it.
  pop_fifo :
      (o : Option A) (vals rest left more q : List A)
      → push_front o rest ≡ q
      → vals ++ left ≡ rest ++ more
      → push_front o vals ++ left ≡ q ++ more
  pop_fifo o vals rest left more q h ih =
      push_front-append o vals left
      ∙ ap (push_front o) ih
      ∙ sym (push_front-append o rest more)
      ∙ ap (λ l. l ++ more) h

  -- Whatever the order of the calls: what was handed out, followed by what is left, is what was in
  -- the queue at first, followed by what was put in.
  pub run_fifo :
      (q : SafeQueue A) (cs : List (Call A))
      → (run q cs).0 ++ (run q cs).1.queue ≡ q.queue ++ pushed cs
  unfolding run pushed push pop_wait try_pop
  run_fifo q [] = sym (append-nil q.queue)
  run_fifo q (pushes x ∷ cs) = run_fifo (push q x) cs ∙ append_assoc q.queue (x ∷ []) (pushed cs)
  run_fifo q (tries_pop ∷ cs) =
      pop_fifo (try_pop q).0 _ (try_pop q).1.queue _ _ _ (push_front-try_pop q)
        (run_fifo (try_pop q).1 cs)
  run_fifo q (waits_pop ∷ cs) =
      pop_fifo (try_pop q).0 _ (try_pop q).1.queue _ _ _ (push_front-try_pop q)
        (run_fifo (try_pop q).1 cs)

-- `try_pop` on an empty queue, and on one that is not.
pub try_pop-cases {ℓ} :
    {A : Type ℓ} (q : SafeQueue A)
    → ((q.queue ≡ []) × ((try_pop q).0 ≡ none))
      ⊎ ((value : A) × ((try_pop q).0 ≡ some value)
          × (length (try_pop q).1.queue + 1 ≡ length q.queue))
unfolding try_pop
try_pop-cases {A} q = at q.queue
  where
    at :
        (elements : List A)
        → ((elements ≡ []) × ((try_pop (record { queue = elements })).0 ≡ none))
          ⊎ ((value : A) × ((try_pop (record { queue = elements })).0 ≡ some value)
              × (length (try_pop (record { queue = elements })).1.queue + 1 ≡ length elements))
    at [] = inl (refl, refl)
    at (x ∷ xs) = inr (x, refl, omega arith)
