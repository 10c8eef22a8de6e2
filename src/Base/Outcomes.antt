-- ===== src/Base/Outcomes.antt =====
-- What a call can do that need not return a value.

pub data Outcome {ℓ} (A : Type ℓ) : Type ℓ where
  -- The call returns.
  returns : A → Outcome A
  -- It throws one of the program's exceptions.
  throws : Outcome A
  -- It breaks a precondition of the language's library: an index or a span out of range.
  undefined : Outcome A
  -- The fuel of the model ran out.
  out_of_fuel : Outcome A

infixl 5 ◌>>=◌
abbrev pub ◌>>=◌ {ℓ κ} : {A : Type ℓ} {B : Type κ} → Outcome A → (A → Outcome B) → Outcome B
returns a >>= f = f a
throws >>= f = throws
undefined >>= f = undefined
out_of_fuel >>= f = out_of_fuel

-- What holds of the value, where the call returns.
abbrev pub OnReturn {ℓ κ} : {A : Type ℓ} → (A → Type κ) → Outcome A → Type κ
OnReturn Q (returns a) = Q a
OnReturn Q throws = Unit
OnReturn Q undefined = Unit
OnReturn Q out_of_fuel = Unit

pub OnReturn->>= {ℓ κ μ ν} :
    {A : Type ℓ} {B : Type κ} (Q : A → Type μ) (R : B → Type ν) (o : Outcome A) (f : A → Outcome B)
    → OnReturn Q o
    → ((a : A) → Q a → OnReturn R (f a))
    → OnReturn R (o >>= f)
OnReturn->>= Q R (returns a) f h k = k a h
OnReturn->>= Q R throws f h k = tt
OnReturn->>= Q R undefined f h k = tt
OnReturn->>= Q R out_of_fuel f h k = tt
