-- ===== src/Loader/Outcome.antt =====
-- What a loader function returns: `true` with its results, or `false` with the message it wrote
-- into `error_buf`.
use wasm_trustzone.Base.{Option, none, some, ◌≡◌, refl, Bool, true, false, if◌then◌else◌}

pub data LoadError : Type 0 where
  integer_too_long : LoadError
  unexpected_end : LoadError
  integer_too_large : LoadError
  type_mismatch : LoadError
  stack_empty : LoadError
  block_stack_empty : LoadError
  out_of_memory : LoadError
  -- A pointer leaves its array, which the language does not define.
  below_bottom : LoadError
  local_index_out_of_range : LoadError
  invalid_opcode : LoadError
  missing_end : LoadError

pub data Outcome {ℓ} (A : Type ℓ) : Type ℓ where
  ok : A → Outcome A
  err : LoadError → Outcome A

infixl 5 ◌>>=◌
abbrev pub ◌>>=◌ {ℓ κ} : {A : Type ℓ} {B : Type κ} → Outcome A → (A → Outcome B) → Outcome B
ok a >>= f = f a
err e >>= f = err e

-- The result alone: a specification says when there is one, not which message is written.
abbrev pub value {ℓ} : {A : Type ℓ} → Outcome A → Option A
value (ok a) = some a
value (err e) = none

abbrev pub and_then {ℓ κ} : {A : Type ℓ} {B : Type κ} → Option A → (A → Option B) → Option B
and_then none f = none
and_then (some a) f = f a

pub value->>= {ℓ κ} :
    {A : Type ℓ} {B : Type κ} (m : Outcome A) (f : A → Outcome B)
    → value (m >>= f) ≡ and_then (value m) (λ a. value (f a))
value->>= (ok a) f = refl
value->>= (err e) f = refl

-- The values of an outcome have the property.
abbrev pub Yields {ℓ} : {A : Type ℓ} → (A → Type 0) → Outcome A → Type 0
Yields P (ok a) = P a
Yields P (err e) = Unit

pub Yields->>= {ℓ κ} :
    {A : Type ℓ} {B : Type κ} (P : A → Type 0) (Q : B → Type 0) (m : Outcome A) (f : A → Outcome B)
    → Yields P m
    → ((a : A) → P a → Yields Q (f a))
    → Yields Q (m >>= f)
Yields->>= P Q (ok a) f h k = k a h
Yields->>= P Q (err e) f h k = tt

pub Yields-map {ℓ} :
    {A : Type ℓ} (P Q : A → Type 0) (m : Outcome A)
    → ((a : A) → P a → Q a)
    → Yields P m
    → Yields Q m
Yields-map P Q (ok a) k h = k a h
Yields-map P Q (err e) k h = tt

pub Yields-if {ℓ} :
    {A : Type ℓ} (P : A → Type 0) (b : Bool) (m n : Outcome A)
    → Yields P m
    → Yields P n
    → Yields P (if b then m else n)
Yields-if P true m n h k = h
Yields-if P false m n h k = k
