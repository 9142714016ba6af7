-- ===== src/Prelude/Errors.antt =====
-- What a call of the program does: it returns, it throws, or an `assert` of it fails.
use mathlib.Core.Bool.{Bool, true, false}
use mathlib.Core.Path.{◌≡◌, refl}
use mathlib.Core.Logic.{◌≢◌, ◌⊎◌, inl, inr}
use etsimec.Prelude.Text.{Str}

pub data Outcome {ℓ} (A : Type ℓ) : Type ℓ where
  ok : A → Outcome A
  throws : Str → Outcome A
  aborts : Outcome A

-- A call, and what is done with its value. Exceptions and failed asserts pass on.
infixl 5 ◌>>=◌ ◌>>◌
abbrev pub ◌>>=◌ {ℓ κ} : {A : Type ℓ} {B : Type κ} → Outcome A → (A → Outcome B) → Outcome B
call >>= next = elim call [ ok value ↦ next value | throws why ↦ throws why | aborts ↦ aborts ]

abbrev pub ◌>>◌ {ℓ} : {B : Type ℓ} → Outcome (Unit {0}) → Outcome B → Outcome B
check >> rest = elim check [ ok done ↦ rest | throws why ↦ throws why | aborts ↦ aborts ]

-- `if (test) throw std::runtime_error(message);`
abbrev pub throw_if : Bool → Str → Outcome (Unit {0})
throw_if true message = throws message
throw_if false message = ok tt

-- `assert(test);` of a build without NDEBUG.
abbrev pub assert : Bool → Outcome (Unit {0})
assert true = ok tt
assert false = aborts

-- Where a chain of calls returned, its first call did, and so did the rest on that value.
module _ {ℓ κ} {A : Type ℓ} {B : Type κ} (next : A → Outcome B) {result : B} where
  pub returned :
      (call : Outcome A)
      → (call >>= next) ≡ ok result
      → (value : A) × (call ≡ ok value) × (next value ≡ ok result)
  returned (ok value) h = (value, refl, h)
  returned (throws why) h = cc
  returned aborts h = cc

-- To split on whether a call returns.
pub Outcome-cases {ℓ} :
    {A : Type ℓ} (call : Outcome A) → ((a : A) × (call ≡ ok a)) ⊎ ((a : A) → call ≢ ok a)
Outcome-cases (ok a) = inl (a, refl)
Outcome-cases (throws why) = inr (λ a e. cc)
Outcome-cases aborts = inr (λ a e. cc)
