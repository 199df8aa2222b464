-- ===== src/Prelude/Exits.antt =====
-- What a call of the library ends in: a value, a failed assertion, undefined behaviour of C++
-- (such as an index out of range), or a loop that outlives the fuel of the model.
use mathlib.Core.Bool.{Bool, true, false}
use mathlib.Core.Option.{Option, none, some}

pub data Outcome {ℓ} (A : Type ℓ) : Type ℓ where
  done : A → Outcome A
  abort : Outcome A
  fault : Outcome A
  diverge : Outcome A

infixl 5 ◌>>=◌ ◌>>◌
abbrev pub ◌>>=◌ {ℓ κ} : {A : Type ℓ} {B : Type κ} → Outcome A → (A → Outcome B) → Outcome B
done a >>= f = f a
abort >>= f = abort
fault >>= f = fault
diverge >>= f = diverge

abbrev pub ◌>>◌ {κ} : {B : Type κ} → Outcome (Unit {0}) → Outcome B → Outcome B
m >> k = m >>= λ _. k

-- REMUS_ASSERT: the process exits if the test fails.
abbrev pub assert : Bool → Outcome (Unit {0})
assert true = done tt
assert false = abort

-- A read that is undefined behaviour where there is no value.
abbrev pub at {ℓ} : {A : Type ℓ} → Option A → Outcome A
at (some a) = done a
at none = fault
