-- ===== src/Base/Effects.antt =====
-- What a call of a C function comes to: a result, an error code that it returns, a failed
-- assertion, or an access outside of its buffers, which C leaves undefined.
use mathlib.Core.Option.{Option, none, some}
use mathlib.Core.Path.{◌≡◌, refl}

pub data Outcome {ℓ} (A : Type ℓ) : Type ℓ where
  ok : A → Outcome A
  refused : Outcome A
  aborted : Outcome A
  fault : Outcome A

-- A read that finds nothing is an access out of range.
abbrev pub or_fault {ℓ} : {A : Type ℓ} → Option A → Outcome A
or_fault none = fault
or_fault (some a) = ok a

-- What comes after a result; anything else ends the run.
infixl 5 ◌>>=◌
abbrev pub ◌>>=◌ {κ ℓ} : {B : Type κ} {A : Type ℓ} → Outcome A → (A → Outcome B) → Outcome B
fault >>= next = fault
aborted >>= next = aborted
refused >>= next = refused
ok result >>= next = next result

-- A run that succeeds went through a result of its first part.
pub >>=-eq-ok {κ ℓ} :
    {B : Type κ} {A : Type ℓ} {result : B} (run : Outcome A) (next : A → Outcome B)
    → (run >>= next) ≡ ok result
    → (mid : A) × (run ≡ ok mid) × (next mid ≡ ok result)
>>=-eq-ok fault next ran = cc
>>=-eq-ok aborted next ran = cc
>>=-eq-ok refused next ran = cc
>>=-eq-ok (ok mid) next ran = (mid, refl, ran)
