-- ===== src/Common/Results.antt =====
-- What a run of the code can end in: a value, or one of the ways the process stops.
-- `assertion` is a failed `assert` (the default build keeps them), `fatal` a LOG_FATAL, which
-- aborts in `Logger::~Logger`, `undefined` an access outside the storage, and `too_long` the
-- exception std::length_error, `no_memory` the exception std::bad_alloc.
use mathlib.Core.Path.{◌≡◌, refl}
use mathlib.Core.Bool.{Bool, true, false}

pub data Fault : Type 0 where
  assertion fatal undefined too_long no_memory : Fault

pub data Outcome {ℓ} (A : Type ℓ) : Type ℓ where
  err : Fault → Outcome A
  ok : A → Outcome A

abbrev pub check : Bool → Fault → Outcome (Unit {0})
check false fault = err fault
check true fault = ok tt

-- `assert(b)`
abbrev pub assert : Bool → Outcome (Unit {0})
assert b = check b assertion

infixl 5 ◌>>=◌
abbrev pub ◌>>=◌ {ℓ ℓ'} : {A : Type ℓ} {B : Type ℓ'} → Outcome A → (A → Outcome B) → Outcome B
err fault >>= next = err fault
ok a >>= next = next a

infixl 5 ◌>>◌
abbrev pub ◌>>◌ {ℓ} : {B : Type ℓ} → Outcome (Unit {0}) → Outcome B → Outcome B
first >> second = first >>= λ _. second

pub >>=-eq-ok {ℓ ℓ'} :
    {A : Type ℓ} {B : Type ℓ'} (m : Outcome A) (next : A → Outcome B) {b : B}
    → (m >>= next) ≡ ok b
    → (a : A) × (m ≡ ok a) × (next a ≡ ok b)
>>=-eq-ok (err fault) next h = cc
>>=-eq-ok (ok a) next h = (a, refl, h)
