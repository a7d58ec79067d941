-- ===== src/Prelude/Runs.antt =====
-- A run that neither panics nor runs out of fuel, with what holds of its value.
use mathlib.Core.Path.{◌≡◌, refl, subst}
use mathlib.Core.Bool.{Bool, true, false}
use mathlib.Core.Logic.{◌⊎◌, inl, inr}
use mathlib.Core.Option.{Option, none, some}
use sap_hana_compatibility_l.Prelude.Tests.{if◌then◌else◌}
use sap_hana_compatibility_l.Prelude.Results.{Outcome, Error, ok, err, guard, ◌>>=◌}

pub data Ensures {ℓ κ} {A : Type ℓ} (P : A → Type κ) : Outcome A → Type (ℓ ⊔ κ) where
  holds : {a : A} → P a → Ensures P (ok a)
  failed : {e : Error} → Ensures P (err e)

-- The run has no value and no error but these.
pub Ensures-cases {ℓ κ} :
    {A : Type ℓ} {P : A → Type κ} {r : Outcome A}
    → Ensures P r
    → ((a : A) × (r ≡ ok a) × P a) ⊎ ((e : Error) × (r ≡ err e))
Ensures-cases (holds {a} h) = inl (a, refl, h)
Ensures-cases (failed {e}) = inr (e, refl)

pub Ensures-ok {ℓ κ} :
    {A : Type ℓ} {P : A → Type κ} {r : Outcome A} {a : A} → Ensures P r → r ≡ ok a → P a
Ensures-ok {P} (holds h) e = subst P (cc) h
Ensures-ok failed e = cc

pub Ensures-if {ℓ κ} :
    {A : Type ℓ} {P : A → Type κ} (b : Bool) {x y : Outcome A}
    → (b ≡ true → Ensures P x)
    → (b ≡ false → Ensures P y)
    → Ensures P (if b then x else y)
Ensures-if true hx hy = hx refl
Ensures-if false hx hy = hy refl

pub Ensures-guard : (b : Bool) (e : Error) → Ensures (λ _. b ≡ true) (guard b e)
Ensures-guard true e = holds refl
Ensures-guard false e = failed

pub Ensures-bind {ℓ κ ℓ' κ'} :
    {A : Type ℓ} {P : A → Type κ} {B : Type ℓ'} {Q : B → Type κ'} {r : Outcome A}
    {f : A → Outcome B}
    → Ensures P r
    → ((a : A) → P a → Ensures Q (f a))
    → Ensures Q (r >>= f)
Ensures-bind (holds {a} h) k = k a h
Ensures-bind failed k = failed

pub Ensures-map {ℓ κ κ'} :
    {A : Type ℓ} {P : A → Type κ} {Q : A → Type κ'} {r : Outcome A}
    → ((a : A) → P a → Q a)
    → Ensures P r
    → Ensures Q r
Ensures-map k (holds {a} h) = holds (k a h)
Ensures-map k failed = failed

-- A value that is looked for, or an error.
pub Ensures-option {ℓ} :
    {A : Type ℓ} (o : Option A) (e : Error)
    → Ensures (λ a. o ≡ some a) (elim o [ none ↦ err e | some a ↦ ok a ])
Ensures-option none e = failed
Ensures-option (some a) e = holds refl

-- What holds of a value may use that the run has it.
pub Ensures-eq {ℓ κ} :
    {A : Type ℓ} {P : A → Type κ} {r : Outcome A} → Ensures P r → Ensures (λ a. r ≡ ok a) r
Ensures-eq (holds h) = holds refl
Ensures-eq failed = failed
