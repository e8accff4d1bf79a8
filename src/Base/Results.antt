-- ===== src/Base/Results.antt =====
-- What a function returns or throws, with the bind of `do` blocks.
use mathlib.Core.Path.{◌≡◌, refl, subst}
use mathlib.Core.Logic.{◌⊎◌, inl, inr}
use mathlib.Core.Bool.{Bool, true, false}
use mathlib.Core.Option.{Option, none, some}
use run_forge.Base.Tests.{if◌then◌else◌}

pub data Result {ℓ} (E : Type ℓ) (A : Type ℓ) : Type ℓ where
  err : E → Result E A
  ok : A → Result E A

infixl 6 ◌>>=◌ ◌>>◌
abbrev pub ◌>>=◌ {ℓ} : {E A B : Type ℓ} → Result E A → (A → Result E B) → Result E B
err thrown >>= next = err thrown
ok value >>= next = next value

abbrev pub ◌>>◌ {ℓ} : {E A B : Type ℓ} → Result E A → Result E B → Result E B
first >> second = first >>= λ _. second

-- `if (!test) throw e`.
abbrev pub require_that {ℓ} : {E : Type ℓ} → Bool → E → Result E (Unit {ℓ})
require_that true thrown = ok tt
require_that false thrown = err thrown

-- `if (!value) throw e`, for a value that may be missing.
abbrev pub require_some {ℓ} : {E A : Type ℓ} → Option A → E → Result E A
require_some (some value) thrown = ok value
require_some none thrown = err thrown

pub Result-cases {ℓ} :
    {E A : Type ℓ} (outcome : Result E A)
    → ((thrown : E) × (outcome ≡ err thrown)) ⊎ ((value : A) × (outcome ≡ ok value))
Result-cases (err thrown) = inl (thrown, refl)
Result-cases (ok value) = inr (value, refl)

-- A predicate of the value that is returned, if one is.
abbrev pub OnOk {ℓ κ} : {E A : Type ℓ} → (A → Type κ) → Result E A → Type κ
OnOk P (ok value) = P value
OnOk P (err _) = Unit

-- It holds after a chain if it holds after the rest, for each value of the first part.
pub OnOk-bind {ℓ κ} :
    {E A B : Type ℓ} (P : B → Type κ) (outcome : Result E A) (next : A → Result E B)
    → ((value : A) → outcome ≡ ok value → OnOk P (next value))
    → OnOk P (outcome >>= next)
OnOk-bind P (err _) next rest = tt
OnOk-bind P (ok value) next rest = rest value refl

pub OnOk-value {ℓ κ} :
    {E A : Type ℓ} (P : A → Type κ) {outcome : Result E A} {value : A}
    → OnOk P outcome
    → outcome ≡ ok value
    → P value
OnOk-value P holds e = subst (OnOk P) e holds

pub OnOk-if {ℓ κ} :
    {E A : Type ℓ} (P : A → Type κ) (b : Bool) (first second : Result E A)
    → (b ≡ true → OnOk P first)
    → (b ≡ false → OnOk P second)
    → OnOk P (if b then first else second)
OnOk-if P true first second one other = one refl
OnOk-if P false first second one other = other refl
