-- ===== src/Base/Texts.antt =====
-- JavaScript strings as lists of UTF-16 code units, which is what `length` and `slice` count.
use Prim.Native.Nat.{ℕ, zero, suc, ◌+◌, ◌/◌, ◌%◌, ◌≤◌}
use Prim.Native.Char.{code}
use Prim.Native.String.{String}
use mathlib.Core.Path.{◌≡◌, refl, ap₂}
use mathlib.Core.Logic.{◌≢◌}
use mathlib.Core.Bool.{Bool, true, false, ◌&&◌}
use mathlib.Core.List.{List, [], ◌∷◌}
use native.Mathlib.Omega.{arith}
use run_forge.Base.Tests.{ltb, ◌==◌, ==_iff, if◌then◌else◌}
use run_forge.Base.Lists.{length, All}

abbrev pub Text : Type 0
Text = List ℕ

-- The code units of a literal without characters beyond the basic plane.
abbrev pub codes : String → Text
codes String.[] = []
codes (String.◌∷◌ c s) = code c ∷ codes s

abbrev pub text_eq : Text → Text → Bool
text_eq [] [] = true
text_eq (a ∷ s) (b ∷ t) = a == b && text_eq s t
text_eq [] (_ ∷ _) = false
text_eq (_ ∷ _) [] = false

pub text_eq_sound : (s t : Text) → text_eq s t ≡ true → s ≡ t
text_eq_sound [] [] h = refl
text_eq_sound (a ∷ s) (b ∷ t) h =
    ap₂ ◌∷◌ ((==_iff a b).0 (ground arith)) (text_eq_sound s t (ground arith))
text_eq_sound [] (_ ∷ _) h = cc
text_eq_sound (_ ∷ _) [] h = cc

pub text_eq_self : (s : Text) → text_eq s s ≡ true
text_eq_self [] = refl
text_eq_self (a ∷ s) = ground (arith, text_eq_self s)

-- The decimal digits of a number: `n < fuel` rounds are enough, since each divides by 10.
unfoldable pub decimal_from : ℕ → ℕ → Text → Text
decimal_from zero n acc = acc
decimal_from (suc fuel) n acc =
    let rest = decimal_from fuel (n / 10) ((b'0' + n % 10) ∷ acc) in
    if ltb n 10 then (b'0' + n) ∷ acc else rest

unfoldable pub decimal : ℕ → Text
unfolding decimal_from
decimal n = decimal_from (suc n) n []

length-decimal_from :
    (fuel n : ℕ) (acc : Text) → length (decimal_from fuel n acc) ≤ length acc + 1 + n / 10
unfolding decimal_from
length-decimal_from zero n acc = omega arith
length-decimal_from (suc fuel) n acc =
    ground (arith, length-decimal_from fuel (n / 10) ((b'0' + n % 10) ∷ acc))

-- A number has at most one digit more than its tenth.
pub length-decimal : (n : ℕ) → length (decimal n) ≤ 1 + n / 10
unfolding decimal
length-decimal n = length-decimal_from (suc n) n []

abbrev pub NoNul : Text → Type 0
NoNul s = All (λ c. c ≢ 0) s

decimal_from-NoNul : (fuel n : ℕ) (acc : Text) → NoNul acc → NoNul (decimal_from fuel n acc)
unfolding decimal_from
decimal_from-NoNul zero n acc h = h
decimal_from-NoNul (suc fuel) n acc h =
    ground (arith, decimal_from-NoNul fuel (n / 10) ((b'0' + n % 10) ∷ acc))

pub decimal-NoNul : (n : ℕ) → NoNul (decimal n)
unfolding decimal
decimal-NoNul n = decimal_from-NoNul (suc n) n [] tt
