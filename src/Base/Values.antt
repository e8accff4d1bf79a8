-- ===== src/Base/Values.antt =====
-- Values of JavaScript that come from parsed input. A number's value is never used.
use Prim.Native.Nat.{ℕ}
use Prim.Native.String.{String}
use mathlib.Core.Bool.{Bool, true, false}
use mathlib.Core.List.{List, [], ◌∷◌}
use text.Mathlib.Text.{◌==◌ as str_eq}
use run_forge.Base.Tests.{if◌then◌else◌}

mutual
  pub data Value : Type 0 where
    undefined null : Value
    bool : Bool → Value
    number : ℕ → Value
    string : String → Value
    array : Values → Value
    object : Fields → Value

  pub data Values : Type 0 where
    no_values : Values
    cons_value : Value → Values → Values

  pub data Fields : Type 0 where
    no_fields : Fields
    cons_field : String → Value → Fields → Fields

abbrev pub elements : Values → List Value
elements no_values = []
elements (cons_value v vs) = v ∷ elements vs

-- `value.key`, and `hasOwnProperty`. The keys of an object are distinct.
unfoldable pub field : String → Fields → Value
field key no_fields = undefined
field key (cons_field k v fs) = if str_eq k key then v else field key fs

unfoldable pub has_own : String → Fields → Bool
has_own key no_fields = false
has_own key (cons_field k v fs) = if str_eq k key then true else has_own key fs
