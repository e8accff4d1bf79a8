-- ===== src/Base/Strings.antt =====
-- What the source does to strings that it keeps whole: `trim`, the collapse of white space, `join`,
-- and a search for words without regard to the case of ASCII letters.
use Prim.Native.Nat.{ℕ, ◌+◌}
use Prim.Native.Char.{code}
use Prim.Native.String
use Prim.Native.String.{String}
use mathlib.Core.Bool.{Bool, true, false, ◌&&◌, ◌||◌}
use mathlib.Core.List.{List, [], ◌∷◌}
use run_forge.Base.Tests.{leb, ◌==◌, if◌then◌else◌}
use run_forge.Base.Texts.{Text, codes}

infixr 66 ◌+s◌
abbrev pub ◌+s◌ : String → String → String
s +s t = String.◌++◌ s t

-- White space, as `trim` and `\s` know it.
unfoldable pub is_space : ℕ → Bool
is_space c =
    (leb 9 c && leb c 13)
    || c == 32
    || c == 160
    || c == 5760
    || (leb 8192 c && leb c 8202)
    || c == 8232
    || c == 8233
    || c == 8239
    || c == 8287
    || c == 12288
    || c == 65279

unfoldable pub trim_start : String → String
trim_start String.[] = ""
trim_start (String.◌∷◌ c s) = if is_space (code c) then trim_start s else String.◌∷◌ c s

abbrev pub trim_char : Bool → String → String → String
trim_char true String.[] whole = ""
trim_char true (String.◌∷◌ _ _) whole = whole
trim_char false rest whole = whole

unfoldable pub trim_end : String → String
trim_end String.[] = ""
trim_end (String.◌∷◌ c s) =
    let rest = trim_end s in trim_char (is_space (code c)) rest (String.◌∷◌ c rest)

unfoldable pub trim : String → String
unfolding is_space trim_start trim_end
trim s = trim_end (trim_start s)

-- The text has white space only, or nothing.
unfoldable pub is_white : String → Bool
is_white String.[] = true
is_white (String.◌∷◌ c s) = is_space (code c) && is_white s

-- `replace(/\s+/g, ' ')`; the flag says whether the character before was white space.
unfoldable pub collapse_from : Bool → String → String
collapse_from after_space String.[] = ""
collapse_from after_space (String.◌∷◌ c s) =
    let rest = collapse_from (is_space (code c)) s in
    if is_space (code c) then (if after_space then rest else " " +s rest) else String.◌∷◌ c rest

unfoldable pub collapse_spaces : String → String
unfolding is_space collapse_from
collapse_spaces s = collapse_from false s

unfoldable pub join : String → List String → String
join separator [] = ""
join separator (s ∷ []) = s
join separator (s ∷ rest) = s +s separator +s join separator rest

-- ASCII letters in lower case.
abbrev pub lower : Text → Text
lower [] = []
lower (c ∷ s) = (if leb b'A' c && leb c b'Z' then c + 32 else c) ∷ lower s

abbrev pub is_prefix : Text → Text → Bool
is_prefix [] s = true
is_prefix (c ∷ p) [] = false
is_prefix (c ∷ p) (d ∷ s) = c == d && is_prefix p s

abbrev pub includes : Text → Text → Bool
includes word [] = is_prefix word []
includes word (c ∷ s) = is_prefix word (c ∷ s) || includes word s

-- The test of a case-insensitive pattern `w1|w2|…` of lower-case words.
unfoldable pub includes_any : List String → Text → Bool
includes_any [] s = false
includes_any (w ∷ ws) s = includes (codes w) (lower s) || includes_any ws s
