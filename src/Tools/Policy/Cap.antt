-- ===== src/Tools/Policy/Cap.antt =====
-- The output cap: length, content and repetition.
use native.Mathlib.Decide.{dec_le}
use run_forge.Base.{
  ℕ, zero, suc, ◌-◌, ◌≤◌, ◌<◌, ◌≡◌, refl, ap, ◌≢◌, false, [], ◌∷◌, ◌++◌, arith, leb, Bool-cases,
  length, take, drop, length-append, length-drop, All-append, Text, codes, decimal, NoNul,
  decimal-NoNul, inl, inr, ◌∙◌,
}
use run_forge.Tools.Policy.{ToolPolicyConfig, strip_nul, marker_of, truncate, cap_output}

length-take : (n : ℕ) (s : Text) → n ≤ length s → length (take n s) ≡ n
length-take zero s h = refl
length-take (suc n) [] h = elim h [ ]
length-take (suc n) (c ∷ s) h = ap suc (length-take n s (omega arith))

take-NoNul : (n : ℕ) (s : Text) → NoNul s → NoNul (take n s)
take-NoNul zero s h = tt
take-NoNul (suc n) [] h = tt
take-NoNul (suc n) (c ∷ s) (h, hs) = (h, take-NoNul n s hs)

drop-NoNul : (n : ℕ) (s : Text) → NoNul s → NoNul (drop n s)
drop-NoNul zero s h = h
drop-NoNul (suc n) [] h = tt
drop-NoNul (suc n) (c ∷ s) (h, hs) = drop-NoNul n s hs

strip_nul-NoNul : (s : Text) → NoNul (strip_nul s)
unfolding strip_nul
strip_nul-NoNul [] = tt
strip_nul-NoNul (c ∷ s) = ground (arith, strip_nul-NoNul s)

strip_nul_of_NoNul : (s : Text) → NoNul s → strip_nul s ≡ s
unfolding strip_nul
strip_nul_of_NoNul [] h = refl
strip_nul_of_NoNul (c ∷ s) (h, hs) = ground (arith, strip_nul_of_NoNul s hs)

marker-NoNul : (n : ℕ) → NoNul (marker_of n)
unfolding marker_of
marker-NoNul n =
    All-append (λ c. c ≢ 0) (codes "\n…[工具策略已截断 ") (decimal n ++ codes " 个字符]…\n") (omega arith)
      (All-append (λ c. c ≢ 0) (decimal n) (codes " 个字符]…\n") (decimal-NoNul n) (omega arith))

module _ (share : ℕ → ℕ) (share_le : (n : ℕ) → share n ≤ n) where
  truncate-NoNul : (m : ℕ) (s : Text) → NoNul s → NoNul (truncate share m s)
  unfolding truncate
  truncate-NoNul m s h =
      let marker = marker_of (length s - m) in
      let rest = drop (length s - (m - length marker - share (m - length marker))) s in
      let mark = marker-NoNul (length s - m) in
      elim (Bool-cases (leb m (length marker))) [
        | inl small ↦ rw small (take-NoNul m marker mark)
        | inr large ↦ rw large (
            All-append (λ c. c ≢ 0) (take (share (m - length marker)) s) (marker ++ rest)
              (take-NoNul _ s h) (All-append (λ c. c ≢ 0) marker rest mark (drop-NoNul _ s h)))
      ]

  length-truncate : (m : ℕ) (s : Text) → m < length s → length (truncate share m s) ≡ m
  unfolding truncate
  length-truncate m s h =
      let marker = marker_of (length s - m) in
      let budget = m - length marker in
      let rest = drop (length s - (budget - share budget)) s in
      elim (Bool-cases (leb m (length marker))) [
        | inl small ↦ rw small (length-take m marker (ground arith))
        | inr large ↦ rw large (
            omega (
              arith,
              length-append (take (share budget) s) (marker ++ rest),
              length-append marker rest,
              length-take (share budget) s (omega (arith, share_le budget)),
              length-drop (length s - (budget - share budget)) s,
              share_le budget,
              over_marker m (length marker) large,
            ))
      ]
    where
      over_marker : (m k : ℕ) → leb m k ≡ false → k < m
      over_marker m k e = ground arith

  cap_output_short :
      (cfg : ToolPolicyConfig) (raw : Text)
      → length (strip_nul raw) ≤ cfg.max_output
      → cap_output share cfg raw ≡ strip_nul raw
  unfolding cap_output
  cap_output_short cfg raw h = ground arith

  cap_output_long :
      (cfg : ToolPolicyConfig) (raw : Text)
      → cfg.max_output < length (strip_nul raw)
      → cap_output share cfg raw ≡ truncate share cfg.max_output (strip_nul raw)
  unfolding cap_output
  cap_output_long cfg raw h = ground arith

  -- The capped output holds no NUL. It is the output without its NULs if that fits, and has exactly
  -- the configured length if it does not. Capping it once more changes nothing.
  pub cap_output_bounds :
      (cfg : ToolPolicyConfig) (raw : Text)
      → NoNul (cap_output share cfg raw)
        × (length (strip_nul raw) ≤ cfg.max_output → cap_output share cfg raw ≡ strip_nul raw)
        × (cfg.max_output < length (strip_nul raw)
            → length (cap_output share cfg raw) ≡ cfg.max_output)
        × (cap_output share cfg (cap_output share cfg raw) ≡ cap_output share cfg raw)
  cap_output_bounds cfg raw = elim (dec_le (length (strip_nul raw)) cfg.max_output) [
    | yes fits ↦
        let same = cap_output_short cfg raw fits in
        let clean = strip_nul-NoNul raw in
        let again = strip_nul_of_NoNul (strip_nul raw) clean in
        rw same (
          clean,
          (λ _. refl),
          (λ long. absurd (omega arith)),
          cap_output_short cfg (strip_nul raw) (rw again fits) ∙ again,
        )
    | no long ↦
        let longer : cfg.max_output < length (strip_nul raw) = omega arith in
        let same = cap_output_long cfg raw longer in
        let clean = truncate-NoNul cfg.max_output (strip_nul raw) (strip_nul-NoNul raw) in
        let exact = length-truncate cfg.max_output (strip_nul raw) longer in
        let again = strip_nul_of_NoNul (truncate share cfg.max_output (strip_nul raw)) clean in
        rw same (
          clean,
          (λ fits. absurd (omega arith)),
          (λ _. exact),
          cap_output_short cfg (truncate share cfg.max_output (strip_nul raw))
                (rw again (omega (arith, exact)))
              ∙ again,
        )
  ]
