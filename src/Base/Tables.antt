-- ===== src/Base/Tables.antt =====
-- A JavaScript Map from ids to rows, as the list of its entries in the order of insertion.
use Prim.Native.String.{String}
use text.Mathlib.Text.{◌==◌ as str_eq}
use text.Mathlib.TextEquality.{eq_iff}
use mathlib.Core.Path.{◌≡◌, refl, sym, ap, ◌∙◌}
use mathlib.Core.Bool.{Bool, true, false}
use mathlib.Core.Option.{Option, none, some}
use mathlib.Core.List.{List, [], ◌∷◌}
use native.Mathlib.Omega.{arith}
use mathlib.Core.Logic.{inl, inr}
use run_forge.Base.Tests.{if◌then◌else◌, Bool-cases, Option-cases}
use run_forge.Base.Lists.{any, filter, contains, any-contains, contains-filter, filter-only}

abbrev pub Table {ℓ} : Type ℓ → Type ℓ
Table A = List (String × A)

-- A test of the row that is found, if one is.
abbrev pub holds_row {ℓ} : {A : Type ℓ} → (A → Bool) → Option A → Bool
holds_row p none = false
holds_row p (some row) = p row

any-witness :
    (p : String → Bool) (ids : List String) → any p ids ≡ true → (key : String) × (p key ≡ true)
any-witness p [] e = cc
any-witness p (key ∷ ids) e = elim (Bool-cases (p key)) [
  | inl passes ↦ (key, passes)
  | inr fails ↦ any-witness p ids (ground (arith, e))
]

module _ {ℓ} {A : Type ℓ} where
  unfoldable pub find_row : String → Table A → Option A
  find_row id [] = none
  find_row id ((key, row) ∷ t) = if str_eq key id then some row else find_row id t

  -- `set`: in the place of the old entry, or at the end.
  unfoldable pub set_row : String → A → Table A → Table A
  set_row id row [] = (id, row) ∷ []
  set_row id row ((key, old) ∷ t) =
      let rest = set_row id row t in if str_eq key id then (id, row) ∷ t else (key, old) ∷ rest

  -- `delete` of each of the ids.
  unfoldable pub remove_rows : List String → Table A → Table A
  remove_rows ids [] = []
  remove_rows ids ((key, row) ∷ t) =
      let rest = remove_rows ids t in if contains ids key then rest else (key, row) ∷ rest

  unfoldable pub map_rows : (A → A) → Table A → Table A
  map_rows f [] = []
  map_rows f ((key, row) ∷ t) = (key, f row) ∷ map_rows f t

  unfoldable pub keys : Table A → List String
  keys [] = []
  keys ((key, row) ∷ t) = key ∷ keys t

  unfoldable rows_of : List String → Table A → List A
  unfolding find_row
  rows_of [] t = []
  rows_of (key ∷ ids) t = elim (find_row key t) [
    | none ↦ rows_of ids t
    | some row ↦ row ∷ rows_of ids t
  ]

  -- `values`: the row of each key.
  unfoldable pub rows : Table A → List A
  unfolding keys rows_of
  rows t = rows_of (keys t) t

  -- The ids of the rows that pass a test; a row is stored under its own id.
  unfoldable pub ids_where : (A → Bool) → Table A → List String
  unfolding keys
  ids_where p t = filter (λ key. holds_row p (find_row key t)) (keys t)

  unfoldable pub any_row : (A → Bool) → Table A → Bool
  unfolding keys
  any_row p t = any (λ key. holds_row p (find_row key t)) (keys t)

  pub find_row-set_row :
      (j id : String) (row : A) (t : Table A)
      → find_row j (set_row id row t) ≡ (if str_eq id j then some row else find_row j t)
  unfolding find_row set_row
  find_row-set_row j id row [] = refl
  find_row-set_row j id row ((key, old) ∷ t) =
      ground (arith, eq_iff key id, eq_iff key j, eq_iff id j, find_row-set_row j id row t)

  pub find_row-remove_rows :
      (j : String) (ids : List String) (t : Table A)
      → find_row j (remove_rows ids t) ≡ (if contains ids j then none else find_row j t)
  unfolding find_row remove_rows
  find_row-remove_rows j ids [] = ground arith
  find_row-remove_rows j ids ((key, row) ∷ t) =
      ground (arith, eq_iff key j, find_row-remove_rows j ids t)

  find_row-map_rows :
      (j : String) (f : A → A) (t : Table A)
      → find_row j (map_rows f t) ≡ (elim (find_row j t) [ none ↦ none | some row ↦ some (f row) ])
  unfolding find_row map_rows
  find_row-map_rows j f [] = refl
  find_row-map_rows j f ((key, row) ∷ t) = elim (Bool-cases (str_eq key j)) [
    | inl same ↦ rw same refl
    | inr other ↦ rw other (find_row-map_rows j f t)
  ]

  pub contains-keys :
      (j : String) (t : Table A) {row : A} → find_row j t ≡ some row → contains (keys t) j ≡ true
  unfolding find_row keys contains
  contains-keys j [] e = cc
  contains-keys j ((key, r) ∷ t) {row} e = ground (arith, contains-keys j t {row = row})

  pub any_row-found :
      (p : A → Bool) (j : String) (t : Table A) {row : A}
      → find_row j t ≡ some row
      → p row ≡ true
      → any_row p t ≡ true
  unfolding any_row
  any_row-found p j t found e =
      any-contains (λ key. holds_row p (find_row key t)) j (keys t) (contains-keys j t found)
        (rw found e)

  pub contains-ids_where :
      (p : A → Bool) (j : String) (t : Table A)
      → contains (ids_where p t) j ≡ holds_row p (find_row j t)
  unfolding ids_where
  contains-ids_where p j t = elim (Option-cases (find_row j t)) [
    | inl missing ↦ elim (Bool-cases (contains (ids_where p t) j)) [
      | inl listed ↦
          let absurd = filter-only (λ key. holds_row p (find_row key t)) j (keys t) listed in
          ground (arith, absurd)
      | inr unlisted ↦ rw (missing, unlisted) refl
    ]
    | inr (row, found) ↦ elim (Bool-cases (p row)) [
      | inl passes ↦
          rw (found, passes)
            (contains-filter (λ key. holds_row p (find_row key t)) j (keys t)
              (contains-keys j t found) (rw found passes))
      | inr fails ↦ elim (Bool-cases (contains (ids_where p t) j)) [
        | inl listed ↦
            let absurd = filter-only (λ key. holds_row p (find_row key t)) j (keys t) listed in
            ground (arith, absurd)
        | inr unlisted ↦ rw (found, fails, unlisted) refl
      ]
    ]
  ]

  pub any_row-witness :
      (p : A → Bool) (t : Table A)
      → any_row p t ≡ true
      → (key : String) × (row : A) × (find_row key t ≡ some row) × (p row ≡ true)
  unfolding any_row
  any_row-witness p t e =
      let (key, passes) = any-witness (λ key. holds_row p (find_row key t)) (keys t) e in
      elim (Option-cases (find_row key t)) [
        | inl missing ↦ let absurd : false ≡ true = ap (holds_row p) (sym missing) ∙ passes in cc
        | inr (row, found) ↦ (key, row, found, ap (holds_row p) (sym found) ∙ passes)
      ]
