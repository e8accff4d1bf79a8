-- ===== src/Plugins/Graph/Fuel.antt =====
-- The visit of the plugins ends.
use run_forge.Base.{
  ℕ, zero, suc, ◌+◌, ◌≤◌, ◌<◌, String, eq_iff, ◌≡◌, refl, Bool, true, false, some, List, [], ◌∷◌,
  arith, if◌then◌else◌, contains, length, ok, err, ◌>>=◌, Bool-cases, Option-cases, inl, inr,
}
use run_forge.Plugins.Graph.{
  out_of_fuel, duplicate_plugin, deployment_not_found, missing_dependency,
  dependency_version_mismatch, contribution_conflict, dependency_cycle, R, Selected, find_selected,
  Visits, targets, visit_each, visit, unvisited, ids_of, order,
}

abbrev pub is_out_of_fuel : {A : Type 0} → R A → Bool
is_out_of_fuel (err out_of_fuel) = true
is_out_of_fuel (err _) = false
is_out_of_fuel (ok _) = false

-- The plugins that are not being visited.
remaining : List Selected → List String → ℕ
remaining [] stack = 0
remaining (x ∷ xs) stack = (if contains stack x.selection.id then 0 else 1) + remaining xs stack

remaining-le :
    (selected : List Selected) (stack : List String) → remaining selected stack ≤ length selected
unfolding remaining
remaining-le [] stack = omega arith
remaining-le (x ∷ xs) stack = ground (arith, remaining-le xs stack)

remaining-more :
    (selected : List Selected) (stack : List String) (id : String)
    → remaining selected (id ∷ stack) ≤ remaining selected stack
unfolding remaining contains
remaining-more [] stack id = omega arith
remaining-more (x ∷ xs) stack id = ground (arith, remaining-more xs stack id)

remaining-less :
    (selected : List Selected) (stack : List String) (id : String) {item : Selected}
    → find_selected id selected ≡ some item
    → contains stack id ≡ false
    → remaining selected (id ∷ stack) < remaining selected stack
unfolding remaining find_selected contains
remaining-less [] stack id e outside = cc
remaining-less (x ∷ xs) stack id {item} e outside = ground (
  arith,
  eq_iff x.selection.id id,
  eq_iff id x.selection.id,
  remaining-more xs stack id,
  remaining-less xs stack id {item = item},
)

chained :
    {A B : Type 0} (first : R A) (next : A → R B)
    → is_out_of_fuel first ≡ false
    → ((a : A) → is_out_of_fuel (next a) ≡ false)
    → is_out_of_fuel (first >>= next) ≡ false
chained (ok a) next h hs = hs a
chained (err duplicate_plugin) next h hs = refl
chained (err deployment_not_found) next h hs = refl
chained (err missing_dependency) next h hs = refl
chained (err dependency_version_mismatch) next h hs = refl
chained (err contribution_conflict) next h hs = refl
chained (err dependency_cycle) next h hs = refl
chained (err out_of_fuel) next h hs = cc

visit_each-fuel :
    (v : String → Visits → R Visits)
    → ((id : String) (s : Visits) → is_out_of_fuel (v id s) ≡ false)
    → (ids : List String) (s : Visits) → is_out_of_fuel (visit_each v ids s) ≡ false
unfolding visit_each
visit_each-fuel v enough [] s = refl
visit_each-fuel v enough (id ∷ ids) s =
    chained (v id s) (λ t. visit_each v ids t) (enough id s) (λ t. visit_each-fuel v enough ids t)

visit-fuel :
    (fuel : ℕ) (selected : List Selected) (stack : List String) (id : String) (s : Visits)
    → remaining selected stack < fuel
    → is_out_of_fuel (visit fuel selected stack id s) ≡ false
unfolding visit
visit-fuel zero selected stack id s enough = ground arith
visit-fuel (suc fuel) selected stack id s enough = elim (Bool-cases (contains s.visited id)) [
  | inl old ↦ rw (old, visit) refl
  | inr new ↦ elim (Bool-cases (contains stack id)) [
    | inl inside ↦ rw (new, inside, visit) refl
    | inr outside ↦ elim (Option-cases (find_selected id selected)) [
      | inl missing ↦ rw (new, outside, missing, visit) refl
      | inr (item, found) ↦
          let less = remaining-less selected stack id found outside in
          rw (new, outside, found, visit)
            (chained _ _
              (visit_each-fuel (visit fuel selected (id ∷ stack))
                (λ a t. visit-fuel fuel selected (id ∷ stack) a t (omega (arith, less)))
                (targets selected item.definition.dependencies) s)
              (λ t. refl))
    ]
  ]
]

-- The visit of the selected plugins does not run out of its fuel, also when they depend on each other
-- in a cycle.
pub order-fuel : (selected : List Selected) → is_out_of_fuel (order selected) ≡ false
unfolding order
order-fuel selected =
    chained _ _
      (visit_each-fuel (visit (length selected + 1) selected [])
        (λ id s.
          visit-fuel (length selected + 1) selected [] id s
            (omega (arith, remaining-le selected [])))
        (ids_of selected) unvisited)
      (λ t. refl)
