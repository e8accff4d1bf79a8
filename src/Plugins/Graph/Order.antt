-- ===== src/Plugins/Graph/Order.antt =====
-- The order in which plugins start.
use run_forge.Base.{
  ℕ, zero, suc, ◌+◌, String, eq_iff, ◌≡◌, refl, sym, ap, ◌∙◌, true, false, Option, some, List, [],
  ◌∷◌, arith, contains, length, All, NoDup, ok, err, OnOk, OnOk-bind, OnOk-value, Bool-cases,
  Option-cases, inl, inr,
}
use mathlib.Core.Path.{subst}
use text.Mathlib.TextPositions.{eq_refl}
use run_forge.Plugins.Graph.{
  PluginDefinition, SpacePluginSelection, R, Selected, find_selected, Visits, targets, visit_each,
  push, visit, unvisited, ids_of, order, select, check_dependencies, check_conflicts,
  resolve_plugin_graph,
}

-- Each plugin stands, in the order that has the newest first, after the selected ones that it depends on.
abbrev pub AreAfterDependencies : List Selected → List Selected → Type 0
AreAfterDependencies selected [] = Unit
AreAfterDependencies selected (x ∷ xs) =
    All (λ id. contains (ids_of xs) id ≡ true) (targets selected x.definition.dependencies)
    × AreAfterDependencies selected xs

record IsGood (selected : List Selected) (s : Visits) : Type 0 where
  same : s.visited ≡ ids_of s.ordered
  after : AreAfterDependencies selected s.ordered
  distinct : NoDup s.visited

-- What a visit adds: it loses nothing, and adds nothing that is being visited.
record Grows (stack : List String) (s s' : Visits) : Type 0 where
  more : (a : String) → contains s.visited a ≡ true → contains s'.visited a ≡ true
  spares : (a : String) → contains stack a ≡ true → contains s'.visited a ≡ contains s.visited a

Grows-refl : (stack : List String) (s : Visits) → Grows stack s s
Grows-refl stack s = record { more = λ a h. h; spares = λ a h. refl }

Grows-trans :
    (stack : List String) (s s' s'' : Visits)
    → Grows stack s s'
    → Grows stack s' s''
    → Grows stack s s''
Grows-trans stack s s' s'' g g' = record {
  more = λ a h. g'.more a (g.more a h);
  spares = λ a h. g'.spares a h ∙ g.spares a h;
}

All-more :
    (s s' : Visits) (ids : List String)
    → ((a : String) → contains s.visited a ≡ true → contains s'.visited a ≡ true)
    → All (λ a. contains s.visited a ≡ true) ids
    → All (λ a. contains s'.visited a ≡ true) ids
All-more s s' [] more h = tt
All-more s s' (a ∷ ids) more (h, hs) = (more a h, All-more s s' ids more hs)

record IsVisited (selected : List Selected) (stack : List String) (s : Visits) (ids : List String)
    (s' : Visits) : Type 0 where
  good : IsGood selected s'
  grows : Grows stack s s'
  all : All (λ a. contains s'.visited a ≡ true) ids

visit_each-IsVisited :
    (v : String → Visits → R Visits) (selected : List Selected) (stack : List String)
    → ((id : String) (s : Visits)
        → IsGood selected s
        → OnOk (IsVisited selected stack s (id ∷ [])) (v id s))
    → (ids : List String) (s : Visits) → IsGood selected s
    → OnOk (IsVisited selected stack s ids) (visit_each v ids s)
unfolding visit_each
visit_each-IsVisited v selected stack one [] s fine = record {
  good = fine;
  grows = Grows-refl stack s;
  all = tt;
}
visit_each-IsVisited v selected stack one (id ∷ ids) s fine =
    let P = IsVisited selected stack s (id ∷ ids) in
    OnOk-bind P (v id s) _ λ s' visited_id.
      let first = OnOk-value (IsVisited selected stack s (id ∷ [])) (one id s fine) visited_id in
      OnOk-map P (visit_each v ids s') (visit_each-IsVisited v selected stack one ids s' first.good)
        λ s'' rest. record {
          good = rest.good;
          grows = Grows-trans stack s s' s'' first.grows rest.grows;
          all = (rest.grows.more id first.all.0, rest.all);
        }
  where
    OnOk-map :
        (P : Visits → Type 0) {Q : Visits → Type 0} (outcome : R Visits)
        → OnOk Q outcome
        → ((x : Visits) → Q x → P x)
        → OnOk P outcome
    OnOk-map P (ok x) q f = f x q
    OnOk-map P (err _) q f = tt

find_selected-id :
    (id : String) (selected : List Selected) {item : Selected}
    → find_selected id selected ≡ some item
    → item.selection.id ≡ id
unfolding find_selected
find_selected-id id [] e = cc
find_selected-id id (x ∷ xs) {item} e =
    ground (arith, eq_iff x.selection.id id, find_selected-id id xs {item = item})

push-IsVisited :
    (selected : List Selected) (stack : List String) (id : String) (item : Selected) (s s' : Visits)
    → contains s.visited id ≡ false
    → contains stack id ≡ false
    → item.selection.id ≡ id
    → IsVisited selected (id ∷ stack) s (targets selected item.definition.dependencies) s'
    → IsVisited selected stack s (id ∷ []) (push id item s')
unfolding contains
push-IsVisited selected stack id item s s' new outside same_id deps = record {
  good = record {
    same = ap (λ x. x ∷ s'.visited) (sym same_id) ∙ ap (λ v. item.selection.id ∷ v) deps.good.same;
    after = (
      subst (λ v. All (λ a. contains v a ≡ true) (targets selected item.definition.dependencies))
          deps.good.same deps.all,
      deps.good.after,
    );
    distinct = (deps.grows.spares id (ground (arith, eq_refl id)) ∙ new, deps.good.distinct);
  };
  grows = record {
    more = λ a h. ground (arith, deps.grows.more a h);
    spares = λ a h. ground (arith, eq_iff id a, deps.grows.spares a (ground arith));
  };
  all = (ground (arith, eq_refl id), tt);
}

visit-IsVisited :
    (fuel : ℕ) (selected : List Selected) (stack : List String) (id : String) (s : Visits)
    → IsGood selected s
    → OnOk (IsVisited selected stack s (id ∷ [])) (visit fuel selected stack id s)
unfolding visit
visit-IsVisited zero selected stack id s fine = tt
visit-IsVisited (suc fuel) selected stack id s fine = elim (Bool-cases (contains s.visited id)) [
  | inl old ↦ rw (old, visit) (record { good = fine; grows = Grows-refl stack s; all = (old, tt) })
  | inr new ↦ elim (Bool-cases (contains stack id)) [
    | inl inside ↦ rw (new, inside, visit) tt
    | inr outside ↦ elim (Option-cases (find_selected id selected)) [
      | inl missing ↦ rw (new, outside, missing, visit) tt
      | inr (item, found) ↦
          let ids = targets selected item.definition.dependencies in
          let each =
            visit_each-IsVisited (visit fuel selected (id ∷ stack)) selected (id ∷ stack)
              (λ a t. visit-IsVisited fuel selected (id ∷ stack) a t) ids s fine in
          rw (new, outside, found, visit)
            (OnOk-bind (IsVisited selected stack s (id ∷ []))
              (visit_each (visit fuel selected (id ∷ stack)) ids s) _
              λ s' done.
                push-IsVisited selected stack id item s s' new outside
                  (find_selected-id id selected found)
                  (OnOk-value (IsVisited selected (id ∷ stack) s ids) each done))
    ]
  ]
]

-- An order of the selected plugins: each comes after the selected plugins that it depends on, no
-- plugin comes twice, and every selected plugin comes.
pub record IsOrder (selected : List Selected) (ordered : List Selected) : Type 0 where
  pub after : AreAfterDependencies selected ordered
  pub distinct : NoDup (ids_of ordered)
  pub complete : All (λ id. contains (ids_of ordered) id ≡ true) (ids_of selected)

order-IsOrder : (selected : List Selected) → OnOk (IsOrder selected) (order selected)
unfolding order
order-IsOrder selected =
    let v = visit (length selected + 1) selected [] in
    let start : IsGood selected unvisited = record { same = refl; after = tt; distinct = tt } in
    let each =
      visit_each-IsVisited v selected []
        (λ id t. visit-IsVisited (length selected + 1) selected [] id t) (ids_of selected) unvisited
        start in
    OnOk-bind (IsOrder selected) (visit_each v (ids_of selected) unvisited) _ λ s' done.
      let visited = OnOk-value (IsVisited selected [] unvisited (ids_of selected)) each done in
      record {
        after = visited.good.after;
        distinct = subst NoDup visited.good.same visited.good.distinct;
        complete =
            subst (λ v'. All (λ id. contains v' id ≡ true) (ids_of selected)) visited.good.same
              visited.all;
      }

-- When the plugins of a space are resolved, the result is an order of the selected plugins: each comes
-- after the selected plugins that it depends on, no plugin comes twice, and every one comes.
pub resolve_plugin_graph-IsOrder :
    (deployments : String → String → String → Option PluginDefinition)
    (selections : List SpacePluginSelection) {selected ordered : List Selected}
    → select deployments [] selections ≡ ok selected
    → resolve_plugin_graph deployments selections ≡ ok ordered
    → IsOrder selected ordered
unfolding resolve_plugin_graph
resolve_plugin_graph-IsOrder deployments selections {selected} found resolved =
    let P = IsOrder selected in
    OnOk-value P
      (rw (found, resolve_plugin_graph)
        (OnOk-bind P (check_dependencies selected selected) _
          λ _ _. OnOk-bind P (check_conflicts [] selected) _ λ _ _. order-IsOrder selected))
      resolved
