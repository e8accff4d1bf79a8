-- ===== src/Plugins/Graph.antt =====
-- server/src/plugins/graph.ts, `resolvePluginGraph`: the order in which a space's plugins start.
-- `deployments` is the map of definitions, by the three parts of a deployment's key. The sets
-- `visiting` and `stack`, which hold the same ids, are the argument `stack` of `visit`. `ordered` has
-- its newest definition first. A message is left out of its error.
pub mod Order
pub mod Fuel
use run_forge.Base.{
  ℕ, zero, suc, ◌+◌, String, str_eq, Bool, true, false, not, ◌&&◌, ◌||◌, Option, none, some, List,
  [], ◌∷◌, ◌++◌, map, filter, if◌then◌else◌, is_some, contains, length, any, Result, ok, err, ◌>>=◌,
  ◌>>◌, require_that, require_some,
}

pub record PluginDependency : Type 0 where
  pub id : String
  pub version : Option String
  pub optional : Bool

pub record PluginContribution : Type 0 where
  pub kind : String
  pub id : String

pub record PluginDefinition : Type 0 where
  pub id : String
  pub dependencies : List PluginDependency
  pub contributions : List PluginContribution

pub record SpacePluginSelection : Type 0 where
  pub id : String
  pub version : String
  pub content_hash : String

pub data PluginRuntimeError : Type 0 where
  duplicate_plugin deployment_not_found missing_dependency dependency_version_mismatch :
      PluginRuntimeError
  contribution_conflict dependency_cycle : PluginRuntimeError
  -- `visit` has no fuel left.
  out_of_fuel : PluginRuntimeError

abbrev pub R : Type 0 → Type 0
R A = Result PluginRuntimeError A

pub record Selected : Type 0 where
  pub selection : SpacePluginSelection
  pub definition : PluginDefinition

unfoldable pub find_selected : String → List Selected → Option Selected
find_selected id [] = none
find_selected id (x ∷ xs) = if str_eq x.selection.id id then some x else find_selected id xs

unfoldable pub has_selected : String → List Selected → Bool
has_selected id [] = false
has_selected id (x ∷ xs) = str_eq x.selection.id id || has_selected id xs

-- The first loop: the selections in their order, each with its definition.
unfoldable pub select :
    (String → String → String → Option PluginDefinition)
    → List Selected
    → List SpacePluginSelection
    → R (List Selected)
unfolding has_selected
select deployments selected [] = ok selected
select deployments selected (s ∷ rest) = do
  require_that (not (has_selected s.id selected)) duplicate_plugin
  definition ← require_some (deployments s.id s.version s.content_hash) deployment_not_found
  select deployments (selected ++ record { selection = s; definition = definition } ∷ []) rest

-- `dependency.version && target.selection.version !== dependency.version`
abbrev is_other_version : Option String → String → Bool
is_other_version none actual = false
is_other_version (some v) actual = not (str_eq v "") && not (str_eq actual v)

abbrev check_dependency : List Selected → PluginDependency → R (Unit {0})
check_dependency selected d = elim (find_selected d.id selected) [
  | none ↦ require_that d.optional missing_dependency
  | some target ↦
      require_that (not (is_other_version d.version target.selection.version))
        dependency_version_mismatch
]

unfoldable pub check_dependencies_of : List Selected → List PluginDependency → R (Unit {0})
unfolding find_selected
check_dependencies_of selected [] = ok tt
check_dependencies_of selected (d ∷ ds) =
    check_dependency selected d >> check_dependencies_of selected ds

unfoldable pub check_dependencies : List Selected → List Selected → R (Unit {0})
unfolding check_dependencies_of
check_dependencies selected [] = ok tt
check_dependencies selected (x ∷ xs) =
    check_dependencies_of selected x.definition.dependencies >> check_dependencies selected xs

abbrev is_same : PluginContribution → PluginContribution → Bool
is_same a b = str_eq a.kind b.kind && str_eq a.id b.id

-- `assertNoContributionConflicts`: `owners` are the contributions that have an owner whose id is not
-- empty, since `if (owner)` does not see an empty one.
unfoldable pub check_contributions :
    String → List PluginContribution → List PluginContribution → R (List PluginContribution)
check_contributions id owners [] = ok owners
check_contributions id owners (c ∷ cs) =
    require_that (not (any (is_same c) owners)) contribution_conflict
    >> check_contributions id (if str_eq id "" then owners else c ∷ owners) cs

unfoldable pub check_conflicts : List PluginContribution → List Selected → R (Unit {0})
unfolding check_contributions
check_conflicts owners [] = ok tt
check_conflicts owners (x ∷ xs) =
    check_contributions x.definition.id owners x.definition.contributions >>= λ owners'.
    check_conflicts owners' xs

pub record Visits : Type 0 where
  pub visited : List String
  pub ordered : List Selected

-- The dependencies that are visited: those that are selected.
unfoldable pub targets : List Selected → List PluginDependency → List String
unfolding has_selected
targets selected [] = []
targets selected (d ∷ ds) =
    let rest = targets selected ds in if has_selected d.id selected then d.id ∷ rest else rest

unfoldable pub visit_each : (String → Visits → R Visits) → List String → Visits → R Visits
visit_each visit [] s = ok s
visit_each visit (id ∷ ids) s = visit id s >>= λ s'. visit_each visit ids s'

abbrev pub push : String → Selected → Visits → Visits
push id item s = record { visited = id ∷ s.visited; ordered = item ∷ s.ordered }

-- One round of fuel for each plugin that is being visited.
unfoldable pub visit : ℕ → List Selected → List String → String → Visits → R Visits
unfolding find_selected visit_each targets
visit zero selected stack id s = err out_of_fuel
visit (suc fuel) selected stack id s =
    if contains s.visited id
    then ok s
    else if contains stack id
    then err dependency_cycle
    else elim (find_selected id selected) [
      | none ↦ err missing_dependency
      | some item ↦
          visit_each (visit fuel selected (id ∷ stack))
            (targets selected item.definition.dependencies) s
          >>= λ s'. ok (push id item s')
    ]

abbrev pub unvisited : Visits
unvisited = record { visited = []; ordered = [] }

abbrev pub ids_of : List Selected → List String
ids_of selected = map (λ x. x.selection.id) selected

-- A fuel beyond the number of plugins is enough, since a plugin is not visited while it is visited.
unfoldable pub order : List Selected → R (List Selected)
unfolding visit visit_each
order selected =
    visit_each (visit (length selected + 1) selected []) (ids_of selected) unvisited >>= λ s.
    ok s.ordered

unfoldable pub resolve_plugin_graph :
    (String → String → String → Option PluginDefinition)
    → List SpacePluginSelection
    → R (List Selected)
unfolding select check_dependencies check_conflicts order
resolve_plugin_graph deployments selections = do
  selected ← select deployments [] selections
  check_dependencies selected selected
  check_conflicts [] selected
  order selected
