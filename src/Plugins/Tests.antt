-- ===== src/Plugins/Tests.antt =====
-- Three plugins, and the theorems of their order.
use run_forge.Base.{
  ◌≡◌, refl, false, none, some, Option, String, str_eq, List, [], ◌∷◌, contains, err, if◌then◌else◌,
}
use run_forge.Plugins.Graph.{
  PluginDependency, PluginDefinition, SpacePluginSelection, Selected, dependency_cycle, select,
  has_selected, find_selected, check_dependencies, check_dependencies_of, check_conflicts,
  check_contributions, order, visit, visit_each, targets, resolve_plugin_graph,
}
use run_forge.Plugins.Graph.Order.{IsOrder, resolve_plugin_graph-IsOrder}
use run_forge.Plugins.Graph.Fuel.{is_out_of_fuel, order-fuel}

abbrev on : String → PluginDependency
on id = record { id = id; version = none; optional = false }

abbrev plugin : String → List PluginDependency → PluginDefinition
plugin id deps = record { id = id; dependencies = deps; contributions = [] }

abbrev deployments : String → String → String → Option PluginDefinition
deployments id version hash =
    if str_eq id "web"
    then some (plugin "web" (on "core" ∷ []))
    else if str_eq id "core"
    then some (plugin "core" [])
    else none

abbrev selection : String → SpacePluginSelection
selection id = record { id = id; version = "1"; content_hash = "h" }

abbrev selections : List SpacePluginSelection
selections = selection "web" ∷ selection "core" ∷ []

abbrev web_item : Selected
web_item = record { selection = selection "web"; definition = plugin "web" (on "core" ∷ []) }

abbrev core_item : Selected
core_item = record { selection = selection "core"; definition = plugin "core" [] }

resolve_plugin_graph-IsOrder_example :
    IsOrder (web_item ∷ core_item ∷ []) (web_item ∷ core_item ∷ [])
unfolding select has_selected find_selected check_dependencies check_dependencies_of check_conflicts
    check_contributions order visit visit_each targets resolve_plugin_graph contains
resolve_plugin_graph-IsOrder_example =
    resolve_plugin_graph-IsOrder deployments selections {selected = web_item ∷ core_item ∷ []}
      {ordered = web_item ∷ core_item ∷ []} refl refl

abbrev looping : List Selected
looping = record { selection = selection "core"; definition = plugin "core" (on "core" ∷ []) } ∷ []

order-looping : order looping ≡ err dependency_cycle
unfolding order visit visit_each targets has_selected find_selected contains
order-looping = refl

order-fuel_example : is_out_of_fuel (order looping) ≡ false
order-fuel_example = order-fuel looping
