-- ===== src/Orchestrator/Build/Tests.antt =====
-- Examples of the theorems on building actions (tierkreis/src/orchestrator.rs).
use tierkreis.Base.{
  ℕ, String, ltb, ◌++◌, ◌≡◌, refl, true, false, List, [], ◌∷◌, Outcome, ok, err, any, contains,
  nat_eq, string_eq, pair_eq, panic, external, arith,
}
use tierkreis.Base.Map.{Map, get, insert, extend, get_or_default}
use tierkreis.Location.{node, with_map_index, root, from_node_index_iter, component_eq, location_eq}
use tierkreis.Asset.{AssetSpec}
use tierkreis.Orchestrator.Plan.{Action}
use tierkreis.Storage.Memory.{Memory, save}
use tierkreis.Storage.{save_asset}
use tierkreis.Query.{collect_inputs}
use tierkreis.State.{Nodes, is_paused}
use tierkreis.State.Runtime.{read_many, read}
use tierkreis.Graph.{has_breakpoint, get_port_name, node_of_port, const}
use tierkreis.Graph.Plain.{plain_graph, accepted_lem}
use tierkreis.Orchestrator.Ready.{
  find_ready_nodes, outputs_missing, not_paused, always_run, is_if_else, has_outputs,
}
use tierkreis.Orchestrator.Build.{Shared, build_const_action, build_output_actions}
use tierkreis.Orchestrator.Build.Actions.{
  build_actions_within, build_actions, collect_node_states, waits,
}
use tierkreis.Orchestrator.Build.Placed.{is_within, in_range, all_built}
use tierkreis.Orchestrator.Build.Actions.Below.{all_within-build_actions, in_range-build_actions}
use tierkreis.Orchestrator.Build.Actions.Fuel.{build_actions_within-enough_fuel}
use tierkreis.Orchestrator.Build.Actions.Once.{find_ready_nodes-build_actions}
use tierkreis.Orchestrator.Build.Actions.Finish.{ends_run, any-build_actions}
use tierkreis.Orchestrator.Build.Sample.{
  outer, inner, mapping, asset, started, fresh, valued, mapped, elements, services, context, shared,
}
use tierkreis.Orchestrator.Build.Elements.{
  panics, gathered, panics-insert_unfolded, bundle_outputs_lem,
}
use tierkreis.Orchestrator.Build.Nested.{insert_unfolded, bundle_outputs}

-- the constant inside the `Eval` node is built
abbrev built : Outcome (List (Action ℕ) × Shared plain_graph ℕ Memory)
built = build_actions (services started) 2 context outer shared

all_within-build_actions_example : all_built (λ (a : Action ℕ). is_within root a.loc) built ≡ true
all_within-build_actions_example =
    all_within-build_actions (services started) 2 context outer shared

build_actions_within-enough_fuel_example :
    build_actions_within (services started) (λ _ _ _. panic) 2 context outer shared
    ≡ build_actions_within (services started) (λ _ _ _. err external) 5 context outer shared
unfolding get
build_actions_within-enough_fuel_example =
    build_actions_within-enough_fuel (services started) 2 5 (λ _ _ _. panic) (λ _ _ _. err external)
      context outer shared (omega arith) (omega arith) (omega arith) (omega arith)

abbrev nodes_or : Outcome Nodes → Nodes
nodes_or (ok nodes) = nodes
nodes_or _ = []

abbrev actions_or : Outcome (List (Action ℕ) × Shared plain_graph ℕ Memory) → List (Action ℕ)
actions_or (ok (actions, after)) = actions
actions_or _ = []

abbrev shared_or :
    Outcome (List (Action ℕ) × Shared plain_graph ℕ Memory) → Shared plain_graph ℕ Memory
shared_or (ok (actions, after)) = after
shared_or _ = shared

abbrev ready_or : Outcome (List ℕ) → List ℕ
ready_or (ok nodes) = nodes
ready_or _ = []

abbrev first : Outcome (List (Action ℕ) × Shared plain_graph ℕ Memory)
first = build_actions (services fresh) 1 context outer shared

-- what is ready afterwards
abbrev again : List ℕ
again = ready_or (
    find_ready_nodes plain_graph root outer
      (nodes_or (collect_node_states (services fresh) context outer))
      (shared_or first).scheduled_this_lifetime)

find_ready_nodes-build_actions_example : contains again 2 ≡ false
unfolding get insert extend get_or_default read_many is_paused outputs_missing not_paused always_run
    is_if_else has_outputs has_breakpoint find_ready_nodes collect_node_states waits build_actions
    build_const_action save_asset save
find_ready_nodes-build_actions_example =
    find_ready_nodes-build_actions (services fresh)
      (λ g from f p nodes n. accepted_lem f g.nodes nodes n) 0 context outer shared
      (shared_or first) (nodes_or (collect_node_states (services fresh) context outer)) (2 ∷ []) 2
      (const 7) (actions_or first) refl refl refl refl refl refl refl refl
      (nodes_or (collect_node_states (services fresh) context outer)) again refl

abbrev last : Outcome (List (Action ℕ) × Shared plain_graph ℕ Memory)
last = build_actions (services valued) 1 context inner shared

any-build_actions_example : any (λ (a : Action ℕ). ends_run a.kind) (actions_or last) ≡ true
unfolding get insert extend get_or_default read_many is_paused outputs_missing not_paused always_run
    is_if_else has_outputs has_breakpoint find_ready_nodes collect_node_states waits build_actions
    build_output_actions collect_inputs get_port_name node_of_port from_node_index_iter
any-build_actions_example =
    any-build_actions (services valued) 0 context inner shared (shared_or last)
      (nodes_or (collect_node_states (services valued) context inner)) (0 ∷ []) (actions_or last)
      refl refl refl refl refl refl refl refl

abbrev marked : Outcome (List (Action ℕ) × Shared plain_graph ℕ Memory)
marked = build_actions (services mapped) 3 context mapping shared

in_range-build_actions_example : all_built (λ (a : Action ℕ). in_range a.kind) marked ≡ true
in_range-build_actions_example = in_range-build_actions (services mapped) 3 context mapping shared

panics-insert_unfolded_example :
    panics (insert_unfolded "y" (asset ∷ asset ∷ []) ([] ∷ [])) ≡ ltb 1 2
panics-insert_unfolded_example = panics-insert_unfolded "y" (asset ∷ asset ∷ []) ([] ∷ [])

-- the outputs of both elements under `x`
abbrev bundles : Map String (List AssetSpec)
bundles = ("x", asset ∷ asset ∷ []) ∷ []

abbrev no_bundles : Map String (List AssetSpec)
no_bundles = []

abbrev output_name : String
output_name = "x"

bundle_outputs_lem_example :
    get_or_default [] bundles output_name
    ≡ get_or_default [] no_bundles output_name
      ++ gathered (services elements) (node 3 ∷ []) 0 output_name 0 2
unfolding bundle_outputs get insert get_or_default read with_map_index
bundle_outputs_lem_example =
    bundle_outputs_lem (services elements) (node 3 ∷ []) 0 output_name 0 2 no_bundles bundles refl
