-- ===== src/Orchestrator/Tests.antt =====
-- Examples of the theorems on the ready nodes and the plan (tierkreis/src/orchestrator.rs).
use tierkreis.Base.{
  ℕ, String, Bool, All, ◌==◌, ◌++◌, ◌≡◌, ◌↔◌, refl, true, none, some, List, [], ◌∷◌, any, map,
  Outcome, ok, nat_eq, string_eq,
}
use tierkreis.Base.Map.{get, insert, get_or_default}
use tierkreis.Bits.{bit}
use tierkreis.Bits.Plain.{plain_ops, plain_laws}
use tierkreis.Location.{Location, node, component_eq, location_eq, root}
use tierkreis.Query.{collect_input}
use tierkreis.Orchestrator.Branch.{build_if_else_action, completes, branch_port}
use tierkreis.Orchestrator.Branch.Chosen.{build_if_else_action_lem}
use tierkreis.Asset.{AssetSpec, memory}
use tierkreis.State.{Nodes, blank, is_paused}
use tierkreis.Graph.{WorkflowGraph, const, output, task, if_else, connected_input_by_port_name}
use tierkreis.Graph.Plain.{plain_graph, accepted_lem}
use tierkreis.Orchestrator.Ready.{
  find_ready_nodes, outputs_missing, not_paused, always_run, is_if_else, awaited_port, cond_of,
  has_outputs,
}
use tierkreis.Orchestrator.Ready.Sound.{CanStart, find_ready_nodes_lem}
use tierkreis.Orchestrator.Plan.{
  ResolvedContext, perform_task, set_paused, set_map_elem_complete, set_complete, Action,
  ActionPlan, empty_plan, plan_actions, apply_plan, push_task,
}
use tierkreis.Orchestrator.Plan.Contents.{
  collect, paused_of, completed_of, switching_of, evalling_of, looping_of, mapping_of, tasks_of,
  plan_actions_lem,
}
use tierkreis.Orchestrator.Plan.Order.{log_event, registry, effects_of, apply_plan_lem}
use tierkreis.Orchestrator.Plan.Elements.{marks, plan_actions-elements}

-- a task with a constant input, and an `IfElse` node whose predicate is not known yet
abbrev graph : WorkflowGraph plain_graph ℕ
graph = record {
  graph = record { nodes = 0 ∷ 1 ∷ 2 ∷ 3 ∷ []; links = (25, 10) ∷ (15, 30) ∷ (35, 0) ∷ [] };
  node_definitions =
      (0, output) ∷ (1, task "worker" "run" none none) ∷ (2, const 7) ∷ (3, if_else) ∷ [];
  node_metadata = [];
  input_port_indices = (0, ("out", 0) ∷ []) ∷ (1, ("x", 10) ∷ []) ∷ (3, ("pred", 30) ∷ []) ∷ [];
  output_port_indices =
      (1, ("out", 15) ∷ []) ∷ (2, ("value", 25) ∷ []) ∷ (3, ("value", 35) ∷ []) ∷ [];
  node_names = [];
  port_names =
      (0, "out") ∷ (10, "x") ∷ (15, "out") ∷ (25, "value") ∷ (30, "pred") ∷ (35, "value") ∷ [];
  output_node = 0;
}

abbrev node_states : Nodes
node_states = (node 2 ∷ [], record blank { outputs = some [] }) ∷ []

find_ready_nodes_lem_example : CanStart plain_graph graph node_states root [] 1
unfolding find_ready_nodes get connected_input_by_port_name is_paused outputs_missing not_paused
    always_run is_if_else awaited_port cond_of has_outputs
find_ready_nodes_lem_example =
    find_ready_nodes_lem plain_graph (λ g from f p nodes n. accepted_lem f g.nodes nodes n) root
      graph node_states [] {ready = 1 ∷ []} 1 refl refl

abbrev context : ResolvedContext ℕ
context = record { name = some "gpu"; executor = some "hpc"; resources = []; environment = [] }

abbrev mapped : Location
mapped = node 5 ∷ []

abbrev actions : List (Action ℕ)
actions =
    record { loc = node 1 ∷ []; kind = perform_task "worker" "run" [] [] none context }
    ∷ record { loc = mapped; kind = set_map_elem_complete 3 1 }
    ∷ record { loc = node 2 ∷ []; kind = set_complete [] }
    ∷ record { loc = node 6 ∷ []; kind = set_paused }
    ∷ record { loc = mapped; kind = set_map_elem_complete 3 2 }
    ∷ []

abbrev plan_or : Outcome (ActionPlan ℕ) → ActionPlan ℕ
plan_or (ok p) = p
plan_or _ = empty_plan

abbrev plan : ActionPlan ℕ
plan = plan_or (plan_actions plain_ops "local" "memory" 9 0 (map ok actions) empty_plan)

plan_actions_lem_example :
    (plan.pause ≡ collect (λ a. paused_of a.loc a.kind) actions)
    × (plan.node_complete ≡ collect (λ a. completed_of a.loc a.kind) actions)
    × (plan.switching ≡ collect (λ a. switching_of a.loc a.kind) actions)
    × (plan.evalling ≡ collect (λ a. evalling_of a.loc a.kind) actions)
    × (plan.looping ≡ collect (λ a. looping_of a.loc a.kind) actions)
    × (plan.mapping ≡ collect (λ a. mapping_of a.loc a.kind) actions)
    × ((name : String)
        → get_or_default [] plan.tasks name
          ≡ collect (λ a. tasks_of plain_ops "local" "memory" 9 0 name a.loc a.kind) actions)
unfolding plan_actions get get_or_default insert
plan_actions_lem_example = plan_actions_lem plain_ops "local" "memory" 9 0 actions refl

plan_actions-elements_example :
    bit (get_or_default [] plan.map_elem_complete mapped) 2
    ≡ any (λ a. marks mapped 2 a.loc a.kind) actions
unfolding plan_actions get get_or_default insert
plan_actions-elements_example =
    plan_actions-elements plain_ops plain_laws "local" "memory" 9 0 mapped 2 actions refl

abbrev asset : AssetSpec
asset = record { kind = memory; storage_name = "memory"; asset_key = 1 }

abbrev chosen_states : Nodes
chosen_states =
    (node 1 ∷ [], record blank { outputs = some (("out", asset) ∷ []) })
    ∷ (node 3 ∷ [], record blank { cond = some true })
    ∷ []

-- the constant of node 1 is what the `if_true` port of node 3 is connected to
abbrev branching : WorkflowGraph plain_graph ℕ
branching = record graph {
  input_port_indices = (0, ("out", 0) ∷ []) ∷ (3, ("if_true", 30) ∷ []) ∷ [];
}

build_if_else_action_lem_example :
    (build_if_else_action plain_graph (λ inputs name. ok []) branching chosen_states root 3
      ≡ ok (completes root 3 asset))
    ↔ (collect_input plain_graph branching chosen_states root 3 (branch_port true) ≡ ok asset)
unfolding cond_of get
build_if_else_action_lem_example =
    build_if_else_action_lem (λ inputs name. ok []) branching chosen_states root 3 true asset refl

abbrev known : String → Bool
known name = name == "hpc"

plan_known : All (λ group. known group.0 ≡ true) plan.tasks
unfolding plan_actions get get_or_default insert push_task
plan_known = (refl, tt)

apply_plan_lem_example :
    apply_plan plain_ops "local" "memory" 9 0 log_event
      (registry 9 0 plain_ops "local" "memory" known)
      plan
      []
    ≡ ok ([] ++ effects_of 9 0 plan)
apply_plan_lem_example = apply_plan_lem 9 0 plain_ops "local" "memory" known plan [] plan_known
