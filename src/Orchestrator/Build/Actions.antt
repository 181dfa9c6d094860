-- ===== src/Orchestrator/Build/Actions.antt =====
-- `build_actions` and `collect_node_states` of tierkreis/src/orchestrator.rs. The recursion into
-- subgraphs is on fuel, and what is left when there is none is a parameter. The stream of actions
-- is the list of what it yields, in the order of the ready nodes.
pub mod Below
pub mod Depth
pub mod Fuel
pub mod Keeps
pub mod Marks
pub mod Once
pub mod Finish
use tierkreis.Base.{
  ℕ, zero, suc, String, Bool, true, false, not, ◌&&◌, Option, none, some, List, [], ◌∷◌, ◌++◌, map,
  any, contains, Outcome, ok, err, panic, ◌>>=◌, if◌then◌else◌, nat_eq, string_eq, list_eq,
  definition_not_found, add,
}
use tierkreis.Base.Map.{get}
use tierkreis.Location.{Location, location_eq, component_eq, with_node}
use tierkreis.Storage.{load_asset}
use tierkreis.State.{Nodes, NodeState, is_none, is_some, is_paused}
use tierkreis.State.Runtime.{read_many}
use tierkreis.Graph.{
  PortGraph, NodeDefinition, input, output, const, if_else, eager_if_else, task, eval, loop,
  map_over, WorkflowGraph, node_ids, node_name, node_definition, output_idx, has_breakpoint,
}
use tierkreis.Orchestrator.Plan.{Action, workflow_errored, workflow_paused}
use tierkreis.Orchestrator.Ready.{find_ready_nodes}
use tierkreis.Orchestrator.Branch.{build_if_else_action, build_eager_if_else_action}
use tierkreis.Orchestrator.Build.{
  Context, with_execution_context, Shared, Services, M, build_pause_action, build_input_action,
  build_const_action, build_output_actions, build_task_action,
}
use tierkreis.Orchestrator.Build.Nested.{build_eval_actions, build_loop_actions, build_map_actions}

-- whether a node waits at its breakpoint
unfoldable pub waits :
    {P : PortGraph} {J : Type 0} → WorkflowGraph P J → Nodes → Location → ℕ → Bool
waits {P} g node_states parent n =
    has_breakpoint P g n && elim (get node_states (with_node parent n)) [
      | none ↦ true
      | some state ↦ is_none state.unpaused_time
    ]

-- the one action of a node whose definition changes nothing that is shared
abbrev one : {J S : Type 0} → S → Outcome (Action J) → Outcome (List (Action J) × S)
one shared built = built >>= λ action. ok (action ∷ [], shared)

-- what is done when there is no ready node
unfoldable pub build_deadlock_action : {J : Type 0} → Location → Nodes → List (Action J)
build_deadlock_action parent node_states =
    if any (λ p. is_some p.1.error_time) node_states
    then record { loc = parent; kind = workflow_errored } ∷ []
    else if any (λ p. is_paused p.1) node_states
    then record { loc = parent; kind = workflow_paused } ∷ []
    else []

-- `scheduled_this_lifetime.extend(..)`
unfoldable pub schedule : Location → List ℕ → List Location → List Location
schedule parent [] scheduled = scheduled
schedule parent (n ∷ ready_nodes) scheduled =
    schedule parent ready_nodes (add (with_node parent n) scheduled)

module _ {P : PortGraph} {J W : Type 0} (env : Services P J W) where
  open env use {storages, run, state}

  abbrev pub Build : Type 0
  Build = Context J → WorkflowGraph P J → M env (List (Action J))

  unfoldable pub collect_node_states : Context J → WorkflowGraph P J → Outcome Nodes
  collect_node_states context g =
      read_many run (map (with_node context.parent_loc) (node_ids P g)) state

  module _ (build : Build) where
    -- the actions of a node, by its definition
    unfoldable pub build_by_definition :
        Context J → WorkflowGraph P J → Nodes → ℕ → NodeDefinition J → M env (List (Action J))
    build_by_definition context g node_states n (input name) shared =
        build_input_action env context.parent_loc n name shared
    build_by_definition context g node_states n (const value) shared =
        build_const_action env context.parent_loc n value shared
    build_by_definition context g node_states n output shared =
        build_output_actions env g node_states context.parent_loc n >>= λ actions.
        ok (actions, shared)
    build_by_definition context g node_states n (task worker name requested executor) shared =
        one shared (
          build_task_action env (with_execution_context context requested executor) g node_states n
            worker name)
    build_by_definition context g node_states n (eval requested executor) shared =
        build_eval_actions env build (with_execution_context context requested executor) g
          node_states n shared
    build_by_definition context g node_states n (loop requested executor) shared =
        build_loop_actions env build (with_execution_context context requested executor) g
          node_states n (node_name P g n) shared
    build_by_definition context g node_states n (map_over mapped_ports requested executor) shared =
        build_map_actions env build (with_execution_context context requested executor) g
          node_states mapped_ports n shared
    build_by_definition context g node_states n if_else shared = one shared (
        build_if_else_action P (λ assets name. load_asset storages assets name shared.world) g
          node_states context.parent_loc n)
    build_by_definition context g node_states n eager_if_else shared = one shared (
        build_eager_if_else_action P (λ assets name. load_asset storages assets name shared.world) g
          node_states context.parent_loc n)

    unfoldable pub build_node : Context J → WorkflowGraph P J → Nodes → ℕ → M env (List (Action J))
    unfolding build_by_definition
    build_node context g node_states n shared = elim (node_definition P g n) [
      | none ↦ err definition_not_found
      | some definition ↦
          if waits g node_states context.parent_loc n
          then build_pause_action env context.parent_loc n shared
          else build_by_definition context g node_states n definition shared
    ]

    unfoldable pub build_nodes :
        Context J → WorkflowGraph P J → Nodes → List ℕ → M env (List (Action J))
    unfolding build_node
    build_nodes context g node_states [] shared = ok ([], shared)
    build_nodes context g node_states (n ∷ ready_nodes) shared =
        build_node context g node_states n shared >>= λ (actions, built).
        build_nodes context g node_states ready_nodes built >>= λ (others, done).
        ok (actions ++ others, done)

    unfoldable pub build_ready :
        Context J → WorkflowGraph P J → Nodes → List ℕ → M env (List (Action J))
    unfolding build_nodes schedule build_deadlock_action
    build_ready context g node_states [] shared =
        ok (build_deadlock_action context.parent_loc node_states, shared)
    build_ready context g node_states (n ∷ ready_nodes) shared =
        build_nodes context g node_states (n ∷ ready_nodes) (record shared {
          scheduled_this_lifetime =
              schedule context.parent_loc (n ∷ ready_nodes) shared.scheduled_this_lifetime;
        })

    -- the body of `build_actions`
    unfoldable pub build_step : Build
    unfolding build_ready collect_node_states
    build_step context g shared = collect_node_states context g >>= λ node_states.
        if contains shared.scheduled_this_lifetime (with_node context.parent_loc (output_idx P g))
        then ok ([], shared)
        else (find_ready_nodes P context.parent_loc g node_states shared.scheduled_this_lifetime
            >>= λ ready_nodes. build_ready context g node_states ready_nodes shared)

  unfoldable pub build_actions_within : Build → ℕ → Build
  unfolding build_step
  build_actions_within out_of_fuel zero = out_of_fuel
  build_actions_within out_of_fuel (suc fuel) = build_step (build_actions_within out_of_fuel fuel)

  -- a run that goes deeper than the fuel panics
  unfoldable pub build_actions : ℕ → Build
  unfolding build_actions_within
  build_actions fuel context g shared = build_actions_within (λ _ _ _. panic) fuel context g shared
