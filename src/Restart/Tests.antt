-- ===== src/Restart/Tests.antt =====
-- An example of a restart (tierkreis/src/state/interface.rs): the task of a run that has an error.
use tierkreis.Base.{
  ℕ, suc, ◌≡◌, refl, none, some, List, [], ◌∷◌, Outcome, ok, err, external, arith, nat_eq,
  string_eq, pair_eq,
}
use tierkreis.Base.Map.{get, insert, get_or_default}
use tierkreis.Bits.Plain.{plain_ops}
use tierkreis.Location.{Location, node, root, component_eq, location_eq}
use tierkreis.State.{blank, blank_run}
use tierkreis.State.Runtime.{Runtime, RunHandle, load_workflow_run_state, load_workflow, summary}
use tierkreis.State.Attempts.{new_attempt}
use tierkreis.Query.{build_node_copy_filter}
use tierkreis.Copy.{NodeCopyFilter, copy_node_states_from}
use tierkreis.Graph.{WorkflowGraph, const, output, task}
use tierkreis.Graph.Plain.{plain_graph}
use tierkreis.Restart.{restart_locations, restart_task}
use tierkreis.Restart.Cleared.{Restarted, restart_task_lem}

-- a constant, a task and the output
abbrev graph : WorkflowGraph plain_graph ℕ
graph = record {
  graph = record { nodes = 0 ∷ 1 ∷ 2 ∷ []; links = (25, 10) ∷ (15, 0) ∷ [] };
  node_definitions = (0, output) ∷ (1, task "worker" "run" none none) ∷ (2, const 7) ∷ [];
  node_metadata = [];
  input_port_indices = (0, ("out", 0) ∷ []) ∷ (1, ("x", 10) ∷ []) ∷ [];
  output_port_indices = (1, ("out", 15) ∷ []) ∷ (2, ("value", 25) ∷ []) ∷ [];
  node_names = [];
  port_names = (0, "out") ∷ (10, "x") ∷ (15, "out") ∷ (25, "value") ∷ [];
  output_node = 0;
}

abbrev before : Runtime (WorkflowGraph plain_graph ℕ)
before = record {
  workflows = (4, (none, graph)) ∷ [];
  runs =
      (
        (9, 0),
        record blank_run {
          workflow_id = 4;
          inputs = (root, []) ∷ [];
          nodes =
              (node 2 ∷ [], record blank { outputs = some []; complete_time = some 2 })
              ∷ (node 1 ∷ [], record blank { error_time = some 3 })
              ∷ [];
          error_time = some 3;
        },
      )
      ∷ [];
  active_runs = [];
}

abbrev restarted_or :
    Outcome (Runtime (WorkflowGraph plain_graph ℕ) × (ℕ × List Location))
    → Runtime (WorkflowGraph plain_graph ℕ) × (ℕ × List Location)
restarted_or (ok r) = r
restarted_or _ = (before, (0, []))

abbrev result : Runtime (WorkflowGraph plain_graph ℕ) × (ℕ × List Location)
result = restarted_or (restart_task plain_ops (λ asset. err external) 5 9 0 [] before)

abbrev loaded : Runtime (WorkflowGraph plain_graph ℕ) × RunHandle
loaded = load_workflow_run_state 9 0 before

restart_task_lem_example :
    (chosen : List Location) × (n : ℕ) × (f : NodeCopyFilter) × (restart_locations loaded.1 []
        loaded.0
      ≡ ok chosen)
    × (result.1.0 ≡ suc n)
    × Restarted plain_ops (λ asset. err external) before result.0 9 0 chosen result.1.1 n f
unfolding restart_task summary get load_workflow_run_state insert get_or_default load_workflow
    build_node_copy_filter new_attempt copy_node_states_from
restart_task_lem_example =
    restart_task_lem plain_ops (λ asset. err external) 5 9 0 before [] result.1.1 result.1.0
      result.0 (omega arith) refl
