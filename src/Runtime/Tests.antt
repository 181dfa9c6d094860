-- ===== src/Runtime/Tests.antt =====
-- Examples of the theorems on the runtime (tierkreis/src/runtime.rs).
use tierkreis.Base.{
  ℕ, ◌≡◌, refl, true, false, none, some, List, [], ◌∷◌, Outcome, ok, err, external, contains, arith,
  nat_eq, string_eq, pair_eq,
}
use tierkreis.Base.Map.{get, insert, extend, get_or_default}
use tierkreis.Bits.Plain.{plain_ops, plain_laws}
use tierkreis.Location.{node, loop_index, root, component_eq, location_eq}
use tierkreis.Asset.{AssetSpec, memory}
use tierkreis.Storage.Memory.{Memory, storages_of, load, save}
use tierkreis.Storage.Plain.{plain_json}
use tierkreis.Event.Send.{send_complete}
use tierkreis.Event.{errored, node_events, error}
use tierkreis.State.{blank, blank_run, is_some, is_paused, RunAttemptState}
use tierkreis.State.Handle.{node_at}
use tierkreis.State.Handle.Keeps.{Keeps}
use tierkreis.State.Runtime.{
  Runtime, RunHandle, RunKey, run_at, write, load_workflow_run_state, load_workflow, read_metadata,
  read_many, read,
}
use tierkreis.Storage.{save_asset, load_assets}
use tierkreis.Orchestrator.Ready.{
  find_ready_nodes, outputs_missing, not_paused, always_run, is_if_else, has_outputs,
}
use tierkreis.Orchestrator.Plan.{perform_actions}
use tierkreis.Orchestrator.Build.{build_const_action}
use tierkreis.Orchestrator.Build.Actions.{build_actions, waits}
use tierkreis.Graph.{WorkflowGraph, has_breakpoint, const, output}
use tierkreis.Graph.Plain.{plain_graph}
use tierkreis.Runtime.{Arrival, Finish, load_profiles, process_events, wait_for}
use tierkreis.Runtime.Events.{active_after, active-process_events, process_events-Keeps}
use tierkreis.Runtime.Waiting.{Reports, wait_for-process_events}
use tierkreis.Runtime.Rounds.{RunContext, Round, Engine, run_round}
use tierkreis.Runtime.Rounds.Contexts.{run_round_lem}
use tierkreis.Runtime.Trace.{Step, read_steps}
use tierkreis.Runtime.Trace.Iterations.{ReadsFrom, read_steps_lem}

abbrev run_key : RunKey
run_key = (9, 0)

-- a run of the graph of a constant
abbrev graph : WorkflowGraph plain_graph ℕ
graph = record {
  graph = record { nodes = 0 ∷ 2 ∷ []; links = (25, 0) ∷ [] };
  node_definitions = (0, output) ∷ (2, const 7) ∷ [];
  node_metadata = [];
  input_port_indices = (0, ("out", 0) ∷ []) ∷ [];
  output_port_indices = (2, ("value", 25) ∷ []) ∷ [];
  node_names = [];
  port_names = (0, "out") ∷ (25, "value") ∷ [];
  output_node = 0;
}

abbrev before : Runtime (WorkflowGraph plain_graph ℕ)
before = record {
  workflows = (4, (none, graph)) ∷ [];
  runs = ((9, 0), record blank_run { workflow_id = 4; inputs = (root, []) ∷ [] }) ∷ [];
  active_runs = (9, 0) ∷ [];
}

-- node 1 fails, and then the run
abbrev arrivals : List Arrival
arrivals =
    (
      5,
      (
        6,
        record {
          workflow_run_id = 9;
          attempt = 0;
          event =
              node_events
                (record { loc = node 1 ∷ []; name = none; status = error "no" (some "why") } ∷ []);
        },
      ),
    )
    ∷ (7, (8, record { workflow_run_id = 9; attempt = 0; event = errored }))
    ∷ []

abbrev state_or :
    Outcome (Runtime (WorkflowGraph plain_graph ℕ)) → Runtime (WorkflowGraph plain_graph ℕ)
state_or (ok s) = s
state_or _ = before

abbrev after : Runtime (WorkflowGraph plain_graph ℕ)
after = state_or (process_events plain_ops arrivals before)

active-process_events_example :
    contains after.active_runs run_key ≡ active_after run_key arrivals true
unfolding process_events write get_or_default load_workflow_run_state insert
active-process_events_example =
    active-process_events plain_ops arrivals before run_key {s' = after} refl

process_events-Keeps_example :
    Keeps
      (node_at (run_at before run_key) (node 1 ∷ []))
      (node_at (run_at after run_key) (node 1 ∷ []))
unfolding process_events write get_or_default load_workflow_run_state insert
process_events-Keeps_example =
    process_events-Keeps plain_ops plain_laws arrivals before {s' = after} run_key (node 1 ∷ [])
      refl

wait_for-process_events_example :
    (result : Finish) × (wait_for 9 0 (before ∷ after ∷ []) ≡ ok (some result))
    × Reports (run_at after run_key) (node 1 ∷ []) result
unfolding process_events active_after write get_or_default load_workflow_run_state insert
wait_for-process_events_example =
    wait_for-process_events 9 0 plain_ops arrivals before (before ∷ []) [] (node 1 ∷ [])
      {s' = after} refl refl refl (refl, tt)

-- an engine that logs nothing and has no executors
abbrev engine : Engine plain_graph ℕ Memory
engine = record {
  bits = plain_ops;
  values = record { null = 0; member = λ value name. none; is_empty_object = λ value. false };
  json = plain_json;
  storages = storages_of (λ _. true);
  graph_from_slice = λ bytes. err external;
  default_storage_name = "memory";
  default_executor_name = "memory";
  send = λ event w. ok w;
  executor_registry = λ name. none;
  settings = record {
    selected_profile = none;
    load_profile = λ profile. err external;
    profile_to_string = λ profile. err external;
    profile_from_str = λ text. err external;
  };
}

abbrev start : Round plain_graph ℕ Memory
start = record { contexts = []; state = before; world = [] }

abbrev round_or : Outcome (Round plain_graph ℕ Memory) → Round plain_graph ℕ Memory
round_or (ok round) = round
round_or _ = start

abbrev next : Round plain_graph ℕ Memory
next = round_or (run_round engine start)

run_round_lem_example :
    (is_some (get next.contexts run_key) ≡ contains start.state.active_runs run_key)
    × ((found : RunContext plain_graph ℕ)
        → contains start.state.active_runs run_key ≡ true
        → get start.contexts run_key ≡ some found
        → (c' : RunContext plain_graph ℕ) × (get next.contexts run_key ≡ some c')
          × (c'.context ≡ found.context))
    × ((j : RunKey) → run_at next.state j ≡ run_at start.state j)
    × (next.state.active_runs ≡ start.state.active_runs)
unfolding run_round load_workflow get load_workflow_run_state get_or_default read_metadata insert
    extend load_profiles build_actions read_many find_ready_nodes outputs_missing not_paused
    is_paused always_run is_if_else has_outputs has_breakpoint waits build_const_action save_asset
    save perform_actions send_complete
run_round_lem_example = run_round_lem engine start next run_key refl

abbrev asset : AssetSpec
asset = record { kind = memory; storage_name = "memory"; asset_key = 0 }

-- two iterations of the loop at node 3 are complete
abbrev looped : RunAttemptState
looped = record blank_run {
  nodes =
      (
        node 3 ∷ loop_index 0 ∷ node 0 ∷ [],
        record blank { complete_time = some 1; outputs = some (("x", asset) ∷ []) },
      )
      ∷ (
        node 3 ∷ loop_index 1 ∷ node 0 ∷ [],
        record blank { complete_time = some 2; outputs = some (("x", asset) ∷ []) },
      )
      ∷ [];
}

abbrev handle : RunHandle
handle = record { workflow_id = 4; run_id = 9; attempt = 0 }

abbrev loop_state : Runtime (WorkflowGraph plain_graph ℕ)
loop_state = record before { runs = ((9, 0), looped) ∷ [] }

abbrev world : Memory
world = ("memory", (0, 7 ∷ []) ∷ []) ∷ []

abbrev steps_or : Outcome (List Step) → List Step
steps_or (ok trace) = trace
steps_or _ = []

abbrev trace : List Step
trace = steps_or (read_steps (storages_of (λ _. true)) handle (node 3 ∷ []) 0 loop_state world 3 0)

read_steps_lem_example : ReadsFrom (node 3 ∷ []) 0 (storages_of (λ _. true)) world looped 0 trace
unfolding read_steps get read get_or_default load_assets load
read_steps_lem_example =
    read_steps_lem (storages_of (λ _. true)) handle (node 3 ∷ []) 0 loop_state world looped trace
      refl (omega arith) refl
