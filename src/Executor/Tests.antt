-- ===== src/Executor/Tests.antt =====
-- A run of the loop of tierkreis/src/executor/inmemory.rs: one task that is cancelled while it runs,
-- and one that has no thread, as its input is not there.
use tierkreis.Base.{
  ℕ, refl, String, true, Error, none, some, List, [], ◌∷◌, ◌++◌, Outcome, ok, map, string_eq,
  nat_eq,
}
use tierkreis.Base.Map.{Map, get, insert, remove, get_or_default}
use tierkreis.Location.{location_eq, node}
use tierkreis.Asset.{AssetSpec, memory}
use tierkreis.Event.{RuntimeEvent, NodeStatus, node_events}
use tierkreis.Event.Send.{node_event, send_cancelled, send_complete, send_error, send_running}
use tierkreis.Storage.{Bytes, load_assets, save_assets}
use tierkreis.Storage.Memory.{Memory, storages_of, load, save}
use tierkreis.Orchestrator.Plan.{TaskPlan}
use tierkreis.Executor.{Turn, Tasks, joined, submitted, execute, cancel, process_tasks}
use tierkreis.Executor.Balance.{IsBalanced, process_tasks_lem}

abbrev asset : ℕ → AssetSpec
asset key = record { kind = memory; storage_name = "memory"; asset_key = key }

abbrev plan : ℕ → ℕ → TaskPlan ℕ
plan attempt key = record {
  workflow_run_id = 5;
  attempt = attempt;
  loc = node 3 ∷ [];
  execution_context = none;
  worker_name = "builtin";
  task_name = "ineg";
  inputs = ("a", asset key) ∷ [];
  outputs = "value" ∷ [];
  output_storage_name = none;
  resources = [];
  environment = [];
  task_handle = none;
}

abbrev builtin : String → Map String Bytes → Memory → Outcome (Map String Bytes)
builtin task_name inputs w = ok inputs

abbrev report : Error → String × String
report e = ("failed", "failed")

abbrev turns : List (Turn ℕ)
turns =
    map submitted (execute "memory" (plan 1 0 ∷ plan 2 9 ∷ []))
    ++ cancel 5 1 ((node 3 ∷ []) ∷ [])
    ++ joined 0 ∷ joined 0 ∷ []

abbrev idle : Tasks Memory (List RuntimeEvent)
idle = record {
  world = ("memory", (0, 7 ∷ []) ∷ []) ∷ [];
  channel = [];
  futures = [];
  abort_handles = [];
  spawned = 0;
  aborted = [];
}

abbrev logged : ℕ → NodeStatus → RuntimeEvent
logged attempt status = record {
  workflow_run_id = 5;
  attempt = attempt;
  event = node_events (node_event (node 3 ∷ []) status ∷ []);
}

-- the cancelled task completes all the same
abbrev after : Tasks Memory (List RuntimeEvent)
after = record {
  world = ("memory", (0, 7 ∷ []) ∷ (1, 7 ∷ []) ∷ []) ∷ [];
  channel =
      logged 1 (NodeStatus.complete (("a", asset 1) ∷ []))
      ∷ logged 1 NodeStatus.cancelled
      ∷ logged 2 (NodeStatus.error "failed" (some "failed"))
      ∷ logged 2 (NodeStatus.running none)
      ∷ logged 1 (NodeStatus.running none)
      ∷ [];
  futures = [];
  abort_handles = [];
  spawned = 1;
  aborted = 0 ∷ [];
}

process_tasks_lem_example : IsBalanced ((5, 1), node 3 ∷ []) after
unfolding IsBalanced process_tasks execute cancel send_cancelled send_complete send_error
    send_running load_assets load get get_or_default insert save_assets save remove
process_tasks_lem_example =
    process_tasks_lem (storages_of (λ _. true)) report ((5, 1), node 3 ∷ []) builtin turns idle
      {s' = after} refl refl
