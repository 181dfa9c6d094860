-- ===== src/Executor/Subprocess/Tests.antt =====
-- Runs of the executor of tierkreis/src/executor/subprocess.rs: a task that is cancelled while its
-- process runs, and one whose worker is not there.
use tierkreis.Base.{
  ℕ, suc, zero, ◌+◌, ◌≡◌, refl, String, true, Error, none, some, List, [], ◌∷◌, ◌++◌, ◌==◌, Outcome,
  ok, err, external, map, string_eq, nat_eq, arith, nat_beq, if◌then◌else◌,
}
use tierkreis.Base.Map.{get, insert, remove}
use tierkreis.Location.{location_eq, node}
use tierkreis.Asset.{file}
use tierkreis.Event.{RuntimeEvent, NodeStatus, node_events}
use tierkreis.Event.Send.{node_event, send_cancelled, send_error, send_running, send_queued}
use tierkreis.Storage.{Storages, transfer_assets, reserve_asset_specs}
use tierkreis.Location.Text.{show_uint, parse_uint}
use tierkreis.Storage.Laws.{is_ok}
use tierkreis.Orchestrator.Plan.{TaskPlan}
use tierkreis.Executor.Balance.{log_event}
use tierkreis.Executor.Subprocess.Workers.{Processes}
use tierkreis.Executor.Subprocess.{
  BackgroundTaskPlan, Tasks, Turn, wait_failed, submitted, process_tasks,
}
use tierkreis.Executor.Subprocess.Account.{accounted, submissions, process_tasks-accounted}
use tierkreis.Executor.Subprocess.Handle.{
  format_subprocess_handle, parse_subprocess_handle, process_identity,
}
use tierkreis.Executor.Subprocess.Handle.RoundTrip.{parse-format_subprocess_handle}
use tierkreis.Executor.Subprocess.Plans.{Files, prepare, execute, cancel}
use tierkreis.Executor.Subprocess.Plans.Sent.{task_key, plan_key, is_empty, execute_lem}

abbrev fields : ℕ → List ℕ
fields zero = []
fields (suc n) = b' ' ∷ b'4' ∷ fields n

-- the world is the next number that is drawn
abbrev disk : Storages ℕ
disk = record {
  contains_key = λ name. true;
  draw = λ w. (w, suc w);
  reserve = λ name key w. ok (file "/assets", w);
  save = λ name key bytes w. ok (file "/assets", w);
  load = λ name key w. ok [];
}

abbrev files : Files ℕ ℕ
files = record {
  join = λ root key. root;
  temporary = λ w. ok ("/tmp/file", suc w);
  as_str = λ value. if nat_beq value 0 then none else some "set";
}

-- the third field of the text of a process is where it began
abbrev machine : Processes ℕ
machine = record {
  read_stat = λ pid w. ok (b'1' ∷ b' ' ∷ b'(' ∷ b')' ∷ fields 20);
  is_whitespace = λ c. nat_beq c b' ';
  kill = λ pid w. ok (record { success = true; shown = "0" }, w);
  spawn = λ command arguments environment w.
      if command == "tkr-my-worker" then ok (some w, suc w) else err external;
}

abbrev plan : ℕ → String → ℕ → TaskPlan ℕ
plan attempt worker_name value = record {
  workflow_run_id = 5;
  attempt = attempt;
  loc = node 3 ∷ [];
  execution_context = none;
  worker_name = worker_name;
  task_name = "greet";
  inputs = [];
  outputs = "value" ∷ [];
  output_storage_name = none;
  resources = [];
  environment = ("GREETING", value) ∷ [];
  task_handle = none;
}

abbrev plans : List (TaskPlan ℕ)
plans = plan 1 "my_worker" 7 ∷ plan 2 "other" 8 ∷ plan 3 "my_worker" 0 ∷ []

abbrev sent : Outcome (Unit {0}) × (ℕ × List BackgroundTaskPlan)
sent = execute files disk "disk" "disk" plans (0, [])

execute_lem_example :
    (done : List (TaskPlan ℕ)) × (rest : List (TaskPlan ℕ)) × (plans ≡ done ++ rest)
    × (map plan_key sent.1.1 ≡ map plan_key [] ++ map task_key done)
    × (is_ok sent.0 ≡ is_empty rest)
execute_lem_example = execute_lem files disk "disk" "disk" plans 0 []

abbrev report : Error → String × String
report e = ("failed", "failed")

abbrev turns : List Turn
turns = map submitted sent.1.1 ++ cancel 5 1 ((node 3 ∷ []) ∷ []) ++ wait_failed 0 external ∷ []

abbrev idle : Tasks ℕ (List RuntimeEvent)
idle = record {
  world = 9;
  channel = [];
  running = [];
  abort_handles = [];
  spawned = 0;
  aborted = [];
}

abbrev logged : ℕ → NodeStatus → RuntimeEvent
logged attempt status = record {
  workflow_run_id = 5;
  attempt = attempt;
  event = node_events (node_event (node 3 ∷ []) status ∷ []);
}

-- the cancelled task is reported to have failed as well
abbrev after : Tasks ℕ (List RuntimeEvent)
after = record {
  world = 10;
  channel =
      logged 1 (NodeStatus.error "failed" (some "failed"))
      ∷ logged 1 NodeStatus.cancelled
      ∷ logged 2 (NodeStatus.error "failed" (some "failed"))
      ∷ logged 1 (NodeStatus.running none)
      ∷ logged 1 (NodeStatus.queued (some "9:4"))
      ∷ [];
  running = [];
  abort_handles = [];
  spawned = 1;
  aborted = 0 ∷ [];
}

process_tasks-after : process_tasks log_event report machine disk turns idle ≡ ok after
unfolding process_tasks execute prepare transfer_assets reserve_asset_specs process_identity
    parse_uint show_uint send_queued send_running send_error cancel get insert send_cancelled
    format_subprocess_handle remove
process_tasks-after = refl

process_tasks-accounted_example :
    accounted ((5, 1), node 3 ∷ []) after
    ≡ accounted ((5, 1), node 3 ∷ []) idle + submissions ((5, 1), node 3 ∷ []) turns
process_tasks-accounted_example =
    process_tasks-accounted report ((5, 1), node 3 ∷ []) machine disk turns idle process_tasks-after

parse-format_subprocess_handle_example :
    parse_subprocess_handle (format_subprocess_handle 4021 88) ≡ ok (4021, 88)
parse-format_subprocess_handle_example =
    parse-format_subprocess_handle 4021 88 (omega arith) (omega arith)
