-- ===== src/Executor/Hpc/Tests.antt =====
-- Runs of the loop of tierkreis/src/executor/hpc.rs, with a scheduler that runs every job that it is
-- asked about, and notes a cancelled job in the world under its name.
use tierkreis.Base.{
  ℕ, ◌≡◌, refl, String, true, false, Error, executor_failed, none, some, List, [], ◌∷◌, ok, err,
  map, nat_eq, string_eq, pair_eq, arith,
}
use tierkreis.Base.Map.{get, insert, remove}
use tierkreis.Location.{location_eq, node}
use tierkreis.Event.{TaskHandle}
use tierkreis.Event.Send.{send_queued, send_running}
use tierkreis.Asset.{Assets}
use tierkreis.Storage.{Storages, transfer_assets, transfer_all, load_asset_from_spec, save_fresh}
use tierkreis.Storage.Memory.{Memory, storages_of, load, save}
use tierkreis.Executor.Hpc.{
  SchedulerStatus, Scheduler, BackgroundTask, BackgroundTaskPlan, watching, Turn, tick, submitted,
  key_of, process_tasks, take_turn,
}
use tierkreis.Executor.Balance.{log_event}
use tierkreis.Executor.Hpc.Watched.{Logged, reports}
use tierkreis.Executor.Hpc.Cancel.{
  submit, cancel_of, cancel_before_submission, cancel_twice, cancel_watched,
}
use tierkreis.Executor.Hpc.Panics.{is_panic, take_turn_panics}

abbrev noting : Scheduler Memory
noting = record {
  check = λ ids w. (ok (map (λ id. (id, SchedulerStatus.running)) ids), w);
  cancel = λ id w. (ok tt, insert w id []);
}

abbrev refusing : Scheduler Memory
refusing = record { check = λ ids w. (ok [], w); cancel = λ id w. (err executor_failed, w) }

abbrev report : Error → String × String
report e = ("failed", "failed")

abbrev storages : Storages Memory
storages = storages_of (λ name. true)

abbrev task : ℕ → BackgroundTask
task n = record {
  workflow_run_id = 5;
  attempt = 1;
  loc = node n ∷ [];
  outputs = [];
  output_storage_name = "memory";
}

abbrev plan : ℕ → TaskHandle → BackgroundTaskPlan
plan n job_id = record { task = task n; job_id = job_id }

abbrev start : Logged Memory
start = record { world = []; channel = []; job_handles = [] }

-- another job is submitted and looked at in between
transfers_all :
    (name : String) (assets : Assets) (w : Memory)
    → is_panic (transfer_all storages name assets w) ≡ false
unfolding transfer_all load_asset_from_spec save_fresh load save
transfers_all name [] w = refl
transfers_all name ((k, asset) ∷ assets) w = grind (arith, transfers_all name assets)

transfers :
    (name : String) (assets : Assets) (w : Memory)
    → is_panic (transfer_assets storages name assets w) ≡ false
unfolding transfer_assets
transfers name assets w = transfers_all name assets w

-- another job is submitted and looked at in between
abbrev turns : List Turn
turns = submitted (plan 8 "other") ∷ tick ∷ []

abbrev ran : List Turn → Logged Memory → Logged Memory
ran turns s = (process_tasks storages log_event report noting turns s).1

abbrev submitted_to : Logged Memory → Logged Memory
submitted_to s = submit storages report noting (plan 3 "job") s

cancel_before_submission_example :
    ((submitted_to (ran (cancel_of (task 3) ∷ turns) start)).world ≡ ("job", []) ∷ [])
    × (get (submitted_to (ran (cancel_of (task 3) ∷ turns) start)).job_handles (key_of (task 3))
        ≡ some (watching "job" (task 3) none))
unfolding process_tasks send_queued get insert send_running remove
cancel_before_submission_example =
    cancel_before_submission storages report noting (plan 3 "job") turns start
      {s1 = ran (cancel_of (task 3) ∷ turns) start} tt refl (refl, (refl, tt)) refl

cancel_twice_example :
    ((submitted_to (ran (cancel_of (task 3) ∷ cancel_of (task 3) ∷ turns) start)).world ≡ [])
    × (get
          (submitted_to (ran (cancel_of (task 3) ∷ cancel_of (task 3) ∷ turns) start)).job_handles
          (key_of (task 3))
        ≡ some (watching "job" (task 3) none))
unfolding process_tasks send_queued get insert send_running remove
cancel_twice_example =
    cancel_twice storages report noting (plan 3 "job") turns start
      {s1 = ran (cancel_of (task 3) ∷ cancel_of (task 3) ∷ turns) start} tt refl (refl, (refl, tt))
      refl

-- the job of a task is looked at, and then the task is cancelled
abbrev watched : Logged Memory
watched = ran (submitted (plan 3 "job") ∷ tick ∷ []) start

cancel_watched_example :
    (reports (key_of (task 3)) (ran (cancel_of (task 3) ∷ turns) watched)
      ≡ reports (key_of (task 3)) watched)
    × (get (ran (cancel_of (task 3) ∷ turns) watched).job_handles (key_of (task 3)) ≡ none)
unfolding process_tasks send_queued get insert send_running remove
cancel_watched_example =
    cancel_watched storages report noting (task 3) turns watched
      {s1 = ran (cancel_of (task 3) ∷ turns) watched} {job_id = "job"} {watched_task = task 3}
      {status = some SchedulerStatus.running} (refl, refl, tt) refl (refl, (refl, tt)) refl

take_turn_panics_example :
    is_panic (take_turn storages log_event report refusing (cancel_of (task 3)) watched).0 ≡ true
unfolding process_tasks send_queued get insert send_running remove
take_turn_panics_example =
    take_turn_panics storages report transfers refusing (λ ids w. refl) (λ id w. refl)
      (cancel_of (task 3)) watched (refl, refl, tt)
