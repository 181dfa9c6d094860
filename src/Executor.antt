-- ===== src/Executor.antt =====
-- The loop of tierkreis/src/executor/inmemory.rs, which runs built-in tasks. What `select!` picks in
-- each turn is a `Turn`. The built-in functions are a parameter, as are the channel of the events,
-- the storages, and the texts that `miette` makes of an error. A thread and its abort handle have
-- the number of the spawn that made them.
pub mod Keys
pub mod Balance
pub mod Hpc
pub mod Subprocess
mod Tests
use tierkreis.Base.{
  ℕ, zero, suc, String, Error, Option, none, some, List, [], ◌∷◌, map, Outcome, ok, err, panic,
  ◌>>=◌, string_eq, nat_eq, pair_eq,
}
use tierkreis.Base.Map.{Map, get, insert, remove}
use tierkreis.Location.{Location, location_eq}
use tierkreis.Asset.{Assets}
use tierkreis.Event.{RuntimeEvent}
use tierkreis.Event.Send.{send_cancelled, send_complete, send_error, send_running}
use tierkreis.Storage.{Bytes, Storages, load_assets, save_assets}
use tierkreis.Orchestrator.Plan.{TaskPlan}
use tierkreis.Executor.Keys.{TaskKey}

pub record BackgroundTaskPlan (J : Type 0) : Type 0 where
  pub task_plan : TaskPlan J
  pub output_storage_name : String

pub record BackgroundTask : Type 0 where
  pub workflow_run_id : ℕ
  pub attempt : ℕ
  pub loc : Location
  pub output_storage_name : String
  pub task_output : Outcome (Map String Bytes)

-- what the closure of a spawned thread has captured
pub record Spawned : Type 0 where
  pub number : ℕ
  pub workflow_run_id : ℕ
  pub attempt : ℕ
  pub loc : Location
  pub output_storage_name : String
  pub task_name : String
  pub inputs : Map String Bytes

-- what the loop keeps, the channel `C` of its events, and the world `W` of the storages
pub record Tasks (W C : Type 0) : Type 0 where
  pub world : W
  pub channel : C
  pub futures : List Spawned
  pub abort_handles : Map TaskKey ℕ
  pub spawned : ℕ
  pub aborted : List ℕ

-- one turn of the loop: a request to cancel, the join of the future at a position, which has either
-- run or failed to, or a submitted task
pub data Turn (J : Type 0) : Type 0 where
  cancelling : ℕ → ℕ → Location → Turn J
  joined : ℕ → Turn J
  join_failed : ℕ → Turn J
  submitted : BackgroundTaskPlan J → Turn J

-- the future at a position, and the others
unfoldable pub take_future : List Spawned → ℕ → Option (Spawned × List Spawned)
take_future [] n = none
take_future (f ∷ futures) zero = some (f, futures)
take_future (f ∷ futures) (suc n) = elim (take_future futures n) [
  | none ↦ none
  | some (taken, rest) ↦ some (taken, f ∷ rest)
]

-- `res.expect(..)`
abbrev pub expect_ok {ℓ} : {A : Type ℓ} → Outcome A → Outcome A
expect_ok (ok a) = ok a
expect_ok (err e) = panic
expect_ok panic = panic

-- the plans that `execute` puts on the channel of the tasks
unfoldable pub execute : {J : Type 0} → String → List (TaskPlan J) → List (BackgroundTaskPlan J)
execute output_storage_name task_plans =
    map
      (λ task_plan. record {
        task_plan = record task_plan { output_storage_name = none };
        output_storage_name = elim task_plan.output_storage_name [
          | none ↦ output_storage_name
          | some name ↦ name
        ];
      })
      task_plans

-- the requests that `cancel` puts on its channel
unfoldable pub cancel : {J : Type 0} → ℕ → ℕ → List Location → List (Turn J)
cancel workflow_run_id attempt_id task_locations =
    map (λ loc. cancelling workflow_run_id attempt_id loc) task_locations

-- what the closure of the thread returns
abbrev pub run_future :
    {W : Type 0}
    → (String → Map String Bytes → W → Outcome (Map String Bytes))
    → Spawned
    → W
    → BackgroundTask
run_future run_builtin f w = record {
  workflow_run_id = f.workflow_run_id;
  attempt = f.attempt;
  loc = f.loc;
  output_storage_name = f.output_storage_name;
  task_output = run_builtin f.task_name f.inputs w;
}

module _ {W C : Type 0} (send : RuntimeEvent → C → Outcome C) where
  unfoldable pub process_cancelled_task : ℕ → ℕ → Location → Tasks W C → Outcome (Tasks W C)
  process_cancelled_task workflow_run_id attempt loc s =
      elim (get s.abort_handles ((workflow_run_id, attempt), loc)) [
        | none ↦ ok s
        | some handle ↦ send_cancelled send workflow_run_id attempt loc s.channel >>= λ sent.
            ok (record s {
              channel = sent;
              abort_handles = remove s.abort_handles ((workflow_run_id, attempt), loc);
              aborted = handle ∷ s.aborted;
            })
      ]

  -- an error event for the task
  abbrev pub fail_task :
      (Error → String × String) → ℕ → ℕ → Location → Error → Tasks W C → Outcome (Tasks W C)
  fail_task report workflow_run_id attempt loc e s =
      send_error send workflow_run_id attempt loc (report e).0 (report e).1 s.channel >>= λ sent.
      ok (record s { channel = sent })

module _ {W C : Type 0} (storages : Storages W) (send : RuntimeEvent → C → Outcome C)
    (report : Error → String × String) where
  -- what a save that fails has saved before is under keys that nothing names
  abbrev pub save_outputs : BackgroundTask → Map String Bytes → Tasks W C → Outcome (Tasks W C)
  save_outputs task outputs s =
      elim (save_assets storages task.output_storage_name outputs s.world) [
        | ok (specs, saved) ↦
            send_complete send task.workflow_run_id task.attempt ((task.loc, specs) ∷ []) s.channel
            >>= λ sent. ok (record s { world = saved; channel = sent })
        | err e ↦ fail_task send report task.workflow_run_id task.attempt task.loc e s
        | panic ↦ panic
      ]

  unfoldable pub process_finished_task : BackgroundTask → Tasks W C → Outcome (Tasks W C)
  process_finished_task task s =
      let key : TaskKey = ((task.workflow_run_id, task.attempt), task.loc) in
      let s1 : Tasks W C = record s { abort_handles = remove s.abort_handles key } in
      elim task.task_output [
        | ok outputs ↦ save_outputs task outputs s1
        | err e ↦ fail_task send report task.workflow_run_id task.attempt task.loc e s1
        | panic ↦ panic
      ]

  module _ {J : Type 0} where
    -- `spawn_blocking`, and its abort handle
    abbrev pub spawn : BackgroundTaskPlan J → Map String Bytes → Tasks W C → Tasks W C
    spawn internal_task inputs s =
        let plan = internal_task.task_plan in
        let future : Spawned = record {
          number = s.spawned;
          workflow_run_id = plan.workflow_run_id;
          attempt = plan.attempt;
          loc = plan.loc;
          output_storage_name = internal_task.output_storage_name;
          task_name = plan.task_name;
          inputs = inputs;
        } in
        record s {
          futures = future ∷ s.futures;
          abort_handles =
              insert s.abort_handles ((plan.workflow_run_id, plan.attempt), plan.loc) s.spawned;
          spawned = suc s.spawned;
        }

    unfoldable pub start_task : BackgroundTaskPlan J → Tasks W C → Outcome (Tasks W C)
    start_task internal_task s =
        let plan = internal_task.task_plan in
        send_running send plan.workflow_run_id plan.attempt plan.loc s.channel >>= λ sent.
        let s1 : Tasks W C = record s { channel = sent } in
        elim (load_assets storages plan.inputs s.world) [
          | ok inputs ↦ ok (spawn internal_task inputs s1)
          | err e ↦ fail_task send report plan.workflow_run_id plan.attempt plan.loc e s1
          | panic ↦ panic
        ]

  module _ (run_builtin : String → Map String Bytes → W → Outcome (Map String Bytes)) where
    -- a branch of `select!` for a future that is not there is not taken
    unfoldable pub take_turn : {J : Type 0} → Turn J → Tasks W C → Outcome (Tasks W C)
    unfolding process_cancelled_task process_finished_task start_task take_future
    take_turn (cancelling workflow_run_id attempt loc) s =
        expect_ok (process_cancelled_task send workflow_run_id attempt loc s)
    take_turn (joined n) s = elim (take_future s.futures n) [
      | none ↦ ok s
      | some (f, rest) ↦
          expect_ok
            (process_finished_task (run_future run_builtin f s.world) (record s { futures = rest }))
    ]
    take_turn (join_failed n) s = elim (take_future s.futures n) [
      | none ↦ ok s
      | some taken ↦ panic
    ]
    take_turn (submitted internal_task) s = expect_ok (start_task internal_task s)

    unfoldable pub process_tasks : {J : Type 0} → List (Turn J) → Tasks W C → Outcome (Tasks W C)
    unfolding take_turn
    process_tasks [] s = ok s
    process_tasks (turn ∷ turns) s = take_turn turn s >>= λ next. process_tasks turns next
