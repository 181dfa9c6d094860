-- ===== src/Executor/Hpc.antt =====
-- The loop of tierkreis/src/executor/hpc.rs, which watches the jobs of a batch scheduler. The
-- scheduler is a parameter over the world `W`, which also holds the storages. What `select!` picks
-- in each turn is a `Turn`.
pub mod Handles
pub mod Sound
pub mod Watched
pub mod Frame
pub mod Cancel
pub mod Listed
pub mod Panics
mod Tests
use tierkreis.Base.{
  ℕ, String, Error, Bool, true, false, not, ◌&&◌, Option, none, some, List, [], ◌∷◌, map, Outcome,
  ok, err, panic, Step, ◌>>◌, expecting, logging, string_eq, nat_eq, pair_eq, if◌then◌else◌,
}
use tierkreis.Base.Map.{Map, get, insert, remove}
use tierkreis.Location.{Location, location_eq}
use tierkreis.Asset.{Assets}
use tierkreis.Event.{RuntimeEvent, TaskHandle}
use tierkreis.Event.Send.{send_cancelled, send_complete, send_error, send_running, send_queued}
use tierkreis.Storage.{Storages, transfer_assets}
use tierkreis.Executor.Keys.{TaskKey}

pub data SchedulerStatus : Type 0 where
  queued : SchedulerStatus
  running : SchedulerStatus
  complete : SchedulerStatus
  cancelled : SchedulerStatus
  error : String → SchedulerStatus

abbrev pub is_running_status : Option SchedulerStatus → Bool
is_running_status none = false
is_running_status (some SchedulerStatus.queued) = false
is_running_status (some SchedulerStatus.running) = true
is_running_status (some SchedulerStatus.complete) = false
is_running_status (some SchedulerStatus.cancelled) = false
is_running_status (some (SchedulerStatus.error message)) = false

-- what the loop uses of a `SchedulerWrapper`
pub record Scheduler (W : Type 0) : Type 0 where
  pub check : List TaskHandle → W → Outcome (Map TaskHandle SchedulerStatus) × W
  pub cancel : TaskHandle → W → Outcome (Unit {0}) × W

pub record BackgroundTask : Type 0 where
  pub workflow_run_id : ℕ
  pub attempt : ℕ
  pub loc : Location
  pub outputs : Assets
  pub output_storage_name : String

-- a task with the job that it is submitted as
pub record BackgroundTaskPlan : Type 0 where
  pub task : BackgroundTask
  pub job_id : TaskHandle

abbrev pub key_of : BackgroundTask → TaskKey
key_of task = ((task.workflow_run_id, task.attempt), task.loc)

pub data TaskRegistration : Type 0 where
  watching : TaskHandle → BackgroundTask → Option SchedulerStatus → TaskRegistration
  cancel_before_registration : TaskRegistration

abbrev pub JobHandles : Type 0
JobHandles = Map TaskKey TaskRegistration

-- the variables of the loop, the channel `C` of its events, and the world
pub record Watcher (W C : Type 0) : Type 0 where
  pub world : W
  pub channel : C
  pub job_handles : JobHandles

-- one turn of the loop: a request to cancel, a tick of the interval, or a submitted task
pub data Turn : Type 0 where
  cancelling : ℕ → ℕ → Location → Turn
  tick : Turn
  submitted : BackgroundTaskPlan → Turn

-- the jobs that are watched
unfoldable pub watched_jobs : JobHandles → List (TaskKey × TaskHandle)
watched_jobs [] = []
watched_jobs ((key, watching job_id task status) ∷ handles) = (key, job_id) ∷ watched_jobs handles
watched_jobs ((key, cancel_before_registration) ∷ handles) = watched_jobs handles

abbrev pub should_cancel : Option TaskRegistration → Bool
should_cancel none = false
should_cancel (some (watching job_id task status)) = false
should_cancel (some cancel_before_registration) = true

module _ {W C : Type 0} where
  -- an operation on the world, and a send on the channel
  abbrev pub on_world : {A : Type 0} → (W → Outcome A × W) → Step (Watcher W C) A
  on_world f s = let (result, world) = f s.world in (result, record s { world = world })

  abbrev pub sent_to : Watcher W C → Outcome C → Outcome (Unit {0}) × Watcher W C
  sent_to s (ok channel) = (ok tt, record s { channel = channel })
  sent_to s (err e) = (err e, s)
  sent_to s panic = (panic, s)

  abbrev pub sending : (C → Outcome C) → Step (Watcher W C) (Unit {0})
  sending f s = sent_to s (f s.channel)

  abbrev pub register : TaskKey → TaskRegistration → Watcher W C → Watcher W C
  register key registration s = record s { job_handles = insert s.job_handles key registration }

  abbrev pub unregister : TaskKey → Watcher W C → Watcher W C
  unregister key s = record s { job_handles = remove s.job_handles key }

  abbrev pub watched : BackgroundTaskPlan → Watcher W C → Watcher W C
  watched plan s = register (key_of plan.task) (watching plan.job_id plan.task none) s

module _ {W C : Type 0} (scheduler : Scheduler W) where
  abbrev pub cancel_found :
      TaskKey → Watcher W C → Option TaskRegistration → Outcome (Unit {0}) × Watcher W C
  cancel_found key s none = (ok tt, register key cancel_before_registration s)
  cancel_found key s (some (watching job_id task status)) =
      on_world (scheduler.cancel job_id) (unregister key s)
  cancel_found key s (some cancel_before_registration) = (ok tt, unregister key s)

  unfoldable pub process_cancelled_task : ℕ → ℕ → Location → Step (Watcher W C) (Unit {0})
  process_cancelled_task workflow_run_id attempt loc s =
      let key : TaskKey = ((workflow_run_id, attempt), loc) in
      cancel_found key s (get s.job_handles key)

  abbrev pub start_watching : BackgroundTaskPlan → Step (Watcher W C) (Unit {0})
  start_watching plan s =
      if should_cancel (get s.job_handles (key_of plan.task))
      then on_world (scheduler.cancel plan.job_id) (watched plan s)
      else (ok tt, watched plan s)

  unfoldable pub monitor_task :
      (RuntimeEvent → C → Outcome C) → BackgroundTaskPlan → Step (Watcher W C) (Unit {0})
  monitor_task send plan s =
      let task = plan.task in
      sending (send_queued send task.workflow_run_id task.attempt task.loc (some plan.job_id)) s
      >> λ sent. start_watching plan

module _ {W C : Type 0} (storages : Storages W) (send : RuntimeEvent → C → Outcome C)
    (report : Error → String × String) where
  abbrev pub fail_task : BackgroundTask → Error → Step (Watcher W C) (Unit {0})
  fail_task task e =
      sending (send_error send task.workflow_run_id task.attempt task.loc (report e).0 (report e).1)

  -- what a transfer that fails has saved before is under keys that nothing names
  abbrev pub completed :
      BackgroundTask → Watcher W C → Outcome (Assets × W) → Outcome (Unit {0}) × Watcher W C
  completed task s (ok (outputs, world)) =
      sending (send_complete send task.workflow_run_id task.attempt ((task.loc, outputs) ∷ []))
        (record s { world = world })
  completed task s (err e) = fail_task task e s
  completed task s panic = (panic, s)

  abbrev pub complete_task : BackgroundTask → Step (Watcher W C) (Unit {0})
  complete_task task s =
      completed task s (transfer_assets storages task.output_storage_name task.outputs s.world)

  unfoldable pub process_finished_task :
      BackgroundTask → SchedulerStatus → Step (Watcher W C) (Unit {0})
  process_finished_task task SchedulerStatus.complete s =
      complete_task task (unregister (key_of task) s)
  process_finished_task task SchedulerStatus.cancelled s =
      sending (send_cancelled send task.workflow_run_id task.attempt task.loc)
        (unregister (key_of task) s)
  process_finished_task task (SchedulerStatus.error message) s =
      sending (send_error send task.workflow_run_id task.attempt task.loc message message)
        (unregister (key_of task) s)
  process_finished_task task SchedulerStatus.queued s = (panic, unregister (key_of task) s)
  process_finished_task task SchedulerStatus.running s = (panic, unregister (key_of task) s)

  -- a job that waits or runs: it is reported to be running when it was not before
  abbrev pub update_status :
      TaskKey
      → SchedulerStatus
      → Watcher W C
      → Option TaskRegistration
      → Outcome (Unit {0}) × Watcher W C
  update_status key status s none = (panic, s)
  update_status key status s (some cancel_before_registration) = (ok tt, s)
  update_status key status s (some (watching job_id task previous_status)) =
      (if is_running_status (some status) && not (is_running_status previous_status)
        then sending (send_running send task.workflow_run_id task.attempt task.loc) s
        else (ok tt, s))
      >> λ sent s1. (ok tt, register key (watching job_id task (some status)) s1)

  -- a job that has ended
  unfoldable pub finish_task :
      TaskKey
      → SchedulerStatus
      → Watcher W C
      → Option TaskRegistration
      → Outcome (Unit {0}) × Watcher W C
  unfolding process_finished_task
  finish_task key status s none = (ok tt, s)
  finish_task key status s (some cancel_before_registration) = (ok tt, unregister key s)
  finish_task key status s (some (watching job_id task previous_status)) =
      process_finished_task task status (unregister key s)

  unfoldable pub check_job : TaskKey → Option SchedulerStatus → Step (Watcher W C) (Unit {0})
  unfolding finish_task
  check_job key none s = (ok tt, s)
  check_job key (some SchedulerStatus.queued) s =
      update_status key SchedulerStatus.queued s (get s.job_handles key)
  check_job key (some SchedulerStatus.running) s =
      update_status key SchedulerStatus.running s (get s.job_handles key)
  check_job key (some SchedulerStatus.complete) s =
      finish_task key SchedulerStatus.complete s (get s.job_handles key)
  check_job key (some SchedulerStatus.cancelled) s =
      finish_task key SchedulerStatus.cancelled s (get s.job_handles key)
  check_job key (some (SchedulerStatus.error message)) s =
      finish_task key (SchedulerStatus.error message) s (get s.job_handles key)

  unfoldable pub check_each :
      Map TaskHandle SchedulerStatus → List (TaskKey × TaskHandle) → Step (Watcher W C) (Unit {0})
  unfolding check_job
  check_each statuses [] s = (ok tt, s)
  check_each statuses ((key, job_id) ∷ jobs) s =
      check_job key (get statuses job_id) s >> λ checked. check_each statuses jobs

  module _ (scheduler : Scheduler W) where
    unfoldable pub check_listed :
        Watcher W C → List (TaskKey × TaskHandle) → Outcome (Unit {0}) × Watcher W C
    unfolding check_each
    check_listed s [] = (ok tt, s)
    check_listed s (job ∷ jobs) =
        on_world (scheduler.check (map (λ j. j.1) (job ∷ jobs))) s >> λ statuses.
        check_each statuses (job ∷ jobs)

    unfoldable pub check_jobs : Step (Watcher W C) (Unit {0})
    unfolding watched_jobs check_listed
    check_jobs s = check_listed s (watched_jobs s.job_handles)

    -- an error of `monitor_task` is sent
    abbrev pub reporting :
        BackgroundTask → Outcome (Unit {0}) × Watcher W C → Outcome (Unit {0}) × Watcher W C
    reporting task (ok done, s) = (ok tt, s)
    reporting task (err e, s) = expecting (fail_task task e s)
    reporting task (panic, s) = (panic, s)

    unfoldable pub take_turn : Turn → Step (Watcher W C) (Unit {0})
    unfolding process_cancelled_task check_jobs monitor_task
    take_turn (cancelling workflow_run_id attempt loc) s =
        expecting (process_cancelled_task scheduler workflow_run_id attempt loc s)
    take_turn tick s = logging (check_jobs s)
    take_turn (submitted plan) s = reporting plan.task (monitor_task scheduler send plan s)

    unfoldable pub process_tasks : List Turn → Step (Watcher W C) (Unit {0})
    unfolding take_turn
    process_tasks [] s = (ok tt, s)
    process_tasks (turn ∷ turns) s = take_turn turn s >> λ taken. process_tasks turns
