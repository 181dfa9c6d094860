-- ===== src/Executor/Hpc/Panics.antt =====
-- When the loop of tierkreis/src/executor/hpc.rs panics.
use tierkreis.Base.{
  ◌≡◌, refl, String, Error, Bool, true, false, Option, none, some, List, [], ◌∷◌, Outcome, ok, err,
  panic, Step, ◌>>◌, logging, map, arith, nat_eq, string_eq, pair_eq,
}
use tierkreis.Base.Map.{Map, get}
use tierkreis.Location.{location_eq}
use tierkreis.Asset.{Assets}
use tierkreis.Event.{TaskHandle}
use tierkreis.Event.Send.{send_cancelled, send_complete, send_error, send_running, send_queued}
use tierkreis.Storage.{Storages, transfer_assets}
use tierkreis.Executor.Keys.{TaskKey}
use tierkreis.Executor.Balance.{log_event}
use tierkreis.Executor.Hpc.Handles.{IsSound}
use tierkreis.Executor.Hpc.Sound.{check_job-IsSound}
use tierkreis.Executor.Hpc.Watched.{Logged, Same-check_job}
use tierkreis.Executor.Hpc.Frame.{is_watching}
use tierkreis.Executor.Hpc.Listed.{AllOther, AreDistinct, AreWatched, watched_jobs-AreWatched}
use tierkreis.Executor.Hpc.{
  SchedulerStatus, Scheduler, BackgroundTask, BackgroundTaskPlan, key_of, watching,
  TaskRegistration, cancel_before_registration, Turn, cancelling, tick, submitted, watched_jobs,
  process_cancelled_task, monitor_task, process_finished_task, check_job, check_each, check_jobs,
  check_listed, start_watching, on_world, reporting, take_turn, unregister, sending, complete_task,
  update_status, finish_task,
}

abbrev pub is_panic {ℓ} : {A : Type ℓ} → Outcome A → Bool
is_panic (ok a) = false
is_panic (err e) = false
is_panic panic = true

abbrev pub is_refused {ℓ} : {A : Type ℓ} → Outcome A → Bool
is_refused (ok a) = false
is_refused (err e) = true
is_refused panic = true

abbrev has_ended : SchedulerStatus → Bool
has_ended SchedulerStatus.queued = false
has_ended SchedulerStatus.running = false
has_ended SchedulerStatus.complete = true
has_ended SchedulerStatus.cancelled = true
has_ended (SchedulerStatus.error message) = true

calm_after :
    {S A B : Type 0} (Q : S → Type 0) (r : Outcome A × S) (f : A → Step S B)
    → is_panic r.0 ≡ false
    → Q r.1
    → ((a : A) (s : S) → Q s → is_panic (f a s).0 ≡ false)
    → is_panic (r >> f).0 ≡ false
calm_after Q (ok a, s) f c h k = k a s h
calm_after Q (err e, s) f c h k = refl
calm_after Q (panic, s) f c h k = c

module _ {W : Type 0} (storages : Storages W) (report : Error → String × String)
    (transfers : (name : String) (assets : Assets) (w : W)
      → is_panic (transfer_assets storages name assets w) ≡ false) where
  AreWatched-check_job :
      (key : TaskKey) (status : Option SchedulerStatus) (s : Logged W)
      (jobs : List (TaskKey × TaskHandle))
      → IsSound s.job_handles
      → AllOther key jobs
      → AreWatched s.job_handles jobs
      → AreWatched (check_job storages log_event report key status s).1.job_handles jobs
  AreWatched-check_job key status s [] h d w = tt
  AreWatched-check_job key status s (job ∷ jobs) h d w = (
    rw ((Same-check_job storages report key job.0 d.0 status s h).0) w.0,
    AreWatched-check_job key status s jobs h d.1 w.1,
  )

  calm-complete_task :
      (task : BackgroundTask) (s : Logged W)
      → is_panic (complete_task storages log_event report task s).0 ≡ false
  unfolding send_complete send_error
  calm-complete_task task s =
      ground (arith, transfers task.output_storage_name task.outputs s.world)

  calm-update_status :
      (key : TaskKey) (status : SchedulerStatus) (s : Logged W) (o : Option TaskRegistration)
      → is_watching o ≡ true
      → is_panic (update_status storages log_event report key status s o).0 ≡ false
  unfolding send_running
  calm-update_status key status s o w = ground arith

  calm-finished :
      (task : BackgroundTask) (status : SchedulerStatus) (s : Logged W)
      → has_ended status ≡ true
      → is_panic (process_finished_task storages log_event report task status s).0 ≡ false
  unfolding process_finished_task send_cancelled send_error
  calm-finished task SchedulerStatus.complete s e =
      calm-complete_task task (unregister (key_of task) s)
  calm-finished task SchedulerStatus.cancelled s e = refl
  calm-finished task (SchedulerStatus.error message) s e = refl
  calm-finished task SchedulerStatus.queued s e = cc
  calm-finished task SchedulerStatus.running s e = cc

  calm-finish_task :
      (key : TaskKey) (status : SchedulerStatus) (s : Logged W) (o : Option TaskRegistration)
      → has_ended status ≡ true
      → is_panic (finish_task storages log_event report key status s o).0 ≡ false
  unfolding finish_task
  calm-finish_task key status s none e = refl
  calm-finish_task key status s (some cancel_before_registration) e = refl
  calm-finish_task key status s (some (watching job_id task previous_status)) e =
      calm-finished task status (unregister key s) e

  calm-check_job :
      (key : TaskKey) (status : Option SchedulerStatus) (s : Logged W)
      → is_watching (get s.job_handles key) ≡ true
      → is_panic (check_job storages log_event report key status s).0 ≡ false
  unfolding check_job
  calm-check_job key none s w = refl
  calm-check_job key (some SchedulerStatus.queued) s w =
      calm-update_status key SchedulerStatus.queued s _ w
  calm-check_job key (some SchedulerStatus.running) s w =
      calm-update_status key SchedulerStatus.running s _ w
  calm-check_job key (some SchedulerStatus.complete) s w =
      calm-finish_task key SchedulerStatus.complete s _ refl
  calm-check_job key (some SchedulerStatus.cancelled) s w =
      calm-finish_task key SchedulerStatus.cancelled s _ refl
  calm-check_job key (some (SchedulerStatus.error message)) s w =
      calm-finish_task key (SchedulerStatus.error message) s _ refl

  calm-check_each :
      (statuses : Map TaskHandle SchedulerStatus) (jobs : List (TaskKey × TaskHandle))
      (s : Logged W)
      → AreDistinct jobs
      → IsSound s.job_handles
      → AreWatched s.job_handles jobs
      → is_panic (check_each storages log_event report statuses jobs s).0 ≡ false
  unfolding check_each
  calm-check_each statuses [] s d h w = refl
  calm-check_each statuses ((key, job_id) ∷ jobs) s d h w =
      let status = get statuses job_id in
      calm_after (λ s1. IsSound s1.job_handles × AreWatched s1.job_handles jobs)
        (check_job storages log_event report key status s)
        (λ checked. check_each storages log_event report statuses jobs)
        (calm-check_job key status s w.0)
        (
          check_job-IsSound storages log_event report key status s h,
          AreWatched-check_job key status s jobs h d.0 w.1,
        )
        (λ checked s1 q. calm-check_each statuses jobs s1 d.1 q.0 q.1)

  module _ (scheduler : Scheduler W)
      (checks : (ids : List TaskHandle) (w : W) → is_panic (scheduler.check ids w).0 ≡ false)
      (cancels : (id : TaskHandle) (w : W) → is_panic (scheduler.cancel id w).0 ≡ false) where
    calm-check_listed :
        (s : Logged W) (jobs : List (TaskKey × TaskHandle))
        → IsSound s.job_handles
        → AreWatched s.job_handles jobs
        → AreDistinct jobs
        → is_panic (check_listed storages log_event report scheduler s jobs).0 ≡ false
    unfolding check_listed
    calm-check_listed s [] h w d = refl
    calm-check_listed s (job ∷ jobs) h w d =
        calm_after (λ s1. IsSound s1.job_handles × AreWatched s1.job_handles (job ∷ jobs))
          (on_world (scheduler.check (map (λ j. j.1) (job ∷ jobs))) s)
          (λ statuses. check_each storages log_event report statuses (job ∷ jobs))
          (checks (map (λ j. j.1) (job ∷ jobs)) s.world) (h, w)
          (λ statuses s1 q. calm-check_each statuses (job ∷ jobs) s1 d q.0 q.1)

    calm-logging :
        (r : Outcome (Unit {0}) × Logged W) → is_panic r.0 ≡ false → is_panic (logging r).0 ≡ false
    calm-logging (ok done, s) c = refl
    calm-logging (err e, s) c = refl
    calm-logging (panic, s) c = c

    calm-reporting :
        (task : BackgroundTask) (r : Outcome (Unit {0}) × Logged W)
        → is_panic r.0 ≡ false
        → is_panic (reporting storages log_event report scheduler task r).0 ≡ false
    unfolding send_error
    calm-reporting task (ok done, s) c = refl
    calm-reporting task (err e, s) c = refl
    calm-reporting task (panic, s) c = c

    calm-start_watching :
        (plan : BackgroundTaskPlan) (s : Logged W)
        → is_panic (start_watching scheduler plan s).0 ≡ false
    calm-start_watching plan s = ground (arith, cancels plan.job_id s.world)

    -- whether a turn is a request to cancel a watched task whose job the scheduler does not cancel
    abbrev pub is_refused_cancel : Turn → Logged W → Bool
    is_refused_cancel (cancelling run attempt loc) s =
        elim (get s.job_handles ((run, attempt), loc)) [
          | none ↦ false
          | some (watching job_id task status) ↦ is_refused (scheduler.cancel job_id s.world).0
          | some cancel_before_registration ↦ false
        ]
    is_refused_cancel tick s = false
    is_refused_cancel (submitted plan) s = false

    -- One turn of the loop panics exactly when it is a request to cancel a task that is watched and
    -- the scheduler does not cancel its job: an error of one `scancel` ends the loop for all jobs.
    -- That takes handles that are sound, a channel that takes every event, and that neither the
    -- scheduler nor the storages panic; whatever the scheduler then answers, the handle of a job that
    -- is looked up is there, and no job that is taken for finished still waits or runs.
    pub take_turn_panics :
        (turn : Turn) (s : Logged W)
        → IsSound s.job_handles
        → is_panic (take_turn storages log_event report scheduler turn s).0
          ≡ is_refused_cancel turn s
    unfolding take_turn check_jobs process_cancelled_task monitor_task send_queued
    take_turn_panics (cancelling run attempt loc) s h = ground arith
    take_turn_panics tick s h =
        let (w, d) = watched_jobs-AreWatched s.job_handles h in
        calm-logging (check_jobs storages log_event report scheduler s)
          (calm-check_listed s (watched_jobs s.job_handles) h w d)
    take_turn_panics (submitted plan) s h =
        calm-reporting plan.task (monitor_task scheduler log_event plan s) (
          calm-start_watching plan
            (sending
              (send_queued log_event plan.task.workflow_run_id plan.task.attempt plan.task.loc
                (some plan.job_id))
              s).1)
