-- ===== src/Executor/Hpc/Frame.antt =====
-- A task that is not watched: turns that do not concern it, of the loop of
-- tierkreis/src/executor/hpc.rs, change nothing for it.
use tierkreis.Base.{
  ◌≡◌, refl, String, Error, Bool, true, false, ◌==◌, Option, none, some, List, [], ◌∷◌, Outcome, ok,
  err, panic, kept_after, kept_expecting, kept_logging, map, All, nat_eq, string_eq, pair_eq, ◌∙◌,
  if◌then◌else◌, Bool-cases, inl, inr,
}
use tierkreis.Base.Map.{Map, get}
use tierkreis.Location.{location_eq}
use tierkreis.Event.{TaskHandle, NodeStatus}
use tierkreis.Event.Send.{send_error, send_queued}
use tierkreis.Storage.{Storages}
use tierkreis.Executor.Keys.{TaskKey}
use tierkreis.Executor.Balance.{log_event}
use tierkreis.Executor.Hpc.Handles.{IsSound, key_iff}
use tierkreis.Executor.Hpc.Sound.{check_job-IsSound, take_turn-IsSound}
use tierkreis.Executor.Hpc.Watched.{
  Logged, Same, Same-unregister, Same-register, Same-sent, Same-check_job,
}
use tierkreis.Executor.Hpc.{
  SchedulerStatus, Scheduler, BackgroundTask, BackgroundTaskPlan, key_of, watching,
  TaskRegistration, cancel_before_registration, JobHandles, Turn, cancelling, tick, submitted,
  watched_jobs, process_cancelled_task, monitor_task, check_job, check_each, check_jobs,
  check_listed, cancel_found, watched, start_watching, on_world, should_cancel, reporting,
  fail_task, take_turn, process_tasks, sending,
}

abbrev pub is_watching : Option TaskRegistration → Bool
is_watching none = false
is_watching (some (watching job_id task status)) = true
is_watching (some cancel_before_registration) = false

-- whether a turn is a request to cancel the task, or submits it
abbrev pub concerns : TaskKey → Turn → Bool
concerns k (cancelling run attempt loc) = ((run, attempt), loc) == k
concerns k tick = false
concerns k (submitted plan) = key_of plan.task == k

watched_jobs-other :
    (handles : JobHandles) (k : TaskKey)
    → IsSound handles
    → is_watching (get handles k) ≡ false
    → All (λ j. (j.0 == k) ≡ false) (watched_jobs handles)
unfolding watched_jobs get
watched_jobs-other [] k h e = tt
watched_jobs-other ((key, watching job_id task status) ∷ handles) k h e =
    elim (Bool-cases (key == k)) [
      | inl same ↦ (let wrong : true ≡ false = rw same at e in cc)
      | inr other ↦ (other, watched_jobs-other handles k h.2 (rw other at e))
    ]
watched_jobs-other ((key, cancel_before_registration) ∷ handles) k h e =
    elim (Bool-cases (key == k)) [
      | inl same ↦ watched_jobs-other handles k h.2 (rw (← (key_iff key k).0 same, h.0) refl)
      | inr other ↦ watched_jobs-other handles k h.2 (rw other at e)
    ]

-- sound, and as before for a task
abbrev pub Frame : {W : Type 0} → TaskKey → Logged W → Logged W → Type 0
Frame k s s' = IsSound s'.job_handles × Same k s s'

module _ {W : Type 0} (storages : Storages W) (report : Error → String × String) (k : TaskKey) where
  Frame-check_each :
      (statuses : Map TaskHandle SchedulerStatus) (jobs : List (TaskKey × TaskHandle))
      (before s : Logged W)
      → All (λ j. (j.0 == k) ≡ false) jobs
      → Frame k before s
      → Frame k before (check_each storages log_event report statuses jobs s).1
  unfolding check_each
  Frame-check_each statuses [] before s d h = h
  Frame-check_each statuses ((key, job_id) ∷ jobs) before s d h =
      let status = get statuses job_id in
      let checked = Same-check_job storages report key k d.0 status s h.0 in
      kept_after (Frame k before) (check_job storages log_event report key status s)
        (λ checked. check_each storages log_event report statuses jobs)
        (
          check_job-IsSound storages log_event report key status s h.0,
          (checked.0 ∙ h.1.0, checked.1 ∙ h.1.1),
        )
        (λ checked s1. Frame-check_each statuses jobs before s1 d.1)

  module _ (scheduler : Scheduler W) where
    Frame-check_listed :
        (jobs : List (TaskKey × TaskHandle)) (before s : Logged W)
        → All (λ j. (j.0 == k) ≡ false) jobs
        → Frame k before s
        → Frame k before (check_listed storages log_event report scheduler s jobs).1
    unfolding check_listed
    Frame-check_listed [] before s d h = h
    Frame-check_listed (job ∷ jobs) before s d h =
        kept_after (Frame k before) (on_world (scheduler.check (map (λ j. j.1) (job ∷ jobs))) s)
          (λ statuses. check_each storages log_event report statuses (job ∷ jobs)) h
          (λ statuses s1. Frame-check_each statuses (job ∷ jobs) before s1 d)

    Same-cancel_found :
        (key : TaskKey) (s : Logged W) (o : Option TaskRegistration)
        → (key == k) ≡ false
        → Same k s (cancel_found scheduler key s o).1
    Same-cancel_found key s none d =
        Same-register storages report key k d cancel_before_registration s
    Same-cancel_found key s (some (watching job_id task status)) d =
        Same-unregister storages report key k d s
    Same-cancel_found key s (some cancel_before_registration) d =
        Same-unregister storages report key k d s

    Same-start_watching :
        (plan : BackgroundTaskPlan) (s : Logged W)
        → (key_of plan.task == k) ≡ false
        → Same k s (start_watching scheduler plan s).1
    Same-start_watching plan s d =
        let key = key_of plan.task in
        let kept = Same-register storages report key k d (watching plan.job_id plan.task none) s in
        elim (should_cancel (get s.job_handles key))
          as (λ b.
            Same k s
              (if b
                then on_world (scheduler.cancel plan.job_id) (watched plan s)
                else (ok tt, watched plan s)).1) [ true ↦ kept | false ↦ kept ]

    Same-monitor_task :
        (plan : BackgroundTaskPlan) (s : Logged W)
        → (key_of plan.task == k) ≡ false
        → Same k s (monitor_task scheduler log_event plan s).1
    unfolding monitor_task send_queued
    Same-monitor_task plan s d =
        let task = plan.task in
        kept_after (Same k s)
          (sending
            (send_queued log_event task.workflow_run_id task.attempt task.loc (some plan.job_id)) s)
          (λ sent. start_watching scheduler plan)
          (Same-sent storages report (key_of task) k d task (NodeStatus.queued (some plan.job_id)) s
            refl)
          (λ sent s1 h.
            let started = Same-start_watching plan s1 d in (started.0 ∙ h.0, started.1 ∙ h.1))

    Same-reporting :
        (task : BackgroundTask) (before : Logged W) (r : Outcome (Unit {0}) × Logged W)
        → (key_of task == k) ≡ false
        → Same k before r.1
        → Same k before (reporting storages log_event report scheduler task r).1
    unfolding send_error
    Same-reporting task before (ok done, s) d h = h
    Same-reporting task before (err e, s) d h =
        let sent =
          Same-sent storages report (key_of task) k d task
            (NodeStatus.error (report e).0 (some (report e).1)) s refl in
        kept_expecting (Same k before) (fail_task storages log_event report task e s)
          (sent.0 ∙ h.0, sent.1 ∙ h.1)
    Same-reporting task before (panic, s) d h = h

    Same-take_turn :
        (turn : Turn) (s : Logged W)
        → concerns k turn ≡ false
        → is_watching (get s.job_handles k) ≡ false
        → IsSound s.job_handles
        → Same k s (take_turn storages log_event report scheduler turn s).1
    unfolding take_turn process_cancelled_task check_jobs
    Same-take_turn (cancelling run attempt loc) s d w h =
        kept_expecting (Same k s) (process_cancelled_task scheduler run attempt loc s)
          (Same-cancel_found ((run, attempt), loc) s _ d)
    Same-take_turn tick s d w h =
        kept_logging (Same k s) (check_jobs storages log_event report scheduler s)
          (Frame-check_listed (watched_jobs s.job_handles) s s
            (watched_jobs-other s.job_handles k h w) (h, (refl, refl))).1
    Same-take_turn (submitted plan) s d w h =
        Same-reporting plan.task s (monitor_task scheduler log_event plan s) d
          (Same-monitor_task plan s d)

    -- Where no turn asks to cancel a task that is not watched, or submits it, nothing changes for it.
    pub Frame-process_tasks :
        (turns : List Turn) (before s : Logged W)
        → All (λ turn. concerns k turn ≡ false) turns
        → is_watching (get before.job_handles k) ≡ false
        → Frame k before s
        → Frame k before (process_tasks storages log_event report scheduler turns s).1
    unfolding process_tasks
    Frame-process_tasks [] before s d w h = h
    Frame-process_tasks (turn ∷ turns) before s d w h =
        let taken = Same-take_turn turn s d.0 (rw (h.1.0) w) h.0 in
        kept_after (Frame k before) (take_turn storages log_event report scheduler turn s)
          (λ taken. process_tasks storages log_event report scheduler turns)
          (
            take_turn-IsSound storages log_event report scheduler turn s h.0,
            (taken.0 ∙ h.1.0, taken.1 ∙ h.1.1),
          )
          (λ taken s1. Frame-process_tasks turns before s1 d.1 w)
