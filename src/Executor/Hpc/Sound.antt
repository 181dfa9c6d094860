-- ===== src/Executor/Hpc/Sound.antt =====
-- Every turn of the loop of tierkreis/src/executor/hpc.rs keeps the job handles sound.
use tierkreis.Base.{
  ℕ, refl, String, Error, true, false, not, ◌&&◌, Option, none, some, List, [], ◌∷◌, Outcome, ok,
  err, panic, kept_after, kept_expecting, kept_logging, map, nat_eq, string_eq, pair_eq,
  if◌then◌else◌, Bool-cases, inl, inr,
}
use tierkreis.Base.Map.{Map, get}
use tierkreis.Location.{Location, location_eq}
use tierkreis.Event.{RuntimeEvent, TaskHandle}
use tierkreis.Event.Send.{send_running, send_queued}
use tierkreis.Storage.{Storages, transfer_assets}
use tierkreis.Executor.Keys.{TaskKey}
use tierkreis.Executor.Hpc.Handles.{
  IsSound, FitsFound, get-FitsFound, insert-IsSound, remove-IsSound,
}
use tierkreis.Executor.Hpc.{
  SchedulerStatus, is_running_status, Scheduler, BackgroundTask, BackgroundTaskPlan, key_of,
  watching, TaskRegistration, cancel_before_registration, Watcher, Turn, cancelling, tick,
  submitted, watched_jobs, process_cancelled_task, monitor_task, process_finished_task, check_job,
  check_each, check_jobs, take_turn, check_listed, cancel_found, watched, start_watching, on_world,
  should_cancel, reporting, fail_task, unregister, register, sending, sent_to, completed,
  update_status, finish_task,
}

sent_to-IsSound :
    {W C : Type 0} (s : Watcher W C) (o : Outcome C)
    → IsSound s.job_handles
    → IsSound (sent_to s o).1.job_handles
sent_to-IsSound s (ok channel) h = h
sent_to-IsSound s (err e) h = h
sent_to-IsSound s panic h = h

module _ {W C : Type 0} (storages : Storages W) (send : RuntimeEvent → C → Outcome C)
    (report : Error → String × String) where
  finished-IsSound :
      (task : BackgroundTask) (status : SchedulerStatus) (s : Watcher W C)
      → IsSound s.job_handles
      → IsSound (process_finished_task storages send report task status s).1.job_handles
  unfolding process_finished_task
  finished-IsSound task SchedulerStatus.complete s h =
      let s1 : Watcher W C = unregister (key_of task) s in
      let h1 = remove-IsSound s.job_handles (key_of task) h in
      elim (transfer_assets storages task.output_storage_name task.outputs s.world)
        as (λ o. IsSound (completed storages send report task s1 o).1.job_handles) [
          | ok (outputs, world) ↦ sent_to-IsSound (record s1 { world = world }) _ h1
          | err x ↦ sent_to-IsSound s1 _ h1
          | panic ↦ h1
        ]
  finished-IsSound task SchedulerStatus.cancelled s h =
      sent_to-IsSound (unregister (key_of task) s) _ (remove-IsSound s.job_handles (key_of task) h)
  finished-IsSound task (SchedulerStatus.error message) s h =
      sent_to-IsSound (unregister (key_of task) s) _ (remove-IsSound s.job_handles (key_of task) h)
  finished-IsSound task SchedulerStatus.queued s h = remove-IsSound s.job_handles (key_of task) h
  finished-IsSound task SchedulerStatus.running s h = remove-IsSound s.job_handles (key_of task) h

  update_status-IsSound :
      (key : TaskKey) (status : SchedulerStatus) (s : Watcher W C) (o : Option TaskRegistration)
      → FitsFound key o
      → IsSound s.job_handles
      → IsSound (update_status storages send report key status s o).1.job_handles
  update_status-IsSound key status s none f h = h
  update_status-IsSound key status s (some cancel_before_registration) f h = h
  update_status-IsSound key status s (some (watching job_id task previous_status)) f h =
      let r = watching job_id task (some status) in
      elim (Bool-cases
        (is_running_status (some status) && not (is_running_status previous_status))) [
          | inl e ↦ rw e (
              kept_after (λ s1. IsSound s1.job_handles)
                (sending (send_running send task.workflow_run_id task.attempt task.loc) s)
                (λ sent s1. (ok tt, register key r s1))
                (sent_to-IsSound s
                  (send_running send task.workflow_run_id task.attempt task.loc s.channel) h)
                (λ sent s1 h1. insert-IsSound s1.job_handles key r f h1))
          | inr e ↦ rw e (insert-IsSound s.job_handles key r f h)
        ]

  finish_task-IsSound :
      (key : TaskKey) (status : SchedulerStatus) (s : Watcher W C) (o : Option TaskRegistration)
      → IsSound s.job_handles
      → IsSound (finish_task storages send report key status s o).1.job_handles
  unfolding finish_task
  finish_task-IsSound key status s none h = h
  finish_task-IsSound key status s (some cancel_before_registration) h =
      remove-IsSound s.job_handles key h
  finish_task-IsSound key status s (some (watching job_id task previous_status)) h =
      finished-IsSound task status (unregister key s) (remove-IsSound s.job_handles key h)

  pub check_job-IsSound :
      (key : TaskKey) (status : Option SchedulerStatus) (s : Watcher W C)
      → IsSound s.job_handles
      → IsSound (check_job storages send report key status s).1.job_handles
  unfolding check_job
  check_job-IsSound key none s h = h
  check_job-IsSound key (some SchedulerStatus.queued) s h =
      update_status-IsSound key SchedulerStatus.queued s _ (get-FitsFound s.job_handles key h) h
  check_job-IsSound key (some SchedulerStatus.running) s h =
      update_status-IsSound key SchedulerStatus.running s _ (get-FitsFound s.job_handles key h) h
  check_job-IsSound key (some SchedulerStatus.complete) s h =
      finish_task-IsSound key SchedulerStatus.complete s _ h
  check_job-IsSound key (some SchedulerStatus.cancelled) s h =
      finish_task-IsSound key SchedulerStatus.cancelled s _ h
  check_job-IsSound key (some (SchedulerStatus.error message)) s h =
      finish_task-IsSound key (SchedulerStatus.error message) s _ h

  pub check_each-IsSound :
      (statuses : Map TaskHandle SchedulerStatus) (jobs : List (TaskKey × TaskHandle))
      (s : Watcher W C)
      → IsSound s.job_handles
      → IsSound (check_each storages send report statuses jobs s).1.job_handles
  unfolding check_each
  check_each-IsSound statuses [] s h = h
  check_each-IsSound statuses ((key, job_id) ∷ jobs) s h =
      kept_after (λ s1. IsSound s1.job_handles)
        (check_job storages send report key (get statuses job_id) s)
        (λ checked. check_each storages send report statuses jobs)
        (check_job-IsSound key (get statuses job_id) s h)
        (λ checked. check_each-IsSound statuses jobs)

  module _ (scheduler : Scheduler W) where
    check_jobs-IsSound :
        (s : Watcher W C)
        → IsSound s.job_handles
        → IsSound (check_jobs storages send report scheduler s).1.job_handles
    unfolding check_jobs check_listed
    check_jobs-IsSound s h =
        elim (watched_jobs s.job_handles)
          as (λ jobs. IsSound (check_listed storages send report scheduler s jobs).1.job_handles) [
            | [] ↦ h
            | job ∷ jobs ↦
                kept_after (λ s1. IsSound s1.job_handles)
                  (on_world (scheduler.check (map (λ j. j.1) (job ∷ jobs))) s)
                  (λ statuses. check_each storages send report statuses (job ∷ jobs)) h
                  (λ statuses. check_each-IsSound statuses (job ∷ jobs))
          ]

    process_cancelled_task-IsSound :
        (run attempt : ℕ) (loc : Location) (s : Watcher W C)
        → IsSound s.job_handles
        → IsSound (process_cancelled_task scheduler run attempt loc s).1.job_handles
    unfolding process_cancelled_task
    process_cancelled_task-IsSound run attempt loc s h =
        let key : TaskKey = ((run, attempt), loc) in
        elim (get s.job_handles key)
          as (λ o. IsSound (cancel_found scheduler key s o).1.job_handles) [
            | none ↦ insert-IsSound s.job_handles key cancel_before_registration tt h
            | some (watching job_id task status) ↦ remove-IsSound s.job_handles key h
            | some cancel_before_registration ↦ remove-IsSound s.job_handles key h
          ]

    monitor_task-IsSound :
        (plan : BackgroundTaskPlan) (s : Watcher W C)
        → IsSound s.job_handles
        → IsSound (monitor_task scheduler send plan s).1.job_handles
    unfolding monitor_task
    monitor_task-IsSound plan s h =
        let task = plan.task in
        let key : TaskKey = key_of task in
        kept_after (λ s1. IsSound s1.job_handles)
          (sending (send_queued send task.workflow_run_id task.attempt task.loc (some plan.job_id))
            s)
          (λ sent. start_watching scheduler plan) (sent_to-IsSound s _ h)
          (λ sent s1 h1.
            let h2 = insert-IsSound s1.job_handles key (watching plan.job_id task none) refl h1 in
            elim (should_cancel (get s1.job_handles key))
              as (λ b.
                IsSound
                  (if b
                    then on_world (scheduler.cancel plan.job_id) (watched plan s1)
                    else (ok tt, watched plan s1)).1.job_handles) [ true ↦ h2 | false ↦ h2 ])

    reporting-IsSound :
        (task : BackgroundTask) (r : Outcome (Unit {0}) × Watcher W C)
        → IsSound r.1.job_handles
        → IsSound (reporting storages send report scheduler task r).1.job_handles
    reporting-IsSound task (ok done, s) h = h
    reporting-IsSound task (err e, s) h =
        kept_expecting (λ s1. IsSound s1.job_handles) (fail_task storages send report task e s)
          (sent_to-IsSound s _ h)
    reporting-IsSound task (panic, s) h = h

    pub take_turn-IsSound :
        (turn : Turn) (s : Watcher W C)
        → IsSound s.job_handles
        → IsSound (take_turn storages send report scheduler turn s).1.job_handles
    unfolding take_turn
    take_turn-IsSound (cancelling run attempt loc) s h =
        kept_expecting (λ s1. IsSound s1.job_handles)
          (process_cancelled_task scheduler run attempt loc s)
          (process_cancelled_task-IsSound run attempt loc s h)
    take_turn-IsSound tick s h =
        kept_logging (λ s1. IsSound s1.job_handles) (check_jobs storages send report scheduler s)
          (check_jobs-IsSound s h)
    take_turn-IsSound (submitted plan) s h =
        reporting-IsSound plan.task (monitor_task scheduler send plan s)
          (monitor_task-IsSound plan s h)
