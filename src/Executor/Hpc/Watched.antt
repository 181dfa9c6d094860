-- ===== src/Executor/Hpc/Watched.antt =====
-- The job handles that the loop of tierkreis/src/executor/hpc.rs keeps, and what it reports of a task when the
-- status of another task's job is looked at.
use tierkreis.Base.{
  ℕ, ◌≡◌, refl, String, Error, true, false, not, ◌&&◌, ◌==◌, Option, none, some, List, [], ◌∷◌, ok,
  err, panic, arith, nat_eq, string_eq, pair_eq, ◌∙◌, Bool-cases, inl, inr,
}
use tierkreis.Base.Map.{get, get-insert_other, get-remove_other}
use tierkreis.Location.{location_eq}
use tierkreis.Event.{RuntimeEvent, NodeStatus, node_events}
use tierkreis.Event.Send.{
  node_event, send_event, send_cancelled, send_complete, send_error, send_running,
}
use tierkreis.Storage.{Storages, transfer_assets}
use tierkreis.Executor.Keys.{TaskKey}
use tierkreis.Executor.Balance.{count, log_event}
use tierkreis.Executor.Hpc.Handles.{IsSound, FitsFound, get-FitsFound}
use tierkreis.Executor.Hpc.{
  SchedulerStatus, is_running_status, BackgroundTask, key_of, watching, TaskRegistration,
  cancel_before_registration, Watcher, process_finished_task, check_job, unregister, register,
  sending, complete_task, completed, update_status, finish_task,
}

abbrev pub Logged : Type 0 → Type 0
Logged W = Watcher W (List RuntimeEvent)

-- how many events of a task are in the log
abbrev pub reports : {W : Type 0} → TaskKey → Logged W → ℕ
reports k s = count (λ status. true) k s.channel

-- nothing has changed for a task
abbrev pub Same : {W : Type 0} → TaskKey → Logged W → Logged W → Type 0
Same k s s' = (get s'.job_handles k ≡ get s.job_handles k) × (reports k s' ≡ reports k s)

module _ {W : Type 0} (storages : Storages W) (report : Error → String × String) (key k : TaskKey)
    (distinct : (key == k) ≡ false) where
  pub Same-unregister : (s : Logged W) → Same k s (unregister key s)
  Same-unregister s = (get-remove_other s.job_handles key k distinct, refl)

  pub Same-register : (r : TaskRegistration) (s : Logged W) → Same k s (register key r s)
  Same-register r s = (get-insert_other s.job_handles key k r distinct, refl)

  -- an event of another task
  pub Same-sent :
      (task : BackgroundTask) (status : NodeStatus) (s : Logged W)
      → key_of task ≡ key
      → Same k s
          (sending
            (send_event log_event task.workflow_run_id task.attempt
              (node_events (node_event task.loc status ∷ [])))
            s).1
  Same-sent task status s e = ground (arith, rw (← e) at distinct)

  Same-complete_task :
      (task : BackgroundTask) (s : Logged W)
      → key_of task ≡ key
      → Same k s (complete_task storages log_event report task s).1
  unfolding send_complete send_error
  Same-complete_task task s e =
      elim (transfer_assets storages task.output_storage_name task.outputs s.world)
        as (λ o. Same k s (completed storages log_event report task s o).1) [
          | ok (outputs, world) ↦
              Same-sent task (NodeStatus.complete outputs) (record s { world = world }) e
          | err x ↦ Same-sent task (NodeStatus.error (report x).0 (some (report x).1)) s e
          | panic ↦ (refl, refl)
        ]

  Same-finished :
      (task : BackgroundTask) (status : SchedulerStatus) (s : Logged W)
      → key_of task ≡ key
      → Same k s (process_finished_task storages log_event report task status s).1
  unfolding process_finished_task send_cancelled send_error
  Same-finished task SchedulerStatus.complete s e =
      let gone : Same k s (unregister (key_of task) s) = rw e (Same-unregister s) in
      let done = Same-complete_task task (unregister (key_of task) s) e in
      (done.0 ∙ gone.0, done.1 ∙ gone.1)
  Same-finished task SchedulerStatus.cancelled s e =
      let gone : Same k s (unregister (key_of task) s) = rw e (Same-unregister s) in
      let done = Same-sent task NodeStatus.cancelled (unregister (key_of task) s) e in
      (done.0 ∙ gone.0, done.1 ∙ gone.1)
  Same-finished task (SchedulerStatus.error message) s e =
      let gone : Same k s (unregister (key_of task) s) = rw e (Same-unregister s) in
      let done =
        Same-sent task (NodeStatus.error message (some message)) (unregister (key_of task) s) e in
      (done.0 ∙ gone.0, done.1 ∙ gone.1)
  Same-finished task SchedulerStatus.queued s e = rw e (Same-unregister s)
  Same-finished task SchedulerStatus.running s e = rw e (Same-unregister s)

  Same-update_status :
      (status : SchedulerStatus) (s : Logged W) (o : Option TaskRegistration)
      → FitsFound key o
      → Same k s (update_status storages log_event report key status s o).1
  unfolding send_running
  Same-update_status status s none f = (refl, refl)
  Same-update_status status s (some cancel_before_registration) f = (refl, refl)
  Same-update_status status s (some (watching job_id task previous_status)) f =
      let s1 : Logged W =
        (sending (send_running log_event task.workflow_run_id task.attempt task.loc) s).1 in
      let sent = Same-sent task (NodeStatus.running none) s f in
      let r = watching job_id task (some status) in
      elim (Bool-cases
        (is_running_status (some status) && not (is_running_status previous_status))) [
          | inl e ↦ let kept = Same-register r s1 in rw e (kept.0 ∙ sent.0, kept.1 ∙ sent.1)
          | inr e ↦ rw e (Same-register r s)
        ]

  Same-finish_task :
      (status : SchedulerStatus) (s : Logged W) (o : Option TaskRegistration)
      → FitsFound key o
      → Same k s (finish_task storages log_event report key status s o).1
  unfolding finish_task
  Same-finish_task status s none f = (refl, refl)
  Same-finish_task status s (some cancel_before_registration) f = Same-unregister s
  Same-finish_task status s (some (watching job_id task previous_status)) f =
      let gone = Same-unregister s in
      let done = Same-finished task status (unregister key s) f in
      (done.0 ∙ gone.0, done.1 ∙ gone.1)

  pub Same-check_job :
      (status : Option SchedulerStatus) (s : Logged W)
      → IsSound s.job_handles
      → Same k s (check_job storages log_event report key status s).1
  unfolding check_job
  Same-check_job none s h = (refl, refl)
  Same-check_job (some SchedulerStatus.queued) s h =
      Same-update_status SchedulerStatus.queued s _ (get-FitsFound s.job_handles key h)
  Same-check_job (some SchedulerStatus.running) s h =
      Same-update_status SchedulerStatus.running s _ (get-FitsFound s.job_handles key h)
  Same-check_job (some SchedulerStatus.complete) s h =
      Same-finish_task SchedulerStatus.complete s _ (get-FitsFound s.job_handles key h)
  Same-check_job (some SchedulerStatus.cancelled) s h =
      Same-finish_task SchedulerStatus.cancelled s _ (get-FitsFound s.job_handles key h)
  Same-check_job (some (SchedulerStatus.error message)) s h =
      Same-finish_task (SchedulerStatus.error message) s _ (get-FitsFound s.job_handles key h)
