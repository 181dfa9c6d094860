-- ===== src/Executor/Hpc/Cancel.antt =====
-- Requests to cancel a task, in the loop of tierkreis/src/executor/hpc.rs.
use tierkreis.Base.{
  ◌≡◌, refl, String, Error, false, Option, none, some, List, ◌∷◌, Outcome, ok, err, panic,
  expecting-ok, All, nat_eq, string_eq, pair_eq, ◌∙◌,
}
use tierkreis.Base.Map.{get, remove, get-insert_self, get-remove_self}
use tierkreis.Location.{location_eq}
use tierkreis.Event.{TaskHandle}
use tierkreis.Event.Send.{send_error, send_queued}
use tierkreis.Storage.{Storages}
use tierkreis.Executor.Keys.{TaskKey}
use tierkreis.Executor.Balance.{log_event}
use tierkreis.Executor.Hpc.Handles.{IsSound, insert-IsSound, remove-IsSound}
use tierkreis.Executor.Hpc.Watched.{Logged, reports, Same}
use tierkreis.Executor.Hpc.Frame.{concerns, is_watching, Frame, Frame-process_tasks}
use tierkreis.Executor.Hpc.{
  SchedulerStatus, Scheduler, BackgroundTask, BackgroundTaskPlan, key_of, watching,
  cancel_before_registration, Turn, cancelling, submitted, process_cancelled_task, monitor_task,
  start_watching, on_world, reporting, take_turn, process_tasks, unregister, register, sending,
}

abbrev pub cancel_of : BackgroundTask → Turn
cancel_of task = cancelling task.workflow_run_id task.attempt task.loc

module _ {W : Type 0} (storages : Storages W) (report : Error → String × String)
    (scheduler : Scheduler W) where
  abbrev pub run_turns : List Turn → Logged W → Outcome (Unit {0}) × Logged W
  run_turns = process_tasks storages log_event report scheduler

  abbrev pub submit : BackgroundTaskPlan → Logged W → Logged W
  submit plan s = (take_turn storages log_event report scheduler (submitted plan) s).1

  reporting-rest :
      (task : BackgroundTask) (r : Outcome (Unit {0}) × Logged W)
      → ((reporting storages log_event report scheduler task r).1.world ≡ r.1.world)
        × ((reporting storages log_event report scheduler task r).1.job_handles ≡ r.1.job_handles)
  unfolding send_error
  reporting-rest task (ok done, s) = (refl, refl)
  reporting-rest task (err e, s) = (refl, refl)
  reporting-rest task (panic, s) = (refl, refl)

  -- what a submission does, by whether a request to cancel is noted
  submit-marked :
      (plan : BackgroundTaskPlan) (s : Logged W)
      → get s.job_handles (key_of plan.task) ≡ some cancel_before_registration
      → ((submit plan s).world ≡ (scheduler.cancel plan.job_id s.world).1)
        × (get (submit plan s).job_handles (key_of plan.task)
            ≡ some (watching plan.job_id plan.task none))
  unfolding take_turn monitor_task send_queued send_error
  submit-marked plan s h =
      let task = plan.task in
      let queued =
        (sending
          (send_queued log_event task.workflow_run_id task.attempt task.loc (some plan.job_id))
          s).1 in
      let kept = reporting-rest task (start_watching scheduler plan queued) in
      let self = get-insert_self s.job_handles (key_of task) (watching plan.job_id task none) in
      rw (kept.0, kept.1, h) (refl, self)

  submit-unmarked :
      (plan : BackgroundTaskPlan) (s : Logged W)
      → get s.job_handles (key_of plan.task) ≡ none
      → ((submit plan s).world ≡ s.world)
        × (get (submit plan s).job_handles (key_of plan.task)
            ≡ some (watching plan.job_id plan.task none))
  unfolding take_turn monitor_task send_queued send_error
  submit-unmarked plan s h =
      let task = plan.task in
      let queued =
        (sending
          (send_queued log_event task.workflow_run_id task.attempt task.loc (some plan.job_id))
          s).1 in
      let kept = reporting-rest task (start_watching scheduler plan queued) in
      let self = get-insert_self s.job_handles (key_of task) (watching plan.job_id task none) in
      rw (kept.0, kept.1, h) (refl, self)

  abbrev pub IsQuiet : BackgroundTask → List Turn → Type 0
  IsQuiet task turns = All (λ turn. concerns (key_of task) turn ≡ false) turns

  quiet_turns :
      (task : BackgroundTask) (turns : List Turn) (s : Logged W) {s1 : Logged W}
      → IsSound s.job_handles
      → is_watching (get s.job_handles (key_of task)) ≡ false
      → IsQuiet task turns
      → run_turns turns s ≡ (ok tt, s1)
      → Same (key_of task) s s1
  quiet_turns task turns s {s1} h w q e =
      let frame : Frame (key_of task) s s1 = rw e at (
        Frame-process_tasks storages report (key_of task) scheduler turns s s q w
          (h, (refl, refl))) in
      frame.1

  -- A request to cancel a task that arrives before the task is submitted is not lost: where the loop
  -- has no handle of the task, and then no other request to cancel it and no submission of it
  -- arrives, whatever else does, the job is cancelled with the scheduler when the task is submitted,
  -- and it is watched.
  pub cancel_before_submission :
      (plan : BackgroundTaskPlan) (turns : List Turn) (s : Logged W) {s1 : Logged W}
      → IsSound s.job_handles
      → get s.job_handles (key_of plan.task) ≡ none
      → IsQuiet plan.task turns
      → run_turns (cancel_of plan.task ∷ turns) s ≡ (ok tt, s1)
      → ((submit plan s1).world ≡ (scheduler.cancel plan.job_id s1.world).1)
        × (get (submit plan s1).job_handles (key_of plan.task)
            ≡ some (watching plan.job_id plan.task none))
  unfolding process_tasks take_turn process_cancelled_task
  cancel_before_submission plan turns s {s1} h none_eq q e =
      let key : TaskKey = key_of plan.task in
      let mid : Logged W = register key cancel_before_registration s in
      let noted = get-insert_self s.job_handles key cancel_before_registration in
      let e1 : run_turns turns mid ≡ (ok tt, s1) = rw (none_eq, process_tasks) at e in
      let h1 = insert-IsSound s.job_handles key cancel_before_registration tt h in
      let kept = quiet_turns plan.task turns mid h1 (rw noted refl) q e1 in
      submit-marked plan s1 (kept.0 ∙ noted)

  -- A second request undoes the first one: where the loop has no handle of a task, is asked twice to
  -- cancel it, and then neither again nor to start it, the job is not cancelled with the scheduler
  -- when the task is submitted, but only watched.
  pub cancel_twice :
      (plan : BackgroundTaskPlan) (turns : List Turn) (s : Logged W) {s1 : Logged W}
      → IsSound s.job_handles
      → get s.job_handles (key_of plan.task) ≡ none
      → IsQuiet plan.task turns
      → run_turns (cancel_of plan.task ∷ cancel_of plan.task ∷ turns) s ≡ (ok tt, s1)
      → ((submit plan s1).world ≡ s1.world)
        × (get (submit plan s1).job_handles (key_of plan.task)
            ≡ some (watching plan.job_id plan.task none))
  unfolding process_tasks take_turn process_cancelled_task
  cancel_twice plan turns s {s1} h none_eq q e =
      let key : TaskKey = key_of plan.task in
      let first : Logged W = register key cancel_before_registration s in
      let mid : Logged W = unregister key first in
      let noted = get-insert_self s.job_handles key cancel_before_registration in
      let gone = get-remove_self first.job_handles key in
      let e1 : run_turns turns mid ≡ (ok tt, s1) = rw (none_eq, noted, process_tasks) at e in
      let h1 = insert-IsSound s.job_handles key cancel_before_registration tt h in
      let h2 = remove-IsSound first.job_handles key h1 in
      let kept = quiet_turns plan.task turns mid h2 (rw gone refl) q e1 in
      submit-unmarked plan s1 (kept.0 ∙ gone)

  -- A task that is watched when it is cancelled is forgotten: as long as it is not submitted again
  -- and no other request to cancel it arrives, no event about it is sent any more, not even that it
  -- is cancelled.
  pub cancel_watched :
      (task : BackgroundTask) (turns : List Turn) (s : Logged W) {s1 : Logged W}
      {job_id : TaskHandle} {watched_task : BackgroundTask} {status : Option SchedulerStatus}
      → IsSound s.job_handles
      → get s.job_handles (key_of task) ≡ some (watching job_id watched_task status)
      → IsQuiet task turns
      → run_turns (cancel_of task ∷ turns) s ≡ (ok tt, s1)
      → (reports (key_of task) s1 ≡ reports (key_of task) s)
        × (get s1.job_handles (key_of task) ≡ none)
  unfolding process_tasks take_turn process_cancelled_task
  cancel_watched task turns s {s1} {job_id} h watching_eq q e =
      let key : TaskKey = key_of task in
      let gone = get-remove_self s.job_handles key in
      let (result, world) = scheduler.cancel job_id s.world in
      let mid : Logged W = record s { world = world; job_handles = remove s.job_handles key } in
      let e1 : run_turns turns mid ≡ (ok tt, s1) =
        expecting-ok (on_world (scheduler.cancel job_id) (unregister key s))
          (λ done. run_turns turns) (rw (watching_eq, process_tasks) at e) in
      let h1 = remove-IsSound s.job_handles key h in
      let kept = quiet_turns task turns mid h1 (rw gone refl) q e1 in (kept.1, kept.0 ∙ gone)
