-- ===== src/Executor/Subprocess/Account.antt =====
-- What becomes of the tasks that are submitted to the loop of
-- tierkreis/src/executor/subprocess.rs, with a channel that takes every event.
use tierkreis.Base.{
  ℕ, zero, suc, ◌+◌, ◌≡◌, String, Error, Bool, ◌&&◌, ◌==◌, Option, some, List, [], ◌∷◌, ok,
  >>=-eq-ok, arith, nat_eq, string_eq, pair_eq, if◌then◌else◌, Option-cases, inl, inr,
}
use tierkreis.Location.{Location, location_eq}
use tierkreis.Event.{RuntimeEvent}
use tierkreis.Event.Send.{send_cancelled, send_complete, send_error, send_running, send_queued}
use tierkreis.Storage.{Storages}
use tierkreis.Executor.Keys.{TaskKey}
use tierkreis.Executor.Balance.{is_end, count, log_event, expect_ok-eq-ok}
use tierkreis.Executor.Subprocess.Workers.{ExitStatus, Processes}
use tierkreis.Executor.Subprocess.{
  BackgroundTaskPlan, BackgroundTask, Tasks, Turn, cancelling, exited, wait_failed, submitted,
  take_running, process_cancelled_task, fail_task, key_of, process_finished_task, start_task,
  take_turn, process_tasks,
}

abbrev is_task : TaskKey → ℕ → ℕ → Location → Bool
is_task k run attempt loc = (run, attempt) == k.0 && loc == k.1

-- how many processes of a task the loop waits for
abbrev pub waiting : TaskKey → List BackgroundTask → ℕ
waiting k [] = 0
waiting k (task ∷ running) =
    let rest = waiting k running in
    if is_task k task.workflow_run_id task.attempt task.loc then suc rest else rest

-- how often a task is submitted
abbrev pub submissions : TaskKey → List Turn → ℕ
submissions k [] = 0
submissions k (submitted plan ∷ turns) =
    let rest = submissions k turns in
    if is_task k plan.workflow_run_id plan.attempt plan.loc then suc rest else rest
submissions k (_ ∷ turns) = submissions k turns

-- the reports of a task that it has completed or failed, and its processes that still run
abbrev pub accounted : {W : Type 0} → TaskKey → Tasks W (List RuntimeEvent) → ℕ
accounted k s = count is_end k s.channel + waiting k s.running

waiting-take_running :
    (k : TaskKey) (running : List BackgroundTask) (n : ℕ) {task : BackgroundTask}
    {rest : List BackgroundTask}
    → take_running running n ≡ some (task, rest)
    → waiting k running ≡ waiting k (task ∷ rest)
unfolding take_running
waiting-take_running k [] n h = ground arith
waiting-take_running k (task ∷ running) zero h = ground arith
waiting-take_running k (task ∷ running) (suc n) h = elim (Option-cases (take_running running n)) [
  | inl none_eq ↦ ground arith
  | inr ((g, others), some_eq) ↦ ground (arith, waiting-take_running k running n some_eq)
]

module _ {W : Type 0} (report : Error → String × String) (k : TaskKey) where
  accounted-cancelled :
      (run attempt : ℕ) (loc : Location) (s : Tasks W (List RuntimeEvent))
      {s' : Tasks W (List RuntimeEvent)}
      → process_cancelled_task log_event run attempt loc s ≡ ok s'
      → accounted k s' ≡ accounted k s
  unfolding process_cancelled_task send_cancelled
  accounted-cancelled run attempt loc s h = ground arith

  accounted-failed :
      (task : BackgroundTask) (e : Error) (s : Tasks W (List RuntimeEvent))
      {s' : Tasks W (List RuntimeEvent)}
      → fail_task log_event report (key_of task) e s ≡ ok s'
      → accounted k s' ≡ accounted k (record s { running = task ∷ s.running })
  unfolding send_error
  accounted-failed task e s h = ground arith

  accounted-finished :
      (storages : Storages W) (task : BackgroundTask) (exit_status : ExitStatus)
      (stderr : Option String) (s : Tasks W (List RuntimeEvent)) {s' : Tasks W (List RuntimeEvent)}
      → process_finished_task log_event report storages task exit_status stderr s ≡ ok s'
      → accounted k s' ≡ accounted k (record s { running = task ∷ s.running })
  unfolding process_finished_task send_error send_complete
  accounted-finished storages task exit_status stderr s h = ground arith

  accounted-start :
      (processes : Processes W) (plan : BackgroundTaskPlan) (s : Tasks W (List RuntimeEvent))
      {s' : Tasks W (List RuntimeEvent)}
      → start_task log_event report processes plan s ≡ ok s'
      → accounted k s' ≡ accounted k s + submissions k (submitted plan ∷ [])
  unfolding start_task send_error send_running send_queued
  accounted-start processes plan s h = ground arith

  module _ (processes : Processes W) (storages : Storages W) where
    accounted-take_turn :
        (turn : Turn) (s : Tasks W (List RuntimeEvent)) {s' : Tasks W (List RuntimeEvent)}
        → take_turn log_event report processes storages turn s ≡ ok s'
        → accounted k s' ≡ accounted k s + submissions k (turn ∷ [])
    unfolding take_turn
    accounted-take_turn (cancelling run attempt loc) s h =
        ground (arith, accounted-cancelled run attempt loc s (expect_ok-eq-ok _ h))
    accounted-take_turn (exited n exit_status stderr) s h =
        elim (Option-cases (take_running s.running n)) [
          | inl none_eq ↦ ground arith
          | inr ((task, rest), some_eq) ↦
              let finished =
                accounted-finished storages task exit_status stderr (record s { running = rest })
                  (expect_ok-eq-ok _ (rw (some_eq, take_turn) at h)) in
              ground (arith, finished, waiting-take_running k s.running n some_eq)
        ]
    accounted-take_turn (wait_failed n e) s h = elim (Option-cases (take_running s.running n)) [
      | inl none_eq ↦ ground arith
      | inr ((task, rest), some_eq) ↦
          let failed =
            accounted-failed task e (record s { running = rest })
              (expect_ok-eq-ok _ (rw (some_eq, take_turn) at h)) in
          ground (arith, failed, waiting-take_running k s.running n some_eq)
    ]
    accounted-take_turn (submitted plan) s h =
        accounted-start processes plan s (expect_ok-eq-ok _ h)

    submissions-cons :
        (turn : Turn) (turns : List Turn)
        → submissions k (turn ∷ turns) ≡ submissions k (turn ∷ []) + submissions k turns
    submissions-cons (cancelling run attempt loc) turns = omega arith
    submissions-cons (exited n exit_status stderr) turns = omega arith
    submissions-cons (wait_failed n e) turns = omega arith
    submissions-cons (submitted plan) turns = ground arith

    -- With a channel that takes every event, in any sequence of turns that the loop survives each
    -- submission of a task leads to one report that the task has completed or failed, or to a
    -- process that the loop still waits for: the number of the two together grows by that of the
    -- submissions of the task. A cancellation changes neither.
    pub process_tasks-accounted :
        (turns : List Turn) (s : Tasks W (List RuntimeEvent)) {s' : Tasks W (List RuntimeEvent)}
        → process_tasks log_event report processes storages turns s ≡ ok s'
        → accounted k s' ≡ accounted k s + submissions k turns
    unfolding process_tasks
    process_tasks-accounted [] s h = ground arith
    process_tasks-accounted (turn ∷ turns) s h =
        let (next, turned, rest) =
          >>=-eq-ok (take_turn log_event report processes storages turn s)
            (λ s1. process_tasks log_event report processes storages turns s1) h in
        ground (
          arith,
          accounted-take_turn turn s turned,
          process_tasks-accounted turns next rest,
          submissions-cons turn turns,
        )
