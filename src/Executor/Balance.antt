-- ===== src/Executor/Balance.antt =====
-- The tasks that the loop of tierkreis/src/executor/inmemory.rs starts and ends, with a channel that
-- takes every event.
use tierkreis.Base.{
  ℕ, zero, suc, ◌+◌, ◌≡◌, String, Error, Bool, ◌&&◌, ◌==◌, true, false, some, List, [], ◌∷◌,
  Outcome, ok, err, panic, >>=-eq-ok, arith, nat_eq, string_eq, pair_eq, if◌then◌else◌,
  Option-cases, inl, inr,
}
use tierkreis.Base.Map.{Map}
use tierkreis.Location.{Location, location_eq}
use tierkreis.Event.{NodeStatus, NodeEvent, WorkflowRunEvent, node_events, RuntimeEvent}
use tierkreis.Event.Send.{send_cancelled, send_complete, send_error, send_running}
use tierkreis.Storage.{Bytes, Storages}
use tierkreis.Executor.Keys.{TaskKey}
use tierkreis.Executor.{
  BackgroundTaskPlan, Spawned, Tasks, Turn, cancelling, joined, join_failed, submitted, take_future,
  process_cancelled_task, process_finished_task, start_task, take_turn, process_tasks, expect_ok,
  run_future,
}

abbrev pub is_start : NodeStatus → Bool
is_start (NodeStatus.running update) = true
is_start _ = false

abbrev pub is_end : NodeStatus → Bool
is_end (NodeStatus.complete outputs) = true
is_end (NodeStatus.error message detail) = true
is_end _ = false

-- how often a log reports such a status of a task
abbrev count_nodes : (NodeStatus → Bool) → Location → List NodeEvent → ℕ
count_nodes p loc [] = 0
count_nodes p loc (e ∷ events) =
    let rest = count_nodes p loc events in if p e.status && e.loc == loc then suc rest else rest

abbrev count_event : (NodeStatus → Bool) → Location → WorkflowRunEvent → ℕ
count_event p loc (node_events events) = count_nodes p loc events
count_event p loc _ = 0

abbrev pub count : (NodeStatus → Bool) → TaskKey → List RuntimeEvent → ℕ
count p k [] = 0
count p k (e ∷ log) =
    let rest = count p k log in
    if (e.workflow_run_id, e.attempt) == k.0 then count_event p k.1 e.event + rest else rest

-- how many threads there are of a task
abbrev pub threads : TaskKey → List Spawned → ℕ
threads k [] = 0
threads k (f ∷ futures) =
    let rest = threads k futures in
    if (f.workflow_run_id, f.attempt) == k.0 && f.loc == k.1 then suc rest else rest

abbrev pub log_event : RuntimeEvent → List RuntimeEvent → Outcome (List RuntimeEvent)
log_event event log = ok (event ∷ log)

-- a task is reported to be running as often as it is reported to have completed or failed, and once
-- for each thread of it
unfoldable pub IsBalanced : {W : Type 0} → TaskKey → Tasks W (List RuntimeEvent) → Type 0
IsBalanced k s = count is_start k s.channel ≡ count is_end k s.channel + threads k s.futures

threads-take_future :
    (k : TaskKey) (futures : List Spawned) (n : ℕ) {f : Spawned} {rest : List Spawned}
    → take_future futures n ≡ some (f, rest)
    → threads k futures ≡ threads k (f ∷ rest)
unfolding take_future
threads-take_future k [] n h = ground arith
threads-take_future k (f ∷ futures) zero h = ground arith
threads-take_future k (f ∷ futures) (suc n) h = elim (Option-cases (take_future futures n)) [
  | inl none_eq ↦ ground arith
  | inr ((g, others), some_eq) ↦ ground (arith, threads-take_future k futures n some_eq)
]

pub expect_ok-eq-ok : {A : Type 0} (o : Outcome A) {a : A} → expect_ok o ≡ ok a → o ≡ ok a
expect_ok-eq-ok (ok v) h = h
expect_ok-eq-ok (err e) h = cc
expect_ok-eq-ok panic h = cc

module _ {W : Type 0} (storages : Storages W) (report : Error → String × String) (k : TaskKey) where
  IsBalanced-cancelled :
      (run attempt : ℕ) (loc : Location) (s : Tasks W (List RuntimeEvent))
      {s' : Tasks W (List RuntimeEvent)}
      → IsBalanced k s
      → process_cancelled_task log_event run attempt loc s ≡ ok s'
      → IsBalanced k s'
  unfolding IsBalanced process_cancelled_task send_cancelled
  IsBalanced-cancelled run attempt loc s b h = ground arith

  IsBalanced-finished :
      (f : Spawned) (output : Outcome (Map String Bytes)) (s : Tasks W (List RuntimeEvent))
      {s' : Tasks W (List RuntimeEvent)}
      → IsBalanced k (record s { futures = f ∷ s.futures })
      → process_finished_task storages log_event report
          (run_future (λ name inputs w. output) f s.world)
          s
        ≡ ok s'
      → IsBalanced k s'
  unfolding IsBalanced process_finished_task send_complete send_error
  IsBalanced-finished f output s b h = ground arith

  IsBalanced-start :
      {J : Type 0} (plan : BackgroundTaskPlan J) (s : Tasks W (List RuntimeEvent))
      {s' : Tasks W (List RuntimeEvent)}
      → IsBalanced k s
      → start_task storages log_event report plan s ≡ ok s'
      → IsBalanced k s'
  unfolding IsBalanced start_task send_running send_error
  IsBalanced-start plan s b h = ground arith

  module _ (run_builtin : String → Map String Bytes → W → Outcome (Map String Bytes)) where
    IsBalanced-take_turn :
        {J : Type 0} (turn : Turn J) (s : Tasks W (List RuntimeEvent))
        {s' : Tasks W (List RuntimeEvent)}
        → IsBalanced k s
        → take_turn storages log_event report run_builtin turn s ≡ ok s'
        → IsBalanced k s'
    unfolding IsBalanced take_turn
    IsBalanced-take_turn (cancelling run attempt loc) s b h =
        IsBalanced-cancelled run attempt loc s b (expect_ok-eq-ok _ h)
    IsBalanced-take_turn (joined n) s b h = elim (Option-cases (take_future s.futures n)) [
      | inl none_eq ↦ ground arith
      | inr ((f, rest), some_eq) ↦
          IsBalanced-finished f (run_builtin f.task_name f.inputs s.world)
            (record s { futures = rest })
            (ground (arith, threads-take_future k s.futures n some_eq))
            (expect_ok-eq-ok _ (rw (some_eq, take_turn) at h))
    ]
    IsBalanced-take_turn (join_failed n) s b h = ground arith
    IsBalanced-take_turn (submitted plan) s b h = IsBalanced-start plan s b (expect_ok-eq-ok _ h)

    -- With a channel that takes every event, any sequence of turns that the loop survives keeps the
    -- account of each task: if before it the task is reported to be running as often as it is
    -- reported to have completed or failed and has threads, then so after it.
    pub process_tasks_lem :
        {J : Type 0} (turns : List (Turn J)) (s : Tasks W (List RuntimeEvent))
        {s' : Tasks W (List RuntimeEvent)}
        → IsBalanced k s
        → process_tasks storages log_event report run_builtin turns s ≡ ok s'
        → IsBalanced k s'
    unfolding IsBalanced process_tasks
    process_tasks_lem [] s b h = ground arith
    process_tasks_lem (turn ∷ turns) s b h =
        let (next, turned, rest) =
          >>=-eq-ok (take_turn storages log_event report run_builtin turn s)
            (λ s1. process_tasks storages log_event report run_builtin turns s1) h in
        process_tasks_lem turns next (IsBalanced-take_turn turn s b turned) rest
