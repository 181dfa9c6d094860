-- ===== src/Orchestrator/Plan/Order.antt =====
-- The order of what `apply_plan` of tierkreis/src/orchestrator.rs sends and starts.
use mathlib.Core.List.{append_assoc, append-nil}
use tierkreis.Base.{
  ℕ, String, ◌≡◌, refl, ap, sym, ◌∙◌, Option, none, some, List, [], ◌∷◌, ◌++◌, map, Outcome, ok,
  ◌>>=◌, All, Bool, true, if◌then◌else◌,
}
use tierkreis.Bits.{BitOps}
use tierkreis.Location.{Location}
use tierkreis.Asset.{Assets}
use tierkreis.Event.{
  NodeStatus, WorkflowRunEvent, errored, completed, node_events, RuntimeEvent, switching, evalling,
  looping, map_started, map_elem_complete,
}
use tierkreis.Event.Send.{
  node_event, send_complete, send_paused, send_running_eval, send_running_map,
  send_map_elem_complete, send_running_loop, send_running_switching, send_scheduled,
  send_workflow_run_paused, send_workflow_run_errored, send_workflow_run_complete,
}
use tierkreis.Orchestrator.Plan.{
  ActionPlan, TaskPlan, SetWorkflowState, for_each, dispatch, send_workflow_state, send_completions,
  send_pauses, apply_plan,
}
use tierkreis.Orchestrator.Plan.Contents.{collect}

-- what an observer sees: an event on the channel, or tasks that an executor is given
pub data Effect (J : Type 0) : Type 0 where
  sent : RuntimeEvent → Effect J
  executed : String → List (TaskPlan J) → Effect J

module _ {J : Type 0} where
  abbrev pub log_event : RuntimeEvent → List (Effect J) → Outcome (List (Effect J))
  log_event event log = ok (log ++ sent event ∷ [])

  for_each-log :
      {A : Type 0} (body : A → List (Effect J) → Outcome (List (Effect J)))
      (effects : A → List (Effect J))
      → ((a : A) (log : List (Effect J)) → body a log ≡ ok (log ++ effects a))
      → (items : List A) (log : List (Effect J))
      → for_each body items log ≡ ok (log ++ collect effects items)
  unfolding for_each
  for_each-log body effects h [] log = ap ok (sym (append-nil log))
  for_each-log body effects h (a ∷ items) log = rw (h a log) (
      for_each-log body effects h items (log ++ effects a)
      ∙ ap ok (append_assoc log (effects a) (collect effects items)))

  then_log :
      (m : Outcome (List (Effect J))) (step : List (Effect J) → Outcome (List (Effect J)))
      (log a b : List (Effect J))
      → m ≡ ok (log ++ a)
      → ((l : List (Effect J)) → step l ≡ ok (l ++ b))
      → (m >>= step) ≡ ok (log ++ (a ++ b))
  then_log m step log a b e h = rw e (h (log ++ a) ∙ ap ok (append_assoc log a b))

  module _ (run attempt : ℕ) where
    abbrev pub emitted : WorkflowRunEvent → Effect J
    emitted event = sent (record { workflow_run_id = run; attempt = attempt; event = event })

    -- one event about one node
    abbrev pub about : Location → NodeStatus → Effect J
    about loc status = emitted (node_events (node_event loc status ∷ []))

    abbrev pub completions : List (Location × Assets) → List (Effect J)
    completions [] = []
    completions (p ∷ rest) =
        emitted (node_events (map (λ q. node_event q.0 (NodeStatus.complete q.1)) (p ∷ rest))) ∷ []

    abbrev pub pauses : List Location → List (Effect J)
    pauses [] = []
    pauses (loc ∷ rest) =
        emitted (node_events (map (λ l. node_event l NodeStatus.paused) (loc ∷ rest))) ∷ []

    abbrev pub ends : Option SetWorkflowState → List (Effect J)
    ends none = []
    ends (some SetWorkflowState.paused) = emitted WorkflowRunEvent.paused ∷ []
    ends (some SetWorkflowState.errored) = emitted errored ∷ []
    ends (some SetWorkflowState.completed) = emitted completed ∷ []

    -- the tasks of one executor: each is announced before the executor has any of them
    abbrev pub started_group : String × List (TaskPlan J) → List (Effect J)
    started_group (name, tasks) =
        collect
          (λ task.
            about (TaskPlan.loc task) (NodeStatus.scheduled (TaskPlan.execution_context task)) ∷ [])
          tasks
        ++ executed name tasks ∷ []

    -- all that a plan sends and starts, in order
    abbrev pub effects_of : ActionPlan J → List (Effect J)
    effects_of plan =
        (((((((completions plan.node_complete ++ pauses plan.pause)
                    ++ collect (λ p. about p.0 (NodeStatus.running (some (evalling p.1))) ∷ [])
                        plan.evalling)
                  ++ collect (λ p. about p.0 (NodeStatus.running (some (map_started p.1))) ∷ [])
                      plan.mapping)
                ++ collect (λ p. about p.0 (NodeStatus.running (some (map_elem_complete p.1))) ∷ [])
                    plan.map_elem_complete)
              ++ collect
                  (λ p.
                    emitted (
                      node_events (
                        record {
                          loc = p.0;
                          name = p.1.1.1;
                          status = NodeStatus.running (some (looping p.1.0 p.1.1.0));
                        }
                        ∷ []))
                    ∷ [])
                  plan.looping)
            ++ collect (λ p. about p.0 (NodeStatus.running (some (switching p.1))) ∷ [])
                plan.switching)
          ++ collect started_group plan.tasks)
        ++ ends plan.set_workflow_state

    module _ (bits : BitOps) (default_executor_name default_storage_name : String)
        (known : String → Bool) where
      -- the registry of the known executors, each of which takes its tasks
      abbrev pub registry :
          String → Option (List (TaskPlan J) → List (Effect J) → Outcome (List (Effect J)))
      registry name =
          if known name then some (λ tasks log. ok (log ++ executed name tasks ∷ [])) else none

      dispatch-log :
          (group : String × List (TaskPlan J)) (log : List (Effect J))
          → known group.0 ≡ true
          → dispatch bits default_executor_name default_storage_name run attempt log_event registry
              group log
            ≡ ok (log ++ started_group group)
      unfolding dispatch send_scheduled
      dispatch-log (name, tasks) log k =
          let scheduled : TaskPlan J → List (Effect J) =
            λ task. about task.loc (NodeStatus.scheduled task.execution_context) ∷ [] in
          then_log _ _ log (collect scheduled tasks) (executed name tasks ∷ [])
            (for_each-log
              (λ task.
                send_scheduled log_event run attempt (TaskPlan.loc task)
                  (TaskPlan.execution_context task))
              scheduled (λ task l. refl) tasks log)
            (λ l. rw k refl)

      completions-log :
          (items : List (Location × Assets)) (log : List (Effect J))
          → send_completions bits default_executor_name default_storage_name run attempt log_event
              registry items log
            ≡ ok (log ++ completions items)
      unfolding send_completions send_complete
      completions-log [] log = ap ok (sym (append-nil log))
      completions-log (p ∷ items) log = refl

      pauses-log :
          (items : List Location) (log : List (Effect J))
          → send_pauses bits default_executor_name default_storage_name run attempt log_event
              registry items log
            ≡ ok (log ++ pauses items)
      unfolding send_pauses send_paused
      pauses-log [] log = ap ok (sym (append-nil log))
      pauses-log (p ∷ items) log = refl

      ends-log :
          (end : Option SetWorkflowState) (log : List (Effect J))
          → send_workflow_state bits default_executor_name default_storage_name run attempt
              log_event registry end log
            ≡ ok (log ++ ends end)
      unfolding send_workflow_state send_workflow_run_paused send_workflow_run_errored
          send_workflow_run_complete
      ends-log none log = ap ok (sym (append-nil log))
      ends-log (some SetWorkflowState.paused) log = refl
      ends-log (some SetWorkflowState.errored) log = refl
      ends-log (some SetWorkflowState.completed) log = refl

      dispatch_each_log :
          (groups : List (String × List (TaskPlan J))) (log : List (Effect J))
          → All (λ group. known group.0 ≡ true) groups
          → for_each
              (dispatch bits default_executor_name default_storage_name run attempt log_event
                registry)
              groups
              log
            ≡ ok (log ++ collect started_group groups)
      unfolding for_each
      dispatch_each_log [] log k = ap ok (sym (append-nil log))
      dispatch_each_log (g ∷ groups) log k = rw (dispatch-log g log k.0) (
          dispatch_each_log groups (log ++ started_group g) k.1
          ∙ ap ok (append_assoc log (started_group g) (collect started_group groups)))

      -- Where the channel takes every event and each executor that the plan names is known and takes
      -- its tasks, applying a plan succeeds, and sends in this order: one event with all completed nodes,
      -- one with all paused ones, the events of `Eval` nodes, of new `Map` nodes, of `Map` elements, of
      -- `Loop` nodes and of `IfElse` nodes, then for each executor the events of its tasks and the tasks
      -- themselves, and the event of the whole run last.
      pub apply_plan_lem :
          (plan : ActionPlan J) (log : List (Effect J))
          → All (λ group. known group.0 ≡ true) plan.tasks
          → apply_plan bits default_executor_name default_storage_name run attempt log_event
              registry plan log
            ≡ ok (log ++ effects_of plan)
      unfolding apply_plan send_running_eval send_running_map send_map_elem_complete
          send_running_loop send_running_switching
      apply_plan_lem plan log k =
          then_log _ _ log _ _
            (then_log _ _ log _ _
              (then_log _ _ log _ _
                (then_log _ _ log _ _
                  (then_log _ _ log _ _
                    (then_log _ _ log _ _
                      (then_log _ _ log _ _
                        (then_log _ _ log _ _ (completions-log plan.node_complete log)
                          (pauses-log plan.pause))
                        (for_each-log _ _ (λ p l. refl) plan.evalling))
                      (for_each-log _ _ (λ p l. refl) plan.mapping))
                    (for_each-log _ _ (λ p l. refl) plan.map_elem_complete))
                  (for_each-log _ _ (λ p l. refl) plan.looping))
                (for_each-log _ _ (λ p l. refl) plan.switching))
              (λ l. dispatch_each_log plan.tasks l k))
            (ends-log plan.set_workflow_state)
