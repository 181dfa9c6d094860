-- ===== src/Orchestrator/Plan/Contents.antt =====
-- What the plan of `perform_actions` of tierkreis/src/orchestrator.rs holds of each kind of action.
use mathlib.Core.List.{append_assoc, append-nil}
use tierkreis.Base.{
  ℕ, String, ◌≡◌, ap, sym, ◌∙◌, Bool, Option, List, [], ◌∷◌, ◌++◌, arith, Outcome, ok, >>=-eq-ok,
  ok-injective, string_eq, if◌then◌else◌, ◌==◌, nat_eq, map,
}
use tierkreis.Base.Map.{get, get_or_default, get_or_default-insert}
use tierkreis.Bits.{BitOps}
use tierkreis.Location.{Location, location_eq, component_eq}
use tierkreis.Asset.{Assets}
use tierkreis.Orchestrator.Plan.{
  TaskPlan, ActionKind, perform_task, set_paused, set_switching, set_running_eval, set_running_loop,
  set_running_map, set_complete, Action, ActionPlan, empty_plan, executor_of, task_plan, push_task,
  plan_action, plan_actions,
}

-- what the actions contribute to a list, in order
abbrev pub collect {ℓ κ} : {A : Type ℓ} {B : Type κ} → (A → List B) → List A → List B
collect f [] = []
collect f (a ∷ items) = f a ++ collect f items

abbrev pub paused_of : {J : Type 0} → Location → ActionKind J → List Location
paused_of loc set_paused = loc ∷ []
paused_of loc _ = []

abbrev pub completed_of : {J : Type 0} → Location → ActionKind J → List (Location × Assets)
completed_of loc (set_complete outputs) = (loc, outputs) ∷ []
completed_of loc _ = []

abbrev pub switching_of : {J : Type 0} → Location → ActionKind J → List (Location × Bool)
switching_of loc (set_switching cond) = (loc, cond) ∷ []
switching_of loc _ = []

abbrev pub evalling_of : {J : Type 0} → Location → ActionKind J → List (Location × Assets)
evalling_of loc (set_running_eval inputs) = (loc, inputs) ∷ []
evalling_of loc _ = []

abbrev pub looping_of :
    {J : Type 0} → Location → ActionKind J → List (Location × (ℕ × (Assets × Option String)))
looping_of loc (set_running_loop index inputs name) = (loc, (index, (inputs, name))) ∷ []
looping_of loc _ = []

abbrev pub mapping_of : {J : Type 0} → Location → ActionKind J → List (Location × List Assets)
mapping_of loc (set_running_map input_sets) = (loc, input_sets) ∷ []
mapping_of loc _ = []

module _ {J : Type 0} (bits : BitOps) (default_executor_name default_storage_name : String)
    (workflow_run_id attempt : ℕ) where
  abbrev step : Location → ActionKind J → ActionPlan J → Outcome (ActionPlan J)
  step = plan_action bits default_executor_name default_storage_name workflow_run_id attempt

  -- the tasks of an action that go to one executor
  abbrev pub tasks_of : String → Location → ActionKind J → List (TaskPlan J)
  tasks_of name loc (perform_task worker_name task_name inputs outputs task_handle resolved) =
      if executor_of default_executor_name resolved == name
      then task_plan bits default_executor_name default_storage_name workflow_run_id attempt loc
          worker_name task_name inputs outputs task_handle resolved
        ∷ []
      else []
  tasks_of name loc _ = []

  module _ {B : Type 0} (field : ActionPlan J → List B) (of : Location → ActionKind J → List B)
      (appends : (loc : Location) (kind : ActionKind J) (plan plan' : ActionPlan J)
        → step loc kind plan ≡ ok plan'
        → field plan' ≡ field plan ++ of loc kind) where
    plan_actions-field :
        (actions : List (Action J)) (plan : ActionPlan J) {plan' : ActionPlan J}
        → plan_actions bits default_executor_name default_storage_name workflow_run_id attempt
            (map ok actions)
            plan
          ≡ ok plan'
        → field plan' ≡ field plan ++ collect (λ a. of a.loc a.kind) actions
    unfolding plan_actions
    plan_actions-field [] plan h = ap field (sym (ok-injective h)) ∙ sym (append-nil (field plan))
    plan_actions-field (a ∷ actions) plan h =
        let (next, e1, e2) =
          >>=-eq-ok (step a.loc a.kind plan)
            (plan_actions bits default_executor_name default_storage_name workflow_run_id attempt
              (map ok actions))
            h in
        plan_actions-field actions next e2
        ∙ ap (λ l. l ++ collect (λ a. of a.loc a.kind) actions) (appends a.loc a.kind plan next e1)
        ∙ append_assoc (field plan) (of a.loc a.kind) (collect (λ a. of a.loc a.kind) actions)

  pause-appends :
      (loc : Location) (kind : ActionKind J) (plan plan' : ActionPlan J)
      → step loc kind plan ≡ ok plan'
      → plan'.pause ≡ plan.pause ++ paused_of loc kind
  unfolding plan_action
  pause-appends loc kind plan plan' h = ground (arith, append-nil plan.pause)

  node_complete-appends :
      (loc : Location) (kind : ActionKind J) (plan plan' : ActionPlan J)
      → step loc kind plan ≡ ok plan'
      → plan'.node_complete ≡ plan.node_complete ++ completed_of loc kind
  unfolding plan_action
  node_complete-appends loc kind plan plan' h = ground (arith, append-nil plan.node_complete)

  switching-appends :
      (loc : Location) (kind : ActionKind J) (plan plan' : ActionPlan J)
      → step loc kind plan ≡ ok plan'
      → plan'.switching ≡ plan.switching ++ switching_of loc kind
  unfolding plan_action
  switching-appends loc kind plan plan' h = ground (arith, append-nil plan.switching)

  evalling-appends :
      (loc : Location) (kind : ActionKind J) (plan plan' : ActionPlan J)
      → step loc kind plan ≡ ok plan'
      → plan'.evalling ≡ plan.evalling ++ evalling_of loc kind
  unfolding plan_action
  evalling-appends loc kind plan plan' h = ground (arith, append-nil plan.evalling)

  looping-appends :
      (loc : Location) (kind : ActionKind J) (plan plan' : ActionPlan J)
      → step loc kind plan ≡ ok plan'
      → plan'.looping ≡ plan.looping ++ looping_of loc kind
  unfolding plan_action
  looping-appends loc kind plan plan' h = ground (arith, append-nil plan.looping)

  mapping-appends :
      (loc : Location) (kind : ActionKind J) (plan plan' : ActionPlan J)
      → step loc kind plan ≡ ok plan'
      → plan'.mapping ≡ plan.mapping ++ mapping_of loc kind
  unfolding plan_action
  mapping-appends loc kind plan plan' h = ground (arith, append-nil plan.mapping)

  tasks-appends :
      (name : String) (loc : Location) (kind : ActionKind J) (plan plan' : ActionPlan J)
      → step loc kind plan ≡ ok plan'
      → get_or_default [] plan'.tasks name
        ≡ get_or_default [] plan.tasks name ++ tasks_of name loc kind
  unfolding plan_action push_task
  tasks-appends name loc (perform_task worker task inputs outputs handle resolved) plan plan' h =
      ap (λ p. get_or_default [] p.tasks name) (sym (ok-injective h))
      ∙ (let executor = executor_of default_executor_name resolved in
          let tasks = get_or_default [] plan.tasks executor in
          let t =
            task_plan bits default_executor_name default_storage_name workflow_run_id attempt loc
              worker task inputs outputs handle resolved in
          let same : executor ≡ name → tasks ≡ get_or_default [] plan.tasks name =
            ap (get_or_default [] plan.tasks) in
          ground (
            arith,
            get_or_default-insert [] plan.tasks executor name (tasks ++ t ∷ []),
            string_eq.beq_iff executor name,
            same,
            append-nil (get_or_default [] plan.tasks name),
          ))
  tasks-appends name loc kind plan plan' h =
      ground (arith, append-nil (get_or_default [] plan.tasks name))

  -- A plan that is built from actions holds, in their order: the paused and the completed nodes, the
  -- `IfElse`, `Eval`, `Loop` and `Map` nodes to mark as running, and for each executor name the tasks
  -- whose context selects it, or that select none where it is the default.
  pub plan_actions_lem :
      (actions : List (Action J)) {plan : ActionPlan J}
      → plan_actions bits default_executor_name default_storage_name workflow_run_id attempt
          (map ok actions)
          empty_plan
        ≡ ok plan
      → (plan.pause ≡ collect (λ a. paused_of a.loc a.kind) actions)
        × (plan.node_complete ≡ collect (λ a. completed_of a.loc a.kind) actions)
        × (plan.switching ≡ collect (λ a. switching_of a.loc a.kind) actions)
        × (plan.evalling ≡ collect (λ a. evalling_of a.loc a.kind) actions)
        × (plan.looping ≡ collect (λ a. looping_of a.loc a.kind) actions)
        × (plan.mapping ≡ collect (λ a. mapping_of a.loc a.kind) actions)
        × ((name : String)
            → get_or_default [] plan.tasks name ≡ collect (λ a. tasks_of name a.loc a.kind) actions)
  unfolding get_or_default get
  plan_actions_lem actions h = (
    plan_actions-field (λ p. p.pause) paused_of pause-appends actions empty_plan h,
    plan_actions-field (λ p. p.node_complete) completed_of node_complete-appends actions empty_plan
        h,
    plan_actions-field (λ p. p.switching) switching_of switching-appends actions empty_plan h,
    plan_actions-field (λ p. p.evalling) evalling_of evalling-appends actions empty_plan h,
    plan_actions-field (λ p. p.looping) looping_of looping-appends actions empty_plan h,
    plan_actions-field (λ p. p.mapping) mapping_of mapping-appends actions empty_plan h,
    λ name.
        plan_actions-field (λ p. get_or_default [] p.tasks name) (tasks_of name)
          (tasks-appends name) actions empty_plan h,
  )
