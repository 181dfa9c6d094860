-- ===== src/Orchestrator/Plan.antt =====
-- `Action`, `ActionPlan`, `perform_actions` and `apply_plan` of tierkreis/src/orchestrator.rs,
-- `TaskPlan` of tierkreis/src/executor/interface.rs and `ResolvedContext` of
-- tierkreis/src/resource_profiles.rs. The stream of actions is the list of what it yields. A JSON
-- value is of a type `J`; the event channel and the executors are parameters.
pub mod Contents
pub mod Elements
pub mod Order
use tierkreis.Base.{
  ℕ, String, Bool, true, false, Option, none, some, List, [], ◌∷◌, ◌++◌, Outcome, ok, ◌>>=◌,
  or_error, unknown_executor, string_eq, if◌then◌else◌,
}
use tierkreis.Base.Map.{Map, get, insert, get_or_default}
use tierkreis.Bits.{BitVec, BitOps}
use tierkreis.Location.{Location, location_eq}
use tierkreis.Asset.{Assets}
use tierkreis.Event.{TaskHandle, RuntimeEvent}
use tierkreis.Event.Send.{
  send_complete, send_paused, send_running_eval, send_running_map, send_map_elem_complete,
  send_running_loop, send_running_switching, send_scheduled, send_workflow_run_paused,
  send_workflow_run_errored, send_workflow_run_complete,
}

pub record ResolvedContext (J : Type 0) : Type 0 where
  pub name : Option String
  pub executor : Option String
  pub resources : Map String J
  pub environment : Map String J

pub record TaskPlan (J : Type 0) : Type 0 where
  pub workflow_run_id : ℕ
  pub attempt : ℕ
  pub loc : Location
  pub execution_context : Option String
  pub worker_name : String
  pub task_name : String
  pub inputs : Assets
  pub outputs : List String
  pub output_storage_name : Option String
  pub resources : Map String J
  pub environment : Map String J
  pub task_handle : Option TaskHandle

pub data ActionKind (J : Type 0) : Type 0 where
  perform_task :
      String → String → Assets → List String → Option TaskHandle → ResolvedContext J → ActionKind J
  set_paused : ActionKind J
  set_switching : Bool → ActionKind J
  set_running_eval : Assets → ActionKind J
  set_running_loop : ℕ → Assets → Option String → ActionKind J
  set_running_map : List Assets → ActionKind J
  -- the size of the map first
  set_map_elem_complete : ℕ → ℕ → ActionKind J
  set_complete : Assets → ActionKind J
  workflow_paused : ActionKind J
  workflow_errored : ActionKind J
  workflow_completed : ActionKind J

pub record Action (J : Type 0) : Type 0 where
  pub loc : Location
  pub kind : ActionKind J

pub data SetWorkflowState : Type 0 where
  paused errored completed : SetWorkflowState

pub record ActionPlan (J : Type 0) : Type 0 where
  pub tasks : Map String (List (TaskPlan J))
  pub pause : List Location
  pub switching : List (Location × Bool)
  pub evalling : List (Location × Assets)
  pub looping : List (Location × (ℕ × (Assets × Option String)))
  pub mapping : List (Location × List Assets)
  pub map_elem_complete : Map Location BitVec
  pub node_complete : List (Location × Assets)
  pub set_workflow_state : Option SetWorkflowState

abbrev pub empty_plan : {J : Type 0} → ActionPlan J
empty_plan = record {
  tasks = [];
  pause = [];
  switching = [];
  evalling = [];
  looping = [];
  mapping = [];
  map_elem_complete = [];
  node_complete = [];
  set_workflow_state = none;
}

abbrev pub executor_of : {J : Type 0} → String → ResolvedContext J → String
executor_of default_executor_name resolved = elim resolved.executor [
  | none ↦ default_executor_name
  | some name ↦ name
]

-- a `for` loop over a list
unfoldable pub for_each : {W A : Type 0} → (A → W → Outcome W) → List A → W → Outcome W
for_each body [] w = ok w
for_each body (a ∷ items) w = body a w >>= λ w'. for_each body items w'

module _ {J : Type 0} (bits : BitOps) (default_executor_name default_storage_name : String)
    (workflow_run_id attempt : ℕ) where
  unfoldable pub task_plan :
      Location
      → String
      → String
      → Assets
      → List String
      → Option TaskHandle
      → ResolvedContext J
      → TaskPlan J
  task_plan loc worker_name task_name inputs outputs task_handle resolved = record {
    workflow_run_id = workflow_run_id;
    attempt = attempt;
    loc = loc;
    execution_context = resolved.name;
    worker_name = worker_name;
    task_name = task_name;
    inputs = inputs;
    outputs = outputs;
    output_storage_name = some default_storage_name;
    resources = resolved.resources;
    environment = resolved.environment;
    task_handle = task_handle;
  }

  -- `entry(..).or_default().push(..)`
  unfoldable pub push_task :
      Map String (List (TaskPlan J)) → String → TaskPlan J → Map String (List (TaskPlan J))
  push_task tasks name task = insert tasks name (get_or_default [] tasks name ++ task ∷ [])

  -- the body of the loop of `perform_actions`
  unfoldable pub plan_action : Location → ActionKind J → ActionPlan J → Outcome (ActionPlan J)
  plan_action loc (perform_task worker_name task_name inputs outputs task_handle resolved) plan =
      ok (record plan {
        tasks =
            push_task plan.tasks (executor_of default_executor_name resolved)
              (task_plan loc worker_name task_name inputs outputs task_handle resolved);
      })
  plan_action loc set_paused plan = ok (record plan { pause = plan.pause ++ loc ∷ [] })
  plan_action loc (set_switching cond) plan =
      ok (record plan { switching = plan.switching ++ (loc, cond) ∷ [] })
  plan_action loc (set_running_eval inputs) plan =
      ok (record plan { evalling = plan.evalling ++ (loc, inputs) ∷ [] })
  plan_action loc (set_running_loop index inputs name) plan =
      ok (record plan { looping = plan.looping ++ (loc, (index, (inputs, name))) ∷ [] })
  plan_action loc (set_running_map input_sets) plan =
      ok (record plan { mapping = plan.mapping ++ (loc, input_sets) ∷ [] })
  plan_action loc (set_map_elem_complete size index) plan =
      bits.set_bit (get_or_default (bits.repeat false size) plan.map_elem_complete loc) index
      >>= λ entry. ok (record plan { map_elem_complete = insert plan.map_elem_complete loc entry })
  plan_action loc (set_complete outputs) plan =
      ok (record plan { node_complete = plan.node_complete ++ (loc, outputs) ∷ [] })
  plan_action loc workflow_paused plan = ok (record plan { set_workflow_state = some paused })
  plan_action loc workflow_errored plan = ok (record plan { set_workflow_state = some errored })
  plan_action loc workflow_completed plan = ok (record plan { set_workflow_state = some completed })

  -- the loop itself: the first action that is an error ends it
  unfoldable pub plan_actions : List (Outcome (Action J)) → ActionPlan J → Outcome (ActionPlan J)
  unfolding plan_action
  plan_actions [] plan = ok plan
  plan_actions (result ∷ actions) plan = result >>= λ action.
      plan_action action.loc action.kind plan >>= λ plan'. plan_actions actions plan'

  module _ {W : Type 0} (send : RuntimeEvent → W → Outcome W)
      (executor_registry : String → Option (List (TaskPlan J) → W → Outcome W)) where
    unfoldable pub dispatch : String × List (TaskPlan J) → W → Outcome W
    dispatch group w =
        for_each
          (λ task. send_scheduled send workflow_run_id attempt task.loc task.execution_context)
          group.1 w
        >>= λ w'.
            or_error unknown_executor (executor_registry group.0) >>= λ execute. execute group.1 w'

    unfoldable pub send_workflow_state : Option SetWorkflowState → W → Outcome W
    send_workflow_state none w = ok w
    send_workflow_state (some paused) w = send_workflow_run_paused send workflow_run_id attempt w
    send_workflow_state (some errored) w = send_workflow_run_errored send workflow_run_id attempt w
    send_workflow_state (some completed) w =
        send_workflow_run_complete send workflow_run_id attempt w

    -- `if !plan.node_complete.is_empty()`
    unfoldable pub send_completions : List (Location × Assets) → W → Outcome W
    send_completions [] w = ok w
    send_completions (p ∷ rest) w = send_complete send workflow_run_id attempt (p ∷ rest) w

    -- `if !plan.pause.is_empty()`
    unfoldable pub send_pauses : List Location → W → Outcome W
    send_pauses [] w = ok w
    send_pauses (loc ∷ rest) w = send_paused send workflow_run_id attempt (loc ∷ rest) w

    unfoldable pub apply_plan : ActionPlan J → W → Outcome W
    unfolding for_each dispatch send_workflow_state send_completions send_pauses
    apply_plan plan w =
        send_completions plan.node_complete w
        >>= send_pauses plan.pause
        >>= for_each (λ p. send_running_eval send workflow_run_id attempt p.0 p.1) plan.evalling
        >>= for_each (λ p. send_running_map send workflow_run_id attempt p.0 p.1) plan.mapping
        >>= for_each (λ p. send_map_elem_complete send workflow_run_id attempt p.0 p.1)
            plan.map_elem_complete
        >>= for_each (λ p. send_running_loop send workflow_run_id attempt p.0 p.1.0 p.1.1.0 p.1.1.1)
            plan.looping
        >>= for_each (λ p. send_running_switching send workflow_run_id attempt p.0 p.1)
            plan.switching
        >>= for_each dispatch plan.tasks
        >>= send_workflow_state plan.set_workflow_state

    unfoldable pub perform_actions : List (Outcome (Action J)) → W → Outcome W
    unfolding plan_actions apply_plan
    perform_actions actions w = plan_actions actions empty_plan >>= λ plan. apply_plan plan w
