-- ===== src/Event.antt =====
-- tierkreis/src/event.rs: the events that orchestrator and executors emit, and how they are built.
pub mod Send
use tierkreis.Base.{ℕ, String, Bool, true, false, Option, none, some, List, [], ◌∷◌, map}
use tierkreis.Bits.{BitVec}
use tierkreis.Location.{Location}
use tierkreis.Asset.{Assets}

-- `TaskHandle` of tierkreis/src/executor/interface.rs
abbrev pub TaskHandle : Type 0
TaskHandle = String

pub data RunningStateUpdate : Type 0 where
  switching : Bool → RunningStateUpdate
  evalling : Assets → RunningStateUpdate
  looping : ℕ → Assets → RunningStateUpdate
  map_started : List Assets → RunningStateUpdate
  map_elem_complete : BitVec → RunningStateUpdate

pub data NodeStatus : Type 0 where
  scheduled : Option String → NodeStatus
  queued : Option TaskHandle → NodeStatus
  running : Option RunningStateUpdate → NodeStatus
  paused : NodeStatus
  complete : Assets → NodeStatus
  cancelled : NodeStatus
  error : String → Option String → NodeStatus

pub record NodeEvent : Type 0 where
  pub loc : Location
  pub name : Option String
  pub status : NodeStatus

pub data WorkflowRunEvent : Type 0 where
  started : WorkflowRunEvent
  paused : WorkflowRunEvent
  cancelled : WorkflowRunEvent
  errored : WorkflowRunEvent
  completed : WorkflowRunEvent
  queued : WorkflowRunEvent
  node_events : List NodeEvent → WorkflowRunEvent

-- The enum has the one variant `WorkflowRun`; the run's UUID is a number.
pub record RuntimeEvent : Type 0 where
  pub workflow_run_id : ℕ
  pub attempt : ℕ
  pub event : WorkflowRunEvent

abbrev pub is_workflow_finished : WorkflowRunEvent → Bool
is_workflow_finished WorkflowRunEvent.cancelled = true
is_workflow_finished errored = true
is_workflow_finished completed = true
is_workflow_finished _ = false

abbrev pub is_node_complete : NodeStatus → Bool
is_node_complete (complete _) = true
is_node_complete _ = false

abbrev pub status_outputs : NodeStatus → Assets
status_outputs (complete outputs) = outputs
status_outputs _ = []

abbrev pub runtime_outputs : WorkflowRunEvent → List Assets
runtime_outputs (node_events events) = map (λ e. status_outputs e.status) events
runtime_outputs _ = []
