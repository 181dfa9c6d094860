-- ===== src/Event/Send.antt =====
-- The `send_*` functions of tierkreis/src/event.rs: each builds one event and puts it on the
-- channel. The channel is `futures::channel::mpsc`, a parameter: it takes an event, or is closed.
use tierkreis.Base.{ℕ, String, Bool, Option, none, some, List, [], ◌∷◌, map, Outcome}
use tierkreis.Bits.{BitVec}
use tierkreis.Location.{Location}
use tierkreis.Asset.{Assets}
use tierkreis.Event.{
  TaskHandle, switching, evalling, looping, map_started, map_elem_complete, NodeStatus, NodeEvent,
  WorkflowRunEvent, errored, completed, node_events, RuntimeEvent,
}

-- one node event, with no name
abbrev pub node_event : Location → NodeStatus → NodeEvent
node_event loc status = record { loc = loc; name = none; status = status }

module _ {W : Type 0} (send : RuntimeEvent → W → Outcome W) (workflow_run_id attempt : ℕ) where
  abbrev pub send_event : WorkflowRunEvent → W → Outcome W
  send_event event =
      send (record { workflow_run_id = workflow_run_id; attempt = attempt; event = event })

  unfoldable pub send_scheduled : Location → Option String → W → Outcome W
  send_scheduled loc execution_context =
      send_event (node_events (node_event loc (NodeStatus.scheduled execution_context) ∷ []))

  unfoldable pub send_running : Location → W → Outcome W
  send_running loc = send_event (node_events (node_event loc (NodeStatus.running none) ∷ []))

  unfoldable pub send_cancelled : Location → W → Outcome W
  send_cancelled loc = send_event (node_events (node_event loc NodeStatus.cancelled ∷ []))

  unfoldable pub send_queued : Location → Option TaskHandle → W → Outcome W
  send_queued loc handle = send_event (node_events (node_event loc (NodeStatus.queued handle) ∷ []))

  unfoldable pub send_paused : List Location → W → Outcome W
  send_paused locations =
      send_event (node_events (map (λ loc. node_event loc NodeStatus.paused) locations))

  unfoldable pub send_complete : List (Location × Assets) → W → Outcome W
  send_complete outputs_by_loc =
      send_event (node_events (map (λ p. node_event p.0 (NodeStatus.complete p.1)) outputs_by_loc))

  unfoldable pub send_running_switching : Location → Bool → W → Outcome W
  send_running_switching loc cond =
      send_event (node_events (node_event loc (NodeStatus.running (some (switching cond))) ∷ []))

  unfoldable pub send_running_eval : Location → Assets → W → Outcome W
  send_running_eval loc inputs =
      send_event (node_events (node_event loc (NodeStatus.running (some (evalling inputs))) ∷ []))

  -- the one event of a node that carries a name
  unfoldable pub send_running_loop : Location → ℕ → Assets → Option String → W → Outcome W
  send_running_loop loc index inputs name = send_event (
      node_events (
        record { loc = loc; name = name; status = NodeStatus.running (some (looping index inputs)) }
        ∷ []))

  unfoldable pub send_running_map : Location → List Assets → W → Outcome W
  send_running_map loc input_sets =
      send_event
        (node_events (node_event loc (NodeStatus.running (some (map_started input_sets))) ∷ []))

  unfoldable pub send_map_elem_complete : Location → BitVec → W → Outcome W
  send_map_elem_complete loc bits =
      send_event
        (node_events (node_event loc (NodeStatus.running (some (map_elem_complete bits))) ∷ []))

  -- the error and its chain of causes are texts that `miette` makes
  unfoldable pub send_error : Location → String → String → W → Outcome W
  send_error loc error detail =
      send_event (node_events (node_event loc (NodeStatus.error error (some detail)) ∷ []))

  unfoldable pub send_workflow_run_paused : W → Outcome W
  send_workflow_run_paused = send_event WorkflowRunEvent.paused

  unfoldable pub send_workflow_run_errored : W → Outcome W
  send_workflow_run_errored = send_event errored

  unfoldable pub send_workflow_run_complete : W → Outcome W
  send_workflow_run_complete = send_event completed

  unfoldable pub send_workflow_run_queued : W → Outcome W
  send_workflow_run_queued = send_event WorkflowRunEvent.queued
