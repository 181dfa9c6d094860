-- ===== src/State/Handle.antt =====
-- `handle_node_events` of tierkreis/src/state/inmemory.rs.
pub mod Local
pub mod Keeps
pub mod Stable
use tierkreis.Base.{
  ℕ, suc, ◌+◌, Bool, true, false, Option, none, some, List, [], ◌∷◌, if◌then◌else◌, Outcome, ok,
  ◌>>=◌, nat_beq, length,
}
use tierkreis.Base.Map.{get, insert, get_or_default}
use tierkreis.Bits.{BitOps}
use tierkreis.Location.{Location, location_eq, with_loop_index, with_map_index}
use tierkreis.Asset.{Assets}
use tierkreis.Event.{
  NodeStatus, NodeEvent, switching, evalling, looping, map_started, map_elem_complete,
}
use tierkreis.State.{Time, NodeState, blank, is_none, is_some, Inputs, RunAttemptState}

-- `if t.is_none() { t = Some(now) }`
abbrev pub mark : Time → Option Time → Option Time
mark now none = some now
mark now (some t) = some t

-- `clone_from` under `is_some`
abbrev pub overwrite {ℓ} : {A : Type ℓ} → Option A → Option A → Option A
overwrite none old = old
overwrite (some new) old = some new

-- `loop_index != Some(index)`
abbrev pub differs : Option ℕ → ℕ → Bool
differs none index = true
differs (some i) index = if nat_beq i index then false else true

-- the inputs of each element of a map, from element `index` on
unfoldable pub insert_input_sets : Location → ℕ → List Assets → Inputs → Outcome Inputs
insert_input_sets loc index [] inputs = ok inputs
insert_input_sets loc index (set ∷ sets) inputs = with_map_index loc index >>= λ map_loc.
    insert_input_sets loc (index + 1) sets (insert inputs map_loc set)

-- what `read` finds at a location: the default where there is no entry
abbrev pub node_at : RunAttemptState → Location → NodeState
node_at run loc = get_or_default blank run.nodes loc

-- the entry's new state and the run's new inputs
unfoldable pub write_back : RunAttemptState → Location → NodeState × Inputs → RunAttemptState
write_back run loc (node, inputs) = record run {
  nodes = insert run.nodes loc node;
  inputs = inputs;
}

module _ (bits : BitOps) (now : Time) where
  -- the arms of the match: what becomes of the node's state and of the run's inputs
  unfoldable pub apply_status :
      NodeStatus → Location → NodeState → Inputs → Outcome (NodeState × Inputs)
  apply_status (NodeStatus.scheduled context) loc node inputs = ok (
    record node {
      scheduled_time = mark now node.scheduled_time;
      execution_context = overwrite context node.execution_context;
    },
    inputs,
  )
  apply_status (NodeStatus.queued handle) loc node inputs =
      ok (record node { handle = handle; queued_time = mark now node.queued_time }, inputs)
  apply_status NodeStatus.paused loc node inputs =
      ok (record node { paused_time = mark now node.paused_time }, inputs)
  apply_status (NodeStatus.running none) loc node inputs =
      ok (record node { running_time = mark now node.running_time }, inputs)
  apply_status (NodeStatus.running (some (switching cond))) loc node inputs =
      if is_none node.running_time
      then ok (record node { running_time = some now; cond = some cond }, inputs)
      else ok (node, inputs)
  apply_status (NodeStatus.running (some (evalling assets))) loc node inputs =
      if is_none node.running_time
      then ok (record node { running_time = some now }, insert inputs loc assets)
      else ok (node, inputs)
  apply_status (NodeStatus.running (some (looping index assets))) loc node inputs =
      let node' = record node { running_time = mark now node.running_time } in
      if differs node.loop_index index
      then ok (
        record node' { loop_index = some index },
        insert inputs (with_loop_index loc index) assets,
      )
      else ok (node', inputs)
  apply_status (NodeStatus.running (some (map_started input_sets))) loc node inputs =
      if is_none node.running_time
      then (insert_input_sets loc 0 input_sets inputs >>= λ inputs'. ok (
        record node {
          running_time = some now;
          map_completed = some (bits.repeat false (length input_sets));
        },
        inputs',
      ))
      else ok (node, inputs)
  apply_status (NodeStatus.running (some (map_elem_complete mask))) loc node inputs =
      elim node.map_completed [
        | none ↦ ok (node, inputs)
        | some map_completed ↦
            ok (record node { map_completed = some (bits.bitor_assign map_completed mask) }, inputs)
      ]
  apply_status (NodeStatus.complete outputs) loc node inputs =
      if is_none node.complete_time
      then ok (record node { complete_time = some now; outputs = some outputs }, inputs)
      else ok (node, inputs)
  apply_status NodeStatus.cancelled loc node inputs =
      ok (record node { cancelled_time = mark now node.cancelled_time }, inputs)
  apply_status (NodeStatus.error text detail) loc node inputs =
      if is_none node.error_time
      then ok
          (record node { error_time = some now; error = some text; error_detail = detail }, inputs)
      else ok (node, inputs)

  -- `entry(..).or_default()`, and the event's name
  unfoldable pub entry_state : RunAttemptState → NodeEvent → NodeState
  entry_state run event =
      let node = node_at run event.loc in record node { name = overwrite event.name node.name }

  unfoldable pub handle_node_event : RunAttemptState → NodeEvent → Outcome RunAttemptState
  unfolding apply_status entry_state write_back
  handle_node_event run event =
      apply_status event.status event.loc (entry_state run event) run.inputs >>= λ r.
      ok (write_back run event.loc r)

  unfoldable pub handle_node_events : RunAttemptState → List NodeEvent → Outcome RunAttemptState
  unfolding handle_node_event
  handle_node_events run [] = ok run
  handle_node_events run (event ∷ events) =
      handle_node_event run event >>= λ run'. handle_node_events run' events
