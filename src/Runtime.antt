-- ===== src/Runtime.antt =====
-- `Runtime` of tierkreis/src/runtime.rs over the in-memory state: starting a run, writing the events
-- that arrive, waiting for a run, and reading its outputs. Reading a profile from files and the text
-- of a JSON value are parameters; the background task and the log are left out.
pub mod Events
pub mod Waiting
pub mod Rounds
pub mod Trace
mod Tests
use tierkreis.Base.{
  ℕ, String, Bool, true, false, Option, none, some, List, [], ◌∷◌, map, Outcome, ok, err, ◌>>=◌,
  or_error, contains, if◌then◌else◌, nat_eq, string_eq, pair_eq, output_not_found,
}
use tierkreis.Base.Map.{Map, get}
use tierkreis.Bits.{BitOps}
use tierkreis.Location.{Location, from_node_index_iter}
use tierkreis.Storage.{Bytes, Storages, load_assets, save_assets}
use tierkreis.Event.{RuntimeEvent}
use tierkreis.State.{Time, NodeState, Nodes, is_some}
use tierkreis.State.Runtime.{
  Runtime, RunHandle, Summary, load_workflow, load_workflow_run_state,
  new_workflow_run_state_with_metadata, summary, read, read_many, write,
}
use tierkreis.Graph.{PortGraph, WorkflowGraph, output_idx}
use tierkreis.Profiles.{ResourceProfiles, or_option}

-- `ResourceSettings`, and `serde_json` on an `Option<String>`
pub record Settings (J : Type 0) : Type 0 where
  pub selected_profile : Option String
  pub load_profile : String → Outcome (ResourceProfiles J)
  pub profile_to_string : Option String → Outcome String
  pub profile_from_str : String → Outcome (Option String)

abbrev pub run_profile_metadata_key : String
run_profile_metadata_key = "tierkreis.profile"

unfoldable pub load_profiles :
    {J : Type 0} → Settings J → Option String → Outcome (Option (ResourceProfiles J))
load_profiles settings none = ok none
load_profiles settings (some profile) =
    settings.load_profile profile >>= λ profiles. ok (some profiles)

module _ {J G W : Type 0} (settings : Settings J) (storages : Storages W)
    (default_storage_name : String) where
  unfoldable pub start_new_run :
      ℕ
      → Time
      → ℕ
      → Map String Bytes
      → Option String
      → Runtime G
      → W
      → Outcome (Runtime G × (RunHandle × W))
  unfolding load_profiles
  start_new_run run_id now workflow_id inputs requested s w =
      let profile = or_option requested settings.selected_profile in
      load_profiles settings profile >>= λ _. settings.profile_to_string profile >>= λ text.
      save_assets storages default_storage_name inputs w >>= λ (saved, w').
      let (s', h) =
        new_workflow_run_state_with_metadata run_id now workflow_id saved
          ((run_profile_metadata_key, text) ∷ []) s in
      ok (s', (h, w'))

-- an event with the two times at which it is written
abbrev pub Arrival : Type 0
Arrival = Time × (Time × RuntimeEvent)

module _ {G : Type 0} where
  unfoldable pub process_event : BitOps → Arrival → Runtime G → Outcome (Runtime G)
  process_event bits (now, (now', event)) s =
      let (loaded, h) = load_workflow_run_state event.workflow_run_id event.attempt s in
      write bits now now' h event.event loaded

  -- the loop ends with the stream, or at an event that cannot be written
  unfoldable pub process_events : BitOps → List Arrival → Runtime G → Outcome (Runtime G)
  unfolding process_event
  process_events bits [] s = ok s
  process_events bits (arrival ∷ arrivals) s =
      process_event bits arrival s >>= λ s'. process_events bits arrivals s'

  unfoldable pub read_workflow_run_summary : ℕ → ℕ → Runtime G → Outcome (Summary × Runtime G)
  read_workflow_run_summary run_id attempt s =
      let (loaded, h) = load_workflow_run_state run_id attempt s in
      summary h loaded >>= λ found. ok (found, loaded)

  unfoldable pub read_node_states : ℕ → ℕ → List Location → Runtime G → Outcome (Nodes × Runtime G)
  read_node_states run_id attempt locations s =
      let (loaded, h) = load_workflow_run_state run_id attempt s in
      read_many h locations loaded >>= λ nodes. ok (nodes, loaded)

pub record NodeError : Type 0 where
  pub location : Location
  pub message : String
  pub detail : Option String

-- `error.unwrap_or_else(..)`
abbrev pub message_of : Option String → String
message_of none = "<MISSING ERROR MESSAGE>"
message_of (some message) = message

unfoldable pub node_errors : Nodes → List NodeError
node_errors [] = []
node_errors ((location, state) ∷ nodes) =
    record { location = location; message = message_of state.error; detail = state.error_detail }
    ∷ node_errors nodes

-- what `wait_for` returns: nothing, or a `WorkflowRunError`
pub data Finish : Type 0 where
  finished : Finish
  failed : List NodeError → Finish

module _ {G : Type 0} (run_id attempt : ℕ) where
  -- what follows when the run is no longer active
  unfoldable pub finish : Runtime G → Outcome Finish
  unfolding read_workflow_run_summary read_node_states node_errors
  finish s = read_workflow_run_summary run_id attempt s >>= λ (found, loaded).
      if is_some found.error_time
      then (read_node_states run_id attempt found.errored_locations loaded >>= λ (nodes, _).
          ok (failed (node_errors nodes)))
      else ok finished

  -- `wait_for` on the states that it looks at; nothing if the run is active in all of them
  unfoldable pub wait_for : List (Runtime G) → Outcome (Option Finish)
  unfolding finish
  wait_for [] = ok none
  wait_for (s ∷ states) =
      let rest = wait_for states in
      if contains s.active_runs (run_id, attempt)
      then rest
      else (finish s >>= λ result. ok (some result))

module _ {P : PortGraph} {J W : Type 0} (storages : Storages W) where
  unfoldable pub get_outputs : ℕ → ℕ → Runtime (WorkflowGraph P J) → W → Outcome (Map String Bytes)
  get_outputs run_id attempt s w =
      let (loaded, h) = load_workflow_run_state run_id attempt s in
      load_workflow loaded h.workflow_id >>= λ workflow.
      read h (from_node_index_iter (output_idx P workflow.1 ∷ [])) loaded >>= λ output_state.
      or_error output_not_found output_state.outputs >>= λ outputs. load_assets storages outputs w
