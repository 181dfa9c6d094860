-- ===== src/State/Runtime.antt =====
-- `InMemoryRuntimeState` and `InMemoryWorkflowRunState` of tierkreis/src/state/inmemory.rs, with
-- `unpause_nodes` of tierkreis/src/state/interface.rs. The shared maps and the watched set of
-- active runs are one state; UUIDs and times that the code draws are arguments.
pub mod Activity
pub mod Unpause
use tierkreis.Base.{
  ℕ, zero, suc, ◌+◌, String, Bool, true, false, ◌&&◌, Option, none, some, List, [], ◌∷◌, ◌==◌, map,
  pair_eq, nat_eq, string_eq, if◌then◌else◌, add, erase, any, contains, Outcome, ok, err, or_error,
  ◌>>=◌, run_not_found, workflow_not_found, inputs_not_found, input_not_found, nothing_paused,
}
use tierkreis.Base.Map.{Map, get, insert, extend, get_or_default}
use tierkreis.Bits.{BitOps}
use tierkreis.Location.{Location, location_eq, root}
use tierkreis.Asset.{AssetSpec, Assets}
use tierkreis.Event.{WorkflowRunEvent, started, errored, completed, node_events}
use tierkreis.State.{
  Time, NodeState, blank, is_some, is_none, Nodes, Inputs, RunAttemptState, blank_run,
}
use tierkreis.State.Handle.{mark, node_at, handle_node_events}

abbrev pub RunKey : Type 0
RunKey = ℕ × ℕ

-- `G` is the type of workflow graphs
pub record Runtime (G : Type 0) : Type 0 where
  pub workflows : Map ℕ (Option String × G)
  pub runs : Map RunKey RunAttemptState
  pub active_runs : List RunKey

-- an `InMemoryWorkflowRunState`, without the shared state
pub record RunHandle : Type 0 where
  pub workflow_id : ℕ
  pub run_id : ℕ
  pub attempt : ℕ

abbrev pub key : RunHandle → RunKey
key h = (h.run_id, h.attempt)

pub record Summary : Type 0 where
  pub run_id : ℕ
  pub attempt : ℕ
  pub workflow_id : ℕ
  pub name : Option String
  pub started_time : Option Time
  pub queued_time : Option Time
  pub complete_time : Option Time
  pub cancelled_time : Option Time
  pub error_time : Option Time
  pub paused_locations : List Location
  pub errored_locations : List Location

abbrev pub paused_locations : Nodes → List Location
paused_locations [] = []
paused_locations ((loc, node) ∷ nodes) =
    let rest = paused_locations nodes in
    if is_some node.paused_time && is_none node.unpaused_time then loc ∷ rest else rest

abbrev pub errored_locations : Nodes → List Location
errored_locations [] = []
errored_locations ((loc, node) ∷ nodes) =
    let rest = errored_locations nodes in if is_some node.error_time then loc ∷ rest else rest

-- `iter().filter(..)` by the name of the state
abbrev pub named : String → Nodes → Nodes
named name [] = []
named name ((loc, node) ∷ nodes) =
    let rest = named name nodes in
    elim node.name [ none ↦ rest | some n ↦ if n == name then (loc, node) ∷ rest else rest ]

unfoldable pub set_unpaused : Time → NodeState → NodeState
set_unpaused now node = record node { unpaused_time = some now }

-- the node states of `unpause`
unfoldable pub unpause_all : Time → List Location → Nodes → Nodes
unfolding set_unpaused
unpause_all now [] nodes = nodes
unpause_all now (loc ∷ locs) nodes =
    unpause_all now locs (insert nodes loc (set_unpaused now (get_or_default blank nodes loc)))

-- what `write` records of the run itself, and whether the run stops
abbrev pub stops : WorkflowRunEvent → Bool
stops started = false
stops WorkflowRunEvent.queued = false
stops (node_events _) = false
stops WorkflowRunEvent.paused = true
stops WorkflowRunEvent.cancelled = true
stops errored = true
stops completed = true

unfoldable pub write_run :
    BitOps → Time → Time → WorkflowRunEvent → RunAttemptState → Outcome RunAttemptState
unfolding handle_node_events
write_run bits now now' started run = ok (record run { started_time = mark now run.started_time })
write_run bits now now' WorkflowRunEvent.queued run =
    ok (record run { queued_time = mark now run.queued_time })
write_run bits now now' WorkflowRunEvent.paused run =
    ok (record run { paused_time = mark now run.paused_time })
write_run bits now now' WorkflowRunEvent.cancelled run =
    ok (record run { cancelled_time = mark now run.cancelled_time })
write_run bits now now' errored run = ok (record run { error_time = mark now run.error_time })
write_run bits now now' completed run =
    ok (record run { complete_time = mark now run.complete_time })
write_run bits now now' (node_events events) run = handle_node_events bits now' run events

module _ {G : Type 0} where
  unfoldable pub load_workflow : Runtime G → ℕ → Outcome (Option String × G)
  load_workflow s workflow_id = or_error workflow_not_found (get s.workflows workflow_id)

  unfoldable pub save_workflow : ℕ → Option String → G → Runtime G → Runtime G × ℕ
  save_workflow fresh name graph s =
      (record s { workflows = insert s.workflows fresh (name, graph) }, fresh)

  -- `entry(..).or_default()`
  abbrev pub run_at : Runtime G → RunKey → RunAttemptState
  run_at s k = get_or_default blank_run s.runs k

  -- the entry of a new run or attempt, which becomes active
  unfoldable pub open_run :
      RunKey → ℕ → Assets → Map String String → Time → Runtime G → Runtime G × RunHandle
  open_run k workflow_id inputs metadata now s = (
    record s {
      runs = insert s.runs k (record (run_at s k) {
        workflow_id = workflow_id;
        inputs = insert [] root inputs;
        metadata = metadata;
        started_time = some now;
      });
      active_runs = add k s.active_runs;
    },
    record { workflow_id = workflow_id; run_id = k.0; attempt = k.1 },
  )

  unfoldable pub new_workflow_run_state_with_metadata :
      ℕ → Time → ℕ → Assets → Map String String → Runtime G → Runtime G × RunHandle
  unfolding open_run
  new_workflow_run_state_with_metadata run_id now workflow_id inputs metadata =
      open_run (run_id, 0) workflow_id inputs metadata now

  -- a run that is not there is made
  unfoldable pub load_workflow_run_state : ℕ → ℕ → Runtime G → Runtime G × RunHandle
  load_workflow_run_state run_id attempt s =
      let run = run_at s (run_id, attempt) in
      (
        record s { runs = insert s.runs (run_id, attempt) run },
        record { workflow_id = run.workflow_id; run_id = run_id; attempt = attempt },
      )

  -- the name of the workflow that a run belongs to
  abbrev pub workflow_name : Runtime G → ℕ → Option String
  workflow_name s workflow_id = elim (get s.workflows workflow_id) [ none ↦ none | some w ↦ w.0 ]

  abbrev pub summarise : Runtime G → RunKey → ℕ → RunAttemptState → Summary
  summarise s k workflow_id run = record {
    run_id = k.0;
    attempt = k.1;
    workflow_id = workflow_id;
    name = workflow_name s workflow_id;
    started_time = run.started_time;
    queued_time = run.queued_time;
    complete_time = run.complete_time;
    cancelled_time = run.cancelled_time;
    error_time = run.error_time;
    paused_locations = paused_locations run.nodes;
    errored_locations = errored_locations run.nodes;
  }

  unfoldable pub summary : RunHandle → Runtime G → Outcome Summary
  summary h s = or_error run_not_found (get s.runs (key h)) >>= λ run.
      ok (summarise s (key h) h.workflow_id run)

  unfoldable pub load_inputs : RunHandle → Runtime G → Outcome Assets
  load_inputs h s = or_error run_not_found (get s.runs (key h)) >>= λ run.
      or_error inputs_not_found (get run.inputs root)

  unfoldable pub load_named_input_from_location :
      RunHandle → Location → String → Runtime G → Outcome AssetSpec
  load_named_input_from_location h loc name s =
      or_error run_not_found (get s.runs (key h)) >>= λ run.
      or_error inputs_not_found (get run.inputs loc) >>= λ assets.
      or_error input_not_found (get assets name)

  unfoldable pub read : RunHandle → Location → Runtime G → Outcome NodeState
  read h loc s = or_error run_not_found (get s.runs (key h)) >>= λ run. ok (node_at run loc)

  unfoldable pub read_by_name : RunHandle → String → Runtime G → Outcome Nodes
  read_by_name h name s =
      or_error run_not_found (get s.runs (key h)) >>= λ run. ok (named name run.nodes)

  unfoldable pub read_many : RunHandle → List Location → Runtime G → Outcome Nodes
  read_many h locs s = or_error run_not_found (get s.runs (key h)) >>= λ run.
      ok (extend [] (map (λ loc. (loc, node_at run loc)) locs))

  unfoldable pub add_metadata : RunHandle → Map String String → Runtime G → Runtime G
  add_metadata h metadata s =
      let run = run_at s (key h) in
      record s {
        runs = insert s.runs (key h) (record run { metadata = extend run.metadata metadata });
      }

  unfoldable pub read_metadata : RunHandle → Runtime G → Runtime G × Map String String
  read_metadata h s =
      let run = run_at s (key h) in (record s { runs = insert s.runs (key h) run }, run.metadata)

  unfoldable pub write :
      BitOps → Time → Time → RunHandle → WorkflowRunEvent → Runtime G → Outcome (Runtime G)
  unfolding write_run
  write bits now now' h event s = write_run bits now now' event (run_at s (key h)) >>= λ run.
      ok (record s {
        runs = insert s.runs (key h) run;
        active_runs =
            if stops event then erase (key h) s.active_runs else add (key h) s.active_runs;
      })

  unfoldable pub unpause : Time → RunHandle → List Location → Runtime G → Runtime G
  unfolding unpause_all
  unpause now h [] s = record s { runs = insert s.runs (key h) (run_at s (key h)) }
  unpause now h (loc ∷ locs) s =
      let run = run_at s (key h) in
      record s {
        runs =
            insert s.runs (key h) (record run { nodes = unpause_all now (loc ∷ locs) run.nodes });
        active_runs = add (key h) s.active_runs;
      }

  -- `unpause_nodes` of the interface: all paused locations if none are given
  abbrev pub unpause_given :
      Time → RunHandle → List Location → Runtime G → Outcome (Runtime G × List Location)
  unpause_given now h [] s = err nothing_paused
  unpause_given now h (loc ∷ locs) s = ok (unpause now h (loc ∷ locs) s, loc ∷ locs)

  unfoldable pub unpause_nodes :
      Time → ℕ → ℕ → List Location → Runtime G → Outcome (Runtime G × List Location)
  unfolding load_workflow_run_state summary unpause
  unpause_nodes now run_id attempt [] s =
      let (s', h) = load_workflow_run_state run_id attempt s in
      summary h s' >>= λ found. unpause_given now h found.paused_locations s'
  unpause_nodes now run_id attempt (loc ∷ locs) s =
      let (s', h) = load_workflow_run_state run_id attempt s in unpause_given now h (loc ∷ locs) s'
