-- ===== src/Runtime/Rounds.antt =====
-- `run` of tierkreis/src/runtime.rs: one round of its loop over the active runs. What the contexts of
-- a run share is kept with its context; the world of the storages, the channel and the executors is
-- the same for all runs.
pub mod Contexts
use tierkreis.Base.{
  ℕ, suc, String, Bool, true, false, Option, none, some, List, [], ◌∷◌, map, Outcome, ok, err,
  ◌>>=◌, contains, if◌then◌else◌, nat_eq, string_eq, pair_eq,
}
use tierkreis.Base.Map.{Map, get, insert}
use tierkreis.Bits.{BitOps}
use tierkreis.Location.{Location, location_eq, root}
use tierkreis.Storage.{Bytes, Storages, Json}
use tierkreis.Event.{RuntimeEvent}
use tierkreis.State.Runtime.{
  Runtime, RunHandle, RunKey, key, load_workflow, load_workflow_run_state, read_metadata,
}
use tierkreis.Graph.{PortGraph, WorkflowGraph}
use tierkreis.Profiles.{Values, ResourceProfiles}
use tierkreis.Orchestrator.Plan.{TaskPlan, Action, perform_actions}
use tierkreis.Orchestrator.Build.{Context, Shared, Services}
use tierkreis.Orchestrator.Build.Actions.{build_actions}
use tierkreis.Orchestrator.Build.Actions.Depth.{run_depth}
use tierkreis.Runtime.{Settings, load_profiles, run_profile_metadata_key}

-- the context of a run with its scheduled set and its cache
pub record RunContext (P : PortGraph) (J : Type 0) : Type 0 where
  pub context : Context J
  pub scheduled : List Location
  pub cache : Map Location (WorkflowGraph P J)

abbrev pub Contexts : PortGraph → Type 0 → Type 0
Contexts P J = Map RunKey (RunContext P J)

-- what is there before and after each run of a round
pub record Round (P : PortGraph) (J W : Type 0) : Type 0 where
  pub contexts : Contexts P J
  pub state : Runtime (WorkflowGraph P J)
  pub world : W

-- an `Orchestrator`, the libraries, and the resource settings
pub record Engine (P : PortGraph) (J W : Type 0) : Type 0 where
  pub bits : BitOps
  pub values : Values J
  pub json : Json J
  pub storages : Storages W
  pub graph_from_slice : Bytes → Outcome (WorkflowGraph P J)
  pub default_storage_name : String
  pub default_executor_name : String
  pub send : RuntimeEvent → W → Outcome W
  pub executor_registry : String → Option (List (TaskPlan J) → W → Outcome W)
  pub settings : Settings J

-- `contexts.retain(|key, _| active_runs.contains(key))`
unfoldable pub retain : {P : PortGraph} {J : Type 0} → List RunKey → Contexts P J → Contexts P J
retain active_runs [] = []
retain active_runs ((k, c) ∷ contexts) =
    let rest = retain active_runs contexts in if contains active_runs k then (k, c) ∷ rest else rest

module _ {P : PortGraph} {J W : Type 0} (engine : Engine P J W) where
  open engine use {
    bits, values, json, storages, graph_from_slice, default_storage_name, default_executor_name,
    send, executor_registry, settings,
  }

  abbrev pub services_of : RunHandle → Runtime (WorkflowGraph P J) → Services P J W
  services_of h s = record {
    bits = bits;
    values = values;
    json = json;
    storages = storages;
    graph_from_slice = graph_from_slice;
    default_storage_name = default_storage_name;
    run = h;
    state = s;
  }

  -- `OrchestrationContext::new`
  abbrev pub new_context : Option (ResourceProfiles J) → RunContext P J
  new_context profiles = record {
    context = record {
      parent_loc = root;
      profiles = profiles;
      inherited_context = none;
      inherited_executor = none;
    };
    scheduled = [];
    cache = [];
  }

  -- the profile of a run is in its metadata, or else the selected one
  abbrev pub profile_of : Map String String → Outcome (Option String)
  profile_of metadata = elim (get metadata run_profile_metadata_key) [
    | none ↦ ok settings.selected_profile
    | some profile ↦ settings.profile_from_str profile
  ]

  unfoldable pub context_of :
      RunHandle
      → Contexts P J
      → Runtime (WorkflowGraph P J)
      → Outcome (RunContext P J × Runtime (WorkflowGraph P J))
  context_of h contexts s = elim (get contexts (key h)) [
    | some context ↦ ok (context, s)
    | none ↦
        let (read, metadata) = read_metadata h s in
        profile_of metadata >>= λ profile.
        load_profiles settings profile >>= λ profiles. ok (new_context profiles, read)
  ]

  -- builds and performs the actions of a run; the fuel is one more than the depth of the run
  unfoldable pub orchestrate :
      RunHandle
      → WorkflowGraph P J
      → RunContext P J
      → Contexts P J
      → Runtime (WorkflowGraph P J)
      → W
      → Outcome (Round P J W)
  orchestrate h graph c contexts s w =
      let before : Shared P J W = record {
        scheduled_this_lifetime = c.scheduled;
        subworkflow_cache = c.cache;
        world = w;
      } in
      build_actions (services_of h s) (suc (run_depth h s)) c.context graph before
      >>= λ (actions, after).
          perform_actions bits default_executor_name default_storage_name h.run_id h.attempt send
            executor_registry (map ok actions) after.world
          >>= λ w'. ok (record {
            contexts = insert contexts (key h) (record c {
              scheduled = after.scheduled_this_lifetime;
              cache = after.subworkflow_cache;
            });
            state = s;
            world = w';
          })

  unfoldable pub run_active : RunKey → Round P J W → Outcome (Round P J W)
  unfolding context_of orchestrate
  run_active (run_id, attempt) round =
      let (loaded, h) = load_workflow_run_state run_id attempt round.state in
      load_workflow loaded h.workflow_id >>= λ workflow.
      context_of h round.contexts loaded >>= λ (context, s).
      orchestrate h workflow.1 context round.contexts s round.world

  unfoldable pub run_all : List RunKey → Round P J W → Outcome (Round P J W)
  unfolding run_active
  run_all [] round = ok round
  run_all (k ∷ active_runs) round = run_active k round >>= λ round'. run_all active_runs round'

  -- the body of the loop, for the active runs that were seen
  unfoldable pub run_round : Round P J W → Outcome (Round P J W)
  unfolding run_all retain
  run_round round =
      let active_runs = round.state.active_runs in
      run_all active_runs (record round { contexts = retain active_runs round.contexts })
