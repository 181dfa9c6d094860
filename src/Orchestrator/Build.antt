-- ===== src/Orchestrator/Build.antt =====
-- `OrchestrationContext` of tierkreis/src/orchestrator.rs, and the actions of the nodes that hold no
-- graph. The state of the run does not change while actions are built; the set of scheduled
-- locations, the cache of subgraphs and the world of the storages do, and are passed along.
pub mod Nested
pub mod Placed
pub mod Elements
pub mod Actions
pub mod Sample
mod Tests
use tierkreis.Base.{
  ℕ, String, Bool, true, false, Option, none, some, List, [], ◌∷◌, map, Outcome, ok, err, panic,
  ◌>>=◌, or_error, if◌then◌else◌, erase, contains, ◌==◌, nat_eq, string_eq, no_deployment,
}
use tierkreis.Base.Map.{Map, get, insert}
use tierkreis.Bits.{BitOps}
use tierkreis.Location.{Location, location_eq, component_eq, with_node, from_node_index_iter}
use tierkreis.Asset.{AssetSpec, Assets}
use tierkreis.Storage.{Bytes, Storages, Json, load_asset_from_spec, load_asset, save_asset}
use tierkreis.State.{NodeState, Nodes}
use tierkreis.State.Runtime.{Runtime, RunHandle, load_named_input_from_location}
use tierkreis.Graph.{PortGraph, WorkflowGraph, output_names, output_idx}
use tierkreis.Query.{collect_input, collect_inputs}
use tierkreis.Profiles.{Values, ResourceProfiles, resolve, or_option, default_context}
use tierkreis.Orchestrator.Plan.{
  ResolvedContext, Action, perform_task, set_paused, set_complete, workflow_completed,
}

-- the parts of an `OrchestrationContext` that differ from one context to another
pub record Context (J : Type 0) : Type 0 where
  pub parent_loc : Location
  pub profiles : Option (ResourceProfiles J)
  pub inherited_context : Option String
  pub inherited_executor : Option String

abbrev pub with_location : {J : Type 0} → Context J → Location → Context J
with_location context location = record context { parent_loc = location }

unfoldable pub with_execution_context :
    {J : Type 0} → Context J → Option String → Option String → Context J
with_execution_context context inherited_context inherited_executor = record context {
  inherited_context = or_option inherited_context context.inherited_context;
  inherited_executor = or_option inherited_executor context.inherited_executor;
}

-- what the contexts of one run share, with the world of the storages
pub record Shared (P : PortGraph) (J W : Type 0) : Type 0 where
  pub scheduled_this_lifetime : List Location
  pub subworkflow_cache : Map Location (WorkflowGraph P J)
  pub world : W

-- the libraries, the storages, the decoding of a graph, and the run
pub record Services (P : PortGraph) (J W : Type 0) : Type 0 where
  pub bits : BitOps
  pub values : Values J
  pub json : Json J
  pub storages : Storages W
  pub graph_from_slice : Bytes → Outcome (WorkflowGraph P J)
  pub default_storage_name : String
  pub run : RunHandle
  pub state : Runtime (WorkflowGraph P J)

-- `task_handle`: the handle of the node's state
unfoldable pub handle_of : Nodes → Location → Option String
handle_of node_states loc = elim (get node_states loc) [ none ↦ none | some state ↦ state.handle ]

module _ {P : PortGraph} {J W : Type 0} (env : Services P J W) where
  open env use {values, json, storages, graph_from_slice, default_storage_name, run, state}

  abbrev pub M : Type 0 → Type 0
  M A = Shared P J W → Outcome (A × Shared P J W)

  unfoldable pub load_subgraph_from_asset : AssetSpec → W → Outcome (WorkflowGraph P J)
  load_subgraph_from_asset asset_spec w =
      load_asset_from_spec storages asset_spec w >>= λ subgraph_bytes.
      graph_from_slice subgraph_bytes

  -- the graph that is not in the cache
  unfoldable pub find_subgraph :
      Outcome AssetSpec → WorkflowGraph P J → Bool → W → Outcome (WorkflowGraph P J)
  unfolding load_subgraph_from_asset
  find_subgraph (ok asset_spec) g allow_recursion w = load_subgraph_from_asset asset_spec w
  find_subgraph (err e) g allow_recursion w = if allow_recursion then ok g else err e
  find_subgraph panic g allow_recursion w = panic

  unfoldable pub load_subgraph :
      Context J → WorkflowGraph P J → Nodes → ℕ → Bool → M (WorkflowGraph P J)
  unfolding find_subgraph
  load_subgraph context g node_states n allow_recursion shared =
      let graph_loc = with_node context.parent_loc n in
      elim (get shared.subworkflow_cache graph_loc) [
        | some subgraph ↦ ok (subgraph, shared)
        | none ↦
            find_subgraph (collect_input P g node_states context.parent_loc n "graph") g
              allow_recursion shared.world
            >>= λ subgraph. ok (
              subgraph,
              record shared {
                subworkflow_cache = insert shared.subworkflow_cache graph_loc subgraph;
              },
            )
      ]

  unfoldable pub build_pause_action : Location → ℕ → M (List (Action J))
  build_pause_action parent n shared =
      let loc = with_node parent n in
      ok (
        record { loc = loc; kind = set_paused } ∷ [],
        record shared { scheduled_this_lifetime = erase loc shared.scheduled_this_lifetime },
      )

  unfoldable pub build_input_action : Location → ℕ → String → M (List (Action J))
  build_input_action parent n name shared =
      load_named_input_from_location run parent name state >>= λ input_asset_spec. ok (
        record { loc = with_node parent n; kind = set_complete ((name, input_asset_spec) ∷ []) }
            ∷ [],
        shared,
      )

  unfoldable pub build_const_action : Location → ℕ → J → M (List (Action J))
  build_const_action parent n value shared = json.to_vec value >>= λ value_bytes.
      save_asset storages default_storage_name value_bytes shared.world >>= λ (asset_key, w). ok (
        record { loc = with_node parent n; kind = set_complete (("value", asset_key) ∷ []) } ∷ [],
        record shared { world = w },
      )

  unfoldable pub build_output_actions :
      WorkflowGraph P J → Nodes → Location → ℕ → Outcome (List (Action J))
  build_output_actions g node_states parent n =
      collect_inputs P g node_states parent n >>= λ inputs.
      let loc = with_node parent n in
      let is_root_workflow = loc == from_node_index_iter (output_idx P g ∷ []) in
      ok (
        record { loc = loc; kind = set_complete inputs }
        ∷ (if is_root_workflow then record { loc = loc; kind = workflow_completed } ∷ [] else []))

  -- the execution context of a task
  unfoldable pub resolve_task : Context J → Outcome (ResolvedContext J)
  resolve_task context = elim context.profiles [
    | some profiles ↦ resolve values profiles context.inherited_context context.inherited_executor
    | none ↦ elim context.inherited_context [
      | some name ↦ err no_deployment
      | none ↦ ok (record default_context { executor = context.inherited_executor })
    ]
  ]

  unfoldable pub build_task_action :
      Context J → WorkflowGraph P J → Nodes → ℕ → String → String → Outcome (Action J)
  unfolding handle_of resolve_task
  build_task_action context g node_states n worker_name task_name =
      let loc = with_node context.parent_loc n in
      collect_inputs P g node_states context.parent_loc n >>= λ inputs.
      output_names P g n >>= λ outputs. resolve_task context >>= λ resolved. ok (record {
        loc = loc;
        kind =
            perform_task worker_name task_name inputs outputs (handle_of node_states loc) resolved;
      })
