-- ===== src/Query/Tests.antt =====
-- Examples of the theorems on `build_node_copy_filter` (tierkreis/src/workflow_state_query.rs).
use tierkreis.Base.{
  not, ◌||◌, ℕ, ◌≡◌, refl, true, none, some, List, [], ◌∷◌, nat_beq, if◌then◌else◌, contains,
  Outcome, ok, err, asset_not_found,
}
use tierkreis.Base.Map.{get}
use tierkreis.Bits.Plain.{plain_ops}
use tierkreis.Location.{Location, node, component_eq, location_eq, is_ancestor}
use tierkreis.Asset.{AssetSpec, memory}
use tierkreis.State.{Nodes, blank}
use tierkreis.Graph.{
  WorkflowGraph, const, output, eval, get_input_port_index, connected_input, get_port_name,
}
use tierkreis.Graph.Plain.{plain_graph}
use tierkreis.Copy.{NodeCopyFilter, union}
use tierkreis.Query.{build_node_copy_filter}
use tierkreis.Query.Clears.{build_node_copy_filter_lem}

-- node 1 is an `Eval` of the graph that node 2 puts out
abbrev outer : WorkflowGraph plain_graph ℕ
outer = record {
  graph = record { nodes = 0 ∷ 1 ∷ 2 ∷ []; links = (25, 10) ∷ (15, 0) ∷ [] };
  node_definitions = (0, output) ∷ (1, eval none none) ∷ (2, const 7) ∷ [];
  node_metadata = [];
  input_port_indices = (0, ("out", 0) ∷ []) ∷ (1, ("graph", 10) ∷ []) ∷ [];
  output_port_indices = (1, ("out", 15) ∷ []) ∷ (2, ("value", 25) ∷ []) ∷ [];
  node_names = [];
  port_names = (0, "out") ∷ (10, "graph") ∷ (15, "out") ∷ (25, "value") ∷ [];
  output_node = 0;
}

-- a graph in which no node has an input that is called `graph`, and node 1 is a constant
abbrev inner : WorkflowGraph plain_graph ℕ
inner = record outer {
  graph = record { nodes = 0 ∷ 1 ∷ []; links = (15, 0) ∷ [] };
  node_definitions = (0, output) ∷ (1, const 8) ∷ [];
}

abbrev asset : AssetSpec
asset = record { kind = memory; storage_name = "memory"; asset_key = 1 }

abbrev states_read : List Location → Outcome Nodes
states_read locs = ok ((node 2 ∷ [], record blank { outputs = some (("value", asset) ∷ []) }) ∷ [])

abbrev stored_subgraph : AssetSpec → Outcome (WorkflowGraph plain_graph ℕ)
stored_subgraph a = if nat_beq a.asset_key 1 then ok inner else err asset_not_found

abbrev restarted : Location
restarted = node 1 ∷ node 1 ∷ []

abbrev found : NodeCopyFilter
found = record {
  clear_roots = (node 1 ∷ node 0 ∷ []) ∷ (node 0 ∷ []) ∷ restarted ∷ [];
  reset_loop_index = [];
  reset_map_elems = [];
  truncate_exact = (node 1 ∷ []) ∷ [];
}

build_node_copy_filter_lem_example :
    (contains found.clear_roots restarted ≡ true)
    × ((not (contains found.truncate_exact (node 1 ∷ [])) || is_ancestor (node 1 ∷ []) restarted)
        ≡ true)
unfolding build_node_copy_filter get get_input_port_index connected_input get_port_name union
build_node_copy_filter_lem_example =
    build_node_copy_filter_lem plain_ops states_read stored_subgraph restarted (node 1 ∷ []) outer
      {f = found} refl
