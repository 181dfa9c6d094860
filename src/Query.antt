-- ===== src/Query.antt =====
-- tierkreis/src/workflow_state_query.rs: reading the inputs of a node off the states of its
-- neighbours, finding the graph of a location, and which states a restart of a location clears. The
-- states are read through `read_many`, and a graph is loaded from an asset by `load_subgraph`.
pub mod Clears
mod Tests
use tierkreis.Base.{
  ℕ, suc, ◌+◌, String, Bool, true, false, not, Option, none, some, List, [], ◌∷◌, ◌++◌, map, filter,
  nat_beq, ◌==◌, add, if◌then◌else◌, Outcome, ok, err, or_error, ◌>>=◌, node_not_found,
  output_not_found, nat_eq, string_eq, list_beq,
}
use tierkreis.Base.Map.{Map, get, insert}
use tierkreis.Bits.{BitVec, BitOps}
use tierkreis.Location.{
  Component, node, loop_index, map_index, Location, location_eq, component_eq, root, is_root,
  with_node, with_loop_index, with_map_index,
}
use tierkreis.Asset.{AssetSpec, Assets}
use tierkreis.State.{NodeState, Nodes}
use tierkreis.Graph.{
  PortGraph, WorkflowGraph, node_ids, dependents, get_input_port_index, connected_input,
  get_port_name, node_of_port,
}
use tierkreis.Copy.{NodeCopyFilter, union}

-- the asset that a node wrote to its port of a name
unfoldable pub output_asset : Nodes → Location → ℕ → String → Outcome AssetSpec
output_asset node_states parent linked_node output_name =
    or_error node_not_found (get node_states (with_node parent linked_node)) >>= λ node_state.
    or_error node_not_found node_state.outputs >>= λ outputs.
    or_error output_not_found (get outputs output_name)

module _ (P : PortGraph) {J : Type 0} where
  open P use {port_of, Subport, input_links}

  unfoldable pub collect_input :
      WorkflowGraph P J → Nodes → Location → ℕ → String → Outcome AssetSpec
  unfolding output_asset
  collect_input g node_states parent n port_name =
      get_input_port_index P g n port_name >>= λ input_port.
      connected_input P g input_port >>= λ linked. get_port_name P g linked.1 >>= λ output_name.
      output_asset node_states parent linked.0 output_name

  unfoldable pub collect_links :
      WorkflowGraph P J → Nodes → Location → List (Subport × Subport) → Assets → Outcome Assets
  unfolding output_asset
  collect_links g node_states parent [] inputs = ok inputs
  collect_links g node_states parent ((input_port, output_port) ∷ links) inputs =
      get_port_name P g (port_of input_port) >>= λ input_name.
      get_port_name P g (port_of output_port) >>= λ output_name.
      node_of_port P g (port_of output_port) >>= λ linked_node.
      output_asset node_states parent linked_node output_name >>= λ asset.
      collect_links g node_states parent links (insert inputs input_name asset)

  unfoldable pub collect_inputs : WorkflowGraph P J → Nodes → Location → ℕ → Outcome Assets
  unfolding collect_links
  collect_inputs g node_states parent n =
      collect_links g node_states parent (input_links g.graph n) []

  module _ (bits : BitOps) (read_many : List Location → Outcome Nodes)
      (load_subgraph : AssetSpec → Outcome (WorkflowGraph P J)) where
    unfoldable pub collect_node_states : WorkflowGraph P J → Location → Outcome Nodes
    collect_node_states g parent = read_many (map (λ n. with_node parent n) (node_ids P g))

    -- the graph in which the nodes below a location stand
    unfoldable pub descend :
        List Component → WorkflowGraph P J → Location → Outcome (WorkflowGraph P J)
    unfolding collect_node_states collect_input
    descend [] g parent = ok g
    descend (node n ∷ components) g parent = collect_node_states g parent >>= λ node_states.
        collect_input g node_states parent n "graph" >>= λ asset.
        load_subgraph asset >>= λ subgraph. descend components subgraph (with_node parent n)
    descend (loop_index index ∷ components) g parent =
        descend components g (with_loop_index parent index)
    descend (map_index index ∷ components) g parent =
        with_map_index parent index >>= λ loc. descend components g loc

    unfoldable pub find_subgraph_input : WorkflowGraph P J → Location → Outcome (WorkflowGraph P J)
    unfolding descend
    find_subgraph_input g location = descend location g root

    -- a bitset with the one element
    unfoldable pub single_bit : ℕ → Outcome BitVec
    single_bit index = bits.set_bit (bits.repeat false (suc index)) index

    -- the graph that a node component stands in
    unfoldable pub graph_for : WorkflowGraph P J → Location → Outcome (WorkflowGraph P J)
    unfolding find_subgraph_input
    graph_for g working = if is_root working then ok g else find_subgraph_input g working

    -- the locations of the dependents of a node, without the node itself
    unfoldable pub dependent_locations : WorkflowGraph P J → Location → ℕ → List Location
    dependent_locations g working n =
        map (λ d. with_node working d) (filter (λ d. not (nat_beq d n)) (dependents P g n))

    -- the loop over the components of `location`, from a working location on
    unfoldable pub walk :
        Location
        → List Component
        → WorkflowGraph P J
        → Location
        → NodeCopyFilter
        → Outcome NodeCopyFilter
    unfolding graph_for dependent_locations single_bit
    walk location [] g working acc = ok acc
    walk location (node n ∷ components) g working acc = graph_for g working >>= λ g'.
        let working' = with_node working n in
        walk location components g' working' (record acc {
          clear_roots = union acc.clear_roots (dependent_locations g' working n);
          truncate_exact =
              if working' == location then acc.truncate_exact else add working' acc.truncate_exact;
        })
    walk location (loop_index index ∷ components) g working acc =
        walk location components g (with_loop_index working index)
          (record acc { reset_loop_index = insert acc.reset_loop_index working index })
    walk location (map_index index ∷ components) g working acc = single_bit index >>= λ bitset.
        with_map_index working index >>= λ working'.
        walk location components g working'
          (record acc { reset_map_elems = insert acc.reset_map_elems working bitset })

    unfoldable pub build_node_copy_filter : WorkflowGraph P J → Location → Outcome NodeCopyFilter
    unfolding walk
    build_node_copy_filter g location = walk location location g root (record {
      clear_roots = location ∷ [];
      reset_loop_index = [];
      reset_map_elems = [];
      truncate_exact = [];
    })
