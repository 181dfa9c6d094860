-- ===== src/Graph/Legacy/Convert.antt =====
-- The nodes of a converted `LegacyWorkflowGraph` of tierkreis/src/graph.rs: `ConversionState` and
-- its `convert_*` and `build_*` methods.
use tierkreis.Base.{
  ℕ, suc, String, Option, none, some, List, [], ◌∷◌, length, Outcome, ok, ◌>>=◌, nat_eq, string_eq,
}
use tierkreis.Base.Map.{Map, get, insert}
use tierkreis.Graph.{PortGraph, NodeDefinition, index_ports, name_ports}
use tierkreis.Graph.Legacy.{
  ValueRef, LegacyNodeDef, func, eval, loop, map_over, const, if_else, eager_if_else, input, output,
  LegacyNodeMetadata, ConversionState, split_function, mapped_ports, link_later, context_in,
  executor_in, branch_inputs, keys,
}

module _ {P : PortGraph} {J : Type 0} where
  open P use {add_graph_node, inputs, outputs}

  unfoldable pub build_inputs : Map String ValueRef → ℕ → ConversionState P J → ConversionState P J
  unfolding index_ports name_ports link_later
  build_inputs ins node_index s =
      let ports = inputs s.graph node_index in
      record s {
        to_link = link_later ports ins s.to_link;
        port_names = name_ports ports (keys ins) s.port_names;
        input_port_indices =
            insert s.input_port_indices node_index (index_ports ports (keys ins) []);
      }

  unfoldable pub build_outputs : List String → ℕ → ConversionState P J → ConversionState P J
  unfolding index_ports name_ports
  build_outputs outs node_index s =
      let ports = outputs s.graph node_index in
      record s {
        port_names = name_ports ports outs s.port_names;
        output_port_indices = insert s.output_port_indices node_index (index_ports ports outs []);
      }

  unfoldable pub convert_metadata :
      Option LegacyNodeMetadata → ℕ → ConversionState P J → ConversionState P J
  convert_metadata none node_index s = s
  convert_metadata (some metadata) node_index s = record s {
    node_metadata = insert s.node_metadata node_index metadata.has_breakpoint;
  }

  -- `graph.add_node` and the insertion of the definition
  unfoldable pub place : NodeDefinition J → ℕ → ℕ → ConversionState P J → ConversionState P J × ℕ
  place definition incoming outgoing s =
      let (graph, node_index) = add_graph_node s.graph incoming outgoing in
      (
        record s {
          graph = graph;
          node_definitions = insert s.node_definitions node_index definition;
        },
        node_index,
      )

  -- a node with inputs and outputs
  unfoldable pub add_converted :
      NodeDefinition J
      → Map String ValueRef
      → List String
      → Option LegacyNodeMetadata
      → ConversionState P J
      → ConversionState P J × ℕ
  unfolding place build_inputs build_outputs convert_metadata
  add_converted definition ins outs metadata s =
      let (placed, node_index) = place definition (length ins) (length outs) s in
      (
        convert_metadata metadata node_index
            (build_outputs outs node_index (build_inputs ins node_index placed)),
        node_index,
      )

  unfoldable pub convert_output :
      Map String ValueRef → Option LegacyNodeMetadata → ConversionState P J → ConversionState P J
  unfolding place build_inputs convert_metadata
  convert_output ins metadata s =
      let (placed, node_index) = place NodeDefinition.output (length ins) 0 s in
      convert_metadata metadata node_index
        (build_inputs ins node_index (record placed { output_node = some node_index }))

  unfoldable pub convert_input :
      String → Option LegacyNodeMetadata → ConversionState P J → ConversionState P J
  unfolding place build_outputs convert_metadata
  convert_input name metadata s =
      let (placed, node_index) = place (NodeDefinition.input name) 0 1 s in
      convert_metadata metadata node_index (build_outputs (name ∷ []) node_index placed)

  unfoldable pub convert_const :
      J → Option LegacyNodeMetadata → ConversionState P J → ConversionState P J
  unfolding place build_outputs convert_metadata
  convert_const value metadata s =
      let (placed, node_index) = place (NodeDefinition.const value) 0 1 s in
      convert_metadata metadata node_index (build_outputs ("value" ∷ []) node_index placed)

  unfoldable pub convert_loop :
      ValueRef
      → Map String ValueRef
      → Map String (List ℕ)
      → Option String
      → Option LegacyNodeMetadata
      → ConversionState P J
      → ConversionState P J
  unfolding add_converted
  convert_loop graph_source ins outs name metadata s =
      let definition = NodeDefinition.loop (context_in metadata) (executor_in metadata) in
      let (built, node_index) =
        add_converted definition (("graph", graph_source) ∷ ins) (keys outs) metadata s in
      elim name [
        | none ↦ built
        | some n ↦ record built { node_names = insert built.node_names node_index n }
      ]

  unfoldable pub convert_func :
      String
      → Map String ValueRef
      → Map String (List ℕ)
      → Option LegacyNodeMetadata
      → ConversionState P J
      → Outcome (ConversionState P J)
  unfolding split_function add_converted
  convert_func function_name ins outs metadata s =
      split_function function_name >>= λ (worker_name, task_name).
      ok
        (add_converted
          (NodeDefinition.task worker_name task_name (context_in metadata) (executor_in metadata))
          ins (keys outs) metadata s).0

  unfoldable pub convert_node :
      LegacyNodeDef J
      → Option LegacyNodeMetadata
      → ConversionState P J
      → Outcome (ConversionState P J)
  unfolding convert_func convert_loop convert_const convert_input convert_output add_converted
      mapped_ports
  convert_node (func function_name ins outs) metadata s =
      convert_func function_name ins outs metadata s
  convert_node (eval graph_source ins outs) metadata s =
      ok
        (add_converted (NodeDefinition.eval (context_in metadata) (executor_in metadata))
          (("graph", graph_source) ∷ ins) (keys outs) metadata s).0
  convert_node (loop body ins continue_port outs name) metadata s =
      ok (convert_loop body ins outs name metadata s)
  convert_node (map_over body ins outs) metadata s =
      ok
        (add_converted
          (NodeDefinition.map_over (mapped_ports ins) (context_in metadata) (executor_in metadata))
          (("graph", body) ∷ ins) (keys outs) metadata s).0
  convert_node (const value) metadata s = ok (convert_const value metadata s)
  convert_node (if_else pred if_true if_false) metadata s =
      ok
        (add_converted NodeDefinition.if_else (branch_inputs pred if_true if_false) ("value" ∷ [])
          metadata s).0
  convert_node (eager_if_else pred if_true if_false) metadata s =
      ok
        (add_converted NodeDefinition.eager_if_else (branch_inputs pred if_true if_false)
          ("value" ∷ []) metadata s).0
  convert_node (input name) metadata s = ok (convert_input name metadata s)
  convert_node (output ins) metadata s = ok (convert_output ins metadata s)

  -- the nodes from an index on
  unfoldable pub convert_nodes :
      List (LegacyNodeDef J)
      → ℕ
      → Map ℕ LegacyNodeMetadata
      → ConversionState P J
      → Outcome (ConversionState P J)
  unfolding convert_node
  convert_nodes [] index node_metadata s = ok s
  convert_nodes (node ∷ nodes) index node_metadata s =
      convert_node node (get node_metadata index) s >>= λ converted.
      convert_nodes nodes (suc index) node_metadata converted
