-- ===== src/Graph.antt =====
-- `WorkflowGraph` and `NodeDefinition` of tierkreis/src/graph.rs. The graph itself is a
-- `portgraph::MultiPortGraph`, which is not part of the repository: the operations that the code
-- calls are the record `PortGraph`. A JSON value is of a type `J`.
pub mod Plain
pub mod Legacy
use tierkreis.Base.{
  ℕ, String, Bool, true, false, Option, none, some, List, [], ◌∷◌, length, all, Outcome, ok,
  or_error, ◌>>=◌, node_not_found, port_not_found, link_not_found, nat_eq, string_eq, map,
}
use tierkreis.Base.Map.{Map, get, insert}

-- Ports are numbers. A subport is a port with the number of its link.
pub record PortGraph : Type 1 where
  pub Graph : Type 0
  pub Subport : Type 0
  pub port_of : Subport → ℕ
  pub empty : Graph
  pub add_graph_node : Graph → ℕ → ℕ → Graph × ℕ
  pub inputs : Graph → ℕ → List ℕ
  pub outputs : Graph → ℕ → List ℕ
  pub link_ports : Graph → ℕ → ℕ → Outcome Graph
  pub remove_node : Graph → ℕ → Graph
  pub nodes_iter : Graph → List ℕ
  -- the port of the node itself, and the port at the other end
  pub input_links : Graph → ℕ → List (Subport × Subport)
  pub port_link : Graph → ℕ → Option Subport
  pub port_node : Graph → ℕ → Option ℕ
  pub input_neighbours : Graph → ℕ → List ℕ
  pub output_neighbours : Graph → ℕ → List ℕ
  -- depth first along outgoing links
  pub postorder : Graph → ℕ → List ℕ
  -- along incoming links; the filters may panic
  pub toposort_filtered : Graph → ℕ → (ℕ → Outcome Bool) → (ℕ → ℕ → Outcome Bool) → Outcome (List ℕ)

pub data NodeDefinition (J : Type 0) : Type 0 where
  input : String → NodeDefinition J
  output : NodeDefinition J
  const : J → NodeDefinition J
  if_else : NodeDefinition J
  eager_if_else : NodeDefinition J
  -- worker, task, execution context and executor
  task : String → String → Option String → Option String → NodeDefinition J
  eval : Option String → Option String → NodeDefinition J
  loop : Option String → Option String → NodeDefinition J
  -- the mapped ports first
  map_over : List String → Option String → Option String → NodeDefinition J

pub record WorkflowGraph (P : PortGraph) (J : Type 0) : Type 0 where
  pub graph : PortGraph.Graph P
  pub node_definitions : Map ℕ (NodeDefinition J)
  -- `NodeMetadata` has the one field `has_breakpoint`
  pub node_metadata : Map ℕ Bool
  pub input_port_indices : Map ℕ (Map String ℕ)
  pub output_port_indices : Map ℕ (Map String ℕ)
  pub node_names : Map ℕ String
  pub port_names : Map ℕ String
  pub output_node : ℕ

-- the names of a node's ports and the ports, zipped
unfoldable pub index_ports : List ℕ → List String → Map String ℕ → Map String ℕ
index_ports [] names indices = indices
index_ports (port ∷ ports) [] indices = indices
index_ports (port ∷ ports) (name ∷ names) indices =
    index_ports ports names (insert indices name port)

unfoldable pub name_ports : List ℕ → List String → Map ℕ String → Map ℕ String
name_ports [] names port_names = port_names
name_ports (port ∷ ports) [] port_names = port_names
name_ports (port ∷ ports) (name ∷ names) port_names =
    name_ports ports names (insert port_names port name)

-- the port of that name among a node's ports of one direction
unfoldable pub find_port : Map ℕ (Map String ℕ) → ℕ → String → Outcome ℕ
find_port indices node name =
    or_error node_not_found (get indices node) >>= λ ports. or_error port_not_found (get ports name)

module _ (P : PortGraph) {J : Type 0} where
  open P use {
    port_of, empty, add_graph_node, inputs, outputs, link_ports, nodes_iter, port_link, port_node,
    input_neighbours, postorder, toposort_filtered,
  }

  unfoldable pub new : List String → WorkflowGraph P J
  unfolding index_ports name_ports
  new graph_outputs =
      let (graph, idx) = add_graph_node empty (length graph_outputs) 0 in
      record {
        graph = graph;
        node_definitions = insert [] idx output;
        node_metadata = [];
        input_port_indices = insert [] idx (index_ports (inputs graph idx) graph_outputs []);
        output_port_indices = [];
        node_names = [];
        port_names = name_ports (inputs graph idx) graph_outputs [];
        output_node = idx;
      }

  unfoldable pub add_node :
      WorkflowGraph P J → NodeDefinition J → List String → List String → WorkflowGraph P J × ℕ
  unfolding index_ports name_ports
  add_node g definition input_names output_names =
      let (graph, idx) = add_graph_node g.graph (length input_names) (length output_names) in
      (
        record g {
          graph = graph;
          node_definitions = insert g.node_definitions idx definition;
          input_port_indices =
              insert g.input_port_indices idx (index_ports (inputs graph idx) input_names []);
          output_port_indices =
              insert g.output_port_indices idx (index_ports (outputs graph idx) output_names []);
          port_names =
              name_ports (outputs graph idx) output_names
                (name_ports (inputs graph idx) input_names g.port_names);
        },
        idx,
      )

  abbrev pub output_idx : WorkflowGraph P J → ℕ
  output_idx g = g.output_node

  abbrev pub node_name : WorkflowGraph P J → ℕ → Option String
  node_name g node = get g.node_names node

  abbrev pub node_definition : WorkflowGraph P J → ℕ → Option (NodeDefinition J)
  node_definition g node = get g.node_definitions node

  unfoldable pub set_breakpoint : WorkflowGraph P J → ℕ → WorkflowGraph P J
  set_breakpoint g node = record g { node_metadata = insert g.node_metadata node true }

  unfoldable pub has_breakpoint : WorkflowGraph P J → ℕ → Bool
  has_breakpoint g node = elim (get g.node_metadata node) [ none ↦ false | some b ↦ b ]

  abbrev pub node_ids : WorkflowGraph P J → List ℕ
  node_ids g = nodes_iter g.graph

  unfoldable pub link_nodes_by_port_name :
      WorkflowGraph P J → ℕ → String → ℕ → String → Outcome (WorkflowGraph P J)
  unfolding find_port
  link_nodes_by_port_name g from from_output to to_input =
      find_port g.output_port_indices from from_output >>= λ from_port.
      find_port g.input_port_indices to to_input >>= λ to_port.
      link_ports g.graph from_port to_port >>= λ graph. ok (record g { graph = graph })

  unfoldable pub input_names : WorkflowGraph P J → ℕ → Outcome (List String)
  input_names g node =
      or_error node_not_found (get g.input_port_indices node) >>= λ ports. ok (map (λ p. p.0) ports)

  unfoldable pub output_names : WorkflowGraph P J → ℕ → Outcome (List String)
  output_names g node = or_error node_not_found (get g.output_port_indices node) >>= λ ports.
      ok (map (λ p. p.0) ports)

  unfoldable pub get_input_port_index : WorkflowGraph P J → ℕ → String → Outcome ℕ
  unfolding find_port
  get_input_port_index g node port_name = find_port g.input_port_indices node port_name

  unfoldable pub node_of_port : WorkflowGraph P J → ℕ → Outcome ℕ
  node_of_port g port = or_error node_not_found (port_node g.graph port)

  unfoldable pub connected_input : WorkflowGraph P J → ℕ → Outcome (ℕ × ℕ)
  unfolding node_of_port
  connected_input g port = or_error link_not_found (port_link g.graph port) >>= λ subport.
      node_of_port g (port_of subport) >>= λ node. ok (node, port_of subport)

  unfoldable pub connected_input_by_port_name : WorkflowGraph P J → ℕ → String → Outcome (ℕ × ℕ)
  unfolding get_input_port_index connected_input
  connected_input_by_port_name g node port_name =
      get_input_port_index g node port_name >>= λ port. connected_input g port

  unfoldable pub get_port_name : WorkflowGraph P J → ℕ → Outcome String
  get_port_name g port = or_error port_not_found (get g.port_names port)

  abbrev pub all_inputs : WorkflowGraph P J → ℕ → (ℕ → Bool) → Bool
  all_inputs g node f = all f (input_neighbours g.graph node)

  abbrev pub dependents : WorkflowGraph P J → ℕ → List ℕ
  dependents g node = postorder g.graph node

  abbrev pub toposort_filtered_from_output_node :
      WorkflowGraph P J → (ℕ → Outcome Bool) → (ℕ → ℕ → Outcome Bool) → Outcome (List ℕ)
  toposort_filtered_from_output_node g node_filter port_filter =
      toposort_filtered g.graph g.output_node node_filter port_filter
