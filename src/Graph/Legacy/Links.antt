-- ===== src/Graph/Legacy/Links.antt =====
-- The links of a converted `LegacyWorkflowGraph` of tierkreis/src/graph.rs, and the conversion as a
-- whole. The removed tasks fold and unfold lists, and the ports with a wildcard are renamed.
use tierkreis.Base.{
  ℕ, String, Bool, false, ◌&&◌, Option, none, some, List, [], ◌∷◌, ◌++◌, Outcome, ok, err, or_error,
  ◌>>=◌, port_not_found, link_not_found, output_not_found, invalid_integer, nat_eq, string_eq, ◌==◌,
  if◌then◌else◌, pos, negsuc, add,
}
use tierkreis.Base.Map.{Map, insert, remove}
use tierkreis.Graph.{PortGraph, NodeDefinition, WorkflowGraph, find_port}
use tierkreis.Graph.Legacy.{ValueRef, LegacyWorkflowGraph, ConversionState, strip_wildcard}
use tierkreis.Graph.Legacy.Convert.{convert_nodes}

-- the new name of a port
unfoldable pub new_name : String → String
unfolding strip_wildcard
new_name port_name =
    if port_name == "*"
    then "value"
    else (elim (strip_wildcard port_name) [ none ↦ port_name | some stripped ↦ stripped ])

unfoldable pub rename_set : List String → List String
unfolding new_name
rename_set [] = []
rename_set (name ∷ names) = add (new_name name) (rename_set names)

unfoldable pub rename_ports : Map String ℕ → Map String ℕ → Map String ℕ
unfolding new_name
rename_ports [] renamed = renamed
rename_ports ((name, port) ∷ ports) renamed =
    rename_ports ports (insert renamed (new_name name) port)

unfoldable pub rename_mapped : {J : Type 0} → NodeDefinition J → NodeDefinition J
unfolding rename_set
rename_mapped (NodeDefinition.map_over mapped_ports context executor) =
    NodeDefinition.map_over (rename_set mapped_ports) context executor
rename_mapped (NodeDefinition.input name) = NodeDefinition.input name
rename_mapped NodeDefinition.output = NodeDefinition.output
rename_mapped (NodeDefinition.const value) = NodeDefinition.const value
rename_mapped NodeDefinition.if_else = NodeDefinition.if_else
rename_mapped NodeDefinition.eager_if_else = NodeDefinition.eager_if_else
rename_mapped (NodeDefinition.task worker_name task_name context executor) =
    NodeDefinition.task worker_name task_name context executor
rename_mapped (NodeDefinition.eval context executor) = NodeDefinition.eval context executor
rename_mapped (NodeDefinition.loop context executor) = NodeDefinition.loop context executor

-- `values_mut().for_each(..)`
unfoldable pub map_values : {V : Type 0} → (V → V) → Map ℕ V → Map ℕ V
map_values f [] = []
map_values f ((k, v) ∷ m) = (k, f v) ∷ map_values f m

-- whether a node is that task of the legacy worker for builtins
abbrev pub is_builtin : {J : Type 0} → String → NodeDefinition J → Bool
is_builtin name (NodeDefinition.task worker_name task_name context executor) =
    worker_name == "builtins" && task_name == name
is_builtin name (NodeDefinition.input port) = false
is_builtin name NodeDefinition.output = false
is_builtin name (NodeDefinition.const value) = false
is_builtin name NodeDefinition.if_else = false
is_builtin name NodeDefinition.eager_if_else = false
is_builtin name (NodeDefinition.eval context executor) = false
is_builtin name (NodeDefinition.loop context executor) = false
is_builtin name (NodeDefinition.map_over mapped_ports context executor) = false

unfoldable pub builtin_nodes : {J : Type 0} → String → Map ℕ (NodeDefinition J) → List ℕ
builtin_nodes name [] = []
builtin_nodes name ((idx, definition) ∷ definitions) =
    let rest = builtin_nodes name definitions in
    if is_builtin name definition then idx ∷ rest else rest

-- `graph.input(idx, 0)`, `graph.output(idx, 0)`
abbrev pub first_port : List ℕ → Outcome ℕ
first_port [] = err port_not_found
first_port (port ∷ ports) = ok port

-- remove the entries of ports, or of nodes
unfoldable pub remove_each : {V : Type 0} → List ℕ → Map ℕ V → Map ℕ V
remove_each [] m = m
remove_each (k ∷ ks) m = remove_each ks (remove m k)

abbrev pub link_found :
    (P : PortGraph) → PortGraph.Graph P → ℕ → Option ℕ → Outcome (PortGraph.Graph P)
link_found P graph in_port none = ok graph
link_found P graph in_port (some out_port) = PortGraph.link_ports P graph out_port in_port

module _ {P : PortGraph} {J : Type 0} where
  open P use {port_of, empty, inputs, outputs, link_ports, remove_node, port_link}

  -- link what is behind the single input to what is behind the single output
  unfoldable pub relink_node : ℕ → ConversionState P J → Outcome (ConversionState P J)
  unfolding remove_each
  relink_node idx s = first_port (inputs s.graph idx) >>= λ input.
      or_error link_not_found (port_link s.graph input) >>= λ input_link.
      first_port (outputs s.graph idx) >>= λ output.
      or_error link_not_found (port_link s.graph output) >>= λ output_link.
      link_ports s.graph (port_of input_link) (port_of output_link) >>= λ linked. ok (record s {
        graph = remove_node linked idx;
        port_names = remove_each (inputs linked idx ++ outputs linked idx) s.port_names;
        input_port_indices = remove s.input_port_indices idx;
        output_port_indices = remove s.output_port_indices idx;
      })

  unfoldable pub relink_nodes : List ℕ → ConversionState P J → Outcome (ConversionState P J)
  unfolding relink_node
  relink_nodes [] s = ok s
  relink_nodes (idx ∷ nodes) s = relink_node idx s >>= λ relinked. relink_nodes nodes relinked

  unfoldable pub remove_fold_and_unfold : ConversionState P J → Outcome (ConversionState P J)
  unfolding builtin_nodes relink_nodes remove_each
  remove_fold_and_unfold s =
      let unfolds = builtin_nodes "unfold_values" s.node_definitions in
      let folds = builtin_nodes "fold_values" s.node_definitions in
      relink_nodes unfolds s >>= λ unfolded. relink_nodes folds unfolded >>= λ folded.
      ok (record folded {
        node_definitions = remove_each (unfolds ++ folds) folded.node_definitions;
      })

  unfoldable pub migrate_wildcard_ports : ConversionState P J → ConversionState P J
  unfolding rename_mapped rename_ports map_values new_name
  migrate_wildcard_ports s = record s {
    node_definitions = map_values rename_mapped s.node_definitions;
    input_port_indices = map_values (λ ports. rename_ports ports []) s.input_port_indices;
    output_port_indices = map_values (λ ports. rename_ports ports []) s.output_port_indices;
    port_names = map_values new_name s.port_names;
  }

  -- the port that a reference names; -1 is for a link to the node itself, which is left out
  unfoldable pub source_of : ConversionState P J → ValueRef → Outcome (Option ℕ)
  unfolding find_port
  source_of s (pos from_node, from_port_name) =
      find_port s.output_port_indices from_node from_port_name >>= λ out_port. ok (some out_port)
  source_of s (negsuc from_node, from_port_name) =
      if from_node == 0 then ok none else err invalid_integer

  unfoldable pub link_all :
      ConversionState P J → Map ℕ ValueRef → PortGraph.Graph P → Outcome (PortGraph.Graph P)
  unfolding source_of
  link_all s [] graph = ok graph
  link_all s ((in_port, source) ∷ to_link) graph = source_of s source >>= λ out_port.
      link_found P graph in_port out_port >>= λ linked. link_all s to_link linked

  unfoldable pub link_references : ConversionState P J → Outcome (ConversionState P J)
  unfolding link_all
  link_references s = link_all s s.to_link s.graph >>= λ graph. ok (record s { graph = graph })

  abbrev pub new_state : ConversionState P J
  new_state = record {
    graph = empty;
    node_definitions = [];
    node_metadata = [];
    input_port_indices = [];
    output_port_indices = [];
    port_names = [];
    node_names = [];
    to_link = [];
    output_node = none;
  }

  unfoldable pub finish_conversion : ConversionState P J → Outcome (WorkflowGraph P J)
  finish_conversion s = or_error output_not_found s.output_node >>= λ output_node. ok (record {
    graph = s.graph;
    node_definitions = s.node_definitions;
    node_metadata = s.node_metadata;
    input_port_indices = s.input_port_indices;
    output_port_indices = s.output_port_indices;
    port_names = s.port_names;
    node_names = s.node_names;
    output_node = output_node;
  })

  unfoldable pub to_workflow_graph : LegacyWorkflowGraph J → Outcome (WorkflowGraph P J)
  unfolding link_references remove_fold_and_unfold migrate_wildcard_ports finish_conversion
  to_workflow_graph g = convert_nodes g.nodes 0 g.node_metadata new_state >>= λ converted.
      link_references converted >>= λ linked. remove_fold_and_unfold linked >>= λ removed.
      finish_conversion (migrate_wildcard_ports removed)
