-- ===== src/Graph/Legacy/Result.antt =====
-- What a node of a legacy graph of tierkreis/src/graph.rs is converted to.
use tierkreis.Base.{
  ◌⊎◌, ◌==◌, false, ℕ, ◌≡◌, String, Option, some, [], ◌∷◌, Outcome, ok, ◌>>=◌, nat_eq, string_eq,
  length,
}
use tierkreis.Base.Map.{Map, get, insert}
use tierkreis.Graph.{PortGraph, NodeDefinition, index_ports}
use tierkreis.Graph.Legacy.{
  ValueRef, LegacyNodeDef, func, eval, loop, map_over, const, if_else, eager_if_else, input, output,
  LegacyNodeMetadata, ConversionState, split_function, mapped_ports, link_later, context_in,
  executor_in, keys,
}

-- the definition that a node is converted to
abbrev pub definition_of :
    {J : Type 0} → LegacyNodeDef J → Option LegacyNodeMetadata → Outcome (NodeDefinition J)
definition_of (func function_name ins outs) metadata = split_function function_name >>= λ names.
    ok (NodeDefinition.task names.0 names.1 (context_in metadata) (executor_in metadata))
definition_of (eval graph_source ins outs) metadata =
    ok (NodeDefinition.eval (context_in metadata) (executor_in metadata))
definition_of (loop body ins continue_port outs name) metadata =
    ok (NodeDefinition.loop (context_in metadata) (executor_in metadata))
definition_of (map_over body ins outs) metadata =
    ok (NodeDefinition.map_over (mapped_ports ins) (context_in metadata) (executor_in metadata))
definition_of (const value) metadata = ok (NodeDefinition.const value)
definition_of (if_else pred if_true if_false) metadata = ok NodeDefinition.if_else
definition_of (eager_if_else pred if_true if_false) metadata = ok NodeDefinition.eager_if_else
definition_of (input name) metadata = ok (NodeDefinition.input name)
definition_of (output ins) metadata = ok NodeDefinition.output

-- what the inputs of a node refer to, by their names
abbrev pub references_of : {J : Type 0} → LegacyNodeDef J → Map String ValueRef
references_of (func function_name ins outs) = ins
references_of (eval body ins outs) = ("graph", body) ∷ ins
references_of (loop body ins continue_port outs name) = ("graph", body) ∷ ins
references_of (map_over body ins outs) = ("graph", body) ∷ ins
references_of (const value) = []
references_of (if_else pred if_true if_false) =
    ("pred", pred) ∷ ("if_true", if_true) ∷ ("if_false", if_false) ∷ []
references_of (eager_if_else pred if_true if_false) =
    ("pred", pred) ∷ ("if_true", if_true) ∷ ("if_false", if_false) ∷ []
references_of (input name) = []
references_of (output ins) = ins

-- a state is another one with a node added, whose inputs are named and are to be linked
pub record Placed {P : PortGraph} {J : Type 0} (s s' : ConversionState P J)
    (definition : NodeDefinition J) (references : Map String ValueRef) : Type 0 where
  pub incoming : ℕ
  pub outgoing : ℕ
  pub counted : incoming ≡ length references
  pub grown : s'.graph ≡ (PortGraph.add_graph_node P s.graph incoming outgoing).0
  pub defined :
      s'.node_definitions
      ≡ insert s.node_definitions
          (PortGraph.add_graph_node P s.graph incoming outgoing).1
          definition
  pub later :
      s'.to_link
      ≡ link_later
          (PortGraph.inputs P
            (PortGraph.add_graph_node P s.graph incoming outgoing).0
            (PortGraph.add_graph_node P s.graph incoming outgoing).1)
          references
          s.to_link
  pub others :
      (k : ℕ)
      → ((PortGraph.add_graph_node P s.graph incoming outgoing).1 == k) ≡ false
      → get s'.input_port_indices k ≡ get s.input_port_indices k
  pub named :
      (references ≡ [])
      ⊎ (get s'.input_port_indices (PortGraph.add_graph_node P s.graph incoming outgoing).1
          ≡ some (
              index_ports
                (PortGraph.inputs P
                  (PortGraph.add_graph_node P s.graph incoming outgoing).0
                  (PortGraph.add_graph_node P s.graph incoming outgoing).1)
                (keys references)
                []))
