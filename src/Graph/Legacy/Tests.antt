-- ===== src/Graph/Legacy/Tests.antt =====
-- The conversion of a legacy graph (tierkreis/src/graph.rs) with a constant, a task and an output.
use tierkreis.Base.{
  arith, ℕ, ◌≡◌, refl, true, none, some, List, [], ◌∷◌, Outcome, ok, err, panic, pos, negsuc,
  nat_eq, string_eq,
}
use tierkreis.Base.Map.{Map, get, insert}
use tierkreis.Graph.{NodeDefinition, find_port}
use tierkreis.Graph.Plain.{plain_graph}
use tierkreis.Graph.Legacy.{
  LegacyNodeDef, func, const, output, LegacyNodeMetadata, ConversionState, split_function,
  split_dots,
}
use tierkreis.Graph.Legacy.Convert.{convert_nodes}
use tierkreis.Graph.Legacy.Links.{new_state, source_of, link_references}
use tierkreis.Graph.Legacy.Laws.{target}
use tierkreis.Graph.Legacy.Result.{definition_of}
use tierkreis.Graph.Legacy.Plain.{plain_graph_laws, plain_graph_capacity}
use tierkreis.Graph.Legacy.Converted.{convert_nodes_lem}
use tierkreis.Graph.Legacy.References.{link_references_lem}

abbrev nodes : List (LegacyNodeDef ℕ)
nodes =
    const 7
    ∷ func "builtins.neg" (("a", (pos 0, "value")) ∷ []) (("value", []) ∷ [])
    ∷ output (("result", (pos 1, "value")) ∷ ("rest", (negsuc 0, "value")) ∷ [])
    ∷ []

abbrev metadata : Map ℕ LegacyNodeMetadata
metadata = (1, record { context = some "gpu"; executor = none; has_breakpoint = true }) ∷ []

abbrev state_of : Outcome (ConversionState plain_graph ℕ) → ConversionState plain_graph ℕ
state_of (ok s) = s
state_of (err e) = new_state
state_of panic = new_state

abbrev converted : ConversionState plain_graph ℕ
converted = state_of (convert_nodes nodes 0 metadata new_state)

abbrev negation : LegacyNodeDef ℕ
negation = func "builtins.neg" (("a", (pos 0, "value")) ∷ []) (("value", []) ∷ [])

convert_nodes_lem_example :
    (d : NodeDefinition ℕ) × (definition_of negation (get metadata 1) ≡ ok d)
    × (get converted.node_definitions 1 ≡ some d)
unfolding convert_nodes split_function split_dots
convert_nodes_lem_example =
    convert_nodes_lem plain_graph_laws nodes 1 metadata {s = converted} {node = negation} refl refl

abbrev linked : ConversionState plain_graph ℕ
linked = state_of (link_references converted)

abbrev result : LegacyNodeDef ℕ
result = output (("result", (pos 1, "value")) ∷ ("rest", (negsuc 0, "value")) ∷ [])

link_references_lem_example :
    (in_port : ℕ) × (find_port linked.input_port_indices 2 "rest" ≡ ok in_port)
    × (source_of linked (negsuc 0, "value") ≡ ok (target plain_graph linked.graph in_port))
unfolding convert_nodes split_function split_dots link_references get insert
link_references_lem_example =
    link_references_lem plain_graph_laws nodes metadata 2 "rest" {s = converted} {s' = linked}
      {node = result} {source = (negsuc 0, "value")} refl refl refl (refl, (refl, tt))
      (plain_graph_capacity 2 (omega arith)) refl

linked_to : target plain_graph linked.graph 20 ≡ some 15
unfolding convert_nodes split_function split_dots link_references get insert
linked_to = refl
