-- ===== src/Graph/Legacy/Nodes.antt =====
-- The nodes that the conversion of tierkreis/src/graph.rs makes, and the ports that it has to link.
use tierkreis.Base.{
  ap, inl, inr, ℕ, ◌≡◌, refl, ◌∙◌, sym, String, Option, none, some, List, [], ◌∷◌, ok, >>=-eq-ok,
  ok-injective, nat_eq, string_eq, length, map,
}
use tierkreis.Base.Map.{Map, get, get-insert_other, get-insert_self}
use tierkreis.Graph.{PortGraph, NodeDefinition, index_ports}
use tierkreis.Graph.Legacy.{
  ValueRef, LegacyNodeDef, func, eval, loop, map_over, const, if_else, eager_if_else, input, output,
  LegacyNodeMetadata, ConversionState, split_function, mapped_ports, link_later, context_in,
  executor_in, branch_inputs, keys,
}
use tierkreis.Graph.Legacy.Convert.{
  build_inputs, build_outputs, convert_metadata, place, add_converted, convert_output,
  convert_input, convert_const, convert_loop, convert_func, convert_node,
}
use tierkreis.Graph.Legacy.Result.{definition_of, references_of, Placed}

link_later-nil : (ports : List ℕ) (to_link : Map ℕ ValueRef) → link_later ports [] to_link ≡ to_link
unfolding link_later
link_later-nil [] to_link = refl
link_later-nil (port ∷ ports) to_link = refl

module _ {P : PortGraph} {J : Type 0} where
  metadata-rest :
      (metadata : Option LegacyNodeMetadata) (n : ℕ) (s : ConversionState P J)
      → ((convert_metadata metadata n s).graph ≡ s.graph)
        × ((convert_metadata metadata n s).node_definitions ≡ s.node_definitions)
        × ((convert_metadata metadata n s).to_link ≡ s.to_link)
        × ((convert_metadata metadata n s).input_port_indices ≡ s.input_port_indices)
  unfolding convert_metadata
  metadata-rest none n s = (refl, refl, refl, refl)
  metadata-rest (some metadata) n s = (refl, refl, refl, refl)

  Placed-add_converted :
      (definition : NodeDefinition J) (ins : Map String ValueRef) (outs : List String)
      (metadata : Option LegacyNodeMetadata) (s : ConversionState P J)
      → Placed s (add_converted definition ins outs metadata s).0 definition ins
  unfolding add_converted build_inputs build_outputs place
  Placed-add_converted definition ins outs metadata s =
      let (placed, n) = place definition (length ins) (length outs) s in
      let rest = metadata-rest metadata n (build_outputs outs n (build_inputs ins n placed)) in
      record {
        incoming = length ins;
        counted = refl;
        outgoing = length outs;
        grown = rest.0;
        defined = rest.1;
        later = rest.2;
        others = λ k other.
            ap (λ m. get m k) rest.3
            ∙ get-insert_other s.input_port_indices n k
                (index_ports (PortGraph.inputs P placed.graph n) (keys ins) []) other;
        named = inr (
            ap (λ m. get m n) rest.3
            ∙ get-insert_self s.input_port_indices n
                (index_ports (PortGraph.inputs P placed.graph n) (keys ins) []));
      }

  Placed-convert_output :
      (ins : Map String ValueRef) (metadata : Option LegacyNodeMetadata) (s : ConversionState P J)
      → Placed s (convert_output ins metadata s) NodeDefinition.output ins
  unfolding convert_output build_inputs place
  Placed-convert_output ins metadata s =
      let (placed, n) = place NodeDefinition.output (length ins) 0 s in
      let rest =
        metadata-rest metadata n (build_inputs ins n (record placed { output_node = some n })) in
      record {
        incoming = length ins;
        counted = refl;
        outgoing = 0;
        grown = rest.0;
        defined = rest.1;
        later = rest.2;
        others = λ k other.
            ap (λ m. get m k) rest.3
            ∙ get-insert_other s.input_port_indices n k
                (index_ports (PortGraph.inputs P placed.graph n) (keys ins) []) other;
        named = inr (
            ap (λ m. get m n) rest.3
            ∙ get-insert_self s.input_port_indices n
                (index_ports (PortGraph.inputs P placed.graph n) (keys ins) []));
      }

  Placed-no_inputs :
      (definition : NodeDefinition J) (name : String) (metadata : Option LegacyNodeMetadata)
      (s : ConversionState P J)
      → Placed s
          (convert_metadata metadata
            (place definition 0 1 s).1
            (build_outputs (name ∷ []) (place definition 0 1 s).1 (place definition 0 1 s).0))
          definition
          []
  unfolding build_outputs place
  Placed-no_inputs definition name metadata s =
      let (placed, n) = place definition 0 1 s in
      let rest = metadata-rest metadata n (build_outputs (name ∷ []) n placed) in
      record {
        incoming = 0;
        counted = refl;
        outgoing = 1;
        grown = rest.0;
        defined = rest.1;
        later = rest.2 ∙ sym (link_later-nil _ s.to_link);
        others = λ k other. ap (λ m. get m k) rest.3;
        named = inl refl;
      }

  Placed-convert_loop :
      (body : ValueRef) (ins : Map String ValueRef) (outs : Map String (List ℕ))
      (name : Option String) (metadata : Option LegacyNodeMetadata) (s : ConversionState P J)
      → Placed s
          (convert_loop body ins outs name metadata s)
          (NodeDefinition.loop (context_in metadata) (executor_in metadata))
          (("graph", body) ∷ ins)
  unfolding convert_loop
  Placed-convert_loop body ins outs none metadata s =
      Placed-add_converted (NodeDefinition.loop (context_in metadata) (executor_in metadata))
        (("graph", body) ∷ ins) (map (λ o. o.0) outs) metadata s
  Placed-convert_loop body ins outs (some name) metadata s =
      let p =
        Placed-add_converted (NodeDefinition.loop (context_in metadata) (executor_in metadata))
          (("graph", body) ∷ ins) (map (λ o. o.0) outs) metadata s in
      record {
        incoming = p.incoming;
        counted = p.counted;
        outgoing = p.outgoing;
        grown = p.grown;
        defined = p.defined;
        later = p.later;
        others = p.others;
        named = p.named;
      }

  pub Placed-convert_node :
      (node : LegacyNodeDef J) (metadata : Option LegacyNodeMetadata) (s : ConversionState P J)
      {s' : ConversionState P J}
      → convert_node node metadata s ≡ ok s'
      → (d : NodeDefinition J) × (definition_of node metadata ≡ ok d)
        × Placed s s' d (references_of node)
  unfolding convert_node convert_func convert_const convert_input
  Placed-convert_node (func function_name ins outs) metadata s h =
      let (names, e, e1) =
        >>=-eq-ok (split_function function_name)
          (λ names.
            ok
              (add_converted
                (NodeDefinition.task names.0 names.1 (context_in metadata) (executor_in metadata))
                ins (map (λ o. o.0) outs) metadata s).0)
          h in
      let d = NodeDefinition.task names.0 names.1 (context_in metadata) (executor_in metadata) in
      (
        d,
        rw e refl,
        rw (← ok-injective e1) (Placed-add_converted d ins (map (λ o. o.0) outs) metadata s),
      )
  Placed-convert_node (eval body ins outs) metadata s h = (
    NodeDefinition.eval (context_in metadata) (executor_in metadata),
    refl,
    rw (← ok-injective h) (
        Placed-add_converted (NodeDefinition.eval (context_in metadata) (executor_in metadata))
          (("graph", body) ∷ ins) (map (λ o. o.0) outs) metadata s),
  )
  Placed-convert_node (loop body ins continue_port outs name) metadata s h = (
    NodeDefinition.loop (context_in metadata) (executor_in metadata),
    refl,
    rw (← ok-injective h) (Placed-convert_loop body ins outs name metadata s),
  )
  Placed-convert_node (map_over body ins outs) metadata s h = (
    NodeDefinition.map_over (mapped_ports ins) (context_in metadata) (executor_in metadata),
    refl,
    rw (← ok-injective h) (
        Placed-add_converted
          (NodeDefinition.map_over (mapped_ports ins) (context_in metadata) (executor_in metadata))
          (("graph", body) ∷ ins) (map (λ o. o.0) outs) metadata s),
  )
  Placed-convert_node (const value) metadata s h = (
    NodeDefinition.const value,
    refl,
    rw (← ok-injective h) (Placed-no_inputs (NodeDefinition.const value) "value" metadata s),
  )
  Placed-convert_node (if_else pred if_true if_false) metadata s h = (
    NodeDefinition.if_else,
    refl,
    rw (← ok-injective h) (
        Placed-add_converted NodeDefinition.if_else (branch_inputs pred if_true if_false)
          ("value" ∷ []) metadata s),
  )
  Placed-convert_node (eager_if_else pred if_true if_false) metadata s h = (
    NodeDefinition.eager_if_else,
    refl,
    rw (← ok-injective h) (
        Placed-add_converted NodeDefinition.eager_if_else (branch_inputs pred if_true if_false)
          ("value" ∷ []) metadata s),
  )
  Placed-convert_node (input name) metadata s h = (
    NodeDefinition.input name,
    refl,
    rw (← ok-injective h) (Placed-no_inputs (NodeDefinition.input name) name metadata s),
  )
  Placed-convert_node (output ins) metadata s h =
      (NodeDefinition.output, refl, rw (← ok-injective h) (Placed-convert_output ins metadata s))
