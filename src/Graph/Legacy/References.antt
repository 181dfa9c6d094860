-- ===== src/Graph/Legacy/References.antt =====
-- What the inputs of a converted legacy graph of tierkreis/src/graph.rs are linked to.
use tierkreis.Base.{
  ℕ, suc, zero, ◌+◌, ◌<◌, ◌≤◌, ◌≡◌, refl, ap, ◌∙◌, String, true, false, some, List, [], ◌∷◌, ok,
  >>=-eq-ok, ok-injective, contains, arith, nat_eq, string_eq, Bool-cases, inl, inr, nat_beq_iff,
  get_elem?, length, sym, pos, negsuc,
}
use tierkreis.Base.Map.{Map, get, Unique}
use tierkreis.Graph.{PortGraph, NodeDefinition, find_port}
use tierkreis.Graph.Legacy.{ValueRef, LegacyNodeDef, LegacyNodeMetadata, ConversionState}
use tierkreis.Graph.Legacy.Convert.{convert_node, convert_nodes}
use tierkreis.Graph.Legacy.Links.{new_state, source_of, link_all, link_references}
use tierkreis.Graph.Legacy.Laws.{target, PortGraphLaws, link_all_lem}
use tierkreis.Graph.Legacy.Nodes.{Placed-convert_node}
use tierkreis.Graph.Legacy.Result.{references_of, Placed}
use tierkreis.Graph.Legacy.Converted.{IsConverting, IsConverting-place, convert_nodes-converting}
use tierkreis.Graph.Legacy.Ports.{no_reference, get-link_later_other, get-link_later}

module _ {P : PortGraph} (laws : PortGraphLaws P) {J : Type 0} where
  open laws use {
    next, next_empty, add_next, is_input, new_input, input_add, capacity, count_inputs,
    distinct_inputs, fresh_input,
  }

  -- a new node leaves the ports of the others as they are
  Placed-keeps :
      (s s' : ConversionState P J) (d : NodeDefinition J) (references : Map String ValueRef) (p : ℕ)
      → Placed s s' d references
      → is_input s.graph p ≡ true
      → (is_input s'.graph p ≡ true) × (get s'.to_link p ≡ get s.to_link p)
  Placed-keeps s s' d references p placed i =
      let (g, idx) = PortGraph.add_graph_node P s.graph placed.incoming placed.outgoing in
      let other : contains (PortGraph.inputs P g idx) p ≡ false =
        elim (Bool-cases (contains (PortGraph.inputs P g idx) p)) [
          | inl new ↦ ground (arith, fresh_input s.graph placed.incoming placed.outgoing p new)
          | inr old ↦ old
        ] in
      rw (placed.grown, placed.later)
        (
          (input_add s.graph placed.incoming placed.outgoing p i).0,
          get-link_later_other (PortGraph.inputs P g idx) references s.to_link p other,
        )

  -- the named ports of the new node
  Placed-linked :
      (s s' : ConversionState P J) (d : NodeDefinition J) (references : Map String ValueRef) (n : ℕ)
      (name : String) {source : ValueRef}
      → next s.graph ≡ n
      → Placed s s' d references
      → Unique references
      → length references ≤ capacity
      → get references name ≡ some source
      → (port : ℕ) × (find_port s'.input_port_indices n name ≡ ok port)
        × (is_input s'.graph port ≡ true)
        × (get s'.to_link port ≡ some source)
  unfolding find_port
  Placed-linked s s' d references n name at placed u l h = elim placed.named [
    | inl nothing ↦ absurd (no_reference name (rw nothing at h))
    | inr named ↦
        let (g, idx) = PortGraph.add_graph_node P s.graph placed.incoming placed.outgoing in
        let counted = placed.counted in
        let many : placed.incoming ≤ length (PortGraph.inputs P g idx) =
          count_inputs s.graph placed.incoming placed.outgoing (omega arith) in
        let here : idx ≡ n = add_next s.graph placed.incoming placed.outgoing ∙ at in
        let (port, indexed, among, linked) =
          get-link_later (PortGraph.inputs P g idx) references [] s.to_link name
            (distinct_inputs s.graph placed.incoming placed.outgoing) u (omega arith) h in
        (
          port,
          rw (ap (get s'.input_port_indices) (sym here) ∙ named, indexed) refl,
          rw placed.grown (new_input s.graph placed.incoming placed.outgoing port among).0,
          ap (λ m. get m port) placed.later ∙ linked,
        )
  ]

  convert_nodes-keeps :
      (nodes : List (LegacyNodeDef J)) (n : ℕ) (metadata : Map ℕ LegacyNodeMetadata)
      (s : ConversionState P J) (i p : ℕ) {s' : ConversionState P J}
      → IsConverting laws n s
      → convert_nodes nodes n metadata s ≡ ok s'
      → i < n
      → is_input s.graph p ≡ true
      → (get s'.input_port_indices i ≡ get s.input_port_indices i)
        × (get s'.to_link p ≡ get s.to_link p)
  unfolding convert_nodes
  convert_nodes-keeps [] n metadata s i p c e l h = rw (← ok-injective e) (refl, refl)
  convert_nodes-keeps (node ∷ nodes) n metadata s i p c e l h =
      let (s1, e1, e2) =
        >>=-eq-ok (convert_node node (get metadata n) s)
          (λ converted. convert_nodes nodes (suc n) metadata converted) e in
      let (d, de, placed) = Placed-convert_node node (get metadata n) s e1 in
      let c1 = IsConverting-place laws n s s1 d (references_of node) c placed in
      let kept = Placed-keeps s s1 d (references_of node) p placed h in
      let rest = convert_nodes-keeps nodes (suc n) metadata s1 i p c1.0 e2 (omega arith) kept.0 in
      let at : (PortGraph.add_graph_node P s.graph placed.incoming placed.outgoing).1 ≡ n =
        add_next s.graph placed.incoming placed.outgoing ∙ c.0 in
      (rest.0 ∙ placed.others i (rw at (ground (arith, nat_beq_iff n i))), rest.1 ∙ kept.1)

  convert_nodes-linked :
      (nodes : List (LegacyNodeDef J)) (n i : ℕ) (metadata : Map ℕ LegacyNodeMetadata)
      (s : ConversionState P J) (name : String) {s' : ConversionState P J} {node : LegacyNodeDef J}
      {source : ValueRef}
      → IsConverting laws n s
      → convert_nodes nodes n metadata s ≡ ok s'
      → get_elem? nodes i ≡ some node
      → Unique (references_of node)
      → length (references_of node) ≤ capacity
      → get (references_of node) name ≡ some source
      → (port : ℕ) × (find_port s'.input_port_indices (n + i) name ≡ ok port)
        × (get s'.to_link port ≡ some source)
  unfolding convert_nodes find_port
  convert_nodes-linked [] n i metadata s name c e a u l h = absurd (cc)
  convert_nodes-linked (first ∷ nodes) n zero metadata s name {s'} {node} c e a u l h =
      let (s1, e1, e2) =
        >>=-eq-ok (convert_node first (get metadata n) s)
          (λ converted. convert_nodes nodes (suc n) metadata converted) e in
      let (d, de, placed) = Placed-convert_node first (get metadata n) s e1 in
      let c1 = IsConverting-place laws n s s1 d (references_of first) c placed in
      let same : node ≡ first = cc a in
      let (port, found, new, linked) =
        Placed-linked s s1 d (references_of first) n name c.0 placed (rw same at u) (rw same at l)
          (rw same at h) in
      let kept = convert_nodes-keeps nodes (suc n) metadata s1 n port c1.0 e2 (omega arith) new in
      let start : n + 0 ≡ n = omega arith in (port, rw (start, kept.0) found, kept.1 ∙ linked)
  convert_nodes-linked (first ∷ nodes) n (suc i) metadata s name c e a u l h =
      let (s1, e1, e2) =
        >>=-eq-ok (convert_node first (get metadata n) s)
          (λ converted. convert_nodes nodes (suc n) metadata converted) e in
      let (d, de, placed) = Placed-convert_node first (get metadata n) s e1 in
      let c1 = IsConverting-place laws n s s1 d (references_of first) c placed in
      let rest = convert_nodes-linked nodes (suc n) i metadata s1 name c1.0 e2 a u l h in
      let later : n + suc i ≡ suc n + i = omega arith in rw later rest

  source_of-graph :
      (s : ConversionState P J) (graph : PortGraph.Graph P) (source : ValueRef)
      → source_of (record s { graph = graph }) source ≡ source_of s source
  unfolding source_of
  source_of-graph s graph (pos n, name) = refl
  source_of-graph s graph (negsuc n, name) = refl

  -- Before the tasks that fold and unfold lists are removed, the graph that the nodes of a legacy
  -- graph are converted to has an input of each name that a node has a reference for, at the node of
  -- the same index, and it is linked to the output that the reference names, or to nothing where the
  -- reference is to -1. That takes that the references of the node have different names and are no
  -- more than a node can have inputs, and a port graph that numbers its nodes in order, gives them
  -- new inputs with no link, and in which linking two ports changes no other input.
  pub link_references_lem :
      (nodes : List (LegacyNodeDef J)) (metadata : Map ℕ LegacyNodeMetadata) (i : ℕ) (name : String)
      {s s' : ConversionState P J} {node : LegacyNodeDef J} {source : ValueRef}
      → convert_nodes nodes 0 metadata new_state ≡ ok s
      → link_references s ≡ ok s'
      → get_elem? nodes i ≡ some node
      → Unique (references_of node)
      → length (references_of node) ≤ capacity
      → get (references_of node) name ≡ some source
      → (in_port : ℕ) × (find_port s'.input_port_indices i name ≡ ok in_port)
        × (source_of s' source ≡ ok (target P s'.graph in_port))
  unfolding link_references
  link_references_lem nodes metadata i name {s} {s'} {node} {source} e h a u l r =
      let (graph, linked, same) =
        >>=-eq-ok (link_all s s.to_link s.graph) (λ graph. ok (record s { graph = graph })) h in
      let ready = convert_nodes-converting laws nodes 0 metadata new_state (next_empty, tt, tt) e in
      let (port, found, named) =
        convert_nodes-linked nodes 0 i metadata new_state name (next_empty, tt, tt) e a u l r in
      let zero_add : 0 + i ≡ i = omega arith in
      rw (← ok-injective same) (
        port,
        rw zero_add at found,
        source_of-graph s graph source
            ∙ link_all_lem laws s s.to_link s.graph port ready.0 ready.1 named linked,
      )
