-- ===== src/Graph/Legacy/Converted.antt =====
-- A converted legacy graph of tierkreis/src/graph.rs: which node each node becomes, and what its
-- inputs are linked to.
use tierkreis.Base.{
  ℕ, suc, zero, ◌+◌, ◌<◌, ◌≡◌, refl, ap, ◌∙◌, String, true, ◌==◌, none, some, List, [], ◌∷◌, ok,
  >>=-eq-ok, ok-injective, contains, arith, nat_eq, string_eq, Bool-cases, inl, inr, nat_beq_iff,
  get_elem?,
}
use tierkreis.Base.Map.{Map, get, insert, Unique, get-insert_other, get-insert_self, insert-Unique}
use tierkreis.Graph.{PortGraph, NodeDefinition}
use tierkreis.Graph.Legacy.{
  ValueRef, LegacyNodeDef, LegacyNodeMetadata, ConversionState, link_later,
}
use tierkreis.Graph.Legacy.Convert.{convert_node, convert_nodes}
use tierkreis.Graph.Legacy.Links.{new_state}
use tierkreis.Graph.Legacy.Laws.{target, PortGraphLaws, AreFree}
use tierkreis.Graph.Legacy.Nodes.{Placed-convert_node}
use tierkreis.Graph.Legacy.Result.{definition_of, references_of, Placed}

module _ {P : PortGraph} (laws : PortGraphLaws P) where
  open laws use {next, next_empty, add_next, next_add, is_input, new_input, input_add}

  abbrev IsFree : PortGraph.Graph P → ℕ → Type 0
  IsFree g p = (is_input g p ≡ true) × (target P g p ≡ none)

  insert-AreFree :
      (g : PortGraph.Graph P) (m : Map ℕ ValueRef) (k : ℕ) (v : ValueRef)
      → IsFree g k
      → AreFree P laws g m
      → AreFree P laws g (insert m k v)
  unfolding insert
  insert-AreFree g [] k v f h = (f.0, f.1, tt)
  insert-AreFree g ((j, w) ∷ m) k v f h = elim (Bool-cases (j == k)) [
    | inl same ↦ rw same (f.0, f.1, h.2)
    | inr other ↦ rw other (h.0, h.1, insert-AreFree g m k v f h.2)
  ]

  add-AreFree :
      (g : PortGraph.Graph P) (i o : ℕ) (m : Map ℕ ValueRef)
      → AreFree P laws g m
      → AreFree P laws (PortGraph.add_graph_node P g i o).0 m
  add-AreFree g i o [] h = tt
  add-AreFree g i o ((j, w) ∷ m) h =
      let kept = input_add g i o j h.0 in (kept.0, kept.1 ∙ h.1, add-AreFree g i o m h.2)

  link_later-keeps :
      (g : PortGraph.Graph P) (ports : List ℕ) (ins : Map String ValueRef) (m : Map ℕ ValueRef)
      → ((p : ℕ) → contains ports p ≡ true → IsFree g p)
      → Unique m × AreFree P laws g m
      → Unique (link_later ports ins m) × AreFree P laws g (link_later ports ins m)
  unfolding link_later
  link_later-keeps g [] ins m f h = h
  link_later-keeps g (port ∷ ports) [] m f h = h
  link_later-keeps g (port ∷ ports) ((name, source) ∷ ins) m f h =
      link_later-keeps g ports ins (insert m port source) (λ p c. f p (ground (arith, c)))
        (
          insert-Unique m port source h.0,
          insert-AreFree g m port source (f port (ground (arith, nat_beq_iff port port))) h.1,
        )

  module _ {J : Type 0} where
    abbrev pub IsConverting : ℕ → ConversionState P J → Type 0
    IsConverting n s = (next s.graph ≡ n) × Unique s.to_link × AreFree P laws s.graph s.to_link

    pub IsConverting-place :
        (n : ℕ) (s s' : ConversionState P J) (d : NodeDefinition J)
        (references : Map String ValueRef)
        → IsConverting n s
        → Placed s s' d references
        → IsConverting (suc n) s' × (s'.node_definitions ≡ insert s.node_definitions n d)
    IsConverting-place n s s' d references h p =
        let (g, idx) = PortGraph.add_graph_node P s.graph p.incoming p.outgoing in
        let kept =
          link_later-keeps g (PortGraph.inputs P g idx) references s.to_link
            (new_input s.graph p.incoming p.outgoing)
            (h.1, add-AreFree s.graph p.incoming p.outgoing s.to_link h.2) in
        let at : idx ≡ n = add_next s.graph p.incoming p.outgoing ∙ h.0 in
        let counted : next g ≡ suc n = next_add s.graph p.incoming p.outgoing ∙ ap suc h.0 in
        rw (p.grown, p.later, p.defined)
          ((counted, kept.0, kept.1), ap (λ k. insert s.node_definitions k d) at)

    convert_nodes-earlier :
        (nodes : List (LegacyNodeDef J)) (n k : ℕ) (metadata : Map ℕ LegacyNodeMetadata)
        (s : ConversionState P J) {s' : ConversionState P J}
        → IsConverting n s
        → convert_nodes nodes n metadata s ≡ ok s'
        → k < n
        → get s'.node_definitions k ≡ get s.node_definitions k
    unfolding convert_nodes
    convert_nodes-earlier [] n k metadata s h e l = rw (← ok-injective e) refl
    convert_nodes-earlier (node ∷ nodes) n k metadata s h e l =
        let (s1, e1, e2) =
          >>=-eq-ok (convert_node node (get metadata n) s)
            (λ converted. convert_nodes nodes (suc n) metadata converted) e in
        let (d, de, p) = Placed-convert_node node (get metadata n) s e1 in
        let (c, defined) = IsConverting-place n s s1 d (references_of node) h p in
        convert_nodes-earlier nodes (suc n) k metadata s1 c e2 (omega arith)
        ∙ rw defined (get-insert_other s.node_definitions n k d (ground (arith, nat_beq_iff n k)))

    pub convert_nodes-converting :
        (nodes : List (LegacyNodeDef J)) (n : ℕ) (metadata : Map ℕ LegacyNodeMetadata)
        (s : ConversionState P J) {s' : ConversionState P J}
        → IsConverting n s
        → convert_nodes nodes n metadata s ≡ ok s'
        → Unique s'.to_link × AreFree P laws s'.graph s'.to_link
    unfolding convert_nodes
    convert_nodes-converting [] n metadata s h e = rw (← ok-injective e) (h.1, h.2)
    convert_nodes-converting (node ∷ nodes) n metadata s h e =
        let (s1, e1, e2) =
          >>=-eq-ok (convert_node node (get metadata n) s)
            (λ converted. convert_nodes nodes (suc n) metadata converted) e in
        let (d, de, p) = Placed-convert_node node (get metadata n) s e1 in
        convert_nodes-converting nodes (suc n) metadata s1
          (IsConverting-place n s s1 d (references_of node) h p).0 e2

    convert_nodes-definition :
        (nodes : List (LegacyNodeDef J)) (n i : ℕ) (metadata : Map ℕ LegacyNodeMetadata)
        (s : ConversionState P J) {s' : ConversionState P J} {node : LegacyNodeDef J}
        → IsConverting n s
        → convert_nodes nodes n metadata s ≡ ok s'
        → get_elem? nodes i ≡ some node
        → (d : NodeDefinition J) × (definition_of node (get metadata (n + i)) ≡ ok d)
          × (get s'.node_definitions (n + i) ≡ some d)
    unfolding convert_nodes
    convert_nodes-definition [] n i metadata s h e a = absurd (cc)
    convert_nodes-definition (first ∷ nodes) n zero metadata s {s'} {node} h e a =
        let (s1, e1, e2) =
          >>=-eq-ok (convert_node first (get metadata n) s)
            (λ converted. convert_nodes nodes (suc n) metadata converted) e in
        let (d, de, p) = Placed-convert_node first (get metadata n) s e1 in
        let (c, defined) = IsConverting-place n s s1 d (references_of first) h p in
        let same = convert_nodes-earlier nodes (suc n) n metadata s1 c e2 (omega arith) in
        let here : get s'.node_definitions n ≡ some d =
          same ∙ rw defined (get-insert_self s.node_definitions n d) in
        let named : first ≡ node = (cc a) in
        let start : n + 0 ≡ n = omega arith in rw (start, ← named) (d, de, here)
    convert_nodes-definition (first ∷ nodes) n (suc i) metadata s h e a =
        let (s1, e1, e2) =
          >>=-eq-ok (convert_node first (get metadata n) s)
            (λ converted. convert_nodes nodes (suc n) metadata converted) e in
        let (d, de, p) = Placed-convert_node first (get metadata n) s e1 in
        let (c, defined) = IsConverting-place n s s1 d (references_of first) h p in
        let rest = convert_nodes-definition nodes (suc n) i metadata s1 c e2 a in
        let later : n + suc i ≡ suc n + i = omega arith in rw later rest

    -- The conversion of the nodes makes the node of each index from the legacy node of that index,
    -- with the definition, context and executor that this one has, if the port graph gives its nodes
    -- indices in order.
    pub convert_nodes_lem :
        (nodes : List (LegacyNodeDef J)) (i : ℕ) (metadata : Map ℕ LegacyNodeMetadata)
        {s : ConversionState P J} {node : LegacyNodeDef J}
        → convert_nodes nodes 0 metadata new_state ≡ ok s
        → get_elem? nodes i ≡ some node
        → (d : NodeDefinition J) × (definition_of node (get metadata i) ≡ ok d)
          × (get s.node_definitions i ≡ some d)
    convert_nodes_lem nodes i metadata e a =
        let zero_add : 0 + i ≡ i = omega arith in
        rw zero_add at
          (convert_nodes-definition nodes 0 i metadata new_state (next_empty, tt, tt) e a)
