-- ===== src/Orchestrator/Ready/Sound.antt =====
-- Which nodes `find_ready_nodes` of tierkreis/src/orchestrator.rs returns.
use tierkreis.Base.{
  ℕ, ◌≡◌, ◌↔◌, sym, ap, Bool-cases, inl, inr, Bool, true, false, not, ◌&&◌, Option, none, some,
  List, [], ◌∷◌, contains, nat_eq, nat_beq_iff, Outcome, ok, err, panic, ◌>>=◌, >>=-eq-ok, expect,
  if◌then◌else◌, arith, ok-injective,
}
use tierkreis.Location.{Location, location_eq, component_eq, with_node}
use tierkreis.State.{Nodes}
use tierkreis.Graph.{
  PortGraph, NodeDefinition, WorkflowGraph, node_definition, all_inputs,
  connected_input_by_port_name,
}
use tierkreis.Orchestrator.Ready.{
  always_run, is_if_else, outputs_missing, not_paused, has_outputs, cond_of, awaited_port,
  port_has_input, if_else_ready, node_filter, port_filter, can_run, keep, find_ready_nodes, unwrap,
}

keep_iff_step :
    (test : ℕ → Outcome Bool) (nodes : List ℕ) (n m : ℕ) (b : Bool) (others : List ℕ)
    → test m ≡ ok b
    → (contains others n ≡ true) ↔ ((contains nodes n ≡ true) × (test n ≡ ok true))
    → (contains (if b then m ∷ others else others) n ≡ true)
      ↔ ((contains (m ∷ nodes) n ≡ true) × (test n ≡ ok true))
keep_iff_step test nodes n m true others e rest =
    let same : m ≡ n → test m ≡ test n = ap test in ground (arith, nat_beq_iff m n, same)
keep_iff_step test nodes n m false others e rest =
    let same : m ≡ n → test m ≡ test n = ap test in ground (arith, nat_beq_iff m n, same)

-- what an available port says
unwrap-eq-ok :
    {A : Type 0} (m : Outcome A) (f : A → Bool)
    → unwrap (m >>= λ a. ok (f a)) ≡ ok true
    → elim m [ ok a ↦ f a | _ ↦ false ] ≡ true
unwrap-eq-ok (ok a) f h = ok-injective h
unwrap-eq-ok (err e) f h = cc
unwrap-eq-ok panic f h = cc

outputs_missing_lem :
    (node_states : Nodes) (loc : Location)
    → outputs_missing node_states loc ≡ not (has_outputs node_states loc)
unfolding outputs_missing has_outputs
outputs_missing_lem node_states loc = ground arith

expect-eq-ok : {A : Type 0} (o : Option A) {a : A} → expect o ≡ ok a → o ≡ some a
expect-eq-ok none h = cc
expect-eq-ok (some a) h = cc

-- the nodes that pass are those of the list that pass the test
keep_iff :
    (test : ℕ → Outcome Bool) (nodes : List ℕ) {kept : List ℕ} (n : ℕ)
    → keep test nodes ≡ ok kept
    → (contains kept n ≡ true) ↔ ((contains nodes n ≡ true) × (test n ≡ ok true))
unfolding keep
keep_iff test [] n h = ground arith
keep_iff test (m ∷ nodes) n h =
    let (b, e1, e2) =
      >>=-eq-ok (test m)
        (λ kept. keep test nodes >>= λ others. ok (if kept then m ∷ others else others)) h in
    let (others, e3, e4) =
      >>=-eq-ok (keep test nodes) (λ others. ok (if b then m ∷ others else others)) e2 in
    let (sound, complete) = keep_iff test nodes n e3 in
    rw (sym (ok-injective e4)) (keep_iff_step test nodes n m b others e1 (keep_iff test nodes n e3))

module _ (P : PortGraph) {J : Type 0} where
  open P use {toposort_filtered}

  -- What a node that starts has: a definition, no outputs yet, no pause in effect, no earlier
  -- scheduling by this process if it is a task, and the outputs of the nodes that it waits for.
  pub record CanStart (g : WorkflowGraph P J) (node_states : Nodes) (parent : Location)
      (scheduled : List Location) (n : ℕ) : Type 0 where
    pub definition : NodeDefinition J
    pub defined : node_definition P g n ≡ some definition
    pub no_outputs : has_outputs node_states (with_node parent n) ≡ false
    pub running : not_paused node_states (with_node parent n) ≡ true
    pub unscheduled : (always_run definition && contains scheduled (with_node parent n)) ≡ false
    pub inputs :
        (if is_if_else definition
          then elim (connected_input_by_port_name P g n
              (awaited_port (cond_of node_states (with_node parent n)))) [
                | ok connected ↦ has_outputs node_states (with_node parent connected.0)
                | _ ↦ false
              ]
          else all_inputs P g n (λ incoming. has_outputs node_states (with_node parent incoming)))
        ≡ true

  inputs_of :
      (g : WorkflowGraph P J) (node_states : Nodes) (parent : Location) (n : ℕ)
      (d : NodeDefinition J)
      → (if is_if_else d
          then if_else_ready P g node_states parent n
          else ok
              (all_inputs P g n (λ incoming. has_outputs node_states (with_node parent incoming))))
        ≡ ok true
      → (if is_if_else d
          then elim (connected_input_by_port_name P g n
              (awaited_port (cond_of node_states (with_node parent n)))) [
                | ok connected ↦ has_outputs node_states (with_node parent connected.0)
                | _ ↦ false
              ]
          else all_inputs P g n (λ incoming. has_outputs node_states (with_node parent incoming)))
        ≡ true
  unfolding if_else_ready port_has_input
  inputs_of g node_states parent n d h = elim (Bool-cases (is_if_else d)) [
    | inl y ↦
        let h' = rw y at h in
        rw y (
          unwrap-eq-ok
            (connected_input_by_port_name P g n
              (awaited_port (cond_of node_states (with_node parent n))))
            (λ connected. has_outputs node_states (with_node parent connected.0)) h')
    | inr z ↦ rw z (ok-injective (rw z at h))
  ]

  can_start :
      (g : WorkflowGraph P J) (node_states : Nodes) (parent : Location) (scheduled : List Location)
      (n : ℕ)
      → node_filter P g node_states parent scheduled n ≡ ok true
      → can_run P g node_states parent n ≡ ok true
      → CanStart g node_states parent scheduled n
  unfolding node_filter can_run if_else_ready port_has_input
  can_start g node_states parent scheduled n f r =
      let (d, e1, e2) =
        >>=-eq-ok (expect (node_definition P g n))
          (λ definition. ok (
            outputs_missing node_states (with_node parent n)
            && (not_paused node_states (with_node parent n)
                && not (always_run definition && contains scheduled (with_node parent n)))))
          f in
      let defined : node_definition P g n ≡ some d = expect-eq-ok (node_definition P g n) e1 in
      record {
        definition = d;
        defined = defined;
        no_outputs =
            ground (arith, outputs_missing_lem node_states (with_node parent n), ok-injective e2);
        running = ground (arith, ok-injective e2);
        unscheduled = ground (arith, ok-injective e2);
        inputs = inputs_of g node_states parent n d (rw (defined, can_run) at r);
      }

  module _
      (yields : (graph : P.Graph) (from : ℕ) (f : ℕ → Outcome Bool) (p : ℕ → ℕ → Outcome Bool)
          (nodes : List ℕ) (n : ℕ)
        → toposort_filtered graph from f p ≡ ok nodes
        → contains nodes n ≡ true
        → f n ≡ ok true) where
    -- Where the traversal yields only nodes that its node filter accepts, each node that is found
    -- ready has a definition and no outputs, and no pause is in effect for it; unless it is a nested
    -- graph or a conditional it was not scheduled by this process before; and what it waits for has
    -- outputs: the nodes at all its inputs, or for `IfElse` the one at the port of its branch, or at
    -- `pred` while the branch is not known.
    pub find_ready_nodes_lem :
        (parent : Location) (g : WorkflowGraph P J) (node_states : Nodes)
        (scheduled : List Location) {ready : List ℕ} (n : ℕ)
        → find_ready_nodes P parent g node_states scheduled ≡ ok ready
        → contains ready n ≡ true
        → CanStart g node_states parent scheduled n
    unfolding find_ready_nodes
    find_ready_nodes_lem parent g node_states scheduled n h c =
        let (nodes, e1, e2) =
          >>=-eq-ok
            (toposort_filtered g.graph g.output_node (node_filter P g node_states parent scheduled)
              (port_filter P g node_states parent))
            (keep (can_run P g node_states parent)) h in
        let (inside, passes) = (keep_iff (can_run P g node_states parent) nodes n e2).0 c in
        can_start g node_states parent scheduled n
          (yields g.graph g.output_node (node_filter P g node_states parent scheduled)
            (port_filter P g node_states parent) nodes n e1 inside)
          passes
