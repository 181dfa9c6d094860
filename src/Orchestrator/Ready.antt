-- ===== src/Orchestrator/Ready.antt =====
-- `find_ready_nodes`, `if_else_ready`, `port_has_input` and `should_traverse_if_else_port` of
-- tierkreis/src/orchestrator.rs. The tests may panic, so they are outcomes.
pub mod Sound
use tierkreis.Base.{
  ℕ, String, Bool, true, false, not, ◌&&◌, Option, none, some, List, [], ◌∷◌, contains, ◌==◌,
  string_eq, Outcome, ok, err, panic, ◌>>=◌, expect, if◌then◌else◌,
}
use tierkreis.Base.Map.{Map, get}
use tierkreis.Location.{Location, location_eq, component_eq, with_node}
use tierkreis.State.{NodeState, Nodes, is_none, is_some, is_paused}
use tierkreis.Graph.{
  PortGraph, NodeDefinition, input, output, const, if_else, eager_if_else, task, eval, loop,
  map_over, WorkflowGraph, node_definition, connected_input_by_port_name, get_port_name, all_inputs,
  toposort_filtered_from_output_node,
}

-- `.expect(..)` of a `Result`
abbrev pub unwrap {ℓ} : {A : Type ℓ} → Outcome A → Outcome A
unwrap (ok a) = ok a
unwrap (err e) = panic
unwrap panic = panic

-- the definitions that an executor's task or a completed value answers, and not a nested graph
unfoldable pub always_run : {J : Type 0} → NodeDefinition J → Bool
always_run (task worker name context executor) = true
always_run (input name) = true
always_run (const value) = true
always_run output = true
always_run if_else = false
always_run eager_if_else = false
always_run (eval context executor) = false
always_run (loop context executor) = false
always_run (map_over ports context executor) = false

unfoldable pub is_if_else : {J : Type 0} → NodeDefinition J → Bool
is_if_else if_else = true
is_if_else _ = false

unfoldable pub outputs_missing : Nodes → Location → Bool
outputs_missing node_states loc = elim (get node_states loc) [
  | none ↦ true
  | some state ↦ is_none state.outputs
]

unfoldable pub not_paused : Nodes → Location → Bool
not_paused node_states loc = elim (get node_states loc) [
  | none ↦ true
  | some state ↦ not (is_paused state)
]

unfoldable pub has_outputs : Nodes → Location → Bool
has_outputs node_states loc = elim (get node_states loc) [
  | none ↦ false
  | some state ↦ is_some state.outputs
]

unfoldable pub cond_of : Nodes → Location → Option Bool
cond_of node_states loc = elim (get node_states loc) [ none ↦ none | some state ↦ state.cond ]

-- the input port of an `IfElse` node that the next step waits for
unfoldable pub awaited_port : Option Bool → String
awaited_port none = "pred"
awaited_port (some true) = "if_true"
awaited_port (some false) = "if_false"

-- `Iterator::filter` with a test that may panic
unfoldable pub keep : (ℕ → Outcome Bool) → List ℕ → Outcome (List ℕ)
keep test [] = ok []
keep test (n ∷ nodes) =
    let rest = keep test nodes in
    test n >>= λ kept. rest >>= λ others. ok (if kept then n ∷ others else others)

module _ (P : PortGraph) {J : Type 0} where
  unfoldable pub should_traverse_if_else_port : WorkflowGraph P J → Option Bool → ℕ → Outcome Bool
  should_traverse_if_else_port g node_cond p = unwrap (get_port_name P g p) >>= λ port_name.
      if port_name == "pred"
      then ok true
      else if port_name == "if_true"
      then ok (elim node_cond [ some true ↦ true | _ ↦ false ])
      else if port_name == "if_false"
      then ok (elim node_cond [ some false ↦ true | _ ↦ false ])
      else panic

  unfoldable pub port_has_input : WorkflowGraph P J → Nodes → Location → ℕ → String → Outcome Bool
  port_has_input g node_states parent n port_name =
      connected_input_by_port_name P g n port_name >>= λ connected.
      ok (has_outputs node_states (with_node parent connected.0))

  unfoldable pub if_else_ready : WorkflowGraph P J → Nodes → Location → ℕ → Outcome Bool
  unfolding port_has_input
  if_else_ready g node_states parent n = unwrap (
      port_has_input g node_states parent n
        (awaited_port (cond_of node_states (with_node parent n))))

  -- the filter of the nodes that the traversal enters
  unfoldable pub node_filter :
      WorkflowGraph P J → Nodes → Location → List Location → ℕ → Outcome Bool
  node_filter g node_states parent scheduled_this_lifetime n =
      expect (node_definition P g n) >>= λ definition.
      let loc = with_node parent n in
      ok (
        outputs_missing node_states loc
        && (not_paused node_states loc
            && not (always_run definition && contains scheduled_this_lifetime loc)))

  -- the filter of the ports that the traversal follows
  unfoldable pub port_filter : WorkflowGraph P J → Nodes → Location → ℕ → ℕ → Outcome Bool
  port_filter g node_states parent n p = expect (node_definition P g n) >>= λ definition.
      if is_if_else definition
      then should_traverse_if_else_port g (cond_of node_states (with_node parent n)) p
      else ok true

  unfoldable pub can_run : WorkflowGraph P J → Nodes → Location → ℕ → Outcome Bool
  unfolding if_else_ready
  can_run g node_states parent n = expect (node_definition P g n) >>= λ definition.
      if is_if_else definition
      then if_else_ready g node_states parent n
      else ok (all_inputs P g n (λ incoming. has_outputs node_states (with_node parent incoming)))

  unfoldable pub find_ready_nodes :
      Location → WorkflowGraph P J → Nodes → List Location → Outcome (List ℕ)
  unfolding keep node_filter port_filter can_run
  find_ready_nodes parent g node_states scheduled_this_lifetime =
      toposort_filtered_from_output_node P g
        (node_filter g node_states parent scheduled_this_lifetime)
        (port_filter g node_states parent)
      >>= keep (can_run g node_states parent)
