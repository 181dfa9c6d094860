-- ===== src/Orchestrator/Build/Actions/Keeps.antt =====
-- What the actions of nested graphs, in tierkreis/src/orchestrator.rs, do to the scheduled locations
-- of the graphs around them.
use tierkreis.Base.{
  ℕ, suc, ◌≤◌, ◌≡◌, String, Bool, true, false, Option, List, [], ◌∷◌, ◌++◌, Outcome, ok, err, panic,
  arith, if◌then◌else◌, length, length-append, contains, nat_eq,
}
use tierkreis.Bits.{BitVec}
use tierkreis.Location.{
  Component, node, loop_index, map_index, Location, with_node, with_map_index, component_eq,
  location_eq,
}
use tierkreis.State.{Nodes}
use tierkreis.Graph.{
  PortGraph, NodeDefinition, input, output, const, if_else, eager_if_else, task, eval, loop,
  map_over, WorkflowGraph,
}
use tierkreis.Asset.{Assets}
use tierkreis.Orchestrator.Build.{
  Context, with_location, with_execution_context, Shared, Services, load_subgraph,
  build_const_action, build_input_action,
}
use tierkreis.Orchestrator.Build.Nested.{
  build_eval_actions, next_iteration, build_iteration, build_loop_actions, build_map_elem,
  build_map_elems, build_subsequent_map_actions, build_initial_map_actions,
  build_completed_map_action, build_map_actions, unfold_ports, fold_bundles,
}
use tierkreis.Orchestrator.Build.Actions.{build_by_definition, Build}

-- the location is still scheduled, if it was
abbrev pub keeps :
    {P : PortGraph} {A J W : Type 0} → Location → Shared P J W → Outcome (A × Shared P J W) → Bool
keeps loc before (ok (a, after)) =
    if contains before.scheduled_this_lifetime loc
    then contains after.scheduled_this_lifetime loc
    else true
keeps loc before (err e) = true
keeps loc before panic = true

module _ {P : PortGraph} {J W : Type 0} (env : Services P J W) where
  load_subgraph_keeps :
      (loc : Location) (context : Context J) (g : WorkflowGraph P J) (nodes : Nodes) (n : ℕ)
      (allow : Bool) (shared : Shared P J W)
      → keeps loc shared (load_subgraph env context g nodes n allow shared) ≡ true
  unfolding load_subgraph
  load_subgraph_keeps loc context g nodes n allow shared = ground arith

  unfold_ports_keeps :
      (loc : Location) (inputs : Assets) (ports : List String) (sets : List Assets)
      (shared : Shared P J W)
      → keeps loc shared (unfold_ports env inputs ports sets shared) ≡ true
  unfolding unfold_ports
  unfold_ports_keeps loc inputs [] sets shared = ground arith
  unfold_ports_keeps loc inputs (p ∷ ports) sets shared =
      grind (arith, unfold_ports_keeps loc inputs ports)

  fold_bundles_keeps :
      (loc : Location) (bundles : _) (shared : Shared P J W)
      → keeps loc shared (fold_bundles env bundles shared) ≡ true
  unfolding fold_bundles
  fold_bundles_keeps loc [] shared = ground arith
  fold_bundles_keeps loc (b ∷ bundles) shared = grind (arith, fold_bundles_keeps loc bundles)

  module _ (build : Build env) (loc : Location)
      (build_keeps : (context : Context J) (g : WorkflowGraph P J) (shared : Shared P J W)
        → length loc ≤ length context.parent_loc
        → keeps loc shared (build context g shared) ≡ true) where
    part_keeps :
        (context : Context J)
        → length loc ≤ suc (length context.parent_loc)
        → (n : ℕ) (rest : List Component) → (g : WorkflowGraph P J) (shared : Shared P J W)
        → keeps loc shared
            (build (with_location context (with_node context.parent_loc n ++ rest)) g shared)
          ≡ true
    part_keeps context h n rest g shared =
        build_keeps (with_location context (with_node context.parent_loc n ++ rest)) g shared (
          omega (
            arith,
            h,
            length-append context.parent_loc (node n ∷ []),
            length-append (with_node context.parent_loc n) rest,
          ))

    node_keeps :
        (context : Context J)
        → length loc ≤ suc (length context.parent_loc)
        → (n : ℕ) → (g : WorkflowGraph P J) (shared : Shared P J W)
        → keeps loc shared (build (with_location context (with_node context.parent_loc n)) g shared)
          ≡ true
    node_keeps context h n g shared =
        build_keeps (with_location context (with_node context.parent_loc n)) g shared
          (omega (arith, h, length-append context.parent_loc (node n ∷ [])))

    module _ (nodes : Nodes) where
      eval_keeps :
          (context : Context J)
          → length loc ≤ suc (length context.parent_loc)
          → (g : WorkflowGraph P J) (n : ℕ) (shared : Shared P J W)
          → keeps loc shared (build_eval_actions env build context g nodes n shared) ≡ true
      unfolding build_eval_actions
      eval_keeps context h g n shared =
          grind
            (arith, load_subgraph_keeps loc context g nodes n true shared, node_keeps context h n)

      iteration_keeps :
          (context : Context J)
          → length loc ≤ suc (length context.parent_loc)
          → (g : WorkflowGraph P J) (n : ℕ) (name : Option String) (index : ℕ)
            (shared : Shared P J W)
          → keeps loc shared (build_iteration env build context g nodes n name index shared) ≡ true
      unfolding build_iteration next_iteration
      iteration_keeps context h g n name index shared = grind (
        arith,
        load_subgraph_keeps loc context g nodes n false shared,
        part_keeps context h n (loop_index index ∷ []),
      )

      loop_keeps :
          (context : Context J)
          → length loc ≤ suc (length context.parent_loc)
          → (g : WorkflowGraph P J) (n : ℕ) (name : Option String) (shared : Shared P J W)
          → keeps loc shared (build_loop_actions env build context g nodes n name shared) ≡ true
      unfolding build_loop_actions
      loop_keeps context h g n name shared = grind (arith, iteration_keeps context h g n name)

    elem_keeps :
        (context : Context J)
        → length loc ≤ suc (length context.parent_loc)
        → (n map_size : ℕ) (g : WorkflowGraph P J) (index : ℕ) (completed : Bool)
          (shared : Shared P J W)
        → keeps loc shared (build_map_elem env build context n map_size g index completed shared)
          ≡ true
    unfolding build_map_elem with_map_index
    elem_keeps context h n map_size g index true shared = ground arith
    elem_keeps context h n map_size g index false shared =
        ground (arith, part_keeps context h n (map_index index ∷ []) g shared)

    elems_keep :
        (context : Context J)
        → length loc ≤ suc (length context.parent_loc)
        → (n map_size : ℕ) (g : WorkflowGraph P J) (index : ℕ) (completed : BitVec)
          (shared : Shared P J W)
        → keeps loc shared (build_map_elems env build context n map_size g index completed shared)
          ≡ true
    unfolding build_map_elems
    elems_keep context h n map_size g index [] shared = ground arith
    elems_keep context h n map_size g index (c ∷ completed) shared = grind (
      arith,
      elem_keeps context h n map_size g index c shared,
      elems_keep context h n map_size g (suc index) completed,
    )

    map_keeps :
        (nodes : Nodes) (context : Context J)
        → length loc ≤ suc (length context.parent_loc)
        → (g : WorkflowGraph P J) (ports : List String) (n : ℕ) (shared : Shared P J W)
        → keeps loc shared (build_map_actions env build context g nodes ports n shared) ≡ true
    unfolding build_map_actions build_initial_map_actions build_completed_map_action
        build_subsequent_map_actions
    map_keeps nodes context h g ports n shared = grind (
      arith,
      load_subgraph_keeps loc context g nodes n false shared,
      elems_keep context h n,
      unfold_ports_keeps loc,
      fold_bundles_keeps loc,
    )

    pub definition_keeps :
        (nodes : Nodes) (context : Context J)
        → length loc ≤ suc (length context.parent_loc)
        → (g : WorkflowGraph P J) (n : ℕ) (definition : NodeDefinition J) (shared : Shared P J W)
        → keeps loc shared (build_by_definition env build context g nodes n definition shared)
          ≡ true
    unfolding build_by_definition build_input_action build_const_action with_execution_context
    definition_keeps nodes context h g n (input name) shared = ground arith
    definition_keeps nodes context h g n (const value) shared = ground arith
    definition_keeps nodes context h g n output shared = ground arith
    definition_keeps nodes context h g n (task worker name requested executor) shared = ground arith
    definition_keeps nodes context h g n if_else shared = ground arith
    definition_keeps nodes context h g n eager_if_else shared = ground arith
    definition_keeps nodes context h g n (eval requested executor) shared =
        eval_keeps nodes (with_execution_context context requested executor) h g n shared
    definition_keeps nodes context h g n (loop requested executor) shared =
        loop_keeps nodes (with_execution_context context requested executor) h g n _ shared
    definition_keeps nodes context h g n (map_over ports requested executor) shared =
        map_keeps nodes (with_execution_context context requested executor) h g ports n shared
