-- ===== src/Orchestrator/Build/Actions/Below.antt =====
-- Where the actions are that `build_actions` of tierkreis/src/orchestrator.rs yields: at the location
-- it is called for or below, and the elements of maps that they complete.
use tierkreis.Base.{
  ℕ, zero, suc, ◌≡◌, refl, String, Bool, true, false, Option, List, [], ◌∷◌, ◌++◌, panic, arith,
  all, ◌+◌, ◌<◌, length,
}
use tierkreis.Bits.{BitVec}
use tierkreis.Location.{node, map_index, Location, with_node, with_map_index, component_eq}
use tierkreis.State.{Nodes}
use tierkreis.Graph.{
  PortGraph, NodeDefinition, input, output, const, if_else, eager_if_else, task, eval, loop,
  map_over, WorkflowGraph,
}
use tierkreis.Orchestrator.Plan.{Action}
use tierkreis.Orchestrator.Branch.{
  build_if_else_action, build_eager_if_else_action, build_branch_action,
}
use tierkreis.Orchestrator.Build.{
  Context, with_location, with_execution_context, Shared, Services, M, build_pause_action,
  build_input_action, build_const_action, build_output_actions, build_task_action,
}
use tierkreis.Orchestrator.Build.Placed.{
  is_within, is_within-append, is_within_refl, is_within-loop, is_within-map, all-append, in_range,
  placed, all_built, all_built_implied, all_placed, all_placed_weaken,
}
use tierkreis.Orchestrator.Build.Nested.{
  build_eval_actions, next_iteration, build_iteration, build_loop_actions, build_map_elem,
  build_map_elems, build_subsequent_map_actions, build_initial_map_actions,
  build_completed_map_action, build_map_actions,
}
use tierkreis.Orchestrator.Build.Actions.{
  build_deadlock_action, build_by_definition, build_node, build_nodes, build_ready, build_step,
  build_actions_within, build_actions,
}

deadlock_within :
    (J : Type 0) (parent : Location) (node_states : Nodes)
    → all (placed {J = J} parent) (build_deadlock_action parent node_states) ≡ true
unfolding build_deadlock_action
deadlock_within J parent node_states = ground (arith, is_within_refl parent)

module _ {P : PortGraph} {J W : Type 0} (env : Services P J W) where
  module _ (build : Context J → WorkflowGraph P J → M env (List (Action J)))
      (build_within : (context : Context J) (g : WorkflowGraph P J) (shared : Shared P J W)
        → all_placed context.parent_loc (build context g shared) ≡ true) where
    nested_within :
        (context : Context J) (loc : Location)
        → is_within context.parent_loc loc ≡ true
        → (g : WorkflowGraph P J) (shared : Shared P J W)
        → all_placed context.parent_loc (build (with_location context loc) g shared) ≡ true
    nested_within context loc h g shared =
        all_placed_weaken context.parent_loc loc (build (with_location context loc) g shared) h
          (build_within (with_location context loc) g shared)

    eval_within :
        (context : Context J) (g : WorkflowGraph P J) (node_states : Nodes) (n : ℕ)
        (shared : Shared P J W)
        → all_placed context.parent_loc
            (build_eval_actions env build context g node_states n shared)
          ≡ true
    unfolding build_eval_actions
    eval_within context g node_states n shared =
        let here = is_within-append context.parent_loc (node n ∷ []) in
        grind (arith, here, nested_within context (with_node context.parent_loc n) here)

    loop_within :
        (context : Context J) (g : WorkflowGraph P J) (node_states : Nodes) (n : ℕ)
        (name : Option String) (shared : Shared P J W)
        → all_placed context.parent_loc
            (build_loop_actions env build context g node_states n name shared)
          ≡ true
    unfolding build_loop_actions build_iteration next_iteration
    loop_within context g node_states n name shared = grind (
      arith,
      is_within-append context.parent_loc (node n ∷ []),
      is_within-loop context.parent_loc n,
      nested_within context,
    )

    elem_within :
        (context : Context J) (n map_size : ℕ) (g : WorkflowGraph P J) (index : ℕ)
        (completed : Bool) (shared : Shared P J W)
        → index < map_size
        → all_placed context.parent_loc
            (build_map_elem env build context n map_size g index completed shared)
          ≡ true
    unfolding build_map_elem with_map_index
    elem_within context n map_size g index true shared h = refl
    elem_within context n map_size g index false shared h = grind (
      arith,
      is_within-append context.parent_loc (node n ∷ []),
      nested_within context (with_node context.parent_loc n ++ map_index index ∷ [])
          (is_within-map context.parent_loc n index) g shared,
      all-append,
    )

    elems_within :
        (context : Context J) (n map_size : ℕ) (g : WorkflowGraph P J) (index : ℕ)
        (completed : BitVec) (shared : Shared P J W)
        → index + length completed ≡ map_size
        → all_placed context.parent_loc
            (build_map_elems env build context n map_size g index completed shared)
          ≡ true
    unfolding build_map_elems
    elems_within context n map_size g index [] shared h = refl
    elems_within context n map_size g index (c ∷ completed) shared h = grind (
      arith,
      elem_within context n map_size g index c shared (omega (arith, h)),
      λ (next : Shared P J W).
          elems_within context n map_size g (suc index) completed next (omega (arith, h)),
      all-append,
    )

    map_within :
        (context : Context J) (g : WorkflowGraph P J) (node_states : Nodes) (ports : List String)
        (n : ℕ) (shared : Shared P J W)
        → all_placed context.parent_loc
            (build_map_actions env build context g node_states ports n shared)
          ≡ true
    unfolding build_map_actions build_initial_map_actions build_completed_map_action
        build_subsequent_map_actions
    map_within context g node_states ports n shared =
        grind (arith, is_within-append context.parent_loc (node n ∷ []), elems_within context n)

    definition_within :
        (context : Context J) (g : WorkflowGraph P J) (node_states : Nodes) (n : ℕ)
        (definition : NodeDefinition J) (shared : Shared P J W)
        → all_placed context.parent_loc
            (build_by_definition env build context g node_states n definition shared)
          ≡ true
    unfolding build_by_definition build_input_action build_const_action build_output_actions
        build_task_action with_execution_context build_if_else_action build_branch_action
        build_eager_if_else_action
    definition_within context g node_states n (input name) shared =
        ground (arith, is_within-append context.parent_loc (node n ∷ []))
    definition_within context g node_states n (const value) shared =
        ground (arith, is_within-append context.parent_loc (node n ∷ []))
    definition_within context g node_states n output shared =
        ground (arith, is_within-append context.parent_loc (node n ∷ []))
    definition_within context g node_states n (task worker name requested executor) shared =
        ground (arith, is_within-append context.parent_loc (node n ∷ []))
    definition_within context g node_states n if_else shared =
        ground (arith, is_within-append context.parent_loc (node n ∷ []))
    definition_within context g node_states n eager_if_else shared =
        ground (arith, is_within-append context.parent_loc (node n ∷ []))
    definition_within context g node_states n (eval requested executor) shared =
        eval_within (with_execution_context context requested executor) g node_states n shared
    definition_within context g node_states n (loop requested executor) shared =
        loop_within (with_execution_context context requested executor) g node_states n _ shared
    definition_within context g node_states n (map_over ports requested executor) shared =
        map_within (with_execution_context context requested executor) g node_states ports n shared

    node_within :
        (context : Context J) (g : WorkflowGraph P J) (node_states : Nodes) (n : ℕ)
        (shared : Shared P J W)
        → all_placed context.parent_loc (build_node env build context g node_states n shared) ≡ true
    unfolding build_node build_pause_action
    node_within context g node_states n shared = grind (
      arith,
      is_within-append context.parent_loc (node n ∷ []),
      definition_within context g node_states n,
    )

    nodes_within :
        (context : Context J) (g : WorkflowGraph P J) (node_states : Nodes) (nodes : List ℕ)
        (shared : Shared P J W)
        → all_placed context.parent_loc (build_nodes env build context g node_states nodes shared)
          ≡ true
    unfolding build_nodes
    nodes_within context g node_states [] shared = refl
    nodes_within context g node_states (n ∷ nodes) shared = grind (
      arith,
      node_within context g node_states n shared,
      nodes_within context g node_states nodes,
      all-append,
    )

    ready_within :
        (context : Context J) (g : WorkflowGraph P J) (node_states : Nodes) (nodes : List ℕ)
        (shared : Shared P J W)
        → all_placed context.parent_loc (build_ready env build context g node_states nodes shared)
          ≡ true
    unfolding build_ready
    ready_within context g node_states [] shared = deadlock_within J context.parent_loc node_states
    ready_within context g node_states (n ∷ nodes) shared =
        nodes_within context g node_states (n ∷ nodes) _

    step_within :
        (context : Context J) (g : WorkflowGraph P J) (shared : Shared P J W)
        → all_placed context.parent_loc (build_step env build context g shared) ≡ true
    unfolding build_step
    step_within context g shared = grind (arith, ready_within context g)

  within_lem :
      (build : Context J → WorkflowGraph P J → M env (List (Action J)))
      → ((context : Context J) (g : WorkflowGraph P J) (shared : Shared P J W)
          → all_placed context.parent_loc (build context g shared) ≡ true)
      → (fuel : ℕ) (context : Context J) (g : WorkflowGraph P J) (shared : Shared P J W)
      → all_placed context.parent_loc (build_actions_within env build fuel context g shared) ≡ true
  unfolding build_actions_within
  within_lem build h zero context g shared = h context g shared
  within_lem build h (suc fuel) context g shared =
      step_within (build_actions_within env build fuel) (within_lem build h fuel) context g shared

  placed_lem :
      (fuel : ℕ) (context : Context J) (g : WorkflowGraph P J) (shared : Shared P J W)
      → all_placed context.parent_loc (build_actions env fuel context g shared) ≡ true
  unfolding build_actions
  placed_lem fuel context g shared =
      within_lem (λ _ _ _. panic) (λ _ _ _. refl) fuel context g shared

  -- Every action that is built for a graph, on any fuel and whatever the graphs nested in it are, is
  -- at the location of that graph or below it: no action of another part of the run is built.
  pub all_within-build_actions :
      (fuel : ℕ) (context : Context J) (g : WorkflowGraph P J) (shared : Shared P J W)
      → all_built
          (λ a. is_within context.parent_loc a.loc)
          (build_actions env fuel context g shared)
        ≡ true
  all_within-build_actions fuel context g shared =
      all_built_implied (placed context.parent_loc) (λ a. is_within context.parent_loc a.loc)
        (build_actions env fuel context g shared) (λ a h. ground (arith, h))
        (placed_lem fuel context g shared)

  -- Every action that completes an element of a map completes one whose index is below the size of
  -- the map, so that the bit for it is there.
  pub in_range-build_actions :
      (fuel : ℕ) (context : Context J) (g : WorkflowGraph P J) (shared : Shared P J W)
      → all_built (λ a. in_range a.kind) (build_actions env fuel context g shared) ≡ true
  in_range-build_actions fuel context g shared =
      all_built_implied (placed context.parent_loc) (λ a. in_range a.kind)
        (build_actions env fuel context g shared) (λ a h. ground (arith, h))
        (placed_lem fuel context g shared)
