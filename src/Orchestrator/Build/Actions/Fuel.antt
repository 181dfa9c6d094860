-- ===== src/Orchestrator/Build/Actions/Fuel.antt =====
-- How much fuel the recursion of `build_actions` of tierkreis/src/orchestrator.rs needs: it goes into
-- the subgraph of a node that has a state in the run, and the location gets longer.
use tierkreis.Base.{
  ℕ, zero, suc, ◌+◌, ◌<◌, ◌≤◌, ◌≡◌, inl, inr, refl, String, Bool, true, false, Option, List, [],
  ◌∷◌, ◌++◌, arith, length, length-append, bind_cong, Option-cases, pair_eq, nat_eq,
}
use tierkreis.Bits.{BitVec}
use tierkreis.Location.{
  Component, node, loop_index, map_index, with_node, with_map_index, component_eq, location_eq,
}
use tierkreis.State.{Nodes}
use tierkreis.Graph.{
  PortGraph, NodeDefinition, input, output, const, if_else, eager_if_else, task, eval, loop,
  map_over, WorkflowGraph,
}
use tierkreis.Orchestrator.Build.{Context, with_location, with_execution_context, Shared, Services}
use tierkreis.Orchestrator.Build.Nested.{
  loop_index_at, build_eval_actions, build_iteration, build_loop_actions, build_map_elem,
  build_map_elems, build_subsequent_map_actions, build_map_actions,
}
use tierkreis.Orchestrator.Build.Actions.{
  build_by_definition, build_node, build_nodes, build_ready, build_step, build_actions_within,
  collect_node_states, Build,
}
use tierkreis.Orchestrator.Build.Actions.Depth.{
  run_depth, IsShallow, collect_node_states-IsShallow, is_running-depth, loop_index_at-depth,
  map_completed_at-depth,
}

module _ {P : PortGraph} {J W : Type 0} (env : Services P J W) where
  module _ (build build' : Build env) (d p : ℕ)
      (agree : (context : Context J) (g : WorkflowGraph P J) (shared : Shared P J W)
        → suc p ≤ d
        → suc p ≤ length context.parent_loc
        → build context g shared ≡ build' context g shared) where
    node_agree :
        (context : Context J)
        → length context.parent_loc ≡ p
        → (n : ℕ) → length (with_node context.parent_loc n) ≤ d
        → (g : WorkflowGraph P J) (shared : Shared P J W)
        → build (with_location context (with_node context.parent_loc n)) g shared
          ≡ build' (with_location context (with_node context.parent_loc n)) g shared
    node_agree context here n h g shared =
        let longer = length-append context.parent_loc (node n ∷ []) in
        agree (with_location context (with_node context.parent_loc n)) g shared
          (omega (arith, here, h, longer)) (omega (arith, here, longer))

    -- the iteration of a loop, or the element of a map
    part_agree :
        (context : Context J)
        → length context.parent_loc ≡ p
        → (n : ℕ) (c : Component) → length (with_node context.parent_loc n) ≤ d
        → (g : WorkflowGraph P J) (shared : Shared P J W)
        → build (with_location context (with_node context.parent_loc n ++ c ∷ [])) g shared
          ≡ build' (with_location context (with_node context.parent_loc n ++ c ∷ [])) g shared
    part_agree context here n c h g shared =
        let longer = length-append context.parent_loc (node n ∷ []) in
        let longest = length-append (with_node context.parent_loc n) (c ∷ []) in
        agree (with_location context (with_node context.parent_loc n ++ c ∷ [])) g shared
          (omega (arith, here, h, longer)) (omega (arith, here, longer, longest))

    elem_agree :
        (context : Context J)
        → length context.parent_loc ≡ p
        → (n : ℕ) → length (with_node context.parent_loc n) ≤ d
        → (map_size : ℕ) (g : WorkflowGraph P J) (index : ℕ) (completed : Bool)
          (shared : Shared P J W)
        → build_map_elem env build context n map_size g index completed shared
          ≡ build_map_elem env build' context n map_size g index completed shared
    unfolding build_map_elem with_map_index
    elem_agree context here n h map_size g index true shared = refl
    elem_agree context here n h map_size g index false shared =
        ground (arith, part_agree context here n (map_index index) h g shared)

    elems_agree :
        (context : Context J)
        → length context.parent_loc ≡ p
        → (n : ℕ) → length (with_node context.parent_loc n) ≤ d
        → (map_size : ℕ) (g : WorkflowGraph P J) (index : ℕ) (completed : BitVec)
          (shared : Shared P J W)
        → build_map_elems env build context n map_size g index completed shared
          ≡ build_map_elems env build' context n map_size g index completed shared
    unfolding build_map_elems
    elems_agree context here n h map_size g index [] shared = refl
    elems_agree context here n h map_size g index (c ∷ completed) shared = grind (
      arith,
      elem_agree context here n h map_size g index c shared,
      elems_agree context here n h map_size g (suc index) completed,
    )

    module _ (nodes : Nodes) (shallow : IsShallow d nodes) where
      eval_agree :
          (context : Context J)
          → length context.parent_loc ≡ p
          → (g : WorkflowGraph P J) (n : ℕ) (shared : Shared P J W)
          → build_eval_actions env build context g nodes n shared
            ≡ build_eval_actions env build' context g nodes n shared
      unfolding build_eval_actions
      eval_agree context here g n shared = grind (
        arith,
        is_running-depth d nodes shallow (with_node context.parent_loc n),
        node_agree context here n,
      )

      iteration_agree :
          (context : Context J)
          → length context.parent_loc ≡ p
          → (g : WorkflowGraph P J) (n : ℕ) (name : Option String) (index : ℕ)
          → length (with_node context.parent_loc n) ≤ d
          → (shared : Shared P J W)
          → build_iteration env build context g nodes n name index shared
            ≡ build_iteration env build' context g nodes n name index shared
      unfolding build_iteration
      iteration_agree context here g n name index h shared =
          grind (arith, part_agree context here n (loop_index index) h)

      loop_agree :
          (context : Context J)
          → length context.parent_loc ≡ p
          → (g : WorkflowGraph P J) (n : ℕ) (name : Option String) (shared : Shared P J W)
          → build_loop_actions env build context g nodes n name shared
            ≡ build_loop_actions env build' context g nodes n name shared
      unfolding build_loop_actions
      loop_agree context here g n name shared =
          elim (Option-cases (loop_index_at nodes (with_node context.parent_loc n))) [
            | inl e ↦ ground (arith, e)
            | inr (index, e) ↦ ground (
              arith,
              e,
              iteration_agree context here g n name index
                  (loop_index_at-depth d nodes shallow (with_node context.parent_loc n) index e)
                  shared,
            )
          ]

      map_agree :
          (context : Context J)
          → length context.parent_loc ≡ p
          → (g : WorkflowGraph P J) (ports : List String) (n : ℕ) (shared : Shared P J W)
          → build_map_actions env build context g nodes ports n shared
            ≡ build_map_actions env build' context g nodes ports n shared
      unfolding build_map_actions build_subsequent_map_actions
      map_agree context here g ports n shared = grind (
        arith,
        map_completed_at-depth d nodes shallow (with_node context.parent_loc n),
        elems_agree context here n,
      )

      definition_agree :
          (context : Context J)
          → length context.parent_loc ≡ p
          → (g : WorkflowGraph P J) (n : ℕ) (definition : NodeDefinition J) (shared : Shared P J W)
          → build_by_definition env build context g nodes n definition shared
            ≡ build_by_definition env build' context g nodes n definition shared
      unfolding build_by_definition with_execution_context
      definition_agree context here g n (input name) shared = refl
      definition_agree context here g n (const value) shared = refl
      definition_agree context here g n output shared = refl
      definition_agree context here g n (task worker name requested executor) shared = refl
      definition_agree context here g n if_else shared = refl
      definition_agree context here g n eager_if_else shared = refl
      definition_agree context here g n (eval requested executor) shared =
          eval_agree (with_execution_context context requested executor) here g n shared
      definition_agree context here g n (loop requested executor) shared =
          loop_agree (with_execution_context context requested executor) here g n _ shared
      definition_agree context here g n (map_over ports requested executor) shared =
          map_agree (with_execution_context context requested executor) here g ports n shared

      node_step_agree :
          (context : Context J)
          → length context.parent_loc ≡ p
          → (g : WorkflowGraph P J) (n : ℕ) (shared : Shared P J W)
          → build_node env build context g nodes n shared
            ≡ build_node env build' context g nodes n shared
      unfolding build_node
      node_step_agree context here g n shared = grind (arith, definition_agree context here g n)

      nodes_agree :
          (context : Context J)
          → length context.parent_loc ≡ p
          → (g : WorkflowGraph P J) (ready : List ℕ) (shared : Shared P J W)
          → build_nodes env build context g nodes ready shared
            ≡ build_nodes env build' context g nodes ready shared
      unfolding build_nodes
      nodes_agree context here g [] shared = refl
      nodes_agree context here g (n ∷ ready) shared =
          grind (arith, node_step_agree context here g n shared, nodes_agree context here g ready)

      ready_agree :
          (context : Context J)
          → length context.parent_loc ≡ p
          → (g : WorkflowGraph P J) (ready : List ℕ) (shared : Shared P J W)
          → build_ready env build context g nodes ready shared
            ≡ build_ready env build' context g nodes ready shared
      unfolding build_ready
      ready_agree context here g [] shared = refl
      ready_agree context here g (n ∷ ready) shared = nodes_agree context here g (n ∷ ready) _

    step_agree :
        (context : Context J)
        → length context.parent_loc ≡ p
        → run_depth env.run env.state ≡ d
        → (g : WorkflowGraph P J) (shared : Shared P J W)
        → build_step env build context g shared ≡ build_step env build' context g shared
    unfolding build_step
    step_agree context here deep g shared =
        bind_cong (collect_node_states env context g) _ _ (λ nodes e.
          let shallow : IsShallow d nodes =
            rw (← deep) (collect_node_states-IsShallow env context g nodes e) in
          grind (arith, ready_agree nodes shallow context here g))

  -- Building actions does not depend on what happens when there is no fuel left, nor on the fuel:
  -- with at least one unit, and with more than the longest location that has a state is longer than
  -- the location of the call, any two fuels and any two ends give the same result.
  pub build_actions_within-enough_fuel :
      (fuel fuel' : ℕ) (out_of_fuel out_of_fuel' : Build env) (context : Context J)
      (g : WorkflowGraph P J) (shared : Shared P J W)
      → 0 < fuel
      → 0 < fuel'
      → run_depth env.run env.state < length context.parent_loc + fuel
      → run_depth env.run env.state < length context.parent_loc + fuel'
      → build_actions_within env out_of_fuel fuel context g shared
        ≡ build_actions_within env out_of_fuel' fuel' context g shared
  unfolding build_actions_within
  build_actions_within-enough_fuel zero fuel' b b' context g shared h k l m =
      absurd (omega (arith, h))
  build_actions_within-enough_fuel (suc fuel) zero b b' context g shared h k l m =
      absurd (omega (arith, k))
  build_actions_within-enough_fuel (suc fuel) (suc fuel') b b' context g shared h k l m =
      step_agree (build_actions_within env b fuel) (build_actions_within env b' fuel')
        (run_depth env.run env.state) (length context.parent_loc)
        (λ context' g' shared' d n.
          build_actions_within-enough_fuel fuel fuel' b b' context' g' shared' (omega (arith, l, d))
            (omega (arith, m, d)) (omega (arith, l, n)) (omega (arith, m, n)))
        context refl refl g shared
