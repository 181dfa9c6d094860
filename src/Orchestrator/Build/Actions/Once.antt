-- ===== src/Orchestrator/Build/Actions/Once.antt =====
-- What building the actions of a graph does to `scheduled_this_lifetime` of
-- tierkreis/src/orchestrator.rs, from which `find_ready_nodes` knows what was started before.
use tierkreis.Base.{
  ℕ, zero, suc, ◌≤◌, ◌≡◌, inl, inr, refl, Bool, true, false, some, List, [], ◌∷◌, Outcome, ok,
  panic, arith, length, length-append, contains, nat_eq, contains-erase, ◌==◌, Bool-cases,
}
use tierkreis.Location.{node, Location, with_node, component_eq, location_eq}
use tierkreis.State.{Nodes}
use tierkreis.Graph.{PortGraph, NodeDefinition, WorkflowGraph, node_definition, output_idx}
use tierkreis.Orchestrator.Ready.{find_ready_nodes, always_run}
use tierkreis.Orchestrator.Ready.Sound.{find_ready_nodes_lem}
use tierkreis.Orchestrator.Plan.{Action}
use tierkreis.Orchestrator.Build.{Context, Shared, Services, build_pause_action}
use tierkreis.Orchestrator.Build.Actions.{
  build_node, build_nodes, schedule, build_ready, build_step, build_actions_within, build_actions,
  collect_node_states, Build, waits,
}
use tierkreis.Orchestrator.Build.Actions.Keeps.{keeps, definition_keeps}
use tierkreis.Orchestrator.Build.Actions.Marks.{
  schedule_keeps, schedule_marks, longer_location, other_location,
}

module _ {P : PortGraph} {J W : Type 0} (env : Services P J W) where
  module _ (build : Build env) (loc : Location)
      (build_keeps : (context : Context J) (g : WorkflowGraph P J) (shared : Shared P J W)
        → length loc ≤ length context.parent_loc
        → keeps loc shared (build context g shared) ≡ true) where
    module _ (context : Context J) (h : length loc ≤ suc (length context.parent_loc))
        (g : WorkflowGraph P J) (nodes : Nodes)
        (spared : (n : ℕ)
          → waits g nodes context.parent_loc n ≡ true
          → with_node context.parent_loc n == loc ≡ false) where
      build_node_keeps :
          (n : ℕ) (shared : Shared P J W)
          → keeps loc shared (build_node env build context g nodes n shared) ≡ true
      unfolding build_node build_pause_action
      build_node_keeps n shared = grind (
        arith,
        spared n,
        contains-erase (with_node context.parent_loc n) loc shared.scheduled_this_lifetime,
        definition_keeps env build loc build_keeps nodes context h g n,
      )

      build_nodes_keeps :
          (ready : List ℕ) (shared : Shared P J W)
          → keeps loc shared (build_nodes env build context g nodes ready shared) ≡ true
      unfolding build_nodes
      build_nodes_keeps [] shared = ground arith
      build_nodes_keeps (n ∷ ready) shared =
          grind (arith, build_node_keeps n shared, build_nodes_keeps ready)

      -- what is marked, by an earlier call or by this one, stays so
      marked_keeps :
          (n : ℕ) (ready : List ℕ) (shared : Shared P J W)
          → contains (schedule context.parent_loc (n ∷ ready) shared.scheduled_this_lifetime) loc
            ≡ true
          → (actions : List (Action J)) (after : Shared P J W)
          → build_ready env build context g nodes (n ∷ ready) shared ≡ ok (actions, after)
          → contains after.scheduled_this_lifetime loc ≡ true
      unfolding build_ready
      marked_keeps n ready shared k actions after b =
          let marked : Shared P J W = record shared {
            scheduled_this_lifetime =
                schedule context.parent_loc (n ∷ ready) shared.scheduled_this_lifetime;
          } in
          ground (arith, b, k, build_nodes_keeps (n ∷ ready) marked)

      build_ready_keeps :
          (ready : List ℕ) (shared : Shared P J W)
          → keeps loc shared (build_ready env build context g nodes ready shared) ≡ true
      unfolding build_ready
      build_ready_keeps [] shared = ground arith
      build_ready_keeps (n ∷ ready) shared =
          let marked : Shared P J W = record shared {
            scheduled_this_lifetime =
                schedule context.parent_loc (n ∷ ready) shared.scheduled_this_lifetime;
          } in
          ground (
            arith,
            schedule_keeps context.parent_loc (n ∷ ready) shared.scheduled_this_lifetime loc,
            build_nodes_keeps (n ∷ ready) marked,
          )

    longer_keeps :
        (context : Context J)
        → length loc ≤ length context.parent_loc
        → (g : WorkflowGraph P J) (nodes : Nodes) (ready : List ℕ) (shared : Shared P J W)
        → keeps loc shared (build_ready env build context g nodes ready shared) ≡ true
    longer_keeps context h g nodes =
        build_ready_keeps context (omega (arith, h)) g nodes
          (λ n _. longer_location loc context.parent_loc n h)

    step_keeps :
        (context : Context J) (g : WorkflowGraph P J) (shared : Shared P J W)
        → length loc ≤ length context.parent_loc
        → keeps loc shared (build_step env build context g shared) ≡ true
    unfolding build_step
    step_keeps context g shared h = grind (arith, longer_keeps context h g)

  within_keeps :
      (out_of_fuel : Build env)
      → ((loc : Location) (context : Context J) (g : WorkflowGraph P J) (shared : Shared P J W)
          → keeps loc shared (out_of_fuel context g shared) ≡ true)
      → (fuel : ℕ) (loc : Location) (context : Context J) (g : WorkflowGraph P J)
        (shared : Shared P J W)
      → length loc ≤ length context.parent_loc
      → keeps loc shared (build_actions_within env out_of_fuel fuel context g shared) ≡ true
  unfolding build_actions_within
  within_keeps b k zero loc context g shared h = k loc context g shared
  within_keeps b k (suc fuel) loc context g shared h =
      step_keeps (build_actions_within env b fuel) loc (within_keeps b k fuel loc) context g shared
        h

  build_actions_keeps :
      (fuel : ℕ) (loc : Location) (context : Context J) (g : WorkflowGraph P J)
      (shared : Shared P J W)
      → length loc ≤ length context.parent_loc
      → keeps loc shared (build_actions env fuel context g shared) ≡ true
  unfolding build_actions
  build_actions_keeps fuel loc context g shared h =
      within_keeps (λ _ _ _. panic) (λ _ _ _ _. refl) fuel loc context g shared h

  -- a ready node of the graph that does not wait at its breakpoint
  build_step_marks :
      (fuel : ℕ) (context : Context J) (g : WorkflowGraph P J) (shared after : Shared P J W)
      (nodes : Nodes) (ready : List ℕ) (n : ℕ) (actions : List (Action J))
      → contains ready n ≡ true
      → waits g nodes context.parent_loc n ≡ false
      → build_ready env
          (build_actions_within env (λ _ _ _. panic) fuel)
          context
          g
          nodes
          ready
          shared
        ≡ ok (actions, after)
      → contains after.scheduled_this_lifetime (with_node context.parent_loc n) ≡ true
  build_step_marks fuel context g shared after nodes [] n actions c w b = cc
  build_step_marks fuel context g shared after nodes (m ∷ ready) n actions c w b =
      marked_keeps (build_actions_within env (λ _ _ _. panic) fuel) (with_node context.parent_loc n)
        (within_keeps (λ _ _ _. panic) (λ _ _ _ _. refl) fuel (with_node context.parent_loc n))
        context (omega (arith, length-append context.parent_loc (node n ∷ []))) g nodes
        (other_location g nodes context.parent_loc n w) m ready shared
        (schedule_marks context.parent_loc (m ∷ ready) shared.scheduled_this_lifetime n c) actions
        after b

  module _
      (yields : (graph : PortGraph.Graph P) (from : ℕ) (f : ℕ → Outcome Bool)
          (p : ℕ → ℕ → Outcome Bool) (nodes : List ℕ) (n : ℕ)
        → PortGraph.toposort_filtered P graph from f p ≡ ok nodes
        → contains nodes n ≡ true
        → f n ≡ ok true) where
    -- One process starts a task, an input, a constant or the output of a graph at most once in a row:
    -- where the traversal yields only nodes that its node filter accepts, a node that was ready when
    -- the actions of its graph were built, and did not wait at its breakpoint, is not found ready
    -- again with what is scheduled afterwards, whatever the states of the nodes then are.
    pub find_ready_nodes-build_actions :
        (fuel : ℕ) (context : Context J) (g : WorkflowGraph P J) (shared after : Shared P J W)
        (nodes : Nodes) (ready : List ℕ) (n : ℕ) (definition : NodeDefinition J)
        (actions : List (Action J))
        → collect_node_states env context g ≡ ok nodes
        → find_ready_nodes P context.parent_loc g nodes shared.scheduled_this_lifetime ≡ ok ready
        → contains ready n ≡ true
        → node_definition P g n ≡ some definition
        → always_run definition ≡ true
        → waits g nodes context.parent_loc n ≡ false
        → build_actions env (suc fuel) context g shared ≡ ok (actions, after)
        → contains shared.scheduled_this_lifetime (with_node context.parent_loc (output_idx P g))
          ≡ false
        → (later : Nodes) (ready' : List ℕ)
        → find_ready_nodes P context.parent_loc g later after.scheduled_this_lifetime ≡ ok ready'
        → contains ready' n ≡ false
    unfolding build_actions build_actions_within build_step
    find_ready_nodes-build_actions fuel context g shared after nodes ready n definition actions
          collected found c defined always w b open_output later ready' found' =
        let marked =
          build_step_marks fuel context g shared after nodes ready n actions c w
            (ground (arith, b, collected, found, open_output)) in
        elim (Bool-cases (contains ready' n)) [
          | inl again ↦
              let start =
                find_ready_nodes_lem P yields context.parent_loc g later
                  after.scheduled_this_lifetime n found' again in
              absurd (ground (arith, start.defined, defined, always, marked, start.unscheduled))
          | inr e ↦ e
        ]
