-- ===== src/Orchestrator/Build/Actions/Finish.antt =====
-- How `build_actions` of tierkreis/src/orchestrator.rs ends a run: the action of the output node of
-- the outermost graph.
use tierkreis.Base.{
  ℕ, suc, ◌≡◌, refl, Bool, true, false, ◌||◌, some, List, [], ◌∷◌, ◌++◌, Outcome, ok, err, panic,
  arith, any, contains, ◌==◌, nat_eq, nat_beq_iff, Bool-cases, inl, inr,
}
use tierkreis.Location.{root, location_eq, component_eq, with_node, from_node_index_iter}
use tierkreis.State.{Nodes}
use tierkreis.Graph.{PortGraph, output, WorkflowGraph, node_definition, output_idx}
use tierkreis.Orchestrator.Plan.{Action, ActionKind, workflow_completed}
use tierkreis.Orchestrator.Ready.{find_ready_nodes}
use tierkreis.Orchestrator.Build.{Context, Shared, Services, build_output_actions}
use tierkreis.Orchestrator.Build.Actions.{
  Build, waits, collect_node_states, build_by_definition, build_node, build_nodes, build_ready,
  build_step, build_actions_within, build_actions,
}

abbrev pub ends_run : {J : Type 0} → ActionKind J → Bool
ends_run workflow_completed = true
ends_run _ = false

-- some action of a built list ends the run
abbrev pub some_end : {J S : Type 0} → Outcome (List (Action J) × S) → Bool
some_end (ok (actions, s)) = any (λ a. ends_run a.kind) actions
some_end (err e) = true
some_end panic = true

any-append {ℓ} :
    {A : Type ℓ} (p : A → Bool) (xs ys : List A) → any p (xs ++ ys) ≡ (any p xs || any p ys)
any-append p [] ys = refl
any-append p (x ∷ xs) ys = ground (arith, any-append p xs ys)

module _ {P : PortGraph} {J W : Type 0} (env : Services P J W) where
  module _ (build : Build env) (context : Context J) (g : WorkflowGraph P J) (nodes : Nodes)
      (here : context.parent_loc ≡ root)
      (defined : node_definition P g (output_idx P g) ≡ some output)
      (runs : waits g nodes context.parent_loc (output_idx P g) ≡ false) where
    output_ends :
        (shared : Shared P J W)
        → some_end (build_node env build context g nodes (output_idx P g) shared) ≡ true
    unfolding build_node build_by_definition build_output_actions from_node_index_iter
    output_ends shared =
        ground (arith, here, defined, runs, nat_beq_iff (output_idx P g) (output_idx P g))

    nodes_end :
        (ready : List ℕ)
        → contains ready (output_idx P g) ≡ true
        → (shared : Shared P J W)
        → some_end (build_nodes env build context g nodes ready shared) ≡ true
    unfolding build_nodes
    nodes_end [] c shared = ground (arith, c)
    nodes_end (n ∷ ready) c shared = elim (Bool-cases (n == output_idx P g)) [
      | inl e ↦ grind (
        arith,
        (nat_beq_iff n (output_idx P g)).0 e,
        output_ends shared,
        any-append (λ (a : Action J). ends_run a.kind),
      )
      | inr e ↦ grind (
        arith,
        nodes_end ready (ground (arith, c, e)),
        any-append (λ (a : Action J). ends_run a.kind),
      )
    ]

    ready_ends :
        (ready : List ℕ)
        → contains ready (output_idx P g) ≡ true
        → (shared : Shared P J W)
        → some_end (build_ready env build context g nodes ready shared) ≡ true
    unfolding build_ready
    ready_ends [] c shared = ground (arith, c)
    ready_ends (n ∷ ready) c shared = nodes_end (n ∷ ready) c _

  -- A run whose output node is found ready is completed: when the actions of the outermost graph are
  -- built, its output node is not scheduled yet, does not wait at a breakpoint, and is among the
  -- ready nodes, one of the actions completes the run.
  pub any-build_actions :
      (fuel : ℕ) (context : Context J) (g : WorkflowGraph P J) (shared after : Shared P J W)
      (nodes : Nodes) (ready : List ℕ) (actions : List (Action J))
      → context.parent_loc ≡ root
      → node_definition P g (output_idx P g) ≡ some output
      → collect_node_states env context g ≡ ok nodes
      → contains shared.scheduled_this_lifetime (with_node context.parent_loc (output_idx P g))
        ≡ false
      → find_ready_nodes P context.parent_loc g nodes shared.scheduled_this_lifetime ≡ ok ready
      → contains ready (output_idx P g) ≡ true
      → waits g nodes context.parent_loc (output_idx P g) ≡ false
      → build_actions env (suc fuel) context g shared ≡ ok (actions, after)
      → any (λ a. ends_run a.kind) actions ≡ true
  unfolding build_actions build_actions_within build_step
  any-build_actions fuel context g shared after nodes ready actions here defined collected fresh
        found c runs b =
      ground (
        arith,
        collected,
        fresh,
        found,
        b,
        ready_ends (build_actions_within env (λ _ _ _. panic) fuel) context g nodes here defined
            runs ready c shared,
      )
