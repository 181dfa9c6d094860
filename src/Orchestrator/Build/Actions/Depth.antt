-- ===== src/Orchestrator/Build/Actions/Depth.antt =====
-- How long the locations are that have a state in a run, and what that says of the states that
-- `collect_node_states` of tierkreis/src/orchestrator.rs reads.
use tierkreis.Base.{
  ℕ, ◌≤◌, ◌≡◌, ◌⊎◌, inl, inr, refl, sym, ◌∙◌, true, none, some, List, [], ◌∷◌, map, ok, or_error,
  arith, if◌then◌else◌, length, leb, >>=-eq-ok, or_error-eq-ok, ok-injective, Option-cases, pair_eq,
  nat_eq, list_beq_iff,
}
use tierkreis.Base.Map.{get, extend, get-extend, get_or_default}
use tierkreis.Bits.{BitVec}
use tierkreis.Location.{Location, with_node, component_eq, location_eq}
use tierkreis.State.{Nodes, NodeState, blank, RunAttemptState}
use tierkreis.State.Handle.{node_at}
use tierkreis.State.Runtime.{Runtime, RunHandle, key, read_many}
use tierkreis.Graph.{PortGraph, WorkflowGraph, node_ids}
use tierkreis.Orchestrator.Build.{Context, Services}
use tierkreis.Orchestrator.Build.Nested.{is_running, loop_index_at, map_completed_at}
use tierkreis.Orchestrator.Build.Actions.{collect_node_states}

-- the length of the longest location that has a state
abbrev pub max_depth : Nodes → ℕ
max_depth [] = 0
max_depth ((loc, state) ∷ nodes) =
    let rest = max_depth nodes in if leb rest (length loc) then length loc else rest

-- the same of a run
abbrev pub run_depth : {G : Type 0} → RunHandle → Runtime G → ℕ
run_depth h s = elim (get s.runs (key h)) [ none ↦ 0 | some run ↦ max_depth run.nodes ]

max_depth_bound :
    (nodes : Nodes) (loc : Location) (state : NodeState)
    → get nodes loc ≡ some state
    → length loc ≤ max_depth nodes
unfolding get
max_depth_bound [] loc state h = cc
max_depth_bound ((j, v) ∷ nodes) loc state h =
    ground (arith, list_beq_iff component_eq j loc, max_depth_bound nodes loc state)

-- the states of deeper locations are blank
abbrev pub IsShallow : ℕ → Nodes → Type 0
IsShallow d nodes =
    (loc : Location) (state : NodeState)
    → get nodes loc ≡ some state
    → (length loc ≤ d) ⊎ (state ≡ blank)

-- the states that are read are those of the run, or blank
get-map_node_at :
    (f : Location → NodeState) (locs : List Location) (loc : Location) (state : NodeState)
    → get (map (λ l. (l, f l)) locs) loc ≡ some state
    → state ≡ f loc
unfolding get
get-map_node_at f [] loc state h = cc
get-map_node_at f (l ∷ locs) loc state h =
    ground (arith, list_beq_iff component_eq l loc, get-map_node_at f locs loc state)

node_at_shallow :
    (run : RunAttemptState) (loc : Location)
    → (length loc ≤ max_depth run.nodes) ⊎ (node_at run loc ≡ blank)
unfolding get_or_default
node_at_shallow run loc = elim (Option-cases (get run.nodes loc)) [
  | inl e ↦ inr (rw (e, get_or_default) refl)
  | inr (state, e) ↦ inl (max_depth_bound run.nodes loc state e)
]

get-extend_nil : (m : Nodes) (loc : Location) → get (extend [] m) loc ≡ get m loc
unfolding get
get-extend_nil m loc = ground (arith, get-extend [] m loc)

read-IsShallow :
    (run : RunAttemptState) (locs : List Location)
    → IsShallow (max_depth run.nodes) (extend [] (map (λ loc. (loc, node_at run loc)) locs))
read-IsShallow run locs loc state e =
    rw (get-map_node_at (λ l. node_at run l) locs loc state (sym (get-extend_nil _ loc) ∙ e))
      (node_at_shallow run loc)

run_depth_found :
    {G : Type 0} (h : RunHandle) (s : Runtime G) (run : RunAttemptState)
    → get s.runs (key h) ≡ some run
    → run_depth h s ≡ max_depth run.nodes
run_depth_found h s run e = rw (run_depth, e) refl

module _ {P : PortGraph} {J W : Type 0} (env : Services P J W) where
  pub collect_node_states-IsShallow :
      (context : Context J) (g : WorkflowGraph P J) (nodes : Nodes)
      → collect_node_states env context g ≡ ok nodes
      → IsShallow (run_depth env.run env.state) nodes
  unfolding collect_node_states read_many
  collect_node_states-IsShallow context g nodes h =
      let (run, e1, e2) = >>=-eq-ok (or_error _ (get env.state.runs (key env.run))) _ h in
      let found = or_error-eq-ok _ (get env.state.runs (key env.run)) e1 in
      rw (run_depth_found env.run env.state run found, ← ok-injective e2)
        (read-IsShallow run (map (with_node context.parent_loc) (node_ids P g)))

pub is_running-depth :
    (d : ℕ) (nodes : Nodes)
    → IsShallow d nodes
    → (loc : Location) → is_running nodes loc ≡ true
    → length loc ≤ d
unfolding is_running
is_running-depth d nodes shallow loc h = elim (Option-cases (get nodes loc)) [
  | inl e ↦ ground (arith, e, h)
  | inr (state, e) ↦ ground (arith, shallow loc state e, e, h)
]

pub loop_index_at-depth :
    (d : ℕ) (nodes : Nodes)
    → IsShallow d nodes
    → (loc : Location) (index : ℕ) → loop_index_at nodes loc ≡ some index
    → length loc ≤ d
unfolding loop_index_at
loop_index_at-depth d nodes shallow loc index h = elim (Option-cases (get nodes loc)) [
  | inl e ↦ ground (arith, e, h)
  | inr (state, e) ↦ ground (arith, shallow loc state e, e, h)
]

pub map_completed_at-depth :
    (d : ℕ) (nodes : Nodes)
    → IsShallow d nodes
    → (loc : Location) (completed : BitVec) → map_completed_at nodes loc ≡ some completed
    → length loc ≤ d
unfolding map_completed_at
map_completed_at-depth d nodes shallow loc completed h = elim (Option-cases (get nodes loc)) [
  | inl e ↦ ground (arith, e, h)
  | inr (state, e) ↦ ground (arith, shallow loc state e, e, h)
]
