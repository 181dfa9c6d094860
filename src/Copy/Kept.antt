-- ===== src/Copy/Kept.antt =====
-- Which locations a new attempt takes over, and what becomes of their states:
-- `copy_node_states_from` of tierkreis/src/state/inmemory.rs.
use mathlib.Core.Option
use tierkreis.Base.{
  ◌≡◌, ap, sym, ◌∙◌, refl, Bool, false, not, ◌||◌, Option, none, List, [], ◌∷◌, ◌==◌, arith,
  if◌then◌else◌, any, contains, ok, or_error, >>=-eq-ok, or_error-eq-ok, ok-injective,
  run_not_found, pair_eq, nat_eq, list_beq_iff, eq_refl, Bool_ext, contains-any, any-contains_comm,
  any_cong, any-or,
}
use tierkreis.Base.Map.{
  get, insert, get-extend, get_or_default-insert, later, get_or_default_of_some,
}
use tierkreis.Bits.{BitOps}
use tierkreis.Location.{Location, location_eq, component_eq, is_ancestor, node_ancestors}
use tierkreis.Location.Order.{node_ancestors_iff}
use tierkreis.State.{Nodes, Inputs, blank_run, RunAttemptState}
use tierkreis.State.Runtime.{RunKey, Runtime, RunHandle, key, run_at}
use tierkreis.Copy.{
  NodeCopyFilter, copied, copy_state, copy_nodes, copy_inputs, receive, copy_node_states_from,
}

-- a root covers itself and all that lies under it
abbrev pub under : List Location → Location → Bool
under roots loc = any (λ root. root == loc || is_ancestor root loc) roots

contains_ancestors :
    (loc root : Location) → contains (node_ancestors loc) root ≡ is_ancestor root loc
contains_ancestors loc root = Bool_ext _ _ (node_ancestors_iff root loc)

-- what is copied stands under no cleared root
pub copied_lem :
    (filter : NodeCopyFilter) (loc : Location)
    → copied filter loc ≡ not (under filter.clear_roots loc)
unfolding copied
copied_lem filter loc =
    let roots = filter.clear_roots in
    ground (
      arith,
      contains-any roots loc,
      any-contains_comm roots (node_ancestors loc),
      any_cong (λ root. contains (node_ancestors loc) root) (λ root. is_ancestor root loc) roots
          (contains_ancestors loc),
      any-or (λ root. root == loc) (λ root. is_ancestor root loc) roots,
    )

module _ (bits : BitOps) (filter : NodeCopyFilter) where
  get-copy_nodes :
      (nodes : Nodes) (loc : Location)
      → get (copy_nodes bits filter nodes) loc ≡ (
          if copied filter loc
          then Option.map (copy_state bits filter loc) (get nodes loc)
          else none)
  unfolding copy_nodes get
  get-copy_nodes [] loc = ground arith
  get-copy_nodes ((l, state) ∷ nodes) loc =
      ground (arith, get-copy_nodes nodes loc, list_beq_iff component_eq l loc)

  get-copy_inputs :
      (inputs : Inputs) (loc : Location)
      → get (copy_inputs filter inputs) loc ≡ (if copied filter loc then get inputs loc else none)
  unfolding copy_inputs get
  get-copy_inputs [] loc = ground arith
  get-copy_inputs ((l, assets) ∷ inputs) loc =
      ground (arith, get-copy_inputs inputs loc, list_beq_iff component_eq l loc)

  received :
      {G : Type 0} (target source : RunHandle) (s : Runtime G) {s' : Runtime G}
      → copy_node_states_from bits target source filter s ≡ ok s'
      → (run : RunAttemptState) × (run_at s (key source) ≡ run)
        × (run_at s' (key target) ≡ receive bits filter run (run_at s (key target)))
  unfolding copy_node_states_from
  received target source s h =
      let k = key target in
      let (run, found, stored) =
        >>=-eq-ok (or_error run_not_found (get s.runs (key source)))
          (λ source_run.
            ok (record s { runs = insert s.runs k (receive bits filter source_run (run_at s k)) }))
          h in
      (
        run,
        get_or_default_of_some blank_run s.runs (key source) (or_error-eq-ok run_not_found _ found),
        ap (λ t. run_at t k) (sym (ok-injective stored))
            ∙ get_or_default-insert blank_run s.runs k k (receive bits filter run (run_at s k))
            ∙ rw (eq_refl k),
      )

  -- what is found after `receive`
  abbrev taken {ℓ} : {V : Type ℓ} → Location → Option V → Option V
  taken loc found = if under filter.clear_roots loc then none else found

  nodes_of_receive :
      (source run : RunAttemptState) (loc : Location)
      → get (receive bits filter source run).nodes loc
        ≡ later
            (get run.nodes loc)
            (taken loc (Option.map (copy_state bits filter loc) (get source.nodes loc)))
  unfolding receive
  nodes_of_receive source run loc = ground (
    arith,
    get-extend run.nodes (copy_nodes bits filter source.nodes) loc,
    get-copy_nodes source.nodes loc,
    copied_lem filter loc,
  )

  inputs_of_receive :
      (source run : RunAttemptState) (loc : Location)
      → get (receive bits filter source run).inputs loc
        ≡ later (get run.inputs loc) (taken loc (get source.inputs loc))
  unfolding receive
  inputs_of_receive source run loc = ground (
    arith,
    get-extend run.inputs (copy_inputs filter source.inputs) loc,
    get-copy_inputs source.inputs loc,
    copied_lem filter loc,
  )

  -- the runs that nothing is copied into
  pub run_at-copy_other :
      {G : Type 0} (target source : RunHandle) (s : Runtime G) {s' : Runtime G} (k : RunKey)
      → copy_node_states_from bits target source filter s ≡ ok s'
      → key target == k ≡ false
      → run_at s' k ≡ run_at s k
  unfolding copy_node_states_from
  run_at-copy_other target source s k h other =
      let j = key target in
      let (run, found, stored) =
        >>=-eq-ok (or_error run_not_found (get s.runs (key source)))
          (λ source_run.
            ok (record s { runs = insert s.runs j (receive bits filter source_run (run_at s j)) }))
          h in
      ap (λ t. run_at t k) (sym (ok-injective stored))
      ∙ get_or_default-insert blank_run s.runs j k (receive bits filter run (run_at s j))
      ∙ rw other refl

  -- Copying into a run adds, at each location outside the cleared ones, the state and the inputs
  -- that the source has there: the inputs as they are, the state as `copy_state` resets it. All other
  -- entries of the run stay.
  pub copy_node_states_from_lem :
      {G : Type 0} (target source : RunHandle) (s : Runtime G) {s' : Runtime G} (loc : Location)
      → copy_node_states_from bits target source filter s ≡ ok s'
      → (get (run_at s' (key target)).nodes loc
          ≡ later (get (run_at s (key target)).nodes loc) (
              if under filter.clear_roots loc
              then none
              else Option.map (copy_state bits filter loc) (get (run_at s (key source)).nodes loc)))
        × (get (run_at s' (key target)).inputs loc
            ≡ later (get (run_at s (key target)).inputs loc) (
                if under filter.clear_roots loc
                then none
                else get (run_at s (key source)).inputs loc))
  copy_node_states_from_lem target source s {s'} loc h =
      let (run, found, after) = received target source s h in
      rw (after, found)
        (
          nodes_of_receive run (run_at s (key target)) loc,
          inputs_of_receive run (run_at s (key target)) loc,
        )
