-- ===== src/State/Runtime/Unpause.antt =====
-- `unpause` of tierkreis/src/state/inmemory.rs and `unpause_nodes` of
-- tierkreis/src/state/interface.rs.
use tierkreis.Base.{
  ◌≡◌, refl, ap, ◌∙◌, sym, false, not, ◌&&◌, List, [], ◌∷◌, arith, if◌then◌else◌, pair_eq, nat_eq,
  contains, ok, list_beq_iff, eq_refl, ℕ,
}
use tierkreis.Base.Map.{get, insert, get_or_default, get_or_default-insert, get-insert_self}
use tierkreis.Location.{Location, location_eq, component_eq}
use tierkreis.State.{Time, NodeState, Nodes, blank, is_paused, blank_run}
use tierkreis.State.Handle.{node_at}
use tierkreis.State.Runtime.{
  Runtime, RunHandle, key, paused_locations, unpause_all, set_unpaused, unpause, unpause_given,
  unpause_nodes, run_at, load_workflow_run_state, summary,
}

set_unpaused_idem :
    (now : Time) (n : NodeState) → set_unpaused now (set_unpaused now n) ≡ set_unpaused now n
unfolding set_unpaused
set_unpaused_idem now n = refl

set_unpaused-is_paused : (now : Time) (n : NodeState) → is_paused (set_unpaused now n) ≡ false
unfolding set_unpaused is_paused
set_unpaused-is_paused now n = ground arith

-- the given locations are unpaused, and no other changes
pub unpause_all_lem :
    (now : Time) (locs : List Location) (nodes : Nodes) (loc : Location)
    → get_or_default blank (unpause_all now locs nodes) loc ≡ (
        if contains locs loc
        then set_unpaused now (get_or_default blank nodes loc)
        else get_or_default blank nodes loc)
unfolding unpause_all
unpause_all_lem now [] nodes loc = refl
unpause_all_lem now (l ∷ locs) nodes loc =
    let node = set_unpaused now (get_or_default blank nodes l) in
    ground (
      arith,
      unpause_all_lem now locs (insert nodes l node) loc,
      get_or_default-insert blank nodes l loc node,
      list_beq_iff component_eq l loc,
      set_unpaused_idem now (get_or_default blank nodes loc),
    )

-- a node that is paused is listed
paused_locations_complete :
    (nodes : Nodes) (loc : Location)
    → contains (paused_locations nodes) loc ≡ false
    → is_paused (get_or_default blank nodes loc) ≡ false
unfolding get_or_default get is_paused
paused_locations_complete [] loc h = refl
paused_locations_complete ((l, node) ∷ nodes) loc h =
    ground (arith, paused_locations_complete nodes loc, list_beq_iff component_eq l loc)

module _ {G : Type 0} (now : Time) (h : RunHandle) where
  run_at-unpause :
      (s : Runtime G) (locs : List Location)
      → run_at (unpause now h locs s) (key h)
        ≡ record (run_at s (key h)) { nodes = unpause_all now locs (run_at s (key h)).nodes }
  unfolding unpause unpause_all
  run_at-unpause s [] = rw (get_or_default-insert, eq_refl (key h))
  run_at-unpause s (loc ∷ locs) = rw (get_or_default-insert, eq_refl (key h))

  -- Unpausing sets the unpaused time of exactly the given locations, and a node is paused afterwards
  -- exactly if it was before and is not among them.
  pub unpause_lem :
      (s : Runtime G) (locs : List Location) (loc : Location)
      → (node_at (run_at (unpause now h locs s) (key h)) loc ≡ (
          if contains locs loc
          then set_unpaused now (node_at (run_at s (key h)) loc)
          else node_at (run_at s (key h)) loc))
        × (is_paused (node_at (run_at (unpause now h locs s) (key h)) loc)
            ≡ (not (contains locs loc) && is_paused (node_at (run_at s (key h)) loc)))
  unpause_lem s locs loc =
      let nodes = (run_at s (key h)).nodes in
      let found =
        ap (λ r. node_at r loc) (run_at-unpause s locs) ∙ unpause_all_lem now locs nodes loc in
      (
        found,
        ap is_paused found
            ∙ ground (arith, set_unpaused-is_paused now (get_or_default blank nodes loc)),
      )

-- loading a run does not change what is found at it
run_at-load :
    {G : Type 0} (run_id attempt : ℕ) (s : Runtime G)
    → run_at (load_workflow_run_state run_id attempt s).0 (run_id, attempt)
      ≡ run_at s (run_id, attempt)
unfolding load_workflow_run_state
run_at-load run_id attempt s =
    get_or_default-insert blank_run s.runs (run_id, attempt) (run_id, attempt)
      (run_at s (run_id, attempt))
    ∙ rw (eq_refl ⦃e = pair_eq ⦃ea = nat_eq⦄ ⦃eb = nat_eq⦄⦄ (run_id, attempt))

key-load :
    {G : Type 0} (run_id attempt : ℕ) (s : Runtime G)
    → key (load_workflow_run_state run_id attempt s).1 ≡ (run_id, attempt)
unfolding load_workflow_run_state
key-load run_id attempt s = refl

unpause_nodes-eq-given :
    {G : Type 0} (now : Time) (run_id attempt : ℕ) (s : Runtime G)
    → unpause_nodes now run_id attempt [] s
      ≡ unpause_given now
          (load_workflow_run_state run_id attempt s).1
          (paused_locations (run_at s (run_id, attempt)).nodes)
          (load_workflow_run_state run_id attempt s).0
unfolding unpause_nodes load_workflow_run_state summary
unpause_nodes-eq-given now run_id attempt s =
    rw (get-insert_self s.runs (run_id, attempt) (run_at s (run_id, attempt)))

unpause_given-eq-ok :
    {G : Type 0} (now : Time) (h : RunHandle) (locs : List Location) (s : Runtime G)
    {s' : Runtime G} {given : List Location}
    → unpause_given now h locs s ≡ ok (s', given)
    → (s' ≡ unpause now h locs s) × (given ≡ locs)
unpause_given-eq-ok now h [] s e = cc
unpause_given-eq-ok now h (loc ∷ locs) s e = (cc, cc)

-- If `unpause_nodes` with no locations succeeds, then no node of the run is paused any more.
pub unpause_nodes-all :
    {G : Type 0} (now : Time) (run_id attempt : ℕ) (s : Runtime G) {s' : Runtime G}
    {given : List Location} (loc : Location)
    → unpause_nodes now run_id attempt [] s ≡ ok (s', given)
    → is_paused (node_at (run_at s' (run_id, attempt)) loc) ≡ false
unpause_nodes-all now run_id attempt s {s'} loc e =
    let (loaded, h) = load_workflow_run_state run_id attempt s in
    let listed = paused_locations (run_at s (run_id, attempt)).nodes in
    let (done, _) =
      unpause_given-eq-ok now h listed loaded
        (sym (unpause_nodes-eq-given now run_id attempt s) ∙ e) in
    let (_, after) = unpause_lem now h loaded listed loc in
    let k = key-load run_id attempt s in
    let at_key =
      ap (λ t. is_paused (node_at (run_at t (run_id, attempt)) loc)) done
      ∙ ap (λ j. is_paused (node_at (run_at (unpause now h listed loaded) j) loc)) (sym k) in
    let before =
      ap (λ j. is_paused (node_at (run_at loaded j) loc)) k
      ∙ ap (λ r. is_paused (node_at r loc)) (run_at-load run_id attempt s) in
    at_key
    ∙ after
    ∙ ground (arith, before, paused_locations_complete (run_at s (run_id, attempt)).nodes loc)
