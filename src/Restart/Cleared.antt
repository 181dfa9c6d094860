-- ===== src/Restart/Cleared.antt =====
-- What the attempt holds that `restart_task` of tierkreis/src/state/interface.rs opens.
use mathlib.Core.Option
use tierkreis.Base.{
  ℕ, suc, ◌<◌, ◌≤◌, ◌≡◌, refl, sym, ap, ◌∙◌, true, false, ◌||◌, none, List, [], ◌∷◌, arith, Outcome,
  ok, ◌>>=◌, >>=-eq-ok, ok-injective, contains, length, if◌then◌else◌, ◌==◌, nat_eq, pair_eq,
  pair_beq_iff, list_beq_iff,
}
use tierkreis.Base.Map.{Map, get, insert, get-insert}
use tierkreis.Bits.{BitOps}
use tierkreis.Location.{Location, location_eq, component_eq, is_ancestor, u32_size}
use tierkreis.Asset.{AssetSpec}
use tierkreis.State.{Time, RunAttemptState}
use tierkreis.State.Runtime.{
  Runtime, RunHandle, RunKey, key, run_at, load_workflow, load_workflow_run_state, read_many,
}
use tierkreis.State.Attempts.{new_attempt}
use tierkreis.State.Attempts.Fresh.{Continues, run_at-load_any, new_attempt_lem}
use tierkreis.Copy.{NodeCopyFilter, merge, copy_state, copy_node_states_from}
use tierkreis.Copy.Kept.{under, run_at-copy_other, copy_node_states_from_lem}
use tierkreis.Copy.Merge.{contains-union}
use tierkreis.Graph.{PortGraph, WorkflowGraph}
use tierkreis.Query.{build_node_copy_filter}
use tierkreis.Query.Clears.{clears_location}
use tierkreis.Restart.{
  restart_locations, sort_locations, invalidate, invalidated_by, reopen, restart_task, no_filter,
}
use tierkreis.Restart.Sorted.{
  contains-sort_locations, in_order, in_order-sort_locations, any-sort_locations,
}

contains-merge :
    (bits : BitOps) (f g : NodeCopyFilter) (loc : Location)
    → contains (merge bits f g).clear_roots loc
      ≡ (contains f.clear_roots loc || contains g.clear_roots loc)
unfolding merge
contains-merge bits f g loc = contains-union f.clear_roots g.clear_roots loc

-- whatever is below a cleared root is cleared
under_of_contains :
    (roots : List Location) (root loc : Location)
    → contains roots root ≡ true
    → (root == loc || is_ancestor root loc) ≡ true
    → under roots loc ≡ true
under_of_contains [] root loc h k = ground (arith, h)
under_of_contains (r ∷ roots) root loc h k =
    let same : r ≡ root → (r == loc || is_ancestor r loc) ≡ true = λ e. rw e k in
    ground (arith, h, same, list_beq_iff component_eq r root, under_of_contains roots root loc)

-- a run that is missing after another was loaded was missing before, and is not that one
missing-load :
    {G : Type 0} (run_id attempt : ℕ) (s : Runtime G) (k : RunKey)
    → get (load_workflow_run_state run_id attempt s).0.runs k ≡ none
    → (get s.runs k ≡ none) × ((k == (run_id, attempt)) ≡ false)
unfolding load_workflow_run_state
missing-load run_id attempt s k h = ground (
  arith,
  h,
  get-insert s.runs (run_id, attempt) k (run_at s (run_id, attempt)),
  pair_beq_iff nat_eq nat_eq (run_id, attempt) k,
  pair_beq_iff nat_eq nat_eq k (run_id, attempt),
)

key-load :
    {G : Type 0} (run_id attempt : ℕ) (s : Runtime G)
    → key (load_workflow_run_state run_id attempt s).1 ≡ (run_id, attempt)
unfolding load_workflow_run_state
key-load run_id attempt s = refl

length-insert :
    {V : Type 0} (m : Map RunKey V) (k : RunKey) (v : V) → length (insert m k v) ≤ suc (length m)
unfolding insert
length-insert [] k v = omega arith
length-insert ((j, w) ∷ m) k v = ground (arith, length-insert m k v)

length-load :
    {G : Type 0} (run_id attempt : ℕ) (s : Runtime G)
    → length (load_workflow_run_state run_id attempt s).0.runs ≤ suc (length s.runs)
unfolding load_workflow_run_state
length-load run_id attempt s = length-insert s.runs (run_id, attempt) (run_at s (run_id, attempt))

module _ {P : PortGraph} {J : Type 0} (bits : BitOps)
    (load_subgraph : AssetSpec → Outcome (WorkflowGraph P J)) where
  invalidate_lem :
      (g : WorkflowGraph P J) (source : RunHandle) (s : Runtime (WorkflowGraph P J))
      (locs : List Location) (acc f : NodeCopyFilter) (loc : Location)
      → invalidate bits load_subgraph g source s locs acc ≡ ok f
      → (contains acc.clear_roots loc || contains locs loc) ≡ true
      → contains f.clear_roots loc ≡ true
  unfolding invalidate
  invalidate_lem g source s [] acc f loc h c = ground (arith, ok-injective h, c)
  invalidate_lem g source s (l ∷ locs) acc f loc h c =
      let (fl, e1, e2) =
        >>=-eq-ok (build_node_copy_filter P bits (λ ls. read_many source ls s) load_subgraph g l)
          (λ fl. invalidate bits load_subgraph g source s locs (merge bits acc fl)) h in
      let cleared = clears_location bits (λ ls. read_many source ls s) load_subgraph l l g e1 in
      let same : l ≡ loc → contains fl.clear_roots loc ≡ true = λ e. rw (← e) cleared in
      invalidate_lem g source s locs (merge bits acc fl) f loc e2
        (ground (arith, c, same, contains-merge bits acc fl loc, list_beq_iff component_eq l loc))

  invalidated_by_lem :
      (source : RunHandle) (s : Runtime (WorkflowGraph P J)) (locs : List Location)
      (f : NodeCopyFilter) (loc : Location)
      → invalidated_by bits load_subgraph source s locs ≡ ok f
      → contains locs loc ≡ true
      → contains f.clear_roots loc ≡ true
  unfolding invalidated_by
  invalidated_by_lem source s locs f loc h c =
      let (workflow, e1, e2) =
        >>=-eq-ok (load_workflow s source.workflow_id)
          (λ workflow. invalidate bits load_subgraph workflow.1 source s locs no_filter) h in
      invalidate_lem workflow.1 source s locs no_filter f loc e2 c

  -- what `restart_task` leaves: `n` is the attempt before the new one
  pub record Restarted (s s' : Runtime (WorkflowGraph P J)) (run_id attempt : ℕ)
      (chosen cleared : List Location) (n : ℕ) (f : NodeCopyFilter) : Type 0 where
    pub missing : get s.runs (run_id, suc n) ≡ none
    pub sorted : in_order cleared ≡ true
    pub restarted : (loc : Location) → contains chosen loc ≡ true → contains cleared loc ≡ true
    pub nodes :
        (loc : Location)
        → get (run_at s' (run_id, suc n)).nodes loc ≡ (
            if under cleared loc
            then none
            else Option.map (copy_state bits f loc) (get (run_at s (run_id, attempt)).nodes loc))
    pub others : (k : RunKey) → (run_id, suc n) == k ≡ false → run_at s' k ≡ run_at s k

  module _ (now : Time) (run_id attempt : ℕ) (s : Runtime (WorkflowGraph P J)) where
    abbrev loaded : Runtime (WorkflowGraph P J)
    loaded = (load_workflow_run_state run_id attempt s).0

    abbrev source : RunHandle
    source = (load_workflow_run_state run_id attempt s).1

    after_copy :
        (chosen : List Location) (f : NodeCopyFilter)
        (opened : Runtime (WorkflowGraph P J) × RunHandle) (s' : Runtime (WorkflowGraph P J))
        → invalidated_by bits load_subgraph source loaded chosen ≡ ok f
        → (n : ℕ) (prev : RunAttemptState) → Continues run_id now loaded opened.0 opened.1 n prev
        → copy_node_states_from bits opened.1 source f opened.0 ≡ ok s'
        → Restarted s s' run_id attempt chosen (sort_locations f.clear_roots) n f
    unfolding get
    after_copy chosen f opened s' invalidated n prev c copied =
        let (missing, new_key) = missing-load run_id attempt s (run_id, suc n) c.fresh in
        let unchanged : (k : RunKey)
            → (run_id, suc n) == k ≡ false
            → run_at opened.0 k ≡ run_at s k =
          λ k other. c.others k ∙ rw other (run_at-load_any run_id now s attempt k) in
        record {
          missing = missing;
          sorted = in_order-sort_locations f.clear_roots;
          restarted = λ loc h.
              contains-sort_locations loc f.clear_roots
              ∙ invalidated_by_lem source loaded chosen f loc invalidated h;
          nodes = λ loc.
              let (nodes_at, _) =
                copy_node_states_from_lem bits f opened.1 source opened.0 loc copied in
              ground (
                arith,
                rw
                    (
                      c.handle,
                      c.nodes,
                      key-load run_id attempt s,
                      unchanged (run_id, attempt) new_key,
                      ← any-sort_locations (λ root. root == loc || is_ancestor root loc)
                          f.clear_roots,
                    )
                    at nodes_at,
              );
          others = λ k other.
              run_at-copy_other bits f opened.1 source opened.0 k copied
                (ap (λ (j : RunKey). j == k) c.handle ∙ other)
              ∙ unchanged k other;
        }

    reopen_lem :
        (chosen : List Location) (f : NodeCopyFilter) (cleared : List Location) (next : ℕ)
        (s' : Runtime (WorkflowGraph P J))
        → suc (length s.runs) < u32_size
        → invalidated_by bits load_subgraph source loaded chosen ≡ ok f
        → reopen bits load_subgraph now run_id source loaded f ≡ ok (s', (next, cleared))
        → (n : ℕ) × (next ≡ suc n) × Restarted s s' run_id attempt chosen cleared n f
    unfolding reopen
    reopen_lem chosen f cleared next s' small invalidated h =
        let (opened, e1, h1) =
          >>=-eq-ok (new_attempt run_id now loaded)
            (λ opened. copy_node_states_from bits opened.1 source f opened.0 >>= λ copied.
              ok (copied, (opened.1.attempt, sort_locations f.clear_roots)))
            h in
        let (copied, e2, h2) =
          >>=-eq-ok (copy_node_states_from bits opened.1 source f opened.0)
            (λ copied. ok (copied, (opened.1.attempt, sort_locations f.clear_roots))) h1 in
        let (n, prev, c) =
          new_attempt_lem run_id now loaded {p = opened}
            (omega (arith, small, length-load run_id attempt s)) e1 in
        let done : (copied, (opened.1.attempt, sort_locations f.clear_roots))
            ≡ (s', (next, cleared)) =
          ok-injective h2 in
        (
          n,
          ap (λ r. r.1.0) (sym done) ∙ ap (λ k. k.1) c.handle,
          rw (ap (λ r. r.0) (sym done), ap (λ r. r.1.1) (sym done))
              (after_copy chosen f opened copied invalidated n prev c e2),
        )

    -- A restart that succeeds, where fewer than 2^32 - 1 runs are kept, opens an attempt that was not
    -- there. Of the states of the source attempt it takes over those outside the locations that it
    -- returns and what lies below them, as `copy_state` resets them, and nothing else; the returned
    -- locations are sorted by their texts, and all that were to be restarted, which are the errored
    -- ones when none are given, are among them; every other run stays as it was.
    pub restart_task_lem :
        (locs cleared : List Location) (next : ℕ) (s' : Runtime (WorkflowGraph P J))
        → suc (length s.runs) < u32_size
        → restart_task bits load_subgraph now run_id attempt locs s ≡ ok (s', (next, cleared))
        → (chosen : List Location) × (n : ℕ) × (f : NodeCopyFilter) × (restart_locations source locs
              loaded
            ≡ ok chosen)
          × (next ≡ suc n)
          × Restarted s s' run_id attempt chosen cleared n f
    unfolding restart_task
    restart_task_lem locs cleared next s' small h =
        let (chosen, e1, h1) =
          >>=-eq-ok (restart_locations source locs loaded)
            (λ chosen. invalidated_by bits load_subgraph source loaded chosen >>= λ f.
              reopen bits load_subgraph now run_id source loaded f)
            h in
        let (f, e2, h2) =
          >>=-eq-ok (invalidated_by bits load_subgraph source loaded chosen)
            (λ f. reopen bits load_subgraph now run_id source loaded f) h1 in
        let (n, same, r) = reopen_lem chosen f cleared next s' small e2 h2 in
        (chosen, n, f, e1, same, r)
