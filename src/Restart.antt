-- ===== src/Restart.antt =====
-- `restart_task` of tierkreis/src/state/interface.rs, on the state of tierkreis/src/state/inmemory.rs.
-- The graph of a nested node is loaded by a parameter.
pub mod Sorted
pub mod Cleared
mod Tests
use tierkreis.Base.{
  ℕ, Bool, true, false, List, [], ◌∷◌, Outcome, ok, err, ◌>>=◌, if◌then◌else◌, ltb, nothing_errored,
}
use tierkreis.Bits.{BitOps}
use tierkreis.Location.{Location}
use tierkreis.Location.Text.{Text, show}
use tierkreis.Asset.{AssetSpec}
use tierkreis.State.{Time}
use tierkreis.State.Runtime.{
  Runtime, RunHandle, Summary, load_workflow, load_workflow_run_state, summary, read_many,
}
use tierkreis.State.Attempts.{new_attempt}
use tierkreis.Copy.{NodeCopyFilter, merge, copy_node_states_from}
use tierkreis.Graph.{PortGraph, WorkflowGraph}
use tierkreis.Query.{build_node_copy_filter}

-- texts are ordered byte by byte
abbrev pub text_before : Text → Text → Bool
text_before [] [] = false
text_before [] (b ∷ bs) = true
text_before (a ∷ as') [] = false
text_before (a ∷ as') (b ∷ bs) =
    let rest = text_before as' bs in if ltb a b then true else if ltb b a then false else rest

-- `sort_by_key(ToString::to_string)` keeps the order of equal texts
unfoldable pub insert_sorted : Location → List Location → List Location
insert_sorted loc [] = loc ∷ []
insert_sorted loc (l ∷ locs) =
    let rest = insert_sorted loc locs in
    if text_before (show l) (show loc) then l ∷ rest else loc ∷ l ∷ locs

unfoldable pub sort_locations : List Location → List Location
unfolding insert_sorted
sort_locations [] = []
sort_locations (loc ∷ locs) = insert_sorted loc (sort_locations locs)

-- `NodeCopyFilter::default()`
abbrev pub no_filter : NodeCopyFilter
no_filter = record {
  clear_roots = [];
  reset_loop_index = [];
  reset_map_elems = [];
  truncate_exact = [];
}

abbrev pub some_errored : Summary → Outcome (List Location)
some_errored found = elim found.errored_locations [
  | [] ↦ err nothing_errored
  | loc ∷ locs ↦ ok (loc ∷ locs)
]

-- the given locations, or all errored ones
unfoldable pub restart_locations :
    {G : Type 0} → RunHandle → List Location → Runtime G → Outcome (List Location)
restart_locations source [] s = summary source s >>= some_errored
restart_locations source (loc ∷ locs) s = ok (loc ∷ locs)

module _ {P : PortGraph} {J : Type 0} (bits : BitOps)
    (load_subgraph : AssetSpec → Outcome (WorkflowGraph P J)) where
  -- the merged filters of the locations
  unfoldable pub invalidate :
      WorkflowGraph P J
      → RunHandle
      → Runtime (WorkflowGraph P J)
      → List Location
      → NodeCopyFilter
      → Outcome NodeCopyFilter
  invalidate g source s [] invalidated = ok invalidated
  invalidate g source s (location ∷ locs) invalidated =
      build_node_copy_filter P bits (λ ls. read_many source ls s) load_subgraph g location
      >>= λ location_invalidated.
          invalidate g source s locs (merge bits invalidated location_invalidated)

  -- the new attempt, with what is copied into it
  unfoldable pub reopen :
      Time
      → ℕ
      → RunHandle
      → Runtime (WorkflowGraph P J)
      → NodeCopyFilter
      → Outcome (Runtime (WorkflowGraph P J) × (ℕ × List Location))
  unfolding sort_locations
  reopen now run_id source s invalidated = new_attempt run_id now s >>= λ opened.
      copy_node_states_from bits opened.1 source invalidated opened.0 >>= λ copied.
      ok (copied, (opened.1.attempt, sort_locations invalidated.clear_roots))

  -- what is invalidated in the workflow of the run
  unfoldable pub invalidated_by :
      RunHandle → Runtime (WorkflowGraph P J) → List Location → Outcome NodeCopyFilter
  unfolding invalidate
  invalidated_by source s locs = load_workflow s source.workflow_id >>= λ workflow.
      invalidate workflow.1 source s locs no_filter

  unfoldable pub restart_task :
      Time
      → ℕ
      → ℕ
      → List Location
      → Runtime (WorkflowGraph P J)
      → Outcome (Runtime (WorkflowGraph P J) × (ℕ × List Location))
  unfolding restart_locations invalidated_by reopen
  restart_task now run_id attempt locs s =
      let (loaded, source) = load_workflow_run_state run_id attempt s in
      restart_locations source locs loaded >>= λ chosen.
      invalidated_by source loaded chosen >>= λ invalidated.
      reopen now run_id source loaded invalidated
