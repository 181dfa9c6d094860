-- ===== src/Copy.antt =====
-- `NodeCopyFilter` of tierkreis/src/workflow_state_query.rs, and `copy_node_states_from` of
-- tierkreis/src/state/inmemory.rs, which starts a new attempt from the states of an earlier one.
pub mod Merge
pub mod Kept
pub mod Elements
mod Tests
use tierkreis.Base.{
  ℕ, Bool, true, false, not, ◌&&◌, Option, none, some, List, [], ◌∷◌, ◌==◌, if◌then◌else◌, ltb, add,
  any, contains, length, Outcome, ok, or_error, ◌>>=◌, run_not_found, pair_eq, nat_eq,
}
use tierkreis.Base.Map.{Map, get, insert, extend}
use tierkreis.Bits.{BitVec, BitOps}
use tierkreis.Location.{Location, location_eq, node_ancestors}
use tierkreis.Asset.{Assets}
use tierkreis.State.{NodeState, Nodes, Inputs, RunAttemptState}
use tierkreis.State.Runtime.{Runtime, RunHandle, key, run_at}

pub record NodeCopyFilter : Type 0 where
  pub clear_roots : List Location
  pub reset_loop_index : Map Location ℕ
  pub reset_map_elems : Map Location BitVec
  pub truncate_exact : List Location

-- `HashSet::extend`
unfoldable pub union : List Location → List Location → List Location
union xs [] = xs
union xs (y ∷ ys) = union (add y xs) ys

-- `entry(loc).and_modify(..).or_insert(index)`: the smaller index
unfoldable pub lower_index : Map Location ℕ → Location → ℕ → Map Location ℕ
lower_index m loc index = elim (get m loc) [
  | none ↦ insert m loc index
  | some existing ↦ insert m loc (if ltb index existing then index else existing)
]

unfoldable pub merge_indices : Map Location ℕ → Map Location ℕ → Map Location ℕ
unfolding lower_index
merge_indices m [] = m
merge_indices m ((loc, index) ∷ rest) = merge_indices (lower_index m loc index) rest

module _ (bits : BitOps) where
  -- the longer length, and the elements of both
  unfoldable pub join_bits : BitVec → BitVec → BitVec
  join_bits existing bitset =
      bits.bitor_assign
        (if ltb (length existing) (length bitset)
          then bits.resize existing (length bitset)
          else existing)
        bitset

  unfoldable pub add_elems : Map Location BitVec → Location → BitVec → Map Location BitVec
  unfolding join_bits
  add_elems m loc bitset = elim (get m loc) [
    | none ↦ insert m loc bitset
    | some existing ↦ insert m loc (join_bits existing bitset)
  ]

  unfoldable pub merge_elems : Map Location BitVec → Map Location BitVec → Map Location BitVec
  unfolding add_elems
  merge_elems m [] = m
  merge_elems m ((loc, bitset) ∷ rest) = merge_elems (add_elems m loc bitset) rest

  unfoldable pub merge : NodeCopyFilter → NodeCopyFilter → NodeCopyFilter
  unfolding union merge_indices merge_elems
  merge self other = record {
    clear_roots = union self.clear_roots other.clear_roots;
    reset_loop_index = merge_indices self.reset_loop_index other.reset_loop_index;
    reset_map_elems = merge_elems self.reset_map_elems other.reset_map_elems;
    truncate_exact = union self.truncate_exact other.truncate_exact;
  }

-- neither the location nor one of its ancestors is cleared
unfoldable pub copied : NodeCopyFilter → Location → Bool
unfolding node_ancestors
copied filter loc =
    not (contains filter.clear_roots loc)
    && not (any (λ ancestor. contains filter.clear_roots ancestor) (node_ancestors loc))

unfoldable pub truncate : NodeState → NodeState
truncate state = record state {
  scheduled_time = none;
  queued_time = none;
  running_time = none;
  complete_time = none;
  cancelled_time = none;
  error_time = none;
  outputs = none;
  error = none;
  error_detail = none;
  handle = none;
}

unfoldable pub reset_loop : Option ℕ → NodeState → NodeState
reset_loop none state = state
reset_loop (some index) state = record state { loop_index = some index }

unfoldable pub reset_elems : BitOps → Option BitVec → NodeState → NodeState
reset_elems bits none state = state
reset_elems bits (some bitset) state = elim state.map_completed [
  | none ↦ state
  | some map_completed ↦ record state {
    map_completed = some (bits.bitxor_assign map_completed bitset);
  }
]

module _ (bits : BitOps) (filter : NodeCopyFilter) where
  unfoldable pub copy_state : Location → NodeState → NodeState
  unfolding truncate reset_loop reset_elems
  copy_state loc state = reset_elems bits (get filter.reset_map_elems loc) (
      reset_loop (get filter.reset_loop_index loc)
        (if contains filter.truncate_exact loc then truncate state else state))

  unfoldable pub copy_nodes : Nodes → Nodes
  unfolding copy_state copied
  copy_nodes [] = []
  copy_nodes ((loc, state) ∷ nodes) =
      let rest = copy_nodes nodes in
      if copied filter loc then (loc, copy_state loc state) ∷ rest else rest

unfoldable pub copy_inputs : NodeCopyFilter → Inputs → Inputs
unfolding copied
copy_inputs filter [] = []
copy_inputs filter ((loc, assets) ∷ inputs) =
    let rest = copy_inputs filter inputs in if copied filter loc then (loc, assets) ∷ rest else rest

-- the target run with what it takes over
unfoldable pub receive :
    BitOps → NodeCopyFilter → RunAttemptState → RunAttemptState → RunAttemptState
unfolding copy_nodes copy_inputs
receive bits filter source_run run = record run {
  nodes = extend run.nodes (copy_nodes bits filter source_run.nodes);
  inputs = extend run.inputs (copy_inputs filter source_run.inputs);
}

unfoldable pub copy_node_states_from :
    {G : Type 0} → BitOps → RunHandle → RunHandle → NodeCopyFilter → Runtime G → Outcome (Runtime G)
unfolding receive
copy_node_states_from bits target source filter s =
    or_error run_not_found (get s.runs (key source)) >>= λ source_run. ok (record s {
      runs = insert s.runs (key target) (receive bits filter source_run (run_at s (key target)));
    })
