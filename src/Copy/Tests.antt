-- ===== src/Copy/Tests.antt =====
-- Examples of the theorems on the filters and the copying of node states
-- (tierkreis/src/workflow_state_query.rs and tierkreis/src/state/inmemory.rs).
use mathlib.Core.Option
use tierkreis.Base.{
  ℕ, ◌≡◌, refl, true, false, not, ◌||◌, none, some, [], ◌∷◌, arith, if◌then◌else◌, zero, suc,
  pair_eq, nat_eq, list_eq,
}
use tierkreis.Base.Map.{get, later, insert, get_or_default, extend}
use tierkreis.Bits.{BitVec, bit}
use tierkreis.Bits.Plain.{plain_ops, plain_laws}
use tierkreis.Location.{Location, node, map_index, component_eq, location_eq}
use tierkreis.State.{NodeState, blank, blank_run}
use tierkreis.State.Runtime.{Runtime, RunHandle, key, run_at}
use tierkreis.Copy.{NodeCopyFilter, copy_state, copy_node_states_from}
use tierkreis.Copy.Kept.{under, copy_node_states_from_lem}
use tierkreis.Copy.Elements.{copy_state_completes}

abbrev mapped : Location
mapped = node 2 ∷ []

-- the restart of element 1 of a map node with two elements
abbrev element_filter : NodeCopyFilter
element_filter = record {
  clear_roots = (node 2 ∷ map_index 1 ∷ []) ∷ (node 4 ∷ []) ∷ [];
  reset_loop_index = [];
  reset_map_elems = (mapped, false ∷ true ∷ []) ∷ [];
  truncate_exact = mapped ∷ [];
}

abbrev other_filter : NodeCopyFilter
other_filter = record {
  clear_roots = (node 4 ∷ []) ∷ [];
  reset_loop_index = (node 5 ∷ [], 3) ∷ [];
  reset_map_elems = (mapped, true ∷ []) ∷ [];
  truncate_exact = [];
}

abbrev all_complete : NodeState
all_complete = record blank { map_completed = some (true ∷ true ∷ []) }

abbrev failed_element : NodeState
failed_element = record blank { map_completed = some (true ∷ false ∷ []) }

mask-within : (j : ℕ) → (not (bit (false ∷ true ∷ []) j) || bit (true ∷ true ∷ []) j) ≡ true
mask-within zero = refl
mask-within (suc zero) = refl
mask-within (suc (suc j)) = refl

copy_state_completes_example :
    (m' : BitVec) × ((copy_state plain_ops element_filter mapped failed_element).map_completed
      ≡ some m')
    × (bit m' 1 ≡ true)
unfolding get
copy_state_completes_example =
    copy_state_completes plain_ops plain_laws element_filter mapped failed_element
      (true ∷ false ∷ []) (false ∷ true ∷ []) 1 refl refl (omega arith) refl refl

abbrev source : RunHandle
source = record { workflow_id = 1; run_id = 9; attempt = 0 }

abbrev target : RunHandle
target = record { workflow_id = 1; run_id = 9; attempt = 1 }

abbrev runtime : Runtime ℕ
runtime = record {
  workflows = [];
  runs =
      ((9, 0), record blank_run { nodes = (mapped, all_complete) ∷ (node 4 ∷ [], blank) ∷ [] })
      ∷ ((9, 1), blank_run)
      ∷ [];
  active_runs = [];
}

abbrev received : Runtime ℕ
received = record runtime {
  runs =
      ((9, 0), record blank_run { nodes = (mapped, all_complete) ∷ (node 4 ∷ [], blank) ∷ [] })
      ∷ (
        (9, 1),
        record blank_run {
          nodes = (mapped, copy_state plain_ops element_filter mapped all_complete) ∷ [];
        },
      )
      ∷ [];
}

copy_node_states_from_lem_example :
    (get (run_at received (key target)).nodes mapped
      ≡ later (get (run_at runtime (key target)).nodes mapped) (
          if under element_filter.clear_roots mapped
          then none
          else Option.map
              (copy_state plain_ops element_filter mapped)
              (get (run_at runtime (key source)).nodes mapped)))
    × (get (run_at received (key target)).inputs mapped
        ≡ later (get (run_at runtime (key target)).inputs mapped) (
            if under element_filter.clear_roots mapped
            then none
            else get (run_at runtime (key source)).inputs mapped))
unfolding copy_node_states_from get get_or_default insert extend
copy_node_states_from_lem_example =
    copy_node_states_from_lem plain_ops element_filter target source runtime mapped refl
