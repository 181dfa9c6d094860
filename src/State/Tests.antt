-- ===== src/State/Tests.antt =====
-- Examples of the theorems on the state of runs (tierkreis/src/state/inmemory.rs).
use tierkreis.Base.{
  ℕ, ◌<◌, ◌≡◌, ◌≢◌, refl, true, false, not, ◌&&◌, none, some, List, [], ◌∷◌, arith, if◌then◌else◌,
  contains, length, Outcome, ok, err, panic, pair_eq, nat_eq,
}
use tierkreis.Base.Map.{get, insert, get_or_default}
use tierkreis.Bits.Plain.{plain_ops, plain_laws}
use tierkreis.Location.{Location, node, component_eq, location_eq, u32_size, with_map_index}
use tierkreis.Event.{NodeStatus, NodeEvent, node_events, completed, map_started, map_elem_complete}
use tierkreis.Event.Send.{node_event}
use tierkreis.State.{RunAttemptState, blank_run, is_paused}
use tierkreis.State.Handle.{handle_node_events, node_at, insert_input_sets}
use tierkreis.State.Handle.Keeps.{Keeps}
use tierkreis.State.Runtime.{
  Runtime, RunHandle, Summary, summary, load_workflow_run_state, key, run_at, write, unpause,
  set_unpaused, new_workflow_run_state_with_metadata,
}
use tierkreis.State.Listing.{
  list_workflow_run_summaries, sort_by_start, insert_by_start, summaries_of,
}
use tierkreis.State.Listing.Ordered.{
  in_start_order, entries, listed, list_workflow_run_summaries_lem,
}
use tierkreis.State.Runtime.Activity.{write-Keeps}
use tierkreis.State.Runtime.Unpause.{unpause_lem}
use tierkreis.State.Attempts.{new_attempt}
use tierkreis.State.Attempts.Fresh.{Continues, new_attempt_lem}

abbrev ok_or : {A : Type 0} → A → Outcome A → A
ok_or d (ok a) = a
ok_or d (err e) = d
ok_or d panic = d

abbrev mapped : Location
mapped = node 2 ∷ []

abbrev tasked : Location
tasked = node 1 ∷ []

abbrev first_events : List NodeEvent
first_events =
    node_event mapped (NodeStatus.running (some (map_started ([] ∷ [] ∷ []))))
    ∷ node_event mapped (NodeStatus.running (some (map_elem_complete (false ∷ true ∷ []))))
    ∷ []

abbrev later_events : List NodeEvent
later_events =
    node_event tasked (NodeStatus.scheduled (some "hpc"))
    ∷ node_event mapped (NodeStatus.running (some (map_elem_complete (true ∷ false ∷ []))))
    ∷ node_event mapped (NodeStatus.complete [])
    ∷ node_event tasked NodeStatus.paused
    ∷ []

abbrev begun : RunAttemptState
begun = ok_or blank_run (handle_node_events plain_ops 5 blank_run first_events)

abbrev finished : RunAttemptState
finished = ok_or blank_run (handle_node_events plain_ops 6 begun later_events)

finished-eq-ok : handle_node_events plain_ops 6 begun later_events ≡ ok finished
unfolding handle_node_events get_or_default insert insert_input_sets with_map_index
finished-eq-ok = refl

abbrev other_events : List NodeEvent
other_events =
    node_event tasked (NodeStatus.scheduled none) ∷ node_event tasked (NodeStatus.complete []) ∷ []

abbrev empty : Runtime ℕ
empty = record { workflows = []; runs = []; active_runs = [] }

abbrev first : Runtime ℕ × RunHandle
first = new_workflow_run_state_with_metadata 9 1 0 [] [] empty

abbrev handle : RunHandle
handle = first.1

abbrev mid : Runtime ℕ
mid = ok_or empty (write plain_ops 2 3 handle (node_events first_events) first.0)

abbrev last : Runtime ℕ
last = ok_or empty (write plain_ops 4 4 handle completed mid)

last-eq-ok : write plain_ops 4 4 handle completed mid ≡ ok last
unfolding write
last-eq-ok = refl

other_attempt : key handle ≢ (9, 1)
unfolding new_workflow_run_state_with_metadata
other_attempt e = ground (arith, e)

last-small : length last.runs < u32_size
unfolding write new_workflow_run_state_with_metadata get get_or_default insert insert_input_sets
    with_map_index
last-small = omega arith

write-Keeps_example :
    Keeps (node_at (run_at mid (9, 0)) mapped) (node_at (run_at last (9, 0)) mapped)
write-Keeps_example =
    write-Keeps plain_ops plain_laws 4 4 handle completed mid (9, 0) mapped last-eq-ok

new_attempt_lem_example :
    (n : ℕ) × (prev : RunAttemptState) × Continues 9 8 last
      (ok_or first (new_attempt 9 8 last)).0
      (ok_or first (new_attempt 9 8 last)).1
      n
      prev
unfolding new_attempt write new_workflow_run_state_with_metadata get get_or_default insert
    insert_input_sets with_map_index
new_attempt_lem_example = new_attempt_lem 9 8 last last-small refl

unpause_lem_example :
    (node_at (run_at (unpause 7 handle (mapped ∷ []) mid) (key handle)) mapped ≡ (
      if contains (mapped ∷ []) mapped
      then set_unpaused 7 (node_at (run_at mid (key handle)) mapped)
      else node_at (run_at mid (key handle)) mapped))
    × (is_paused (node_at (run_at (unpause 7 handle (mapped ∷ []) mid) (key handle)) mapped) ≡ (
        not (contains (mapped ∷ []) mapped)
        && is_paused (node_at (run_at mid (key handle)) mapped)))
unpause_lem_example = unpause_lem 7 handle mid (mapped ∷ []) mapped

abbrev run_ids : List Summary → List ℕ
run_ids [] = []
run_ids (x ∷ xs) = x.run_id ∷ run_ids xs

abbrev second_run : Runtime ℕ
second_run = (new_workflow_run_state_with_metadata 5 0 0 [] [] last).0

list_workflow_run_summaries_example :
    (in_start_order (list_workflow_run_summaries second_run) ≡ true)
    × (entries (9, 0) (list_workflow_run_summaries second_run)
        ≡ listed (summary (load_workflow_run_state 9 0 second_run).1 second_run))
unfolding write new_workflow_run_state_with_metadata get get_or_default insert insert_input_sets
    with_map_index
list_workflow_run_summaries_example =
    list_workflow_run_summaries_lem second_run 9 0 (refl, (refl, tt))

listed_runs : run_ids (list_workflow_run_summaries second_run) ≡ 5 ∷ 9 ∷ []
unfolding write new_workflow_run_state_with_metadata get get_or_default insert insert_input_sets
    with_map_index list_workflow_run_summaries sort_by_start insert_by_start summaries_of
listed_runs = refl
