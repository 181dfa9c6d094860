-- ===== src/Runtime/Events.antt =====
-- What the events that arrive make of the runs, and when `wait_for` returns: tierkreis/src/runtime.rs.
use tierkreis.Base.{
  ℕ, ◌≡◌, refl, ap, sym, ◌∙◌, Bool, not, List, [], ◌∷◌, arith, ok, >>=-eq-ok, ok-injective,
  contains, if◌then◌else◌, ◌==◌, nat_eq, pair_eq,
}
use tierkreis.Bits.{BitOps, BitLaws}
use tierkreis.Location.{Location, location_eq}
use tierkreis.State.Handle.{node_at}
use tierkreis.State.Handle.Keeps.{Keeps, Keeps-refl, Keeps-trans}
use tierkreis.State.Runtime.{Runtime, RunKey, key, run_at, stops, load_workflow_run_state}
use tierkreis.State.Runtime.Activity.{active-write, write-Keeps}
use tierkreis.State.Attempts.Fresh.{run_at-load_any}
use tierkreis.Runtime.{Arrival, process_event, process_events}

-- whether a run is active after the events, by the last one about it
unfoldable pub active_after : RunKey → List Arrival → Bool → Bool
active_after k [] active = active
active_after k ((now, (now', event)) ∷ arrivals) active =
    active_after k arrivals
      (if (event.workflow_run_id, event.attempt) == k then not (stops event.event) else active)

key-load :
    {G : Type 0} (run_id attempt : ℕ) (s : Runtime G)
    → key (load_workflow_run_state run_id attempt s).1 ≡ (run_id, attempt)
unfolding load_workflow_run_state
key-load run_id attempt s = refl

active-load :
    {G : Type 0} (run_id attempt : ℕ) (s : Runtime G)
    → (load_workflow_run_state run_id attempt s).0.active_runs ≡ s.active_runs
unfolding load_workflow_run_state
active-load run_id attempt s = refl

module _ {G : Type 0} (bits : BitOps) where
  active-process_event :
      (arrival : Arrival) (s : Runtime G) (k : RunKey) {s' : Runtime G}
      → process_event bits arrival s ≡ ok s'
      → contains s'.active_runs k ≡ active_after k (arrival ∷ []) (contains s.active_runs k)
  unfolding process_event active_after load_workflow_run_state
  active-process_event (now, (now', event)) s k {s'} h =
      let (loaded, handle) = load_workflow_run_state event.workflow_run_id event.attempt s in
      active-write bits now now' handle event.event loaded k h

  -- After the events have been written, a run is active exactly if the last event about it does not
  -- stop it, or if there is none and it was active before.
  pub active-process_events :
      (arrivals : List Arrival) (s : Runtime G) (k : RunKey) {s' : Runtime G}
      → process_events bits arrivals s ≡ ok s'
      → contains s'.active_runs k ≡ active_after k arrivals (contains s.active_runs k)
  unfolding process_events active_after
  active-process_events [] s k h = ground (arith, ap (λ r. r) h)
  active-process_events (arrival ∷ arrivals) s k {s'} h =
      let (s1, e1, e2) =
        >>=-eq-ok (process_event bits arrival s) (λ s1. process_events bits arrivals s1) h in
      active-process_events arrivals s1 k e2
      ∙ ap (active_after k arrivals) (active-process_event arrival s k e1)

  process_event-Keeps :
      (laws : BitLaws bits) (arrival : Arrival) (s : Runtime G) {s' : Runtime G} (k : RunKey)
      (loc : Location)
      → process_event bits arrival s ≡ ok s'
      → Keeps (node_at (run_at s k) loc) (node_at (run_at s' k) loc)
  unfolding process_event
  process_event-Keeps laws (now, (now', event)) s k loc h =
      let (loaded, handle) = load_workflow_run_state event.workflow_run_id event.attempt s in
      rw (sym (run_at-load_any event.workflow_run_id now s event.attempt k))
        (write-Keeps bits laws now now' handle event.event loaded k loc h)

  -- Whatever events are written, in whatever order they arrive, at every location of every run no
  -- time that is set changes, and what a completed, failed, switching or mapping node has reported
  -- stays.
  pub process_events-Keeps :
      (laws : BitLaws bits) (arrivals : List Arrival) (s : Runtime G) {s' : Runtime G} (k : RunKey)
      (loc : Location)
      → process_events bits arrivals s ≡ ok s'
      → Keeps (node_at (run_at s k) loc) (node_at (run_at s' k) loc)
  unfolding process_events
  process_events-Keeps laws [] s k loc h =
      rw (← ok-injective h) (Keeps-refl (node_at (run_at s k) loc))
  process_events-Keeps laws (arrival ∷ arrivals) s {s'} k loc h =
      let (s1, e1, e2) =
        >>=-eq-ok (process_event bits arrival s) (λ s1. process_events bits arrivals s1) h in
      Keeps-trans (node_at (run_at s k) loc) (node_at (run_at s1 k) loc) (node_at (run_at s' k) loc)
        (process_event-Keeps laws arrival s k loc e1)
        (process_events-Keeps laws arrivals s1 k loc e2)
