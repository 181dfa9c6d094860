-- ===== src/State/Handle/Local.antt =====
-- The location of an event: `handle_node_events` of tierkreis/src/state/inmemory.rs.
use tierkreis.Base.{
  ◌≡◌, ap, List, [], ◌∷◌, arith, if◌then◌else◌, ok, >>=-eq-ok, ok-injective, sym, ◌==◌, All,
  list_beq_iff, ◌≢◌, ◌∙◌,
}
use tierkreis.Base.Map.{get_or_default-insert}
use tierkreis.Bits.{BitOps}
use tierkreis.Location.{Location, location_eq, component_eq}
use tierkreis.Event.{NodeEvent}
use tierkreis.State.{Time, NodeState, blank, Inputs, RunAttemptState}
use tierkreis.State.Handle.{
  node_at, write_back, apply_status, entry_state, handle_node_event, handle_node_events,
}

pub node_at-write_back :
    (run : RunAttemptState) (loc : Location) (r : NodeState × Inputs) (j : Location)
    → node_at (write_back run loc r) j ≡ (if loc == j then r.0 else node_at run j)
unfolding write_back
node_at-write_back run loc (node, inputs) j = get_or_default-insert blank run.nodes loc j node

module _ (bits : BitOps) (now : Time) where
  pub handle_node_event-eq-ok :
      (run : RunAttemptState) (event : NodeEvent) {run' : RunAttemptState}
      → handle_node_event bits now run event ≡ ok run'
      → (r : NodeState × Inputs) × (apply_status bits now event.status event.loc
            (entry_state bits now run event)
            run.inputs
          ≡ ok r)
        × (run' ≡ write_back run event.loc r)
  unfolding handle_node_event
  handle_node_event-eq-ok run event h =
      let (r, applied, stored) =
        >>=-eq-ok
          (apply_status bits now event.status event.loc (entry_state bits now run event) run.inputs)
          (λ r. ok (write_back run event.loc r)) h in
      (r, applied, sym (ok-injective stored))

  handle_node_event-other :
      (run : RunAttemptState) (event : NodeEvent) {run' : RunAttemptState} (loc : Location)
      → event.loc ≢ loc
      → handle_node_event bits now run event ≡ ok run'
      → node_at run' loc ≡ node_at run loc
  handle_node_event-other run event loc other h =
      let (r, applied, moved) = handle_node_event-eq-ok run event h in
      ap (λ s. node_at s loc) moved
      ∙ node_at-write_back run event.loc r loc
      ∙ ground (arith, list_beq_iff component_eq event.loc loc)

  -- Events of other locations leave the state of a location as it was.
  pub handle_node_events-other :
      (run : RunAttemptState) (events : List NodeEvent) {run' : RunAttemptState} (loc : Location)
      → All (λ event. NodeEvent.loc event ≢ loc) events
      → handle_node_events bits now run events ≡ ok run'
      → node_at run' loc ≡ node_at run loc
  unfolding handle_node_events
  handle_node_events-other run [] loc other h = ap (λ s. node_at s loc) (sym (ok-injective h))
  handle_node_events-other run (event ∷ events) loc other h =
      let (mid, first, rest) =
        >>=-eq-ok (handle_node_event bits now run event) (λ r. handle_node_events bits now r events)
          h in
      handle_node_events-other mid events loc other.1 rest
      ∙ handle_node_event-other run event loc other.0 first
