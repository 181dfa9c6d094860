-- ===== src/State/Handle/Stable.antt =====
-- The states of nodes over a sequence of events: `handle_node_events` of
-- tierkreis/src/state/inmemory.rs.
use native.Mathlib.Decide.{dec_lt}
use tierkreis.Base.{
  ◌≡◌, refl, Option, none, some, List, [], ◌∷◌, arith, Bool-cases, inl, inr, ok, >>=-eq-ok, length,
  Option-cases, list_beq, list_beq_iff, ok-injective,
}
use tierkreis.Bits.{BitVec, BitOps, BitLaws, bit_outside}
use tierkreis.Location.{Location, location_eq, component_eq}
use tierkreis.Event.{
  NodeStatus, NodeEvent, switching, evalling, looping, map_started, map_elem_complete,
}
use tierkreis.State.{Time, NodeState, Inputs, RunAttemptState}
use tierkreis.State.Handle.{
  apply_status, entry_state, handle_node_event, handle_node_events, node_at,
}
use tierkreis.State.Handle.Local.{handle_node_event-eq-ok, node_at-write_back}
use tierkreis.State.Handle.Keeps.{
  Keeps, Kept-refl, Kept-mark, FrozenBy-refl, CoversOnce, CoversOnce-refl, Keeps-refl, Keeps-trans,
}

ruleset keeps_rules = (refl, Kept-refl, Kept-mark, FrozenBy-refl, CoversOnce-refl)

module _ (bits : BitOps) (laws : BitLaws bits) (now : Time) (loc : Location) where
  -- a new mask leaves the completed elements of the node completed
  Covers-bitor :
      (t : Option Time) (m mask : BitVec) → CoversOnce t (some m) (some (bits.bitor_assign m mask))
  Covers-bitor none m mask = tt
  Covers-bitor (some t) m mask = (
    laws.length-bitor m mask,
    λ i. elim (dec_lt i (length m)) [
      | yes l ↦ ground (arith, laws.bit-bitor m mask i l)
      | no g ↦ rw (bit_outside m i (omega arith))
    ],
  )

  apply_status-Keeps :
      (status : NodeStatus) (node : NodeState) (inputs : Inputs) {node' : NodeState}
      {inputs' : Inputs}
      → apply_status bits now status loc node inputs ≡ ok (node', inputs')
      → Keeps node node'
  unfolding apply_status
  apply_status-Keeps (NodeStatus.scheduled context) node inputs h = ground arith
  apply_status-Keeps (NodeStatus.queued handle) node inputs h = ground arith
  apply_status-Keeps NodeStatus.paused node inputs h = ground arith
  apply_status-Keeps (NodeStatus.running none) node inputs h = ground arith
  apply_status-Keeps (NodeStatus.running (some (switching cond))) node inputs h = ground arith
  apply_status-Keeps (NodeStatus.running (some (evalling assets))) node inputs h = ground arith
  apply_status-Keeps (NodeStatus.running (some (looping index assets))) node inputs h = ground arith
  apply_status-Keeps (NodeStatus.running (some (map_started input_sets))) node inputs h =
      ground arith
  apply_status-Keeps (NodeStatus.running (some (map_elem_complete mask))) node inputs h =
      elim (Option-cases node.map_completed) [
        | inl e ↦ ground arith
        | inr (m, e) ↦ ground (arith, Covers-bitor node.running_time m mask)
      ]
  apply_status-Keeps (NodeStatus.complete outputs) node inputs h = ground arith
  apply_status-Keeps NodeStatus.cancelled node inputs h = ground arith
  apply_status-Keeps (NodeStatus.error text detail) node inputs h = ground arith

module _ (bits : BitOps) (laws : BitLaws bits) (now : Time) where
  Keeps-entry :
      (run : RunAttemptState) (event : NodeEvent) (node : NodeState)
      → Keeps (entry_state bits now run event) node
      → Keeps (node_at run event.loc) node
  unfolding entry_state
  Keeps-entry run event node h = ground arith

  handle_node_event-Keeps :
      (run : RunAttemptState) (event : NodeEvent) {run' : RunAttemptState} (loc : Location)
      → handle_node_event bits now run event ≡ ok run'
      → Keeps (node_at run loc) (node_at run' loc)
  handle_node_event-Keeps run event {run'} loc h =
      let (r, applied, moved) = handle_node_event-eq-ok bits now run event h in
      rw (moved, node_at-write_back run event.loc r loc)
        (elim (Bool-cases (list_beq component_eq event.loc loc)) [
          | inl same ↦
              rw (same, ← (list_beq_iff component_eq event.loc loc).0 same)
                (Keeps-entry run event r.0 (
                  apply_status-Keeps bits laws now event.loc event.status _ run.inputs {node' = r.0}
                    {inputs' = r.1} applied))
          | inr other ↦ rw other (Keeps-refl (node_at run loc))
        ])

  -- Whatever node events a run handles, at every location: no time that is set changes, the outputs
  -- of a completed node stay, and so do the error of a failed node, the branch of a running
  -- conditional, and each completed element of a running map.
  pub handle_node_events-Keeps :
      (run : RunAttemptState) (events : List NodeEvent) {run' : RunAttemptState} (loc : Location)
      → handle_node_events bits now run events ≡ ok run'
      → Keeps (node_at run loc) (node_at run' loc)
  unfolding handle_node_events
  handle_node_events-Keeps run [] loc h = rw (← ok-injective h) (Keeps-refl (node_at run loc))
  handle_node_events-Keeps run (event ∷ events) {run'} loc h =
      let (mid, first, rest) =
        >>=-eq-ok (handle_node_event bits now run event) (λ r. handle_node_events bits now r events)
          h in
      Keeps-trans (node_at run loc) (node_at mid loc) (node_at run' loc)
        (handle_node_event-Keeps run event loc first) (handle_node_events-Keeps mid events loc rest)
