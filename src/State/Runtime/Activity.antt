-- ===== src/State/Runtime/Activity.antt =====
-- `write` of tierkreis/src/state/inmemory.rs: the run that an event is of, the other runs, and the
-- set of active runs.
use tierkreis.Base.{
  ◌≡◌, ◌≢◌, ap, ◌∙◌, sym, not, arith, ◌==◌, if◌then◌else◌, pair_eq, nat_eq, pair_beq, pair_beq_iff,
  contains, contains-add, contains-erase, add, erase, ok, >>=-eq-ok, ok-injective, Bool-cases, inl,
  inr,
}
use tierkreis.Base.Map.{get, insert, get-insert, get_or_default-insert}
use tierkreis.Bits.{BitOps, BitLaws}
use tierkreis.Location.{Location}
use tierkreis.Event.{WorkflowRunEvent, started, node_events}
use tierkreis.State.{Time, RunAttemptState, blank_run}
use tierkreis.State.Handle.{node_at}
use tierkreis.State.Handle.Keeps.{Keeps, Keeps-refl}
use tierkreis.State.Handle.Stable.{handle_node_events-Keeps}
use tierkreis.State.Runtime.{RunKey, Runtime, RunHandle, key, stops, write_run, run_at, write}

module _ {G : Type 0} (bits : BitOps) (now now' : Time) (h : RunHandle)
    (event : WorkflowRunEvent) where
  write-eq-ok :
      (s : Runtime G) {s' : Runtime G}
      → write bits now now' h event s ≡ ok s'
      → (run : RunAttemptState) × (write_run bits now now' event (run_at s (key h)) ≡ ok run)
        × (s' ≡ record s {
          runs = insert s.runs (key h) run;
          active_runs =
              if stops event then erase (key h) s.active_runs else add (key h) s.active_runs;
        })
  unfolding write
  write-eq-ok s w =
      let (run, written, stored) =
        >>=-eq-ok (write_run bits now now' event (run_at s (key h)))
          (λ run. ok (record s {
            runs = insert s.runs (key h) run;
            active_runs =
                if stops event then erase (key h) s.active_runs else add (key h) s.active_runs;
          }))
          w in
      (run, written, sym (ok-injective stored))

  -- After a write a run is active exactly if the event does not stop it, and every other run is
  -- active exactly if it was before.
  pub active-write :
      (s : Runtime G) (k : RunKey) {s' : Runtime G}
      → write bits now now' h event s ≡ ok s'
      → contains s'.active_runs k
        ≡ (if key h == k then not (stops event) else contains s.active_runs k)
  active-write s k w =
      let (run, written, stored) = write-eq-ok s w in
      ap (λ t. contains (Runtime.active_runs t) k) stored
      ∙ ground (arith, contains-add (key h) k s.active_runs, contains-erase (key h) k s.active_runs)

  -- A write changes the state of no other run.
  pub runs-write :
      (s : Runtime G) (k : RunKey) {s' : Runtime G}
      → key h ≢ k
      → write bits now now' h event s ≡ ok s'
      → get s'.runs k ≡ get s.runs k
  runs-write s k other w =
      let (run, written, stored) = write-eq-ok s w in
      ap (λ t. get (Runtime.runs t) k) stored
      ∙ get-insert s.runs (key h) k run
      ∙ ground (arith, pair_beq_iff nat_eq nat_eq (key h) k)

module _ (bits : BitOps) (laws : BitLaws bits) (now now' : Time) where
  write_run-Keeps :
      (event : WorkflowRunEvent) (run : RunAttemptState) {run' : RunAttemptState} (loc : Location)
      → write_run bits now now' event run ≡ ok run'
      → Keeps (node_at run loc) (node_at run' loc)
  unfolding write_run
  write_run-Keeps (node_events events) run loc w =
      handle_node_events-Keeps bits laws now' run events loc w
  write_run-Keeps started run loc w = rw (← ok-injective w) (Keeps-refl (node_at run loc))
  write_run-Keeps _ run loc w = rw (← ok-injective w) (Keeps-refl (node_at run loc))

  -- Whatever event is written to whichever run, at every location of every run: no time that is set
  -- changes, the outputs of a completed node stay, and so do the error of a failed node, the branch
  -- of a running conditional, and each completed element of a running map.
  pub write-Keeps :
      {G : Type 0} (h : RunHandle) (event : WorkflowRunEvent) (s : Runtime G) {s' : Runtime G}
      (k : RunKey) (loc : Location)
      → write bits now now' h event s ≡ ok s'
      → Keeps (node_at (run_at s k) loc) (node_at (run_at s' k) loc)
  write-Keeps h event s {s'} k loc w =
      let (run, written, stored) = write-eq-ok bits now now' h event s w in
      let found =
        ap (λ t. run_at t k) stored ∙ get_or_default-insert blank_run s.runs (key h) k run in
      rw found (elim (Bool-cases (pair_beq nat_eq nat_eq (key h) k)) [
        | inl same ↦
            rw (same, ← (pair_beq_iff nat_eq nat_eq (key h) k).0 same)
              (write_run-Keeps event (run_at s (key h)) loc written)
        | inr other ↦ rw other (Keeps-refl (node_at (run_at s k) loc))
      ])
