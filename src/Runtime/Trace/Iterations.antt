-- ===== src/Runtime/Trace/Iterations.antt =====
-- Which iterations the loop of `read_loop_trace_by_name` in tierkreis/src/runtime.rs reads.
use tierkreis.Base.{
  ℕ, zero, suc, ◌+◌, ◌%◌, ◌≤◌, ◌<◌, ◌≡◌, refl, ap, sym, ◌∙◌, String, true, false, some, List, [],
  ◌∷◌, arith, ok, ◌>>=◌, >>=-eq-ok, or_error, or_error-eq-ok, ok-injective, ◌==◌, nat_eq, pair_eq,
  string_eq, length, list_beq_iff, last, last-concat, drop_last, drop_last-concat, output_not_found,
  Bool-cases, Option-cases, inl, inr,
}
use tierkreis.Base.Map.{Map, get, remove, get-remove, get_or_default}
use tierkreis.Location.{Location, loop_index, with_loop_index, location_eq, component_eq, u32_size}
use tierkreis.Asset.{Assets}
use tierkreis.Storage.{Bytes, Storages, load_assets}
use tierkreis.State.{NodeState, Nodes, is_some, RunAttemptState}
use tierkreis.State.Handle.{node_at}
use tierkreis.State.Runtime.{Runtime, RunHandle, key, read}
use tierkreis.State.Attempts.Last.{length-remove-lt}
use tierkreis.Runtime.Trace.{Step, output_location, read_steps}

output_location-injective :
    (loc : Location) (n i j : ℕ) → output_location loc n i ≡ output_location loc n j → i ≡ j
output_location-injective loc n i j e =
    let before : with_loop_index loc i ≡ with_loop_index loc j =
      sym (drop_last-concat (with_loop_index loc i) _)
      ∙ ap drop_last e
      ∙ drop_last-concat (with_loop_index loc j) _ in
    let ends : some (loop_index i) ≡ some (loop_index j) =
      sym (last-concat loc (loop_index i)) ∙ ap last before ∙ last-concat loc (loop_index j) in
    cc ends

module _ (loc : Location) (n : ℕ) where
  -- the iterations below `k` have a state
  abbrev Present : Nodes → ℕ → Type 0
  Present nodes k =
      (i : ℕ) → i < k → (state : NodeState) × (get nodes (output_location loc n i) ≡ some state)

  Present-le-length : (k : ℕ) (nodes : Nodes) → Present nodes k → k ≤ length nodes
  Present-le-length zero nodes h = omega arith
  Present-le-length (suc k) nodes h =
      let (state, found) = h k (omega arith) in
      omega (
        arith,
        length-remove-lt nodes (output_location loc n k) found,
        Present-le-length k (remove nodes (output_location loc n k)) λ i lt.
            let (w, there) = h i (omega arith) in
            let other : output_location loc n k ≡ output_location loc n i → k ≡ i =
              output_location-injective loc n k i in
            (
              w,
              get-remove nodes (output_location loc n k) (output_location loc n i)
                  ∙ ground (
                    arith,
                    there,
                    other,
                    list_beq_iff component_eq (output_location loc n k) (output_location loc n i),
                  ),
            ),
      )

  -- only a location with a state can be complete
  complete_present :
      (run : RunAttemptState) (i : ℕ)
      → is_some (node_at run (output_location loc n i)).complete_time ≡ true
      → (state : NodeState) × (get run.nodes (output_location loc n i) ≡ some state)
  unfolding get_or_default
  complete_present run i h = elim (Option-cases (get run.nodes (output_location loc n i))) [
    | inl e ↦ absurd (ground (arith, e, h))
    | inr (state, e) ↦ (state, e)
  ]

  module _ {W : Type 0} (storages : Storages W) (w : W) (run : RunAttemptState) where
    -- the steps are those of the iterations from an index to the first that is not complete, each
    -- with the assets that its output node has
    abbrev pub ReadsFrom : ℕ → List Step → Type 0
    ReadsFrom i [] = is_some (node_at run (output_location loc n i)).complete_time ≡ false
    ReadsFrom i ((location, outputs) ∷ trace) =
        (location ≡ output_location loc n i)
        × (is_some (node_at run location).complete_time ≡ true)
        × ((specs : Assets) × ((node_at run location).outputs ≡ some specs)
            × (load_assets storages specs w ≡ ok outputs))
        × ReadsFrom (suc i) trace

    Present-suc :
        (i : ℕ)
        → Present run.nodes i
        → is_some (node_at run (output_location loc n i)).complete_time ≡ true
        → Present run.nodes (suc i)
    Present-suc i below h j lt = elim (Bool-cases (j == i)) [
      | inl same ↦
          let (state, found) = complete_present run i h in
          (state, ap (λ k. get run.nodes (output_location loc n k)) (ground (arith, same)) ∙ found)
      | inr other ↦ below j (ground (arith, other, lt))
    ]

module _ {G W : Type 0} (storages : Storages W) (h : RunHandle) (loc : Location) (n : ℕ)
    (s : Runtime G) (w : W) where
  read_at :
      (run : RunAttemptState) (l : Location)
      → get s.runs (key h) ≡ some run
      → read h l s ≡ ok (node_at run l)
  unfolding read
  read_at run l found = rw found refl

  -- one step of the loop, when its iteration is complete
  step_of :
      (run : RunAttemptState) (fuel i : ℕ) (trace : List Step)
      → get s.runs (key h) ≡ some run
      → is_some (node_at run (output_location loc n i)).complete_time ≡ true
      → read_steps storages h loc n s w (suc fuel) i ≡ ok trace
      → (specs : Assets) × (outputs : Map String Bytes) × (rest : List Step) × ((node_at run
            (output_location loc n i)).outputs
          ≡ some specs)
        × (load_assets storages specs w ≡ ok outputs)
        × (read_steps storages h loc n s w fuel ((i + 1) % u32_size) ≡ ok rest)
        × (trace ≡ (output_location loc n i, outputs) ∷ rest)
  unfolding read_steps
  step_of run fuel i trace found complete e =
      let here = output_location loc n i in
      let state = node_at run here in
      let begun : (or_error output_not_found state.outputs >>= λ specs.
      load_assets storages specs w >>= λ outputs.
      read_steps storages h loc n s w fuel ((i + 1) % u32_size) >>= λ rest.
      ok ((here, outputs) ∷ rest))
          ≡ ok trace =
        rw (read_at run here found, complete, read_steps) at e in
      let (specs, e1, e2) =
        >>=-eq-ok (or_error output_not_found state.outputs)
          (λ specs. load_assets storages specs w >>= λ outputs.
            read_steps storages h loc n s w fuel ((i + 1) % u32_size) >>= λ rest.
            ok ((here, outputs) ∷ rest))
          begun in
      let (outputs, e3, e4) =
        >>=-eq-ok (load_assets storages specs w)
          (λ outputs. read_steps storages h loc n s w fuel ((i + 1) % u32_size) >>= λ rest.
            ok ((here, outputs) ∷ rest))
          e2 in
      let (rest, e5, e6) =
        >>=-eq-ok (read_steps storages h loc n s w fuel ((i + 1) % u32_size))
          (λ rest. ok ((here, outputs) ∷ rest)) e4 in
      (
        specs,
        outputs,
        rest,
        or_error-eq-ok output_not_found state.outputs e1,
        e3,
        e5,
        sym (ok-injective e6),
      )

  read_from :
      (run : RunAttemptState) (fuel i : ℕ) (trace : List Step)
      → get s.runs (key h) ≡ some run
      → suc (length run.nodes) < u32_size
      → length run.nodes < fuel + i
      → Present loc n run.nodes i
      → read_steps storages h loc n s w fuel i ≡ ok trace
      → ReadsFrom loc n storages w run i trace
  unfolding read_steps
  read_from run zero i trace found small enough below e =
      absurd (omega (arith, enough, Present-le-length loc n i run.nodes below))
  read_from run (suc fuel) i trace found small enough below e =
      elim (Bool-cases (is_some (node_at run (output_location loc n i)).complete_time)) [
        | inl complete ↦
            let (specs, outputs, rest, e1, e2, e3, e4) =
              step_of run fuel i trace found complete e in
            let next : (i + 1) % u32_size ≡ suc i =
              omega (arith, small, Present-le-length loc n i run.nodes below) in
            rw e4 (
              refl,
              complete,
              (specs, e1, e2),
              read_from run fuel (suc i) rest found small (omega (arith, enough))
                  (Present-suc loc n storages w run i below complete) (rw (← next) e3),
            )
        | inr ended ↦
            let empty : ok [] ≡ ok trace =
              rw (read_at run (output_location loc n i) found, ended, read_steps) at e in
            rw (← ok-injective empty) ended
      ]

  -- With a step for each state of the run and one more, and fewer than 2^32 - 1 states, the loop
  -- reads the iterations from the first one on up to the first whose output node is not complete, and
  -- no others: for each, where its output node is, and the assets that were its outputs.
  pub read_steps_lem :
      (run : RunAttemptState) (trace : List Step)
      → get s.runs (key h) ≡ some run
      → suc (length run.nodes) < u32_size
      → read_steps storages h loc n s w (suc (length run.nodes)) 0 ≡ ok trace
      → ReadsFrom loc n storages w run 0 trace
  read_steps_lem run trace found small e =
      read_from run (suc (length run.nodes)) 0 trace found small (omega arith)
        (λ i lt. absurd (omega (arith, lt))) e
