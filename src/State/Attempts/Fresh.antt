-- ===== src/State/Attempts/Fresh.antt =====
-- The attempt that `new_attempt` of tierkreis/src/state/inmemory.rs opens.
use tierkreis.Base.{
  ℕ, suc, ◌+◌, ◌%◌, ◌<◌, ◌≡◌, refl, ap, sym, ◌∙◌, Bool, false, ◌&&◌, Option, none, some, [], arith,
  ◌==◌, if◌then◌else◌, pair_eq, nat_eq, pair_beq_iff, ok, err, or_error, ◌>>=◌, >>=-eq-ok,
  ok-injective, length, Bool-cases, inl, inr, run_not_found, run_still_active, eq_refl, String,
}
use tierkreis.Base.Map.{Map, get, insert, get-insert_self, get_or_default, get_or_default-insert}
use tierkreis.Location.{location_eq, root, u32_size}
use tierkreis.Asset.{Assets}
use tierkreis.State.{Time, RunAttemptState, blank_run, is_none}
use tierkreis.State.Runtime.{
  Runtime, RunHandle, RunKey, key, run_at, open_run, load_workflow_run_state,
}
use tierkreis.State.Attempts.{Latest, find_latest, open_next, new_attempt}
use tierkreis.State.Attempts.Last.{Holds, Below-le-length, find_latest_lem}

-- none of the three final times is set
abbrev pub in_progress : RunAttemptState → Bool
in_progress run =
    is_none run.cancelled_time && (is_none run.error_time && is_none run.complete_time)

abbrev opened : Time → ℕ → Assets → Map String String → RunAttemptState → RunAttemptState
opened now workflow_id inputs metadata run = record run {
  workflow_id = workflow_id;
  inputs = insert [] root inputs;
  metadata = metadata;
  started_time = some now;
}

module _ {G : Type 0} (run_id : ℕ) (now : Time) where
  run_at_of_get :
      (s : Runtime G) (k : RunKey) {run : RunAttemptState}
      → get s.runs k ≡ some run
      → run_at s k ≡ run
  unfolding get_or_default
  run_at_of_get s k e = rw (e, get_or_default)

  open_next_lem :
      (l : Latest) (s : Runtime G) {run : RunAttemptState}
      → get s.runs (run_id, l.attempt) ≡ some run
      → open_next run_id now l s ≡ (
          if in_progress run
          then err run_still_active
          else ok (
              open_run
                (run_id, (l.attempt + 1) % u32_size)
                l.workflow_id
                l.inputs
                l.metadata
                now
                (load_workflow_run_state run_id l.attempt s).0))
  unfolding open_next
  open_next_lem l s {run} found = rw (
    get-insert_self s.runs (run_id, l.attempt) (run_at s (run_id, l.attempt)),
    run_at_of_get s (run_id, l.attempt) found,
  )

  -- `h` names attempt `n + 1`, which is new in `s'` and continues `prev`, the attempt `n` of `s`
  pub record Continues (s s' : Runtime G) (h : RunHandle) (n : ℕ) (prev : RunAttemptState)
      : Type 0 where
    pub handle : key h ≡ (run_id, suc n)
    pub previous : get s.runs (run_id, n) ≡ some prev
    pub ended : in_progress prev ≡ false
    pub fresh : get s.runs (run_id, suc n) ≡ none
    pub workflow : (run_at s' (run_id, suc n)).workflow_id ≡ prev.workflow_id
    pub inputs : get (run_at s' (run_id, suc n)).inputs root ≡ get prev.inputs root
    pub metadata : (run_at s' (run_id, suc n)).metadata ≡ prev.metadata
    pub nodes : (run_at s' (run_id, suc n)).nodes ≡ []
    pub others :
        (k : RunKey) → run_at s' k ≡ (if (run_id, suc n) == k then run_at s' k else run_at s k)

  -- loading a run changes what is found at none
  pub run_at-load_any :
      (s : Runtime G) (attempt : ℕ) (k : RunKey)
      → run_at (load_workflow_run_state run_id attempt s).0 k ≡ run_at s k
  unfolding load_workflow_run_state
  run_at-load_any s attempt k =
      get_or_default-insert blank_run s.runs (run_id, attempt) k (run_at s (run_id, attempt))
      ∙ elim (Bool-cases ((run_id, attempt) == k)) [
        | inl same ↦ rw (same, ← (pair_beq_iff nat_eq nat_eq (run_id, attempt) k).0 same)
        | inr other ↦ rw other
      ]

  run_at-open_run :
      (s : Runtime G) (j k : RunKey) (w : ℕ) (i : Assets) (m : Map String String)
      → run_at (open_run j w i m now s).0 k
        ≡ (if j == k then opened now w i m (run_at s j) else run_at s k)
  unfolding open_run
  run_at-open_run s j k w i m =
      get_or_default-insert blank_run s.runs j k (opened now w i m (run_at s j))

  run_at_of_none : (s : Runtime G) (k : RunKey) → get s.runs k ≡ none → run_at s k ≡ blank_run
  unfolding get_or_default
  run_at_of_none s k e = rw (e, get_or_default)

  key-open_run :
      (s : Runtime G) (k : RunKey) (w : ℕ) (i : Assets) (m : Map String String)
      → key (open_run k w i m now s).1 ≡ k
  unfolding open_run
  key-open_run s k w i m = refl

  abbrev next_run : Runtime G → Latest → Runtime G × RunHandle
  next_run s l =
      open_run (run_id, suc l.attempt) l.workflow_id l.inputs l.metadata now
        (load_workflow_run_state run_id l.attempt s).0

  Continues-open_run :
      (s : Runtime G) (l : Latest) (prev : RunAttemptState)
      → get s.runs (run_id, l.attempt) ≡ some prev
      → in_progress prev ≡ false
      → get s.runs (run_id, suc l.attempt) ≡ none
      → l.workflow_id ≡ prev.workflow_id
      → l.metadata ≡ prev.metadata
      → get prev.inputs root ≡ some l.inputs
      → Continues s (next_run s l).0 (next_run s l).1 l.attempt prev
  Continues-open_run s l prev found ended missing same_workflow same_metadata same_inputs =
      let k : RunKey = (run_id, suc l.attempt) in
      let loaded = (load_workflow_run_state run_id l.attempt s).0 in
      let after = λ (j : RunKey). run_at-open_run loaded k j l.workflow_id l.inputs l.metadata in
      let here : run_at (next_run s l).0 k
          ≡ opened now l.workflow_id l.inputs l.metadata blank_run =
        after k
        ∙ rw (eq_refl k) (
            ap (opened now l.workflow_id l.inputs l.metadata)
              (run_at-load_any s l.attempt k ∙ run_at_of_none s k missing)) in
      record {
        handle = key-open_run loaded k l.workflow_id l.inputs l.metadata;
        previous = found;
        ended = ended;
        fresh = missing;
        workflow = ap RunAttemptState.workflow_id here ∙ same_workflow;
        inputs =
            ap (λ r. get (RunAttemptState.inputs r) root) here
            ∙ get-insert_self [] root l.inputs
            ∙ sym same_inputs;
        metadata = ap RunAttemptState.metadata here ∙ same_metadata;
        nodes = ap RunAttemptState.nodes here;
        others = λ j. elim (Bool-cases (k == j)) [
          | inl same ↦ rw same
          | inr other ↦ rw other (ground (arith, after j, run_at-load_any s l.attempt j))
        ];
      }

  continues :
      (found : Option Latest) (s : Runtime G) (b : ℕ) {p : Runtime G × RunHandle}
      → b < u32_size
      → get s.runs (run_id, b) ≡ none
      → Holds s run_id b found
      → (or_error run_not_found found >>= λ latest. open_next run_id now latest s) ≡ ok p
      → (n : ℕ) × (prev : RunAttemptState) × Continues s p.0 p.1 n prev
  continues none s b small missing holds h = cc
  continues (some l) s b {p} small missing (prev, next, there, workflow, metadata, inputs) h =
      elim (Bool-cases (in_progress prev)) [
        | inl active ↦ cc (open_next_lem l s there, active, h)
        | inr ended ↦
            let counted : (l.attempt + 1) % u32_size ≡ suc l.attempt = omega arith in
            let given : ok (next_run s l) ≡ ok p =
              rw (← h, open_next_lem l s there, ended, counted) in
            let done = ok-injective given in
            (
              l.attempt,
              prev,
              rw (← done) (
                  Continues-open_run s l prev there ended (rw next missing) workflow metadata
                    inputs),
            )
      ]

  -- Where fewer than 2^32 runs are kept, a successful `new_attempt` opens the attempt after the last one: that attempt was not there, the
  -- one before was and had ended, its workflow, inputs and metadata are taken over with no node
  -- states, and no other run changes.
  pub new_attempt_lem :
      (s : Runtime G) {p : Runtime G × RunHandle}
      → length s.runs < u32_size
      → new_attempt run_id now s ≡ ok p
      → (n : ℕ) × (prev : RunAttemptState) × Continues s p.0 p.1 n prev
  unfolding new_attempt
  new_attempt_lem s {p} small h =
      let (found, looped, rest) =
        >>=-eq-ok (find_latest (suc (length s.runs)) s run_id 0 none)
          (λ f. or_error run_not_found f >>= λ latest. open_next run_id now latest s) h in
      let (b, below, missing, holds) =
        find_latest_lem s run_id (suc (length s.runs)) 0 none small (omega arith)
          (λ i lt. elim lt [ ]) refl looped in
      continues found s b (omega (arith, Below-le-length run_id b s.runs below)) missing holds rest
