-- ===== src/Runtime/Waiting.antt =====
-- What `wait_for` of tierkreis/src/runtime.rs returns, and when.
use tierkreis.Base.{
  true, none, Option, ◌&&◌, ◌++◌, Bool-cases, Option-cases, inl, inr, list_beq_iff, ℕ, ◌≡◌, refl,
  ap, sym, ◌∙◌, Bool, false, some, List, [], ◌∷◌, map, arith, ok, contains, if◌then◌else◌, ◌==◌,
  nat_eq, pair_eq,
}
use tierkreis.Base.Map.{
  get, extend, get-insert_self, get-extend, Unique, extend-Unique, later, get_or_default_of_some,
}
use tierkreis.Bits.{BitOps}
use tierkreis.Location.{Location, location_eq, component_eq}
use tierkreis.State.{is_some, RunAttemptState, Nodes, NodeState, blank}
use tierkreis.State.Handle.{node_at}
use tierkreis.State.Runtime.{
  Runtime, RunKey, key, run_at, load_workflow_run_state, summary, read_many, summarise,
  errored_locations,
}
use tierkreis.State.Attempts.Fresh.{run_at-load_any}
use tierkreis.Runtime.{
  Arrival, process_events, read_workflow_run_summary, read_node_states, node_errors, NodeError,
  Finish, finished, failed, finish, wait_for,
}
use tierkreis.Runtime.Events.{active_after, active-process_events}

-- the states of the nodes that have failed
abbrev failed_nodes : RunAttemptState → Nodes
failed_nodes run = extend [] (map (λ loc. (loc, node_at run loc)) (errored_locations run.nodes))

-- what is returned for a run
abbrev outcome_of : RunAttemptState → Finish
outcome_of run =
    if is_some run.error_time then failed (node_errors (failed_nodes run)) else finished

key-load :
    {G : Type 0} (run_id attempt : ℕ) (s : Runtime G)
    → key (load_workflow_run_state run_id attempt s).1 ≡ (run_id, attempt)
unfolding load_workflow_run_state
key-load run_id attempt s = refl

get-load :
    {G : Type 0} (run_id attempt : ℕ) (s : Runtime G)
    → get (load_workflow_run_state run_id attempt s).0.runs (run_id, attempt)
      ≡ some (run_at s (run_id, attempt))
unfolding load_workflow_run_state
get-load run_id attempt s = get-insert_self s.runs (run_id, attempt) (run_at s (run_id, attempt))

module _ {G : Type 0} (run_id attempt : ℕ) where
  read_node_states_lem :
      (locs : List Location) (s : Runtime G)
      → read_node_states run_id attempt locs s
        ≡ ok (
          extend [] (map (λ loc. (loc, node_at (run_at s (run_id, attempt)) loc)) locs),
          (load_workflow_run_state run_id attempt s).0,
        )
  unfolding read_node_states read_many
  read_node_states_lem locs s = rw (key-load run_id attempt s, get-load run_id attempt s) refl

  summary_lem :
      (s : Runtime G)
      → read_workflow_run_summary run_id attempt s
        ≡ ok (
          summarise
              (load_workflow_run_state run_id attempt s).0
              (run_id, attempt)
              (load_workflow_run_state run_id attempt s).1.workflow_id
              (run_at s (run_id, attempt)),
          (load_workflow_run_state run_id attempt s).0,
        )
  unfolding read_workflow_run_summary summary
  summary_lem s = rw (key-load run_id attempt s, get-load run_id attempt s) refl

  finish_lem :
      (s : Runtime G) → finish run_id attempt s ≡ ok (outcome_of (run_at s (run_id, attempt)))
  unfolding finish
  finish_lem s =
      let k : RunKey = (run_id, attempt) in
      let loaded = (load_workflow_run_state run_id attempt s).0 in
      let locs = errored_locations (run_at s k).nodes in
      let again =
        read_node_states_lem locs loaded
        ∙ ap
            (λ (r : RunAttemptState). ok (
              extend [] (map (λ loc. (loc, node_at r loc)) locs),
              (load_workflow_run_state run_id attempt loaded).0,
            ))
            (run_at-load_any run_id 0 s attempt k) in
      ground (arith, summary_lem s, again)

-- the errors that are reported for a location
abbrev pub errors_at : Location → List NodeError → List NodeError
errors_at loc [] = []
errors_at loc (e ∷ errors) =
    let rest = errors_at loc errors in if e.location == loc then e ∷ rest else rest

-- one error for a node that has failed, with the texts of its state
abbrev pub error_of : Location → NodeState → NodeError
error_of loc node = record {
  location = loc;
  message = elim node.error [ none ↦ "<MISSING ERROR MESSAGE>" | some message ↦ message ];
  detail = node.error_detail;
}

abbrev pub failure_of : RunAttemptState → Location → List NodeError
failure_of run loc = elim (get run.nodes loc) [
  | none ↦ []
  | some node ↦ if is_some node.error_time then error_of loc node ∷ [] else []
]

-- what `wait_for` may return for a run, as far as a location is concerned
abbrev pub Reports : RunAttemptState → Location → Finish → Type 0
Reports run loc finished = is_some run.error_time ≡ false
Reports run loc (failed errors) =
    (is_some run.error_time ≡ true) × (errors_at loc errors ≡ failure_of run loc)

abbrev pub all_active : {G : Type 0} → RunKey → List (Runtime G) → Bool
all_active k [] = true
all_active k (s ∷ states) = contains s.active_runs k && all_active k states

errors_at-none :
    (nodes : Nodes) (loc : Location) → get nodes loc ≡ none → errors_at loc (node_errors nodes) ≡ []
unfolding node_errors get
errors_at-none [] loc h = refl
errors_at-none ((l, node) ∷ nodes) loc h = elim (Bool-cases (l == loc)) [
  | inl same ↦ ground (arith, rw same at h)
  | inr other ↦ rw other (errors_at-none nodes loc (rw other at h))
]

errors_at-node_errors :
    (nodes : Nodes) (loc : Location)
    → Unique nodes
    → errors_at loc (node_errors nodes)
      ≡ elim (get nodes loc) [ none ↦ [] | some node ↦ error_of loc node ∷ [] ]
unfolding node_errors get
errors_at-node_errors [] loc u = refl
errors_at-node_errors ((l, node) ∷ nodes) loc u = elim (Bool-cases (l == loc)) [
  | inl same ↦
      let here : l ≡ loc = (list_beq_iff component_eq l loc).0 same in
      rw (same, errors_at-none nodes loc (rw here at u.0)) (ap (λ x. error_of x node ∷ []) here)
  | inr other ↦ rw other (errors_at-node_errors nodes loc u.1)
]

get-states :
    (run : RunAttemptState) (locs : List Location) (loc : Location)
    → get (map (λ l. (l, node_at run l)) locs) loc
      ≡ (if contains locs loc then some (node_at run loc) else none)
unfolding get
get-states run [] loc = refl
get-states run (l ∷ locs) loc = elim (Bool-cases (l == loc)) [
  | inl same ↦ rw same (ap (λ x. some (node_at run x)) ((list_beq_iff component_eq l loc).0 same))
  | inr other ↦ rw other (get-states run locs loc)
]

contains-errored_locations :
    (nodes : Nodes) (loc : Location)
    → Unique nodes
    → contains (errored_locations nodes) loc
      ≡ elim (get nodes loc) [ none ↦ false | some node ↦ is_some node.error_time ]
unfolding get
contains-errored_locations [] loc u = refl
contains-errored_locations ((l, node) ∷ nodes) loc u =
    let rest = contains-errored_locations nodes loc u.1 in
    elim (Bool-cases (l == loc)) [
      | inl same ↦
          let here : l ≡ loc = (list_beq_iff component_eq l loc).0 same in
          let fresh : contains (errored_locations nodes) loc ≡ false =
            rest ∙ rw (rw here at u.0) refl in
          elim (Bool-cases (is_some node.error_time)) [
            | inl e ↦ rw (e, same) (sym e)
            | inr e ↦ rw (e, same, fresh) (sym e)
          ]
      | inr other ↦ elim (Bool-cases (is_some node.error_time)) [
        | inl e ↦ rw (e, other) rest
        | inr e ↦ rw (e, other) rest
      ]
    ]

later-none : {A : Type 0} (o : Option A) → later none o ≡ o
later-none none = refl
later-none (some a) = refl

get-failed_nodes :
    (run : RunAttemptState) (loc : Location)
    → get (failed_nodes run) loc
      ≡ (if contains (errored_locations run.nodes) loc then some (node_at run loc) else none)
unfolding get
get-failed_nodes run loc =
    get-extend [] (map (λ l. (l, node_at run l)) (errored_locations run.nodes)) loc
    ∙ later-none (get (map (λ l. (l, node_at run l)) (errored_locations run.nodes)) loc)
    ∙ get-states run (errored_locations run.nodes) loc

errors_at-failed_nodes :
    (run : RunAttemptState) (loc : Location)
    → Unique run.nodes
    → errors_at loc (node_errors (failed_nodes run)) ≡ failure_of run loc
errors_at-failed_nodes run loc u =
    errors_at-node_errors (failed_nodes run) loc
      (extend-Unique [] (map (λ l. (l, node_at run l)) (errored_locations run.nodes)) tt)
    ∙ rw (get-failed_nodes run loc, contains-errored_locations run.nodes loc u)
        (elim (Option-cases (get run.nodes loc)) [
          | inl missing ↦ rw (missing, failure_of) refl
          | inr (node, there) ↦ elim (Bool-cases (is_some node.error_time)) [
            | inl e ↦
                rw (there, failure_of, e, get_or_default_of_some blank run.nodes loc there) refl
            | inr e ↦ rw (there, failure_of, e) refl
          ]
        ])

outcome_of-Reports :
    (run : RunAttemptState) (loc : Location) → Unique run.nodes → Reports run loc (outcome_of run)
outcome_of-Reports run loc u =
    elim (is_some run.error_time)
        as (λ b.
          (is_some run.error_time ≡ b)
          → Reports run loc (if b then failed (node_errors (failed_nodes run)) else finished)) [
            | true ↦ λ e. (e, errors_at-failed_nodes run loc u)
            | false ↦ λ e. e
          ]
      refl

module _ {G : Type 0} (run_id attempt : ℕ) where
  wait_for-append :
      (earlier states : List (Runtime G))
      → all_active (run_id, attempt) earlier ≡ true
      → wait_for run_id attempt (earlier ++ states) ≡ wait_for run_id attempt states
  unfolding wait_for
  wait_for-append [] states h = refl
  wait_for-append (s ∷ earlier) states h =
      let parts : (contains s.active_runs (run_id, attempt) ≡ true)
          × (all_active (run_id, attempt) earlier ≡ true) =
        ground (arith, h) in
      rw parts.0 (wait_for-append earlier states parts.1)

  -- Once the events have been written of which the last about a run stops it, `wait_for` returns at
  -- its next look at the state, however often it has found the run active before. It then returns no
  -- error if the run has no error time. Otherwise it returns, for each location, exactly one error
  -- if the node there has an error time, with the message and the detail of its state, or a
  -- placeholder for a message that is missing, and none if it has not. That takes that no location
  -- has two states in the run.
  pub wait_for-process_events :
      (bits : BitOps) (arrivals : List Arrival) (s : Runtime G) (earlier later : List (Runtime G))
      (loc : Location) {s' : Runtime G}
      → all_active (run_id, attempt) earlier ≡ true
      → process_events bits arrivals s ≡ ok s'
      → active_after (run_id, attempt) arrivals (contains s.active_runs (run_id, attempt)) ≡ false
      → Unique (run_at s' (run_id, attempt)).nodes
      → (result : Finish) × (wait_for run_id attempt (earlier ++ s' ∷ later) ≡ ok (some result))
        × Reports (run_at s' (run_id, attempt)) loc result
  unfolding wait_for
  wait_for-process_events bits arrivals s earlier later loc {s'} waiting h stopped u = (
    outcome_of (run_at s' (run_id, attempt)),
    wait_for-append earlier (s' ∷ later) waiting
        ∙ rw
            (
              active-process_events bits arrivals s (run_id, attempt) h,
              stopped,
              finish_lem run_id attempt s',
            )
            refl,
    outcome_of-Reports (run_at s' (run_id, attempt)) loc u,
  )
