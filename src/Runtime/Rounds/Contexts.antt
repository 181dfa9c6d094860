-- ===== src/Runtime/Rounds/Contexts.antt =====
-- What a round of `run` in tierkreis/src/runtime.rs does to the contexts and to the runs.
use tierkreis.Base.{
  ℕ, suc, ◌≡◌, refl, ap, sym, ◌∙◌, true, ◌||◌, none, some, List, [], ◌∷◌, map, arith, ok, ◌>>=◌,
  >>=-eq-ok, ok-injective, contains, if◌then◌else◌, ◌==◌, nat_eq, pair_eq, pair_beq_iff,
  Option-cases, Bool-cases, inl, inr,
}
use tierkreis.Base.Map.{get, insert, get-insert}
use tierkreis.State.{is_some}
use tierkreis.State.Runtime.{
  Runtime, RunHandle, RunKey, key, run_at, load_workflow, load_workflow_run_state, read_metadata,
}
use tierkreis.State.Attempts.Fresh.{run_at-load_any}
use tierkreis.Graph.{PortGraph, WorkflowGraph}
use tierkreis.Runtime.{load_profiles}
use tierkreis.Orchestrator.Plan.{Action, perform_actions}
use tierkreis.Orchestrator.Build.{Shared}
use tierkreis.Orchestrator.Build.Actions.{build_actions}
use tierkreis.Orchestrator.Build.Actions.Depth.{run_depth}
use tierkreis.Runtime.Rounds.{
  RunContext, Contexts, Round, Engine, retain, services_of, profile_of, new_context, context_of,
  orchestrate, run_active, run_all, run_round,
}

get-retain :
    {P : PortGraph} {J : Type 0} (active_runs : List RunKey) (contexts : Contexts P J) (k : RunKey)
    → get (retain active_runs contexts) k
      ≡ (if contains active_runs k then get contexts k else none)
unfolding get retain
get-retain active_runs [] k = ground arith
get-retain active_runs ((j, c) ∷ contexts) k =
    let same : j ≡ k → contains active_runs j ≡ contains active_runs k =
      ap (contains active_runs) in
    ground (arith, pair_beq_iff nat_eq nat_eq j k, same, get-retain active_runs contexts k)

-- a round that loads runs changes none of them
abbrev SameRuns : {G : Type 0} → Runtime G → Runtime G → Type 0
SameRuns s s' = ((k : RunKey) → run_at s' k ≡ run_at s k) × (s'.active_runs ≡ s.active_runs)

SameRuns-trans : {G : Type 0} (a b c : Runtime G) → SameRuns a b → SameRuns b c → SameRuns a c
SameRuns-trans a b c h k = (λ j. k.0 j ∙ h.0 j, k.1 ∙ h.1)

SameRuns-load :
    {G : Type 0} (run_id attempt : ℕ) (s : Runtime G)
    → SameRuns s (load_workflow_run_state run_id attempt s).0
unfolding load_workflow_run_state
SameRuns-load run_id attempt s = (λ k. run_at-load_any run_id 0 s attempt k, refl)

-- reading the metadata stores the run as it is found, as loading it does
SameRuns-read_metadata :
    {G : Type 0} (h : RunHandle) (s : Runtime G) → SameRuns s (read_metadata h s).0
unfolding read_metadata load_workflow_run_state
SameRuns-read_metadata h s = SameRuns-load h.run_id h.attempt s

module _ {P : PortGraph} {J W : Type 0} (engine : Engine P J W) where
  context_of_lem :
      (h : RunHandle) (contexts : Contexts P J) (s s' : Runtime (WorkflowGraph P J))
      (c : RunContext P J)
      → context_of engine h contexts s ≡ ok (c, s')
      → ((found : RunContext P J) → get contexts (key h) ≡ some found → c ≡ found) × SameRuns s s'
  unfolding context_of
  context_of_lem h contexts s s' c e = elim (Option-cases (get contexts (key h))) [
    | inr (found, f) ↦
        let same : ok (found, s) ≡ ok (c, s') = rw (f, context_of) at e in
        let pair = ok-injective same in
        (
          λ other g. (let first = ap (λ p. p.0) pair in cc (first, f, g)),
          rw (← ap (λ p. p.1) pair) (λ k. refl, refl),
        )
    | inl f ↦
        let (read, metadata) = read_metadata h s in
        let (profile, e1, e2) =
          >>=-eq-ok (profile_of engine metadata)
            (λ profile. load_profiles engine.settings profile >>= λ profiles.
              ok (new_context engine profiles, read))
            (rw (f, context_of) at e) in
        let (profiles, e3, e4) =
          >>=-eq-ok (load_profiles engine.settings profile)
            (λ profiles. ok (new_context engine profiles, read)) e2 in
        (λ other g. cc (f, g), rw (← ap (λ p. p.1) (ok-injective e4)) (SameRuns-read_metadata h s))
  ]

  orchestrate_lem :
      (h : RunHandle) (g : WorkflowGraph P J) (c : RunContext P J) (contexts : Contexts P J)
      (s : Runtime (WorkflowGraph P J)) (w : W) (round : Round P J W)
      → orchestrate engine h g c contexts s w ≡ ok round
      → (c' : RunContext P J) × (round.contexts ≡ insert contexts (key h) c')
        × (c'.context ≡ c.context)
        × (round.state ≡ s)
  unfolding orchestrate
  orchestrate_lem h g c contexts s w round e =
      let before : Shared P J W = record {
        scheduled_this_lifetime = c.scheduled;
        subworkflow_cache = c.cache;
        world = w;
      } in
      let perform = λ (built : List (Action J) × Shared P J W).
        perform_actions engine.bits engine.default_executor_name engine.default_storage_name
          h.run_id h.attempt engine.send engine.executor_registry (map ok built.0) built.1.world in
      let kept = λ (after : Shared P J W).
        insert contexts (key h) (record c {
          scheduled = after.scheduled_this_lifetime;
          cache = after.subworkflow_cache;
        }) in
      let (built, e1, e2) =
        >>=-eq-ok (build_actions (services_of engine h s) (suc (run_depth h s)) c.context g before)
          (λ built.
            perform built >>= λ w'. ok (record { contexts = kept built.1; state = s; world = w' }))
          e in
      let (w', e3, e4) =
        >>=-eq-ok (perform built)
          (λ w'. ok (record { contexts = kept built.1; state = s; world = w' })) e2 in
      let done = ok-injective e4 in
      (
        record c { scheduled = built.1.scheduled_this_lifetime; cache = built.1.subworkflow_cache },
        ap Round.contexts (sym done),
        refl,
        ap Round.state (sym done),
      )

  run_active_lem :
      (k : RunKey) (round round' : Round P J W)
      → run_active engine k round ≡ ok round'
      → (c' : RunContext P J) × (round'.contexts ≡ insert round.contexts k c')
        × ((found : RunContext P J)
            → get round.contexts k ≡ some found
            → c'.context ≡ found.context)
        × SameRuns round.state round'.state
  unfolding run_active load_workflow_run_state
  run_active_lem (run_id, attempt) round round' e =
      let (loaded, h) = load_workflow_run_state run_id attempt round.state in
      let (workflow, e1, e2) =
        >>=-eq-ok (load_workflow loaded h.workflow_id)
          (λ workflow. context_of engine h round.contexts loaded >>= λ found.
            orchestrate engine h workflow.1 found.0 round.contexts found.1 round.world)
          e in
      let (found, e3, e4) =
        >>=-eq-ok (context_of engine h round.contexts loaded)
          (λ found. orchestrate engine h workflow.1 found.0 round.contexts found.1 round.world)
          e2 in
      let (same, runs) = context_of_lem h round.contexts loaded found.1 found.0 e3 in
      let (c', stored, context, state) =
        orchestrate_lem h workflow.1 found.0 round.contexts found.1 round.world round' e4 in
      (
        c',
        stored,
        λ other g. context ∙ ap RunContext.context (same other g),
        rw state (
            SameRuns-trans round.state loaded found.1 (SameRuns-load run_id attempt round.state)
              runs),
      )

  -- a context that is there keeps its profile and its location
  abbrev pub Continued : Contexts P J → Contexts P J → RunKey → Type 0
  Continued contexts contexts' k =
      (found : RunContext P J)
      → get contexts k ≡ some found
      → (c' : RunContext P J) × (get contexts' k ≡ some c') × (c'.context ≡ found.context)

  run_active-contexts :
      (j : RunKey) (round round' : Round P J W) (k : RunKey)
      → run_active engine j round ≡ ok round'
      → (is_some (get round'.contexts k) ≡ (j == k || is_some (get round.contexts k)))
        × Continued round.contexts round'.contexts k
        × SameRuns round.state round'.state
  run_active-contexts j round round' k e =
      let (c', stored, context, runs) = run_active_lem j round round' e in
      let found_at : get round'.contexts k ≡ (if j == k then some c' else get round.contexts k) =
        ap (λ m. get m k) stored ∙ get-insert round.contexts j k c' in
      (
        ground (arith, found_at),
        λ found g. elim (Bool-cases (j == k)) [
          | inl same ↦ (
            c',
            found_at ∙ rw same refl,
            context found (ap (get round.contexts) ((pair_beq_iff nat_eq nat_eq j k).0 same) ∙ g),
          )
          | inr other ↦ (found, found_at ∙ rw other g, refl)
        ],
        runs,
      )

  run_all_lem :
      (active_runs : List RunKey) (round round' : Round P J W) (k : RunKey)
      → run_all engine active_runs round ≡ ok round'
      → (is_some (get round'.contexts k)
          ≡ (contains active_runs k || is_some (get round.contexts k)))
        × Continued round.contexts round'.contexts k
        × SameRuns round.state round'.state
  unfolding run_all
  run_all_lem [] round round' k e =
      rw (← ok-injective e) (refl, λ found g. (found, g, refl), (λ j. refl, refl))
  run_all_lem (j ∷ active_runs) round round' k e =
      let (middle, e1, e2) =
        >>=-eq-ok (run_active engine j round) (λ m. run_all engine active_runs m) e in
      let (here, kept, runs) = run_active-contexts j round middle k e1 in
      let (there, kept', runs') = run_all_lem active_runs middle round' k e2 in
      (
        ground (arith, here, there),
        λ found g.
            let (c, g', same) = kept found g in
            let (c', g'', same') = kept' c g' in (c', g'', same' ∙ same),
        SameRuns-trans round.state middle.state round'.state runs runs',
      )

  -- After a round of the loop the runs that have a context are exactly those that were active. A run
  -- that was active and had a context before keeps the profiles it was given then, and no run is
  -- changed by the round itself.
  pub run_round_lem :
      (round round' : Round P J W) (k : RunKey)
      → run_round engine round ≡ ok round'
      → (is_some (get round'.contexts k) ≡ contains round.state.active_runs k)
        × ((found : RunContext P J)
            → contains round.state.active_runs k ≡ true
            → get round.contexts k ≡ some found
            → (c' : RunContext P J) × (get round'.contexts k ≡ some c')
              × (c'.context ≡ found.context))
        × ((j : RunKey) → run_at round'.state j ≡ run_at round.state j)
        × (round'.state.active_runs ≡ round.state.active_runs)
  unfolding run_round
  run_round_lem round round' k e =
      let active_runs = round.state.active_runs in
      let start : Round P J W = record round { contexts = retain active_runs round.contexts } in
      let retained = get-retain active_runs round.contexts k in
      let (present, kept, runs) = run_all_lem active_runs start round' k e in
      (
        ground (arith, retained, present),
        λ found active g. kept found (retained ∙ rw active g),
        runs.0,
        runs.1,
      )
