-- ===== src/Executor/Subprocess/Plans/Sent.antt =====
-- What `execute` of tierkreis/src/executor/subprocess.rs puts on the channel of the tasks.
use mathlib.Core.List.{append-nil}
use tierkreis.Base.{
  String, ◌≡◌, refl, ap, ◌∙◌, List, [], ◌∷◌, ◌++◌, map, Outcome, ok, err, panic, Bool, true, false,
  Error, ◌⊎◌, inl, inr, arith,
}
use tierkreis.Storage.{Storages}
use tierkreis.Storage.Laws.{is_ok}
use tierkreis.Orchestrator.Plan.{TaskPlan}
use tierkreis.Executor.Keys.{TaskKey}
use tierkreis.Executor.Subprocess.{BackgroundTaskPlan}
use tierkreis.Executor.Subprocess.Plans.{Files, prepare, execute}

abbrev pub task_key : {J : Type 0} → TaskPlan J → TaskKey
task_key plan = ((plan.workflow_run_id, plan.attempt), plan.loc)

abbrev pub plan_key : BackgroundTaskPlan → TaskKey
plan_key plan = ((plan.workflow_run_id, plan.attempt), plan.loc)

abbrev pub is_empty : {A : Type 0} → List A → Bool
is_empty [] = true
is_empty _ = false

map-snoc :
    (sent : List BackgroundTaskPlan) (plan : BackgroundTaskPlan) (keys : List TaskKey)
    → map plan_key (sent ++ plan ∷ []) ++ keys ≡ map plan_key sent ++ plan_key plan ∷ keys
map-snoc [] plan keys = refl
map-snoc (p ∷ sent) plan keys = ap (◌∷◌ (plan_key p)) (map-snoc sent plan keys)

Outcome-cases :
    {A : Type 0} (o : Outcome A)
    → ((a : A) × (o ≡ ok a)) ⊎ (((e : Error) × (o ≡ err e)) ⊎ (o ≡ panic))
Outcome-cases (ok a) = inl (a, refl)
Outcome-cases (err e) = inr (inl (e, refl))
Outcome-cases panic = inr (inr refl)

module _ {W J : Type 0} (files : Files W J) (storages : Storages W)
    (subprocess_storage_name output_storage_name : String) where
  plan_key-prepare :
      (task_plan : TaskPlan J) (w w' : W) {plan : BackgroundTaskPlan}
      → prepare files storages subprocess_storage_name output_storage_name task_plan w
        ≡ ok (plan, w')
      → plan_key plan ≡ task_key task_plan
  unfolding prepare
  plan_key-prepare task_plan w w' h = ground arith

  abbrev executed :
      List (TaskPlan J)
      → W
      → List BackgroundTaskPlan
      → Outcome (Unit {0}) × (W × List BackgroundTaskPlan)
  executed task_plans w sent =
      execute files storages subprocess_storage_name output_storage_name task_plans (w, sent)

  module _ (task_plan : TaskPlan J) (task_plans : List (TaskPlan J)) (w : W)
      (sent : List BackgroundTaskPlan) where
    executed-ok :
        {plan : BackgroundTaskPlan} {w' : W}
        → prepare files storages subprocess_storage_name output_storage_name task_plan w
          ≡ ok (plan, w')
        → executed (task_plan ∷ task_plans) w sent ≡ executed task_plans w' (sent ++ plan ∷ [])
    unfolding execute
    executed-ok e = rw (e, execute) refl

    executed-err :
        {error : Error}
        → prepare files storages subprocess_storage_name output_storage_name task_plan w ≡ err error
        → executed (task_plan ∷ task_plans) w sent ≡ (err error, (w, sent))
    unfolding execute
    executed-err e = rw (e, execute) refl

    executed-panic :
        prepare files storages subprocess_storage_name output_storage_name task_plan w ≡ panic
        → executed (task_plan ∷ task_plans) w sent ≡ (panic, (w, sent))
    unfolding execute
    executed-panic e = rw (e, execute) refl

  -- `execute` sends plans for the tasks of a front part of the list, in its order, behind what has
  -- been sent before. It succeeds exactly when the part is the whole list.
  pub execute_lem :
      (task_plans : List (TaskPlan J)) (w : W) (sent : List BackgroundTaskPlan)
      → (done : List (TaskPlan J)) × (rest : List (TaskPlan J)) × (task_plans ≡ done ++ rest)
        × (map plan_key (executed task_plans w sent).1.1 ≡ map plan_key sent ++ map task_key done)
        × (is_ok (executed task_plans w sent).0 ≡ is_empty rest)
  unfolding execute
  execute_lem [] w sent = ([], [], refl, rw append-nil, refl)
  execute_lem (task_plan ∷ task_plans) w sent =
      elim (Outcome-cases
        (prepare files storages subprocess_storage_name output_storage_name task_plan w)) [
          | inl ((plan, w'), e) ↦
              let (done, rest, parts, keys, whole) =
                execute_lem task_plans w' (sent ++ plan ∷ []) in
              let run = executed-ok task_plan task_plans w sent e in
              (
                task_plan ∷ done,
                rest,
                ap (◌∷◌ task_plan) parts,
                ap (λ r. map plan_key r.1.1) run
                    ∙ keys
                    ∙ map-snoc sent plan (map task_key done)
                    ∙ ap (λ key. map plan_key sent ++ key ∷ map task_key done)
                        (plan_key-prepare task_plan w w' e),
                ap (λ r. is_ok r.0) run ∙ whole,
              )
          | inr (inl (error, e)) ↦
              let run = executed-err task_plan task_plans w sent e in
              (
                [],
                task_plan ∷ task_plans,
                refl,
                ap (λ r. map plan_key r.1.1) run ∙ rw append-nil refl,
                ap (λ r. is_ok r.0) run,
              )
          | inr (inr e) ↦
              let run = executed-panic task_plan task_plans w sent e in
              (
                [],
                task_plan ∷ task_plans,
                refl,
                ap (λ r. map plan_key r.1.1) run ∙ rw append-nil refl,
                ap (λ r. is_ok r.0) run,
              )
        ]
