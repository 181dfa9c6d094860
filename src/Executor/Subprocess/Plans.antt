-- ===== src/Executor/Subprocess/Plans.antt =====
-- `execute` and `cancel` of `SubprocessExecutor` of tierkreis/src/executor/subprocess.rs. The files
-- that `execute` makes and the join of a path are parameters; the JSON of a worker's arguments is
-- the record of them.
pub mod Sent
use tierkreis.Base.{
  ℕ, String, Option, none, some, List, [], ◌∷◌, ◌++◌, map, length, Outcome, ok, err, panic, ◌>>=◌,
  or_error, external, asset_unreadable, string_eq, Step,
}
use tierkreis.Base.Map.{Map}
use tierkreis.Location.{Location}
use tierkreis.Asset.{AssetSpec, Assets, memory, file}
use tierkreis.Storage.{Storages, transfer_assets, reserve_asset_specs}
use tierkreis.Orchestrator.Plan.{TaskPlan}
use tierkreis.Executor.Subprocess.Workers.{WorkerCallArgs}
use tierkreis.Executor.Subprocess.{BackgroundTaskPlan, Turn, cancelling}

-- the paths of the temporary files, and `as_str` of a JSON value
pub record Files (W J : Type 0) : Type 0 where
  pub join : String → ℕ → String
  pub temporary : W → Outcome (String × W)
  pub as_str : J → Option String

-- `outputs.into_iter().zip(specs)`
abbrev pub zip : List String → List AssetSpec → Assets
zip [] specs = []
zip (name ∷ names) [] = []
zip (name ∷ names) (spec ∷ specs) = (name, spec) ∷ zip names specs

module _ {W J : Type 0} (files : Files W J) where
  open files use {join, temporary, as_str}

  unfoldable pub path : AssetSpec → Outcome String
  path spec = elim spec.kind [
    | memory ↦ err asset_unreadable
    | file root ↦ ok (join root spec.asset_key)
  ]

  unfoldable pub write_input_paths : Assets → Outcome (Map String String)
  unfolding path
  write_input_paths [] = ok []
  write_input_paths ((key, value) ∷ inputs) =
      path value >>= λ p. write_input_paths inputs >>= λ paths. ok ((key, p) ∷ paths)

  -- each value is a string
  unfoldable pub environment_of : Map String J → Outcome (Map String String)
  environment_of [] = ok []
  environment_of ((key, value) ∷ environment) = or_error external (as_str value) >>= λ text.
      environment_of environment >>= λ rest. ok ((key, text) ∷ rest)

  module _ (storages : Storages W) (subprocess_storage_name output_storage_name : String) where
    unfoldable pub build_inputs : Assets → W → Outcome (Map String String × W)
    unfolding write_input_paths
    build_inputs inputs w =
        transfer_assets storages subprocess_storage_name inputs w >>= λ (moved, w).
        write_input_paths moved >>= λ paths. ok (paths, w)

    unfoldable pub build_outputs : List String → W → Outcome ((Assets × Map String String) × W)
    unfolding write_input_paths
    build_outputs outputs w =
        reserve_asset_specs storages subprocess_storage_name (length outputs) w >>= λ (specs, w).
        let named = zip outputs specs in
        write_input_paths named >>= λ output_paths. ok ((named, output_paths), w)

    -- one round of the loop over the plans
    unfoldable pub prepare : TaskPlan J → W → Outcome (BackgroundTaskPlan × W)
    unfolding environment_of build_inputs build_outputs
    prepare task_plan w = environment_of task_plan.environment >>= λ environment.
        build_inputs task_plan.inputs w >>= λ (inputs, w).
        build_outputs task_plan.outputs w >>= λ ((outputs, output_paths), w).
        temporary w >>= λ (done_path, w). temporary w >>= λ (error_path, w). ok (
          record {
            workflow_run_id = task_plan.workflow_run_id;
            attempt = task_plan.attempt;
            loc = task_plan.loc;
            worker_name = task_plan.worker_name;
            environment = environment;
            output_storage_name = elim task_plan.output_storage_name [
              | none ↦ output_storage_name
              | some name ↦ name
            ];
            worker_args = record {
              function_name = task_plan.task_name;
              inputs = inputs;
              outputs = output_paths;
              output_dir = "";
              done_path = done_path;
              error_path = error_path;
              logs_path = none;
            };
            outputs = outputs;
            handle = task_plan.task_handle;
          },
          w,
        )

    -- the plans that are sent before one fails stay sent; of a plan that fails, what it has saved
    -- or reserved is under keys that nothing names
    unfoldable pub execute : List (TaskPlan J) → Step (W × List BackgroundTaskPlan) (Unit {0})
    execute [] s = (ok tt, s)
    execute (task_plan ∷ task_plans) (w, sent) = elim (prepare task_plan w) [
      | ok (plan, w) ↦ execute task_plans (w, sent ++ plan ∷ [])
      | err e ↦ (err e, (w, sent))
      | panic ↦ (panic, (w, sent))
    ]

-- the requests that `cancel` puts on its channel
unfoldable pub cancel : ℕ → ℕ → List Location → List Turn
cancel workflow_run_id attempt task_locations =
    map (λ task_location. cancelling workflow_run_id attempt task_location) task_locations
