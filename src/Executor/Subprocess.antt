-- ===== src/Executor/Subprocess.antt =====
-- The loop of tierkreis/src/executor/subprocess.rs, which runs workers as processes. What `select!`
-- picks in each turn is a `Turn`; how a process has ended comes with it. Processes, the channel of
-- the events, the storages, and the texts that `miette` makes of an error are parameters.
pub mod Handle
pub mod Workers
pub mod Plans
pub mod Account
mod Tests
use Prim.Native.String.{◌++◌ as append}
use Prim.Native.Char.{Char, char, code}
use tierkreis.Base.{
  ℕ, zero, suc, String, Error, Bool, true, false, Option, none, some, List, [], ◌∷◌, map, Outcome,
  ok, err, panic, ◌>>=◌, ◌==◌, or_error, executor_failed, asset_unreadable, string_eq, nat_eq,
  nat_beq, pair_eq, if◌then◌else◌,
}
use tierkreis.Base.Map.{Map, get, insert, remove}
use tierkreis.Location.{Location, location_eq}
use tierkreis.Location.Text.{Text}
use tierkreis.Asset.{AssetSpec, Assets, memory, file}
use tierkreis.Event.{TaskHandle, NodeStatus, node_events, RuntimeEvent}
use tierkreis.Event.Send.{
  node_event, send_event, send_cancelled, send_complete, send_error, send_running, send_queued,
}
use tierkreis.Storage.{Storages, transfer_assets, reserve_asset_specs}
use tierkreis.Orchestrator.Plan.{TaskPlan}
use tierkreis.Executor.{expect_ok}
use tierkreis.Executor.Keys.{TaskKey}
use tierkreis.Executor.Subprocess.Workers.{
  WorkerCallArgs, ExitStatus, Processes, spawn_worker, identity_of, terminate,
}
use tierkreis.Executor.Subprocess.Handle.{
  process_identity, format_subprocess_handle, parse_subprocess_handle,
}

pub record BackgroundTaskPlan : Type 0 where
  pub workflow_run_id : ℕ
  pub attempt : ℕ
  pub loc : Location
  pub worker_name : String
  pub environment : Map String String
  pub output_storage_name : String
  pub worker_args : WorkerCallArgs
  pub outputs : Assets
  pub handle : Option TaskHandle

pub record BackgroundTask : Type 0 where
  pub workflow_run_id : ℕ
  pub attempt : ℕ
  pub loc : Location
  pub output_storage_name : String
  pub outputs : Assets

-- what the loop keeps; a future and its abort handle have the number of the spawn that made them
pub record Tasks (W C : Type 0) : Type 0 where
  pub world : W
  pub channel : C
  pub running : List BackgroundTask
  pub abort_handles : Map TaskKey ℕ
  pub spawned : ℕ
  pub aborted : List ℕ

-- the future at a position has ended: the process has exited, with what could be read of its
-- standard error, or the wait for it has failed, as that of an aborted future does
pub data Turn : Type 0 where
  cancelling : ℕ → ℕ → Location → Turn
  exited : ℕ → ExitStatus → Option String → Turn
  wait_failed : ℕ → Error → Turn
  submitted : BackgroundTaskPlan → Turn

abbrev pub key_of : BackgroundTask → TaskKey
key_of task = ((task.workflow_run_id, task.attempt), task.loc)

-- the future at a position, and the others
unfoldable pub take_running :
    List BackgroundTask → ℕ → Option (BackgroundTask × List BackgroundTask)
take_running [] n = none
take_running (task ∷ running) zero = some (task, running)
take_running (task ∷ running) (suc n) = elim (take_running running n) [
  | none ↦ none
  | some (taken, rest) ↦ some (taken, task ∷ rest)
]

module _ {W C : Type 0} (send : RuntimeEvent → C → Outcome C) where
  unfoldable pub process_cancelled_task : ℕ → ℕ → Location → Tasks W C → Outcome (Tasks W C)
  process_cancelled_task workflow_run_id attempt loc s =
      elim (get s.abort_handles ((workflow_run_id, attempt), loc)) [
        | none ↦ ok s
        | some handle ↦ send_cancelled send workflow_run_id attempt loc s.channel >>= λ sent.
            ok (record s {
              channel = sent;
              abort_handles = remove s.abort_handles ((workflow_run_id, attempt), loc);
              aborted = handle ∷ s.aborted;
            })
      ]

  module _ (report : Error → String × String) where
    -- an error event for the task
    abbrev pub fail_task : TaskKey → Error → Tasks W C → Outcome (Tasks W C)
    fail_task key e s =
        send_error send key.0.0 key.0.1 key.1 (report e).0 (report e).1 s.channel >>= λ sent.
        ok (record s { channel = sent })

    -- what a transfer that fails has saved before is under keys that nothing names
    abbrev pub save_outputs : Storages W → BackgroundTask → Tasks W C → Outcome (Tasks W C)
    save_outputs storages task s =
        elim (transfer_assets storages task.output_storage_name task.outputs s.world) [
          | ok (outputs, saved) ↦
              send_complete send task.workflow_run_id task.attempt ((task.loc, outputs) ∷ [])
                s.channel
              >>= λ sent. ok (record s { world = saved; channel = sent })
          | err e ↦ fail_task (key_of task) e s
          | panic ↦ panic
        ]

    unfoldable pub process_finished_task :
        Storages W → BackgroundTask → ExitStatus → Option String → Tasks W C → Outcome (Tasks W C)
    process_finished_task storages task exit_status stderr s =
        let s1 : Tasks W C = record s { abort_handles = remove s.abort_handles (key_of task) } in
        if exit_status.success
        then save_outputs storages task s1
        else (send_event send task.workflow_run_id task.attempt
              (node_events (
                node_event task.loc (
                  NodeStatus.error (append "Subprocess failed with error code: " exit_status.shown)
                    stderr)
                ∷ []))
              s.channel
            >>= λ sent. ok (record s1 { channel = sent }))

    module _ (processes : Processes W) where
      -- the events of a process that has been spawned, and the future that waits for it
      abbrev pub watch : BackgroundTaskPlan → Option ℕ → Tasks W C → Outcome (Tasks W C)
      watch internal_task id s =
          let run = internal_task.workflow_run_id in
          let attempt = internal_task.attempt in
          or_error executor_failed id >>= λ pid. identity_of processes pid s.world >>= λ identity.
          send_queued send run attempt internal_task.loc
            (some (format_subprocess_handle identity.0 identity.1)) s.channel
          >>= λ queued. send_running send run attempt internal_task.loc queued >>= λ sent.
              ok (record s {
                channel = sent;
                running =
                    (record {
                      workflow_run_id = run;
                      attempt = attempt;
                      loc = internal_task.loc;
                      output_storage_name = internal_task.output_storage_name;
                      outputs = internal_task.outputs;
                    })
                    ∷ s.running;
                abort_handles =
                    insert s.abort_handles ((run, attempt), internal_task.loc) s.spawned;
                spawned = suc s.spawned;
              })

      unfoldable pub start_task : BackgroundTaskPlan → Tasks W C → Outcome (Tasks W C)
      unfolding terminate spawn_worker
      start_task internal_task s = terminate processes internal_task.handle s.world >>= λ w.
          elim (spawn_worker processes internal_task.worker_name internal_task.worker_args
            internal_task.environment w) [
              | ok (id, spawned) ↦ watch internal_task id (record s { world = spawned })
              | err e ↦
                  fail_task
                    ((internal_task.workflow_run_id, internal_task.attempt), internal_task.loc) e
                    (record s { world = w })
              | panic ↦ panic
            ]

      module _ (storages : Storages W) where
        -- a branch of `select!` for a future that is not there is not taken
        unfoldable pub take_turn : Turn → Tasks W C → Outcome (Tasks W C)
        unfolding process_cancelled_task process_finished_task start_task take_running
        take_turn (cancelling workflow_run_id attempt loc) s =
            expect_ok (process_cancelled_task workflow_run_id attempt loc s)
        take_turn (exited n exit_status stderr) s = elim (take_running s.running n) [
          | none ↦ ok s
          | some (task, rest) ↦
              expect_ok (
                process_finished_task storages task exit_status stderr
                  (record s { running = rest }))
        ]
        take_turn (wait_failed n e) s = elim (take_running s.running n) [
          | none ↦ ok s
          | some (task, rest) ↦ expect_ok (fail_task (key_of task) e (record s { running = rest }))
        ]
        take_turn (submitted internal_task) s = expect_ok (start_task internal_task s)

        unfoldable pub process_tasks : List Turn → Tasks W C → Outcome (Tasks W C)
        unfolding take_turn
        process_tasks [] s = ok s
        process_tasks (turn ∷ turns) s = take_turn turn s >>= λ next. process_tasks turns next
