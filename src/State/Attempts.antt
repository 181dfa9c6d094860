-- ===== src/State/Attempts.antt =====
-- `new_attempt` of tierkreis/src/state/inmemory.rs. Attempts are counted in a `u32`.
pub mod Last
pub mod Fresh
use tierkreis.Base.{
  ℕ, zero, suc, ◌+◌, ◌%◌, String, Bool, ◌&&◌, Option, none, some, if◌then◌else◌, pair_eq, nat_eq,
  Outcome, ok, err, or_error, ◌>>=◌, run_not_found, inputs_not_found, run_still_active, length,
}
use tierkreis.Base.Map.{Map, get}
use tierkreis.Location.{location_eq, root, u32_size}
use tierkreis.Asset.{Assets}
use tierkreis.State.{Time, is_none}
use tierkreis.State.Runtime.{
  Runtime, RunHandle, Summary, open_run, load_workflow_run_state, summary,
}

-- the attempt, workflow, inputs and metadata of the run that the `while let` loop saw last
pub record Latest : Type 0 where
  pub attempt : ℕ
  pub workflow_id : ℕ
  pub inputs : Assets
  pub metadata : Map String String

-- `max_attempt_summary` has none of the three times
abbrev pub still_active : Summary → Bool
still_active found =
    is_none found.cancelled_time && (is_none found.error_time && is_none found.complete_time)

module _ {G : Type 0} where
  -- the loop looks up attempt after attempt until one is missing
  unfoldable pub find_latest : ℕ → Runtime G → ℕ → ℕ → Option Latest → Outcome (Option Latest)
  find_latest zero s run_id attempt latest = ok latest
  find_latest (suc fuel) s run_id attempt latest = elim (get s.runs (run_id, attempt)) [
    | none ↦ ok latest
    | some run ↦ or_error inputs_not_found (get run.inputs root) >>= λ inputs.
        find_latest fuel s run_id ((attempt + 1) % u32_size) (
          some (record {
            attempt = attempt;
            workflow_id = run.workflow_id;
            inputs = inputs;
            metadata = run.metadata;
          }))
  ]

  unfoldable pub open_next : ℕ → Time → Latest → Runtime G → Outcome (Runtime G × RunHandle)
  unfolding load_workflow_run_state summary open_run
  open_next run_id now latest s =
      let (s', h) = load_workflow_run_state run_id latest.attempt s in
      summary h s' >>= λ found.
      if still_active found
      then err run_still_active
      else ok (
          open_run (run_id, (latest.attempt + 1) % u32_size) latest.workflow_id latest.inputs
            latest.metadata now s')

  -- one round for each run that there is, and one that finds nothing
  unfoldable pub new_attempt : ℕ → Time → Runtime G → Outcome (Runtime G × RunHandle)
  unfolding find_latest open_next
  new_attempt run_id now s = find_latest (suc (length s.runs)) s run_id 0 none >>= λ found.
      or_error run_not_found found >>= λ latest. open_next run_id now latest s
