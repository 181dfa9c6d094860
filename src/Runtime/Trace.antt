-- ===== src/Runtime/Trace.antt =====
-- `read_loop_trace_by_name` of tierkreis/src/runtime.rs. The loop over the iterations is on fuel, and
-- without any it ends as at an iteration that is not complete. A graph is loaded by a parameter.
pub mod Iterations
use tierkreis.Base.{
  ℕ, zero, suc, ◌+◌, ◌%◌, String, Bool, true, false, Option, none, some, List, [], ◌∷◌, ◌++◌,
  Outcome, ok, err, ◌>>=◌, or_error, if◌then◌else◌, ◌==◌, string_eq, nat_eq, node_not_found,
  output_not_found, length,
}
use tierkreis.Base.Map.{Map, get, insert, get_or_default}
use tierkreis.Bits.{BitOps}
use tierkreis.Location.{Location, with_node, with_loop_index, u32_size}
use tierkreis.Asset.{AssetSpec}
use tierkreis.Storage.{Bytes, Storages, load_assets}
use tierkreis.State.{NodeState, Nodes, is_some}
use tierkreis.State.Runtime.{
  Runtime, RunHandle, key, load_workflow, load_workflow_run_state, read, read_by_name, read_many,
  run_at,
}
use tierkreis.Graph.{PortGraph, WorkflowGraph, output_idx}
use tierkreis.Query.{find_subgraph_input}

-- the outputs of one step
abbrev pub Step : Type 0
Step = Location × Map String Bytes

-- where the outputs of an iteration are
abbrev pub output_location : Location → ℕ → ℕ → Location
output_location loop_location output_node loop_index =
    with_node (with_loop_index loop_location loop_index) output_node

-- the selected output of each step
unfoldable pub select_output : String → List Step → Outcome (List Bytes)
select_output output_name [] = ok []
select_output output_name (step ∷ trace) =
    or_error output_not_found (get step.1 output_name) >>= λ value.
    select_output output_name trace >>= λ output. ok (value ∷ output)

-- `outputs.entry(key).or_default().push(value)` for all but `should_continue`
unfoldable pub push_values : Map String Bytes → Map String (List Bytes) → Map String (List Bytes)
push_values [] outputs = outputs
push_values ((k, value) ∷ step_outputs) outputs = push_values step_outputs (
    if k == "should_continue"
    then outputs
    else insert outputs k (get_or_default [] outputs k ++ value ∷ []))

unfoldable pub push_trace : List Step → Map String (List Bytes) → Map String (List Bytes)
unfolding push_values
push_trace [] outputs = outputs
push_trace (step ∷ trace) outputs = push_trace trace (push_values step.1 outputs)

unfoldable pub outputs_of : Option String → List Step → Outcome (Map String (List Bytes))
unfolding select_output push_trace
outputs_of none trace = ok (push_trace trace [])
outputs_of (some output_name) trace =
    select_output output_name trace >>= λ output. ok ((output_name, output) ∷ [])

unfoldable pub first_location : Nodes → Outcome Location
first_location [] = err node_not_found
first_location ((loc, state) ∷ nodes) = ok loc

module _ {G W : Type 0} (storages : Storages W) (h : RunHandle) (loop_location : Location)
    (output_node : ℕ) (s : Runtime G) (w : W) where
  -- the `while` loop from an index on
  unfoldable pub read_steps : ℕ → ℕ → Outcome (List Step)
  read_steps zero loop_index = ok []
  read_steps (suc fuel) loop_index =
      let rest = read_steps fuel ((loop_index + 1) % u32_size) in
      let location = output_location loop_location output_node loop_index in
      read h location s >>= λ state.
      if is_some state.complete_time
      then (or_error output_not_found state.outputs >>= λ specs.
          load_assets storages specs w >>= λ outputs.
          rest >>= λ trace. ok ((location, outputs) ∷ trace))
      else ok []

module _ {P : PortGraph} {J W : Type 0} (storages : Storages W) (bits : BitOps)
    (load_subgraph : AssetSpec → Outcome (WorkflowGraph P J)) where
  -- a step for each state of the run, and one that finds none
  unfoldable pub read_loop_trace_by_name :
      ℕ
      → ℕ
      → String
      → Option String
      → Runtime (WorkflowGraph P J)
      → W
      → Outcome (Map String (List Bytes))
  unfolding first_location read_steps outputs_of
  read_loop_trace_by_name run_id attempt name output_name s w =
      let (loaded, h) = load_workflow_run_state run_id attempt s in
      load_workflow loaded h.workflow_id >>= λ workflow.
      read_by_name h name loaded >>= λ named_states.
      first_location named_states >>= λ loop_location.
      find_subgraph_input P bits (λ locs. read_many h locs loaded) load_subgraph workflow.1
        loop_location
      >>= λ subgraph.
          read_steps storages h loop_location (output_idx P subgraph) loaded w
            (suc (length (run_at loaded (key h)).nodes)) 0
          >>= λ trace. outputs_of output_name trace
