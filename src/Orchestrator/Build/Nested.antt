-- ===== src/Orchestrator/Build/Nested.antt =====
-- `build_eval_actions`, `build_loop_actions`, `build_map_actions` and the functions of map nodes in
-- tierkreis/src/orchestrator.rs. The call of `build_actions` on a subgraph is a parameter, `build`,
-- which Orchestrator/Build/Actions instantiates. A stream of actions is the list of what it yields,
-- and a stream that yields an error is that error.
use tierkreis.Base.{
  ℕ, zero, suc, ◌+◌, ◌%◌, String, Bool, true, false, Option, none, some, List, [], ◌∷◌, ◌++◌,
  Outcome, ok, panic, ◌>>=◌, or_error, if◌then◌else◌, ◌==◌, nat_eq, string_eq, list_eq, length,
  replicate, node_not_found,
}
use tierkreis.Base.Map.{Map, get, insert, remove, extend, get_or_default}
use tierkreis.Bits.{BitVec}
use tierkreis.Location.{
  Location, location_eq, component_eq, with_node, with_loop_index, with_map_index, u32_size,
}
use tierkreis.Asset.{AssetSpec, Assets}
use tierkreis.Storage.{load_asset, unfold_asset, fold_assets}
use tierkreis.State.{Nodes, is_some}
use tierkreis.State.Runtime.{read}
use tierkreis.Graph.{PortGraph, WorkflowGraph, output_idx, output_names}
use tierkreis.Query.{collect_inputs}
use tierkreis.Orchestrator.Plan.{
  Action, set_running_eval, set_running_loop, set_running_map, set_map_elem_complete, set_complete,
}
use tierkreis.Orchestrator.Branch.{true_bytes}
use tierkreis.Orchestrator.Build.{Context, with_location, Services, M, load_subgraph}

unfoldable pub is_running : Nodes → Location → Bool
is_running node_states loc = elim (get node_states loc) [
  | none ↦ false
  | some state ↦ is_some state.running_time
]

unfoldable pub loop_index_at : Nodes → Location → Option ℕ
loop_index_at node_states loc = elim (get node_states loc) [
  | none ↦ none
  | some state ↦ state.loop_index
]

unfoldable pub map_completed_at : Nodes → Location → Option BitVec
map_completed_at node_states loc = elim (get node_states loc) [
  | none ↦ none
  | some state ↦ state.map_completed
]

-- the assets of one mapped port put into the input sets; there may be too few sets, which panics
unfoldable pub insert_unfolded : String → List AssetSpec → List Assets → Outcome (List Assets)
insert_unfolded mapped_port [] input_sets = ok input_sets
insert_unfolded mapped_port (asset ∷ assets) [] = panic
insert_unfolded mapped_port (asset ∷ assets) (input_set ∷ input_sets) =
    insert_unfolded mapped_port assets input_sets >>= λ rest.
    ok (insert input_set mapped_port asset ∷ rest)

-- as many copies of the inputs as there are assets, when there are no input sets yet
unfoldable pub start_sets : Assets → ℕ → List Assets → List Assets
start_sets inputs total [] = replicate total inputs
start_sets inputs total (input_set ∷ input_sets) = input_set ∷ input_sets

-- `asset_bundles.entry(k).or_default().push(v)` for the outputs of one element
unfoldable pub push_outputs : Assets → Map String (List AssetSpec) → Map String (List AssetSpec)
push_outputs [] bundles = bundles
push_outputs ((k, v) ∷ outputs) bundles =
    push_outputs outputs (insert bundles k (get_or_default [] bundles k ++ v ∷ []))

-- the bundles before the first element
unfoldable pub empty_bundles : List String → Map String (List AssetSpec)
empty_bundles [] = []
empty_bundles (name ∷ names) = insert (empty_bundles names) name []

module _ {P : PortGraph} {J W : Type 0} (env : Services P J W) where
  open env use {bits, json, storages, default_storage_name, run, state}

  -- what follows an iteration with outputs
  unfoldable pub next_iteration :
      Context J
      → WorkflowGraph P J
      → Nodes
      → ℕ
      → Option String
      → ℕ
      → Assets
      → M env (List (Action J))
  next_iteration context g node_states n name index outputs shared =
      let loc = with_node context.parent_loc n in
      load_asset storages outputs "should_continue" shared.world >>= λ should_continue_bytes.
      if should_continue_bytes == true_bytes
      then (collect_inputs P g node_states context.parent_loc n >>= λ inputs. ok (
        record {
          loc = loc;
          kind = set_running_loop ((index + 1) % u32_size) (extend inputs outputs) name;
        }
            ∷ [],
        shared,
      ))
      else ok (record { loc = loc; kind = set_complete outputs } ∷ [], shared)

  module _ (build : Context J → WorkflowGraph P J → M env (List (Action J))) where
    unfoldable pub build_eval_actions :
        Context J → WorkflowGraph P J → Nodes → ℕ → M env (List (Action J))
    unfolding is_running
    build_eval_actions context g node_states n shared =
        let loc = with_node context.parent_loc n in
        if is_running node_states loc
        then (load_subgraph env context g node_states n true shared >>= λ (subgraph, loaded).
            read run (with_node loc (output_idx P subgraph)) state >>= λ subgraph_output_state.
            elim subgraph_output_state.outputs [
              | some outputs ↦ ok (record { loc = loc; kind = set_complete outputs } ∷ [], loaded)
              | none ↦ build (with_location context loc) subgraph loaded
            ])
        else (collect_inputs P g node_states context.parent_loc n >>= λ inputs.
            ok (record { loc = loc; kind = set_running_eval (remove inputs "graph") } ∷ [], shared))

    -- the subgraph of an iteration
    unfoldable pub build_iteration :
        Context J → WorkflowGraph P J → Nodes → ℕ → Option String → ℕ → M env (List (Action J))
    unfolding next_iteration
    build_iteration context g node_states n name index shared =
        let loop_loc = with_loop_index (with_node context.parent_loc n) index in
        load_subgraph env context g node_states n false shared >>= λ (subgraph, loaded).
        read run (with_node loop_loc (output_idx P subgraph)) state >>= λ output_state.
        elim output_state.outputs [
          | none ↦ build (with_location context loop_loc) subgraph loaded
          | some outputs ↦ next_iteration context g node_states n name index outputs loaded
        ]

    unfoldable pub build_loop_actions :
        Context J → WorkflowGraph P J → Nodes → ℕ → Option String → M env (List (Action J))
    unfolding loop_index_at build_iteration
    build_loop_actions context g node_states n name shared =
        let loc = with_node context.parent_loc n in
        elim (loop_index_at node_states loc) [
          | none ↦ collect_inputs P g node_states context.parent_loc n >>= λ inputs. ok (
            record { loc = loc; kind = set_running_loop 0 (remove inputs "graph") name } ∷ [],
            shared,
          )
          | some index ↦ build_iteration context g node_states n name index shared
        ]

    -- the element of an index, unless it is complete
    unfoldable pub build_map_elem :
        Context J → ℕ → ℕ → WorkflowGraph P J → ℕ → Bool → M env (List (Action J))
    build_map_elem context n map_size subgraph index true shared = ok ([], shared)
    build_map_elem context n map_size subgraph index false shared =
        let location = with_node context.parent_loc n in
        with_map_index location index >>= λ map_loc.
        build (with_location context map_loc) subgraph shared >>= λ (actions, built).
        read run (with_node map_loc (output_idx P subgraph)) state >>= λ output_state.
        elim output_state.outputs [
          | none ↦ ok (actions, built)
          | some outputs ↦ ok (
            actions ++ record { loc = location; kind = set_map_elem_complete map_size index } ∷ [],
            built,
          )
        ]

    -- the elements from an index on
    unfoldable pub build_map_elems :
        Context J → ℕ → ℕ → WorkflowGraph P J → ℕ → BitVec → M env (List (Action J))
    unfolding build_map_elem
    build_map_elems context n map_size subgraph index [] shared = ok ([], shared)
    build_map_elems context n map_size subgraph index (completed ∷ rest) shared =
        build_map_elem context n map_size subgraph index completed shared >>= λ (actions, built).
        build_map_elems context n map_size subgraph (suc index) rest built >>= λ (others, done).
        ok (actions ++ others, done)

    unfoldable pub build_subsequent_map_actions :
        Context J → ℕ → BitVec → WorkflowGraph P J → M env (List (Action J))
    unfolding build_map_elems
    build_subsequent_map_actions context n completed subgraph shared =
        build_map_elems context n (length completed) subgraph 0 completed shared

  -- the mapped ports one after the other
  unfoldable pub unfold_ports : Assets → List String → List Assets → M env (List Assets)
  unfolding insert_unfolded start_sets
  unfold_ports inputs [] input_sets shared = ok (input_sets, shared)
  unfold_ports inputs (mapped_port ∷ mapped_ports) input_sets shared =
      unfold_asset storages json inputs mapped_port shared.world >>= λ (unfolded_assets, w).
      insert_unfolded mapped_port unfolded_assets
        (start_sets inputs (length unfolded_assets) input_sets)
      >>= λ filled. unfold_ports inputs mapped_ports filled (record shared { world = w })

  unfoldable pub build_initial_map_actions :
      Context J → WorkflowGraph P J → Nodes → List String → ℕ → M env (List (Action J))
  unfolding unfold_ports
  build_initial_map_actions context g node_states mapped_ports n shared =
      collect_inputs P g node_states context.parent_loc n >>= λ collected.
      unfold_ports (remove collected "graph") mapped_ports [] shared >>= λ (input_sets, unfolded).
      ok (
        record { loc = with_node context.parent_loc n; kind = set_running_map input_sets } ∷ [],
        unfolded,
      )

  -- the outputs of the elements below `map_size`, from an index on
  unfoldable pub bundle_outputs :
      Location → ℕ → ℕ → ℕ → Map String (List AssetSpec) → Outcome (Map String (List AssetSpec))
  unfolding push_outputs
  bundle_outputs loc output_node index zero bundles = ok bundles
  bundle_outputs loc output_node index (suc left) bundles = with_map_index loc index >>= λ map_loc.
      read run (with_node map_loc output_node) state >>= λ output_state.
      or_error node_not_found output_state.outputs >>= λ outputs.
      bundle_outputs loc output_node (suc index) left (push_outputs outputs bundles)

  unfoldable pub fold_bundles : Map String (List AssetSpec) → M env Assets
  fold_bundles [] shared = ok ([], shared)
  fold_bundles ((name, asset_specs) ∷ bundles) shared =
      fold_assets storages json default_storage_name asset_specs shared.world
      >>= λ (folded_asset_spec, w).
          fold_bundles bundles (record shared { world = w }) >>= λ (outputs, done).
          ok ((name, folded_asset_spec) ∷ outputs, done)

  unfoldable pub build_completed_map_action :
      Context J → WorkflowGraph P J → ℕ → ℕ → ℕ → M env (List (Action J))
  unfolding bundle_outputs fold_bundles empty_bundles
  build_completed_map_action context g n map_size output_node shared =
      let loc = with_node context.parent_loc n in
      output_names P g n >>= λ names.
      bundle_outputs loc output_node 0 map_size (empty_bundles names) >>= λ bundles.
      fold_bundles bundles shared >>= λ (outputs, folded).
      ok (record { loc = loc; kind = set_complete outputs } ∷ [], folded)

  module _ (build : Context J → WorkflowGraph P J → M env (List (Action J))) where
    unfoldable pub build_map_actions :
        Context J → WorkflowGraph P J → Nodes → List String → ℕ → M env (List (Action J))
    unfolding map_completed_at build_initial_map_actions build_completed_map_action
        build_subsequent_map_actions
    build_map_actions context g node_states mapped_ports n shared =
        load_subgraph env context g node_states n false shared >>= λ (subgraph, loaded).
        elim (map_completed_at node_states (with_node context.parent_loc n)) [
          | none ↦ build_initial_map_actions context g node_states mapped_ports n loaded
          | some completed ↦
              if bits.all_set completed
              then build_completed_map_action context g n (length completed) (output_idx P subgraph)
                  loaded
              else build_subsequent_map_actions build context n completed subgraph loaded
        ]
