-- ===== src/Orchestrator/Branch.antt =====
-- `build_if_else_action`, `build_branch_action` and `build_eager_if_else_action` of
-- tierkreis/src/orchestrator.rs. The bytes of an asset are read by a parameter.
pub mod Chosen
use tierkreis.Base.{
  ℕ, ◌≡◌, ◌↔◌, refl, String, Bool, true, false, Option, none, some, List, [], ◌∷◌, arith,
  if◌then◌else◌, Outcome, ok, err, ◌>>=◌, or_error, expect, ok-injective, node_not_found,
  output_not_found, nat_eq, string_eq, list_eq, ◌==◌, Option-cases, inl, inr,
}
use tierkreis.Base.Map.{get}
use tierkreis.Location.{Location, location_eq, component_eq, with_node}
use tierkreis.Asset.{AssetSpec, Assets}
use tierkreis.Storage.{Bytes}
use tierkreis.State.{NodeState, Nodes}
use tierkreis.Graph.{
  PortGraph, WorkflowGraph, connected_input_by_port_name, connected_input, get_input_port_index,
  get_port_name,
}
use tierkreis.Query.{collect_input, collect_inputs, output_asset}
use tierkreis.Orchestrator.Ready.{cond_of}
use tierkreis.Orchestrator.Plan.{Action, ActionKind, set_switching, set_complete}

abbrev pub true_bytes : Bytes
true_bytes = b't' ∷ b'r' ∷ b'u' ∷ b'e' ∷ []

abbrev pub branch_port : Bool → String
branch_port true = "if_true"
branch_port false = "if_false"

-- completes the node with the one output `value`
abbrev pub completes : {J : Type 0} → Location → ℕ → AssetSpec → Action J
completes parent n value = record {
  loc = with_node parent n;
  kind = set_complete (("value", value) ∷ []);
}

module _ (P : PortGraph) {J : Type 0} where
  unfoldable pub build_branch_action :
      WorkflowGraph P J → Nodes → Location → ℕ → String → Outcome (Action J)
  build_branch_action g node_states parent n port_name =
      connected_input_by_port_name P g n port_name >>= λ connected.
      or_error node_not_found (get node_states (with_node parent connected.0)) >>= λ node_state.
      get_port_name P g connected.1 >>= λ connected_port_name.
      or_error node_not_found node_state.outputs >>= λ outputs.
      or_error output_not_found (get outputs connected_port_name) >>= λ value.
      ok (record { loc = with_node parent n; kind = set_complete (("value", value) ∷ []) })

  module _ (load_asset : Assets → String → Outcome Bytes) where
    unfoldable pub build_if_else_action :
        WorkflowGraph P J → Nodes → Location → ℕ → Outcome (Action J)
    unfolding build_branch_action
    build_if_else_action g node_states parent n = elim (cond_of node_states (with_node parent n)) [
      | none ↦ connected_input_by_port_name P g n "pred" >>= λ connected.
          or_error node_not_found (get node_states (with_node parent connected.0)) >>= λ pred_state.
          get_port_name P g connected.1 >>= λ connected_port_name.
          or_error node_not_found pred_state.outputs >>= λ outputs.
          load_asset outputs connected_port_name >>= λ pred_bytes.
          ok (record { loc = with_node parent n; kind = set_switching (pred_bytes == true_bytes) })
      | some true ↦ build_branch_action g node_states parent n "if_true"
      | some false ↦ build_branch_action g node_states parent n "if_false"
    ]

    unfoldable pub build_eager_if_else_action :
        WorkflowGraph P J → Nodes → Location → ℕ → Outcome (Action J)
    build_eager_if_else_action g node_states parent n =
        collect_inputs P g node_states parent n >>= λ inputs.
        load_asset inputs "pred" >>= λ pred_bytes.
        expect (get inputs (branch_port (pred_bytes == true_bytes))) >>= λ value.
        ok (record { loc = with_node parent n; kind = set_complete (("value", value) ∷ []) })
