-- ===== src/Orchestrator/Branch/Chosen.antt =====
-- The chosen branch of a conditional: `build_if_else_action` of tierkreis/src/orchestrator.rs.
use tierkreis.Base.{ℕ, ◌≡◌, ◌↔◌, String, Bool, true, false, some, arith, Outcome, ok}
use tierkreis.Location.{Location, with_node}
use tierkreis.Asset.{AssetSpec, Assets}
use tierkreis.Storage.{Bytes}
use tierkreis.State.{Nodes}
use tierkreis.Graph.{PortGraph, WorkflowGraph, connected_input_by_port_name}
use tierkreis.Query.{collect_input, output_asset}
use tierkreis.Orchestrator.Ready.{cond_of}
use tierkreis.Orchestrator.Branch.{
  branch_port, build_branch_action, build_if_else_action, completes,
}

module _ {P : PortGraph} {J : Type 0} (load_asset : Assets → String → Outcome Bytes) where
  branch_iff :
      (g : WorkflowGraph P J) (node_states : Nodes) (parent : Location) (n : ℕ) (port_name : String)
      (value : AssetSpec)
      → (build_branch_action P g node_states parent n port_name ≡ ok (completes parent n value))
        ↔ (collect_input P g node_states parent n port_name ≡ ok value)
  unfolding build_branch_action collect_input output_asset connected_input_by_port_name
  branch_iff g node_states parent n port_name value = ground arith

  -- Once the branch of a conditional is recorded, its action completes it with a value exactly when
  -- that value is what the input of the recorded branch is connected to.
  pub build_if_else_action_lem :
      (g : WorkflowGraph P J) (node_states : Nodes) (parent : Location) (n : ℕ) (b : Bool)
      (value : AssetSpec)
      → cond_of node_states (with_node parent n) ≡ some b
      → (build_if_else_action P load_asset g node_states parent n ≡ ok (completes parent n value))
        ↔ (collect_input P g node_states parent n (branch_port b) ≡ ok value)
  unfolding build_if_else_action
  build_if_else_action_lem g node_states parent n true value e =
      rw (e, build_if_else_action) (branch_iff g node_states parent n "if_true" value)
  build_if_else_action_lem g node_states parent n false value e =
      rw (e, build_if_else_action) (branch_iff g node_states parent n "if_false" value)
