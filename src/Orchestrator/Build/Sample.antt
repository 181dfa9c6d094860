-- ===== src/Orchestrator/Build/Sample.antt =====
-- Graphs, states and services for the examples: an `Eval` node and a `Map` node that run the graph of
-- a constant.
use tierkreis.Base.{ℕ, true, false, none, some, [], ◌∷◌, ok, nat_eq, string_eq, pair_eq}
use tierkreis.Bits.Plain.{plain_ops}
use tierkreis.Location.{node, map_index, root, component_eq, location_eq}
use tierkreis.Asset.{AssetSpec, memory}
use tierkreis.Storage.Plain.{plain_json}
use tierkreis.Storage.Memory.{Memory, storages_of}
use tierkreis.State.{Nodes, blank, blank_run}
use tierkreis.State.Runtime.{RunHandle}
use tierkreis.Graph.{WorkflowGraph, map_over, const, output, eval}
use tierkreis.Graph.Plain.{plain_graph}
use tierkreis.Orchestrator.Build.{Context, Shared, Services}

-- the output, an `Eval` node, and a constant that is its graph
abbrev pub outer : WorkflowGraph plain_graph ℕ
outer = record {
  graph = record { nodes = 0 ∷ 1 ∷ 2 ∷ []; links = (25, 10) ∷ (15, 0) ∷ [] };
  node_definitions = (0, output) ∷ (1, eval none none) ∷ (2, const 7) ∷ [];
  node_metadata = [];
  input_port_indices = (0, ("out", 0) ∷ []) ∷ (1, ("graph", 10) ∷ []) ∷ [];
  output_port_indices = (1, ("out", 15) ∷ []) ∷ (2, ("value", 25) ∷ []) ∷ [];
  node_names = [];
  port_names = (0, "out") ∷ (10, "graph") ∷ (15, "out") ∷ (25, "value") ∷ [];
  output_node = 0;
}

-- the output of a constant
abbrev pub inner : WorkflowGraph plain_graph ℕ
inner = record {
  graph = record { nodes = 0 ∷ 2 ∷ []; links = (25, 0) ∷ [] };
  node_definitions = (0, output) ∷ (2, const 7) ∷ [];
  node_metadata = [];
  input_port_indices = (0, ("out", 0) ∷ []) ∷ [];
  output_port_indices = (2, ("value", 25) ∷ []) ∷ [];
  node_names = [];
  port_names = (0, "out") ∷ (25, "value") ∷ [];
  output_node = 0;
}

abbrev pub asset : AssetSpec
asset = record { kind = memory; storage_name = "memory"; asset_key = 0 }

abbrev pub world : Memory
world = ("memory", (0, 7 ∷ []) ∷ []) ∷ []

abbrev pub handle : RunHandle
handle = record { workflow_id = 4; run_id = 9; attempt = 0 }

abbrev pub started : Nodes
started =
    (node 2 ∷ [], record blank { outputs = some (("value", asset) ∷ []) })
    ∷ (node 1 ∷ [], record blank { running_time = some 3 })
    ∷ []

abbrev pub services : Nodes → Services plain_graph ℕ Memory
services nodes = record {
  bits = plain_ops;
  values = record { null = 0; member = λ value name. none; is_empty_object = λ value. false };
  json = plain_json;
  storages = storages_of (λ _. true);
  graph_from_slice = λ bytes. ok inner;
  default_storage_name = "memory";
  run = handle;
  state = record {
    workflows = (4, (none, outer)) ∷ [];
    runs = ((9, 0), record blank_run { workflow_id = 4; nodes = nodes }) ∷ [];
    active_runs = (9, 0) ∷ [];
  };
}

abbrev pub context : Context ℕ
context = record {
  parent_loc = root;
  profiles = none;
  inherited_context = none;
  inherited_executor = none;
}

abbrev pub shared : Shared plain_graph ℕ Memory
shared = record { scheduled_this_lifetime = []; subworkflow_cache = []; world = world }

-- nothing has run yet: the constant is ready
abbrev pub fresh : Nodes
fresh = []

-- the constant has its value: the output is ready
abbrev pub valued : Nodes
valued = (node 2 ∷ [], record blank { outputs = some (("value", asset) ∷ []) }) ∷ []

-- the output, a `Map` node, and a constant that is its graph
abbrev pub mapping : WorkflowGraph plain_graph ℕ
mapping = record {
  graph = record { nodes = 0 ∷ 3 ∷ 2 ∷ []; links = (25, 30) ∷ (35, 0) ∷ [] };
  node_definitions = (0, output) ∷ (3, map_over [] none none) ∷ (2, const 7) ∷ [];
  node_metadata = [];
  input_port_indices = (0, ("out", 0) ∷ []) ∷ (3, ("graph", 30) ∷ []) ∷ [];
  output_port_indices = (3, ("out", 35) ∷ []) ∷ (2, ("value", 25) ∷ []) ∷ [];
  node_names = [];
  port_names = (0, "out") ∷ (30, "graph") ∷ (35, "out") ∷ (25, "value") ∷ [];
  output_node = 0;
}

-- the second element has its output, and is not marked yet
abbrev pub mapped : Nodes
mapped =
    (node 2 ∷ [], record blank { outputs = some (("value", asset) ∷ []) })
    ∷ (node 3 ∷ [], record blank { map_completed = some (true ∷ false ∷ []) })
    ∷ (node 3 ∷ map_index 1 ∷ node 0 ∷ [], record blank { outputs = some [] })
    ∷ []

-- both elements have an output under `x`
abbrev pub elements : Nodes
elements =
    (node 3 ∷ map_index 0 ∷ node 0 ∷ [], record blank { outputs = some (("x", asset) ∷ []) })
    ∷ (node 3 ∷ map_index 1 ∷ node 0 ∷ [], record blank { outputs = some (("x", asset) ∷ []) })
    ∷ []
