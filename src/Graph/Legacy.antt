-- ===== src/Graph/Legacy.antt =====
-- `LegacyWorkflowGraph` of tierkreis/src/graph.rs and what its conversion is made of; the
-- nodes are in Graph/Legacy/Convert, the links in Graph/Legacy/Links. A `BTreeMap` is an association list, whose order stands for that of the
-- keys. `MultiPortGraph::with_capacity` makes an empty graph.
pub mod Convert
pub mod Links
pub mod Laws
pub mod Nodes
pub mod Converted
pub mod Ports
pub mod Result
pub mod References
mod Plain
mod Tests
use Prim.Native.Char.{code}
use tierkreis.Base.{
  ℕ, suc, String, Bool, true, false, ◌||◌, Option, none, some, List, [], ◌∷◌, length, Outcome, ok,
  err, or_error, ◌>>=◌, malformed_function, nat_eq, string_eq, map, nat_beq, ◌==◌, if◌then◌else◌, ℤ,
  add,
}
use tierkreis.Base.Map.{Map, get, insert}
use tierkreis.Graph.{PortGraph, NodeDefinition, index_ports, name_ports}

abbrev pub ValueRef : Type 0
ValueRef = ℤ × String

-- the values of `outputs` are not read
pub data LegacyNodeDef (J : Type 0) : Type 0 where
  func : String → Map String ValueRef → Map String (List ℕ) → LegacyNodeDef J
  eval : ValueRef → Map String ValueRef → Map String (List ℕ) → LegacyNodeDef J
  -- body, inputs, continue port, outputs and name
  loop :
      ValueRef
      → Map String ValueRef
      → String
      → Map String (List ℕ)
      → Option String
      → LegacyNodeDef J
  map_over : ValueRef → Map String ValueRef → Map String (List ℕ) → LegacyNodeDef J
  const : J → LegacyNodeDef J
  -- pred, if_true and if_false
  if_else : ValueRef → ValueRef → ValueRef → LegacyNodeDef J
  eager_if_else : ValueRef → ValueRef → ValueRef → LegacyNodeDef J
  input : String → LegacyNodeDef J
  output : Map String ValueRef → LegacyNodeDef J

pub record LegacyNodeMetadata : Type 0 where
  pub context : Option String
  pub executor : Option String
  pub has_breakpoint : Bool

pub record LegacyWorkflowGraph (J : Type 0) : Type 0 where
  pub nodes : List (LegacyNodeDef J)
  pub graph_inputs : List String
  pub graph_output_idx : Option ℕ
  pub node_metadata : Map ℕ LegacyNodeMetadata

pub record ConversionState (P : PortGraph) (J : Type 0) : Type 0 where
  pub graph : PortGraph.Graph P
  pub node_definitions : Map ℕ (NodeDefinition J)
  pub node_metadata : Map ℕ Bool
  pub input_port_indices : Map ℕ (Map String ℕ)
  pub output_port_indices : Map ℕ (Map String ℕ)
  pub port_names : Map ℕ String
  pub node_names : Map ℕ String
  pub to_link : Map ℕ ValueRef
  pub output_node : Option ℕ

-- `strip_suffix("-*")`
unfoldable pub strip_wildcard : String → Option String
strip_wildcard String.[] = none
strip_wildcard (String.◌∷◌ c s) = elim (strip_wildcard s) [
  | none ↦ if String.◌∷◌ c s == "-*" then some "" else none
  | some prefix ↦ some (String.◌∷◌ c prefix)
]

-- `port == "*" || port.ends_with("-*")`
abbrev pub is_wildcard : String → Bool
is_wildcard port = elim (strip_wildcard port) [ none ↦ port == "*" | some prefix ↦ true ]

-- `split('.')`
unfoldable pub split_dots : String → List String
split_dots String.[] = "" ∷ []
split_dots (String.◌∷◌ c s) = elim (split_dots s) [
  | [] ↦ String.◌∷◌ c "" ∷ []
  | part ∷ parts ↦ if nat_beq (code c) b'.' then "" ∷ part ∷ parts else String.◌∷◌ c part ∷ parts
]

-- the worker and the task
unfoldable pub split_function : String → Outcome (String × String)
unfolding split_dots
split_function function_name = elim (split_dots function_name) [
  | [] ↦ err malformed_function
  | worker_name ∷ rest ↦ elim rest [
    | [] ↦ err malformed_function
    | task_name ∷ parts ↦ ok (worker_name, task_name)
  ]
]

abbrev pub context_in : Option LegacyNodeMetadata → Option String
context_in none = none
context_in (some metadata) = metadata.context

abbrev pub executor_in : Option LegacyNodeMetadata → Option String
executor_in none = none
executor_in (some metadata) = metadata.executor

-- the inputs that are connected to a port with a wildcard
unfoldable pub mapped_ports : Map String ValueRef → List String
unfolding strip_wildcard
mapped_ports [] = []
mapped_ports ((name, (from, connected)) ∷ inputs) =
    let rest = mapped_ports inputs in if is_wildcard connected then add name rest else rest

-- the zip of ports and inputs: what is to be linked
unfoldable pub link_later : List ℕ → Map String ValueRef → Map ℕ ValueRef → Map ℕ ValueRef
link_later [] inputs to_link = to_link
link_later (port ∷ ports) [] to_link = to_link
link_later (port ∷ ports) ((name, source) ∷ inputs) to_link =
    link_later ports inputs (insert to_link port source)

abbrev pub keys {ℓ} : {V : Type ℓ} → Map String V → List String
keys m = map (λ p. p.0) m

abbrev pub branch_inputs : ValueRef → ValueRef → ValueRef → Map String ValueRef
branch_inputs pred if_true if_false =
    ("pred", pred) ∷ ("if_true", if_true) ∷ ("if_false", if_false) ∷ []
