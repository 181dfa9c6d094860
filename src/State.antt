-- ===== src/State.antt =====
-- The data of tierkreis/src/state/interface.rs and tierkreis/src/state/inmemory.rs. A time is a
-- number; the workflow graphs are of a type `G`, which these modules only store.
pub mod Handle
pub mod Runtime
pub mod Attempts
pub mod Listing
mod Tests
use tierkreis.Base.{ℕ, String, ◌≡◌, Bool, true, false, not, ◌&&◌, Option, none, some, List, []}
use tierkreis.Base.Map.{Map}
use tierkreis.Bits.{BitVec}
use tierkreis.Location.{Location}
use tierkreis.Asset.{Assets}
use tierkreis.Event.{TaskHandle}

abbrev pub Time : Type 0
Time = ℕ

pub record NodeState : Type 0 where
  pub name : Option String
  pub scheduled_time : Option Time
  pub queued_time : Option Time
  pub paused_time : Option Time
  pub unpaused_time : Option Time
  pub running_time : Option Time
  pub complete_time : Option Time
  pub cancelled_time : Option Time
  pub error_time : Option Time
  pub outputs : Option Assets
  pub cond : Option Bool
  pub loop_index : Option ℕ
  pub map_completed : Option BitVec
  pub error : Option String
  pub error_detail : Option String
  pub handle : Option TaskHandle
  pub execution_context : Option String

-- `NodeState::default()`
abbrev pub blank : NodeState
blank = record {
  name = none;
  scheduled_time = none;
  queued_time = none;
  paused_time = none;
  unpaused_time = none;
  running_time = none;
  complete_time = none;
  cancelled_time = none;
  error_time = none;
  outputs = none;
  cond = none;
  loop_index = none;
  map_completed = none;
  error = none;
  error_detail = none;
  handle = none;
  execution_context = none;
}

abbrev pub is_some {ℓ} : {A : Type ℓ} → Option A → Bool
is_some none = false
is_some (some a) = true

abbrev pub is_none {ℓ} : {A : Type ℓ} → Option A → Bool
is_none none = true
is_none (some a) = false

unfoldable pub is_paused : NodeState → Bool
is_paused state = is_some state.paused_time && is_none state.unpaused_time

abbrev pub Nodes : Type 0
Nodes = Map Location NodeState

abbrev pub Inputs : Type 0
Inputs = Map Location Assets

pub record RunAttemptState : Type 0 where
  pub workflow_id : ℕ
  pub inputs : Inputs
  pub nodes : Nodes
  pub metadata : Map String String
  pub started_time : Option Time
  pub queued_time : Option Time
  pub paused_time : Option Time
  pub complete_time : Option Time
  pub cancelled_time : Option Time
  pub error_time : Option Time

-- `RunAttemptState::default()`: the nil UUID, and nothing else
abbrev pub blank_run : RunAttemptState
blank_run = record {
  workflow_id = 0;
  inputs = [];
  nodes = [];
  metadata = [];
  started_time = none;
  queued_time = none;
  paused_time = none;
  complete_time = none;
  cancelled_time = none;
  error_time = none;
}
