-- ===== src/Lib.antt =====
-- The Tierkreis runtime, tierkreis/src: workflows are graphs of nodes that are run by executors. The
-- orchestrator looks at the states of the nodes of a run, finds the nodes that can run and turns
-- them into actions; actions become events on a channel and tasks for executors; the runtime writes
-- the events into the state of the run, which is what the orchestrator looks at next. A node inside
-- a nested graph is named by its location, the path from the root graph. A run can be restarted from
-- a location: a new attempt takes over the node states that do not depend on it.
--
-- Files:
-- - Base: what the other files share: tests, equality by instances, lists, association lists, and
--   `Outcome`, which is a value, an error (`miette!`) or a panic. Bits: `bitvec::BitVec`, a parameter
--   with laws; Bits/Plain is an instance of it for the examples.
-- - Location, Location/Text: tierkreis/src/location.rs. Location/Order and Location/Text/RoundTrip
--   are the theorems on it.
-- - Asset: tierkreis/src/asset_storage/interface.rs. Event, Event/Send: tierkreis/src/event.rs.
-- - State, State/Handle, State/Runtime, State/Attempts, State/Listing:
--   tierkreis/src/state/interface.rs and tierkreis/src/state/inmemory.rs. `handle_node_events`,
--   `write`, `unpause`, `new_attempt` and the others have the names of the methods. The maps behind
--   locks and the watched set of active runs are one record `Runtime`, which an operation takes and
--   returns.
-- - Copy: `NodeCopyFilter` of tierkreis/src/workflow_state_query.rs and `copy_node_states_from` of
--   tierkreis/src/state/inmemory.rs.
-- - Graph: tierkreis/src/graph.rs, over the record `PortGraph` of the operations of `portgraph` that
--   it calls; Graph/Plain is an instance of it for the examples.
-- - Graph/Legacy: `LegacyWorkflowGraph` of the same file; Graph/Legacy/Convert has the nodes of its
--   conversion and Graph/Legacy/Links its links and the conversion as a whole. Graph/Legacy/Result
--   says what a node is converted to, and Graph/Legacy/Laws what the conversion relies on of a port
--   graph.
-- - Query: tierkreis/src/workflow_state_query.rs: `collect_inputs`, `find_subgraph_input`,
--   `build_node_copy_filter`.
-- - Storage, Storage/Memory: tierkreis/src/asset_storage.rs and
--   tierkreis/src/asset_storage/inmemory.rs, over a record of storages and one of a JSON library;
--   Storage/Laws says what the code relies on of both, and Storage/Plain is a JSON library for the
--   examples.
-- - Profiles: `ResourceProfiles::resolve` of tierkreis/src/resource_profiles.rs.
-- - Orchestrator/Ready, Orchestrator/Plan, Orchestrator/Branch: tierkreis/src/orchestrator.rs:
--   `find_ready_nodes`, `perform_actions`, `apply_plan` and the actions of conditionals.
-- - Orchestrator/Build, Orchestrator/Build/Nested, Orchestrator/Build/Actions: `build_actions` of the
--   same file and what it calls. What contexts share behind locks, the scheduled locations and the
--   cache of graphs, is a record `Shared` that is passed along with the world of the storages.
-- - Executor: the loop `process_tasks` of tierkreis/src/executor/inmemory.rs, for any sequence of the
--   branches that `select!` takes. What the loop keeps, the channel of its events and the world of
--   the storages are one record `Tasks`.
-- - Executor/Hpc: the loop of tierkreis/src/executor/hpc.rs, which polls a batch scheduler, over a
--   record of the scheduler's operations. What an operation has changed before it fails stays
--   changed, as `Step` of Base/Steps has it.
-- - Executor/Subprocess: the loop of tierkreis/src/executor/subprocess.rs, over a record of the
--   operations on processes that Executor/Subprocess/Workers declares; Executor/Subprocess/Plans is
--   its `execute`, and Executor/Subprocess/Handle has the handles of processes.
-- - Restart: `restart_task` of tierkreis/src/state/interface.rs, from Query, State/Attempts and Copy.
-- - Runtime, Runtime/Rounds, Runtime/Trace: tierkreis/src/runtime.rs: `start_new_run`,
--   `process_events`, `wait_for`, `get_outputs`, a round of `run`, and `read_loop_trace_by_name`.
-- The examples stand in the modules that are called Tests.
--
-- Conventions: a UUID, a time and a node index are natural numbers, and the ones that the code draws
-- are arguments. The `u32` attempt and indices wrap around or panic as written. A hash map or hash
-- set is a list in some order. A JSON value is of a type parameter.
--
-- Fuel: the loop of `new_attempt` that looks for the last attempt has one round for each stored run
-- and one more. Each round but the last finds another stored run, so it ends before the fuel does,
-- as long as fewer than 2^32 runs are stored. `build_actions` calls itself for the graph of a node
-- that has a state in the run, at a longer location, so its fuel is one more than the length of the
-- longest location that has a state (`run_depth`). The loop of `read_loop_trace_by_name` has a step
-- for each state of the run and one more: an iteration that is complete has a state, and each has
-- its own. All other loops are over lists.
--
-- Not modelled: the SQL state (queries of diesel), the file storage, the executors for remote
-- services and what the in-memory and the HPC one do outside their loops, the server and the command
-- line (I/O), reading configurations and profiles from files, and interleavings: each operation
-- holds its locks from beginning to end here, and a stream of actions is built to its end, or to its
-- first error, before the actions are performed.
pub mod Base
pub mod Bits
pub mod Location
pub mod Asset
pub mod Storage
pub mod Event
pub mod Executor
pub mod State
pub mod Copy
pub mod Graph
pub mod Query
pub mod Orchestrator
pub mod Profiles
pub mod Restart
pub mod Runtime
