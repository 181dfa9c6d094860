-- ===== src/Orchestrator.antt =====
-- tierkreis/src/orchestrator.rs: the nodes of a graph that can run, and the plan of actions that is
-- turned into events and tasks for executors.
pub mod Ready
pub mod Plan
pub mod Branch
pub mod Build
mod Tests
