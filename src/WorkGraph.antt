-- ===== src/WorkGraph.antt =====
-- src/agentic_sdlc/work_graph.py: dependency-aware parallel work.
-- Spec: units and graphs. Leases: exclusive leases. Executor: the bounded scheduler and the fan-in.
pub mod Spec
pub mod Leases
pub mod Executor
pub mod Operations
pub mod FanIn
pub mod Exclusive
pub mod Calm
pub mod Bounds
pub mod Limits
pub mod Calls
pub mod Lookups
pub mod Composing
pub mod Toposort
pub mod Ancestry
pub mod Validation
pub mod Collected
pub mod Sound
pub mod Validated
pub mod Refusals
