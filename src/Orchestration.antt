-- ===== src/Orchestration.antt =====
-- src/agentic_sdlc/orchestration.py: the lifecycle of work units.
-- State: the lifecycle graph. Store: units and the orchestrator. Transition, Runs and Review: its
-- operations. Ops: a history of them. The other modules are proofs.
pub mod State
pub mod Store
pub mod Transition
pub mod Runs
pub mod Review
pub mod Ops
pub mod Steps
pub mod Cases
pub mod Refines
pub mod Audit
pub mod Authority
pub mod Serial
pub mod Replay
pub mod Reviewing
pub mod Document
pub mod Selecting
