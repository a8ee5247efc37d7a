-- ===== src/Lib.antt =====
-- Agentic SDLC: the control plane's decisions, as definitions and theorems.
--
-- The program plans, implements, verifies, reviews and merges work with agents. Its core are parts that
-- decide and keep state; the rest is input and output. What is modelled, one module per part:
--
-- * Autonomy (src/agentic_sdlc/autonomy.py): `evaluate_autonomy` on the evidence of a phase. A decision
--   has the reasons of its denial in the order of the code's tests.
-- * MergeEvidence (src/agentic_sdlc/merge_evidence.py): `_latest_check_conclusions` is `latest_from` and
--   `conclusions_of`; a value of a check payload is one of the kinds that the code tells apart.
-- * MergeExecutor (src/agentic_sdlc/merge_executor.py): `execute`. The gateway is a parameter, the state
--   is the list of requests that it was sent.
-- * ProtectedMerge (src/agentic_sdlc/protected_merge.py): `TrustedProtectedMergeService.execute`, from the
--   collector (a parameter) through MergeEvidence to MergeExecutor.
-- * ReviewContinuation (src/agentic_sdlc/review_continuation.py): `decide_review_continuation`.
-- * Orchestration (src/agentic_sdlc/orchestration.py): work units. State has the states and the graph of
--   TRANSITIONS, Store the records and `create_unit`, Transition, Runs and Review the methods under their
--   names. A method takes an `Orchestrator` and returns a result and the orchestrator behind it, also
--   when it raises. Steps is the abstract specification, a relation of what may happen; Refines shows
--   that every method keeps to it; Audit, Serial and Authority are invariants of the relation.
--   Document is `as_dict`, its child Reading `from_dict`.
-- * Lifecycle (src/agentic_sdlc/lifecycle.py): the driver. `next_move` is the ladder of tests of `advance`,
--   `perform` is `_transition` and `_waiting`, on the model of the orchestrator.
-- * WorkGraph (src/agentic_sdlc/work_graph.py): Spec has the units and the graph, Leases is `LeaseManager`,
--   Executor, Operations and FanIn are `GraphExecutor`. Calm is the relation of the steps that start
--   nothing, Bounds and Limits hold the executor to its limits, Calls does so for every history.
--   Validation is `validate_graph`, one definition per loop; Toposort has `_toposort` and `_ancestors`.
--   A lookup of a missing key raises KeyError there, as in the code. GraphExecutor looks its
--   statuses and the ancestors up in the same way.
--   Collected and Sound are what the loops have tested, Validated and Refusals what the whole returns.
-- * Missions (src/agentic_sdlc/missions.py): the contracts, Platform the missions that every registry has,
--   Selection `select_agent` with its exclusions, Ledger `MissionLedger`, whose methods return the ledger
--   also when they raise. Parsing and Registry are `registry_from_document` behind the TOML parser; which
--   code points are decimal digits is a parameter. Orchestration/Selecting is the orchestrator's choice
--   of agents.
-- * Recovery (src/agentic_sdlc/infra_recovery.py): `decide_retry` on the stored state; the digest that the
--   backoff takes its jitter from is a parameter.
-- * Policy (src/agentic_sdlc/policy.py, with `TaskSpec`, `RiskLevel` and `PolicyDecision` of
--   src/agentic_sdlc/models.py): Loading is `load_policy_bytes` behind the TOML parser, Branches the names of
--   branches, Decisions `evaluate_task` and `evaluate_diff`. Parameters are the parser, `str.casefold`, the
--   control characters of Unicode, and the search and the compilation of the owner's regular expressions.
-- * AdaptiveScheduler (src/agentic_sdlc/adaptive_scheduler.py): `fill_safe_slots` on the executor.
-- * Checkpoints (src/agentic_sdlc/checkpoints.py): the journal in SQLite, whose statements may fail.
-- * Dispatcher (src/agentic_sdlc/dispatcher.py, with `spec_review_block` of src/agentic_sdlc/spec_stage.py
--   and `WorkEvent` of src/agentic_sdlc/models.py): `dispatch` on the orchestrator and the checkpoints.
--   The digest of an event's JSON is a parameter.
--
-- Base has what they share: exceptions as values with the state written before them (Exec), Python's
-- dictionaries in insertion order (Dict), texts by their code points, integers, the values of JSON and
-- TOML (Value). Glob is the `fnmatch` of Python's library, on code points.
--
-- Bounds. Numbers are unbounded, as in Python; where a negative one is possible it is a ℤ, elsewhere a ℕ.
-- `show` writes a number with as much fuel as the number itself plus one, and each digit takes one.
-- The sort of a graph has as many rounds as there are units: each takes one out at least.
-- `lower` lowers the ASCII letters, which is enough for the words that lowered texts are compared with.
--
-- Not modelled: the classification of failures by regular expressions; the clients of GitHub, processes and
-- git (I/O); printing to JSON, but for the document of the orchestrator; the ledgers of events and usage; the
-- profiles and the envelopes of agents; the parser of a task; the reports. The digest and the SHA of an
-- artifact are texts, tested as the code tests them.
--
-- Witnesses runs the models at concrete inputs.
pub mod Base
pub mod Autonomy
pub mod MergeExecutor
pub mod MergeEvidence
pub mod Policy
pub mod ProtectedMerge
pub mod Recovery
pub mod ReviewContinuation
pub mod Missions
pub mod Orchestration
pub mod Lifecycle
pub mod WorkGraph
pub mod AdaptiveScheduler
pub mod Checkpoints
pub mod Dispatcher
pub mod Witnesses
pub mod Glob
