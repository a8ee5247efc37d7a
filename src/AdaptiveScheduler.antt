-- ===== src/AdaptiveScheduler.antt =====
-- src/agentic_sdlc/adaptive_scheduler.py: filling the free slots of an executor. `agent_for` answers with
-- a text, or `none` where it has no text for the unit.
pub mod Filling
pub mod Starting
pub mod Reporting
use agentic_sdlc.Base.Int.{ℤ, is_negative}
use agentic_sdlc.Base.{
  ℕ, String, ◌+++◌, Bool, ◌||◌, Option, none, some, List, [], ◌∷◌, Exec, Result, ok, err, Error,
  work_graph_error, value_error, ◌>>=◌, ◌>>◌, and_then, pure, lift, raise, require, not, has_text,
  occurs, codes, if◌then◌else◌,
}
use agentic_sdlc.WorkGraph.Executor.{Executor, ready}
use agentic_sdlc.WorkGraph.Operations.{start, amount}

pub record SlotDecision : Type 0 where
  pub unit_id : String
  pub status : String
  pub reason : String

-- `part in message`
abbrev pub says : String → String → Bool
says part message = occurs (codes part) (codes message)

unfoldable pub is_temporary : String → Bool
is_temporary message =
    says "maximum parallelism" message
    || (says "concurrency limit" message
        || (says "total token budget" message || says "exclusively leased" message))

-- `resolve_agent`
abbrev pub resolve_agent : String → Option String → Result String
resolve_agent unit_id none = err (value_error ("missing agent id for ready unit " +++ unit_id))
resolve_agent unit_id (some agent) =
    if has_text agent
    then ok agent
    else err (value_error ("missing agent id for ready unit " +++ unit_id))

abbrev pub started : String → SlotDecision
started unit_id = record { unit_id = unit_id; status = "started"; reason = "" }

abbrev pub waiting : String → String → SlotDecision
waiting unit_id message = record { unit_id = unit_id; status = "waiting"; reason = message }

-- decisions.append(d), and the rest of the loop
abbrev pub decided :
    SlotDecision → Exec Executor (List SlotDecision) → Exec Executor (List SlotDecision)
decided d rest = do ds ← rest; pure (d ∷ ds)

-- no unit is tried behind one that finds no free slot
abbrev pub unless_full :
    String → Exec Executor (List SlotDecision) → Exec Executor (List SlotDecision)
unless_full message rest = if says "maximum parallelism" message then pure [] else rest

-- what follows a call of `start`: a refusal that is no temporary one is raised again
abbrev pub after_start :
    String → Result String → Exec Executor (List SlotDecision) → Exec Executor (List SlotDecision)
after_start unit_id (ok workspace) rest = decided (started unit_id) rest
after_start unit_id (err (work_graph_error message)) rest =
    if not (is_temporary message)
    then raise (work_graph_error message)
    else decided (waiting unit_id message) (unless_full message rest)
after_start unit_id (err e) rest = raise e

unfoldable pub fill_units :
    (String → Option String) → List String → ℕ → Exec Executor (List SlotDecision)
fill_units agent_for [] now x = (ok [], x)
fill_units agent_for (u ∷ us) now x =
    and_then (resolve_agent u (agent_for u), x)
      λ agent y.
        after_start u (start u agent now y).0 (fill_units agent_for us now) (start u agent now y).1

unfoldable pub fill_safe_slots : (String → Option String) → ℤ → Exec Executor (List SlotDecision)
fill_safe_slots agent_for now = do
  require (not (is_negative now)) (value_error "now must be non-negative")
  units ← λ x. (ready x, x)
  fill_units agent_for units (amount now)
