-- ===== src/AdaptiveScheduler/Reporting.antt =====
-- What filling the slots reports (src/agentic_sdlc/adaptive_scheduler.py).
use agentic_sdlc.Base.{
  ℕ, String, true, member, ◌≡◌, ◌⊎◌, Option, some, List, ok, err, work_graph_error, All,
}
use agentic_sdlc.WorkGraph.Executor.{Executor}
use agentic_sdlc.WorkGraph.Operations.{start}
use agentic_sdlc.AdaptiveScheduler.{SlotDecision, started, waiting, fill_units, says}
use agentic_sdlc.AdaptiveScheduler.Starting.{Runs, Pends}

-- The message has one of the four texts that tell a refusal that may pass.
abbrev pub Passing : String → Type 0
Passing m =
    (says "maximum parallelism" m ≡ true)
    ⊎ (says "concurrency limit" m ≡ true)
    ⊎ (says "total token budget" m ≡ true)
    ⊎ (says "exclusively leased" m ≡ true)

module _ (agent_for : String → Option String) (now : ℕ) (x : Executor) where
  -- a start of the unit by its agent was refused with the message
  abbrev pub Refused : String → String → Type 0
  Refused u m =
      (a : String) × (agent_for u ≡ some a)
      × ((y : Executor) × ((start u a now y).0 ≡ err (work_graph_error m)))

  -- What a decision says is true, where `x` is the executor in front of the call and `z` the one behind
  -- it: the unit started, which was pending and runs now; or it waits, which is pending still, since its
  -- start was refused with the reason that the decision gives, and the reason is one that may pass.
  abbrev pub IsTrue : Executor → SlotDecision → Type 0
  IsTrue z d =
      ((d ≡ started d.unit_id) × Pends d.unit_id x × Runs d.unit_id z)
      ⊎ ((d ≡ waiting d.unit_id d.reason)
          × Pends d.unit_id x
          × Pends d.unit_id z
          × Refused d.unit_id d.reason
          × Passing d.reason)

  -- the units of the list were pending, and are
  abbrev Expects : List String → Executor → Type 0
  Expects us y = (u : String) → member u us ≡ true → Pends u x × Pends u y

  -- what the loop over the rest says is true
  abbrev Scans : List String → Executor → Type 0
  Scans us y =
      (es : List SlotDecision)
      → (fill_units agent_for us now y).0 ≡ ok es
      → All (IsTrue (fill_units agent_for us now y).1) es
