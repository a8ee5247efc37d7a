-- ===== src/Orchestration/Review.antt =====
-- Verification and review outcomes: `record_verification`, `record_review` and
-- `record_repair_complete` of src/agentic_sdlc/orchestration.py.
use agentic_sdlc.Base.Int.{ℤ, pos, is_negative, is_zero}
use agentic_sdlc.Base.{
  ℕ, String, ◌+++◌, Bool, not, ◌&&◌, ◌||◌, Option, none, some, List, Exec, ok, orchestration_error,
  ◌>>=◌, ◌>>◌, pure, gets, require, raise, member, find_first, show, ltb, nat_eq, if◌then◌else◌,
  ◌==◌,
}
use agentic_sdlc.Orchestration.State.{
  State, verifying, reviewing, re_reviewing, ready_for_human_merge, repair_needed, blocked,
  state_value, same_state,
}
use agentic_sdlc.Orchestration.Store.{AgentRunRecord, WorkUnit, Orchestrator, Cause, get, store}
use agentic_sdlc.Orchestration.Transition.{transition}

abbrev cause : String → String → String → String → String → Cause
cause actor kind event_key timestamp reason = record {
  actor = actor;
  actor_kind = kind;
  event_key = event_key;
  timestamp = timestamp;
  reason = reason;
}

-- where a verification leads, and why
unfoldable pub verification_target : ℕ → WorkUnit → Bool → State × String
verification_target max unit passed =
    if passed
    then (reviewing, "verification passed")
    else if ltb unit.repair_count max
    then (repair_needed, "deterministic verification failed; bounded repair required")
    else (blocked, "deterministic verification failed; repair budget exhausted")

unfoldable pub record_verification :
    String → Bool → String → String → String → Exec Orchestrator WorkUnit
unfolding get verification_target
record_verification unit_id passed event_key timestamp actor = do
  unit ← get unit_id
  max ← gets (λ o. o.max_repair_cycles)
  if member event_key unit.event_keys then pure unit else do
    require (same_state unit.state verifying || (same_state unit.state re_reviewing && not passed))
        (orchestration_error
          ("verification result requires state verifying, not " +++ state_value unit.state))
    let target = verification_target max unit passed
    transition unit_id target.0 (cause actor "system" event_key timestamp target.1)

-- the run of that id
unfoldable pub run_of : String → List AgentRunRecord → Option AgentRunRecord
run_of run_id runs = find_first (λ run. run.run_id == run_id) runs

abbrev pub known_run : String → Option AgentRunRecord → Exec Orchestrator AgentRunRecord
known_run run_id none = raise (orchestration_error ("unknown review run: " +++ run_id))
known_run run_id (some run) = pure run

-- str(findings), which is not negative where it is used
abbrev show_findings : ℤ → String
show_findings (pos n) = show n
show_findings _ = ""

-- where the outcome of a review leads, and why
unfoldable pub review_target : ℕ → WorkUnit → ℤ → State × String
review_target max unit findings =
    if is_zero findings
    then (ready_for_human_merge, "review passed with no findings")
    else if not (ltb unit.repair_count max)
    then (
      blocked,
      "escalated: "
          +++ show_findings findings
          +++ " finding(s) after "
          +++ show unit.repair_count
          +++ " repair cycle(s); human decision required",
    )
    else (repair_needed, "review found " +++ show_findings findings +++ " finding(s)")

-- behind the replay test of `record_review`
unfoldable pub apply_review :
    String → WorkUnit → String → ℤ → String → String → String → Exec Orchestrator WorkUnit
unfolding run_of review_target
apply_review unit_id unit run_id findings event_key timestamp digest = do
  require (not (is_negative findings)) (orchestration_error "findings cannot be negative")
  require (same_state unit.state reviewing || same_state unit.state re_reviewing) (
      orchestration_error
        ("review result requires a reviewing state, not " +++ state_value unit.state))
  review ← known_run run_id (run_of run_id unit.runs)
  require (review.kind == "review")
      (orchestration_error ("run " +++ run_id +++ " is not a review run"))
  require (nat_eq review.repair_cycle unit.repair_count) (
      orchestration_error (
        "review "
        +++ run_id
        +++ " predates repair cycle "
        +++ show unit.repair_count
        +++ "; every repair requires a fresh independent review"))
  max ← gets (λ o. o.max_repair_cycles)
  λ o. (ok tt, store unit_id (record unit { review_findings_sha256 = digest }) o)
  let target = review_target max unit findings
  transition unit_id target.0 (cause review.agent_id "agent" event_key timestamp target.1)

unfoldable pub record_review :
    String → String → ℤ → String → String → String → Exec Orchestrator WorkUnit
unfolding get
record_review unit_id run_id findings event_key timestamp digest = do
  unit ← get unit_id
  if member event_key unit.event_keys
      then pure unit
      else apply_review unit_id unit run_id findings event_key timestamp digest

-- a repair commit always routes to a fresh independent re-review
unfoldable pub record_repair_complete :
    String → String → String → String → Exec Orchestrator WorkUnit
record_repair_complete unit_id event_key timestamp actor =
    transition unit_id re_reviewing
      (cause actor "agent" event_key timestamp "repair complete; fresh independent review required")
