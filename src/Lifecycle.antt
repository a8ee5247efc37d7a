-- ===== src/Lifecycle.antt =====
-- src/agentic_sdlc/lifecycle.py: the driver that advances one work unit by at most one transition.
pub mod Moves
pub mod Loop
use agentic_sdlc.Base.{
  ℕ, String, ◌+++◌, Bool, true, false, not, List, Exec, ◌>>=◌, pure, gets, join, leb, if◌then◌else◌,
}
use agentic_sdlc.Autonomy.{
  GateEvidence, implementation as implementation_phase, merge as merge_phase, evaluate_autonomy,
}
use agentic_sdlc.Orchestration.State.{
  State, intake, triaged, specified, planned, approval_pending, approved, dispatched, implementing,
  verifying, reviewing, repair_needed, repairing, re_reviewing, ready_for_human_merge, merged,
  blocked, failed, cancelled, superseded, state_value, same_state,
}
use agentic_sdlc.Orchestration.Store.{WorkUnit, Orchestrator, Cause, get}
use agentic_sdlc.Orchestration.Transition.{transition}

pub data StageResult : Type 0 where
  pending passed stage_failed changes_requested : StageResult

pub record LifecycleAdvance : Type 0 where
  pub unit_id : String
  pub from_state : State
  pub to_state : State
  pub advanced : Bool
  pub reason : String

-- the keyword arguments that carry the stage results
pub record Stages : Type 0 where
  pub plan : StageResult
  pub implementation : StageResult
  pub verification : StageResult
  pub review : StageResult
  pub repair : StageResult

-- What `advance` does next: `_transition` to a state, or `_waiting`, each with its reason.
pub data Move : Type 0 where
  go : State → String → Move
  wait : String → Move

-- `merge.allowed`, and what the denial says
abbrev merge_move : GateEvidence → Move
merge_move autonomy =
    let decision = evaluate_autonomy merge_phase autonomy in
    if decision.allowed
    then wait "merge policy gates passed; protected repository merge executor required"
    else go blocked (join "; " decision.reasons)

abbrev approval_move : GateEvidence → Move
approval_move autonomy =
    let decision = evaluate_autonomy implementation_phase autonomy in
    if not decision.allowed
    then go blocked (join "; " decision.reasons)
    else go approved "autonomous implementation policy gates passed"

abbrev review_move : StageResult → Move
review_move passed = go ready_for_human_merge "independent review approved exact verified change"
review_move changes_requested = go repair_needed "independent review requested bounded repair"
review_move stage_failed = go failed "independent review execution failed"
review_move pending = wait "waiting for independent review"

abbrev verification_move : ℕ → ℕ → StageResult → Move
verification_move max repairs passed = go reviewing "deterministic verification passed"
verification_move max repairs stage_failed =
    if leb max repairs
    then go blocked "deterministic verification failed; repair budget exhausted"
    else go repair_needed "deterministic verification failed; bounded repair required"
verification_move max repairs _ = wait "waiting for deterministic verification"

abbrev plan_move : StageResult → Move
plan_move passed = go planned "deterministic planning stage completed"
plan_move stage_failed = go blocked "planning failed; autonomous progress stopped"
plan_move _ = wait "waiting for planning result"

abbrev implementation_move : StageResult → Move
implementation_move passed =
    go verifying "implementation completed; deterministic verification required"
implementation_move stage_failed = go failed "implementation failed"
implementation_move _ = wait "waiting for implementation result"

abbrev repair_move : StageResult → Move
repair_move passed = go re_reviewing "repair completed; independent re-review required"
repair_move stage_failed = go failed "bounded repair failed"
repair_move _ = wait "waiting for bounded repair"

-- the ladder of `if state is …` in `advance`
unfoldable pub next_move : State → ℕ → ℕ → GateEvidence → Stages → Move
next_move triaged max repairs autonomy s =
    go specified "forge-managed work normalized for autonomous planning"
next_move specified max repairs autonomy s = plan_move s.plan
next_move planned max repairs autonomy s = approval_move autonomy
next_move approved max repairs autonomy s =
    go dispatched "implementation dispatch authorized by policy"
next_move dispatched max repairs autonomy s = go implementing "implementation stage started"
next_move implementing max repairs autonomy s = implementation_move s.implementation
next_move verifying max repairs autonomy s = verification_move max repairs s.verification
next_move reviewing max repairs autonomy s = review_move s.review
next_move re_reviewing max repairs autonomy s = review_move s.review
next_move repair_needed max repairs autonomy s = go repairing "bounded repair cycle started"
next_move repairing max repairs autonomy s = repair_move s.repair
next_move ready_for_human_merge max repairs autonomy s = merge_move autonomy
next_move state max repairs autonomy s =
    wait ("no autonomous transition from " +++ state_value state)

-- the transition of a system actor
abbrev pub driver_cause : String → String → String → Cause
driver_cause timestamp event_key reason = record {
  actor = "forge-lifecycle";
  actor_kind = "system";
  event_key = event_key;
  timestamp = timestamp;
  reason = reason;
}

-- `_transition`, on the unit that `advance` has looked up, or `_waiting`. The transition mutates the unit
-- object, so the state behind it is that of the unit returned.
unfoldable pub perform :
    String → WorkUnit → String → String → Move → Exec Orchestrator LifecycleAdvance
perform unit_id unit timestamp event_key (wait reason) = pure (record {
  unit_id = unit_id;
  from_state = unit.state;
  to_state = unit.state;
  advanced = false;
  reason = reason;
})
perform unit_id unit timestamp event_key (go target reason) = do
  moved ← transition unit_id target (driver_cause timestamp event_key reason)
  pure (record {
    unit_id = unit_id;
    from_state = unit.state;
    to_state = moved.state;
    advanced = not (same_state unit.state moved.state);
    reason = reason;
  })

unfoldable pub advance :
    String → String → String → GateEvidence → Stages → Exec Orchestrator LifecycleAdvance
unfolding get
advance unit_id timestamp event_key autonomy stages = do
  unit ← get unit_id
  max ← gets (λ o. o.max_repair_cycles)
  perform unit_id unit timestamp event_key
      (next_move unit.state max unit.repair_count autonomy stages)
