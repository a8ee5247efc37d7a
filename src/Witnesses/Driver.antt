-- ===== src/Witnesses/Driver.antt =====
-- The driver at a unit with no dependencies, and reviews that have been answered
-- (src/agentic_sdlc/lifecycle.py, src/agentic_sdlc/review_continuation.py, src/agentic_sdlc/autonomy.py).
use agentic_sdlc.Base.Int.{pos}
use agentic_sdlc.Base.{
  ◌≤◌, ◌<◌, ℕ, String, ◌≡◌, ◌≢◌, ◌↔◌, ◌⊎◌, inl, inr, refl, true, false, [], ◌∷◌, ok, Bool-cases,
  arith, lstrip, rstrip, strip, is_space,
}
use agentic_sdlc.Base.Dict
use agentic_sdlc.Autonomy.{merge as merge_phase, GateEvidence, evaluate_autonomy}
use agentic_sdlc.Autonomy.Laws.{CommonGates, MergeGates, merge_allowed_iff}
use agentic_sdlc.ReviewContinuation.{Review, repair, merge_action, decide_review_continuation}
use agentic_sdlc.ReviewContinuation.Laws.{IsCurrent, Reads, repair_iff, merge_iff, cycle_bounded}
use agentic_sdlc.Orchestration.State.{
  State, triaged, re_reviewing, dispatched, same_state, has_edge,
}
use agentic_sdlc.Orchestration.Store.{WorkUnit, Orchestrator, new_unit, store, record_transition}
use agentic_sdlc.Orchestration.Transition.{check_dependencies, blocking_dependencies}
use agentic_sdlc.Lifecycle.{LifecycleAdvance, pending, driver_cause, advance}
use agentic_sdlc.Lifecycle.Moves.{IsSafe, answer, advance_total}
use agentic_sdlc.Lifecycle.Loop.{
  UnderReReview, FreshKeys, repair_round, repair_round_uncounted, stages,
}

abbrev evidence : GateEvidence
evidence = record {
  forge_managed = true;
  scope_bounded = true;
  security_clear = true;
  claude_oauth_available = true;
  high_risk = false;
  deterministic_verification_passed = true;
  quality_passed = true;
  independent_review_approved = true;
  secret_scan_passed = true;
  branch_protection_allows = true;
  unresolved_conversations = pos 0;
  deployment_requested = false;
  broker_access_requested = false;
}

merge_allowed_iff_example :
    ((evaluate_autonomy merge_phase evidence).allowed ≡ true)
    ↔ (CommonGates evidence × MergeGates evidence)
merge_allowed_iff_example = merge_allowed_iff evidence

abbrev changes : Review
changes = record {
  verdict = "changes-requested";
  reviewed_head_sha = "a";
  current_head_sha = "a";
  repair_cycle = pos 1;
  max_repair_cycles = pos 2;
  merge_evidence = evidence;
}

repair_iff_example : ((decide_review_continuation changes).action ≡ repair) ↔ (
    (cycle : ℕ) × (most : ℕ) × IsCurrent changes cycle most
    × (cycle < most)
    × (Reads "changes-requested" "changes_requested" ⊎ Reads "changes-requested" "request_changes"))
repair_iff_example = repair_iff changes

merge_iff_example : ((decide_review_continuation changes).action ≡ merge_action) ↔ (
    (cycle : ℕ) × (most : ℕ) × IsCurrent changes cycle most
    × (Reads "changes-requested" "approved" ⊎ Reads "changes-requested" "approve")
    × CommonGates evidence
    × MergeGates evidence)
merge_iff_example = merge_iff changes

cycle_bounded_example :
    (((decide_review_continuation changes).action ≡ repair)
      × ((decide_review_continuation changes).repair_cycle ≡ pos 2)
      × (2 ≤ 2))
    ⊎ (((decide_review_continuation changes).action ≢ repair)
        × ((decide_review_continuation changes).repair_cycle ≡ pos 1))
cycle_bounded_example = cycle_bounded changes 1 2 refl refl (omega arith)

abbrev unit : State → WorkUnit
unit s = record (new_unit "u" "e0" "t" "" []) { state = s; repair_count = 2 }

abbrev holding : WorkUnit → Orchestrator
holding u = record {
  max_repair_cycles = 2;
  human_merge_required = true;
  units = ("u", u) ∷ [];
  state_id = "s";
}

no_dependencies :
    (t : State)
    → has_edge triaged t ≡ true
    → check_dependencies (holding (unit triaged)).units (unit triaged) t ≡ ok tt
unfolding check_dependencies blocking_dependencies new_unit
no_dependencies t _ = elim (Bool-cases (same_state t dispatched)) [
  | inl yes' ↦ rw yes' refl
  | inr no' ↦ rw no' refl
]

advance_total_example :
    let u = unit triaged in
    let o = holding u in
    let g = stages pending pending in
    ((a : LifecycleAdvance) × (advance "u" "t" "e1" evidence g o ≡ (ok a, o))
      × (a.advanced ≡ false)
      × (a.to_state ≡ triaged))
    ⊎ ((t : State) × (why : String) × IsSafe triaged t
        × (advance "u" "t" "e1" evidence g o ≡ (
          ok (answer "u" u t why),
          store "u" (record_transition u t (driver_cause "t" "e1" why)) o,
        )))
unfolding Dict.get new_unit strip lstrip rstrip is_space
advance_total_example =
    advance_total "u" "t" "e1" evidence (stages pending pending) (unit triaged)
      (holding (unit triaged)) refl refl refl no_dependencies

again : UnderReReview "u" 2 (holding (unit re_reviewing)) (unit re_reviewing)
unfolding Dict.get
again = record { at = refl; state = refl; counted = refl }

new_keys : FreshKeys "e1" "e2" "e3" (unit re_reviewing)
unfolding new_unit strip lstrip rstrip is_space
new_keys = record {
  texts = (refl, refl, refl);
  unseen = (refl, refl, refl);
  different = (refl, refl, refl);
}

repair_round_uncounted_example :
    (v : WorkUnit) × UnderReReview "u" 2
      (repair_round "u" "t" "e1" "e2" "e3" evidence (holding (unit re_reviewing)))
      v
repair_round_uncounted_example =
    repair_round_uncounted "u" "t" "e1" "e2" "e3" evidence (unit re_reviewing)
      (holding (unit re_reviewing)) 2 again new_keys
