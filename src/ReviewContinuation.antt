-- ===== src/ReviewContinuation.antt =====
-- src/agentic_sdlc/review_continuation.py: the action that follows an independent review.
pub mod Laws
use agentic_sdlc.Base.Int.{ℤ, is_negative, le_ℤ, suc_ℤ}
use agentic_sdlc.Base.{
  ℕ, String, ◌+++◌, Bool, true, false, not, ◌||◌, ◌&&◌, List, [], ◌∷◌, nat_eq, strip, given, codes,
  same_codes, lower, map_codes, join, if◌then◌else◌, ◌==◌,
}
use agentic_sdlc.Autonomy.{GateEvidence, merge, evaluate_autonomy}

pub data Action : Type 0 where
  repair merge_action block noop : Action

pub record ContinuationDecision : Type 0 where
  pub action : Action
  pub reason : String
  pub repair_cycle : ℤ

pub record Review : Type 0 where
  pub verdict : String
  pub reviewed_head_sha : String
  pub current_head_sha : String
  pub repair_cycle : ℤ
  pub max_repair_cycles : ℤ
  pub merge_evidence : GateEvidence

-- .lower().replace("-", "_") of one code point
abbrev pub normalize_code : ℕ → ℕ
normalize_code c = let l = lower c in if nat_eq l b'-' then b'_' else l

-- the normalised verdict is the word
abbrev verdict_is : String → String → Bool
verdict_is verdict word = same_codes (map_codes normalize_code (strip verdict)) (codes word)

unfoldable pub requests_changes : String → Bool
requests_changes v = verdict_is v "changes_requested" || verdict_is v "request_changes"

unfoldable pub approves : String → Bool
approves v = verdict_is v "approved" || verdict_is v "approve"

-- the review is for the current head
abbrev pub is_exact : Review → Bool
is_exact r = given r.reviewed_head_sha && r.reviewed_head_sha == r.current_head_sha

abbrev decide : Action → String → ℤ → ContinuationDecision
decide a why cycle = record { action = a; reason = why; repair_cycle = cycle }

unfoldable pub decide_review_continuation : Review → ContinuationDecision
decide_review_continuation r =
    if not (is_exact r)
    then decide noop "review is not for the current exact head" r.repair_cycle
    else if is_negative r.repair_cycle || is_negative r.max_repair_cycles
    then decide block "repair counters must be non-negative" r.repair_cycle
    else if requests_changes r.verdict
    then (if le_ℤ r.max_repair_cycles r.repair_cycle
        then decide block "bounded repair budget exhausted" r.repair_cycle
        else decide repair "independent review requested changes" (suc_ℤ r.repair_cycle))
    else if approves r.verdict
    then (let decision = evaluate_autonomy merge r.merge_evidence in
        if not decision.allowed
        then decide block (join "; " decision.reasons) r.repair_cycle
        else decide merge_action "exact-head review and merge gates passed" r.repair_cycle)
    else decide block ("unsupported or non-terminal review verdict: " +++ r.verdict) r.repair_cycle
