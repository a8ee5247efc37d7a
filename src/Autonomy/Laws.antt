-- ===== src/Autonomy/Laws.antt =====
-- What an allowing decision needs, in both phases.
use agentic_sdlc.Base.Int.{pos}
use agentic_sdlc.Base.{◌≡◌, refl, ◌↔◌, true, false, List, [], ◌∷◌, ◌++◌, String, is_empty, arith}
use agentic_sdlc.Autonomy.{
  implementation, merge, GateEvidence, common_denials, phase_denials, evaluate_autonomy,
}

-- The gates that both boundaries share.
pub record CommonGates (e : GateEvidence) : Type 0 where
  pub forge_managed : e.forge_managed ≡ true
  pub scope_bounded : e.scope_bounded ≡ true
  pub security_clear : e.security_clear ≡ true
  pub low_risk : e.high_risk ≡ false
  pub no_deployment : e.deployment_requested ≡ false
  pub no_broker_access : e.broker_access_requested ≡ false

-- The gates of a merge, beside the common ones.
pub record MergeGates (e : GateEvidence) : Type 0 where
  pub verified : e.deterministic_verification_passed ≡ true
  pub quality : e.quality_passed ≡ true
  pub reviewed : e.independent_review_approved ≡ true
  pub secrets_scanned : e.secret_scan_passed ≡ true
  pub branch_allows : e.branch_protection_allows ≡ true
  pub no_conversations : e.unresolved_conversations ≡ pos 0

is_empty-append :
    (xs ys : List String)
    → (is_empty (xs ++ ys) ≡ true) ↔ ((is_empty xs ≡ true) × (is_empty ys ≡ true))
is_empty-append [] ys = ((λ h. (refl, h)), (λ h. h.1))
is_empty-append (x ∷ xs) ys = ground arith

common_denials-empty : (e : GateEvidence) → (is_empty (common_denials e) ≡ true) → CommonGates e
unfolding common_denials
common_denials-empty e h = ground arith

common_denials_clear : (e : GateEvidence) → CommonGates e → is_empty (common_denials e) ≡ true
unfolding common_denials
common_denials_clear e h = ground arith

merge_denials-empty : (e : GateEvidence) → is_empty (phase_denials merge e) ≡ true → MergeGates e
unfolding phase_denials
merge_denials-empty e h = ground arith

merge_denials_clear : (e : GateEvidence) → MergeGates e → is_empty (phase_denials merge e) ≡ true
unfolding phase_denials
merge_denials_clear e h = ground arith

-- A merge is allowed exactly when the evidence meets the common gates and the merge gates.
pub merge_allowed_iff :
    (e : GateEvidence)
    → ((evaluate_autonomy merge e).allowed ≡ true) ↔ (CommonGates e × MergeGates e)
unfolding evaluate_autonomy
merge_allowed_iff e = (
  (λ h.
      let (c, m) = (is_empty-append (common_denials e) (phase_denials merge e)).0 h in
      (common_denials-empty e c, merge_denials-empty e m)),
  (λ (c, m).
      (is_empty-append (common_denials e) (phase_denials merge e)).1
        (common_denials_clear e c, merge_denials_clear e m)),
)

-- Implementation is allowed exactly when the evidence meets the common gates and OAuth is there.
pub implementation_allowed_iff :
    (e : GateEvidence)
    → ((evaluate_autonomy implementation e).allowed ≡ true)
      ↔ (CommonGates e × (e.claude_oauth_available ≡ true))
unfolding evaluate_autonomy phase_denials
implementation_allowed_iff e = (
  (λ h.
      let (c, m) = (is_empty-append (common_denials e) (phase_denials implementation e)).0 h in
      (common_denials-empty e c, ground arith)),
  (λ (c, m).
      (is_empty-append (common_denials e) (phase_denials implementation e)).1
        (common_denials_clear e c, ground arith)),
)
