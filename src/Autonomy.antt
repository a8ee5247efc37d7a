-- ===== src/Autonomy.antt =====
-- src/agentic_sdlc/autonomy.py: fail-closed policy decisions at the two lifecycle boundaries.
pub mod Laws
use agentic_sdlc.Base.Int.{ℤ, is_zero}
use agentic_sdlc.Base.{String, Bool, not, List, [], ◌∷◌, ◌++◌, is_empty, if◌then◌else◌}

pub data Phase : Type 0 where
  implementation merge : Phase

pub record GateEvidence : Type 0 where
  pub forge_managed : Bool
  pub scope_bounded : Bool
  pub security_clear : Bool
  pub claude_oauth_available : Bool
  pub high_risk : Bool
  pub deterministic_verification_passed : Bool
  pub quality_passed : Bool
  pub independent_review_approved : Bool
  pub secret_scan_passed : Bool
  pub branch_protection_allows : Bool
  pub unresolved_conversations : ℤ
  pub deployment_requested : Bool
  pub broker_access_requested : Bool

pub record Decision : Type 0 where
  pub phase : Phase
  pub allowed : Bool
  pub reasons : List String

-- `if denied: reasons.append(reason)`, in front of the reasons that the later tests append
abbrev pub deny_if : Bool → String → List String → List String
deny_if denied reason rest = if denied then reason ∷ rest else rest

unfoldable pub common_denials : GateEvidence → List String
common_denials e = deny_if (not e.forge_managed) "work is not explicitly forge-managed" (
    deny_if (not e.scope_bounded) "scope is not bounded" (
      deny_if (not e.security_clear) "security gate is not clear" (
        deny_if e.high_risk "high-risk work requires human policy review" (
          deny_if e.deployment_requested "deployment is outside autonomous implementation authority"
            (deny_if e.broker_access_requested
              "broker access is outside autonomous implementation authority" [])))))

-- what each phase adds to the common reasons
unfoldable pub phase_denials : Phase → GateEvidence → List String
phase_denials implementation e =
    deny_if (not e.claude_oauth_available) "Claude Max OAuth is unavailable" []
phase_denials merge e =
    deny_if (not e.deterministic_verification_passed) "deterministic verification has not passed" (
      deny_if (not e.quality_passed) "quality gates have not passed" (
        deny_if (not e.independent_review_approved) "independent review has not approved" (
          deny_if (not e.secret_scan_passed) "secret scanning has not passed" (
            deny_if (not e.branch_protection_allows) "branch protection does not allow merge" (
              deny_if (not (is_zero e.unresolved_conversations))
                "review conversations remain unresolved" [])))))

unfoldable pub evaluate_autonomy : Phase → GateEvidence → Decision
unfolding common_denials phase_denials
evaluate_autonomy phase e =
    let reasons = common_denials e ++ phase_denials phase e in
    record { phase = phase; allowed = is_empty reasons; reasons = reasons }
