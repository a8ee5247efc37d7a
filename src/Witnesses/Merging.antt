-- ===== src/Witnesses/Merging.antt =====
-- One merge with complete evidence (src/agentic_sdlc/protected_merge.py,
-- src/agentic_sdlc/merge_executor.py, src/agentic_sdlc/merge_evidence.py).
use agentic_sdlc.Base.Int.{ℤ, pos}
use agentic_sdlc.Base.{
  ℕ, String, ◌≡◌, ◌⊎◌, refl, true, false, List, [], ◌∷◌, Result, ok, strip, lstrip, rstrip,
  is_space, code_count, all_codes,
}
use agentic_sdlc.Base.Dict
use agentic_sdlc.Autonomy.{GateEvidence, common_denials, phase_denials, evaluate_autonomy}
use agentic_sdlc.Autonomy.Laws.{CommonGates, MergeGates}
use agentic_sdlc.MergeEvidence.{
  Check, text, int, MergeEvidencePolicy, read_check, record_latest, latest_from,
  normalize_merge_evidence, conclusions_of, latest_check_conclusions, all_success, is_high_risk,
  normalized_labels,
}
use agentic_sdlc.MergeEvidence.Latest.{Newest, latest_from-Newest}
use agentic_sdlc.MergeEvidence.Laws.{Proven, normalize-Proven}
use agentic_sdlc.MergeExecutor.{
  MergeRequest, GatewayResult, MergeOutcome, is_sha, validate_request, outcome_of, execute,
  after_validation, call_gateway, is_repository,
}
use agentic_sdlc.MergeExecutor.Laws.{Admitted, execute-merged}
use agentic_sdlc.ProtectedMerge.{
  Collected, Collection, collected, Context, protected_merge, evidence_input, with_collection,
  with_evidence,
}
use agentic_sdlc.ProtectedMerge.Laws.{
  Grounded, Reported, protected_merge_calls, protected_merge-merged,
}

abbrev sha : String
sha = "aaaaaaaaaaaaaaaaaaaaaaaaaaaaaaaaaaaaaaaa"

abbrev request : MergeRequest
request = record { repository = "o/r"; pull_request_number = pos 7; expected_head_sha = sha }

abbrev reply : GatewayResult
reply = record {
  merged = true;
  merge_sha = "bbbbbbbbbbbbbbbbbbbbbbbbbbbbbbbbbbbbbbbb";
  message = "";
}

abbrev gateway : MergeRequest → Result GatewayResult
gateway r = ok reply

abbrev check : String → ℕ → String → Check
check name id conclusion = record {
  name = text name;
  head_sha = text sha;
  conclusion = text conclusion;
  id = int (pos id);
}

-- the first run of `tests` failed, and was run again
abbrev checks : List Check
checks =
    check "tests" 1 "failure"
    ∷ check "tests" 5 "success"
    ∷ check "quality" 2 "success"
    ∷ check "review" 3 "success"
    ∷ check "secrets" 4 "success"
    ∷ []

abbrev policy : MergeEvidencePolicy
policy = record {
  deterministic_checks = "tests" ∷ [];
  quality_checks = "quality" ∷ [];
  independent_review_checks = "review" ∷ [];
  secret_scan_checks = "secrets" ∷ [];
}

abbrev pull_request : Collected
pull_request = record {
  head_sha = sha;
  labels = "forge-managed" ∷ [];
  branch_protection_allows = true;
  unresolved_conversations = pos 0;
  checks = checks;
}

abbrev collect : String → ℤ → Collection
collect repository number = collected pull_request

abbrev context : Context
context = record {
  risk_level = "low";
  scope_bounded = true;
  security_clear = true;
  deployment_requested = false;
  broker_access_requested = false;
}

abbrev good : GateEvidence
good = record {
  forge_managed = true;
  scope_bounded = true;
  security_clear = true;
  claude_oauth_available = false;
  high_risk = false;
  deterministic_verification_passed = true;
  quality_passed = true;
  independent_review_approved = true;
  secret_scan_passed = true;
  branch_protection_allows = true;
  unresolved_conversations = pos 0;
  deployment_requested = false;
  broker_access_requested = false;
}

abbrev outcome : MergeOutcome
outcome = record { allowed = true; merged = true; merge_sha = reply.merge_sha; reason = "merged" }

protected_merge_calls_example :
    ((protected_merge gateway request collect context policy []).1 ≡ [])
    ⊎ ((c : Collected) × Grounded request collect context policy c
        × ((protected_merge gateway request collect context policy []).1 ≡ request ∷ []))
protected_merge_calls_example = protected_merge_calls gateway request collect context policy []

protected_merge-merged_example :
    (c : Collected) × Grounded request collect context policy c
    × ((protected_merge gateway request collect context policy []).1 ≡ request ∷ [])
    × Reported gateway request outcome
unfolding protected_merge with_collection with_evidence normalize_merge_evidence is_sha
    conclusions_of latest_check_conclusions latest_from record_latest read_check all_success
    is_high_risk normalized_labels execute after_validation validate_request is_repository
    evaluate_autonomy common_denials phase_denials call_gateway outcome_of Dict.get Dict.put strip
    lstrip rstrip is_space code_count all_codes
protected_merge-merged_example =
    protected_merge-merged gateway request collect context policy [] outcome refl refl

common : CommonGates good
common = record {
  forge_managed = refl;
  scope_bounded = refl;
  security_clear = refl;
  low_risk = refl;
  no_deployment = refl;
  no_broker_access = refl;
}

gates : MergeGates good
gates = record {
  verified = refl;
  quality = refl;
  reviewed = refl;
  secrets_scanned = refl;
  branch_allows = refl;
  no_conversations = refl;
}

normalize-Proven_example : Proven (evidence_input pull_request context) policy
unfolding normalize_merge_evidence is_sha conclusions_of latest_check_conclusions latest_from
    record_latest read_check all_success is_high_risk normalized_labels Dict.get Dict.put strip
    lstrip rstrip is_space code_count all_codes
normalize-Proven_example =
    normalize-Proven (evidence_input pull_request context) policy good refl common gates

latest_from-Newest_example : Newest sha "tests" checks (pos 5) "success"
unfolding latest_from record_latest read_check Dict.get Dict.put strip lstrip rstrip is_space
latest_from-Newest_example = latest_from-Newest sha "tests" checks (pos 5) "success" refl

execute-merged_example :
    Admitted request good
    × ((execute gateway request good []).1 ≡ request ∷ [])
    × ((g : GatewayResult) × (gateway request ≡ ok g)
        × (g.merged ≡ true)
        × (outcome.merge_sha ≡ g.merge_sha)
        × (is_sha g.merge_sha ≡ true))
unfolding execute after_validation validate_request is_repository is_sha evaluate_autonomy
    common_denials phase_denials call_gateway outcome_of code_count all_codes
execute-merged_example = execute-merged gateway request good [] outcome refl refl
