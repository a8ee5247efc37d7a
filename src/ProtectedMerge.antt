-- ===== src/ProtectedMerge.antt =====
-- src/agentic_sdlc/protected_merge.py: collect the evidence of exactly one head, normalise it, and
-- hand it to the executor. The collector is a parameter: GitHub answers it.
pub mod Laws
use agentic_sdlc.Base.Int.{ℤ}
use agentic_sdlc.Base.{
  String, ◌+++◌, Bool, not, List, Result, ok, err, Error, orchestration_error, work_graph_error,
  dispatch_error, checkpoint_error, mission_error, recovery_error, value_error, key_error, Exec,
  pure, if◌then◌else◌, ◌==◌,
}
use agentic_sdlc.Autonomy.{GateEvidence}
use agentic_sdlc.MergeEvidence.{Check, EvidenceInput, MergeEvidencePolicy, normalize_merge_evidence}
use agentic_sdlc.MergeExecutor.{MergeRequest, GatewayResult, MergeOutcome, refused, execute}

-- `GitHubPullRequestEvidence`: what the collector returns
pub record Collected : Type 0 where
  pub head_sha : String
  pub labels : List String
  pub branch_protection_allows : Bool
  pub unresolved_conversations : ℤ
  pub checks : List Check

-- the collector returns, or raises an exception of the named class
pub data Collection : Type 0 where
  collected : Collected → Collection
  failed : String → Collection

pub record Context : Type 0 where
  pub risk_level : String
  pub scope_bounded : Bool
  pub security_clear : Bool
  pub deployment_requested : Bool
  pub broker_access_requested : Bool

-- str(exc)
abbrev pub message : Error → String
message (orchestration_error m) = m
message (work_graph_error m) = m
message (dispatch_error m) = m
message (checkpoint_error m) = m
message (mission_error m) = m
message (recovery_error m) = m
message (value_error m) = m
message (key_error m) = m

abbrev pub evidence_input : Collected → Context → EvidenceInput
evidence_input c x = record {
  expected_head_sha = c.head_sha;
  labels = c.labels;
  risk_level = x.risk_level;
  scope_bounded = x.scope_bounded;
  security_clear = x.security_clear;
  branch_protection_allows = c.branch_protection_allows;
  unresolved_conversations = c.unresolved_conversations;
  deployment_requested = x.deployment_requested;
  broker_access_requested = x.broker_access_requested;
  checks = c.checks;
}

module _ (gateway : MergeRequest → Result GatewayResult) (r : MergeRequest) where
  -- behind the `try` that normalises
  unfoldable pub with_evidence : Result GateEvidence → Exec (List MergeRequest) MergeOutcome
  with_evidence (err x) = pure (refused ("trusted merge evidence is invalid: " +++ message x))
  with_evidence (ok evidence) = execute gateway r evidence

  unfoldable pub with_collection :
      Context → MergeEvidencePolicy → Collection → Exec (List MergeRequest) MergeOutcome
  unfolding with_evidence
  with_collection x p (failed name) =
      pure (refused ("trusted GitHub evidence collection failed: " +++ name))
  with_collection x p (collected c) =
      if not (c.head_sha == r.expected_head_sha)
      then pure (refused "pull request head changed after merge request was prepared")
      else with_evidence (normalize_merge_evidence (evidence_input c x) p)

  -- `collect` answers for the repository and the number of the request
  unfoldable pub protected_merge :
      (String → ℤ → Collection)
      → Context
      → MergeEvidencePolicy
      → Exec (List MergeRequest) MergeOutcome
  unfolding with_collection
  protected_merge collect x p = with_collection x p (collect r.repository r.pull_request_number)
