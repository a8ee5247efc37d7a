-- ===== src/Missions.antt =====
-- src/agentic_sdlc/missions.py: the contracts of agent work, who may do it, and its budgets.
-- Platform: the missions that every registry has. Selection: `MissionRegistry`. Ledger: `MissionLedger`.
pub mod Platform
pub mod Selection
pub mod Parsing
pub mod Registry
pub mod Ledger
pub mod Chosen
pub mod Budget
pub mod Safe
use agentic_sdlc.Base.{ℕ, String, Bool, not, List, [], ◌∷◌, any, member}
use agentic_sdlc.Policy.Decisions.{RiskLevel, low, medium, high, critical}

pub record MissionSpec : Type 0 where
  pub mission_id : String
  pub version : String
  pub purpose : String
  pub success_criteria : List String
  pub capabilities : List String
  pub output_artifacts : List String
  pub input_artifacts : List String
  pub read_paths : List String
  pub write_paths : List String
  pub forbidden_paths : List String
  pub commands : List String
  pub evidence : List String
  pub knowledge_sources : List String
  pub risk : RiskLevel
  pub approval_required : Bool
  pub max_runtime_seconds : ℕ
  pub max_tokens : ℕ
  pub max_retries : ℕ
  pub max_concurrency : ℕ
  pub parallelizable : Bool
  pub independent_of : List String
  pub escalate_to : String
  pub origin : String

pub record AgentProfile : Type 0 where
  pub agent_id : String
  pub adapter : String
  pub adapter_version : String
  pub provider : String
  pub model : String
  pub capabilities : List String
  pub available : Bool
  pub max_risk : RiskLevel
  pub context_window_tokens : ℕ

-- REVIEW_CAPABILITIES
abbrev pub review_capabilities : List String
review_capabilities =
    "review-code" ∷ "review-security" ∷ "review-architecture" ∷ "review-data-quality"
    ∷ "review-quantitative" ∷ []

-- WRITE_CAPABILITIES
abbrev pub write_capabilities : List String
write_capabilities = "edit-code" ∷ "author-tests" ∷ "edit-docs" ∷ "repair" ∷ []

-- `writes` and `reviews`
unfoldable pub writes : MissionSpec → Bool
writes mission = any (λ c. member c write_capabilities) mission.capabilities

unfoldable pub reviews : MissionSpec → Bool
reviews mission = any (λ c. member c review_capabilities) mission.capabilities

-- _RISK_ORDER
abbrev pub risk_order : RiskLevel → ℕ
risk_order low = 0
risk_order medium = 1
risk_order high = 2
risk_order critical = 3
