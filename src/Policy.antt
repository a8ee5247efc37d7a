-- ===== src/Policy.antt =====
-- src/agentic_sdlc/policy.py: the decisions on tasks and on proposed changes.
-- Paths: how a path matches patterns. Decisions: `evaluate_task` and `evaluate_diff`. Branches: the names
-- of branches. Loading: `load_policy_bytes`, from the document that the TOML parser returns.
pub mod Paths
pub mod Decisions
pub mod Limits
pub mod Eligible
pub mod Branches
pub mod Loading
pub mod Loaded
use agentic_sdlc.Base.{ℕ, String, Bool, List}

pub record ProjectPolicy : Type 0 where
  pub provider : String
  pub project_id : String
  pub default_branch : String
  pub ready_label : String
  pub human_review_label : String
  pub implementation_label : String
  pub human_merge_required : Bool
  pub max_changed_files : ℕ
  pub max_diff_lines : ℕ
  pub max_patch_bytes : ℕ
  pub forbidden_paths : List String
  pub protected_paths : List String
  pub low_risk_paths : List String
  pub forbidden_task_patterns : List String
  pub lease_ttl_minutes : ℕ
  pub publisher_bot_login : String
