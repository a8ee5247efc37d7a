-- ===== src/Policy/Decisions.antt =====
-- `evaluate_task` and `evaluate_diff` of src/agentic_sdlc/policy.py, with `RiskLevel`, `TaskSpec` and
-- `PolicyDecision` of src/agentic_sdlc/models.py.
use agentic_sdlc.Base.{
  ℕ, ◌+◌, String, ◌+++◌, Bool, true, false, not, ◌&&◌, ◌||◌, none, some, List, [], ◌∷◌, ◌++◌,
  Result, ok, err, value_error, length, keep, all, member, is_empty, sorted, join, show, ltb,
  distinct, if◌then◌else◌, ◌==◌,
}
use agentic_sdlc.Base.Int.{ℤ, pos}
use agentic_sdlc.Dispatcher.{spec_review_block}
use agentic_sdlc.MergeEvidence.{to_set}
use agentic_sdlc.Policy.{ProjectPolicy}
use agentic_sdlc.Policy.Paths.{matches, matches_folded}

pub data RiskLevel : Type 0 where
  low medium high critical : RiskLevel

abbrev pub is_low : RiskLevel → Bool
is_low low = true
is_low medium = false
is_low high = false
is_low critical = false

pub record TaskSpec : Type 0 where
  pub title : String
  pub summary : String
  pub acceptance_criteria : List String
  pub required_tests : List String
  pub non_goals : List String
  pub dependencies : List ℕ
  pub labels : List String
  pub raw_body : String

pub record PolicyDecision : Type 0 where
  pub allowed : Bool
  pub risk : RiskLevel
  pub reasons : List String
  pub required_gates : List String
  pub automatic_merge_allowed : Bool

-- [item] if the test holds, [] if it does not
abbrev pub when : Bool → String → List String
when true item = item ∷ []
when false item = []

-- required_labels
unfoldable pub required_labels : ProjectPolicy → String → List String
required_labels policy mode = to_set (
    policy.ready_label
    ∷ policy.human_review_label
    ∷ when (mode == "implement") policy.implementation_label)

unfoldable pub missing_labels : TaskSpec → ProjectPolicy → String → List String
missing_labels task policy mode =
    keep (λ l. not (member l task.labels)) (required_labels policy mode)

unfoldable pub held_reasons : TaskSpec → String → List String
held_reasons task mode =
    if mode == "plan" || mode == "implement"
    then elim (spec_review_block task.labels) [
      | none ↦ []
      | some held ↦ when (not (held == "")) held
    ]
    else []

-- the loop over the forbidden patterns; `search`, a parameter, is `re.search` with `re.IGNORECASE`
unfoldable pub pattern_reasons : (String → String → Bool) → String → List String → List String
pattern_reasons search_in text [] = []
pattern_reasons search_in text (p ∷ ps) =
    when (search_in p text) ("task matched forbidden policy pattern: " +++ p)
    ++ pattern_reasons search_in text ps

unfoldable pub task_reasons :
    (String → String → Bool) → TaskSpec → ProjectPolicy → String → List String
task_reasons search_in task policy mode =
    let missing = missing_labels task policy mode in
    when (not (is_empty missing)) ("missing required labels: " +++ join ", " (sorted missing))
    ++ (held_reasons task mode
        ++ pattern_reasons search_in (task.title +++ "\n" +++ task.raw_body)
            policy.forbidden_task_patterns)

abbrev pub base_gates : List String
base_gates = "deterministic-ci" ∷ "independent-agent-review" ∷ []

unfoldable pub evaluate_task :
    (String → String → Bool) → TaskSpec → ProjectPolicy → String → PolicyDecision
evaluate_task search_in task policy mode =
    let reasons = task_reasons search_in task policy mode in
    record {
      allowed = is_empty reasons;
      risk = if is_empty reasons then medium else critical;
      reasons = if is_empty reasons then "task specification is eligible" ∷ [] else reasons;
      required_gates = base_gates ++ when policy.human_merge_required "human-merge-approval";
      automatic_merge_allowed = false;
    }

module _ (casefold : List ℕ → List ℕ) where
  unfoldable pub forbidden_of : List String → ProjectPolicy → List String
  forbidden_of paths policy =
      sorted (keep (λ p. matches_folded casefold p policy.forbidden_paths) paths)

  unfoldable pub protected_of : List String → ProjectPolicy → List String
  protected_of paths policy =
      sorted (keep (λ p. matches_folded casefold p policy.protected_paths) paths)

  unfoldable pub diff_reasons : List String → ℕ → ℕ → ProjectPolicy → List String
  diff_reasons paths total patch_bytes policy =
      when (ltb policy.max_changed_files (length paths)) (
        "changed-file cap exceeded: "
        +++ show (length paths)
        +++ " > "
        +++ show policy.max_changed_files)
      ++ (when (ltb policy.max_diff_lines total)
            ("diff-line cap exceeded: " +++ show total +++ " > " +++ show policy.max_diff_lines)
          ++ (when (ltb policy.max_patch_bytes patch_bytes) (
                "patch-byte cap exceeded: "
                +++ show patch_bytes
                +++ " > "
                +++ show policy.max_patch_bytes)
              ++ when (not (is_empty (forbidden_of paths policy)))
                  ("forbidden paths changed: " +++ join ", " (forbidden_of paths policy))))

  unfoldable pub diff_risk : List String → List String → ProjectPolicy → RiskLevel
  diff_risk reasons paths policy =
      if not (is_empty reasons)
      then critical
      else if not (is_empty (protected_of paths policy))
      then high
      else if not (is_empty paths) && all (λ p. matches p policy.low_risk_paths) paths
      then low
      else medium

  -- the gates, without repetition
  unfoldable pub diff_gates : List String → ProjectPolicy → List String
  diff_gates paths policy = distinct (
      base_gates
      ++ (when (not (is_empty (protected_of paths policy))) "architect-security-review"
          ++ when policy.human_merge_required "human-merge-approval"))

  unfoldable pub diff_detail : List String → List String → ℕ → ProjectPolicy → List String
  diff_detail reasons paths total policy =
      let detail =
        reasons
        ++ when (not (is_empty (protected_of paths policy))) (
            "protected paths require architect/security review: "
            +++ join ", " (protected_of paths policy)) in
      if is_empty detail
      then ("diff is within policy limits ("
          +++ show (length paths)
          +++ " files, "
          +++ show total
          +++ " lines)")
        ∷ []
      else detail

  -- `evaluate_diff` behind the test of the counts
  unfoldable pub judge_diff : List String → ℕ → ℕ → ProjectPolicy → PolicyDecision
  judge_diff paths total patch_bytes policy =
      let reasons = diff_reasons paths total patch_bytes policy in
      record {
        allowed = is_empty reasons;
        risk = diff_risk reasons paths policy;
        reasons = diff_detail reasons paths total policy;
        required_gates = diff_gates paths policy;
        automatic_merge_allowed =
            not policy.human_merge_required
            && (is_empty reasons
                && (is_empty (protected_of paths policy)
                    && is_low (diff_risk reasons paths policy)));
      }

  unfoldable pub evaluate_diff : List String → ℤ → ℤ → ProjectPolicy → ℤ → Result PolicyDecision
  evaluate_diff paths (pos added) (pos deleted) policy (pos patch) =
      ok (judge_diff paths (added + deleted) patch policy)
  evaluate_diff paths added deleted policy patch =
      err (value_error "diff counts and patch bytes cannot be negative")
