-- ===== src/Witnesses/Policies.antt =====
-- A policy document, and the decisions of the policy that it is read into (src/agentic_sdlc/policy.py);
-- an orchestrator and its document (src/agentic_sdlc/orchestration.py).
use agentic_sdlc.Base.Int.{ℤ, pos}
use agentic_sdlc.Base.{
  ℕ, String, ◌≡◌, ◌↔◌, refl, Bool, true, false, List, [], ◌∷◌, ◌++◌, map, Result, ok, err,
  value_error, on_ok, lower, distinct, strip, lstrip, rstrip, is_space, occurs, arith,
}
use agentic_sdlc.Base.Dict
use agentic_sdlc.Base.Value.{
  Value, Members, string, int, flag, array, table, members_of, elements, get,
}
use agentic_sdlc.Glob.{fnmatch_codes, items, matches_items, accepts}
use agentic_sdlc.Orchestration.State.{triaged}
use agentic_sdlc.Orchestration.Store.{
  AgentRunRecord, WorkUnit, Orchestrator, Cause, new_unit, record_transition,
}
use agentic_sdlc.Orchestration.Document.{as_dict}
use agentic_sdlc.Orchestration.Document.Sorting.{sort_items, dict_of, put_all}
use agentic_sdlc.Orchestration.Document.Reading.{from_dict}
use agentic_sdlc.Orchestration.Document.RoundTrip.{IsStorable, normal, from_dict-as_dict}
use agentic_sdlc.Policy.{ProjectPolicy}
use agentic_sdlc.Policy.Paths.{matches, matches_folded, normalized}
use agentic_sdlc.Policy.Decisions.{
  critical, TaskSpec, PolicyDecision, evaluate_diff, evaluate_task, judge_diff, diff_reasons,
  diff_risk, forbidden_of, protected_of,
}
use agentic_sdlc.Policy.Branches.{
  split_on, ends_with, git_branch_format_problem, branch_name_problem, is_bad_part, is_unfit,
  unsafe_characters,
}
use agentic_sdlc.Policy.Limits.{IsWithin, IsHarmless, evaluate_diff-verdict}
use agentic_sdlc.Policy.Eligible.{IsEligible, evaluate_task-IsEligible}
use agentic_sdlc.Policy.Loading.{
  baseline_forbidden_paths, load_policy_bytes, load_document, load_tables, table_of, string_of,
  integer_of, patterns_of, texts, check_patterns, check_project, is_project_id, bot_login_of,
  human_merge_of,
}
use agentic_sdlc.Policy.Loaded.{IsLoaded, load_policy_bytes-IsLoaded, baseline_refused}

abbrev document : Members
document = members_of (
    ("version", int (pos 1))
    ∷ ("project", table (members_of (("id", string "acme/app") ∷ [])))
    ∷ (
      "policy",
      table (
          members_of (
            ("human_merge_required", flag false)
            ∷ ("forbidden_paths", array (elements (string "*.png" ∷ [])))
            ∷ [])),
    )
    ∷ [])

abbrev parse : List ℕ → Result Members
parse raw = ok document

abbrev compiles : String → Bool
compiles p = true

abbrev is_control : ℕ → Bool
is_control c = false

abbrev search_in : String → String → Bool
search_in p text = false

abbrev policy : ProjectPolicy
unfolding distinct
policy = record {
  provider = "github";
  project_id = "acme/app";
  default_branch = "main";
  ready_label = "agent-ready";
  human_review_label = "human-review-required";
  implementation_label = "implementation-approved";
  human_merge_required = false;
  max_changed_files = 30;
  max_diff_lines = 3000;
  max_patch_bytes = 5000000;
  forbidden_paths = distinct (baseline_forbidden_paths ++ "*.png" ∷ []);
  protected_paths = [];
  low_risk_paths = "docs/**" ∷ "**/*.md" ∷ [];
  forbidden_task_patterns = [];
  lease_ttl_minutes = 240;
  publisher_bot_login = "";
}

loaded : load_policy_bytes compiles is_control parse [] ≡ ok policy
unfolding policy load_policy_bytes load_document load_tables table_of string_of integer_of
    patterns_of texts check_patterns check_project is_project_id bot_login_of human_merge_of on_ok
    get distinct strip lstrip rstrip is_space split_on ends_with git_branch_format_problem
    branch_name_problem is_bad_part is_unfit unsafe_characters occurs
loaded = refl

load_policy_bytes-IsLoaded_example : IsLoaded compiles is_control policy
load_policy_bytes-IsLoaded_example =
    load_policy_bytes-IsLoaded compiles is_control parse [] policy loaded

abbrev casefold : List ℕ → List ℕ
casefold text = map lower text

abbrev docs_verdict : PolicyDecision
docs_verdict = judge_diff casefold ("docs/a.md" ∷ []) 3 10 policy

docs_judged :
    evaluate_diff casefold ("docs/a.md" ∷ []) (pos 2) (pos 1) policy (pos 10) ≡ ok docs_verdict
unfolding evaluate_diff
docs_judged = refl

evaluate_diff-verdict_example :
    ((docs_verdict.allowed ≡ true) ↔ IsWithin casefold ("docs/a.md" ∷ []) 3 10 policy)
    × ((docs_verdict.automatic_merge_allowed ≡ true)
        ↔ IsHarmless casefold ("docs/a.md" ∷ []) 3 10 policy)
    × ((docs_verdict.risk ≡ critical) ↔ (docs_verdict.allowed ≡ false))
evaluate_diff-verdict_example =
    evaluate_diff-verdict casefold ("docs/a.md" ∷ []) policy 2 1 10 docs_verdict docs_judged

-- A change of the documentation alone is merged without a human.
docs_automatic : docs_verdict.automatic_merge_allowed ≡ true
unfolding policy judge_diff diff_reasons diff_risk forbidden_of protected_of matches matches_folded
    normalized fnmatch_codes items matches_items accepts distinct
docs_automatic = refl

abbrev agents_verdict : PolicyDecision
agents_verdict = judge_diff casefold ("docs/Agents.md" ∷ []) 3 10 policy

agents_judged :
    evaluate_diff casefold ("docs/Agents.md" ∷ []) (pos 2) (pos 1) policy (pos 10)
    ≡ ok agents_verdict
unfolding evaluate_diff
agents_judged = refl

baseline_refused_example : agents_verdict.allowed ≡ false
unfolding matches_folded normalized fnmatch_codes items matches_items accepts
baseline_refused_example =
    baseline_refused compiles is_control parse [] policy casefold ("docs/Agents.md" ∷ []) 2 1 10
      agents_verdict "docs/Agents.md" loaded refl refl agents_judged

abbrev task : TaskSpec
task = record {
  title = "t";
  summary = "";
  acceptance_criteria = [];
  required_tests = [];
  non_goals = [];
  dependencies = [];
  labels = "agent-ready" ∷ "human-review-required" ∷ "spec-drafted" ∷ [];
  raw_body = "";
}

evaluate_task-IsEligible_example :
    (((evaluate_task search_in task policy "plan").allowed ≡ true)
      ↔ IsEligible search_in task policy "plan")
    × ((evaluate_task search_in task policy "plan").automatic_merge_allowed ≡ false)
evaluate_task-IsEligible_example = evaluate_task-IsEligible search_in task policy "plan"

abbrev run : AgentRunRecord
run = record {
  run_id = "r1";
  kind = "implementation";
  mission_id = "m";
  mission_version = "1";
  agent_id = "x";
  adapter = "ad";
  adapter_version = "1";
  provider = "p";
  model = "large";
  model_alias = "l";
  prompt_sha256 = "";
  envelope_sha256 = "";
  work_ref = "w";
  input_refs = "i" ∷ [];
  context_pack_digest = "";
  repair_cycle = 0;
  started_at = "t0";
  event_key = "k2";
  routing_policy_version = "";
  route_reason = "";
  fallback_reason = "";
  finished_at = "";
  result = "running";
  commit_sha = "";
  output_artifacts = ("a", "1") ∷ ("b", "2") ∷ [];
}

abbrev cause : Cause
cause = record {
  actor = "driver";
  actor_kind = "system";
  event_key = "k1";
  timestamp = "t1";
  reason = "";
}

abbrev unit : WorkUnit
unit = record (record_transition (new_unit "u" "k0" "t0" "" []) triaged cause) { runs = run ∷ [] }

abbrev orchestrator : Orchestrator
orchestrator = record {
  max_repair_cycles = 2;
  human_merge_required = true;
  units = ("u", unit) ∷ [];
  state_id = "s";
}

abbrev text_of : Value → String
text_of v = ""

abbrev int_of : Value → Result ℤ
int_of v = err (value_error "")

orchestrator-IsStorable : IsStorable orchestrator
unfolding Dict.keys record_transition new_unit sort_items dict_of put_all Dict.put
orchestrator-IsStorable = record {
  cap = omega arith;
  human = refl;
  unique = (refl, tt);
  units = ((refl, ((refl, refl), tt)), tt);
}

from_dict-as_dict_example :
    from_dict text_of int_of (as_dict orchestrator) ≡ ok (normal orchestrator)
from_dict-as_dict_example = from_dict-as_dict text_of int_of orchestrator orchestrator-IsStorable
