-- ===== src/Missions/Platform.antt =====
-- PLATFORM_MISSIONS of src/agentic_sdlc/missions.py.
use agentic_sdlc.Base.{String, ◌+++◌, true, false, List, [], ◌∷◌}
use agentic_sdlc.Missions.{MissionSpec}
use agentic_sdlc.Policy.Decisions.{low, medium, high}

-- `_spec` without overrides
unfoldable pub spec_with : String → String → List String → List String → MissionSpec
spec_with mission_id purpose capabilities output_artifacts = record {
  mission_id = mission_id;
  version = "1.0.0";
  purpose = purpose;
  success_criteria = (purpose +++ " with the declared evidence attached.") ∷ [];
  capabilities = capabilities;
  output_artifacts = output_artifacts;
  input_artifacts = [];
  read_paths = "**" ∷ [];
  write_paths = [];
  forbidden_paths = [];
  commands = [];
  evidence = [];
  knowledge_sources = [];
  risk = medium;
  approval_required = false;
  max_runtime_seconds = 3600;
  max_tokens = 500000;
  max_retries = 2;
  max_concurrency = 1;
  parallelizable = false;
  independent_of = [];
  escalate_to = "human";
  origin = "platform";
}

abbrev patch_inputs : List String
patch_inputs = "patch" ∷ "patch-manifest" ∷ []

-- a reviewer of a candidate change
abbrev reviewer : String → String → List String → List String → MissionSpec
reviewer id purpose capabilities independent =
    record (spec_with id purpose capabilities ("review-report" ∷ [])) {
      input_artifacts = patch_inputs;
      independent_of = independent;
      parallelizable = true;
    }

abbrev workers : List String
workers = "implementation-worker" ∷ "repair-agent" ∷ []

-- PLATFORM_MISSIONS
unfoldable pub platform_missions : List MissionSpec
unfolding spec_with
platform_missions =
    record (spec_with "specification-planner"
      "Turn an approved work request into a bounded specification and plan"
      ("specify" ∷ "plan" ∷ []) ("plan-comment" ∷ [])) {
        input_artifacts = "task-spec" ∷ [];
        evidence = "policy-decision" ∷ [];
      }
    ∷ record (spec_with "implementation-worker"
        "Implement an approved specification as a reviewable patch"
        ("edit-code" ∷ "author-tests" ∷ "run-commands" ∷ []) patch_inputs) {
          input_artifacts = "task-spec" ∷ "plan-comment" ∷ [];
          write_paths = "src/**" ∷ "tests/**" ∷ [];
          commands = "test" ∷ [];
          evidence = "gate-report" ∷ "policy-decision" ∷ [];
          max_retries = 1;
        }
    ∷ record (spec_with "test-author" "Author tests against a frozen interface contract"
        ("author-tests" ∷ "run-commands" ∷ []) patch_inputs) {
          input_artifacts = "task-spec" ∷ [];
          write_paths = "tests/**" ∷ [];
          commands = "test" ∷ [];
          evidence = "gate-report" ∷ [];
          parallelizable = true;
        }
    ∷ record (spec_with "deterministic-verifier"
        "Run the trusted verification gates against a candidate change" ("run-commands" ∷ [])
        ("gate-report" ∷ [])) { input_artifacts = patch_inputs; risk = low; parallelizable = true }
    ∷ record (reviewer "code-reviewer"
        "Independently review a candidate change for correctness and regressions"
        ("review-code" ∷ []) ("implementation-worker" ∷ "repair-agent" ∷ "test-author" ∷ [])) {
          input_artifacts = "patch" ∷ "patch-manifest" ∷ "gate-report" ∷ [];
        }
    ∷ record (reviewer "security-reviewer"
        "Independently review a candidate change for security regressions"
        ("review-code" ∷ "review-security" ∷ []) workers) { risk = high }
    ∷ reviewer "architecture-reviewer"
        "Independently review a candidate change for architectural fit"
        ("review-code" ∷ "review-architecture" ∷ []) workers
    ∷ reviewer "data-quality-reviewer"
        "Independently review data handling, schemas, and quality controls"
        ("review-data-quality" ∷ []) workers
    ∷ reviewer "quant-reviewer" "Independently review mathematical and quantitative correctness"
        ("review-quantitative" ∷ []) workers
    ∷ record (spec_with "documentation-agent"
        "Produce or update documentation for a completed change" ("edit-docs" ∷ []) patch_inputs) {
          input_artifacts = "task-spec" ∷ [];
          write_paths = "docs/**" ∷ "*.md" ∷ "**/*.md" ∷ [];
          risk = low;
          parallelizable = true;
        }
    ∷ record (spec_with "repair-agent"
        "Address independent review findings with a bounded follow-up patch"
        ("edit-code" ∷ "author-tests" ∷ "run-commands" ∷ "repair" ∷ []) patch_inputs) {
          input_artifacts = "review-report" ∷ "patch" ∷ [];
          write_paths = "src/**" ∷ "tests/**" ∷ [];
          commands = "test" ∷ [];
          evidence = "gate-report" ∷ [];
          max_retries = 1;
        }
    ∷ record (spec_with "release-validator"
        "Validate a composed candidate against release criteria without deploying"
        ("run-commands" ∷ "validate-release" ∷ []) ("gate-report" ∷ [])) {
          input_artifacts = "patch-manifest" ∷ [];
          risk = high;
          approval_required = true;
        }
    ∷ record (spec_with "context-builder"
        "Assemble the permitted evidence context pack for a downstream mission"
        ("build-context" ∷ []) ("context-pack" ∷ [])) { risk = low; parallelizable = true }
    ∷ []
