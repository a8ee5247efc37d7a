-- ===== src/Witnesses/Agents.antt =====
-- Missions and agents (src/agentic_sdlc/missions.py), and the choice of a reviewer
-- (src/agentic_sdlc/orchestration.py).
use agentic_sdlc.Base.{
  String, ◌≡◌, ◌≢◌, refl, inl, true, none, some, List, [], ◌∷◌, ◌++◌, ok, on_ok,
}
use agentic_sdlc.Base.Dict
use agentic_sdlc.Base.Dict.{Dict}
use agentic_sdlc.MergeEvidence.{to_set}
use agentic_sdlc.Missions.{MissionSpec, AgentProfile, writes, reviews}
use agentic_sdlc.Missions.Platform.{spec_with, platform_missions}
use agentic_sdlc.Missions.Ledger.{MissionRegistry, mission_at}
use agentic_sdlc.Missions.Selection.{
  declared, producers, is_writer, excluded_agents, rejection, first_eligible, check_ledger,
  select_agent,
}
use agentic_sdlc.Missions.Chosen.{IsFit, Chooses, select_agent-Chooses}
use agentic_sdlc.Orchestration.Runs.{agent_history}
use agentic_sdlc.Orchestration.Selecting.{as_history, select_review_agent, reviewer_independent}
use agentic_sdlc.Orchestration.Store.{AgentRunRecord, WorkUnit, Orchestrator, get, new_unit}
use agentic_sdlc.Policy.Decisions.{high}

abbrev missions_of : List MissionSpec → Dict MissionSpec
missions_of [] = []
missions_of (m ∷ ms) = (m.mission_id, m) ∷ missions_of ms

abbrev registry : MissionRegistry
unfolding platform_missions
registry = record { missions = missions_of platform_missions; allowed_capabilities = [] }

abbrev agent_of : String → List String → AgentProfile
agent_of name capabilities = record {
  agent_id = name;
  adapter = "a";
  adapter_version = "1";
  provider = "p";
  model = "m";
  capabilities = capabilities;
  available = true;
  max_risk = high;
  context_window_tokens = 0;
}

abbrev agents : List AgentProfile
agents =
    agent_of "worker" ("review-code" ∷ [])
    ∷ agent_of "planner" ("plan" ∷ [])
    ∷ agent_of "reviewer" ("review-code" ∷ [])
    ∷ []

abbrev run_of : String → String → AgentRunRecord
run_of mission agent = record {
  run_id = mission;
  kind = "implementation";
  mission_id = mission;
  mission_version = "1.0.0";
  agent_id = agent;
  adapter = "a";
  adapter_version = "1";
  provider = "p";
  model = "m";
  model_alias = "m";
  prompt_sha256 = "";
  envelope_sha256 = "";
  work_ref = "";
  input_refs = [];
  context_pack_digest = "";
  repair_cycle = 0;
  started_at = "";
  event_key = "";
  routing_policy_version = "";
  route_reason = "";
  fallback_reason = "";
  finished_at = "";
  result = "succeeded";
  commit_sha = "";
  output_artifacts = [];
}

abbrev unit_with : List AgentRunRecord → WorkUnit
unit_with runs = record (new_unit "u" "k" "t" "" []) { runs = runs }

abbrev orchestrator_with : List AgentRunRecord → Orchestrator
orchestrator_with runs = record {
  max_repair_cycles = 2;
  human_merge_required = true;
  units = ("u", unit_with runs) ∷ [];
  state_id = "s";
}

abbrev implemented : List AgentRunRecord
implemented = run_of "implementation-worker" "worker" ∷ []

chosen :
    select_agent registry "code-reviewer" agents
      (("implementation-worker", "worker" ∷ []) ∷ [])
      none
      []
    ≡ ok (agent_of "reviewer" ("review-code" ∷ []))
unfolding select_agent mission_at check_ledger first_eligible rejection excluded_agents declared
    producers is_writer writes reviews on_ok Dict.get to_set platform_missions spec_with registry
chosen = refl

select_agent-Chooses_example :
    (mission : MissionSpec) × (Dict.get "code-reviewer" registry.missions ≡ some mission)
    × Chooses
        (IsFit mission
          (excluded_agents registry mission (("implementation-worker", "worker" ∷ []) ∷ []) ++ []))
        agents
        (agent_of "reviewer" ("review-code" ∷ []))
select_agent-Chooses_example =
    select_agent-Chooses registry "code-reviewer" agents
      (("implementation-worker", "worker" ∷ []) ∷ []) none []
      (agent_of "reviewer" ("review-code" ∷ [])) chosen

abbrev code_reviewer : MissionSpec
unfolding spec_with
code_reviewer =
    record (spec_with "code-reviewer"
      "Independently review a candidate change for correctness and regressions" ("review-code" ∷ [])
      ("review-report" ∷ [])) {
        input_artifacts = "patch" ∷ "patch-manifest" ∷ "gate-report" ∷ [];
        independent_of = "implementation-worker" ∷ "repair-agent" ∷ "test-author" ∷ [];
        parallelizable = true;
      }

reviewer_independent_example : (agent_of "reviewer" ("review-code" ∷ [])).agent_id ≢ "worker"
unfolding select_review_agent select_agent get mission_at check_ledger first_eligible rejection
    excluded_agents declared producers is_writer writes reviews on_ok Dict.get Dict.put to_set
    platform_missions spec_with registry code_reviewer agent_history as_history new_unit
reviewer_independent_example =
    reviewer_independent registry (orchestrator_with implemented) "u" agents "code-reviewer"
      (agent_of "reviewer" ("review-code" ∷ [])) (unit_with implemented) code_reviewer
      "implementation-worker" "worker" refl refl (inl refl) refl refl

-- An agent that implemented the unit first is chosen as its reviewer if another agent implemented it later.
earlier_worker_reviews :
    select_review_agent
      (some registry)
      (orchestrator_with
        (run_of "implementation-worker" "worker" ∷ run_of "implementation-worker" "other" ∷ []))
      "u"
      agents
      "code-reviewer"
    ≡ ok (agent_of "worker" ("review-code" ∷ []))
unfolding select_review_agent select_agent get mission_at check_ledger first_eligible rejection
    excluded_agents declared producers is_writer writes reviews on_ok Dict.get Dict.put to_set
    platform_missions spec_with registry agent_history as_history new_unit
earlier_worker_reviews = refl

abbrev small : MissionRegistry
small = record {
  missions = ("m", record code_reviewer { mission_id = "m" }) ∷ [];
  allowed_capabilities = [];
}
