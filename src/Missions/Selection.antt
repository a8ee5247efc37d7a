-- ===== src/Missions/Selection.antt =====
-- `MissionRegistry` of src/agentic_sdlc/missions.py: who may do a mission.
use agentic_sdlc.Base.{
  String, ◌+++◌, Bool, false, not, Option, none, some, List, [], ◌∷◌, ◌++◌, Result, ok, err,
  mission_error, keep, member, sorted, join, is_empty, ltb, if◌then◌else◌,
}
use agentic_sdlc.Base.Dict
use agentic_sdlc.Base.Dict.{Dict}
use agentic_sdlc.Base.Raising.{◌>>=◌, ◌>>◌}
use agentic_sdlc.MergeEvidence.{to_set}
use agentic_sdlc.Missions.{MissionSpec, AgentProfile, writes, reviews, risk_order}
use agentic_sdlc.Missions.Ledger.{MissionRegistry, MissionLedger, mission_at, check_budget}
use agentic_sdlc.Policy.Decisions.{RiskLevel, low, medium, high, critical}

-- The agents of each mission that was run; one agent alone is a list of one.
abbrev pub History : Type 0
History = Dict (List String)

abbrev pub known_agents : Option (List String) → List String
known_agents none = []
known_agents (some agents) = agents

-- the agents of the missions that this one must be independent of
unfoldable pub declared : List String → History → List String
declared [] history = []
declared (other ∷ others) history = known_agents (Dict.get other history) ++ declared others history

-- whether the registry has the mission and it writes
unfoldable pub is_writer : MissionRegistry → String → Bool
is_writer registry id = elim (Dict.get id registry.missions) [
  | none ↦ false
  | some other ↦ writes other
]

-- the agents of the missions that write
unfoldable pub producers : MissionRegistry → History → List String
producers registry [] = []
producers registry ((id, agents) ∷ history) =
    let rest = producers registry history in if is_writer registry id then agents ++ rest else rest

-- `excluded_agents`
unfoldable pub excluded_agents : MissionRegistry → MissionSpec → History → List String
excluded_agents registry mission history =
    declared mission.independent_of history
    ++ (if reviews mission then producers registry history else [])

abbrev pub lacking : MissionSpec → AgentProfile → List String
lacking mission agent = keep (λ c. not (member c agent.capabilities)) (to_set mission.capabilities)

abbrev risk_value : RiskLevel → String
risk_value low = "low"
risk_value medium = "medium"
risk_value high = "high"
risk_value critical = "critical"

-- why the agent is rejected, if it is
unfoldable pub rejection : MissionSpec → List String → AgentProfile → Option String
rejection mission excluded agent =
    if not agent.available
    then some (agent.agent_id +++ ": unavailable")
    else if member agent.agent_id excluded
    then some (agent.agent_id +++ ": independence conflict")
    else if not (is_empty (lacking mission agent))
    then some (
        agent.agent_id
        +++ ": missing capabilities ("
        +++ join ", " (sorted (lacking mission agent))
        +++ ")")
    else if ltb (risk_order agent.max_risk) (risk_order mission.risk)
    then some (agent.agent_id +++ ": not cleared for " +++ risk_value mission.risk +++ " risk")
    else none

unfoldable pub no_agent : String → List String → Result AgentProfile
no_agent mission_id rejected = err (
    mission_error (
      "no eligible agent for mission "
      +++ mission_id
      +++ ": "
      +++ (if is_empty rejected then "no agents declared" else join "; " rejected)))

-- the loop over the agents
unfoldable pub first_eligible :
    MissionSpec → String → List String → List AgentProfile → List String → Result AgentProfile
first_eligible mission mission_id excluded [] rejected = no_agent mission_id rejected
first_eligible mission mission_id excluded (agent ∷ agents) rejected =
    elim (rejection mission excluded agent) [
      | none ↦ ok agent
      | some reason ↦ first_eligible mission mission_id excluded agents (rejected ++ reason ∷ [])
    ]

-- ledger.check(mission), if there is a ledger
unfoldable pub check_ledger : MissionSpec → Option MissionLedger → Result (Unit {0})
check_ledger mission none = ok tt
check_ledger mission (some ledger) = (check_budget mission none ledger).0

unfoldable pub select_agent :
    MissionRegistry
    → String
    → List AgentProfile
    → History
    → Option MissionLedger
    → List String
    → Result AgentProfile
select_agent registry mission_id agents history ledger more = do
  mission ← mission_at registry mission_id
  check_ledger mission ledger
  first_eligible mission mission_id (excluded_agents registry mission history ++ more) agents []
