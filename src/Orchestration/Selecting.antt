-- ===== src/Orchestration/Selecting.antt =====
-- The choice of agents: `select_repair_agent` and `select_review_agent` of src/agentic_sdlc/orchestration.py.
-- The registry of missions, an attribute of the orchestrator that no method changes, is an argument.
use agentic_sdlc.Base.{
  String, ◌≡◌, ◌≢◌, sym, ap, ◌∙◌, subst, ◌⊎◌, inl, inr, true, false, Option, none, some, List, [],
  ◌∷◌, ◌++◌, Result, ok, err, orchestration_error, after, member, ◌==◌, eq_refl, arith, Bool-cases,
}
use agentic_sdlc.Base.Dict
use agentic_sdlc.Base.Dict.{Dict}
use agentic_sdlc.Base.Raising.{◌>>=◌}
use agentic_sdlc.Missions.{MissionSpec, AgentProfile, reviews}
use agentic_sdlc.Missions.Chosen.{select_agent-Chooses, Chooses-holds, worker_excluded}
use agentic_sdlc.Missions.Ledger.{MissionRegistry}
use agentic_sdlc.Missions.Selection.{History, is_writer, excluded_agents, select_agent}
use agentic_sdlc.Orchestration.Runs.{agent_history}
use agentic_sdlc.Orchestration.Store.{WorkUnit, Orchestrator, get}

-- one agent for each mission
unfoldable pub as_history : Dict String → History
as_history [] = []
as_history ((mission, agent) ∷ history) = (mission, agent ∷ []) ∷ as_history history

unfoldable pub select_repair_agent :
    Option MissionRegistry
    → Orchestrator
    → String
    → List AgentProfile
    → String
    → Result AgentProfile
select_repair_agent none o unit_id agents mission_id =
    err (orchestration_error "a mission registry is required for dispatch")
select_repair_agent (some registry) o unit_id agents mission_id = do
  unit ← (get unit_id o).0
  select_agent registry mission_id agents (as_history (agent_history unit.runs [])) none []

unfoldable pub select_review_agent :
    Option MissionRegistry
    → Orchestrator
    → String
    → List AgentProfile
    → String
    → Result AgentProfile
select_review_agent none o unit_id agents mission_id =
    err (orchestration_error "a mission registry is required for dispatch")
select_review_agent (some registry) o unit_id agents mission_id = do
  unit ← (get unit_id o).0
  select_agent registry mission_id agents (as_history (agent_history unit.runs [])) none []

get-as_history :
    (mission agent : String) (history : Dict String)
    → Dict.get mission history ≡ some agent
    → Dict.get mission (as_history history) ≡ some (agent ∷ [])
unfolding as_history Dict.get
get-as_history mission agent [] at = absurd cc
get-as_history mission agent ((m, a) ∷ history) at = elim (Bool-cases (m == mission)) [
  | inl same ↦
      let at' = rw (Dict.get, same) at at in
      let one : a ≡ agent = cc in rw same (ap (λ x. some (x ∷ [])) one)
  | inr other ↦ rw other (get-as_history mission agent history (rw (Dict.get, other) at at))
]

-- The reviewer that is chosen for a unit is none of the agents to whom its runs assign, as the last of the
-- mission, a mission that the review declares itself independent of, or, where the mission of the
-- review has a review capability, a mission that the registry has with a capability to write.
pub reviewer_independent :
    (registry : MissionRegistry) (o : Orchestrator) (unit_id : String) (agents : List AgentProfile)
    (mission_id : String) (agent : AgentProfile) (unit : WorkUnit) (mission : MissionSpec)
    (other worker : String)
    → Dict.get unit_id o.units ≡ some unit
    → Dict.get mission_id registry.missions ≡ some mission
    → ((member other mission.independent_of ≡ true)
        ⊎ ((reviews mission ≡ true) × (is_writer registry other ≡ true)))
    → Dict.get other (agent_history unit.runs []) ≡ some worker
    → select_review_agent (some registry) o unit_id agents mission_id ≡ ok agent
    → agent.agent_id ≢ worker
unfolding select_review_agent get
reviewer_independent registry o unit_id agents mission_id agent unit mission other worker at named
      apart ran h same =
    let h' = rw (select_review_agent, get, at) at h in
    after h' λ u found h2.
      let this : unit ≡ u = cc in
      let (m, known, c) =
        select_agent-Chooses registry mission_id agents (as_history (agent_history u.runs [])) none
          [] agent h2 in
      let one : some mission ≡ some m = sym named ∙ known in
      let is_m : mission ≡ m = cc in
      let e = Chooses-holds agent c in
      let ran_u =
        get-as_history other worker (agent_history u.runs [])
          (subst (λ x. Dict.get other (agent_history x.runs []) ≡ some worker) this ran) in
      let apart_m =
        subst
          (λ x.
            (member other x.independent_of ≡ true)
            ⊎ ((reviews x ≡ true) × (is_writer registry other ≡ true)))
          is_m apart in
      let out =
        worker_excluded registry m (as_history (agent_history u.runs [])) [] worker other
          (worker ∷ []) apart_m ran_u (ground (arith, eq_refl worker)) in
      let inside =
        subst
          (λ x.
            member x (excluded_agents registry m (as_history (agent_history u.runs [])) ++ [])
            ≡ false)
          same e.independent in
      cc
