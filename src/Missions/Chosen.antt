-- ===== src/Missions/Chosen.antt =====
-- Which agent `select_agent` (src/agentic_sdlc/missions.py) chooses.
use agentic_sdlc.Base.{
  ◌≤◌, String, ◌≡◌, ◌↔◌, sym, subst, ap, ◌∙◌, ◌⊎◌, inl, inr, true, false, Option, none, some, List,
  [], ◌∷◌, ◌++◌, ok, after, All, member, arith, eq_iff, ◌==◌, Bool-cases, Option-cases,
  if◌then◌else◌,
}
use agentic_sdlc.Base.Dict
use agentic_sdlc.Base.Dict.{Dict}
use agentic_sdlc.Missions.{MissionSpec, AgentProfile, reviews, risk_order}
use agentic_sdlc.Missions.Ledger.{MissionRegistry, MissionLedger, mission_at}
use agentic_sdlc.Missions.Selection.{
  History, known_agents, declared, is_writer, producers, excluded_agents, rejection, no_agent,
  first_eligible, select_agent,
}
use agentic_sdlc.WorkGraph.Toposort.Members.{member-append, none_missing}

-- The agent is available, is none of the excluded, has each capability and is cleared for the risk.
pub record IsFit (mission : MissionSpec) (excluded : List String) (agent : AgentProfile)
    : Type 0 where
  pub available : agent.available ≡ true
  pub independent : member agent.agent_id excluded ≡ false
  pub capable : All (λ c. member c agent.capabilities ≡ true) mission.capabilities
  pub cleared : risk_order mission.risk ≤ risk_order agent.max_risk

rejection-IsFit :
    (mission : MissionSpec) (excluded : List String) (agent : AgentProfile)
    → (rejection mission excluded agent ≡ none) ↔ IsFit mission excluded agent
unfolding rejection
rejection-IsFit mission excluded agent =
    let capable = none_missing mission.capabilities agent.capabilities in
    (
      (λ h. record {
        available = ground arith;
        independent = ground arith;
        capable = capable.0 (ground arith);
        cleared = ground arith;
      }),
      (λ e.
          let all_there = capable.1 e.capable in
          ground (arith, e.available, e.independent, e.cleared)),
    )

-- `Chooses p agents agent`: the agent is the first of them with the property.
pub data Chooses (P : AgentProfile → Type 0) : List AgentProfile → AgentProfile → Type 0 where
  here :
      {agent : AgentProfile} {agents : List AgentProfile}
      → P agent
      → Chooses P (agent ∷ agents) agent
  later :
      {other agent : AgentProfile} {agents : List AgentProfile}
      → ¬ P other
      → Chooses P agents agent
      → Chooses P (other ∷ agents) agent

pub first_eligible-Chooses :
    (mission : MissionSpec) (mission_id : String) (excluded : List String)
    (agents : List AgentProfile) (rejected : List String) (agent : AgentProfile)
    → first_eligible mission mission_id excluded agents rejected ≡ ok agent
    → Chooses (IsFit mission excluded) agents agent
unfolding first_eligible no_agent
first_eligible-Chooses mission mission_id excluded [] rejected agent h = absurd cc
first_eligible-Chooses mission mission_id excluded (a ∷ agents) rejected agent h =
    elim (Option-cases (rejection mission excluded a)) [
      | inl fine ↦
          let h' = rw (first_eligible, fine) at h in
          let same : a ≡ agent = cc in
          subst (Chooses (IsFit mission excluded) (a ∷ agents)) same
            (here ((rejection-IsFit mission excluded a).0 fine))
      | inr (reason, out) ↦
          later
            (λ e.
              let fine = (rejection-IsFit mission excluded a).1 e in
              let both : some reason ≡ none = sym out ∙ fine in cc)
            (first_eligible-Chooses mission mission_id excluded agents (rejected ++ reason ∷ [])
              agent (rw (first_eligible, out) at h))
    ]

pub select_agent-Chooses :
    (registry : MissionRegistry) (mission_id : String) (agents : List AgentProfile)
    (history : History) (ledger : Option MissionLedger) (more : List String) (agent : AgentProfile)
    → select_agent registry mission_id agents history ledger more ≡ ok agent
    → (mission : MissionSpec) × (Dict.get mission_id registry.missions ≡ some mission)
      × Chooses (IsFit mission (excluded_agents registry mission history ++ more)) agents agent
unfolding select_agent mission_at
select_agent-Chooses registry mission_id agents history ledger more agent h =
    after h λ mission found h. after h λ _ _ h. (
      mission,
      mission_at-get registry mission_id mission found,
      first_eligible-Chooses mission mission_id _ agents [] agent h,
    )
  where
    mission_at-get :
        (r : MissionRegistry) (id : String) (m : MissionSpec)
        → mission_at r id ≡ ok m
        → Dict.get id r.missions ≡ some m
    mission_at-get r id m h = elim (Option-cases (Dict.get id r.missions)) [
      | inl missing ↦ absurd (let h' = rw (mission_at, missing) at h in cc)
      | inr (found, at) ↦
          let h' = rw (mission_at, at) at h in let same : found ≡ m = cc in at ∙ ap some same
    ]

pub Chooses-holds :
    {P : AgentProfile → Type 0} {agents : List AgentProfile} (agent : AgentProfile)
    → Chooses P agents agent
    → P agent
Chooses-holds agent (here p) = p
Chooses-holds agent (later away c) = Chooses-holds agent c

-- The agents of a mission that the chosen one must be independent of are excluded.
member-declared :
    (agent : String) (other : String) (others : List String) (history : History)
    (as_one : List String)
    → member other others ≡ true
    → Dict.get other history ≡ some as_one
    → member agent as_one ≡ true
    → member agent (declared others history) ≡ true
unfolding declared
member-declared agent other [] history agents m at a = cc
member-declared agent other (o ∷ others) history agents m at a = elim (Bool-cases (o == other)) [
  | inl same ↦
      let found =
        subst (λ x. Dict.get x history ≡ some agents) (sym ((eq_iff o other).0 same)) at in
      rw (declared, found) (ground (arith, member-append agent agents (declared others history)))
  | inr differs ↦
      let rest = member-declared agent other others history agents (ground arith) at a in
      ground
        (arith, member-append agent (known_agents (Dict.get o history)) (declared others history))
]

-- So are those of a mission that writes.
member-producers :
    (registry : MissionRegistry) (agent other : String) (history : History) (agents : List String)
    → is_writer registry other ≡ true
    → Dict.get other history ≡ some agents
    → member agent agents ≡ true
    → member agent (producers registry history) ≡ true
unfolding producers Dict.get
member-producers registry agent other [] agents w at a = absurd cc
member-producers registry agent other ((id, ids) ∷ history) agents w at a =
    elim (Bool-cases (id == other)) [
      | inl same ↦
          let at' = rw (Dict.get, same) at at in
          let one : ids ≡ agents = cc in
          let writer =
            subst (λ x. is_writer registry x ≡ true) (sym ((eq_iff id other).0 same)) w in
          let inside = subst (λ x. member agent x ≡ true) (sym one) a in
          rw writer (ground (arith, member-append agent ids (producers registry history)))
      | inr differs ↦
          let rest =
            member-producers registry agent other history agents w (rw (Dict.get, differs) at at)
              a in
          elim (Bool-cases (is_writer registry id)) [
            | inl writer ↦
                rw writer (ground (arith, member-append agent ids (producers registry history)))
            | inr reader ↦ rw reader rest
          ]
    ]

-- An agent that did a mission of the history is not eligible, if the mission is one that must be independent
-- of it, or reviews while that one writes.
pub worker_excluded :
    (registry : MissionRegistry) (mission : MissionSpec) (history : History) (more : List String)
    (agent other : String) (agents : List String)
    → ((member other mission.independent_of ≡ true)
        ⊎ ((reviews mission ≡ true) × (is_writer registry other ≡ true)))
    → Dict.get other history ≡ some agents
    → member agent agents ≡ true
    → member agent (excluded_agents registry mission history ++ more) ≡ true
unfolding excluded_agents
worker_excluded registry mission history more agent other agents (inl apart) at a =
    let named = member-declared agent other mission.independent_of history agents apart at a in
    ground (
      arith,
      member-append agent (declared mission.independent_of history)
          (if reviews mission then producers registry history else []),
      member-append agent (excluded_agents registry mission history) more,
    )
worker_excluded registry mission history more agent other agents (inr (reviewing, writing)) at a =
    let produced = member-producers registry agent other history agents writing at a in
    rw reviewing (
      ground (
        arith,
        member-append agent (declared mission.independent_of history) (producers registry history),
        member-append agent (declared mission.independent_of history ++ producers registry history)
            more,
      ))
