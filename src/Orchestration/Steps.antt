-- ===== src/Orchestration/Steps.antt =====
-- The lifecycle as a step relation: what may happen to the units, whoever calls.
use agentic_sdlc.Base.{String, ◌≡◌, ◌≢◌, ◌⊎◌, true, false, none, some, List, [], ok, member}
use agentic_sdlc.Base.Dict
use agentic_sdlc.Orchestration.State.{
  State, intake, merged, approved, blocked, ready_for_human_merge, abort, has_state, has_edge,
  is_terminal,
}
use agentic_sdlc.Orchestration.Store.{
  AgentRunRecord, WorkUnit, Orchestrator, Cause, store, record_transition,
}
use agentic_sdlc.Orchestration.Runs.{Finish, check_kind, check_serial, with_run, finish_in}

-- A move from a state to a state by an actor of that kind.
pub record Lawful (from to : State) (kind : String) : Type 0 where
  pub live : is_terminal from ≡ false
  pub edge : (has_edge from to ≡ true) ⊎ (kind ≡ "human")
  pub merge_by_human : to ≡ merged → (from ≡ ready_for_human_merge) × (kind ≡ "human")
  pub approval_not_by_agent : to ≡ approved → kind ≢ "agent"
  pub resumed_by_human : from ≡ blocked → has_state to abort ≡ false → kind ≡ "human"

-- A unit as it is created.
pub record IsNew (u : WorkUnit) : Type 0 where
  pub starts : u.state ≡ intake
  pub no_transitions : u.transitions ≡ []
  pub no_runs : u.runs ≡ []
  pub no_repairs : u.repair_count ≡ 0

-- The two differ in notes only: in `superseded_by` and in the digest of the findings.
pub record SameLife (u v : WorkUnit) : Type 0 where
  pub state : v.state ≡ u.state
  pub group : v.concurrency_group ≡ u.concurrency_group
  pub transitions : v.transitions ≡ u.transitions
  pub runs : v.runs ≡ u.runs
  pub repairs : v.repair_count ≡ u.repair_count
  pub keys : v.event_keys ≡ u.event_keys

pub data Step (o : Orchestrator) : Orchestrator → Type 0 where
  created : (k : String) (u : WorkUnit) → Dict.get k o.units ≡ none → IsNew u → Step o (store k u o)
  moved :
      (k : String) (u : WorkUnit) (target : State) (c : Cause)
      → Dict.get k o.units ≡ some u
      → Lawful u.state target c.actor_kind
      → member c.event_key u.event_keys ≡ false
      → Step o (store k (record_transition u target c) o)
  noted :
      (k : String) (u v : WorkUnit)
      → Dict.get k o.units ≡ some u
      → SameLife u v
      → Step o (store k v o)
  started :
      (k : String) (u : WorkUnit) (run : AgentRunRecord)
      → Dict.get k o.units ≡ some u
      → run.result ≡ "running"
      → check_kind o.max_repair_cycles u run.kind ≡ ok tt
      → check_serial o.units u run.kind ≡ ok tt
      → Step o (store k (with_run u run) o)
  finished :
      (k : String) (u : WorkUnit) (f : Finish) (run_id : String) (run : AgentRunRecord)
      (runs : List AgentRunRecord)
      → Dict.get k o.units ≡ some u
      → (f.result ≡ "succeeded") ⊎ (f.result ≡ "failed")
      → finish_in f run_id u.runs ≡ some (run, runs)
      → Step o (store k (record u { runs = runs }) o)

pub data Reach (o : Orchestrator) : Orchestrator → Type 0 where
  here : Reach o o
  next : {p q : Orchestrator} → Reach o p → Step p q → Reach o q

pub Reach-trans : {o p q : Orchestrator} → Reach o p → Reach p q → Reach o q
Reach-trans r here = r
Reach-trans r (next s t) = next (Reach-trans r s) t

pub one : {o p : Orchestrator} → Step o p → Reach o p
one s = next here s
