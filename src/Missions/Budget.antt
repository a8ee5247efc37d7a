-- ===== src/Missions/Budget.antt =====
-- The limits of a mission hold in every history of its runs (src/agentic_sdlc/missions.py).
use agentic_sdlc.Base.Int.{ℤ}
use agentic_sdlc.Base.{◌+◌, ◌≤◌, String, ◌≡◌, some, List, [], ◌∷◌}
use agentic_sdlc.Base.Dict
use agentic_sdlc.Missions.{MissionSpec}
use agentic_sdlc.Missions.Ledger.{
  MissionRegistry, MissionLedger, attempts_at, active_count, open_run, close_run,
}

-- A call on the ledger.
pub data Call : Type 0 where
  begins : (mission_id work_ref : String) → Call
  finishes : (mission_id : String) (tokens_used : ℤ) → Call

module _ (registry : MissionRegistry) where
  abbrev pub call : Call → MissionLedger → MissionLedger
  call (begins id work_ref) l = (open_run registry id work_ref l).1
  call (finishes id used) l = (close_run registry id used l).1

  -- the ledger behind the calls, of which some may have raised
  abbrev pub call_all : List Call → MissionLedger → MissionLedger
  call_all [] l = l
  call_all (c ∷ cs) l = call_all cs (call c l)

  -- Of each mission of the registry, no more runs are active than it allows, and no work item was begun
  -- more often than its retries allow.
  pub record IsWithinLimits (l : MissionLedger) : Type 0 where
    pub active :
        (id : String) (m : MissionSpec)
        → Dict.get id registry.missions ≡ some m
        → active_count id l ≤ m.max_concurrency
    pub attempts :
        (id work_ref : String) (m : MissionSpec)
        → Dict.get id registry.missions ≡ some m
        → attempts_at id work_ref l.attempts ≤ m.max_retries + 1

  -- Each mission stands under its id.
  abbrev pub Keyed : Type 0
  Keyed =
      (id : String) (m : MissionSpec) → Dict.get id registry.missions ≡ some m → m.mission_id ≡ id
