-- ===== src/Missions/Ledger.antt =====
-- `MissionLedger` of src/agentic_sdlc/missions.py. A key of `_attempts` is a pair of texts.
use agentic_sdlc.Base.Int.{ℤ, pos, negsuc}
use agentic_sdlc.Base.{
  ℕ, ◌+◌, ◌-◌, String, ◌+++◌, ◌&&◌, Option, none, some, List, [], ◌∷◌, Exec, Result, ok, err,
  mission_error, ◌>>=◌, ◌>>◌, require, raise, modify, lift, leb, ltb, show, if◌then◌else◌, ◌==◌,
}
use agentic_sdlc.Base.Dict
use agentic_sdlc.Base.Dict.{Dict}
use agentic_sdlc.Missions.{MissionSpec}

pub record MissionRegistry : Type 0 where
  pub missions : Dict MissionSpec
  pub allowed_capabilities : List String

-- `MissionRegistry.get`
unfoldable pub mission_at : MissionRegistry → String → Result MissionSpec
mission_at registry mission_id = elim (Dict.get mission_id registry.missions) [
  | none ↦ err (mission_error ("unknown mission: " +++ mission_id))
  | some mission ↦ ok mission
]

abbrev pub Attempts : Type 0
Attempts = List (String × String × ℕ)

pub record MissionLedger : Type 0 where
  pub active : Dict ℕ
  pub tokens : Dict ℕ
  pub attempts : Attempts

-- `__init__`
abbrev pub new_ledger : MissionLedger
new_ledger = record { active = []; tokens = []; attempts = [] }

abbrev pub or_zero : Option ℕ → ℕ
or_zero none = 0
or_zero (some n) = n

-- self._attempts.get((mission_id, work_ref), 0)
unfoldable pub attempts_at : String → String → Attempts → ℕ
attempts_at m w [] = 0
attempts_at m w ((m', w', n) ∷ rest) = if m' == m && w' == w then n else attempts_at m w rest

-- self._attempts[(mission_id, work_ref)] = n
unfoldable pub set_attempts : String → String → ℕ → Attempts → Attempts
set_attempts m w n [] = (m, w, n) ∷ []
set_attempts m w n ((m', w', k) ∷ rest) =
    if m' == m && w' == w then (m', w', n) ∷ rest else (m', w', k) ∷ set_attempts m w n rest

abbrev pub active_count : String → MissionLedger → ℕ
active_count id l = or_zero (Dict.get id l.active)

abbrev pub tokens_spent : String → MissionLedger → ℕ
tokens_spent id l = or_zero (Dict.get id l.tokens)

-- the test of the retries, where a work item is given
unfoldable pub check_attempts : MissionSpec → Option String → Exec MissionLedger (Unit {0})
check_attempts mission none l = (ok tt, l)
check_attempts mission (some work_ref) l =
    let attempts = attempts_at mission.mission_id work_ref l.attempts in
    require (ltb attempts (mission.max_retries + 1))
      (mission_error (
        "mission "
        +++ mission.mission_id
        +++ ": retry limit exceeded for "
        +++ work_ref
        +++ " ("
        +++ show attempts
        +++ " attempts, "
        +++ show mission.max_retries
        +++ " retries allowed)"))
      l

-- `check`
unfoldable pub check_budget : MissionSpec → Option String → Exec MissionLedger (Unit {0})
check_budget mission work_ref = do
  λ l.
      require (ltb (active_count mission.mission_id l) mission.max_concurrency)
        (mission_error (
          "mission "
          +++ mission.mission_id
          +++ ": concurrency limit reached ("
          +++ show (active_count mission.mission_id l)
          +++ "/"
          +++ show mission.max_concurrency
          +++ ")"))
        l
  λ l.
      require (ltb (tokens_spent mission.mission_id l) mission.max_tokens)
        (mission_error (
          "mission "
          +++ mission.mission_id
          +++ ": token budget exhausted ("
          +++ show (tokens_spent mission.mission_id l)
          +++ "/"
          +++ show mission.max_tokens
          +++ ")"))
        l
  check_attempts mission work_ref

abbrev pub count_run : String → String → MissionLedger → MissionLedger
count_run id work_ref l = record l {
  attempts = set_attempts id work_ref (attempts_at id work_ref l.attempts + 1) l.attempts;
  active = Dict.put id (active_count id l + 1) l.active;
}

-- `begin_run`
unfoldable pub open_run : MissionRegistry → String → String → Exec MissionLedger (Unit {0})
open_run registry mission_id work_ref = do
  mission ← lift (mission_at registry mission_id)
  check_budget mission (some work_ref)
  modify (count_run mission_id work_ref)

abbrev pub uncount_run : String → ℕ → MissionLedger → MissionLedger
uncount_run id used l = record l {
  active = Dict.put id (active_count id l - 1) l.active;
  tokens = Dict.put id (tokens_spent id l + used) l.tokens;
}

-- behind the test of the sign
unfoldable pub end_run : String → ℕ → Exec MissionLedger (Unit {0})
end_run id used = do
  λ l.
      require (leb 1 (active_count id l))
        (mission_error ("mission " +++ id +++ ": no active run to finish")) l
  modify (uncount_run id used)

unfoldable pub end_signed : String → ℤ → Exec MissionLedger (Unit {0})
end_signed id (pos used) = end_run id used
end_signed id (negsuc n) = raise (mission_error "tokens_used cannot be negative")

-- `finish_run`
unfoldable pub close_run : MissionRegistry → String → ℤ → Exec MissionLedger (Unit {0})
close_run registry mission_id used = do
  lift (mission_at registry mission_id)
  end_signed mission_id used
