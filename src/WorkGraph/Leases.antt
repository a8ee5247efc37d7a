-- ===== src/WorkGraph/Leases.antt =====
-- `LeaseManager` of src/agentic_sdlc/work_graph.py: exclusive, expiring, audited leases. Times and
-- durations are natural numbers.
use agentic_sdlc.Base.{
  ℕ, ◌+◌, String, ◌+++◌, Bool, false, not, ◌&&◌, Option, none, some, List, [], ◌∷◌, ◌++◌, Exec, ok,
  err, work_graph_error, ltb, leb, show, if◌then◌else◌, ◌==◌,
}
use agentic_sdlc.Base.Dict
use agentic_sdlc.Base.Dict.{Dict}

pub record LeaseManager : Type 0 where
  pub leases : Dict (String × ℕ)
  pub log : List String

abbrev pub no_leases : LeaseManager
no_leases = record { leases = []; log = [] }

-- the lease is written, with its lines in the log
unfoldable pub grant : String → String → ℕ → ℕ → List String → LeaseManager → LeaseManager
grant resource unit_id now ttl reclaimed m = record {
  leases = Dict.put resource (unit_id, now + ttl) m.leases;
  log =
      m.log
      ++ (reclaimed
          ++ (unit_id
              +++ " acquired "
              +++ resource
              +++ " at "
              +++ show now
              +++ " for "
              +++ show ttl
              +++ "s")
            ∷ []);
}

-- another unit holds the lease and it has not expired
abbrev pub is_held : String → ℕ → Option (String × ℕ) → Bool
is_held unit_id now none = false
is_held unit_id now (some (held_by, expires)) = not (held_by == unit_id) && ltb now expires

abbrev refusal : String → Option (String × ℕ) → String
refusal resource none = ""
refusal resource (some (held_by, expires)) =
    "resource "
    +++ resource
    +++ " is exclusively leased to "
    +++ held_by
    +++ " until "
    +++ show expires

abbrev reclaim_line : String → String → ℕ → Option (String × ℕ) → List String
reclaim_line resource unit_id now none = []
reclaim_line resource unit_id now (some (held_by, expires)) =
    if held_by == unit_id
    then []
    else ("lease on "
        +++ resource
        +++ " held by "
        +++ held_by
        +++ " expired at "
        +++ show expires
        +++ "; reclaimed by "
        +++ unit_id
        +++ " at "
        +++ show now)
      ∷ []

unfoldable pub acquire : String → String → ℕ → ℕ → Exec LeaseManager (Unit {0})
acquire resource unit_id now ttl m =
    let held = Dict.get resource m.leases in
    if ltb ttl 1
    then (err (work_graph_error "lease ttl must be positive"), m)
    else if is_held unit_id now held
    then (err (work_graph_error (refusal resource held)), m)
    else (ok tt, grant resource unit_id now ttl (reclaim_line resource unit_id now held) m)

-- the unit is the one on record, expired or not
abbrev pub is_recorded : String → Option (String × ℕ) → Bool
is_recorded unit_id none = false
is_recorded unit_id (some (held_by, expires)) = held_by == unit_id

unfoldable pub release : String → String → ℕ → Exec LeaseManager (Unit {0})
release resource unit_id now m =
    if not (is_recorded unit_id (Dict.get resource m.leases))
    then (err (work_graph_error (unit_id +++ " does not hold a lease on " +++ resource)), m)
    else (
      ok tt,
      record {
        leases = Dict.remove resource m.leases;
        log = m.log ++ (unit_id +++ " released " +++ resource +++ " at " +++ show now) ∷ [];
      },
    )

abbrev live_holder : ℕ → Option (String × ℕ) → String
live_holder now none = ""
live_holder now (some (held_by, expires)) = if leb expires now then "" else held_by

unfoldable pub holder : String → ℕ → LeaseManager → String
holder resource now m = live_holder now (Dict.get resource m.leases)
