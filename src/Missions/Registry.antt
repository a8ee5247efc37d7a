-- ===== src/Missions/Registry.antt =====
-- `registry_from_document` and `_validate_mission` of src/agentic_sdlc/missions.py. `is_decimal`, a parameter,
-- tells the decimal digits of Unicode, which the pattern of a version takes.
use agentic_sdlc.Base.{
  ℕ, String, ◌+++◌, Bool, true, false, not, ◌&&◌, ◌||◌, none, some, List, [], ◌∷◌, ◌++◌, Result, ok,
  on_ok, keep, all, member, is_empty, length, sorted, join, codes, nat_eq, leb, distinct,
  if◌then◌else◌, ◌==◌,
}
use agentic_sdlc.Base.Dict
use agentic_sdlc.Base.Dict.{Dict}
use agentic_sdlc.Base.Raising.{◌>>=◌, ◌>>◌}
use agentic_sdlc.Base.Value.{Values, Members, null, array, table, get, is_one}
use agentic_sdlc.MergeEvidence.{to_set}
use agentic_sdlc.Missions.{MissionSpec, writes, reviews, review_capabilities, write_capabilities}
use agentic_sdlc.Missions.Ledger.{MissionRegistry}
use agentic_sdlc.Missions.Parsing.{bad_mission, mission_texts, parse_mission}
use agentic_sdlc.Missions.Platform.{platform_missions}
use agentic_sdlc.Policy.{ProjectPolicy}
use agentic_sdlc.Policy.Branches.{split_on}
use agentic_sdlc.Policy.Decisions.{RiskLevel, low, medium, high, critical}
use agentic_sdlc.Policy.Paths.{matches}

-- KNOWN_CAPABILITIES
abbrev pub known_capabilities : List String
known_capabilities =
    ("specify" ∷ "plan" ∷ "run-commands" ∷ "validate-release" ∷ "build-context" ∷ [])
    ++ review_capabilities
    ++ write_capabilities

abbrev is_lower : ℕ → Bool
is_lower c = leb b'a' c && leb c b'z'

-- _MISSION_ID.fullmatch
unfoldable pub is_mission_id : String → Bool
is_mission_id id = elim (codes id) [
  | [] ↦ false
  | c ∷ cs ↦
      is_lower c
      && (all (λ d. is_lower d || ((leb b'0' d && leb d b'9') || nat_eq d b'-')) cs
          && (leb 2 (length cs) && leb (length cs) 63))
]

abbrev pub is_critical : RiskLevel → Bool
is_critical low = false
is_critical medium = false
is_critical high = false
is_critical critical = true

-- what the first list has and the second has not
unfoldable pub beyond : List String → List String → List String
beyond xs ys = keep (λ x. not (member x ys)) (to_set xs)

-- _BROAD_WRITE_PATTERNS
abbrev broad_write_patterns : List String
broad_write_patterns = "*" ∷ "**" ∷ "**/*" ∷ "./**" ∷ "/**" ∷ []

unfoldable pub insist : Bool → String → Result (Unit {0})
insist true message = ok tt
insist false message = bad_mission message

-- the loop over the write scopes
unfoldable pub check_scopes : String → List String → List String → Result (Unit {0})
check_scopes prefix forbidden [] = ok tt
check_scopes prefix forbidden (p ∷ ps) = do
  insist (not (member p broad_write_patterns)) (prefix +++ ": write scope is too broad: " +++ p)
  insist (not (matches p forbidden)) (prefix +++ ": write scope includes a forbidden path: " +++ p)
  check_scopes prefix forbidden ps

-- the paths that no scope of the mission may match
unfoldable pub all_forbidden : ProjectPolicy → MissionSpec → List String
all_forbidden policy mission = distinct (policy.forbidden_paths ++ mission.forbidden_paths)

module _ (is_decimal : ℕ → Bool) where
  abbrev is_number : List ℕ → Bool
  is_number part = leb 1 (length part) && (leb (length part) 4 && all is_decimal part)

  -- _VERSION.fullmatch
  unfoldable pub is_version : String → Bool
  is_version version = elim (split_on b'.' (codes version)) [
    | a ∷ b ∷ c ∷ [] ↦ is_number a && (is_number b && is_number c)
    | _ ↦ false
  ]

  -- `_validate_mission`
  unfoldable pub validate_mission : ProjectPolicy → List String → MissionSpec → Result (Unit {0})
  validate_mission policy allowed m =
      let prefix = "mission " +++ (if m.mission_id == "" then "<missing>" else m.mission_id) in
      let unknown = sorted (beyond m.capabilities known_capabilities) in
      let denied = sorted (beyond m.capabilities allowed) in
      do
        insist (is_mission_id m.mission_id) (prefix +++ ": id must match ^[a-z][a-z0-9-]{2,63}$")
        insist (is_version m.version) (prefix +++ ": version must be MAJOR.MINOR.PATCH")
        insist (not (is_empty m.capabilities)) (prefix +++ ": capabilities must not be empty")
        insist (not (is_empty m.output_artifacts))
            (prefix +++ ": output_artifacts must not be empty")
        insist (not (is_empty m.success_criteria))
            (prefix +++ ": success_criteria must not be empty")
        insist (is_empty unknown) (prefix +++ ": unknown capabilities: " +++ join ", " unknown)
        insist (is_empty denied)
            (prefix +++ ": capabilities unavailable under repository policy: " +++ join ", " denied)
        insist (not (is_critical m.risk))
            (prefix +++ ": critical-risk missions cannot be dispatched autonomously")
        insist (not (writes m) || not (is_empty m.write_paths))
            (prefix +++ ": write capabilities require an explicit write scope")
        insist (is_empty m.write_paths || writes m)
            (prefix +++ ": write scope requires a write capability")
        check_scopes prefix (all_forbidden policy m) m.write_paths
        insist (not (reviews m && writes m)) (prefix +++ ": a mission cannot both review and write")
        insist (m.escalate_to == "human" || is_mission_id m.escalate_to)
            (prefix +++ ": escalate_to must be 'human' or a mission id")

  -- the loops over the missions at the end
  unfoldable pub validate_all : ProjectPolicy → List String → List MissionSpec → Result (Unit {0})
  validate_all policy allowed [] = ok tt
  validate_all policy allowed (m ∷ ms) = do
    validate_mission policy allowed m
    validate_all policy allowed ms

-- registry_table.get("allowed_capabilities")
unfoldable pub allowed_of : Members → Result (List String)
allowed_of registry = elim (get "allowed_capabilities" registry) [
  | none ↦ ok known_capabilities
  | some null ↦ ok known_capabilities
  | some v ↦ on_ok (mission_texts "registry.allowed_capabilities" v) λ requested.
      let unknown = sorted (beyond requested known_capabilities) in
      on_ok
        (insist (is_empty unknown) ("registry allows unknown capabilities: " +++ join ", " unknown))
        λ _. ok requested
]

abbrev registry_table : Members → Result Members
registry_table document = elim (get "registry" document) [
  | none ↦ ok Members.end
  | some (table ms) ↦ ok ms
  | some _ ↦ bad_mission "registry must be a TOML table"
]

abbrev entries_of : Members → Result Values
entries_of document = elim (get "mission" document) [
  | none ↦ ok Values.nil
  | some (array vs) ↦ ok vs
  | some _ ↦ bad_mission "mission must be an array of tables"
]

-- the platform's missions whose capabilities are allowed
unfoldable pub add_platform : List String → List MissionSpec → Dict MissionSpec → Dict MissionSpec
add_platform allowed [] missions = missions
add_platform allowed (m ∷ ms) missions =
    let with_it = add_platform allowed ms (Dict.put m.mission_id m missions) in
    let without = add_platform allowed ms missions in
    if is_empty (beyond m.capabilities allowed) then with_it else without

-- _PLATFORM_IDS
unfoldable pub ids_of : List MissionSpec → List String
ids_of [] = []
ids_of (m ∷ ms) = m.mission_id ∷ ids_of ms

-- the loop over the entries
unfoldable pub add_entries : Values → Dict MissionSpec → Result (Dict MissionSpec)
add_entries Values.nil missions = ok missions
add_entries (Values.cons v vs) missions = do
  m ← parse_mission v "consumer"
  insist (not (member m.mission_id (ids_of platform_missions)))
      ("mission " +++ m.mission_id +++ ": consumer missions cannot replace platform missions")
  insist (not (member m.mission_id (Dict.keys missions)))
      ("mission " +++ m.mission_id +++ ": duplicate mission id")
  add_entries vs (Dict.put m.mission_id m missions)

-- the last loop
unfoldable pub check_references : List String → List MissionSpec → Result (Unit {0})
check_references ids [] = ok tt
check_references ids (m ∷ ms) = do
  insist (is_empty (beyond m.independent_of ids) || not (m.origin == "consumer")) (
      "mission "
      +++ m.mission_id
      +++ ": independent_of references unknown missions: "
      +++ join ", " (sorted (beyond m.independent_of ids)))
  check_references ids ms

-- `registry_from_document`
unfoldable pub registry_from_document :
    (ℕ → Bool) → Members → ProjectPolicy → Bool → Result MissionRegistry
registry_from_document is_decimal document policy is_declared = do
  insist (not is_declared || is_one (get "version" document)) "mission registry version must be 1"
  registry ← registry_table document
  allowed ← allowed_of registry
  entries ← entries_of document
  missions ← add_entries entries (add_platform allowed platform_missions [])
  validate_all is_decimal policy allowed (Dict.values missions)
  check_references (Dict.keys missions) (Dict.values missions)
  ok record { missions = missions; allowed_capabilities = allowed }
