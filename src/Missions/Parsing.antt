-- ===== src/Missions/Parsing.antt =====
-- `_parse_mission` of src/agentic_sdlc/missions.py. A field that is not there has its default; the keys are
-- read in the order of _TOML_KEYS.
use agentic_sdlc.Base.Int.{pos}
use agentic_sdlc.Base.{
  ℕ, String, ◌+++◌, Bool, false, not, Option, none, some, List, [], ◌∷◌, Result, ok, err, on_ok,
  mission_error, keep, member, is_empty, sorted, join, strip, has_text, show, leb, if◌then◌else◌,
  ◌==◌,
}
use agentic_sdlc.Base.Raising.{◌>>=◌}
use agentic_sdlc.Base.Value.{Value, Values, Members, string, int, flag, array, table, get}
use agentic_sdlc.Missions.{MissionSpec}
use agentic_sdlc.Policy.Decisions.{RiskLevel, low, medium, high, critical}

abbrev pub bad_mission {ℓ} : {A : Type ℓ} → String → Result A
bad_mission message = err (mission_error message)

-- the stripped texts of an array, if each element is a text that is not blank
unfoldable pub stripped_texts : Values → Option (List String)
stripped_texts Values.nil = some []
stripped_texts (Values.cons v vs) = elim v [
  | string t ↦
      if has_text t
      then elim (stripped_texts vs) [ none ↦ none | some more ↦ some (strip t ∷ more) ]
      else none
  | _ ↦ none
]

-- `_string_tuple`
unfoldable pub mission_texts : String → Value → Result (List String)
mission_texts name v = elim v [
  | array vs ↦ elim (stripped_texts vs) [
    | none ↦ bad_mission (name +++ " must be an array of non-empty strings")
    | some ts ↦ ok ts
  ]
  | _ ↦ bad_mission (name +++ " must be an array of non-empty strings")
]

-- a key that may be missing, read by `read`
abbrev optional {ℓ} : {A : Type ℓ} → Members → String → (Value → Result A) → Result (Option A)
optional entry key read = elim (get key entry) [
  | none ↦ ok none
  | some v ↦ on_ok (read v) λ a. ok (some a)
]

abbrev or_default {ℓ} : {A : Type ℓ} → A → Option A → A
or_default default none = default
or_default default (some a) = a

abbrev texts_at : Members → String → Result (Option (List String))
texts_at entry key = optional entry key (mission_texts key)

unfoldable pub mission_text : String → Value → Result String
mission_text key v = elim v [
  | string t ↦
      if has_text t then ok (strip t) else bad_mission (key +++ " must be a non-empty string")
  | _ ↦ bad_mission (key +++ " must be a non-empty string")
]

abbrev word_at : Members → String → Result (Option String)
word_at entry key = optional entry key (mission_text key)

unfoldable pub mission_flag : String → Value → Result Bool
mission_flag key v = elim v [ flag b ↦ ok b | _ ↦ bad_mission (key +++ " must be a boolean") ]

unfoldable pub mission_limit : String → ℕ → Value → Result ℕ
mission_limit key maximum v =
    let refusal : String = key +++ " must be an integer between 0 and " +++ show maximum in
    elim v [
      | int (pos n) ↦ if leb n maximum then ok n else bad_mission refusal
      | _ ↦ bad_mission refusal
    ]

-- RiskLevel(str(value)): the text of a value that is no text is none of the levels
unfoldable pub mission_risk : Value → Result RiskLevel
mission_risk v = elim v [
  | string t ↦
      if t == "low"
      then ok low
      else if t == "medium"
      then ok medium
      else if t == "high"
      then ok high
      else if t == "critical"
      then ok critical
      else bad_mission "risk must be one of low, medium, high, critical"
  | _ ↦ bad_mission "risk must be one of low, medium, high, critical"
]

abbrev keys_of : Members → List String
keys_of Members.end = []
keys_of (Members.member_of k v rest) = k ∷ keys_of rest

-- _TOML_KEYS
abbrev toml_keys : List String
toml_keys =
    "id" ∷ "version" ∷ "purpose" ∷ "success_criteria" ∷ "capabilities" ∷ "input_artifacts"
    ∷ "output_artifacts" ∷ "read_paths" ∷ "write_paths" ∷ "forbidden_paths" ∷ "commands"
    ∷ "evidence" ∷ "knowledge_sources" ∷ "risk" ∷ "approval_required" ∷ "max_runtime_seconds"
    ∷ "max_tokens" ∷ "max_retries" ∷ "max_concurrency" ∷ "parallelizable" ∷ "independent_of"
    ∷ "escalate_to" ∷ []

abbrev required {ℓ} : {A : Type ℓ} → String → Option A → Result A
required key none = bad_mission ("mission is missing required key: " +++ key)
required key (some a) = ok a

unfoldable pub parse_table : Members → String → Result MissionSpec
parse_table entry origin = do
  id ← word_at entry "id"
  version ← word_at entry "version"
  purpose ← word_at entry "purpose"
  criteria ← texts_at entry "success_criteria"
  capabilities ← texts_at entry "capabilities"
  inputs ← texts_at entry "input_artifacts"
  outputs ← texts_at entry "output_artifacts"
  reads ← texts_at entry "read_paths"
  scopes ← texts_at entry "write_paths"
  forbidden ← texts_at entry "forbidden_paths"
  commands ← texts_at entry "commands"
  evidence ← texts_at entry "evidence"
  knowledge ← texts_at entry "knowledge_sources"
  risk ← optional entry "risk" mission_risk
  approval ← optional entry "approval_required" (mission_flag "approval_required")
  runtime ← optional entry "max_runtime_seconds" (mission_limit "max_runtime_seconds" 86400)
  tokens ← optional entry "max_tokens" (mission_limit "max_tokens" 10000000)
  retries ← optional entry "max_retries" (mission_limit "max_retries" 10)
  concurrency ← optional entry "max_concurrency" (mission_limit "max_concurrency" 64)
  parallel ← optional entry "parallelizable" (mission_flag "parallelizable")
  independent ← texts_at entry "independent_of"
  escalate ← word_at entry "escalate_to"
  mission_id ← required "id" id
  has_version ← required "version" version
  has_purpose ← required "purpose" purpose
  has_capabilities ← required "capabilities" capabilities
  has_outputs ← required "output_artifacts" outputs
  has_criteria ← required "success_criteria" criteria
  ok record {
    mission_id = mission_id;
    version = has_version;
    purpose = has_purpose;
    success_criteria = has_criteria;
    capabilities = has_capabilities;
    output_artifacts = has_outputs;
    input_artifacts = or_default [] inputs;
    read_paths = or_default ("**" ∷ []) reads;
    write_paths = or_default [] scopes;
    forbidden_paths = or_default [] forbidden;
    commands = or_default [] commands;
    evidence = or_default [] evidence;
    knowledge_sources = or_default [] knowledge;
    risk = or_default medium risk;
    approval_required = or_default false approval;
    max_runtime_seconds = or_default 3600 runtime;
    max_tokens = or_default 500000 tokens;
    max_retries = or_default 2 retries;
    max_concurrency = or_default 1 concurrency;
    parallelizable = or_default false parallel;
    independent_of = or_default [] independent;
    escalate_to = or_default "human" escalate;
    origin = origin;
  }

-- `_parse_mission`
unfoldable pub parse_mission : Value → String → Result MissionSpec
parse_mission v origin = elim v [
  | table entry ↦
      let unknown = sorted (keep (λ k. not (member k toml_keys)) (keys_of entry)) in
      if is_empty unknown
      then parse_table entry origin
      else bad_mission ("mission declares unknown keys: " +++ join ", " unknown)
  | _ ↦ bad_mission "each mission entry must be a TOML table"
]
