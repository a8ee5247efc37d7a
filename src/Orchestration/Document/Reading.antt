-- ===== src/Orchestration/Document/Reading.antt =====
-- `from_dict` of src/agentic_sdlc/orchestration.py.
use agentic_sdlc.Base.Int.{ℤ, pos, negsuc}
use agentic_sdlc.Base.{
  ℕ, zero, String, ◌+++◌, Bool, true, false, ◌&&◌, none, some, List, [], ◌∷◌, Result, ok, err,
  on_ok, orchestration_error, value_error, key_error, given, if◌then◌else◌, find_first, ◌==◌,
}
use agentic_sdlc.Base.Dict
use agentic_sdlc.Base.Raising.{◌>>=◌}
use agentic_sdlc.Base.Dict.{Dict}
use agentic_sdlc.Base.Value.{
  Value, Values, Members, null, string, int, flag, array, table, other, get, is_one,
}
use agentic_sdlc.MergeEvidence.{to_set}
use agentic_sdlc.Orchestration.Document.Sorting.{sort_items}
use agentic_sdlc.Orchestration.State.{State, all_states, state_value}
use agentic_sdlc.Orchestration.Store.{
  TransitionRecord, AgentRunRecord, WorkUnit, Orchestrator, new_orchestrator,
}

abbrev unreadable {ℓ} : {A : Type ℓ} → String → Result A
unreadable what = err (value_error what)

-- WorkUnitState(value)
unfoldable pub state_named : String → Result State
state_named name = elim (find_first (λ s. state_value s == name) all_states) [
  | none ↦ unreadable (name +++ " is not a valid WorkUnitState")
  | some s ↦ ok s
]

-- list(value)
unfoldable pub list_of : Value → Result Values
list_of (array vs) = ok vs
list_of v = unreadable "not a list"

unfoldable pub strings_in : Values → Result (List String)
strings_in Values.nil = ok []
strings_in (Values.cons (string t) vs) = do ts ← strings_in vs; ok (t ∷ ts)
strings_in (Values.cons v vs) = unreadable "not a list of texts"

-- a member, or an empty list
abbrev pub list_at : Members → String → Result Values
list_at item key = elim (get key item) [ none ↦ ok Values.nil | some v ↦ list_of v ]

abbrev pub strings_at : Members → String → Result (List String)
strings_at item key = on_ok (list_at item key) strings_in

-- `item[key]`
abbrev pub must : Members → String → Result Value
must item key = elim (get key item) [ none ↦ err (key_error key) | some v ↦ ok v ]

-- the entries of an object of texts
unfoldable pub text_items : Members → Result (List (String × String))
text_items Members.end = ok []
text_items (Members.member_of k (string t) rest) = do more ← text_items rest; ok ((k, t) ∷ more)
text_items (Members.member_of k v rest) = unreadable "not an object of texts"

abbrev pub object_of : Value → Result Members
object_of (table ms) = ok ms
object_of v = unreadable "not an object"

-- item.get("outputArtifacts", {}), sorted
unfoldable pub artifacts_at : Members → Result (List (String × String))
artifacts_at item = elim (get "outputArtifacts" item) [
  | none ↦ ok []
  | some v ↦ on_ok (object_of v) λ ms. on_ok (text_items ms) λ pairs. ok (sort_items pairs)
]

module _ (text_of : Value → String) (int_of : Value → Result ℤ) where
  -- str(value)
  abbrev pub str : Value → String
  str (string t) = t
  str v = text_of v

  -- str(item.get(key, default))
  abbrev pub text_at : Members → String → String → String
  text_at item key default = elim (get key item) [ none ↦ default | some v ↦ str v ]

  -- str(item[key])
  abbrev pub text_must : Members → String → Result String
  text_must item key = do v ← must item key; ok (str v)

  -- int(value), where the model can hold it
  abbrev pub counted : ℤ → Result ℕ
  counted (pos n) = ok n
  counted (negsuc n) = unreadable "a negative count"

  abbrev pub integer : Value → Result ℤ
  integer (int z) = ok z
  integer v = int_of v

  abbrev pub count_of : Value → Result ℕ
  count_of v = on_ok (integer v) counted

  -- int(item.get(key, 0))
  abbrev pub count_at : Members → String → Result ℕ
  count_at item key = elim (get key item) [ none ↦ ok 0 | some v ↦ count_of v ]

  -- bool(value)
  abbrev is_true : Value → Bool
  is_true null = false
  is_true (string t) = given t
  is_true (int (pos zero)) = false
  is_true (int z) = true
  is_true (flag b) = b
  is_true (array Values.nil) = false
  is_true (array vs) = true
  is_true (table Members.end) = false
  is_true (table ms) = true
  is_true (other one truth) = truth

  -- str(item.get("modelAlias") or item["model"])
  unfoldable pub alias_at : Members → Result String
  alias_at item = elim (get "modelAlias" item) [
    | none ↦ text_must item "model"
    | some v ↦ let model = text_must item "model" in if is_true v then ok (str v) else model
  ]

  -- WorkUnitState(item[key])
  abbrev pub state_must : Members → String → Result State
  state_must item key = do v ← must item key; state_named (str v)

  unfoldable pub read_transition : Members → Result TransitionRecord
  read_transition item = do
    sequence ← on_ok (must item "sequence") count_of
    from_state ← state_must item "from"
    to_state ← state_must item "to"
    actor ← text_must item "actor"
    actor_kind ← text_must item "actorKind"
    event_key ← text_must item "eventKey"
    timestamp ← text_must item "timestamp"
    ok record {
      sequence = sequence;
      from_state = from_state;
      to_state = to_state;
      actor = actor;
      actor_kind = actor_kind;
      event_key = event_key;
      timestamp = timestamp;
      reason = text_at item "reason" "";
    }

  unfoldable pub read_run : Members → Result AgentRunRecord
  read_run item = do
    run_id ← text_must item "runId"
    kind ← text_must item "kind"
    mission_id ← text_must item "missionId"
    mission_version ← text_must item "missionVersion"
    agent_id ← text_must item "agentId"
    adapter ← text_must item "adapter"
    adapter_version ← text_must item "adapterVersion"
    provider ← text_must item "provider"
    model ← text_must item "model"
    model_alias ← alias_at item
    prompt_sha256 ← text_must item "promptSha256"
    envelope_sha256 ← text_must item "envelopeSha256"
    input_refs ← strings_at item "inputRefs"
    repair_cycle ← count_at item "repairCycle"
    started_at ← text_must item "startedAt"
    output_artifacts ← artifacts_at item
    ok record {
      run_id = run_id;
      kind = kind;
      mission_id = mission_id;
      mission_version = mission_version;
      agent_id = agent_id;
      adapter = adapter;
      adapter_version = adapter_version;
      provider = provider;
      model = model;
      model_alias = model_alias;
      prompt_sha256 = prompt_sha256;
      envelope_sha256 = envelope_sha256;
      work_ref = text_at item "workRef" "";
      input_refs = input_refs;
      context_pack_digest = text_at item "contextPackDigest" "";
      repair_cycle = repair_cycle;
      started_at = started_at;
      event_key = text_at item "eventKey" "";
      routing_policy_version = text_at item "routingPolicyVersion" "";
      route_reason = text_at item "routeReason" "";
      fallback_reason = text_at item "fallbackReason" "";
      finished_at = text_at item "finishedAt" "";
      result = text_at item "result" "running";
      commit_sha = text_at item "commitSha" "";
      output_artifacts = output_artifacts;
    }

  -- a list of objects, each read by `read`
  unfoldable pub read_all {ℓ} : {A : Type ℓ} → (Members → Result A) → Values → Result (List A)
  read_all read Values.nil = ok []
  read_all read (Values.cons v vs) = do
    a ← on_ok (object_of v) read
    more ← read_all read vs
    ok (a ∷ more)

  -- the body of the loop over the units
  unfoldable pub read_unit : String → Members → Result WorkUnit
  read_unit unit_id raw = do
    depends_on ← strings_at raw "dependsOn"
    state ← state_named (text_at raw "state" "intake")
    repair_count ← count_at raw "repairCount"
    event_keys ← strings_at raw "eventKeys"
    transitions ← on_ok (list_at raw "transitions") (read_all read_transition)
    runs ← on_ok (list_at raw "runs") (read_all read_run)
    ok record {
      unit_id = unit_id;
      state = state;
      concurrency_group = text_at raw "concurrencyGroup" unit_id;
      depends_on = depends_on;
      repair_count = repair_count;
      superseded_by = text_at raw "supersededBy" "";
      created_at = text_at raw "createdAt" "";
      review_findings_sha256 = text_at raw "reviewFindingsSha256" "";
      transitions = transitions;
      runs = runs;
      event_keys = to_set event_keys;
    }

  unfoldable pub read_units : Members → Dict WorkUnit → Result (Dict WorkUnit)
  read_units Members.end units = ok units
  read_units (Members.member_of unit_id v rest) units = do
    unit ← on_ok (object_of v) (read_unit unit_id)
    read_units rest (Dict.put unit_id unit units)

  -- document.get("units", {})
  abbrev pub units_at : Members → Result Members
  units_at document = elim (get "units" document) [
    | none ↦ ok Members.end
    | some (table ms) ↦ ok ms
    | some _ ↦ err (orchestration_error "units must be a mapping")
  ]

  abbrev pub max_at : Members → Result ℤ
  max_at document = elim (get "maxRepairCycles" document) [ none ↦ ok (pos 2) | some v ↦ integer v ]

  -- what comes behind the test of the versions
  unfoldable pub engine_of : Members → Result Orchestrator
  engine_of document = do
    max ← max_at document
    engine ← new_orchestrator max true ""
    units ← units_at document
    read ← read_units units []
    ok record engine { units = read; state_id = text_at document "stateId" "" }

  unfoldable pub from_dict : Members → Result Orchestrator
  from_dict document =
      if is_one (get "schemaVersion" document) && is_one (get "lifecycleVersion" document)
      then engine_of document
      else err (orchestration_error "unsupported orchestration state document")
