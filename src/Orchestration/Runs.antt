-- ===== src/Orchestration/Runs.antt =====
-- Agent runs: `_running`, `start_run`, `finish_run` and `agent_history` of
-- src/agentic_sdlc/orchestration.py.
use agentic_sdlc.Base.{
  ℕ, suc, ◌+◌, String, ◌+++◌, Bool, not, ◌&&◌, ◌||◌, Option, none, some, List, [], ◌∷◌, ◌++◌, map,
  Exec, Result, ok, err, orchestration_error, ◌>>=◌, ◌>>◌, pure, lift, require, has_text, given,
  member, insert, join, is_empty, keep, find_first, length, sorted, show, ltb, if◌then◌else◌, ◌==◌,
}
use agentic_sdlc.Base.Dict
use agentic_sdlc.Base.Dict.{Dict}
use agentic_sdlc.Orchestration.State.{
  dispatched, repair_needed, reviewing, re_reviewing, implementing, repairing, state_value,
  same_state,
}
use agentic_sdlc.Orchestration.Store.{
  AgentRunRecord, WorkUnit, Orchestrator, Cause, get, store, record_transition,
}

-- The dispatch envelope: its texts under their keys, and its `inputRefs`.
pub record Envelope : Type 0 where
  pub fields : Dict String
  pub input_refs : List String

-- RUN_KINDS
unfoldable pub is_run_kind : String → Bool
is_run_kind kind =
    member kind
      ("planning" ∷ "context" ∷ "implementation" ∷ "verification" ∷ "review" ∷ "repair" ∷ [])

-- _EXCLUSIVE_RUN_KINDS
unfoldable pub is_exclusive : String → Bool
is_exclusive kind = member kind ("implementation" ∷ "repair" ∷ [])

-- _ENVELOPE_KEYS
abbrev envelope_keys : List String
envelope_keys =
    "missionId" ∷ "missionVersion" ∷ "agentId" ∷ "adapter" ∷ "adapterVersion" ∷ "provider" ∷ "model"
    ∷ "promptSha256" ∷ "envelopeSha256" ∷ []

-- envelope.get(name, default)
abbrev field_or : String → String → Envelope → String
field_or default name e = elim (Dict.get name e.fields) [ none ↦ default | some v ↦ v ]

-- str(envelope.get(name) or "")
abbrev field : String → Envelope → String
field = field_or ""

unfoldable pub missing_fields : Envelope → List String
missing_fields e = sorted (keep (λ name. not (given (field name e))) envelope_keys)

-- `run.result == "running" and run.kind in kind_filter`, for the exclusive kinds
unfoldable pub is_active : AgentRunRecord → Bool
is_active run = run.result == "running" && is_exclusive run.kind

-- `_running(_EXCLUSIVE_RUN_KINDS)`
unfoldable pub running : Dict WorkUnit → List (WorkUnit × AgentRunRecord)
running [] = []
running ((_, unit) ∷ units) = map (λ run. (unit, run)) (keep is_active unit.runs) ++ running units

-- the first active run of the group
unfoldable pub conflict :
    String → List (WorkUnit × AgentRunRecord) → Option (WorkUnit × AgentRunRecord)
conflict group [] = none
conflict group ((unit, run) ∷ rest) =
    let later = conflict group rest in
    if unit.concurrency_group == group then some (unit, run) else later

-- the checks on the state of the unit, by the kind of the run
unfoldable pub check_kind : ℕ → WorkUnit → String → Result (Unit {0})
check_kind max unit kind =
    if kind == "implementation"
    then (if same_state state dispatched
        then ok tt
        else err (
            orchestration_error
              ("implementation requires state dispatched, not " +++ state_value state)))
    else if kind == "repair"
    then (if not (same_state state repair_needed)
        then err (
            orchestration_error ("repair requires state repair-needed, not " +++ state_value state))
        else if not (ltb repair_count max)
        then err (orchestration_error ("repair budget exhausted for " +++ unit_id))
        else ok tt)
    else if kind == "review"
    then (if same_state state reviewing || same_state state re_reviewing
        then ok tt
        else err
            (orchestration_error ("review requires a reviewing state, not " +++ state_value state)))
    else ok tt
  where
    open unit use {state, repair_count, unit_id}

abbrev pub serialized : String → Option (WorkUnit × AgentRunRecord) → Result (Unit {0})
serialized group none = ok tt
serialized group (some (unit, run)) = err (
    orchestration_error (
      "concurrency group " +++ group +++ " already has an active " +++ run.kind +++ " run ("
      +++ run.run_id +++ "); dispatch is serialized"))

-- implementation and repair runs are serialized per concurrency group
unfoldable pub check_serial : Dict WorkUnit → WorkUnit → String → Result (Unit {0})
check_serial units unit kind =
    if is_exclusive kind
    then serialized unit.concurrency_group (conflict unit.concurrency_group (running units))
    else ok tt

-- f"{n:03d}"
abbrev three_digits : ℕ → String
three_digits n = if ltb n 10 then "00" +++ show n else if ltb n 100 then "0" +++ show n else show n

unfoldable pub new_run : WorkUnit → String → Envelope → String → String → AgentRunRecord
new_run unit kind e event_key timestamp = record {
  run_id = unit.unit_id +++ ":run-" +++ three_digits (suc (length unit.runs));
  kind = kind;
  mission_id = field "missionId" e;
  mission_version = field "missionVersion" e;
  agent_id = field "agentId" e;
  adapter = field "adapter" e;
  adapter_version = field "adapterVersion" e;
  provider = field "provider" e;
  model = field "model" e;
  model_alias = if given (field "modelAlias" e) then field "modelAlias" e else field "model" e;
  prompt_sha256 = field "promptSha256" e;
  envelope_sha256 = field "envelopeSha256" e;
  work_ref = field_or unit.unit_id "workRef" e;
  input_refs = e.input_refs;
  context_pack_digest = field "contextPackDigest" e;
  repair_cycle = unit.repair_count + (if kind == "repair" then 1 else 0);
  started_at = timestamp;
  event_key = event_key;
  routing_policy_version = field "routingPolicyVersion" e;
  route_reason = field "routeReason" e;
  fallback_reason = field "fallbackReason" e;
  finished_at = "";
  result = "running";
  commit_sha = "";
  output_artifacts = [];
}

-- the transition that a run's start makes
abbrev run_cause : AgentRunRecord → String → String → String → Cause
run_cause run suffix timestamp reason = record {
  actor = run.agent_id;
  actor_kind = "agent";
  event_key = run.event_key +++ suffix;
  timestamp = timestamp;
  reason = reason;
}

-- the unit after the run is recorded: an implementation moves it to implementing, a repair counts
-- one cycle more and moves it to repairing
unfoldable pub with_run : WorkUnit → AgentRunRecord → WorkUnit
with_run unit run =
    if run.kind == "implementation"
    then record_transition recorded implementing
        (run_cause run ":implementing" run.started_at ("run " +++ run.run_id +++ " started"))
    else if run.kind == "repair"
    then record_transition (record recorded { repair_count = suc unit.repair_count }) repairing
        (run_cause run ":repairing" run.started_at
          ("repair cycle " +++ show (suc unit.repair_count) +++ " started"))
    else recorded
  where
    recorded : WorkUnit
    recorded = record unit {
      runs = unit.runs ++ run ∷ [];
      event_keys = insert run.event_key unit.event_keys;
    }

abbrev pub no_missing : List String → Result (Unit {0})
no_missing missing =
    if is_empty missing
    then ok tt
    else err (orchestration_error ("dispatch envelope is missing: " +++ join ", " missing))

-- behind the replay test of `start_run`
unfoldable pub begin_run :
    String → WorkUnit → String → Envelope → String → String → Exec Orchestrator AgentRunRecord
begin_run unit_id unit kind e event_key timestamp = do
  lift (no_missing (missing_fields e))
  λ o. (check_kind o.max_repair_cycles unit kind, o)
  λ o. (check_serial o.units unit kind, o)
  λ o.
      let run = new_run unit kind e event_key timestamp in
      (ok run, store unit_id (with_run unit run) o)

abbrev pub replay_or :
    Option AgentRunRecord → Exec Orchestrator AgentRunRecord → Exec Orchestrator AgentRunRecord
replay_or (some run) start = pure run
replay_or none start = start

unfoldable pub start_run :
    String → String → Envelope → String → String → Exec Orchestrator AgentRunRecord
unfolding get
start_run unit_id kind e event_key timestamp = do
  unit ← get unit_id
  require (is_run_kind kind) (orchestration_error ("unknown run kind: " +++ kind))
  require (has_text event_key) (orchestration_error "event_key is required")
  replay_or (find_first (λ run. run.event_key == event_key) unit.runs)
      (begin_run unit_id unit kind e event_key timestamp)

pub record Finish : Type 0 where
  pub result : String
  pub timestamp : String
  pub commit_sha : String
  pub output_artifacts : Dict String

-- tuple(sorted(artifacts.items()))
abbrev sorted_items : Dict String → Dict String
sorted_items d =
    map (λ k. (k, elim (Dict.get k d) [ none ↦ "" | some v ↦ v ])) (sorted (Dict.keys d))

-- `replace(run, …)`: a run that has a result keeps it
unfoldable pub finished : Finish → AgentRunRecord → AgentRunRecord
finished f run = if not (run.result == "running") then run else record run {
  finished_at = f.timestamp;
  result = f.result;
  commit_sha = f.commit_sha;
  output_artifacts = sorted_items f.output_artifacts;
}

-- the first run of that id, finished in its place
unfoldable pub finish_in :
    Finish → String → List AgentRunRecord → Option (AgentRunRecord × List AgentRunRecord)
finish_in f run_id [] = none
finish_in f run_id (run ∷ runs) =
    let rest = finish_in f run_id runs in
    if run.run_id == run_id
    then some (finished f run, finished f run ∷ runs)
    else elim rest [ none ↦ none | some (done, runs') ↦ some (done, run ∷ runs') ]

abbrev pub finish_or_unknown :
    String
    → WorkUnit
    → String
    → Option (AgentRunRecord × List AgentRunRecord)
    → Exec Orchestrator AgentRunRecord
finish_or_unknown unit_id unit run_id none o =
    (err (orchestration_error ("unknown run: " +++ run_id)), o)
finish_or_unknown unit_id unit run_id (some (run, runs)) o =
    (ok run, store unit_id (record unit { runs = runs }) o)

unfoldable pub finish_run : String → String → Finish → Exec Orchestrator AgentRunRecord
unfolding get
finish_run unit_id run_id f = do
  unit ← get unit_id
  require (f.result == "succeeded" || f.result == "failed")
      (orchestration_error "result must be succeeded or failed")
  finish_or_unknown unit_id unit run_id (finish_in f run_id unit.runs)

-- {run.mission_id: run.agent_id for run in runs}: the last run of a mission counts
unfoldable pub agent_history : List AgentRunRecord → Dict String → Dict String
agent_history [] history = history
agent_history (run ∷ runs) history =
    agent_history runs (Dict.put run.mission_id run.agent_id history)
