-- ===== src/Orchestration/Store.antt =====
-- Work units, their transition and run records, and the orchestrator that holds them
-- (src/agentic_sdlc/orchestration.py). A `_WorkUnit` is shared and mutable there: here a method
-- writes the changed unit back under its id.
use agentic_sdlc.Base.Int.{ℤ, pos, is_negative, le_ℤ}
use agentic_sdlc.Base.{
  ℕ, suc, String, ◌+++◌, Bool, true, not, ◌||◌, Option, none, some, List, [], ◌∷◌, ◌++◌, Exec,
  Result, ok, err, orchestration_error, ◌>>◌, pure, raise, require, given, has_text, member, insert,
  length, if◌then◌else◌,
}
use agentic_sdlc.Base.Dict
use agentic_sdlc.Base.Dict.{Dict}
use agentic_sdlc.Orchestration.State.{State, intake}

pub record TransitionRecord : Type 0 where
  pub sequence : ℕ
  pub from_state : State
  pub to_state : State
  pub actor : String
  pub actor_kind : String
  pub event_key : String
  pub timestamp : String
  pub reason : String

pub record AgentRunRecord : Type 0 where
  pub run_id : String
  pub kind : String
  pub mission_id : String
  pub mission_version : String
  pub agent_id : String
  pub adapter : String
  pub adapter_version : String
  pub provider : String
  pub model : String
  pub model_alias : String
  pub prompt_sha256 : String
  pub envelope_sha256 : String
  pub work_ref : String
  pub input_refs : List String
  pub context_pack_digest : String
  pub repair_cycle : ℕ
  pub started_at : String
  pub event_key : String
  pub routing_policy_version : String
  pub route_reason : String
  pub fallback_reason : String
  pub finished_at : String
  pub result : String
  pub commit_sha : String
  pub output_artifacts : List (String × String)

pub record WorkUnit : Type 0 where
  pub unit_id : String
  pub state : State
  pub concurrency_group : String
  pub depends_on : List String
  pub repair_count : ℕ
  pub superseded_by : String
  pub created_at : String
  pub review_findings_sha256 : String
  pub transitions : List TransitionRecord
  pub runs : List AgentRunRecord
  pub event_keys : List String

pub record Orchestrator : Type 0 where
  pub max_repair_cycles : ℕ
  pub human_merge_required : Bool
  pub units : Dict WorkUnit
  pub state_id : String

-- the keyword arguments that say who moves a unit, when and why
pub record Cause : Type 0 where
  pub actor : String
  pub actor_kind : String
  pub event_key : String
  pub timestamp : String
  pub reason : String

abbrev natural : ℤ → ℕ
natural (pos n) = n
natural _ = 0

-- `__init__`; `state_id` is what `uuid4` returns
unfoldable pub new_orchestrator : ℤ → Bool → String → Result Orchestrator
new_orchestrator max human_merge_required state_id =
    if not human_merge_required
    then err (orchestration_error "human merge authority cannot be disabled")
    else if is_negative max || not (le_ℤ max (pos 10))
    then err (orchestration_error "max_repair_cycles must be between 0 and 10")
    else ok (record {
      max_repair_cycles = natural max;
      human_merge_required = true;
      units = [];
      state_id = state_id;
    })

-- `get`
abbrev pub found : String → Option WorkUnit → Exec Orchestrator WorkUnit
found unit_id none = raise (orchestration_error ("unknown work unit: " +++ unit_id))
found unit_id (some unit) = pure unit

unfoldable pub get : String → Exec Orchestrator WorkUnit
get unit_id o = found unit_id (Dict.get unit_id o.units) o

-- the changes made to the unit object under its id
abbrev pub store : String → WorkUnit → Orchestrator → Orchestrator
store unit_id unit o = record o { units = Dict.put unit_id unit o.units }

-- the first unit that has seen the event
unfoldable pub unit_of_event : String → Dict WorkUnit → Option WorkUnit
unit_of_event key [] = none
unit_of_event key ((_, unit) ∷ units) =
    let rest = unit_of_event key units in if member key unit.event_keys then some unit else rest

-- `_WorkUnit.__init__`, with the event that creates the unit
unfoldable pub new_unit : String → String → String → String → List String → WorkUnit
new_unit unit_id event_key timestamp concurrency_group depends_on = record {
  unit_id = unit_id;
  state = intake;
  concurrency_group = if given concurrency_group then concurrency_group else unit_id;
  depends_on = depends_on;
  repair_count = 0;
  superseded_by = "";
  created_at = timestamp;
  review_findings_sha256 = "";
  transitions = [];
  runs = [];
  event_keys = event_key ∷ [];
}

-- behind the checks of `create_unit`: the unit of that id, the unit of that event, or a new one
abbrev pub create_or_return :
    String → WorkUnit → Option WorkUnit → Option WorkUnit → Exec Orchestrator WorkUnit
create_or_return unit_id fresh (some existing) by_event o = (ok existing, o)
create_or_return unit_id fresh none (some unit) o = (ok unit, o)
create_or_return unit_id fresh none none o = (ok fresh, store unit_id fresh o)

unfoldable pub create_unit :
    String → String → String → String → List String → Exec Orchestrator WorkUnit
create_unit unit_id event_key timestamp concurrency_group depends_on = do
  require (has_text unit_id) (orchestration_error "unit_id is required")
  require (has_text event_key) (orchestration_error "event_key is required")
  λ o.
      create_or_return unit_id (new_unit unit_id event_key timestamp concurrency_group depends_on)
        (Dict.get unit_id o.units) (unit_of_event event_key o.units) o

-- `_record_transition`
unfoldable pub record_transition : WorkUnit → State → Cause → WorkUnit
record_transition unit target c = record unit {
  transitions = unit.transitions ++ entry ∷ [];
  event_keys = insert c.event_key unit.event_keys;
  state = target;
}
  where
    entry : TransitionRecord
    entry = record {
      sequence = suc (length unit.transitions);
      from_state = unit.state;
      to_state = target;
      actor = c.actor;
      actor_kind = c.actor_kind;
      event_key = c.event_key;
      timestamp = c.timestamp;
      reason = c.reason;
    }
