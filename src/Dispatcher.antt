-- ===== src/Dispatcher.antt =====
-- src/agentic_sdlc/dispatcher.py: the idempotent intake of events, on the models of the orchestrator and
-- of the checkpoint store; with `spec_review_block` of src/agentic_sdlc/spec_stage.py and `WorkEvent` of
-- src/agentic_sdlc/models.py. `digest`, a parameter, is the SHA-256 of the payload's JSON in hexadecimal.
pub mod Admission
pub mod Once
pub mod Later
use agentic_sdlc.Base.Int.{ℤ, pos, is_positive}
use agentic_sdlc.Base.{
  ℕ, String, ◌+++◌, Bool, true, false, not, ◌&&◌, Option, none, some, List, [], ◌∷◌, Exec, Result,
  ok, err, Error, orchestration_error, work_graph_error, dispatch_error, checkpoint_error,
  mission_error, recovery_error, value_error, key_error, ◌>>=◌, ◌>>◌, and_then, pure, raise,
  require, has_text, member, keep, is_empty, sorted, join, show, if◌then◌else◌, ◌==◌,
}
use agentic_sdlc.MergeEvidence.{to_set}
use agentic_sdlc.Orchestration.State.{State, intake, triaged, state_value, same_state}
use agentic_sdlc.Orchestration.Store.{WorkUnit, Orchestrator, Cause, create_unit}
use agentic_sdlc.Orchestration.Transition.{transition}
use agentic_sdlc.Checkpoints.{
  CheckpointRecord, CheckpointStore, touch_heartbeat, get_event, get_unit, record_checkpoint,
}

-- what the dispatcher reads of an event; `kind` is the value of its enumeration
pub record WorkEvent : Type 0 where
  pub provider : String
  pub kind : String
  pub action : String
  pub repository : String
  pub number : Option ℤ
  pub title : String
  pub labels : List String

-- what an event is fingerprinted by
pub record Payload : Type 0 where
  pub provider : String
  pub kind : String
  pub action : String
  pub repository : String
  pub number : Option ℤ
  pub title : String
  pub labels : List String

pub record DispatchDecision : Type 0 where
  pub accepted : Bool
  pub unit_id : String
  pub event_key : String
  pub state : String
  pub reason : String

-- the orchestrator, and the checkpoint store if there is one
pub record Plane : Type 0 where
  pub orchestrator : Orchestrator
  pub checkpoints : Option CheckpointStore

-- the labels that the dispatcher looks for; the blocked ones are a set
pub record Labels : Type 0 where
  pub managed_label : String
  pub blocked_labels : List String

-- `__init__`
unfoldable pub new_labels : String → List String → Result Labels
new_labels managed blocked =
    if has_text managed
    then ok (record { managed_label = managed; blocked_labels = to_set blocked })
    else err (dispatch_error "managed_label is required")

abbrev pub payload_of : WorkEvent → Payload
payload_of e = record {
  provider = e.provider;
  kind = e.kind;
  action = e.action;
  repository = e.repository;
  number = e.number;
  title = e.title;
  labels = sorted e.labels;
}

-- `spec_review_block`
unfoldable pub spec_review_block : List String → Option String
spec_review_block labels =
    if member "spec-drafted" labels && not (member "spec-approved" labels)
    then some
        "specification was drafted by the Forge spec stage and awaits owner review: remove 'spec-drafted' or add 'spec-approved'"
    else none

-- str(exc)
abbrev pub error_text : Error → String
error_text (orchestration_error m) = m
error_text (work_graph_error m) = m
error_text (dispatch_error m) = m
error_text (checkpoint_error m) = m
error_text (mission_error m) = m
error_text (recovery_error m) = m
error_text (value_error m) = m
error_text (key_error m) = m

-- a result whose error is raised as a `DispatchError`
abbrev pub as_dispatch {ℓ} : {A : Type ℓ} → String → Result A → Result A
as_dispatch prefix (ok a) = ok a
as_dispatch prefix (err e) = err (dispatch_error (prefix +++ error_text e))

-- a call on the checkpoint store, or the value where there is none
abbrev pub on_store : {A : Type 0} → String → A → Exec CheckpointStore A → Exec Plane A
on_store prefix default call w = elim w.checkpoints [
  | none ↦ (ok default, w)
  | some s ↦ (as_dispatch prefix (call s).0, record w { checkpoints = some (call s).1 })
]

abbrev pub on_orchestrator : {A : Type 0} → Exec Orchestrator A → Exec Plane A
on_orchestrator call w =
    ((call w.orchestrator).0, record w { orchestrator = (call w.orchestrator).1 })

-- `_from_checkpoint`
abbrev pub from_checkpoint : CheckpointRecord → DispatchDecision
from_checkpoint r = record {
  accepted = r.accepted;
  unit_id = r.unit_id;
  event_key = r.event_key;
  state = r.state;
  reason = r.reason;
}

abbrev pub to_checkpoint : DispatchDecision → String → CheckpointRecord
to_checkpoint d timestamp = record {
  event_key = d.event_key;
  unit_id = d.unit_id;
  state = d.state;
  accepted = d.accepted;
  reason = d.reason;
  timestamp = timestamp;
}

-- `_persist`, and the `return` behind it
unfoldable pub persist : String → DispatchDecision → Exec Plane DispatchDecision
persist timestamp d = do
  on_store "checkpoint persistence failed: " tt (record_checkpoint (to_checkpoint d timestamp))
  pure d

-- the `try` of the preflight: the heartbeat, and the checkpoint of the event
unfoldable pub preflight : String → String → Exec Plane (Option CheckpointRecord)
preflight timestamp key =
    on_store "checkpoint preflight failed: " none (touch_heartbeat timestamp >> get_event key)

abbrev pub decision : Bool → String → String → String → String → DispatchDecision
decision accepted unit_id key state reason = record {
  accepted = accepted;
  unit_id = unit_id;
  event_key = key;
  state = state;
  reason = reason;
}

-- the transition of a new unit, whose error is a `DispatchError`
unfoldable pub triage : String → String → String → Exec Plane WorkUnit
triage unit_id key timestamp w =
    let (r, o) =
      transition unit_id triaged
        (record {
          actor = "forge-dispatcher";
          actor_kind = "system";
          event_key = key +++ ":triaged";
          timestamp = timestamp;
          reason = "explicit forge-managed autonomous intake";
        })
        w.orchestrator in
    (as_dispatch "" r, record w { orchestrator = o })

unfoldable pub enter : WorkEvent → String → String → String → Exec Plane DispatchDecision
enter e unit_id key timestamp = do
  unit ← on_orchestrator (create_unit unit_id key timestamp ("repo:" +++ e.repository) [])
  unit' ← if same_state unit.state intake then triage unit_id key timestamp else pure unit
  persist timestamp (decision true unit_id key (state_value unit'.state) "accepted")

unfoldable pub prior_state : Option CheckpointRecord → Option String
prior_state none = none
prior_state (some r) = if r.accepted then some r.state else none

-- a unit that was accepted before is not created again
unfoldable pub resume_at :
    WorkEvent → String → String → String → Option String → Exec Plane DispatchDecision
resume_at e unit_id key timestamp (some state) =
    persist timestamp (decision true unit_id key state "checkpoint-replay")
resume_at e unit_id key timestamp none = enter e unit_id key timestamp

unfoldable pub resume_or_enter :
    WorkEvent → String → String → String → Option CheckpointRecord → Exec Plane DispatchDecision
resume_or_enter e unit_id key timestamp prior =
    resume_at e unit_id key timestamp (prior_state prior)

abbrev pub has_number : Option ℤ → Bool
has_number none = false
has_number (some n) = is_positive n

abbrev pub show_number : Option ℤ → String
show_number (some (pos n)) = show n
show_number _ = ""

abbrev pub unit_id_of : WorkEvent → String
unit_id_of e =
    e.provider +++ ":" +++ e.repository +++ ":" +++ e.kind +++ ":" +++ show_number e.number

-- behind the tests of the labels
unfoldable pub admit : WorkEvent → String → String → Exec Plane DispatchDecision
admit e key timestamp = do
  require (has_text e.provider) (dispatch_error "provider is required")
  require (has_text e.repository) (dispatch_error "repository is required")
  require (has_number e.number) (dispatch_error "positive work item number is required")
  prior ← on_store "checkpoint lookup failed: " none (get_unit (unit_id_of e))
  resume_or_enter e (unit_id_of e) key timestamp prior

-- sorted(labels & self.blocked_labels)
abbrev pub blocked_of : Labels → WorkEvent → List String
blocked_of l e = sorted (keep (λ b. member b e.labels) l.blocked_labels)

abbrev pub held_or :
    Option String → String → String → Exec Plane DispatchDecision → Exec Plane DispatchDecision
held_or none key timestamp next = next
held_or (some held) key timestamp next = persist timestamp (decision false "" key "blocked" held)

-- behind the replay test
unfoldable pub route : Labels → WorkEvent → String → String → Exec Plane DispatchDecision
route l e key timestamp =
    if not (member l.managed_label e.labels)
    then persist timestamp (decision false "" key "ignored" "missing forge-managed marker")
    else if not (is_empty (blocked_of l e))
    then persist timestamp (
        decision false "" key "blocked"
          ("autonomous intake blocked by label: " +++ join ", " (blocked_of l e)))
    else held_or (spec_review_block e.labels) key timestamp (admit e key timestamp)

abbrev pub replay_or_route :
    Option CheckpointRecord → Exec Plane DispatchDecision → Exec Plane DispatchDecision
replay_or_route (some r) next = pure (from_checkpoint r)
replay_or_route none next = next

module _ (digest : Payload → String) where
  -- `event_fingerprint`
  unfoldable pub event_fingerprint : WorkEvent → String
  event_fingerprint e = "forge-event:" +++ digest (payload_of e)

  unfoldable pub dispatch : Labels → WorkEvent → String → Exec Plane DispatchDecision
  dispatch l e timestamp = do
    require (has_text timestamp) (dispatch_error "timestamp is required")
    replay ← preflight timestamp (event_fingerprint e)
    replay_or_route replay (route l e (event_fingerprint e) timestamp)
