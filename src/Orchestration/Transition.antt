-- ===== src/Orchestration/Transition.antt =====
-- The moves of a unit: `transition`, `cancel`, `supersede` and `manual_override` of
-- src/agentic_sdlc/orchestration.py.
use agentic_sdlc.Base.{
  String, ◌+++◌, Bool, not, ◌&&◌, none, some, List, [], ◌∷◌, Exec, Result, ok, err,
  orchestration_error, ◌>>=◌, ◌>>◌, pure, lift, require, has_text, member, join, is_empty,
  if◌then◌else◌, ◌==◌,
}
use agentic_sdlc.Base.Dict
use agentic_sdlc.Base.Dict.{Dict}
use agentic_sdlc.Orchestration.State.{
  State, merged, approved, approval_pending, blocked, dispatched, cancelled, superseded,
  state_value, abort, same_state, has_state, has_edge, is_terminal,
}
use agentic_sdlc.Orchestration.Store.{WorkUnit, Orchestrator, Cause, get, store, record_transition}

-- _ACTOR_KINDS
unfoldable pub is_actor_kind : String → Bool
is_actor_kind kind = member kind ("human" ∷ "agent" ∷ "system" ∷ [])

-- the checks of `transition` on the unit and the actor, in their order
unfoldable pub authorise : WorkUnit → State → String → Result (Unit {0})
authorise unit target kind =
    if is_terminal state
    then err (
        orchestration_error (
          "work unit "
          +++ unit_id
          +++ " is terminal ("
          +++ state_value state
          +++ ") and cannot change"))
    else if not (has_edge state target)
    then err (
        orchestration_error (
          "invalid transition for "
          +++ unit_id
          +++ ": "
          +++ state_value state
          +++ " -> "
          +++ state_value target))
    else if same_state target merged && not (kind == "human")
    then err (orchestration_error "merge requires a human actor; agents never hold merge authority")
    else if same_state target approved && kind == "agent"
    then err (orchestration_error "approval cannot be granted by an agent actor")
    else if same_state target approved
        && (same_state state approval_pending && not (kind == "human"))
    then err (orchestration_error "explicit approval requires a human actor")
    else if same_state state blocked && (not (has_state target abort) && not (kind == "human"))
    then err (orchestration_error "resuming blocked work requires a human decision")
    else ok tt
  where
    open unit use {state, unit_id}

-- [dependency for dependency in depends_on if self.get(dependency).state is not MERGED]
unfoldable pub blocking_dependencies : Dict WorkUnit → List String → Result (List String)
blocking_dependencies units [] = ok []
blocking_dependencies units (d ∷ ds) = elim (Dict.get d units) [
  | none ↦ err (orchestration_error ("unknown work unit: " +++ d))
  | some unit ↦ elim (blocking_dependencies units ds) [
    | err e ↦ err e
    | ok rest ↦ ok (if same_state unit.state merged then rest else d ∷ rest)
  ]
]

abbrev pub require_none : String → Result (List String) → Result (Unit {0})
require_none unit_id (err e) = err e
require_none unit_id (ok blocking) =
    if is_empty blocking
    then ok tt
    else err (
        orchestration_error
          ("work unit " +++ unit_id +++ " is dependency-blocked by: " +++ join ", " blocking))

-- a dispatch wants every dependency merged
unfoldable pub check_dependencies : Dict WorkUnit → WorkUnit → State → Result (Unit {0})
check_dependencies units unit target =
    if same_state target dispatched
    then require_none unit.unit_id (blocking_dependencies units unit.depends_on)
    else ok tt

-- the unit moved, and written back
abbrev pub move : String → WorkUnit → State → Cause → Exec Orchestrator WorkUnit
move unit_id unit target c o =
    let moved = record_transition unit target c in (ok moved, store unit_id moved o)

-- behind the test that the event is new
unfoldable pub apply_transition : String → WorkUnit → State → Cause → Exec Orchestrator WorkUnit
apply_transition unit_id unit target c = do
  lift (authorise unit target c.actor_kind)
  λ o. (check_dependencies o.units unit target, o)
  move unit_id unit target c

unfoldable pub transition : String → State → Cause → Exec Orchestrator WorkUnit
unfolding get
transition unit_id target c = do
  unit ← get unit_id
  require (is_actor_kind c.actor_kind)
      (orchestration_error ("unknown actor kind: " +++ c.actor_kind))
  require (has_text c.event_key) (orchestration_error "event_key is required")
  if member c.event_key unit.event_keys then pure unit else apply_transition unit_id unit target c

-- `cancel`: the reason of the cause is replaced
unfoldable pub cancel : String → Cause → Exec Orchestrator WorkUnit
cancel unit_id c = transition unit_id cancelled (record c { reason = "cancelled" })

-- the unit object as it is after the transition
abbrev pub set_superseded_by : String → String → WorkUnit → Exec Orchestrator WorkUnit
set_superseded_by unit_id by unit o =
    let unit' = record unit { superseded_by = by } in (ok unit', store unit_id unit' o)

unfoldable pub supersede : String → String → Cause → Exec Orchestrator WorkUnit
supersede unit_id by c = do
  unit ← transition unit_id superseded (record c { reason = "superseded by " +++ by })
  set_superseded_by unit_id by unit

-- `manual_override`: the actor of the cause is a human
unfoldable pub manual_override : String → State → Cause → Exec Orchestrator WorkUnit
unfolding get
manual_override unit_id target c = do
  unit ← get unit_id
  require (has_text c.reason) (orchestration_error "manual overrides must state a reason")
  require (not (same_state target merged)) (
      orchestration_error
        "manual override cannot mint merge authority; merge from ready-for-human-merge instead")
  require (not (is_terminal unit.state))
      (orchestration_error ("work unit " +++ unit_id +++ " is terminal and cannot be overridden"))
  if member c.event_key unit.event_keys
      then pure unit
      else move unit_id unit target
          (record c { actor_kind = "human"; reason = "manual-override: " +++ c.reason })
