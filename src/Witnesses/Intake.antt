-- ===== src/Witnesses/Intake.antt =====
-- One event that is delivered twice (src/agentic_sdlc/dispatcher.py, src/agentic_sdlc/checkpoints.py).
use agentic_sdlc.Base.Int.{pos}
use agentic_sdlc.Base.{
  String, ◌≡◌, ◌⊎◌, refl, true, false, none, some, [], ◌∷◌, ◌++◌, ok, strip, lstrip, rstrip,
  is_space, show,
}
use agentic_sdlc.Base.Dict
use agentic_sdlc.Orchestration.State.{is_terminal, has_edge, has_state, same_state, transitions}
use agentic_sdlc.Orchestration.Store.{create_unit, unit_of_event, new_unit, get, record_transition}
use agentic_sdlc.Orchestration.Transition.{
  transition, is_actor_kind, apply_transition, authorise, check_dependencies,
}
use agentic_sdlc.Orchestration.Steps.{Reach}
use agentic_sdlc.Checkpoints.{
  CheckpointStore, touch_heartbeat, get_event, get_unit, connect, row_of_event, newest_of_unit,
  record_checkpoint,
}
use agentic_sdlc.Dispatcher.{
  WorkEvent, Payload, DispatchDecision, Plane, Labels, spec_review_block, persist, preflight,
  triage, enter, prior_state, resume_at, resume_or_enter, admit, route, event_fingerprint, dispatch,
}
use agentic_sdlc.Dispatcher.Admission.{Admissible, dispatch_enters}
use agentic_sdlc.Dispatcher.Later.{here, delivered, dispatch_again}

abbrev digest : Payload → String
digest p = p.title

abbrev labels : Labels
labels = record { managed_label = "forge-managed"; blocked_labels = "forge-paused" ∷ [] }

abbrev issue : WorkEvent
issue = record {
  provider = "github";
  kind = "issue";
  action = "labeled";
  repository = "o/r";
  number = some (pos 4);
  title = "add";
  labels = "forge-managed" ∷ [];
}

abbrev store : CheckpointStore
store = record { rows = []; heartbeat = none; faults = [] }

abbrev plane : Plane
plane = record {
  orchestrator = record {
    max_repair_cycles = 2;
    human_merge_required = true;
    units = [];
    state_id = "s";
  };
  checkpoints = some store;
}

abbrev entered : DispatchDecision
entered = record {
  accepted = true;
  unit_id = "github:o/r:issue:4";
  event_key = "forge-event:add";
  state = "triaged";
  reason = "accepted";
}

abbrev after : Plane
after = (dispatch digest labels issue "t1" plane).1

abbrev journal : CheckpointStore
journal = record {
  rows =
      (record {
        event_key = "forge-event:add";
        unit_id = "github:o/r:issue:4";
        state = "triaged";
        accepted = true;
        reason = "accepted";
        timestamp = "t1";
      })
      ∷ [];
  heartbeat = some "t1";
  faults = [];
}

dispatch_enters_example :
    (after.orchestrator ≡ plane.orchestrator)
    ⊎ (Admissible labels issue × Reach plane.orchestrator after.orchestrator)
dispatch_enters_example = dispatch_enters digest labels issue "t1" plane

-- another event, which nobody marked, and the plane behind its delivery
abbrev unmarked : WorkEvent
unmarked = record issue { number = some (pos 5); title = "fix"; labels = [] }

abbrev later : Plane
later = (dispatch digest labels unmarked "t2" after).1

abbrev both_rows : CheckpointStore
both_rows = record {
  rows =
      journal.rows
      ++ (record {
        event_key = "forge-event:fix";
        unit_id = "";
        state = "ignored";
        accepted = false;
        reason = "missing forge-managed marker";
        timestamp = "t2";
      })
        ∷ [];
  heartbeat = some "t2";
  faults = [];
}

dispatch_again_example : dispatch digest labels issue "t3" later ≡ (
  ok entered,
  record later { checkpoints = some (record both_rows { heartbeat = some "t3"; faults = [] }) },
)
unfolding dispatch event_fingerprint route admit resume_or_enter resume_at prior_state enter triage
    preflight persist spec_review_block touch_heartbeat get_event get_unit connect row_of_event
    newest_of_unit record_checkpoint Dict.get Dict.put create_unit unit_of_event new_unit get
    transition is_actor_kind apply_transition authorise is_terminal has_edge has_state same_state
    transitions record_transition check_dependencies strip lstrip rstrip is_space show
dispatch_again_example =
    dispatch_again digest labels labels issue issue "t1" "t3" entered plane after later store
      both_rows refl refl (delivered labels unmarked "t2" here) refl refl refl refl
