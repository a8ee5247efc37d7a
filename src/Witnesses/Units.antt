-- ===== src/Witnesses/Units.antt =====
-- One work unit from its creation to its merge, and what the theorems say of it
-- (src/agentic_sdlc/orchestration.py, src/agentic_sdlc/lifecycle.py).
use agentic_sdlc.Base.Int.{pos}
use agentic_sdlc.Base.{
  String, ◌≡◌, refl, true, none, some, List, [], ◌∷◌, ok, arith, show, lstrip, rstrip, strip,
}
use agentic_sdlc.Base.Dict
use agentic_sdlc.Orchestration.State.{
  triaged, dispatched, merged, cancelled, reviewing, ready_for_human_merge, same_state, has_state,
  has_edge, transitions, is_terminal,
}
use agentic_sdlc.Orchestration.Store.{
  WorkUnit, Orchestrator, Cause, new_orchestrator, get, unit_of_event, new_unit, create_unit,
  record_transition,
}
use agentic_sdlc.Orchestration.Transition.{
  is_actor_kind, authorise, check_dependencies, apply_transition, transition, manual_override,
}
use agentic_sdlc.Orchestration.Runs.{
  Envelope, Finish, is_run_kind, is_exclusive, missing_fields, is_active, running, conflict,
  check_kind, check_serial, new_run, with_run, begin_run, start_run,
}
use agentic_sdlc.Orchestration.Review.{run_of, review_target, apply_review, record_review}
use agentic_sdlc.Orchestration.Ops.{Op, create, move_to, overrides, start, step, run_ops}
use agentic_sdlc.Orchestration.Serial.{active_runs, IsSerial, run_ops-IsSerial}
use agentic_sdlc.Orchestration.Authority.{MergedByHuman, merged_by_human, Rests, terminal-Rests}
use agentic_sdlc.Orchestration.Steps.{Reach}
use agentic_sdlc.Orchestration.Refines.{run_ops-Reach}
use agentic_sdlc.Orchestration.Reviewing.{Reviewed, after_review, record_review_routes}
use agentic_sdlc.Orchestration.Replay.{transition_replay}

abbrev empty : Orchestrator
empty = record { max_repair_cycles = 2; human_merge_required = true; units = []; state_id = "s" }

abbrev by : String → String → Cause
by kind key = record {
  actor = "a";
  actor_kind = kind;
  event_key = key;
  timestamp = "t";
  reason = "r";
}

abbrev envelope : Envelope
envelope = record {
  fields =
      ("missionId", "m")
      ∷ ("missionVersion", "1")
      ∷ ("agentId", "a")
      ∷ ("adapter", "d")
      ∷ ("adapterVersion", "1")
      ∷ ("provider", "p")
      ∷ ("model", "o")
      ∷ ("promptSha256", "x")
      ∷ ("envelopeSha256", "y")
      ∷ [];
  input_refs = [];
}

abbrev success : Finish
success = record { result = "succeeded"; timestamp = "t"; commit_sha = ""; output_artifacts = [] }

-- a unit that a human puts in front of the merge, and merges
abbrev to_merge : List Op
to_merge =
    create "u" "e0" "t" "" []
    ∷ overrides "u" ready_for_human_merge (by "human" "e1")
    ∷ move_to "u" merged (by "human" "e2")
    ∷ []

abbrev unit_in : Orchestrator → WorkUnit
unfolding Dict.get
unit_in o = elim (Dict.get "u" o.units) [ none ↦ new_unit "u" "" "" "" [] | some u ↦ u ]

merged_by_human_example : MergedByHuman (unit_in (run_ops empty to_merge))
unfolding Dict.get Dict.put run_ops step create_unit unit_of_event new_unit manual_override
    transition is_actor_kind apply_transition authorise is_terminal has_edge has_state same_state
    transitions record_transition check_dependencies strip lstrip rstrip get new_orchestrator
merged_by_human_example =
    merged_by_human (pos 2) true "s" empty to_merge "u" (unit_in (run_ops empty to_merge)) refl refl
      refl

-- two implementations of one group are asked for
abbrev two_starts : List Op
two_starts =
    create "u" "e0" "t" "g" []
    ∷ create "v" "e1" "t" "g" []
    ∷ overrides "u" dispatched (by "human" "e2")
    ∷ overrides "v" dispatched (by "human" "e3")
    ∷ start "u" "implementation" envelope "e4" "t"
    ∷ start "v" "implementation" envelope "e5" "t"
    ∷ []

none_active : IsSerial empty
unfolding active_runs
none_active = record { each = λ g. omega arith }

run_ops-IsSerial_example : IsSerial (run_ops empty two_starts)
run_ops-IsSerial_example = run_ops-IsSerial empty two_starts none_active

run_ops-Reach_example : Reach empty (run_ops empty two_starts)
run_ops-Reach_example = run_ops-Reach empty two_starts

terminal-Rests_example :
    Rests "u"
      (unit_in (run_ops empty to_merge))
      (run_ops (run_ops empty to_merge) (move_to "u" triaged (by "human" "e3") ∷ []))
unfolding Dict.get Dict.put run_ops step create_unit unit_of_event new_unit manual_override
    transition is_actor_kind apply_transition authorise is_terminal has_edge has_state same_state
    transitions record_transition check_dependencies strip lstrip rstrip get
terminal-Rests_example =
    terminal-Rests (run_ops empty to_merge) (move_to "u" triaged (by "human" "e3") ∷ []) "u"
      (unit_in (run_ops empty to_merge)) refl refl

abbrev one_unit : Orchestrator
one_unit = record empty { units = ("u", new_unit "u" "e0" "t" "" []) ∷ [] }

abbrev moved_unit : WorkUnit
moved_unit = record_transition (new_unit "u" "e0" "t" "" []) triaged (by "system" "e1")

transition_replay_example :
    transition "u" cancelled (by "human" "e1") (record empty { units = ("u", moved_unit) ∷ [] })
    ≡ (ok moved_unit, record empty { units = ("u", moved_unit) ∷ [] })
unfolding Dict.get Dict.put run_ops step create_unit unit_of_event new_unit manual_override
    transition is_actor_kind apply_transition authorise is_terminal has_edge has_state same_state
    transitions record_transition check_dependencies strip lstrip rstrip get
transition_replay_example =
    transition_replay "u" triaged cancelled (by "system" "e1") (by "human" "e1") one_unit
      (record empty { units = ("u", moved_unit) ∷ [] }) moved_unit refl refl refl

abbrev under_review : List Op
under_review =
    create "u" "e0" "t" "" []
    ∷ overrides "u" reviewing (by "human" "e1")
    ∷ start "u" "review" envelope "e2" "t"
    ∷ []

abbrev reviewed : Orchestrator
reviewed = run_ops empty under_review

record_review_routes_example :
    let u = unit_in reviewed in
    let v = unit_in (record_review "u" "u:run-001" (pos 3) "e3" "t" "d" reviewed).1 in
    Reviewed u "u:run-001" (pos 3)
    × (v.review_findings_sha256 ≡ "d")
    × (v.state ≡ after_review reviewed.max_repair_cycles u.repair_count (pos 3))
unfolding Dict.get Dict.put run_ops step create_unit unit_of_event new_unit manual_override
    transition is_actor_kind apply_transition authorise is_terminal has_edge has_state same_state
    transitions record_transition check_dependencies strip lstrip rstrip get show start_run
    is_run_kind begin_run missing_fields check_kind check_serial is_exclusive conflict running
    is_active new_run with_run record_review apply_review run_of review_target
record_review_routes_example =
    record_review_routes "u" "u:run-001" (unit_in reviewed)
      (unit_in (record_review "u" "u:run-001" (pos 3) "e3" "t" "d" reviewed).1) (pos 3) "e3" "t" "d"
      reviewed refl refl refl
