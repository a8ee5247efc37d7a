-- ===== src/Lifecycle/Loop.antt =====
-- The driver does not count its repairs.
use agentic_sdlc.Base.{
  ℕ, String, List, ◌≡◌, refl, true, false, some, arith, ◌==◌, member, insert, has_text, eq_refl,
}
use agentic_sdlc.Base.Dict
use agentic_sdlc.Base.Dict.{get-put}
use agentic_sdlc.Autonomy.{GateEvidence}
use agentic_sdlc.Orchestration.State.{
  State, re_reviewing, repair_needed, repairing, dispatched, same_state,
}
use agentic_sdlc.Orchestration.Store.{WorkUnit, Orchestrator, record_transition}
use agentic_sdlc.Orchestration.Transition.{check_dependencies}
use agentic_sdlc.Lifecycle.{
  Stages, StageResult, pending, passed, changes_requested, next_move, go, advance, driver_cause,
}
use agentic_sdlc.Lifecycle.Moves.{CanMove, advance_go}

-- a stage result for the review, and one for the repair
abbrev pub stages : StageResult → StageResult → Stages
stages review repair = record {
  plan = pending;
  implementation = pending;
  verification = pending;
  review = review;
  repair = repair;
}

-- three calls: the review requests changes, the repair starts, and it passes
pub repair_round :
    String → String → String → String → String → GateEvidence → Orchestrator → Orchestrator
repair_round k ts k1 k2 k3 e o =
    let o1 = (advance k ts k1 e (stages changes_requested pending) o).1 in
    let o2 = (advance k ts k2 e (stages pending pending) o1).1 in
    (advance k ts k3 e (stages pending passed) o2).1

member-insert_other :
    (k j : String) (xs : List String)
    → (j == k) ≡ false
    → member k xs ≡ false
    → member k (insert j xs) ≡ false
member-insert_other k j xs other absent = ground arith

-- one move, to a state other than dispatched
advance_step :
    (k ts key why : String) (e : GateEvidence) (g : Stages) (u : WorkUnit) (t : State)
    (o : Orchestrator)
    → Dict.get k o.units ≡ some u
    → same_state t dispatched ≡ false
    → member key u.event_keys ≡ false
    → has_text key ≡ true
    → next_move u.state o.max_repair_cycles u.repair_count e g ≡ go t why
    → Dict.get k (advance k ts key e g o).1.units
      ≡ some (record_transition u t (driver_cause ts key why))
unfolding check_dependencies
advance_step k ts key why e g u t o at other fresh text h =
    let can : CanMove k u t key o = record {
      at = at;
      fresh = fresh;
      given_key = text;
      dependencies = rw other refl;
    } in
    rw (advance_go k ts key e g u o t why can h) (rw (get-put, eq_refl) refl)

-- The unit is under re-review, with that many repairs counted.
pub record UnderReReview (k : String) (repairs : ℕ) (o : Orchestrator) (v : WorkUnit) : Type 0 where
  pub at : Dict.get k o.units ≡ some v
  pub state : v.state ≡ re_reviewing
  pub counted : v.repair_count ≡ repairs

-- Three event keys that the unit has not seen, all different.
pub record FreshKeys (k1 k2 k3 : String) (u : WorkUnit) : Type 0 where
  pub texts : (has_text k1 ≡ true) × (has_text k2 ≡ true) × (has_text k3 ≡ true)
  pub unseen :
      (member k1 u.event_keys ≡ false)
      × (member k2 u.event_keys ≡ false)
      × (member k3 u.event_keys ≡ false)
  pub different : ((k1 == k2) ≡ false) × ((k1 == k3) ≡ false) × ((k2 == k3) ≡ false)

-- Whatever the repair budget and however many repairs are counted, a unit under re-review that goes through
-- a round of the driver (changes requested, repair started, repair passed) with new event keys is under
-- re-review again with no repair counted. So the driver alone never exhausts the budget.
pub repair_round_uncounted :
    (k ts k1 k2 k3 : String) (e : GateEvidence) (u : WorkUnit) (o : Orchestrator) (repairs : ℕ)
    → UnderReReview k repairs o u
    → FreshKeys k1 k2 k3 u
    → (v : WorkUnit) × UnderReReview k repairs (repair_round k ts k1 k2 k3 e o) v
unfolding repair_round record_transition next_move same_state
repair_round_uncounted k ts k1 k2 k3 e u o repairs r f =
    let (t1, t2, t3) = f.texts in
    let (u1, u2, u3) = f.unseen in
    let (d12, d13, d23) = f.different in
    let at1 =
      advance_step k ts k1 "independent review requested bounded repair" e
        (stages changes_requested pending) u repair_needed o r.at refl u1 t1 (rw r.state refl) in
    let at2 =
      advance_step k ts k2 "bounded repair cycle started" e (stages pending pending) _ repairing _
        at1 refl (member-insert_other k2 k1 u.event_keys d12 u2) t2 refl in
    let at3 =
      advance_step k ts k3 "repair completed; independent re-review required" e
        (stages pending passed) _ re_reviewing _ at2 refl
        (member-insert_other k3 k2 _ d23 (member-insert_other k3 k1 u.event_keys d13 u3)) t3 refl in
    (_, record { at = at3; state = refl; counted = r.counted })
