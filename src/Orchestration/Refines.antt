-- ===== src/Orchestration/Refines.antt =====
-- Every operation of the orchestrator is a sequence of steps of the lifecycle relation.
use agentic_sdlc.Base.Int.{ℤ, is_negative}
use agentic_sdlc.Base.{
  String, ◌+++◌, ◌≡◌, ◌≢◌, refl, sym, ap, ◌∙◌, subst, ◌⊎◌, inl, inr, Bool, true, false, not, Option,
  none, some, List, [], ◌∷◌, Result, ok, err, Error, arith, eq_iff, eq_refl, ◌==◌, member, has_text,
  Bool-cases, Option-cases, if◌then◌else◌, find_first, Exec, and_then, require, ◌||◌, ◌&&◌, nat_eq,
}
use agentic_sdlc.Base.Dict
use agentic_sdlc.Base.Dict.{get-put}
use agentic_sdlc.Orchestration.State.{
  State, merged, superseded, cancelled, re_reviewing, is_terminal, same_state, same_state_refl,
  verifying, reviewing,
}
use agentic_sdlc.Orchestration.Store.{
  AgentRunRecord, WorkUnit, Orchestrator, Cause, found, unit_of_event, new_unit, create_unit,
  record_transition,
}
use agentic_sdlc.Orchestration.Transition.{transition, cancel, supersede, manual_override}
use agentic_sdlc.Orchestration.Runs.{
  Envelope, Finish, missing_fields, is_run_kind, check_kind, check_serial, new_run, no_missing,
  begin_run, start_run, finish_in, finish_or_unknown, finish_run, replay_or,
}
use agentic_sdlc.Orchestration.Review.{
  record_verification, known_run, run_of, apply_review, record_review, record_repair_complete,
}
use agentic_sdlc.Orchestration.Ops.{
  Op, create, move_to, cancels, supersedes, overrides, start, finish, verify, review, repaired,
  step, run_ops,
}
use agentic_sdlc.Orchestration.Steps.{
  Lawful, created, moved, noted, started, finished, Reach, here, Reach-trans, one,
}
use agentic_sdlc.Orchestration.Cases.{transition_cases}

-- Rules for the ways in which a method is put together.
module _ {A B : Type 0} (o : Orchestrator) where
  bind-Reach :
      (m : Result A × Orchestrator) (f : A → Exec Orchestrator B)
      → Reach o m.1
      → ((a : A) → m.0 ≡ ok a → Reach m.1 (f a m.1).1)
      → Reach o (and_then m f).1
  bind-Reach (ok a, p) f r k = Reach-trans r (k a refl)
  bind-Reach (err e, p) f r k = r

  lift-Reach :
      (r : Result A) (f : A → Exec Orchestrator B)
      → ((a : A) → r ≡ ok a → Reach o (f a o).1)
      → Reach o (and_then (r, o) f).1
  lift-Reach r f k = bind-Reach (r, o) f here k

module _ {B : Type 0} (o : Orchestrator) where
  if-Reach :
      (b : Bool) (m n : Exec Orchestrator B)
      → (b ≡ true → Reach o (m o).1)
      → (b ≡ false → Reach o (n o).1)
      → Reach o ((if b then m else n) o).1
  if-Reach true m n km kn = km refl
  if-Reach false m n km kn = kn refl

  require-Reach :
      (b : Bool) (e : Error) (f : Unit {0} → Exec Orchestrator B)
      → (b ≡ true → Reach o (f tt o).1)
      → Reach o (and_then (require b e o) f).1
  require-Reach true e f k = k refl
  require-Reach false e f k = here

  found-Reach :
      (k : String) (u : Option WorkUnit) (f : WorkUnit → Exec Orchestrator B)
      → ((v : WorkUnit) → u ≡ some v → Reach o (f v o).1)
      → Reach o (and_then (found k u o) f).1
  found-Reach k none f h = here
  found-Reach k (some v) f h = h v refl

pub transition-Reach :
    (k : String) (t : State) (c : Cause) (o : Orchestrator) → Reach o (transition k t c o).1
transition-Reach k t c o = elim (transition_cases k t c o) [
  | inl m ↦ rw m.result (one (moved k m.unit t c m.at m.lawful m.fresh))
  | inr kept ↦ rw kept.same here
]

pub create-Reach :
    (k e t g : String) (ds : List String) (o : Orchestrator) → Reach o (create_unit k e t g ds o).1
unfolding create_unit new_unit
create-Reach k e t g ds o = elim (Bool-cases (has_text k)) [
  | inr blank ↦ rw blank here
  | inl id_given ↦ elim (Bool-cases (has_text e)) [
    | inr blank ↦ rw (id_given, blank) here
    | inl key_given ↦ elim (Option-cases (Dict.get k o.units)) [
      | inr (u, at) ↦ rw (id_given, key_given, at) here
      | inl absent ↦ elim (Option-cases (unit_of_event e o.units)) [
        | inr (u, seen) ↦ rw (id_given, key_given, absent, seen) here
        | inl unseen ↦
            rw (id_given, key_given, absent, unseen)
              (one (
                created k _ absent (record {
                  starts = refl;
                  no_transitions = refl;
                  no_runs = refl;
                  no_repairs = refl;
                })))
      ]
    ]
  ]
]

-- the unit that a transition returns is the one that is stored
transition_stored :
    (k : String) (t : State) (c : Cause) (o : Orchestrator) (v : WorkUnit)
    → (transition k t c o).0 ≡ ok v
    → Dict.get k (transition k t c o).1.units ≡ some v
transition_stored k t c o v h = elim (transition_cases k t c o) [
  | inr kept ↦ rw kept.same (kept.value v h)
  | inl m ↦
      let same : ok (record_transition m.unit t c) ≡ ok v = sym (ap (λ r. r.0) m.result) ∙ h in
      rw m.result (rw (get-put, eq_refl) (cc))
]

supersede-Reach : (k by : String) (c : Cause) (o : Orchestrator) → Reach o (supersede k by c o).1
unfolding supersede
supersede-Reach k by c o =
    let c' = record c { reason = "superseded by " +++ by } in
    bind-Reach o (transition k superseded c' o) _ (transition-Reach k superseded c' o) λ v h. one (
      noted k v (record v { superseded_by = by }) (transition_stored k superseded c' o v h)
        (record {
          state = refl;
          group = refl;
          transitions = refl;
          runs = refl;
          repairs = refl;
          keys = refl;
        }))

human-ne-agent : "human" ≢ (let s : String = "agent" in s)
human-ne-agent e = let h : ("human" == "agent") ≡ true = (eq_iff "human" "agent").1 e in cc

override-Lawful :
    (s t : State)
    → not (is_terminal s) ≡ true
    → not (same_state t merged) ≡ true
    → Lawful s t "human"
override-Lawful s t live not_merged = record {
  live = ground arith;
  edge = inr refl;
  merge_by_human = λ e.
      let clash = subst (λ x. not (same_state x merged) ≡ true) e not_merged in
      cc (same_state_refl merged);
  approval_not_by_agent = λ _. human-ne-agent;
  resumed_by_human = λ _ _. refl;
}

override-Reach :
    (k : String) (t : State) (c : Cause) (o : Orchestrator) → Reach o (manual_override k t c o).1
unfolding manual_override
override-Reach k t c o = found-Reach o k (Dict.get k o.units) _ λ u at.
    require-Reach o (has_text c.reason) _ _ λ _.
      require-Reach o (not (same_state t merged)) _ _ λ not_merged.
        require-Reach o (not (is_terminal u.state)) _ _ λ live.
          if-Reach o (member c.event_key u.event_keys) _ _ (λ _. here)
            λ fresh. one (moved k u t _ at (override-Lawful u.state t live not_merged) fresh)

begin-Reach :
    (k kind : String) (u : WorkUnit) (e : Envelope) (key ts : String) (o : Orchestrator)
    → Dict.get k o.units ≡ some u
    → Reach o (begin_run k u kind e key ts o).1
unfolding begin_run new_run
begin-Reach k kind u e key ts o at = lift-Reach o (no_missing (missing_fields e)) _ λ _ _.
    lift-Reach o (check_kind o.max_repair_cycles u kind) _ λ _ kind_fits.
      lift-Reach o (check_serial o.units u kind) _
        λ _ serial. one (started k u (new_run u kind e key ts) at refl kind_fits serial)

start-Reach :
    (k kind : String) (e : Envelope) (key ts : String) (o : Orchestrator)
    → Reach o (start_run k kind e key ts o).1
unfolding start_run
start-Reach k kind e key ts o = found-Reach o k (Dict.get k o.units) _ λ u at.
    require-Reach o (is_run_kind kind) _ _ λ _. require-Reach o (has_text key) _ _ λ _.
      replay _ (find_first (λ run. run.event_key == key) u.runs)
        (begin-Reach k kind u e key ts o at)
  where
    replay :
        (m : Exec Orchestrator AgentRunRecord) (r : Option AgentRunRecord)
        → Reach o (m o).1
        → Reach o (replay_or r m o).1
    replay m none h = h
    replay m (some run) h = here

either : (s a b : String) → (s == a || s == b) ≡ true → (s ≡ a) ⊎ (s ≡ b)
either s a b h = ground (arith, eq_iff s a, eq_iff s b)

finish_in-Reach :
    (k r : String) (f : Finish) (u : WorkUnit) (o : Orchestrator)
    → Dict.get k o.units ≡ some u
    → (f.result ≡ "succeeded") ⊎ (f.result ≡ "failed")
    → (found_runs : Option (AgentRunRecord × List AgentRunRecord))
    → finish_in f r u.runs ≡ found_runs
    → Reach o (finish_or_unknown k u r found_runs o).1
finish_in-Reach k r f u o at known none h = here
finish_in-Reach k r f u o at known (some (run, runs)) h = one (finished k u f r run runs at known h)

finish-Reach : (k r : String) (f : Finish) (o : Orchestrator) → Reach o (finish_run k r f o).1
unfolding finish_run
finish-Reach k r f o = found-Reach o k (Dict.get k o.units) _ λ u at.
    require-Reach o (f.result == "succeeded" || f.result == "failed") _ _
      λ known. finish_in-Reach k r f u o at (either f.result _ _ known) (finish_in f r u.runs) refl

verify-Reach :
    (k : String) (passed : Bool) (key ts actor : String) (o : Orchestrator)
    → Reach o (record_verification k passed key ts actor o).1
unfolding record_verification
verify-Reach k passed key ts actor o = found-Reach o k (Dict.get k o.units) _ λ u at.
    if-Reach o (member key u.event_keys) _ _ (λ _. here)
      λ _.
        require-Reach o
          (same_state u.state verifying || (same_state u.state re_reviewing && not passed)) _ _
          λ _. transition-Reach k _ _ o

apply_review-Reach :
    (k r : String) (u : WorkUnit) (n : ℤ) (key ts d : String) (o : Orchestrator)
    → Dict.get k o.units ≡ some u
    → Reach o (apply_review k u r n key ts d o).1
unfolding apply_review
apply_review-Reach k r u n key ts d o at = require-Reach o (not (is_negative n)) _ _ λ _.
    require-Reach o (same_state u.state reviewing || same_state u.state re_reviewing) _ _ λ _.
      known (run_of r u.runs) _ λ run. require-Reach o (run.kind == "review") _ _ λ _.
        require-Reach o (nat_eq run.repair_cycle u.repair_count) _ _ λ _.
          Reach-trans
            (one (
              noted k u (record u { review_findings_sha256 = d }) at
                (record {
                  state = refl;
                  group = refl;
                  transitions = refl;
                  runs = refl;
                  repairs = refl;
                  keys = refl;
                })))
            (transition-Reach k _ _ _)
  where
    known :
        (m : Option AgentRunRecord) (f : AgentRunRecord → Exec Orchestrator WorkUnit)
        → ((run : AgentRunRecord) → Reach o (f run o).1)
        → Reach o (and_then (known_run r m o) f).1
    known none f h = here
    known (some run) f h = h run

review-Reach :
    (k r : String) (n : ℤ) (key ts d : String) (o : Orchestrator)
    → Reach o (record_review k r n key ts d o).1
unfolding record_review
review-Reach k r n key ts d o = found-Reach o k (Dict.get k o.units) _ λ u at.
    if-Reach o (member key u.event_keys) _ _ (λ _. here)
      λ _. apply_review-Reach k r u n key ts d o at

-- Every operation, whether it returns or raises, does what the step relation allows.
pub step-Reach : (o : Orchestrator) (op : Op) → Reach o (step o op)
unfolding step cancel record_repair_complete
step-Reach o (create u k t g ds) = create-Reach u k t g ds o
step-Reach o (move_to u s c) = transition-Reach u s c o
step-Reach o (cancels u c) = transition-Reach u cancelled _ o
step-Reach o (supersedes u by c) = supersede-Reach u by c o
step-Reach o (overrides u s c) = override-Reach u s c o
step-Reach o (start u kind e k t) = start-Reach u kind e k t o
step-Reach o (finish u r f) = finish-Reach u r f o
step-Reach o (verify u passed k t a) = verify-Reach u passed k t a o
step-Reach o (review u r n k t d) = review-Reach u r n k t d o
step-Reach o (repaired u k t a) = transition-Reach u re_reviewing _ o

-- Every history of operations, returning and raising ones, does what the step relation allows.
pub run_ops-Reach : (o : Orchestrator) (ops : List Op) → Reach o (run_ops o ops)
unfolding run_ops
run_ops-Reach o [] = here
run_ops-Reach o (op ∷ ops) = Reach-trans (step-Reach o op) (run_ops-Reach (step o op) ops)
