-- ===== src/Orchestration/Reviewing.antt =====
-- What a recorded review was: independent of earlier cycles, and routed by its findings.
use agentic_sdlc.Base.Int.{ℤ, is_negative, is_zero}
use agentic_sdlc.Base.{
  ℕ, String, ◌≡◌, refl, sym, ap, ◌∙◌, inl, inr, true, false, not, ◌||◌, Option, none, some, ok,
  Exec, and_then, arith, eq_iff, ◌==◌, member, nat_eq, nat_eq_iff, passed, eq_refl, ltb,
  if◌then◌else◌,
}
use agentic_sdlc.Base.Dict
use agentic_sdlc.Base.Dict.{get-put}
use agentic_sdlc.Orchestration.State.{
  State, reviewing, re_reviewing, ready_for_human_merge, repair_needed, blocked, same_state,
}
use agentic_sdlc.Orchestration.Store.{
  AgentRunRecord, WorkUnit, Orchestrator, Cause, store, record_transition,
}
use agentic_sdlc.Orchestration.Review.{
  known_run, run_of, review_target, apply_review, record_review,
}
use agentic_sdlc.Orchestration.Transition.{transition}
use agentic_sdlc.Orchestration.Cases.{transition_cases}

-- A review run of the unit in its present repair cycle, and the tests that its outcome passed.
pub record Reviewed (u : WorkUnit) (run_id : String) (findings : ℤ) : Type 0 where
  pub run : AgentRunRecord
  pub listed : run_of run_id u.runs ≡ some run
  pub is_review : run.kind ≡ "review"
  pub of_this_cycle : run.repair_cycle ≡ u.repair_count
  pub under_review : (same_state u.state reviewing || same_state u.state re_reviewing) ≡ true
  pub counted : is_negative findings ≡ false

knows :
    (P : Type 0) (r : String) (m : Option AgentRunRecord) (o : Orchestrator) (v : WorkUnit)
    (f : AgentRunRecord → Exec Orchestrator WorkUnit)
    → (and_then (known_run r m o) f).0 ≡ ok v
    → ((run : AgentRunRecord) → m ≡ some run → (f run o).0 ≡ ok v → P)
    → P
knows P r none o v f h k = cc
knows P r (some run) o v f h k = k run refl h

-- where the last transition of a review leads
abbrev Routed : Orchestrator → WorkUnit → ℤ → String → WorkUnit → Type 0
Routed o u n d v =
    (v.state ≡ (review_target o.max_repair_cycles u n).0) × (v.review_findings_sha256 ≡ d)

routed :
    (k key d : String) (u v : WorkUnit) (t : State) (c : Cause) (o : Orchestrator)
    → member c.event_key u.event_keys ≡ false
    → (transition k t c (store k (record u { review_findings_sha256 = d }) o)).0 ≡ ok v
    → (v.state ≡ t) × (v.review_findings_sha256 ≡ d)
unfolding record_transition
routed k key d u v t c o fresh h =
    let u' = record u { review_findings_sha256 = d } in
    let o' = store k u' o in
    let stored : Dict.get k o'.units ≡ some u' = rw (get-put, eq_refl) refl in
    elim (transition_cases k t c o') [
      | inl m ↦
          let made : ok (record_transition m.unit t c) ≡ ok v = sym (ap (λ r. r.0) m.result) ∙ h in
          let unit : record_transition m.unit t c ≡ v = cc in
          let same : some m.unit ≡ some u' = sym m.at ∙ stored in
          let digest : m.unit ≡ u' = cc in
          (
            sym (ap (λ (x : WorkUnit). x.state) unit),
            sym (ap (λ (x : WorkUnit). x.review_findings_sha256) unit)
                ∙ ap (λ (x : WorkUnit). x.review_findings_sha256) digest,
          )
      | inr kept ↦
          let same : some v ≡ some u' = sym (kept.value v h) ∙ stored in
          let unit : v ≡ u' = cc in
          let (seen, _) = kept.replayed v h in
          absurd (cc (ap (λ (x : WorkUnit). member c.event_key x.event_keys) unit))
    ]

apply_review-Reviewed :
    (k r : String) (u v : WorkUnit) (n : ℤ) (key ts d : String) (o : Orchestrator)
    → member key u.event_keys ≡ false
    → (apply_review k u r n key ts d o).0 ≡ ok v
    → Reviewed u r n × Routed o u n d v
unfolding apply_review
apply_review-Reviewed k r u v n key ts d o fresh h =
    let P = Reviewed u r n × Routed o u n d v in
    passed v P (not (is_negative n)) _ _ o h λ counted h.
      passed v P (same_state u.state reviewing || same_state u.state re_reviewing) _ _ o h
        λ under h. knows P r (run_of r u.runs) o v _ h λ run listed h.
          passed v P (run.kind == "review") _ _ o h λ review h.
            passed v P (nat_eq run.repair_cycle u.repair_count) _ _ o h λ cycle h. (
              record {
                run = run;
                listed = listed;
                is_review = (eq_iff run.kind "review").0 review;
                of_this_cycle = (nat_eq_iff run.repair_cycle u.repair_count).0 cycle;
                under_review = under;
                counted = ground arith;
              },
              routed k key d u v (review_target o.max_repair_cycles u n).0 _ o fresh h,
            )

-- where a recorded review leads
abbrev pub after_review : ℕ → ℕ → ℤ → State
after_review max repairs findings =
    if is_zero findings
    then ready_for_human_merge
    else if ltb repairs max
    then repair_needed
    else blocked

review_target_routes :
    (max : ℕ) (u : WorkUnit) (n : ℤ) → (review_target max u n).0 ≡ after_review max u.repair_count n
unfolding review_target
review_target_routes max u n = ground arith

-- A review outcome with a new event key that is recorded came from a review run of the unit's present
-- repair cycle, while the unit was under review. It leaves the findings digest, and leads to
-- ready-for-human-merge without findings, else to a repair within the budget, else to blocked.
pub record_review_routes :
    (k r : String) (u v : WorkUnit) (n : ℤ) (key ts d : String) (o : Orchestrator)
    → Dict.get k o.units ≡ some u
    → member key u.event_keys ≡ false
    → (record_review k r n key ts d o).0 ≡ ok v
    → Reviewed u r n
      × (v.review_findings_sha256 ≡ d)
      × (v.state ≡ after_review o.max_repair_cycles u.repair_count n)
unfolding record_review
record_review_routes k r u v n key ts d o at fresh h =
    let h' = rw at at h in
    let (reviewed, (leads, digest)) =
      apply_review-Reviewed k r u v n key ts d o fresh (rw fresh at h') in
    (reviewed, digest, leads ∙ review_target_routes o.max_repair_cycles u n)
