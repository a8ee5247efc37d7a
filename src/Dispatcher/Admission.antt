-- ===== src/Dispatcher/Admission.antt =====
-- What enters the orchestrator by the dispatcher.
use agentic_sdlc.Base.{
  String, ◌≡◌, refl, subst, ◌⊎◌, inl, inr, true, false, Option, none, some, [], Exec, Result, ok,
  err, and_then, All, Bool-cases, Option-cases, keep_none, is_empty-sorted, is_empty, has_text,
  member,
}
use agentic_sdlc.Orchestration.State.{intake, triaged, same_state}
use agentic_sdlc.Orchestration.Store.{Orchestrator, create_unit}
use agentic_sdlc.Orchestration.Steps.{Reach, here, Reach-trans}
use agentic_sdlc.Orchestration.Refines.{create-Reach, transition-Reach}
use agentic_sdlc.Checkpoints.{CheckpointRecord, CheckpointStore, get_unit}
use agentic_sdlc.Dispatcher.{
  WorkEvent, Payload, DispatchDecision, Plane, Labels, spec_review_block, on_store, on_orchestrator,
  persist, preflight, triage, enter, prior_state, resume_at, resume_or_enter, replay_or_route,
  has_number, admit, blocked_of, route, event_fingerprint, dispatch, unit_id_of,
}

-- What an event carries that may become a work unit.
pub record Admissible (l : Labels) (e : WorkEvent) : Type 0 where
  pub managed : member l.managed_label e.labels ≡ true
  pub unblocked : All (λ b. member b e.labels ≡ false) l.blocked_labels
  pub not_held : spec_review_block e.labels ≡ none
  pub provider : has_text e.provider ≡ true
  pub repository : has_text e.repository ≡ true
  pub numbered : has_number e.number ≡ true

module _ (P : Orchestrator → Type 0) {A B : Type 0} where
  -- a property of the orchestrator that a chain leaves
  pub chain :
      (m : Result A × Plane) (f : A → Exec Plane B)
      → P m.1.orchestrator
      → ((a : A) → P (f a m.1).1.orchestrator)
      → P (and_then m f).1.orchestrator
  chain (ok a, w) f h k = k a
  chain (err e, w) f h k = h

pub on_store-same :
    {A : Type 0} (prefix : String) (default : A) (call : Exec CheckpointStore A) (w : Plane)
    → (on_store prefix default call w).1.orchestrator ≡ w.orchestrator
on_store-same prefix default call w = elim (Option-cases w.checkpoints) [
  | inl absent ↦ rw absent refl
  | inr (s, at) ↦ rw at refl
]

pub persist-same :
    (ts : String) (d : DispatchDecision) (w : Plane)
    → (persist ts d w).1.orchestrator ≡ w.orchestrator
unfolding persist
persist-same ts d w =
    chain (λ o. o ≡ w.orchestrator) (on_store _ tt _ w) _ (on_store-same _ tt _ w)
      λ _. on_store-same _ tt _ w

triage-Reach :
    (u key ts : String) (w : Plane) → Reach w.orchestrator (triage u key ts w).1.orchestrator
unfolding triage
triage-Reach u key ts w = transition-Reach u triaged _ w.orchestrator

enter-Reach :
    (e : WorkEvent) (u key ts : String) (w : Plane)
    → Reach w.orchestrator (enter e u key ts w).1.orchestrator
unfolding enter
enter-Reach e u key ts w =
    let made = create-Reach u key ts _ [] w.orchestrator in
    chain (Reach w.orchestrator) (on_orchestrator (create_unit u key ts _ []) w) _ made λ unit.
      elim (Bool-cases (same_state unit.state intake)) [
        | inl new_one ↦ rw new_one (
            let done = Reach-trans made (triage-Reach u key ts _) in
            chain (Reach w.orchestrator) (triage u key ts _) _ done λ unit'. rw persist-same done)
        | inr known ↦ rw known (rw persist-same made)
      ]

resume-Reach :
    (e : WorkEvent) (u key ts : String) (state : Option String) (w : Plane)
    → Reach w.orchestrator (resume_at e u key ts state w).1.orchestrator
unfolding resume_at
resume-Reach e u key ts none w = enter-Reach e u key ts w
resume-Reach e u key ts (some state) w = rw persist-same here

-- either nothing entered, or the event is admissible and what entered did so by the step relation
Entered : WorkEvent → Labels → Orchestrator → Orchestrator → Type 0
Entered e l o p = (p ≡ o) ⊎ (Admissible l e × Reach o p)

admit-Entered :
    (l : Labels) (e : WorkEvent) (key ts : String) (w : Plane)
    → ((has_text e.provider ≡ true)
        → (has_text e.repository ≡ true)
        → (has_number e.number ≡ true)
        → Admissible l e)
    → Entered e l w.orchestrator (admit e key ts w).1.orchestrator
unfolding admit Entered resume_or_enter
admit-Entered l e key ts w k = elim (Bool-cases (has_text e.provider)) [
  | inr no_provider ↦ rw no_provider (inl refl)
  | inl provider ↦ elim (Bool-cases (has_text e.repository)) [
    | inr no_repository ↦ rw (provider, no_repository) (inl refl)
    | inl repository ↦ elim (Bool-cases (has_number e.number)) [
      | inr no_number ↦ rw (provider, repository, no_number) (inl refl)
      | inl number ↦
          rw (provider, repository, number)
            (inr (
              k provider repository number,
              chain (Reach w.orchestrator) (on_store _ none (get_unit (unit_id_of e)) w) _
                  (rw on_store-same here)
                  λ prior.
                    subst
                      (λ o.
                        Reach o
                          (resume_or_enter e (unit_id_of e) key ts prior
                            (on_store _ none (get_unit (unit_id_of e)) w).1).1.orchestrator)
                      (on_store-same _ none (get_unit (unit_id_of e)) w)
                      (resume-Reach e (unit_id_of e) key ts (prior_state prior) _),
            ))
    ]
  ]
]

route-Entered :
    (l : Labels) (e : WorkEvent) (key ts : String) (w : Plane)
    → Entered e l w.orchestrator (route l e key ts w).1.orchestrator
unfolding route
route-Entered l e key ts w = elim (Bool-cases (member l.managed_label e.labels)) [
  | inr unmanaged ↦ rw unmanaged (unfold Entered in inl (persist-same ts _ w))
  | inl managed ↦ elim (Bool-cases (is_empty (blocked_of l e))) [
    | inr blocked ↦ rw (managed, blocked) (unfold Entered in inl (persist-same ts _ w))
    | inl unblocked ↦ elim (Option-cases (spec_review_block e.labels)) [
      | inr (held, why) ↦ rw (managed, unblocked, why) (unfold Entered in inl (persist-same ts _ w))
      | inl not_held ↦
          rw (managed, unblocked, not_held)
            (admit-Entered l e key ts w λ provider repository number. record {
              managed = managed;
              unblocked = (keep_none _ l.blocked_labels).0 (is_empty-sorted _ unblocked);
              not_held = not_held;
              provider = provider;
              repository = repository;
              numbered = number;
            })
    ]
  ]
]

-- Whatever the event, the labels and the checkpoints, and whether the call returns or raises: either the
-- orchestrator is unchanged, or the event carries the managed label, no blocked label and no hold for a
-- specification review, names a provider, a repository and a positive number, and the change is one that
-- the step relation of the lifecycle allows.
pub dispatch_enters :
    (digest : Payload → String) (l : Labels) (e : WorkEvent) (ts : String) (w : Plane)
    → ((dispatch digest l e ts w).1.orchestrator ≡ w.orchestrator)
      ⊎ (Admissible l e × Reach w.orchestrator (dispatch digest l e ts w).1.orchestrator)
unfolding dispatch preflight Entered
dispatch_enters digest l e ts w = elim (Bool-cases (has_text ts)) [
  | inr blank ↦ rw blank (inl refl)
  | inl stamped ↦ rw stamped (
      let m = preflight ts (event_fingerprint digest e) w in
      chain (Entered e l w.orchestrator) m _ (inl (on_store-same _ none _ w))
        λ replay. replayed replay)
]
  where
    replayed :
        (replay : Option CheckpointRecord)
        → let w' = (preflight ts (event_fingerprint digest e) w).1 in
          Entered e l w.orchestrator
            (replay_or_route replay (route l e (event_fingerprint digest e) ts) w').1.orchestrator
    replayed (some r) = inl (on_store-same _ none _ w)
    replayed none =
        let w' = (preflight ts (event_fingerprint digest e) w).1 in
        subst (λ o. Entered e l o (route l e (event_fingerprint digest e) ts w').1.orchestrator)
          (on_store-same _ none _ w) (route-Entered l e (event_fingerprint digest e) ts w')
