-- ===== src/Orchestration/Replay.antt =====
-- Transitions are idempotent by their event key.
use agentic_sdlc.Base.{
  String, ◌≡◌, refl, sym, ap, ◌∙◌, inl, inr, true, some, List, ok, eq_refl, member, insert,
  has_text, Bool-cases, subst,
}
use agentic_sdlc.Base.Dict
use agentic_sdlc.Base.Dict.{get-put}
use agentic_sdlc.Orchestration.State.{State}
use agentic_sdlc.Orchestration.Store.{WorkUnit, Orchestrator, Cause, store, record_transition}
use agentic_sdlc.Orchestration.Transition.{is_actor_kind, transition}
use agentic_sdlc.Orchestration.Cases.{transition_cases}

member-insert : (k : String) (xs : List String) → member k (insert k xs) ≡ true
member-insert k xs = elim (Bool-cases (member k xs)) [
  | inl old ↦ rw old old
  | inr new ↦ rw new (rw (eq_refl k) refl)
]

-- the unit has seen the event
known_event :
    (k : String) (t : State) (c : Cause) (o : Orchestrator) (v : WorkUnit)
    → Dict.get k o.units ≡ some v
    → is_actor_kind c.actor_kind ≡ true
    → has_text c.event_key ≡ true
    → member c.event_key v.event_keys ≡ true
    → transition k t c o ≡ (ok v, o)
unfolding transition
known_event k t c o v at kind text seen = rw (at, transition) (rw (kind, text, seen) refl)

member-record_transition :
    (u : WorkUnit) (t : State) (c : Cause)
    → member c.event_key (record_transition u t c).event_keys ≡ true
unfolding record_transition
member-record_transition u t c = member-insert c.event_key u.event_keys

-- After a transition that returned, a transition of the unit with the same event key, by any known kind of
-- actor and to whatever state, changes nothing and returns the same unit.
pub transition_replay :
    (k : String) (t t' : State) (c c' : Cause) (o p : Orchestrator) (v : WorkUnit)
    → transition k t c o ≡ (ok v, p)
    → c'.event_key ≡ c.event_key
    → is_actor_kind c'.actor_kind ≡ true
    → transition k t' c' p ≡ (ok v, p)
transition_replay k t t' c c' o p v h same kind = elim (transition_cases k t c o) [
  | inr kept ↦
      let unchanged : o ≡ p = sym kept.same ∙ ap (λ r. r.1) h in
      let (seen, text) = kept.replayed v (ap (λ r. r.0) h) in
      known_event k t' c' p v
        (subst (λ (x : Orchestrator). Dict.get k x.units ≡ some v) unchanged
          (kept.value v (ap (λ r. r.0) h)))
        kind (rw same text) (rw same seen)
  | inl m ↦
      let made : ok (record_transition m.unit t c) ≡ ok v =
        sym (ap (λ r. r.0) m.result) ∙ ap (λ r. r.0) h in
      let unit : record_transition m.unit t c ≡ v = cc in
      let state : store k (record_transition m.unit t c) o ≡ p =
        sym (ap (λ r. r.1) m.result) ∙ ap (λ r. r.1) h in
      known_event k t' c' p v
        (subst (λ (x : Orchestrator). Dict.get k x.units ≡ some v) state
          (rw (get-put, eq_refl) (ap some unit)))
        kind (rw same m.key_given)
        (rw same (
          subst (λ (w : WorkUnit). member c.event_key w.event_keys ≡ true) unit
            (member-record_transition m.unit t c)))
]
