-- ===== src/Orchestration/Cases.antt =====
-- What `transition` does on each branch, and what its checks let through.
use agentic_sdlc.Base.{
  String, ◌≡◌, refl, sym, ap, ◌∙◌, subst, ◌⊎◌, inl, inr, Bool, true, false, some, Result, ok, err,
  arith, eq_iff, ◌==◌, member, has_text, Bool-cases, Option-cases, Result-cases,
}
use agentic_sdlc.Base.Dict
use agentic_sdlc.Base.Dict.{get-put}
use agentic_sdlc.Orchestration.State.{
  State, merged, approved, blocked, abort, has_state, has_edge, is_terminal, same_state,
  same_state_refl, edge_to_merged,
}
use agentic_sdlc.Orchestration.Store.{WorkUnit, Orchestrator, Cause, store, record_transition}
use agentic_sdlc.Orchestration.Transition.{
  is_actor_kind, authorise, check_dependencies, apply_transition, transition,
}
use agentic_sdlc.Orchestration.Steps.{Lawful}

-- what the tests of `authorise` leave, with the states compared
record Tests (u : WorkUnit) (t : State) (kind : String) : Type 0 where
  live : is_terminal u.state ≡ false
  edge : has_edge u.state t ≡ true
  merging : same_state t merged ≡ true → (kind == "human") ≡ true
  approving : same_state t approved ≡ true → (kind == "agent") ≡ false
  resuming :
      same_state u.state blocked ≡ true → has_state t abort ≡ false → (kind == "human") ≡ true

authorise-Tests :
    (u : WorkUnit) (t : State) (kind : String) → authorise u t kind ≡ ok tt → Tests u t kind
unfolding authorise
authorise-Tests u t kind h = ground arith

-- What `authorise` lets through is lawful.
pub authorise-Lawful :
    (u : WorkUnit) (t : State) (kind : String) → authorise u t kind ≡ ok tt → Lawful u.state t kind
authorise-Lawful u t kind h =
    let tests = authorise-Tests u t kind h in
    record {
      live = tests.live;
      edge = inl tests.edge;
      merge_by_human = λ e. (
        edge_to_merged u.state (rw e at tests.edge),
        (eq_iff kind "human").0 (tests.merging (rw e (same_state_refl merged))),
      );
      approval_not_by_agent = λ e agent.
          let differs = tests.approving (rw e (same_state_refl approved)) in
          cc ((eq_iff kind "agent").1 agent);
      resumed_by_human = λ e resumes.
          (eq_iff kind "human").0 (tests.resuming (rw e (same_state_refl blocked)) resumes);
    }

-- The move was made: the unit under the id, and the state that is left.
pub record Moved (k : String) (t : State) (c : Cause) (o : Orchestrator) : Type 0 where
  pub unit : WorkUnit
  pub at : Dict.get k o.units ≡ some unit
  pub lawful : Lawful unit.state t c.actor_kind
  pub on_edge : has_edge unit.state t ≡ true
  pub dependencies : check_dependencies o.units unit t ≡ ok tt
  pub kind_known : is_actor_kind c.actor_kind ≡ true
  pub key_given : has_text c.event_key ≡ true
  pub fresh : member c.event_key unit.event_keys ≡ false
  pub result :
      transition k t c o ≡ (ok (record_transition unit t c), store k (record_transition unit t c) o)

-- Nothing was changed: the call raised, or the event was known and the unit is returned.
pub record Kept (k : String) (t : State) (c : Cause) (o : Orchestrator) : Type 0 where
  pub same : (transition k t c o).1 ≡ o
  pub value : (v : WorkUnit) → (transition k t c o).0 ≡ ok v → Dict.get k o.units ≡ some v
  pub replayed :
      (v : WorkUnit)
      → (transition k t c o).0 ≡ ok v
      → (member c.event_key v.event_keys ≡ true) × (has_text c.event_key ≡ true)

abbrev pub is_ok {ℓ} : {A : Type ℓ} → Result A → Bool
is_ok (ok a) = true
is_ok (err e) = false

-- whether the call returned, and the state that it left
abbrev pub ending {ℓ} : {S A : Type ℓ} → Result A × S → Bool × S
ending (r, s) = (is_ok r, s)

module _ (k : String) (t : State) (c : Cause) (o : Orchestrator) where
  raised : ending (transition k t c o) ≡ (false, o) → Kept k t c o
  raised h = record {
    same = ap (λ r. r.1) h;
    value =
        λ v ret. let x : is_ok (transition k t c o).0 ≡ true = ap is_ok ret in cc (ap (λ r. r.0) h);
    replayed = λ v ret.
        absurd (let x : is_ok (transition k t c o).0 ≡ true = ap is_ok ret in cc (ap (λ r. r.0) h));
  }

  returned :
      (u : WorkUnit)
      → Dict.get k o.units ≡ some u
      → member c.event_key u.event_keys ≡ true
      → has_text c.event_key ≡ true
      → transition k t c o ≡ (ok u, o)
      → Kept k t c o
  returned u at known text h = record {
    same = ap (λ r. r.1) h;
    value = λ v ret. let x : ok u ≡ ok v = sym (ap (λ r. r.0) h) ∙ ret in cc;
    replayed = λ v ret.
        let x : ok u ≡ ok v = sym (ap (λ r. r.0) h) ∙ ret in
        let same : u ≡ v = cc in
        (subst (λ (w : WorkUnit). member c.event_key w.event_keys ≡ true) same known, text);
  }

  pub transition_cases : Moved k t c o ⊎ Kept k t c o
  unfolding transition apply_transition
  transition_cases = elim (Option-cases (Dict.get k o.units)) [
    | inl missing ↦ inr (raised (rw (missing, transition) refl))
    | inr (u, at) ↦ elim (Bool-cases (is_actor_kind c.actor_kind)) [
      | inr unknown ↦ inr (raised (rw (at, transition) (rw unknown refl)))
      | inl known ↦ elim (Bool-cases (has_text c.event_key)) [
        | inr blank ↦ inr (raised (rw (at, transition) (rw (known, blank) refl)))
        | inl text ↦ elim (Bool-cases (member c.event_key u.event_keys)) [
          | inl replay ↦
              inr (returned u at replay text (rw (at, transition) (rw (known, text, replay) refl)))
          | inr fresh ↦ elim (Result-cases (authorise u t c.actor_kind)) [
            | inr (e, refused) ↦
                inr (raised (rw (at, transition) (rw (known, text, fresh, refused) refl)))
            | inl (_, allowed) ↦ elim (Result-cases (check_dependencies o.units u t)) [
              | inr (e, unmet) ↦
                  inr (raised (rw (at, transition) (rw (known, text, fresh, allowed, unmet) refl)))
              | inl (_, met) ↦ inl (record {
                unit = u;
                at = at;
                lawful = authorise-Lawful u t c.actor_kind allowed;
                on_edge = (authorise-Tests u t c.actor_kind allowed).edge;
                dependencies = met;
                kind_known = known;
                key_given = text;
                fresh = fresh;
                result = rw (at, transition) (rw (known, text, fresh, allowed, met) refl);
              })
            ]
          ]
        ]
      ]
    ]
  ]
