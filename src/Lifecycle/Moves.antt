-- ===== src/Lifecycle/Moves.antt =====
-- Every move of the driver is an edge of the lifecycle graph that a system actor may take.
use agentic_sdlc.Base.{
  ℕ, String, ◌≡◌, refl, true, false, not, some, ok, arith, ◌==◌, member, has_text, inl, inr, ◌⊎◌,
}
use agentic_sdlc.Base.Dict
use agentic_sdlc.Autonomy.{GateEvidence}
use agentic_sdlc.Orchestration.State.{
  State, intake, merged, approval_pending, blocked, has_edge, is_terminal, same_state,
}
use agentic_sdlc.Orchestration.Store.{WorkUnit, Orchestrator, store, record_transition}
use agentic_sdlc.Orchestration.Transition.{
  authorise, check_dependencies, transition, apply_transition, is_actor_kind,
}
use agentic_sdlc.Lifecycle.{
  Stages, Move, go, wait, next_move, LifecycleAdvance, perform, advance, driver_cause,
}

-- The driver's moves: along an edge, never to a merge, never out of blocked or a pending approval.
pub record IsSafe (from to : State) : Type 0 where
  pub edge : has_edge from to ≡ true
  pub live : is_terminal from ≡ false
  pub no_merge : same_state to merged ≡ false
  pub no_resume : same_state from blocked ≡ false
  pub no_approval : same_state from approval_pending ≡ false

next_move-IsSafe :
    (s t : State) (max repairs : ℕ) (e : GateEvidence) (g : Stages) (why : String)
    → next_move s max repairs e g ≡ go t why
    → IsSafe s t
unfolding next_move has_edge is_terminal same_state
next_move-IsSafe intake t max repairs e g why h = cc
next_move-IsSafe _ t max repairs e g why h = ground arith

system_kinds :
    (is_actor_kind "system" ≡ true)
    × (("system" == "human") ≡ false)
    × (("system" == "agent") ≡ false)
unfolding is_actor_kind
system_kinds = (refl, refl, refl)

-- A safe move is authorised for a system actor.
IsSafe-authorise : (u : WorkUnit) (t : State) → IsSafe u.state t → authorise u t "system" ≡ ok tt
unfolding authorise
IsSafe-authorise u t s =
    rw s.live (rw s.edge (rw s.no_merge (rw s.no_approval (rw s.no_resume (ground arith)))))

-- The driver's move is made: the unit is found, its event is new, and a dispatch finds its dependencies
-- merged.
pub record CanMove (k : String) (u : WorkUnit) (t : State) (key : String) (o : Orchestrator)
    : Type 0 where
  pub at : Dict.get k o.units ≡ some u
  pub fresh : member key u.event_keys ≡ false
  pub given_key : has_text key ≡ true
  pub dependencies : check_dependencies o.units u t ≡ ok tt

transition_made :
    (k : String) (u : WorkUnit) (t : State) (ts key why : String) (o : Orchestrator)
    → CanMove k u t key o
    → IsSafe u.state t
    → transition k t (driver_cause ts key why) o ≡ (
      ok (record_transition u t (driver_cause ts key why)),
      store k (record_transition u t (driver_cause ts key why)) o,
    )
unfolding transition apply_transition
transition_made k u t ts key why o c safe =
    rw (c.at, transition)
      (rw (system_kinds.0, c.given_key, c.fresh)
        (rw (IsSafe-authorise u t safe) (rw c.dependencies refl)))

-- what `advance` answers after a move
abbrev pub answer : String → WorkUnit → State → String → LifecycleAdvance
answer k u t why = record {
  unit_id = k;
  from_state = u.state;
  to_state = t;
  advanced = not (same_state u.state t);
  reason = why;
}

module _ (k ts key : String) (e : GateEvidence) (g : Stages) (u : WorkUnit) (o : Orchestrator) where
  abbrev next : Move
  next = next_move u.state o.max_repair_cycles u.repair_count e g

  -- A move that can be made is made: the unit gets one record more, by the system, and the answer
  -- names both states.
  pub advance_go :
      (t : State) (why : String)
      → CanMove k u t key o
      → next ≡ go t why
      → advance k ts key e g o
        ≡ (ok (answer k u t why), store k (record_transition u t (driver_cause ts key why)) o)
  unfolding advance perform record_transition
  advance_go t why c h =
      rw (c.at, advance)
        (rw h (
          rw (transition_made k u t ts key why o c (next_move-IsSafe u.state t _ _ e g why h))
            refl))

  advance_wait :
      (why : String)
      → Dict.get k o.units ≡ some u
      → next ≡ wait why
      → advance k ts key e g o ≡ (
        ok (record {
          unit_id = k;
          from_state = u.state;
          to_state = u.state;
          advanced = false;
          reason = why;
        }),
        o,
      )
  unfolding advance perform
  advance_wait why at h = rw (at, advance) (rw h refl)

-- Exactly one step: whatever the evidence and the stage results, on a known unit with a new event (and
-- merged dependencies, for a dispatch) the call returns; it either waits and changes nothing, or adds
-- one record along an edge of the graph that is no merge and resumes nothing that is blocked.
pub advance_total :
    (k ts key : String) (e : GateEvidence) (g : Stages) (u : WorkUnit) (o : Orchestrator)
    → Dict.get k o.units ≡ some u
    → member key u.event_keys ≡ false
    → has_text key ≡ true
    → ((t : State) → has_edge u.state t ≡ true → check_dependencies o.units u t ≡ ok tt)
    → ((a : LifecycleAdvance) × (advance k ts key e g o ≡ (ok a, o))
        × (a.advanced ≡ false)
        × (a.to_state ≡ u.state))
      ⊎ ((t : State) × (why : String) × IsSafe u.state t
          × (advance k ts key e g o ≡ (
            ok (answer k u t why),
            store k (record_transition u t (driver_cause ts key why)) o,
          )))
advance_total k ts key e g u o at fresh text met =
    go_or_wait (next_move u.state o.max_repair_cycles u.repair_count e g) refl
  where
    go_or_wait :
        (m : Move)
        → next_move u.state o.max_repair_cycles u.repair_count e g ≡ m
        → ((a : LifecycleAdvance) × (advance k ts key e g o ≡ (ok a, o))
            × (a.advanced ≡ false)
            × (a.to_state ≡ u.state))
          ⊎ ((t : State) × (why : String) × IsSafe u.state t
              × (advance k ts key e g o ≡ (
                ok (answer k u t why),
                store k (record_transition u t (driver_cause ts key why)) o,
              )))
    go_or_wait (wait why) h = inl (_, advance_wait k ts key e g u o why at h, refl, refl)
    go_or_wait (go t why) h =
        let safe = next_move-IsSafe u.state t _ _ e g why h in
        inr (
          t,
          why,
          safe,
          advance_go k ts key e g u o t why
              (record { at = at; fresh = fresh; given_key = text; dependencies = met t safe.edge })
              h,
        )
