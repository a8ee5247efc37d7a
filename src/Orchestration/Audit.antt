-- ===== src/Orchestration/Audit.antt =====
-- The audit trail of every unit: what its transition records say, and that they explain its state.
use agentic_sdlc.Base.{
  ℕ, suc, ◌+◌, ◌≤◌, ◌<◌, String, ◌≡◌, refl, sym, ◌∙◌, subst, inl, inr, true, false, some, List, [],
  ◌∷◌, ◌++◌, ok, arith, ◌==◌, All, All-append, length, Bool-cases,
}
use agentic_sdlc.Base.Dict
use agentic_sdlc.Base.Dict.{get-put}
use agentic_sdlc.Orchestration.State.{
  State, intake, dispatched, implementing, repair_needed, repairing, same_state-eq, has_edge,
  is_terminal,
}
use agentic_sdlc.Orchestration.Store.{
  TransitionRecord, AgentRunRecord, WorkUnit, Orchestrator, Cause, store, record_transition,
}
use agentic_sdlc.Orchestration.Runs.{check_kind, with_run}
use agentic_sdlc.Orchestration.Ops.{Op, run_ops}
use agentic_sdlc.Orchestration.Steps.{
  Lawful, IsNew, SameLife, Step, created, moved, noted, started, finished, Reach, here, next,
}
use agentic_sdlc.Orchestration.Refines.{run_ops-Reach}

-- The records are numbered from `n` on, each starts where the one before ended, and they lead from
-- one state to the other.
abbrev pub Trail : ℕ → State → List TransitionRecord → State → Type 0
Trail n s [] t = s ≡ t
Trail n s (r ∷ rs) t = (r.sequence ≡ n) × (r.from_state ≡ s) × Trail (suc n) r.to_state rs t

Trail-snoc :
    (n : ℕ) (s t : State) (rs : List TransitionRecord) (r : TransitionRecord)
    → Trail n s rs t
    → r.sequence ≡ n + length rs
    → r.from_state ≡ t
    → Trail n s (rs ++ r ∷ []) r.to_state
Trail-snoc n s t [] r h e f = (omega arith, f ∙ sym h, refl)
Trail-snoc n s t (x ∷ xs) r h e f =
    (h.0, h.1, Trail-snoc (suc n) x.to_state t xs r h.2 (omega arith) f)

abbrev pub IsLawful : TransitionRecord → Type 0
IsLawful r = Lawful r.from_state r.to_state r.actor_kind

-- What holds of every unit at any time, under a repair budget.
pub record IsAudited (budget : ℕ) (u : WorkUnit) : Type 0 where
  pub trail : Trail 1 intake u.transitions u.state
  pub lawful : All IsLawful u.transitions
  pub budgeted : u.repair_count ≤ budget

IsAudited-record_transition :
    (budget : ℕ) (u : WorkUnit) (t : State) (c : Cause)
    → IsAudited budget u
    → Lawful u.state t c.actor_kind
    → IsAudited budget (record_transition u t c)
unfolding record_transition
IsAudited-record_transition budget u t c a l = record {
  trail = Trail-snoc 1 intake u.state u.transitions _ a.trail (omega arith) refl;
  lawful = All-append IsLawful u.transitions _ a.lawful (l, tt);
  budgeted = a.budgeted;
}

IsAudited-new : (budget : ℕ) (u : WorkUnit) → IsNew u → IsAudited budget u
IsAudited-new budget u n = record {
  trail = rw n.no_transitions (sym n.starts);
  lawful = rw n.no_transitions tt;
  budgeted = rw n.no_repairs (omega arith);
}

IsAudited-noted :
    (budget : ℕ) (u v : WorkUnit) → SameLife u v → IsAudited budget u → IsAudited budget v
IsAudited-noted budget u v s a = record {
  trail = rw (s.transitions, s.state) a.trail;
  lawful = rw s.transitions a.lawful;
  budgeted = rw s.repairs a.budgeted;
}

pub implementation_checked :
    (max : ℕ) (u : WorkUnit) (kind : String)
    → check_kind max u kind ≡ ok tt
    → (kind == "implementation") ≡ true
    → u.state ≡ dispatched
unfolding check_kind
implementation_checked max u kind h k = same_state-eq u.state dispatched (ground arith)

pub repair_checked :
    (max : ℕ) (u : WorkUnit) (kind : String)
    → check_kind max u kind ≡ ok tt
    → (kind == "implementation") ≡ false
    → (kind == "repair") ≡ true
    → (u.state ≡ repair_needed) × (u.repair_count < max)
unfolding check_kind
repair_checked max u kind h n k = (same_state-eq u.state repair_needed (ground arith), ground arith)

-- the moves that a run's start makes
implementing-Lawful : Lawful dispatched implementing "agent"
unfolding is_terminal has_edge
implementing-Lawful = record {
  live = refl;
  edge = inl refl;
  merge_by_human = λ e. cc;
  approval_not_by_agent = λ e. cc;
  resumed_by_human = λ e. cc;
}

repairing-Lawful : Lawful repair_needed repairing "agent"
unfolding is_terminal has_edge
repairing-Lawful = record {
  live = refl;
  edge = inl refl;
  merge_by_human = λ e. cc;
  approval_not_by_agent = λ e. cc;
  resumed_by_human = λ e. cc;
}

IsAudited-with_run :
    (budget : ℕ) (u : WorkUnit) (run : AgentRunRecord)
    → check_kind budget u run.kind ≡ ok tt
    → IsAudited budget u
    → IsAudited budget (with_run u run)
unfolding with_run
IsAudited-with_run budget u run h a = elim (Bool-cases (run.kind == "implementation")) [
  | inl impl ↦ rw impl (
      IsAudited-record_transition budget _ implementing _
        (record { trail = a.trail; lawful = a.lawful; budgeted = a.budgeted })
        (subst (λ s. Lawful s implementing "agent")
          (sym (implementation_checked budget u run.kind h impl)) implementing-Lawful))
  | inr other ↦ elim (Bool-cases (run.kind == "repair")) [
    | inl repair ↦
        let (needed, room) = repair_checked budget u run.kind h other repair in
        rw (other, repair)
          (IsAudited-record_transition budget _ repairing _
            (record { trail = a.trail; lawful = a.lawful; budgeted = room })
            (subst (λ s. Lawful s repairing "agent") (sym needed) repairing-Lawful))
    | inr neither ↦
        rw (other, neither) (record { trail = a.trail; lawful = a.lawful; budgeted = a.budgeted })
  ]
]

-- Every unit of the orchestrator.
pub record AllAudited (o : Orchestrator) : Type 0 where
  pub each :
      (k : String) (u : WorkUnit) → Dict.get k o.units ≡ some u → IsAudited o.max_repair_cycles u

AllAudited-store :
    (k : String) (u : WorkUnit) (o : Orchestrator)
    → IsAudited o.max_repair_cycles u
    → AllAudited o
    → AllAudited (store k u o)
AllAudited-store k u o a h = record {
  each = λ j v at. elim (Bool-cases (k == j)) [
    | inl same ↦
        let stored : some u ≡ some v = rw (get-put, same) at at in
        subst (IsAudited o.max_repair_cycles) (cc) a
    | inr other ↦ h.each j v (rw (get-put, other) at at)
  ];
}

Step-AllAudited : {o p : Orchestrator} → Step o p → AllAudited o → AllAudited p
Step-AllAudited {o} (created k u absent n) h =
    AllAudited-store k u o (IsAudited-new o.max_repair_cycles u n) h
Step-AllAudited {o} (moved k u t c at lawful fresh) h =
    AllAudited-store k _ o
      (IsAudited-record_transition o.max_repair_cycles u t c (h.each k u at) lawful) h
Step-AllAudited {o} (noted k u v at s) h =
    AllAudited-store k v o (IsAudited-noted o.max_repair_cycles u v s (h.each k u at)) h
Step-AllAudited {o} (started k u run at r kind serial) h =
    AllAudited-store k _ o (IsAudited-with_run o.max_repair_cycles u run kind (h.each k u at)) h
Step-AllAudited {o} (finished k u f i run runs at r e) h =
    let a = h.each k u at in
    AllAudited-store k _ o (record { trail = a.trail; lawful = a.lawful; budgeted = a.budgeted }) h

Reach-AllAudited : {o p : Orchestrator} → Reach o p → AllAudited o → AllAudited p
Reach-AllAudited here h = h
Reach-AllAudited (next r s) h = Step-AllAudited s (Reach-AllAudited r h)

pub run_ops-AllAudited :
    (o : Orchestrator) (ops : List Op) → AllAudited o → AllAudited (run_ops o ops)
run_ops-AllAudited o ops h = Reach-AllAudited (run_ops-Reach o ops) h
