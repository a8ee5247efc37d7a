-- ===== src/Orchestration/Authority.antt =====
-- Who can merge, and that a terminal unit is never moved again.
use mathlib.Core.List.{Memᴰ}
use agentic_sdlc.Base.Int.{ℤ}
use agentic_sdlc.Base.{
  ℕ, suc, String, ◌≡◌, refl, sym, ap, ◌∙◌, subst, ◌⊎◌, inl, inr, Bool, true, none, some, List, [],
  ◌∷◌, ok, arith, ◌==◌, All, Bool-cases, eq_iff,
}
use agentic_sdlc.Base.Dict
use agentic_sdlc.Base.Dict.{get-put}
use agentic_sdlc.Orchestration.State.{State, intake, merged, ready_for_human_merge, is_terminal}
use agentic_sdlc.Orchestration.Store.{
  TransitionRecord, AgentRunRecord, WorkUnit, Orchestrator, new_orchestrator, store,
}
use agentic_sdlc.Orchestration.Runs.{check_kind, with_run}
use agentic_sdlc.Orchestration.Ops.{Op, run_ops}
use agentic_sdlc.Orchestration.Steps.{
  Step, created, moved, noted, started, finished, Reach, here, next,
}
use agentic_sdlc.Orchestration.Refines.{run_ops-Reach}
use agentic_sdlc.Orchestration.Audit.{
  Trail, IsLawful, AllAudited, run_ops-AllAudited, implementation_checked, repair_checked,
}

Trail-last :
    (n : ℕ) (s t : State) (rs : List TransitionRecord)
    → Trail n s rs t
    → (s ≡ t) ⊎ ((r : TransitionRecord) × Memᴰ r rs × (r.to_state ≡ t))
Trail-last n s t [] h = inl h
Trail-last n s t (r ∷ rs) h = elim (Trail-last (suc n) r.to_state t rs h.2) [
  | inl e ↦ inr (r, Memᴰ.head refl, e)
  | inr (q, m, e) ↦ inr (q, Memᴰ.tail m, e)
]

All-at :
    (r : TransitionRecord) (rs : List TransitionRecord) → All IsLawful rs → Memᴰ r rs → IsLawful r
All-at r [] h m = elim m [ ]
All-at r (x ∷ rs) h (Memᴰ.head e) = subst IsLawful (sym e) h.0
All-at r (x ∷ rs) h (Memᴰ.tail m) = All-at r rs h.1 m

pub new_orchestrator-AllAudited :
    (max : ℤ) (human : Bool) (id : String) (o : Orchestrator)
    → new_orchestrator max human id ≡ ok o
    → AllAudited o
unfolding new_orchestrator Dict.get
new_orchestrator-AllAudited max human id o h = record {
  each = λ k u at. let empty : o.units ≡ [] = ground arith in absurd (cc (ap (Dict.get k) empty));
}

-- A record of a merge: from ready-for-human-merge, by a human.
pub record MergedByHuman (u : WorkUnit) : Type 0 where
  pub entry : TransitionRecord
  pub listed : Memᴰ entry u.transitions
  pub to_merged : entry.to_state ≡ merged
  pub from_ready : entry.from_state ≡ ready_for_human_merge
  pub by_human : entry.actor_kind ≡ "human"

-- After any history of calls on a new orchestrator, a merged unit has a record of its merge, by a human
-- actor, from ready-for-human-merge.
pub merged_by_human :
    (max : ℤ) (human : Bool) (id : String) (o : Orchestrator) (ops : List Op) (k : String)
    (u : WorkUnit)
    → new_orchestrator max human id ≡ ok o
    → Dict.get k (run_ops o ops).units ≡ some u
    → u.state ≡ merged
    → MergedByHuman u
merged_by_human max human id o ops k u new at m =
    let audited =
      (run_ops-AllAudited o ops (new_orchestrator-AllAudited max human id o new)).each k u at in
    elim (Trail-last 1 intake u.state u.transitions audited.trail) [
      | inl start ↦ absurd (cc)
      | inr (r, listed, to) ↦
          let (ready, by) =
            (All-at r u.transitions audited.lawful listed).merge_by_human (to ∙ m) in
          record {
            entry = r;
            listed = listed;
            to_merged = to ∙ m;
            from_ready = ready;
            by_human = by;
          }
    ]

-- The unit under the id is where it was, with the same records.
pub record Rests (k : String) (u : WorkUnit) (o : Orchestrator) : Type 0 where
  pub unit : WorkUnit
  pub at : Dict.get k o.units ≡ some unit
  pub state : unit.state ≡ u.state
  pub transitions : unit.transitions ≡ u.transitions

Rests-store :
    (k j : String) (u v w : WorkUnit) (o : Orchestrator)
    → Dict.get k o.units ≡ some u
    → Dict.get j o.units ≡ some v
    → (v ≡ u → (w.state ≡ u.state) × (w.transitions ≡ u.transitions))
    → Rests k u (store j w o)
Rests-store k j u v w o at there keep = elim (Bool-cases (j == k)) [
  | inl same ↦
      let one : some v ≡ some u =
        sym there ∙ ap (λ x. Dict.get x o.units) ((eq_iff j k).0 same) ∙ at in
      let (s, t) = keep (cc) in
      record { unit = w; at = rw (get-put, same) refl; state = s; transitions = t }
  | inr other ↦ record { unit = u; at = rw (get-put, other) at; state = refl; transitions = refl }
]

with_run_rests :
    (max : ℕ) (u : WorkUnit) (run : AgentRunRecord)
    → is_terminal u.state ≡ true
    → check_kind max u run.kind ≡ ok tt
    → ((with_run u run).state ≡ u.state) × ((with_run u run).transitions ≡ u.transitions)
unfolding with_run is_terminal
with_run_rests max u run terminal h = elim (Bool-cases (run.kind == "implementation")) [
  | inl impl ↦
      let s = implementation_checked max u run.kind h impl in absurd (cc (ap is_terminal s))
  | inr other ↦ elim (Bool-cases (run.kind == "repair")) [
    | inl repair ↦
        let (s, room) = repair_checked max u run.kind h other repair in
        absurd (cc (ap is_terminal s))
    | inr neither ↦ rw (other, neither) (refl, refl)
  ]
]

Step-Rests :
    {o p : Orchestrator} (k : String) (u : WorkUnit)
    → Step o p
    → Dict.get k o.units ≡ some u
    → is_terminal u.state ≡ true
    → Rests k u p
Step-Rests {o} k u (created j v absent n) at terminal = elim (Bool-cases (j == k)) [
  | inl same ↦
      let clash : none ≡ some u =
        sym absent ∙ ap (λ x. Dict.get x o.units) ((eq_iff j k).0 same) ∙ at in
      absurd (cc)
  | inr other ↦ record { unit = u; at = rw (get-put, other) at; state = refl; transitions = refl }
]
Step-Rests {o} k u (moved j v t c there lawful fresh) at terminal =
    Rests-store k j u v _ o at there λ same.
      let live = lawful.live in absurd (cc (ap (λ (x : WorkUnit). is_terminal x.state) same))
Step-Rests {o} k u (noted j v w there s) at terminal = Rests-store k j u v w o at there λ same. (
  s.state ∙ ap (λ (x : WorkUnit). x.state) same,
  s.transitions ∙ ap (λ (x : WorkUnit). x.transitions) same,
)
Step-Rests {o} k u (started j v run there r kind serial) at terminal =
    Rests-store k j u v _ o at there λ same.
      let (s, t) = with_run_rests o.max_repair_cycles v run (rw same terminal) kind in
      (s ∙ ap (λ (x : WorkUnit). x.state) same, t ∙ ap (λ (x : WorkUnit). x.transitions) same)
Step-Rests {o} k u (finished j v f i run runs there r e) at terminal =
    Rests-store k j u v _ o at there
      λ same. (ap (λ (x : WorkUnit). x.state) same, ap (λ (x : WorkUnit). x.transitions) same)

Reach-Rests :
    {o p : Orchestrator} (k : String) (u : WorkUnit)
    → Reach o p
    → Dict.get k o.units ≡ some u
    → is_terminal u.state ≡ true
    → Rests k u p
Reach-Rests k u here at terminal = record { unit = u; at = at; state = refl; transitions = refl }
Reach-Rests k u (next r s) at terminal =
    let before = Reach-Rests k u r at terminal in
    let after = Step-Rests k before.unit s before.at (rw before.state terminal) in
    record {
      unit = after.unit;
      at = after.at;
      state = after.state ∙ before.state;
      transitions = after.transitions ∙ before.transitions;
    }

-- A unit in a terminal state keeps its state and its transition records through any history of calls.
pub terminal-Rests :
    (o : Orchestrator) (ops : List Op) (k : String) (u : WorkUnit)
    → Dict.get k o.units ≡ some u
    → is_terminal u.state ≡ true
    → Rests k u (run_ops o ops)
terminal-Rests o ops k u at terminal = Reach-Rests k u (run_ops-Reach o ops) at terminal
