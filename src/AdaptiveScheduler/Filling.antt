-- ===== src/AdaptiveScheduler/Filling.antt =====
-- What filling the slots keeps, and what it reports.
use agentic_sdlc.Base.Int.{ℤ, is_negative}
use agentic_sdlc.Base.{
  ℕ, String, ◌≡◌, true, member, arith, eq_iff, inl, inr, Option, List, [], ◌∷◌, Exec, Result, ok,
  err, work_graph_error, and_then, Bool-cases, Result-cases,
}
use agentic_sdlc.WorkGraph.Executor.{Executor, ready}
use agentic_sdlc.WorkGraph.Operations.{start, amount}
use agentic_sdlc.WorkGraph.Limits.{IsBounded, start-IsBounded}
use agentic_sdlc.AdaptiveScheduler.{
  SlotDecision, is_temporary, resolve_agent, decided, after_start, fill_units, fill_safe_slots,
  says, unless_full,
}

module _ (P : Executor → Type 0) where
  decided_keeps :
      (d : SlotDecision) (rest : Exec Executor (List SlotDecision)) (x : Executor)
      → P (rest x).1
      → P (decided d rest x).1
  decided_keeps d rest x h = go (rest x) h
    where
      go :
          (m : Result (List SlotDecision) × Executor)
          → P m.1
          → P (and_then m (λ ds y. (ok (d ∷ ds), y))).1
      go (ok ds, y) h = h
      go (err e, y) h = h

  after_start_keeps :
      (u : String) (r : Result String) (rest : Exec Executor (List SlotDecision)) (x : Executor)
      → P x
      → P (rest x).1
      → P (after_start u r rest x).1
  after_start_keeps u (ok w) rest x h k = decided_keeps _ rest x k
  after_start_keeps u (err (work_graph_error m)) rest x h k = elim (Bool-cases (is_temporary m)) [
    | inr lasting ↦ rw lasting h
    | inl temporary ↦ rw temporary (
        decided_keeps _ (unless_full m rest) x (elim (Bool-cases (says "maximum parallelism" m)) [
          | inl full ↦ rw full h
          | inr room ↦ rw room k
        ]))
  ]
  after_start_keeps u (err _) rest x h k = h

  -- a property that every start of a unit of the list keeps is kept by the loop
  pub fill_keeps :
      (agent_for : String → Option String) (us : List String) (now : ℕ) (x : Executor)
      → ((u a : String) (y : Executor) → member u us ≡ true → P y → P (start u a now y).1)
      → P x
      → P (fill_units agent_for us now x).1
  unfolding fill_units
  fill_keeps agent_for [] now x step h = h
  fill_keeps agent_for (u ∷ us) now x step h = elim (Result-cases (resolve_agent u (agent_for u))) [
    | inr (e, missing) ↦ rw missing h
    | inl (a, found) ↦ rw found (
        let begun = step u a x (ground (arith, eq_iff u u)) h in
        after_start_keeps u (start u a now x).0 _ (start u a now x).1 begun (
          fill_keeps agent_for us now (start u a now x).1 (λ v b y m. step v b y (ground arith))
            begun))
  ]

-- Filling the slots of an executor within its limits leaves it within its limits, whether the call
-- returns or raises: at most `max_parallel` units run, and of a provider at most its limit.
pub fill_safe_slots-IsBounded :
    (agent_for : String → Option String) (now : ℤ) (x : Executor)
    → IsBounded x
    → IsBounded (fill_safe_slots agent_for now x).1
unfolding fill_safe_slots
fill_safe_slots-IsBounded agent_for now x b = elim (Bool-cases (is_negative now)) [
  | inl negative ↦ rw negative b
  | inr natural ↦ rw natural (elim (Result-cases (ready x)) [
    | inr (e, unknown) ↦ rw unknown b
    | inl (us, found) ↦ rw found (
        fill_keeps IsBounded agent_for us (amount now) x
          (λ u a y m. start-IsBounded u a (amount now) y) b)
  ])
]
