-- ===== src/AdaptiveScheduler/Starting.antt =====
-- What a call of `start` does to the statuses, and what `ready` gives (src/agentic_sdlc/work_graph.py).
use agentic_sdlc.Base.{
  ℕ, String, Bool, sym, true, false, member, arith, eq_iff, after, if◌then◌else◌, ◌≡◌, refl, ap,
  ◌∙◌, subst, inl, inr, some, List, [], ◌∷◌, Exec, Result, ok, err, Error, and_then, Bool-cases,
  Result-cases, ◌==◌, eq_refl,
}
use agentic_sdlc.Base.Dict
use agentic_sdlc.Base.Dict.{get-put}
use agentic_sdlc.WorkGraph.Lookups.{status_at-get}
use agentic_sdlc.WorkGraph.Spec.{get}
use agentic_sdlc.WorkGraph.Leases.{acquire}
use agentic_sdlc.WorkGraph.Executor.{
  Status, completed, failed, blocked, Executor, running, pending, is_pending, is_ready, sift,
  status_at,
}
use agentic_sdlc.WorkGraph.Operations.{
  start, acquire_all, begin_unit, resources, require_pending, on_leases,
}
use agentic_sdlc.WorkGraph.Limits.{check_start_cases}

acquire_all-status :
    (rs : List String) (u : String) (now ttl : ℕ) (x : Executor)
    → (acquire_all rs u now ttl x).1.status ≡ x.status
unfolding acquire_all
acquire_all-status [] u now ttl x = refl
acquire_all-status (r ∷ rs) u now ttl x =
    leases_then (λ y. acquire_all-status rs u now ttl y) (on_leases (acquire r u now ttl) x) refl
  where
    leases_then :
        ((y : Executor) → (acquire_all rs u now ttl y).1.status ≡ y.status)
        → (m : Result (Unit {0}) × Executor) → m.1.status ≡ x.status
        → (and_then m (λ _. acquire_all rs u now ttl)).1.status ≡ x.status
    leases_then later (ok _, y) h = later y ∙ h
    leases_then later (err e, y) h = h

-- What a call of `start` does to the statuses: it writes `running` for its unit when it returns, and
-- nothing when it raises.
record StartsOnly (u : String) (x : Executor) (m : Result String × Executor) : Type 0 where
  returned : (w : String) → m.0 ≡ ok w → m.1.status ≡ Dict.put u running x.status
  raised : (e : Error) → m.0 ≡ err e → m.1.status ≡ x.status

StartsOnly-then :
    {A : Type 0} (u : String) (x : Executor) (m : Result A × Executor)
    (f : A → Exec Executor String)
    → m.1.status ≡ x.status
    → ((a : A) → m.0 ≡ ok a → StartsOnly u x (f a m.1))
    → StartsOnly u x (and_then m f)
StartsOnly-then u x (ok a, y) f h k = k a refl
StartsOnly-then u x (err e, y) f h k = record { returned = λ w p. cc; raised = λ e' p. h }

start-StartsOnly : (u a : String) (now : ℕ) (x : Executor) → StartsOnly u x (start u a now x)
unfolding start begin_unit
start-StartsOnly u a now x =
    StartsOnly-then u x (get x.graph u, x) _ refl
      λ spec _.
        StartsOnly-then u x (status_at x u, x) _ refl
          λ s _.
            StartsOnly-then u x (require_pending u s, x) _ refl
              λ _ _. elim (check_start_cases x x spec u) [
                | inr (e, refused) ↦
                    rw refused (record { returned = λ w p. cc; raised = λ e' p. refl })
                | inl (checked, _, _) ↦ rw checked (
                    let held = acquire_all-status (resources spec) u now spec.timeout_seconds x in
                    StartsOnly-then u x (acquire_all (resources spec) u now spec.timeout_seconds x)
                      _ held
                      λ _ _. record {
                        returned = λ w p. ap (Dict.put u running) held;
                        raised = λ e p. cc;
                      })
              ]

-- the unit runs
pub Runs : String → Executor → Type 0
Runs v x = Dict.get v x.status ≡ some running

-- the unit is pending
pub Pends : String → Executor → Type 0
Pends v x = Dict.get v x.status ≡ some pending

pub start-Runs : (v u a : String) (now : ℕ) (y : Executor) → Runs v y → Runs v (start u a now y).1
unfolding Runs
start-Runs v u a now y h = elim (Result-cases (start u a now y).0) [
  | inr (e, refused) ↦ rw ((start-StartsOnly u a now y).raised e refused) h
  | inl (w, done) ↦ rw ((start-StartsOnly u a now y).returned w done) (elim (Bool-cases (u == v)) [
    | inl same ↦ rw (get-put, same) refl
    | inr other ↦ rw (get-put, other) h
  ])
]

-- The start of another unit leaves a unit pending.
pub start-Pends :
    (v u a : String) (now : ℕ) (y : Executor)
    → (u == v) ≡ false
    → Pends v y
    → Pends v (start u a now y).1
unfolding Pends
start-Pends v u a now y other h = elim (Result-cases (start u a now y).0) [
  | inr (e, refused) ↦ rw ((start-StartsOnly u a now y).raised e refused) h
  | inl (w, done) ↦ rw ((start-StartsOnly u a now y).returned w done) (rw (get-put, other) h)
]

pub refused-Pends :
    (u a : String) (now : ℕ) (y : Executor) (e : Error)
    → (start u a now y).0 ≡ err e
    → Pends u y
    → Pends u (start u a now y).1
unfolding Pends
refused-Pends u a now y e refused h = rw ((start-StartsOnly u a now y).raised e refused) h

pub begun-Runs :
    (u a w : String) (now : ℕ) (x : Executor)
    → (start u a now x).0 ≡ ok w
    → Runs u (start u a now x).1
unfolding Runs
begun-Runs u a w now x done =
    rw ((start-StartsOnly u a now x).returned w done) (rw (get-put, eq_refl) refl)

-- No unit is in the list twice.
abbrev pub Distinct : List String → Type 0
Distinct [] = Unit
Distinct (u ∷ us) = (member u us ≡ false) × Distinct us

-- A list that a test took from another: nothing is in it twice, and all of it is there and passed.
abbrev pub Taken : (String → Result Bool) → List String → List String → Type 0
Taken test us vs =
    Distinct vs × ((u : String) → member u vs ≡ true → (member u us ≡ true) × (test u ≡ ok true))

not-Taken :
    (test : String → Result Bool) (us vs : List String) (u : String)
    → Taken test us vs
    → member u us ≡ false
    → member u vs ≡ false
not-Taken test us vs u (fine, from) away = elim (Bool-cases (member u vs)) [
  | inr out ↦ out
  | inl inside ↦ absurd (let there = (from u inside).0 in cc)
]

Taken-step :
    (test : String → Result Bool) (u : String) (us vs : List String) (hit : Bool)
    → member u us ≡ false
    → test u ≡ ok hit
    → Taken test us vs
    → Taken test (u ∷ us) (if hit then u ∷ vs else vs)
Taken-step test u us vs true away passed taken = (
  (not-Taken test us vs u taken away, taken.0),
  λ w m. elim (Bool-cases (u == w)) [
    | inl same ↦ (ground arith, sym (ap test ((eq_iff u w).0 same)) ∙ passed)
    | inr other ↦ let (there, took) = taken.1 w (ground arith) in (ground arith, took)
  ],
)
Taken-step test u us vs false away passed taken =
    (taken.0, λ w m. let (there, took) = taken.1 w m in (ground arith, took))

pub sift-Taken :
    (test : String → Result Bool) (us vs : List String)
    → Distinct us
    → sift test us ≡ ok vs
    → Taken test us vs
unfolding sift
sift-Taken test [] vs apart h =
    let none_made : [] ≡ vs = cc in subst (Taken test []) none_made (tt, λ u m. absurd cc)
sift-Taken test (u ∷ us) vs apart h = after h λ hit tested h1. after h1 λ rest sifted h2.
    let same : (if hit then u ∷ rest else rest) ≡ vs = cc in
    subst (Taken test (u ∷ us)) same
      (Taken-step test u us rest hit apart.0 tested (sift-Taken test us rest apart.1 sifted))

is_pending-eq : (s : Status) → is_pending s ≡ true → s ≡ pending
is_pending-eq pending h = refl
is_pending-eq running h = absurd cc
is_pending-eq completed h = absurd cc
is_pending-eq failed h = absurd cc
is_pending-eq blocked h = absurd cc

-- A unit that is ready is pending.
pub ready-Pends : (x : Executor) (u : String) → is_ready x u ≡ ok true → Pends u x
unfolding is_ready Pends
ready-Pends x u h = after h λ s found rest. elim (Bool-cases (is_pending s)) [
  | inl waits ↦ status_at-get x u s found ∙ ap (λ r. some r) (is_pending-eq s waits)
  | inr other ↦ absurd (let rest' = rw other at rest in cc)
]
