-- ===== src/WorkGraph/Limits.antt =====
-- How many units run at once, in all and for each provider.
use agentic_sdlc.Base.{
  ℕ, suc, ◌≤◌, ◌<◌, String, ◌≡◌, refl, sym, ap, ◌∙◌, subst, ◌⊎◌, inl, inr, true, Option, none, some,
  List, [], ◌∷◌, Exec, Result, ok, err, Error, work_graph_error, ◌+++◌, arith, eq_iff, ◌==◌, length,
  keep, given, leb, Bool-cases, Result-cases, and_then,
}
use agentic_sdlc.Base.Dict
use agentic_sdlc.Base.Dict.{Dict}
use agentic_sdlc.WorkGraph.Spec.{WorkUnitSpec, WorkGraph, get}
use agentic_sdlc.WorkGraph.Operations.{
  check_start, acquire_all, begin_unit, start, active_of, resources, unmet, require_pending,
  require_attested, require_slot, require_provider, require_tokens,
}
use agentic_sdlc.WorkGraph.Executor.{running, Executor, status_at, running_units, provider_of}
use agentic_sdlc.WorkGraph.Calm.{tally-put, Calm, acquire_all-Calm}

-- The limits of the executor hold: of all the units, at most `max_parallel` run, and of a provider's, at
-- most the limit that it has.
pub record IsBounded (x : Executor) : Type 0 where
  pub slots : length (running_units x.status) ≤ x.max_parallel
  pub providers :
      (p : String) (limit : ℕ)
      → given p ≡ true
      → Dict.get p x.provider_limits ≡ some limit
      → length (active_of x p) ≤ limit

pub length-keep_all : (us : List String) → length (keep (λ _. true) us) ≡ length us
length-keep_all [] = refl
length-keep_all (u ∷ us) = ap suc (length-keep_all us)

-- a calm step keeps the bounds
pub Calm-IsBounded : {x y : Executor} → Calm x y → IsBounded x → IsBounded y
Calm-IsBounded {x} {y} c b = record {
  slots =
      let fewer =
        rw (length-keep_all (running_units y.status), length-keep_all (running_units x.status)) at
          (c.fewer (λ _. true)) in
      rw c.max (omega (arith, b.slots));
  providers = λ p limit has at.
      let limit_at = rw c.limits at at in
      let before = b.providers p limit has limit_at in
      rw c.graph (omega (arith, c.fewer (λ u. provider_of x.graph u == p)));
}

pub check_start_cases :
    (x y : Executor) (spec : WorkUnitSpec) (u : String)
    → ((check_start x spec u y ≡ (ok tt, y))
        × (require_slot x u ≡ ok tt)
        × (require_provider x spec.provider ≡ ok tt))
      ⊎ ((e : Error) × (check_start x spec u y ≡ (err e, y)))
unfolding check_start
check_start_cases x y spec u = elim (Result-cases (require_attested u (unmet x spec))) [
  | inr (e, h) ↦ rw h (inr (e, refl))
  | inl (tt, h) ↦ elim (Result-cases (require_slot x u)) [
    | inr (e, h') ↦ rw (h, h') (inr (e, refl))
    | inl (tt, slot) ↦ elim (Result-cases (require_provider x spec.provider)) [
      | inr (e, h') ↦ rw (h, slot, h') (inr (e, refl))
      | inl (tt, provider) ↦ elim (Result-cases (require_tokens x spec u)) [
        | inr (e, h') ↦ rw (h, slot, provider, h') (inr (e, refl))
        | inl (tt, tokens) ↦ inl (rw (h, slot, provider, tokens) refl, slot, provider)
      ]
    ]
  ]
]

slot_free :
    (x : Executor) (u : String)
    → require_slot x u ≡ ok tt
    → length (running_units x.status) < x.max_parallel
slot_free x u h = elim (Bool-cases (leb x.max_parallel (length (running_units x.status)))) [
  | inl full ↦ absurd (let h' = rw full at h in cc)
  | inr free ↦ ground arith
]

provider_free :
    (x : Executor) (p : String) (limit : ℕ)
    → require_provider x p ≡ ok tt
    → given p ≡ true
    → Dict.get p x.provider_limits ≡ some limit
    → length (active_of x p) < limit
provider_free x p limit h has at = elim (Bool-cases (leb limit (length (active_of x p)))) [
  | inl full ↦ absurd (let h' = rw (has, at, full) at h in cc)
  | inr free ↦ ground arith
]

provider_of-get :
    (g : WorkGraph) (u : String) (spec : WorkUnitSpec)
    → get g u ≡ ok spec
    → provider_of g u ≡ spec.provider
unfolding get provider_of
provider_of-get g u spec h = found (Dict.get u g.units) h
  where
    found :
        (o : Option WorkUnitSpec)
        → Path
            (Result WorkUnitSpec)
            (elim o [ none ↦ err (work_graph_error ("unknown work unit: " +++ u)) | some s ↦ ok s ])
            (ok spec)
        → elim o [ none ↦ "" | some s ↦ s.provider ] ≡ spec.provider
    found none h = cc
    found (some s) h = ap (λ r. elim r [ ok a ↦ a.provider | err _ ↦ spec.provider ]) h

begin_unit-IsBounded :
    (u a : String) (spec : WorkUnitSpec) (x : Executor)
    → get x.graph u ≡ ok spec
    → require_slot x u ≡ ok tt
    → require_provider x spec.provider ≡ ok tt
    → IsBounded x
    → (y : Executor) → Calm x y
    → IsBounded (begin_unit u a y)
unfolding begin_unit
begin_unit-IsBounded u a spec x at slot free b y c = record {
  slots =
      let more =
        rw
          (
            length-keep_all (running_units (Dict.put u running y.status)),
            length-keep_all (running_units y.status),
          )
          at (tally-put (λ _. true) u running y.status) in
      let fewer =
        rw (length-keep_all (running_units y.status), length-keep_all (running_units x.status)) at
          (c.fewer (λ _. true)) in
      rw c.max (omega (arith, more, fewer, slot_free x u slot));
  providers = λ p limit has limit_at.
      let limit_at' = rw c.limits at limit_at in
      let before = b.providers p limit has limit_at' in
      let more = tally-put (λ v. provider_of x.graph v == p) u running y.status in
      let fewer = c.fewer (λ v. provider_of x.graph v == p) in
      rw c.graph (elim (Bool-cases (provider_of x.graph u == p)) [
        | inl mine ↦
            let same =
              sym (provider_of-get x.graph u spec at) ∙ (eq_iff (provider_of x.graph u) p).0 mine in
            let free' = subst (λ q. require_provider x q ≡ ok tt) same free in
            let room = provider_free x p limit free' has limit_at' in
            let more' = rw mine at more in omega (arith, more', fewer, room)
        | inr other ↦ let more' = rw other at more in omega (arith, more', fewer, before)
      ]);
}

module _ (P : Executor → Type 0) {B : Type 0} (x : Executor) where
  -- A property of the state that a chain leaves, its first value come with the state unchanged.
  same_then :
      {A : Type 0} (r : Result A) (f : A → Exec Executor B)
      → P x
      → ((a : A) → r ≡ ok a → P (f a x).1)
      → P (and_then (r, x) f).1
  same_then (ok a) f h k = k a refl
  same_then (err e) f h k = h

  bind_then :
      {A : Type 0} (m : Result A × Executor) (f : A → Exec Executor B)
      → P m.1
      → ((a : A) → m.0 ≡ ok a → P (f a m.1).1)
      → P (and_then m f).1
  bind_then (ok a, y) f h k = k a refl
  bind_then (err e, y) f h k = h

pub start-IsBounded :
    (u a : String) (now : ℕ) (x : Executor) → IsBounded x → IsBounded (start u a now x).1
unfolding start
start-IsBounded u a now x b = same_then IsBounded x (get x.graph u) _ b λ spec at.
    same_then IsBounded x (status_at x u) _ b λ s _.
      same_then IsBounded x (require_pending u s) _ b λ _ _. elim (check_start_cases x x spec u) [
        | inr (e, refused) ↦ rw refused b
        | inl (passed, slot, free) ↦ rw passed (
            let taken = acquire_all-Calm (resources spec) u now spec.timeout_seconds x in
            bind_then IsBounded x (acquire_all (resources spec) u now spec.timeout_seconds x) _
              (Calm-IsBounded taken b)
              λ _ _. begin_unit-IsBounded u a spec x at slot free b _ taken)
      ]
