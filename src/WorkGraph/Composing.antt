-- ===== src/WorkGraph/Composing.antt =====
-- What `compose` of src/agentic_sdlc/work_graph.py demands.
use agentic_sdlc.Base.{
  String, ◌≡◌, refl, ap, inl, inr, ◌↔◌, Bool, true, false, not, ◌&&◌, Option, none, some, List, [],
  ◌∷◌, Result, ok, on_ok, after, All, is_empty, Bool-cases,
}
use agentic_sdlc.Base.Dict
use agentic_sdlc.WorkGraph.Spec.{WorkUnitSpec, read_only}
use agentic_sdlc.WorkGraph.Lookups.{status_at-get, status_at-eq, spec_of-get, spec_of-eq}
use agentic_sdlc.WorkGraph.Executor.{
  Status, is_failed, is_blocked, Executor, sift, is_attested, holds,
}
use agentic_sdlc.WorkGraph.FanIn.{
  Composition, UnitReport, composition_of, compose, report, reports, has_status_in, units_in,
  is_unattested, unattested,
}

-- The unit has a status, which the test refuses.
abbrev pub Lacks : (Status → Bool) → Executor → String → Type 0
Lacks p x u = (s : Status) × (Dict.get u x.status ≡ some s) × (p s ≡ false)

-- The unit has a spec, and it is attested if it writes.
abbrev pub Backed : Executor → String → Type 0
Backed x u =
    (s : WorkUnitSpec) × (Dict.get u x.graph.units ≡ some s)
    × ((not (read_only s) && not (is_attested x u)) ≡ false)

-- Each unit of the order has a status, which is neither failed nor blocked, and a spec; each that writes is
-- attested; and the composed tree passed its verification.
pub record IsComposable (x : Executor) : Type 0 where
  pub none_failed : All (Lacks is_failed x) x.graph.order
  pub none_blocked : All (Lacks is_blocked x) x.graph.order
  pub all_attested : All (Backed x) x.graph.order
  pub tree_verified : x.final_verification ≡ some true

-- A test takes no unit exactly when it answers `false`, and does not raise, on each.
sift_none :
    (test : String → Result Bool) (Q : String → Type 0)
    → ((u : String) → (test u ≡ ok false) ↔ Q u)
    → (us : List String) → (sift test us ≡ ok []) ↔ All Q us
unfolding sift
sift_none test Q iff [] = ((λ _. tt), (λ _. refl))
sift_none test Q iff (u ∷ us) = (
  (λ h. after h λ hit tested h1. after h1 λ rest sifted h2. elim (Bool-cases hit) [
    | inl taken ↦ absurd (let h3 = rw taken at h2 in cc)
    | inr passed ↦
        let h3 = rw passed at h2 in
        (
          (iff u).0 (rw passed at tested),
          (sift_none test Q iff us).0 (let r : rest ≡ [] = cc in rw r at sifted),
        )
  ]),
  (λ (q, qs). rw ((iff u).1 q, (sift_none test Q iff us).1 qs) (unfold on_ok in refl)),
)

has_status_in_iff :
    (p : Status → Bool) (x : Executor) (u : String) → (has_status_in p x u ≡ ok false) ↔ Lacks p x u
unfolding has_status_in
has_status_in_iff p x u = (
  (λ h. after h λ s found passed. (s, status_at-get x u s found, cc)),
  (λ (s, at, lacks). rw (status_at-eq x u s at) (unfold on_ok in ap (λ t. ok t) lacks)),
)

is_unattested_iff : (x : Executor) (u : String) → (is_unattested x u ≡ ok false) ↔ Backed x u
unfolding is_unattested
is_unattested_iff x u = (
  (λ h. after h λ s found passed. (s, spec_of-get x.graph u s found, cc)),
  (λ (s, at, backed). rw (spec_of-eq x.graph u s at) (unfold on_ok in ap (λ t. ok t) backed)),
)

units_in_iff :
    (p : Status → Bool) (x : Executor) → (units_in p x ≡ ok []) ↔ All (Lacks p x) x.graph.order
unfolding units_in
units_in_iff p x = sift_none (has_status_in p x) (Lacks p x) (has_status_in_iff p x) x.graph.order

unattested_iff : (x : Executor) → (unattested x ≡ ok []) ↔ All (Backed x) x.graph.order
unfolding unattested
unattested_iff x = sift_none (is_unattested x) (Backed x) (is_unattested_iff x) x.graph.order

verified_iff : (v : Option Bool) → (holds v ≡ true) → v ≡ some true
verified_iff none h = cc
verified_iff (some true) h = refl
verified_iff (some false) h = cc

no_unit : (us : List String) (r : Result (List String)) → r ≡ ok us → is_empty us ≡ true → r ≡ ok []
no_unit [] r h e = h
no_unit (u ∷ us) r h e = absurd cc

report-returns :
    (x : Executor) (u : String) (s : Status) (spec : WorkUnitSpec)
    → Dict.get u x.status ≡ some s
    → Dict.get u x.graph.units ≡ some spec
    → (r : UnitReport) × (report x u ≡ ok r)
unfolding report
report-returns x u s spec at found =
    rw (spec_of-eq x.graph u spec found, status_at-eq x u s at) (unfold on_ok in (_, refl))

-- The report of units that have a status and a spec is made.
reports-returns :
    (p : Status → Bool) (x : Executor) (us : List String)
    → All (Lacks p x) us
    → All (Backed x) us
    → (rs : List UnitReport) × (reports x us ≡ ok rs)
unfolding reports on_ok
reports-returns p x [] h k = ([], refl)
reports-returns p x (u ∷ us) ((s, at, _), h) ((spec, found, _), k) =
    let (rs, done) = reports-returns p x us h k in
    let (r, made) = report-returns x u s spec at found in (r ∷ rs, rw (made, done) refl)

-- The path of `compose` that returns.
composed :
    (x : Executor) (rs : List UnitReport)
    → units_in is_failed x ≡ ok []
    → units_in is_blocked x ≡ ok []
    → unattested x ≡ ok []
    → holds x.final_verification ≡ true
    → reports x x.graph.order ≡ ok rs
    → compose x ≡ ok (composition_of x rs)
unfolding compose on_ok
composed x rs failures blocks missing verified made =
    rw (failures, blocks, missing, verified, made) refl

-- `compose` returns exactly when every unit of the order has a status, which is neither failed nor
-- blocked, and a spec, every one that writes is attested, and the composed tree has passed its
-- verification.
pub compose_iff : (x : Executor) → ((c : Composition) × (compose x ≡ ok c)) ↔ IsComposable x
unfolding compose
compose_iff x = (
  (λ (c, h). after h λ failures f h1. after h1 λ blocks b h2.
      elim (Bool-cases (is_empty failures)) [
        | inr some_failed ↦ absurd (let h3 = rw some_failed at h2 in cc)
        | inl no_failures ↦ elim (Bool-cases (is_empty blocks)) [
          | inr some_blocked ↦ absurd (let h3 = rw (no_failures, some_blocked) at h2 in cc)
          | inl no_blocks ↦ after (rw (no_failures, no_blocks) at h2) λ missing m h3.
              elim (Bool-cases (is_empty missing)) [
                | inr some_missing ↦ absurd (let h4 = rw some_missing at h3 in cc)
                | inl none_missing ↦ elim (Bool-cases (holds x.final_verification)) [
                  | inr unverified ↦ absurd (let h4 = rw (none_missing, unverified) at h3 in cc)
                  | inl verified ↦ record {
                    none_failed = (units_in_iff is_failed x).0 (no_unit failures _ f no_failures);
                    none_blocked = (units_in_iff is_blocked x).0 (no_unit blocks _ b no_blocks);
                    all_attested = (unattested_iff x).0 (no_unit missing _ m none_missing);
                    tree_verified = verified_iff x.final_verification verified;
                  }
                ]
              ]
        ]
      ]),
  (λ k.
      let (rs, made) = reports-returns is_failed x x.graph.order k.none_failed k.all_attested in
      (
        composition_of x rs,
        composed x rs ((units_in_iff is_failed x).1 k.none_failed)
            ((units_in_iff is_blocked x).1 k.none_blocked) ((unattested_iff x).1 k.all_attested)
            (ap holds k.tree_verified) made,
      )),
)
