-- ===== src/WorkGraph/Collected.antt =====
-- What the loops of `validate_graph` (src/agentic_sdlc/work_graph.py) over the units have tested.
use agentic_sdlc.Base.{
  String, ◌≡◌, refl, sym, subst, ◌∙◌, ap, Bool, true, false, not, List, [], ◌∷◌, ◌++◌, map, Result,
  ok, on_ok, on_ok-ok, All, keep, member, is_empty, given, has_text, leb, ◌==◌, eq_iff, arith,
  Bool-cases, inl, inr, is_empty-sorted, append_nil, append_assoc,
}
use agentic_sdlc.Base.Dict
use agentic_sdlc.Base.Dict.{Dict}
use agentic_sdlc.MergeEvidence.{to_set}
use agentic_sdlc.Policy.Paths.{matches}
use agentic_sdlc.WorkGraph.Spec.{WorkUnitSpec}
use agentic_sdlc.WorkGraph.Toposort.Members.{member-to_set}
use agentic_sdlc.WorkGraph.Validation.{
  Done, demand, is_unit_id, check_spec, collect, each, missing_dependencies, check_known,
  check_writes,
}

pub demand-true : (b : Bool) (message : String) → demand b message ≡ ok tt → b ≡ true
unfolding demand
demand-true true message h = refl
demand-true false message h = cc

pub demand_then {ℓ} :
    {B : Type ℓ} (t : Bool) (message : String) (f : Unit → Result B) (b : B)
    → on_ok (demand t message) f ≡ ok b
    → (t ≡ true) × (f tt ≡ ok b)
unfolding on_ok demand
demand_then true message f b h = (refl, h)
demand_then false message f b h = cc

-- What the first loop asks of one unit.
pub record IsWellFormed (spec : WorkUnitSpec) : Type 0 where
  pub id : is_unit_id spec.unit_id ≡ true
  pub mission : given spec.mission_id ≡ true
  pub version : given spec.mission_version ≡ true
  pub artifact : has_text spec.output_artifact ≡ true
  pub tokens : leb 1 spec.max_tokens ≡ true
  pub timeout : leb 1 spec.timeout_seconds ≡ true

check_spec-IsWellFormed :
    (units : Dict WorkUnitSpec) (spec : WorkUnitSpec)
    → check_spec units spec ≡ ok tt
    → IsWellFormed spec × (member spec.unit_id (Dict.keys units) ≡ false)
unfolding check_spec
check_spec-IsWellFormed units spec h =
    let (id, h1) = demand_then _ _ _ _ h in
    let (new, h2) = demand_then _ _ _ _ h1 in
    let (both, h3) = demand_then _ _ _ _ h2 in
    let (artifact, h4) = demand_then _ _ _ _ h3 in
    let limits = demand-true _ _ h4 in
    (
      record {
        id = id;
        mission = ground arith;
        version = ground arith;
        artifact = artifact;
        tokens = ground arith;
        timeout = ground arith;
      },
      ground arith,
    )

abbrev pub entry : WorkUnitSpec → String × WorkUnitSpec
entry spec = (spec.unit_id, spec)

-- The units that are collected are those that are given, under their ids and with none twice.
pub collect-All :
    (specs : List WorkUnitSpec) (units out : Dict WorkUnitSpec)
    → Dict.Unique units
    → collect specs units ≡ ok out
    → (units ++ map entry specs ≡ out) × Dict.Unique out × All IsWellFormed specs
unfolding collect
collect-All [] units out u h =
    let same : units ≡ out = cc in (append_nil units ∙ same, subst Dict.Unique same u, tt)
collect-All (spec ∷ specs) units out u h =
    let (_, tested, rest) = on_ok-ok (check_spec units spec) _ out h in
    let (fine, new) = check_spec-IsWellFormed units spec tested in
    let (same, unique, all_fine) =
      collect-All specs (Dict.put spec.unit_id spec units) out
        (Dict.Unique-put spec.unit_id spec units u) rest in
    (
      sym (
            ap (λ d. d ++ map entry specs) (Dict.put_new spec.unit_id spec units new)
            ∙ append_assoc units (entry spec) (map entry specs))
          ∙ same,
      unique,
      (fine, all_fine),
    )

pub each-All :
    (check : WorkUnitSpec → Done) (P : WorkUnitSpec → Type 0)
    → ((spec : WorkUnitSpec) → check spec ≡ ok tt → P spec)
    → (specs : List WorkUnitSpec) → each check specs ≡ ok tt
    → All P specs
unfolding each
each-All check P f [] h = tt
each-All check P f (spec ∷ specs) h =
    let (_, tested, rest) = on_ok-ok (check spec) _ tt h in
    (f spec tested, each-All check P f specs rest)

pub none_kept :
    (d : String) (p : String → Bool) (xs : List String)
    → is_empty (keep p xs) ≡ true
    → member d xs ≡ true
    → p d ≡ false
none_kept d p [] e m = cc
none_kept d p (x ∷ xs) e m = elim (Bool-cases (p x)) [
  | inl hit ↦ absurd (let e' = rw hit at e in cc)
  | inr miss ↦ elim (Bool-cases (x == d)) [
    | inl same ↦ ap p (sym ((eq_iff x d).0 same)) ∙ miss
    | inr other ↦ none_kept d p xs (rw miss at e) (ground arith)
  ]
]

pub check_known-known :
    (units : Dict WorkUnitSpec) (spec : WorkUnitSpec)
    → check_known units spec ≡ ok tt
    → (d : String) → member d spec.depends_on ≡ true
    → member d (Dict.keys units) ≡ true
unfolding check_known missing_dependencies
check_known-known units spec h d m =
    let (no_missing, _) = demand_then _ _ _ _ h in
    let kept =
      none_kept d (λ x. not (member x (Dict.keys units))) (to_set spec.depends_on)
        (is_empty-sorted _ no_missing) (member-to_set d spec.depends_on ∙ m) in
    ground arith

pub check_writes-All :
    (forbidden : List String) (unit_id : String) (ps : List String)
    → check_writes forbidden unit_id ps ≡ ok tt
    → All (λ p. matches p forbidden ≡ false) ps
unfolding check_writes
check_writes-All forbidden unit_id [] h = tt
check_writes-All forbidden unit_id (p ∷ ps) h =
    let (fine, rest) = demand_then _ _ _ _ h in
    (ground arith, check_writes-All forbidden unit_id ps rest)
