-- ===== src/WorkGraph/Ancestry.antt =====
-- `_ancestors` of src/agentic_sdlc/work_graph.py gives each unit of a topological order the units above it.
use agentic_sdlc.Base.{
  String, ◌≡◌, refl, ◌∙◌, ◌↔◌, ◌⊎◌, subst, inl, inr, true, ◌||◌, Option, none, some, ok, on_ok,
  ◌++◌, List, [], ◌∷◌, member, ◌==◌, eq_iff, arith, sym, eq_refl, Bool-cases,
}
use agentic_sdlc.Base.Dict
use agentic_sdlc.Base.Dict.{Dict}
use agentic_sdlc.WorkGraph.Spec.{WorkUnitSpec, ancestors_at}
use agentic_sdlc.WorkGraph.Toposort.{needs, unit_at, merge_ancestors, ancestors_loop}
use agentic_sdlc.WorkGraph.Toposort.Members.{member-append}
use agentic_sdlc.WorkGraph.Toposort.Rounds.{Within}
use agentic_sdlc.WorkGraph.Toposort.Order.{Ordered}

-- `Above N u a`: `u` needs `a`, or needs a unit that `a` is above.
pub data Above (N : String → List String) : String → String → Type 0 where
  near : {u a : String} → member a (N u) ≡ true → Above N u a
  far : {u d a : String} → member d (N u) ≡ true → Above N d a → Above N u a

-- the ancestors of a unit, or none
abbrev pub known_ancestors : Option (List String) → List String
known_ancestors none = []
known_ancestors (some above) = above

-- What the loops compute when every key is there.
unfoldable pub all_merged : Dict (List String) → List String → List String
all_merged ancestors [] = []
all_merged ancestors (d ∷ ds) =
    d ∷ known_ancestors (Dict.get d ancestors) ++ all_merged ancestors ds

unfoldable pub all_ancestors :
    Dict WorkUnitSpec → List String → Dict (List String) → Dict (List String)
all_ancestors units [] ancestors = ancestors
all_ancestors units (u ∷ us) ancestors =
    all_ancestors units us (Dict.put u (all_merged ancestors (needs units u)) ancestors)

-- the ancestors that are known of a unit
abbrev pub above_of : Dict (List String) → String → List String
above_of ancestors u = known_ancestors (Dict.get u ancestors)

module _ (N : String → List String) where
  -- The dictionary has for these units all that is above them, and nothing else.
  abbrev pub Complete : Dict (List String) → List String → Type 0
  Complete ancestors seen =
      (u : String)
      → member u seen ≡ true
      → (a : String) → (member a (above_of ancestors u) ≡ true) ↔ Above N u a

  merged_Above :
      (ancestors : Dict (List String)) (seen : List String) (u : String)
      → Complete ancestors seen
      → (ds : List String) → ((d : String) → member d ds ≡ true → member d (N u) ≡ true)
      → ((d : String) → member d ds ≡ true → member d seen ≡ true)
      → (a : String) → member a (all_merged ancestors ds) ≡ true
      → Above N u a
  unfolding all_merged
  merged_Above ancestors seen u c [] inside known a m = cc
  merged_Above ancestors seen u c (d ∷ ds) inside known a m = elim (Bool-cases (d == a)) [
    | inl same ↦ near (inside a (ground arith))
    | inr other ↦ elim (Bool-cases (member a (above_of ancestors d))) [
      | inl up ↦
          far (inside d (ground (arith, eq_iff d d)))
            ((c d (known d (ground (arith, eq_iff d d))) a).0 up)
      | inr away ↦
          merged_Above ancestors seen u c ds (λ x x_in. inside x (ground arith))
            (λ x x_in. known x (ground arith)) a
            (ground (arith, member-append a (above_of ancestors d) (all_merged ancestors ds)))
    ]
  ]

  merge-near :
      (ancestors : Dict (List String)) (ds : List String) (a : String)
      → member a ds ≡ true
      → member a (all_merged ancestors ds) ≡ true
  unfolding all_merged
  merge-near ancestors [] a m = cc
  merge-near ancestors (d ∷ ds) a m = elim (Bool-cases (d == a)) [
    | inl same ↦ ground arith
    | inr other ↦
        let later = merge-near ancestors ds a (ground arith) in
        ground (arith, member-append a (above_of ancestors d) (all_merged ancestors ds))
  ]

  merge-far :
      (ancestors : Dict (List String)) (ds : List String) (d a : String)
      → member d ds ≡ true
      → member a (above_of ancestors d) ≡ true
      → member a (all_merged ancestors ds) ≡ true
  unfolding all_merged
  merge-far ancestors [] d a m up = cc
  merge-far ancestors (e ∷ ds) d a m up = elim (Bool-cases (e == d)) [
    | inl same ↦
        let here =
          subst (λ x. member a (above_of ancestors x) ≡ true) (sym ((eq_iff e d).0 same)) up in
        ground (arith, member-append a (above_of ancestors e) (all_merged ancestors ds))
    | inr other ↦
        let later = merge-far ancestors ds d a (ground arith) up in
        ground (arith, member-append a (above_of ancestors e) (all_merged ancestors ds))
  ]

  Above-merged :
      (ancestors : Dict (List String)) (seen : List String) (u : String)
      → Complete ancestors seen
      → Within N seen u
      → (a : String) → Above N u a
      → member a (all_merged ancestors (N u)) ≡ true
  Above-merged ancestors seen u c within a (near m) = merge-near ancestors (N u) a m
  Above-merged ancestors seen u c within a (far {d = d} m up) =
      merge-far ancestors (N u) d a m ((c d (within d m) a).1 up)

  put-Complete :
      (ancestors : Dict (List String)) (seen : List String) (u : String)
      → Complete ancestors seen
      → Within N seen u
      → Complete (Dict.put u (all_merged ancestors (N u)) ancestors) (u ∷ seen)
  put-Complete ancestors seen u c within w m a = elim (Bool-cases (u == w)) [
    | inl same ↦
        subst
          (λ x.
            (member a (above_of (Dict.put u (all_merged ancestors (N u)) ancestors) x) ≡ true)
            ↔ Above N x a)
          ((eq_iff u w).0 same)
          (rw (Dict.get-put u u (all_merged ancestors (N u)) ancestors) (
            rw eq_refl (
              (λ h. merged_Above ancestors seen u c (N u) (λ d d_in. d_in) within a h),
              (λ h. Above-merged ancestors seen u c within a h),
            )))
    | inr other ↦
        rw (Dict.get-put u w (all_merged ancestors (N u)) ancestors)
          (rw other (c w (ground arith) a))
  ]

pub loop-Complete :
    (units : Dict WorkUnitSpec) (order seen : List String) (ancestors : Dict (List String))
    → Ordered (needs units) seen order
    → Complete (needs units) ancestors seen
    → (u : String) → (member u seen || member u order) ≡ true
    → (a : String)
    → (member a (above_of (all_ancestors units order ancestors) u) ≡ true) ↔ Above (needs units) u a
unfolding all_ancestors
loop-Complete units [] seen ancestors o c u m a = c u (ground arith) a
loop-Complete units (v ∷ vs) seen ancestors o c u m a =
    loop-Complete units vs (v ∷ seen) (Dict.put v (all_merged ancestors (needs units v)) ancestors)
      o.1 (put-Complete (needs units) ancestors seen v c o.0) u (ground arith) a

-- The dictionary has the key.
abbrev pub Has {ℓ} : {V : Type ℓ} → Dict V → String → Type ℓ
Has {V = V} d k = (v : V) × (Dict.get k d ≡ some v)

put-Has {ℓ} :
    {V : Type ℓ} (d : Dict V) (k j : String) (v : V) → (Has d j ⊎ (k ≡ j)) → Has (Dict.put k v d) j
put-Has d k j v h = elim (Bool-cases (k == j)) [
  | inl same ↦ (v, Dict.get-put k j v d ∙ rw same refl)
  | inr other ↦ elim h [
    | inl (w, at) ↦ (w, Dict.get-put k j v d ∙ rw other at)
    | inr equal ↦ absurd (let yes' = (eq_iff k j).1 equal in cc)
  ]
]

pub ancestors_at-eq :
    (ancestors : Dict (List String)) (u : String) (above : List String)
    → Dict.get u ancestors ≡ some above
    → ancestors_at ancestors u ≡ ok above
unfolding ancestors_at
ancestors_at-eq ancestors u above at = rw (ancestors_at, at) refl

pub unit_at-eq :
    (units : Dict WorkUnitSpec) (u : String) (spec : WorkUnitSpec)
    → Dict.get u units ≡ some spec
    → unit_at units u ≡ ok spec
unfolding unit_at
unit_at-eq units u spec at = rw (unit_at, at) refl

needs-eq :
    (units : Dict WorkUnitSpec) (u : String) (spec : WorkUnitSpec)
    → Dict.get u units ≡ some spec
    → needs units u ≡ spec.depends_on
unfolding needs
needs-eq units u spec at = rw at refl

-- The inner loop over dependencies that all have their ancestors returns them and all above them.
merge_ancestors-returns :
    (ancestors : Dict (List String)) (ds : List String)
    → ((d : String) → member d ds ≡ true → Has ancestors d)
    → merge_ancestors ancestors ds ≡ ok (all_merged ancestors ds)
unfolding merge_ancestors all_merged on_ok
merge_ancestors-returns ancestors [] h = refl
merge_ancestors-returns ancestors (d ∷ ds) h =
    let (above, at) = h d (ground (arith, eq_iff d d)) in
    let rest = merge_ancestors-returns ancestors ds λ x m. h x (ground arith) in
    rw (ancestors_at-eq ancestors d above at, at, rest) refl

-- The loop over a topological order returns: every unit is found, and every dependency has its
-- ancestors by then; and each unit of the order has ancestors in the end.
pub ancestors_loop-returns :
    (units : Dict WorkUnitSpec) (order seen : List String) (ancestors : Dict (List String))
    → Ordered (needs units) seen order
    → ((u : String) → member u order ≡ true → Has units u)
    → ((u : String) → member u seen ≡ true → Has ancestors u)
    → (ancestors_loop units order ancestors ≡ ok (all_ancestors units order ancestors))
      × ((u : String)
          → (member u seen || member u order) ≡ true
          → Has (all_ancestors units order ancestors) u)
unfolding ancestors_loop all_ancestors on_ok
ancestors_loop-returns units [] seen ancestors o there known = (refl, λ u m. known u (ground arith))
ancestors_loop-returns units (v ∷ vs) seen ancestors o there known =
    let (spec, at) = there v (ground (arith, eq_iff v v)) in
    let deps = needs-eq units v spec at in
    let merged : merge_ancestors ancestors spec.depends_on
        ≡ ok (all_merged ancestors (needs units v)) =
      subst (λ ds. merge_ancestors ancestors ds ≡ ok (all_merged ancestors (needs units v))) deps
        (merge_ancestors-returns ancestors (needs units v) λ d m. known d (o.0 d m)) in
    let (rest, all_there) =
      ancestors_loop-returns units vs (v ∷ seen)
        (Dict.put v (all_merged ancestors (needs units v)) ancestors) o.1
        (λ u m. there u (ground arith))
        (λ u m.
          put-Has ancestors v u (all_merged ancestors (needs units v)) (elim (Bool-cases (v == u)) [
            | inl same ↦ inr ((eq_iff v u).0 same)
            | inr other ↦ inl (known u (ground arith))
          ])) in
    (rw (unit_at-eq units v spec at, merged) rest, λ u m. all_there u (ground arith))
