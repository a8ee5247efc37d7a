-- ===== src/WorkGraph/Sound.antt =====
-- What a graph that `validate_graph` (src/agentic_sdlc/work_graph.py) returns can be relied on for.
use agentic_sdlc.Base.{
  String, ◌≡◌, ◌≢◌, sym, subst, ap, ◌∙◌, ◌⊎◌, inl, inr, Bool, true, false, ◌||◌, none, some, List,
  [], ◌∷◌, ◌++◌, ok, on_ok-ok, after, any, member, is_empty, ◌==◌, eq_iff, arith, Bool-cases,
  Option-cases,
}
use agentic_sdlc.Base.Dict
use agentic_sdlc.Base.Dict.{Dict}
use agentic_sdlc.Glob.{fnmatch}
use agentic_sdlc.MergeEvidence.{to_set}
use agentic_sdlc.WorkGraph.Spec.{
  WorkUnitSpec, WorkGraph, ancestors_at, is_ancestor, ordered, read_only,
}
use agentic_sdlc.WorkGraph.Toposort.{unit_at}
use agentic_sdlc.WorkGraph.Toposort.Members.{member-to_set}
use agentic_sdlc.WorkGraph.Collected.{demand-true, demand_then, none_kept}
use agentic_sdlc.WorkGraph.Validation.{
  own_paths, own_all, patterns_overlap, shared_strategy, shared_of, check_unordered, check_pair,
  check_against, check_pairs,
}

abbrev touches : String → String → Bool
touches a b = a == b || (fnmatch a b || fnmatch b a)

-- Two units that may run at once. Either no write scope of one is, as a text, a write scope of the other,
-- and none matches as a pattern the text of one of the other's, or they share a composition that is not
-- the default; and where they share a resource both only read. What files the scopes have in common is
-- another matter: two patterns may match the same file, and neither the text of the other.
pub record Compatible (left right : WorkUnitSpec) : Type 0 where
  pub writes :
      ((a b : String)
        → member a left.write_paths ≡ true
        → member b right.write_paths ≡ true
        → touches a b ≡ false)
      ⊎ ((left.composition ≡ right.composition) × (left.composition ≢ "independent-merge"))
  pub resources :
      (r : String)
      → member r left.shared_resources ≡ true
      → member r right.shared_resources ≡ true
      → (read_only left ≡ true) × (read_only right ≡ true)

pub Compatible-swap : (left right : WorkUnitSpec) → Compatible left right → Compatible right left
Compatible-swap left right c = record {
  writes = elim c.writes [
    | inl apart ↦
        inl
          (λ a b a_in b_in. let far = apart b a b_in a_in in ground (arith, eq_iff a b, eq_iff b a))
    | inr (same, other) ↦ inr (sym same, λ default. other (same ∙ default))
  ];
  resources = λ r r_right r_left. let both = c.resources r r_left r_right in (both.1, both.0);
}

any-false :
    (p : String → Bool) (xs : List String) (x : String)
    → any p xs ≡ false
    → member x xs ≡ true
    → p x ≡ false
any-false p [] x h m = cc
any-false p (y ∷ ys) x h m = elim (Bool-cases (y == x)) [
  | inl same ↦ subst (λ z. p z ≡ false) ((eq_iff y x).0 same) (ground arith)
  | inr other ↦ any-false p ys x (ground arith) (ground arith)
]

check_unordered-Compatible :
    (left right : WorkUnitSpec) (left_id right_id : String)
    → check_unordered left right left_id right_id ≡ ok tt
    → Compatible left right
unfolding check_unordered patterns_overlap shared_strategy shared_of
check_unordered-Compatible left right left_id right_id h =
    let (apart, rest) = demand_then _ _ _ _ h in
    let read = demand-true _ _ rest in
    record {
      writes = elim (Bool-cases (patterns_overlap left.write_paths right.write_paths)) [
        | inr clear ↦ inl (λ a b a_in b_in.
            any-false (touches a) right.write_paths b
              (any-false (λ x. any (touches x) right.write_paths) left.write_paths a clear a_in)
              b_in)
        | inl overlap ↦ inr (
          (eq_iff _ _).0 (ground arith),
          λ default.
              let same = (eq_iff left.composition "independent-merge").1 default in ground arith,
        )
      ];
      resources = λ r r_left r_right. elim (Bool-cases (is_empty (shared_of left right))) [
        | inl none_shared ↦ absurd (
            let away =
              none_kept r (λ x. member x right.shared_resources) (to_set left.shared_resources)
                none_shared (member-to_set r left.shared_resources ∙ r_left) in
            cc)
        | inr some_shared ↦ (ground arith, ground arith)
      ];
    }

unit_at-get :
    (units : Dict WorkUnitSpec) (id : String) (spec : WorkUnitSpec)
    → unit_at units id ≡ ok spec
    → Dict.get id units ≡ some spec
unfolding unit_at
unit_at-get units id spec h = elim (Option-cases (Dict.get id units)) [
  | inl missing ↦ absurd (let h' = rw (unit_at, missing) at h in cc)
  | inr (found, at) ↦
      let h' = rw (unit_at, at) at h in let same : found ≡ spec = cc in at ∙ ap (λ s. some s) same
]

ancestors_at-get :
    (ancestors : Dict (List String)) (id : String) (above : List String)
    → ancestors_at ancestors id ≡ ok above
    → Dict.get id ancestors ≡ some above
unfolding ancestors_at
ancestors_at-get ancestors id above h = elim (Option-cases (Dict.get id ancestors)) [
  | inl missing ↦ absurd (let h' = rw (ancestors_at, missing) at h in cc)
  | inr (found, at) ↦
      let h' = rw (ancestors_at, at) at h in
      let same : found ≡ above = cc in at ∙ ap (λ s. some s) same
]

module _ (graph : WorkGraph) where
  -- `a` is among the ancestors that the graph keeps for `u`.
  abbrev pub Over : String → String → Type 0
  Over a u =
      (above : List String) × (Dict.get u graph.ancestors ≡ some above) × (member a above ≡ true)

  is_ancestor-Over : (a u : String) → is_ancestor graph a u ≡ ok true → Over a u
  unfolding is_ancestor
  is_ancestor-Over a u h =
      after h λ above at found. (above, ancestors_at-get graph.ancestors u above at, cc)

  ordered-Over : (u v : String) → ordered graph u v ≡ ok true → Over u v ⊎ Over v u
  unfolding ordered
  ordered-Over u v h = after h λ hit found rest. elim (Bool-cases hit) [
    | inl first ↦ inl (is_ancestor-Over u v (found ∙ ap ok first))
    | inr later ↦ inr (is_ancestor-Over v u (rw later at rest))
  ]

  -- Of these two one is above the other, or they are compatible.
  abbrev pub Settled : String → String → Type 0
  Settled u v =
      Over u v
      ⊎ Over v u
      ⊎ ((left : WorkUnitSpec) × (right : WorkUnitSpec) × (Dict.get u graph.units ≡ some left)
          × (Dict.get v graph.units ≡ some right)
          × Compatible left right)

  Settled-swap : (u v : String) → Settled u v → Settled v u
  Settled-swap u v (inl o) = inr (inl o)
  Settled-swap u v (inr (inl o)) = inl o
  Settled-swap u v (inr (inr (left, right, at_u, at_v, c))) =
      inr (inr (right, left, at_v, at_u, Compatible-swap left right c))

  -- a Boolean that an `ok` holds
  Settled-ordered :
      (u v : String) (hit : Bool)
      → ordered graph u v ≡ ok hit
      → (hit ≡ false → Settled u v)
      → Settled u v
  Settled-ordered u v hit found k = elim (Bool-cases hit) [
    | inr apart ↦ k apart
    | inl before ↦ elim (ordered-Over u v (found ∙ ap ok before)) [
      | inl o ↦ inl o
      | inr o ↦ inr (inl o)
    ]
  ]

  against-Settled :
      (left : WorkUnitSpec) (u : String) (us : List String)
      → Dict.get u graph.units ≡ some left
      → check_against graph left u us ≡ ok tt
      → (v : String) → member v us ≡ true
      → Settled u v
  unfolding check_against check_pair
  against-Settled left u [] at h v m = absurd cc
  against-Settled left u (w ∷ us) at h v m =
      let (_, first, rest) = on_ok-ok _ _ tt h in
      elim (Bool-cases (w == v)) [
        | inr other ↦ against-Settled left u us at rest v (ground arith)
        | inl same ↦
            let (right, found, tested) = on_ok-ok _ _ tt first in
            let (hit, asked, rest') = on_ok-ok _ _ tt tested in
            subst (Settled u) ((eq_iff w v).0 same) (
              Settled-ordered u w hit asked λ apart. inr (
                inr (
                  left,
                  right,
                  at,
                  unit_at-get graph.units w right found,
                  check_unordered-Compatible left right u w (rw apart at rest'),
                )))
      ]

  -- of two different units in the list one comes before the other
  pub pairs-Settled :
      (us : List String)
      → check_pairs graph us ≡ ok tt
      → (u v : String) → u ≢ v
      → member u us ≡ true
      → member v us ≡ true
      → Settled u v
  unfolding check_pairs
  pairs-Settled [] h u v differ u_in v_in = absurd cc
  pairs-Settled (w ∷ us) h u v differ u_in v_in =
      let (left, found, later) = on_ok-ok _ _ tt h in
      let (_, here, rest) = on_ok-ok _ _ tt later in
      let at = unit_at-get graph.units w left found in
      elim (Bool-cases (w == u)) [
        | inl is_u ↦
            subst (λ x. Settled x v) ((eq_iff w u).0 is_u)
              (against-Settled left w us at here v
                (ground (arith, eq_iff w u, eq_iff w v, eq_iff u v)))
        | inr not_u ↦ elim (Bool-cases (w == v)) [
          | inl is_v ↦
              subst (Settled u) ((eq_iff w v).0 is_v)
                (Settled-swap w u (against-Settled left w us at here u (ground arith)))
          | inr not_v ↦ pairs-Settled us rest u v differ (ground arith) (ground arith)
        ]
      ]

-- The paths that the units own, each with its unit.
unfoldable pub owned : List WorkUnitSpec → List String
owned [] = []
owned (spec ∷ specs) = spec.owned_paths ++ owned specs

-- No text twice, and none of them among the seen.
abbrev pub Fresh : List String → List String → Type 0
Fresh seen [] = Unit
Fresh seen (x ∷ xs) = (member x seen ≡ false) × Fresh (x ∷ seen) xs

own_paths-Fresh :
    (unit_id : String) (paths more : List String) (owners out : Dict String) (seen : List String)
    → ((k : String) → member k seen ≡ member k (Dict.keys owners))
    → own_paths unit_id paths owners ≡ ok out
    → ((seen' : List String)
        → ((k : String) → member k seen' ≡ member k (Dict.keys out))
        → Fresh seen' more)
    → Fresh seen (paths ++ more)
unfolding own_paths
own_paths-Fresh unit_id [] more owners out seen same h next =
    let done : owners ≡ out = cc in
    next seen (subst (λ o. (k : String) → member k seen ≡ member k (Dict.keys o)) done same)
own_paths-Fresh unit_id (p ∷ ps) more owners out seen same h next =
    elim (Option-cases (Dict.get p owners)) [
      | inr (owner, taken) ↦ absurd (let h' = rw (own_paths, taken) at h in cc)
      | inl free ↦ (
        same p ∙ unknown p owners free,
        own_paths-Fresh unit_id ps more (Dict.put p unit_id owners) out (p ∷ seen)
            (λ k. ground (arith, same k, Dict.member-keys-put k p unit_id owners))
            (rw (own_paths, free) at h) next,
      )
    ]
  where
    unknown : (k : String) (d : Dict String) → Dict.get k d ≡ none → member k (Dict.keys d) ≡ false
    unknown k d none_there = elim (Dict.get_of_key k d) [
      | inl (there, (v, at)) ↦ absurd cc
      | inr (away, _) ↦ away
    ]

-- No two units own the same path, and no unit owns a path twice.
pub own_all-Fresh :
    (specs : List WorkUnitSpec) (owners out : Dict String) (seen : List String)
    → ((k : String) → member k seen ≡ member k (Dict.keys owners))
    → own_all specs owners ≡ ok out
    → Fresh seen (owned specs)
unfolding own_all owned
own_all-Fresh [] owners out seen same h = tt
own_all-Fresh (spec ∷ specs) owners out seen same h =
    let (between, first, rest) = on_ok-ok _ _ out h in
    own_paths-Fresh spec.unit_id spec.owned_paths (owned specs) owners between seen same first
      λ seen' same'. own_all-Fresh specs between out seen' same' rest
