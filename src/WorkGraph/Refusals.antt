-- ===== src/WorkGraph/Refusals.antt =====
-- How `validate_graph` and `_toposort` (src/agentic_sdlc/work_graph.py) fail.
use agentic_sdlc.Base.{
  String, ◌≡◌, refl, sym, subst, ap, ◌∙◌, ◌⊎◌, inl, inr, Bool, true, false, List, [], ◌∷◌, Result,
  ok, err, on_ok, on_ok-ok, work_graph_error, work_graph_error, member, eq_iff, arith,
  if◌then◌else◌, Option-cases,
}
use agentic_sdlc.Base.Dict
use agentic_sdlc.Base.Dict.{Dict}
use agentic_sdlc.Policy.{ProjectPolicy}
use agentic_sdlc.WorkGraph.Spec.{WorkUnitSpec, WorkGraph, is_ancestor, ordered}
use agentic_sdlc.WorkGraph.Toposort.{needs, toposort, unit_at, ancestors_loop}
use agentic_sdlc.WorkGraph.Toposort.Order.{IsTopological, Knot}
use agentic_sdlc.WorkGraph.Toposort.Knots.{Closed, toposort_ends, no_Knot}
use agentic_sdlc.WorkGraph.Collected.{collect-All}
use agentic_sdlc.WorkGraph.Validated.{Closed-checked, same_order, units-Has, loop-returns}
use agentic_sdlc.WorkGraph.Ancestry.{Has, all_ancestors, ancestors_at-eq, unit_at-eq}
use agentic_sdlc.WorkGraph.Validation.{
  Done, demand, check_spec, collect, each, check_known, check_writes, own_paths, own_all,
  check_unordered, check_pair, check_against, check_pairs, ancestors_of, arrange, check_units,
  validate_graph, graph_of,
}

-- The call returns, or it raises a WorkGraphError.
abbrev pub Refusable {ℓ} : {A : Type ℓ} → Result A → Type ℓ
Refusable {A = A} r =
    ((a : A) × (r ≡ ok a)) ⊎ ((message : String) × (r ≡ err (work_graph_error message)))

on_ok-Refusable {ℓ κ} :
    {A : Type ℓ} {B : Type κ} (r : Result A) (f : A → Result B)
    → Refusable r
    → ((a : A) → r ≡ ok a → Refusable (f a))
    → Refusable (on_ok r f)
unfolding on_ok
on_ok-Refusable r f (inl (a, done)) h = subst (λ x. Refusable (on_ok x f)) (sym done) (h a done)
on_ok-Refusable r f (inr (m, bad)) h = inr (m, ap (λ x. on_ok x f) bad)

demand-Refusable : (t : Bool) (message : String) → Refusable (demand t message)
unfolding demand
demand-Refusable true message = inl (tt, refl)
demand-Refusable false message = inr (message, refl)

-- a test and what comes behind it
behind {ℓ} :
    {B : Type ℓ} (t : Bool) (message : String) (f : Unit → Result B)
    → Refusable (f tt)
    → Refusable (on_ok (demand t message) f)
behind t message f h = on_ok-Refusable (demand t message) f (demand-Refusable t message) λ _ _. h

check_spec-Refusable :
    (units : Dict WorkUnitSpec) (spec : WorkUnitSpec) → Refusable (check_spec units spec)
unfolding check_spec
check_spec-Refusable units spec =
    behind _ _ _ (behind _ _ _ (behind _ _ _ (behind _ _ _ (demand-Refusable _ _))))

collect-Refusable :
    (specs : List WorkUnitSpec) (units : Dict WorkUnitSpec) → Refusable (collect specs units)
unfolding collect
collect-Refusable [] units = inl (units, refl)
collect-Refusable (spec ∷ specs) units =
    on_ok-Refusable _ _ (check_spec-Refusable units spec)
      λ _ _. collect-Refusable specs (Dict.put spec.unit_id spec units)

each-Refusable :
    (check : WorkUnitSpec → Done)
    → ((spec : WorkUnitSpec) → Refusable (check spec))
    → (specs : List WorkUnitSpec) → Refusable (each check specs)
unfolding each
each-Refusable check h [] = inl (tt, refl)
each-Refusable check h (spec ∷ specs) =
    on_ok-Refusable _ _ (h spec) λ _ _. each-Refusable check h specs

check_known-Refusable :
    (units : Dict WorkUnitSpec) (spec : WorkUnitSpec) → Refusable (check_known units spec)
unfolding check_known
check_known-Refusable units spec = behind _ _ _ (demand-Refusable _ _)

check_writes-Refusable :
    (forbidden : List String) (unit_id : String) (ps : List String)
    → Refusable (check_writes forbidden unit_id ps)
unfolding check_writes
check_writes-Refusable forbidden unit_id [] = inl (tt, refl)
check_writes-Refusable forbidden unit_id (p ∷ ps) =
    behind _ _ _ (check_writes-Refusable forbidden unit_id ps)

own_paths-Refusable :
    (unit_id : String) (paths : List String) (owners : Dict String)
    → Refusable (own_paths unit_id paths owners)
unfolding own_paths
own_paths-Refusable unit_id [] owners = inl (owners, refl)
own_paths-Refusable unit_id (p ∷ ps) owners = elim (Option-cases (Dict.get p owners)) [
  | inl free ↦ rw (own_paths, free) (own_paths-Refusable unit_id ps (Dict.put p unit_id owners))
  | inr (owner, taken) ↦ rw (own_paths, taken) (inr (_, refl))
]

own_all-Refusable :
    (specs : List WorkUnitSpec) (owners : Dict String) → Refusable (own_all specs owners)
unfolding own_all
own_all-Refusable [] owners = inl (owners, refl)
own_all-Refusable (spec ∷ specs) owners =
    on_ok-Refusable _ _ (own_paths-Refusable spec.unit_id spec.owned_paths owners)
      λ more _. own_all-Refusable specs more

check_units-Refusable :
    (units : Dict WorkUnitSpec) (forbidden : List String) → Refusable (check_units units forbidden)
unfolding check_units
check_units-Refusable units forbidden =
    on_ok-Refusable _ _ (each-Refusable _ (check_known-Refusable units) (Dict.values units)) λ _ _.
      on_ok-Refusable _ _
        (each-Refusable _ (λ spec. check_writes-Refusable forbidden spec.unit_id spec.write_paths)
          (Dict.values units))
        λ _ _. on_ok-Refusable _ _ (own_all-Refusable (Dict.values units) []) λ _ _. inl (tt, refl)

either {ℓ} :
    {A : Type ℓ} {r s : Result A} (t : Bool)
    → Refusable r
    → Refusable s
    → Refusable (if t then r else s)
either true h k = h
either false h k = k

module _ (g : WorkGraph) where
  -- The graph has a unit and ancestors under the id.
  abbrev Kept : String → Type 0
  Kept u = Has g.units u × Has g.ancestors u

  abbrev Present : List String → Type 0
  Present us = (u : String) → member u us ≡ true → Kept u

  unit_at-Refusable : (u : String) → Kept u → Refusable (unit_at g.units u)
  unit_at-Refusable u ((spec, at), _) = inl (spec, unit_at-eq g.units u spec at)

  is_ancestor-Refusable : (a u : String) → Kept u → Refusable (is_ancestor g a u)
  unfolding is_ancestor
  is_ancestor-Refusable a u (_, (above, at)) =
      on_ok-Refusable _ _ (inl (above, ancestors_at-eq g.ancestors u above at))
        λ above' _. inl (member a above', refl)

  ordered-Refusable : (u v : String) → Kept u → Kept v → Refusable (ordered g u v)
  unfolding ordered
  ordered-Refusable u v k l =
      on_ok-Refusable _ _ (is_ancestor-Refusable u v l)
        λ hit _. either hit (inl (true, refl)) (is_ancestor-Refusable v u k)

  check_pair-Refusable :
      (left : WorkUnitSpec) (u v : String) → Kept u → Kept v → Refusable (check_pair g left u v)
  unfolding check_pair check_unordered
  check_pair-Refusable left u v k l = on_ok-Refusable _ _ (unit_at-Refusable v l) λ right _.
      on_ok-Refusable _ _ (ordered-Refusable u v k l)
        λ before _. either before (inl (tt, refl)) (behind _ _ _ (demand-Refusable _ _))

  check_against-Refusable :
      (left : WorkUnitSpec) (u : String) (us : List String)
      → Kept u
      → Present us
      → Refusable (check_against g left u us)
  unfolding check_against
  check_against-Refusable left u [] k p = inl (tt, refl)
  check_against-Refusable left u (v ∷ vs) k p =
      on_ok-Refusable _ _ (check_pair-Refusable left u v k (p v (ground (arith, eq_iff v v))))
        λ _ _. check_against-Refusable left u vs k (λ w w_in. p w (ground arith))

  check_pairs-Refusable : (us : List String) → Present us → Refusable (check_pairs g us)
  unfolding check_pairs
  check_pairs-Refusable [] p = inl (tt, refl)
  check_pairs-Refusable (u ∷ us) p =
      let later : Present us = λ w w_in. p w (ground arith) in
      on_ok-Refusable _ _ (unit_at-Refusable u (p u (ground (arith, eq_iff u u)))) λ left _.
        on_ok-Refusable _ _
          (check_against-Refusable left u us (p u (ground (arith, eq_iff u u))) later)
          λ _ _. check_pairs-Refusable us later

toposort-Refusable :
    (units : Dict WorkUnitSpec) → Dict.Unique units → Closed units → Refusable (toposort units)
toposort-Refusable units unique closed = elim (toposort_ends units unique closed) [
  | inl (order, sorts, _) ↦ inl (order, sorts)
  | inr (message, stuck, _) ↦ inr (message, stuck)
]

-- What the sort returns for such units is a topological order of them.
sorted-IsTopological :
    (units : Dict WorkUnitSpec) (order : List String)
    → Dict.Unique units
    → Closed units
    → toposort units ≡ ok order
    → IsTopological (needs units) (Dict.keys units) order
sorted-IsTopological units order unique closed sorts = elim (toposort_ends units unique closed) [
  | inl (xs, found, t) ↦
      subst (IsTopological (needs units) (Dict.keys units))
        (same_order (toposort units) xs order found sorts) t
  | inr (message, stuck, _) ↦
      absurd (let both : ok order ≡ err (work_graph_error message) = sym sorts ∙ stuck in cc)
]

arrange-Refusable :
    (units : Dict WorkUnitSpec) → Dict.Unique units → Closed units → Refusable (arrange units)
unfolding arrange ancestors_of
arrange-Refusable units unique closed =
    let sorts = toposort-Refusable units unique closed in
    on_ok-Refusable _ _ sorts λ order done.
      on_ok-Refusable _ _
        (on_ok-Refusable _ _ sorts λ again found.
          inl (
            _,
            (loop-returns units again (sorted-IsTopological units again unique closed found)).0,
          ))
        λ ancestors found.
          let t = sorted-IsTopological units order unique closed done in
          let (again, sorts_again, looped) = on_ok-ok _ _ ancestors found in
          let one = same_order (toposort units) again order sorts_again done in
          let (returns, there) = loop-returns units order t in
          let both : ok (all_ancestors units order []) ≡ ok ancestors =
            sym returns ∙ ap (λ o. ancestors_loop units o []) (sym one) ∙ looped in
          let same : all_ancestors units order [] ≡ ancestors = cc in
          on_ok-Refusable _ _
            (check_pairs-Refusable (graph_of units order ancestors) order
              λ u m. (units-Has units order t u m, subst (λ d. Has d u) same (there u m)))
            λ _ _. inl (_, refl)

-- `validate_graph` always ends, whatever the given units are: it returns a graph or raises a
-- WorkGraphError, and never a KeyError. None of its lookups of a unit, or of the ancestors of a unit,
-- fails.
pub validate_graph-Refusable :
    (specs : List WorkUnitSpec) (policy : ProjectPolicy) → Refusable (validate_graph specs policy)
unfolding validate_graph check_units
validate_graph-Refusable [] policy = inr (_, refl)
validate_graph-Refusable (spec ∷ specs) policy =
    on_ok-Refusable _ _ (collect-Refusable (spec ∷ specs) []) λ units collected.
      let (_, unique, _) = collect-All (spec ∷ specs) [] units tt collected in
      on_ok-Refusable _ _ (check_units-Refusable units policy.forbidden_paths) λ _ checked.
        let (_, known, _) = on_ok-ok _ _ tt checked in
        arrange-Refusable units unique (Closed-checked units known)

-- The sort of units with different ids, none of which depends on what is not among them, always ends: it
-- returns an order that has each unit once and behind all that it depends on, and then no units are knotted,
-- or it raises the error of a cycle, and then some units are: each of these depends on another of them.
pub toposort_decides :
    (units : Dict WorkUnitSpec)
    → Dict.Unique units
    → Closed units
    → ((order : List String) × (toposort units ≡ ok order)
        × IsTopological (needs units) (Dict.keys units) order
        × (¬ Knot (needs units) (Dict.keys units)))
      ⊎ ((message : String) × (toposort units ≡ err (work_graph_error message))
          × Knot (needs units) (Dict.keys units))
toposort_decides units unique closed = elim (toposort_ends units unique closed) [
  | inl (order, sorts, t) ↦ inl (order, sorts, t, no_Knot (needs units) (Dict.keys units) order t)
  | inr stuck ↦ inr stuck
]
