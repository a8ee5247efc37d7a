-- ===== src/WorkGraph/Validated.antt =====
-- `validate_graph` (src/agentic_sdlc/work_graph.py) as a whole: what the graph that it returns is, and how it fails.
use agentic_sdlc.Base.{
  String, ◌≡◌, ◌≢◌, ◌↔◌, refl, sym, subst, ap, ◌∙◌, inl, inr, true, false, arith, some, List, [],
  ◌∷◌, map, Result, ok, err, on_ok-ok, after, All, work_graph_error, member, Option-cases,
}
use agentic_sdlc.Base.Dict
use agentic_sdlc.Base.Dict.{Dict}
use agentic_sdlc.Policy.{ProjectPolicy}
use agentic_sdlc.Policy.Paths.{matches}
use agentic_sdlc.WorkGraph.Spec.{WorkUnitSpec, WorkGraph}
use agentic_sdlc.WorkGraph.Ancestry.{
  Above, Has, known_ancestors, above_of, all_ancestors, loop-Complete, ancestors_loop-returns,
}
use agentic_sdlc.WorkGraph.Toposort.{needs, toposort, ancestors_loop}
use agentic_sdlc.WorkGraph.Toposort.Order.{IsTopological}
use agentic_sdlc.WorkGraph.Toposort.Knots.{Closed, toposort_ends}
use agentic_sdlc.WorkGraph.Collected.{
  IsWellFormed, entry, collect-All, each-All, check_known-known, check_writes-All,
}
use agentic_sdlc.WorkGraph.Sound.{Settled, pairs-Settled, Fresh, owned, own_all-Fresh}
use agentic_sdlc.WorkGraph.Validation.{
  check_units, check_pairs, ancestors_of, arrange, validate_graph, each, graph_of, check_known,
}

-- A graph that can be run: it has the given units; its order and its ancestors are what they should be;
-- the text of no write scope matches a forbidden pattern; no owned path is given twice; and of each two
-- units one is above the other, or they are compatible.
pub record IsSound (specs : List WorkUnitSpec) (forbidden : List String) (g : WorkGraph)
    : Type 0 where
  pub units : g.units ≡ map entry specs
  pub unique : Dict.Unique g.units
  pub well_formed : All IsWellFormed specs
  pub topological : IsTopological (needs g.units) (Dict.keys g.units) g.order
  pub ancestry :
      (u : String)
      → member u (Dict.keys g.units) ≡ true
      → (above : List String) × (Dict.get u g.ancestors ≡ some above)
        × ((a : String) → (member a above ≡ true) ↔ Above (needs g.units) u a)
  pub allowed : All (λ spec. All (λ p. matches p forbidden ≡ false) spec.write_paths) specs
  pub owners : Fresh [] (owned specs)
  pub settled :
      (u v : String)
      → u ≢ v
      → member u (Dict.keys g.units) ≡ true
      → member v (Dict.keys g.units) ≡ true
      → Settled g u v

values_of_entries : (specs : List WorkUnitSpec) → Dict.values (map entry specs) ≡ specs
unfolding Dict.values
values_of_entries [] = refl
values_of_entries (spec ∷ specs) = ap (λ r. spec ∷ r) (values_of_entries specs)

pub Closed-checked :
    (units : Dict WorkUnitSpec)
    → each (check_known units) (Dict.values units) ≡ ok tt
    → Closed units
unfolding needs
Closed-checked units h u d m = elim (Option-cases (Dict.get u units)) [
  | inl missing ↦ absurd (let m' = rw (needs, missing) at m in cc)
  | inr (spec, at) ↦
      Dict.All-get
        (λ s. (x : String) → member x s.depends_on ≡ true → member x (Dict.keys units) ≡ true) units
        u spec (each-All (check_known units) _ (check_known-known units) (Dict.values units) h) at d
        (rw (needs, at) at m)
]

-- the units of an order of the keys are found
pub units-Has :
    (units : Dict WorkUnitSpec) (order : List String)
    → IsTopological (needs units) (Dict.keys units) order
    → (u : String) → member u order ≡ true
    → Has units u
units-Has units order t u m = elim (Dict.get_of_key u units) [
  | inl (there, found) ↦ found
  | inr (away, _) ↦ absurd (let in' = sym (t.covers u) ∙ m in cc)
]

-- On a topological order no lookup of the ancestors' loop fails.
pub loop-returns :
    (units : Dict WorkUnitSpec) (order : List String)
    → IsTopological (needs units) (Dict.keys units) order
    → (ancestors_loop units order [] ≡ ok (all_ancestors units order []))
      × ((u : String) → member u order ≡ true → Has (all_ancestors units order []) u)
loop-returns units order t =
    let (returns, there) =
      ancestors_loop-returns units order [] [] t.ordered (units-Has units order t)
        (λ u m. absurd cc) in
    (returns, λ u m. there u (ground arith))

-- the ancestors in a graph that is arranged
arranged-ancestry :
    (units : Dict WorkUnitSpec) (order : List String)
    → IsTopological (needs units) (Dict.keys units) order
    → (u : String) → member u (Dict.keys units) ≡ true
    → (above : List String) × (Dict.get u (all_ancestors units order []) ≡ some above)
      × ((a : String) → (member a above ≡ true) ↔ Above (needs units) u a)
arranged-ancestry units order t u m =
    let (above, at) = (loop-returns units order t).1 u (t.covers u ∙ m) in
    (
      above,
      at,
      λ a.
          subst (λ o. (member a (known_ancestors o) ≡ true) ↔ Above (needs units) u a) at
            (loop-Complete units order [] [] t.ordered (λ v v_in. absurd cc) u (t.covers u ∙ m) a),
    )

record Arranged (units : Dict WorkUnitSpec) (g : WorkGraph) : Type 0 where
  pub same : units ≡ g.units
  pub topological : IsTopological (needs g.units) (Dict.keys g.units) g.order
  pub closure : graph_of g.units g.order (all_ancestors g.units g.order []) ≡ g
  pub pairs : check_pairs g g.order ≡ ok tt

pub same_order : (r : Result (List String)) (xs ys : List String) → r ≡ ok xs → r ≡ ok ys → xs ≡ ys
same_order r xs ys h g = let both : ok xs ≡ ok ys = sym h ∙ g in cc

arrange-Arranged :
    (units : Dict WorkUnitSpec) (g : WorkGraph)
    → Dict.Unique units
    → Closed units
    → arrange units ≡ ok g
    → Arranged units g
unfolding arrange ancestors_of
arrange-Arranged units g unique closed h =
    let (order, sorts, h1) = on_ok-ok _ _ g h in
    let (ancestors, above, h2) = on_ok-ok _ _ g h1 in
    let (_, paired, h3) = on_ok-ok _ _ g h2 in
    let (again, sorts_again, h4) = on_ok-ok _ _ ancestors above in
    let graph : graph_of units order ancestors ≡ g = cc in
    let one : again ≡ order = same_order (toposort units) again order sorts_again sorts in
    let looped : ancestors_loop units order [] ≡ ok ancestors =
      ap (λ o. ancestors_loop units o []) (sym one) ∙ h4 in
    elim (toposort_ends units unique closed) [
      | inr (message, stuck, knot) ↦
          absurd (let both : ok order ≡ err (work_graph_error message) = sym sorts ∙ stuck in cc)
      | inl (xs, found, t) ↦
          let sorted =
            subst (IsTopological (needs units) (Dict.keys units))
              (same_order (toposort units) xs order found sorts) t in
          let both : ok (all_ancestors units order []) ≡ ok ancestors =
            sym (loop-returns units order sorted).0 ∙ looped in
          let loop : all_ancestors units order [] ≡ ancestors = cc in
          subst (Arranged units) graph (record {
            same = refl;
            topological = sorted;
            closure = ap (graph_of units order) loop;
            pairs = paired;
          })
    ]

check_units-parts :
    (units : Dict WorkUnitSpec) (forbidden : List String)
    → check_units units forbidden ≡ ok tt
    → Closed units
      × All (λ spec. All (λ p. matches p forbidden ≡ false) spec.write_paths) (Dict.values units)
      × Fresh [] (owned (Dict.values units))
unfolding check_units Dict.keys
check_units-parts units forbidden h =
    let (_, known, h1) = on_ok-ok _ _ tt h in
    let (_, writes, h2) = on_ok-ok _ _ tt h1 in
    let (owners, owns, _) = on_ok-ok _ _ tt h2 in
    (
      Closed-checked units known,
      each-All _ _ (λ spec. check_writes-All forbidden spec.unit_id spec.write_paths)
          (Dict.values units) writes,
      own_all-Fresh (Dict.values units) [] owners [] (λ k. refl) owns,
    )

-- The ancestors that are computed in one pass over the order are the transitive closure of the dependencies:
-- for units with different ids that depend on units of the graph only, whenever `_ancestors` returns, the
-- set of a unit has just the units that it depends on, directly or by others.
pub ancestors_of-Above :
    (units : Dict WorkUnitSpec) (ancestors : Dict (List String))
    → Dict.Unique units
    → Closed units
    → ancestors_of units ≡ ok ancestors
    → (u : String) → member u (Dict.keys units) ≡ true
    → (a : String) → (member a (above_of ancestors u) ≡ true) ↔ Above (needs units) u a
unfolding ancestors_of
ancestors_of-Above units ancestors unique closed h u m a = after h λ order sorts done.
    elim (toposort_ends units unique closed) [
      | inr (message, stuck, knot) ↦
          absurd (let both : ok order ≡ err (work_graph_error message) = sym sorts ∙ stuck in cc)
      | inl (xs, found, t) ↦
          let one : xs ≡ order = same_order (toposort units) xs order found sorts in
          let both : ok (all_ancestors units xs []) ≡ ok ancestors =
            sym (loop-returns units xs t).0 ∙ ap (λ o. ancestors_loop units o []) one ∙ done in
          let fits : all_ancestors units xs [] ≡ ancestors = cc in
          subst (λ d. (member a (above_of d u) ≡ true) ↔ Above (needs units) u a) fits
            (loop-Complete units xs [] [] t.ordered (λ v v_in. absurd cc) u (t.covers u ∙ m) a)
    ]

-- A graph that `validate_graph` returns is sound for the given units and the forbidden paths of the
-- policy: its units are the given ones under their ids, with no id twice, and each is well-formed; its
-- order has each unit once and behind all that it depends on; each unit has an entry of ancestors, which
-- has just the units that it depends on, directly or by others; the text of no write scope matches a
-- forbidden pattern; no owned path is given twice; and for two different units of which none is among
-- the ancestors of the other, first, no write scope of one is a write scope of the other or matches, as a
-- pattern, the text of one, unless they share a composition that is not the default, and second, they
-- share no resource, unless both only read. It says nothing of what files the scopes match.
pub validate_graph-IsSound :
    (specs : List WorkUnitSpec) (policy : ProjectPolicy) (g : WorkGraph)
    → validate_graph specs policy ≡ ok g
    → IsSound specs policy.forbidden_paths g
unfolding validate_graph
validate_graph-IsSound [] policy g h = absurd cc
validate_graph-IsSound (spec ∷ specs) policy g h =
    let (units, collected, h1) = on_ok-ok _ _ g h in
    let (_, checked, arranged) = on_ok-ok _ _ g h1 in
    let (entries, unique, fine) = collect-All (spec ∷ specs) [] units tt collected in
    let (closed, allowed, owners) = check_units-parts units policy.forbidden_paths checked in
    let given_units : Dict.values units ≡ spec ∷ specs =
      ap Dict.values (sym entries) ∙ values_of_entries (spec ∷ specs) in
    let a = arrange-Arranged units g unique closed arranged in
    record {
      units = sym (entries ∙ a.same);
      unique = subst Dict.Unique a.same unique;
      well_formed = fine;
      topological = a.topological;
      ancestry = λ u m.
          subst
            (λ (x : WorkGraph).
              (above : List String) × (Dict.get u x.ancestors ≡ some above)
              × ((z : String) → (member z above ≡ true) ↔ Above (needs g.units) u z))
            a.closure (arranged-ancestry g.units g.order a.topological u m);
      allowed =
          subst (All (λ s. All (λ p. matches p policy.forbidden_paths ≡ false) s.write_paths))
            given_units allowed;
      owners = subst (λ l. Fresh [] (owned l)) given_units owners;
      settled = λ u v differ u_in v_in.
          pairs-Settled g g.order a.pairs u v differ (a.topological.covers u ∙ u_in)
            (a.topological.covers v ∙ v_in);
    }
