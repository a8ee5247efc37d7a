-- ===== src/WorkGraph/Toposort/Knots.antt =====
-- The sort of a graph: a topological order where there is one, the error of a cycle where there is none.
use agentic_sdlc.Base.{
  String, ◌≡◌, refl, ◌⊎◌, inl, inr, true, false, List, [], ◌∷◌, some, member, eq_iff, arith, length,
  All, Bool-cases, ok, err, work_graph_error,
}
use agentic_sdlc.Base.Dict
use agentic_sdlc.Base.Dict.{Dict}
use agentic_sdlc.WorkGraph.Spec.{WorkUnitSpec}
use agentic_sdlc.WorkGraph.Toposort.{remaining_of, toposort, needs}
use agentic_sdlc.WorkGraph.Toposort.Members.{member-to_set, empty_of_members}
use agentic_sdlc.WorkGraph.Toposort.Rounds.{Waits}
use agentic_sdlc.WorkGraph.Toposort.Order.{Ordered, Between, Knot, IsTopological, loop_ends}

keys-remaining_of : (units : Dict WorkUnitSpec) → Dict.keys (remaining_of units) ≡ Dict.keys units
unfolding Dict.keys remaining_of
keys-remaining_of [] = refl
keys-remaining_of ((u, spec) ∷ units) = rw (keys-remaining_of units) refl

length-remaining_of : (units : Dict WorkUnitSpec) → length (remaining_of units) ≡ length units
unfolding remaining_of
length-remaining_of [] = refl
length-remaining_of ((u, spec) ∷ units) = omega (arith, length-remaining_of units)

pub length-keys {ℓ} : {V : Type ℓ} (d : Dict V) → length (Dict.keys d) ≡ length d
unfolding Dict.keys
length-keys [] = refl
length-keys ((k, v) ∷ d) = omega (arith, length-keys d)

first-Waits :
    (units es : Dict WorkUnitSpec)
    → All (λ (e : String × WorkUnitSpec). Dict.get e.0 units ≡ some e.1) es
    → All (Waits (needs units) []) (remaining_of es)
unfolding remaining_of needs
first-Waits units [] h = tt
first-Waits units ((u, spec) ∷ es) h =
    ((λ d. rw h.0 (ground (arith, member-to_set d spec.depends_on))), first-Waits units es h.1)

first_Between :
    (units : Dict WorkUnitSpec)
    → Dict.Unique units
    → Between (needs units) (Dict.keys units) [] (remaining_of units)
first_Between units unique = record {
  ordered = tt;
  waits = first-Waits units units (Dict.get_entries units unique);
  covers = λ k. rw (keys-remaining_of units) refl;
  counts = omega (arith, length-remaining_of units, length-keys units);
}

-- Every dependency is one of the units.
abbrev pub Closed : Dict WorkUnitSpec → Type 0
Closed units = (u d : String) → member d (needs units u) ≡ true → member d (Dict.keys units) ≡ true

pub toposort_ends :
    (units : Dict WorkUnitSpec)
    → Dict.Unique units
    → Closed units
    → ((xs : List String) × (toposort units ≡ ok xs)
        × IsTopological (needs units) (Dict.keys units) xs)
      ⊎ ((message : String) × (toposort units ≡ err (work_graph_error message))
          × Knot (needs units) (Dict.keys units))
unfolding toposort
toposort_ends units unique closed =
    loop_ends (needs units) (length units) (Dict.keys units) [] (remaining_of units) closed
      (first_Between units unique) (omega (arith, length-remaining_of units))

-- No unit of a knot can be in an order in which no unit of the knot was seen before.
knot_apart :
    (N : String → List String) (tied seen us : List String)
    → ((u : String)
        → member u tied ≡ true
        → (d : String) × (member d (N u) ≡ true) × (member d tied ≡ true))
    → Ordered N seen us
    → ((d : String) → member d tied ≡ true → member d seen ≡ false)
    → (d : String) → member d tied ≡ true
    → member d us ≡ false
knot_apart N tied seen [] need o out d m = refl
knot_apart N tied seen (u ∷ us) need o out d m = elim (Bool-cases (member u tied)) [
  | inl bound ↦
      let (e, needed, e_tied) = need u bound in
      absurd (let known = o.0 e needed in let new = out e e_tied in cc)
  | inr free ↦
      let later =
        knot_apart N tied (u ∷ seen) us need o.1
          (λ x x_tied. ground (arith, out x x_tied, eq_iff u x)) d m in
      ground (arith, eq_iff u d)
]

pub no_Knot :
    (N : String → List String) (units order : List String)
    → IsTopological N units order
    → ¬ Knot N units
no_Knot N units order t k =
    let (u, tied) = empty_of_members k.tied k.some_unit in
    let apart = knot_apart N k.tied [] order k.need t.ordered (λ d m. refl) u tied in
    let covered = t.covers u in let among = k.among u tied in cc
