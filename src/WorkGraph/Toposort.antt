-- ===== src/WorkGraph/Toposort.antt =====
-- `_toposort` and `_ancestors` of src/agentic_sdlc/work_graph.py. The dictionary `remaining` is the list
-- of its items; its keys are those of the units. A round of the `while` takes one unit of fuel, and
-- takes a unit at least out of `remaining`, so their number is enough.
pub mod Rounds
pub mod Members
pub mod Order
pub mod Knots
use agentic_sdlc.Base.{
  ℕ, zero, suc, String, ◌+++◌, Bool, not, Option, none, some, List, [], ◌∷◌, ◌++◌, Result, ok, err,
  work_graph_error, value_error, key_error, length, keep, member, is_empty, sorted, join,
  if◌then◌else◌,
}
use agentic_sdlc.Base.Raising.{◌>>=◌}
use agentic_sdlc.Base.Dict
use agentic_sdlc.Base.Dict.{Dict}
use agentic_sdlc.MergeEvidence.{to_set}
use agentic_sdlc.WorkGraph.Spec.{WorkUnitSpec, ancestors_at}

abbrev pub Remaining : Type 0
Remaining = Dict (List String)

-- {unit_id: set(spec.depends_on) for unit_id, spec in units.items()}
unfoldable pub remaining_of : Dict WorkUnitSpec → Remaining
remaining_of [] = []
remaining_of ((u, spec) ∷ units) = (u, to_set spec.depends_on) ∷ remaining_of units

-- [unit_id for unit_id, deps in remaining.items() if not deps]
unfoldable pub free_units : Remaining → List String
free_units [] = []
free_units ((u, deps) ∷ rest) =
    let more = free_units rest in if is_empty deps then u ∷ more else more

-- `remaining` without the units that are ready, nor the dependencies on them
unfoldable pub settle : List String → Remaining → Remaining
settle ready [] = []
settle ready ((u, deps) ∷ rest) =
    let more = settle ready rest in
    if is_empty deps then more else (u, keep (λ d. not (member d ready)) deps) ∷ more

abbrev cycle_error : Remaining → Result (List String)
cycle_error remaining = err (
    work_graph_error (
      "work graph contains a dependency cycle among: "
      +++ join ", " (sorted (Dict.keys remaining))))

-- the `while`
unfoldable pub toposort_loop : ℕ → Remaining → List String → Result (List String)
toposort_loop fuel [] order = ok order
toposort_loop zero (e ∷ es) order = err (value_error "out of fuel")
toposort_loop (suc fuel) (e ∷ es) order =
    let ready = sorted (free_units (e ∷ es)) in
    let rest = toposort_loop fuel (settle ready (e ∷ es)) (order ++ ready) in
    if is_empty ready then cycle_error (e ∷ es) else rest

unfoldable pub toposort : Dict WorkUnitSpec → Result (List String)
toposort units = toposort_loop (length units) (remaining_of units) []

-- the inner loop: the dependencies and all above them
unfoldable pub merge_ancestors : Dict (List String) → List String → Result (List String)
merge_ancestors ancestors [] = ok []
merge_ancestors ancestors (d ∷ ds) = do
  above ← ancestors_at ancestors d
  merged ← merge_ancestors ancestors ds
  ok (d ∷ above ++ merged)

abbrev pub depends_of : Option WorkUnitSpec → List String
depends_of none = []
depends_of (some spec) = spec.depends_on

-- the dependencies of a unit, as the theorems read them: none for an id that is no unit's
unfoldable pub needs : Dict WorkUnitSpec → String → List String
needs units u = depends_of (Dict.get u units)

-- `units[unit_id]`
unfoldable pub unit_at : Dict WorkUnitSpec → String → Result WorkUnitSpec
unit_at units id = elim (Dict.get id units) [ none ↦ err (key_error id) | some spec ↦ ok spec ]

-- the loop over the order
unfoldable pub ancestors_loop :
    Dict WorkUnitSpec → List String → Dict (List String) → Result (Dict (List String))
ancestors_loop units [] ancestors = ok ancestors
ancestors_loop units (u ∷ us) ancestors = do
  spec ← unit_at units u
  merged ← merge_ancestors ancestors spec.depends_on
  ancestors_loop units us (Dict.put u merged ancestors)
