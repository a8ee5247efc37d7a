-- ===== src/WorkGraph/Validation.antt =====
-- `validate_graph` of src/agentic_sdlc/work_graph.py.
use agentic_sdlc.Base.{
  ℕ, String, ◌+++◌, Bool, true, false, not, ◌&&◌, ◌||◌, none, some, List, [], ◌∷◌, Result, ok, err,
  on_ok, work_graph_error, length, keep, any, member, is_empty, sorted, join, given, has_text,
  codes, nat_eq, leb, all, ◌==◌, if◌then◌else◌,
}
use agentic_sdlc.Base.Dict
use agentic_sdlc.Base.Raising.{◌>>=◌, ◌>>◌}
use agentic_sdlc.Base.Dict.{Dict}
use agentic_sdlc.Glob.{fnmatch}
use agentic_sdlc.MergeEvidence.{to_set}
use agentic_sdlc.Policy.{ProjectPolicy}
use agentic_sdlc.Policy.Paths.{matches}
use agentic_sdlc.WorkGraph.Spec.{WorkUnitSpec, WorkGraph, ordered, read_only, default_composition}
use agentic_sdlc.WorkGraph.Toposort.{toposort, unit_at, ancestors_loop}

abbrev pub Done : Type 0
Done = Result Unit

abbrev pub is_small : ℕ → Bool
is_small c = leb b'a' c && leb c b'z'

abbrev pub is_id_code : ℕ → Bool
is_id_code c = is_small c || (leb b'0' c && leb c b'9') || nat_eq c b'-'

-- _UNIT_ID.fullmatch
unfoldable pub is_unit_id : String → Bool
is_unit_id id = elim (codes id) [
  | [] ↦ false
  | c ∷ cs ↦ is_small c && (all is_id_code cs && leb (length cs) 63)
]

abbrev pub refuse {ℓ} : {A : Type ℓ} → String → Result A
refuse message = err (work_graph_error message)

unfoldable pub demand : Bool → String → Done
demand true message = ok tt
demand false message = refuse message

-- the tests of the first loop on one unit
unfoldable pub check_spec : Dict WorkUnitSpec → WorkUnitSpec → Done
check_spec units spec = do
  demand (is_unit_id spec.unit_id) ("unit id must match ^[a-z][a-z0-9-]{0,63}$: " +++ spec.unit_id)
  demand (not (member spec.unit_id (Dict.keys units))) ("duplicate unit id: " +++ spec.unit_id)
  demand (given spec.mission_id && given spec.mission_version)
      ("unit " +++ spec.unit_id +++ ": mission id and version are required")
  demand (has_text spec.output_artifact)
      ("unit " +++ spec.unit_id +++ ": output artifact is required")
  demand (leb 1 spec.max_tokens && leb 1 spec.timeout_seconds)
      ("unit " +++ spec.unit_id +++ ": budget and timeout must be positive")

-- the first loop
unfoldable pub collect : List WorkUnitSpec → Dict WorkUnitSpec → Result (Dict WorkUnitSpec)
collect [] units = ok units
collect (spec ∷ specs) units = do
  check_spec units spec
  collect specs (Dict.put spec.unit_id spec units)

-- a loop of tests
unfoldable pub each : (WorkUnitSpec → Done) → List WorkUnitSpec → Done
each check [] = ok tt
each check (spec ∷ specs) = do check spec; each check specs

unfoldable pub missing_dependencies : Dict WorkUnitSpec → WorkUnitSpec → List String
missing_dependencies units spec =
    keep (λ d. not (member d (Dict.keys units))) (to_set spec.depends_on)

unfoldable pub check_known : Dict WorkUnitSpec → WorkUnitSpec → Done
check_known units spec =
    let missing = sorted (missing_dependencies units spec) in
    do
      demand (is_empty missing)
          ("unit " +++ spec.unit_id +++ ": missing dependencies: " +++ join ", " missing)
      demand (not (member spec.unit_id spec.depends_on))
          ("unit " +++ spec.unit_id +++ ": a unit cannot depend on itself")

-- the loop over the write scopes of a unit
unfoldable pub check_writes : List String → String → List String → Done
check_writes forbidden unit_id [] = ok tt
check_writes forbidden unit_id (p ∷ ps) = do
  demand (not (matches p forbidden))
      ("unit " +++ unit_id +++ ": write scope includes a forbidden path: " +++ p)
  check_writes forbidden unit_id ps

-- the loop over the owned paths of a unit
unfoldable pub own_paths : String → List String → Dict String → Result (Dict String)
own_paths unit_id [] owners = ok owners
own_paths unit_id (path ∷ paths) owners = elim (Dict.get path owners) [
  | some owner ↦
      refuse ("ambiguous ownership of " +++ path +++ ": " +++ owner +++ " and " +++ unit_id)
  | none ↦ own_paths unit_id paths (Dict.put path unit_id owners)
]

unfoldable pub own_all : List WorkUnitSpec → Dict String → Result (Dict String)
own_all [] owners = ok owners
own_all (spec ∷ specs) owners = do
  more ← own_paths spec.unit_id spec.owned_paths owners
  own_all specs more

-- `_patterns_overlap`
unfoldable pub patterns_overlap : List String → List String → Bool
patterns_overlap left right =
    any (λ a. any (λ b. a == b || (fnmatch a b || fnmatch b a)) right) left

unfoldable pub shared_strategy : WorkUnitSpec → WorkUnitSpec → Bool
shared_strategy left right =
    left.composition == right.composition && not (left.composition == default_composition)

unfoldable pub shared_of : WorkUnitSpec → WorkUnitSpec → List String
shared_of left right = keep (λ r. member r right.shared_resources) (to_set left.shared_resources)

-- the body of the inner loop over the pairs, for units that no dependency orders
unfoldable pub check_unordered : WorkUnitSpec → WorkUnitSpec → String → String → Done
check_unordered left right left_id right_id = do
  demand (not (patterns_overlap left.write_paths right.write_paths) || shared_strategy left right) (
      "units " +++ left_id +++ " and " +++ right_id
      +++ " have overlapping write scopes and no explicit shared composition strategy; serialize them with dependencies or declare one")
  demand (is_empty (shared_of left right) || (read_only left && read_only right)) (
      "units "
      +++ left_id
      +++ " and "
      +++ right_id
      +++ " share semantic resource(s) "
      +++ join ", " (sorted (shared_of left right))
      +++ " without ordering; concurrent modification is unsafe")

unfoldable pub check_pair : WorkGraph → WorkUnitSpec → String → String → Done
check_pair graph left left_id right_id = do
  right ← unit_at graph.units right_id
  before ← ordered graph left_id right_id
  if before then ok tt else check_unordered left right left_id right_id

-- the inner loop
unfoldable pub check_against : WorkGraph → WorkUnitSpec → String → List String → Done
check_against graph left left_id [] = ok tt
check_against graph left left_id (right_id ∷ ids) = do
  check_pair graph left left_id right_id
  check_against graph left left_id ids

-- the outer loop
unfoldable pub check_pairs : WorkGraph → List String → Done
check_pairs graph [] = ok tt
check_pairs graph (left_id ∷ ids) = do
  left ← unit_at graph.units left_id
  check_against graph left left_id ids
  check_pairs graph ids

-- `_ancestors`, which sorts again
unfoldable pub ancestors_of : Dict WorkUnitSpec → Result (Dict (List String))
ancestors_of units = do order ← toposort units; ancestors_loop units order []

abbrev pub graph_of : Dict WorkUnitSpec → List String → Dict (List String) → WorkGraph
graph_of units order ancestors = record { units = units; order = order; ancestors = ancestors }

-- the order, the ancestors and the tests of the pairs
unfoldable pub arrange : Dict WorkUnitSpec → Result WorkGraph
arrange units = do
  order ← toposort units
  ancestors ← ancestors_of units
  let graph = graph_of units order ancestors in on_ok (check_pairs graph order) λ _. ok graph

-- the tests of the collected units, one loop after the other
unfoldable pub check_units : Dict WorkUnitSpec → List String → Done
check_units units forbidden = do
  each (check_known units) (Dict.values units)
  each (λ spec. check_writes forbidden spec.unit_id spec.write_paths) (Dict.values units)
  own_all (Dict.values units) []
  ok tt

unfoldable pub validate_graph : List WorkUnitSpec → ProjectPolicy → Result WorkGraph
validate_graph [] policy = refuse "work graph requires at least one unit"
validate_graph (spec ∷ specs) policy = do
  units ← collect (spec ∷ specs) []
  check_units units policy.forbidden_paths
  arrange units
