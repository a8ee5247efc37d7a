-- ===== src/WorkGraph/Spec.antt =====
-- `WorkUnitSpec` and `WorkGraph` of src/agentic_sdlc/work_graph.py.
use agentic_sdlc.Base.{
  ℕ, String, ◌+++◌, Bool, true, none, some, List, Result, ok, err, work_graph_error, key_error,
  member, is_empty, if◌then◌else◌,
}
use agentic_sdlc.Base.Raising.{◌>>=◌}
use agentic_sdlc.Base.Dict
use agentic_sdlc.Base.Dict.{Dict}

pub record WorkUnitSpec : Type 0 where
  pub unit_id : String
  pub mission_id : String
  pub mission_version : String
  pub output_artifact : String
  pub depends_on : List String
  pub owned_paths : List String
  pub read_paths : List String
  pub write_paths : List String
  pub shared_resources : List String
  pub verification_gates : List String
  pub concurrency_group : String
  pub composition : String
  pub provider : String
  pub timeout_seconds : ℕ
  pub max_retries : ℕ
  pub max_tokens : ℕ

-- DEFAULT_COMPOSITION
abbrev pub default_composition : String
default_composition = "independent-merge"

unfoldable pub read_only : WorkUnitSpec → Bool
read_only s = is_empty s.write_paths

pub record WorkGraph : Type 0 where
  pub units : Dict WorkUnitSpec
  pub order : List String
  pub ancestors : Dict (List String)

-- `get`
unfoldable pub get : WorkGraph → String → Result WorkUnitSpec
get g unit_id = elim (Dict.get unit_id g.units) [
  | none ↦ err (work_graph_error ("unknown work unit: " +++ unit_id))
  | some spec ↦ ok spec
]

-- `ancestors[unit_id]`
unfoldable pub ancestors_at : Dict (List String) → String → Result (List String)
ancestors_at ancestors unit_id = elim (Dict.get unit_id ancestors) [
  | none ↦ err (key_error unit_id)
  | some above ↦ ok above
]

-- `unit_id in self.ancestors[other]`
unfoldable pub is_ancestor : WorkGraph → String → String → Result Bool
unfolding ancestors_at
is_ancestor g unit_id other = do above ← ancestors_at g.ancestors other; ok (member unit_id above)

-- one unit transitively depends on the other: the second test is made if the first fails
unfoldable pub ordered : WorkGraph → String → String → Result Bool
unfolding is_ancestor
ordered g first second = do
  hit ← is_ancestor g first second
  if hit then ok true else is_ancestor g second first
