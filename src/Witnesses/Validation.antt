-- ===== src/Witnesses/Validation.antt =====
-- The validation of a graph of three units (src/agentic_sdlc/work_graph.py).
use agentic_sdlc.Base.{
  String, ◌≡◌, ◌↔◌, ◌⊎◌, refl, true, false, List, [], ◌∷◌, ok, key_error, err, work_graph_error,
  member, lstrip, rstrip, strip, is_space, on_ok,
}
use agentic_sdlc.Base.Dict
use agentic_sdlc.Base.Dict.{Dict}
use agentic_sdlc.Glob.{fnmatch, fnmatch_codes, items, matches_items, accepts}
use agentic_sdlc.MergeEvidence.{to_set}
use agentic_sdlc.Policy.Paths.{matches, normalized}
use agentic_sdlc.Policy.{ProjectPolicy}
use agentic_sdlc.WorkGraph.Ancestry.{Above, above_of}
use agentic_sdlc.WorkGraph.Spec.{
  WorkUnitSpec, WorkGraph, ancestors_at, ordered, is_ancestor, read_only,
}
use agentic_sdlc.WorkGraph.Toposort.{
  needs, toposort, toposort_loop, remaining_of, free_units, settle, merge_ancestors, ancestors_loop,
  unit_at,
}
use agentic_sdlc.WorkGraph.Toposort.Order.{IsTopological, Knot}
use agentic_sdlc.WorkGraph.Toposort.Knots.{Closed}
use agentic_sdlc.WorkGraph.Validation.{
  validate_graph, ancestors_of, graph_of, patterns_overlap, collect, check_spec, demand, is_unit_id,
  check_units, each, check_known, missing_dependencies, check_writes, own_all, own_paths, arrange,
  check_pairs, check_against, check_pair, check_unordered, shared_strategy, shared_of,
}
use agentic_sdlc.WorkGraph.Validated.{
  Closed-checked, IsSound, validate_graph-IsSound, ancestors_of-Above,
}
use agentic_sdlc.WorkGraph.Refusals.{Refusable, validate_graph-Refusable, toposort_decides}

abbrev policy : ProjectPolicy
policy = record {
  provider = "github";
  project_id = "a/b";
  default_branch = "main";
  ready_label = "r";
  human_review_label = "h";
  implementation_label = "i";
  human_merge_required = true;
  max_changed_files = 30;
  max_diff_lines = 3000;
  max_patch_bytes = 5000000;
  forbidden_paths = ".github/**" ∷ [];
  protected_paths = [];
  low_risk_paths = [];
  forbidden_task_patterns = [];
  lease_ttl_minutes = 240;
  publisher_bot_login = "";
}

abbrev unit_of : String → List String → List String → WorkUnitSpec
unit_of name above writes = record {
  unit_id = name;
  mission_id = "m";
  mission_version = "1";
  output_artifact = name;
  depends_on = above;
  owned_paths = writes;
  read_paths = [];
  write_paths = writes;
  shared_resources = [];
  verification_gates = [];
  concurrency_group = "";
  composition = "independent-merge";
  provider = "";
  timeout_seconds = 60;
  max_retries = 0;
  max_tokens = 10;
}

abbrev specs : List WorkUnitSpec
specs =
    unit_of "c" ("a" ∷ []) ("docs/*" ∷ [])
    ∷ unit_of "a" [] ("src/x" ∷ [])
    ∷ unit_of "b" ("c" ∷ []) ("docs/y" ∷ [])
    ∷ []

abbrev units : Dict WorkUnitSpec
units =
    ("c", unit_of "c" ("a" ∷ []) ("docs/*" ∷ []))
    ∷ ("a", unit_of "a" [] ("src/x" ∷ []))
    ∷ ("b", unit_of "b" ("c" ∷ []) ("docs/y" ∷ []))
    ∷ []

abbrev ancestors : Dict (List String)
ancestors = ("a", []) ∷ ("c", "a" ∷ []) ∷ ("b", "c" ∷ "a" ∷ []) ∷ []

abbrev graph : WorkGraph
graph = graph_of units ("a" ∷ "c" ∷ "b" ∷ []) ancestors

units-Unique : Dict.Unique units
unfolding Dict.keys
units-Unique = (refl, (refl, (refl, tt)))

accepted : validate_graph specs policy ≡ ok graph
unfolding validate_graph collect check_spec on_ok demand is_unit_id strip lstrip rstrip is_space
    check_units each check_known missing_dependencies check_writes matches normalized fnmatch
    fnmatch_codes own_all own_paths arrange ancestors_of toposort toposort_loop remaining_of
    free_units settle merge_ancestors ancestors_loop needs check_pairs check_against check_pair
    unit_at ancestors_at ordered is_ancestor check_unordered patterns_overlap shared_strategy
    shared_of read_only items matches_items accepts to_set Dict.get Dict.put Dict.keys Dict.values
accepted = refl

units-Closed : Closed units
unfolding each check_known missing_dependencies on_ok demand to_set Dict.keys Dict.values
units-Closed = Closed-checked units refl

validate_graph-IsSound_example : IsSound specs (".github/**" ∷ []) graph
validate_graph-IsSound_example = validate_graph-IsSound specs policy graph accepted

-- An order that puts a unit in front of what it depends on meets a dependency without ancestors.
out_of_order : ancestors_loop units ("b" ∷ []) [] ≡ err (key_error "c")
unfolding merge_ancestors ancestors_loop on_ok unit_at ancestors_at Dict.get
out_of_order = refl

validate_graph-Refusable_example :
    Refusable (validate_graph (unit_of "a" ("z" ∷ []) [] ∷ []) policy)
validate_graph-Refusable_example = validate_graph-Refusable (unit_of "a" ("z" ∷ []) [] ∷ []) policy

sorted_ancestors : ancestors_of units ≡ ok ancestors
unfolding ancestors_of toposort toposort_loop remaining_of free_units settle merge_ancestors
    ancestors_loop on_ok unit_at ancestors_at needs to_set Dict.get Dict.put Dict.keys
sorted_ancestors = refl

ancestors_of-Above_example :
    (member "a" (above_of ancestors "b") ≡ true) ↔ Above (needs units) "b" "a"
unfolding Dict.keys
ancestors_of-Above_example =
    ancestors_of-Above units ancestors units-Unique units-Closed sorted_ancestors "b" refl "a"

toposort_decides_example :
    ((order : List String) × (toposort units ≡ ok order)
      × IsTopological (needs units) (Dict.keys units) order
      × (¬ Knot (needs units) (Dict.keys units)))
    ⊎ ((message : String) × (toposort units ≡ err (work_graph_error message))
        × Knot (needs units) (Dict.keys units))
toposort_decides_example = toposort_decides units units-Unique units-Closed

-- Two scopes that have a file in common, and that the test of an overlap does not see.
overlap_unseen :
    (fnmatch "src/ab" "src/a*" ≡ true)
    × (fnmatch "src/ab" "src/*b" ≡ true)
    × (patterns_overlap ("src/a*" ∷ []) ("src/*b" ∷ []) ≡ false)
unfolding patterns_overlap fnmatch fnmatch_codes items matches_items accepts
overlap_unseen = (refl, refl, refl)

-- A write scope that has every file, and so the forbidden ones, and that the test of the scopes lets through.
everything_written :
    (fnmatch ".github/workflows/ci.yml" "**" ≡ true)
    × (check_writes (".github/**" ∷ []) "a" ("**" ∷ []) ≡ ok tt)
unfolding check_writes on_ok demand matches normalized fnmatch fnmatch_codes items matches_items
    accepts
everything_written = (refl, refl)
