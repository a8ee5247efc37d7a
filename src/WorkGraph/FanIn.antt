-- ===== src/WorkGraph/FanIn.antt =====
-- Upstream changes and the fan-in of `GraphExecutor`: `invalidate_upstream_change`,
-- `record_final_verification` and `compose` (src/agentic_sdlc/work_graph.py).
use agentic_sdlc.Base.{
  ℕ, String, ◌+++◌, Bool, true, false, not, ◌&&◌, ◌||◌, Option, none, some, List, [], ◌∷◌, ◌++◌,
  Exec, Result, ok, on_ok, work_graph_error, ◌>>=◌, ◌>>◌, require, pure, gets, modify, keep, join,
  sorted, is_empty, if◌then◌else◌, ◌==◌,
}
use agentic_sdlc.Base.Dict
use agentic_sdlc.Base.Dict.{Dict}
use agentic_sdlc.WorkGraph.Spec.{get, read_only, default_composition}
use agentic_sdlc.WorkGraph.Executor.{
  Status, pending, running, completed, blocked, is_failed, is_blocked, Executor, is_attested, holds,
  status_at, sift,
}
use agentic_sdlc.WorkGraph.Operations.{error, is_digest, is_hit, workspace}

-- "completed", "running" or "blocked": what a change upstream takes back
abbrev pub is_done : Status → Bool
is_done completed = true
is_done running = true
is_done blocked = true
is_done _ = false

abbrev text_or : String → Option String → String
text_or default none = default
text_or default (some t) = t

-- a dependent of the changed unit, back to pending, with what it had produced dropped
unfoldable pub reset_unit : String → String → Option String → String → Executor → Executor
reset_unit o unit_id previous new_digest x = record x {
  status = Dict.put o pending x.status;
  verified = Dict.remove o x.verified;
  artifacts = Dict.remove o x.artifacts;
  invalidations =
      x.invalidations
      ++ (o
          +++ " invalidated: upstream "
          +++ unit_id
          +++ " artifact changed ("
          +++ text_or "None" previous
          +++ " -> "
          +++ new_digest
          +++ ")")
        ∷ [];
}

-- the loop over the order: the units that it resets
unfoldable pub reset_downstream :
    List String → String → Option String → String → Exec Executor (List String)
reset_downstream [] unit_id previous new_digest = pure []
reset_downstream (o ∷ os) unit_id previous new_digest = do
  hit ← λ x. (is_hit is_done unit_id o x, x)
  modify (λ x. if hit then reset_unit o unit_id previous new_digest x else x)
  rest ← reset_downstream os unit_id previous new_digest
  pure (if hit then o ∷ rest else rest)

abbrev pub same_text : Option String → String → Bool
same_text none d = false
same_text (some t) d = t == d

-- the rest of the method, for a digest that is new
unfoldable pub apply_change : String → String → Exec Executor (List String)
apply_change unit_id new_digest = do
  previous ← gets (λ x. Dict.get unit_id x.artifacts)
  modify (λ x. record x { artifacts = Dict.put unit_id new_digest x.artifacts })
  invalidated ← λ x. reset_downstream x.graph.order unit_id previous new_digest x
  modify (λ x. record x { final_verification = none })
  pure invalidated

unfoldable pub invalidate_upstream_change : String → String → Exec Executor (List String)
invalidate_upstream_change unit_id new_digest = do
  spec ← λ x. (get x.graph unit_id, x)
  require (is_digest new_digest) (work_graph_error "artifact digest must use sha256:<hex> form")
  λ x.
      if same_text (Dict.get unit_id x.artifacts) new_digest
      then (ok [], x)
      else apply_change unit_id new_digest x

-- `not self.graph.get(unit_id).read_only and not self._is_attested(unit_id)`
unfoldable pub is_unattested : Executor → String → Result Bool
is_unattested x unit_id =
    on_ok (get x.graph unit_id) λ spec. ok (not (read_only spec) && not (is_attested x unit_id))

-- the writing units of the order that are not attested
unfoldable pub unattested : Executor → Result (List String)
unfolding is_unattested
unattested x = sift (is_unattested x) x.graph.order

unfoldable pub record_final_verification : Bool → Exec Executor (Unit {0})
record_final_verification passed = do
  missing ← λ x. (unattested x, x)
  require (is_empty missing) (
      work_graph_error (
        "composed-tree verification requires all writing units attested; missing: "
        +++ join ", " (sorted missing)))
  modify (λ x. record x { final_verification = some passed })

pub record UnitReport : Type 0 where
  pub unit_id : String
  pub mission_id : String
  pub mission_version : String
  pub agent_id : String
  pub workspace : String
  pub status : Status
  pub artifact_digest : String
  pub verification_passed : Bool
  pub composition : String
  pub conflict_decision : String

pub record Composition : Type 0 where
  pub base_sha : String
  pub composed_tree_verified : Bool
  pub tokens_spent : ℕ
  pub invalidations : List String
  pub lease_audit : List String
  pub units : List UnitReport

-- one unit of the report, whose spec is looked up under its id
unfoldable pub report : Executor → String → Result UnitReport
report x unit_id = on_ok (get x.graph unit_id) λ spec. on_ok (status_at x unit_id) λ s. ok (record {
  unit_id = unit_id;
  mission_id = spec.mission_id;
  mission_version = spec.mission_version;
  agent_id = text_or "" (Dict.get unit_id x.agents);
  workspace = workspace unit_id;
  status = s;
  artifact_digest = text_or "" (Dict.get unit_id x.artifacts);
  verification_passed = holds (Dict.get unit_id x.verified);
  composition = spec.composition;
  conflict_decision =
      if spec.composition == default_composition then "independent" else spec.composition;
})

unfoldable pub reports : Executor → List String → Result (List UnitReport)
unfolding report
reports x [] = ok []
reports x (u ∷ us) = on_ok (report x u) λ r. on_ok (reports x us) λ rs. ok (r ∷ rs)

-- `self._status[unit_id]` passes the test
unfoldable pub has_status_in : (Status → Bool) → Executor → String → Result Bool
has_status_in p x unit_id = on_ok (status_at x unit_id) λ s. ok (p s)

-- the units of the order in that status
unfoldable pub units_in : (Status → Bool) → Executor → Result (List String)
unfolding has_status_in
units_in p x = sift (has_status_in p x) x.graph.order

abbrev or_none : List String → String
or_none us = if is_empty us then "none" else join ", " (sorted us)

abbrev pub composition_of : Executor → List UnitReport → Composition
composition_of x units = record {
  base_sha = x.base_sha;
  composed_tree_verified = true;
  tokens_spent = x.tokens_spent;
  invalidations = x.invalidations;
  lease_audit = x.leases.log;
  units = units;
}

-- `compose` reads the state and changes nothing
unfoldable pub compose : Executor → Result Composition
compose x = on_ok (units_in is_failed x) λ failures. on_ok (units_in is_blocked x) λ blocks.
    if not (is_empty failures) || not (is_empty blocks)
    then error (
        "unsafe fan-in refused: failed units "
        +++ or_none failures
        +++ "; blocked units "
        +++ or_none blocks
        +++ "; attested evidence preserved for: "
        +++ or_none (keep (is_attested x) x.graph.order))
    else (on_ok (unattested x) λ missing.
        if not (is_empty missing)
        then error (
            "only attested artifacts may enter composition; missing: "
            +++ join ", " (sorted missing))
        else if not (holds x.final_verification)
        then error
            "composition requires passed verification of the composed tree against the pinned base"
        else on_ok (reports x x.graph.order) (λ units. ok (composition_of x units)))
