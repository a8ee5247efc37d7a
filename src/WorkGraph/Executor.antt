-- ===== src/WorkGraph/Executor.antt =====
-- The state of `GraphExecutor` and its queries (src/agentic_sdlc/work_graph.py). A status that is missing is a
-- `KeyError`, a unit that is missing a `WorkGraphError`; one that runs was looked up when it started.
use agentic_sdlc.Base.{
  ℕ, String, Bool, true, false, not, ◌&&◌, Option, none, some, List, [], ◌∷◌, Result, ok, err,
  on_ok, work_graph_error, key_error, all, ltb, if◌then◌else◌,
}
use agentic_sdlc.Base.Dict
use agentic_sdlc.Base.Dict.{Dict}
use agentic_sdlc.MergeExecutor.{is_sha}
use agentic_sdlc.WorkGraph.Spec.{WorkGraph, get}
use agentic_sdlc.WorkGraph.Leases.{LeaseManager, no_leases}

pub data Status : Type 0 where
  pending running completed failed blocked : Status

abbrev pub is_running : Status → Bool
is_running running = true
is_running _ = false

abbrev pub is_pending : Status → Bool
is_pending pending = true
is_pending _ = false

abbrev pub is_completed : Status → Bool
is_completed completed = true
is_completed _ = false

abbrev pub is_failed : Status → Bool
is_failed failed = true
is_failed _ = false

abbrev pub is_blocked : Status → Bool
is_blocked blocked = true
is_blocked _ = false

abbrev pub status_text : Status → String
status_text pending = "pending"
status_text running = "running"
status_text completed = "completed"
status_text failed = "failed"
status_text blocked = "blocked"

pub record Executor : Type 0 where
  pub graph : WorkGraph
  pub base_sha : String
  pub max_parallel : ℕ
  pub total_token_budget : ℕ
  pub provider_limits : Dict ℕ
  pub leases : LeaseManager
  pub status : Dict Status
  pub artifacts : Dict String
  pub verified : Dict Bool
  pub agents : Dict String
  pub tokens_spent : ℕ
  pub invalidations : List String
  pub final_verification : Option Bool

-- {unit_id: "pending" for unit_id in graph.order}
unfoldable pub all_pending : List String → Dict Status
all_pending [] = []
all_pending (u ∷ us) = Dict.put u pending (all_pending us)

-- `__init__`
unfoldable pub new_executor : WorkGraph → String → ℕ → ℕ → Dict ℕ → Result Executor
new_executor graph base_sha max_parallel budget limits =
    if not (is_sha base_sha)
    then err (work_graph_error "base_sha must be a 40-character commit SHA")
    else if ltb max_parallel 1
    then err (work_graph_error "max_parallel must be positive")
    else ok (record {
      graph = graph;
      base_sha = base_sha;
      max_parallel = max_parallel;
      total_token_budget = budget;
      provider_limits = limits;
      leases = no_leases;
      status = all_pending graph.order;
      artifacts = [];
      verified = [];
      agents = [];
      tokens_spent = 0;
      invalidations = [];
      final_verification = none;
    })

-- self._status[unit_id]
unfoldable pub status_at : Executor → String → Result Status
status_at x unit_id = elim (Dict.get unit_id x.status) [
  | none ↦ err (key_error unit_id)
  | some s ↦ ok s
]

-- `true` is there
abbrev pub holds : Option Bool → Bool
holds none = false
holds (some b) = b

abbrev has_status : (Status → Bool) → Option Status → Bool
has_status p none = false
has_status p (some s) = p s

abbrev is_present {ℓ} : {A : Type ℓ} → Option A → Bool
is_present none = false
is_present (some a) = true

-- `_is_attested`
unfoldable pub is_attested : Executor → String → Bool
is_attested x unit_id =
    has_status is_completed (Dict.get unit_id x.status)
    && (holds (Dict.get unit_id x.verified) && is_present (Dict.get unit_id x.artifacts))

-- the body of the loop of `ready`: whether it takes the unit
unfoldable pub is_ready : Executor → String → Result Bool
is_ready x unit_id = on_ok (status_at x unit_id) λ s.
    if is_pending s
    then on_ok (get x.graph unit_id) (λ spec. ok (all (is_attested x) spec.depends_on))
    else ok false

-- the units that a test, which may raise, takes
unfoldable pub sift : (String → Result Bool) → List String → Result (List String)
sift test [] = ok []
sift test (u ∷ us) =
    on_ok (test u) λ hit. on_ok (sift test us) λ rest. ok (if hit then u ∷ rest else rest)

-- `ready`
unfoldable pub ready : Executor → Result (List String)
unfolding is_ready
ready x = sift (is_ready x) x.graph.order

-- `_running`
unfoldable pub running_units : Dict Status → List String
running_units [] = []
running_units ((u, s) ∷ rest) =
    let more = running_units rest in if is_running s then u ∷ more else more

-- the provider of a running unit; `start` has looked its spec up, so the default is not reached
unfoldable pub provider_of : WorkGraph → String → String
provider_of g unit_id = elim (Dict.get unit_id g.units) [ none ↦ "" | some spec ↦ spec.provider ]
