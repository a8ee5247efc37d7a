-- ===== src/WorkGraph/Operations.antt =====
-- The operations of `GraphExecutor` that change its state (src/agentic_sdlc/work_graph.py).
use agentic_sdlc.Base.Int.{ℤ, pos, is_negative}
use agentic_sdlc.Base.{
  ℕ, suc, ◌+◌, String, ◌+++◌, Bool, true, false, not, ◌&&◌, Option, none, some, List, [], ◌∷◌, ◌++◌,
  Exec, Result, ok, err, on_ok, work_graph_error, ◌>>=◌, ◌>>◌, pure, lift, modify, require, keep,
  length, is_empty, join, sorted, show, leb, ltb, nat_eq, given, code_count, begins_with, codes,
  if◌then◌else◌, ◌==◌,
}
use agentic_sdlc.Base.Dict
use agentic_sdlc.Base.Dict.{Dict}
use agentic_sdlc.MergeExecutor.{is_hex}
use agentic_sdlc.WorkGraph.Spec.{WorkUnitSpec, get, is_ancestor}
use agentic_sdlc.WorkGraph.Leases.{LeaseManager, acquire, release}
use agentic_sdlc.WorkGraph.Executor.{
  Status, pending, running, completed, failed, blocked, is_pending, is_running, status_text,
  Executor, status_at, is_attested, running_units, provider_of,
}

abbrev pub error {ℓ} : {A : Type ℓ} → String → Result A
error message = err (work_graph_error message)

-- the pending test of `start`
abbrev pub require_pending : String → Status → Result (Unit {0})
require_pending unit_id s =
    if is_pending s
    then ok tt
    else error ("unit " +++ unit_id +++ " is not pending (" +++ status_text s +++ ")")

-- sorted(dep for dep in depends_on if not self._is_attested(dep))
abbrev pub unmet : Executor → WorkUnitSpec → List String
unmet x spec = sorted (keep (λ d. not (is_attested x d)) spec.depends_on)

abbrev pub require_attested : String → List String → Result (Unit {0})
require_attested unit_id deps =
    if is_empty deps
    then ok tt
    else error ("unit " +++ unit_id +++ " has unattested dependencies: " +++ join ", " deps)

-- the limit of the provider, if it has one, is not reached
abbrev pub within_limit : String → ℕ → Option ℕ → Result (Unit {0})
within_limit provider active none = ok tt
within_limit provider active (some limit) =
    if leb limit active
    then error ("provider " +++ provider +++ " concurrency limit " +++ show limit +++ " reached")
    else ok tt

-- the running units of the provider
abbrev pub active_of : Executor → String → List String
active_of x provider =
    keep (λ other. provider_of x.graph other == provider) (running_units x.status)

abbrev pub require_provider : Executor → String → Result (Unit {0})
require_provider x provider =
    if given provider
    then within_limit provider (length (active_of x provider)) (Dict.get provider x.provider_limits)
    else ok tt

abbrev pub require_slot : Executor → String → Result (Unit {0})
require_slot x unit_id =
    if leb x.max_parallel (length (running_units x.status))
    then error (
        "maximum parallelism "
        +++ show x.max_parallel
        +++ " reached; "
        +++ unit_id
        +++ " must wait")
    else ok tt

abbrev pub require_tokens : Executor → WorkUnitSpec → String → Result (Unit {0})
require_tokens x spec unit_id =
    if ltb x.total_token_budget (x.tokens_spent + spec.max_tokens)
    then error (
        "starting "
        +++ unit_id
        +++ " would exceed the total token budget ("
        +++ show x.tokens_spent
        +++ " spent, "
        +++ show spec.max_tokens
        +++ " requested, "
        +++ show x.total_token_budget
        +++ " allowed)")
    else ok tt

-- the checks of `start` behind the pending test, in their order
unfoldable pub check_start : Executor → WorkUnitSpec → String → Exec Executor (Unit {0})
check_start x spec unit_id = do
  lift (require_attested unit_id (unmet x spec))
  lift (require_slot x unit_id)
  lift (require_provider x spec.provider)
  lift (require_tokens x spec unit_id)

-- a call on the lease manager
abbrev pub on_leases : Exec LeaseManager (Unit {0}) → Exec Executor (Unit {0})
on_leases call x = let (r, m) = call x.leases in (r, record x { leases = m })

-- (*owned_paths, *shared_resources)
abbrev pub resources : WorkUnitSpec → List String
resources spec = spec.owned_paths ++ spec.shared_resources

-- the loop that acquires: one that is refused leaves those before it acquired
unfoldable pub acquire_all : List String → String → ℕ → ℕ → Exec Executor (Unit {0})
acquire_all [] unit_id now ttl = pure tt
acquire_all (r ∷ rs) unit_id now ttl = do
  on_leases (acquire r unit_id now ttl)
  acquire_all rs unit_id now ttl

unfoldable pub release_all : List String → String → ℕ → Exec Executor (Unit {0})
release_all [] unit_id now = pure tt
release_all (r ∷ rs) unit_id now = do on_leases (release r unit_id now); release_all rs unit_id now

-- self._status[unit_id] = status
unfoldable pub set_status : String → Status → Executor → Executor
set_status unit_id s x = record x { status = Dict.put unit_id s x.status }

unfoldable pub begin_unit : String → String → Executor → Executor
begin_unit unit_id agent_id x = record x {
  status = Dict.put unit_id running x.status;
  agents = Dict.put unit_id agent_id x.agents;
}

-- f"workspaces/{unit_id}"
abbrev pub workspace : String → String
workspace unit_id = "workspaces/" +++ unit_id

unfoldable pub start : String → String → ℕ → Exec Executor String
start unit_id agent_id now = do
  spec ← λ x. (get x.graph unit_id, x)
  s ← λ x. (status_at x unit_id, x)
  lift (require_pending unit_id s)
  λ x. check_start x spec unit_id x
  acquire_all (resources spec) unit_id now spec.timeout_seconds
  modify (begin_unit unit_id agent_id)
  pure (workspace unit_id)

-- ^sha256:[0-9a-f]{64}$
unfoldable pub is_digest : String → Bool
is_digest s =
    nat_eq (code_count s) 71
    && (begins_with (codes "sha256:") (codes s) && all_hex (drop_codes 7 (codes s)))
  where
    drop_codes : ℕ → List ℕ → List ℕ
    drop_codes ℕ.zero cs = cs
    drop_codes (suc n) [] = []
    drop_codes (suc n) (c ∷ cs) = drop_codes n cs

    all_hex : List ℕ → Bool
    all_hex [] = true
    all_hex (c ∷ cs) = is_hex c && all_hex cs

-- "pending" or "running": what a failure upstream blocks
abbrev pub is_open : Status → Bool
is_open pending = true
is_open running = true
is_open _ = false

-- unit_id in self.graph.ancestors[other_id] and self._status[other_id] in (...)
unfoldable pub is_hit : (Status → Bool) → String → String → Executor → Result Bool
is_hit test unit_id other_id x =
    on_ok (is_ancestor x.graph unit_id other_id)
      λ above. if above then on_ok (status_at x other_id) (λ s. ok (test s)) else ok false

unfoldable pub block_unit : String → String → String → Executor → Executor
block_unit other_id unit_id reason x = record x {
  status = Dict.put other_id blocked x.status;
  invalidations =
      x.invalidations ++ (other_id +++ " blocked: " +++ reason +++ " (" +++ unit_id +++ ")") ∷ [];
}

-- `_block_downstream`: the loop over the order
unfoldable pub block_downstream : List String → String → String → Exec Executor (Unit {0})
block_downstream [] unit_id reason = pure tt
block_downstream (o ∷ os) unit_id reason = do
  hit ← λ x. (is_hit is_open unit_id o x, x)
  modify (λ x. if hit then block_unit o unit_id reason x else x)
  block_downstream os unit_id reason

abbrev pub block : String → String → Exec Executor (Unit {0})
block unit_id reason x = block_downstream x.graph.order unit_id reason x

abbrev pub require_running : String → Status → Result (Unit {0})
require_running unit_id s =
    if is_running s then ok tt else error ("unit " +++ unit_id +++ " is not running")

abbrev pub amount : ℤ → ℕ
amount (pos n) = n
amount _ = 0

-- what `complete` writes before it releases the leases
unfoldable pub record_artifact : String → String → Bool → ℕ → Executor → Executor
record_artifact unit_id digest verification_passed tokens x = record x {
  tokens_spent = x.tokens_spent + tokens;
  status = Dict.put unit_id (if verification_passed then completed else failed) x.status;
  verified = Dict.put unit_id verification_passed x.verified;
  artifacts = Dict.put unit_id digest x.artifacts;
}

unfoldable pub complete : String → String → Bool → ℤ → ℕ → Exec Executor (Unit {0})
complete unit_id digest verification_passed tokens_used now = do
  spec ← λ x. (get x.graph unit_id, x)
  s ← λ x. (status_at x unit_id, x)
  lift (require_running unit_id s)
  require (is_digest digest) (work_graph_error "artifact digest must use sha256:<hex> form")
  require (not (is_negative tokens_used)) (work_graph_error "tokens_used cannot be negative")
  modify (record_artifact unit_id digest verification_passed (amount tokens_used))
  release_all (resources spec) unit_id now
  if verification_passed then pure tt else block unit_id "upstream verification failed"

-- `fail`
unfoldable pub fail : String → ℕ → String → Exec Executor (Unit {0})
fail unit_id now reason = do
  spec ← λ x. (get x.graph unit_id, x)
  s ← λ x. (status_at x unit_id, x)
  lift (require_running unit_id s)
  modify (set_status unit_id failed)
  release_all (resources spec) unit_id now
  block unit_id (if given reason then reason else "upstream unit failed")
