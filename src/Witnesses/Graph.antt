-- ===== src/Witnesses/Graph.antt =====
-- A graph of two units, the second after the first (src/agentic_sdlc/work_graph.py).
use agentic_sdlc.Base.Int.{pos}
use agentic_sdlc.Base.{
  Option, some, String, ◌≡◌, ◌≢◌, ◌↔◌, refl, List, none, [], ◌∷◌, ◌==◌, eq_iff, if◌then◌else◌, ok,
  arith, code_count, all_codes,
}
use agentic_sdlc.Base.Dict
use agentic_sdlc.MergeExecutor.{is_sha}
use agentic_sdlc.WorkGraph.Spec.{WorkUnitSpec, WorkGraph}
use agentic_sdlc.WorkGraph.Leases.{LeaseManager, no_leases, acquire, holder}
use agentic_sdlc.WorkGraph.Executor.{Executor, new_executor, all_pending}
use agentic_sdlc.WorkGraph.FanIn.{Composition, compose}
use agentic_sdlc.WorkGraph.Exclusive.{holder-acquire, acquire_exclusive}
use agentic_sdlc.WorkGraph.Limits.{IsBounded}
use agentic_sdlc.WorkGraph.Spec.{get}
use agentic_sdlc.AdaptiveScheduler.{fill_safe_slots}
use agentic_sdlc.AdaptiveScheduler.Filling.{fill_safe_slots-IsBounded}
use agentic_sdlc.WorkGraph.Calls.{Call, starts, fails, make_calls, make_calls-IsBounded}
use agentic_sdlc.WorkGraph.Composing.{IsComposable, compose_iff}

abbrev sha : String
sha = "aaaaaaaaaaaaaaaaaaaaaaaaaaaaaaaaaaaaaaaa"

abbrev spec_of : String → WorkUnitSpec
spec_of name = record {
  unit_id = name;
  mission_id = "m";
  mission_version = "1";
  output_artifact = name;
  depends_on = if name == "b" then "a" ∷ [] else [];
  owned_paths = name ∷ [];
  read_paths = [];
  write_paths = name ∷ [];
  shared_resources = [];
  verification_gates = [];
  concurrency_group = "g";
  composition = "independent-merge";
  provider = "p";
  timeout_seconds = 60;
  max_retries = 0;
  max_tokens = 10;
}

abbrev graph : WorkGraph
graph = record {
  units = ("a", spec_of "a") ∷ ("b", spec_of "b") ∷ [];
  order = "a" ∷ "b" ∷ [];
  ancestors = ("a", []) ∷ ("b", "a" ∷ []) ∷ [];
}

abbrev fresh : Executor
unfolding all_pending Dict.put
fresh = record {
  graph = graph;
  base_sha = sha;
  max_parallel = 1;
  total_token_budget = 100;
  provider_limits = ("p", 1) ∷ [];
  leases = no_leases;
  status = all_pending ("a" ∷ "b" ∷ []);
  artifacts = [];
  verified = [];
  agents = [];
  tokens_spent = 0;
  invalidations = [];
  final_verification = none;
}

abbrev calls : List Call
calls = starts "a" "x" 0 ∷ starts "b" "y" 0 ∷ fails "a" 5 "lost" ∷ starts "b" "y" 6 ∷ []

make_calls-IsBounded_example : IsBounded (make_calls calls fresh)
unfolding new_executor is_sha code_count all_codes fresh
make_calls-IsBounded_example = make_calls-IsBounded graph sha 1 100 (("p", 1) ∷ []) fresh calls refl

compose_iff_example :
    ((c : Composition) × (compose (make_calls calls fresh) ≡ ok c))
    ↔ IsComposable (make_calls calls fresh)
compose_iff_example = compose_iff (make_calls calls fresh)

abbrev leased : LeaseManager
leased = (acquire "r" "a" 10 60 no_leases).1

holder-acquire_example :
    (holder "r" 69 leased ≡ "a") × (holder "q" 80 leased ≡ holder "q" 80 no_leases)
unfolding acquire Dict.get
holder-acquire_example = holder-acquire "r" "a" "q" 10 60 69 80 no_leases refl (omega arith) refl

acquire_exclusive_example :
    ((acquire "r" "b" 69 5 leased).0 ≢ ok tt) × ((acquire "r" "b" 69 5 leased).1 ≡ leased)
unfolding acquire Dict.get
acquire_exclusive_example =
    acquire_exclusive "r" "a" "b" 10 69 60 5 no_leases refl
      (λ same. absurd (cc ((eq_iff "a" "b").1 same))) (omega arith)

abbrev agents : String → Option String
agents u = some "x"

fresh-IsBounded : IsBounded fresh
unfolding new_executor is_sha code_count all_codes fresh make_calls
fresh-IsBounded = make_calls-IsBounded graph sha 1 100 (("p", 1) ∷ []) fresh [] refl

fill_safe_slots-IsBounded_example : IsBounded (fill_safe_slots agents (pos 3) fresh).1
fill_safe_slots-IsBounded_example = fill_safe_slots-IsBounded agents (pos 3) fresh fresh-IsBounded
