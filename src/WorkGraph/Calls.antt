-- ===== src/WorkGraph/Calls.antt =====
-- The calls that change an executor as data, a history of them, and its bounds.
use agentic_sdlc.Base.Int.{ℤ}
use agentic_sdlc.Base.{
  ℕ, ◌≤◌, String, ◌≡◌, subst, ap, inl, inr, Bool, Bool-cases, true, List, [], ◌∷◌, ok, err, arith,
  ltb, ◌==◌,
}
use agentic_sdlc.Base.Dict.{Dict}
use agentic_sdlc.MergeExecutor.{is_sha}
use agentic_sdlc.WorkGraph.Spec.{WorkGraph}
use agentic_sdlc.WorkGraph.Executor.{
  pending, Executor, new_executor, all_pending, running_units, provider_of,
}
use agentic_sdlc.WorkGraph.Operations.{start, complete, fail}
use agentic_sdlc.WorkGraph.FanIn.{invalidate_upstream_change, record_final_verification}
use agentic_sdlc.WorkGraph.Calm.{tally, tally-put}
use agentic_sdlc.WorkGraph.Bounds.{complete-Calm, fail-Calm, invalidate-Calm, final-Calm}
use agentic_sdlc.WorkGraph.Limits.{length-keep_all, IsBounded, Calm-IsBounded, start-IsBounded}

pub data Call : Type 0 where
  starts : (unit_id agent_id : String) → (now : ℕ) → Call
  completes : (unit_id digest : String) → Bool → ℤ → (now : ℕ) → Call
  fails : (unit_id : String) → (now : ℕ) → (reason : String) → Call
  changes : (unit_id digest : String) → Call
  verifies : Bool → Call

-- A call that raises leaves what it had written.
unfoldable pub make_call : Call → Executor → Executor
make_call (starts u a now) x = (start u a now x).1
make_call (completes u d passed n now) x = (complete u d passed n now x).1
make_call (fails u now why) x = (fail u now why x).1
make_call (changes u d) x = (invalidate_upstream_change u d x).1
make_call (verifies passed) x = (record_final_verification passed x).1

unfoldable pub make_calls : List Call → Executor → Executor
make_calls [] x = x
make_calls (c ∷ cs) x = make_calls cs (make_call c x)

make_call-IsBounded : (c : Call) (x : Executor) → IsBounded x → IsBounded (make_call c x)
unfolding make_call
make_call-IsBounded (starts u a now) x b = start-IsBounded u a now x b
make_call-IsBounded (completes u d passed n now) x b =
    Calm-IsBounded (complete-Calm u d passed n now x) b
make_call-IsBounded (fails u now why) x b = Calm-IsBounded (fail-Calm u now why x) b
make_call-IsBounded (changes u d) x b = Calm-IsBounded (invalidate-Calm u d x) b
make_call-IsBounded (verifies passed) x b = Calm-IsBounded (final-Calm passed x) b

kept-IsBounded : (cs : List Call) (x : Executor) → IsBounded x → IsBounded (make_calls cs x)
unfolding make_calls
kept-IsBounded [] x b = b
kept-IsBounded (c ∷ cs) x b = kept-IsBounded cs (make_call c x) (make_call-IsBounded c x b)

no_units : (q : String → Bool) (us : List String) → tally q (all_pending us) ≤ 0
unfolding all_pending running_units
no_units q [] = omega arith
no_units q (u ∷ us) =
    let bound = tally-put q u pending (all_pending us) in omega (arith, bound, no_units q us)

none_running : (x : Executor) → ((q : String → Bool) → tally q x.status ≤ 0) → IsBounded x
none_running x none_of = record {
  slots =
      let all_of = rw (length-keep_all (running_units x.status)) at (none_of (λ _. true)) in
      omega (arith, all_of);
  providers = λ p limit _ _. omega (arith, none_of (λ u. provider_of x.graph u == p));
}

new-IsBounded :
    (g : WorkGraph) (sha : String) (max budget : ℕ) (limits : Dict ℕ) (x : Executor)
    → new_executor g sha max budget limits ≡ ok x
    → IsBounded x
unfolding new_executor
new-IsBounded g sha max budget limits x h = elim (Bool-cases (is_sha sha)) [
  | inr bad ↦ absurd (let h' = rw bad at h in cc)
  | inl good ↦ elim (Bool-cases (ltb max 1)) [
    | inl none_max ↦ absurd (let h' = rw (good, none_max) at h in cc)
    | inr some_max ↦
        let h' = rw (good, some_max) at h in
        none_running x λ q.
          subst (λ d. tally q d ≤ 0)
            (ap (λ r. elim r [ ok y ↦ y.status | err _ ↦ all_pending g.order ]) h')
            (no_units q g.order)
  ]
]

-- Whatever calls were made on a new executor, in whatever order, and whether they raised or not: never
-- more units run than `max_parallel`, and of a provider with a limit never more than the limit.
pub make_calls-IsBounded :
    (g : WorkGraph) (sha : String) (max budget : ℕ) (limits : Dict ℕ) (x : Executor)
    (cs : List Call)
    → new_executor g sha max budget limits ≡ ok x
    → IsBounded (make_calls cs x)
make_calls-IsBounded g sha max budget limits x cs h =
    kept-IsBounded cs x (new-IsBounded g sha max budget limits x h)
