-- ===== src/MergeExecutor/Laws.antt =====
-- When the executor calls the gateway, and what a merged outcome stands for.
use agentic_sdlc.Base.{
  ◌≡◌, refl, ◌⊎◌, inl, inr, true, false, List, [], ◌∷◌, ◌++◌, ap, sym, ◌∙◌, Result, ok, err, none,
  arith, Option-cases, Bool-cases, Result-cases,
}
use agentic_sdlc.Autonomy.{GateEvidence, merge, evaluate_autonomy}
use agentic_sdlc.Autonomy.Laws.{CommonGates, MergeGates, merge_allowed_iff}
use agentic_sdlc.MergeExecutor.{
  MergeRequest, GatewayResult, MergeOutcome, is_sha, validate_request, outcome_of, after_validation,
  execute,
}

-- What holds when the executor calls the gateway.
pub record Admitted (r : MergeRequest) (e : GateEvidence) : Type 0 where
  pub valid : validate_request r ≡ none
  pub common : CommonGates e
  pub gates : MergeGates e

-- the answer of the executor to an answer of the gateway
abbrev pub answer : Result GatewayResult → Result MergeOutcome
answer (ok g) = ok (outcome_of g)
answer (err x) = err x

merged-outcome_of :
    (g : GatewayResult)
    → (outcome_of g).merged ≡ true
    → (g.merged ≡ true) × ((outcome_of g).merge_sha ≡ g.merge_sha) × (is_sha g.merge_sha ≡ true)
unfolding outcome_of
merged-outcome_of g h = ground arith

module _ (gateway : MergeRequest → Result GatewayResult) (r : MergeRequest) (e : GateEvidence) where
  after_validation_calls :
      (calls : List MergeRequest)
      → (evaluate_autonomy merge e).allowed ≡ true
      → after_validation gateway none r e calls ≡ (answer (gateway r), calls ++ r ∷ [])
  unfolding after_validation
  after_validation_calls calls h = rw h (ground arith)

  -- The gateway is called at most once and with the request itself, exactly when the request is
  -- well formed and every gate holds; without a call nothing is merged or allowed.
  pub execute_cases :
      (calls : List MergeRequest)
      → (((execute gateway r e calls).1 ≡ calls)
          × ((o : MergeOutcome) × ((execute gateway r e calls).0 ≡ ok o)
              × (o.merged ≡ false)
              × (o.allowed ≡ false)))
        ⊎ (Admitted r e × (execute gateway r e calls ≡ (answer (gateway r), calls ++ r ∷ [])))
  unfolding execute
  execute_cases calls = elim (Option-cases (validate_request r)) [
    | inr (why, invalid) ↦ inl (rw invalid (refl, (_, refl, refl, refl)))
    | inl valid ↦ elim (Bool-cases (evaluate_autonomy merge e).allowed) [
      | inl allowed ↦ inr (
        record {
          valid = valid;
          common = ((merge_allowed_iff e).0 allowed).0;
          gates = ((merge_allowed_iff e).0 allowed).1;
        },
        rw valid (after_validation_calls calls allowed),
      )
      | inr denied ↦ inl (rw valid (rw denied (refl, (_, refl, refl, refl))))
    ]
  ]

  gateway_reported :
      (o : MergeOutcome)
      → answer (gateway r) ≡ ok o
      → o.merged ≡ true
      → (g : GatewayResult) × (gateway r ≡ ok g)
        × (g.merged ≡ true)
        × (o.merge_sha ≡ g.merge_sha)
        × (is_sha g.merge_sha ≡ true)
  gateway_reported o h m = elim (Result-cases (gateway r)) [
    | inl (g, answered) ↦
        let same : ok (outcome_of g) ≡ ok o = cc in
        (
          g,
          answered,
          ground (arith, merged-outcome_of g),
          ground (arith, merged-outcome_of g),
          ground (arith, merged-outcome_of g),
        )
    | inr (x, raised) ↦ cc
  ]

  -- A merged outcome means that the request was well formed, every gate held, the gateway was called
  -- once with this request and reported the merge, and its commit SHA is well formed and passed on.
  pub execute-merged :
      (calls : List MergeRequest) (o : MergeOutcome)
      → (execute gateway r e calls).0 ≡ ok o
      → o.merged ≡ true
      → Admitted r e
        × ((execute gateway r e calls).1 ≡ calls ++ r ∷ [])
        × ((g : GatewayResult) × (gateway r ≡ ok g)
            × (g.merged ≡ true)
            × (o.merge_sha ≡ g.merge_sha)
            × (is_sha g.merge_sha ≡ true))
  execute-merged calls o h m = elim (execute_cases calls) [
    | inl (_, (p, returned, not_merged, _)) ↦ cc
    | inr (adm, ran) ↦ (adm, ap (λ x. x.1) ran, gateway_reported o (sym (ap (λ x. x.0) ran) ∙ h) m)
  ]
