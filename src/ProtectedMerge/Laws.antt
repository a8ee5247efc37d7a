-- ===== src/ProtectedMerge/Laws.antt =====
-- A merge happens only on evidence that was collected for the exact head of the request.
use agentic_sdlc.Base.Int.{ℤ}
use agentic_sdlc.Base.{
  String, ◌≡◌, refl, ap, true, inl, inr, List, [], ◌∷◌, ◌++◌, Result, ok, err, eq_iff, ◌==◌,
  Bool-cases, ◌⊎◌,
}
use agentic_sdlc.Autonomy.{GateEvidence}
use agentic_sdlc.MergeEvidence.{MergeEvidencePolicy, normalize_merge_evidence}
use agentic_sdlc.MergeEvidence.Laws.{Proven, normalize-Proven}
use agentic_sdlc.MergeExecutor.{MergeRequest, GatewayResult, MergeOutcome, is_sha}
use agentic_sdlc.MergeExecutor.Laws.{execute_cases, execute-merged}
use agentic_sdlc.ProtectedMerge.{
  Collected, Collection, collected, failed, Context, evidence_input, with_evidence, with_collection,
  protected_merge,
}

module _ (r : MergeRequest) (collect : String → ℤ → Collection) (x : Context)
    (p : MergeEvidencePolicy) where
  -- The collected evidence is of the request's head, and proves every gate.
  pub record Grounded (c : Collected) : Type 0 where
    pub answered : collect r.repository r.pull_request_number ≡ collected c
    pub same_head : c.head_sha ≡ r.expected_head_sha
    pub proven : Proven (evidence_input c x) p

-- The gateway merged the request, and its SHA is the outcome's.
pub record Reported (gateway : MergeRequest → Result GatewayResult) (r : MergeRequest)
    (o : MergeOutcome) : Type 0 where
  pub result : GatewayResult
  pub answered : gateway r ≡ ok result
  pub merged : result.merged ≡ true
  pub same_sha : o.merge_sha ≡ result.merge_sha
  pub is_commit : is_sha result.merge_sha ≡ true

module _ (gateway : MergeRequest → Result GatewayResult) (r : MergeRequest)
    (collect : String → ℤ → Collection) (x : Context) (p : MergeEvidencePolicy) where
  with_evidence_calls :
      (c : Collected) (n : Result GateEvidence) (calls : List MergeRequest)
      → normalize_merge_evidence (evidence_input c x) p ≡ n
      → ((with_evidence gateway r n calls).1 ≡ calls)
        ⊎ (Proven (evidence_input c x) p × ((with_evidence gateway r n calls).1 ≡ calls ++ r ∷ []))
  unfolding with_evidence
  with_evidence_calls c (err e) calls h = inl refl
  with_evidence_calls c (ok e) calls h = elim (execute_cases gateway r e calls) [
    | inl (same, _) ↦ inl same
    | inr (adm, ran) ↦
        inr (normalize-Proven (evidence_input c x) p e h adm.common adm.gates, ap (λ y. y.1) ran)
  ]

  with_evidence-merged :
      (c : Collected) (n : Result GateEvidence) (calls : List MergeRequest) (o : MergeOutcome)
      → normalize_merge_evidence (evidence_input c x) p ≡ n
      → (with_evidence gateway r n calls).0 ≡ ok o
      → o.merged ≡ true
      → Proven (evidence_input c x) p
        × ((with_evidence gateway r n calls).1 ≡ calls ++ r ∷ [])
        × Reported gateway r o
  unfolding with_evidence
  with_evidence-merged c (err e) calls o n h m = cc
  with_evidence-merged c (ok e) calls o n h m =
      let (adm, made, (g, answered, merged, sha, commit)) =
        execute-merged gateway r e calls o h m in
      (
        normalize-Proven (evidence_input c x) p e n adm.common adm.gates,
        made,
        record {
          result = g;
          answered = answered;
          merged = merged;
          same_sha = sha;
          is_commit = commit;
        },
      )

  -- Whatever the collector and the gateway answer, the gateway is called at most once, with the
  -- request itself; and a call means that the evidence collected for it is of exactly the requested
  -- head and proves every gate.
  pub protected_merge_calls :
      (calls : List MergeRequest)
      → ((protected_merge gateway r collect x p calls).1 ≡ calls)
        ⊎ ((c : Collected) × Grounded r collect x p c
            × ((protected_merge gateway r collect x p calls).1 ≡ calls ++ r ∷ []))
  unfolding protected_merge
  protected_merge_calls calls = go (collect r.repository r.pull_request_number) refl
    where
      go :
          (n : Collection)
          → collect r.repository r.pull_request_number ≡ n
          → ((with_collection gateway r x p n calls).1 ≡ calls)
            ⊎ ((c : Collected) × Grounded r collect x p c
                × ((with_collection gateway r x p n calls).1 ≡ calls ++ r ∷ []))
      go (failed name) h = inl refl
      go (collected c) h = elim (Bool-cases (c.head_sha == r.expected_head_sha)) [
        | inr moved ↦ inl (rw moved refl)
        | inl same ↦
            elim (with_evidence_calls c (normalize_merge_evidence (evidence_input c x) p) calls
              refl) [
                | inl none_made ↦ inl (rw same none_made)
                | inr (proof, made) ↦ inr (
                  c,
                  record { answered = h; same_head = (eq_iff _ _).0 same; proven = proof },
                  rw same made,
                )
              ]
      ]

  -- A merged outcome means that the evidence was collected for exactly the requested head and proves
  -- every gate, that the gateway was called once with the request, and that it reported the merge with
  -- the commit SHA of the outcome.
  pub protected_merge-merged :
      (calls : List MergeRequest) (o : MergeOutcome)
      → (protected_merge gateway r collect x p calls).0 ≡ ok o
      → o.merged ≡ true
      → (c : Collected) × Grounded r collect x p c
        × ((protected_merge gateway r collect x p calls).1 ≡ calls ++ r ∷ [])
        × Reported gateway r o
  unfolding protected_merge
  protected_merge-merged calls o = go (collect r.repository r.pull_request_number) refl
    where
      go :
          (n : Collection)
          → collect r.repository r.pull_request_number ≡ n
          → (with_collection gateway r x p n calls).0 ≡ ok o
          → o.merged ≡ true
          → (c : Collected) × Grounded r collect x p c
            × ((with_collection gateway r x p n calls).1 ≡ calls ++ r ∷ [])
            × Reported gateway r o
      go (failed name) n h m = cc
      go (collected c) n h m = elim (Bool-cases (c.head_sha == r.expected_head_sha)) [
        | inr moved ↦ let refusal = rw moved at h in cc
        | inl same ↦
            let (proof, made, reported) =
              with_evidence-merged c (normalize_merge_evidence (evidence_input c x) p) calls o refl
                (rw same at h) m in
            (
              c,
              record { answered = n; same_head = (eq_iff _ _).0 same; proven = proof },
              rw same made,
              reported,
            )
      ]
