-- ===== src/Policy/Limits.antt =====
-- What `evaluate_diff` and `evaluate_task` (src/agentic_sdlc/policy.py) let through.
use agentic_sdlc.Base.{
  ℕ, ◌+◌, ◌≤◌, String, ◌≡◌, ◌↔◌, refl, subst, Bool, true, false, not, ◌&&◌, List, [], ◌∷◌, ok,
  length, keep, keep_none, all, All, is_empty, sorted, is_empty-sorted, arith, ltb, ◌++◌,
}
use agentic_sdlc.Base.Int.{pos}
use agentic_sdlc.Policy.{ProjectPolicy}
use agentic_sdlc.Policy.Paths.{matches, matches_folded}
use agentic_sdlc.Policy.Decisions.{
  PolicyDecision, critical, when, evaluate_diff, judge_diff, diff_reasons, diff_risk, forbidden_of,
  protected_of, is_low,
}

module _ (casefold : List ℕ → List ℕ) where
  -- The change keeps the caps of the policy and touches no forbidden path.
  pub record IsWithin (paths : List String) (total patch : ℕ) (policy : ProjectPolicy)
      : Type 0 where
    pub files : length paths ≤ policy.max_changed_files
    pub lines : total ≤ policy.max_diff_lines
    pub bytes : patch ≤ policy.max_patch_bytes
    pub forbidden : All (λ p. matches_folded casefold p policy.forbidden_paths ≡ false) paths

  pub record IsHarmless (paths : List String) (total patch : ℕ) (policy : ProjectPolicy)
      : Type 0 where
    pub within : IsWithin paths total patch policy
    pub protected : All (λ p. matches_folded casefold p policy.protected_paths ≡ false) paths
    pub some_path : is_empty paths ≡ false
    pub low_risk : All (λ p. matches p policy.low_risk_paths ≡ true) paths
    pub no_human : policy.human_merge_required ≡ false

none_sorted :
    (p : String → Bool) (xs : List String)
    → (is_empty (sorted (keep p xs)) ≡ true) ↔ All (λ x. p x ≡ false) xs
none_sorted p xs = (
  (λ h. (keep_none p xs).0 (is_empty-sorted (keep p xs) h)),
  (λ h. empty_sorted (keep p xs) ((keep_none p xs).1 h)),
)
  where
    empty_sorted : (ys : List String) → is_empty ys ≡ true → is_empty (sorted ys) ≡ true
    empty_sorted [] h = refl
    empty_sorted (y ∷ ys) h = absurd cc

all-All : (p : String → Bool) (xs : List String) → (all p xs ≡ true) ↔ All (λ x. p x ≡ true) xs
all-All p [] = ((λ _. tt), (λ _. refl))
all-All p (x ∷ xs) = (
  (λ h. (ground arith, (all-All p xs).0 (ground arith))),
  (λ h. let rest = (all-All p xs).1 h.1 in ground arith),
)

pub is_empty-append : (xs ys : List String) → is_empty (xs ++ ys) ≡ (is_empty xs && is_empty ys)
is_empty-append [] ys = refl
is_empty-append (x ∷ xs) ys = refl

pub is_empty-when : (t : Bool) (item : String) → is_empty (when t item) ≡ not t
is_empty-when true item = refl
is_empty-when false item = refl

pub not-not : (b : Bool) → not (not b) ≡ b
not-not true = refl
not-not false = refl

module _ (casefold : List ℕ → List ℕ) (paths : List String) (policy : ProjectPolicy) where
  no_reasons :
      (total patch : ℕ)
      → is_empty (diff_reasons casefold paths total patch policy) ≡ (
          not (ltb policy.max_changed_files (length paths))
          && (not (ltb policy.max_diff_lines total)
              && (not (ltb policy.max_patch_bytes patch)
                  && is_empty (forbidden_of casefold paths policy))))
  unfolding diff_reasons
  no_reasons total patch = simp (is_empty-append, is_empty-when, not-not)

  allowed-IsWithin :
      (total patch : ℕ)
      → (is_empty (diff_reasons casefold paths total patch policy) ≡ true)
        ↔ IsWithin casefold paths total patch policy
  unfolding forbidden_of
  allowed-IsWithin total patch =
      let clear = none_sorted (λ p. matches_folded casefold p policy.forbidden_paths) paths in
      let reasons = no_reasons total patch in
      (
        (λ h. record {
          files = ground arith;
          lines = ground arith;
          bytes = ground arith;
          forbidden = clear.0 (ground arith);
        }),
        (λ w.
            let none_forbidden = clear.1 w.forbidden in ground (arith, w.files, w.lines, w.bytes)),
      )

  low_risk_only :
      (reasons : List String)
      → is_low (diff_risk casefold reasons paths policy) ≡ (
          is_empty reasons
          && (is_empty (protected_of casefold paths policy)
              && (not (is_empty paths) && all (λ p. matches p policy.low_risk_paths) paths)))
  unfolding diff_risk
  low_risk_only reasons = ground arith

  critical_only :
      (reasons : List String)
      → (diff_risk casefold reasons paths policy ≡ critical) ↔ (is_empty reasons ≡ false)
  unfolding diff_risk
  critical_only reasons = ground arith

  automatic-IsHarmless :
      (total patch : ℕ)
      → ((judge_diff casefold paths total patch policy).automatic_merge_allowed ≡ true)
        ↔ IsHarmless casefold paths total patch policy
  unfolding judge_diff protected_of
  automatic-IsHarmless total patch =
      let clear = none_sorted (λ p. matches_folded casefold p policy.protected_paths) paths in
      let low_paths = all-All (λ p. matches p policy.low_risk_paths) paths in
      let allowed = allowed-IsWithin total patch in
      let low_only = low_risk_only (diff_reasons casefold paths total patch policy) in
      (
        (λ h. record {
          within = allowed.0 (ground arith);
          protected = clear.0 (ground arith);
          some_path = ground arith;
          low_risk = low_paths.0 (ground arith);
          no_human = ground arith;
        }),
        (λ w.
            let fits = allowed.1 w.within in
            let unprotected = clear.1 w.protected in
            let lows = low_paths.1 w.low_risk in ground (arith, w.some_path, w.no_human)),
      )

  -- A diff with these paths and these counts is allowed exactly when it keeps the three caps of the policy
  -- and none of its paths, with case folded, matches a forbidden one; it is merged without a human exactly
  -- when moreover it has a path, each matches a low-risk one, none a protected one, and the policy asks
  -- for no human; and its risk is critical exactly when it is not allowed.
  pub evaluate_diff-verdict :
      (added deleted patch : ℕ) (d : PolicyDecision)
      → evaluate_diff casefold paths (pos added) (pos deleted) policy (pos patch) ≡ ok d
      → ((d.allowed ≡ true) ↔ IsWithin casefold paths (added + deleted) patch policy)
        × ((d.automatic_merge_allowed ≡ true)
            ↔ IsHarmless casefold paths (added + deleted) patch policy)
        × ((d.risk ≡ critical) ↔ (d.allowed ≡ false))
  unfolding evaluate_diff judge_diff diff_risk protected_of
  evaluate_diff-verdict added deleted patch d h =
      let same : judge_diff casefold paths (added + deleted) patch policy ≡ d = cc in
      subst Verdict same (
        allowed-IsWithin (added + deleted) patch,
        automatic-IsHarmless (added + deleted) patch,
        critical_only (diff_reasons casefold paths (added + deleted) patch policy),
      )
    where
      Verdict : PolicyDecision → Type 0
      Verdict e =
          ((e.allowed ≡ true) ↔ IsWithin casefold paths (added + deleted) patch policy)
          × ((e.automatic_merge_allowed ≡ true)
              ↔ IsHarmless casefold paths (added + deleted) patch policy)
          × ((e.risk ≡ critical) ↔ (e.allowed ≡ false))
