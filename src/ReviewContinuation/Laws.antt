-- ===== src/ReviewContinuation/Laws.antt =====
-- Exactly when a review is followed by a repair, by a merge request, by nothing.
use agentic_sdlc.Base.Int.{ℤ, pos, negsuc, is_negative, le_ℤ}
use agentic_sdlc.Base.{
  ℕ, suc, String, ◌≡◌, refl, sym, ap, ◌∙◌, ◌↔◌, ◌≢◌, ◌⊎◌, inl, inr, true, false, arith, ◌≤◌, ◌<◌,
  eq_iff, strip, codes, map_codes, same_codes_iff, Bool-cases,
}
use agentic_sdlc.Autonomy.{merge, evaluate_autonomy}
use agentic_sdlc.Autonomy.Laws.{CommonGates, MergeGates, merge_allowed_iff}
use agentic_sdlc.ReviewContinuation.{
  Review, normalize_code, repair, merge_action, requests_changes, approves, is_exact,
  decide_review_continuation,
}

below_budget : (c m : ℕ) → le_ℤ (pos m) (pos c) ≡ false → suc c ≤ m
below_budget c m h = ground arith

-- The verdict is the word, once the spaces around it are taken off, its letters made small and its
-- hyphens underscores.
abbrev pub Reads : String → String → Type 0
Reads verdict word = map_codes normalize_code (strip verdict) ≡ codes word

-- The review names a commit, the one that is the head now, and the counters are not negative.
abbrev pub IsCurrent : Review → ℕ → ℕ → Type 0
IsCurrent r cycle most =
    (r.reviewed_head_sha ≢ "")
    × (r.reviewed_head_sha ≡ r.current_head_sha)
    × (r.repair_cycle ≡ pos cycle)
    × (r.max_repair_cycles ≡ pos most)

is_exact_iff :
    (r : Review)
    → (is_exact r ≡ true)
      ↔ ((r.reviewed_head_sha ≢ "") × (r.reviewed_head_sha ≡ r.current_head_sha))
is_exact_iff r =
    ground (arith, eq_iff r.reviewed_head_sha "", eq_iff r.reviewed_head_sha r.current_head_sha)

counted : (a : ℤ) → is_negative a ≡ false → (n : ℕ) × (a ≡ pos n)
counted (pos n) h = (n, refl)
counted (negsuc n) h = absurd cc

requests_changes_iff :
    (v : String)
    → (requests_changes v ≡ true) ↔ (Reads v "changes_requested" ⊎ Reads v "request_changes")
unfolding requests_changes
requests_changes_iff v = ground (
  arith,
  same_codes_iff (map_codes normalize_code (strip v)) (codes "changes_requested"),
  same_codes_iff (map_codes normalize_code (strip v)) (codes "request_changes"),
)

approves_iff : (v : String) → (approves v ≡ true) ↔ (Reads v "approved" ⊎ Reads v "approve")
unfolding approves
approves_iff v = ground (
  arith,
  same_codes_iff (map_codes normalize_code (strip v)) (codes "approved"),
  same_codes_iff (map_codes normalize_code (strip v)) (codes "approve"),
)

-- A verdict that approves requests no changes: the words differ.
approved_only : (v : String) → Reads v "approved" ⊎ Reads v "approve" → requests_changes v ≡ false
approved_only v h = elim (Bool-cases (requests_changes v)) [
  | inr quiet ↦ quiet
  | inl changes ↦ elim h [
    | inl a ↦ elim ((requests_changes_iff v).0 changes) [
      | inl b ↦ absurd (let c : codes "approved" ≡ codes "changes_requested" = sym a ∙ b in cc)
      | inr b ↦ absurd (let c : codes "approved" ≡ codes "request_changes" = sym a ∙ b in cc)
    ]
    | inr a ↦ elim ((requests_changes_iff v).0 changes) [
      | inl b ↦ absurd (let c : codes "approve" ≡ codes "changes_requested" = sym a ∙ b in cc)
      | inr b ↦ absurd (let c : codes "approve" ≡ codes "request_changes" = sym a ∙ b in cc)
    ]
  ]
]

repair_path :
    (r : Review)
    → ((decide_review_continuation r).action ≡ repair) ↔ (
        (is_exact r ≡ true)
        × (is_negative r.repair_cycle ≡ false)
        × (is_negative r.max_repair_cycles ≡ false)
        × (requests_changes r.verdict ≡ true)
        × (le_ℤ r.max_repair_cycles r.repair_cycle ≡ false))
unfolding decide_review_continuation
repair_path r = ground arith

-- A repair follows exactly a review that names a commit, the current head, and whose verdict reads
-- "changes_requested" or "request_changes", while the counters are not negative and the cycle is below
-- the budget.
pub repair_iff :
    (r : Review)
    → ((decide_review_continuation r).action ≡ repair) ↔ (
        (cycle : ℕ) × (most : ℕ) × IsCurrent r cycle most
        × (cycle < most)
        × (Reads r.verdict "changes_requested" ⊎ Reads r.verdict "request_changes"))
repair_iff r = (
  (λ h.
      let (exact, cycle, most, changes, below) = (repair_path r).0 h in
      let (named, same) = (is_exact_iff r).0 exact in
      let (c, at) = counted r.repair_cycle cycle in
      let (m, top) = counted r.max_repair_cycles most in
      (
        c,
        m,
        (named, same, at, top),
        below_budget c m
            (sym (ap (λ b. le_ℤ b (pos c)) top) ∙ sym (ap (le_ℤ r.max_repair_cycles) at) ∙ below),
        (requests_changes_iff r.verdict).0 changes,
      )),
  (λ (c, m, (named, same, at, top), below, words). (repair_path r).1 (
    (is_exact_iff r).1 (named, same),
    rw at refl,
    rw top refl,
    (requests_changes_iff r.verdict).1 words,
    rw (at, top) (ground arith),
  )),
)

merge_path :
    (r : Review)
    → ((decide_review_continuation r).action ≡ merge_action) ↔ (
        (is_exact r ≡ true)
        × (is_negative r.repair_cycle ≡ false)
        × (is_negative r.max_repair_cycles ≡ false)
        × (requests_changes r.verdict ≡ false)
        × (approves r.verdict ≡ true)
        × ((evaluate_autonomy merge r.merge_evidence).allowed ≡ true))
unfolding decide_review_continuation
merge_path r = ground arith

-- A merge is requested exactly after a review that names a commit, the current head, and whose verdict
-- reads "approved" or "approve", with counters that are not negative, when every gate of a merge holds.
pub merge_iff :
    (r : Review)
    → ((decide_review_continuation r).action ≡ merge_action) ↔ (
        (cycle : ℕ) × (most : ℕ) × IsCurrent r cycle most
        × (Reads r.verdict "approved" ⊎ Reads r.verdict "approve")
        × CommonGates r.merge_evidence
        × MergeGates r.merge_evidence)
merge_iff r = (
  (λ h.
      let (exact, cycle, most, changes, approved, allowed) = (merge_path r).0 h in
      let (named, same) = (is_exact_iff r).0 exact in
      let (c, at) = counted r.repair_cycle cycle in
      let (m, top) = counted r.max_repair_cycles most in
      let (common, gates) = (merge_allowed_iff r.merge_evidence).0 allowed in
      (c, m, (named, same, at, top), (approves_iff r.verdict).0 approved, common, gates)),
  (λ (c, m, (named, same, at, top), words, common, gates). (merge_path r).1 (
    (is_exact_iff r).1 (named, same),
    rw at refl,
    rw top refl,
    approved_only r.verdict words,
    (approves_iff r.verdict).1 words,
    (merge_allowed_iff r.merge_evidence).1 (common, gates),
  )),
)

-- A counter that is within the budget is within it after any decision: it grows by one on a repair,
-- and stays on every other action.
pub cycle_bounded :
    (r : Review) (c m : ℕ)
    → r.repair_cycle ≡ pos c
    → r.max_repair_cycles ≡ pos m
    → c ≤ m
    → (((decide_review_continuation r).action ≡ repair)
        × ((decide_review_continuation r).repair_cycle ≡ pos (suc c))
        × (suc c ≤ m))
      ⊎ (((decide_review_continuation r).action ≢ repair)
          × ((decide_review_continuation r).repair_cycle ≡ pos c))
unfolding decide_review_continuation
cycle_bounded r c m e f h = ground (arith, below_budget c m)
