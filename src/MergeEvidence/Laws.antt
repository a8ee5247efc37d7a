-- ===== src/MergeEvidence/Laws.antt =====
-- What passing evidence says of the checks, the labels and the risk that it was made from.
use mathlib.Core.List.{Memᴰ}
use agentic_sdlc.Base.Int.{ℤ, pos}
use agentic_sdlc.Base.{
  String, ◌≡◌, refl, sym, ◌∙◌, subst, inl, inr, has_text, strip, lower, map_codes, codes,
  same_codes_iff, Bool-cases, ◌==◌, insert, Bool, true, false, ◌&&◌, Option, none, some, List, [],
  ◌∷◌, ok, arith, All, eq_iff, member,
}
use agentic_sdlc.Base.Dict
use agentic_sdlc.Autonomy.{GateEvidence}
use agentic_sdlc.Autonomy.Laws.{CommonGates, MergeGates}
use agentic_sdlc.MergeExecutor.{is_sha}
use agentic_sdlc.MergeEvidence.{
  Check, Latest, EvidenceInput, MergeEvidencePolicy, conclusions_of, latest_from,
  latest_check_conclusions, is_success, all_success, is_high_risk, normalized_labels,
  normalize_merge_evidence,
}
use agentic_sdlc.MergeEvidence.Latest.{latest_from-Newest}
use agentic_sdlc.MergeEvidence.Counting.{Succeeded, Newest-Succeeded}

abbrev conclusion : Option (ℤ × String) → Option String
conclusion none = none
conclusion (some (id, c)) = some c

get-conclusions_of :
    (l : Latest) (n : String) → Dict.get n (conclusions_of l) ≡ conclusion (Dict.get n l)
unfolding conclusions_of Dict.get
get-conclusions_of [] n = refl
get-conclusions_of ((m, (id, d)) ∷ l) n = ground (arith, get-conclusions_of l n)

conclusion-eq-some :
    (o : Option (ℤ × String)) (c : String) → conclusion o ≡ some c → (id : ℤ) × (o ≡ some (id, c))
conclusion-eq-some none c h = cc
conclusion-eq-some (some (id, d)) c h = (id, cc)

-- Every name succeeded.
abbrev pub Passed : String → List Check → List String → Type 0
Passed sha cs names = All (λ n. Succeeded sha n cs) names

is_success-eq : (o : Option String) → is_success o ≡ true → o ≡ some "success"
is_success-eq none h = cc
is_success-eq (some c) h = ground (arith, eq_iff c "success")

name_passed :
    (sha n : String) (cs : List Check)
    → is_success (Dict.get n (latest_check_conclusions cs sha)) ≡ true
    → Succeeded sha n cs
unfolding latest_check_conclusions
name_passed sha n cs h =
    let found = is_success-eq (Dict.get n (conclusions_of (latest_from sha [] cs))) h in
    let (id, at) =
      conclusion-eq-some (Dict.get n (latest_from sha [] cs)) "success"
        (sym (get-conclusions_of (latest_from sha [] cs) n) ∙ found) in
    Newest-Succeeded sha n cs id (latest_from-Newest sha n cs id "success" at)

and_parts : (a b : Bool) → (a && b) ≡ true → (a ≡ true) × (b ≡ true)
and_parts a b h = ground arith

all_success-Passed :
    (sha : String) (cs : List Check) (names : List String)
    → all_success names (latest_check_conclusions cs sha) ≡ true
    → Passed sha cs names
unfolding all_success
all_success-Passed sha cs [] h = tt
all_success-Passed sha cs (n ∷ names) h =
    let (first, rest) = and_parts (is_success (Dict.get n (latest_check_conclusions cs sha))) _ h in
    (name_passed sha n cs first, all_success-Passed sha cs names rest)

kept_behind :
    (k l : String) (ls : List String)
    → (k == l) ≡ false
    → member l (insert k ls) ≡ true
    → member l ls ≡ true
kept_behind k l ls other' h = ground arith

-- A label that the normalisation gives is one of the given, stripped.
normalized_labels-Mem :
    (ls : List String) (l : String)
    → member l (normalized_labels ls) ≡ true
    → (k : String) × Memᴰ k ls × (strip k ≡ l)
unfolding normalized_labels
normalized_labels-Mem [] l h = absurd cc
normalized_labels-Mem (k ∷ ls) l h = elim (Bool-cases (has_text k)) [
  | inr blank ↦ let (j, m, at) = normalized_labels-Mem ls l (rw blank at h) in (j, Memᴰ.tail m, at)
  | inl full ↦ elim (Bool-cases (strip k == l)) [
    | inl same ↦ (k, Memᴰ.head refl, (eq_iff (strip k) l).0 same)
    | inr other' ↦
        let (j, m, at) =
          normalized_labels-Mem ls l
            (kept_behind (strip k) l (normalized_labels ls) other' (rw full at h)) in
        (j, Memᴰ.tail m, at)
  ]
]

low_risk_text :
    (risk : String) → is_high_risk risk ≡ false → map_codes lower (strip risk) ≡ codes "low"
unfolding is_high_risk
low_risk_text risk h =
    (same_codes_iff (map_codes lower (strip risk)) (codes "low")).0 (ground arith)

-- What evidence that meets every merge gate stands for.
pub record Proven (i : EvidenceInput) (p : MergeEvidencePolicy) : Type 0 where
  pub exact_head : is_sha i.expected_head_sha ≡ true
  pub labelled : (l : String) × Memᴰ l i.labels × (strip l ≡ "forge-managed")
  pub low_risk : map_codes lower (strip i.risk_level) ≡ codes "low"
  pub in_scope : i.scope_bounded ≡ true
  pub secure : i.security_clear ≡ true
  pub protection_allows : i.branch_protection_allows ≡ true
  pub resolved : i.unresolved_conversations ≡ pos 0
  pub no_deployment : i.deployment_requested ≡ false
  pub no_broker : i.broker_access_requested ≡ false
  pub deterministic : Passed i.expected_head_sha i.checks p.deterministic_checks
  pub quality : Passed i.expected_head_sha i.checks p.quality_checks
  pub review : Passed i.expected_head_sha i.checks p.independent_review_checks
  pub secrets : Passed i.expected_head_sha i.checks p.secret_scan_checks

-- the evidence of a successful normalisation
abbrev evidence_of : EvidenceInput → MergeEvidencePolicy → GateEvidence
evidence_of i p =
    let conclusions = latest_check_conclusions i.checks i.expected_head_sha in
    record {
      forge_managed = member "forge-managed" (normalized_labels i.labels);
      scope_bounded = i.scope_bounded;
      security_clear = i.security_clear;
      claude_oauth_available = false;
      high_risk = is_high_risk i.risk_level;
      deterministic_verification_passed = all_success p.deterministic_checks conclusions;
      quality_passed = all_success p.quality_checks conclusions;
      independent_review_approved = all_success p.independent_review_checks conclusions;
      secret_scan_passed = all_success p.secret_scan_checks conclusions;
      branch_protection_allows = i.branch_protection_allows;
      unresolved_conversations = i.unresolved_conversations;
      deployment_requested = i.deployment_requested;
      broker_access_requested = i.broker_access_requested;
    }

normalize-eq-ok :
    (i : EvidenceInput) (p : MergeEvidencePolicy) (e : GateEvidence)
    → normalize_merge_evidence i p ≡ ok e
    → (is_sha i.expected_head_sha ≡ true) × (e ≡ evidence_of i p)
unfolding normalize_merge_evidence
normalize-eq-ok i p e h = ground arith

evidence_of-Proven :
    (i : EvidenceInput) (p : MergeEvidencePolicy)
    → is_sha i.expected_head_sha ≡ true
    → CommonGates (evidence_of i p)
    → MergeGates (evidence_of i p)
    → Proven i p
evidence_of-Proven i p sha c m = record {
  exact_head = sha;
  labelled = normalized_labels-Mem i.labels _ c.forge_managed;
  low_risk = low_risk_text i.risk_level c.low_risk;
  in_scope = c.scope_bounded;
  secure = c.security_clear;
  protection_allows = m.branch_allows;
  resolved = m.no_conversations;
  no_deployment = c.no_deployment;
  no_broker = c.no_broker_access;
  deterministic = all_success-Passed _ _ p.deterministic_checks m.verified;
  quality = all_success-Passed _ _ p.quality_checks m.quality;
  review = all_success-Passed _ _ p.independent_review_checks m.reviewed;
  secrets = all_success-Passed _ _ p.secret_scan_checks m.secrets_scanned;
}

-- Evidence that normalisation returns and that meets the common and the merge gates comes from an
-- exact head SHA, a label that reads "forge-managed" but for the spaces around it, a risk level that
-- reads "low" but for spaces and case, bounded scope, security and branch protection that were reported
-- clear, no unresolved conversation and no request of a deployment or of the broker; and for every
-- required check a run of that name at that SHA is listed that concluded "success", and no listed run
-- of the name at the SHA has a greater id.
pub normalize-Proven :
    (i : EvidenceInput) (p : MergeEvidencePolicy) (e : GateEvidence)
    → normalize_merge_evidence i p ≡ ok e
    → CommonGates e
    → MergeGates e
    → Proven i p
normalize-Proven i p e h c m =
    let (sha, same) = normalize-eq-ok i p e h in
    evidence_of-Proven i p sha (subst CommonGates same c) (subst MergeGates same m)
