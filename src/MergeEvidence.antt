-- ===== src/MergeEvidence.antt =====
-- src/agentic_sdlc/merge_evidence.py: normalisation of the evidence of a merge, bound to one
-- exact head SHA.
pub mod Latest
pub mod Counting
pub mod Laws
use agentic_sdlc.Base.Int.{ℤ, pos, is_negative, is_positive, le_ℤ}
use agentic_sdlc.Base.{
  ℕ, String, Bool, true, false, not, ◌&&◌, ◌||◌, Option, none, some, List, [], ◌∷◌, ◌++◌, map,
  Result, ok, err, value_error, all, any, is_empty, length, member, insert, nat_eq, strip, given,
  has_text, codes, same_codes, lower, map_codes, if◌then◌else◌, ◌==◌,
}
use agentic_sdlc.Base.Dict
use agentic_sdlc.Base.Dict.{Dict}
use agentic_sdlc.Autonomy.{GateEvidence}
use agentic_sdlc.MergeExecutor.{is_sha}

pub record MergeEvidencePolicy : Type 0 where
  pub deterministic_checks : List String
  pub quality_checks : List String
  pub independent_review_checks : List String
  pub secret_scan_checks : List String

-- set(xs)
abbrev pub to_set : List String → List String
to_set [] = []
to_set (x ∷ xs) = insert x (to_set xs)

-- `__post_init__`
unfoldable pub validate_policy : MergeEvidencePolicy → Result MergeEvidencePolicy
validate_policy p =
    if is_empty deterministic_checks
      || (is_empty quality_checks
          || (is_empty independent_review_checks || is_empty secret_scan_checks))
    then err (value_error "every merge evidence check group must be non-empty")
    else if any (λ name. not (has_text name)) names
    then err (value_error "required check names must be non-empty")
    else if not (nat_eq (length names) (length (to_set names)))
    then err (value_error "required check names must be unique across groups")
    else ok p
  where
    open p use {deterministic_checks, quality_checks, independent_review_checks, secret_scan_checks}

    names : List String
    names =
        deterministic_checks
        ++ (quality_checks ++ (independent_review_checks ++ secret_scan_checks))

-- What a check payload may hold under a key: a missing key reads as `None`.
pub data Value : Type 0 where
  none_value : Value
  text : String → Value
  int : ℤ → Value
  bool : Bool → Value
  other : Value

pub record Check : Type 0 where
  pub name : Value
  pub head_sha : Value
  pub conclusion : Value
  pub id : Value

-- `isinstance(v, str) and v.strip()`
abbrev pub text_value : Value → Option String
text_value (text s) = if has_text s then some s else none
text_value _ = none

-- `isinstance(v, int) and v > 0`: a bool is an int
abbrev pub positive_value : Value → Option ℤ
positive_value (int n) = if is_positive n then some n else none
positive_value (bool b) = if b then some (pos 1) else none
positive_value _ = none

-- `v == s`
abbrev pub is_text : String → Value → Bool
is_text s (text t) = t == s
is_text s _ = false

-- the conclusion, or the empty text where it is no text
abbrev pub conclusion_text : Value → String
conclusion_text (text s) = s
conclusion_text _ = ""

-- A check that the loop does not skip: its name, its id and its conclusion.
abbrev pub Entry : Type 0
Entry = String × ℤ × String

-- the three `continue`s of the loop
unfoldable pub read_check : String → Check → Option Entry
read_check sha c = elim (text_value c.name) [
  | none ↦ none
  | some name ↦ if not (is_text sha c.head_sha) then none else elim (positive_value c.id) [
    | none ↦ none
    | some check_id ↦ some (name, check_id, conclusion_text c.conclusion)
  ]
]

-- `current is None or check_id > current[0]`
abbrev pub is_newer : ℤ → Option (ℤ × String) → Bool
is_newer check_id none = true
is_newer check_id (some (current, _)) = not (le_ℤ check_id current)

abbrev pub Latest : Type 0
Latest = Dict (ℤ × String)

-- the loop's body behind the `continue`s
unfoldable pub record_latest : Latest → Option Entry → Latest
record_latest latest none = latest
record_latest latest (some (name, check_id, conclusion)) =
    if is_newer check_id (Dict.get name latest)
    then Dict.put name (check_id, conclusion) latest
    else latest

unfoldable pub latest_from : String → Latest → List Check → Latest
latest_from sha latest [] = latest
latest_from sha latest (c ∷ cs) = latest_from sha (record_latest latest (read_check sha c)) cs

-- {name: conclusion for name, (_, conclusion) in latest.items()}
unfoldable pub conclusions_of : Latest → Dict String
conclusions_of [] = []
conclusions_of ((name, (check_id, conclusion)) ∷ rest) = (name, conclusion) ∷ conclusions_of rest

unfoldable pub latest_check_conclusions : List Check → String → Dict String
unfolding latest_from conclusions_of
latest_check_conclusions checks sha = conclusions_of (latest_from sha [] checks)

-- conclusions.get(name) == "success"
abbrev pub is_success : Option String → Bool
is_success none = false
is_success (some c) = c == "success"

unfoldable pub all_success : List String → Dict String → Bool
all_success names conclusions = all (λ name. is_success (Dict.get name conclusions)) names

-- risk_level.strip().lower() != "low"
unfoldable pub is_high_risk : String → Bool
is_high_risk risk = not (same_codes (map_codes lower (strip risk)) (codes "low"))

pub record EvidenceInput : Type 0 where
  pub expected_head_sha : String
  pub labels : List String
  pub risk_level : String
  pub scope_bounded : Bool
  pub security_clear : Bool
  pub branch_protection_allows : Bool
  pub unresolved_conversations : ℤ
  pub deployment_requested : Bool
  pub broker_access_requested : Bool
  pub checks : List Check

-- {label.strip() for label in labels if label.strip()}
unfoldable pub normalized_labels : List String → List String
normalized_labels [] = []
normalized_labels (l ∷ ls) =
    let rest = normalized_labels ls in if has_text l then insert (strip l) rest else rest

unfoldable pub normalize_merge_evidence : EvidenceInput → MergeEvidencePolicy → Result GateEvidence
unfolding all_success normalized_labels
normalize_merge_evidence i policy =
    if not (is_sha i.expected_head_sha)
    then err (value_error "expected head SHA must be an exact lowercase 40-character commit SHA")
    else if is_negative i.unresolved_conversations
    then err (value_error "unresolved conversation count cannot be negative")
    else let conclusions = latest_check_conclusions i.checks i.expected_head_sha in
      ok (record {
        forge_managed = member "forge-managed" (normalized_labels i.labels);
        scope_bounded = i.scope_bounded;
        security_clear = i.security_clear;
        claude_oauth_available = false;
        high_risk = is_high_risk i.risk_level;
        deterministic_verification_passed = all_success policy.deterministic_checks conclusions;
        quality_passed = all_success policy.quality_checks conclusions;
        independent_review_approved = all_success policy.independent_review_checks conclusions;
        secret_scan_passed = all_success policy.secret_scan_checks conclusions;
        branch_protection_allows = i.branch_protection_allows;
        unresolved_conversations = i.unresolved_conversations;
        deployment_requested = i.deployment_requested;
        broker_access_requested = i.broker_access_requested;
      })
