-- ===== src/MergeExecutor.antt =====
-- src/agentic_sdlc/merge_executor.py: the boundary that performs a merge, and the only caller of
-- the merge gateway. The gateway is not part of the program: it is a parameter, and the requests
-- that reach it are logged.
pub mod Laws
use agentic_sdlc.Base.Int.{ℤ, is_positive}
use agentic_sdlc.Base.{
  ℕ, String, Bool, true, false, not, ◌&&◌, ◌||◌, Option, none, some, List, [], ◌∷◌, ◌++◌, Result,
  Exec, ◌>>=◌, ◌>>◌, pure, lift, modify, leb, nat_eq, all_codes, code_count, codes, given, join,
  if◌then◌else◌, ◌==◌,
}
use agentic_sdlc.Autonomy.{GateEvidence, merge, evaluate_autonomy}

pub record MergeRequest : Type 0 where
  pub repository : String
  pub pull_request_number : ℤ
  pub expected_head_sha : String

pub record GatewayResult : Type 0 where
  pub merged : Bool
  pub merge_sha : String
  pub message : String

pub record MergeOutcome : Type 0 where
  pub allowed : Bool
  pub merged : Bool
  pub merge_sha : String
  pub reason : String

-- [0-9a-f]
abbrev pub is_hex : ℕ → Bool
is_hex c = (leb b'0' c && leb c b'9') || (leb b'a' c && leb c b'f')

-- ^[0-9a-f]{40}$
unfoldable pub is_sha : String → Bool
is_sha s = nat_eq (code_count s) 40 && all_codes is_hex s

-- [A-Za-z0-9_.-]
abbrev is_name_char : ℕ → Bool
is_name_char c =
    (leb b'A' c && leb c b'Z')
    || ((leb b'a' c && leb c b'z')
        || ((leb b'0' c && leb c b'9') || (nat_eq c b'_' || (nat_eq c b'.' || nat_eq c b'-'))))

-- the part behind the slash: one character at least
abbrev is_repository_name : List ℕ → Bool
is_repository_name [] = false
is_repository_name (c ∷ []) = is_name_char c
is_repository_name (c ∷ d ∷ cs) = is_name_char c && is_repository_name (d ∷ cs)

-- the owner, of which `seen` says whether it has a character yet, the slash and the name
abbrev is_repository_from : Bool → List ℕ → Bool
is_repository_from seen [] = false
is_repository_from seen (c ∷ cs) =
    if is_name_char c
    then is_repository_from true cs
    else (seen && nat_eq c b'/') && is_repository_name cs

-- ^[A-Za-z0-9_.-]+/[A-Za-z0-9_.-]+$
unfoldable pub is_repository : String → Bool
is_repository s = is_repository_from false (codes s)

-- the reason why a request is refused, if it is
unfoldable pub validate_request : MergeRequest → Option String
unfolding is_repository
validate_request r =
    if not (is_repository r.repository)
    then some "invalid repository identifier"
    else if not (is_positive r.pull_request_number)
    then some "pull request number must be positive"
    else if not (is_sha r.expected_head_sha)
    then some "expected head SHA must be an exact lowercase 40-character commit SHA"
    else none

abbrev pub refused : String → MergeOutcome
refused reason = record { allowed = false; merged = false; merge_sha = ""; reason = reason }

-- `a or b`, for texts
abbrev pub or_else : String → String → String
or_else a b = if given a then a else b

unfoldable pub outcome_of : GatewayResult → MergeOutcome
outcome_of r =
    if not r.merged
    then record {
      allowed = true;
      merged = false;
      merge_sha = "";
      reason = or_else r.message "repository merge was rejected";
    }
    else if not (is_sha r.merge_sha)
    then record {
      allowed = true;
      merged = false;
      merge_sha = "";
      reason = "merge gateway returned an invalid merge SHA";
    }
    else record {
      allowed = true;
      merged = true;
      merge_sha = r.merge_sha;
      reason = or_else r.message "merged";
    }

module _ (gateway : MergeRequest → Result GatewayResult) where
  -- a request that reaches the gateway, whether it answers or raises
  unfoldable pub call_gateway : MergeRequest → Exec (List MergeRequest) GatewayResult
  call_gateway r = modify (λ calls. calls ++ r ∷ []) >> lift (gateway r)

  unfoldable pub after_validation :
      Option String → MergeRequest → GateEvidence → Exec (List MergeRequest) MergeOutcome
  unfolding call_gateway outcome_of
  after_validation (some invalid) r e = pure (refused invalid)
  after_validation none r e =
      let decision = evaluate_autonomy merge e in
      if not decision.allowed
      then pure (refused (join "; " decision.reasons))
      else do result ← call_gateway r; pure (outcome_of result)

  unfoldable pub execute : MergeRequest → GateEvidence → Exec (List MergeRequest) MergeOutcome
  unfolding after_validation
  execute r e = after_validation (validate_request r) r e
