-- ===== src/Recovery.antt =====
-- src/agentic_sdlc/infra_recovery.py: the retries of a run after a failure of the platform. `seed`, a
-- parameter, is the number that the first four hexadecimal digits of the SHA-256 of a text are. A record
-- of the state is the JSON object that it is stored as.
pub mod Bounded
use agentic_sdlc.Base.Int.{ℤ, pos, negsuc, is_positive, le_ℤ, suc_ℤ}
use agentic_sdlc.Base.{
  ℕ, zero, suc, ◌+◌, ◌-◌, String, ◌+++◌, Bool, true, false, not, ◌&&◌, ◌||◌, Option, none, some,
  List, [], ◌∷◌, Result, ok, err, on_ok, recovery_error, all, any, length, has_text, given, show,
  codes, begins_with, is_space, leb, ltb, if◌then◌else◌, ◌==◌,
}
use agentic_sdlc.Base.Dict
use agentic_sdlc.Base.Dict.{Dict}
use agentic_sdlc.Base.Raising.{◌>>=◌, ◌>>◌}
use agentic_sdlc.Base.Value.{Value, Values, Members, string, int, flag, array, members_of, get}
use agentic_sdlc.MergeExecutor.{is_sha}
use Prim.Native.Char.{code}
use Prim.Native.Nat.{◌*◌, ◌%◌, ◌^◌}

pub data FailureClass : Type 0 where
  transient_infrastructure deterministic_code_or_test review_changes_requested
        policy_or_security_block unknown :
      FailureClass

pub data RetryAction : Type 0 where
  retry_failed_jobs route_to_bounded_repair block noop : RetryAction

pub record RetryDecision : Type 0 where
  pub action : RetryAction
  pub failure_class : FailureClass
  pub reason : String
  pub attempts : ℤ
  pub max_attempts : ℤ
  pub repository : String
  pub pull_request_number : ℤ
  pub run_id : ℤ
  pub head_sha : String
  pub retry_job_ids : List ℤ
  pub next_delay_seconds : ℕ
  pub head_unchanged : Bool
  pub blocker : Option Members

-- `RetryState`: the records under their keys
abbrev pub RetryState : Type 0
RetryState = Dict Members

-- The run that failed, at its head.
pub record Target : Type 0 where
  pub repository : String
  pub pull_request_number : ℤ
  pub run_id : ℤ
  pub head_sha : String

-- str(n)
abbrev show_int : ℤ → String
show_int (pos n) = show n
show_int (negsuc n) = "-" +++ show (suc n)

-- `key`
unfoldable pub key_of : Target → String
key_of t =
    t.repository
    +++ "#pr-"
    +++ show_int t.pull_request_number
    +++ ":run-"
    +++ show_int t.run_id
    +++ ":head-"
    +++ t.head_sha

abbrev known_record : Option Members → Members
known_record none = Members.end
known_record (some record_of) = record_of

abbrev pub record_at : RetryState → Target → Members
record_at state t = known_record (Dict.get (key_of t) state)

abbrev count_value : Option Value → ℤ
count_value (some (int z)) = z
count_value _ = pos 0

-- `attempts`
unfoldable pub attempts_so_far : RetryState → Target → ℤ
attempts_so_far state t = count_value (get "attempts" (record_at state t))

abbrev is_retrying : Option Value → Bool
is_retrying (some (string s)) = s == "retrying"
is_retrying _ = false

-- `in_flight`
unfoldable pub in_flight : RetryState → Target → Bool
in_flight state t = is_retrying (get "status" (record_at state t))

abbrev pub has_string : String → Values → Bool
has_string s Values.nil = false
has_string s (Values.cons (string t) vs) = t == s || has_string s vs
has_string s (Values.cons v vs) = has_string s vs

abbrev pub is_among : String → Option Value → Bool
is_among s (some (array vs)) = has_string s vs
is_among s _ = false

-- `has_event`
unfoldable pub has_event : RetryState → Target → String → Bool
has_event state t event_key = is_among event_key (get "events" (record_at state t))

abbrev pub fault {ℓ} : {A : Type ℓ} → String → Result A
fault message = err (recovery_error message)

unfoldable pub ensure : Bool → String → Result (Unit {0})
ensure true message = ok tt
ensure false message = fault message

-- " ".join(s.split()); `gap` is whether a space is due in front of the next word, `word` whether one is open
unfoldable pub collapse : (gap word : Bool) → String → String
collapse gap word String.[] = ""
collapse gap word (String.◌∷◌ c s) =
    let closed = collapse (gap || word) false s in
    let more = collapse false true s in
    if is_space (code c)
    then closed
    else if gap
    then " " +++ String.◌∷◌ c more
    else String.◌∷◌ c more

-- s.replace(part, new), past the first `skip` characters, which belong to a part that was replaced
unfoldable pub replace : List ℕ → String → ℕ → String → String
replace part new skip String.[] = ""
replace part new (suc skip) (String.◌∷◌ c s) = replace part new skip s
replace part new zero (String.◌∷◌ c s) =
    let rest = replace part new zero s in
    let behind = replace part new (length part - 1) s in
    if begins_with part (codes (String.◌∷◌ c s)) then new +++ behind else String.◌∷◌ c rest

-- s[:n]
unfoldable pub clip : ℕ → String → String
clip zero s = ""
clip (suc n) String.[] = ""
clip (suc n) (String.◌∷◌ c s) = String.◌∷◌ c (clip n s)

-- `_sanitize_summary`
unfoldable pub sanitize_summary : String → String
sanitize_summary summary =
    let neutralized =
      replace (codes "<!--") "&lt;!--" 0
        (replace (codes "-->") "--&gt;" 0 (collapse false false summary)) in
    let clipped = clip 500 neutralized in
    if given clipped then clipped else "transient infrastructure retry budget exhausted"

-- `build_blocker`
unfoldable pub build_blocker : Target → ℤ → ℤ → String → Members
build_blocker t attempts max_attempts summary = members_of (
    ("class", string "external_infrastructure")
    ∷ ("userActionRequired", flag false)
    ∷ ("repository", string t.repository)
    ∷ ("pullRequestNumber", int t.pull_request_number)
    ∷ ("runId", int t.run_id)
    ∷ ("headSha", string t.head_sha)
    ∷ ("attempts", int attempts)
    ∷ ("maxAttempts", int max_attempts)
    ∷ ("lastErrorSummary", string (sanitize_summary summary))
    ∷ ("nextAction", string "blocked_exhausted")
    ∷ [])

abbrev insert_id : ℤ → List ℤ → List ℤ
insert_id n [] = n ∷ []
insert_id n (m ∷ ms) =
    let rest = insert_id n ms in
    if le_ℤ n m then (if le_ℤ m n then m ∷ ms else n ∷ m ∷ ms) else m ∷ rest

-- sorted(set(ids))
abbrev pub sorted_ids : List ℤ → List ℤ
sorted_ids [] = []
sorted_ids (n ∷ ns) = insert_id n (sorted_ids ns)

abbrev least : ℕ → ℕ → ℕ
least a b = if leb a b then a else b

-- `backoff_delay_seconds` behind its tests, with 3600 as the greatest delay, for the attempt number n + 1
unfoldable pub delay : (String → ℕ) → Target → ℕ → ℕ → ℕ
delay seed t n base =
    let text =
      t.repository
      +++ ":"
      +++ show_int t.pull_request_number
      +++ ":"
      +++ show_int t.run_id
      +++ ":"
      +++ t.head_sha
      +++ ":"
      +++ show (suc n) in
    least (base * 2 ^ n + seed text % base) 3600

-- `backoff_delay_seconds`
unfoldable pub backoff_delay_seconds : (String → ℕ) → Target → ℤ → ℤ → Result ℕ
backoff_delay_seconds seed t (pos (suc n)) (pos (suc b)) =
    if leb (suc b) 3600
    then ok (delay seed t n (suc b))
    else fault "max_delay_seconds must not be below base_delay_seconds"
backoff_delay_seconds seed t (pos (suc n)) base = fault "base_delay_seconds must be positive"
backoff_delay_seconds seed t attempt base = fault "attempt must be positive"

-- _REPAIR_ROUTED
abbrev pub is_repair_routed : FailureClass → Bool
is_repair_routed deterministic_code_or_test = true
is_repair_routed review_changes_requested = true
is_repair_routed transient_infrastructure = false
is_repair_routed policy_or_security_block = false
is_repair_routed unknown = false

abbrev pub is_transient : FailureClass → Bool
is_transient transient_infrastructure = true
is_transient deterministic_code_or_test = false
is_transient review_changes_requested = false
is_transient policy_or_security_block = false
is_transient unknown = false

-- The arguments of `decide_retry` besides the state.
pub record Failure : Type 0 where
  pub target : Target
  pub current_head_sha : String
  pub failure_class : FailureClass
  pub failed_job_ids : List ℤ
  pub max_attempts : ℤ
  pub base_delay_seconds : ℤ
  pub event_key : String
  pub last_error_summary : String

-- the tests of the arguments
unfoldable pub check_failure : Failure → Result (Unit {0})
check_failure f = do
  ensure (has_text f.target.repository) "repository is required"
  ensure (is_positive f.target.pull_request_number) "pull_request_number must be positive"
  ensure (is_positive f.target.run_id) "run_id must be positive"
  ensure (is_sha f.target.head_sha && is_sha f.current_head_sha)
      "head SHA values must be 40 lowercase hex characters"
  ensure (le_ℤ (pos 1) f.max_attempts && le_ℤ f.max_attempts (pos 20))
      "max_attempts must be between 1 and 20"
  ensure (is_positive f.base_delay_seconds) "base_delay_seconds must be positive"
  ensure (all is_positive f.failed_job_ids) "failed job IDs must be positive"

-- `_decision`
unfoldable pub decision_of :
    Failure → ℤ → RetryAction → String → List ℤ → ℕ → Option Members → RetryDecision
decision_of f attempts action reason jobs wait blocker = record {
  action = action;
  failure_class = f.failure_class;
  reason = reason;
  attempts = attempts;
  max_attempts = f.max_attempts;
  repository = f.target.repository;
  pull_request_number = f.target.pull_request_number;
  run_id = f.target.run_id;
  head_sha = f.target.head_sha;
  retry_job_ids = jobs;
  next_delay_seconds = wait;
  head_unchanged = f.target.head_sha == f.current_head_sha;
  blocker = blocker;
}

-- the event was acted on, or, where there is none, a retry is in flight
unfoldable pub already_acted : RetryState → Failure → Bool
already_acted state f =
    if given f.event_key then has_event state f.target f.event_key else in_flight state f.target

-- the retry with the next number
unfoldable pub retry_next : (String → ℕ) → Failure → ℤ → Result RetryDecision
retry_next seed f attempts = do
  wait ← backoff_delay_seconds seed f.target (suc_ℤ attempts) f.base_delay_seconds
  ok (
      decision_of f (suc_ℤ attempts) retry_failed_jobs
        "retry only failed or cancelled jobs for the unchanged exact head"
        (sorted_ids f.failed_job_ids) wait none)

-- behind the tests of the arguments
unfoldable pub choose_retry : (String → ℕ) → RetryState → Failure → Result RetryDecision
choose_retry seed state f =
    let attempts = attempts_so_far state f.target in
    let exhausted = build_blocker f.target attempts f.max_attempts f.last_error_summary in
    if not (f.target.head_sha == f.current_head_sha)
    then ok (decision_of f attempts noop "failed run is stale for the current PR head" [] 0 none)
    else if is_repair_routed f.failure_class
    then ok (
        decision_of f attempts route_to_bounded_repair
          "substantive failure belongs to bounded exact-head repair, not infrastructure retry" [] 0
          none)
    else if not (is_transient f.failure_class)
    then ok
        (decision_of f attempts noop "failure class is not retryable as infrastructure" [] 0 none)
    else if already_acted state f
    then ok (
        decision_of f attempts noop
          (if given f.event_key
            then "this completion event was already acted on for the exact head"
            else "transient retry is already in flight for this exact head")
          [] 0 none)
    else if le_ℤ f.max_attempts attempts
    then ok (
        decision_of f attempts block "transient infrastructure retry budget exhausted" [] 0
          (some exhausted))
    else retry_next seed f attempts

unfoldable pub decide_retry : (String → ℕ) → RetryState → Failure → Result RetryDecision
decide_retry seed state f = do check_failure f; choose_retry seed state f
