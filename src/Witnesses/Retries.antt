-- ===== src/Witnesses/Retries.antt =====
-- The first retry of a run that failed (src/agentic_sdlc/infra_recovery.py).
use agentic_sdlc.Base.Int.{pos}
use agentic_sdlc.Base.{
  ℕ, String, ◌≡◌, refl, [], ◌∷◌, none, ok, on_ok, true, strip, lstrip, rstrip, is_space, code_count,
  all_codes, show,
}
use agentic_sdlc.Base.Dict
use agentic_sdlc.Base.Value.{get}
use agentic_sdlc.MergeExecutor.{is_sha}
use agentic_sdlc.Recovery.{
  RetryDecision, Failure, transient_infrastructure, retry_failed_jobs, decide_retry, check_failure,
  ensure, choose_retry, already_acted, has_event, in_flight, attempts_so_far, key_of, retry_next,
  backoff_delay_seconds, delay, decision_of,
}
use agentic_sdlc.Recovery.Bounded.{IsDue, decide_retry-IsDue}

abbrev sha : String
sha = "aaaaaaaaaaaaaaaaaaaaaaaaaaaaaaaaaaaaaaaa"

abbrev failure : Failure
failure = record {
  target = record {
    repository = "a/b";
    pull_request_number = pos 3;
    run_id = pos 7;
    head_sha = sha;
  };
  current_head_sha = sha;
  failure_class = transient_infrastructure;
  failed_job_ids = pos 5 ∷ pos 2 ∷ pos 5 ∷ [];
  max_attempts = pos 3;
  base_delay_seconds = pos 60;
  event_key = "7:1";
  last_error_summary = "";
}

abbrev seed : String → ℕ
seed text = 4207

abbrev decision : RetryDecision
decision = record {
  action = retry_failed_jobs;
  failure_class = transient_infrastructure;
  reason = "retry only failed or cancelled jobs for the unchanged exact head";
  attempts = pos 1;
  max_attempts = pos 3;
  repository = "a/b";
  pull_request_number = pos 3;
  run_id = pos 7;
  head_sha = sha;
  retry_job_ids = pos 2 ∷ pos 5 ∷ [];
  next_delay_seconds = 67;
  head_unchanged = true;
  blocker = none;
}

decided : decide_retry seed [] failure ≡ ok decision
unfolding decide_retry check_failure ensure choose_retry already_acted has_event in_flight
    attempts_so_far key_of retry_next backoff_delay_seconds delay decision_of is_sha code_count
    all_codes on_ok strip lstrip rstrip is_space get Dict.get show
decided = refl

decide_retry-IsDue_example : IsDue [] failure decision
decide_retry-IsDue_example = decide_retry-IsDue seed [] failure decision decided refl
