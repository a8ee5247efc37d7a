-- ===== src/Recovery/Bounded.antt =====
-- When `decide_retry` (src/agentic_sdlc/infra_recovery.py) retries, and how often and how late.
use agentic_sdlc.Base.Int.{ℤ, pos, negsuc, le_ℤ, suc_ℤ}
use agentic_sdlc.Base.{
  ℕ, zero, suc, ◌≤◌, String, ◌≡◌, ◌≢◌, Option, refl, subst, ap, ◌∙◌, inl, inr, Bool, true, false,
  [], none, ok, after, ◌==◌, eq_iff, arith, leb, Bool-cases,
}
use agentic_sdlc.Base.Value.{Members}
use agentic_sdlc.Recovery.{
  FailureClass, RetryAction, RetryDecision, RetryState, Target, Failure, retry_failed_jobs, block,
  noop, route_to_bounded_repair, transient_infrastructure, attempts_so_far, already_acted, ensure,
  is_transient, is_repair_routed, sorted_ids, decide_retry, choose_retry, check_failure, retry_next,
  decision_of, backoff_delay_seconds, delay,
}

transient-eq : (c : FailureClass) → is_transient c ≡ true → c ≡ transient_infrastructure
transient-eq transient_infrastructure h = refl
transient-eq _ h = absurd cc

delay_bound : (seed : String → ℕ) (t : Target) (n base : ℕ) → delay seed t n base ≤ 3600
unfolding delay
delay_bound seed t n base = ground arith

backoff_bound :
    (seed : String → ℕ) (t : Target) (attempt base : ℤ) (wait : ℕ)
    → backoff_delay_seconds seed t attempt base ≡ ok wait
    → wait ≤ 3600
unfolding backoff_delay_seconds
backoff_bound seed t (pos (suc n)) (pos (suc b)) wait h = elim (Bool-cases (leb (suc b) 3600)) [
  | inl fits ↦
      let h' = rw fits at h in
      let same : delay seed t n (suc b) ≡ wait = cc in
      subst (λ w. w ≤ 3600) same (delay_bound seed t n (suc b))
  | inr over ↦ absurd (let h' = rw over at h in cc)
]
backoff_bound seed t _ _ wait h = absurd cc

-- A retry that is due: the head has not moved, the failure is one of the platform, the event was not acted on
-- and nothing is in flight without one, and the decision is the next attempt, at most the last, within an hour.
pub record IsDue (state : RetryState) (f : Failure) (d : RetryDecision) : Type 0 where
  pub same_head : f.target.head_sha ≡ f.current_head_sha
  pub transient : f.failure_class ≡ transient_infrastructure
  pub new : already_acted state f ≡ false
  pub next : d.attempts ≡ suc_ℤ (attempts_so_far state f.target)
  pub within : le_ℤ d.attempts f.max_attempts ≡ true
  pub cap : le_ℤ f.max_attempts (pos 20) ≡ true
  pub soon : d.next_delay_seconds ≤ 3600
  pub same_target : d.head_sha ≡ f.target.head_sha

le-suc_ℤ : (a b : ℤ) → le_ℤ b a ≡ false → le_ℤ (suc_ℤ a) b ≡ true
le-suc_ℤ (pos a) (pos b) h = ground arith
le-suc_ℤ (pos a) (negsuc b) h = ground arith
le-suc_ℤ (negsuc zero) (pos b) h = ground arith
le-suc_ℤ (negsuc zero) (negsuc b) h = ground arith
le-suc_ℤ (negsuc (suc a)) (pos b) h = ground arith
le-suc_ℤ (negsuc (suc a)) (negsuc b) h = ground arith

ensure-true : (t : Bool) (message : String) (u : Unit {0}) → ensure t message ≡ ok u → t ≡ true
unfolding ensure
ensure-true true message u h = refl
ensure-true false message u h = cc

capped : (f : Failure) → check_failure f ≡ ok tt → le_ℤ f.max_attempts (pos 20) ≡ true
unfolding check_failure
capped f h = after h λ _ _ h. after h λ _ _ h.
    after h λ _ _ h.
      after h λ _ _ h. after h λ _ fits h. let both = ensure-true _ _ _ fits in ground arith

-- a decision of another action
not_due :
    {P : Type 0} (f : Failure) (attempts : ℤ) (action : RetryAction) (reason : String)
    (blocker : Option Members) (d : RetryDecision)
    → ok (decision_of f attempts action reason [] 0 blocker) ≡ ok d
    → action ≢ retry_failed_jobs
    → d.action ≡ retry_failed_jobs
    → P
unfolding decision_of
not_due f attempts action reason blocker d h differs retried =
    let same : decision_of f attempts action reason [] 0 blocker ≡ d = cc in
    absurd (differs (ap (λ e. e.action) same ∙ retried))

due :
    (seed : String → ℕ) (state : RetryState) (f : Failure) (d : RetryDecision)
    → le_ℤ f.max_attempts (pos 20) ≡ true
    → f.target.head_sha == f.current_head_sha ≡ true
    → is_transient f.failure_class ≡ true
    → already_acted state f ≡ false
    → le_ℤ f.max_attempts (attempts_so_far state f.target) ≡ false
    → (wait : ℕ)
    → backoff_delay_seconds seed f.target
        (suc_ℤ (attempts_so_far state f.target))
        f.base_delay_seconds
      ≡ ok wait
    → ok (
        decision_of f
          (suc_ℤ (attempts_so_far state f.target))
          retry_failed_jobs
          "retry only failed or cancelled jobs for the unchanged exact head"
          (sorted_ids f.failed_job_ids)
          wait
          none)
      ≡ ok d
    → IsDue state f d
unfolding decision_of
due seed state f d cap still transient new budget wait soon done =
    let e =
      decision_of f (suc_ℤ (attempts_so_far state f.target)) retry_failed_jobs
        "retry only failed or cancelled jobs for the unchanged exact head"
        (sorted_ids f.failed_job_ids) wait none in
    let same : e ≡ d = cc in
    subst (IsDue state f) same (record {
      same_head = (eq_iff f.target.head_sha f.current_head_sha).0 still;
      transient = transient-eq f.failure_class transient;
      new = new;
      next = refl;
      within = le-suc_ℤ (attempts_so_far state f.target) f.max_attempts budget;
      cap = cap;
      soon =
          backoff_bound seed f.target (suc_ℤ (attempts_so_far state f.target)) f.base_delay_seconds
            wait soon;
      same_target = refl;
    })

retries-IsDue :
    (seed : String → ℕ) (state : RetryState) (f : Failure) (d : RetryDecision)
    → le_ℤ f.max_attempts (pos 20) ≡ true
    → choose_retry seed state f ≡ ok d
    → d.action ≡ retry_failed_jobs
    → IsDue state f d
unfolding choose_retry retry_next
retries-IsDue seed state f d cap h retried =
    elim (Bool-cases (f.target.head_sha == f.current_head_sha)) [
      | inr moved ↦ not_due f _ noop _ _ d (rw (choose_retry, moved) at h) (λ e. cc) retried
      | inl still ↦
          let h = rw (choose_retry, still) at h in
          elim (Bool-cases (is_repair_routed f.failure_class)) [
            | inl routed ↦
                not_due f _ route_to_bounded_repair _ _ d (rw routed at h) (λ e. cc) retried
            | inr other ↦
                let h = rw other at h in
                elim (Bool-cases (is_transient f.failure_class)) [
                  | inr lasting ↦ not_due f _ noop _ _ d (rw lasting at h) (λ e. cc) retried
                  | inl transient ↦
                      let h = rw transient at h in
                      elim (Bool-cases (already_acted state f)) [
                        | inl acted ↦ not_due f _ noop _ _ d (rw acted at h) (λ e. cc) retried
                        | inr new ↦
                            let h = rw new at h in
                            elim (Bool-cases
                              (le_ℤ f.max_attempts (attempts_so_far state f.target))) [
                                | inl exhausted ↦
                                    not_due f _ block _ _ d (rw exhausted at h) (λ e. cc) retried
                                | inr budget ↦
                                    let h = rw budget at h in
                                    after h λ wait soon done.
                                      due seed state f d cap still transient new budget wait soon
                                        done
                              ]
                      ]
                ]
          ]
    ]

-- A retry is decided only for a failure of the platform, at a head that has not moved, and for an event that
-- was not acted on (or, without one, while no retry is in flight); it is the next attempt, at most the last of
-- the budget, which is at most 20; and it comes within an hour.
pub decide_retry-IsDue :
    (seed : String → ℕ) (state : RetryState) (f : Failure) (d : RetryDecision)
    → decide_retry seed state f ≡ ok d
    → d.action ≡ retry_failed_jobs
    → IsDue state f d
unfolding decide_retry
decide_retry-IsDue seed state f d h retried =
    after h λ _ checked h. retries-IsDue seed state f d (capped f checked) h retried
