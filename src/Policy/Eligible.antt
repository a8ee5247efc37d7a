-- ===== src/Policy/Eligible.antt =====
-- Which tasks `evaluate_task` (src/agentic_sdlc/policy.py) allows.
use agentic_sdlc.Base.{
  String, ◌+++◌, ◌≡◌, ◌↔◌, refl, Bool, true, false, ◌&&◌, ◌||◌, none, List, [], ◌∷◌, All, member,
  is_empty, arith, eq_iff, Bool-cases, inl, inr, ◌==◌,
}
use agentic_sdlc.Dispatcher.{spec_review_block}
use agentic_sdlc.Policy.{ProjectPolicy}
use agentic_sdlc.Policy.Decisions.{
  TaskSpec, when, required_labels, missing_labels, held_reasons, pattern_reasons, task_reasons,
  evaluate_task,
}
use agentic_sdlc.Policy.Limits.{is_empty-append, is_empty-when, not-not}
use agentic_sdlc.WorkGraph.Toposort.Members.{none_missing}

module _ (search_in : String → String → Bool) (task : TaskSpec) (policy : ProjectPolicy)
    (mode : String) where
  -- The task has the labels that the mode asks for, is not held for a review of its specification, and
  -- matches no forbidden pattern.
  pub record IsEligible : Type 0 where
    pub ready : member policy.ready_label task.labels ≡ true
    pub reviewed : member policy.human_review_label task.labels ≡ true
    pub implementable : mode ≡ "implement" → member policy.implementation_label task.labels ≡ true
    pub unheld :
        (mode == "plan" || mode == "implement") ≡ true → spec_review_block task.labels ≡ none
    pub harmless :
        All
          (λ p. search_in p (task.title +++ "\n" +++ task.raw_body) ≡ false)
          policy.forbidden_task_patterns

  no_patterns :
      (text : String) (ps : List String)
      → (is_empty (pattern_reasons search_in text ps) ≡ true)
        ↔ All (λ p. search_in p text ≡ false) ps
  unfolding pattern_reasons
  no_patterns text [] = ((λ _. tt), (λ _. refl))
  no_patterns text (p ∷ ps) = elim (Bool-cases (search_in p text)) [
    | inl hit ↦ rw hit ((λ h. cc), (λ h. cc))
    | inr miss ↦
        rw miss ((λ h. (refl, (no_patterns text ps).0 h)), (λ h. (no_patterns text ps).1 h.1))
  ]

  not_held :
      (is_empty (held_reasons task mode) ≡ true)
      ↔ ((mode == "plan" || mode == "implement") ≡ true → spec_review_block task.labels ≡ none)
  unfolding held_reasons spec_review_block
  not_held = ground (arith)

  labelled :
      (is_empty (missing_labels task policy mode) ≡ true)
      ↔ All
          (λ l. member l task.labels ≡ true)
          (policy.ready_label
            ∷ policy.human_review_label
            ∷ when (mode == "implement") policy.implementation_label)
  unfolding missing_labels required_labels
  labelled =
      none_missing
        (policy.ready_label
          ∷ policy.human_review_label
          ∷ when (mode == "implement") policy.implementation_label)
        task.labels

  no_reasons : is_empty (task_reasons search_in task policy mode) ≡ (
      is_empty (missing_labels task policy mode)
      && (is_empty (held_reasons task mode)
          && is_empty (
              pattern_reasons search_in
                (task.title +++ "\n" +++ task.raw_body)
                policy.forbidden_task_patterns)))
  unfolding task_reasons
  no_reasons = simp (is_empty-append, is_empty-when, not-not, not-not)

  -- A task is allowed exactly when it has the labels that the mode asks for, is not held for a review of its
  -- specification where the mode is to plan or to implement, and matches no forbidden pattern; it is never
  -- merged without a human.
  pub evaluate_task-IsEligible :
      (((evaluate_task search_in task policy mode).allowed ≡ true) ↔ IsEligible)
      × ((evaluate_task search_in task policy mode).automatic_merge_allowed ≡ false)
  unfolding evaluate_task
  evaluate_task-IsEligible =
      let patterns =
        no_patterns (task.title +++ "\n" +++ task.raw_body) policy.forbidden_task_patterns in
      let reasons = no_reasons in
      (
        (
          (λ h.
              let has = labelled.0 (ground arith) in
              record {
                ready = has.0;
                reviewed = has.1.0;
                implementable =
                    λ e. let last = rw ((eq_iff mode "implement").1 e) at has.1.1 in last.0;
                unheld = not_held.0 (ground arith);
                harmless = patterns.0 (ground arith);
              }),
          (λ w.
              let has = labelled.1 (
                w.ready,
                (
                  w.reviewed,
                  elim (Bool-cases (mode == "implement")) [
                    | inl e ↦ rw e (w.implementable ((eq_iff mode "implement").0 e), tt)
                    | inr e ↦ rw e tt
                  ],
                ),
              ) in
              let unheld = not_held.1 w.unheld in
              let harmless = patterns.1 w.harmless in ground arith),
        ),
        refl,
      )
