-- ===== src/Workflow/Table.antt =====
-- What the table of transitions says, state by state, against an independent description.
use job_apply_pro.Base.{
  ◌≡◌, refl, Bool, true, false, ◌&&◌, ◌||◌, not, arith, ◌==◌, all, all-get_elem?,
}
use job_apply_pro.Workflow.State.{
  WorkflowState, state_eq, all_states, index, all_states-index, discovered, deduplicated, scored,
  eligibility_checked, documents_selected, application_opened, form_mapped, answers_validated,
  ready_to_submit, submission_attempted, submission_confirmed, tracking_active, closed,
  assessment_pending, assessment_in_progress, assessment_completed, login_required, mfa_required,
  captcha_required, unknown_question, sensitive_field, assessment_required, site_changed,
  session_expired, policy_review, user_takeover, submission_uncertain, failed_retryable,
  failed_terminal,
}
use job_apply_pro.Workflow.Transitions.{is_allowed}

-- An interruption may follow any open state.
abbrev pub is_interruption : WorkflowState → Bool
is_interruption login_required = true
is_interruption mfa_required = true
is_interruption captcha_required = true
is_interruption unknown_question = true
is_interruption sensitive_field = true
is_interruption assessment_required = true
is_interruption site_changed = true
is_interruption session_expired = true
is_interruption policy_review = true
is_interruption user_takeover = true
is_interruption submission_uncertain = true
is_interruption failed_retryable = true
is_interruption failed_terminal = true
is_interruption _ = false

-- The straight path of an application, its end included.
abbrev pub is_primary : WorkflowState → Bool
is_primary discovered = true
is_primary deduplicated = true
is_primary scored = true
is_primary eligibility_checked = true
is_primary documents_selected = true
is_primary application_opened = true
is_primary form_mapped = true
is_primary answers_validated = true
is_primary ready_to_submit = true
is_primary submission_attempted = true
is_primary submission_confirmed = true
is_primary tracking_active = true
is_primary closed = true
is_primary _ = false

-- The next states on the straight path and in an assessment.
abbrev pub follows : WorkflowState → WorkflowState → Bool
follows discovered deduplicated = true
follows deduplicated scored = true
follows scored eligibility_checked = true
follows eligibility_checked documents_selected = true
follows documents_selected application_opened = true
follows application_opened form_mapped = true
follows form_mapped answers_validated = true
follows answers_validated ready_to_submit = true
follows ready_to_submit submission_attempted = true
follows submission_attempted submission_confirmed = true
follows submission_confirmed tracking_active = true
follows tracking_active closed = true
follows answers_validated assessment_pending = true
follows assessment_pending assessment_in_progress = true
follows assessment_in_progress assessment_completed = true
follows assessment_completed ready_to_submit = true
follows _ _ = false

abbrev pub may_follow : WorkflowState → WorkflowState → Bool
may_follow closed t = false
may_follow failed_terminal t = t == closed
may_follow s t = is_interruption t || follows s t || (is_interruption s && is_primary t)

same : Bool → Bool → Bool
same true b = b
same false b = not b

same→eq : (a b : Bool) → same a b ≡ true → a ≡ b
unfolding same
same→eq a b h = ground arith

table_agrees :
    all (λ s. all (λ t. same (is_allowed s t) (may_follow s t)) all_states) all_states ≡ true
unfolding is_allowed same state_eq
table_agrees = refl

-- A transition is in the table that the code builds exactly if: the state is not closed; from
-- failed_terminal, it goes to closed; from any other state, it goes to an interruption, or along the
-- straight path or the assessment, or from an interruption to a state of the straight path.
pub is_allowed-eq-may_follow : (s t : WorkflowState) → is_allowed s t ≡ may_follow s t
is_allowed-eq-may_follow s t = same→eq _ _ (
    all-get_elem? (λ u. same (is_allowed s u) (may_follow s u)) all_states (index t) t
      (all-get_elem? (λ u. all (λ v. same (is_allowed u v) (may_follow u v)) all_states) all_states
        (index s) s table_agrees (all_states-index s))
      (all_states-index t))
