-- ===== src/Workflow/State.antt =====
-- backend/src/job_apply_pro/domain/workflow.py, lines 9 to 46: the states of a job application and
-- the results of a verification, with the texts that the database and the API hold.
use job_apply_pro.Base.{ℕ, ◌≡◌, refl, sym, ap, ◌∙◌, some, List, [], ◌∷◌, String, Eq, get_elem?}
use mathlib.Core.Option.{some-injective}

pub data WorkflowState : Type 0 where
  discovered deduplicated scored eligibility_checked documents_selected application_opened
        form_mapped answers_validated assessment_pending assessment_in_progress assessment_completed
        ready_to_submit submission_attempted submission_confirmed tracking_active closed
        login_required mfa_required captcha_required unknown_question sensitive_field
        assessment_required site_changed session_expired policy_review user_takeover
        submission_uncertain failed_retryable failed_terminal :
      WorkflowState

-- every member, in the order of the class
abbrev pub all_states : List WorkflowState
all_states =
    discovered ∷ deduplicated ∷ scored ∷ eligibility_checked ∷ documents_selected
    ∷ application_opened ∷ form_mapped ∷ answers_validated ∷ assessment_pending
    ∷ assessment_in_progress ∷ assessment_completed ∷ ready_to_submit ∷ submission_attempted
    ∷ submission_confirmed ∷ tracking_active ∷ closed ∷ login_required ∷ mfa_required
    ∷ captcha_required ∷ unknown_question ∷ sensitive_field ∷ assessment_required ∷ site_changed
    ∷ session_expired ∷ policy_review ∷ user_takeover ∷ submission_uncertain ∷ failed_retryable
    ∷ failed_terminal ∷ []

-- `state.value`, the text of a `StrEnum` member
abbrev pub value : WorkflowState → String
value discovered = "DISCOVERED"
value deduplicated = "DEDUPLICATED"
value scored = "SCORED"
value eligibility_checked = "ELIGIBILITY_CHECKED"
value documents_selected = "DOCUMENTS_SELECTED"
value application_opened = "APPLICATION_OPENED"
value form_mapped = "FORM_MAPPED"
value answers_validated = "ANSWERS_VALIDATED"
value assessment_pending = "ASSESSMENT_PENDING"
value assessment_in_progress = "ASSESSMENT_IN_PROGRESS"
value assessment_completed = "ASSESSMENT_COMPLETED"
value ready_to_submit = "READY_TO_SUBMIT"
value submission_attempted = "SUBMISSION_ATTEMPTED"
value submission_confirmed = "SUBMISSION_CONFIRMED"
value tracking_active = "TRACKING_ACTIVE"
value closed = "CLOSED"
value login_required = "LOGIN_REQUIRED"
value mfa_required = "MFA_REQUIRED"
value captcha_required = "CAPTCHA_REQUIRED"
value unknown_question = "UNKNOWN_QUESTION"
value sensitive_field = "SENSITIVE_FIELD"
value assessment_required = "ASSESSMENT_REQUIRED"
value site_changed = "SITE_CHANGED"
value session_expired = "SESSION_EXPIRED"
value policy_review = "POLICY_REVIEW"
value user_takeover = "USER_TAKEOVER"
value submission_uncertain = "SUBMISSION_UNCERTAIN"
value failed_retryable = "FAILED_RETRYABLE"
value failed_terminal = "FAILED_TERMINAL"

-- The place of a member in the class.
abbrev pub index : WorkflowState → ℕ
index discovered = 0
index deduplicated = 1
index scored = 2
index eligibility_checked = 3
index documents_selected = 4
index application_opened = 5
index form_mapped = 6
index answers_validated = 7
index assessment_pending = 8
index assessment_in_progress = 9
index assessment_completed = 10
index ready_to_submit = 11
index submission_attempted = 12
index submission_confirmed = 13
index tracking_active = 14
index closed = 15
index login_required = 16
index mfa_required = 17
index captcha_required = 18
index unknown_question = 19
index sensitive_field = 20
index assessment_required = 21
index site_changed = 22
index session_expired = 23
index policy_review = 24
index user_takeover = 25
index submission_uncertain = 26
index failed_retryable = 27
index failed_terminal = 28

pub all_states-index : (s : WorkflowState) → get_elem? all_states (index s) ≡ some s
all_states-index discovered = refl
all_states-index deduplicated = refl
all_states-index scored = refl
all_states-index eligibility_checked = refl
all_states-index documents_selected = refl
all_states-index application_opened = refl
all_states-index form_mapped = refl
all_states-index answers_validated = refl
all_states-index assessment_pending = refl
all_states-index assessment_in_progress = refl
all_states-index assessment_completed = refl
all_states-index ready_to_submit = refl
all_states-index submission_attempted = refl
all_states-index submission_confirmed = refl
all_states-index tracking_active = refl
all_states-index closed = refl
all_states-index login_required = refl
all_states-index mfa_required = refl
all_states-index captcha_required = refl
all_states-index unknown_question = refl
all_states-index sensitive_field = refl
all_states-index assessment_required = refl
all_states-index site_changed = refl
all_states-index session_expired = refl
all_states-index policy_review = refl
all_states-index user_takeover = refl
all_states-index submission_uncertain = refl
all_states-index failed_retryable = refl
all_states-index failed_terminal = refl

pub index-injective : (s t : WorkflowState) → index s ≡ index t → s ≡ t
index-injective s t e =
    some-injective s t (sym (all_states-index s) ∙ ap (get_elem? all_states) e ∙ all_states-index t)

pub WorkflowState-discrete : Discrete WorkflowState
WorkflowState-discrete = hlevel

instance unfoldable pub state_eq : Eq WorkflowState
unfolding WorkflowState-discrete
state_eq = record { dec = WorkflowState-discrete }
