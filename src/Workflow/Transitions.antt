-- ===== src/Workflow/Transitions.antt =====
-- backend/src/job_apply_pro/domain/workflow.py, lines 49 to 152: which transitions there are. The
-- `dict` of sets is a function from states to lists, used for membership alone.
use job_apply_pro.Base.{
  ℕ, Bool, ◌&&◌, not, List, [], ◌∷◌, ◌++◌, String, if◌then◌else◌, Eq, ◌==◌, contains, Outcome, ◌>>◌,
  raise_if, keep,
}
use job_apply_pro.Workflow.State.{
  WorkflowState, state_eq, discovered, deduplicated, scored, eligibility_checked,
  documents_selected, application_opened, form_mapped, answers_validated, ready_to_submit,
  submission_attempted, submission_confirmed, tracking_active, closed, assessment_pending,
  assessment_in_progress, assessment_completed, login_required, mfa_required, captcha_required,
  unknown_question, sensitive_field, assessment_required, site_changed, session_expired,
  policy_review, user_takeover, submission_uncertain, failed_retryable, failed_terminal,
}

pub data VerificationResult : Type 0 where
  not_required passed failed uncertain : VerificationResult

pub VerificationResult-discrete : Discrete VerificationResult
VerificationResult-discrete = hlevel

instance unfoldable pub verification_eq : Eq VerificationResult
unfolding VerificationResult-discrete
verification_eq = record { dec = VerificationResult-discrete }

abbrev pub interruption_states : List WorkflowState
interruption_states =
    login_required ∷ mfa_required ∷ captcha_required ∷ unknown_question ∷ sensitive_field
    ∷ assessment_required ∷ site_changed ∷ session_expired ∷ policy_review ∷ user_takeover
    ∷ submission_uncertain ∷ failed_retryable ∷ failed_terminal ∷ []

-- `_PRIMARY_FLOW`
abbrev pub primary_flow : List WorkflowState
primary_flow =
    discovered ∷ deduplicated ∷ scored ∷ eligibility_checked ∷ documents_selected
    ∷ application_opened ∷ form_mapped ∷ answers_validated ∷ ready_to_submit ∷ submission_attempted
    ∷ submission_confirmed ∷ tracking_active ∷ closed ∷ []

abbrev pub Transitions : Type 0
Transitions = WorkflowState → List WorkflowState

-- `itertools.pairwise`
unfoldable pub pairwise : List WorkflowState → List (WorkflowState × WorkflowState)
pairwise [] = []
pairwise (a ∷ []) = []
pairwise (a ∷ b ∷ rest) = (a, b) ∷ pairwise (b ∷ rest)

-- `transitions[state].update(targets)`
unfoldable pub update : WorkflowState → List WorkflowState → Transitions → Transitions
update state targets transitions s = if s == state then transitions s ++ targets else transitions s

-- `transitions[state] = targets`
unfoldable pub assign : WorkflowState → List WorkflowState → Transitions → Transitions
assign state targets transitions s = if s == state then targets else transitions s

-- the loop over `pairwise(_PRIMARY_FLOW)`
unfoldable pub add_pairs : List (WorkflowState × WorkflowState) → Transitions → Transitions
add_pairs [] transitions = transitions
add_pairs ((current, next_state) ∷ pairs) transitions =
    add_pairs pairs (update current (next_state ∷ []) transitions)

-- the loop that lets an interrupted state return to the primary flow
unfoldable pub update_all : List WorkflowState → List WorkflowState → Transitions → Transitions
update_all [] targets transitions = transitions
update_all (state ∷ states) targets transitions =
    update_all states targets (update state targets transitions)

-- `CLOSED` has no entry until the last line of the function gives it the empty set.
unfoldable pub initial_transitions : Transitions
initial_transitions s = if s == closed then [] else interruption_states

-- `_build_transitions`, and `ALLOWED_TRANSITIONS`, its value
unfoldable pub build_transitions : Transitions
unfolding pairwise update assign add_pairs update_all initial_transitions state_eq
build_transitions =
    let t₀ = initial_transitions in
    let t₁ = add_pairs (pairwise primary_flow) t₀ in
    let t₂ = update answers_validated (assessment_pending ∷ []) t₁ in
    let t₃ = update assessment_pending (assessment_in_progress ∷ []) t₂ in
    let t₄ = update assessment_in_progress (assessment_completed ∷ []) t₃ in
    let t₅ = update assessment_completed (ready_to_submit ∷ []) t₄ in
    let resumable = keep (λ s. not (s == failed_terminal)) interruption_states in
    let t₆ = update_all resumable primary_flow t₅ in
    let t₇ = update submission_attempted (submission_confirmed ∷ submission_uncertain ∷ []) t₆ in
    let t₈ = assign failed_terminal (closed ∷ []) t₇ in assign closed [] t₈

pub record TransitionCommand : Type 0 where
  pub current_state : WorkflowState
  pub next_state : WorkflowState
  pub actor : String
  pub cause : String
  pub verification : VerificationResult
  pub retry_count : ℕ

-- What a call on a workflow may raise: `InvalidTransitionError`, `PublicTransitionDeniedError`, the
-- `LookupError` and `ValueError` of `apply_transition`, `WorkbenchStateError`, the database's refusal of
-- a second row under a key, and the `ValueError` of a text that names no member of an enumeration.
pub data WorkflowError : Type 0 where
  invalid_transition : WorkflowState → WorkflowState → WorkflowError
  public_transition_denied : WorkflowError
  workflow_not_found : WorkflowError
  profile_not_found : WorkflowError
  state_changed : WorkflowError
  workbench_state : WorkflowError
  integrity : WorkflowError
  unreadable : WorkflowError

-- `next_state in ALLOWED_TRANSITIONS[current_state]`
unfoldable pub is_allowed : WorkflowState → WorkflowState → Bool
unfolding build_transitions
is_allowed current target = contains (build_transitions current) target

unfoldable pub validate_transition : TransitionCommand → Outcome WorkflowError (Unit {0})
unfolding verification_eq state_eq
validate_transition c = do
  raise_if (not (is_allowed c.current_state c.next_state)) refusal
  raise_if (c.next_state == submission_confirmed && not (c.verification == passed)) refusal
  where
    refusal : WorkflowError
    refusal = invalid_transition c.current_state c.next_state
