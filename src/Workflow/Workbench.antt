-- ===== src/Workflow/Workbench.antt =====
-- backend/src/job_apply_pro/storage/repositories.py (`WorkbenchRepository`), domain/workbench.py and
-- services/workbench.py: the synthetic workflow that a user drives from the desktop.
use job_apply_pro.Base.{
  if◌then◌else◌, Eq, ◌==◌, contains, option_eq, nat_eq, string_eq, find, last?, Outcome, ok, err,
  ◌>>=◌, ◌>>◌, raise_if, or_raise, ℕ, String, not, ◌||◌, Option, none, some, List, [], ◌∷◌, ◌++◌,
}
use job_apply_pro.Workflow.State.{
  WorkflowState, discovered, deduplicated, scored, eligibility_checked, documents_selected,
  application_opened, form_mapped, answers_validated, ready_to_submit, closed, user_takeover,
  failed_retryable, failed_terminal, value, state_eq,
}
use job_apply_pro.Workflow.Transitions.{
  not_required, verification_eq, TransitionCommand, WorkflowError, workflow_not_found,
  state_changed, workbench_state, validate_transition,
}
use job_apply_pro.Workflow.Events.{
  DateTime, utc, WorkflowEvent, parse_state, ApplicationRow, JobRow, CandidateProfileRow, Database,
  next_sequence, insert_event, list_for_workflow,
}
use job_apply_pro.Workflow.Service.{new_event}

pub data WorkflowControlAction : Type 0 where
  advance pause resume retry takeover stop : WorkflowControlAction

pub WorkflowControlAction-discrete : Discrete WorkflowControlAction
WorkflowControlAction-discrete = hlevel

instance unfoldable pub action_eq : Eq WorkflowControlAction
unfolding WorkflowControlAction-discrete
action_eq = record { dec = WorkflowControlAction-discrete }

pub record WorkflowRunSnapshot : Type 0 where
  pub workflow_id : String
  pub application_id : String
  pub profile_id : String
  pub candidate_display_name : String
  pub employer : String
  pub title : String
  pub state : WorkflowState
  pub progress : ℕ
  pub updated_at : DateTime
  pub events : List WorkflowEvent
  pub allowed_controls : List WorkflowControlAction

abbrev pub advancing_states : List WorkflowState
advancing_states =
    discovered ∷ deduplicated ∷ scored ∷ eligibility_checked ∷ documents_selected
    ∷ application_opened ∷ form_mapped ∷ answers_validated ∷ []

unfoldable pub allowed_workbench_controls : String → WorkflowState → List WorkflowControlAction
unfolding state_eq
allowed_workbench_controls source state =
    if not (source == "workbench-mock") || state == closed
    then []
    else if state == failed_terminal
    then stop ∷ []
    else retry
      ∷ stop
      ∷ ((if state == user_takeover then resume ∷ [] else pause ∷ takeover ∷ [])
          ++ (if contains advancing_states state then advance ∷ [] else []))

-- `_PROGRESS.get(state, 60)`
unfoldable pub progress_of : WorkflowState → ℕ
progress_of discovered = 5
progress_of deduplicated = 15
progress_of scored = 28
progress_of eligibility_checked = 40
progress_of documents_selected = 52
progress_of application_opened = 64
progress_of form_mapped = 76
progress_of answers_validated = 88
progress_of ready_to_submit = 100
progress_of user_takeover = 50
progress_of failed_retryable = 40
progress_of failed_terminal = 100
progress_of closed = 100
progress_of _ = 60

unfoldable pub snapshot_of :
    ApplicationRow
    → JobRow
    → CandidateProfileRow
    → Database
    → Outcome WorkflowError WorkflowRunSnapshot
snapshot_of application job candidate db = do
  state ← parse_state application.state
  events ← list_for_workflow application.workflow_id db
  ok (record {
    workflow_id = application.workflow_id;
    application_id = application.id;
    profile_id = application.profile_id;
    candidate_display_name = candidate.display_name;
    employer = job.employer;
    title = job.title;
    state = state;
    progress = progress_of state;
    updated_at = utc application.updated_at;
    events = events;
    allowed_controls = allowed_workbench_controls job.source state;
  })

-- The row of a workflow, which the unique constraint on `workflow_id` makes the only one.
unfoldable pub find_application : String → List ApplicationRow → Option ApplicationRow
find_application workflow_id rows = find (λ a. a.workflow_id == workflow_id) rows

-- The inner joins by the primary keys of the job and of the candidate.
unfoldable pub joined : String → Database → Option (ApplicationRow × JobRow × CandidateProfileRow)
joined workflow_id db = elim (find_application workflow_id db.applications) [
  | none ↦ none
  | some a ↦ elim (find (λ j. j.id == a.job_id) db.jobs) [
    | none ↦ none
    | some j ↦ elim (find (λ c. c.id == a.profile_id) db.candidates) [
      | none ↦ none
      | some c ↦ some (a, j, c)
    ]
  ]
]

unfoldable pub snapshot_joined :
    Option (ApplicationRow × JobRow × CandidateProfileRow)
    → Database
    → Outcome WorkflowError (Option WorkflowRunSnapshot)
snapshot_joined none db = ok none
snapshot_joined (some (a, j, c)) db = do snapshot ← snapshot_of a j c db; ok (some snapshot)

unfoldable pub get_snapshot : String → Database → Outcome WorkflowError (Option WorkflowRunSnapshot)
unfolding joined snapshot_joined
get_snapshot workflow_id db = snapshot_joined (joined workflow_id db) db

-- `application.state = …; application.updated_at = …` on the row that the select returned
unfoldable pub set_state :
    String → WorkflowState → DateTime → List ApplicationRow → List ApplicationRow
set_state workflow_id state now [] = []
set_state workflow_id state now (a ∷ rows) =
    if a.workflow_id == workflow_id
    then record a { state = value state; updated_at = now } ∷ rows
    else a ∷ set_state workflow_id state now rows

unfoldable pub apply_transition :
    String
    → DateTime
    → String
    → TransitionCommand
    → Database
    → Outcome WorkflowError (WorkflowRunSnapshot × Database)
unfolding new_event find_application set_state state_eq
apply_transition id now workflow_id c db = do
  application ← or_raise (find_application workflow_id db.applications) workflow_not_found
  current ← parse_state application.state
  raise_if (not (current == c.current_state)) state_changed
  validate_transition c
  let event = new_event id now workflow_id (next_sequence workflow_id db) current c
  logged ← insert_event event db
  let db' = record logged {
    applications = set_state workflow_id c.next_state now logged.applications;
  }
  found ← get_snapshot workflow_id db'
  snapshot ← or_raise found workflow_not_found
  ok (snapshot, db')

-- `_ADVANCE_TARGETS.get(current)`
unfoldable pub advance_target : WorkflowState → Option WorkflowState
advance_target discovered = some deduplicated
advance_target deduplicated = some scored
advance_target scored = some eligibility_checked
advance_target eligibility_checked = some documents_selected
advance_target documents_selected = some application_opened
advance_target application_opened = some form_mapped
advance_target form_mapped = some answers_validated
advance_target answers_validated = some ready_to_submit
advance_target _ = none

abbrev pub last_prior : List WorkflowEvent → WorkflowState
last_prior events = elim (last? events) [ none ↦ discovered | some e ↦ e.prior_state ]

unfoldable pub resolve_target :
    WorkflowState
    → List WorkflowEvent
    → WorkflowControlAction
    → Outcome WorkflowError (WorkflowState × String)
unfolding state_eq
resolve_target current events advance = do
  target ← or_raise (advance_target current) workbench_state
  ok (target, "User advanced the supervised mock workflow.")
resolve_target current events pause = do
  raise_if (current == user_takeover) workbench_state
  ok (user_takeover, "User paused the workflow for manual takeover.")
resolve_target current events takeover = do
  raise_if (current == user_takeover) workbench_state
  ok (user_takeover, "User paused the workflow for manual takeover.")
resolve_target current events resume = do
  raise_if (not (current == user_takeover)) workbench_state
  ok (last_prior events, "User returned control to the supervised workflow.")
resolve_target current events retry =
    if current == failed_retryable
    then ok (deduplicated, "User retried the recoverable workflow.")
    else ok (failed_retryable, "User requested a recoverable retry checkpoint.")
resolve_target current events stop =
    if current == failed_terminal
    then ok (closed, "User closed the stopped workflow.")
    else if current == closed
    then err workbench_state
    else ok (failed_terminal, "User stopped the mock workflow.")

unfoldable pub get_workflow : String → Database → Outcome WorkflowError WorkflowRunSnapshot
get_workflow workflow_id db = do
  found ← get_snapshot workflow_id db
  or_raise found workflow_not_found

unfoldable pub control_command :
    WorkflowRunSnapshot → WorkflowControlAction → WorkflowState → String → TransitionCommand
unfolding action_eq
control_command snapshot action target cause = record {
  current_state = snapshot.state;
  next_state = target;
  actor = "desktop-user";
  cause = cause;
  verification = not_required;
  retry_count = if action == retry then 1 else 0;
}

unfoldable pub control_workflow :
    String
    → DateTime
    → String
    → WorkflowControlAction
    → Database
    → Outcome WorkflowError (WorkflowRunSnapshot × Database)
unfolding control_command action_eq
control_workflow id now workflow_id action db = do
  snapshot ← get_workflow workflow_id db
  raise_if (not (contains snapshot.allowed_controls action)) workbench_state
  (target, cause) ← resolve_target snapshot.state snapshot.events action
  apply_transition id now workflow_id (control_command snapshot action target cause) db
