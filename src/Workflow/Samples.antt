-- ===== src/Workflow/Samples.antt =====
-- Small databases and commands on which the workflow is run.
use mathlib.Core.List.{Memᴰ}
use job_apply_pro.Base.{
  ◌==◌, contains, option_eq, nat_eq, string_eq, any, ok, ◌≡◌, refl, true, false, none, [], ◌∷◌,
}
use job_apply_pro.Workflow.State.{
  WorkflowState, discovered, scored, assessment_pending, submission_attempted, submission_confirmed,
  user_takeover, state_eq,
}
use job_apply_pro.Workflow.Transitions.{
  VerificationResult, not_required, passed, verification_eq, TransitionCommand, is_allowed,
  validate_transition,
}
use job_apply_pro.Workflow.Events.{
  naive, aware, utc, WorkflowEvent, parse_state, parse_verification, event_from_row, event_row,
  ApplicationRow, JobRow, CandidateProfileRow, Database, insert_row, order_rows, events_from_rows,
  list_for_workflow,
}
use job_apply_pro.Workflow.Service.{transition, history}
use job_apply_pro.Workflow.History.{next_event, transition_succeeds, IsMockRun}
use job_apply_pro.Workflow.Workbench.{
  advance, action_eq, allowed_workbench_controls, find_application,
}
use job_apply_pro.Workflow.Apply.{IsRun}

abbrev pub run_row : ApplicationRow
run_row = record {
  id = "app";
  workflow_id = "mock-1";
  profile_id = "profile";
  job_id = "job";
  state = "DISCOVERED";
  selected_document_version_id = none;
  created_at = naive 1;
  updated_at = naive 1;
}

abbrev pub mock_job : JobRow
mock_job = record {
  id = "job";
  source = "workbench-mock";
  external_id = "mock-1";
  employer = "Acme";
  title = "Engineer";
  description_hash = "hash";
  discovered_at = naive 1;
}

abbrev pub profile : CandidateProfileRow
profile = record { id = "profile"; display_name = "Ada" }

abbrev pub fresh_db : Database
fresh_db = record {
  applications = run_row ∷ [];
  jobs = mock_job ∷ [];
  candidates = profile ∷ [];
  events = [];
}

abbrev pub pause_command : TransitionCommand
pause_command = record {
  current_state = discovered;
  next_state = user_takeover;
  actor = "desktop-user";
  cause = "pause";
  verification = not_required;
  retry_count = 0;
}

pub pause_valid : validate_transition pause_command ≡ ok tt
unfolding validate_transition is_allowed state_eq
pause_valid = refl

pub mock_run : IsMockRun "mock-1" discovered fresh_db
mock_run = (run_row, mock_job, Memᴰ.head refl, Memᴰ.head refl, refl, refl, refl, refl)

pub fresh_run : IsRun "mock-1" fresh_db run_row mock_job profile []
unfolding find_application history list_for_workflow order_rows events_from_rows string_eq
fresh_run = record {
  application = refl;
  job = refl;
  candidate = refl;
  logged = refl;
  numbered = refl;
}

abbrev pub pause_event : WorkflowEvent
pause_event = next_event "e1" (aware 5) "mock-1" pause_command fresh_db

abbrev pub paused_db : Database
paused_db = record fresh_db { events = event_row pause_event ∷ [] }

pub paused : transition "e1" (aware 5) "mock-1" pause_command fresh_db ≡ ok (pause_event, paused_db)
paused =
    (transition_succeeds "e1" (aware 5) "mock-1" pause_command fresh_db refl refl pause_valid).0

abbrev pub confirm : VerificationResult → TransitionCommand
confirm v = record {
  current_state = submission_attempted;
  next_state = submission_confirmed;
  actor = "portal";
  cause = "confirmation page";
  verification = v;
  retry_count = 0;
}

pub confirm_valid : validate_transition (confirm passed) ≡ ok tt
unfolding validate_transition is_allowed state_eq verification_eq
confirm_valid = refl

pub offered_example :
    contains (allowed_workbench_controls "workbench-mock" discovered) advance ≡ true
unfolding allowed_workbench_controls action_eq state_eq string_eq
offered_example = refl

abbrev pub paused_row : ApplicationRow
paused_row = record run_row { state = "USER_TAKEOVER" }

abbrev pub takeover_from : WorkflowState → WorkflowEvent
takeover_from s = record {
  id = "e0";
  workflow_id = "mock-1";
  sequence = 1;
  prior_state = s;
  next_state = user_takeover;
  actor = "desktop-user";
  cause = "pause";
  verification = not_required;
  retry_count = 0;
  occurred_at = aware 3;
}

abbrev pub takeover_db : WorkflowState → Database
takeover_db s = record {
  applications = paused_row ∷ [];
  jobs = mock_job ∷ [];
  candidates = profile ∷ [];
  events = event_row (takeover_from s) ∷ [];
}

pub scored_run :
    IsRun "mock-1" (takeover_db scored) paused_row mock_job profile (takeover_from scored ∷ [])
unfolding find_application history list_for_workflow order_rows insert_row events_from_rows
    event_from_row event_row parse_state parse_verification utc string_eq
scored_run = record {
  application = refl;
  job = refl;
  candidate = refl;
  logged = refl;
  numbered = refl;
}

pub assessment_run :
    IsRun "mock-1"
      (takeover_db assessment_pending)
      paused_row
      mock_job
      profile
      (takeover_from assessment_pending ∷ [])
unfolding find_application history list_for_workflow order_rows insert_row events_from_rows
    event_from_row event_row parse_state parse_verification utc string_eq
assessment_run = record {
  application = refl;
  job = refl;
  candidate = refl;
  logged = refl;
  numbered = refl;
}

pub new_id : (s : WorkflowState) → any (λ r. "e1" == r.id) (takeover_db s).events ≡ false
unfolding event_row string_eq
new_id s = refl
