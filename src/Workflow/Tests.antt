-- ===== src/Workflow/Tests.antt =====
-- The transitions and the log at concrete inputs, each theorem where its hypotheses hold.
use job_apply_pro.Workflow.Samples.{paused_db}
use job_apply_pro.Base.{
  option_eq, nat_eq, string_eq, ok, err, ◌≤◌, ◌≡◌, refl, ◌∙◌, ◌⊎◌, true, [], ◌∷◌, ◌++◌,
}
use job_apply_pro.Workflow.State.{
  submission_attempted, submission_confirmed, tracking_active, closed, captcha_required,
  failed_terminal, state_eq,
}
use job_apply_pro.Workflow.Transitions.{
  passed, uncertain, verification_eq, invalid_transition, is_allowed, validate_transition,
}
use job_apply_pro.Workflow.Table.{is_allowed-eq-may_follow}
use job_apply_pro.Workflow.Trails.{
  Trail, here, then, Holds, Accepts, Refuses, validate_transition-cases, valid-unconfirmed,
  IsConfirmation, confirmed_needs_passed, stopped_stays_stopped, stop_command, steps, close_follows,
  closable,
}
use job_apply_pro.Workflow.Events.{aware, utc, event_row}
use job_apply_pro.Workflow.Service.{new_event, transition_public, history}
use job_apply_pro.Workflow.History.{
  next_event, transition-history, transition_public-mock, transition_public-repeats,
}
use job_apply_pro.Workflow.Workbench.{action_eq}
use job_apply_pro.Workflow.Samples.{
  fresh_db, pause_command, mock_run, fresh_run, pause_event, paused, confirm, confirm_valid,
}

is_allowed-eq-may_follow_example : is_allowed tracking_active closed ≡ true
is_allowed-eq-may_follow_example = is_allowed-eq-may_follow tracking_active closed

unverified_refused :
    validate_transition (confirm uncertain)
    ≡ err (invalid_transition submission_attempted submission_confirmed)
unfolding validate_transition is_allowed state_eq verification_eq
unverified_refused = refl

validate_transition-cases_example : Accepts (confirm passed) ⊎ Refuses (confirm passed)
validate_transition-cases_example = validate_transition-cases (confirm passed)

abbrev confirming : Trail submission_attempted submission_confirmed
confirming = then (confirm passed) refl confirm_valid here

confirmed_needs_passed_example : Holds IsConfirmation confirming
confirmed_needs_passed_example = confirmed_needs_passed confirming (λ e. cc) refl

closing : Trail failed_terminal closed
closing =
    then (stop_command failed_terminal closed) refl
      (valid-unconfirmed (stop_command failed_terminal closed) close_follows (λ e. cc)) here

stopped_stays_stopped_example : (closed ≡ failed_terminal) ⊎ (closed ≡ closed)
stopped_stays_stopped_example = stopped_stays_stopped closing refl

closable_example : (r : Trail captcha_required closed) × (steps r ≤ 2)
closable_example = closable captcha_required

transition-history_example :
    history "mock-1" paused_db
    ≡ ok (record pause_event { occurred_at = utc pause_event.occurred_at } ∷ [])
transition-history_example =
    transition-history "e1" (aware 5) "mock-1" pause_command fresh_db [] pause_event paused_db refl
      fresh_run.logged paused

transition_public-repeats_example :
    (paused_db.applications ≡ fresh_db.applications)
    × (transition_public "e2" (aware 6) "mock-1" pause_command paused_db
        ≡ ok (
          next_event "e2" (aware 6) "mock-1" pause_command paused_db,
          record paused_db {
            events =
                paused_db.events
                ++ event_row (next_event "e2" (aware 6) "mock-1" pause_command paused_db) ∷ [];
          },
        ))
unfolding event_row new_event string_eq
transition_public-repeats_example =
    transition_public-repeats "e1" "e2" (aware 5) (aware 6) "mock-1" pause_command fresh_db
      paused_db pause_event mock_run refl
      (transition_public-mock "e1" (aware 5) "mock-1" pause_command fresh_db mock_run ∙ paused) refl
