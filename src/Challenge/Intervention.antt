-- ===== src/Challenge/Intervention.antt =====
-- How a workflow goes on after a captcha: `intervention_complete` of
-- backend/src/job_apply_pro/services/challenges.py.
use job_apply_pro.Challenge.Inversion.{find_session-put_session}
use job_apply_pro.Base.{
  ◌==◌, ==_refl, option_eq, nat_eq, string_eq, any, ok, err, String, ◌≡◌, refl, true, false, ◌&&◌,
  ◌||◌, some, List, arith, [], ◌∷◌, ◌++◌,
}
use job_apply_pro.Workflow.State.{WorkflowState, value, state_eq}
use job_apply_pro.Workflow.Transitions.{
  passed, verification_eq, TransitionCommand, invalid_transition, validate_transition,
}
use job_apply_pro.Workflow.Table.{follows, may_follow, is_allowed-eq-may_follow}
use job_apply_pro.Workflow.Events.{
  aware, WorkflowEvent, ApplicationRow, JobRow, CandidateProfileRow,
}
use job_apply_pro.Workflow.Workbench.{action_eq}
use job_apply_pro.Workflow.Apply.{
  IsRun, get_snapshot-run, moved, apply_transition-invalid, apply_transition-ok,
}
use job_apply_pro.Challenge.Session.{
  kind_eq, intervention_required, completed, status_eq, InterventionCompleteCommand,
  ChallengeSessionSnapshot, no_details,
}
use job_apply_pro.Browser.{control_kind_eq, BrowserObservation}
use job_apply_pro.Challenge.World.{
  workflow_error, World, save, find_session, next_event_sequence, add_event, put_session,
}
use job_apply_pro.Challenge.Steps.{
  Detector, Browser, Draws, get, record_event, framework_command, change_state,
}
use job_apply_pro.Challenge.Service.{still_captcha, intervention_complete}

-- The command that leads a workflow back to the state it was found in.
abbrev pub resume_command : WorkflowState → WorkflowState → TransitionCommand
resume_command current target =
    framework_command current target "User intervention cleared the CAPTCHA" passed

resume-valid :
    (current target : WorkflowState)
    → may_follow current target ≡ true
    → validate_transition (resume_command current target) ≡ ok tt
unfolding validate_transition
resume-valid current target follows =
    rw (is_allowed-eq-may_follow current target) (rw follows (ground arith))

resume-invalid :
    (current target : WorkflowState)
    → may_follow current target ≡ false
    → validate_transition (resume_command current target) ≡ err (invalid_transition current target)
unfolding validate_transition
resume-invalid current target stuck = rw (is_allowed-eq-may_follow current target) (rw stuck refl)

-- The world after the workflow of a session has gone back to the session's state.
abbrev pub resumed : Draws → ChallengeSessionSnapshot → WorkflowState → World → World
resumed d s current w = record w {
  database =
      moved d.first_id (aware d.now) s.workflow_id (resume_command current s.resume_state)
        w.database;
}

abbrev pub cleared : Draws → ChallengeSessionSnapshot → ChallengeSessionSnapshot
cleared d s = record s { status = completed; updated_at = d.now }

module _ (detector : Detector) (browser : Browser) (d : Draws) (id : String)
    (command : InterventionCompleteCommand) (w : World) (s : ChallengeSessionSnapshot)
    (o : BrowserObservation) (a : ApplicationRow) (j : JobRow) (k : CandidateProfileRow)
    (es : List WorkflowEvent) (current : WorkflowState)
    (stored : find_session id w.sessions ≡ some s) (waiting : s.status ≡ intervention_required)
    (same_page : command.prior_fingerprint ≡ s.detection.page_fingerprint)
    (observed : browser.observe s.browser_session_id ≡ ok (some o))
    (gone : still_captcha (detector.detect o) ≡ false)
    (run : IsRun s.workflow_id w.database a j k es) (at : a.state ≡ value current) where
  -- The world that a completed intervention leaves.
  abbrev after_intervention : World
  after_intervention = record (resumed d s current w) {
    sessions = put_session (cleared d s) w.sessions;
    session_events =
        w.session_events
        ++ record {
          id = d.event_id;
          session_id = id;
          sequence = next_event_sequence id w;
          event_type = "INTERVENTION_COMPLETED";
          details = no_details;
          occurred_at = d.now;
        }
          ∷ [];
  }

  -- Once the captcha is gone from the page, the workflow of the session goes back to the state it was
  -- found in where the table allows this, and the session is completed.
  pub intervention_complete-resumes :
      may_follow current s.resume_state ≡ true
      → any (λ r. d.first_id == r.id) w.database.events ≡ false
      → any
          (λ x.
            d.event_id == x.id || (id == x.session_id && next_event_sequence id w == x.sequence))
          w.session_events
        ≡ false
      → (v : World) × (intervention_complete detector browser d id command w
          ≡ (ok (cleared d s), v))
        × (find_session s.id v.sessions ≡ some (cleared d s))
        × (v.database ≡ (resumed d s current w).database)
  unfolding intervention_complete get change_state save record_event add_event next_event_sequence
      kind_eq status_eq
  intervention_complete-resumes follows new_id free = (
    after_intervention,
    rw stored (
        rw waiting (
          rw same_page (
            rw (==_refl s.detection.page_fingerprint) (
              rw observed (
                rw gone (
                  rw (get_snapshot-run s.workflow_id w.database a j k es run current at) (
                    rw
                      (apply_transition-ok d.first_id (aware d.now) s.workflow_id
                        (resume_command current s.resume_state) w.database a j k es run current at
                        refl (resume-valid current s.resume_state follows) new_id)
                      (rw free refl)))))))),
    find_session-put_session (cleared d s) w.sessions,
    refl,
  )

  -- Where the table does not allow the way back, as from captcha_required to an assessment in progress,
  -- the call fails on the invalid transition, and nothing is stored.
  pub intervention_complete-stuck :
      may_follow current s.resume_state ≡ false
      → intervention_complete detector browser d id command w
        ≡ (err (workflow_error (invalid_transition current s.resume_state)), w)
  unfolding intervention_complete get change_state status_eq
  intervention_complete-stuck stuck = rw stored (
      rw waiting (
        rw same_page (
          rw (==_refl s.detection.page_fingerprint) (
            rw observed (
              rw gone (
                rw (get_snapshot-run s.workflow_id w.database a j k es run current at) (
                  rw
                    (apply_transition-invalid d.first_id (aware d.now) s.workflow_id
                      (resume_command current s.resume_state) w.database a j k es run current at
                      (invalid_transition current s.resume_state) refl
                      (resume-invalid current s.resume_state stuck))
                    refl)))))))
