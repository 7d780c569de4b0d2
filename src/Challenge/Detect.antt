-- ===== src/Challenge/Detect.antt =====
-- backend/src/job_apply_pro/services/challenges.py: `detect`, which opens a session, and `refresh`,
-- which looks at its page again.
use job_apply_pro.Base.{
  if◌then◌else◌, ◌==◌, option_eq, nat_eq, string_eq, is_some, err, ℕ, zero, suc, String, Bool,
  false, not, ◌&&◌, Option, none, some, List, [], map,
}
use job_apply_pro.Workflow.State.{
  WorkflowState, answers_validated, assessment_pending, assessment_in_progress, captcha_required,
  state_eq,
}
use job_apply_pro.Workflow.Transitions.{not_required, verification_eq}
use job_apply_pro.Workflow.Workbench.{action_eq, get_snapshot}
use job_apply_pro.Challenge.Session.{
  ChallengeKind, captcha, kind_eq, intervention_required, in_progress, review_required,
  failed_challenge, status_eq, ChallengeDetection, ChallengeQuestion, ChallengeSessionCreate,
  ChallengeSessionSnapshot, of_detection, of_changed_kind, of_recovery, ChallengeAnswer,
}
use job_apply_pro.Browser.{control_kind_eq, BrowserObservation}
use job_apply_pro.Challenge.World.{
  ◌>>=◌, ◌>>◌, not_found, service_error, detection_error, Act, return, lift, raise_when, require,
  save,
}
use job_apply_pro.Challenge.Steps.{
  Detector, BrowserSession, Browser, Draws, of_database, get, record_event, with_timer,
  latest_verified_fingerprint, change_state,
}
use job_apply_pro.Challenge.Service.{is_assessment}

-- `text[:n]`
abbrev pub first_chars : ℕ → String → String
first_chars zero s = ""
first_chars (suc n) String.[] = ""
first_chars (suc n) (String.◌∷◌ c s) = String.◌∷◌ c (first_chars n s)

-- `a or b` on optional numbers
abbrev pub or_number : Option ℕ → Option ℕ → Option ℕ
or_number none b = b
or_number (some n) b = if n == 0 then b else some n

abbrev pub questions_for :
    Detector → ChallengeKind → BrowserObservation → List ChallengeQuestion → List ChallengeQuestion
questions_for detector captcha o otherwise = otherwise
questions_for detector _ o otherwise = detector.questions o

abbrev pub opened :
    Detector
    → Draws
    → ChallengeSessionCreate
    → WorkflowState
    → BrowserObservation
    → ChallengeDetection
    → ChallengeSessionSnapshot
opened detector d command state o x =
    let limit = or_number command.time_limit_seconds (detector.visible_timer_seconds o) in
    record {
      id = d.session_id;
      workflow_id = command.workflow_id;
      browser_session_id = command.browser_session_id;
      resume_state = state;
      detection = x;
      status = if x.kind == captcha then intervention_required else in_progress;
      instructions = first_chars 2000 o.visible_text;
      questions = questions_for detector x.kind o [];
      answers = [];
      current_position = 0;
      flagged_question_ids = [];
      time_limit_seconds = limit;
      elapsed_seconds = 0;
      remaining_seconds = limit;
      review_fingerprint = none;
      completion_signal = none;
      created_at = d.now;
      updated_at = d.now;
    }

abbrev pub belongs : ChallengeSessionCreate → BrowserSession → Bool
belongs command b = b.workflow_id == command.workflow_id && is_some b.observation

abbrev pub unverified : ChallengeAnswer → ChallengeAnswer
unverified a = record a { verified = false }

-- The session on the page as it is found again.
abbrev pub refreshed :
    Detector
    → Draws
    → BrowserObservation
    → ChallengeDetection
    → ChallengeSessionSnapshot
    → ChallengeSessionSnapshot
refreshed detector d o x s =
    let changed = not (o.page_fingerprint == latest_verified_fingerprint s) in
    let reopened = changed && s.status == review_required in
    record s {
      detection = x;
      questions = questions_for detector x.kind o s.questions;
      answers =
          if changed && not (s.detection.kind == captcha)
          then map unverified s.answers
          else s.answers;
      status = if reopened then in_progress else s.status;
      review_fingerprint = if reopened then none else s.review_fingerprint;
      updated_at = d.now;
    }

module _ (detector : Detector) (browser : Browser) (d : Draws) where
  -- The transitions of the workflow that a new challenge causes.
  unfoldable pub announce : WorkflowState → ChallengeKind → String → Act (Unit {0})
  unfolding kind_eq state_eq
  announce state kind workflow_id =
      if kind == captcha
      then change_state d.first_id d.now workflow_id captcha_required
          "CAPTCHA detected; browser state preserved for user intervention" not_required
      else if is_assessment kind && state == answers_validated
      then (do
        change_state d.first_id d.now workflow_id assessment_pending
            "Assessment instructions and questions were captured" not_required
        change_state d.second_id d.now workflow_id assessment_in_progress
            "Timed assessment session started" not_required)
      else return tt

  unfoldable pub detect : ChallengeSessionCreate → Act ChallengeSessionSnapshot
  unfolding kind_eq
  detect command = do
    found ← λ w. lift (of_database (get_snapshot command.workflow_id w.database)) w
    workflow ← require found not_found
    session ← lift (browser.get_session command.browser_session_id)
    raise_when (not (belongs command session)) service_error
    observed ← lift (browser.observe command.browser_session_id)
    observation ← require observed service_error
    x ← require (detector.detect observation) detection_error
    let snapshot = opened detector d command workflow.state observation x
    save snapshot
    record_event d snapshot.id "DETECTED" (of_detection x)
    announce workflow.state x.kind command.workflow_id
    return snapshot

  abbrev pub reject : {A : Type 0} → ChallengeSessionSnapshot → ChallengeDetection → Act A
  reject s x = do
    save (record s { status = failed_challenge; updated_at = d.now })
    record_event d s.id "RECOVERY_FAILED" (of_changed_kind x.kind)
    lift (err service_error)

  unfoldable pub refresh : String → Act ChallengeSessionSnapshot
  unfolding kind_eq status_eq latest_verified_fingerprint
  refresh session_id = do
    snapshot ← get session_id
    observed ← lift (browser.observe snapshot.browser_session_id)
    observation ← require observed service_error
    x ← require (detector.detect observation) service_error
    if x.kind == snapshot.detection.kind then return tt else reject snapshot x
    updated ← with_timer d (refreshed detector d observation x snapshot)
    save updated
    record_event d session_id "RECOVERED" (
        of_recovery (not (observation.page_fingerprint == latest_verified_fingerprint snapshot))
          observation.page_fingerprint)
    return updated
