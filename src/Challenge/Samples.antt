-- ===== src/Challenge/Samples.antt =====
-- Small sessions, pages and worlds on which the challenges are run.
use Prim.Native.String.{◌++◌ as text_append}
use job_apply_pro.Base.{
  option_eq, nat_eq, string_eq, ok, ℕ, zero, suc, String, refl, true, false, none, some, [], ◌∷◌,
  ==_refl, ◌≡◌,
}
use job_apply_pro.Workflow.State.{WorkflowState, scored, value, state_eq}
use job_apply_pro.Workflow.Events.{
  ApplicationRow, Database, order_rows, events_from_rows, list_for_workflow,
}
use job_apply_pro.Workflow.Workbench.{action_eq, find_application}
use job_apply_pro.Workflow.Service.{history}
use job_apply_pro.Workflow.Apply.{IsRun}
use job_apply_pro.Workflow.Samples.{run_row, mock_job, profile, fresh_db}
use job_apply_pro.Challenge.Session.{
  ChallengeKind, captcha, questionnaire, kind_eq, intervention_required, in_progress,
  review_required, completed, status_eq, text, user, ChallengeDetection, ChallengeQuestion,
  ChallengeAnswerCommand, ChallengeCompletionCommand, ChallengeSessionSnapshot,
}
use job_apply_pro.Browser.{control_kind_eq, BrowserObservation}
use job_apply_pro.Challenge.World.{World, find_session}
use job_apply_pro.Challenge.Steps.{Detector, Browser, Draws}

abbrev pub page : BrowserObservation
page = record {
  page_type = "QUESTIONNAIRE";
  page_fingerprint = "fp";
  visible_text = "Why?";
  controls = [];
}

abbrev pub end_page : BrowserObservation
end_page = record {
  page_type = "CHALLENGE_COMPLETE";
  page_fingerprint = "fp-end";
  visible_text = "Challenge complete";
  controls = [];
}

abbrev pub found_kind : ChallengeKind → ChallengeDetection
found_kind kind = record {
  kind = kind;
  page_type = "QUESTIONNAIRE";
  provider = none;
  captcha_type = none;
  signatures = [];
  page_fingerprint = "fp";
  detected_at = 100;
}

abbrev pub why : ChallengeQuestion
why = record {
  id = "q1";
  position = 1;
  prompt = "Why?";
  kind = text;
  options = [];
  required = true;
  character_limit = some 100000;
  canonical_field = none;
  legal_attestation = false;
  signature_required = false;
}

abbrev pub attest : ChallengeQuestion
attest = record why { id = "q2"; prompt = "I attest"; legal_attestation = true; required = false }

abbrev pub session : ChallengeSessionSnapshot
session = record {
  id = "s1";
  workflow_id = "mock-1";
  browser_session_id = "b1";
  resume_state = scored;
  detection = found_kind questionnaire;
  status = in_progress;
  instructions = "Why?";
  questions = why ∷ attest ∷ [];
  answers = [];
  current_position = 0;
  flagged_question_ids = [];
  time_limit_seconds = some 600;
  elapsed_seconds = 0;
  remaining_seconds = some 600;
  review_fingerprint = none;
  completion_signal = none;
  created_at = 100;
  updated_at = 100;
}

abbrev pub reviewed_session : ChallengeSessionSnapshot
reviewed_session = record session { status = review_required; review_fingerprint = some "fp" }

abbrev pub done_session : ChallengeSessionSnapshot
done_session = record session { status = completed }

abbrev pub captcha_session : WorkflowState → ChallengeSessionSnapshot
captcha_session s = record session {
  status = intervention_required;
  resume_state = s;
  detection = found_kind captcha;
}

abbrev pub captcha_row : ApplicationRow
captcha_row = record run_row { state = "CAPTCHA_REQUIRED" }

abbrev pub captcha_db : Database
captcha_db = record fresh_db { applications = captcha_row ∷ [] }

pub captcha_run : IsRun "mock-1" captcha_db captcha_row mock_job profile []
unfolding find_application history list_for_workflow order_rows events_from_rows string_eq
captcha_run = record {
  application = refl;
  job = refl;
  candidate = refl;
  logged = refl;
  numbered = refl;
}

abbrev pub world_of : ChallengeSessionSnapshot → World
world_of s = record { sessions = s ∷ []; session_events = []; database = captcha_db }

abbrev pub browser_at : BrowserObservation → Browser
browser_at after = record {
  get_session = λ id. ok (record { workflow_id = "mock-1"; observation = some page });
  observe = λ id. ok (some page);
  execute_action = λ id action.
      ok (record { action = action; verified = true; observation = after; error = none });
}

abbrev pub plain_detector : Detector
plain_detector = record {
  detect = λ o. some (found_kind questionnaire);
  questions = λ o. why ∷ attest ∷ [];
  visible_timer_seconds = λ o. none;
}

abbrev pub draws : ℕ → Draws
draws now = record {
  session_id = "s2";
  event_id = "e1";
  first_id = "w1";
  second_id = "w2";
  now = now;
}

abbrev pub reply : String → String → ChallengeAnswerCommand
reply question value = record {
  question_id = question;
  value = value;
  source = user;
  confidence = 100;
}

abbrev pub completion : ChallengeCompletionCommand
completion = record { review_fingerprint = "fp"; confirmation_phrase = "COMPLETE CHALLENGE" }

-- A text of n characters.
abbrev pub filler : ℕ → String
filler zero = ""
filler (suc n) = text_append "x" (filler n)

pub stored_session : (s : ChallengeSessionSnapshot) → find_session s.id (s ∷ []) ≡ some s
unfolding find_session
stored_session s = rw (==_refl s.id) refl
