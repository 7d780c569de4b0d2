-- ===== src/Challenge/ResumeTests.antt =====
-- Runs of an intervention and of a second look on small worlds, and each property at one of them.
use job_apply_pro.Challenge.Latest.{IsLastPage}
use job_apply_pro.Challenge.Session.{ChallengeAnswer, user}
use job_apply_pro.Challenge.Refresh.{refresh-keeps}
use job_apply_pro.Base.{
  ℕ, Option, none, ◌∷◌, [], option_eq, nat_eq, string_eq, ok, err, ◌≡◌, refl, true, false, some, [],
  ◌∷◌, String,
}
use job_apply_pro.Workflow.State.{scored, assessment_in_progress, captcha_required, state_eq}
use job_apply_pro.Workflow.Table.{may_follow}
use job_apply_pro.Workflow.Transitions.{verification_eq, invalid_transition}
use job_apply_pro.Workflow.Samples.{mock_job, profile}
use job_apply_pro.Challenge.Session.{
  questionnaire, kind_eq, review_required, status_eq, InterventionCompleteCommand,
  ChallengeSessionSnapshot, of_recovery,
}
use job_apply_pro.Browser.{control_kind_eq, BrowserObservation}
use job_apply_pro.Challenge.World.{
  workflow_error, World, put_session, save, find_session, next_event_sequence, add_event,
}
use job_apply_pro.Challenge.Steps.{
  get, record_event, timed, is_over, with_timer, latest_answer, latest_verified_fingerprint,
}
use job_apply_pro.Challenge.Service.{still_captcha, intervention_complete}
use job_apply_pro.Challenge.Detect.{refreshed, refresh}
use job_apply_pro.Challenge.Inversion.{Returns}
use job_apply_pro.Challenge.Intervention.{
  resumed, cleared, intervention_complete-resumes, intervention_complete-stuck,
}
use job_apply_pro.Challenge.Samples.{
  page, found_kind, reviewed_session, captcha_session, captcha_row, captcha_db, captcha_run,
  world_of, browser_at, plain_detector, draws, stored_session,
}

not_captcha : still_captcha (plain_detector.detect page) ≡ false
unfolding kind_eq
not_captcha = refl

no_way_back : may_follow captcha_required assessment_in_progress ≡ false
no_way_back = refl

back_to_scored : may_follow captcha_required scored ≡ true
back_to_scored = refl

abbrev clear : InterventionCompleteCommand
clear = record { prior_fingerprint = "fp" }

intervention_complete-resumes_example :
    (v : World) × (intervention_complete plain_detector
        (browser_at page)
        (draws 200)
        "s1"
        clear
        (world_of (captcha_session scored))
      ≡ (ok (cleared (draws 200) (captcha_session scored)), v))
    × (find_session "s1" v.sessions ≡ some (cleared (draws 200) (captcha_session scored)))
    × (v.database
        ≡ (resumed
            (draws 200)
            (captcha_session scored)
            captcha_required
            (world_of (captcha_session scored))).database)
intervention_complete-resumes_example =
    intervention_complete-resumes plain_detector (browser_at page) (draws 200) "s1" clear
      (world_of (captcha_session scored)) (captcha_session scored) page captcha_row mock_job profile
      [] captcha_required (stored_session (captcha_session scored)) refl refl refl not_captcha
      captcha_run refl back_to_scored refl refl

intervention_complete-stuck_example :
    intervention_complete plain_detector
      (browser_at page)
      (draws 200)
      "s1"
      clear
      (world_of (captcha_session assessment_in_progress))
    ≡ (
      err (workflow_error (invalid_transition captcha_required assessment_in_progress)),
      world_of (captcha_session assessment_in_progress),
    )
intervention_complete-stuck_example =
    intervention_complete-stuck plain_detector (browser_at page) (draws 200) "s1" clear
      (world_of (captcha_session assessment_in_progress)) (captcha_session assessment_in_progress)
      page captcha_row mock_job profile [] captcha_required
      (stored_session (captcha_session assessment_in_progress)) refl refl refl not_captcha
      captcha_run refl no_way_back

abbrev given : ℕ → Option String → ChallengeAnswer
given at page = record {
  question_id = "q1";
  value = "Because";
  source = user;
  provenance = page;
  confidence = 100;
  verified = true;
  answered_at = at;
}

-- A reviewed session with two answers, which was opened on another page than that of the latest.
abbrev answered_session : ChallengeSessionSnapshot
answered_session = record reviewed_session {
  detection = record (found_kind questionnaire) { page_fingerprint = "fp-first" };
  answers = given 120 none ∷ given 150 (some "fp") ∷ [];
}

abbrev refreshed_session : ChallengeSessionSnapshot
refreshed_session =
    timed 200
      (refreshed plain_detector (draws 200) page (found_kind questionnaire) answered_session)

abbrev after_refresh : World
after_refresh = record {
  sessions = refreshed_session ∷ [];
  session_events =
      record {
        id = "e1";
        session_id = "s1";
        sequence = 1;
        event_type = "RECOVERED";
        details = of_recovery false "fp";
        occurred_at = 200;
      }
      ∷ [];
  database = captcha_db;
}

refresh_runs :
    Returns
      (refresh plain_detector (browser_at page) (draws 200) "s1")
      (world_of answered_session)
      refreshed_session
      after_refresh
unfolding refresh get with_timer find_session is_over save put_session record_event add_event
    next_event_sequence latest_verified_fingerprint latest_answer kind_eq status_eq string_eq nat_eq
refresh_runs = refl

still_reviewed : refreshed_session.status ≡ review_required
unfolding latest_verified_fingerprint latest_answer string_eq status_eq
still_reviewed = refl

refresh-keeps_example :
    (s : ChallengeSessionSnapshot) × (o : BrowserObservation) × (find_session "s1"
        (answered_session ∷ [])
      ≡ some s)
    × (s.status ≡ review_required)
    × ((browser_at page).observe s.browser_session_id ≡ ok (some o))
    × IsLastPage s o.page_fingerprint
    × (refreshed_session.answers ≡ s.answers)
    × (refreshed_session.review_fingerprint ≡ s.review_fingerprint)
    × (find_session "s1" (refreshed_session ∷ []) ≡ some refreshed_session)
refresh-keeps_example =
    refresh-keeps plain_detector (browser_at page) (draws 200) "s1" (world_of answered_session)
      refreshed_session after_refresh refresh_runs still_reviewed
