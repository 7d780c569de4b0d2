-- ===== src/Challenge/Service.antt =====
-- backend/src/job_apply_pro/services/challenges.py: the calls of `ChallengeService` that change a
-- session. `str.strip` and `str.casefold` of Python are parameters.
use job_apply_pro.Base.{
  if◌then◌else◌, ltb, ◌==◌, contains, option_eq, nat_eq, string_eq, any, all, keep, Outcome, ok,
  err, char_count, is_nonempty, ℕ, String, Bool, true, false, not, ◌&&◌, ◌||◌, Option, none, some,
  List, [], ◌∷◌, ◌++◌,
}
use job_apply_pro.Workflow.State.{assessment_completed, value, state_eq}
use job_apply_pro.Workflow.Transitions.{passed, verification_eq}
use job_apply_pro.Workflow.Workbench.{action_eq}
use job_apply_pro.Challenge.Session.{
  ChallengeKind, captcha, assessment, quiz, kind_eq, intervention_required, in_progress,
  review_required, completed, status_eq, ChallengeDetection, ChallengeQuestion, ChallengeAnswer,
  ChallengeAnswerCommand, ChallengeCompletionCommand, InterventionCompleteCommand,
  ChallengeSessionSnapshot, no_details, of_answer, of_page,
}
use job_apply_pro.Browser.{control_kind_eq, BrowserObservation, BrowserActionResult, is_action}
use job_apply_pro.Challenge.Browser.{answer_action, completion_action}
use job_apply_pro.Challenge.World.{
  ◌>>=◌, ◌>>◌, ChallengeError, service_error, needs_intervention, validation_error, Act, return,
  lift, raise_when, require, save,
}
use job_apply_pro.Challenge.Steps.{
  Detector, Browser, Draws, get, active, record_event, with_timer, question_of, change_state,
}

-- `required_ids <= answered_ids`
unfoldable pub is_ready : List ChallengeQuestion → List ChallengeAnswer → Bool
is_ready questions answers =
    all
      (λ q.
        not q.required
        || any (λ a. a.question_id == q.id && (a.verified && is_nonempty a.value)) answers)
      questions

abbrev pub given_answer :
    ℕ → ChallengeAnswerCommand → String → BrowserActionResult → ChallengeQuestion → ChallengeAnswer
given_answer now command value result q = record {
  question_id = q.id;
  value = value;
  source = command.source;
  provenance = some result.observation.page_fingerprint;
  confidence = command.confidence;
  verified = true;
  answered_at = now;
}

abbrev pub answers_with : ChallengeAnswer → List ChallengeAnswer → List ChallengeAnswer
answers_with a answers = keep (λ x. not (x.question_id == a.question_id)) answers ++ a ∷ []

-- the session after a verified answer
abbrev pub answered :
    ℕ
    → ChallengeQuestion
    → ChallengeAnswer
    → String
    → ChallengeSessionSnapshot
    → ChallengeSessionSnapshot
answered now q a fingerprint s =
    let ready = is_ready s.questions (answers_with a s.answers) in
    record s {
      answers = answers_with a s.answers;
      current_position = q.position;
      status = if ready then review_required else in_progress;
      review_fingerprint = if ready then some fingerprint else none;
      updated_at = now;
    }

abbrev pub over_limit : Option ℕ → String → Bool
over_limit none value = false
over_limit (some limit) value = ltb limit (char_count value)

abbrev pub is_empty {ℓ} : {A : Type ℓ} → List A → Bool
is_empty [] = true
is_empty (x ∷ xs) = false

-- The checks of an answer before it is entered.
unfoldable pub check_answer : ChallengeQuestion → String → Outcome ChallengeError (Unit {0})
check_answer q value =
    if q.legal_attestation || q.signature_required
    then err needs_intervention
    else if (q.required && not (is_nonempty value))
        || over_limit q.character_limit value
        || (not (is_empty q.options) && not (contains q.options value))
    then err service_error
    else ok tt

module _ (casefold : String → String) (browser : Browser) (d : Draws) where
  -- `answer` from the browser's action on.
  unfoldable pub enter :
      String
      → ChallengeAnswerCommand
      → ChallengeSessionSnapshot
      → ChallengeQuestion
      → String
      → Act ChallengeSessionSnapshot
  enter session_id command snapshot q value = do
    result ←
        lift (browser.execute_action snapshot.browser_session_id (answer_action casefold q value))
    raise_when (not result.verified) service_error
    let a = given_answer d.now command value result q
    let updated = answered d.now q a result.observation.page_fingerprint snapshot
    save updated
    record_event d session_id "ANSWER_VERIFIED" (of_answer q.id command.source)
    return updated

module _ (strip casefold : String → String) (browser : Browser) (d : Draws) where
  unfoldable pub answer : String → ChallengeAnswerCommand → Act ChallengeSessionSnapshot
  answer session_id command = do
    found ← active session_id
    snapshot ← with_timer d found
    q ← lift (question_of snapshot command.question_id)
    lift (check_answer q (strip command.value))
    raise_when (not (is_action (answer_action casefold q (strip command.value)))) validation_error
    enter casefold browser d session_id command snapshot q (strip command.value)

abbrev pub is_assessment : ChallengeKind → Bool
is_assessment assessment = true
is_assessment quiz = true
is_assessment _ = false

abbrev pub completed_at : ℕ → ChallengeSessionSnapshot → ChallengeSessionSnapshot
completed_at now s = record s {
  status = completed;
  completion_signal = some "Challenge complete";
  updated_at = now;
}

abbrev pub shows : String → Option BrowserObservation → Bool
shows fingerprint none = false
shows fingerprint (some o) = o.page_fingerprint == fingerprint

module _ (browser : Browser) (d : Draws) where
  unfoldable pub assessment_passed : ChallengeSessionSnapshot → Act (Unit {0})
  assessment_passed s =
      if is_assessment s.detection.kind
      then change_state d.first_id d.now s.workflow_id assessment_completed
          "Assessment completion page was verified" passed
      else return tt

  -- The end of `complete`, from the workflow's transition on.
  unfoldable pub finish :
      String → ChallengeSessionSnapshot → BrowserActionResult → Act ChallengeSessionSnapshot
  finish session_id snapshot result = do
    assessment_passed snapshot
    save (completed_at d.now snapshot)
    record_event d session_id "COMPLETED" (of_page result.observation.page_fingerprint)
    return (completed_at d.now snapshot)

  -- `complete` on a session whose timer was read.
  unfoldable pub hand_in :
      String → ChallengeCompletionCommand → ChallengeSessionSnapshot → Act ChallengeSessionSnapshot
  unfolding status_eq
  hand_in session_id command snapshot = do
    raise_when (not (snapshot.status == review_required)) service_error
    raise_when (not (command.confirmation_phrase == "COMPLETE CHALLENGE")) service_error
    raise_when (not (some command.review_fingerprint == snapshot.review_fingerprint)) service_error
    current ← lift (browser.observe snapshot.browser_session_id)
    raise_when (not (shows command.review_fingerprint current)) service_error
    result ← lift (
        browser.execute_action snapshot.browser_session_id
          (completion_action snapshot.detection.kind))
    raise_when (not result.verified || not (result.observation.page_type == "CHALLENGE_COMPLETE"))
        service_error
    finish session_id snapshot result

  unfoldable pub complete : String → ChallengeCompletionCommand → Act ChallengeSessionSnapshot
  complete session_id command = do
    found ← get session_id
    snapshot ← with_timer d found
    hand_in session_id command snapshot

abbrev pub still_captcha : Option ChallengeDetection → Bool
still_captcha none = false
still_captcha (some x) = x.kind == captcha

module _ (detector : Detector) (browser : Browser) (d : Draws) where
  unfoldable pub intervention_complete :
      String → InterventionCompleteCommand → Act ChallengeSessionSnapshot
  unfolding status_eq kind_eq
  intervention_complete session_id command = do
    snapshot ← get session_id
    raise_when (not (snapshot.status == intervention_required)) service_error
    raise_when (not (command.prior_fingerprint == snapshot.detection.page_fingerprint))
        service_error
    observed ← lift (browser.observe snapshot.browser_session_id)
    observation ← require observed service_error
    raise_when (still_captcha (detector.detect observation)) needs_intervention
    change_state d.first_id d.now snapshot.workflow_id snapshot.resume_state
        "User intervention cleared the CAPTCHA" passed
    let updated = record snapshot { status = completed; updated_at = d.now }
    save updated
    record_event d session_id "INTERVENTION_COMPLETED" no_details
    return updated
