-- ===== src/Challenge/Steps.antt =====
-- backend/src/job_apply_pro/services/challenges.py, the helpers of `ChallengeService`: reading a
-- session, its timer, its event log, and a transition of its workflow. The detector and the browser
-- are what the service is constructed with; what they answer during one call is given. A call draws
-- its identifiers and its time beforehand.
use job_apply_pro.Base.{
  if◌then◌else◌, ltb, ◌==◌, option_eq, nat_eq, string_eq, find, Outcome, ok, err, or_raise, ℕ, ◌-◌,
  String, Bool, false, not, ◌||◌, Option, none, some, List, [], ◌∷◌,
}
use job_apply_pro.Workflow.State.{WorkflowState, state_eq}
use job_apply_pro.Workflow.Transitions.{
  VerificationResult, verification_eq, TransitionCommand, WorkflowError,
}
use job_apply_pro.Workflow.Events.{aware, Database}
use job_apply_pro.Workflow.Workbench.{
  action_eq, WorkflowRunSnapshot, get_snapshot, apply_transition,
}
use job_apply_pro.Challenge.Session.{
  kind_eq, ChallengeStatus, in_progress, review_required, expired, status_eq, ChallengeDetection,
  ChallengeQuestion, ChallengeAnswer, ChallengeSessionSnapshot, EventDetails, no_details,
}
use job_apply_pro.Browser.{control_kind_eq, BrowserAction, BrowserObservation, BrowserActionResult}
use job_apply_pro.Challenge.World.{
  workflow_error, ◌>>=◌, ◌>>◌, ChallengeError, not_found, service_error, World, Act, continue,
  return, lift, raise_when, require, save, find_session, next_event_sequence, add_event,
}

pub record Detector : Type 0 where
  pub detect : BrowserObservation → Option ChallengeDetection
  pub questions : BrowserObservation → List ChallengeQuestion
  pub visible_timer_seconds : BrowserObservation → Option ℕ

pub record BrowserSession : Type 0 where
  pub workflow_id : String
  pub observation : Option BrowserObservation

pub record Browser : Type 0 where
  pub get_session : String → Outcome ChallengeError BrowserSession
  pub observe : String → Outcome ChallengeError (Option BrowserObservation)
  pub execute_action : String → BrowserAction → Outcome ChallengeError BrowserActionResult

-- What `uuid4` and `utc_now` return in the course of one call.
pub record Draws : Type 0 where
  pub session_id : String
  pub event_id : String
  pub first_id : String
  pub second_id : String
  pub now : ℕ

abbrev pub of_database : {A : Type 0} → Outcome WorkflowError A → Outcome ChallengeError A
of_database (ok a) = ok a
of_database (err e) = err (workflow_error e)

unfoldable pub get : String → Act ChallengeSessionSnapshot
unfolding find_session
get id = λ w. lift (or_raise (find_session id w.sessions) not_found) w

unfoldable pub is_active_status : ChallengeStatus → Bool
unfolding status_eq
is_active_status s = s == in_progress || s == review_required

unfoldable pub active : String → Act ChallengeSessionSnapshot
active id = do
  snapshot ← get id
  raise_when (not (is_active_status snapshot.status)) service_error
  return snapshot

unfoldable pub record_event : Draws → String → String → EventDetails → Act (Unit {0})
record_event d id event_type details = λ w.
    add_event
      (record {
        id = d.event_id;
        session_id = id;
        sequence = next_event_sequence id w;
        event_type = event_type;
        details = details;
        occurred_at = d.now;
      })
      w

abbrev pub elapsed_of : ℕ → ChallengeSessionSnapshot → ℕ
elapsed_of now s = now - s.created_at

abbrev pub remaining_of : ℕ → ChallengeSessionSnapshot → Option ℕ
remaining_of now s = elim s.time_limit_seconds [
  | none ↦ none
  | some limit ↦ some (limit - elapsed_of now s)
]

abbrev pub timed : ℕ → ChallengeSessionSnapshot → ChallengeSessionSnapshot
timed now s = record s {
  elapsed_seconds = elapsed_of now s;
  remaining_seconds = remaining_of now s;
}

abbrev pub expired_at : ℕ → ChallengeSessionSnapshot → ChallengeSessionSnapshot
expired_at now s = record s {
  elapsed_seconds = elapsed_of now s;
  remaining_seconds = some 0;
  status = expired;
  updated_at = now;
}

-- `remaining == 0`
unfoldable pub is_over : ℕ → ChallengeSessionSnapshot → Bool
is_over now s = elim (remaining_of now s) [ none ↦ false | some r ↦ r == 0 ]

abbrev pub expire : {A : Type 0} → Draws → ChallengeSessionSnapshot → Act A
expire d s = do
  save (expired_at d.now s)
  record_event d s.id "EXPIRED" no_details
  lift (err service_error)

unfoldable pub with_timer : Draws → ChallengeSessionSnapshot → Act ChallengeSessionSnapshot
with_timer d s = if is_over d.now s then expire d s else return (timed d.now s)

unfoldable pub question_of :
    ChallengeSessionSnapshot → String → Outcome ChallengeError ChallengeQuestion
question_of s id = or_raise (find (λ q. q.id == id) s.questions) not_found

-- the first of the answers with the latest time
unfoldable pub latest_answer : List ChallengeAnswer → Option ChallengeAnswer
latest_answer [] = none
latest_answer (a ∷ rest) = elim (latest_answer rest) [
  | none ↦ some a
  | some b ↦ if ltb a.answered_at b.answered_at then some b else some a
]

unfoldable pub latest_verified_fingerprint : ChallengeSessionSnapshot → String
unfolding latest_answer
latest_verified_fingerprint s = elim (latest_answer s.answers) [
  | none ↦ s.detection.page_fingerprint
  | some a ↦ elim a.provenance [
    | none ↦ s.detection.page_fingerprint
    | some fingerprint ↦ fingerprint
  ]
]

abbrev pub framework_command :
    WorkflowState → WorkflowState → String → VerificationResult → TransitionCommand
framework_command current target cause verification = record {
  current_state = current;
  next_state = target;
  actor = "challenge-framework";
  cause = cause;
  verification = verification;
  retry_count = 0;
}

abbrev pub applied :
    World
    → Outcome WorkflowError (WorkflowRunSnapshot × Database)
    → Outcome ChallengeError (Unit {0}) × World
applied w (ok (snapshot, database)) = (ok tt, record w { database = database })
applied w (err e) = (err (workflow_error e), w)

unfoldable pub change_state :
    String → ℕ → String → WorkflowState → String → VerificationResult → Act (Unit {0})
change_state id now workflow_id target cause verification = λ w.
    continue (lift (of_database (get_snapshot workflow_id w.database)) w) (λ found. do
      current ← require found not_found
      λ v. applied v (
          apply_transition id (aware now) workflow_id
            (framework_command current.state target cause verification) v.database))
