-- ===== src/Challenge/Session.antt =====
-- backend/src/job_apply_pro/domain/challenges.py: the session of a challenge, with its questions and
-- answers. Times are seconds; a confidence, which is only copied, is a natural number; of a free-form
-- provenance the model keeps the page's fingerprint, the one entry that is read.
use job_apply_pro.Base.{Eq, option_eq, nat_eq, string_eq, ℕ, String, Bool, Option, List}
use job_apply_pro.Workflow.State.{WorkflowState, state_eq}

pub data ChallengeKind : Type 0 where
  captcha questionnaire assessment quiz : ChallengeKind

pub ChallengeKind-discrete : Discrete ChallengeKind
ChallengeKind-discrete = hlevel

instance unfoldable pub kind_eq : Eq ChallengeKind
unfolding ChallengeKind-discrete
kind_eq = record { dec = ChallengeKind-discrete }

pub data CaptchaType : Type 0 where
  image audio interactive token embedded unknown : CaptchaType

pub data ChallengeStatus : Type 0 where
  detected intervention_required in_progress review_required completed failed_challenge expired :
      ChallengeStatus

pub ChallengeStatus-discrete : Discrete ChallengeStatus
ChallengeStatus-discrete = hlevel

instance unfoldable pub status_eq : Eq ChallengeStatus
unfolding ChallengeStatus-discrete
status_eq = record { dec = ChallengeStatus-discrete }

pub data QuestionKind : Type 0 where
  text long_text select checkbox multiple_choice true_false matching ordering visual : QuestionKind

pub data AnswerSource : Type 0 where
  candidate_profile answer_library user ai_gateway : AnswerSource

pub record ChallengeDetection : Type 0 where
  pub kind : ChallengeKind
  pub page_type : String
  pub provider : Option String
  pub captcha_type : Option CaptchaType
  pub signatures : List String
  pub page_fingerprint : String
  pub detected_at : ℕ

pub record ChallengeQuestion : Type 0 where
  pub id : String
  pub position : ℕ
  pub prompt : String
  pub kind : QuestionKind
  pub options : List String
  pub required : Bool
  pub character_limit : Option ℕ
  pub canonical_field : Option String
  pub legal_attestation : Bool
  pub signature_required : Bool

pub record ChallengeAnswer : Type 0 where
  pub question_id : String
  pub value : String
  pub source : AnswerSource
  pub provenance : Option String
  pub confidence : ℕ
  pub verified : Bool
  pub answered_at : ℕ

pub record ChallengeSessionCreate : Type 0 where
  pub workflow_id : String
  pub browser_session_id : String
  pub time_limit_seconds : Option ℕ

pub record ChallengeAnswerCommand : Type 0 where
  pub question_id : String
  pub value : String
  pub source : AnswerSource
  pub confidence : ℕ

pub record ChallengeCompletionCommand : Type 0 where
  pub review_fingerprint : String
  pub confirmation_phrase : String

pub record InterventionCompleteCommand : Type 0 where
  pub prior_fingerprint : String

pub record ChallengeSessionSnapshot : Type 0 where
  pub id : String
  pub workflow_id : String
  pub browser_session_id : String
  pub resume_state : WorkflowState
  pub detection : ChallengeDetection
  pub status : ChallengeStatus
  pub instructions : String
  pub questions : List ChallengeQuestion
  pub answers : List ChallengeAnswer
  pub current_position : ℕ
  pub flagged_question_ids : List String
  pub time_limit_seconds : Option ℕ
  pub elapsed_seconds : ℕ
  pub remaining_seconds : Option ℕ
  pub review_fingerprint : Option String
  pub completion_signal : Option String
  pub created_at : ℕ
  pub updated_at : ℕ

-- The `details` of the events that the service writes.
pub data EventDetails : Type 0 where
  no_details : EventDetails
  of_detection : ChallengeDetection → EventDetails
  of_answer : String → AnswerSource → EventDetails
  of_page : String → EventDetails
  of_changed_kind : ChallengeKind → EventDetails
  of_recovery : Bool → String → EventDetails

pub record ChallengeEvent : Type 0 where
  pub id : String
  pub session_id : String
  pub sequence : ℕ
  pub event_type : String
  pub details : EventDetails
  pub occurred_at : ℕ
