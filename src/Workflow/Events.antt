-- ===== src/Workflow/Events.antt =====
-- backend/src/job_apply_pro/storage/repositories.py: the log of workflow events, its rows, and the
-- rows of the applications, jobs and candidates that the workflow queries read.
-- The database is a record of tables, each a list of rows in the order of insertion. A commit is the
-- new database; a refused insert leaves the old one.
use job_apply_pro.Base.{
  if◌then◌else◌, leb, ◌==◌, option_eq, nat_eq, string_eq, any, keep, find, max?, Outcome, ok, err,
  ◌>>=◌, or_raise, ℕ, ◌+◌, String, Bool, ◌&&◌, ◌||◌, Option, none, some, List, [], ◌∷◌, ◌++◌, map,
}
use job_apply_pro.Workflow.State.{WorkflowState, all_states, value, state_eq}
use job_apply_pro.Workflow.Transitions.{
  VerificationResult, not_required, passed, failed, uncertain, verification_eq, WorkflowError,
  integrity, unreadable,
}

-- A `datetime`: a wall-clock reading with no zone, or an instant. Both count microseconds; a naive
-- reading is taken as UTC.
pub data DateTime : Type 0 where
  naive : ℕ → DateTime
  aware : ℕ → DateTime

unfoldable pub utc : DateTime → DateTime
utc (naive t) = aware t
utc (aware t) = aware t

pub record WorkflowEvent : Type 0 where
  pub id : String
  pub workflow_id : String
  pub sequence : ℕ
  pub prior_state : WorkflowState
  pub next_state : WorkflowState
  pub actor : String
  pub cause : String
  pub verification : VerificationResult
  pub retry_count : ℕ
  pub occurred_at : DateTime

pub record WorkflowEventRow : Type 0 where
  pub id : String
  pub workflow_id : String
  pub sequence : ℕ
  pub prior_state : String
  pub next_state : String
  pub actor : String
  pub cause : String
  pub verification : String
  pub retry_count : ℕ
  pub occurred_at : DateTime

abbrev pub verification_value : VerificationResult → String
verification_value not_required = "NOT_REQUIRED"
verification_value passed = "PASSED"
verification_value failed = "FAILED"
verification_value uncertain = "UNCERTAIN"

-- `WorkflowState(text)`
unfoldable pub parse_state : String → Outcome WorkflowError WorkflowState
parse_state text = or_raise (find (λ s. value s == text) all_states) unreadable

-- `VerificationResult(text)`
unfoldable pub parse_verification : String → Outcome WorkflowError VerificationResult
parse_verification text =
    or_raise
      (find (λ v. verification_value v == text) (not_required ∷ passed ∷ failed ∷ uncertain ∷ []))
      unreadable

unfoldable pub event_from_row : WorkflowEventRow → Outcome WorkflowError WorkflowEvent
event_from_row row = do
  prior ← parse_state row.prior_state
  following ← parse_state row.next_state
  result ← parse_verification row.verification
  ok (record {
    id = row.id;
    workflow_id = row.workflow_id;
    sequence = row.sequence;
    prior_state = prior;
    next_state = following;
    actor = row.actor;
    cause = row.cause;
    verification = result;
    retry_count = row.retry_count;
    occurred_at = utc row.occurred_at;
  })

unfoldable pub event_row : WorkflowEvent → WorkflowEventRow
event_row event = record {
  id = event.id;
  workflow_id = event.workflow_id;
  sequence = event.sequence;
  prior_state = value event.prior_state;
  next_state = value event.next_state;
  actor = event.actor;
  cause = event.cause;
  verification = verification_value event.verification;
  retry_count = event.retry_count;
  occurred_at = event.occurred_at;
}

pub record ApplicationRow : Type 0 where
  pub id : String
  pub workflow_id : String
  pub profile_id : String
  pub job_id : String
  pub state : String
  pub selected_document_version_id : Option String
  pub created_at : DateTime
  pub updated_at : DateTime

pub record JobRow : Type 0 where
  pub id : String
  pub source : String
  pub external_id : String
  pub employer : String
  pub title : String
  pub description_hash : String
  pub discovered_at : DateTime

pub record CandidateProfileRow : Type 0 where
  pub id : String
  pub display_name : String

pub record Database : Type 0 where
  pub applications : List ApplicationRow
  pub jobs : List JobRow
  pub candidates : List CandidateProfileRow
  pub events : List WorkflowEventRow

-- The select joins each application to its job by the job's primary key.
unfoldable pub permits_public_transition : String → WorkflowState → Database → Bool
permits_public_transition workflow_id current_state db =
    any
      (λ a.
        a.workflow_id == workflow_id
        && a.state == value current_state
        && any (λ j. a.job_id == j.id && j.source == "workbench-mock") db.jobs)
      db.applications

abbrev pub of_workflow : String → List WorkflowEventRow → List WorkflowEventRow
of_workflow workflow_id rows = keep (λ r. r.workflow_id == workflow_id) rows

abbrev pub sequences : List WorkflowEventRow → List ℕ
sequences rows = map (λ r. r.sequence) rows

abbrev pub successor : Option ℕ → ℕ
successor none = 1
successor (some latest) = latest + 1

unfoldable pub next_sequence : String → Database → ℕ
next_sequence workflow_id db = successor (max? (sequences (of_workflow workflow_id db.events)))

-- The primary key, and the unique constraint on workflow and sequence.
abbrev pub clashes : WorkflowEventRow → WorkflowEventRow → Bool
clashes new old =
    new.id == old.id || (new.workflow_id == old.workflow_id && new.sequence == old.sequence)

-- `session.add(_event_row(event))` and the flush that the commit makes
unfoldable pub insert_event : WorkflowEvent → Database → Outcome WorkflowError Database
insert_event event db =
    if any (clashes (event_row event)) db.events
    then err integrity
    else ok (record db { events = db.events ++ event_row event ∷ [] })

-- `WorkflowEventRepository.add`
unfoldable pub add : WorkflowEvent → Database → Outcome WorkflowError (WorkflowEvent × Database)
add event db = do db' ← insert_event event db; ok (event, db')

-- `ORDER BY sequence`, by insertion
unfoldable pub insert_row : WorkflowEventRow → List WorkflowEventRow → List WorkflowEventRow
insert_row r [] = r ∷ []
insert_row r (x ∷ xs) = if leb r.sequence x.sequence then r ∷ x ∷ xs else x ∷ insert_row r xs

unfoldable pub order_rows : List WorkflowEventRow → List WorkflowEventRow
order_rows [] = []
order_rows (x ∷ xs) = insert_row x (order_rows xs)

unfoldable pub events_from_rows : List WorkflowEventRow → Outcome WorkflowError (List WorkflowEvent)
events_from_rows [] = ok []
events_from_rows (r ∷ rows) = do
  event ← event_from_row r
  events ← events_from_rows rows
  ok (event ∷ events)

unfoldable pub list_for_workflow : String → Database → Outcome WorkflowError (List WorkflowEvent)
list_for_workflow workflow_id db = events_from_rows (order_rows (of_workflow workflow_id db.events))
