-- ===== src/Workflow/Mock.antt =====
-- backend/src/job_apply_pro/services/workbench.py (`start_mock_workflow`) with the two inserts of
-- storage/repositories.py that it makes. Each repository commits by itself, so the new database is
-- returned beside the outcome, also where a later step raises. `uuid4`, `utc_now` and the hexadecimal
-- SHA-256 of a text are arguments.
use job_apply_pro.Workflow.Trails.{valid-unconfirmed}
use job_apply_pro.Workflow.Apply.{shown, IsRun, moved, apply_transition-ok}
use job_apply_pro.Workflow.Service.{history}
use Prim.Native.String.{◌++◌ as text_append}
use job_apply_pro.Base.{
  if◌then◌else◌, ◌==◌, option_eq, nat_eq, string_eq, any, keep, find, Outcome, ok, err, or_raise,
  String, ◌≡◌, refl, Bool, true, false, ◌&&◌, ◌||◌, none, some, List, [], ◌∷◌, ◌++◌, arith, ==_refl,
}
use job_apply_pro.Workflow.State.{discovered, deduplicated, value, state_eq}
use job_apply_pro.Workflow.Transitions.{
  not_required, verification_eq, TransitionCommand, WorkflowError, profile_not_found, integrity,
}
use job_apply_pro.Workflow.Events.{
  DateTime, ApplicationRow, JobRow, Database, CandidateProfileRow, order_rows, events_from_rows,
  list_for_workflow,
}
use job_apply_pro.Workflow.Workbench.{
  action_eq, WorkflowRunSnapshot, apply_transition, find_application,
}

pub record MockWorkflowCreate : Type 0 where
  pub profile_id : String
  pub employer : String
  pub title : String

-- What `uuid4` and `utc_now` return in the course of one call.
pub record Supply : Type 0 where
  pub workflow_uuid : String
  pub job_id : String
  pub application_id : String
  pub event_id : String
  pub discovered_at : DateTime
  pub created_at : DateTime
  pub occurred_at : DateTime

-- The primary key, and the unique constraint on source and external identifier.
unfoldable pub insert_job : JobRow → Database → Outcome WorkflowError Database
insert_job row db =
    if any (λ j. row.id == j.id || (row.source == j.source && row.external_id == j.external_id))
      db.jobs
    then err integrity
    else ok (record db { jobs = db.jobs ++ row ∷ [] })

-- The primary key, and the unique constraint on the workflow.
unfoldable pub insert_application : ApplicationRow → Database → Outcome WorkflowError Database
insert_application row db =
    if any (λ a. row.id == a.id || row.workflow_id == a.workflow_id) db.applications
    then err integrity
    else ok (record db { applications = db.applications ++ row ∷ [] })

-- A step whose failure leaves the database as it was before it.
abbrev pub attempt :
    {A : Type 0}
    → Outcome WorkflowError A
    → Database
    → (A → Outcome WorkflowError WorkflowRunSnapshot × Database)
    → Outcome WorkflowError WorkflowRunSnapshot × Database
attempt (ok a) db f = f a
attempt (err e) db f = (err e, db)

abbrev pub mock_id : Supply → String
mock_id u = text_append "mock-" u.workflow_uuid

-- the text that is hashed, its parts on lines of their own
abbrev pub identity : MockWorkflowCreate → Supply → String
identity m u =
    text_append m.employer (text_append "\n" (text_append m.title (text_append "\n" (mock_id u))))

module _ (sha256 : String → String) (u : Supply) (m : MockWorkflowCreate) where
  abbrev pub started_job : JobRow
  started_job = record {
    id = u.job_id;
    source = "workbench-mock";
    external_id = mock_id u;
    employer = m.employer;
    title = m.title;
    description_hash = sha256 (identity m u);
    discovered_at = u.discovered_at;
  }

  abbrev pub started_application : ApplicationRow
  started_application = record {
    id = u.application_id;
    workflow_id = mock_id u;
    profile_id = m.profile_id;
    job_id = u.job_id;
    state = value discovered;
    selected_document_version_id = none;
    created_at = u.created_at;
    updated_at = u.created_at;
  }

  abbrev pub start_command : TransitionCommand
  start_command = record {
    current_state = discovered;
    next_state = deduplicated;
    actor = "workbench";
    cause = "Mock workflow started and canonical job identity was verified.";
    verification = not_required;
    retry_count = 0;
  }

  unfoldable pub start_mock_workflow :
      Database → Outcome WorkflowError WorkflowRunSnapshot × Database
  start_mock_workflow db =
      attempt (or_raise (find (λ k. k.id == m.profile_id) db.candidates) profile_not_found) db λ k.
        attempt (insert_job started_job db) db λ with_job.
          attempt (insert_application started_application with_job) with_job λ ready.
            attempt (apply_transition u.event_id u.occurred_at (mock_id u) start_command ready)
              ready λ (snapshot, done). (ok snapshot, done)

find-append_new {ℓ} :
    {A : Type ℓ} (p : A → Bool) (xs : List A) (x : A)
    → any p xs ≡ false
    → p x ≡ true
    → find p (xs ++ x ∷ []) ≡ some x
find-append_new p [] x h k = rw k refl
find-append_new p (y ∷ xs) x h k = ground (arith, find-append_new p xs x)

keep-none {ℓ} : {A : Type ℓ} (p : A → Bool) (xs : List A) → any p xs ≡ false → keep p xs ≡ []
keep-none p [] h = refl
keep-none p (x ∷ xs) h = ground (arith, keep-none p xs)

-- The identifiers that the call draws are new to the database.
pub record IsNew (u : Supply) (db : Database) : Type 0 where
  pub job_id : any (λ j. j.id == u.job_id) db.jobs ≡ false
  pub job :
      any
        (λ j. u.job_id == j.id || ("workbench-mock" == j.source && mock_id u == j.external_id))
        db.jobs
      ≡ false
  pub workflow : any (λ a. a.workflow_id == mock_id u) db.applications ≡ false
  pub application :
      any (λ a. u.application_id == a.id || mock_id u == a.workflow_id) db.applications ≡ false
  pub event : any (λ r. u.event_id == r.id) db.events ≡ false
  pub log : any (λ r. r.workflow_id == mock_id u) db.events ≡ false

module _ (sha256 : String → String) (u : Supply) (m : MockWorkflowCreate) (db : Database) where
  -- The database with the new job and the new application.
  abbrev pub prepared : Database
  prepared = record db {
    jobs = db.jobs ++ started_job sha256 u m ∷ [];
    applications = db.applications ++ started_application sha256 u m ∷ [];
  }

  module _ (k : CandidateProfileRow) (new : IsNew u db)
      (known : find (λ x. x.id == m.profile_id) db.candidates ≡ some k) where
    prepared-IsRun :
        IsRun (mock_id u) prepared (started_application sha256 u m) (started_job sha256 u m) k []
    unfolding find_application history list_for_workflow order_rows events_from_rows
    prepared-IsRun = record {
      application =
          find-append_new (λ a. a.workflow_id == mock_id u) db.applications
            (started_application sha256 u m) new.workflow (==_refl (mock_id u));
      job =
          find-append_new (λ j. j.id == u.job_id) db.jobs (started_job sha256 u m) new.job_id
            (==_refl u.job_id);
      candidate = known;
      logged = rw (keep-none (λ r. r.workflow_id == mock_id u) db.events new.log) refl;
      numbered = rw (keep-none (λ r. r.workflow_id == mock_id u) db.events new.log) refl;
    }

    -- For a known candidate and new identifiers a mock workflow is started: its job and application
    -- are inserted, and it is moved from discovered to deduplicated with its first event logged.
    pub start_mock_workflow-ok : start_mock_workflow sha256 u m db ≡ (
      ok (
          shown u.event_id u.occurred_at
            (mock_id u)
            (start_command sha256 u m)
            prepared
            (started_application sha256 u m)
            (started_job sha256 u m)
            k
            []),
      moved u.event_id u.occurred_at (mock_id u) (start_command sha256 u m) prepared,
    )
    unfolding start_mock_workflow insert_job insert_application state_eq
    start_mock_workflow-ok = rw known (
        rw new.job (
          rw new.application (
            rw
              (apply_transition-ok u.event_id u.occurred_at (mock_id u) (start_command sha256 u m)
                prepared (started_application sha256 u m) (started_job sha256 u m) k []
                prepared-IsRun discovered refl refl
                (valid-unconfirmed (start_command sha256 u m) refl (λ e. cc)) new.event)
              refl)))
