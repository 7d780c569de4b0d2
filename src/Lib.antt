-- ===== src/Lib.antt =====
-- Job Apply Pro, the backend: the workflow of an application, the workbench that controls it,
-- the challenges that interrupt it, the fields of a portal's page that are filled for it, and
-- the journal of the media that are uploaded on its behalf. It has too the check that a restored
-- database keeps the recorded history.
--
-- The program. An application runs through the states of
-- backend/src/job_apply_pro/domain/workflow.py; every step is a transition that
-- `validate_transition` accepts, and it leaves an event in a log that is numbered per workflow.
-- The workbench (services/workbench.py over storage/repositories.py, all under
-- backend/src/job_apply_pro) starts mock runs and controls them; the workflow service
-- (services/workflows.py) records transitions that a caller asks for. The challenge service
-- (services/challenges.py over storage/challenge_repository.py) opens a session where a portal
-- shows a captcha, a questionnaire or an assessment, enters answers through the browser, hands a
-- reviewed session in, and moves the workflow by the workbench's transitions. The coverage
-- service (services/field_coverage.py) says of each required control of a supervised page
-- whether a binding of an answer, which the binding service (services/field_bindings.py) lets
-- the user approve, covers it; the execution service (services/field_execution.py) carries out
-- one approved binding through the browser and records it. The media journal
-- (storage/media_cleanup_repository.py) records every upload to a provider until its deletion is
-- confirmed, under leases that fence one owner off from another; the media service
-- (services/media_cleanup.py) registers, cleans up and recovers uploads through it. A restore of
-- a backup (services/restore_history.py over storage/restore_history_repository.py and the
-- reviewed schema of storage/restore_history_policy.py) is accepted only where it keeps the
-- recorded history.
--
-- Base: texts as code points, lists and membership, Boolean tests, and `Outcome`, a value or
--   the error that is raised. A do block stops at the first error, as a raise does.
-- Browser: domain/browser.py, which the challenges and the fields share: controls, locators,
--   and actions with the limits of their model.
-- Workflow: State and Transitions are domain/workflow.py, Table and Trails its table and the
--   runs it allows. Events, Rows and Log are the event table of storage/repositories.py, with
--   `WorkflowEventRepository`; Service and History are `WorkflowService`. Workbench is
--   domain/workbench.py, `WorkbenchRepository` and `WorkbenchService`; Apply is what a
--   transition does, Controls what a control does, Mock how a mock run is started. Samples,
--   Tests and WorkbenchTests are runs.
-- Challenge: Session is domain/challenges.py; Browser the actions that the service builds;
--   World is storage/challenge_repository.py and the form of a call that writes before it
--   raises; Steps, Service and Detect are `ChallengeService`, Detection the detector of
--   challenges/detection.py. Inversion has what a call that returned says of its parts; Timer,
--   Answers, Admitted, Entered, Review, Latest, Refresh, Intervention and Questions what the
--   calls do. Samples, Tests, ResumeTests and PageTests are runs.
-- Fields: Data is the records of domain/applications.py and domain/portals.py that the two
--   services use, Classification and Coverage are `ApplicationFieldCoverageService`, Action and
--   Execution are `ApplicationFieldExecutionService` with the calls of the browser that it
--   makes. Approval, Admission, Prepared, Approved and Handover are about an execution,
--   Sorting, Review, Counts and Unlabelled about a review, Ready, Automatic and Readiness about
--   what the two have to do with each other. Compatibility and Binding are
--   `ApplicationFieldBindingService` with the insertion of storage/field_binding_repository.py;
--   Bound and Places are about an approval, Unambiguous and Approvals about a review of what
--   was approved. Samples, Tests and BindingTests are runs.
-- Media: Row is domain/media_cleanup.py and the row of storage/models.py, Store every operation
--   of `MediaCleanupRepository` in the order of its guards, Listing its two listings. Tables
--   and Inversion have what the operations rewrite, Validity and Lifecycle the invariant of a
--   row and its life, Ownership and Fencing the leases, Recovery what a recovery finds. Journal
--   and Cleanup are `DurableMediaJournal` of services/media_cleanup.py, Worker is
--   `MediaCleanupService`; Reach says which operations of the repository they come down to,
--   Closing is about a cleanup, Batch about a recovery. Tests and ServiceTests are runs.
-- Restore: Policy, Schema with a module for each part of the schema, and Domains are the data
--   of storage/restore_history_policy.py; Snapshot is the closure check of
--   storage/restore_history_repository.py as far as it holds for every table, Preserved is
--   `_require_preserved_snapshots` of services/restore_history.py. Keeping, Closure and
--   References are what they promise, Tests are runs.
--
-- The database is a record of lists of rows, in the order of insertion. A query is a search or a
-- fold over them; a primary key or a unique constraint is a test before an insertion. A
-- session's commit and rollback are the new and the old database: a call that raises in the
-- workbench or in the media journal leaves what was there, one that raises in the challenge
-- service leaves what was committed before. Only the read back after a committed transition
-- could raise with the row written; foreign keys, which the model takes from the rows found,
-- exclude this.
--
-- A datetime is naive or aware and counts seconds; in the journal and in the challenges, where
-- all times are aware, it is a natural number. Outside the media service one call reads the
-- clock once in the model. What `uuid4` and the clock return is an argument. SHA-256, the
-- cipher, Python's `strip`, `casefold` and `upper`, and the regular expressions of the detector
-- are parameters; that the cipher reads back what it wrote is a hypothesis where it is used. The
-- browser and the detector are interfaces, which answer each call of one operation as their
-- functions say; Detection fills the second. The browser that a field is executed through, the
-- binding preview, the provider's deletion and the parts of a restore check that are not
-- modelled are arguments in the same way. A clock or a deletion that is asked several times in
-- one call answers by the number of the call. A cell of a restored table is a value of a type
-- with decidable equality, Python's.
--
-- All definitions are structural recursions, so nothing runs on fuel, and naturals stand for
-- numbers that the source leaves unbounded.
--
-- Not modelled: the calls that only list (`list_workflows`, `list_sessions`), the field limits
-- of the requests, which pydantic checks before the services see them, the other services
-- (knowledge, communications, job discovery and readiness, the execution of backups and
-- restores, support), the physical schema and the limits of a restore's inspection, the model
-- providers, the portals, the HTTP routes, the migrations, and the desktop application in
-- TypeScript.
pub mod Base
pub mod Browser
pub mod Challenge
pub mod Fields
pub mod Media
pub mod Restore
pub mod Workflow
