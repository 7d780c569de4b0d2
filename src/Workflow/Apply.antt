-- ===== src/Workflow/Apply.antt =====
-- What `WorkbenchRepository.apply_transition` does, on every branch.
use job_apply_pro.Workflow.Rows.{parse_state-value}
use job_apply_pro.Base.{
  ◌==◌, option_eq, nat_eq, string_eq, find, ok, String, ◌≡◌, refl, ◌≢◌, some, List, [], ◌∷◌, arith,
  ◌++◌, any, err, false, ==_refl, sym,
}
use job_apply_pro.Workflow.State.{WorkflowState, value, state_eq}
use job_apply_pro.Workflow.Transitions.{
  verification_eq, TransitionCommand, WorkflowError, state_changed, validate_transition,
}
use job_apply_pro.Workflow.History.{appended-history}
use job_apply_pro.Workflow.Log.{
  next_sequence-numbered, insert_event-fresh, of_workflow-append_other,
}
use job_apply_pro.Workflow.Events.{
  DateTime, WorkflowEvent, ApplicationRow, JobRow, CandidateProfileRow, Database, utc, event_row,
  next_sequence, list_for_workflow,
}
use job_apply_pro.Workflow.Service.{history, new_event}
use job_apply_pro.Workflow.Log.{IsNumbered, append-IsNumbered}
use job_apply_pro.Workflow.Workbench.{
  action_eq, find_application, set_state, WorkflowRunSnapshot, allowed_workbench_controls,
  progress_of, snapshot_of, get_snapshot, joined, snapshot_joined, apply_transition,
}

find_application-set_state :
    (w : String) (s : WorkflowState) (now : DateTime) (rows : List ApplicationRow)
    (a : ApplicationRow)
    → find_application w rows ≡ some a
    → find_application w (set_state w s now rows)
      ≡ some (record a { state = value s; updated_at = now })
unfolding find_application set_state
find_application-set_state w s now [] a h = cc
find_application-set_state w s now (x ∷ rows) a h =
    ground (arith, find_application-set_state w s now rows a)

-- Other applications keep their rows.
find_application-set_state_other :
    (v w : String) (s : WorkflowState) (now : DateTime) (rows : List ApplicationRow)
    → v ≢ w
    → find_application v (set_state w s now rows) ≡ find_application v rows
unfolding find_application set_state
find_application-set_state_other v w s now [] ne = refl
find_application-set_state_other v w s now (x ∷ rows) ne =
    ground (arith, find_application-set_state_other v w s now rows ne)

find_application-id :
    (w : String) (rows : List ApplicationRow) (a : ApplicationRow)
    → find_application w rows ≡ some a
    → a.workflow_id ≡ w
unfolding find_application
find_application-id w [] a h = cc
find_application-id w (x ∷ rows) a h = ground (arith, find_application-id w rows a)

-- A workflow that can be shown: its application, job and candidate, its events in order.
pub record IsRun (w : String) (db : Database) (a : ApplicationRow) (j : JobRow)
    (k : CandidateProfileRow) (es : List WorkflowEvent) : Type 0 where
  pub application : find_application w db.applications ≡ some a
  pub job : find (λ x. x.id == a.job_id) db.jobs ≡ some j
  pub candidate : find (λ x. x.id == a.profile_id) db.candidates ≡ some k
  pub logged : history w db ≡ ok es
  pub numbered : IsNumbered w db.events

-- The snapshot of a run in the state s.
abbrev pub view :
    String
    → ApplicationRow
    → JobRow
    → CandidateProfileRow
    → List WorkflowEvent
    → WorkflowState
    → WorkflowRunSnapshot
view w a j k es s = record {
  workflow_id = w;
  application_id = a.id;
  profile_id = a.profile_id;
  candidate_display_name = k.display_name;
  employer = j.employer;
  title = j.title;
  state = s;
  progress = progress_of s;
  updated_at = utc a.updated_at;
  events = es;
  allowed_controls = allowed_workbench_controls j.source s;
}

module _ (w : String) (db : Database) (a : ApplicationRow) (j : JobRow) (k : CandidateProfileRow)
    (es : List WorkflowEvent) (run : IsRun w db a j k es) where
  IsRun-joined : joined w db ≡ some (a, j, k)
  unfolding joined
  IsRun-joined =
      rw (run.application, joined) (rw (run.job, joined) (rw (run.candidate, joined) refl))

  -- A run is shown in its state, with the controls of that state.
  pub get_snapshot-run :
      (s : WorkflowState) → a.state ≡ value s → get_snapshot w db ≡ ok (some (view w a j k es s))
  unfolding get_snapshot snapshot_of history
  get_snapshot-run s at =
      rw (IsRun-joined, snapshot_joined)
        (rw at (
          rw (parse_state-value s)
            (rw (find_application-id w db.applications a run.application) (rw run.logged refl))))

module _ (id : String) (now : DateTime) (w : String) (c : TransitionCommand) (db : Database) where
  abbrev pub recorded : WorkflowEvent
  recorded = new_event id now w (next_sequence w db) c.current_state c

  -- The database with the event logged and the application's row in the new state.
  abbrev pub moved : Database
  moved = record db {
    applications = set_state w c.next_state now db.applications;
    events = db.events ++ event_row recorded ∷ [];
  }

  -- What the caller sees of the workflow in its new state.
  abbrev pub shown :
      ApplicationRow → JobRow → CandidateProfileRow → List WorkflowEvent → WorkflowRunSnapshot
  shown a j k es = record {
    workflow_id = w;
    application_id = a.id;
    profile_id = a.profile_id;
    candidate_display_name = k.display_name;
    employer = j.employer;
    title = j.title;
    state = c.next_state;
    progress = progress_of c.next_state;
    updated_at = utc now;
    events = es ++ record recorded { occurred_at = utc now } ∷ [];
    allowed_controls = allowed_workbench_controls j.source c.next_state;
  }

  module _ (a : ApplicationRow) (j : JobRow) (k : CandidateProfileRow) (es : List WorkflowEvent)
      (run : IsRun w db a j k es) where
    -- After an accepted transition the workflow is a run again: its row is in the next state, and
    -- its log has the new event behind the old ones.
    pub moved-IsRun :
        IsRun w moved
          (record a { state = value c.next_state; updated_at = now })
          j
          k
          (es ++ record recorded { occurred_at = utc now } ∷ [])
    unfolding history list_for_workflow new_event event_row
    moved-IsRun = record {
      application = find_application-set_state w c.next_state now db.applications a run.application;
      job = run.job;
      candidate = run.candidate;
      logged = appended-history w db es recorded refl refl run.numbered run.logged;
      numbered =
          append-IsNumbered w db.events (event_row recorded) run.numbered
            (λ same. next_sequence-numbered w db run.numbered);
    }

    moved-snapshot : get_snapshot w moved ≡ ok (some (shown a j k es))
    unfolding utc
    moved-snapshot =
        get_snapshot-run w moved (record a { state = value c.next_state; updated_at = now }) j k
          (es ++ record recorded { occurred_at = utc now } ∷ []) moved-IsRun c.next_state refl

    module _ (s : WorkflowState) (at : a.state ≡ value s) where
      -- A command that names another state than the workflow's own is refused: the state has changed.
      pub apply_transition-stale :
          s ≢ c.current_state → apply_transition id now w c db ≡ err state_changed
      unfolding apply_transition
      apply_transition-stale ne =
          rw run.application (rw at (rw (parse_state-value s) (ground arith)))

      -- A command in the workflow's state that the validation refuses raises the validation's error.
      pub apply_transition-invalid :
          (e : WorkflowError)
          → s ≡ c.current_state
          → validate_transition c ≡ err e
          → apply_transition id now w c db ≡ err e
      unfolding apply_transition
      apply_transition-invalid e same bad =
          rw run.application (rw at (rw (parse_state-value s) (ground arith)))

      -- A valid command in the workflow's state, with a new event identifier, moves the application
      -- to the next state, logs the event behind the others and returns the snapshot of that state.
      pub apply_transition-ok :
          s ≡ c.current_state
          → validate_transition c ≡ ok tt
          → any (λ r. id == r.id) db.events ≡ false
          → apply_transition id now w c db ≡ ok (shown a j k es, moved)
      unfolding apply_transition
      apply_transition-ok same valid fresh = rw run.application (
          rw at (
            rw (parse_state-value s) (
              rw same (
                rw (==_refl c.current_state) (
                  rw valid (
                    rw (insert_event-fresh recorded db run.numbered refl fresh)
                      (rw moved-snapshot refl)))))))

  -- A transition of one workflow leaves the row and the history of every other workflow as they were.
  pub moved-other :
      (v : String)
      → w ≢ v
      → (find_application v moved.applications ≡ find_application v db.applications)
        × (history v moved ≡ history v db)
  unfolding history list_for_workflow event_row new_event
  moved-other v ne = (
    find_application-set_state_other v w c.next_state now db.applications (λ e. ne (sym e)),
    rw (of_workflow-append_other v db.events (event_row recorded) ne),
  )
