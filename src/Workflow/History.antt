-- ===== src/Workflow/History.antt =====
-- What `WorkflowService` promises of the event log.
use mathlib.Core.List.{Memᴰ}
use job_apply_pro.Base.{
  ◌==◌, option_eq, nat_eq, string_eq, length, any, ok, >>=-eq-ok, ℕ, zero, suc, ◌+◌, String, ◌≡◌,
  refl, ◌∙◌, false, [], ◌∷◌, ◌++◌, Bool-cases, All, err, ◌≤◌, inl, inr, Bool, true, ◌&&◌, List,
  arith, sym, ap,
}
use job_apply_pro.Workflow.State.{state_eq, value, WorkflowState}
use job_apply_pro.Workflow.Transitions.{
  verification_eq, TransitionCommand, validate_transition, public_transition_denied,
}
use job_apply_pro.Workflow.Events.{
  DateTime, WorkflowEvent, event_row, Database, of_workflow, next_sequence, insert_event, add, utc,
  WorkflowEventRow, ApplicationRow, JobRow, permits_public_transition, order_rows,
  list_for_workflow, events_from_rows,
}
use job_apply_pro.Workflow.Service.{new_event, transition, transition_public, history}
use job_apply_pro.Workflow.Rows.{
  IsAscending, event_from_row-event_row, events_from_rows-append, order_rows-ascending,
}
use job_apply_pro.Workflow.Log.{
  count_up, IsNumbered, next_sequence-numbered, insert_event-fresh, insert_event-IsNumbered,
  All-mono, count_up-bounded, of_workflow-append_same, append-IsNumbered, insert_event-ok,
}

module _ (id : String) (now : DateTime) (w : String) (c : TransitionCommand) (db : Database) where
  abbrev pub next_event : WorkflowEvent
  next_event = new_event id now w (next_sequence w db) c.current_state c

  transition-inv :
      (e : WorkflowEvent) (db' : Database)
      → transition id now w c db ≡ ok (e, db')
      → (validate_transition c ≡ ok tt) × (e ≡ next_event) × (insert_event next_event db ≡ ok db')
  unfolding transition add
  transition-inv e db' h =
      let (valid, hv, rest) = >>=-eq-ok (validate_transition c) _ h in
      let (d, hd, done) = >>=-eq-ok (insert_event next_event db) _ rest in
      (hv, cc done, hd ∙ cc done)

  -- With a numbered log and a new identifier, a valid command is recorded: the event has the next
  -- number of its workflow and is written behind all others.
  pub transition_succeeds :
      IsNumbered w db.events
      → any (λ r. id == r.id) db.events ≡ false
      → validate_transition c ≡ ok tt
      → transition id now w c db
          ≡ ok (next_event, record db { events = db.events ++ event_row next_event ∷ [] })
        × (next_event.sequence ≡ length (of_workflow w db.events) + 1)
  unfolding transition add new_event
  transition_succeeds num fresh valid = (
    rw valid (rw (insert_event-fresh next_event db num refl fresh) refl),
    next_sequence-numbered w db num,
  )

  -- A recorded transition keeps the log of every workflow numbered 1, 2, 3, … without a gap.
  pub transition-IsNumbered :
      (e : WorkflowEvent) (db' : Database)
      → transition id now w c db ≡ ok (e, db')
      → ((v : String) → IsNumbered v db.events)
      → (v : String) → IsNumbered v db'.events
  unfolding new_event
  transition-IsNumbered e db' h num v =
      insert_event-IsNumbered next_event db db' v refl (transition-inv e db' h).2 (num w) (num v)

append_above :
    (xs : List ℕ) (x m : ℕ) → All (λ y. x ≤ y) xs → x ≤ m → All (λ y. x ≤ y) (xs ++ m ∷ [])
append_above [] x m a h = (h, tt)
append_above (y ∷ xs) x m a h = (a.0, append_above xs x m a.1 h)

append-IsAscending :
    (xs : List ℕ) (m : ℕ) → IsAscending xs → All (λ x. x ≤ m) xs → IsAscending (xs ++ m ∷ [])
append-IsAscending [] m h a = (tt, tt)
append-IsAscending (x ∷ xs) m h a = (append_above xs x m h.0 a.0, append-IsAscending xs m h.1 a.1)

count_up-IsAscending : (n : ℕ) → IsAscending (count_up n)
count_up-IsAscending zero = tt
count_up-IsAscending (suc n) =
    append-IsAscending (count_up n) (suc n) (count_up-IsAscending n)
      (All-mono (count_up n) n (suc n) (omega arith) (count_up-bounded n))

numbered_in_order :
    (w : String) (rows : List WorkflowEventRow)
    → IsNumbered w rows
    → order_rows (of_workflow w rows) ≡ of_workflow w rows
numbered_in_order w rows h =
    order_rows-ascending (of_workflow w rows)
      (rw h (count_up-IsAscending (length (of_workflow w rows))))

pub appended-history :
    (w : String) (db : Database) (es : List WorkflowEvent) (new : WorkflowEvent)
    → new.workflow_id ≡ w
    → new.sequence ≡ next_sequence w db
    → IsNumbered w db.events
    → history w db ≡ ok es
    → events_from_rows (order_rows (of_workflow w (db.events ++ event_row new ∷ [])))
      ≡ ok (es ++ record new { occurred_at = utc new.occurred_at } ∷ [])
unfolding history list_for_workflow event_row
appended-history w db es new own seq num read =
    let num' =
      append-IsNumbered w db.events (event_row new) num
        (λ same. seq ∙ next_sequence-numbered w db num) in
    rw (numbered_in_order w (db.events ++ event_row new ∷ []) num') (
      rw (of_workflow-append_same w db.events (event_row new) own) (
        events_from_rows-append (of_workflow w db.events) (event_row new) es
          (record new { occurred_at = utc new.occurred_at })
          (rw (numbered_in_order w db.events num) at read) (event_from_row-event_row new)))

-- Reading the history after a transition gives the events read before it, and then the new event,
-- its time read as UTC.
pub transition-history :
    (id : String) (now : DateTime) (w : String) (c : TransitionCommand) (db : Database)
    (es : List WorkflowEvent) (e : WorkflowEvent) (db' : Database)
    → IsNumbered w db.events
    → history w db ≡ ok es
    → transition id now w c db ≡ ok (e, db')
    → history w db' ≡ ok (es ++ record e { occurred_at = utc e.occurred_at } ∷ [])
unfolding history list_for_workflow new_event
transition-history id now w c db es e db' num read done =
    let (valid, made, inserted) = transition-inv id now w c db e db' done in
    let new = next_event id now w c db in
    rw (made, insert_event-ok new db db' inserted) (appended-history w db es new refl refl num read)

any-true {ℓ} :
    {A : Type ℓ} (p : A → Bool) (xs : List A) → any p xs ≡ true → (x : A) × Memᴰ x xs × (p x ≡ true)
any-true p [] h = cc
any-true p (x ∷ xs) h = elim (Bool-cases (p x)) [
  | inl yes_x ↦ (x, Memᴰ.head refl, yes_x)
  | inr no_x ↦ let (y, m, e) = any-true p xs (ground arith) in (y, Memᴰ.tail m, e)
]

true-any {ℓ} :
    {A : Type ℓ} (p : A → Bool) (xs : List A) (x : A) → Memᴰ x xs → p x ≡ true → any p xs ≡ true
true-any p [] x m h = elim m [ ]
true-any p (y ∷ xs) x (Memᴰ.head e) h = rw (← e, h)
true-any p (y ∷ xs) x (Memᴰ.tail m) h = ground (arith, true-any p xs x m h)

-- The workflow has an application in the given state whose job is the workbench's own.
abbrev pub IsMockRun : String → WorkflowState → Database → Type 0
IsMockRun w s db =
    (a : ApplicationRow) × (j : JobRow) × Memᴰ a db.applications
    × Memᴰ j db.jobs
    × (a.workflow_id ≡ w)
    × (a.state ≡ value s)
    × (a.job_id ≡ j.id)
    × (j.source ≡ "workbench-mock")

permits-IsMockRun :
    (w : String) (s : WorkflowState) (db : Database)
    → permits_public_transition w s db ≡ true
    → IsMockRun w s db
unfolding permits_public_transition
permits-IsMockRun w s db h =
    let (a, ma, ha) = any-true _ db.applications h in
    let (j, mj, hj) =
      any-true (λ j. a.job_id == j.id && j.source == "workbench-mock") db.jobs (ground arith) in
    (a, j, ma, mj, ground arith, ground arith, ground arith, ground arith)

IsMockRun-permits :
    (w : String) (s : WorkflowState) (db : Database)
    → IsMockRun w s db
    → permits_public_transition w s db ≡ true
unfolding permits_public_transition
IsMockRun-permits w s db (a, j, ma, mj, ew, es, ej, src) =
    let job =
      true-any (λ j. a.job_id == j.id && j.source == "workbench-mock") db.jobs j mj
        (ground arith) in
    true-any _ db.applications a ma (ground arith)

module _ (id : String) (now : DateTime) (w : String) (c : TransitionCommand) (db : Database) where
  -- Where the workflow has an application in the state that the command names whose job has the
  -- workbench's mock source, a public transition is a transition.
  pub transition_public-mock :
      IsMockRun w c.current_state db → transition_public id now w c db ≡ transition id now w c db
  unfolding transition_public
  transition_public-mock mock = rw (IsMockRun-permits w c.current_state db mock)

  -- Everywhere else a public transition is denied, and nothing is recorded.
  pub transition_public-denied :
      ¬ IsMockRun w c.current_state db
      → transition_public id now w c db ≡ err public_transition_denied
  unfolding transition_public
  transition_public-denied real =
      elim (Bool-cases (permits_public_transition w c.current_state db)) [
        | inl h ↦ absurd (real (permits-IsMockRun w c.current_state db h))
        | inr h ↦ rw h
      ]

-- A recorded public transition leaves the application's own row as it was, so the same command,
-- with another new identifier, is recorded once more, also where its log has left that state.
pub transition_public-repeats :
    (id id' : String) (now now' : DateTime) (w : String) (c : TransitionCommand) (db db' : Database)
    (e : WorkflowEvent)
    → IsMockRun w c.current_state db
    → IsNumbered w db.events
    → transition_public id now w c db ≡ ok (e, db')
    → any (λ r. id' == r.id) db'.events ≡ false
    → (db'.applications ≡ db.applications)
      × (transition_public id' now' w c db'
          ≡ ok (
            next_event id' now' w c db',
            record db' { events = db'.events ++ event_row (next_event id' now' w c db') ∷ [] },
          ))
unfolding new_event
transition_public-repeats id id' now now' w c db db' e mock num done fresh =
    let (valid, made, inserted) =
      transition-inv id now w c db e db' (sym (transition_public-mock id now w c db mock) ∙ done) in
    let new = next_event id now w c db in
    let written = insert_event-ok new db db' inserted in
    let mock' : IsMockRun w c.current_state db' = rw written mock in
    let num' = insert_event-IsNumbered new db db' w refl inserted num num in
    (
      ap (λ d. d.applications) written,
      transition_public-mock id' now' w c db' mock'
          ∙ (transition_succeeds id' now' w c db' num' fresh valid).0,
    )
