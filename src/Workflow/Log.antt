-- ===== src/Workflow/Log.antt =====
-- The event log of a workflow is numbered 1, 2, 3, … without a gap, and read back in that order.
use mathlib.Core.List.{map-append, append-nil}
use job_apply_pro.Base.{
  ◌==◌, option_eq, nat_eq, string_eq, length, All, max?, keep-append, max?-append_last, ℕ, zero,
  suc, ◌+◌, ◌≤◌, String, ◌≡◌, refl, ◌∙◌, ◌≢◌, List, [], ◌∷◌, ◌++◌, arith, length-append, sym, any,
  ◌<◌, false, ok,
}
use job_apply_pro.Workflow.State.{state_eq}
use job_apply_pro.Workflow.Transitions.{verification_eq}
use job_apply_pro.Workflow.Events.{
  WorkflowEventRow, Database, of_workflow, sequences, successor, next_sequence, clashes,
  WorkflowEvent, event_row, insert_event,
}

-- 1, 2, …, n
abbrev pub count_up : ℕ → List ℕ
count_up zero = []
count_up (suc n) = count_up n ++ suc n ∷ []

abbrev pub IsNumbered : String → List WorkflowEventRow → Type 0
IsNumbered w rows = sequences (of_workflow w rows) ≡ count_up (length (of_workflow w rows))

pub All-mono : (xs : List ℕ) (m n : ℕ) → m ≤ n → All (λ x. x ≤ m) xs → All (λ x. x ≤ n) xs
All-mono [] m n h a = tt
All-mono (x ∷ xs) m n h a = (omega arith, All-mono xs m n h a.1)

All-append_last :
    (xs : List ℕ) (m n : ℕ) → All (λ x. x ≤ m) xs → n ≤ m → All (λ x. x ≤ m) (xs ++ n ∷ [])
All-append_last [] m n a h = (h, tt)
All-append_last (x ∷ xs) m n a h = (a.0, All-append_last xs m n a.1 h)

pub count_up-bounded : (n : ℕ) → All (λ x. x ≤ n) (count_up n)
count_up-bounded zero = tt
count_up-bounded (suc n) =
    All-append_last (count_up n) (suc n) (suc n)
      (All-mono (count_up n) n (suc n) (omega arith) (count_up-bounded n)) (omega arith)

successor-count_up : (n : ℕ) → successor (max? (count_up n)) ≡ n + 1
successor-count_up zero = refl
successor-count_up (suc n) =
    rw
      (max?-append_last (count_up n) (suc n)
        (All-mono (count_up n) n (suc n) (omega arith) (count_up-bounded n)))
      refl

-- The next number of a numbered log is one more than the events of the workflow.
pub next_sequence-numbered :
    (w : String) (db : Database)
    → IsNumbered w db.events
    → next_sequence w db ≡ length (of_workflow w db.events) + 1
unfolding next_sequence
next_sequence-numbered w db h = rw h (successor-count_up (length (of_workflow w db.events)))

count_up-suc : (n : ℕ) → count_up (n + 1) ≡ count_up n ++ (n + 1) ∷ []
count_up-suc n = let e : n + 1 ≡ suc n = omega arith in rw e refl

module _ (w : String) (rows : List WorkflowEventRow) (r : WorkflowEventRow) where
  pub of_workflow-append_same :
      r.workflow_id ≡ w → of_workflow w (rows ++ r ∷ []) ≡ of_workflow w rows ++ r ∷ []
  of_workflow-append_same e =
      let one : of_workflow w (r ∷ []) ≡ r ∷ [] = ground arith in
      keep-append (λ x. x.workflow_id == w) rows (r ∷ []) ∙ rw one refl

  pub of_workflow-append_other :
      r.workflow_id ≢ w → of_workflow w (rows ++ r ∷ []) ≡ of_workflow w rows
  of_workflow-append_other e =
      let nothing : of_workflow w (r ∷ []) ≡ [] = ground arith in
      keep-append (λ x. x.workflow_id == w) rows (r ∷ []) ∙ rw nothing (append-nil _)

  IsNumbered-same :
      IsNumbered w rows
      → r.workflow_id ≡ w
      → r.sequence ≡ length (of_workflow w rows) + 1
      → IsNumbered w (rows ++ r ∷ [])
  IsNumbered-same h e next =
      rw (of_workflow-append_same e, length-append (of_workflow w rows) (r ∷ []))
        (map-append (λ x. x.sequence) (of_workflow w rows) (r ∷ [])
          ∙ rw (h, next) (sym (count_up-suc (length (of_workflow w rows)))))

  -- A row that carries the next number of its workflow keeps every log numbered.
  pub append-IsNumbered :
      IsNumbered w rows
      → (r.workflow_id ≡ w → r.sequence ≡ length (of_workflow w rows) + 1)
      → IsNumbered w (rows ++ r ∷ [])
  append-IsNumbered h next = elim (string_eq.dec r.workflow_id w) [
    | yes e ↦ IsNumbered-same h e (next e)
    | no e ↦ rw (of_workflow-append_other e) h
  ]

-- Every number of a numbered log is at most the length of the log.
pub numbered_bounded :
    (w : String) (rows : List WorkflowEventRow)
    → IsNumbered w rows
    → All (λ n. n ≤ length (of_workflow w rows)) (sequences (of_workflow w rows))
numbered_bounded w rows h = rw h (count_up-bounded (length (of_workflow w rows)))

no_clash :
    (new : WorkflowEventRow) (rows : List WorkflowEventRow) (n : ℕ)
    → n < new.sequence
    → All (λ m. m ≤ n) (sequences (of_workflow new.workflow_id rows))
    → any (λ r. new.id == r.id) rows ≡ false
    → any (clashes new) rows ≡ false
no_clash new [] n lt below fresh = refl
no_clash new (r ∷ rows) n lt below fresh = ground (arith, no_clash new rows n)

-- A new event of a numbered log is inserted, unless its identifier is taken.
pub insert_event-fresh :
    (e : WorkflowEvent) (db : Database)
    → IsNumbered e.workflow_id db.events
    → e.sequence ≡ next_sequence e.workflow_id db
    → any (λ r. e.id == r.id) db.events ≡ false
    → insert_event e db ≡ ok (record db { events = db.events ++ event_row e ∷ [] })
unfolding insert_event event_row
insert_event-fresh e db num seq fresh = rw (
    no_clash (event_row e) db.events (length (of_workflow e.workflow_id db.events))
      (omega (arith, next_sequence-numbered e.workflow_id db num))
      (numbered_bounded e.workflow_id db.events num) fresh)

pub insert_event-ok :
    (e : WorkflowEvent) (db db' : Database)
    → insert_event e db ≡ ok db'
    → db' ≡ record db { events = db.events ++ event_row e ∷ [] }
unfolding insert_event
insert_event-ok e db db' h = ground arith

-- Inserting the next event keeps every workflow's log numbered.
pub insert_event-IsNumbered :
    (e : WorkflowEvent) (db db' : Database) (w : String)
    → e.sequence ≡ next_sequence e.workflow_id db
    → insert_event e db ≡ ok db'
    → IsNumbered e.workflow_id db.events
    → IsNumbered w db.events
    → IsNumbered w db'.events
unfolding event_row
insert_event-IsNumbered e db db' w seq h own other = rw (insert_event-ok e db db' h) (
    append-IsNumbered w db.events (event_row e) other
      (λ same. rw (← same) (seq ∙ next_sequence-numbered e.workflow_id db own)))
