-- ===== src/Workflow/Rows.antt =====
-- The rows of the event log hold what the events hold: reading a written row gives the event back.
use job_apply_pro.Base.{
  option_eq, nat_eq, string_eq, All, ok, ℕ, ◌≤◌, ◌≡◌, refl, List, [], ◌∷◌, ◌++◌, arith, >>=-eq-ok,
}
use job_apply_pro.Workflow.State.{WorkflowState, discovered, value, state_eq}
use job_apply_pro.Workflow.Transitions.{VerificationResult, not_required, verification_eq}
use job_apply_pro.Workflow.Events.{
  utc, WorkflowEvent, WorkflowEventRow, verification_value, parse_state, parse_verification,
  event_from_row, event_row, sequences, insert_row, order_rows, events_from_rows,
}

pub parse_state-value : (s : WorkflowState) → parse_state (value s) ≡ ok s
unfolding parse_state string_eq
parse_state-value discovered = refl
parse_state-value _ = refl

pub parse_verification-value :
    (v : VerificationResult) → parse_verification (verification_value v) ≡ ok v
unfolding parse_verification string_eq
parse_verification-value not_required = refl
parse_verification-value _ = refl

-- Reading the row that is written for an event gives the event back, its time read as UTC.
pub event_from_row-event_row :
    (e : WorkflowEvent)
    → event_from_row (event_row e) ≡ ok (record e { occurred_at = utc e.occurred_at })
unfolding event_from_row event_row
event_from_row-event_row e =
    rw (parse_state-value e.prior_state)
      (rw (parse_state-value e.next_state) (rw (parse_verification-value e.verification) refl))

pub events_from_rows-append :
    (rows : List WorkflowEventRow) (r : WorkflowEventRow) (es : List WorkflowEvent)
    (e : WorkflowEvent)
    → events_from_rows rows ≡ ok es
    → event_from_row r ≡ ok e
    → events_from_rows (rows ++ r ∷ []) ≡ ok (es ++ e ∷ [])
unfolding events_from_rows
events_from_rows-append [] r es e h k = rw k (cc)
events_from_rows-append (x ∷ rows) r es e h k =
    let (a, ha, rest) = >>=-eq-ok (event_from_row x) _ h in
    let (others, has, done) = >>=-eq-ok (events_from_rows rows) _ rest in
    rw ha (rw (events_from_rows-append rows r others e has k) (cc done))

abbrev pub IsAscending : List ℕ → Type 0
IsAscending [] = Unit
IsAscending (x ∷ xs) = All (λ y. x ≤ y) xs × IsAscending xs

insert_row-first :
    (r : WorkflowEventRow) (rows : List WorkflowEventRow)
    → All (λ y. r.sequence ≤ y) (sequences rows)
    → insert_row r rows ≡ r ∷ rows
unfolding insert_row
insert_row-first r [] h = refl
insert_row-first r (x ∷ rows) h = ground arith

-- Rows that ascend already are left as they stand.
pub order_rows-ascending :
    (rows : List WorkflowEventRow) → IsAscending (sequences rows) → order_rows rows ≡ rows
unfolding order_rows
order_rows-ascending [] h = refl
order_rows-ascending (x ∷ rows) h = rw (order_rows-ascending rows h.1) (insert_row-first x rows h.0)
