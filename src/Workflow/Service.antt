-- ===== src/Workflow/Service.antt =====
-- backend/src/job_apply_pro/services/workflows.py: `WorkflowService`. The new event's identifier and
-- time, `uuid4` and `utc_now` in the source, are arguments.
use job_apply_pro.Base.{option_eq, nat_eq, string_eq, Outcome, ◌>>◌, raise_if, ℕ, String, not, List}
use job_apply_pro.Workflow.State.{WorkflowState, state_eq}
use job_apply_pro.Workflow.Transitions.{
  verification_eq, TransitionCommand, WorkflowError, public_transition_denied, validate_transition,
}
use job_apply_pro.Workflow.Events.{
  DateTime, WorkflowEvent, Database, permits_public_transition, next_sequence, add,
  list_for_workflow,
}

-- The event that `transition` and `apply_transition` build.
unfoldable pub new_event :
    String → DateTime → String → ℕ → WorkflowState → TransitionCommand → WorkflowEvent
new_event id now workflow_id sequence prior_state c = record {
  id = id;
  workflow_id = workflow_id;
  sequence = sequence;
  prior_state = prior_state;
  next_state = c.next_state;
  actor = c.actor;
  cause = c.cause;
  verification = c.verification;
  retry_count = c.retry_count;
  occurred_at = now;
}

unfoldable pub transition :
    String
    → DateTime
    → String
    → TransitionCommand
    → Database
    → Outcome WorkflowError (WorkflowEvent × Database)
unfolding new_event
transition id now workflow_id c db = do
  validate_transition c
  add (new_event id now workflow_id (next_sequence workflow_id db) c.current_state c) db

unfoldable pub transition_public :
    String
    → DateTime
    → String
    → TransitionCommand
    → Database
    → Outcome WorkflowError (WorkflowEvent × Database)
transition_public id now workflow_id c db = do
  raise_if (not (permits_public_transition workflow_id c.current_state db)) public_transition_denied
  transition id now workflow_id c db

unfoldable pub history : String → Database → Outcome WorkflowError (List WorkflowEvent)
history = list_for_workflow
