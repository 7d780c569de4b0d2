-- ===== src/Fields/Execution.antt =====
-- backend/src/job_apply_pro/services/field_execution.py: the execution of one approved field. The
-- binding service's preview, the cipher's decryption, `strip`, `casefold` and the digest of the action
-- (SHA-256 over its JSON) are what the service is given; what the browser answers is given too.
use Prim.Native.String.{◌++◌ as text_append}
use job_apply_pro.Base.{
  if◌then◌else◌, ltb, ◌==◌, contains, option_eq, nat_eq, string_eq, any, keep, is_some, Outcome, ok,
  err, ◌>>=◌, ◌>>◌, raise_if, or_raise, is_nonempty, ℕ, String, Bool, false, not, ◌&&◌, ◌||◌,
  Option, none, some, List, [], ◌∷◌, ◌++◌, map,
}
use job_apply_pro.Browser.{
  radio_group_control, control_kind_eq, BrowserAction, BrowserObservedControl, BrowserObservation,
  BrowserActionResult,
}
use job_apply_pro.Fields.Data.{
  FieldAutomationPermission, PortalFieldControlKind, field_kind_eq, portal_kind, control_value,
  executable_kinds, autofill_allowed, permission_eq, awaiting_user, run_state_eq,
  ApplicationAnswerRecord, ApplicationFieldBindingRecord, SupervisedPortalRunSnapshot,
  ApplicationFieldExecution, FieldStore, FieldError, missing, policy, conflicting, invalid_field,
  taken_key, find_run, find_application_row, find_answer, find_binding, lacks_locator,
}
use job_apply_pro.Fields.Classification.{coverage_eq, first_text}
use job_apply_pro.Fields.Action.{sole, action_of}

pub record ApplicationFieldExecutionApproval : Type 0 where
  pub binding_id : String
  pub review_page_fingerprint : String
  pub confirmation_phrase : String

pub record ObservedPortalField : Type 0 where
  pub portal : String
  pub page_fingerprint : String
  pub control_key : String
  pub control_kind : PortalFieldControlKind
  pub label : String
  pub required : Bool
  pub options : List String
  pub character_limit : Option ℕ
  pub minimum_number : Option String
  pub maximum_number : Option String
  pub earliest_date : Option String
  pub latest_date : Option String
  pub legal_attestation : Bool

-- What is read of a preview.
pub record ApplicationFieldBindingPreview : Type 0 where
  pub application_id : String
  pub application_answer_id : String
  pub answer_revision : ℕ
  pub portal : String
  pub page_fingerprint : String
  pub control_key : String
  pub control_kind : PortalFieldControlKind
  pub compatible : Bool
  pub validation_errors : List String
  pub proposed_permission : FieldAutomationPermission
  pub review_fingerprint : String

-- A call of the browser by the service.
pub data BrowserCall : Type 0 where
  resume_call takeover_call : String → BrowserCall
  action_call : String → BrowserAction → BrowserCall

pub record FieldServices : Type 0 where
  pub enabled : Bool
  pub strip : String → String
  pub casefold : String → String
  pub preview : String → ObservedPortalField → Outcome FieldError ApplicationFieldBindingPreview
  pub decrypt : String → String → Outcome FieldError String
  pub digest :
      ApplicationFieldBindingRecord → SupervisedPortalRunSnapshot → BrowserActionResult → String
  pub resume : String → Outcome FieldError (Option BrowserObservation)
  pub takeover : String → Outcome FieldError (Unit {0})
  pub execute_action : String → BrowserAction → Outcome FieldError BrowserActionResult
  pub execution_id : String
  pub now : ℕ

-- The executions on record, and the calls of the browser so far.
pub record FieldWorld : Type 0 where
  pub executions : List ApplicationFieldExecution
  pub calls : List BrowserCall

-- The checks of `_validate_control`, in their order.
unfoldable pub validate_control :
    ApplicationFieldBindingRecord → BrowserObservedControl → Outcome FieldError (Unit {0})
unfolding control_kind_eq field_kind_eq
validate_control b c = do
  raise_if (not (contains executable_kinds c.kind)) policy
  raise_if (not (is_some c.locator)) policy
  raise_if (c.disabled || c.read_only || c.busy || c.inert || c.accessibility_hidden) policy
  raise_if (ltb 1 c.repeat_count) policy
  raise_if (not c.visible) policy
  raise_if c.legal_attestation policy
  raise_if (not (portal_kind c.kind == some b.control_kind)) conflicting
  lacking ← if c.kind == radio_group_control then lacks_locator c.options else ok false
  raise_if lacking policy

abbrev pub field_label : (String → String) → BrowserObservedControl → String
field_label casefold c =
    first_text (c.label ∷ c.group_label ∷ c.field_name ∷ [])
      (text_append "Observed " (text_append (casefold (control_value c.kind)) " control"))

abbrev pub observed_field :
    (String → String)
    → SupervisedPortalRunSnapshot
    → BrowserObservedControl
    → PortalFieldControlKind
    → ObservedPortalField
observed_field casefold run c kind = record {
  portal = run.portal;
  page_fingerprint = run.page_fingerprint;
  control_key = c.control_key;
  control_kind = kind;
  label = field_label casefold c;
  required = c.required;
  options = map (λ o. o.label) c.options;
  character_limit = c.character_limit;
  minimum_number = c.minimum_number;
  maximum_number = c.maximum_number;
  earliest_date = c.earliest_date;
  latest_date = c.latest_date;
  legal_attestation = c.legal_attestation;
}

module _ (services : FieldServices) where
  -- The checks of `execute` on the approved binding, on the run, and on the answer.
  unfoldable pub admit_binding :
      FieldStore
      → ApplicationFieldExecutionApproval
      → Outcome FieldError ApplicationFieldBindingRecord
  unfolding permission_eq
  admit_binding store approval = do
    raise_if (not services.enabled) policy
    raise_if (not (approval.confirmation_phrase == "EXECUTE APPROVED FIELD")) policy
    binding ← or_raise (find_binding approval.binding_id store) missing
    raise_if (not (binding.automation_permission == autofill_allowed)) policy
    ok binding

  unfoldable pub admit_run :
      FieldStore
      → String
      → ApplicationFieldExecutionApproval
      → ApplicationFieldBindingRecord
      → Outcome FieldError SupervisedPortalRunSnapshot
  unfolding run_state_eq
  admit_run store run_id approval binding = do
    run ← or_raise (find_run run_id store) missing
    raise_if (not (run.state == awaiting_user)) policy
    raise_if (not (approval.review_page_fingerprint == run.page_fingerprint)) conflicting
    raise_if (not (binding.page_fingerprint == run.page_fingerprint)) conflicting
    raise_if (not (binding.portal == run.portal)) conflicting
    ok run

  unfoldable pub admit_answer :
      FieldStore
      → ApplicationFieldBindingRecord
      → SupervisedPortalRunSnapshot
      → Outcome FieldError ApplicationAnswerRecord
  admit_answer store binding run = do
    application ← or_raise (find_application_row binding.application_id store) missing
    raise_if (not (application.workflow_id == run.workflow_id)) conflicting
    answer ← or_raise (find_answer binding.application_answer_id store) missing
    raise_if
        (not
          (answer.application_id == application.id && answer.revision == binding.answer_revision))
        conflicting
    ok answer

  -- All of these, before the browser is touched.
  unfoldable pub admit :
      FieldStore
      → String
      → ApplicationFieldExecutionApproval
      → Outcome FieldError
          (ApplicationFieldBindingRecord × SupervisedPortalRunSnapshot × ApplicationAnswerRecord)
  admit store run_id approval = do
    binding ← admit_binding store approval
    run ← admit_run store run_id approval binding
    answer ← admit_answer store binding run
    ok (binding, run, answer)

  -- From the live page to the action on it.
  unfoldable pub prepare :
      ApplicationFieldBindingRecord
      → SupervisedPortalRunSnapshot
      → ApplicationAnswerRecord
      → Option BrowserObservation
      → Outcome FieldError BrowserAction
  prepare binding run answer observed = do
    page ← or_raise observed conflicting
    raise_if (not (page.page_fingerprint == run.page_fingerprint)) conflicting
    c ← or_raise (sole (keep (λ c. c.control_key == binding.control_key) page.controls)) conflicting
    validate_control binding c
    kind ← or_raise (portal_kind c.kind) invalid_field
    preview ← services.preview answer.id (observed_field services.casefold run c kind)
    raise_if
        (not preview.compatible || not (preview.review_fingerprint == binding.review_fingerprint))
        conflicting
    value ←
        services.decrypt answer.encrypted_value
          (text_append "application-answer:" (text_append answer.id ":value"))
    action_of services.strip services.casefold c value

  abbrev pub execution_of :
      ApplicationFieldBindingRecord
      → SupervisedPortalRunSnapshot
      → BrowserActionResult
      → ApplicationFieldExecution
  execution_of binding run result = record {
    id = services.execution_id;
    binding_id = binding.id;
    application_id = binding.application_id;
    application_answer_id = binding.application_answer_id;
    answer_revision = binding.answer_revision;
    supervised_run_id = run.id;
    browser_session_id = run.browser_session_id;
    portal = run.portal;
    page_fingerprint_before = run.page_fingerprint;
    page_fingerprint_after = result.observation.page_fingerprint;
    control_key = binding.control_key;
    action_kind = result.action.kind;
    verified = result.verified;
    action_fingerprint = services.digest binding run result;
    error = failure result.error;
    created_at = services.now;
  }
    where
      failure : Option String → Option String
      failure none = none
      failure (some s) =
          if is_nonempty s
          then some "Sensitive browser action failed or could not be verified"
          else none

  abbrev pub called : BrowserCall → FieldWorld → FieldWorld
  called call w = record w { calls = w.calls ++ call ∷ [] }

  unfoldable pub add_execution :
      ApplicationFieldExecution
      → FieldWorld
      → Outcome FieldError ApplicationFieldExecution × FieldWorld
  add_execution e w =
      if any (λ x. e.id == x.id) w.executions
      then (err taken_key, w)
      else (ok e, record w { executions = w.executions ++ e ∷ [] })

  -- After the action: its execution is put on record.
  abbrev pub conclude :
      ApplicationFieldBindingRecord
      → SupervisedPortalRunSnapshot
      → Outcome FieldError BrowserActionResult
      → FieldWorld
      → Outcome FieldError ApplicationFieldExecution × FieldWorld
  conclude binding run (err e) w = (err e, w)
  conclude binding run (ok result) w = add_execution (execution_of binding run result) w

  abbrev pub act :
      ApplicationFieldBindingRecord
      → SupervisedPortalRunSnapshot
      → Outcome FieldError BrowserAction
      → FieldWorld
      → Outcome FieldError ApplicationFieldExecution × FieldWorld
  act binding run (err e) w = (err e, w)
  act binding run (ok action) w =
      conclude binding run (services.execute_action run.browser_session_id action)
        (called (action_call run.browser_session_id action) w)

  -- The body of the `try` once the browser was resumed.
  unfoldable pub perform :
      ApplicationFieldBindingRecord
      → SupervisedPortalRunSnapshot
      → ApplicationAnswerRecord
      → Option BrowserObservation
      → FieldWorld
      → Outcome FieldError ApplicationFieldExecution × FieldWorld
  perform binding run answer observed w = act binding run (prepare binding run answer observed) w

  -- The `finally`: a takeover that raises replaces the result.
  abbrev pub hand_back :
      String
      → Outcome FieldError (Unit {0})
      → Outcome FieldError ApplicationFieldExecution × FieldWorld
      → Outcome FieldError ApplicationFieldExecution × FieldWorld
  hand_back session (ok _) (r, w) = (r, called (takeover_call session) w)
  hand_back session (err e) (r, w) = (err e, called (takeover_call session) w)

  abbrev pub supervise :
      ApplicationFieldBindingRecord
      → SupervisedPortalRunSnapshot
      → ApplicationAnswerRecord
      → Outcome FieldError (Option BrowserObservation)
      → FieldWorld
      → Outcome FieldError ApplicationFieldExecution × FieldWorld
  supervise binding run answer (err e) w = (err e, w)
  supervise binding run answer (ok observed) w =
      hand_back run.browser_session_id (services.takeover run.browser_session_id)
        (perform binding run answer observed w)

  abbrev pub execute_admitted :
      Outcome FieldError
        (ApplicationFieldBindingRecord × SupervisedPortalRunSnapshot × ApplicationAnswerRecord)
      → FieldWorld
      → Outcome FieldError ApplicationFieldExecution × FieldWorld
  execute_admitted (err e) w = (err e, w)
  execute_admitted (ok (binding, run, answer)) w =
      supervise binding run answer (services.resume run.browser_session_id)
        (called (resume_call run.browser_session_id) w)

  unfoldable pub execute :
      FieldStore
      → String
      → ApplicationFieldExecutionApproval
      → FieldWorld
      → Outcome FieldError ApplicationFieldExecution × FieldWorld
  execute store run_id approval w = execute_admitted (admit store run_id approval) w
