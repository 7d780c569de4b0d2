-- ===== src/Fields/Samples.antt =====
-- A small page with its bindings, and services that answer as a browser would.
use job_apply_pro.Base.{option_eq, nat_eq, string_eq, ok, String, true, none, some, List, [], ◌∷◌}
use job_apply_pro.Browser.{
  control_kind_eq, radio_group_control, BrowserObservedControl, BrowserObservation,
}
use job_apply_pro.Browser.Samples.{text_input}
use job_apply_pro.Fields.Data.{
  field_kind_eq, permission_eq, run_state_eq, text_field, autofill_allowed, awaiting_user,
  ApplicationAnswerRecord, ApplicationFieldBindingRecord, SupervisedPortalRunSnapshot, FieldStore,
  reviewed, short_text,
}
use job_apply_pro.Fields.Classification.{
  coverage_eq, ready_to_execute, ApplicationFieldCoverageItem, coverage_item,
}
use job_apply_pro.Fields.Execution.{
  ApplicationFieldExecutionApproval, FieldServices, FieldWorld, ApplicationFieldBindingPreview,
}

abbrev pub sample_run : SupervisedPortalRunSnapshot
sample_run = record {
  id = "r1";
  portal = "LEVER";
  workflow_id = "w1";
  browser_session_id = "s1";
  state = awaiting_user;
  page_fingerprint = "fp";
  observed_controls = text_input ∷ record text_input { control_key = "k2"; label = "City" } ∷ [];
}

abbrev pub sample_binding : ApplicationFieldBindingRecord
sample_binding = record {
  id = "b1";
  application_id = "a1";
  application_answer_id = "n1";
  answer_revision = 1;
  portal = "LEVER";
  page_fingerprint = "fp";
  control_key = "k1";
  control_kind = text_field;
  automation_permission = autofill_allowed;
  review_fingerprint = "rf";
}

abbrev pub sample_answer : ApplicationAnswerRecord
sample_answer = record {
  id = "n1";
  application_id = "a1";
  revision = 1;
  encrypted_question = some "Your name?";
  canonical_field = "candidate.name";
  answer_kind = short_text;
  choices = none;
  encrypted_value = "Ada";
  status = reviewed;
}

abbrev pub sample_preview : ApplicationFieldBindingPreview
sample_preview = record {
  application_id = "a1";
  application_answer_id = "n1";
  answer_revision = 1;
  portal = "LEVER";
  page_fingerprint = "fp";
  control_key = "k1";
  control_kind = text_field;
  compatible = true;
  validation_errors = [];
  proposed_permission = autofill_allowed;
  review_fingerprint = "rf";
}

abbrev pub sample_store : FieldStore
sample_store = record {
  bindings = sample_binding ∷ [];
  answers = sample_answer ∷ [];
  applications = record { id = "a1"; workflow_id = "w1" } ∷ [];
  runs = sample_run ∷ [];
}

abbrev pub keep_case : String → String
keep_case s = s

abbrev pub no_digest :
    String → SupervisedPortalRunSnapshot → List ApplicationFieldCoverageItem → String
no_digest id run items = "digest"

abbrev pub live_page : BrowserObservation
live_page = record {
  page_type = "FORM";
  page_fingerprint = "fp";
  visible_text = "Name";
  controls = text_input ∷ [];
}

abbrev pub sample_services : FieldServices
sample_services = record {
  enabled = true;
  strip = keep_case;
  casefold = keep_case;
  preview = λ id field. ok sample_preview;
  decrypt = λ value context. ok value;
  digest = λ b run result. "digest";
  resume = λ session. ok (some live_page);
  takeover = λ session. ok tt;
  execute_action = λ session action.
      ok (record { action = action; verified = true; observation = live_page; error = none });
  execution_id = "e1";
  now = 7;
}

abbrev pub sample_approval : ApplicationFieldExecutionApproval
sample_approval = record {
  binding_id = "b1";
  review_page_fingerprint = "fp";
  confirmation_phrase = "EXECUTE APPROVED FIELD";
}

abbrev pub empty_world : FieldWorld
empty_world = record { executions = []; calls = [] }

-- The review of the page: the first control is ready, the second has no binding.
abbrev pub sample_item : ApplicationFieldCoverageItem
sample_item =
    coverage_item text_input ready_to_execute (some "b1")
      "The current required control has one current binding eligible for individual execution review."

-- A group of radio buttons whose only button has no text.
abbrev pub blank_radio : BrowserObservedControl
blank_radio = record text_input {
  kind = radio_group_control;
  options = record { value = "a"; label = ""; locator = none } ∷ [];
}

abbrev pub radio_store : FieldStore
radio_store = record sample_store {
  runs = record sample_run { observed_controls = text_input ∷ blank_radio ∷ [] } ∷ [];
}
