-- ===== src/Browser/Samples.antt =====
-- A control of a small page.
use job_apply_pro.Base.{option_eq, nat_eq, string_eq, true, false, none, some, []}
use job_apply_pro.Browser.{label_strategy, text_control, control_kind_eq, BrowserObservedControl}

abbrev pub text_input : BrowserObservedControl
text_input = record {
  control_key = "k1";
  kind = text_control;
  tag = "input";
  input_type = "text";
  role = "";
  element_id = "";
  field_name = "name";
  group_label = "";
  label = "Name";
  text = "";
  canonical_field = "";
  repeat_count = 1;
  required = true;
  native_required = true;
  disabled = false;
  read_only = false;
  busy = false;
  inert = false;
  accessibility_hidden = false;
  visible = true;
  will_validate = true;
  constraint_satisfied = false;
  accessible_invalid = false;
  legal_attestation = false;
  character_limit = none;
  minimum_number = none;
  maximum_number = none;
  earliest_date = none;
  latest_date = none;
  options = [];
  locator = some (record { strategy = label_strategy; value = "Name"; name = none; exact = true });
}
