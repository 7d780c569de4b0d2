-- ===== src/Fields/Action.antt =====
-- backend/src/job_apply_pro/services/field_execution.py: `_action`, the browser action that enters an
-- answer into a control. `strip` and `casefold` are given.
use job_apply_pro.Base.{
  option_eq, nat_eq, string_eq, if◌then◌else◌, ◌==◌, contains, keep, Outcome, ok, ◌>>=◌, ◌>>◌,
  raise_if, or_raise, String, Bool, true, false, not, Option, none, some, List, [], ◌∷◌,
}
use job_apply_pro.Browser.{
  control_kind_eq, BrowserActionKind, fill, select_label, check, uncheck, BrowserControlKind,
  select_control, radio_group_control, checkbox_control, VerificationKind, locator_visible,
  value_equals, selected_label_equals, checked_equals, elevated, confirmed, SemanticLocator,
  BrowserAction, BrowserControlOption, BrowserObservedControl, is_action,
}
use job_apply_pro.Fields.Data.{
  field_kind_eq, permission_eq, run_state_eq, FieldError, policy, conflicting, invalid_field,
}

abbrev pub options_named : String → List BrowserControlOption → List BrowserControlOption
options_named answer options = keep (λ o. answer == o.label) options

-- `matches[0]` where there is exactly one
abbrev pub sole {ℓ} : {A : Type ℓ} → List A → Option A
sole (x ∷ []) = some x
sole _ = none

abbrev pub field_action :
    BrowserActionKind → SemanticLocator → Option String → VerificationKind → String → BrowserAction
field_action kind locator value verification expected = record {
  kind = kind;
  locator = locator;
  value = value;
  preconditions = record { kind = locator_visible; value = none; locator = some locator } ∷ [];
  intended_result = "Populate one explicitly approved application field";
  verification = record { kind = verification; value = some expected; locator = some locator };
  permission = elevated;
  confirmation = confirmed;
  sensitive_value = true;
}

-- The meaning of a checkbox's answer, `none` where it has none.
unfoldable pub means_checked : String → Option Bool
means_checked normalized =
    if contains ("yes" ∷ "true" ∷ "1" ∷ "checked" ∷ []) normalized
    then some true
    else if contains ("no" ∷ "false" ∷ "0" ∷ "unchecked" ∷ []) normalized
    then some false
    else none

abbrev pub tick : SemanticLocator → Bool → BrowserAction
tick locator true = field_action check locator none checked_equals "true"
tick locator false = field_action uncheck locator none checked_equals "false"

module _ (strip casefold : String → String) where
  unfoldable pub action_by_kind :
      BrowserControlKind
      → SemanticLocator
      → List BrowserControlOption
      → String
      → Outcome FieldError BrowserAction
  action_by_kind radio_group_control locator options answer = do
    o ← or_raise (sole (options_named answer options)) conflicting
    l ← or_raise o.locator conflicting
    ok (field_action check l none checked_equals "true")
  action_by_kind select_control locator options answer = do
    o ← or_raise (sole (options_named answer options)) conflicting
    ok (field_action select_label locator (some o.label) selected_label_equals o.label)
  action_by_kind checkbox_control locator options answer = do
    checked ← or_raise (means_checked (casefold (strip answer))) conflicting
    ok (tick locator checked)
  action_by_kind _ locator options answer =
      ok (field_action fill locator (some answer) value_equals answer)

  -- The action of a control, within the limits of its model.
  unfoldable pub action_of : BrowserObservedControl → String → Outcome FieldError BrowserAction
  action_of c answer = do
    locator ← or_raise c.locator policy
    action ← action_by_kind c.kind locator c.options answer
    raise_if (not (is_action action)) invalid_field
    ok action
