-- ===== src/Fields/Classification.antt =====
-- backend/src/job_apply_pro/services/field_coverage.py: `_classify` and `_item`, what a review says of one
-- required control.
use job_apply_pro.Base.{
  if◌then◌else◌, ltb, Eq, ◌==◌, contains, option_eq, nat_eq, string_eq, any, keep, is_some, Outcome,
  ok, ◌>>=◌, is_nonempty, ℕ, String, Bool, true, false, not, ◌&&◌, ◌||◌, Option, none, some, List,
  [], ◌∷◌,
}
use job_apply_pro.Browser.{
  BrowserControlKind, radio_group_control, control_kind_eq, BrowserObservedControl,
}
use job_apply_pro.Fields.Data.{
  PortalFieldControlKind, custom_field, field_kind_eq, portal_kind, control_value, executable_kinds,
  autofill_allowed, permission_eq, run_state_eq, ApplicationAnswerRecord,
  ApplicationFieldBindingRecord, SupervisedPortalRunSnapshot, ApplicationFieldExecution, FieldStore,
  FieldError, find_answer, lacks_locator,
}

pub data ApplicationFieldCoverageStatus : Type 0 where
  satisfied_on_page ready_to_execute already_verified manual_required unbound stale_binding
        ambiguous_binding :
      ApplicationFieldCoverageStatus

pub ApplicationFieldCoverageStatus-discrete : Discrete ApplicationFieldCoverageStatus
ApplicationFieldCoverageStatus-discrete = hlevel

instance unfoldable pub coverage_eq : Eq ApplicationFieldCoverageStatus
unfolding ApplicationFieldCoverageStatus-discrete
coverage_eq = record { dec = ApplicationFieldCoverageStatus-discrete }

pub record ApplicationFieldCoverageItem : Type 0 where
  pub control_key : String
  pub label : String
  pub control_kind : PortalFieldControlKind
  pub required : Bool
  pub status : ApplicationFieldCoverageStatus
  pub binding_id : Option String
  pub reason : String

pub record ApplicationFieldCoverageReview : Type 0 where
  pub application_id : String
  pub supervised_run_id : String
  pub portal : String
  pub page_fingerprint : String
  pub required_control_count : ℕ
  pub satisfied_on_page_count : ℕ
  pub ready_to_execute_count : ℕ
  pub already_verified_count : ℕ
  pub manual_required_count : ℕ
  pub unbound_count : ℕ
  pub stale_binding_count : ℕ
  pub ambiguous_binding_count : ℕ
  pub items : List ApplicationFieldCoverageItem
  pub review_fingerprint : String

abbrev pub first_text : List String → String → String
first_text [] last = last
first_text (s ∷ rest) last = if is_nonempty s then s else first_text rest last

abbrev pub label_of : BrowserObservedControl → String
label_of c = first_text (c.label ∷ c.group_label ∷ c.field_name ∷ []) (control_value c.kind)

abbrev pub kind_or_custom : BrowserControlKind → PortalFieldControlKind
kind_or_custom k = elim (portal_kind k) [ none ↦ custom_field | some f ↦ f ]

abbrev pub coverage_item :
    BrowserObservedControl
    → ApplicationFieldCoverageStatus
    → Option String
    → String
    → ApplicationFieldCoverageItem
coverage_item c status binding_id reason = record {
  control_key = c.control_key;
  label = label_of c;
  control_kind = kind_or_custom c.kind;
  required = true;
  status = status;
  binding_id = binding_id;
  reason = reason;
}

-- A control that stays under visible user handling.
unfoldable pub needs_user : BrowserObservedControl → Bool
needs_user c =
    not (contains executable_kinds c.kind)
    || c.legal_attestation
    || c.disabled
    || c.read_only
    || c.busy
    || c.inert
    || c.accessibility_hidden
    || ltb 1 c.repeat_count

unfoldable pub is_satisfied : BrowserObservedControl → Bool
is_satisfied c =
    c.native_required && c.will_validate && c.constraint_satisfied && not c.accessible_invalid

unfoldable pub lacks_executable : BrowserObservedControl → Outcome FieldError Bool
unfolding control_kind_eq
lacks_executable c =
    if not (is_some c.locator)
    then ok true
    else if c.kind == radio_group_control
    then lacks_locator c.options
    else ok false

unfoldable pub is_current :
    SupervisedPortalRunSnapshot → BrowserObservedControl → ApplicationFieldBindingRecord → Bool
is_current run c b =
    b.page_fingerprint == run.page_fingerprint
    && b.portal == run.portal
    && b.control_kind == kind_or_custom c.kind

unfoldable pub relevant_bindings :
    BrowserObservedControl → List ApplicationFieldBindingRecord → List ApplicationFieldBindingRecord
relevant_bindings c bindings = keep (λ b. b.control_key == c.control_key) bindings

unfoldable pub is_verified :
    SupervisedPortalRunSnapshot
    → ApplicationFieldBindingRecord
    → List ApplicationFieldExecution
    → Bool
is_verified run b executions =
    any
      (λ e.
        e.binding_id == b.id
        && e.answer_revision == b.answer_revision
        && e.page_fingerprint_before == run.page_fingerprint
        && e.verified
        && has_no_error e.error)
      executions
  where
    has_no_error : Option String → Bool
    has_no_error none = true
    has_no_error (some s) = not (is_nonempty s)

-- The answer is the one that was bound, in the same revision.
unfoldable pub answer_matches :
    ApplicationFieldBindingRecord → Option ApplicationAnswerRecord → Bool
answer_matches b none = false
answer_matches b (some a) = a.application_id == b.application_id && a.revision == b.answer_revision

module _ (store : FieldStore) (executions : List ApplicationFieldExecution)
    (run : SupervisedPortalRunSnapshot) (c : BrowserObservedControl) where
  -- The item of a control with one current binding.
  unfoldable pub classify_bound : ApplicationFieldBindingRecord → ApplicationFieldCoverageItem
  unfolding permission_eq
  classify_bound b =
      if not (answer_matches b (find_answer b.application_answer_id store))
      then coverage_item c stale_binding (some b.id)
          "The approved answer revision is missing or has changed since binding approval."
      else if not (b.automation_permission == autofill_allowed)
      then coverage_item c manual_required (some b.id)
          "The approved binding requires visible user handling."
      else if is_verified run b executions
      then coverage_item c already_verified (some b.id)
          "A verified execution exists for this binding, answer revision, and page."
      else coverage_item c ready_to_execute (some b.id)
          "The current required control has one current binding eligible for individual execution review."

  -- The item by the current bindings, with all bindings of the control.
  unfoldable pub classify_by :
      List ApplicationFieldBindingRecord
      → List ApplicationFieldBindingRecord
      → ApplicationFieldCoverageItem
  classify_by [] [] =
      coverage_item c unbound none "No approved binding exists for this required control."
  classify_by (b ∷ rest) [] =
      coverage_item c stale_binding none
        "A prior binding exists, but it does not match the current portal page and control."
  classify_by relevant (b ∷ []) = classify_bound b
  classify_by relevant (b ∷ b' ∷ rest) =
      coverage_item c ambiguous_binding none
        "Multiple approved bindings match this current required control."

  abbrev pub current_bindings :
      List ApplicationFieldBindingRecord → List ApplicationFieldBindingRecord
  current_bindings bindings = keep (is_current run c) (relevant_bindings c bindings)

  abbrev pub only_id : List ApplicationFieldBindingRecord → Option String
  only_id (b ∷ []) = some b.id
  only_id _ = none

  unfoldable pub classify :
      List ApplicationFieldBindingRecord → Outcome FieldError ApplicationFieldCoverageItem
  classify bindings =
      if needs_user c
      then ok (
          coverage_item c manual_required none (
            if ltb 1 c.repeat_count
            then "Repeated controls require a provider-specific unique locator and visible user handling."
            else "This required control must remain under visible user handling."))
      else if is_satisfied c
      then ok (
          coverage_item c satisfied_on_page (only_id (current_bindings bindings))
            "The current page reports this required native control as constraint-valid; its value remains private and semantic correctness still requires review.")
      else (do
        stuck ← lacks_executable c
        ok (
            if stuck
            then coverage_item c manual_required none
                "This required control has no deterministic executable locator."
            else classify_by (relevant_bindings c bindings) (current_bindings bindings)))
