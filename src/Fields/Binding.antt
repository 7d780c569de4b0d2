-- ===== src/Fields/Binding.antt =====
-- backend/src/job_apply_pro/services/field_bindings.py: `preview` and `approve`, with `add` of
-- storage/field_binding_repository.py.
use Prim.Native.String.{◌++◌ as text_append}
use job_apply_pro.Base.{
  option_eq, nat_eq, string_eq, if◌then◌else◌, ◌==◌, contains, length, any, all, keep, Outcome, ok,
  ◌>>=◌, ◌>>◌, raise_if, or_raise, ℕ, ◌+◌, String, Bool, true, false, not, ◌&&◌, ◌||◌, Option, none,
  some, List, [], ◌∷◌, ◌++◌,
}
use job_apply_pro.Fields.Data.{
  field_kind_eq, permission_eq, FieldAutomationPermission, prohibited, approval_needed,
  autofill_allowed, run_state_eq, ApplicationAnswerRecord, ApplicationFieldBindingRecord,
  FieldStore, FieldError, missing, conflicting, find_answer,
}
use job_apply_pro.Fields.Execution.{ObservedPortalField, ApplicationFieldBindingPreview}
use job_apply_pro.Fields.Compatibility.{
  FieldBindingSource, exact_canonical_match, answer_question_match, BindingTools,
  ApplicationFieldBindingApproval, is_human_only, compatibility_errors,
}

abbrev pub is_within : List String → List String → Bool
is_within xs ys = all (contains ys) xs

-- `len(a & b)` and `len(a | b)` of two sets, given as lists without repetition.
abbrev pub common : List String → List String → ℕ
common xs ys = length (keep (contains ys) xs)

abbrev pub together : List String → List String → ℕ
together xs ys = length ys + length (keep (λ x. not (contains ys x)) xs)

abbrev pub or_empty : Option String → String
or_empty none = ""
or_empty (some s) = s

-- `self._bindings.add`: the table's key, and its constraint on the place of a control.
abbrev pub same_place : ApplicationFieldBindingRecord → ApplicationFieldBindingRecord → Bool
same_place a b =
    a.application_id == b.application_id
    && a.page_fingerprint == b.page_fingerprint
    && a.control_key == b.control_key

unfoldable pub add_binding :
    ApplicationFieldBindingRecord
    → List ApplicationFieldBindingRecord
    → Outcome FieldError (List ApplicationFieldBindingRecord)
add_binding b bindings = do
  raise_if (any (λ x. x.id == b.id || same_place x b) bindings) conflicting
  ok (bindings ++ b ∷ [])

module _ (tools : BindingTools) where
  -- The confidence and the source of a mapping.
  unfoldable pub confidence_of :
      List String → List String → List String → (ℕ × ℕ) × FieldBindingSource
  confidence_of canonical label question =
      if not (length canonical == 0) && is_within canonical label
      then ((1, 1), exact_canonical_match)
      else (
        if together label question == 0
            then (0, 1)
            else (common label question, together label question),
        answer_question_match,
      )

  unfoldable pub proposed_for : ObservedPortalField → List String → FieldAutomationPermission
  proposed_for field [] =
      if is_human_only field.control_kind || field.legal_attestation
      then approval_needed
      else autofill_allowed
  proposed_for field (e ∷ errors) = prohibited

  abbrev pub is_free : List String → Bool
  is_free [] = true
  is_free (e ∷ errors) = false

  abbrev pub preview_of :
      ApplicationAnswerRecord
      → ObservedPortalField
      → List String
      → List String
      → ApplicationFieldBindingPreview
  preview_of answer field errors question =
      let (confidence, source) =
        confidence_of (tools.words (tools.spaced answer.canonical_field)) (tools.words field.label)
          question in
      record {
        application_id = answer.application_id;
        application_answer_id = answer.id;
        answer_revision = answer.revision;
        portal = field.portal;
        page_fingerprint = field.page_fingerprint;
        control_key = field.control_key;
        control_kind = field.control_kind;
        compatible = is_free errors;
        validation_errors = errors;
        proposed_permission = proposed_for field errors;
        review_fingerprint =
            tools.digest answer field confidence source errors (proposed_for field errors);
      }

  unfoldable pub preview :
      FieldStore → String → ObservedPortalField → Outcome FieldError ApplicationFieldBindingPreview
  preview store id field = do
    answer ← or_raise (find_answer id store) missing
    errors ← compatibility_errors tools answer field
    question ←
        tools.decrypt (or_empty answer.encrypted_question)
          (text_append "application-answer:" (text_append answer.id ":question"))
    ok (preview_of answer field errors (tools.words question))

  abbrev pub binding_of :
      String
      → FieldAutomationPermission
      → ApplicationFieldBindingPreview
      → ApplicationFieldBindingRecord
  binding_of id permission p = record {
    id = id;
    application_id = p.application_id;
    application_answer_id = p.application_answer_id;
    answer_revision = p.answer_revision;
    portal = p.portal;
    page_fingerprint = p.page_fingerprint;
    control_key = p.control_key;
    control_kind = p.control_kind;
    automation_permission = permission;
    review_fingerprint = p.review_fingerprint;
  }

  -- The guards of `approve`, in their order.
  unfoldable pub approvable :
      ApplicationFieldBindingApproval
      → ApplicationFieldBindingPreview
      → Outcome FieldError (Unit {0})
  unfolding permission_eq
  approvable c p = do
    raise_if (not (c.confirmation_phrase == "APPROVE FIELD BINDING")) conflicting
    raise_if (not (c.expected_answer_revision == p.answer_revision)) conflicting
    raise_if (not (c.review_fingerprint == p.review_fingerprint)) conflicting
    raise_if (not p.compatible) conflicting
    raise_if
        (c.automation_permission == autofill_allowed
          && (is_human_only c.observed_field.control_kind || c.observed_field.legal_attestation))
        conflicting
    raise_if (c.automation_permission == prohibited) conflicting

  -- `approve`, with the identifier that it draws: the new binding, and all bindings.
  unfoldable pub approve :
      FieldStore
      → String
      → ApplicationFieldBindingApproval
      → Outcome FieldError (ApplicationFieldBindingRecord × List ApplicationFieldBindingRecord)
  approve store id c = do
    p ← preview store c.application_answer_id c.observed_field
    approvable c p
    bindings ← add_binding (binding_of id c.automation_permission p) store.bindings
    ok (binding_of id c.automation_permission p, bindings)
