-- ===== src/Fields/Compatibility.antt =====
-- backend/src/job_apply_pro/services/field_bindings.py: whether an answer fits a field. The regular expression of words, Python's
-- readings of numbers and dates, decryption and the digest (SHA-256 over JSON) are given; a confidence
-- is a fraction. What is encrypted of a binding is left out, since nothing here reads it.
use Prim.Native.String.{◌++◌ as text_append}
use job_apply_pro.Base.{
  option_eq, nat_eq, string_eq, if◌then◌else◌, ltb, ◌==◌, contains, length, all, Outcome, ok, ◌>>=◌,
  char_count, ℕ, String, Bool, true, false, not, ◌&&◌, Option, none, some, List, [], ◌∷◌, ◌++◌,
}
use job_apply_pro.Fields.Data.{
  field_kind_eq, permission_eq, PortalFieldControlKind, text_field, text_area_field, number_field,
  date_field, select_field, radio_group_field, checkbox_field, file_upload_field, signature_field,
  disclosure_field, custom_field, FieldAutomationPermission, run_state_eq, ApplicationAnswerStatus,
  reviewed, promoted, ApplicationAnswerKind, number_answer, date_answer, yes_no, multiple_choice,
  salary, availability, ApplicationAnswerRecord, FieldError, email_field, telephone_field,
  exact_answer, short_text, long_text, technology_experience, behavioral, employer_specific,
}
use job_apply_pro.Fields.Execution.{ObservedPortalField}

pub data FieldBindingSource : Type 0 where
  exact_canonical_match answer_question_match user_confirmed : FieldBindingSource

pub record BindingTools : Type 0 where
  pub decrypt : String → String → Outcome FieldError String
  pub words : String → List String
  pub spaced : String → String
  pub is_number : String → Bool
  pub is_finite : String → Bool
  pub number_before : String → String → Bool
  pub is_date : String → Bool
  pub date_before : String → String → Outcome FieldError Bool
  pub digest :
      ApplicationAnswerRecord
      → ObservedPortalField
      → ℕ × ℕ
      → FieldBindingSource
      → List String
      → FieldAutomationPermission
      → String

pub record ApplicationFieldBindingApproval : Type 0 where
  pub application_answer_id : String
  pub observed_field : ObservedPortalField
  pub expected_answer_revision : ℕ
  pub review_fingerprint : String
  pub automation_permission : FieldAutomationPermission
  pub confirmation_phrase : String

-- `_HUMAN_ONLY`
unfoldable pub is_human_only : PortalFieldControlKind → Bool
is_human_only file_upload_field = true
is_human_only signature_field = true
is_human_only disclosure_field = true
is_human_only custom_field = true
is_human_only _ = false

abbrev pub is_bindable : ApplicationAnswerStatus → Bool
is_bindable reviewed = true
is_bindable promoted = true
is_bindable _ = false

-- `kind_controls.get(kind)`
abbrev pub kind_controls : ApplicationAnswerKind → Option (List PortalFieldControlKind)
kind_controls number_answer = some (number_field ∷ text_field ∷ [])
kind_controls salary = some (number_field ∷ text_field ∷ [])
kind_controls date_answer = some (date_field ∷ text_field ∷ [])
kind_controls availability = some (date_field ∷ text_field ∷ text_area_field ∷ [])
kind_controls yes_no = some (select_field ∷ radio_group_field ∷ checkbox_field ∷ [])
kind_controls multiple_choice = some (select_field ∷ radio_group_field ∷ [])
kind_controls _ = none

-- `answer_kind.value` and `control_kind.value`
abbrev pub answer_kind_value : ApplicationAnswerKind → String
answer_kind_value exact_answer = "EXACT"
answer_kind_value short_text = "SHORT_TEXT"
answer_kind_value long_text = "LONG_TEXT"
answer_kind_value number_answer = "NUMBER"
answer_kind_value date_answer = "DATE"
answer_kind_value yes_no = "YES_NO"
answer_kind_value multiple_choice = "MULTIPLE_CHOICE"
answer_kind_value salary = "SALARY"
answer_kind_value availability = "AVAILABILITY"
answer_kind_value technology_experience = "TECHNOLOGY_EXPERIENCE"
answer_kind_value behavioral = "BEHAVIORAL"
answer_kind_value employer_specific = "EMPLOYER_SPECIFIC"

abbrev pub field_kind_value : PortalFieldControlKind → String
field_kind_value text_field = "TEXT"
field_kind_value text_area_field = "TEXT_AREA"
field_kind_value email_field = "EMAIL"
field_kind_value telephone_field = "TELEPHONE"
field_kind_value number_field = "NUMBER"
field_kind_value date_field = "DATE"
field_kind_value select_field = "SELECT"
field_kind_value radio_group_field = "RADIO_GROUP"
field_kind_value checkbox_field = "CHECKBOX"
field_kind_value file_upload_field = "FILE_UPLOAD"
field_kind_value signature_field = "SIGNATURE"
field_kind_value disclosure_field = "DISCLOSURE"
field_kind_value custom_field = "CUSTOM"

abbrev pub is_numeric_kind : ApplicationAnswerKind → Bool
is_numeric_kind number_answer = true
is_numeric_kind salary = true
is_numeric_kind _ = false

abbrev pub is_dated_kind : ApplicationAnswerKind → Bool
is_dated_kind date_answer = true
is_dated_kind availability = true
is_dated_kind _ = false

abbrev pub is_choice_kind : ApplicationAnswerKind → Bool
is_choice_kind yes_no = true
is_choice_kind multiple_choice = true
is_choice_kind _ = false

-- One message where the test fails the answer.
abbrev pub told : Bool → String → List String
told true message = message ∷ []
told false message = []

abbrev pub is_outside : PortalFieldControlKind → Option (List PortalFieldControlKind) → Bool
is_outside kind none = false
is_outside kind (some allowed) = not (contains allowed kind)

abbrev pub choice_errors : ApplicationAnswerKind → Option (List String) → List String → List String
choice_errors multiple_choice none options =
    "Choice bindings require observed and answer options" ∷ []
choice_errors multiple_choice (some choices) [] =
    "Choice bindings require observed and answer options" ∷ []
choice_errors multiple_choice (some choices) (o ∷ options) =
    told (not (all (contains (o ∷ options)) choices))
      "Answer choices are not all present in the observed control"
choice_errors _ choices options = []

abbrev pub is_over : ℕ → Option ℕ → Bool
is_over count none = false
is_over count (some limit) = ltb limit count

module _ (tools : BindingTools) where
  abbrev pub bounded : (String → Bool) → Option String → Bool
  bounded test none = false
  bounded test (some bound) = test bound

  abbrev pub number_errors : ObservedPortalField → String → Bool → List String
  number_errors field value false = []
  number_errors field value true =
      if not (tools.is_number value)
      then "Reviewed answer is not numeric" ∷ []
      else told (not (tools.is_finite value)) "Reviewed answer is not finite"
        ++ told (bounded (λ m. tools.number_before value m) field.minimum_number)
            "Reviewed answer is below the observed minimum"
        ++ told (bounded (λ m. tools.number_before m value) field.maximum_number)
            "Reviewed answer is above the observed maximum"

  abbrev pub dated : (String → Outcome FieldError Bool) → Option String → Outcome FieldError Bool
  dated test none = ok false
  dated test (some bound) = test bound

  abbrev pub date_errors : ObservedPortalField → String → Bool → Outcome FieldError (List String)
  unfolding field_kind_eq
  date_errors field value false = ok []
  date_errors field value true =
      if not (tools.is_date value)
      then ok (told (field.control_kind == date_field) "Reviewed answer is not an ISO date")
      else (do
        early ← dated (λ d. tools.date_before value d) field.earliest_date
        late ← dated (λ d. tools.date_before d value) field.latest_date
        ok (
            told early "Reviewed date precedes the observed minimum"
            ++ told late "Reviewed date follows the observed maximum"))

  -- `_compatibility_errors`
  unfoldable pub compatibility_errors :
      ApplicationAnswerRecord → ObservedPortalField → Outcome FieldError (List String)
  unfolding field_kind_eq
  compatibility_errors answer field = do
    value ←
        tools.decrypt answer.encrypted_value
          (text_append "application-answer:" (text_append answer.id ":value"))
    dates ← date_errors field value (is_dated_kind answer.answer_kind)
    ok (
        told (not (is_bindable answer.status)) "Answer must be reviewed before binding"
        ++ told (is_outside field.control_kind (kind_controls answer.answer_kind)) (
            text_append (answer_kind_value answer.answer_kind)
              (text_append " is incompatible with " (field_kind_value field.control_kind)))
        ++ choice_errors answer.answer_kind answer.choices field.options
        ++ told (is_over (char_count value) field.character_limit)
            "Reviewed answer exceeds the observed character limit"
        ++ number_errors field value (is_numeric_kind answer.answer_kind)
        ++ dates
        ++ told
            (not (length field.options == 0)
              && not (contains field.options value)
              && is_choice_kind answer.answer_kind)
            "Reviewed answer is not an observed option")
