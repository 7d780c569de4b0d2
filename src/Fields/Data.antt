-- ===== src/Fields/Data.antt =====
-- backend/src/job_apply_pro/domain/applications.py and domain/portals.py: the records that field
-- coverage and field execution read and write, with the fields that they use.
use job_apply_pro.Base.{
  if◌then◌else◌, Eq, ◌==◌, option_eq, nat_eq, string_eq, find, Outcome, ok, err, is_nonempty, ℕ,
  String, Bool, true, false, not, ◌&&◌, Option, none, some, List, [], ◌∷◌,
}
use job_apply_pro.Browser.{
  LocatorStrategy, role_strategy, label_strategy, BrowserActionKind, BrowserControlKind,
  text_control, text_area_control, email_control, telephone_control, number_control, date_control,
  select_control, radio_group_control, checkbox_control, file_upload_control, signature_control,
  disclosure_control, button_control, link_control, custom_control, control_kind_eq,
  SemanticLocator, BrowserControlOption, BrowserObservedControl,
}

pub data PortalFieldControlKind : Type 0 where
  text_field text_area_field email_field telephone_field number_field date_field select_field
        radio_group_field checkbox_field file_upload_field signature_field disclosure_field
        custom_field :
      PortalFieldControlKind

pub PortalFieldControlKind-discrete : Discrete PortalFieldControlKind
PortalFieldControlKind-discrete = hlevel

instance unfoldable pub field_kind_eq : Eq PortalFieldControlKind
unfolding PortalFieldControlKind-discrete
field_kind_eq = record { dec = PortalFieldControlKind-discrete }

-- `PortalFieldControlKind(kind.value)`: the member of the same name, which buttons and links lack.
unfoldable pub portal_kind : BrowserControlKind → Option PortalFieldControlKind
portal_kind text_control = some text_field
portal_kind text_area_control = some text_area_field
portal_kind email_control = some email_field
portal_kind telephone_control = some telephone_field
portal_kind number_control = some number_field
portal_kind date_control = some date_field
portal_kind select_control = some select_field
portal_kind radio_group_control = some radio_group_field
portal_kind checkbox_control = some checkbox_field
portal_kind file_upload_control = some file_upload_field
portal_kind signature_control = some signature_field
portal_kind disclosure_control = some disclosure_field
portal_kind custom_control = some custom_field
portal_kind button_control = none
portal_kind link_control = none

-- `kind.value`
unfoldable pub control_value : BrowserControlKind → String
control_value text_control = "TEXT"
control_value text_area_control = "TEXT_AREA"
control_value email_control = "EMAIL"
control_value telephone_control = "TELEPHONE"
control_value number_control = "NUMBER"
control_value date_control = "DATE"
control_value select_control = "SELECT"
control_value radio_group_control = "RADIO_GROUP"
control_value checkbox_control = "CHECKBOX"
control_value file_upload_control = "FILE_UPLOAD"
control_value signature_control = "SIGNATURE"
control_value disclosure_control = "DISCLOSURE"
control_value button_control = "BUTTON"
control_value link_control = "LINK"
control_value custom_control = "CUSTOM"

-- The kinds that both services handle: `_EXECUTABLE_KINDS` and `_SUPPORTED_CONTROL_KINDS`.
abbrev pub executable_kinds : List BrowserControlKind
executable_kinds =
    text_control ∷ text_area_control ∷ email_control ∷ telephone_control ∷ number_control
    ∷ date_control ∷ select_control ∷ radio_group_control ∷ checkbox_control ∷ []

pub data FieldAutomationPermission : Type 0 where
  prohibited approval_needed autofill_allowed : FieldAutomationPermission

pub FieldAutomationPermission-discrete : Discrete FieldAutomationPermission
FieldAutomationPermission-discrete = hlevel

instance unfoldable pub permission_eq : Eq FieldAutomationPermission
unfolding FieldAutomationPermission-discrete
permission_eq = record { dec = FieldAutomationPermission-discrete }

pub data SupervisedPortalRunState : Type 0 where
  awaiting_user run_intervention run_ready run_uncertain run_confirmed run_stopped :
      SupervisedPortalRunState

pub SupervisedPortalRunState-discrete : Discrete SupervisedPortalRunState
SupervisedPortalRunState-discrete = hlevel

instance unfoldable pub run_state_eq : Eq SupervisedPortalRunState
unfolding SupervisedPortalRunState-discrete
run_state_eq = record { dec = SupervisedPortalRunState-discrete }

pub record Application : Type 0 where
  pub id : String
  pub workflow_id : String

pub data ApplicationAnswerStatus : Type 0 where
  needs_review drafted reviewed promoted legacy_review : ApplicationAnswerStatus

pub data ApplicationAnswerKind : Type 0 where
  exact_answer short_text long_text number_answer date_answer yes_no multiple_choice salary
        availability technology_experience behavioral employer_specific :
      ApplicationAnswerKind

-- Of the validation rules, the choices where they are a list.
pub record ApplicationAnswerRecord : Type 0 where
  pub id : String
  pub application_id : String
  pub revision : ℕ
  pub encrypted_question : Option String
  pub canonical_field : String
  pub answer_kind : ApplicationAnswerKind
  pub choices : Option (List String)
  pub encrypted_value : String
  pub status : ApplicationAnswerStatus

pub record ApplicationFieldBindingRecord : Type 0 where
  pub id : String
  pub application_id : String
  pub application_answer_id : String
  pub answer_revision : ℕ
  pub portal : String
  pub page_fingerprint : String
  pub control_key : String
  pub control_kind : PortalFieldControlKind
  pub automation_permission : FieldAutomationPermission
  pub review_fingerprint : String

-- The portal stands for its text, `portal.value`.
pub record SupervisedPortalRunSnapshot : Type 0 where
  pub id : String
  pub portal : String
  pub workflow_id : String
  pub browser_session_id : String
  pub state : SupervisedPortalRunState
  pub page_fingerprint : String
  pub observed_controls : List BrowserObservedControl

pub record ApplicationFieldExecution : Type 0 where
  pub id : String
  pub binding_id : String
  pub application_id : String
  pub application_answer_id : String
  pub answer_revision : ℕ
  pub supervised_run_id : String
  pub browser_session_id : String
  pub portal : String
  pub page_fingerprint_before : String
  pub page_fingerprint_after : String
  pub control_key : String
  pub action_kind : BrowserActionKind
  pub verified : Bool
  pub action_fingerprint : String
  pub error : Option String
  pub created_at : ℕ

-- What the repositories hold for the services.
pub record FieldStore : Type 0 where
  pub bindings : List ApplicationFieldBindingRecord
  pub answers : List ApplicationAnswerRecord
  pub applications : List Application
  pub runs : List SupervisedPortalRunSnapshot

-- `LookupError`, `ValueError` of the coverage review, `FieldExecutionPolicyError`,
-- `FieldExecutionConflictError`, pydantic's refusal of a field, the database's refusal of a second key,
-- and what the browser, the binding service and the cipher raise.
pub data FieldError : Type 0 where
  missing refused policy conflicting invalid_field taken_key outside : FieldError

unfoldable pub find_run : String → FieldStore → Option SupervisedPortalRunSnapshot
find_run id store = find (λ r. r.id == id) store.runs

unfoldable pub find_application_row : String → FieldStore → Option Application
find_application_row id store = find (λ a. a.id == id) store.applications

unfoldable pub find_answer : String → FieldStore → Option ApplicationAnswerRecord
find_answer id store = find (λ a. a.id == id) store.answers

unfoldable pub find_binding : String → FieldStore → Option ApplicationFieldBindingRecord
find_binding id store = find (λ b. b.id == id) store.bindings

-- `option.locator in {…}`: an exact locator by label or by role, for the option's own label.
unfoldable pub is_option_locator : String → Option SemanticLocator → Bool
is_option_locator text none = false
is_option_locator text (some l) = l.exact && by_strategy l.strategy
  where
    by_strategy : LocatorStrategy → Bool
    by_strategy label_strategy = l.value == text && l.name == none
    by_strategy role_strategy = l.value == "radio" && l.name == some text
    by_strategy _ = false

-- Whether some option lacks such a locator. The set that it is looked up in is built for each option
-- in turn, and the model of a locator does not accept an empty label.
unfoldable pub lacks_locator : List BrowserControlOption → Outcome FieldError Bool
lacks_locator [] = ok false
lacks_locator (o ∷ rest) =
    if not (is_nonempty o.label)
    then err invalid_field
    else if is_option_locator o.label o.locator
    then lacks_locator rest
    else ok true
