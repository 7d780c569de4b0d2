-- ===== src/Browser.antt =====
-- backend/src/job_apply_pro/domain/browser.py: the actions on a page, with their field limits, and the
-- page as it is observed. Of a control the model has the fields that the services read; a number or a
-- date that is only copied is a text.
pub mod Samples
use job_apply_pro.Base.{
  leb, Eq, option_eq, nat_eq, string_eq, all, char_count, is_nonempty, ℕ, String, Bool, true, ◌&&◌,
  Option, none, some, List,
}

pub data LocatorStrategy : Type 0 where
  role_strategy label_strategy text_strategy test_id css xpath accessibility coordinate :
      LocatorStrategy

pub data BrowserActionKind : Type 0 where
  navigate click fill select_option select_label check uncheck upload wait_for screenshot :
      BrowserActionKind

pub data BrowserControlKind : Type 0 where
  text_control text_area_control email_control telephone_control number_control date_control
        select_control radio_group_control checkbox_control file_upload_control signature_control
        disclosure_control button_control link_control custom_control :
      BrowserControlKind

pub BrowserControlKind-discrete : Discrete BrowserControlKind
BrowserControlKind-discrete = hlevel

instance unfoldable pub control_kind_eq : Eq BrowserControlKind
unfolding BrowserControlKind-discrete
control_kind_eq = record { dec = BrowserControlKind-discrete }

pub data VerificationKind : Type 0 where
  no_verification url_contains title_contains text_visible locator_visible value_equals
        selected_label_equals checked_equals :
      VerificationKind

pub data BrowserPermission : Type 0 where
  read standard elevated : BrowserPermission

pub data ConfirmationState : Type 0 where
  confirmation_not_required confirmation_required confirmed : ConfirmationState

pub record SemanticLocator : Type 0 where
  pub strategy : LocatorStrategy
  pub value : String
  pub name : Option String
  pub exact : Bool

pub record BrowserVerification : Type 0 where
  pub kind : VerificationKind
  pub value : Option String
  pub locator : Option SemanticLocator

-- The coordinates, the address, the file and the retry policy of an action are left at their defaults
-- by every service that is modelled.
pub record BrowserAction : Type 0 where
  pub kind : BrowserActionKind
  pub locator : SemanticLocator
  pub value : Option String
  pub preconditions : List BrowserVerification
  pub intended_result : String
  pub verification : BrowserVerification
  pub permission : BrowserPermission
  pub confirmation : ConfirmationState
  pub sensitive_value : Bool

pub record BrowserControlOption : Type 0 where
  pub value : String
  pub label : String
  pub locator : Option SemanticLocator

pub record BrowserObservedControl : Type 0 where
  pub control_key : String
  pub kind : BrowserControlKind
  pub tag : String
  pub input_type : String
  pub role : String
  pub element_id : String
  pub field_name : String
  pub group_label : String
  pub label : String
  pub text : String
  pub canonical_field : String
  pub repeat_count : ℕ
  pub required : Bool
  pub native_required : Bool
  pub disabled : Bool
  pub read_only : Bool
  pub busy : Bool
  pub inert : Bool
  pub accessibility_hidden : Bool
  pub visible : Bool
  pub will_validate : Bool
  pub constraint_satisfied : Bool
  pub accessible_invalid : Bool
  pub legal_attestation : Bool
  pub character_limit : Option ℕ
  pub minimum_number : Option String
  pub maximum_number : Option String
  pub earliest_date : Option String
  pub latest_date : Option String
  pub options : List BrowserControlOption
  pub locator : Option SemanticLocator

pub record BrowserObservation : Type 0 where
  pub controls : List BrowserObservedControl
  pub page_type : String
  pub page_fingerprint : String
  pub visible_text : String

pub record BrowserActionResult : Type 0 where
  pub action : BrowserAction
  pub verified : Bool
  pub observation : BrowserObservation
  pub error : Option String

-- `min_length=1, max_length=n`
abbrev pub is_filled : ℕ → String → Bool
is_filled n s = is_nonempty s && leb (char_count s) n

abbrev pub fits : ℕ → Option String → Bool
fits n none = true
fits n (some s) = leb (char_count s) n

unfoldable pub is_locator : SemanticLocator → Bool
is_locator l = is_filled 500 l.value && fits 300 l.name

-- A locator inside is of its own model, and was built before.
unfoldable pub is_verification : BrowserVerification → Bool
is_verification v = fits 500 v.value

-- Whether the models of the action accept these fields.
unfoldable pub is_action : BrowserAction → Bool
is_action a =
    is_locator a.locator
    && is_filled 500 a.intended_result
    && fits 10000 a.value
    && is_verification a.verification
    && all is_verification a.preconditions
