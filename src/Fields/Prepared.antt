-- ===== src/Fields/Prepared.antt =====
-- What a prepared action has gone through: `_validate_control` and the live page in `execute` of
-- backend/src/job_apply_pro/services/field_execution.py.
use Prim.Native.String.{◌++◌ as text_append}
use job_apply_pro.Base.{
  ltb, ◌==◌, contains, option_eq, nat_eq, string_eq, keep, is_some, ok, or_raise, >>=-eq-ok,
  raise_if-inv, ◌≤◌, String, ◌≡◌, true, false, not, ◌||◌, Option, some, arith, ap, ◌∙◌,
  if◌then◌else◌, ◌>>◌, raise_if, Bool,
}
use job_apply_pro.Browser.{
  control_kind_eq, BrowserAction, BrowserObservedControl, BrowserObservation, radio_group_control,
}
use job_apply_pro.Fields.Data.{
  field_kind_eq, portal_kind, executable_kinds, permission_eq, run_state_eq,
  ApplicationAnswerRecord, ApplicationFieldBindingRecord, SupervisedPortalRunSnapshot, policy,
  conflicting, invalid_field, FieldError, lacks_locator, PortalFieldControlKind,
}
use job_apply_pro.Fields.Classification.{coverage_eq}
use job_apply_pro.Fields.Execution.{
  FieldServices, validate_control, observed_field, prepare, ApplicationFieldBindingPreview,
}
use job_apply_pro.Fields.Action.{sole, action_of}
use job_apply_pro.Fields.Approval.{or_raise-inv, not-not, same_by}

-- The control passes every check of `_validate_control`.
pub record IsAutomatic (b : ApplicationFieldBindingRecord) (c : BrowserObservedControl)
    : Type 0 where
  pub supported : contains executable_kinds c.kind ≡ true
  pub usable : (c.disabled || c.read_only || c.busy || c.inert || c.accessibility_hidden) ≡ false
  pub single : c.repeat_count ≤ 1
  pub visible : c.visible ≡ true
  pub unattested : c.legal_attestation ≡ false
  pub same_kind : portal_kind c.kind ≡ some b.control_kind
  pub located : is_some c.locator ≡ true
  pub locatable :
      (if c.kind == radio_group_control then lacks_locator c.options else ok false) ≡ ok false

validate_control-inv :
    (b : ApplicationFieldBindingRecord) (c : BrowserObservedControl) (x : Unit {0})
    → validate_control b c ≡ ok x
    → IsAutomatic b c
unfolding validate_control
validate_control-inv b c x h =
    let (supported, h₁) = raise_if-inv (not (contains executable_kinds c.kind)) policy _ _ h in
    let (located, h₂) = raise_if-inv (not (is_some c.locator)) policy _ _ h₁ in
    let (usable, h₃) =
      raise_if-inv (c.disabled || c.read_only || c.busy || c.inert || c.accessibility_hidden) policy
        _ _ h₂ in
    let (single, h₄) = raise_if-inv (ltb 1 c.repeat_count) policy _ _ h₃ in
    let (visible, h₅) = raise_if-inv (not c.visible) policy _ _ h₄ in
    let (unattested, h₆) = raise_if-inv c.legal_attestation policy _ _ h₅ in
    let (same_kind, h₇) =
      raise_if-inv (not (portal_kind c.kind == some b.control_kind)) conflicting _ _ h₆ in
    let (lacking, looked, h₈) =
      >>=-eq-ok (if c.kind == radio_group_control then lacks_locator c.options else ok false) _
        h₇ in
    let (found, h₉) = raise_if-inv lacking policy (ok tt) x (passed lacking h₈) in
    record {
      supported = not-not supported;
      usable = usable;
      single = ground (arith, single);
      visible = not-not visible;
      unattested = unattested;
      same_kind = same_by (portal_kind c.kind) (some b.control_kind) same_kind;
      located = not-not located;
      locatable = looked ∙ ap ok found;
    }
  where
    passed :
        (lacking : Bool)
        → raise_if {E = FieldError} lacking policy ≡ ok x
        → (raise_if lacking policy >> ok tt) ≡ ok x
    passed true h = cc
    passed false h = h

-- The live page is the reviewed one, has one control with the bound key, which may be executed; a
-- new preview of the answer on this control is compatible and has the fingerprint of the binding's
-- review; and the action is that of the control for the decrypted answer.
pub record IsPrepared (services : FieldServices) (b : ApplicationFieldBindingRecord)
    (run : SupervisedPortalRunSnapshot) (answer : ApplicationAnswerRecord)
    (observed : Option BrowserObservation) (action : BrowserAction) : Type 0 where
  pub page : BrowserObservation
  pub shown : observed ≡ some page
  pub unchanged : page.page_fingerprint ≡ run.page_fingerprint
  pub control : BrowserObservedControl
  pub only : sole (keep (λ c. c.control_key == b.control_key) page.controls) ≡ some control
  pub automatic : IsAutomatic b control
  pub kind : PortalFieldControlKind
  pub kinded : portal_kind control.kind ≡ some kind
  pub preview : ApplicationFieldBindingPreview
  pub previewed :
      services.preview answer.id (observed_field services.casefold run control kind) ≡ ok preview
  pub compatible : preview.compatible ≡ true
  pub same_review : preview.review_fingerprint ≡ b.review_fingerprint
  pub value : String
  pub decrypted :
      services.decrypt answer.encrypted_value
        (text_append "application-answer:" (text_append answer.id ":value"))
      ≡ ok value
  pub made : action_of services.strip services.casefold control value ≡ ok action

pub prepare-inv :
    (services : FieldServices) (b : ApplicationFieldBindingRecord)
    (run : SupervisedPortalRunSnapshot) (answer : ApplicationAnswerRecord)
    (observed : Option BrowserObservation) (action : BrowserAction)
    → prepare services b run answer observed ≡ ok action
    → IsPrepared services b run answer observed action
unfolding prepare
prepare-inv services b run answer observed action h =
    let (page, shown, h₁) = >>=-eq-ok (or_raise observed conflicting) _ h in
    let (unchanged, h₂) =
      raise_if-inv (not (page.page_fingerprint == run.page_fingerprint)) conflicting _ _ h₁ in
    let (c, only, h₃) =
      >>=-eq-ok
        (or_raise (sole (keep (λ c. c.control_key == b.control_key) page.controls)) conflicting) _
        h₂ in
    let (x, valid, h₄) = >>=-eq-ok (validate_control b c) _ h₃ in
    let (kind, kinded, h₅) = >>=-eq-ok (or_raise (portal_kind c.kind) invalid_field) _ h₄ in
    let (preview, previewed, h₆) =
      >>=-eq-ok (services.preview answer.id (observed_field services.casefold run c kind)) _ h₅ in
    let (compatible, h₇) =
      raise_if-inv
        (not preview.compatible || not (preview.review_fingerprint == b.review_fingerprint))
        conflicting _ _ h₆ in
    let (value, decrypted, h₈) =
      >>=-eq-ok
        (services.decrypt answer.encrypted_value
          (text_append "application-answer:" (text_append answer.id ":value")))
        _ h₇ in
    record {
      page = page;
      shown = or_raise-inv observed conflicting page shown;
      unchanged = same_by page.page_fingerprint run.page_fingerprint unchanged;
      control = c;
      only =
          or_raise-inv (sole (keep (λ c. c.control_key == b.control_key) page.controls)) conflicting
            c only;
      automatic = validate_control-inv b c x valid;
      kind = kind;
      kinded = or_raise-inv (portal_kind c.kind) invalid_field kind kinded;
      preview = preview;
      previewed = previewed;
      compatible = not-not (ground arith);
      same_review = same_by preview.review_fingerprint b.review_fingerprint (ground arith);
      value = value;
      decrypted = decrypted;
      made = h₈;
    }
