-- ===== src/Fields/Automatic.antt =====
-- A control that a review calls ready against `_validate_control`: `_classify` of
-- backend/src/job_apply_pro/services/field_coverage.py and
-- backend/src/job_apply_pro/services/field_execution.py.
use job_apply_pro.Fields.Prepared.{IsAutomatic}
use mathlib.Core.Path.{subst}
use job_apply_pro.Base.{
  option_eq, nat_eq, string_eq, ok, ◌≡◌, true, false, some, List, if◌then◌else◌, ◌==◌, refl, sym,
  ap, ◌∙◌, Bool, not, Outcome, Bool-cases, contains, eq_of_==, is_some, inl, inr, arith,
}
use job_apply_pro.Browser.{
  control_kind_eq, BrowserObservedControl, BrowserControlKind, text_control, text_area_control,
  email_control, telephone_control, number_control, date_control, select_control,
  radio_group_control, checkbox_control, file_upload_control, signature_control, disclosure_control,
  button_control, link_control, custom_control,
}
use job_apply_pro.Fields.Data.{
  field_kind_eq, permission_eq, run_state_eq, ApplicationFieldBindingRecord,
  SupervisedPortalRunSnapshot, FieldStore, FieldError, portal_kind, executable_kinds, lacks_locator,
}
use job_apply_pro.Fields.Classification.{
  coverage_eq, ApplicationFieldCoverageItem, needs_user, lacks_executable, is_current,
  kind_or_custom,
}
use job_apply_pro.Fields.Ready.{IsReady}

executable-kind :
    (k : BrowserControlKind)
    → contains executable_kinds k ≡ true
    → portal_kind k ≡ some (kind_or_custom k)
unfolding portal_kind control_kind_eq
executable-kind text_control h = refl
executable-kind text_area_control h = refl
executable-kind email_control h = refl
executable-kind telephone_control h = refl
executable-kind number_control h = refl
executable-kind date_control h = refl
executable-kind select_control h = refl
executable-kind radio_group_control h = refl
executable-kind checkbox_control h = refl
executable-kind file_upload_control h = refl
executable-kind signature_control h = refl
executable-kind disclosure_control h = refl
executable-kind custom_control h = refl
executable-kind button_control h = cc
executable-kind link_control h = cc

pub is_current-inv :
    (run : SupervisedPortalRunSnapshot) (c : BrowserObservedControl)
    (b : ApplicationFieldBindingRecord)
    → is_current run c b ≡ true
    → (b.page_fingerprint ≡ run.page_fingerprint)
      × (b.portal ≡ run.portal)
      × (b.control_kind ≡ kind_or_custom c.kind)
unfolding is_current
is_current-inv run c b h = (
  eq_of_== b.page_fingerprint run.page_fingerprint (ground arith),
  eq_of_== b.portal run.portal (ground arith),
  eq_of_== b.control_kind (kind_or_custom c.kind) (ground arith),
)

lacks_executable-inv :
    (c : BrowserObservedControl)
    → lacks_executable c ≡ ok false
    → (is_some c.locator ≡ true)
      × ((if c.kind == radio_group_control then lacks_locator c.options else ok false) ≡ ok false)
unfolding lacks_executable
lacks_executable-inv c h = elim (Bool-cases (is_some c.locator)) [
  | inl located ↦ (
    located,
    subst
        (λ b.
          (if not b
            then ok true
            else if c.kind == radio_group_control
            then lacks_locator c.options
            else ok false)
          ≡ ok false)
        located h,
  )
  | inr lost ↦ absurd (
      never (
        subst
          (λ b.
            (if not b
              then ok true
              else if c.kind == radio_group_control
              then lacks_locator c.options
              else ok false)
            ≡ ok false)
          lost h))
]
  where
    never : ¬ (◌≡◌ {A = Outcome FieldError Bool} (ok true) (ok false))
    never e = cc

-- A control that the review calls ready passes `_validate_control` with its binding.
pub ready-IsAutomatic :
    (store : FieldStore) (run : SupervisedPortalRunSnapshot) (c : BrowserObservedControl)
    (bindings : List ApplicationFieldBindingRecord) (i : ApplicationFieldCoverageItem)
    → c.visible ≡ true
    → (ready : IsReady store run c bindings i) → IsAutomatic ready.binding c
unfolding needs_user
ready-IsAutomatic store run c bindings i visible ready =
    let free = ready.free in
    let supported : contains executable_kinds c.kind ≡ true = ground arith in
    let (located, locatable) = lacks_executable-inv c ready.executable in
    let (same_page, same_portal, same_kind) = is_current-inv run c ready.binding ready.current in
    record {
      supported = supported;
      usable = ground arith;
      single = ground arith;
      visible = visible;
      unattested = ground arith;
      same_kind = executable-kind c.kind supported ∙ ap some (sym same_kind);
      located = located;
      locatable = locatable;
    }
