-- ===== src/Fields/Unlabelled.antt =====
-- Radio buttons without a text: `_classify` of
-- backend/src/job_apply_pro/services/field_coverage.py, which builds a locator of each option's label.
use mathlib.Core.Path.{subst}
use mathlib.Core.List.{Memᴰ}
use job_apply_pro.Base.{
  option_eq, nat_eq, string_eq, keep, ◌==◌, is_some, keep-has, Outcome, ok, err, Outcome-cases,
  is_nonempty, String, ◌≡◌, sym, ◌∙◌, inl, inr, true, false, ◌&&◌, some, List, ◌∷◌,
}
use job_apply_pro.Browser.{
  control_kind_eq, radio_group_control, BrowserControlOption, BrowserObservedControl,
}
use job_apply_pro.Fields.Data.{
  field_kind_eq, permission_eq, run_state_eq, ApplicationFieldBindingRecord,
  SupervisedPortalRunSnapshot, ApplicationFieldExecution, FieldStore, FieldError, invalid_field,
  find_run, lacks_locator,
}
use job_apply_pro.Fields.Classification.{
  coverage_eq, ApplicationFieldCoverageItem, needs_user, is_satisfied, lacks_executable, classify,
}
use job_apply_pro.Fields.Coverage.{review}
use job_apply_pro.Fields.Review.{review-inv, classify_all-all}

-- A group of radio buttons that may be executed, is not yet satisfied, and begins with a button that
-- has no label.
pub record IsUnlabelled (c : BrowserObservedControl) : Type 0 where
  pub required : c.required ≡ true
  pub visible : c.visible ≡ true
  pub free : needs_user c ≡ false
  pub open_yet : is_satisfied c ≡ false
  pub located : is_some c.locator ≡ true
  pub grouped : (c.kind == radio_group_control) ≡ true
  pub first : BrowserControlOption
  pub others : List BrowserControlOption
  pub options : c.options ≡ first ∷ others
  pub blank : is_nonempty first.label ≡ false

lacks_locator-blank :
    (options others : List BrowserControlOption) (o : BrowserControlOption)
    → options ≡ o ∷ others
    → is_nonempty o.label ≡ false
    → lacks_locator options ≡ err invalid_field
unfolding lacks_locator
lacks_locator-blank options others o e blank = rw (e, blank)

lacks_executable-raises :
    (c : BrowserObservedControl) → IsUnlabelled c → lacks_executable c ≡ err invalid_field
unfolding lacks_executable
lacks_executable-raises c p =
    rw (p.located, p.grouped) (lacks_locator-blank c.options p.others p.first p.options p.blank)

classify-raises :
    (store : FieldStore) (executions : List ApplicationFieldExecution)
    (run : SupervisedPortalRunSnapshot) (c : BrowserObservedControl)
    (bindings : List ApplicationFieldBindingRecord)
    → IsUnlabelled c
    → classify store executions run c bindings ≡ err invalid_field
unfolding classify
classify-raises store executions run c bindings p =
    rw (p.free, p.open_yet, lacks_executable-raises c p)

-- Where the run's page has a required and visible group of radio buttons that has a locator, is not
-- left to the user, is not reported satisfied, and whose first button has an empty label, the review
-- of this run raises, whatever else is on the page and on record.
pub review-unlabelled :
    (casefold : String → String)
    (digest : String → SupervisedPortalRunSnapshot → List ApplicationFieldCoverageItem → String)
    (store : FieldStore) (executions : List ApplicationFieldExecution)
    (run_id application_id : String) (run : SupervisedPortalRunSnapshot)
    (c : BrowserObservedControl)
    → find_run run_id store ≡ some run
    → Memᴰ c run.observed_controls
    → IsUnlabelled c
    → (e : FieldError) × (review casefold digest store executions run_id application_id ≡ err e)
review-unlabelled casefold digest store executions run_id application_id run c found m p =
    elim (Outcome-cases (review casefold digest store executions run_id application_id)) [
      | inr raised ↦ raised
      | inl (rv, done) ↦
          let inv = review-inv casefold digest store executions run_id application_id rv done in
          let same : inv.run ≡ run = some_path (sym inv.found ∙ found) in
          let required =
            keep-has (λ c. c.required && c.visible) inv.run.observed_controls c
              (subst (λ r. Memᴰ c r.observed_controls) (sym same) m) (rw (p.required, p.visible)) in
          let (i, made) =
            classify_all-all store (keep (λ e. e.application_id == application_id) executions)
              inv.run (keep (λ b. b.application_id == application_id) store.bindings)
              (keep (λ c. c.required && c.visible) inv.run.observed_controls) inv.items c
              inv.classified required in
          absurd (
            apart i (
              sym (
                classify-raises store (keep (λ e. e.application_id == application_id) executions)
                  inv.run c (keep (λ b. b.application_id == application_id) store.bindings) p)
              ∙ made))
    ]
  where
    some_path : {x y : SupervisedPortalRunSnapshot} → some x ≡ some y → x ≡ y
    some_path e = cc

    apart :
        (i : ApplicationFieldCoverageItem)
        → ¬ (◌≡◌ {A = Outcome FieldError ApplicationFieldCoverageItem} (err invalid_field) (ok i))
    apart i e = cc
