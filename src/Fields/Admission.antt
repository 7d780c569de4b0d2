-- ===== src/Fields/Admission.antt =====
-- What an approved field needs is also enough: the checks of `execute` and `_validate_control` of
-- backend/src/job_apply_pro/services/field_execution.py pass.
use job_apply_pro.Browser.{BrowserObservedControl, radio_group_control}
use job_apply_pro.Base.{
  if◌then◌else◌, ltb, Eq, ◌==◌, contains, ==_refl, option_eq, nat_eq, string_eq, is_some, ok,
  raise_if-passes, or_raise-passes, >>=-passes, ℕ, String, ◌≡◌, refl, ap, ◌∙◌, false, not, ◌&&◌,
  ◌||◌, some, arith,
}
use job_apply_pro.Browser.{control_kind_eq}
use job_apply_pro.Fields.Data.{
  field_kind_eq, field_kind_eq, portal_kind, executable_kinds, autofill_allowed, permission_eq,
  awaiting_user, run_state_eq, ApplicationAnswerRecord, ApplicationFieldBindingRecord,
  SupervisedPortalRunSnapshot, FieldStore, missing, policy, conflicting, find_run,
  find_application_row, find_answer, find_binding, lacks_locator,
}
use job_apply_pro.Fields.Execution.{
  ApplicationFieldExecutionApproval, FieldServices, validate_control, admit_binding, admit_run,
  admit_answer, admit,
}
use job_apply_pro.Fields.Approval.{IsApproved, IsOnPage, IsBoundAnswer}
use job_apply_pro.Fields.Prepared.{IsAutomatic}

pub differs-same {ℓ} : {A : Type ℓ} ⦃e : Eq A⦄ (a b : A) → a ≡ b → not (a == b) ≡ false
differs-same a b h = rw h (ap not (==_refl b))

admit_binding-passes :
    (services : FieldServices) (store : FieldStore) (approval : ApplicationFieldExecutionApproval)
    (b : ApplicationFieldBindingRecord)
    → IsApproved services store approval b
    → admit_binding services store approval ≡ ok b
unfolding admit_binding
admit_binding-passes services store approval b p =
    raise_if-passes (not services.enabled) policy _ (ap not p.enabled)
    ∙ raise_if-passes (not (approval.confirmation_phrase == "EXECUTE APPROVED FIELD")) policy _
        (differs-same approval.confirmation_phrase "EXECUTE APPROVED FIELD" p.phrase)
    ∙ or_raise-passes (find_binding approval.binding_id store) missing _ b p.bound
    ∙ raise_if-passes (not (b.automation_permission == autofill_allowed)) policy _
        (differs-same b.automation_permission autofill_allowed p.allowed)

admit_run-passes :
    (services : FieldServices) (store : FieldStore) (run_id : String)
    (approval : ApplicationFieldExecutionApproval) (b : ApplicationFieldBindingRecord)
    (run : SupervisedPortalRunSnapshot)
    → IsOnPage store run_id approval b run
    → admit_run services store run_id approval b ≡ ok run
unfolding admit_run
admit_run-passes services store run_id approval b run p =
    or_raise-passes (find_run run_id store) missing _ run p.found
    ∙ raise_if-passes (not (run.state == awaiting_user)) policy _
        (differs-same run.state awaiting_user p.waiting)
    ∙ raise_if-passes (not (approval.review_page_fingerprint == run.page_fingerprint)) conflicting _
        (differs-same approval.review_page_fingerprint run.page_fingerprint p.reviewed)
    ∙ raise_if-passes (not (b.page_fingerprint == run.page_fingerprint)) conflicting _
        (differs-same b.page_fingerprint run.page_fingerprint p.same_page)
    ∙ raise_if-passes (not (b.portal == run.portal)) conflicting _
        (differs-same b.portal run.portal p.same_portal)

admit_answer-passes :
    (services : FieldServices) (store : FieldStore) (b : ApplicationFieldBindingRecord)
    (run : SupervisedPortalRunSnapshot) (answer : ApplicationAnswerRecord)
    → IsBoundAnswer store b run answer
    → admit_answer services store b run ≡ ok answer
unfolding admit_answer
admit_answer-passes services store b run answer p =
    or_raise-passes (find_application_row b.application_id store) missing _ p.application p.applied
    ∙ raise_if-passes (not (p.application.workflow_id == run.workflow_id)) conflicting _
        (differs-same p.application.workflow_id run.workflow_id p.same_workflow)
    ∙ or_raise-passes (find_answer b.application_answer_id store) missing _ answer p.answered
    ∙ raise_if-passes
        (not (answer.application_id == p.application.id && answer.revision == b.answer_revision))
        conflicting _
        (both_same answer.application_id p.application.id answer.revision b.answer_revision
          p.same_application p.same_revision)
  where
    both_same : (s t : String) (n m : ℕ) → s ≡ t → n ≡ m → not (s == t && n == m) ≡ false
    both_same s t n m e e' = rw (e, e', ==_refl t, ==_refl m)

-- `execute` admits an approval exactly where the binding is approved for autofill, the run waits on
-- the page that was reviewed and bound, and the answer is the bound one.
pub admit-passes :
    (services : FieldServices) (store : FieldStore) (run_id : String)
    (approval : ApplicationFieldExecutionApproval) (b : ApplicationFieldBindingRecord)
    (run : SupervisedPortalRunSnapshot) (answer : ApplicationAnswerRecord)
    → IsApproved services store approval b
    → IsOnPage store run_id approval b run
    → IsBoundAnswer store b run answer
    → admit services store run_id approval ≡ ok (b, run, answer)
unfolding admit
admit-passes services store run_id approval b run answer p q r =
    >>=-passes (admit_binding services store approval) _ b
      (admit_binding-passes services store approval b p)
    ∙ >>=-passes (admit_run services store run_id approval b) _ run
        (admit_run-passes services store run_id approval b run q)
    ∙ >>=-passes (admit_answer services store b run) _ answer
        (admit_answer-passes services store b run answer r)

pub validate_control-passes :
    (b : ApplicationFieldBindingRecord) (c : BrowserObservedControl)
    → IsAutomatic b c
    → validate_control b c ≡ ok tt
unfolding validate_control
validate_control-passes b c p =
    raise_if-passes (not (contains executable_kinds c.kind)) policy _ (ap not p.supported)
    ∙ raise_if-passes (not (is_some c.locator)) policy _ (ap not p.located)
    ∙ raise_if-passes (c.disabled || c.read_only || c.busy || c.inert || c.accessibility_hidden)
        policy _ p.usable
    ∙ raise_if-passes (ltb 1 c.repeat_count) policy _ (ground (arith, p.single))
    ∙ raise_if-passes (not c.visible) policy _ (ap not p.visible)
    ∙ raise_if-passes c.legal_attestation policy _ p.unattested
    ∙ raise_if-passes (not (portal_kind c.kind == some b.control_kind)) conflicting _
        (differs-same (portal_kind c.kind) (some b.control_kind) p.same_kind)
    ∙ >>=-passes (if c.kind == radio_group_control then lacks_locator c.options else ok false) _
        false p.locatable
    ∙ refl
