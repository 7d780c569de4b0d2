-- ===== src/Fields/Approval.antt =====
-- What stands behind an action on a field: `execute` and `_validate_control` of
-- backend/src/job_apply_pro/services/field_execution.py.
use mathlib.Core.Path.{subst}
use job_apply_pro.Base.{
  ◌==◌, option_eq, nat_eq, string_eq, ok, or_raise, >>=-eq-ok, raise_if-inv, String, ◌≡◌, true, not,
  ◌&&◌, Option, none, some, Eq, eq_of_==, Outcome, Bool, false, arith,
}
use job_apply_pro.Browser.{control_kind_eq}
use job_apply_pro.Fields.Data.{
  field_kind_eq, autofill_allowed, permission_eq, awaiting_user, run_state_eq, Application,
  ApplicationAnswerRecord, ApplicationFieldBindingRecord, SupervisedPortalRunSnapshot, FieldStore,
  missing, policy, conflicting, find_run, find_application_row, find_answer, find_binding,
  FieldError,
}
use job_apply_pro.Fields.Classification.{coverage_eq}
use job_apply_pro.Fields.Execution.{
  ApplicationFieldExecutionApproval, FieldServices, admit, admit_binding, admit_run, admit_answer,
}

-- The binding was approved for autofill, and the service is switched on.
pub record IsApproved (services : FieldServices) (store : FieldStore)
    (approval : ApplicationFieldExecutionApproval) (b : ApplicationFieldBindingRecord)
    : Type 0 where
  pub enabled : services.enabled ≡ true
  pub phrase : approval.confirmation_phrase ≡ "EXECUTE APPROVED FIELD"
  pub bound : find_binding approval.binding_id store ≡ some b
  pub allowed : b.automation_permission ≡ autofill_allowed

-- The run waits for the user, on the page that was reviewed and bound.
pub record IsOnPage (store : FieldStore) (run_id : String)
    (approval : ApplicationFieldExecutionApproval) (b : ApplicationFieldBindingRecord)
    (run : SupervisedPortalRunSnapshot) : Type 0 where
  pub found : find_run run_id store ≡ some run
  pub waiting : run.state ≡ awaiting_user
  pub reviewed : approval.review_page_fingerprint ≡ run.page_fingerprint
  pub same_page : b.page_fingerprint ≡ run.page_fingerprint
  pub same_portal : b.portal ≡ run.portal

-- The answer is the one that was bound, unchanged, of the application that the run is for.
pub record IsBoundAnswer (store : FieldStore) (b : ApplicationFieldBindingRecord)
    (run : SupervisedPortalRunSnapshot) (answer : ApplicationAnswerRecord) : Type 0 where
  pub application : Application
  pub applied : find_application_row b.application_id store ≡ some application
  pub same_workflow : application.workflow_id ≡ run.workflow_id
  pub answered : find_answer b.application_answer_id store ≡ some answer
  pub same_application : answer.application_id ≡ application.id
  pub same_revision : answer.revision ≡ b.answer_revision

pub or_raise-inv : {E A : Type 0} (o : Option A) (e : E) (a : A) → or_raise o e ≡ ok a → o ≡ some a
or_raise-inv none e a h = cc
or_raise-inv (some x) e a h = cc

pub not-not : {b : Bool} → not b ≡ false → b ≡ true
not-not {b} h = ground arith

pub same_by {ℓ} : {A : Type ℓ} ⦃e : Eq A⦄ (a b : A) → not (a == b) ≡ false → a ≡ b
same_by a b h = eq_of_== a b (not-not h)

both {ℓ} :
    {A : Type ℓ} ⦃e : Eq A⦄ (a b : A) (c : Bool) → not (a == b && c) ≡ false → (a ≡ b) × (c ≡ true)
both a b c h = (eq_of_== a b (ground arith), ground arith)

pub ok-path : {A : Type 0} (a b : A) → ◌≡◌ {A = Outcome FieldError A} (ok a) (ok b) → a ≡ b
ok-path a b h = cc

admit_binding-inv :
    (services : FieldServices) (store : FieldStore) (approval : ApplicationFieldExecutionApproval)
    (b : ApplicationFieldBindingRecord)
    → admit_binding services store approval ≡ ok b
    → IsApproved services store approval b
unfolding admit_binding
admit_binding-inv services store approval b h =
    let (on, h₁) = raise_if-inv (not services.enabled) policy _ _ h in
    let (phrase, h₂) =
      raise_if-inv (not (approval.confirmation_phrase == "EXECUTE APPROVED FIELD")) policy _ _ h₁ in
    let (b', bound, h₃) =
      >>=-eq-ok (or_raise (find_binding approval.binding_id store) missing) _ h₂ in
    let (allowed, h₄) =
      raise_if-inv (not (b'.automation_permission == autofill_allowed)) policy _ _ h₃ in
    let made : IsApproved services store approval b' = record {
      enabled = not-not on;
      phrase = same_by approval.confirmation_phrase "EXECUTE APPROVED FIELD" phrase;
      bound = or_raise-inv (find_binding approval.binding_id store) missing b' bound;
      allowed = same_by b'.automation_permission autofill_allowed allowed;
    } in
    subst (λ x. IsApproved services store approval x) (ok-path b' b h₄) made

admit_run-inv :
    (services : FieldServices) (store : FieldStore) (run_id : String)
    (approval : ApplicationFieldExecutionApproval) (b : ApplicationFieldBindingRecord)
    (run : SupervisedPortalRunSnapshot)
    → admit_run services store run_id approval b ≡ ok run
    → IsOnPage store run_id approval b run
unfolding admit_run
admit_run-inv services store run_id approval b run h =
    let (run', found, h₁) = >>=-eq-ok (or_raise (find_run run_id store) missing) _ h in
    let (waiting, h₂) = raise_if-inv (not (run'.state == awaiting_user)) policy _ _ h₁ in
    let (reviewed, h₃) =
      raise_if-inv (not (approval.review_page_fingerprint == run'.page_fingerprint)) conflicting _ _
        h₂ in
    let (same_page, h₄) =
      raise_if-inv (not (b.page_fingerprint == run'.page_fingerprint)) conflicting _ _ h₃ in
    let (same_portal, h₅) = raise_if-inv (not (b.portal == run'.portal)) conflicting _ _ h₄ in
    let made : IsOnPage store run_id approval b run' = record {
      found = or_raise-inv (find_run run_id store) missing run' found;
      waiting = same_by run'.state awaiting_user waiting;
      reviewed = same_by approval.review_page_fingerprint run'.page_fingerprint reviewed;
      same_page = same_by b.page_fingerprint run'.page_fingerprint same_page;
      same_portal = same_by b.portal run'.portal same_portal;
    } in
    subst (λ x. IsOnPage store run_id approval b x) (ok-path run' run h₅) made

admit_answer-inv :
    (services : FieldServices) (store : FieldStore) (b : ApplicationFieldBindingRecord)
    (run : SupervisedPortalRunSnapshot) (answer : ApplicationAnswerRecord)
    → admit_answer services store b run ≡ ok answer
    → IsBoundAnswer store b run answer
unfolding admit_answer
admit_answer-inv services store b run answer h =
    let (application, applied, h₁) =
      >>=-eq-ok (or_raise (find_application_row b.application_id store) missing) _ h in
    let (same_workflow, h₂) =
      raise_if-inv (not (application.workflow_id == run.workflow_id)) conflicting _ _ h₁ in
    let (answer', answered, h₃) =
      >>=-eq-ok (or_raise (find_answer b.application_answer_id store) missing) _ h₂ in
    let (same_answer, h₄) =
      raise_if-inv
        (not (answer'.application_id == application.id && answer'.revision == b.answer_revision))
        conflicting _ _ h₃ in
    let (same_application, revised) =
      both answer'.application_id application.id (answer'.revision == b.answer_revision)
        same_answer in
    let made : IsBoundAnswer store b run answer' = record {
      application = application;
      applied =
          or_raise-inv (find_application_row b.application_id store) missing application applied;
      same_workflow = same_by application.workflow_id run.workflow_id same_workflow;
      answered = or_raise-inv (find_answer b.application_answer_id store) missing answer' answered;
      same_application = same_application;
      same_revision = eq_of_== answer'.revision b.answer_revision revised;
    } in
    subst (λ x. IsBoundAnswer store b run x) (ok-path answer' answer h₄) made

pub admit-inv :
    (services : FieldServices) (store : FieldStore) (run_id : String)
    (approval : ApplicationFieldExecutionApproval) (b : ApplicationFieldBindingRecord)
    (run : SupervisedPortalRunSnapshot) (answer : ApplicationAnswerRecord)
    → admit services store run_id approval ≡ ok (b, run, answer)
    → IsApproved services store approval b
      × IsOnPage store run_id approval b run
      × IsBoundAnswer store b run answer
unfolding admit
admit-inv services store run_id approval b run answer h =
    let (b', bound, h₁) = >>=-eq-ok (admit_binding services store approval) _ h in
    let (run', found, h₂) = >>=-eq-ok (admit_run services store run_id approval b') _ h₁ in
    let (answer', answered, h₃) = >>=-eq-ok (admit_answer services store b' run') _ h₂ in
    subst
      (λ t.
        IsApproved services store approval t.0
        × IsOnPage store run_id approval t.0 t.1
        × IsBoundAnswer store t.0 t.1 t.2)
      (ok-path
        {A = ApplicationFieldBindingRecord × SupervisedPortalRunSnapshot × ApplicationAnswerRecord}
        (b', run', answer') (b, run, answer) h₃)
      (
        admit_binding-inv services store approval b' bound,
        admit_run-inv services store run_id approval b' run' found,
        admit_answer-inv services store b' run' answer' answered,
      )
