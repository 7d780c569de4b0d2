-- ===== src/Fields/Readiness.antt =====
-- What a review calls ready is admitted by execution: `_classify` of
-- backend/src/job_apply_pro/services/field_coverage.py against `execute` and `_validate_control` of
-- backend/src/job_apply_pro/services/field_execution.py.
use job_apply_pro.Fields.Admission.{admit-passes}
use job_apply_pro.Fields.Admission.{validate_control-passes}
use job_apply_pro.Fields.Review.{review-inv, classify_all-Mem}
use job_apply_pro.Fields.Sorting.{sort_items-Mem}
use job_apply_pro.Fields.Review.{IsReviewOf}
use job_apply_pro.Fields.Execution.{FieldServices, validate_control, admit}
use job_apply_pro.Fields.Execution.{ApplicationFieldExecutionApproval}
use job_apply_pro.Fields.Approval.{IsApproved, IsOnPage, IsBoundAnswer}
use mathlib.Core.Path.{subst}
use mathlib.Core.List.{Memᴰ}
use job_apply_pro.Base.{
  option_eq, nat_eq, string_eq, keep, keep-Mem, find-holds, ok, ◌≡◌, true, some, List, ◌==◌, refl,
  sym, ap, ◌∙◌, eq_of_==, arith, String, ◌&&◌,
}
use job_apply_pro.Browser.{control_kind_eq, BrowserObservedControl}
use job_apply_pro.Fields.Data.{
  field_kind_eq, permission_eq, run_state_eq, ApplicationAnswerRecord,
  ApplicationFieldBindingRecord, SupervisedPortalRunSnapshot, ApplicationFieldExecution, FieldStore,
  find_application_row, find_binding,
}
use job_apply_pro.Fields.Classification.{
  coverage_eq, ready_to_execute, ApplicationFieldCoverageItem, answer_matches,
  ApplicationFieldCoverageReview,
}
use job_apply_pro.Fields.Coverage.{review}
use job_apply_pro.Fields.Ready.{IsReady, classify-IsReady}
use job_apply_pro.Fields.Automatic.{is_current-inv, ready-IsAutomatic}

answer_matches-inv :
    (b : ApplicationFieldBindingRecord) (a : ApplicationAnswerRecord)
    → answer_matches b (some a) ≡ true
    → (a.application_id ≡ b.application_id) × (a.revision ≡ b.answer_revision)
unfolding answer_matches
answer_matches-inv b a h = (
  eq_of_== a.application_id b.application_id (ground arith),
  eq_of_== a.revision b.answer_revision (ground arith),
)

-- The approval of one binding on a run's page.
abbrev pub approval_of :
    ApplicationFieldBindingRecord → SupervisedPortalRunSnapshot → ApplicationFieldExecutionApproval
approval_of b run = record {
  binding_id = b.id;
  review_page_fingerprint = run.page_fingerprint;
  confirmation_phrase = "EXECUTE APPROVED FIELD";
}

module _ (casefold : String → String)
    (digest : String → SupervisedPortalRunSnapshot → List ApplicationFieldCoverageItem → String)
    (services : FieldServices) (store : FieldStore) (executions : List ApplicationFieldExecution)
    (run_id application_id : String) (rv : ApplicationFieldCoverageReview)
    (done : review casefold digest store executions run_id application_id ≡ ok rv)
    (enabled : services.enabled ≡ true)
    (keyed : (b : ApplicationFieldBindingRecord)
      → Memᴰ b store.bindings
      → find_binding b.id store ≡ some b) where
  -- A binding that the review found ready, under the review's own run, is admitted.
  ready-admit :
      (inv : IsReviewOf casefold digest store executions run_id application_id rv)
      (c : BrowserObservedControl) (i : ApplicationFieldCoverageItem)
      (ready : IsReady store inv.run c
        (keep (λ b. b.application_id == application_id) store.bindings)
        i)
      → admit services store run_id (approval_of ready.binding inv.run)
        ≡ ok (ready.binding, inv.run, ready.answer)
  unfolding find_application_row
  ready-admit inv c i ready =
      let b = ready.binding in
      let run = inv.run in
      let (stored, of_application) =
        keep-Mem (λ b. b.application_id == application_id) store.bindings b ready.among in
      let same : b.application_id ≡ application_id =
        eq_of_== b.application_id application_id of_application in
      let own : inv.application.id ≡ application_id =
        eq_of_== inv.application.id application_id (
          find-holds (λ a. a.id == application_id) store.applications inv.application
            inv.applied) in
      let (same_page, same_portal, same_kind) = is_current-inv run c b ready.current in
      let (answers, revised) = answer_matches-inv b ready.answer ready.matches in
      let approved : IsApproved services store (approval_of b run) b = record {
        enabled = enabled;
        phrase = refl;
        bound = keyed b stored;
        allowed = ready.allowed;
      } in
      let on_page : IsOnPage store run_id (approval_of b run) b run = record {
        found = inv.found;
        waiting = inv.waiting;
        reviewed = refl;
        same_page = same_page;
        same_portal = same_portal;
      } in
      let answered : IsBoundAnswer store b run ready.answer = record {
        application = inv.application;
        applied = ap (λ s. find_application_row s store) same ∙ inv.applied;
        same_workflow = inv.same_workflow;
        answered = ready.answered;
        same_application = answers ∙ same ∙ sym own;
        same_revision = revised;
      } in
      admit-passes services store run_id (approval_of b run) b run ready.answer approved on_page
        answered

  -- Where the service is switched on and bindings are told apart by their ids, each item that a review
  -- calls ready is of a required, visible control of the run's page and names a binding of this same
  -- control, such that execution admits the approval of this binding on this page, and the control
  -- passes `_validate_control` with it. What `execute` checks after that is not part of this.
  pub review-ready :
      (i : ApplicationFieldCoverageItem)
      → Memᴰ i rv.items
      → i.status ≡ ready_to_execute
      → (run : SupervisedPortalRunSnapshot) × (b : ApplicationFieldBindingRecord)
        × (answer : ApplicationAnswerRecord) × (c : BrowserObservedControl) × (i.binding_id
            ≡ some b.id)
        × Memᴰ c run.observed_controls
        × (i.control_key ≡ c.control_key)
        × (b.control_key ≡ c.control_key)
        × ((c.required && c.visible) ≡ true)
        × (admit services store run_id (approval_of b run) ≡ ok (b, run, answer))
        × (validate_control b c ≡ ok tt)
  review-ready i m status =
      let inv = review-inv casefold digest store executions run_id application_id rv done in
      let (c, among, made) =
        classify_all-Mem store (keep (λ e. e.application_id == application_id) executions) inv.run
          (keep (λ b. b.application_id == application_id) store.bindings)
          (keep (λ c. c.required && c.visible) inv.run.observed_controls) inv.items i inv.classified
          (sort_items-Mem casefold i inv.items (subst (λ r. Memᴰ i r.items) inv.made m)) in
      let (observed, shown) =
        keep-Mem (λ c. c.required && c.visible) inv.run.observed_controls c among in
      let ready =
        classify-IsReady store (keep (λ e. e.application_id == application_id) executions) inv.run c
          (keep (λ b. b.application_id == application_id) store.bindings) i made status in
      let automatic =
        ready-IsAutomatic store inv.run c
          (keep (λ b. b.application_id == application_id) store.bindings) i (ground arith) ready in
      (
        inv.run,
        ready.binding,
        ready.answer,
        c,
        ready.named,
        observed,
        ready.of_control,
        ready.keyed,
        shown,
        ready-admit inv c i ready,
        validate_control-passes ready.binding c automatic,
      )
