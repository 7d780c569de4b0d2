-- ===== src/Fields/Review.antt =====
-- What a review of a page says: `review` of backend/src/job_apply_pro/services/field_coverage.py.
use mathlib.Core.Path.{subst}
use mathlib.Core.List.{Memᴰ}
use job_apply_pro.Base.{
  ◌==◌, option_eq, nat_eq, string_eq, length, keep, ok, or_raise, >>=-eq-ok, raise_if-inv, suc,
  String, ◌≡◌, refl, sym, ap, ◌∙◌, inl, inr, not, ◌&&◌, some, List, [], ◌∷◌, Mem-cons,
}
use job_apply_pro.Browser.{control_kind_eq, BrowserObservedControl}
use job_apply_pro.Fields.Data.{
  field_kind_eq, permission_eq, awaiting_user, run_state_eq, Application,
  ApplicationFieldBindingRecord, SupervisedPortalRunSnapshot, ApplicationFieldExecution, FieldStore,
  missing, refused, find_run, find_application_row,
}
use job_apply_pro.Fields.Classification.{
  coverage_eq, ApplicationFieldCoverageItem, ApplicationFieldCoverageReview, classify,
}
use job_apply_pro.Fields.Coverage.{classify_all, sort_items, review_of, review}
use job_apply_pro.Fields.Approval.{or_raise-inv, same_by, ok-path}

-- The run and the application of a review, and its items before they are sorted.
pub record IsReviewOf (casefold : String → String)
    (digest : String → SupervisedPortalRunSnapshot → List ApplicationFieldCoverageItem → String)
    (store : FieldStore) (executions : List ApplicationFieldExecution)
    (run_id application_id : String) (rv : ApplicationFieldCoverageReview) : Type 0 where
  pub run : SupervisedPortalRunSnapshot
  pub found : find_run run_id store ≡ some run
  pub application : Application
  pub applied : find_application_row application_id store ≡ some application
  pub same_workflow : application.workflow_id ≡ run.workflow_id
  pub waiting : run.state ≡ awaiting_user
  pub items : List ApplicationFieldCoverageItem
  pub classified :
      classify_all store
        (keep (λ e. e.application_id == application_id) executions)
        run
        (keep (λ b. b.application_id == application_id) store.bindings)
        (keep (λ c. c.required && c.visible) run.observed_controls)
      ≡ ok items
  pub made : rv ≡ review_of casefold digest application_id run (sort_items casefold items)

pub review-inv :
    (casefold : String → String)
    (digest : String → SupervisedPortalRunSnapshot → List ApplicationFieldCoverageItem → String)
    (store : FieldStore) (executions : List ApplicationFieldExecution)
    (run_id application_id : String) (rv : ApplicationFieldCoverageReview)
    → review casefold digest store executions run_id application_id ≡ ok rv
    → IsReviewOf casefold digest store executions run_id application_id rv
unfolding review
review-inv casefold digest store executions run_id application_id rv h =
    let (run, found, h₁) = >>=-eq-ok (or_raise (find_run run_id store) missing) _ h in
    let (application, applied, h₂) =
      >>=-eq-ok (or_raise (find_application_row application_id store) missing) _ h₁ in
    let (same_workflow, h₃) =
      raise_if-inv (not (application.workflow_id == run.workflow_id)) refused _ _ h₂ in
    let (waiting, h₄) = raise_if-inv (not (run.state == awaiting_user)) refused _ _ h₃ in
    let (items, classified, h₅) =
      >>=-eq-ok
        (classify_all store (keep (λ e. e.application_id == application_id) executions) run
          (keep (λ b. b.application_id == application_id) store.bindings)
          (keep (λ c. c.required && c.visible) run.observed_controls))
        _ h₄ in
    record {
      run = run;
      found = or_raise-inv (find_run run_id store) missing run found;
      application = application;
      applied =
          or_raise-inv (find_application_row application_id store) missing application applied;
      same_workflow = same_by application.workflow_id run.workflow_id same_workflow;
      waiting = same_by run.state awaiting_user waiting;
      items = items;
      classified = classified;
      made = sym (
          ok-path (review_of casefold digest application_id run (sort_items casefold items)) rv h₅);
    }

-- One item for each control, in the order of the controls, each being what `_classify` makes of its
-- control.
abbrev pub AreItemsOf :
    FieldStore
    → List ApplicationFieldExecution
    → SupervisedPortalRunSnapshot
    → List ApplicationFieldBindingRecord
    → List BrowserObservedControl
    → List ApplicationFieldCoverageItem
    → Type 0
AreItemsOf store executions run bindings [] [] = Unit {0}
AreItemsOf store executions run bindings [] (i ∷ items) = ⊥
AreItemsOf store executions run bindings (c ∷ cs) [] = ⊥
AreItemsOf store executions run bindings (c ∷ cs) (i ∷ items) =
    (classify store executions run c bindings ≡ ok i)
    × AreItemsOf store executions run bindings cs items

module _ (store : FieldStore) (executions : List ApplicationFieldExecution)
    (run : SupervisedPortalRunSnapshot) (bindings : List ApplicationFieldBindingRecord) where
  pub length-classify_all :
      (cs : List BrowserObservedControl) (items : List ApplicationFieldCoverageItem)
      → classify_all store executions run bindings cs ≡ ok items
      → length items ≡ length cs
  unfolding classify_all
  length-classify_all [] items h = cc
  length-classify_all (c ∷ cs) items h =
      let (i, first, h₁) = >>=-eq-ok (classify store executions run c bindings) _ h in
      let (rest, others, h₂) = >>=-eq-ok (classify_all store executions run bindings cs) _ h₁ in
      sym (ap length (ok-path (i ∷ rest) items h₂))
      ∙ ap (λ n. suc n) (length-classify_all cs rest others)

  pub classify_all-AreItemsOf :
      (cs : List BrowserObservedControl) (items : List ApplicationFieldCoverageItem)
      → classify_all store executions run bindings cs ≡ ok items
      → AreItemsOf store executions run bindings cs items
  unfolding classify_all
  classify_all-AreItemsOf [] items h =
      subst (λ l. AreItemsOf store executions run bindings [] l) (ok-path [] items h) tt
  classify_all-AreItemsOf (c ∷ cs) items h =
      let (i, first, h₁) = >>=-eq-ok (classify store executions run c bindings) _ h in
      let (rest, others, h₂) = >>=-eq-ok (classify_all store executions run bindings cs) _ h₁ in
      subst (λ l. AreItemsOf store executions run bindings (c ∷ cs) l) (ok-path (i ∷ rest) items h₂)
        (first, classify_all-AreItemsOf cs rest others)

  pub classify_all-Mem :
      (cs : List BrowserObservedControl) (items : List ApplicationFieldCoverageItem)
      (i : ApplicationFieldCoverageItem)
      → classify_all store executions run bindings cs ≡ ok items
      → Memᴰ i items
      → (c : BrowserObservedControl) × Memᴰ c cs × (classify store executions run c bindings ≡ ok i)
  unfolding classify_all
  classify_all-Mem [] items i h m = elim (subst (λ l. Memᴰ i l) (sym (ok-path [] items h)) m) [ ]
  classify_all-Mem (c ∷ cs) items i h m =
      let (j, first, h₁) = >>=-eq-ok (classify store executions run c bindings) _ h in
      let (rest, others, h₂) = >>=-eq-ok (classify_all store executions run bindings cs) _ h₁ in
      elim (Mem-cons (subst (λ l. Memᴰ i l) (sym (ok-path (j ∷ rest) items h₂)) m)) [
        | inl e ↦ (c, Memᴰ.head refl, first ∙ ap ok (sym e))
        | inr later ↦
            let (x, among, same) = classify_all-Mem cs rest i others later in
            (x, Memᴰ.tail among, same)
      ]

  -- In a list that is classified, each control is.
  pub classify_all-all :
      (cs : List BrowserObservedControl) (items : List ApplicationFieldCoverageItem)
      (c : BrowserObservedControl)
      → classify_all store executions run bindings cs ≡ ok items
      → Memᴰ c cs
      → (i : ApplicationFieldCoverageItem) × (classify store executions run c bindings ≡ ok i)
  unfolding classify_all
  classify_all-all [] items c h m = elim m [ ]
  classify_all-all (x ∷ cs) items c h m =
      let (i, first, h₁) = >>=-eq-ok (classify store executions run x bindings) _ h in
      let (rest, others, h₂) = >>=-eq-ok (classify_all store executions run bindings cs) _ h₁ in
      elim (Mem-cons m) [
        | inl e ↦ (i, subst (λ y. classify store executions run y bindings ≡ ok i) (sym e) first)
        | inr among ↦ classify_all-all cs rest c others among
      ]
