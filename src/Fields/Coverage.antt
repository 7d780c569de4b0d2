-- ===== src/Fields/Coverage.antt =====
-- backend/src/job_apply_pro/services/field_coverage.py: the review of a page's required controls.
-- `str.casefold`, and the digest of the review (SHA-256 over its JSON), are parameters.
use job_apply_pro.Base.{
  if◌then◌else◌, ltb, ◌==◌, option_eq, nat_eq, string_eq, length, keep, Outcome, ok, ◌>>=◌, ◌>>◌,
  raise_if, or_raise, codes, ℕ, String, Bool, true, false, not, ◌&&◌, ◌||◌, List, [], ◌∷◌,
}
use job_apply_pro.Browser.{control_kind_eq, BrowserObservedControl}
use job_apply_pro.Fields.Data.{
  field_kind_eq, permission_eq, awaiting_user, run_state_eq, ApplicationFieldBindingRecord,
  SupervisedPortalRunSnapshot, ApplicationFieldExecution, FieldStore, FieldError, missing, refused,
  find_run, find_application_row,
}
use job_apply_pro.Fields.Classification.{
  coverage_eq, ApplicationFieldCoverageStatus, satisfied_on_page, ready_to_execute,
  already_verified, manual_required, unbound, stale_binding, ambiguous_binding,
  ApplicationFieldCoverageItem, ApplicationFieldCoverageReview, classify,
}

-- `[self._classify(…) for control in controls]`
unfoldable pub classify_all :
    FieldStore
    → List ApplicationFieldExecution
    → SupervisedPortalRunSnapshot
    → List ApplicationFieldBindingRecord
    → List BrowserObservedControl
    → Outcome FieldError (List ApplicationFieldCoverageItem)
classify_all store executions run bindings [] = ok []
classify_all store executions run bindings (c ∷ rest) = do
  item ← classify store executions run c bindings
  items ← classify_all store executions run bindings rest
  ok (item ∷ items)

-- Python's order of texts, by code points.
abbrev pub precedes : List ℕ → List ℕ → Bool
precedes [] [] = false
precedes [] (c ∷ cs) = true
precedes (x ∷ xs) [] = false
precedes (x ∷ xs) (c ∷ cs) = ltb x c || (x == c && precedes xs cs)

-- `counts[status]`
abbrev pub count_status : ApplicationFieldCoverageStatus → List ApplicationFieldCoverageItem → ℕ
count_status s items = length (keep (λ i. i.status == s) items)

module _ (casefold : String → String) where
  abbrev pub item_before : ApplicationFieldCoverageItem → ApplicationFieldCoverageItem → Bool
  item_before i j =
      precedes (codes (casefold i.label)) (codes (casefold j.label))
      || (casefold i.label == casefold j.label
          && precedes (codes i.control_key) (codes j.control_key))

  -- A stable sort: an item goes before the first one that comes after it.
  unfoldable pub insert_item :
      ApplicationFieldCoverageItem
      → List ApplicationFieldCoverageItem
      → List ApplicationFieldCoverageItem
  insert_item i [] = i ∷ []
  insert_item i (j ∷ rest) = if item_before j i then j ∷ insert_item i rest else i ∷ j ∷ rest

  unfoldable pub sort_items : List ApplicationFieldCoverageItem → List ApplicationFieldCoverageItem
  unfolding insert_item
  sort_items [] = []
  sort_items (i ∷ rest) = insert_item i (sort_items rest)

  module _
      (digest : String
        → SupervisedPortalRunSnapshot
        → List ApplicationFieldCoverageItem
        → String) where
    abbrev pub review_of :
        String
        → SupervisedPortalRunSnapshot
        → List ApplicationFieldCoverageItem
        → ApplicationFieldCoverageReview
    review_of application_id run items = record {
      application_id = application_id;
      supervised_run_id = run.id;
      portal = run.portal;
      page_fingerprint = run.page_fingerprint;
      required_control_count = length items;
      satisfied_on_page_count = count_status satisfied_on_page items;
      ready_to_execute_count = count_status ready_to_execute items;
      already_verified_count = count_status already_verified items;
      manual_required_count = count_status manual_required items;
      unbound_count = count_status unbound items;
      stale_binding_count = count_status stale_binding items;
      ambiguous_binding_count = count_status ambiguous_binding items;
      items = items;
      review_fingerprint = digest application_id run items;
    }

    unfoldable pub review :
        FieldStore
        → List ApplicationFieldExecution
        → String
        → String
        → Outcome FieldError ApplicationFieldCoverageReview
    unfolding run_state_eq
    review store executions run_id application_id = do
      run ← or_raise (find_run run_id store) missing
      application ← or_raise (find_application_row application_id store) missing
      raise_if (not (application.workflow_id == run.workflow_id)) refused
      raise_if (not (run.state == awaiting_user)) refused
      items ←
          classify_all store (keep (λ e. e.application_id == application_id) executions) run
            (keep (λ b. b.application_id == application_id) store.bindings)
            (keep (λ c. c.required && c.visible) run.observed_controls)
      ok (review_of application_id run (sort_items items))
