-- ===== src/Fields/Counts.antt =====
-- The counts of a review: `review` of backend/src/job_apply_pro/services/field_coverage.py.
use job_apply_pro.Base.{
  if◌then◌else◌, ◌==◌, option_eq, nat_eq, string_eq, length, ℕ, ◌+◌, ◌≡◌, refl, List, [], ◌∷◌,
  arith, keep, ok, String, sym, ap, ◌∙◌, ◌&&◌, some,
}
use job_apply_pro.Browser.{control_kind_eq}
use job_apply_pro.Fields.Data.{
  field_kind_eq, permission_eq, run_state_eq, SupervisedPortalRunSnapshot,
  ApplicationFieldExecution, FieldStore, find_run,
}
use job_apply_pro.Fields.Classification.{
  ApplicationFieldCoverageStatus, satisfied_on_page, ready_to_execute, already_verified,
  manual_required, unbound, stale_binding, ambiguous_binding, coverage_eq,
  ApplicationFieldCoverageItem, ApplicationFieldCoverageReview,
}
use job_apply_pro.Fields.Coverage.{count_status, sort_items, review_of, review}
use job_apply_pro.Fields.Review.{
  review-inv, length-classify_all, AreItemsOf, classify_all-AreItemsOf,
}
use job_apply_pro.Fields.Sorting.{length-sort_items, sort_items-Perm}
use mathlib.Core.Path.{subst}
use mathlib.Core.List.{Permᴰ}

-- The sum of a review's seven counts.
abbrev pub total : ApplicationFieldCoverageReview → ℕ
total rv =
    rv.satisfied_on_page_count + rv.ready_to_execute_count + rv.already_verified_count
    + rv.manual_required_count + rv.unbound_count + rv.stale_binding_count
    + rv.ambiguous_binding_count

-- The same for items alone.
abbrev total_of : List ApplicationFieldCoverageItem → ℕ
total_of items =
    count_status satisfied_on_page items
    + count_status ready_to_execute items
    + count_status already_verified items
    + count_status manual_required items
    + count_status unbound items
    + count_status stale_binding items
    + count_status ambiguous_binding items

abbrev one_if : ApplicationFieldCoverageStatus → ApplicationFieldCoverageStatus → ℕ
unfolding coverage_eq
one_if s t = if s == t then 1 else 0

one_more :
    (t : ApplicationFieldCoverageStatus) (i : ApplicationFieldCoverageItem)
    (items : List ApplicationFieldCoverageItem)
    → count_status t (i ∷ items) ≡ one_if i.status t + count_status t items
unfolding coverage_eq
one_more t i items = ground arith

-- A status is one of the seven, and of them only one.
one_status :
    (s : ApplicationFieldCoverageStatus)
    → one_if s satisfied_on_page
        + one_if s ready_to_execute
        + one_if s already_verified
        + one_if s manual_required
        + one_if s unbound
        + one_if s stale_binding
        + one_if s ambiguous_binding
      ≡ 1
unfolding coverage_eq
one_status satisfied_on_page = refl
one_status ready_to_execute = refl
one_status already_verified = refl
one_status manual_required = refl
one_status unbound = refl
one_status stale_binding = refl
one_status ambiguous_binding = refl

total_of-length : (items : List ApplicationFieldCoverageItem) → total_of items ≡ length items
total_of-length [] = refl
total_of-length (i ∷ items) =
    let whole = one_status i.status in
    let rest = total_of-length items in
    let h₁ = one_more satisfied_on_page i items in
    let h₂ = one_more ready_to_execute i items in
    let h₃ = one_more already_verified i items in
    let h₄ = one_more manual_required i items in
    let h₅ = one_more unbound i items in
    let h₆ = one_more stale_binding i items in
    let h₇ = one_more ambiguous_binding i items in omega arith

-- A review that is made is of a run on record. Its items are, up to their order, those that
-- `_classify` makes of the run's visible required controls, one for each of them; and its seven
-- counts add up to the number of these controls.
pub review-counts :
    (casefold : String → String)
    (digest : String → SupervisedPortalRunSnapshot → List ApplicationFieldCoverageItem → String)
    (store : FieldStore) (executions : List ApplicationFieldExecution)
    (run_id application_id : String) (rv : ApplicationFieldCoverageReview)
    → review casefold digest store executions run_id application_id ≡ ok rv
    → (run : SupervisedPortalRunSnapshot) × (find_run run_id store ≡ some run)
      × (rv.required_control_count
          ≡ length (keep (λ c. c.required && c.visible) run.observed_controls))
      × (items : List ApplicationFieldCoverageItem) × AreItemsOf store
          (keep (λ e. e.application_id == application_id) executions)
          run
          (keep (λ b. b.application_id == application_id) store.bindings)
          (keep (λ c. c.required && c.visible) run.observed_controls)
          items
      × Permᴰ rv.items items
      × (length rv.items ≡ rv.required_control_count)
      × (total rv ≡ rv.required_control_count)
review-counts casefold digest store executions run_id application_id rv h =
    let inv = review-inv casefold digest store executions run_id application_id rv h in
    let sorted = sort_items casefold inv.items in
    let required = keep (λ c. c.required && c.visible) inv.run.observed_controls in
    let many : length sorted ≡ length required =
      length-sort_items casefold inv.items
      ∙ length-classify_all store (keep (λ e. e.application_id == application_id) executions)
          inv.run (keep (λ b. b.application_id == application_id) store.bindings) required inv.items
          inv.classified in
    let made : rv ≡ review_of casefold digest application_id inv.run sorted = inv.made in
    (
      inv.run,
      inv.found,
      ap (λ r. r.required_control_count) made ∙ many,
      inv.items,
      classify_all-AreItemsOf store (keep (λ e. e.application_id == application_id) executions)
          inv.run (keep (λ b. b.application_id == application_id) store.bindings) required inv.items
          inv.classified,
      subst (λ r. Permᴰ r.items inv.items) (sym made) (sort_items-Perm casefold inv.items),
      ap (λ r. length r.items) made ∙ sym (ap (λ r. r.required_control_count) made),
      ap total made ∙ total_of-length sorted ∙ sym (ap (λ r. r.required_control_count) made),
    )
