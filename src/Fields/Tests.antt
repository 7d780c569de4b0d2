-- ===== src/Fields/Tests.antt =====
-- Runs of the review and of an execution on a small page.
use mathlib.Core.List.{Memᴰ}
use job_apply_pro.Base.{
  option_eq, nat_eq, string_eq, ok, ◌≡◌, refl, true, none, some, [], ◌∷◌, length, keep, err, ◌&&◌,
  ◌==◌, List,
}
use job_apply_pro.Browser.{
  is_action, is_locator, is_verification, control_kind_eq, label_strategy, fill, value_equals,
  BrowserObservedControl,
}
use job_apply_pro.Browser.Samples.{text_input}
use job_apply_pro.Fields.Data.{
  field_kind_eq, permission_eq, run_state_eq, portal_kind, control_value, find_run,
  find_application_row, find_answer, find_binding, is_option_locator, lacks_locator,
  ApplicationAnswerRecord, ApplicationFieldBindingRecord, SupervisedPortalRunSnapshot, FieldError,
}
use job_apply_pro.Fields.Classification.{
  coverage_eq, unbound, ApplicationFieldCoverageReview, coverage_item, needs_user, is_satisfied,
  lacks_executable, is_current, relevant_bindings, is_verified, answer_matches, classify_bound,
  classify_by, classify, ambiguous_binding, ApplicationFieldCoverageItem,
}
use job_apply_pro.Fields.Coverage.{classify_all, insert_item, sort_items, review_of, review}
use job_apply_pro.Fields.Execution.{
  validate_control, admit_binding, admit_run, admit_answer, admit, prepare, add_execution, perform,
  execute,
}
use job_apply_pro.Fields.Action.{field_action, action_by_kind, action_of}
use job_apply_pro.Fields.Approved.{acted_on, Approved, execute-Approved}
use job_apply_pro.Fields.Handover.{IsHandedBack, execute-calls}
use job_apply_pro.Fields.Counts.{total, review-counts}
use mathlib.Core.List.{Permᴰ}
use job_apply_pro.Fields.Review.{AreItemsOf}
use job_apply_pro.Fields.Readiness.{approval_of, review-ready}
use job_apply_pro.Fields.Unlabelled.{IsUnlabelled, review-unlabelled}
use job_apply_pro.Fields.Unambiguous.{review-unambiguous}
use job_apply_pro.Fields.Samples.{
  sample_run, sample_store, keep_case, no_digest, sample_services, sample_approval, empty_world,
  sample_item, blank_radio, radio_store,
}

abbrev pub sample_review : ApplicationFieldCoverageReview
sample_review = review_of keep_case no_digest "a1" sample_run (
    coverage_item (record text_input { control_key = "k2"; label = "City" }) unbound none
      "No approved binding exists for this required control."
    ∷ sample_item
    ∷ [])

pub review_made : review keep_case no_digest sample_store [] "r1" "a1" ≡ ok sample_review
unfolding review sort_items insert_item classify_all classify classify_by classify_bound needs_user
    is_satisfied lacks_executable relevant_bindings is_current answer_matches is_verified find_run
    find_application_row find_answer portal_kind control_value lacks_locator is_option_locator
    control_kind_eq field_kind_eq permission_eq run_state_eq coverage_eq string_eq nat_eq
review_made = refl

execution_acted :
    (execute sample_services sample_store "r1" sample_approval empty_world).1.calls
    ≡ acted_on "s1" (
        field_action fill
          (record { strategy = label_strategy; value = "Name"; name = none; exact = true })
          (some "Ada")
          value_equals
          "Ada")
unfolding execute admit admit_binding admit_run admit_answer perform prepare validate_control
    action_of action_by_kind add_execution find_run find_application_row find_answer find_binding
    portal_kind control_value lacks_locator control_kind_eq field_kind_eq permission_eq run_state_eq
    string_eq nat_eq option_eq is_action is_locator is_verification
execution_acted = refl

execute-calls_example :
    IsHandedBack sample_services []
      (execute sample_services sample_store "r1" sample_approval empty_world).1.calls
execute-calls_example = execute-calls sample_services sample_store "r1" sample_approval empty_world

execute-Approved_example : Approved sample_services sample_store "r1" sample_approval (
    field_action fill
      (record { strategy = label_strategy; value = "Name"; name = none; exact = true })
      (some "Ada")
      value_equals
      "Ada")
execute-Approved_example =
    execute-Approved sample_services sample_store "r1" sample_approval empty_world "s1"
      (field_action fill
        (record { strategy = label_strategy; value = "Name"; name = none; exact = true })
        (some "Ada") value_equals "Ada")
      execution_acted

review-counts_example :
    (run : SupervisedPortalRunSnapshot) × (find_run "r1" sample_store ≡ some run)
    × (2 ≡ length (keep (λ c. c.required && c.visible) run.observed_controls))
    × (items : List ApplicationFieldCoverageItem) × AreItemsOf sample_store [] run
        (keep (λ b. b.application_id == "a1") sample_store.bindings)
        (keep (λ c. c.required && c.visible) run.observed_controls)
        items
    × Permᴰ sample_review.items items
    × (length sample_review.items ≡ 2)
    × (total sample_review ≡ 2)
unfolding coverage_eq
review-counts_example =
    review-counts keep_case no_digest sample_store [] "r1" "a1" sample_review review_made

sample_keyed :
    (b : ApplicationFieldBindingRecord)
    → Memᴰ b sample_store.bindings
    → find_binding b.id sample_store ≡ some b
unfolding find_binding string_eq
sample_keyed b (Memᴰ.head e) = rw e refl
sample_keyed b (Memᴰ.tail m) = elim m [ ]

review-ready_example :
    (run : SupervisedPortalRunSnapshot) × (b : ApplicationFieldBindingRecord)
    × (answer : ApplicationAnswerRecord) × (c : BrowserObservedControl) × (some "b1" ≡ some b.id)
    × Memᴰ c run.observed_controls
    × ("k1" ≡ c.control_key)
    × (b.control_key ≡ c.control_key)
    × ((c.required && c.visible) ≡ true)
    × (admit sample_services sample_store "r1" (approval_of b run) ≡ ok (b, run, answer))
    × (validate_control b c ≡ ok tt)
review-ready_example =
    review-ready keep_case no_digest sample_services sample_store [] "r1" "a1" sample_review
      review_made refl sample_keyed sample_item (Memᴰ.tail (Memᴰ.head refl)) refl

blank_radio-IsUnlabelled : IsUnlabelled blank_radio
unfolding needs_user is_satisfied control_kind_eq string_eq
blank_radio-IsUnlabelled = record {
  required = refl;
  visible = refl;
  free = refl;
  open_yet = refl;
  located = refl;
  grouped = refl;
  first = record { value = "a"; label = ""; locator = none };
  others = [];
  options = refl;
  blank = refl;
}

radio_run_found :
    find_run "r1" radio_store
    ≡ some (record sample_run { observed_controls = text_input ∷ blank_radio ∷ [] })
unfolding find_run string_eq
radio_run_found = refl

review-unlabelled_example :
    (e : FieldError) × (review keep_case no_digest radio_store [] "r1" "a1" ≡ err e)
review-unlabelled_example =
    review-unlabelled keep_case no_digest radio_store [] "r1" "a1"
      (record sample_run { observed_controls = text_input ∷ blank_radio ∷ [] }) blank_radio
      radio_run_found (Memᴰ.tail (Memᴰ.head refl)) blank_radio-IsUnlabelled

review-unambiguous_example : ¬ (sample_item.status ≡ ambiguous_binding)
review-unambiguous_example =
    review-unambiguous keep_case no_digest sample_store [] "r1" "a1" sample_review sample_item
      (tt, tt) review_made (Memᴰ.tail (Memᴰ.head refl))
