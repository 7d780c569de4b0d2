-- ===== src/Fields/Unambiguous.antt =====
-- No control has two current bindings while the places of bindings are apart: `_classify` of
-- backend/src/job_apply_pro/services/field_coverage.py.
use mathlib.Core.Path.{subst}
use mathlib.Core.List.{Memᴰ}
use job_apply_pro.Base.{
  option_eq, nat_eq, string_eq, if◌then◌else◌, ◌==◌, eq_of_==, ==_refl, keep, keep-Mem, Outcome, ok,
  >>=-eq-ok, String, ◌≡◌, refl, sym, ap, ◌∙◌, Bool, true, false, not, ◌&&◌, List, [], ◌∷◌, arith,
}
use job_apply_pro.Browser.{control_kind_eq, BrowserObservedControl}
use job_apply_pro.Fields.Data.{
  field_kind_eq, permission_eq, run_state_eq, autofill_allowed, ApplicationFieldBindingRecord,
  SupervisedPortalRunSnapshot, ApplicationFieldExecution, FieldStore, FieldError, find_answer,
}
use job_apply_pro.Fields.Classification.{
  coverage_eq, ambiguous_binding, ApplicationFieldCoverageItem, ApplicationFieldCoverageReview,
  needs_user, is_satisfied, lacks_executable, is_current, relevant_bindings, is_verified,
  answer_matches, classify_bound, classify_by, current_bindings, classify,
}
use job_apply_pro.Fields.Coverage.{review}
use job_apply_pro.Fields.Approval.{ok-path}
use job_apply_pro.Fields.Review.{review-inv, classify_all-Mem}
use job_apply_pro.Fields.Sorting.{sort_items-Mem}
use job_apply_pro.Fields.Binding.{same_place}
use job_apply_pro.Fields.Automatic.{is_current-inv}
use job_apply_pro.Fields.Places.{IsApart, keep-IsApart}

abbrev IsAmbiguous : ApplicationFieldCoverageItem → Type 0
IsAmbiguous i = i.status ≡ ambiguous_binding

neither_one :
    (b : Bool) (x y : ApplicationFieldCoverageItem)
    → ¬ IsAmbiguous x
    → ¬ IsAmbiguous y
    → ¬ IsAmbiguous (if b then x else y)
neither_one true x y nx ny = nx
neither_one false x y nx ny = ny

other_than :
    (b : Bool) (x y : ApplicationFieldCoverageItem)
    → ¬ IsAmbiguous x
    → IsAmbiguous (if b then x else y)
    → IsAmbiguous y
other_than true x y nx h = absurd (nx h)
other_than false x y nx h = h

other_ok :
    (b : Bool) (x i : ApplicationFieldCoverageItem)
    (m : Outcome FieldError ApplicationFieldCoverageItem)
    → ¬ IsAmbiguous x
    → (if b then ok x else m) ≡ ok i
    → IsAmbiguous i
    → m ≡ ok i
other_ok true x i m nx h a = absurd (nx (ap (λ j. j.status) (ok-path x i h) ∙ a))
other_ok false x i m nx h a = h

module _ (store : FieldStore) (executions : List ApplicationFieldExecution)
    (run : SupervisedPortalRunSnapshot) (c : BrowserObservedControl) where
  classify_bound-unambiguous :
      (b : ApplicationFieldBindingRecord) → ¬ IsAmbiguous (classify_bound store executions run c b)
  unfolding classify_bound
  classify_bound-unambiguous b =
      neither_one (not (answer_matches b (find_answer b.application_answer_id store))) _ _ (λ e. cc)
        (neither_one (not (b.automation_permission == autofill_allowed)) _ _ (λ e. cc)
          (neither_one (is_verified run b executions) _ _ (λ e. cc) (λ e. cc)))

  -- Two bindings at the head of a list.
  abbrev IsTwo : List ApplicationFieldBindingRecord → Type 0
  IsTwo l =
      (b b' : ApplicationFieldBindingRecord) × (rest : List ApplicationFieldBindingRecord) × (l
        ≡ b ∷ b' ∷ rest)

  classify_by-IsTwo :
      (relevant current : List ApplicationFieldBindingRecord)
      → IsAmbiguous (classify_by store executions run c relevant current)
      → IsTwo current
  unfolding classify_by
  classify_by-IsTwo [] [] h = cc
  classify_by-IsTwo (x ∷ relevant) [] h = cc
  classify_by-IsTwo [] (b ∷ []) h = absurd (classify_bound-unambiguous b h)
  classify_by-IsTwo (x ∷ relevant) (b ∷ []) h = absurd (classify_bound-unambiguous b h)
  classify_by-IsTwo [] (b ∷ b' ∷ rest) h = (b, b', rest, refl)
  classify_by-IsTwo (x ∷ relevant) (b ∷ b' ∷ rest) h = (b, b', rest, refl)

  classify-IsTwo :
      (bindings : List ApplicationFieldBindingRecord) (i : ApplicationFieldCoverageItem)
      → classify store executions run c bindings ≡ ok i
      → IsAmbiguous i
      → IsTwo (current_bindings store executions run c bindings)
  unfolding classify
  classify-IsTwo bindings i h a =
      let h₁ = other_ok (needs_user c) _ i _ (λ e. cc) h a in
      let h₂ = other_ok (is_satisfied c) _ i _ (λ e. cc) h₁ a in
      let (stuck, looked, h₃) = >>=-eq-ok (lacks_executable c) _ h₂ in
      classify_by-IsTwo (relevant_bindings c bindings)
        (current_bindings store executions run c bindings)
        (other_than stuck _ _ (λ e. cc) (ap (λ j. j.status) (ok-path _ i h₃) ∙ a))

  -- What a current binding is for.
  abbrev IsFor : String → ApplicationFieldBindingRecord → Type 0
  IsFor application_id x =
      (x.application_id ≡ application_id)
      × (x.page_fingerprint ≡ run.page_fingerprint)
      × (x.control_key ≡ c.control_key)

  current-IsFor :
      (application_id : String) (bindings : List ApplicationFieldBindingRecord)
      (x : ApplicationFieldBindingRecord)
      → Memᴰ x (
          current_bindings store executions run c
            (keep (λ y. y.application_id == application_id) bindings))
      → IsFor application_id x
  unfolding relevant_bindings
  current-IsFor application_id bindings x m =
      let own = keep (λ y. y.application_id == application_id) bindings in
      let (relevant, current) =
        keep-Mem (is_current run c) (keep (λ y. y.control_key == c.control_key) own) x m in
      let (mine, key) = keep-Mem (λ y. y.control_key == c.control_key) own x relevant in
      let (stored, application) =
        keep-Mem (λ y. y.application_id == application_id) bindings x mine in
      (
        eq_of_== x.application_id application_id application,
        (is_current-inv run c x current).0,
        eq_of_== x.control_key c.control_key key,
      )

  one_place :
      (application_id : String) (x y : ApplicationFieldBindingRecord)
      → IsFor application_id x
      → IsFor application_id y
      → same_place x y ≡ true
  one_place application_id x y (a, p, k) (a', p', k') = rw (
    a ∙ sym a',
    p ∙ sym p',
    k ∙ sym k',
    ==_refl y.application_id,
    ==_refl y.page_fingerprint,
    ==_refl y.control_key,
  )

  -- Two current bindings of one application stand at one place.
  current-same_place :
      (application_id : String) (b b' : ApplicationFieldBindingRecord)
      (rest bindings : List ApplicationFieldBindingRecord)
      → current_bindings store executions run c
          (keep (λ x. x.application_id == application_id) bindings)
        ≡ b ∷ b' ∷ rest
      → IsApart bindings
      → ⊥
  unfolding relevant_bindings
  current-same_place application_id b b' rest bindings two apart =
      let own = keep (λ x. x.application_id == application_id) bindings in
      let of_control = keep (λ x. x.control_key == c.control_key) own in
      let apart' : IsApart (b ∷ b' ∷ rest) = subst IsApart two (
        keep-IsApart (is_current run c) of_control (
          keep-IsApart (λ x. x.control_key == c.control_key) own
            (keep-IsApart (λ x. x.application_id == application_id) bindings apart))) in
      let first =
        current-IsFor application_id bindings b
          (subst (λ l. Memᴰ b l) (sym two) (Memᴰ.head refl)) in
      let later =
        current-IsFor application_id bindings b'
          (subst (λ l. Memᴰ b' l) (sym two) (Memᴰ.tail (Memᴰ.head refl))) in
      both_ways (same_place b b') (one_place application_id b b' first later) apart'.0.0
    where
      both_ways : (x : Bool) → x ≡ true → x ≡ false → ⊥
      both_ways x t f = ground (arith, t, f)

-- While no two bindings have the same place, a review calls no control ambiguous.
pub review-unambiguous :
    (casefold : String → String)
    (digest : String → SupervisedPortalRunSnapshot → List ApplicationFieldCoverageItem → String)
    (store : FieldStore) (executions : List ApplicationFieldExecution)
    (run_id application_id : String) (rv : ApplicationFieldCoverageReview)
    (i : ApplicationFieldCoverageItem)
    → IsApart store.bindings
    → review casefold digest store executions run_id application_id ≡ ok rv
    → Memᴰ i rv.items
    → ¬ (i.status ≡ ambiguous_binding)
review-unambiguous casefold digest store executions run_id application_id rv i apart done m a =
    let inv = review-inv casefold digest store executions run_id application_id rv done in
    let mine = keep (λ e. e.application_id == application_id) executions in
    let (c, among, made) =
      classify_all-Mem store mine inv.run
        (keep (λ b. b.application_id == application_id) store.bindings)
        (keep (λ c. c.required && c.visible) inv.run.observed_controls) inv.items i inv.classified
        (sort_items-Mem casefold i inv.items (subst (λ r. Memᴰ i r.items) inv.made m)) in
    let (b, b', rest, two) =
      classify-IsTwo store mine inv.run c
        (keep (λ b. b.application_id == application_id) store.bindings) i made a in
    current-same_place store mine inv.run c application_id b b' rest store.bindings two apart
