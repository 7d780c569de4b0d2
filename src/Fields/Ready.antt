-- ===== src/Fields/Ready.antt =====
-- The controls that a review calls ready: `_classify` of
-- backend/src/job_apply_pro/services/field_coverage.py.
use job_apply_pro.Fields.Approval.{not-not, same_by}
use job_apply_pro.Fields.Approval.{ok-path}
use mathlib.Core.Path.{subst}
use mathlib.Core.List.{Memᴰ}
use job_apply_pro.Base.{
  option_eq, nat_eq, string_eq, keep-Mem, ok, ◌≡◌, true, false, some, List, if◌then◌else◌, ◌==◌,
  refl, sym, ap, ◌∙◌, Bool, not, Option, none, [], ◌∷◌, ltb, Outcome, >>=-eq-ok, eq_of_==,
}
use job_apply_pro.Browser.{control_kind_eq, BrowserObservedControl}
use job_apply_pro.Fields.Data.{
  field_kind_eq, permission_eq, run_state_eq, autofill_allowed, ApplicationAnswerRecord,
  ApplicationFieldBindingRecord, SupervisedPortalRunSnapshot, ApplicationFieldExecution, FieldStore,
  find_answer, FieldError,
}
use job_apply_pro.Fields.Classification.{
  coverage_eq, ready_to_execute, ApplicationFieldCoverageItem, needs_user, lacks_executable,
  is_current, answer_matches, classify_bound, unbound, stale_binding, ambiguous_binding,
  is_verified, classify_by, classify, manual_required, coverage_item, is_satisfied,
  relevant_bindings, current_bindings,
}

-- The one current binding of a control that is ready, and its answer.
pub record IsReady (store : FieldStore) (run : SupervisedPortalRunSnapshot)
    (c : BrowserObservedControl) (bindings : List ApplicationFieldBindingRecord)
    (i : ApplicationFieldCoverageItem) : Type 0 where
  pub binding : ApplicationFieldBindingRecord
  pub named : i.binding_id ≡ some binding.id
  pub among : Memᴰ binding bindings
  pub of_control : i.control_key ≡ c.control_key
  pub keyed : binding.control_key ≡ c.control_key
  pub current : is_current run c binding ≡ true
  pub answer : ApplicationAnswerRecord
  pub answered : find_answer binding.application_answer_id store ≡ some answer
  pub matches : answer_matches binding (some answer) ≡ true
  pub allowed : binding.automation_permission ≡ autofill_allowed
  pub free : needs_user c ≡ false
  pub executable : lacks_executable c ≡ ok false

-- Of two items, one that is not ready is not the one that was made.
other_one :
    (b : Bool) (x y i : ApplicationFieldCoverageItem)
    → (if b then x else y) ≡ i
    → i.status ≡ ready_to_execute
    → ¬ (x.status ≡ ready_to_execute)
    → (b ≡ false) × (y ≡ i)
other_one true x y i h ready unready = absurd (unready (ap (λ j. j.status) h ∙ ready))
other_one false x y i h ready unready = (refl, h)

other_ok :
    (b : Bool) (x i : ApplicationFieldCoverageItem)
    (m : Outcome FieldError ApplicationFieldCoverageItem)
    → (if b then ok x else m) ≡ ok i
    → i.status ≡ ready_to_execute
    → ¬ (x.status ≡ ready_to_execute)
    → (b ≡ false) × (m ≡ ok i)
other_ok true x i m h ready unready = absurd (unready (ap (λ j. j.status) (ok-path x i h) ∙ ready))
other_ok false x i m h ready unready = (refl, h)

not_unbound : ¬ (unbound ≡ ready_to_execute)
not_unbound e = cc

not_stale : ¬ (stale_binding ≡ ready_to_execute)
not_stale e = cc

not_two : ¬ (ambiguous_binding ≡ ready_to_execute)
not_two e = cc

answered-matches :
    (b : ApplicationFieldBindingRecord) (o : Option ApplicationAnswerRecord)
    → answer_matches b o ≡ true
    → (a : ApplicationAnswerRecord) × (o ≡ some a) × (answer_matches b (some a) ≡ true)
unfolding answer_matches
answered-matches b none h = cc
answered-matches b (some a) h = (a, refl, h)

module _ (store : FieldStore) (executions : List ApplicationFieldExecution)
    (run : SupervisedPortalRunSnapshot) (c : BrowserObservedControl) where
  -- A bound control is ready where its answer is unchanged and its binding allows autofill.
  classify_bound-ready :
      (b : ApplicationFieldBindingRecord) (i : ApplicationFieldCoverageItem)
      → classify_bound store executions run c b ≡ i
      → i.status ≡ ready_to_execute
      → (i.binding_id ≡ some b.id)
        × (answer_matches b (find_answer b.application_answer_id store) ≡ true)
        × (b.automation_permission ≡ autofill_allowed)
        × (i.control_key ≡ c.control_key)
  unfolding classify_bound
  classify_bound-ready b i h ready =
      let (matched, h₁) =
        other_one (not (answer_matches b (find_answer b.application_answer_id store))) _ _ i h ready
          (λ e. cc) in
      let (allowed, h₂) =
        other_one (not (b.automation_permission == autofill_allowed)) _ _ i h₁ ready (λ e. cc) in
      let (unverified, h₃) = other_one (is_verified run b executions) _ _ i h₂ ready (λ e. cc) in
      (
        ap (λ j. j.binding_id) (sym h₃),
        not-not matched,
        same_by b.automation_permission autofill_allowed allowed,
        ap (λ j. j.control_key) (sym h₃),
      )

  classify_by-ready :
      (relevant current : List ApplicationFieldBindingRecord) (i : ApplicationFieldCoverageItem)
      → classify_by store executions run c relevant current ≡ i
      → i.status ≡ ready_to_execute
      → (b : ApplicationFieldBindingRecord) × (current ≡ b ∷ [])
        × (classify_bound store executions run c b ≡ i)
  unfolding classify_by
  classify_by-ready [] [] i h ready = absurd (not_unbound (ap (λ j. j.status) h ∙ ready))
  classify_by-ready (b ∷ rest) [] i h ready = absurd (not_stale (ap (λ j. j.status) h ∙ ready))
  classify_by-ready [] (b ∷ []) i h ready = (b, refl, h)
  classify_by-ready (x ∷ rest) (b ∷ []) i h ready = (b, refl, h)
  classify_by-ready [] (b ∷ b' ∷ more) i h ready = absurd (not_two (ap (λ j. j.status) h ∙ ready))
  classify_by-ready (x ∷ rest) (b ∷ b' ∷ more) i h ready =
      absurd (not_two (ap (λ j. j.status) h ∙ ready))

  pub classify-IsReady :
      (bindings : List ApplicationFieldBindingRecord) (i : ApplicationFieldCoverageItem)
      → classify store executions run c bindings ≡ ok i
      → i.status ≡ ready_to_execute
      → IsReady store run c bindings i
  unfolding classify relevant_bindings
  classify-IsReady bindings i h ready =
      let (free, h₁) =
        other_ok (needs_user c)
          (coverage_item c manual_required none (
            if ltb 1 c.repeat_count
            then "Repeated controls require a provider-specific unique locator and visible user handling."
            else "This required control must remain under visible user handling."))
          i _ h ready (λ e. cc) in
      let (unsatisfied, h₂) = other_ok (is_satisfied c) _ i _ h₁ ready (λ e. cc) in
      let (stuck, looked, h₃) = >>=-eq-ok (lacks_executable c) _ h₂ in
      let (executable, h₄) = other_one stuck _ _ i (ok-path _ i h₃) ready (λ e. cc) in
      let (b, only, bound) =
        classify_by-ready (relevant_bindings c bindings)
          (current_bindings store executions run c bindings) i h₄ ready in
      let (named, matched, allowed, of_control) = classify_bound-ready b i bound ready in
      let (a, answered, matches) =
        answered-matches b (find_answer b.application_answer_id store) matched in
      let (relevant, current) =
        keep-Mem (is_current run c) (relevant_bindings c bindings) b
          (subst (λ l. Memᴰ b l) (sym only) (Memᴰ.head refl)) in
      let (among, same_key) = keep-Mem (λ x. x.control_key == c.control_key) bindings b relevant in
      record {
        binding = b;
        named = named;
        among = among;
        of_control = of_control;
        keyed = eq_of_== b.control_key c.control_key same_key;
        current = current;
        answer = a;
        answered = answered;
        matches = matches;
        allowed = allowed;
        free = free;
        executable = looked ∙ ap ok executable;
      }
