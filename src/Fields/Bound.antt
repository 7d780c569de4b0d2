-- ===== src/Fields/Bound.antt =====
-- What an approved binding is, and when none can be approved: `approve` of
-- backend/src/job_apply_pro/services/field_bindings.py.
use job_apply_pro.Fields.Approval.{ok-path, not-not}
use job_apply_pro.Fields.Approval.{same_by}
use job_apply_pro.Fields.Approval.{or_raise-inv}
use Prim.Native.String.{◌++◌ as text_append}
use mathlib.Core.List.{Memᴰ}
use job_apply_pro.Base.{
  option_eq, nat_eq, string_eq, ◌==◌, any, ok, or_raise, >>=-eq-ok, String, ◌≡◌, refl, true, false,
  ◌&&◌, ◌||◌, some, List, [], ◌∷◌, ◌++◌, ==_refl, any-has, Outcome, err, Outcome-cases,
  raise_if-inv, sym, ap, ◌∙◌, inl, inr, not, arith,
}
use job_apply_pro.Fields.Data.{
  field_kind_eq, permission_eq, autofill_allowed, run_state_eq, ApplicationAnswerRecord,
  ApplicationFieldBindingRecord, FieldStore, missing, find_answer, FieldError, conflicting,
}
use job_apply_pro.Fields.Execution.{ObservedPortalField, ApplicationFieldBindingPreview}
use job_apply_pro.Fields.Compatibility.{
  BindingTools, ApplicationFieldBindingApproval, is_human_only, compatibility_errors,
}
use job_apply_pro.Fields.Binding.{
  same_place, add_binding, is_free, preview_of, preview, binding_of, approvable, approve, or_empty,
}

-- What an approval has gone through.
pub record IsBound (tools : BindingTools) (store : FieldStore) (id : String)
    (c : ApplicationFieldBindingApproval) (b : ApplicationFieldBindingRecord)
    (all_bindings : List ApplicationFieldBindingRecord) : Type 0 where
  pub answer : ApplicationAnswerRecord
  pub answered : find_answer c.application_answer_id store ≡ some answer
  pub compatible : compatibility_errors tools answer c.observed_field ≡ ok []
  pub revised : c.expected_answer_revision ≡ answer.revision
  pub by_user :
      (c.automation_permission == autofill_allowed
        && (is_human_only c.observed_field.control_kind || c.observed_field.legal_attestation))
      ≡ false
  pub question : List String
  pub bound :
      b
      ≡ binding_of tools id c.automation_permission
          (preview_of tools answer c.observed_field [] question)
  pub free : any (λ x. x.id == b.id || same_place x b) store.bindings ≡ false
  pub added : all_bindings ≡ store.bindings ++ b ∷ []

is_free-nil :
    (tools : BindingTools) (errors : List String) → is_free tools errors ≡ true → errors ≡ []
is_free-nil tools [] h = refl
is_free-nil tools (e ∷ errors) h = cc

-- What a preview was made of.
pub record IsPreviewed (tools : BindingTools) (store : FieldStore) (id : String)
    (field : ObservedPortalField) (p : ApplicationFieldBindingPreview) : Type 0 where
  pub answer : ApplicationAnswerRecord
  pub answered : find_answer id store ≡ some answer
  pub errors : List String
  pub checked : compatibility_errors tools answer field ≡ ok errors
  pub question : List String
  pub made : p ≡ preview_of tools answer field errors question

pub preview-inv :
    (tools : BindingTools) (store : FieldStore) (id : String) (field : ObservedPortalField)
    (p : ApplicationFieldBindingPreview)
    → preview tools store id field ≡ ok p
    → IsPreviewed tools store id field p
unfolding preview
preview-inv tools store id field p h =
    let (answer, answered, h₁) = >>=-eq-ok (or_raise (find_answer id store) missing) _ h in
    let (errors, checked, h₂) = >>=-eq-ok (compatibility_errors tools answer field) _ h₁ in
    let (question, asked, h₃) =
      >>=-eq-ok
        (tools.decrypt (or_empty answer.encrypted_question)
          (text_append "application-answer:" (text_append answer.id ":question")))
        _ h₂ in
    record {
      answer = answer;
      answered = or_raise-inv (find_answer id store) missing answer answered;
      errors = errors;
      checked = checked;
      question = tools.words question;
      made = sym (ok-path (preview_of tools answer field errors (tools.words question)) p h₃);
    }

approvable-inv :
    (tools : BindingTools) (c : ApplicationFieldBindingApproval)
    (p : ApplicationFieldBindingPreview) (x : Unit {0})
    → approvable tools c p ≡ ok x
    → (c.expected_answer_revision ≡ p.answer_revision)
      × (p.compatible ≡ true)
      × ((c.automation_permission == autofill_allowed
            && (is_human_only c.observed_field.control_kind || c.observed_field.legal_attestation))
          ≡ false)
unfolding approvable
approvable-inv tools c p x h =
    let (phrase, h₁) =
      raise_if-inv (not (c.confirmation_phrase == "APPROVE FIELD BINDING")) conflicting _ _ h in
    let (revised, h₂) =
      raise_if-inv (not (c.expected_answer_revision == p.answer_revision)) conflicting _ _ h₁ in
    let (reviewed_, h₃) =
      raise_if-inv (not (c.review_fingerprint == p.review_fingerprint)) conflicting _ _ h₂ in
    let (fits, h₄) = raise_if-inv (not p.compatible) conflicting _ _ h₃ in
    let (by_user, h₅) =
      raise_if-inv
        (c.automation_permission == autofill_allowed
          && (is_human_only c.observed_field.control_kind || c.observed_field.legal_attestation))
        conflicting _ _ h₄ in
    (same_by c.expected_answer_revision p.answer_revision revised, not-not fits, by_user)

add_binding-inv :
    (b : ApplicationFieldBindingRecord) (bindings more : List ApplicationFieldBindingRecord)
    → add_binding b bindings ≡ ok more
    → (any (λ x. x.id == b.id || same_place x b) bindings ≡ false) × (more ≡ bindings ++ b ∷ [])
unfolding add_binding
add_binding-inv b bindings more h =
    let (free, h₁) =
      raise_if-inv (any (λ x. x.id == b.id || same_place x b) bindings) conflicting _ _ h in
    (free, sym (ok-path (bindings ++ b ∷ []) more h₁))

-- A binding that is approved is for an answer on record, in the revision that the user saw, which fits
-- the field without an error; it allows autofill only where the field is neither left to the user nor
-- an attestation; it is the only one for its place on the page, and joins the bindings as the last.
pub approve-IsBound :
    (tools : BindingTools) (store : FieldStore) (id : String) (c : ApplicationFieldBindingApproval)
    (b : ApplicationFieldBindingRecord) (all_bindings : List ApplicationFieldBindingRecord)
    → approve tools store id c ≡ ok (b, all_bindings)
    → IsBound tools store id c b all_bindings
unfolding approve
approve-IsBound tools store id c b all_bindings h =
    let (p, previewed, h₁) =
      >>=-eq-ok (preview tools store c.application_answer_id c.observed_field) _ h in
    let (x, approved, h₂) = >>=-eq-ok (approvable tools c p) _ h₁ in
    let (more, added, h₃) =
      >>=-eq-ok (add_binding (binding_of tools id c.automation_permission p) store.bindings) _ h₂ in
    let inv = preview-inv tools store c.application_answer_id c.observed_field p previewed in
    let (revised, fits, by_user) = approvable-inv tools c p x approved in
    let (free, appended) =
      add_binding-inv (binding_of tools id c.automation_permission p) store.bindings more added in
    let same = pair_path (binding_of tools id c.automation_permission p) b more all_bindings h₃ in
    let clean : inv.errors ≡ [] =
      is_free-nil tools inv.errors (sym (ap (λ q. q.compatible) inv.made) ∙ fits) in
    record {
      answer = inv.answer;
      answered = inv.answered;
      compatible = inv.checked ∙ ap ok clean;
      revised = revised ∙ ap (λ q. q.answer_revision) inv.made;
      by_user = by_user;
      question = inv.question;
      bound =
          sym same.0
          ∙ ap (λ q. binding_of tools id c.automation_permission q)
              (inv.made
                ∙ ap (λ e. preview_of tools inv.answer c.observed_field e inv.question) clean);
      free = ap (λ y. any (λ x. x.id == y.id || same_place x y) store.bindings) (sym same.0) ∙ free;
      added = sym same.1 ∙ appended ∙ ap (λ y. store.bindings ++ y ∷ []) same.0;
    }
  where
    pair_path :
        (x y : ApplicationFieldBindingRecord) (xs ys : List ApplicationFieldBindingRecord)
        → ◌≡◌
            {A = Outcome FieldError
              (ApplicationFieldBindingRecord × List ApplicationFieldBindingRecord)}
            (ok (x, xs))
            (ok (y, ys))
        → (x ≡ y) × (xs ≡ ys)
    pair_path x y xs ys h = (cc, cc)

-- Where a control of a page has a binding of the application, none is approved for it again, though
-- the answer behind that binding has changed since: every call raises.
pub approve-taken :
    (tools : BindingTools) (store : FieldStore) (id : String) (c : ApplicationFieldBindingApproval)
    (answer : ApplicationAnswerRecord) (old : ApplicationFieldBindingRecord)
    → find_answer c.application_answer_id store ≡ some answer
    → Memᴰ old store.bindings
    → old.application_id ≡ answer.application_id
    → old.page_fingerprint ≡ c.observed_field.page_fingerprint
    → old.control_key ≡ c.observed_field.control_key
    → (e : FieldError) × (approve tools store id c ≡ err e)
approve-taken tools store id c answer old answered m application page key =
    elim (Outcome-cases (approve tools store id c)) [
      | inr raised ↦ raised
      | inl ((b, all_bindings), done) ↦
          let inv = approve-IsBound tools store id c b all_bindings done in
          let same : inv.answer ≡ answer = some_path (sym inv.answered ∙ answered) in
          let taken : same_place old b ≡ true =
            same_place-same old b
              (application
                ∙ ap (λ a. a.application_id) (sym same)
                ∙ ap (λ x. x.application_id) (sym inv.bound))
              (page ∙ ap (λ x. x.page_fingerprint) (sym inv.bound))
              (key ∙ ap (λ x. x.control_key) (sym inv.bound)) in
          let found =
            any-has (λ x. x.id == b.id || same_place x b) store.bindings old m (ground arith) in
          absurd (ground (arith, sym found ∙ inv.free))
    ]
  where
    some_path : {x y : ApplicationAnswerRecord} → some x ≡ some y → x ≡ y
    some_path e = cc

    same_place-same :
        (x y : ApplicationFieldBindingRecord)
        → x.application_id ≡ y.application_id
        → x.page_fingerprint ≡ y.page_fingerprint
        → x.control_key ≡ y.control_key
        → same_place x y ≡ true
    same_place-same x y e e' e'' =
        rw (e, e', e'', ==_refl y.application_id, ==_refl y.page_fingerprint, ==_refl y.control_key)
