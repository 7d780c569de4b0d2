-- ===== src/Fields/BindingTests.antt =====
-- Approvals of a binding on a small page.
use job_apply_pro.Fields.Classification.{ambiguous_binding}
use mathlib.Core.List.{Memᴰ}
use job_apply_pro.Base.{
  option_eq, nat_eq, string_eq, ok, err, ◌≡◌, refl, true, false, some, [], ◌∷◌,
}
use job_apply_pro.Browser.{control_kind_eq}
use job_apply_pro.Browser.Samples.{text_input}
use job_apply_pro.Fields.Data.{
  field_kind_eq, permission_eq, find_answer, text_field, autofill_allowed, run_state_eq,
  ApplicationAnswerRecord, FieldStore, FieldError,
}
use job_apply_pro.Fields.Execution.{ObservedPortalField, observed_field}
use job_apply_pro.Fields.Compatibility.{
  compatibility_errors, is_human_only, BindingTools, ApplicationFieldBindingApproval,
}
use job_apply_pro.Fields.Binding.{
  approve, preview, approvable, add_binding, confidence_of, proposed_for,
}
use job_apply_pro.Fields.Bound.{IsBound, approve-IsBound, approve-taken}
use job_apply_pro.Fields.Tests.{sample_review, review_made}
use job_apply_pro.Fields.Approvals.{ApprovalCall, bound_by, approvals-unambiguous}
use job_apply_pro.Base.{List}
use job_apply_pro.Fields.Samples.{
  no_digest, sample_item, sample_run, sample_binding, sample_answer, sample_store, keep_case,
}

abbrev sample_tools : BindingTools
sample_tools = record {
  decrypt = λ value context. ok value;
  words = λ s. s ∷ [];
  spaced = λ s. s;
  is_number = λ s. true;
  is_finite = λ s. true;
  number_before = λ s t. false;
  is_date = λ s. true;
  date_before = λ s t. ok false;
  digest = λ answer field confidence source errors proposed. "rf";
}

abbrev name_field : ObservedPortalField
name_field = observed_field keep_case sample_run text_input text_field

abbrev sample_command : ApplicationFieldBindingApproval
sample_command = record {
  application_answer_id = "n1";
  observed_field = name_field;
  expected_answer_revision = 1;
  review_fingerprint = "rf";
  automation_permission = autofill_allowed;
  confirmation_phrase = "APPROVE FIELD BINDING";
}

abbrev unbound_store : FieldStore
unbound_store = record sample_store { bindings = [] }

bound_now :
    approve sample_tools unbound_store "b1" sample_command
    ≡ ok (sample_binding, sample_binding ∷ [])
unfolding approve preview approvable add_binding confidence_of proposed_for compatibility_errors
    is_human_only find_answer field_kind_eq permission_eq string_eq nat_eq
bound_now = refl

approve-IsBound_example :
    IsBound sample_tools unbound_store "b1" sample_command sample_binding (sample_binding ∷ [])
approve-IsBound_example =
    approve-IsBound sample_tools unbound_store "b1" sample_command sample_binding
      (sample_binding ∷ []) bound_now

-- The answer has been revised since it was bound.
abbrev revised_answer : ApplicationAnswerRecord
revised_answer = record sample_answer { revision = 2 }

abbrev revised_store : FieldStore
revised_store = record sample_store { answers = revised_answer ∷ [] }

revised_found : find_answer "n1" revised_store ≡ some revised_answer
unfolding find_answer string_eq
revised_found = refl

approve-taken_example :
    (e : FieldError) × (approve sample_tools revised_store "b2"
        (record sample_command { expected_answer_revision = 2 })
      ≡ err e)
approve-taken_example =
    approve-taken sample_tools revised_store "b2"
      (record sample_command { expected_answer_revision = 2 }) revised_answer sample_binding
      revised_found (Memᴰ.head refl) refl refl refl

-- The name is bound, and then once more, which is refused.
abbrev two_calls : List ApprovalCall
two_calls =
    (unbound_store, "b1", sample_command)
    ∷ (revised_store, "b2", record sample_command { expected_answer_revision = 2 })
    ∷ []

bound_once : sample_store.bindings ≡ bound_by sample_tools two_calls []
unfolding approve preview approvable add_binding confidence_of proposed_for compatibility_errors
    is_human_only find_answer field_kind_eq permission_eq string_eq nat_eq
bound_once = refl

approvals-unambiguous_example : ¬ (sample_item.status ≡ ambiguous_binding)
approvals-unambiguous_example =
    approvals-unambiguous sample_tools two_calls keep_case no_digest sample_store [] "r1" "a1"
      sample_review sample_item bound_once review_made (Memᴰ.tail (Memᴰ.head refl))
