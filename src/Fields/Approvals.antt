-- ===== src/Fields/Approvals.antt =====
-- Reviews of what was approved: `approve` of backend/src/job_apply_pro/services/field_bindings.py, call
-- after call, against `_classify` of backend/src/job_apply_pro/services/field_coverage.py.
use mathlib.Core.Path.{subst}
use mathlib.Core.List.{Memᴰ}
use job_apply_pro.Base.{
  option_eq, nat_eq, string_eq, Outcome, ok, err, String, ◌≡◌, refl, sym, List, [], ◌∷◌,
}
use job_apply_pro.Fields.Data.{
  field_kind_eq, permission_eq, run_state_eq, ApplicationFieldBindingRecord,
  SupervisedPortalRunSnapshot, ApplicationFieldExecution, FieldStore, FieldError,
}
use job_apply_pro.Fields.Classification.{
  ambiguous_binding, coverage_eq, ApplicationFieldCoverageItem, ApplicationFieldCoverageReview,
}
use job_apply_pro.Fields.Compatibility.{BindingTools, ApplicationFieldBindingApproval}
use job_apply_pro.Fields.Binding.{approve}
use job_apply_pro.Fields.Coverage.{review}
use job_apply_pro.Fields.Places.{IsApart, approve-IsApart}
use job_apply_pro.Fields.Unambiguous.{review-unambiguous}

-- One call: what is on record around it, the new identifier and the command.
abbrev pub ApprovalCall : Type 0
ApprovalCall = FieldStore × String × ApplicationFieldBindingApproval

-- The bindings after a call: one that raises leaves them.
abbrev pub bound_after :
    Outcome FieldError (ApplicationFieldBindingRecord × List ApplicationFieldBindingRecord)
    → List ApplicationFieldBindingRecord
    → List ApplicationFieldBindingRecord
bound_after (ok (b, all_bindings)) bindings = all_bindings
bound_after (err e) bindings = bindings

-- The bindings after calls in turn. The answers, applications and runs may change in between.
abbrev pub bound_by :
    BindingTools
    → List ApprovalCall
    → List ApplicationFieldBindingRecord
    → List ApplicationFieldBindingRecord
bound_by tools [] bindings = bindings
bound_by tools ((around, id, c) ∷ calls) bindings =
    let store = record around { bindings = bindings } in
    bound_by tools calls (bound_after (approve tools store id c) bindings)

bound_after-IsApart :
    (tools : BindingTools) (store : FieldStore) (id : String) (c : ApplicationFieldBindingApproval)
    (r : Outcome FieldError (ApplicationFieldBindingRecord × List ApplicationFieldBindingRecord))
    → approve tools store id c ≡ r
    → IsApart store.bindings
    → IsApart (bound_after r store.bindings)
bound_after-IsApart tools store id c (ok (b, all_bindings)) h apart =
    approve-IsApart tools store id c b all_bindings h apart
bound_after-IsApart tools store id c (err e) h apart = apart

bound_by-IsApart :
    (tools : BindingTools) (calls : List ApprovalCall)
    (bindings : List ApplicationFieldBindingRecord)
    → IsApart bindings
    → IsApart (bound_by tools calls bindings)
bound_by-IsApart tools [] bindings apart = apart
bound_by-IsApart tools ((around, id, c) ∷ calls) bindings apart =
    let store = record around { bindings = bindings } in
    bound_by-IsApart tools calls (bound_after (approve tools store id c) bindings)
      (bound_after-IsApart tools store id c (approve tools store id c) refl apart)

-- Where all bindings on record come from calls of `approve`, in any number and order, whatever else
-- was on record at each and whether it succeeded or raised, a review calls no control ambiguous.
pub approvals-unambiguous :
    (tools : BindingTools) (calls : List ApprovalCall) (casefold : String → String)
    (digest : String → SupervisedPortalRunSnapshot → List ApplicationFieldCoverageItem → String)
    (store : FieldStore) (executions : List ApplicationFieldExecution)
    (run_id application_id : String) (rv : ApplicationFieldCoverageReview)
    (i : ApplicationFieldCoverageItem)
    → store.bindings ≡ bound_by tools calls []
    → review casefold digest store executions run_id application_id ≡ ok rv
    → Memᴰ i rv.items
    → ¬ (i.status ≡ ambiguous_binding)
approvals-unambiguous tools calls casefold digest store executions run_id application_id rv i from
      done m =
    review-unambiguous casefold digest store executions run_id application_id rv i
      (subst IsApart (sym from) (bound_by-IsApart tools calls [] tt)) done m
