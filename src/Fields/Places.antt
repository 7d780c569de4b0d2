-- ===== src/Fields/Places.antt =====
-- The places of bindings, one for each control of a page: the constraint under `add` of
-- backend/src/job_apply_pro/storage/field_binding_repository.py, as it holds of a list of bindings.
use job_apply_pro.Base.{
  option_eq, nat_eq, string_eq, Bool-cases, ◌==◌, any, keep, All, ok, String, ◌≡◌, inl, inr, Bool,
  false, ◌||◌, List, [], ◌∷◌, ◌++◌, arith,
}
use job_apply_pro.Browser.{control_kind_eq}
use job_apply_pro.Fields.Data.{
  field_kind_eq, permission_eq, run_state_eq, ApplicationFieldBindingRecord, FieldStore,
}
use job_apply_pro.Fields.Classification.{coverage_eq}
use job_apply_pro.Fields.Compatibility.{BindingTools, ApplicationFieldBindingApproval}
use job_apply_pro.Fields.Binding.{same_place, approve}
use job_apply_pro.Fields.Bound.{approve-IsBound}

-- No two bindings have the same place.
abbrev pub IsApart : List ApplicationFieldBindingRecord → Type 0
IsApart [] = Unit {0}
IsApart (b ∷ rest) = All (λ x. same_place b x ≡ false) rest × IsApart rest

All-append_one :
    (P : ApplicationFieldBindingRecord → Type 0) (xs : List ApplicationFieldBindingRecord)
    (b : ApplicationFieldBindingRecord)
    → All P xs
    → P b
    → All P (xs ++ b ∷ [])
All-append_one P [] b all_ p = (p, tt)
All-append_one P (x ∷ xs) b (here, rest) p = (here, All-append_one P xs b rest p)

append_one-IsApart :
    (bindings : List ApplicationFieldBindingRecord) (b : ApplicationFieldBindingRecord)
    → IsApart bindings
    → any (λ x. x.id == b.id || same_place x b) bindings ≡ false
    → IsApart (bindings ++ b ∷ [])
append_one-IsApart [] b apart free = (tt, tt)
append_one-IsApart (x ∷ bindings) b (here, rest) free = (
  All-append_one (λ y. same_place x y ≡ false) bindings b here (ground arith),
  append_one-IsApart bindings b rest (ground arith),
)

keep-All :
    (P : ApplicationFieldBindingRecord → Type 0) (p : ApplicationFieldBindingRecord → Bool)
    (xs : List ApplicationFieldBindingRecord)
    → All P xs
    → All P (keep p xs)
keep-All P p [] all_ = tt
keep-All P p (x ∷ xs) (here, rest) = elim (Bool-cases (p x)) [
  | inl passes ↦ rw passes (here, keep-All P p xs rest)
  | inr fails ↦ rw fails (keep-All P p xs rest)
]

pub keep-IsApart :
    (p : ApplicationFieldBindingRecord → Bool) (xs : List ApplicationFieldBindingRecord)
    → IsApart xs
    → IsApart (keep p xs)
keep-IsApart p [] apart = tt
keep-IsApart p (x ∷ xs) (here, rest) = elim (Bool-cases (p x)) [
  | inl passes ↦
      rw passes (keep-All (λ y. same_place x y ≡ false) p xs here, keep-IsApart p xs rest)
  | inr fails ↦ rw fails (keep-IsApart p xs rest)
]

pub approve-IsApart :
    (tools : BindingTools) (store : FieldStore) (id : String) (c : ApplicationFieldBindingApproval)
    (b : ApplicationFieldBindingRecord) (all_bindings : List ApplicationFieldBindingRecord)
    → approve tools store id c ≡ ok (b, all_bindings)
    → IsApart store.bindings
    → IsApart all_bindings
approve-IsApart tools store id c b all_bindings h apart =
    let inv = approve-IsBound tools store id c b all_bindings h in
    rw inv.added (append_one-IsApart store.bindings b apart inv.free)
