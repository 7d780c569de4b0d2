-- ===== src/Restore/Closure.antt =====
-- The references of an accepted snapshot: `require_relational_closure` of
-- backend/src/job_apply_pro/storage/restore_history_repository.py.
use mathlib.Core.List.{Memᴰ}
use job_apply_pro.Base.{
  option_eq, nat_eq, string_eq, Bool-cases, Eq, ◌==◌, contains, eq_of_==, Outcome, ok, ◌>>=◌,
  raise_if, >>=-eq-ok, String, ◌≡◌, refl, sym, ap, ◌∙◌, ◌⊎◌, inl, inr, Bool, true, false, not, List,
  if◌then◌else◌, arith,
}
use job_apply_pro.Restore.Policy.{Reference, TablePolicy}
use job_apply_pro.Restore.Schema.{tables}
use job_apply_pro.Restore.Snapshot.{
  RestoreError, unavailable, Row, Rows, HistorySnapshot, each, table_of, cell, values, check_known,
  check_choice, check_reference, check_row, check_table,
}
use job_apply_pro.Restore.Preserved.{HistoryChecks, require_relational_closure}
use job_apply_pro.Restore.Keeping.{each-Mem}

second :
    (b : Bool) (m : Outcome RestoreError (Unit {0}))
    → b ≡ false
    → (if b then ok tt else m) ≡ ok tt
    → m ≡ ok tt
second true m b h = absurd (ground (arith, b))
second false m b h = h

module _ {V : Type 0} ⦃e : Eq V⦄ (null : V) (text : String → V) where
  -- A value that is known: it is `None`, or it stands in the column of the table.
  abbrev pub IsKnown : HistorySnapshot V → String → String → V → Type 0
  IsKnown s table field v =
      (v ≡ null)
      ⊎ ((vs : List V) × (values null text s table field ≡ ok vs) × (contains vs v ≡ true))

  check_known-IsKnown :
      (s : HistorySnapshot V) (table field : String) (v : V)
      → check_known null text s table field v ≡ ok tt
      → IsKnown s table field v
  unfolding check_known
  check_known-IsKnown s table field v h = elim (Bool-cases (v == null)) [
    | inl none_ ↦ inl (eq_of_== v null none_)
    | inr some_ ↦
        let h' =
          second (v == null)
            (values null text s table field >>= λ vs. raise_if (not (contains vs v)) unavailable)
            some_ h in
        let (vs, found, h₁) = >>=-eq-ok (values null text s table field) _ h' in
        inr (vs, found, known (contains vs v) h₁)
  ]
    where
      known : (b : Bool) → raise_if {E = RestoreError} (not b) unavailable ≡ ok tt → b ≡ true
      known true h = refl
      known false h = cc

  -- In an accepted snapshot every reference of a row of a protected table is known.
  pub require_relational_closure-IsKnown :
      (checks : HistoryChecks V) (s : HistorySnapshot V) (name : String) (spec : TablePolicy)
      (rows : Rows V) (id : List V) (row : Row V) (r : Reference)
      → require_relational_closure null text checks s ≡ ok tt
      → Memᴰ (name, spec) tables
      → table_of null text s name ≡ ok rows
      → Memᴰ (id, row) rows
      → Memᴰ r spec.references
      → (v : V) × (cell null text row r.field ≡ ok v) × IsKnown s r.target r.target_field v
  unfolding require_relational_closure check_table check_row check_reference
  require_relational_closure-IsKnown checks s name spec rows id row r h m at mr mf =
      let (u, all_tables, h₁) =
        >>=-eq-ok (each (λ t. check_table null text s t.0 t.1) tables) _ h in
      let of_table =
        each-Mem (λ t. check_table null text s t.0 t.1) tables (name, spec) all_tables m in
      let (rows', at', h₂) = >>=-eq-ok (table_of null text s name) _ of_table in
      let same : rows' ≡ rows = ok_path rows' rows (sym at' ∙ at) in
      let of_row =
        each-Mem (λ p. check_row null text s name spec p.1) rows (id, row)
          (ap (λ l. each (λ p. check_row null text s name spec p.1) l) (sym same) ∙ h₂) mr in
      let (u₁, chosen, h₃) =
        >>=-eq-ok (each (check_choice null text name row) spec.columns) _ of_row in
      let (u₂, referred, h₄) =
        >>=-eq-ok (each (check_reference null text s row) spec.references) _ h₃ in
      let of_reference = each-Mem (check_reference null text s row) spec.references r referred mf in
      let (v, found, h₅) = >>=-eq-ok (cell null text row r.field) _ of_reference in
      (v, found, check_known-IsKnown s r.target r.target_field v h₅)
    where
      ok_path : (a b : Rows V) → ◌≡◌ {A = Outcome RestoreError (Rows V)} (ok a) (ok b) → a ≡ b
      ok_path a b h = cc
