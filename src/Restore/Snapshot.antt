-- ===== src/Restore/Snapshot.antt =====
-- backend/src/job_apply_pro/storage/restore_history_repository.py: a snapshot of the protected tables,
-- and the part of `require_relational_closure` that holds for every table. A cell's value is a type of
-- its own, whose equality is Python's: the model is given it, with its `None` and its texts.
use job_apply_pro.Base.{
  option_eq, nat_eq, string_eq, if◌then◌else◌, Eq, ◌==◌, contains, any, find, Outcome, ok, ◌>>=◌,
  ◌>>◌, raise_if, or_raise, String, Bool, true, false, not, ◌&&◌, Option, none, some, List, [], ◌∷◌,
  map,
}
use job_apply_pro.Restore.Policy.{Column, Reference, TablePolicy}
use job_apply_pro.Restore.Domains.{roots, EnumField, enum_fields}

-- A dictionary: its pairs in the order of insertion.
abbrev pub lookup_by : {K A : Type 0} → (K → Bool) → List (K × A) → Option A
lookup_by p [] = none
lookup_by p ((k, a) ∷ rest) = if p k then some a else lookup_by p rest

-- `RestoreHistoryError` by its messages, a missing key, and what the parts raise that are given.
pub data RestoreError : Type 0 where
  unavailable media_unresolved history_changed missing_key outside : RestoreError

abbrev pub Row : Type 0 → Type 0
Row V = List (String × V)

abbrev pub Rows : Type 0 → Type 0
Rows V = List (List V × Row V)

pub record HistorySnapshot (V : Type 0) : Type 0 where
  pub revision : String
  pub tables : List (String × Rows V)

-- A loop whose body may raise.
abbrev pub each : {E A : Type 0} → (A → Outcome E (Unit {0})) → List A → Outcome E (Unit {0})
each f [] = ok tt
each f (x ∷ xs) = f x >> each f xs

-- A body that runs under a test.
abbrev pub when : {E : Type 0} → Bool → Outcome E (Unit {0}) → Outcome E (Unit {0})
when true body = body
when false body = ok tt

module _ {V : Type 0} ⦃e : Eq V⦄ (null : V) (text : String → V) where
  -- `snapshot.tables[name]`
  unfoldable pub table_of : HistorySnapshot V → String → Outcome RestoreError (Rows V)
  table_of s name = or_raise (lookup_by (λ k. k == name) s.tables) missing_key

  -- `row[field]`
  unfoldable pub cell : Row V → String → Outcome RestoreError V
  cell row field = or_raise (lookup_by (λ k. k == field) row) missing_key

  abbrev pub is_nonempty_table : Option (Rows V) → Bool
  is_nonempty_table (some (r ∷ rows)) = true
  is_nonempty_table _ = false

  -- `has_history`
  unfoldable pub has_history : HistorySnapshot V → Bool
  has_history s = any (λ name. is_nonempty_table (lookup_by (λ k. k == name) s.tables)) roots

  abbrev pub column_values : String → Rows V → Outcome RestoreError (List V)
  column_values field [] = ok []
  column_values field ((id, row) ∷ rest) = do
    v ← cell row field
    vs ← column_values field rest
    ok (v ∷ vs)

  -- `values(table, column)`
  unfoldable pub values : HistorySnapshot V → String → String → Outcome RestoreError (List V)
  values s table field = do rows ← table_of s table; column_values field rows

  -- `v is not None and v not in values(table, column)`
  unfoldable pub check_known :
      HistorySnapshot V → String → String → V → Outcome RestoreError (Unit {0})
  check_known s table field v =
      if v == null
      then ok tt
      else (do vs ← values s table field; raise_if (not (contains vs v)) unavailable)

  abbrev pub check_choices : V → Option EnumField → Outcome RestoreError (Unit {0})
  check_choices v none = ok tt
  check_choices v (some f) =
      raise_if (not (v == null) && not (contains (map text f.values) v)) unavailable

  unfoldable pub check_choice : String → Row V → Column → Outcome RestoreError (Unit {0})
  check_choice name row c = do
    v ← cell row c.name
    check_choices v (find (λ f. f.table == name && f.field == c.name) enum_fields)

  unfoldable pub check_reference :
      HistorySnapshot V → Row V → Reference → Outcome RestoreError (Unit {0})
  check_reference s row r = do v ← cell row r.field; check_known s r.target r.target_field v

  abbrev pub check_present :
      HistorySnapshot V → String → String → Option V → Outcome RestoreError (Unit {0})
  check_present s table field none = ok tt
  check_present s table field (some v) = check_known s table field v

  unfoldable pub check_profile :
      HistorySnapshot V → String → Row V → Outcome RestoreError (Unit {0})
  check_profile s name row =
      if contains ("model_invocations" ∷ "ai_cache" ∷ []) name
      then (do v ← cell row "profile_id"; check_known s "candidate_profiles" "id" v)
      else ok tt

  -- The checks of one row.
  unfoldable pub check_row :
      HistorySnapshot V → String → TablePolicy → Row V → Outcome RestoreError (Unit {0})
  check_row s name spec row = do
    each (check_choice name row) spec.columns
    each (check_reference s row) spec.references
    check_present s "applications" "workflow_id" (lookup_by (λ k. k == "workflow_id") row)
    check_profile s name row

  unfoldable pub check_table :
      HistorySnapshot V → String → TablePolicy → Outcome RestoreError (Unit {0})
  check_table s name spec = do rows ← table_of s name; each (λ r. check_row s name spec r.1) rows
