-- ===== src/Restore/Preserved.antt =====
-- backend/src/job_apply_pro/services/restore_history.py: `_require_preserved_snapshots`. The checks of
-- audits, ownership and payloads that end `require_relational_closure`, the authentication of the
-- encrypted columns and the check of the document files are given.
use job_apply_pro.Base.{
  option_eq, nat_eq, string_eq, Eq, ◌==◌, contains, length, all, Outcome, ◌>>=◌, ◌>>◌, raise_if,
  String, Bool, true, false, not, ◌&&◌, ◌||◌, Option, none, some, List, [], ◌∷◌, map,
}
use job_apply_pro.Restore.Schema.{tables}
use job_apply_pro.Restore.Domains.{exact_sets}
use job_apply_pro.Restore.Snapshot.{
  lookup_by, RestoreError, unavailable, media_unresolved, history_changed, Row, Rows,
  HistorySnapshot, each, table_of, cell, has_history, check_table, when,
}

-- What the check calls.
pub record HistoryChecks (V : Type 0) : Type 0 where
  pub further_closure : HistorySnapshot V → Outcome RestoreError (Unit {0})
  pub authenticate : HistorySnapshot V → Outcome RestoreError (Unit {0})
  pub documents : HistorySnapshot V → HistorySnapshot V → Outcome RestoreError (Unit {0})

module _ {V : Type 0} ⦃e : Eq V⦄ (null : V) (text : String → V) where
  abbrev pub same_values : List V → List V → Bool
  same_values [] [] = true
  same_values (x ∷ xs) (y ∷ ys) = x == y && same_values xs ys
  same_values _ _ = false

  abbrev pub is_value : V → Option V → Bool
  is_value v none = false
  is_value v (some x) = v == x

  -- `a == b` of two rows: dictionaries, whatever their order.
  unfoldable pub row_eq : Row V → Row V → Bool
  row_eq a b = length a == length b && all (λ p. is_value p.1 (lookup_by (λ k. k == p.0) b)) a

  abbrev pub is_row : Row V → Option (Row V) → Bool
  is_row row none = false
  is_row row (some r) = row_eq r row

  abbrev pub holds : Rows V → List V → Row V → Bool
  holds rows id row = is_row row (lookup_by (λ k. same_values k id) rows)

  -- `original == restored` of two tables
  unfoldable pub rows_eq : Rows V → Rows V → Bool
  rows_eq a b = length a == length b && all (λ p. holds b p.0 p.1) a

  unfoldable pub check_unresolved : Row V → Outcome RestoreError (Unit {0})
  check_unresolved row = do
    state ← cell null text row "state"
    raise_if (not (state == text "DELETED")) media_unresolved

  abbrev pub check_null : Row V → String → Outcome RestoreError (Unit {0})
  check_null row field = do v ← cell null text row field; raise_if (not (v == null)) unavailable

  unfoldable pub check_closed : Row V → Outcome RestoreError (Unit {0})
  check_closed row = do
    each (check_null row) ("encrypted_resource" ∷ "lease_until" ∷ "next_attempt_at" ∷ [])
    reason ← cell null text row "reason"
    raise_if
        (not (
          contains (map text ("DELETION_CONFIRMED" ∷ "NOT_UPLOADED" ∷ "MANUALLY_REVIEWED" ∷ []))
            reason))
        unavailable

  unfoldable pub check_media : HistorySnapshot V → Outcome RestoreError (Unit {0})
  check_media s = do
    rows ← table_of null text s "ai_media_cleanup"
    each (λ r. check_unresolved r.1) rows
    each (λ r. check_closed r.1) rows

  unfoldable pub check_kept :
      HistorySnapshot V → HistorySnapshot V → String → Outcome RestoreError (Unit {0})
  check_kept current candidate name = do
    original ← table_of null text current name
    restored ← table_of null text candidate name
    raise_if
        (contains exact_sets name && not (rows_eq original restored)
          || not (all (λ p. holds restored p.0 p.1) original))
        history_changed

  -- `require_relational_closure`
  unfoldable pub require_relational_closure :
      HistoryChecks V → HistorySnapshot V → Outcome RestoreError (Unit {0})
  require_relational_closure checks s = do
    each (λ t. check_table null text s t.0 t.1) tables
    checks.further_closure s

  -- `_require_preserved_snapshots` once there is history; `same` says that the candidate is the current
  -- snapshot itself.
  unfoldable pub require_kept :
      HistoryChecks V
      → Bool
      → HistorySnapshot V
      → HistorySnapshot V
      → Outcome RestoreError (Unit {0})
  require_kept checks same current candidate = do
    require_relational_closure checks current
    require_relational_closure checks candidate
    each (λ t. check_kept current candidate t.0) tables
    checks.authenticate current
    when (not same) (checks.authenticate candidate)
    checks.documents current candidate

  unfoldable pub require_preserved :
      HistoryChecks V
      → Bool
      → HistorySnapshot V
      → HistorySnapshot V
      → Outcome RestoreError (Unit {0})
  require_preserved checks same current candidate = do
    each check_media (current ∷ candidate ∷ [])
    when (has_history null text current || has_history null text candidate)
        (require_kept checks same current candidate)
