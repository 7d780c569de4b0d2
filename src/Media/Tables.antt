-- ===== src/Media/Tables.antt =====
-- Reading and writing one row of the journal's table, and what an operation that returns has done.
use job_apply_pro.Base.{
  Option-cases, option_eq, nat_eq, string_eq, All, ok, ℕ, String, ◌≡◌, refl, ◌≢◌, inl, inr, Bool,
  true, some, [], ◌∷◌, arith, Bool-cases, ◌==◌,
}
use job_apply_pro.Media.Row.{MediaCleanupState, media_state_eq, MediaCleanupRow}
use job_apply_pro.Media.Store.{Table, get_row, put_row, is_owned, owned}

module _ (P : MediaCleanupRow → Type 0) where
  pub All-get_row :
      (id : String) (rows : Table) (r : MediaCleanupRow)
      → All P rows
      → get_row id rows ≡ some r
      → P r
  unfolding get_row
  All-get_row id [] r h e = cc
  All-get_row id (x ∷ rows) r h e = elim (string_eq.dec x.id id) [
    | yes same ↦ let it : x ≡ r = ground arith in rw (← it) h.0
    | no other ↦ All-get_row id rows r h.1 (ground arith)
  ]

  pub All-put_row :
      (new : MediaCleanupRow) (rows : Table) → P new → All P rows → All P (put_row new rows)
  unfolding put_row
  All-put_row new [] p h = tt
  All-put_row new (x ∷ rows) p h = elim (Bool-cases (x.id == new.id)) [
    | inl same ↦ rw same (p, h.1)
    | inr other ↦ rw other (h.0, All-put_row new rows p h.1)
  ]

pub get_row-id :
    (id : String) (rows : Table) (r : MediaCleanupRow) → get_row id rows ≡ some r → r.id ≡ id
unfolding get_row
get_row-id id [] r e = cc
get_row-id id (x ∷ rows) r e = ground (arith, get_row-id id rows r)

pub get_row-put_row :
    (id : String) (new : MediaCleanupRow) (rows : Table) (r : MediaCleanupRow)
    → new.id ≡ id
    → get_row id rows ≡ some r
    → get_row id (put_row new rows) ≡ some new
unfolding get_row put_row
get_row-put_row id new [] r named e = cc
get_row-put_row id new (x ∷ rows) r named e = ground (arith, get_row-put_row id new rows r named)

pub get_row-put_row_other :
    (id : String) (new : MediaCleanupRow) (rows : Table)
    → new.id ≢ id
    → get_row id (put_row new rows) ≡ get_row id rows
unfolding get_row put_row
get_row-put_row_other id new [] ne = refl
get_row-put_row_other id new (x ∷ rows) ne = ground (arith, get_row-put_row_other id new rows)

-- The operation found the row, the row passed the guard, and the row alone was rewritten.
pub record Rewrites (id : String) (guard : MediaCleanupRow → Bool)
    (new : MediaCleanupRow → MediaCleanupRow) (rows rows' : Table) : Type 0 where
  pub row : MediaCleanupRow
  pub found : get_row id rows ≡ some row
  pub passed_guard : guard row ≡ true
  pub written : rows' ≡ put_row (new row) rows

pub owned-inv :
    (id token : String) (states : MediaCleanupState → Bool) (now : ℕ) (rows : Table)
    (r : MediaCleanupRow)
    → owned id token states now rows ≡ ok r
    → (get_row id rows ≡ some r) × (is_owned token states now r ≡ true)
unfolding owned
owned-inv id token states now rows r h = elim (Option-cases (get_row id rows)) [
  | inl missing ↦ (ground arith, ground arith)
  | inr (x, e) ↦ (ground arith, ground arith)
]
