-- ===== src/Restore/Keeping.antt =====
-- What an accepted restore keeps: `_require_preserved_snapshots` of
-- backend/src/job_apply_pro/services/restore_history.py.
use mathlib.Core.List.{Memᴰ}
use job_apply_pro.Base.{
  option_eq, nat_eq, string_eq, Eq, ◌==◌, contains, all, all-Mem, Outcome, ok, raise_if, or_raise,
  >>=-eq-ok, String, ◌≡◌, refl, ap, ◌∙◌, Bool, true, false, not, ◌&&◌, ◌||◌, Option, none, some,
  List, [], ◌∷◌, arith,
}
use job_apply_pro.Restore.Policy.{TablePolicy}
use job_apply_pro.Restore.Schema.{tables}
use job_apply_pro.Restore.Domains.{exact_sets}
use job_apply_pro.Restore.Snapshot.{
  lookup_by, RestoreError, history_changed, missing_key, Row, Rows, HistorySnapshot, each, when,
  table_of, has_history,
}
use job_apply_pro.Restore.Preserved.{
  HistoryChecks, same_values, row_eq, is_row, holds, rows_eq, check_media, check_kept,
  require_relational_closure, require_kept, require_preserved,
}

-- A loop that ends has run its body on each element.
pub each-Mem :
    {E A : Type 0} (f : A → Outcome E (Unit {0})) (xs : List A) (x : A)
    → each f xs ≡ ok tt
    → Memᴰ x xs
    → f x ≡ ok tt
each-Mem f [] x h m = elim m [ ]
each-Mem f (y ∷ xs) x h (Memᴰ.head e) = let (v, first, rest) = >>=-eq-ok (f y) _ h in ap f e ∙ first
each-Mem f (y ∷ xs) x h (Memᴰ.tail m) =
    let (v, first, rest) = >>=-eq-ok (f y) _ h in each-Mem f xs x rest m

when-inv :
    {E : Type 0} (b : Bool) (m : Outcome E (Unit {0})) → b ≡ true → when b m ≡ ok tt → m ≡ ok tt
when-inv true m h done = done
when-inv false m h done = absurd (ground (arith, h))

or_raise-found :
    {A : Type 0} (o : Option A) (x : RestoreError) (a : A) → or_raise o x ≡ ok a → o ≡ some a
or_raise-found none x a h = cc
or_raise-found (some b) x a h = cc

raised_not : {E : Type 0} (b : Bool) (x : E) (v : Unit {0}) → raise_if b x ≡ ok v → b ≡ false
raised_not true x v h = cc
raised_not false x v h = refl

module _ {V : Type 0} ⦃e : Eq V⦄ (null : V) (text : String → V) where
  -- The rows of a table, as a snapshot has them.
  abbrev pub HasRows : HistorySnapshot V → String → Rows V → Type 0
  HasRows s name rows = lookup_by (λ k. k == name) s.tables ≡ some rows

  -- Every row of the first table stands in the second under its key with the same cells.
  abbrev pub IsWithin : Rows V → Rows V → Type 0
  IsWithin original restored =
      (id : List V) (row : Row V)
      → Memᴰ (id, row) original
      → (row' : Row V) × (lookup_by (λ k. same_values null text k id) restored ≡ some row')
        × (row_eq null text row' row ≡ true)

  holds-inv :
      (row : Row V) (o : Option (Row V))
      → is_row null text row o ≡ true
      → (row' : Row V) × (o ≡ some row') × (row_eq null text row' row ≡ true)
  holds-inv row none h = cc
  holds-inv row (some r) h = (r, refl, h)

  -- A table that is kept is there in both snapshots, each of its rows is in the candidate's, and a table
  -- that is compared as a whole is equal.
  abbrev pub IsKept : HistorySnapshot V → HistorySnapshot V → String → Type 0
  IsKept current candidate name =
      (original : Rows V) × (restored : Rows V) × HasRows current name original
      × HasRows candidate name restored
      × IsWithin original restored
      × (contains exact_sets name ≡ true → rows_eq null text original restored ≡ true)

  check_kept-IsKept :
      (current candidate : HistorySnapshot V) (name : String)
      → check_kept null text current candidate name ≡ ok tt
      → IsKept current candidate name
  unfolding check_kept table_of
  check_kept-IsKept current candidate name h =
      let (original, was, h₁) = >>=-eq-ok (table_of null text current name) _ h in
      let (restored, will, h₂) = >>=-eq-ok (table_of null text candidate name) _ h₁ in
      let kept =
        raised_not
          (contains exact_sets name && not (rows_eq null text original restored)
            || not (all (λ p. holds null text restored p.0 p.1) original))
          history_changed tt h₂ in
      (
        original,
        restored,
        or_raise-found _ missing_key original was,
        or_raise-found _ missing_key restored will,
        λ id row m.
            holds-inv row _
              (all-Mem (λ p. holds null text restored p.0 p.1) original (id, row) (ground arith) m),
        λ exact. ground arith,
      )

  -- Where a restore with recorded history is accepted, every protected table of the current database is
  -- in the candidate with each of its rows unchanged, and the tables of authority and sessions are the
  -- same in both.
  pub require_preserved-IsKept :
      (checks : HistoryChecks V) (same : Bool) (current candidate : HistorySnapshot V)
      (name : String) (spec : TablePolicy)
      → require_preserved null text checks same current candidate ≡ ok tt
      → (has_history null text current || has_history null text candidate) ≡ true
      → Memᴰ (name, spec) tables
      → IsKept current candidate name
  unfolding require_preserved require_kept
  require_preserved-IsKept checks same current candidate name spec h history m =
      let (u, media, h₁) =
        >>=-eq-ok (each (check_media null text) (current ∷ candidate ∷ [])) _ h in
      let kept = when-inv _ (require_kept null text checks same current candidate) history h₁ in
      let (u₁, closed, h₂) =
        >>=-eq-ok (require_relational_closure null text checks current) _ kept in
      let (u₂, closed', h₃) =
        >>=-eq-ok (require_relational_closure null text checks candidate) _ h₂ in
      let (u₃, each_kept, h₄) =
        >>=-eq-ok (each (λ t. check_kept null text current candidate t.0) tables) _ h₃ in
      check_kept-IsKept current candidate name
        (each-Mem (λ t. check_kept null text current candidate t.0) tables (name, spec) each_kept m)
