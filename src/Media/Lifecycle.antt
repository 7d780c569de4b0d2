-- ===== src/Media/Lifecycle.antt =====
-- What any sequence of the journal's operations can do to a row: the life of uploaded media.
use job_apply_pro.Media.Inversion.{
  create-inv, register_resource-inv, renew-inv, abandon_before_upload-inv, relinquish-inv,
  mark_deleted-inv, mark_retry-inv, resolve_manual-inv, claim_recovery-inv,
}
use job_apply_pro.Media.Tables.{
  Rewrites, All-get_row, get_row-id, get_row-put_row, get_row-put_row_other,
}
use job_apply_pro.Base.{
  option_eq, nat_eq, string_eq, All, Outcome, ok, err, ℕ, String, ◌≡◌, refl, List, [], ◌∷◌, ◌≤◌,
  ◌⊎◌, Bool, true, false, none, inl, inr, some, arith, sym, ◌∙◌, ◌≢◌, ◌++◌,
}
use job_apply_pro.Media.Row.{
  media_state_eq, MediaError, Cipher, MediaCleanupState, uploading, in_use, delete_pending,
  manual_review, deleted, MediaCleanupRow,
}
use job_apply_pro.Media.Store.{
  Table, create, register_resource, renew, abandon_before_upload, relinquish, claim_recovery,
  mark_deleted, mark_retry, resolve_manual, get_row, new_row, is_owned, eligible, claimed,
}
use job_apply_pro.Media.Validity.{
  IsValid, register_resource-IsValid, renew-IsValid, abandon_before_upload-IsValid,
  relinquish-IsValid, mark_deleted-IsValid, mark_retry-IsValid, resolve_manual-IsValid,
  create-IsValid, claim_recovery-IsValid,
}

-- The calls of the repository, with what its callers pass.
pub data MediaOp : Type 0 where
  create_op : String → String → String → String → ℕ → ℕ → MediaOp
  register_op : String → String → String → String → ℕ → ℕ → MediaOp
  renew_op : String → String → ℕ → ℕ → MediaOp
  abandon_op : String → String → ℕ → MediaOp
  relinquish_op : String → String → ℕ → MediaOp
  claim_op : String → String → ℕ → ℕ → MediaOp
  deleted_op : String → String → ℕ → MediaOp
  retry_op : String → String → String → ℕ → ℕ → MediaOp
  manual_op : String → ℕ → ℕ → MediaOp

-- The table after a transaction: one that raises has been rolled back.
abbrev pub after : {A : Type 0} → Outcome MediaError (A × Table) → Table → Table
after (ok (a, rows')) rows = rows'
after (err e) rows = rows

module _ (cipher : Cipher) where
  unfoldable pub run_op : MediaOp → Table → Table
  run_op (create_op id provider account token now lease) rows =
      after (create id provider account token now lease rows) rows
  run_op (register_op nonce id token name now lease) rows =
      after (register_resource cipher nonce id token name now lease rows) rows
  run_op (renew_op id token now lease) rows = after (renew id token now lease rows) rows
  run_op (abandon_op id token now) rows = after (abandon_before_upload id token now rows) rows
  run_op (relinquish_op id token now) rows = after (relinquish id token now rows) rows
  run_op (claim_op id token now lease) rows =
      after (claim_recovery cipher id token now lease rows) rows
  run_op (deleted_op id token now) rows = after (mark_deleted id token now rows) rows
  run_op (retry_op id token reason now next) rows =
      after (mark_retry id token reason now next rows) rows
  run_op (manual_op id expected now) rows = after (resolve_manual id expected now rows) rows

  unfoldable pub run_ops : List MediaOp → Table → Table
  run_ops [] rows = rows
  run_ops (op ∷ ops) rows = run_ops ops (run_op op rows)

pub after-keeps :
    {A : Type 0} (P : Table → Type 0) (m : Outcome MediaError (A × Table)) (rows : Table)
    → P rows
    → ((a : A) (rows' : Table) → m ≡ ok (a, rows') → P rows')
    → P (after m rows)
after-keeps P (ok (a, rows')) rows h k = k a rows' refl
after-keeps P (err e) rows h k = h

-- Every operation keeps the rows in agreement with their states.
pub run_op-IsValid :
    (cipher : Cipher) (op : MediaOp) (rows : Table)
    → All IsValid rows
    → All IsValid (run_op cipher op rows)
unfolding run_op
run_op-IsValid cipher (create_op id p a t n l) rows v =
    after-keeps (All IsValid) _ rows v (λ r rows' h. create-IsValid rows r rows' v id p a t n l h)
run_op-IsValid cipher (register_op c id t name n l) rows v =
    after-keeps (All IsValid) _ rows v
      (λ r rows' h. register_resource-IsValid rows r rows' v cipher c id t name n l h)
run_op-IsValid cipher (renew_op id t n l) rows v =
    after-keeps (All IsValid) _ rows v (λ r rows' h. renew-IsValid rows r rows' v id t n l h)
run_op-IsValid cipher (abandon_op id t n) rows v =
    after-keeps (All IsValid) _ rows v
      (λ r rows' h. abandon_before_upload-IsValid rows r rows' v id t n h)
run_op-IsValid cipher (relinquish_op id t n) rows v =
    after-keeps (All IsValid) _ rows v (λ r rows' h. relinquish-IsValid rows r rows' v id t n h)
run_op-IsValid cipher (claim_op id t n l) rows v =
    after-keeps (All IsValid) _ rows v
      (λ f rows' h. claim_recovery-IsValid rows rows' cipher id t n l f v h)
run_op-IsValid cipher (deleted_op id t n) rows v =
    after-keeps (All IsValid) _ rows v (λ r rows' h. mark_deleted-IsValid rows r rows' v id t n h)
run_op-IsValid cipher (retry_op id t reason n k) rows v =
    after-keeps (All IsValid) _ rows v
      (λ r rows' h. mark_retry-IsValid rows r rows' v id t reason n k h)
run_op-IsValid cipher (manual_op id e n) rows v =
    after-keeps (All IsValid) _ rows v (λ r rows' h. resolve_manual-IsValid rows r rows' v id e n h)

-- Any operations in any order keep every row in agreement with its state, the empty table included:
-- a row with a lease or a next attempt is never under review or closed, media in use or to be deleted
-- have a resource on record, and closed media have none.
pub journal-IsValid :
    (cipher : Cipher) (ops : List MediaOp) (rows : Table)
    → All IsValid rows
    → All IsValid (run_ops cipher ops rows)
unfolding run_ops
journal-IsValid cipher [] rows v = v
journal-IsValid cipher (op ∷ ops) rows v =
    journal-IsValid cipher ops (run_op cipher op rows) (run_op-IsValid cipher op rows v)

-- Which state may come after which.
abbrev pub may_become : MediaCleanupState → MediaCleanupState → Bool
may_become uploading deleted = true
may_become uploading in_use = true
may_become uploading manual_review = true
may_become uploading uploading = true
may_become in_use in_use = true
may_become in_use delete_pending = true
may_become in_use manual_review = true
may_become delete_pending delete_pending = true
may_become delete_pending manual_review = true
may_become delete_pending deleted = true
may_become manual_review manual_review = true
may_become manual_review deleted = true
may_become deleted deleted = true
may_become _ _ = false

-- What one operation may make of a row: the same identity, no fewer attempts, a state that may come
-- next; and a resource on record is still the same, or its deletion has just been confirmed.
pub record Follows (r r' : MediaCleanupRow) : Type 0 where
  pub id : r'.id ≡ r.id
  pub provider_id : r'.provider_id ≡ r.provider_id
  pub account_fingerprint : r'.account_fingerprint ≡ r.account_fingerprint
  pub created_at : r'.created_at ≡ r.created_at
  pub attempts : r.attempts ≤ r'.attempts
  pub state : may_become r.state r'.state ≡ true
  pub resource :
      (r.encrypted_resource ≡ none)
      ⊎ (r'.encrypted_resource ≡ r.encrypted_resource)
      ⊎ (r.state ≡ delete_pending) × (r'.state ≡ deleted)

may_become_refl : (s : MediaCleanupState) → may_become s s ≡ true
may_become_refl uploading = refl
may_become_refl _ = refl

Follows-refl : (r : MediaCleanupRow) → Follows r r
Follows-refl r = record {
  id = refl;
  provider_id = refl;
  account_fingerprint = refl;
  created_at = refl;
  attempts = omega arith;
  state = may_become_refl r.state;
  resource = inr (inl refl);
}

-- The fate of the row with an identifier: it is still there, and follows what it was.
abbrev pub Survives : String → MediaCleanupRow → Table → Type 0
Survives id r rows' = (r' : MediaCleanupRow) × (get_row id rows' ≡ some r') × Follows r r'

rewrite-Survives :
    (id : String) (guard : MediaCleanupRow → Bool) (new : MediaCleanupRow → MediaCleanupRow)
    (rows rows' : Table) (k : String) (r : MediaCleanupRow)
    → Rewrites id guard new rows rows'
    → All IsValid rows
    → ((x : MediaCleanupRow) → IsValid x → guard x ≡ true → Follows x (new x))
    → get_row k rows ≡ some r
    → Survives k r rows'
rewrite-Survives id guard new rows rows' k r w valid step at =
    let stepped = step w.row (All-get_row IsValid id rows w.row valid w.found) w.passed_guard in
    let named = get_row-id id rows w.row w.found in
    elim (string_eq.dec id k) [
      | yes same ↦
          let it : w.row ≡ r = ground arith in
          let key : (new w.row).id ≡ k = stepped.id ∙ named ∙ same in
          (new w.row, rw w.written (get_row-put_row k (new w.row) rows r key at), rw (← it) stepped)
      | no other ↦
          let apart : (new w.row).id ≢ k = λ e. other (sym (stepped.id ∙ named) ∙ e) in
          (r, rw w.written (get_row-put_row_other k (new w.row) rows apart ∙ at), Follows-refl r)
    ]

pub get_row-append :
    (k : String) (rows : Table) (new r : MediaCleanupRow)
    → get_row k rows ≡ some r
    → get_row k (rows ++ new ∷ []) ≡ some r
unfolding get_row
get_row-append k [] new r at = cc
get_row-append k (x ∷ rows) new r at = ground (arith, get_row-append k rows new r)

claimed-Follows :
    (cipher : Cipher) (token : String) (now lease_until : ℕ) (r : MediaCleanupRow)
    → IsValid r
    → eligible r now ≡ true
    → Follows r (claimed cipher token now lease_until r).0
unfolding claimed eligible
claimed-Follows cipher token now lease_until r v e = ground arith

module _ (cipher : Cipher) (rows : Table) (valid : All IsValid rows) (k : String)
    (r : MediaCleanupRow) (at : get_row k rows ≡ some r) where
  Survives-after :
      {A : Type 0} (m : Outcome MediaError (A × Table))
      → ((a : A) (rows' : Table) → m ≡ ok (a, rows') → Survives k r rows')
      → Survives k r (after m rows)
  Survives-after m each = after-keeps (Survives k r) m rows (r, at, Follows-refl r) each

  -- Whatever operation runs on a journal in agreement with its states, every row in it is still
  -- there afterwards and follows what it was: its identity is the same, its state may come after
  -- the old one, and a resource on record is kept unless its deletion has just been confirmed.
  pub run_op-Survives : (op : MediaOp) → Survives k r (run_op cipher op rows)
  unfolding run_op is_owned
  run_op-Survives (create_op id p a t n l) = Survives-after _ (λ rec rows' h. (
    r,
    rw (create-inv rows rec rows' id p a t n l h).3
        (get_row-append k rows (new_row id p a t n l) r at),
    Follows-refl r,
  ))
  run_op-Survives (register_op c id t name n l) = Survives-after _ (λ rec rows' h.
      rewrite-Survives id _ _ rows rows' k r
        (register_resource-inv rows rec rows' cipher c id t name n l h).2 valid
        (λ x v g. ground arith) at)
  run_op-Survives (renew_op id t n l) = Survives-after _ (λ rec rows' h.
      rewrite-Survives id _ _ rows rows' k r (renew-inv rows rec rows' id t n l h).1 valid
        (λ x v g. ground arith) at)
  run_op-Survives (abandon_op id t n) = Survives-after _ (λ rec rows' h.
      rewrite-Survives id _ _ rows rows' k r (abandon_before_upload-inv rows rec rows' id t n h)
        valid (λ x v g. ground arith) at)
  run_op-Survives (relinquish_op id t n) = Survives-after _ (λ rec rows' h.
      rewrite-Survives id _ _ rows rows' k r (relinquish-inv rows rec rows' id t n h) valid
        (λ x v g. ground arith) at)
  run_op-Survives (claim_op id t n l) = Survives-after _ (λ found rows' h.
      elim (claim_recovery-inv cipher id t n l rows found rows' h) [
        | inl (nothing, same) ↦ (r, rw same at, Follows-refl r)
        | inr (lease, w, it) ↦
            rewrite-Survives id _ _ rows rows' k r w valid
              (λ x v g. claimed-Follows cipher t n l x v g) at
      ])
  run_op-Survives (deleted_op id t n) = Survives-after _ (λ rec rows' h.
      rewrite-Survives id _ _ rows rows' k r (mark_deleted-inv rows rec rows' id t n h) valid
        (λ x v g. ground arith) at)
  run_op-Survives (retry_op id t reason n m) = Survives-after _ (λ rec rows' h.
      rewrite-Survives id _ _ rows rows' k r (mark_retry-inv rows rec rows' id t reason n m h).2
        valid (λ x v g. ground arith) at)
  run_op-Survives (manual_op id e n) = Survives-after _ (λ rec rows' h.
      rewrite-Survives id _ _ rows rows' k r (resolve_manual-inv rows rec rows' id e n h) valid
        (λ x v g. ground arith) at)
