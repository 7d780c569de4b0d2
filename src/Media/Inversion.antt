-- ===== src/Media/Inversion.antt =====
-- What each operation of the journal has done when it returns: it rewrote one row that passed its
-- guard, and no other.
use job_apply_pro.Base.{
  if◌then◌else◌, Option-cases, ltb, leb, ◌==◌, option_eq, nat_eq, string_eq, is_some, ok, raise_if,
  >>=-eq-ok, raise_if-inv, ℕ, ◌+◌, ◌≤◌, ◌<◌, String, ◌≡◌, refl, inl, inr, Bool, true, false, not,
  ◌&&◌, ◌||◌, Option, none, some, arith, ◌>>=◌, ◌>>◌, any, [], ◌∷◌, ◌++◌, Bool-cases, ◌⊎◌,
}
use job_apply_pro.Media.Row.{
  MediaCleanupState, uploading, in_use, delete_pending, manual_review, deleted, media_state_eq,
  MediaCleanupRow, MediaCleanupRecord, invalid_argument, conflict, is_file_name, is_reason,
  is_active, Cipher, context_of, duplicate, is_fingerprint, is_short_name, record_of,
}
use job_apply_pro.Media.Store.{
  Table, get_row, commit, validate_lease, is_owned, owned, only, register_resource, renew,
  abandon_before_upload, has_text, relinquish, mark_deleted, mark_retry, resolve_manual, blocks,
  new_row, create, eligible, claimed, claim_recovery,
}
use job_apply_pro.Media.Tables.{Rewrites, owned-inv}

module _ (id token : String) (states : MediaCleanupState → Bool) (now : ℕ) (rows : Table) where
  owned-commit :
      (bad : MediaCleanupRow → Bool) (new : MediaCleanupRow → MediaCleanupRow)
      (name : Option String) (rec : MediaCleanupRecord) (rows' : Table)
      → (owned id token states now rows >>= λ row.
          raise_if (bad row) conflict >> commit (new row) name rows)
        ≡ ok (rec, rows')
      → Rewrites id (λ r. is_owned token states now r && not (bad r)) new rows rows'
  owned-commit bad new name rec rows' h =
      let (row, found, rest) = >>=-eq-ok (owned id token states now rows) _ h in
      let (fine, done) =
        raise_if-inv (bad row) conflict (commit (new row) name rows) (rec, rows') rest in
      let (at, passes) = owned-inv id token states now rows row found in
      record {
        row = row;
        found = at;
        passed_guard = rw (passes, fine) refl;
        written = ground arith;
      }

module _ (rows : Table) (rec : MediaCleanupRecord) (rows' : Table) where
  pub register_resource-inv :
      (cipher : Cipher) (nonce id token name : String) (now lease_until : ℕ)
      → register_resource cipher nonce id token name now lease_until rows ≡ ok (rec, rows')
      → (is_file_name name ≡ true)
        × (now < lease_until)
        × Rewrites id
            (λ r. is_owned token (only uploading) now r && not false)
            (λ row. record row {
              encrypted_resource = some (cipher.encrypt nonce (context_of row) name);
              state = in_use;
              lease_until = some lease_until;
              updated_at = now;
            })
            rows
            rows'
  unfolding register_resource validate_lease
  register_resource-inv cipher nonce id token name now lease_until h =
      let (named, rest) =
        raise_if-inv (not (is_file_name name)) invalid_argument _ (rec, rows') h in
      let (leased, call) =
        raise_if-inv (leb lease_until now) invalid_argument _ (rec, rows') rest in
      (
        ground arith,
        ground arith,
        owned-commit id token (only uploading) now rows (λ r. false) _ (some name) rec rows' call,
      )

  pub renew-inv :
      (id token : String) (now lease_until : ℕ)
      → renew id token now lease_until rows ≡ ok (rec, rows')
      → (now < lease_until)
        × Rewrites id
            (λ r. is_owned token (λ s. is_active s || s == delete_pending) now r && not false)
            (λ row. record row { lease_until = some lease_until; updated_at = now })
            rows
            rows'
  unfolding renew validate_lease
  renew-inv id token now lease_until h =
      let (leased, call) = raise_if-inv (leb lease_until now) invalid_argument _ (rec, rows') h in
      (
        ground arith,
        owned-commit id token (λ s. is_active s || s == delete_pending) now rows (λ r. false) _ none
            rec rows' call,
      )

  pub abandon_before_upload-inv :
      (id token : String) (now : ℕ)
      → abandon_before_upload id token now rows ≡ ok (rec, rows')
      → Rewrites id
          (λ r. is_owned token (only uploading) now r && not (is_some r.encrypted_resource))
          (λ row. record row {
            state = deleted;
            reason = some "NOT_UPLOADED";
            lease_until = none;
            next_attempt_at = none;
            updated_at = now;
          })
          rows
          rows'
  unfolding abandon_before_upload
  abandon_before_upload-inv id token now h =
      owned-commit id token (only uploading) now rows (λ r. is_some r.encrypted_resource) _ none rec
        rows' h

  pub relinquish-inv :
      (id token : String) (now : ℕ)
      → relinquish id token now rows ≡ ok (rec, rows')
      → Rewrites id
          (λ r. is_owned token is_active now r && not false)
          (λ row. record row {
            state = if is_some row.encrypted_resource then delete_pending else manual_review;
            reason =
                some (
                  if has_text row.encrypted_resource
                  then "DELETION_REQUIRED"
                  else "UNKNOWN_UPLOAD");
            lease_until = none;
            next_attempt_at = if has_text row.encrypted_resource then some now else none;
            updated_at = now;
          })
          rows
          rows'
  unfolding relinquish
  relinquish-inv id token now h =
      owned-commit id token is_active now rows (λ r. false) _ none rec rows' h

  pub mark_deleted-inv :
      (id token : String) (now : ℕ)
      → mark_deleted id token now rows ≡ ok (rec, rows')
      → Rewrites id
          (λ r.
            is_owned token (only delete_pending) now r && not (not (is_some r.encrypted_resource)))
          (λ row. record row {
            state = deleted;
            reason = some "DELETION_CONFIRMED";
            encrypted_resource = none;
            lease_until = none;
            next_attempt_at = none;
            updated_at = now;
          })
          rows
          rows'
  unfolding mark_deleted
  mark_deleted-inv id token now h =
      owned-commit id token (only delete_pending) now rows (λ r. not (is_some r.encrypted_resource))
        _ none rec rows' h

  pub mark_retry-inv :
      (id token reason : String) (now next_attempt_at : ℕ)
      → mark_retry id token reason now next_attempt_at rows ≡ ok (rec, rows')
      → (is_reason reason ≡ true)
        × (now ≤ next_attempt_at)
        × Rewrites id
            (λ r. is_owned token (only delete_pending) now r && not false)
            (λ row. record row {
              attempts = row.attempts + 1;
              reason = some reason;
              lease_until = none;
              next_attempt_at = some next_attempt_at;
              updated_at = now;
            })
            rows
            rows'
  unfolding mark_retry
  mark_retry-inv id token reason now next_attempt_at h =
      let (coded, rest) = raise_if-inv (not (is_reason reason)) invalid_argument _ (rec, rows') h in
      let (later, call) =
        raise_if-inv (ltb next_attempt_at now) invalid_argument _ (rec, rows') rest in
      (
        ground arith,
        ground arith,
        owned-commit id token (only delete_pending) now rows (λ r. false) _ none rec rows' call,
      )

  pub resolve_manual-inv :
      (id : String) (expected now : ℕ)
      → resolve_manual id expected now rows ≡ ok (rec, rows')
      → Rewrites id
          (λ r. not (
            not (r.state == manual_review)
            || is_some r.encrypted_resource
            || not (r.updated_at == expected)))
          (λ row. record row {
            state = deleted;
            reason = some "MANUALLY_REVIEWED";
            lease_until = none;
            next_attempt_at = none;
            updated_at = now;
          })
          rows
          rows'
  unfolding resolve_manual
  resolve_manual-inv id expected now h = elim (Option-cases (get_row id rows)) [
    | inl missing ↦ absurd (ground arith)
    | inr (row, at) ↦ record {
      row = row;
      found = at;
      passed_guard = ground arith;
      written = ground arith;
    }
  ]

  pub create-inv :
      (id provider_id account token : String) (now lease_until : ℕ)
      → create id provider_id account token now lease_until rows ≡ ok (rec, rows')
      → (now < lease_until)
        × (any (blocks account token now) rows ≡ false)
        × (any (λ r. r.id == id) rows ≡ false)
        × (rows' ≡ rows ++ new_row id provider_id account token now lease_until ∷ [])
  unfolding create validate_lease
  create-inv id provider_id account token now lease_until h =
      let (a, h₁) =
        raise_if-inv (not (is_short_name provider_id)) invalid_argument _ (rec, rows') h in
      let (b, h₂) =
        raise_if-inv (not (is_fingerprint account)) invalid_argument _ (rec, rows') h₁ in
      let (c, h₃) = raise_if-inv (not (is_short_name token)) invalid_argument _ (rec, rows') h₂ in
      let (d, h₄) = raise_if-inv (leb lease_until now) invalid_argument _ (rec, rows') h₃ in
      let (e, h₅) = raise_if-inv (any (blocks account token now) rows) conflict _ (rec, rows') h₄ in
      let (f, h₆) = raise_if-inv (any (λ r. r.id == id) rows) duplicate _ (rec, rows') h₅ in
      (ground arith, e, f, ground arith)

-- A claim that returns took nothing and changed nothing, or it took an eligible row.
pub claim_recovery-inv :
    (cipher : Cipher) (id token : String) (now lease_until : ℕ) (rows : Table)
    (found : Option MediaCleanupRecord) (rows' : Table)
    → claim_recovery cipher id token now lease_until rows ≡ ok (found, rows')
    → (found ≡ none) × (rows' ≡ rows)
      ⊎ (now < lease_until)
        × (w : Rewrites id
            (λ r. eligible r now)
            (λ r. (claimed cipher token now lease_until r).0)
            rows
            rows')
        × (found
            ≡ some (
                record_of
                  (claimed cipher token now lease_until w.row).0
                  (claimed cipher token now lease_until w.row).1))
unfolding claim_recovery validate_lease
claim_recovery-inv cipher id token now lease_until rows found rows' h =
    let (a, h₁) = raise_if-inv (leb lease_until now) invalid_argument _ (found, rows') h in
    let (b, h₂) = raise_if-inv (not (is_short_name token)) invalid_argument _ (found, rows') h₁ in
    elim (Option-cases (get_row id rows)) [
      | inl missing ↦ inl (ground arith, ground arith)
      | inr (row, at) ↦ elim (Bool-cases (eligible row now)) [
        | inr busy ↦ inl (ground arith, ground arith)
        | inl free ↦ inr (
          ground arith,
          record { row = row; found = at; passed_guard = free; written = ground arith },
          ground arith,
        )
      ]
    ]
