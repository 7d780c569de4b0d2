-- ===== src/Media/Validity.antt =====
-- The rows of the journal agree with their states, whatever operations have run.
use job_apply_pro.Media.Inversion.{
  abandon_before_upload-inv, mark_deleted-inv, mark_retry-inv, resolve_manual-inv, create-inv,
  claim_recovery-inv,
}
use job_apply_pro.Media.Inversion.{renew-inv}
use job_apply_pro.Media.Inversion.{register_resource-inv}
use job_apply_pro.Media.Inversion.{relinquish-inv}
use job_apply_pro.Media.Tables.{Rewrites, All-get_row, All-put_row}
use job_apply_pro.Base.{
  option_eq, nat_eq, string_eq, All, is_some, String, ◌≡◌, ◌⊎◌, true, none, [], ◌∷◌, ok, ℕ, Bool,
  ◌++◌, arith, refl, Option, inl, inr,
}
use job_apply_pro.Media.Row.{
  MediaCleanupState, uploading, in_use, delete_pending, manual_review, deleted, media_state_eq,
  MediaCleanupRow, MediaCleanupRecord, Cipher,
}
use job_apply_pro.Media.Store.{
  Table, is_owned, register_resource, renew, abandon_before_upload, relinquish, new_row, create,
  claim_recovery, mark_deleted, mark_retry, resolve_manual, claimed,
}

-- What holds of a row in each state: an upload in progress has a lease and no resource, media in use
-- has both, media to delete has a resource, and a lease or a next attempt but not both; a row under
-- review or closed has neither, and a closed row has no resource left.
abbrev pub IsValidIn : MediaCleanupState → MediaCleanupRow → Type 0
IsValidIn uploading r =
    (r.encrypted_resource ≡ none) × (is_some r.lease_until ≡ true) × (r.next_attempt_at ≡ none)
IsValidIn in_use r =
    (is_some r.encrypted_resource ≡ true)
    × (is_some r.lease_until ≡ true)
    × (r.next_attempt_at ≡ none)
IsValidIn delete_pending r =
    (is_some r.encrypted_resource ≡ true) × ((r.lease_until ≡ none) ⊎ (r.next_attempt_at ≡ none))
IsValidIn manual_review r = (r.lease_until ≡ none) × (r.next_attempt_at ≡ none)
IsValidIn deleted r =
    (r.encrypted_resource ≡ none) × (r.lease_until ≡ none) × (r.next_attempt_at ≡ none)

abbrev pub IsValid : MediaCleanupRow → Type 0
IsValid r = IsValidIn r.state r

claimed-IsValid :
    (cipher : Cipher) (token : String) (now lease_until : ℕ) (r : MediaCleanupRow)
    → IsValid (claimed cipher token now lease_until r).0
unfolding claimed
claimed-IsValid cipher token now lease_until r = ground arith

pub All-append_last :
    (P : MediaCleanupRow → Type 0) (rows : Table) (r : MediaCleanupRow)
    → All P rows
    → P r
    → All P (rows ++ r ∷ [])
All-append_last P [] r h p = (p, tt)
All-append_last P (x ∷ rows) r h p = (h.0, All-append_last P rows r h.1 p)

module _ (rows : Table) where
  rewrite-All :
      (P : MediaCleanupRow → Type 0) (id : String) (guard : MediaCleanupRow → Bool)
      (new : MediaCleanupRow → MediaCleanupRow) (rows' : Table)
      → Rewrites id guard new rows rows'
      → ((r : MediaCleanupRow) → P r → guard r ≡ true → P (new r))
      → All P rows
      → All P rows'
  rewrite-All P id guard new rows' w keeps all_rows = rw w.written (
      All-put_row P (new w.row) rows
        (keeps w.row (All-get_row P id rows w.row all_rows w.found) w.passed_guard) all_rows)

  module _ (rec : MediaCleanupRecord) (rows' : Table) (valid : All IsValid rows) where
    pub register_resource-IsValid :
        (cipher : Cipher) (nonce id token name : String) (now lease_until : ℕ)
        → register_resource cipher nonce id token name now lease_until rows ≡ ok (rec, rows')
        → All IsValid rows'
    unfolding is_owned
    register_resource-IsValid cipher nonce id token name now lease_until h =
        rewrite-All IsValid id _ _ rows'
          (register_resource-inv rows rec rows' cipher nonce id token name now lease_until h).2
          (λ r v g. ground arith) valid

    pub renew-IsValid :
        (id token : String) (now lease_until : ℕ)
        → renew id token now lease_until rows ≡ ok (rec, rows')
        → All IsValid rows'
    unfolding is_owned
    renew-IsValid id token now lease_until h =
        rewrite-All IsValid id _ _ rows' (renew-inv rows rec rows' id token now lease_until h).1
          (λ r v g. ground arith) valid

    pub abandon_before_upload-IsValid :
        (id token : String) (now : ℕ)
        → abandon_before_upload id token now rows ≡ ok (rec, rows')
        → All IsValid rows'
    unfolding is_owned
    abandon_before_upload-IsValid id token now h =
        rewrite-All IsValid id _ _ rows' (abandon_before_upload-inv rows rec rows' id token now h)
          (λ r v g. ground arith) valid

    pub relinquish-IsValid :
        (id token : String) (now : ℕ)
        → relinquish id token now rows ≡ ok (rec, rows')
        → All IsValid rows'
    unfolding is_owned
    relinquish-IsValid id token now h =
        rewrite-All IsValid id _ _ rows' (relinquish-inv rows rec rows' id token now h)
          (λ r v g. ground arith) valid

    pub mark_deleted-IsValid :
        (id token : String) (now : ℕ)
        → mark_deleted id token now rows ≡ ok (rec, rows')
        → All IsValid rows'
    mark_deleted-IsValid id token now h =
        rewrite-All IsValid id _ _ rows' (mark_deleted-inv rows rec rows' id token now h)
          (λ r v g. (refl, refl, refl)) valid

    pub mark_retry-IsValid :
        (id token reason : String) (now next_attempt_at : ℕ)
        → mark_retry id token reason now next_attempt_at rows ≡ ok (rec, rows')
        → All IsValid rows'
    unfolding is_owned
    mark_retry-IsValid id token reason now next_attempt_at h =
        rewrite-All IsValid id _ _ rows'
          (mark_retry-inv rows rec rows' id token reason now next_attempt_at h).2
          (λ r v g. ground arith) valid

    pub resolve_manual-IsValid :
        (id : String) (expected now : ℕ)
        → resolve_manual id expected now rows ≡ ok (rec, rows')
        → All IsValid rows'
    resolve_manual-IsValid id expected now h =
        rewrite-All IsValid id _ _ rows' (resolve_manual-inv rows rec rows' id expected now h)
          (λ r v g. ground arith) valid

    pub create-IsValid :
        (id provider_id account token : String) (now lease_until : ℕ)
        → create id provider_id account token now lease_until rows ≡ ok (rec, rows')
        → All IsValid rows'
    create-IsValid id provider_id account token now lease_until h =
        rw (create-inv rows rec rows' id provider_id account token now lease_until h).3 (
          All-append_last IsValid rows (new_row id provider_id account token now lease_until) valid
            (refl, refl, refl))

pub claim_recovery-IsValid :
    (rows rows' : Table) (cipher : Cipher) (id token : String) (now lease_until : ℕ)
    (found : Option MediaCleanupRecord)
    → All IsValid rows
    → claim_recovery cipher id token now lease_until rows ≡ ok (found, rows')
    → All IsValid rows'
claim_recovery-IsValid rows rows' cipher id token now lease_until found valid h =
    elim (claim_recovery-inv cipher id token now lease_until rows found rows' h) [
      | inl (nothing, same) ↦ rw same valid
      | inr (lease, w, it) ↦
          rewrite-All rows IsValid id _ _ rows' w
            (λ r v g. claimed-IsValid cipher token now lease_until r) valid
    ]
