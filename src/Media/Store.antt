-- ===== src/Media/Store.antt =====
-- backend/src/job_apply_pro/storage/media_cleanup_repository.py: the operations of
-- `MediaCleanupRepository`, each one a transaction over the table. An operation that raises rolls back,
-- so it returns no table.
use job_apply_pro.Base.{
  if◌then◌else◌, ltb, leb, ◌==◌, option_eq, nat_eq, string_eq, any, is_some, Outcome, ok, ◌>>=◌,
  ◌>>◌, raise_if, or_raise, is_nonempty, ℕ, ◌+◌, String, Bool, false, not, ◌&&◌, ◌||◌, Option, none,
  some, List, [], ◌∷◌, ◌++◌,
}
use job_apply_pro.Media.Row.{
  MediaCleanupState, uploading, in_use, delete_pending, manual_review, deleted, media_state_eq,
  MediaCleanupRow, MediaCleanupRecord, MediaError, invalid_argument, conflict, duplicate,
  is_file_name, is_reason, is_fingerprint, is_short_name, is_active, is_past, record_of, Cipher,
  context_of, resource_of,
}

abbrev pub Table : Type 0
Table = List MediaCleanupRow

-- `session.get(MediaCleanupRow, id)`
unfoldable pub get_row : String → Table → Option MediaCleanupRow
get_row id [] = none
get_row id (r ∷ rows) = if r.id == id then some r else get_row id rows

-- the update of the row that was read
unfoldable pub put_row : MediaCleanupRow → Table → Table
put_row row [] = []
put_row row (r ∷ rows) = if r.id == row.id then row ∷ rows else r ∷ put_row row rows

abbrev pub Result : Type 0
Result = Outcome MediaError (MediaCleanupRecord × Table)

abbrev pub commit : MediaCleanupRow → Option String → Table → Result
commit row name rows = ok (record_of row name, put_row row rows)

-- `_validate_lease`
unfoldable pub validate_lease : ℕ → ℕ → Outcome MediaError (Unit {0})
validate_lease now lease_until = raise_if (leb lease_until now) invalid_argument

-- A row of the account that stands in the way of a new upload by this owner.
unfoldable pub blocks : String → String → ℕ → MediaCleanupRow → Bool
unfolding media_state_eq
blocks account token now r =
    r.account_fingerprint == account
    && not (r.state == deleted)
    && (not (r.owner_token == token) || not (is_active r.state) || is_past r.lease_until now)

-- the row of a new upload
abbrev pub new_row : String → String → String → String → ℕ → ℕ → MediaCleanupRow
new_row id provider_id account token now lease_until = record {
  id = id;
  provider_id = provider_id;
  account_fingerprint = account;
  owner_token = token;
  state = uploading;
  encrypted_resource = none;
  attempts = 0;
  reason = none;
  lease_until = some lease_until;
  next_attempt_at = none;
  created_at = now;
  updated_at = now;
}

unfoldable pub create : String → String → String → String → ℕ → ℕ → Table → Result
create id provider_id account token now lease_until rows = do
  raise_if (not (is_short_name provider_id)) invalid_argument
  raise_if (not (is_fingerprint account)) invalid_argument
  raise_if (not (is_short_name token)) invalid_argument
  validate_lease now lease_until
  raise_if (any (blocks account token now) rows) conflict
  raise_if (any (λ r. r.id == id) rows) duplicate
  let row = new_row id provider_id account token now lease_until
  ok (record_of row none, rows ++ row ∷ [])

-- The guard of `_owned` on a row that was found.
unfoldable pub is_owned : String → (MediaCleanupState → Bool) → ℕ → MediaCleanupRow → Bool
is_owned token states now r =
    r.owner_token == token && states r.state && not (is_past r.lease_until now)

-- `_owned`
unfoldable pub owned :
    String → String → (MediaCleanupState → Bool) → ℕ → Table → Outcome MediaError MediaCleanupRow
owned id token states now rows = do
  row ← or_raise (get_row id rows) conflict
  raise_if (not (is_owned token states now row)) conflict
  ok row

abbrev pub only : MediaCleanupState → MediaCleanupState → Bool
only s t = t == s

unfoldable pub register_resource :
    Cipher → String → String → String → String → ℕ → ℕ → Table → Result
register_resource cipher nonce id token name now lease_until rows = do
  raise_if (not (is_file_name name)) invalid_argument
  validate_lease now lease_until
  row ← owned id token (only uploading) now rows
  commit
      (record row {
        encrypted_resource = some (cipher.encrypt nonce (context_of row) name);
        state = in_use;
        lease_until = some lease_until;
        updated_at = now;
      })
      (some name) rows

unfoldable pub renew : String → String → ℕ → ℕ → Table → Result
renew id token now lease_until rows = do
  validate_lease now lease_until
  row ← owned id token (λ s. is_active s || s == delete_pending) now rows
  commit (record row { lease_until = some lease_until; updated_at = now }) none rows

unfoldable pub abandon_before_upload : String → String → ℕ → Table → Result
abandon_before_upload id token now rows = do
  row ← owned id token (only uploading) now rows
  raise_if (is_some row.encrypted_resource) conflict
  commit
      (record row {
        state = deleted;
        reason = some "NOT_UPLOADED";
        lease_until = none;
        next_attempt_at = none;
        updated_at = now;
      })
      none rows

-- `bool(row.encrypted_resource)`: an empty text counts as nothing here.
abbrev pub has_text : Option String → Bool
has_text none = false
has_text (some s) = is_nonempty s

unfoldable pub relinquish : String → String → ℕ → Table → Result
relinquish id token now rows = do
  row ← owned id token is_active now rows
  commit
      (record row {
        state = if is_some row.encrypted_resource then delete_pending else manual_review;
        reason =
            some
              (if has_text row.encrypted_resource then "DELETION_REQUIRED" else "UNKNOWN_UPLOAD");
        lease_until = none;
        next_attempt_at = if has_text row.encrypted_resource then some now else none;
        updated_at = now;
      })
      none rows

-- `_eligible`
unfoldable pub eligible : MediaCleanupRow → ℕ → Bool
unfolding media_state_eq
eligible row now =
    if is_active row.state
    then is_past row.lease_until now
    else row.state == delete_pending
      && is_past row.lease_until now
      && is_past row.next_attempt_at now

-- the new row of a claim, and the name that the claim hands out
unfoldable pub claimed : Cipher → String → ℕ → ℕ → MediaCleanupRow → MediaCleanupRow × Option String
claimed cipher token now lease_until row =
    let taken = record row { owner_token = token; updated_at = now; next_attempt_at = none } in
    if not (is_some row.encrypted_resource)
    then (
      record taken { state = manual_review; reason = some "UNKNOWN_UPLOAD"; lease_until = none },
      none,
    )
    else elim (resource_of cipher row) [
      | none ↦ (
        record taken {
          state = manual_review;
          reason = some "UNREADABLE_RESOURCE";
          lease_until = none;
        },
        none,
      )
      | some name ↦ (
        record taken {
          state = delete_pending;
          reason = some "DELETION_REQUIRED";
          lease_until = some lease_until;
        },
        some name,
      )
    ]

-- `None` where the row is missing or not eligible.
unfoldable pub claim_recovery :
    Cipher
    → String
    → String
    → ℕ
    → ℕ
    → Table
    → Outcome MediaError (Option MediaCleanupRecord × Table)
unfolding claimed
claim_recovery cipher id token now lease_until rows = do
  validate_lease now lease_until
  raise_if (not (is_short_name token)) invalid_argument
  elim (get_row id rows) [
    | none ↦ ok (none, rows)
    | some row ↦
        if eligible row now
        then ok (
          some (
              record_of (claimed cipher token now lease_until row).0
                (claimed cipher token now lease_until row).1),
          put_row (claimed cipher token now lease_until row).0 rows,
        )
        else ok (none, rows)
  ]

unfoldable pub mark_deleted : String → String → ℕ → Table → Result
mark_deleted id token now rows = do
  row ← owned id token (only delete_pending) now rows
  raise_if (not (is_some row.encrypted_resource)) conflict
  commit
      (record row {
        state = deleted;
        reason = some "DELETION_CONFIRMED";
        encrypted_resource = none;
        lease_until = none;
        next_attempt_at = none;
        updated_at = now;
      })
      none rows

unfoldable pub mark_retry : String → String → String → ℕ → ℕ → Table → Result
mark_retry id token reason now next_attempt_at rows = do
  raise_if (not (is_reason reason)) invalid_argument
  raise_if (ltb next_attempt_at now) invalid_argument
  row ← owned id token (only delete_pending) now rows
  commit
      (record row {
        attempts = row.attempts + 1;
        reason = some reason;
        lease_until = none;
        next_attempt_at = some next_attempt_at;
        updated_at = now;
      })
      none rows

unfoldable pub resolve_manual : String → ℕ → ℕ → Table → Result
unfolding media_state_eq
resolve_manual id expected_updated_at now rows = do
  row ← or_raise (get_row id rows) conflict
  raise_if
      (not (row.state == manual_review)
        || is_some row.encrypted_resource
        || not (row.updated_at == expected_updated_at))
      conflict
  commit
      (record row {
        state = deleted;
        reason = some "MANUALLY_REVIEWED";
        lease_until = none;
        next_attempt_at = none;
        updated_at = now;
      })
      none rows
