-- ===== src/Media/Recovery.antt =====
-- What a recovery finds: rows whose lease has ended, and deletions that are tried again, in
-- backend/src/job_apply_pro/storage/media_cleanup_repository.py.
use job_apply_pro.Media.Listing.{is_candidate}
use job_apply_pro.Media.Tables.{get_row-id, get_row-put_row}
use job_apply_pro.Base.{
  leb, option_eq, nat_eq, string_eq, ok, ℕ, ◌+◌, ◌≤◌, ◌<◌, String, ◌≡◌, refl, true, false, none,
  some, arith,
}
use job_apply_pro.Media.Row.{
  in_use, delete_pending, media_state_eq, MediaCleanupRow, MediaCleanupRecord, is_file_name,
  is_short_name, record_of, Cipher, IsFaithful, context_of, file_name, resource_of,
}
use job_apply_pro.Media.Store.{
  Table, get_row, put_row, validate_lease, is_owned, register_resource, eligible, claimed,
  claim_recovery, mark_retry,
}
use job_apply_pro.Media.Inversion.{register_resource-inv, mark_retry-inv}

free_claim :
    (cipher : Cipher) (id token : String) (now lease_until : ℕ) (rows : Table) (r : MediaCleanupRow)
    → get_row id rows ≡ some r
    → eligible r now ≡ true
    → now < lease_until
    → is_short_name token ≡ true
    → claim_recovery cipher id token now lease_until rows
      ≡ ok (
        some (
            record_of
              (claimed cipher token now lease_until r).0
              (claimed cipher token now lease_until r).1),
        put_row (claimed cipher token now lease_until r).0 rows,
      )
unfolding claim_recovery validate_lease
free_claim cipher id token now lease_until rows r at free leased short =
    let future : leb lease_until now ≡ false = ground arith in
    rw future (rw short (rw at (rw free refl)))

claimed-readable :
    (cipher : Cipher) (token : String) (now lease_until : ℕ) (r : MediaCleanupRow) (name : String)
    → resource_of cipher r ≡ some name
    → (claimed cipher token now lease_until r).1 ≡ some name
unfolding claimed resource_of
claimed-readable cipher token now lease_until r name h = ground arith

abbrev registered : Cipher → String → String → ℕ → ℕ → MediaCleanupRow → MediaCleanupRow
registered cipher nonce name now lease_until row = record row {
  encrypted_resource = some (cipher.encrypt nonce (context_of row) name);
  state = in_use;
  lease_until = some lease_until;
  updated_at = now;
}

registered-free :
    (cipher : Cipher) (nonce name : String) (now lease_until later : ℕ) (row : MediaCleanupRow)
    → lease_until ≤ later
    → eligible (registered cipher nonce name now lease_until row) later ≡ true
unfolding eligible
registered-free cipher nonce name now lease_until later row ended = ground arith

registered-readable :
    (cipher : Cipher) (nonce name : String) (now lease_until : ℕ) (row : MediaCleanupRow)
    → IsFaithful cipher
    → is_file_name name ≡ true
    → resource_of cipher (registered cipher nonce name now lease_until row) ≡ some name
unfolding resource_of
registered-readable cipher nonce name now lease_until row faithful named =
    rw (faithful nonce (context_of row) name, file_name) (rw named refl)

-- With a cipher that reads back what it encrypts: once the lease of a registration has ended, a
-- claim takes the row and hands out the very name that was registered.
pub register-claim :
    (cipher : Cipher) (nonce id token name other : String) (now lease_until later lease' : ℕ)
    (rows : Table) (rec : MediaCleanupRecord) (rows' : Table)
    → IsFaithful cipher
    → register_resource cipher nonce id token name now lease_until rows ≡ ok (rec, rows')
    → lease_until ≤ later
    → later < lease'
    → is_short_name other ≡ true
    → (rec' : MediaCleanupRecord) × (rows″ : Table) × (claim_recovery cipher id other later lease'
          rows'
        ≡ ok (some rec', rows″))
      × (rec'.resource_name ≡ some name)
unfolding record_of
register-claim cipher nonce id token name other now lease_until later lease' rows rec rows' faithful
      done ended leased short =
    let (named, lease, w) =
      register_resource-inv rows rec rows' cipher nonce id token name now lease_until done in
    let new : MediaCleanupRow = record (w.row) {
      encrypted_resource = some (cipher.encrypt nonce (context_of w.row) name);
      state = in_use;
      lease_until = some lease_until;
      updated_at = now;
    } in
    let at : get_row id rows' ≡ some new =
      rw w.written (get_row-put_row id new rows w.row (get_row-id id rows w.row w.found) w.found) in
    (
      record_of (claimed cipher other later lease' new).0 (claimed cipher other later lease' new).1,
      put_row (claimed cipher other later lease' new).0 rows',
      free_claim cipher id other later lease' rows' new at
          (registered-free cipher nonce name now lease_until later w.row ended) leased short,
      claimed-readable cipher other later lease' new name
          (registered-readable cipher nonce name now lease_until w.row faithful named),
    )

-- The candidates of the recovery listing are the rows that a claim would take.
pub is_candidate-eligible : (r : MediaCleanupRow) (now : ℕ) → is_candidate now r ≡ eligible r now
unfolding is_candidate eligible
is_candidate-eligible r now = ground arith

-- After a failed deletion the row waits: a claim may take it from the scheduled time on and not
-- before, and its attempts have grown by one.
pub mark_retry-waits :
    (id token reason : String) (now next_attempt_at later : ℕ) (rows : Table)
    (rec : MediaCleanupRecord) (rows' : Table)
    → mark_retry id token reason now next_attempt_at rows ≡ ok (rec, rows')
    → (r r' : MediaCleanupRow) × (get_row id rows ≡ some r)
      × (get_row id rows' ≡ some r')
      × (r'.attempts ≡ r.attempts + 1)
      × (eligible r' later ≡ leb next_attempt_at later)
unfolding eligible is_owned
mark_retry-waits id token reason now next_attempt_at later rows rec rows' done =
    let (coded, ahead, w) =
      mark_retry-inv rows rec rows' id token reason now next_attempt_at done in
    let new : MediaCleanupRow = record (w.row) {
      attempts = w.row.attempts + 1;
      reason = some reason;
      lease_until = none;
      next_attempt_at = some next_attempt_at;
      updated_at = now;
    } in
    let state : w.row.state ≡ delete_pending = ground (arith, w.passed_guard) in
    (
      w.row,
      new,
      w.found,
      rw w.written (get_row-put_row id new rows w.row (get_row-id id rows w.row w.found) w.found),
      refl,
      ground arith,
    )
