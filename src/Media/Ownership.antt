-- ===== src/Media/Ownership.antt =====
-- Who may act on uploaded media: admission of an account, leases, and the transfer of ownership.
use job_apply_pro.Media.Tables.{get_row-id, get_row-put_row}
use job_apply_pro.Media.Validity.{All-append_last}
use job_apply_pro.Base.{
  option_eq, nat_eq, string_eq, any, All, ok, ℕ, String, ◌≡◌, refl, ◌≢◌, ◌⊎◌, inr, true, false,
  none, some, [], ◌∷◌, arith, ◌<◌, ◌∙◌, inl, leb,
}
use job_apply_pro.Media.Row.{
  delete_pending, deleted, media_state_eq, MediaCleanupRow, MediaCleanupRecord, is_active, is_past,
  Cipher, is_short_name, record_of,
}
use job_apply_pro.Media.Store.{
  Table, get_row, blocks, new_row, create, validate_lease, eligible, claimed, claim_recovery,
}
use job_apply_pro.Media.Inversion.{create-inv, claim_recovery-inv}

-- An unresolved row of the account is this owner's, in an active state, under a running lease; a row
-- of another account or a closed one is of no concern.
abbrev pub IsAdmissible : String → String → ℕ → MediaCleanupRow → Type 0
IsAdmissible account token now r =
    (r.account_fingerprint ≢ account)
    ⊎ (r.state ≡ deleted)
    ⊎ (r.owner_token ≡ token) × (is_active r.state ≡ true) × (is_past r.lease_until now ≡ false)

unblocked :
    (account token : String) (now : ℕ) (rows : Table)
    → any (blocks account token now) rows ≡ false
    → All (IsAdmissible account token now) rows
unfolding blocks
unblocked account token now [] h = tt
unblocked account token now (r ∷ rows) h =
    (ground arith, unblocked account token now rows (ground arith))

-- When a new upload is admitted, every unresolved row of the account, the new one included, is in the
-- hands of the same owner, active and under a running lease.
pub create_exclusive :
    (id provider_id account token : String) (now lease_until : ℕ) (rows : Table)
    (rec : MediaCleanupRecord) (rows' : Table)
    → create id provider_id account token now lease_until rows ≡ ok (rec, rows')
    → All (IsAdmissible account token now) rows'
create_exclusive id provider_id account token now lease_until rows rec rows' h =
    let (lease, free, fresh, written) =
      create-inv rows rec rows' id provider_id account token now lease_until h in
    rw written (
      All-append_last (IsAdmissible account token now) rows
        (new_row id provider_id account token now lease_until)
        (unblocked account token now rows free) (inr (inr (refl, refl, ground arith))))

pub claimed-id :
    (cipher : Cipher) (token : String) (now lease_until : ℕ) (r : MediaCleanupRow)
    → ((claimed cipher token now lease_until r).0.id ≡ r.id)
      × ((claimed cipher token now lease_until r).0.owner_token ≡ token)
unfolding claimed
claimed-id cipher token now lease_until r = ground arith

pub claimed-name :
    (cipher : Cipher) (token : String) (now lease_until : ℕ) (r : MediaCleanupRow) (name : String)
    → (claimed cipher token now lease_until r).1 ≡ some name
    → ((claimed cipher token now lease_until r).0.state ≡ delete_pending)
      × ((claimed cipher token now lease_until r).0.lease_until ≡ some lease_until)
unfolding claimed
claimed-name cipher token now lease_until r name h = ground arith

busy_claim :
    (cipher : Cipher) (id token : String) (now lease_until : ℕ) (rows : Table) (r : MediaCleanupRow)
    → get_row id rows ≡ some r
    → eligible r now ≡ false
    → now < lease_until
    → is_short_name token ≡ true
    → claim_recovery cipher id token now lease_until rows ≡ ok (none, rows)
unfolding claim_recovery validate_lease
busy_claim cipher id token now lease_until rows r at busy leased short =
    let future : leb lease_until now ≡ false = ground arith in
    rw future (rw short (rw at (rw busy refl)))

pub held_busy :
    (r : MediaCleanupRow) (lease_until now : ℕ)
    → r.state ≡ delete_pending
    → r.lease_until ≡ some lease_until
    → now < lease_until
    → eligible r now ≡ false
unfolding eligible
held_busy r lease_until now pending held running = ground arith

module _ (cipher : Cipher) (id token : String) (now lease_until : ℕ) (rows : Table)
    (rec : MediaCleanupRecord) (rows' : Table)
    (taken : claim_recovery cipher id token now lease_until rows ≡ ok (some rec, rows')) where
  pub taken-row :
      (r : MediaCleanupRow) × (get_row id rows' ≡ some (claimed cipher token now lease_until r).0)
      × (rec
          ≡ record_of
              (claimed cipher token now lease_until r).0
              (claimed cipher token now lease_until r).1)
      × (eligible r now ≡ true)
      × (get_row id rows ≡ some r)
  taken-row =
      elim (claim_recovery-inv cipher id token now lease_until rows (some rec) rows' taken) [
        | inl (nothing, same) ↦ cc
        | inr (lease, w, it) ↦
            let new = (claimed cipher token now lease_until w.row).0 in
            let key : new.id ≡ id =
              (claimed-id cipher token now lease_until w.row).0
              ∙ get_row-id id rows w.row w.found in
            (
              w.row,
              rw w.written (get_row-put_row id new rows w.row key w.found),
              cc it,
              w.passed_guard,
              w.found,
            )
      ]

  -- While the lease of a claim that handed out a name runs, no other claim takes the row.
  pub claim_recovery-exclusive :
      (name other : String) (later lease' : ℕ)
      → rec.resource_name ≡ some name
      → later < lease_until
      → later < lease'
      → is_short_name other ≡ true
      → claim_recovery cipher id other later lease' rows' ≡ ok (none, rows')
  unfolding record_of
  claim_recovery-exclusive name other later lease' named running leased short =
      let (r, at, it, free, found) = taken-row in
      let handed : (claimed cipher token now lease_until r).1 ≡ some name = ground arith in
      let (pending, held) = claimed-name cipher token now lease_until r name handed in
      busy_claim cipher id other later lease' rows' (claimed cipher token now lease_until r).0 at
        (held_busy (claimed cipher token now lease_until r).0 lease_until later pending held
          running)
        leased short
