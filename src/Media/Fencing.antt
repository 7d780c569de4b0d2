-- ===== src/Media/Fencing.antt =====
-- What a claim protects its row from: `claim_recovery` of
-- backend/src/job_apply_pro/storage/media_cleanup_repository.py against every operation of the journal.
use job_apply_pro.Base.{
  arith, ◌==◌, option_eq, nat_eq, string_eq, All, is_some, Outcome, ok, ℕ, ◌<◌, String, ◌≡◌, refl,
  sym, ◌∙◌, ◌≢◌, inl, inr, Bool, true, false, not, ◌&&◌, ◌||◌, some, List, [], ◌∷◌,
}
use job_apply_pro.Media.Row.{
  MediaCleanupState, delete_pending, manual_review, media_state_eq, MediaCleanupRow,
  MediaCleanupRecord, MediaError, record_of, Cipher,
}
use job_apply_pro.Media.Tables.{Rewrites, get_row-id, get_row-put_row_other}
use job_apply_pro.Media.Store.{Table, get_row, new_row, is_owned, eligible, claimed, claim_recovery}
use job_apply_pro.Media.Inversion.{
  register_resource-inv, renew-inv, abandon_before_upload-inv, relinquish-inv, mark_deleted-inv,
  mark_retry-inv, resolve_manual-inv, create-inv, claim_recovery-inv,
}
use job_apply_pro.Media.Lifecycle.{
  MediaOp, create_op, register_op, renew_op, abandon_op, relinquish_op, claim_op, deleted_op,
  retry_op, manual_op, after, run_op, run_ops, after-keeps, get_row-append,
}
use job_apply_pro.Media.Ownership.{taken-row, held_busy, claimed-id, claimed-name}

-- An operation that is not the claim's own: one of an owner under another token, at any time and for
-- any row; a claim of any row by anyone, made while the lease runs; or any new upload or manual review.
abbrev pub IsForeign : String → ℕ → MediaOp → Type 0
IsForeign token lease_until (create_op id provider account t now lease) = Unit {0}
IsForeign token lease_until (register_op nonce id t name now lease) = t ≢ token
IsForeign token lease_until (renew_op id t now lease) = t ≢ token
IsForeign token lease_until (abandon_op id t now) = t ≢ token
IsForeign token lease_until (relinquish_op id t now) = t ≢ token
IsForeign token lease_until (claim_op id t now lease) = now < lease_until
IsForeign token lease_until (deleted_op id t now) = t ≢ token
IsForeign token lease_until (retry_op id t reason now next) = t ≢ token
IsForeign token lease_until (manual_op id expected now) = Unit {0}

-- A row that is to be deleted and is under this token's lease.
abbrev pub IsHeld : String → ℕ → MediaCleanupRow → Type 0
IsHeld token lease_until q =
    (q.owner_token ≡ token) × (q.state ≡ delete_pending) × (q.lease_until ≡ some lease_until)

foreign_guard :
    (t token : String) (states : MediaCleanupState → Bool) (now lease_until : ℕ)
    (q : MediaCleanupRow) (more : Bool)
    → IsHeld token lease_until q
    → t ≢ token
    → (is_owned t states now q && more) ≡ false
unfolding is_owned
foreign_guard t token states now lease_until q more held other =
    let apart : q.owner_token ≢ t = λ e. other (sym e ∙ held.0) in ground arith

-- A rewrite whose guard the row does not pass leaves that row as it is.
rewrite-misses :
    (id : String) (guard : MediaCleanupRow → Bool) (new : MediaCleanupRow → MediaCleanupRow)
    (rows rows' : Table) (k : String) (q : MediaCleanupRow)
    → Rewrites id guard new rows rows'
    → ((x : MediaCleanupRow) → (new x).id ≡ x.id)
    → guard q ≡ false
    → get_row k rows ≡ some q
    → get_row k rows' ≡ some q
rewrite-misses id guard new rows rows' k q w keeps refused at =
    let named = get_row-id id rows w.row w.found in
    elim (string_eq.dec id k) [
      | yes same ↦
          let it : w.row ≡ q = ground arith in let passed = w.passed_guard in absurd (ground arith)
      | no other ↦
          let apart : (new w.row).id ≢ k = λ e. other (sym (keeps w.row ∙ named) ∙ e) in
          rw w.written (get_row-put_row_other k (new w.row) rows apart ∙ at)
    ]

module _ (cipher : Cipher) (token : String) (lease_until : ℕ) (k : String) (q : MediaCleanupRow)
    (held : IsHeld token lease_until q) where
  kept_after :
      {A : Type 0} (rows : Table) (m : Outcome MediaError (A × Table))
      → get_row k rows ≡ some q
      → ((a : A) (rows' : Table) → m ≡ ok (a, rows') → get_row k rows' ≡ some q)
      → get_row k (after m rows) ≡ some q
  kept_after rows m at each = after-keeps (λ t. get_row k t ≡ some q) m rows at each

  run_op-keeps :
      (op : MediaOp) (rows : Table)
      → IsForeign token lease_until op
      → get_row k rows ≡ some q
      → get_row k (run_op cipher op rows) ≡ some q
  unfolding run_op media_state_eq
  run_op-keeps (create_op id p a t n l) rows foreign at = kept_after rows _ at (λ rec rows' h.
      rw (create-inv rows rec rows' id p a t n l h).3
        (get_row-append k rows (new_row id p a t n l) q at))
  run_op-keeps (register_op c id t name n l) rows foreign at = kept_after rows _ at (λ rec rows' h.
      rewrite-misses id _ _ rows rows' k q
        (register_resource-inv rows rec rows' cipher c id t name n l h).2 (λ x. refl)
        (foreign_guard t token _ n lease_until q _ held foreign) at)
  run_op-keeps (renew_op id t n l) rows foreign at = kept_after rows _ at (λ rec rows' h.
      rewrite-misses id _ _ rows rows' k q (renew-inv rows rec rows' id t n l h).1 (λ x. refl)
        (foreign_guard t token _ n lease_until q _ held foreign) at)
  run_op-keeps (abandon_op id t n) rows foreign at = kept_after rows _ at (λ rec rows' h.
      rewrite-misses id _ _ rows rows' k q (abandon_before_upload-inv rows rec rows' id t n h)
        (λ x. refl) (foreign_guard t token _ n lease_until q _ held foreign) at)
  run_op-keeps (relinquish_op id t n) rows foreign at = kept_after rows _ at (λ rec rows' h.
      rewrite-misses id _ _ rows rows' k q (relinquish-inv rows rec rows' id t n h) (λ x. refl)
        (foreign_guard t token _ n lease_until q _ held foreign) at)
  run_op-keeps (claim_op id t n l) rows foreign at = kept_after rows _ at (λ found rows' h.
      elim (claim_recovery-inv cipher id t n l rows found rows' h) [
        | inl (nothing, same) ↦ rw same at
        | inr (lease, w, it) ↦
            rewrite-misses id _ _ rows rows' k q w (λ x. (claimed-id cipher t n l x).0)
              (held_busy q lease_until n held.1 held.2 foreign) at
      ])
  run_op-keeps (deleted_op id t n) rows foreign at = kept_after rows _ at (λ rec rows' h.
      rewrite-misses id _ _ rows rows' k q (mark_deleted-inv rows rec rows' id t n h) (λ x. refl)
        (foreign_guard t token _ n lease_until q _ held foreign) at)
  run_op-keeps (retry_op id t reason n m) rows foreign at = kept_after rows _ at (λ rec rows' h.
      rewrite-misses id _ _ rows rows' k q (mark_retry-inv rows rec rows' id t reason n m h).2
        (λ x. refl) (foreign_guard t token _ n lease_until q _ held foreign) at)
  run_op-keeps (manual_op id e n) rows foreign at = kept_after rows _ at (λ rec rows' h.
      rewrite-misses id _ _ rows rows' k q (resolve_manual-inv rows rec rows' id e n h) (λ x. refl)
        (not_reviewed q e held.1) at)
    where
      not_reviewed :
          (x : MediaCleanupRow) (e : ℕ)
          → x.state ≡ delete_pending
          → not (
              not (x.state == manual_review)
              || is_some x.encrypted_resource
              || not (x.updated_at == e))
            ≡ false
      not_reviewed x e pending = rw pending refl

  run_ops-keeps :
      (ops : List MediaOp) (rows : Table)
      → All (IsForeign token lease_until) ops
      → get_row k rows ≡ some q
      → get_row k (run_ops cipher ops rows) ≡ some q
  unfolding run_ops
  run_ops-keeps [] rows foreign at = at
  run_ops-keeps (op ∷ ops) rows (here, others) at =
      run_ops-keeps ops (run_op cipher op rows) others (run_op-keeps op rows here at)

-- A claim that hands out a resource's name holds its row, which was eligible: it is to be deleted and
-- under the claim's token and lease. Whatever operations follow, in any order, of owners under other
-- tokens, of claimants while this lease runs, of new uploads and of manual reviews, the row is still
-- exactly as the claim left it.
pub claim_recovery-fences :
    (cipher : Cipher) (id token : String) (now lease_until : ℕ) (rows : Table)
    (rec : MediaCleanupRecord) (rows' : Table) (name : String) (ops : List MediaOp)
    → claim_recovery cipher id token now lease_until rows ≡ ok (some rec, rows')
    → rec.resource_name ≡ some name
    → All (IsForeign token lease_until) ops
    → (r : MediaCleanupRow) × (q : MediaCleanupRow) × (get_row id rows ≡ some r)
      × (eligible r now ≡ true)
      × (get_row id rows' ≡ some q)
      × IsHeld token lease_until q
      × (get_row id (run_ops cipher ops rows') ≡ some q)
unfolding record_of
claim_recovery-fences cipher id token now lease_until rows rec rows' name ops taken named foreign =
    let (r, at, it, free, found) = taken-row cipher id token now lease_until rows rec rows' taken in
    let q = (claimed cipher token now lease_until r).0 in
    let handed : (claimed cipher token now lease_until r).1 ≡ some name = ground arith in
    let (pending, lease) = claimed-name cipher token now lease_until r name handed in
    let held : IsHeld token lease_until q =
      ((claimed-id cipher token now lease_until r).1, pending, lease) in
    (
      r,
      q,
      found,
      free,
      at,
      held,
      run_ops-keeps cipher token lease_until id q held ops rows' foreign at,
    )
