-- ===== src/Media/Closing.antt =====
-- What a cleanup that returns says of the uploads: `DurableMediaJournal.cleanup` of
-- backend/src/job_apply_pro/services/media_cleanup.py.
use mathlib.Core.Path.{subst}
use mathlib.Core.List.{Memᴰ}
use job_apply_pro.Base.{
  option_eq, nat_eq, string_eq, All, Outcome, ok, err, ℕ, String, ◌≡◌, refl, sym, ap, ◌∙◌, Bool,
  true, false, some, List, [], ◌∷◌, Mem-cons, Mem-reverse, inl, inr, ◌||◌, Option, none, reverse,
  arith,
}
use job_apply_pro.Media.Row.{
  media_state_eq, deleted, MediaCleanupState, uploading, in_use, delete_pending, manual_review,
  MediaCleanupRow, MediaCleanupRecord, MediaError, Cipher,
}
use job_apply_pro.Media.Store.{Table, get_row, mark_deleted}
use job_apply_pro.Media.Tables.{get_row-id, get_row-put_row}
use job_apply_pro.Media.Inversion.{mark_deleted-inv}
use job_apply_pro.Media.Validity.{IsValid}
use job_apply_pro.Media.Lifecycle.{
  MediaOp, run_op, run_ops, run_op-IsValid, run_op-Survives, journal-IsValid, may_become,
}
use job_apply_pro.Media.Journal.{
  CleanupTools, CleanupWorld, now_of, ticked, Resources, DurableMediaJournal, with_rows, deletes,
  asked,
}
use job_apply_pro.Media.Cleanup.{
  confirmed_by, settle, delete_claimed, delete_resource, after_claim, claim_or_review,
  after_relinquish, clean_one, clean_each, reported, cleanup,
}
use job_apply_pro.Media.Reach.{Reaches, clean_one-Reaches, clean_each-Reaches}

-- The upload's row is there, and closed.
abbrev pub IsClosed : String → Table → Type 0
IsClosed id rows = (r : MediaCleanupRow) × (get_row id rows ≡ some r) × (r.state ≡ deleted)

stays_deleted : (s : MediaCleanupState) → may_become deleted s ≡ true → s ≡ deleted
stays_deleted uploading h = cc
stays_deleted in_use h = cc
stays_deleted delete_pending h = cc
stays_deleted manual_review h = cc
stays_deleted deleted h = refl

module _ (cipher : Cipher) where
  run_op-IsClosed :
      (op : MediaOp) (id : String) (rows : Table)
      → All IsValid rows
      → IsClosed id rows
      → IsClosed id (run_op cipher op rows)
  run_op-IsClosed op id rows valid (r, at, closed) =
      let (r', at', follows) = run_op-Survives cipher rows valid id r at op in
      (
        r',
        at',
        stays_deleted r'.state (ap (λ s. may_become s r'.state) (sym closed) ∙ follows.state),
      )

  run_ops-IsClosed :
      (ops : List MediaOp) (id : String) (rows : Table)
      → All IsValid rows
      → IsClosed id rows
      → IsClosed id (run_ops cipher ops rows)
  unfolding run_ops
  run_ops-IsClosed [] id rows valid closed = closed
  run_ops-IsClosed (op ∷ ops) id rows valid closed =
      run_ops-IsClosed ops id (run_op cipher op rows) (run_op-IsValid cipher op rows valid)
        (run_op-IsClosed op id rows valid closed)

  -- Closed uploads stay closed, and the rows stay in agreement with their states.
  pub Reaches-IsClosed :
      (id : String) (rows rows' : Table)
      → Reaches cipher rows rows'
      → All IsValid rows
      → IsClosed id rows
      → IsClosed id rows'
  Reaches-IsClosed id rows rows' (ops, e) valid closed =
      rw e (run_ops-IsClosed ops id rows valid closed)

  pub Reaches-IsValid :
      (rows rows' : Table) → Reaches cipher rows rows' → All IsValid rows → All IsValid rows'
  Reaches-IsValid rows rows' (ops, e) valid = rw e (journal-IsValid cipher ops rows valid)

unfinished : {A : Type 0} → true ≡ false → A
unfinished h = absurd (ground arith)

neither : (a b : Bool) → (a || b) ≡ false → (a ≡ false) × (b ≡ false)
neither a b h = (ground arith, ground arith)

module _ (tools : CleanupTools) where
  mark_deleted-IsClosed :
      (id token : String) (now : ℕ) (rows rows' : Table) (r : MediaCleanupRecord)
      → mark_deleted id token now rows ≡ ok (r, rows')
      → IsClosed id rows'
  mark_deleted-IsClosed id token now rows rows' r h =
      let w = mark_deleted-inv rows r rows' id token now h in
      let new : MediaCleanupRow = record w.row {
        state = deleted;
        reason = some "DELETION_CONFIRMED";
        encrypted_resource = none;
        lease_until = none;
        next_attempt_at = none;
        updated_at = now;
      } in
      (
        new,
        rw w.written (get_row-put_row id new rows w.row (get_row-id id rows w.row w.found) w.found),
        refl,
      )

  -- A turn of the loop that leaves nothing unresolved has closed its upload.
  abbrev Closes : String → Bool × CleanupWorld → Type 0
  Closes id p = p.0 ≡ false → IsClosed id p.1.rows

  confirmed_by-Closes :
      (delay : ℕ) (id token : String) (now : ℕ) (w : CleanupWorld)
      (m : Outcome MediaError (MediaCleanupRecord × Table))
      → mark_deleted id token now w.rows ≡ m
      → Closes id (confirmed_by tools delay id token w m)
  confirmed_by-Closes delay id token now w (err e) h open_yet = cc
  confirmed_by-Closes delay id token now w (ok (r, rows)) h done =
      mark_deleted-IsClosed id token now w.rows rows r h

  settle-Closes :
      (delay : ℕ) (id token : String) (w : CleanupWorld) (gone : Bool)
      → Closes id (settle tools delay id token w gone)
  settle-Closes delay id token w true =
      confirmed_by-Closes delay id token (now_of tools w) (ticked tools w) _ refl
  settle-Closes delay id token w false = λ h. unfinished h

  delete_resource-Closes :
      (id token : String) (w : CleanupWorld) (name : Option String)
      → Closes id (delete_resource tools id token w name)
  unfolding delete_claimed
  delete_resource-Closes id token w none = λ h. unfinished h
  delete_resource-Closes id token w (some name) =
      settle-Closes 60 id token (asked tools name w) (deletes tools name w)

  after_claim-Closes :
      (id token : String) (name : Option String) (w : CleanupWorld)
      (m : Outcome MediaError (Option MediaCleanupRecord × Table))
      → Closes id (after_claim tools id token name w m)
  after_claim-Closes id token name w (err e) = λ h. unfinished h
  after_claim-Closes id token name w (ok (none, rows)) = λ h. unfinished h
  after_claim-Closes id token name w (ok (some r, rows)) =
      delete_resource-Closes id token (with_rows tools rows w) r.resource_name

  claim_or_review-Closes :
      (id token : String) (name : Option String) (w : CleanupWorld) (review : Bool)
      → Closes id (claim_or_review tools id token name w review)
  claim_or_review-Closes id token name w true = λ h. unfinished h
  claim_or_review-Closes id token name w false = after_claim-Closes id token name (ticked tools w) _

  after_relinquish-Closes :
      (id token : String) (name : Option String) (w : CleanupWorld)
      (m : Outcome MediaError (MediaCleanupRecord × Table))
      → Closes id (after_relinquish tools id token name w m)
  after_relinquish-Closes id token name w (err e) = λ h. unfinished h
  after_relinquish-Closes id token name w (ok (r, rows)) =
      claim_or_review-Closes id token name (with_rows tools rows w) _

  clean_one-Closes :
      (token id : String) (name : Option String) (w : CleanupWorld)
      → Closes id (clean_one tools token id name w)
  unfolding clean_one
  clean_one-Closes token id name w = after_relinquish-Closes id token name (ticked tools w) _

  clean_each-Closes :
      (token : String) (resources : Resources) (w : CleanupWorld) (id : String)
      (name : Option String)
      → All IsValid w.rows
      → Memᴰ (id, name) resources
      → Closes id (clean_each tools token resources w)
  unfolding clean_each
  clean_each-Closes token [] w id name valid m = elim m [ ]
  clean_each-Closes token ((k, old) ∷ rest) w id name valid m = λ done.
      let p = clean_one tools token k old w in
      let reached = clean_one-Reaches tools token k old w in
      let valid' = Reaches-IsValid tools.cipher w.rows p.1.rows reached valid in
      let (here, later) = neither p.0 (clean_each tools token rest p.1).0 done in
      elim (Mem-cons m) [
        | inl e ↦
            Reaches-IsClosed tools.cipher id p.1.rows _ (clean_each-Reaches tools token rest p.1)
              valid'
              (subst (λ i. IsClosed i p.1.rows) (sym (ap (λ x. x.0) e))
                (clean_one-Closes token k old w here))
        | inr among ↦ clean_each-Closes token rest p.1 id name valid' among later
      ]

  reported-inv :
      (p : Bool × CleanupWorld)
      → (reported tools p).0 ≡ ok tt
      → (p.0 ≡ false) × ((reported tools p).1 ≡ p.1)
  reported-inv (true, w) h = cc
  reported-inv (false, w) h = (refl, refl)

  -- Where a cleanup returns without an error, on a journal in agreement with its states, every upload
  -- that the invocation tracks is closed in the table.
  pub cleanup-IsClosed :
      (j : DurableMediaJournal) (w : CleanupWorld) (id : String) (name : Option String)
      → All IsValid w.rows
      → Memᴰ (id, name) j.resources
      → (cleanup tools j w).0 ≡ ok tt
      → IsClosed id (cleanup tools j w).1.rows
  unfolding cleanup
  cleanup-IsClosed j w id name valid m h =
      let (done, same) = reported-inv (clean_each tools j.token (reverse j.resources) w) h in
      subst (λ v. IsClosed id v.rows) (sym same)
        (clean_each-Closes j.token (reverse j.resources) w id name valid (Mem-reverse j.resources m)
          done)
