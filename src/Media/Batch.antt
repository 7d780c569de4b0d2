-- ===== src/Media/Batch.antt =====
-- One run of `MediaCleanupService.recover` of backend/src/job_apply_pro/services/media_cleanup.py.
use job_apply_pro.Base.{
  option_eq, nat_eq, string_eq, Bool-cases, length, Outcome, ok, err, ℕ, ◌+◌, String, ◌≡◌, refl, ap,
  ◌∙◌, inl, inr, Bool, true, false, not, Option, none, some, List, [], ◌∷◌, ◌++◌, arith,
  if◌then◌else◌, leb, ◌≤◌, ◌<◌, length-append,
}
use job_apply_pro.Media.Row.{media_state_eq, MediaCleanupRecord, MediaError}
use job_apply_pro.Media.Store.{Table, claim_recovery}
use job_apply_pro.Media.Lifecycle.{run_op, after, claim_op}
use job_apply_pro.Media.Journal.{
  lease, CleanupTools, CleanupWorld, now_of, ticked, with_rows, deletes, asked,
}
use job_apply_pro.Media.Cleanup.{or_unchanged, put_off, confirmed_by, settle, delete_claimed}
use job_apply_pro.Media.Worker.{
  AiProviderRuntime, WorkerTools, Accounts, find_account, backoff, claim_only, delete_found_name,
  recover_claimed, recover_for, recover_one, batch_size, recover_each, runtimes, accounts_of,
  recover_listed, recover,
}
use job_apply_pro.Media.Reach.{
  Reaches, same-Reaches, run_op-Reaches, then-Reaches, delete_claimed-Reaches,
}

-- A turn that tried a deletion asked for one, and any other turn for none.
abbrev one_if : Bool → ℕ
one_if true = 1
one_if false = 0

module _ (tools : CleanupTools) where
  or_unchanged-deletions :
      (w : CleanupWorld) (m : Outcome MediaError (MediaCleanupRecord × Table))
      → (or_unchanged tools w m).deletions ≡ w.deletions
  or_unchanged-deletions w (err e) = refl
  or_unchanged-deletions w (ok (r, rows)) = refl

  put_off-deletions :
      (delay : ℕ) (id token : String) (w : CleanupWorld)
      → (put_off tools delay id token w).deletions ≡ w.deletions
  unfolding put_off
  put_off-deletions delay id token w = or_unchanged-deletions (ticked tools w) _

  confirmed_by-deletions :
      (delay : ℕ) (id token : String) (w : CleanupWorld)
      (m : Outcome MediaError (MediaCleanupRecord × Table))
      → (confirmed_by tools delay id token w m).1.deletions ≡ w.deletions
  confirmed_by-deletions delay id token w (err e) = put_off-deletions delay id token w
  confirmed_by-deletions delay id token w (ok (r, rows)) = refl

  settle-deletions :
      (delay : ℕ) (id token : String) (w : CleanupWorld) (done : Bool)
      → (settle tools delay id token w done).1.deletions ≡ w.deletions
  settle-deletions delay id token w true = confirmed_by-deletions delay id token (ticked tools w) _
  settle-deletions delay id token w false = put_off-deletions delay id token w

  pub delete_claimed-deletions :
      (delay : ℕ) (id token name : String) (w : CleanupWorld)
      → (delete_claimed tools delay id token name w).1.deletions ≡ w.deletions ++ name ∷ []
  unfolding delete_claimed
  delete_claimed-deletions delay id token name w =
      settle-deletions delay id token (asked tools name w) (deletes tools name w)

module _ (service : WorkerTools) where
  abbrev Kept : CleanupWorld → CleanupWorld → Type 0
  Kept w w' = Reaches service.tools.cipher w.rows w'.rows

  -- What a turn makes of a world: the table is reached by the repository, and the deletions are counted.
  abbrev IsTurn : CleanupWorld → Bool × CleanupWorld → Type 0
  IsTurn w p = Kept w p.1 × (length p.1.deletions ≡ length w.deletions + one_if p.0)

  delete_found-IsTurn :
      (token : String) (w : CleanupWorld) (r : MediaCleanupRecord) (name : Option String)
      → IsTurn w (delete_found_name service token w r name)
  delete_found-IsTurn token w r none = (same-Reaches service.tools.cipher w.rows, omega arith)
  delete_found-IsTurn token w r (some name) = (
    delete_claimed-Reaches service.tools (backoff r.attempts) r.id token name w,
    ap length (delete_claimed-deletions service.tools (backoff r.attempts) r.id token name w)
        ∙ length-append w.deletions (name ∷ []),
  )

  recover_claimed-IsTurn :
      (token : String) (w : CleanupWorld)
      (m : Outcome MediaError (Option MediaCleanupRecord × Table))
      → Reaches service.tools.cipher (after m w.rows) (recover_claimed service token w m).1.rows
        × (length (recover_claimed service token w m).1.deletions
            ≡ length w.deletions + one_if (recover_claimed service token w m).0)
  recover_claimed-IsTurn token w (err e) = (same-Reaches service.tools.cipher w.rows, omega arith)
  recover_claimed-IsTurn token w (ok (none, rows)) =
      (same-Reaches service.tools.cipher rows, omega arith)
  recover_claimed-IsTurn token w (ok (some r, rows)) =
      delete_found-IsTurn token (with_rows service.tools rows w) r r.resource_name

  recover_for-IsTurn :
      (c : MediaCleanupRecord) (token : String) (now : ℕ) (w : CleanupWorld)
      (found : Option AiProviderRuntime)
      → IsTurn w (recover_for service c token now w found)
  unfolding run_op
  recover_for-IsTurn c token now w none = (same-Reaches service.tools.cipher w.rows, omega arith)
  recover_for-IsTurn c token now w (some runtime) = elim (Bool-cases (service.can_build runtime)) [
    | inr refused ↦ rw refused (same-Reaches service.tools.cipher w.rows, omega arith)
    | inl built ↦
        let m = claim_recovery service.tools.cipher c.id token now (now + lease) w.rows in
        let (reached, counted) = recover_claimed-IsTurn token w m in
        rw built (
          then-Reaches service.tools.cipher w.rows (after m w.rows) _
              (run_op-Reaches service.tools.cipher (claim_op c.id token now (now + lease)) w.rows)
              reached,
          counted,
        )
  ]

  claim_only-Reaches :
      (w : CleanupWorld) (m : Outcome MediaError (Option MediaCleanupRecord × Table))
      → Reaches service.tools.cipher (after m w.rows) (claim_only service w m).rows
        × ((claim_only service w m).deletions ≡ w.deletions)
  claim_only-Reaches w (err e) = (same-Reaches service.tools.cipher w.rows, refl)
  claim_only-Reaches w (ok (r, rows)) = (same-Reaches service.tools.cipher rows, refl)

  recover_one-IsTurn :
      (accounts : Accounts) (c : MediaCleanupRecord) (token : String) (w : CleanupWorld)
      → IsTurn w (recover_one service accounts c token w)
  unfolding recover_one run_op
  recover_one-IsTurn accounts c token w = elim (Bool-cases (not c.known_resource)) [
    | inr known ↦ rw known (
        recover_for-IsTurn c token (now_of service.tools w) (ticked service.tools w)
          (find_account c.account_fingerprint accounts))
    | inl unknown ↦
        let now = now_of service.tools w in
        let m = claim_recovery service.tools.cipher c.id token now (now + lease) w.rows in
        let (reached, same) = claim_only-Reaches (ticked service.tools w) m in
        rw unknown (
          then-Reaches service.tools.cipher w.rows (after m w.rows) _
              (run_op-Reaches service.tools.cipher (claim_op c.id token now (now + lease)) w.rows)
              reached,
          ap length same ∙ plus_none w,
        )
  ]
    where
      plus_none : (v : CleanupWorld) → length v.deletions ≡ length v.deletions + 0
      plus_none v = omega arith

  one_more : (tried : Bool) (n : ℕ) → (if tried then n + 1 else n) ≡ n + one_if tried
  one_more true n = refl
  one_more false n = omega arith

  one_at_most : (tried : Bool) → one_if tried ≤ 1
  one_at_most true = omega arith
  one_at_most false = omega arith

  below : (n : ℕ) → leb batch_size n ≡ false → n < batch_size
  below n h = ground arith

  -- The loop, from a number of attempts that is below the limit.
  recover_each-batch :
      (accounts : Accounts) (cs : List MediaCleanupRecord) (turn attempted : ℕ) (w : CleanupWorld)
      → attempted < batch_size
      → Kept w (recover_each service accounts cs turn attempted w)
        × (length (recover_each service accounts cs turn attempted w).deletions + attempted
            ≤ length w.deletions + batch_size)
  unfolding recover_each
  recover_each-batch accounts [] turn attempted w few =
      (same-Reaches service.tools.cipher w.rows, omega arith)
  recover_each-batch accounts (c ∷ rest) turn attempted w few =
      let p = recover_one service accounts c (service.token turn) w in
      let (reached, counted) = recover_one-IsTurn accounts c (service.token turn) w in
      let n = if p.0 then attempted + 1 else attempted in
      let sum : n ≡ attempted + one_if p.0 = one_more p.0 attempted in
      let small = one_at_most p.0 in
      elim (Bool-cases (leb batch_size n)) [
        | inl full ↦ rw full (reached, omega arith)
        | inr room ↦
            let (later, few') = recover_each-batch accounts rest (turn + 1) n p.1 (below n room) in
            rw room (then-Reaches service.tools.cipher w.rows p.1.rows _ reached later, omega arith)
      ]

  recover_listed-batch :
      (accounts : Accounts) (w : CleanupWorld) (m : Outcome MediaError (List MediaCleanupRecord))
      → Kept w (recover_listed service accounts w m)
        × (length (recover_listed service accounts w m).deletions ≤ length w.deletions + batch_size)
  recover_listed-batch accounts w (err e) = (same-Reaches service.tools.cipher w.rows, omega arith)
  recover_listed-batch accounts w (ok cs) =
      let (reached, few) = recover_each-batch accounts cs 0 0 w (omega arith) in
      (reached, omega arith)

  -- Whatever the providers, the clock and the journal are, it
  -- changes the table only by operations of the repository, and asks a provider for at most two
  -- deletions.
  pub recover-batch :
      (providers : List AiProviderRuntime) (w : CleanupWorld)
      → Reaches service.tools.cipher w.rows (recover service providers w).rows
        × (length (recover service providers w).deletions ≤ length w.deletions + batch_size)
  unfolding recover
  recover-batch providers w =
      recover_listed-batch (accounts_of service (runtimes service providers []) [])
        (ticked service.tools w) _
