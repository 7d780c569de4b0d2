-- ===== src/Media/Reach.antt =====
-- What the cleanup of backend/src/job_apply_pro/services/media_cleanup.py does to the journal's table is
-- done by operations of the repository.
use job_apply_pro.Base.{
  option_eq, nat_eq, string_eq, if◌then◌else◌, Outcome, ok, err, ℕ, ◌+◌, String, ◌≡◌, refl, sym, ap,
  ◌∙◌, Bool, true, false, Option, none, some, List, [], ◌∷◌, ◌++◌,
}
use job_apply_pro.Media.Row.{media_state_eq, MediaCleanupRecord, MediaError, Cipher}
use job_apply_pro.Media.Store.{Table, relinquish, claim_recovery, mark_deleted, mark_retry}
use job_apply_pro.Media.Lifecycle.{
  MediaOp, run_op, run_ops, after, relinquish_op, claim_op, deleted_op, retry_op,
}
use job_apply_pro.Media.Journal.{
  lease, CleanupTools, CleanupWorld, Resources, now_of, ticked, with_rows, deletes, asked,
}
use job_apply_pro.Media.Cleanup.{
  or_unchanged, put_off, confirmed_by, settle, delete_claimed, try_local, delete_resource,
  after_claim, claim_or_review, after_relinquish, clean_one, clean_each,
}

-- One table comes of the other by operations of the repository.
abbrev pub Reaches : Cipher → Table → Table → Type 0
Reaches cipher rows rows' = (ops : List MediaOp) × (rows' ≡ run_ops cipher ops rows)

module _ (cipher : Cipher) where
  pub same-Reaches : (rows : Table) → Reaches cipher rows rows
  unfolding run_ops
  same-Reaches rows = ([], refl)

  pub run_op-Reaches : (op : MediaOp) (rows : Table) → Reaches cipher rows (run_op cipher op rows)
  unfolding run_ops
  run_op-Reaches op rows = (op ∷ [], refl)

  run_ops-append :
      (ops more : List MediaOp) (rows : Table)
      → run_ops cipher (ops ++ more) rows ≡ run_ops cipher more (run_ops cipher ops rows)
  unfolding run_ops
  run_ops-append [] more rows = refl
  run_ops-append (op ∷ ops) more rows = run_ops-append ops more (run_op cipher op rows)

  pub then-Reaches : (a b c : Table) → Reaches cipher a b → Reaches cipher b c → Reaches cipher a c
  then-Reaches a b c (ops, e) (more, e') =
      (ops ++ more, e' ∙ ap (run_ops cipher more) e ∙ sym (run_ops-append ops more a))

module _ (tools : CleanupTools) where
  abbrev Kept : CleanupWorld → CleanupWorld → Type 0
  Kept w w' = Reaches tools.cipher w.rows w'.rows

  or_unchanged-Reaches :
      (w : CleanupWorld) (m : Outcome MediaError (MediaCleanupRecord × Table))
      → Reaches tools.cipher (after m w.rows) (or_unchanged tools w m).rows
  or_unchanged-Reaches w (err e) = same-Reaches tools.cipher w.rows
  or_unchanged-Reaches w (ok (r, rows)) = same-Reaches tools.cipher rows

  put_off-Reaches :
      (delay : ℕ) (id token : String) (w : CleanupWorld) → Kept w (put_off tools delay id token w)
  unfolding put_off run_op
  put_off-Reaches delay id token w =
      let m =
        mark_retry id token "DELETE_FAILED" (now_of tools w) (now_of tools w + delay) w.rows in
      then-Reaches tools.cipher w.rows (after m w.rows) _
        (run_op-Reaches tools.cipher
          (retry_op id token "DELETE_FAILED" (now_of tools w) (now_of tools w + delay)) w.rows)
        (or_unchanged-Reaches (ticked tools w) m)

  confirmed_by-Reaches :
      (delay : ℕ) (id token : String) (w : CleanupWorld)
      (m : Outcome MediaError (MediaCleanupRecord × Table))
      → Reaches tools.cipher (after m w.rows) (confirmed_by tools delay id token w m).1.rows
  confirmed_by-Reaches delay id token w (err e) = put_off-Reaches delay id token w
  confirmed_by-Reaches delay id token w (ok (r, rows)) = same-Reaches tools.cipher rows

  settle-Reaches :
      (delay : ℕ) (id token : String) (w : CleanupWorld) (done : Bool)
      → Kept w (settle tools delay id token w done).1
  unfolding run_op
  settle-Reaches delay id token w true =
      let m = mark_deleted id token (now_of tools w) w.rows in
      then-Reaches tools.cipher w.rows (after m w.rows) _
        (run_op-Reaches tools.cipher (deleted_op id token (now_of tools w)) w.rows)
        (confirmed_by-Reaches delay id token (ticked tools w) m)
  settle-Reaches delay id token w false = put_off-Reaches delay id token w

  pub delete_claimed-Reaches :
      (delay : ℕ) (id token name : String) (w : CleanupWorld)
      → Kept w (delete_claimed tools delay id token name w).1
  unfolding delete_claimed
  delete_claimed-Reaches delay id token name w =
      settle-Reaches delay id token (asked tools name w) (deletes tools name w)

  try_local-Reaches : (name : Option String) (w : CleanupWorld) → Kept w (try_local tools name w)
  try_local-Reaches none w = same-Reaches tools.cipher w.rows
  try_local-Reaches (some name) w = same-Reaches tools.cipher w.rows

  asked_once_or_twice :
      (b : Bool) (name : String) (w : CleanupWorld)
      → Kept w (if b then asked tools name w else asked tools name (asked tools name w))
  asked_once_or_twice true name w = same-Reaches tools.cipher w.rows
  asked_once_or_twice false name w = same-Reaches tools.cipher w.rows

  delete_resource-Reaches :
      (id token : String) (w : CleanupWorld) (name : Option String)
      → Kept w (delete_resource tools id token w name).1
  delete_resource-Reaches id token w none = same-Reaches tools.cipher w.rows
  delete_resource-Reaches id token w (some name) = delete_claimed-Reaches 60 id token name w

  after_claim-Reaches :
      (id token : String) (name : Option String) (w : CleanupWorld)
      (m : Outcome MediaError (Option MediaCleanupRecord × Table))
      → Reaches tools.cipher (after m w.rows) (after_claim tools id token name w m).1.rows
  after_claim-Reaches id token name w (err e) = try_local-Reaches name w
  after_claim-Reaches id token name w (ok (none, rows)) = same-Reaches tools.cipher rows
  after_claim-Reaches id token name w (ok (some r, rows)) =
      delete_resource-Reaches id token (with_rows tools rows w) r.resource_name

  claim_or_review-Reaches :
      (id token : String) (name : Option String) (w : CleanupWorld) (review : Bool)
      → Kept w (claim_or_review tools id token name w review).1
  unfolding run_op
  claim_or_review-Reaches id token none w true = same-Reaches tools.cipher w.rows
  claim_or_review-Reaches id token (some name) w true =
      asked_once_or_twice (deletes tools name w) name w
  claim_or_review-Reaches id token name w false =
      let m =
        claim_recovery tools.cipher id token (now_of tools w) (now_of tools w + lease) w.rows in
      then-Reaches tools.cipher w.rows (after m w.rows) _
        (run_op-Reaches tools.cipher (claim_op id token (now_of tools w) (now_of tools w + lease))
          w.rows)
        (after_claim-Reaches id token name (ticked tools w) m)

  after_relinquish-Reaches :
      (id token : String) (name : Option String) (w : CleanupWorld)
      (m : Outcome MediaError (MediaCleanupRecord × Table))
      → Reaches tools.cipher (after m w.rows) (after_relinquish tools id token name w m).1.rows
  after_relinquish-Reaches id token name w (err e) = try_local-Reaches name w
  after_relinquish-Reaches id token name w (ok (r, rows)) =
      claim_or_review-Reaches id token name (with_rows tools rows w) _

  pub clean_one-Reaches :
      (token id : String) (name : Option String) (w : CleanupWorld)
      → Kept w (clean_one tools token id name w).1
  unfolding clean_one run_op
  clean_one-Reaches token id name w =
      let m = relinquish id token (now_of tools w) w.rows in
      then-Reaches tools.cipher w.rows (after m w.rows) _
        (run_op-Reaches tools.cipher (relinquish_op id token (now_of tools w)) w.rows)
        (after_relinquish-Reaches id token name (ticked tools w) m)

  pub clean_each-Reaches :
      (token : String) (resources : Resources) (w : CleanupWorld)
      → Kept w (clean_each tools token resources w).1
  unfolding clean_each
  clean_each-Reaches token [] w = same-Reaches tools.cipher w.rows
  clean_each-Reaches token ((id, name) ∷ rest) w =
      then-Reaches tools.cipher w.rows (clean_one tools token id name w).1.rows _
        (clean_one-Reaches token id name w)
        (clean_each-Reaches token rest (clean_one tools token id name w).1)
