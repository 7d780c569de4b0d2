-- ===== src/Media/Cleanup.antt =====
-- backend/src/job_apply_pro/services/media_cleanup.py: `DurableMediaJournal.cleanup`, and the deletion
-- of a claimed resource, which `MediaCleanupService.recover` shares with it.
use job_apply_pro.Base.{
  option_eq, nat_eq, string_eq, if◌then◌else◌, Outcome, ok, err, ℕ, ◌+◌, String, Bool, true, false,
  ◌||◌, Option, none, some, [], ◌∷◌, reverse,
}
use job_apply_pro.Media.Row.{
  media_state_eq, manual_review, MediaCleanupState, MediaCleanupRecord, MediaError,
}
use job_apply_pro.Media.Store.{Table, relinquish, claim_recovery, mark_deleted, mark_retry}
use job_apply_pro.Media.Journal.{
  lease, CleanupTools, CleanupWorld, RetentionError, media_retained, Resources, DurableMediaJournal,
  now_of, ticked, with_rows, deletes, asked,
}

module _ (tools : CleanupTools) where
  abbrev pub or_unchanged :
      CleanupWorld → Outcome MediaError (MediaCleanupRecord × Table) → CleanupWorld
  or_unchanged w (err e) = w
  or_unchanged w (ok (r, rows)) = with_rows tools rows w

  -- A retry is put on record where the journal lets it.
  unfoldable pub put_off : ℕ → String → String → CleanupWorld → CleanupWorld
  put_off delay id token w =
      or_unchanged (ticked tools w)
        (mark_retry id token "DELETE_FAILED" (now_of tools w) (now_of tools w + delay) w.rows)

  abbrev pub confirmed_by :
      ℕ
      → String
      → String
      → CleanupWorld
      → Outcome MediaError (MediaCleanupRecord × Table)
      → Bool × CleanupWorld
  confirmed_by delay id token w (err e) = (true, put_off delay id token w)
  confirmed_by delay id token w (ok (r, rows)) = (false, with_rows tools rows w)

  abbrev pub settle : ℕ → String → String → CleanupWorld → Bool → Bool × CleanupWorld
  settle delay id token w true =
      confirmed_by delay id token (ticked tools w) (mark_deleted id token (now_of tools w) w.rows)
  settle delay id token w false = (true, put_off delay id token w)

  -- The deletion of a claimed resource, and whether it is left unresolved.
  unfoldable pub delete_claimed : ℕ → String → String → String → CleanupWorld → Bool × CleanupWorld
  delete_claimed delay id token name w =
      settle delay id token (asked tools name w) (deletes tools name w)

  -- A local name is deleted, and nothing comes of its failure.
  abbrev pub try_local : Option String → CleanupWorld → CleanupWorld
  try_local none w = w
  try_local (some name) w = asked tools name w

  -- The local name of an upload under review: where its deletion raises, the handler tries it again.
  abbrev pub review_local : Option String → CleanupWorld → CleanupWorld
  review_local none w = w
  review_local (some name) w =
      if deletes tools name w then asked tools name w else asked tools name (asked tools name w)

  abbrev pub delete_resource : String → String → CleanupWorld → Option String → Bool × CleanupWorld
  delete_resource id token w none = (true, w)
  delete_resource id token w (some name) = delete_claimed 60 id token name w

  abbrev pub delete_named :
      String → String → CleanupWorld → Option MediaCleanupRecord → Bool × CleanupWorld
  delete_named id token w none = (true, w)
  delete_named id token w (some r) = delete_resource id token w r.resource_name

  abbrev pub after_claim :
      String
      → String
      → Option String
      → CleanupWorld
      → Outcome MediaError (Option MediaCleanupRecord × Table)
      → Bool × CleanupWorld
  after_claim id token name w (err e) = (true, try_local name w)
  after_claim id token name w (ok (r, rows)) = delete_named id token (with_rows tools rows w) r

  abbrev pub claim_or_review :
      String → String → Option String → CleanupWorld → Bool → Bool × CleanupWorld
  claim_or_review id token name w true = (true, review_local name w)
  claim_or_review id token name w false =
      after_claim id token name (ticked tools w)
        (claim_recovery tools.cipher id token (now_of tools w) (now_of tools w + lease) w.rows)

  abbrev pub after_relinquish :
      String
      → String
      → Option String
      → CleanupWorld
      → Outcome MediaError (MediaCleanupRecord × Table)
      → Bool × CleanupWorld
  after_relinquish id token name w (err e) = (true, try_local name w)
  after_relinquish id token name w (ok (r, rows)) =
      claim_or_review id token name (with_rows tools rows w) (is_under_review r.state)
    where
      is_under_review : MediaCleanupState → Bool
      is_under_review manual_review = true
      is_under_review _ = false

  -- One turn of the loop of `cleanup`: whether the upload is left unresolved.
  unfoldable pub clean_one : String → String → Option String → CleanupWorld → Bool × CleanupWorld
  clean_one token id name w =
      after_relinquish id token name (ticked tools w) (relinquish id token (now_of tools w) w.rows)

  -- The loop, over the uploads in the order given.
  unfoldable pub clean_each : String → Resources → CleanupWorld → Bool × CleanupWorld
  clean_each token [] w = (false, w)
  clean_each token ((id, name) ∷ rest) w =
      let (here, w') = clean_one token id name w in
      let (later, w'') = clean_each token rest w' in (here || later, w'')

  abbrev pub reported : Bool × CleanupWorld → Outcome RetentionError (Unit {0}) × CleanupWorld
  reported (true, w) = (err media_retained, w)
  reported (false, w) = (ok tt, w)

  -- `cleanup`: from the last upload to the first.
  unfoldable pub cleanup :
      DurableMediaJournal → CleanupWorld → Outcome RetentionError (Unit {0}) × CleanupWorld
  cleanup j w = reported (clean_each j.token (reverse j.resources) w)
