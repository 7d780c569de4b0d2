-- ===== src/Media/Journal.antt =====
-- backend/src/job_apply_pro/services/media_cleanup.py: `DurableMediaJournal`, the uploads of one
-- invocation and their deletion at its end. The clock and the provider's deletion are what the service
-- is given: the answer of each may depend on how often it was called.
use job_apply_pro.Base.{
  option_eq, nat_eq, string_eq, if◌then◌else◌, ◌==◌, length, Outcome, ok, err, ℕ, ◌+◌, String, Bool,
  Option, none, some, List, [], ◌∷◌, ◌++◌,
}
use job_apply_pro.Media.Row.{media_state_eq, MediaCleanupRecord, MediaError, Cipher}
use job_apply_pro.Media.Store.{Table, create, register_resource, renew, abandon_before_upload}

-- `LEASE`, in seconds
abbrev pub lease : ℕ
lease = 1200

-- The cipher, the clock by the number of its calls, and whether a deletion of a name returns, by the
-- number of deletions before it.
pub record CleanupTools : Type 0 where
  pub cipher : Cipher
  pub clock : ℕ → ℕ
  pub delete : ℕ → String → Bool

-- The table, the number of calls of the clock, and the names that were sent for deletion.
pub record CleanupWorld : Type 0 where
  pub rows : Table
  pub ticks : ℕ
  pub deletions : List String

-- `AIProviderMediaRetentionError`
pub data RetentionError : Type 0 where
  media_retained : RetentionError

-- `self._resources`: a dictionary, in the order of insertion.
abbrev pub Resources : Type 0
Resources = List (String × Option String)

unfoldable pub put_resource : String → Option String → Resources → Resources
put_resource id name [] = (id, name) ∷ []
put_resource id name ((k, old) ∷ rest) =
    if k == id then (k, name) ∷ rest else (k, old) ∷ put_resource id name rest

unfoldable pub drop_resource : String → Resources → Option Resources
drop_resource id [] = none
drop_resource id ((k, old) ∷ rest) =
    let later = drop_resource id rest in
    if k == id then some rest else elim later [ none ↦ none | some r ↦ some ((k, old) ∷ r) ]

pub record DurableMediaJournal : Type 0 where
  pub provider_id : String
  pub fingerprint : String
  pub token : String
  pub resources : Resources

module _ (tools : CleanupTools) where
  -- `self._clock()`: its value, and the world after the call.
  abbrev pub now_of : CleanupWorld → ℕ
  now_of w = tools.clock w.ticks

  abbrev pub ticked : CleanupWorld → CleanupWorld
  ticked w = record w { ticks = w.ticks + 1 }

  abbrev pub with_rows : Table → CleanupWorld → CleanupWorld
  with_rows rows w = record w { rows = rows }

  -- `delete(name)`: whether it returns.
  abbrev pub deletes : String → CleanupWorld → Bool
  deletes name w = tools.delete (length w.deletions) name

  abbrev pub asked : String → CleanupWorld → CleanupWorld
  asked name w = record w { deletions = w.deletions ++ name ∷ [] }

  abbrev pub begun :
      DurableMediaJournal
      → CleanupWorld
      → Outcome MediaError (MediaCleanupRecord × Table)
      → Outcome RetentionError String × DurableMediaJournal × CleanupWorld
  begun j w (err e) = (err media_retained, j, w)
  begun j w (ok (r, rows)) =
      (ok r.id, record j { resources = put_resource r.id none j.resources }, with_rows rows w)

  -- `begin`, with the identifier that the repository draws.
  unfoldable pub begin :
      String
      → DurableMediaJournal
      → CleanupWorld
      → Outcome RetentionError String × DurableMediaJournal × CleanupWorld
  begin id j w =
      begun j (ticked w)
        (create id j.provider_id j.fingerprint j.token (now_of w) (now_of w + lease) w.rows)

  abbrev pub registered :
      DurableMediaJournal
      → CleanupWorld
      → Outcome MediaError (MediaCleanupRecord × Table)
      → Outcome RetentionError (Unit {0}) × DurableMediaJournal × CleanupWorld
  registered j w (err e) = (err media_retained, j, w)
  registered j w (ok (r, rows)) = (ok tt, j, with_rows rows w)

  -- `register`: the name stays with the journal where the write fails.
  unfoldable pub register :
      String
      → String
      → String
      → DurableMediaJournal
      → CleanupWorld
      → Outcome RetentionError (Unit {0}) × DurableMediaJournal × CleanupWorld
  register nonce id name j w =
      registered (record j { resources = put_resource id (some name) j.resources }) (ticked w)
        (register_resource tools.cipher nonce id j.token name (now_of w) (now_of w + lease) w.rows)

  abbrev pub abandoned :
      DurableMediaJournal
      → Option Resources
      → CleanupWorld
      → Outcome MediaError (MediaCleanupRecord × Table)
      → Outcome RetentionError (Unit {0}) × DurableMediaJournal × CleanupWorld
  abandoned j rest w (err e) = (err media_retained, j, w)
  abandoned j none w (ok (r, rows)) = (err media_retained, j, with_rows rows w)
  abandoned j (some rest) w (ok (r, rows)) =
      (ok tt, record j { resources = rest }, with_rows rows w)

  -- `abandon_before_upload`: the row is closed before the identifier is taken off the dictionary.
  unfoldable pub abandon :
      String
      → DurableMediaJournal
      → CleanupWorld
      → Outcome RetentionError (Unit {0}) × DurableMediaJournal × CleanupWorld
  abandon id j w =
      abandoned j (drop_resource id j.resources) (ticked w)
        (abandon_before_upload id j.token (now_of w) w.rows)

  abbrev pub renewed :
      (CleanupWorld → Outcome RetentionError (Unit {0}) × CleanupWorld)
      → CleanupWorld
      → Outcome MediaError (MediaCleanupRecord × Table)
      → Outcome RetentionError (Unit {0}) × CleanupWorld
  renewed next w (err e) = (err media_retained, w)
  renewed next w (ok (r, rows)) = next (with_rows rows w)

  -- `renew`: the first lease that cannot be renewed ends the loop.
  unfoldable pub renew_all :
      String → Resources → CleanupWorld → Outcome RetentionError (Unit {0}) × CleanupWorld
  renew_all token [] w = (ok tt, w)
  renew_all token ((id, name) ∷ rest) w =
      renewed (renew_all token rest) (ticked w)
        (renew id token (now_of w) (now_of w + lease) w.rows)
