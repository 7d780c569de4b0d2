-- ===== src/Media/Listing.antt =====
-- backend/src/job_apply_pro/storage/media_cleanup_repository.py: the two listings. SQL compares
-- texts by their code points, and a missing time passes its own test only.
use Prim.Native.Nat.{Ordering}
use Prim.Native.String.{compare as compare_text}
use job_apply_pro.Base.{
  if◌then◌else◌, ltb, leb, ◌==◌, contains, option_eq, nat_eq, string_eq, keep, is_some, Outcome, ok,
  ◌>>◌, raise_if, ℕ, zero, suc, String, Bool, true, false, not, ◌&&◌, ◌||◌, Option, none, some,
  List, [], ◌∷◌, map,
}
use job_apply_pro.Media.Row.{
  delete_pending, deleted, media_state_eq, MediaCleanupRow, MediaCleanupRecord, MediaError,
  invalid_argument, is_active, is_past, record_of,
}
use job_apply_pro.Media.Store.{Table}

-- the order by a time and then by the identifier
unfoldable pub comes_first : (MediaCleanupRow → ℕ) → MediaCleanupRow → MediaCleanupRow → Bool
comes_first time a b =
    if ltb (time a) (time b)
    then true
    else if ltb (time b) (time a)
    then false
    else elim (compare_text a.id b.id) [ Ordering.gt ↦ false | _ ↦ true ]

unfoldable pub insert_ordered : (MediaCleanupRow → ℕ) → MediaCleanupRow → Table → Table
insert_ordered time r [] = r ∷ []
insert_ordered time r (x ∷ xs) =
    if comes_first time r x then r ∷ x ∷ xs else x ∷ insert_ordered time r xs

unfoldable pub order_by : (MediaCleanupRow → ℕ) → Table → Table
order_by time [] = []
order_by time (x ∷ xs) = insert_ordered time x (order_by time xs)

unfoldable pub list_public : Table → List MediaCleanupRecord
unfolding media_state_eq
list_public rows =
    map (λ r. record_of r none)
      (order_by (λ r. r.created_at) (keep (λ r. not (r.state == deleted)) rows))

-- the `or_` of the statement over the states and times
unfoldable pub is_candidate : ℕ → MediaCleanupRow → Bool
unfolding media_state_eq
is_candidate now r =
    (is_active r.state && is_past r.lease_until now)
    || (r.state == delete_pending && is_past r.lease_until now && is_past r.next_attempt_at now)

-- the further condition on the account
unfoldable pub account_match : Option (List String) → Bool → MediaCleanupRow → Bool
unfolding string_eq
account_match none include_unknown r = true
account_match (some accounts) include_unknown r =
    contains accounts r.account_fingerprint
    || (include_unknown && not (is_some r.encrypted_resource))

abbrev pub take : ℕ → Table → Table
take zero rows = []
take (suc n) [] = []
take (suc n) (r ∷ rows) = r ∷ take n rows

-- `accounts == set()`
abbrev pub is_empty_set : Option (List String) → Bool
is_empty_set none = false
is_empty_set (some []) = true
is_empty_set (some (a ∷ accounts)) = false

unfoldable pub list_recovery_candidates :
    ℕ → ℕ → Option (List String) → Bool → Table → Outcome MediaError (List MediaCleanupRecord)
list_recovery_candidates now limit accounts include_unknown rows = do
  raise_if (not (leb 1 limit && leb limit 1000)) invalid_argument
  ok (
      if is_empty_set accounts && not include_unknown
      then []
      else map (λ r. record_of r none)
          (take limit (
            order_by (λ r. r.updated_at)
              (keep (λ r. is_candidate now r && account_match accounts include_unknown r) rows))))
