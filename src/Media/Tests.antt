-- ===== src/Media/Tests.antt =====
-- The media journal at concrete inputs, each theorem where its hypotheses hold.
use job_apply_pro.Media.Recovery.{register-claim}
use text.Mathlib.TextEquality.{eq_iff}
use job_apply_pro.Base.{
  option_eq, nat_eq, string_eq, All, ok, String, ◌≡◌, refl, ◌≢◌, true, none, some, [], ◌∷◌, arith,
  ◌<◌, List,
}
use job_apply_pro.Media.Row.{
  in_use, delete_pending, media_state_eq, MediaCleanupRow, MediaCleanupRecord, is_file_name,
  is_reason, is_fingerprint, is_short_name, record_of, Cipher, IsFaithful, resource_of,
}
use job_apply_pro.Media.Store.{
  Table, get_row, put_row, validate_lease, new_row, create, is_owned, owned, register_resource,
  eligible, claim_recovery, mark_retry,
}
use job_apply_pro.Media.Validity.{IsValid}
use job_apply_pro.Media.Lifecycle.{
  MediaOp, manual_op, create_op, relinquish_op, claim_op, deleted_op, run_op, run_ops,
  journal-IsValid, Survives, run_op-Survives,
}
use job_apply_pro.Media.Fencing.{IsHeld, claim_recovery-fences}
use job_apply_pro.Media.Ownership.{IsAdmissible, create_exclusive, claim_recovery-exclusive}

-- A cipher that writes the name itself, which shows that a faithful one can be had.
abbrev plain : Cipher
plain = record { encrypt = λ nonce context name. name; decrypt = λ context text. some text }

abbrev account : String
account = "0123456789abcdef0123456789abcdef0123456789abcdef0123456789abcdef"

abbrev upload : MediaCleanupRow
upload = new_row "m1" "gemini" account "t1" 100 200

created : create "m1" "gemini" account "t1" 100 200 [] ≡ ok (record_of upload none, upload ∷ [])
unfolding create is_short_name is_fingerprint validate_lease
created = refl

abbrev in_use_row : MediaCleanupRow
in_use_row = record upload {
  encrypted_resource = some "files/abc";
  state = in_use;
  lease_until = some 220;
  updated_at = 120;
}

registered_ok :
    register_resource plain "n" "m1" "t1" "files/abc" 120 220 (upload ∷ [])
    ≡ ok (record_of in_use_row (some "files/abc"), in_use_row ∷ [])
unfolding register_resource owned is_owned get_row put_row is_file_name validate_lease
    media_state_eq string_eq
registered_ok = refl

abbrev pending_row : MediaCleanupRow
pending_row = record in_use_row {
  owner_token = "t2";
  state = delete_pending;
  reason = some "DELETION_REQUIRED";
  lease_until = some 400;
  updated_at = 300;
}

claimed_ok :
    claim_recovery plain "m1" "t2" 300 400 (in_use_row ∷ [])
    ≡ ok (some (record_of pending_row (some "files/abc")), pending_row ∷ [])
unfolding claim_recovery eligible get_row put_row resource_of is_file_name is_short_name
    validate_lease media_state_eq string_eq
claimed_ok = refl

abbrev retry_row : MediaCleanupRow
retry_row = record pending_row {
  attempts = 1;
  reason = some "DELETE_FAILED";
  lease_until = none;
  next_attempt_at = some 380;
  updated_at = 320;
}

retried :
    mark_retry "m1" "t2" "DELETE_FAILED" 320 380 (pending_row ∷ [])
    ≡ ok (record_of retry_row none, retry_row ∷ [])
unfolding mark_retry owned is_owned is_reason get_row put_row nat_eq media_state_eq string_eq
retried = refl

t1-ne-t2 : ◌≢◌ {A = String} "t1" "t2"
t1-ne-t2 = ground (arith, eq_iff "t1" "t2")

journal-IsValid_example : All IsValid (
    run_ops plain
      (create_op "m1" "gemini" account "t1" 100 200 ∷ relinquish_op "m1" "t1" 150 ∷ [])
      [])
journal-IsValid_example =
    journal-IsValid plain
      (create_op "m1" "gemini" account "t1" 100 200 ∷ relinquish_op "m1" "t1" 150 ∷ []) [] tt

in_use-All : All IsValid (in_use_row ∷ [])
in_use-All = ((refl, refl, refl), tt)

found_in_use : get_row "m1" (in_use_row ∷ []) ≡ some in_use_row
unfolding get_row string_eq
found_in_use = refl

run_op-Survives_example :
    Survives "m1" in_use_row (run_op plain (claim_op "m1" "t2" 300 400) (in_use_row ∷ []))
run_op-Survives_example =
    run_op-Survives plain (in_use_row ∷ []) in_use-All "m1" in_use_row found_in_use
      (claim_op "m1" "t2" 300 400)

create_exclusive_example : All (IsAdmissible account "t1" 100) (upload ∷ [])
create_exclusive_example =
    create_exclusive "m1" "gemini" account "t1" 100 200 [] (record_of upload none) (upload ∷ [])
      created

short_t3 : is_short_name "t3" ≡ true
unfolding is_short_name
short_t3 = refl

handed_out : (record_of pending_row (some "files/abc")).resource_name ≡ some "files/abc"
unfolding record_of
handed_out = refl

-- The old owner, another claimant, a reviewer and a new upload in turn.
abbrev foreign_ops : List MediaOp
foreign_ops =
    relinquish_op "m1" "t1" 310
    ∷ deleted_op "m1" "t1" 320
    ∷ claim_op "m1" "t3" 330 500
    ∷ manual_op "m1" 300 340
    ∷ create_op "m2" "gemini" account "t4" 350 450
    ∷ []

claim_recovery-fences_example :
    (r : MediaCleanupRow) × (q : MediaCleanupRow) × (get_row "m1" (in_use_row ∷ []) ≡ some r)
    × (eligible r 300 ≡ true)
    × (get_row "m1" (pending_row ∷ []) ≡ some q)
    × IsHeld "t2" 400 q
    × (get_row "m1" (run_ops plain foreign_ops (pending_row ∷ [])) ≡ some q)
claim_recovery-fences_example =
    claim_recovery-fences plain "m1" "t2" 300 400 (in_use_row ∷ [])
      (record_of pending_row (some "files/abc")) (pending_row ∷ []) "files/abc" foreign_ops
      claimed_ok handed_out (t1-ne-t2, (t1-ne-t2, (in_lease, (tt, (tt, tt)))))
  where
    in_lease : 330 < 400
    in_lease = ground arith

claim_recovery-exclusive_example :
    claim_recovery plain "m1" "t3" 350 500 (pending_row ∷ []) ≡ ok (none, pending_row ∷ [])
claim_recovery-exclusive_example =
    claim_recovery-exclusive plain "m1" "t2" 300 400 (in_use_row ∷ [])
      (record_of pending_row (some "files/abc")) (pending_row ∷ []) claimed_ok "files/abc" "t3" 350
      500 handed_out (omega arith) (omega arith) short_t3

plain-IsFaithful : IsFaithful plain
plain-IsFaithful nonce context name = refl

register-claim_example :
    (rec' : MediaCleanupRecord) × (rows″ : Table) × (claim_recovery plain "m1" "t3" 300 400
        (in_use_row ∷ [])
      ≡ ok (some rec', rows″))
    × (rec'.resource_name ≡ some "files/abc")
register-claim_example =
    register-claim plain "n" "m1" "t1" "files/abc" "t3" 120 220 300 400 (upload ∷ [])
      (record_of in_use_row (some "files/abc")) (in_use_row ∷ []) plain-IsFaithful registered_ok
      (omega arith) (omega arith) short_t3
