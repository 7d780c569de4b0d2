-- ===== src/Media/Row.antt =====
-- backend/src/job_apply_pro/domain/media_cleanup.py and the checks of
-- storage/media_cleanup_repository.py: the rows of the media journal.
-- A time is an instant, which is what `_utc` makes of every `datetime` before it is compared.
use Prim.Native.Char.{code}
use Prim.Native.String.{◌++◌ as text_append}
use job_apply_pro.Base.{
  if◌then◌else◌, leb, Eq, ◌==◌, option_eq, nat_eq, string_eq, all, is_some, codes, char_count,
  is_nonempty, is_digit, is_lower, is_upper, matches_after, ℕ, String, ◌≡◌, Bool, true, false, ◌&&◌,
  ◌||◌, Option, none, some, [],
}

pub data MediaCleanupState : Type 0 where
  uploading in_use delete_pending manual_review deleted : MediaCleanupState

pub MediaCleanupState-discrete : Discrete MediaCleanupState
MediaCleanupState-discrete = hlevel

instance unfoldable pub media_state_eq : Eq MediaCleanupState
unfolding MediaCleanupState-discrete
media_state_eq = record { dec = MediaCleanupState-discrete }

pub record MediaCleanupRow : Type 0 where
  pub id : String
  pub provider_id : String
  pub account_fingerprint : String
  pub owner_token : String
  pub state : MediaCleanupState
  pub encrypted_resource : Option String
  pub attempts : ℕ
  pub reason : Option String
  pub lease_until : Option ℕ
  pub next_attempt_at : Option ℕ
  pub created_at : ℕ
  pub updated_at : ℕ

pub record MediaCleanupRecord : Type 0 where
  pub id : String
  pub provider_id : String
  pub state : MediaCleanupState
  pub known_resource : Bool
  pub attempts : ℕ
  pub reason : Option String
  pub lease_until : Option ℕ
  pub next_attempt_at : Option ℕ
  pub created_at : ℕ
  pub updated_at : ℕ
  pub account_fingerprint : String
  pub owner_token : String
  pub resource_name : Option String

-- `ValueError` of an argument, `MediaCleanupConflict`, and the database's refusal of a second row
-- under one key.
pub data MediaError : Type 0 where
  invalid_argument conflict duplicate : MediaError

-- `^files/[a-z0-9-]{1,40}$`
unfoldable pub is_file_name : String → Bool
unfolding matches_after nat_eq
is_file_name s =
    matches_after (codes "files/") (λ c. is_lower c || is_digit c || c == b'-') 1 40 (codes s)

-- `^[A-Z][A-Z0-9_]{0,79}$`
unfoldable pub is_reason : String → Bool
unfolding nat_eq
is_reason String.[] = false
is_reason (String.◌∷◌ c s) =
    is_upper (code c)
    && leb (char_count s) 79
    && all (λ d. is_upper d || is_digit d || d == b'_') (codes s)

-- `[a-f0-9]{64}`
unfoldable pub is_fingerprint : String → Bool
unfolding matches_after
is_fingerprint s = matches_after [] (λ c. (leb b'a' c && leb c b'f') || is_digit c) 64 64 (codes s)

-- `s and len(s) <= 80`
unfoldable pub is_short_name : String → Bool
is_short_name s = is_nonempty s && leb (char_count s) 80

abbrev pub is_active : MediaCleanupState → Bool
is_active uploading = true
is_active in_use = true
is_active _ = false

-- `lease_until is None or lease_until <= now`
abbrev pub is_past : Option ℕ → ℕ → Bool
is_past none now = true
is_past (some t) now = leb t now

-- `_record`, whose validation the values of a row always pass
unfoldable pub record_of : MediaCleanupRow → Option String → MediaCleanupRecord
record_of row name = record {
  id = row.id;
  provider_id = row.provider_id;
  state = row.state;
  known_resource = is_some row.encrypted_resource;
  attempts = row.attempts;
  reason = row.reason;
  lease_until = row.lease_until;
  next_attempt_at = row.next_attempt_at;
  created_at = row.created_at;
  updated_at = row.updated_at;
  account_fingerprint = row.account_fingerprint;
  owner_token = row.owner_token;
  resource_name = name;
}

-- What the journal uses of `SensitiveDataCipher`: a text encrypted under a context and a nonce that the
-- cipher draws, and the `resource_name` that a decryption yields, nothing where it raises or where
-- the payload holds no text under that name.
pub record Cipher : Type 0 where
  pub encrypt : String → String → String → String
  pub decrypt : String → String → Option String

-- What is encrypted under a context is read back under that context.
abbrev pub IsFaithful : Cipher → Type 0
IsFaithful cipher =
    (nonce context name : String)
    → cipher.decrypt context (cipher.encrypt nonce context name) ≡ some name

-- `_context`
abbrev pub context_of : MediaCleanupRow → String
context_of row = text_append "ai-media:" (
    text_append row.id
      (text_append ":" (text_append row.provider_id (text_append ":" row.account_fingerprint))))

abbrev pub file_name : Option String → Option String
file_name none = none
file_name (some name) = if is_file_name name then some name else none

-- `_resource`: nothing where it raises
unfoldable pub resource_of : Cipher → MediaCleanupRow → Option String
resource_of cipher row = elim row.encrypted_resource [
  | none ↦ none
  | some text ↦ file_name (cipher.decrypt (context_of row) text)
]
