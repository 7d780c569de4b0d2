-- ===== src/Media/Worker.antt =====
-- backend/src/job_apply_pro/services/media_cleanup.py: `account_fingerprint` and
-- `MediaCleanupService.recover`. The configured providers are what the service is given, and so are
-- SHA-256, the cipher's blind index, the texts that `str` and `rstrip` make, and whether a provider's
-- client can be built.
use Prim.Native.String.{◌++◌ as text_append}
use job_apply_pro.Base.{
  option_eq, nat_eq, string_eq, if◌then◌else◌, ltb, leb, ◌==◌, Outcome, ok, err, ◌>>=◌, or_raise, ℕ,
  zero, suc, ◌+◌, ◌*◌, String, Bool, true, false, not, ◌&&◌, Option, none, some, List, [], ◌∷◌, map,
}
use job_apply_pro.Media.Row.{media_state_eq, MediaCleanupRecord, MediaError, invalid_argument}
use job_apply_pro.Media.Store.{Table, claim_recovery}
use job_apply_pro.Media.Listing.{list_recovery_candidates}
use job_apply_pro.Media.Journal.{lease, CleanupTools, CleanupWorld, now_of, ticked, with_rows}
use job_apply_pro.Media.Cleanup.{delete_claimed}

pub data ProviderKind : Type 0 where
  openai_compatible secondary_compatible gemini llama_cpp : ProviderKind

abbrev pub kind_value : ProviderKind → String
kind_value openai_compatible = "OPENAI_COMPATIBLE"
kind_value secondary_compatible = "SECONDARY_COMPATIBLE"
kind_value gemini = "GEMINI"
kind_value llama_cpp = "LLAMA_CPP"

-- A configured provider, with the fields of its definition that are read.
pub record AiProviderRuntime : Type 0 where
  pub id : String
  pub kind : ProviderKind
  pub enabled : Bool
  pub base_url : String
  pub api_key : Option String

pub record WorkerTools : Type 0 where
  pub tools : CleanupTools
  pub sha256 : String → String
  pub strip_slashes : String → String
  pub blind_index : String → Outcome MediaError String
  pub can_build : AiProviderRuntime → Bool
  pub token : ℕ → String

-- The accounts by their fingerprints.
abbrev pub Accounts : Type 0
Accounts = List (String × AiProviderRuntime)

unfoldable pub find_account : String → Accounts → Option AiProviderRuntime
find_account key [] = none
find_account key ((k, r) ∷ rest) = if k == key then some r else find_account key rest

unfoldable pub put_account : String → AiProviderRuntime → Accounts → Accounts
put_account key r [] = (key, r) ∷ []
put_account key r ((k, old) ∷ rest) =
    if k == key then (k, r) ∷ rest else (k, old) ∷ put_account key r rest

-- `min(3600, 60 * 2 ** min(attempts, 6))`, in seconds
unfoldable pub backoff : ℕ → ℕ
backoff attempts = lesser 3600 (60 * power (lesser attempts 6))
  where
    lesser : ℕ → ℕ → ℕ
    lesser n m = if ltb m n then m else n

    power : ℕ → ℕ
    power zero = 1
    power (suc n) = 2 * power n

-- `RECOVERY_BATCH_SIZE`
abbrev pub batch_size : ℕ
batch_size = 2

module _ (service : WorkerTools) where
  unfoldable pub account_fingerprint : AiProviderRuntime → Outcome MediaError String
  account_fingerprint r = do
    key ← or_raise r.api_key invalid_argument
    service.blind_index (
        text_append (kind_value r.kind) (
          text_append ":" (
            text_append (service.strip_slashes r.base_url) (text_append ":" (service.sha256 key)))))

  -- `runtimes`: the enabled providers of Gemini by their identifiers.
  unfoldable pub runtimes : List AiProviderRuntime → Accounts → Accounts
  runtimes [] found = found
  runtimes (r ∷ rest) found =
      runtimes rest (if is_gemini r.kind && r.enabled then put_account r.id r found else found)
    where
      is_gemini : ProviderKind → Bool
      is_gemini gemini = true
      is_gemini _ = false

  -- `accounts`: those whose fingerprint can be made.
  unfoldable pub accounts_of : Accounts → Accounts → Accounts
  accounts_of [] found = found
  accounts_of ((id, r) ∷ rest) found = accounts_of rest (noted (account_fingerprint r))
    where
      noted : Outcome MediaError String → Accounts
      noted (err e) = found
      noted (ok key) = put_account key r found

  -- A claim that raises leaves the table as it was.
  abbrev pub claim_only :
      CleanupWorld → Outcome MediaError (Option MediaCleanupRecord × Table) → CleanupWorld
  claim_only w (err e) = w
  claim_only w (ok (r, rows)) = with_rows service.tools rows w

  abbrev pub delete_found_name :
      String → CleanupWorld → MediaCleanupRecord → Option String → Bool × CleanupWorld
  delete_found_name token w r none = (false, w)
  delete_found_name token w r (some name) =
      (true, (delete_claimed service.tools (backoff r.attempts) r.id token name w).1)

  abbrev pub delete_found : String → CleanupWorld → Option MediaCleanupRecord → Bool × CleanupWorld
  delete_found token w none = (false, w)
  delete_found token w (some r) = delete_found_name token w r r.resource_name

  abbrev pub recover_claimed :
      String
      → CleanupWorld
      → Outcome MediaError (Option MediaCleanupRecord × Table)
      → Bool × CleanupWorld
  recover_claimed token w (err e) = (false, w)
  recover_claimed token w (ok (r, rows)) = delete_found token (with_rows service.tools rows w) r

  abbrev pub recover_for :
      MediaCleanupRecord
      → String
      → ℕ
      → CleanupWorld
      → Option AiProviderRuntime
      → Bool × CleanupWorld
  recover_for c token now w none = (false, w)
  recover_for c token now w (some runtime) =
      if service.can_build runtime
      then recover_claimed token w
          (claim_recovery service.tools.cipher c.id token now (now + lease) w.rows)
      else (false, w)

  -- One turn of the loop: whether a deletion was attempted.
  unfoldable pub recover_one :
      Accounts → MediaCleanupRecord → String → CleanupWorld → Bool × CleanupWorld
  recover_one accounts c token w =
      let now = now_of service.tools w in
      let w' = ticked service.tools w in
      if not c.known_resource
      then (
        false,
        claim_only w' (claim_recovery service.tools.cipher c.id token now (now + lease) w'.rows),
      )
      else recover_for c token now w' (find_account c.account_fingerprint accounts)

  -- The loop, with the number of the turn and that of the attempts so far.
  unfoldable pub recover_each :
      Accounts → List MediaCleanupRecord → ℕ → ℕ → CleanupWorld → CleanupWorld
  recover_each accounts [] turn attempted w = w
  recover_each accounts (c ∷ rest) turn attempted w =
      let (tried, w') = recover_one accounts c (service.token turn) w in
      let attempted' = if tried then attempted + 1 else attempted in
      if leb batch_size attempted' then w' else recover_each accounts rest (turn + 1) attempted' w'

  abbrev pub recover_listed :
      Accounts → CleanupWorld → Outcome MediaError (List MediaCleanupRecord) → CleanupWorld
  recover_listed accounts w (err e) = w
  recover_listed accounts w (ok cs) = recover_each accounts cs 0 0 w

  unfoldable pub recover : List AiProviderRuntime → CleanupWorld → CleanupWorld
  recover providers w =
      let accounts = accounts_of (runtimes providers []) [] in
      recover_listed accounts (ticked service.tools w) (
        list_recovery_candidates (now_of service.tools w) 100 (some (map (λ a. a.0) accounts)) true
          w.rows)
