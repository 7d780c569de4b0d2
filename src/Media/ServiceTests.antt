-- ===== src/Media/ServiceTests.antt =====
-- A cleanup and a recovery on small journals.
use mathlib.Core.List.{Memᴰ}
use job_apply_pro.Base.{
  option_eq, nat_eq, string_eq, length, ok, ◌+◌, ◌≤◌, ◌≡◌, refl, true, some, [], ◌∷◌,
}
use job_apply_pro.Media.Row.{
  record_of, is_short_name, resource_of, is_file_name, media_state_eq, in_use, MediaCleanupRow,
}
use job_apply_pro.Media.Store.{
  relinquish, owned, get_row, is_owned, claim_recovery, validate_lease, put_row, eligible,
  mark_deleted, new_row,
}
use job_apply_pro.Media.Journal.{CleanupTools, CleanupWorld, DurableMediaJournal}
use job_apply_pro.Media.Cleanup.{clean_one, delete_claimed, clean_each, cleanup}
use job_apply_pro.Media.Worker.{gemini, AiProviderRuntime, WorkerTools, recover}
use job_apply_pro.Media.Reach.{Reaches}
use job_apply_pro.Media.Batch.{recover-batch}
use job_apply_pro.Media.Closing.{IsClosed, cleanup-IsClosed}

abbrev sample_tools : CleanupTools
sample_tools = record {
  cipher = record { encrypt = λ nonce context name. name; decrypt = λ context text. some text };
  clock = λ n. 150 + n;
  delete = λ n name. true;
}

abbrev sample_upload : MediaCleanupRow
sample_upload = record (new_row "m1" "gemini" "account" "t1" 100 1300) {
  encrypted_resource = some "files/abc";
  state = in_use;
}

abbrev sample_world : CleanupWorld
sample_world = record { rows = sample_upload ∷ []; ticks = 0; deletions = [] }

abbrev sample_journal : DurableMediaJournal
sample_journal = record {
  provider_id = "gemini";
  fingerprint = "account";
  token = "t1";
  resources = ("m1", some "files/abc") ∷ [];
}

cleanup_returns : (cleanup sample_tools sample_journal sample_world).0 ≡ ok tt
unfolding cleanup clean_each clean_one relinquish owned get_row string_eq is_owned record_of
    claim_recovery validate_lease is_short_name put_row eligible resource_of is_file_name
    delete_claimed mark_deleted
cleanup_returns = refl

cleanup-IsClosed_example : IsClosed "m1" (cleanup sample_tools sample_journal sample_world).1.rows
cleanup-IsClosed_example =
    cleanup-IsClosed sample_tools sample_journal sample_world "m1" (some "files/abc")
      ((refl, refl, refl), tt) (Memᴰ.head refl) cleanup_returns

abbrev sample_worker : WorkerTools
sample_worker = record {
  tools = sample_tools;
  sha256 = λ s. s;
  strip_slashes = λ s. s;
  blind_index = λ s. ok "account";
  can_build = λ r. true;
  token = λ n. "t2";
}

abbrev sample_provider : AiProviderRuntime
sample_provider = record {
  id = "gemini";
  kind = gemini;
  enabled = true;
  base_url = "https://example.test";
  api_key = some "key";
}

recover-batch_example :
    Reaches sample_tools.cipher
      (sample_upload ∷ [])
      (recover sample_worker (sample_provider ∷ []) sample_world).rows
    × (length (recover sample_worker (sample_provider ∷ []) sample_world).deletions ≤ 2)
recover-batch_example = recover-batch sample_worker (sample_provider ∷ []) sample_world
