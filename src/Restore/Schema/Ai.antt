-- ===== src/Restore/Schema/Ai.antt =====
-- backend/src/job_apply_pro/storage/restore_history_policy.py: the tables of the AI gateway.
use job_apply_pro.Base.{option_eq, nat_eq, string_eq, true, false, [], ◌∷◌}
use job_apply_pro.Restore.Policy.{
  text_kind, json_kind, integer_kind, datetime_kind, column, limited, refers, TablePolicy,
}

abbrev pub ai_cache_policy : TablePolicy
ai_cache_policy = record {
  columns =
      limited "key" text_kind false 64
      ∷ limited "profile_id" text_kind true 36
      ∷ limited "classification" text_kind false 40
      ∷ column "encrypted_response" text_kind false
      ∷ column "expires_at" datetime_kind false
      ∷ column "created_at" datetime_kind false
      ∷ [];
  key = "key" ∷ [];
  references = [];
}

abbrev pub ai_media_cleanup_policy : TablePolicy
ai_media_cleanup_policy = record {
  columns =
      limited "id" text_kind false 36
      ∷ limited "provider_id" text_kind false 80
      ∷ limited "account_fingerprint" text_kind false 64
      ∷ limited "owner_token" text_kind false 80
      ∷ limited "state" text_kind false 40
      ∷ column "encrypted_resource" text_kind true
      ∷ column "attempts" integer_kind false
      ∷ limited "reason" text_kind true 80
      ∷ column "lease_until" datetime_kind true
      ∷ column "next_attempt_at" datetime_kind true
      ∷ column "created_at" datetime_kind false
      ∷ column "updated_at" datetime_kind false
      ∷ [];
  key = "id" ∷ [];
  references = [];
}

abbrev pub model_invocations_policy : TablePolicy
model_invocations_policy = record {
  columns =
      limited "id" text_kind false 36
      ∷ limited "profile_id" text_kind true 36
      ∷ limited "task_type" text_kind false 80
      ∷ limited "provider" text_kind false 80
      ∷ limited "model" text_kind false 120
      ∷ limited "prompt_version" text_kind false 80
      ∷ limited "schema_version" text_kind false 80
      ∷ limited "input_hash" text_kind false 64
      ∷ limited "cache_key" text_kind false 64
      ∷ limited "classification" text_kind false 40
      ∷ limited "status" text_kind false 20
      ∷ column "input_tokens" integer_kind false
      ∷ column "output_tokens" integer_kind false
      ∷ column "cost_micros" integer_kind false
      ∷ column "attempts" integer_kind false
      ∷ column "route_json" json_kind false
      ∷ column "latency_ms" integer_kind false
      ∷ limited "error_code" text_kind true 80
      ∷ column "created_at" datetime_kind false
      ∷ column "completed_at" datetime_kind false
      ∷ [];
  key = "id" ∷ [];
  references = [];
}

abbrev pub retrieval_chunks_policy : TablePolicy
retrieval_chunks_policy = record {
  columns =
      limited "id" text_kind false 36
      ∷ limited "profile_id" text_kind false 36
      ∷ limited "source_type" text_kind false 30
      ∷ limited "source_id" text_kind false 36
      ∷ limited "canonical_key" text_kind false 160
      ∷ column "encrypted_content" text_kind false
      ∷ column "token_hashes_json" json_kind false
      ∷ column "vector_json" json_kind false
      ∷ limited "permitted_use" text_kind false 30
      ∷ column "evidence_claim_ids_json" json_kind false
      ∷ column "provenance_json" json_kind false
      ∷ column "created_at" datetime_kind false
      ∷ column "updated_at" datetime_kind false
      ∷ [];
  key = "id" ∷ [];
  references = refers "profile_id" "candidate_profiles" "id" ∷ [];
}
