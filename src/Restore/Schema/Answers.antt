-- ===== src/Restore/Schema/Answers.antt =====
-- backend/src/job_apply_pro/storage/restore_history_policy.py: the tables of answers.
use job_apply_pro.Base.{option_eq, nat_eq, string_eq, true, false, [], ◌∷◌}
use job_apply_pro.Restore.Policy.{
  text_kind, json_kind, integer_kind, boolean_kind, float_kind, datetime_kind, column, limited,
  refers, TablePolicy,
}

abbrev pub answer_library_policy : TablePolicy
answer_library_policy = record {
  columns =
      limited "id" text_kind false 36
      ∷ column "revision" integer_kind false
      ∷ limited "profile_id" text_kind false 36
      ∷ limited "canonical_field" text_kind false 160
      ∷ column "encrypted_question" text_kind false
      ∷ column "encrypted_answer" text_kind false
      ∷ column "evidence_claim_ids_json" json_kind false
      ∷ column "confidence" float_kind false
      ∷ column "approved" boolean_kind false
      ∷ column "locked" boolean_kind false
      ∷ limited "reuse_permission" text_kind false 30
      ∷ column "provenance_json" json_kind false
      ∷ column "created_at" datetime_kind false
      ∷ column "updated_at" datetime_kind false
      ∷ [];
  key = "id" ∷ [];
  references = refers "profile_id" "candidate_profiles" "id" ∷ [];
}

abbrev pub answer_library_revisions_policy : TablePolicy
answer_library_revisions_policy = record {
  columns =
      limited "id" text_kind false 36
      ∷ limited "answer_id" text_kind false 36
      ∷ limited "profile_id" text_kind false 36
      ∷ column "revision" integer_kind false
      ∷ column "encrypted_question" text_kind false
      ∷ limited "canonical_field" text_kind false 160
      ∷ column "encrypted_answer" text_kind false
      ∷ column "evidence_claim_ids_json" json_kind false
      ∷ column "confidence" float_kind false
      ∷ column "approved" boolean_kind false
      ∷ column "locked" boolean_kind false
      ∷ limited "reuse_permission" text_kind false 30
      ∷ column "provenance_json" json_kind false
      ∷ column "created_at" datetime_kind false
      ∷ [];
  key = "id" ∷ [];
  references =
      refers "answer_id" "answer_library" "id" ∷ refers "profile_id" "candidate_profiles" "id" ∷ [];
}

abbrev pub application_answers_policy : TablePolicy
application_answers_policy = record {
  columns =
      limited "id" text_kind false 36
      ∷ limited "application_id" text_kind false 36
      ∷ limited "profile_id" text_kind true 36
      ∷ limited "job_id" text_kind true 36
      ∷ column "revision" integer_kind false
      ∷ column "encrypted_question" text_kind true
      ∷ column "encrypted_normalized_question" text_kind true
      ∷ limited "canonical_field" text_kind false 160
      ∷ limited "answer_kind" text_kind false 40
      ∷ column "validation_rules_json" json_kind false
      ∷ column "encrypted_value" text_kind false
      ∷ limited "provenance" text_kind false 200
      ∷ limited "status" text_kind false 40
      ∷ limited "source_type" text_kind false 40
      ∷ limited "source_answer_id" text_kind true 36
      ∷ limited "library_answer_id" text_kind true 36
      ∷ column "evidence_claim_ids_json" json_kind false
      ∷ column "retrieval_results_json" json_kind false
      ∷ limited "provider_id" text_kind true 80
      ∷ limited "model_id" text_kind true 120
      ∷ limited "prompt_version" text_kind true 40
      ∷ limited "policy_version" text_kind false 40
      ∷ column "confidence" float_kind false
      ∷ column "encrypted_generated_value" text_kind true
      ∷ column "character_limit" integer_kind false
      ∷ column "character_limit_applied" boolean_kind false
      ∷ column "limitations_json" json_kind false
      ∷ column "user_edited" boolean_kind false
      ∷ limited "reuse_permission" text_kind false 30
      ∷ column "approved" boolean_kind false
      ∷ column "created_at" datetime_kind false
      ∷ column "updated_at" datetime_kind true
      ∷ [];
  key = "id" ∷ [];
  references =
      refers "application_id" "applications" "id"
      ∷ refers "profile_id" "candidate_profiles" "id"
      ∷ refers "job_id" "jobs" "id"
      ∷ refers "library_answer_id" "answer_library" "id"
      ∷ [];
}
