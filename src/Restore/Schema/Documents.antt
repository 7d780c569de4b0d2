-- ===== src/Restore/Schema/Documents.antt =====
-- backend/src/job_apply_pro/storage/restore_history_policy.py: the tables of documents.
use job_apply_pro.Base.{option_eq, nat_eq, string_eq, false, [], ◌∷◌}
use job_apply_pro.Restore.Policy.{
  text_kind, json_kind, integer_kind, boolean_kind, float_kind, datetime_kind, column, limited,
  refers, TablePolicy,
}

abbrev pub document_generation_audits_policy : TablePolicy
document_generation_audits_policy = record {
  columns =
      limited "id" text_kind false 36
      ∷ limited "application_id" text_kind false 36
      ∷ limited "profile_id" text_kind false 36
      ∷ limited "job_id" text_kind false 36
      ∷ limited "document_version_id" text_kind false 36
      ∷ limited "kind" text_kind false 30
      ∷ limited "output_format" text_kind false 20
      ∷ limited "template" text_kind false 30
      ∷ limited "ranking_mode" text_kind false 30
      ∷ limited "ranking_method" text_kind false 80
      ∷ limited "review_fingerprint" text_kind false 64
      ∷ column "evidence_claim_ids_json" json_kind false
      ∷ column "requirement_ids_json" json_kind false
      ∷ column "missing_required_requirements_json" json_kind false
      ∷ column "created_at" datetime_kind false
      ∷ [];
  key = "id" ∷ [];
  references =
      refers "application_id" "applications" "id"
      ∷ refers "profile_id" "candidate_profiles" "id"
      ∷ refers "job_id" "jobs" "id"
      ∷ refers "document_version_id" "document_versions" "id"
      ∷ [];
}

abbrev pub document_selection_audits_policy : TablePolicy
document_selection_audits_policy = record {
  columns =
      limited "id" text_kind false 36
      ∷ limited "application_id" text_kind false 36
      ∷ limited "profile_id" text_kind false 36
      ∷ limited "job_id" text_kind false 36
      ∷ limited "document_id" text_kind false 36
      ∷ limited "document_version_id" text_kind false 36
      ∷ column "score" float_kind false
      ∷ limited "review_fingerprint" text_kind false 64
      ∷ column "criteria_json" json_kind false
      ∷ column "reasons_json" json_kind false
      ∷ column "created_at" datetime_kind false
      ∷ [];
  key = "id" ∷ [];
  references =
      refers "application_id" "applications" "id"
      ∷ refers "profile_id" "candidate_profiles" "id"
      ∷ refers "job_id" "jobs" "id"
      ∷ refers "document_id" "documents" "id"
      ∷ refers "document_version_id" "document_versions" "id"
      ∷ [];
}

abbrev pub document_versions_policy : TablePolicy
document_versions_policy = record {
  columns =
      limited "id" text_kind false 36
      ∷ limited "document_id" text_kind false 36
      ∷ column "version" integer_kind false
      ∷ limited "file_name" text_kind false 255
      ∷ limited "media_type" text_kind false 100
      ∷ limited "sha256" text_kind false 64
      ∷ column "storage_path" text_kind false
      ∷ column "encrypted_extraction" text_kind false
      ∷ limited "parser_version" text_kind false 100
      ∷ column "page_count" integer_kind false
      ∷ column "character_count" integer_kind false
      ∷ column "created_at" datetime_kind false
      ∷ [];
  key = "id" ∷ [];
  references = refers "document_id" "documents" "id" ∷ [];
}

abbrev pub documents_policy : TablePolicy
documents_policy = record {
  columns =
      limited "id" text_kind false 36
      ∷ limited "profile_id" text_kind false 36
      ∷ limited "kind" text_kind false 30
      ∷ limited "display_name" text_kind false 200
      ∷ limited "variant_label" text_kind false 120
      ∷ column "job_family_tags_json" json_kind false
      ∷ column "is_primary" boolean_kind false
      ∷ column "archived" boolean_kind false
      ∷ column "created_at" datetime_kind false
      ∷ [];
  key = "id" ∷ [];
  references = refers "profile_id" "candidate_profiles" "id" ∷ [];
}
