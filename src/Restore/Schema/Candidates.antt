-- ===== src/Restore/Schema/Candidates.antt =====
-- backend/src/job_apply_pro/storage/restore_history_policy.py: the tables of candidates.
use job_apply_pro.Base.{option_eq, nat_eq, string_eq, true, false, [], ◌∷◌}
use job_apply_pro.Restore.Policy.{
  text_kind, json_kind, boolean_kind, float_kind, datetime_kind, date_kind, column, limited, refers,
  TablePolicy,
}

abbrev pub candidate_claims_policy : TablePolicy
candidate_claims_policy = record {
  columns =
      limited "id" text_kind false 36
      ∷ limited "profile_id" text_kind false 36
      ∷ limited "evidence_source_id" text_kind true 36
      ∷ limited "canonical_key" text_kind false 160
      ∷ column "statement" text_kind false
      ∷ limited "claim_type" text_kind false 80
      ∷ column "value_json" json_kind false
      ∷ limited "source_location" text_kind true 500
      ∷ column "context_json" json_kind false
      ∷ column "start_date" date_kind true
      ∷ column "end_date" date_kind true
      ∷ column "confidence" float_kind false
      ∷ limited "verification_status" text_kind false 20
      ∷ limited "permitted_use" text_kind false 30
      ∷ limited "sensitivity" text_kind false 20
      ∷ column "locked" boolean_kind false
      ∷ limited "superseded_by_id" text_kind true 36
      ∷ column "created_at" datetime_kind false
      ∷ column "updated_at" datetime_kind false
      ∷ [];
  key = "id" ∷ [];
  references =
      refers "profile_id" "candidate_profiles" "id"
      ∷ refers "evidence_source_id" "evidence_sources" "id"
      ∷ refers "superseded_by_id" "candidate_claims" "id"
      ∷ [];
}

abbrev pub candidate_profiles_policy : TablePolicy
candidate_profiles_policy = record {
  columns =
      limited "id" text_kind false 36
      ∷ limited "display_name" text_kind false 200
      ∷ column "encrypted_contact" text_kind false
      ∷ limited "status" text_kind false 20
      ∷ column "created_at" datetime_kind false
      ∷ column "updated_at" datetime_kind false
      ∷ [];
  key = "id" ∷ [];
  references = [];
}

abbrev pub evidence_sources_policy : TablePolicy
evidence_sources_policy = record {
  columns =
      limited "id" text_kind false 36
      ∷ limited "profile_id" text_kind false 36
      ∷ limited "document_version_id" text_kind true 36
      ∷ limited "source_type" text_kind false 60
      ∷ limited "source_label" text_kind false 255
      ∷ column "source_uri" text_kind true
      ∷ limited "content_hash" text_kind false 64
      ∷ column "created_at" datetime_kind false
      ∷ [];
  key = "id" ∷ [];
  references =
      refers "profile_id" "candidate_profiles" "id"
      ∷ refers "document_version_id" "document_versions" "id"
      ∷ [];
}
