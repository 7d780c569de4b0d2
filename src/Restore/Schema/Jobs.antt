-- ===== src/Restore/Schema/Jobs.antt =====
-- backend/src/job_apply_pro/storage/restore_history_policy.py: the tables of jobs.
use job_apply_pro.Base.{option_eq, nat_eq, string_eq, true, false, [], ◌∷◌}
use job_apply_pro.Restore.Policy.{
  text_kind, json_kind, integer_kind, boolean_kind, float_kind, datetime_kind, column, limited,
  refers, TablePolicy,
}

abbrev pub fit_scores_policy : TablePolicy
fit_scores_policy = record {
  columns =
      limited "id" text_kind false 36
      ∷ limited "job_id" text_kind false 36
      ∷ limited "profile_id" text_kind false 36
      ∷ column "score" float_kind false
      ∷ column "explanation_json" json_kind false
      ∷ limited "model_version" text_kind false 100
      ∷ column "created_at" datetime_kind false
      ∷ [];
  key = "id" ∷ [];
  references = refers "job_id" "jobs" "id" ∷ refers "profile_id" "candidate_profiles" "id" ∷ [];
}

abbrev pub job_discovery_snapshots_policy : TablePolicy
job_discovery_snapshots_policy = record {
  columns =
      limited "job_id" text_kind false 36
      ∷ limited "review_fingerprint" text_kind false 64
      ∷ column "review_json" json_kind false
      ∷ column "created_at" datetime_kind false
      ∷ [];
  key = "job_id" ∷ [];
  references = refers "job_id" "jobs" "id" ∷ [];
}

abbrev pub job_readiness_reviews_policy : TablePolicy
job_readiness_reviews_policy = record {
  columns =
      limited "id" text_kind false 36
      ∷ limited "application_id" text_kind false 36
      ∷ limited "kind" text_kind false 20
      ∷ column "revision" integer_kind false
      ∷ limited "request_fingerprint" text_kind false 64
      ∷ column "encrypted_payload" text_kind false
      ∷ column "created_at" datetime_kind false
      ∷ [];
  key = "id" ∷ [];
  references = refers "application_id" "applications" "id" ∷ [];
}

abbrev pub job_requirements_policy : TablePolicy
job_requirements_policy = record {
  columns =
      limited "id" text_kind false 36
      ∷ limited "job_id" text_kind false 36
      ∷ limited "category" text_kind false 60
      ∷ column "text" text_kind false
      ∷ column "required" boolean_kind false
      ∷ column "evidence_json" json_kind false
      ∷ [];
  key = "id" ∷ [];
  references = refers "job_id" "jobs" "id" ∷ [];
}

abbrev pub jobs_policy : TablePolicy
jobs_policy = record {
  columns =
      limited "id" text_kind false 36
      ∷ limited "source" text_kind false 80
      ∷ limited "external_id" text_kind false 200
      ∷ limited "employer" text_kind false 200
      ∷ limited "title" text_kind false 200
      ∷ limited "location" text_kind true 200
      ∷ column "source_url" text_kind true
      ∷ limited "description_hash" text_kind false 64
      ∷ column "discovered_at" datetime_kind false
      ∷ [];
  key = "id" ∷ [];
  references = [];
}
