-- ===== src/Restore/Schema/Applications.antt =====
-- backend/src/job_apply_pro/storage/restore_history_policy.py: the tables of applications.
use job_apply_pro.Base.{option_eq, nat_eq, string_eq, true, false, [], ◌∷◌}
use job_apply_pro.Restore.Policy.{
  text_kind, json_kind, integer_kind, boolean_kind, float_kind, datetime_kind, column, limited,
  refers, TablePolicy,
}

abbrev pub applications_policy : TablePolicy
applications_policy = record {
  columns =
      limited "id" text_kind false 36
      ∷ limited "workflow_id" text_kind false 100
      ∷ limited "profile_id" text_kind false 36
      ∷ limited "job_id" text_kind false 36
      ∷ limited "state" text_kind false 40
      ∷ limited "selected_document_version_id" text_kind true 36
      ∷ column "created_at" datetime_kind false
      ∷ column "updated_at" datetime_kind false
      ∷ [];
  key = "id" ∷ [];
  references =
      refers "profile_id" "candidate_profiles" "id"
      ∷ refers "job_id" "jobs" "id"
      ∷ refers "selected_document_version_id" "document_versions" "id"
      ∷ [];
}

abbrev pub application_field_bindings_policy : TablePolicy
application_field_bindings_policy = record {
  columns =
      limited "id" text_kind false 36
      ∷ limited "application_id" text_kind false 36
      ∷ limited "application_answer_id" text_kind false 36
      ∷ column "answer_revision" integer_kind false
      ∷ limited "portal" text_kind false 80
      ∷ limited "page_fingerprint" text_kind false 200
      ∷ limited "control_key" text_kind false 200
      ∷ limited "control_kind" text_kind false 40
      ∷ column "encrypted_label" text_kind false
      ∷ column "encrypted_options" text_kind false
      ∷ column "required" boolean_kind false
      ∷ limited "canonical_field" text_kind false 160
      ∷ column "confidence" float_kind false
      ∷ limited "binding_source" text_kind false 40
      ∷ limited "answer_source" text_kind false 40
      ∷ limited "answer_kind" text_kind false 40
      ∷ column "validation_rules_json" json_kind false
      ∷ limited "automation_permission" text_kind false 40
      ∷ limited "review_fingerprint" text_kind false 64
      ∷ column "created_at" datetime_kind false
      ∷ column "updated_at" datetime_kind false
      ∷ [];
  key = "id" ∷ [];
  references =
      refers "application_id" "applications" "id"
      ∷ refers "application_answer_id" "application_answers" "id"
      ∷ [];
}

abbrev pub application_field_executions_policy : TablePolicy
application_field_executions_policy = record {
  columns =
      limited "id" text_kind false 36
      ∷ limited "binding_id" text_kind false 36
      ∷ limited "application_id" text_kind false 36
      ∷ limited "application_answer_id" text_kind false 36
      ∷ column "answer_revision" integer_kind false
      ∷ limited "supervised_run_id" text_kind false 36
      ∷ limited "browser_session_id" text_kind false 36
      ∷ limited "portal" text_kind false 80
      ∷ limited "page_fingerprint_before" text_kind false 200
      ∷ limited "page_fingerprint_after" text_kind false 200
      ∷ limited "control_key" text_kind false 200
      ∷ limited "action_kind" text_kind false 40
      ∷ column "verified" boolean_kind false
      ∷ limited "action_fingerprint" text_kind false 64
      ∷ column "error" text_kind true
      ∷ column "created_at" datetime_kind false
      ∷ [];
  key = "id" ∷ [];
  references =
      refers "binding_id" "application_field_bindings" "id"
      ∷ refers "application_id" "applications" "id"
      ∷ refers "application_answer_id" "application_answers" "id"
      ∷ refers "supervised_run_id" "supervised_portal_runs" "id"
      ∷ refers "browser_session_id" "browser_sessions" "id"
      ∷ [];
}

abbrev pub submitted_document_evidence_policy : TablePolicy
submitted_document_evidence_policy = record {
  columns =
      limited "id" text_kind false 36
      ∷ limited "application_id" text_kind false 36
      ∷ limited "document_version_id" text_kind false 36
      ∷ limited "role" text_kind false 30
      ∷ limited "file_name" text_kind false 255
      ∷ limited "sha256" text_kind false 64
      ∷ limited "upload_fingerprint" text_kind false 200
      ∷ column "captured_at" datetime_kind false
      ∷ [];
  key = "id" ∷ [];
  references =
      refers "application_id" "applications" "id"
      ∷ refers "document_version_id" "document_versions" "id"
      ∷ [];
}
