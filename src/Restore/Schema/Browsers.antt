-- ===== src/Restore/Schema/Browsers.antt =====
-- backend/src/job_apply_pro/storage/restore_history_policy.py: the tables of browser sessions, portals and challenges.
use job_apply_pro.Base.{option_eq, nat_eq, string_eq, true, false, [], ◌∷◌}
use job_apply_pro.Restore.Policy.{
  text_kind, json_kind, integer_kind, boolean_kind, datetime_kind, column, limited, refers,
  TablePolicy,
}

abbrev pub browser_actions_policy : TablePolicy
browser_actions_policy = record {
  columns =
      limited "id" text_kind false 36
      ∷ limited "session_id" text_kind false 36
      ∷ column "sequence" integer_kind false
      ∷ column "action_json" json_kind false
      ∷ column "verified" boolean_kind false
      ∷ column "attempts" integer_kind false
      ∷ column "observation_json" json_kind false
      ∷ column "error" text_kind true
      ∷ column "created_at" datetime_kind false
      ∷ [];
  key = "id" ∷ [];
  references = refers "session_id" "browser_sessions" "id" ∷ [];
}

abbrev pub browser_sessions_policy : TablePolicy
browser_sessions_policy = record {
  columns =
      limited "id" text_kind false 36
      ∷ limited "workflow_id" text_kind false 100
      ∷ limited "engine" text_kind false 20
      ∷ limited "profile_name" text_kind false 80
      ∷ column "user_data_dir" text_kind false
      ∷ column "artifact_dir" text_kind false
      ∷ column "headless" boolean_kind false
      ∷ limited "state" text_kind false 30
      ∷ column "current_url" text_kind false
      ∷ column "allowed_origins_json" json_kind false
      ∷ column "last_observation_json" json_kind true
      ∷ column "trace_path" text_kind true
      ∷ column "created_at" datetime_kind false
      ∷ column "updated_at" datetime_kind false
      ∷ [];
  key = "id" ∷ [];
  references = [];
}

abbrev pub challenge_events_policy : TablePolicy
challenge_events_policy = record {
  columns =
      limited "id" text_kind false 36
      ∷ limited "session_id" text_kind false 36
      ∷ column "sequence" integer_kind false
      ∷ limited "event_type" text_kind false 80
      ∷ column "details_json" json_kind false
      ∷ column "occurred_at" datetime_kind false
      ∷ [];
  key = "id" ∷ [];
  references = refers "session_id" "challenge_sessions" "id" ∷ [];
}

abbrev pub challenge_sessions_policy : TablePolicy
challenge_sessions_policy = record {
  columns =
      limited "id" text_kind false 36
      ∷ limited "workflow_id" text_kind false 100
      ∷ limited "browser_session_id" text_kind false 36
      ∷ limited "kind" text_kind false 30
      ∷ limited "status" text_kind false 40
      ∷ column "snapshot_json" json_kind false
      ∷ column "created_at" datetime_kind false
      ∷ column "updated_at" datetime_kind false
      ∷ [];
  key = "id" ∷ [];
  references = refers "browser_session_id" "browser_sessions" "id" ∷ [];
}

abbrev pub portal_runs_policy : TablePolicy
portal_runs_policy = record {
  columns =
      limited "id" text_kind false 36
      ∷ limited "portal" text_kind false 40
      ∷ column "capabilities_json" json_kind false
      ∷ limited "workflow_id" text_kind false 100
      ∷ limited "application_id" text_kind false 36
      ∷ limited "browser_session_id" text_kind false 36
      ∷ limited "profile_id" text_kind false 36
      ∷ limited "job_id" text_kind false 36
      ∷ limited "state" text_kind false 40
      ∷ column "portal_origin" text_kind false
      ∷ limited "query" text_kind false 200
      ∷ column "deduplicated" boolean_kind false
      ∷ column "qualification_json" json_kind false
      ∷ limited "selected_document_version_id" text_kind false 36
      ∷ column "field_mappings_json" json_kind false
      ∷ limited "review_fingerprint" text_kind false 200
      ∷ column "submission_evidence_json" json_kind true
      ∷ column "trace_path" text_kind true
      ∷ column "created_at" datetime_kind false
      ∷ column "updated_at" datetime_kind false
      ∷ [];
  key = "id" ∷ [];
  references =
      refers "application_id" "applications" "id"
      ∷ refers "browser_session_id" "browser_sessions" "id"
      ∷ refers "profile_id" "candidate_profiles" "id"
      ∷ refers "job_id" "jobs" "id"
      ∷ refers "selected_document_version_id" "document_versions" "id"
      ∷ [];
}

abbrev pub supervised_portal_runs_policy : TablePolicy
supervised_portal_runs_policy = record {
  columns =
      limited "id" text_kind false 36
      ∷ limited "portal" text_kind false 40
      ∷ limited "workflow_id" text_kind false 100
      ∷ limited "browser_session_id" text_kind false 36
      ∷ limited "state" text_kind false 40
      ∷ column "current_url" text_kind false
      ∷ column "allowed_origins_json" json_kind false
      ∷ limited "page_fingerprint" text_kind false 200
      ∷ column "current_match_json" json_kind true
      ∷ limited "disposition" text_kind false 50
      ∷ column "intervention_reasons_json" json_kind false
      ∷ column "trace_path" text_kind true
      ∷ column "created_at" datetime_kind false
      ∷ column "updated_at" datetime_kind false
      ∷ [];
  key = "id" ∷ [];
  references = refers "browser_session_id" "browser_sessions" "id" ∷ [];
}

abbrev pub supervised_portal_step_evidence_policy : TablePolicy
supervised_portal_step_evidence_policy = record {
  columns =
      limited "id" text_kind false 36
      ∷ limited "run_id" text_kind false 36
      ∷ column "sequence" integer_kind false
      ∷ limited "disposition" text_kind false 50
      ∷ limited "capability" text_kind true 40
      ∷ limited "page_type" text_kind false 100
      ∷ limited "before_fingerprint" text_kind false 200
      ∷ limited "after_fingerprint" text_kind false 200
      ∷ limited "action_kind" text_kind true 40
      ∷ limited "action_fingerprint" text_kind false 64
      ∷ column "verified" boolean_kind false
      ∷ column "intervention_reasons_json" json_kind false
      ∷ column "created_at" datetime_kind false
      ∷ [];
  key = "id" ∷ [];
  references = refers "run_id" "supervised_portal_runs" "id" ∷ [];
}
