-- ===== src/Restore/Schema/Communications.antt =====
-- backend/src/job_apply_pro/storage/restore_history_policy.py: the tables of communications.
use job_apply_pro.Base.{option_eq, nat_eq, string_eq, true, false, [], ◌∷◌}
use job_apply_pro.Restore.Policy.{
  text_kind, json_kind, boolean_kind, datetime_kind, column, limited, refers, TablePolicy,
}

abbrev pub calendar_mutation_plans_policy : TablePolicy
calendar_mutation_plans_policy = record {
  columns =
      limited "id" text_kind false 36
      ∷ limited "provider" text_kind false 40
      ∷ limited "workflow_id" text_kind true 100
      ∷ limited "kind" text_kind false 40
      ∷ limited "fingerprint" text_kind false 64
      ∷ column "encrypted_payload" text_kind false
      ∷ column "created_at" datetime_kind false
      ∷ [];
  key = "id" ∷ [];
  references = [];
}

abbrev pub calendar_mutation_claims_policy : TablePolicy
calendar_mutation_claims_policy = record {
  columns = limited "plan_id" text_kind false 36 ∷ limited "audit_id" text_kind false 36 ∷ [];
  key = "plan_id" ∷ [];
  references =
      refers "plan_id" "calendar_mutation_plans" "id"
      ∷ refers "audit_id" "communication_mutation_audits" "id"
      ∷ [];
}

abbrev pub communication_configurations_policy : TablePolicy
communication_configurations_policy = record {
  columns =
      limited "id" text_kind false 20
      ∷ column "encrypted_configuration" text_kind false
      ∷ column "updated_at" datetime_kind false
      ∷ [];
  key = "id" ∷ [];
  references = [];
}

abbrev pub communication_follow_ups_policy : TablePolicy
communication_follow_ups_policy = record {
  columns =
      limited "id" text_kind false 36
      ∷ limited "workflow_id" text_kind false 100
      ∷ limited "reason" text_kind false 500
      ∷ column "due_at" datetime_kind false
      ∷ limited "channel" text_kind false 40
      ∷ limited "status" text_kind false 30
      ∷ limited "dedupe_key" text_kind false 64
      ∷ column "created_at" datetime_kind false
      ∷ column "updated_at" datetime_kind false
      ∷ [];
  key = "id" ∷ [];
  references = [];
}

abbrev pub communication_mutation_audits_policy : TablePolicy
communication_mutation_audits_policy = record {
  columns =
      limited "id" text_kind false 36
      ∷ limited "kind" text_kind false 40
      ∷ limited "provider" text_kind false 40
      ∷ limited "resource_id" text_kind false 100
      ∷ limited "idempotency_key" text_kind false 200
      ∷ limited "fingerprint" text_kind false 64
      ∷ limited "status" text_kind false 30
      ∷ limited "confirmed_by" text_kind true 200
      ∷ limited "provider_resource_id" text_kind true 500
      ∷ limited "error_code" text_kind true 100
      ∷ column "occurred_at" datetime_kind false
      ∷ [];
  key = "id" ∷ [];
  references = [];
}

abbrev pub communication_records_policy : TablePolicy
communication_records_policy = record {
  columns =
      limited "id" text_kind false 36
      ∷ limited "provider" text_kind false 40
      ∷ limited "provider_message_id" text_kind false 500
      ∷ limited "source_account_key" text_kind false 64
      ∷ limited "source_connection_fingerprint" text_kind false 64
      ∷ limited "provider_thread_id" text_kind false 500
      ∷ limited "category" text_kind false 50
      ∷ limited "workflow_id" text_kind true 100
      ∷ column "requires_review" boolean_kind false
      ∷ column "encrypted_analysis" text_kind false
      ∷ column "received_at" datetime_kind false
      ∷ column "created_at" datetime_kind false
      ∷ [];
  key = "id" ∷ [];
  references = [];
}

abbrev pub mail_send_claims_policy : TablePolicy
mail_send_claims_policy = record {
  columns = limited "draft_id" text_kind false 36 ∷ limited "audit_id" text_kind false 36 ∷ [];
  key = "draft_id" ∷ [];
  references =
      refers "draft_id" "outbound_drafts" "id"
      ∷ refers "audit_id" "communication_mutation_audits" "id"
      ∷ [];
}

abbrev pub oauth_authorization_sessions_policy : TablePolicy
oauth_authorization_sessions_policy = record {
  columns =
      limited "state_hash" text_kind false 64
      ∷ limited "provider" text_kind false 40
      ∷ limited "client_id" text_kind false 500
      ∷ column "redirect_uri" text_kind false
      ∷ column "requested_scopes_json" json_kind false
      ∷ column "encrypted_code_verifier" text_kind false
      ∷ column "expires_at" datetime_kind false
      ∷ column "consumed_at" datetime_kind true
      ∷ [];
  key = "state_hash" ∷ [];
  references = [];
}

abbrev pub oauth_credentials_policy : TablePolicy
oauth_credentials_policy = record {
  columns =
      limited "credential_reference" text_kind false 200
      ∷ limited "provider" text_kind false 40
      ∷ column "encrypted_token_set" text_kind false
      ∷ column "granted_scopes_json" json_kind false
      ∷ limited "account_hint" text_kind true 200
      ∷ column "expires_at" datetime_kind false
      ∷ column "updated_at" datetime_kind false
      ∷ [];
  key = "credential_reference" ∷ [];
  references = [];
}

abbrev pub outbound_drafts_policy : TablePolicy
outbound_drafts_policy = record {
  columns =
      limited "id" text_kind false 36
      ∷ limited "analysis_id" text_kind false 36
      ∷ limited "workflow_id" text_kind true 100
      ∷ limited "provider" text_kind false 40
      ∷ limited "provider_thread_id" text_kind false 500
      ∷ limited "category" text_kind false 50
      ∷ limited "policy" text_kind false 30
      ∷ column "document_version_ids_json" json_kind false
      ∷ limited "fingerprint" text_kind false 64
      ∷ column "encrypted_payload" text_kind false
      ∷ column "created_at" datetime_kind false
      ∷ column "updated_at" datetime_kind false
      ∷ [];
  key = "id" ∷ [];
  references = refers "analysis_id" "communication_records" "id" ∷ [];
}

abbrev pub provider_calendar_events_policy : TablePolicy
provider_calendar_events_policy = record {
  columns =
      limited "id" text_kind false 36
      ∷ limited "provider" text_kind false 40
      ∷ limited "event_fingerprint" text_kind false 64
      ∷ limited "binding_fingerprint" text_kind false 64
      ∷ column "starts_at" datetime_kind false
      ∷ column "ends_at" datetime_kind false
      ∷ column "encrypted_event" text_kind false
      ∷ column "synced_at" datetime_kind false
      ∷ [];
  key = "id" ∷ [];
  references = [];
}

abbrev pub provider_sync_states_policy : TablePolicy
provider_sync_states_policy = record {
  columns =
      limited "provider" text_kind false 40
      ∷ column "encrypted_cursor" text_kind false
      ∷ column "updated_at" datetime_kind false
      ∷ [];
  key = "provider" ∷ [];
  references = [];
}
