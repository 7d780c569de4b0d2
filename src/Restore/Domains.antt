-- ===== src/Restore/Domains.antt =====
-- backend/src/job_apply_pro/storage/restore_history_policy.py: the tables whose rows are history, those
-- that are compared as a whole, and the values of the columns that hold an enumeration. A frozen set is
-- a list of its elements.
use job_apply_pro.Base.{option_eq, nat_eq, string_eq, String, List, [], ◌∷◌, ◌++◌}

-- `ROOTS` as it is first written
abbrev pub recorded_roots : List String
recorded_roots =
    "communication_mutation_audits" ∷ "mail_send_claims" ∷ "calendar_mutation_claims"
    ∷ "calendar_mutation_plans" ∷ "oauth_credentials" ∷ "oauth_authorization_sessions"
    ∷ "communication_configurations" ∷ "browser_sessions" ∷ "browser_actions" ∷ "portal_runs"
    ∷ "supervised_portal_runs" ∷ "supervised_portal_step_evidence" ∷ "application_field_executions"
    ∷ "submitted_document_evidence" ∷ "challenge_sessions" ∷ "challenge_events"
    ∷ "model_invocations" ∷ "ai_media_cleanup" ∷ []

-- `EXACT_SETS`
abbrev pub exact_sets : List String
exact_sets =
    "oauth_credentials" ∷ "oauth_authorization_sessions" ∷ "communication_configurations"
    ∷ "browser_sessions" ∷ "portal_runs" ∷ "supervised_portal_runs" ∷ "challenge_sessions"
    ∷ "provider_sync_states" ∷ "provider_calendar_events" ∷ "ai_cache" ∷ []

-- `ROOTS = ROOTS | EXACT_SETS`
abbrev pub roots : List String
roots = recorded_roots ++ exact_sets

abbrev pub browser_engine_values : List String
browser_engine_values = "chromium" ∷ "chrome" ∷ "msedge" ∷ []

abbrev pub browser_session_state_values : List String
browser_session_state_values = "STARTING" ∷ "ACTIVE" ∷ "USER_TAKEOVER" ∷ "STOPPED" ∷ "FAILED" ∷ []

abbrev pub browser_action_kind_values : List String
browser_action_kind_values =
    "NAVIGATE" ∷ "CLICK" ∷ "FILL" ∷ "SELECT" ∷ "SELECT_LABEL" ∷ "CHECK" ∷ "UNCHECK" ∷ "UPLOAD"
    ∷ "WAIT_FOR" ∷ "SCREENSHOT" ∷ []

abbrev pub workflow_state_values : List String
workflow_state_values =
    "DISCOVERED" ∷ "DEDUPLICATED" ∷ "SCORED" ∷ "ELIGIBILITY_CHECKED" ∷ "DOCUMENTS_SELECTED"
    ∷ "APPLICATION_OPENED" ∷ "FORM_MAPPED" ∷ "ANSWERS_VALIDATED" ∷ "ASSESSMENT_PENDING"
    ∷ "ASSESSMENT_IN_PROGRESS" ∷ "ASSESSMENT_COMPLETED" ∷ "READY_TO_SUBMIT" ∷ "SUBMISSION_ATTEMPTED"
    ∷ "SUBMISSION_CONFIRMED" ∷ "TRACKING_ACTIVE" ∷ "CLOSED" ∷ "LOGIN_REQUIRED" ∷ "MFA_REQUIRED"
    ∷ "CAPTCHA_REQUIRED" ∷ "UNKNOWN_QUESTION" ∷ "SENSITIVE_FIELD" ∷ "ASSESSMENT_REQUIRED"
    ∷ "SITE_CHANGED" ∷ "SESSION_EXPIRED" ∷ "POLICY_REVIEW" ∷ "USER_TAKEOVER"
    ∷ "SUBMISSION_UNCERTAIN" ∷ "FAILED_RETRYABLE" ∷ "FAILED_TERMINAL" ∷ []

abbrev pub verification_result_values : List String
verification_result_values = "NOT_REQUIRED" ∷ "PASSED" ∷ "FAILED" ∷ "UNCERTAIN" ∷ []

abbrev pub supervised_portal_run_state_values : List String
supervised_portal_run_state_values =
    "AWAITING_USER" ∷ "INTERVENTION_REQUIRED" ∷ "READY_TO_SUBMIT" ∷ "SUBMISSION_UNCERTAIN"
    ∷ "SUBMISSION_CONFIRMED" ∷ "STOPPED" ∷ []

abbrev pub supervised_portal_disposition_values : List String
supervised_portal_disposition_values =
    "USER_ACTION_REQUIRED" ∷ "MANUAL_INTERVENTION_REQUIRED" ∷ "FINAL_CONFIRMATION_REQUIRED"
    ∷ "CONFIRMATION_VERIFIED" ∷ "CONFIRMATION_UNCERTAIN" ∷ "STOPPED" ∷ []

abbrev pub portal_kind_values : List String
portal_kind_values =
    "REFERENCE_ATS" ∷ "LINKEDIN" ∷ "INDEED" ∷ "MONSTER" ∷ "CAREERBUILDER" ∷ "DICE" ∷ "ZIPRECRUITER"
    ∷ "GLASSDOOR" ∷ "COMPANY_CAREERS" ∷ "WORKDAY" ∷ "TALEO" ∷ "GREENHOUSE" ∷ []

abbrev pub challenge_kind_values : List String
challenge_kind_values = "CAPTCHA" ∷ "QUESTIONNAIRE" ∷ "ASSESSMENT" ∷ "QUIZ" ∷ []

abbrev pub challenge_status_values : List String
challenge_status_values =
    "DETECTED" ∷ "INTERVENTION_REQUIRED" ∷ "IN_PROGRESS" ∷ "REVIEW_REQUIRED" ∷ "COMPLETED"
    ∷ "FAILED" ∷ "EXPIRED" ∷ []

abbrev pub ai_task_type_values : List String
ai_task_type_values =
    "COORDINATION" ∷ "QUALIFICATION" ∷ "FORM_INTERPRETATION" ∷ "ANSWER" ∷ "VERIFICATION"
    ∷ "RECOVERY" ∷ "EMBEDDING" ∷ "RERANKING" ∷ []

abbrev pub data_classification_values : List String
data_classification_values =
    "ROUTINE" ∷ "EMPLOYMENT_SENSITIVE" ∷ "HIGHLY_SENSITIVE" ∷ "RESTRICTED" ∷ []

abbrev pub integration_provider_values : List String
integration_provider_values = "GMAIL" ∷ "OUTLOOK" ∷ "GOOGLE_CALENDAR" ∷ "OUTLOOK_CALENDAR" ∷ []

-- An entry of `ENUM_FIELDS`: a table, a column and the texts that it may hold.
pub record EnumField : Type 0 where
  pub table : String
  pub field : String
  pub values : List String

abbrev choices : String → String → List String → EnumField
choices table field values = record { table = table; field = field; values = values }

-- `ENUM_FIELDS`
abbrev pub enum_fields : List EnumField
enum_fields =
    choices "browser_sessions" "engine" browser_engine_values
    ∷ choices "browser_sessions" "state" browser_session_state_values
    ∷ choices "portal_runs" "state" workflow_state_values
    ∷ choices "supervised_portal_runs" "state" supervised_portal_run_state_values
    ∷ choices "supervised_portal_runs" "disposition" supervised_portal_disposition_values
    ∷ choices "supervised_portal_step_evidence" "disposition" supervised_portal_disposition_values
    ∷ choices "challenge_sessions" "kind" challenge_kind_values
    ∷ choices "challenge_sessions" "status" challenge_status_values
    ∷ choices "application_field_executions" "action_kind" browser_action_kind_values
    ∷ choices "supervised_portal_step_evidence" "action_kind" browser_action_kind_values
    ∷ choices "model_invocations" "task_type" ai_task_type_values
    ∷ choices "model_invocations" "classification" data_classification_values
    ∷ choices "ai_cache" "classification" data_classification_values
    ∷ choices "calendar_mutation_plans" "kind"
        ("CREATE_CALENDAR_EVENT" ∷ "UPDATE_CALENDAR_EVENT" ∷ [])
    ∷ choices "applications" "state" workflow_state_values
    ∷ choices "workflow_events" "prior_state" workflow_state_values
    ∷ choices "workflow_events" "next_state" workflow_state_values
    ∷ choices "workflow_events" "verification" verification_result_values
    ∷ choices "portal_runs" "portal" portal_kind_values
    ∷ choices "supervised_portal_runs" "portal" portal_kind_values
    ∷ choices "application_field_bindings" "portal" portal_kind_values
    ∷ choices "application_field_executions" "portal" portal_kind_values
    ∷ choices "communication_records" "provider" integration_provider_values
    ∷ choices "outbound_drafts" "provider" integration_provider_values
    ∷ choices "calendar_mutation_plans" "provider" integration_provider_values
    ∷ choices "communication_mutation_audits" "provider" integration_provider_values
    ∷ choices "oauth_credentials" "provider" integration_provider_values
    ∷ choices "oauth_authorization_sessions" "provider" integration_provider_values
    ∷ choices "provider_sync_states" "provider" integration_provider_values
    ∷ choices "provider_calendar_events" "provider" integration_provider_values
    ∷ []

-- `UNIQUES`
abbrev pub uniques : List (String × List (List String))
uniques =
    ("workflow_events", ("workflow_id" ∷ "sequence" ∷ []) ∷ [])
    ∷ ("document_versions", ("document_id" ∷ "version" ∷ []) ∷ [])
    ∷ ("document_generation_audits", ("document_version_id" ∷ []) ∷ [])
    ∷ ("jobs", ("source" ∷ "external_id" ∷ []) ∷ [])
    ∷ (
      "job_readiness_reviews",
      ("application_id" ∷ "kind" ∷ "revision" ∷ [])
          ∷ ("application_id" ∷ "kind" ∷ "request_fingerprint" ∷ [])
          ∷ [],
    )
    ∷ ("applications", ("workflow_id" ∷ []) ∷ [])
    ∷ (
      "application_field_bindings",
      ("application_id" ∷ "page_fingerprint" ∷ "control_key" ∷ []) ∷ [],
    )
    ∷ (
      "submitted_document_evidence",
      ("application_id" ∷ "document_version_id" ∷ "role" ∷ "upload_fingerprint" ∷ []) ∷ [],
    )
    ∷ ("answer_library_revisions", ("answer_id" ∷ "revision" ∷ []) ∷ [])
    ∷ ("retrieval_chunks", ("source_type" ∷ "source_id" ∷ []) ∷ [])
    ∷ ("workflow_checkpoints", ("workflow_id" ∷ "sequence" ∷ []) ∷ [])
    ∷ ("browser_actions", ("session_id" ∷ "sequence" ∷ []) ∷ [])
    ∷ ("portal_runs", ("workflow_id" ∷ []) ∷ [])
    ∷ ("supervised_portal_runs", ("browser_session_id" ∷ []) ∷ [])
    ∷ ("supervised_portal_step_evidence", ("run_id" ∷ "sequence" ∷ []) ∷ [])
    ∷ ("challenge_events", ("session_id" ∷ "sequence" ∷ []) ∷ [])
    ∷ (
      "communication_records",
      ("provider" ∷ "source_account_key" ∷ "source_connection_fingerprint" ∷ "provider_message_id"
            ∷ [])
          ∷ [],
    )
    ∷ ("provider_calendar_events", ("provider" ∷ "event_fingerprint" ∷ []) ∷ [])
    ∷ ("oauth_credentials", ("provider" ∷ []) ∷ [])
    ∷ ("communication_mutation_audits", ("idempotency_key" ∷ []) ∷ [])
    ∷ ("mail_send_claims", ("audit_id" ∷ []) ∷ [])
    ∷ ("calendar_mutation_claims", ("audit_id" ∷ []) ∷ [])
    ∷ ("communication_follow_ups", ("dedupe_key" ∷ []) ∷ [])
    ∷ []
