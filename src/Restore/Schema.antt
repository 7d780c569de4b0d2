-- ===== src/Restore/Schema.antt =====
-- backend/src/job_apply_pro/storage/restore_history_policy.py: `TABLES`, in the order of the source.
pub mod Ai
pub mod Answers
pub mod Applications
pub mod Browsers
pub mod Candidates
pub mod Communications
pub mod Documents
pub mod Jobs
pub mod Workflows
use job_apply_pro.Base.{option_eq, nat_eq, string_eq, String, List, [], ◌∷◌}
use job_apply_pro.Restore.Policy.{TablePolicy}
use job_apply_pro.Restore.Schema.Ai.{
  ai_cache_policy, ai_media_cleanup_policy, model_invocations_policy, retrieval_chunks_policy,
}
use job_apply_pro.Restore.Schema.Answers.{
  answer_library_policy, answer_library_revisions_policy, application_answers_policy,
}
use job_apply_pro.Restore.Schema.Applications.{
  applications_policy, application_field_bindings_policy, application_field_executions_policy,
  submitted_document_evidence_policy,
}
use job_apply_pro.Restore.Schema.Browsers.{
  browser_actions_policy, browser_sessions_policy, challenge_events_policy,
  challenge_sessions_policy, portal_runs_policy, supervised_portal_runs_policy,
  supervised_portal_step_evidence_policy,
}
use job_apply_pro.Restore.Schema.Candidates.{
  candidate_claims_policy, candidate_profiles_policy, evidence_sources_policy,
}
use job_apply_pro.Restore.Schema.Communications.{
  calendar_mutation_plans_policy, calendar_mutation_claims_policy,
  communication_configurations_policy, communication_follow_ups_policy,
  communication_mutation_audits_policy, communication_records_policy, mail_send_claims_policy,
  oauth_authorization_sessions_policy, oauth_credentials_policy, outbound_drafts_policy,
  provider_calendar_events_policy, provider_sync_states_policy,
}
use job_apply_pro.Restore.Schema.Documents.{
  document_generation_audits_policy, document_selection_audits_policy, document_versions_policy,
  documents_policy,
}
use job_apply_pro.Restore.Schema.Jobs.{
  fit_scores_policy, job_discovery_snapshots_policy, job_readiness_reviews_policy,
  job_requirements_policy, jobs_policy,
}
use job_apply_pro.Restore.Schema.Workflows.{workflow_checkpoints_policy, workflow_events_policy}

abbrev pub tables : List (String × TablePolicy)
tables =
    ("ai_cache", ai_cache_policy)
    ∷ ("ai_media_cleanup", ai_media_cleanup_policy)
    ∷ ("answer_library", answer_library_policy)
    ∷ ("answer_library_revisions", answer_library_revisions_policy)
    ∷ ("application_answers", application_answers_policy)
    ∷ ("application_field_bindings", application_field_bindings_policy)
    ∷ ("application_field_executions", application_field_executions_policy)
    ∷ ("applications", applications_policy)
    ∷ ("browser_actions", browser_actions_policy)
    ∷ ("browser_sessions", browser_sessions_policy)
    ∷ ("calendar_mutation_plans", calendar_mutation_plans_policy)
    ∷ ("calendar_mutation_claims", calendar_mutation_claims_policy)
    ∷ ("candidate_claims", candidate_claims_policy)
    ∷ ("candidate_profiles", candidate_profiles_policy)
    ∷ ("challenge_events", challenge_events_policy)
    ∷ ("challenge_sessions", challenge_sessions_policy)
    ∷ ("communication_configurations", communication_configurations_policy)
    ∷ ("communication_follow_ups", communication_follow_ups_policy)
    ∷ ("communication_mutation_audits", communication_mutation_audits_policy)
    ∷ ("communication_records", communication_records_policy)
    ∷ ("document_generation_audits", document_generation_audits_policy)
    ∷ ("document_selection_audits", document_selection_audits_policy)
    ∷ ("document_versions", document_versions_policy)
    ∷ ("documents", documents_policy)
    ∷ ("evidence_sources", evidence_sources_policy)
    ∷ ("fit_scores", fit_scores_policy)
    ∷ ("job_discovery_snapshots", job_discovery_snapshots_policy)
    ∷ ("job_readiness_reviews", job_readiness_reviews_policy)
    ∷ ("job_requirements", job_requirements_policy)
    ∷ ("jobs", jobs_policy)
    ∷ ("mail_send_claims", mail_send_claims_policy)
    ∷ ("model_invocations", model_invocations_policy)
    ∷ ("oauth_authorization_sessions", oauth_authorization_sessions_policy)
    ∷ ("oauth_credentials", oauth_credentials_policy)
    ∷ ("outbound_drafts", outbound_drafts_policy)
    ∷ ("portal_runs", portal_runs_policy)
    ∷ ("provider_calendar_events", provider_calendar_events_policy)
    ∷ ("provider_sync_states", provider_sync_states_policy)
    ∷ ("retrieval_chunks", retrieval_chunks_policy)
    ∷ ("submitted_document_evidence", submitted_document_evidence_policy)
    ∷ ("supervised_portal_runs", supervised_portal_runs_policy)
    ∷ ("supervised_portal_step_evidence", supervised_portal_step_evidence_policy)
    ∷ ("workflow_checkpoints", workflow_checkpoints_policy)
    ∷ ("workflow_events", workflow_events_policy)
    ∷ []
