-- ===== src/Restore/Tests.antt =====
-- A restore of a small history: a candidate that adds a profile to it.
use job_apply_pro.Restore.Policy.{refers}
use job_apply_pro.Restore.Schema.Ai.{ai_media_cleanup_policy}
use job_apply_pro.Restore.Policy.{TablePolicy}
use job_apply_pro.Restore.Schema.Jobs.{job_requirements_policy}
use job_apply_pro.Restore.Keeping.{IsKept, require_preserved-IsKept}
use job_apply_pro.Restore.References.{has_column, tables-referred, reviewed}
use job_apply_pro.Restore.Closure.{IsKnown, require_relational_closure-IsKnown}
use mathlib.Core.List.{Memᴰ}
use job_apply_pro.Base.{
  option_eq, nat_eq, string_eq, ◌==◌, ok, String, ◌≡◌, refl, true, Option, none, some, [], ◌∷◌,
  ◌||◌, find, find-Mem,
}
use job_apply_pro.Restore.Schema.{tables}
use job_apply_pro.Restore.Snapshot.{
  check_table, check_row, check_choice, check_reference, check_known, check_profile, values,
  table_of, cell, has_history, Row, HistorySnapshot, each,
}
use job_apply_pro.Restore.Preserved.{
  check_media, check_unresolved, check_closed, check_kept, rows_eq, row_eq,
  require_relational_closure, HistoryChecks, row_eq, rows_eq, require_kept, require_preserved,
}

abbrev Cell : Type 0
Cell = Option String

abbrev word : String → Cell
word s = some s

abbrev upload_row : Row Cell
upload_row =
    ("id", word "m1")
    ∷ ("provider_id", word "gemini")
    ∷ ("account_fingerprint", word "a")
    ∷ ("owner_token", word "t1")
    ∷ ("state", word "DELETED")
    ∷ ("encrypted_resource", none)
    ∷ ("attempts", word "0")
    ∷ ("reason", word "DELETION_CONFIRMED")
    ∷ ("lease_until", none)
    ∷ ("next_attempt_at", none)
    ∷ ("created_at", word "now")
    ∷ ("updated_at", word "now")
    ∷ []

abbrev job_row : Row Cell
job_row =
    ("id", word "j1")
    ∷ ("source", word "x")
    ∷ ("external_id", word "x")
    ∷ ("employer", word "x")
    ∷ ("title", word "x")
    ∷ ("location", word "x")
    ∷ ("source_url", word "x")
    ∷ ("description_hash", word "x")
    ∷ ("discovered_at", word "x")
    ∷ []

abbrev requirement_row : Row Cell
requirement_row =
    ("id", word "q1")
    ∷ ("job_id", word "j1")
    ∷ ("category", word "SKILL")
    ∷ ("text", word "Python")
    ∷ ("required", word "1")
    ∷ ("evidence_json", word "[]")
    ∷ []

abbrev small_history : HistorySnapshot Cell
small_history = record {
  revision = "20260913_0028";
  tables =
      ("ai_cache", [])
      ∷ ("ai_media_cleanup", ((word "m1" ∷ []), upload_row) ∷ [])
      ∷ ("answer_library", [])
      ∷ ("answer_library_revisions", [])
      ∷ ("application_answers", [])
      ∷ ("application_field_bindings", [])
      ∷ ("application_field_executions", [])
      ∷ ("applications", [])
      ∷ ("browser_actions", [])
      ∷ ("browser_sessions", [])
      ∷ ("calendar_mutation_plans", [])
      ∷ ("calendar_mutation_claims", [])
      ∷ ("candidate_claims", [])
      ∷ ("candidate_profiles", [])
      ∷ ("challenge_events", [])
      ∷ ("challenge_sessions", [])
      ∷ ("communication_configurations", [])
      ∷ ("communication_follow_ups", [])
      ∷ ("communication_mutation_audits", [])
      ∷ ("communication_records", [])
      ∷ ("document_generation_audits", [])
      ∷ ("document_selection_audits", [])
      ∷ ("document_versions", [])
      ∷ ("documents", [])
      ∷ ("evidence_sources", [])
      ∷ ("fit_scores", [])
      ∷ ("job_discovery_snapshots", [])
      ∷ ("job_readiness_reviews", [])
      ∷ ("job_requirements", ((word "q1" ∷ []), requirement_row) ∷ [])
      ∷ ("jobs", ((word "j1" ∷ []), job_row) ∷ [])
      ∷ ("mail_send_claims", [])
      ∷ ("model_invocations", [])
      ∷ ("oauth_authorization_sessions", [])
      ∷ ("oauth_credentials", [])
      ∷ ("outbound_drafts", [])
      ∷ ("portal_runs", [])
      ∷ ("provider_calendar_events", [])
      ∷ ("provider_sync_states", [])
      ∷ ("retrieval_chunks", [])
      ∷ ("submitted_document_evidence", [])
      ∷ ("supervised_portal_runs", [])
      ∷ ("supervised_portal_step_evidence", [])
      ∷ ("workflow_checkpoints", [])
      ∷ ("workflow_events", [])
      ∷ [];
}

abbrev no_checks : HistoryChecks Cell
no_checks = record {
  further_closure = λ s. ok tt;
  authenticate = λ s. ok tt;
  documents = λ s t. ok tt;
}

media_closed : each (check_media none word) (small_history ∷ small_history ∷ []) ≡ ok tt
unfolding check_media table_of cell check_unresolved check_closed string_eq option_eq
media_closed = refl

recorded : (has_history none word small_history || has_history none word small_history) ≡ true
unfolding has_history string_eq
recorded = refl

closed : require_relational_closure none word no_checks small_history ≡ ok tt
unfolding require_relational_closure check_table check_row check_choice check_reference check_known
    check_profile values table_of cell string_eq option_eq
closed = refl

kept : each (λ t. check_kept none word small_history small_history t.0) tables ≡ ok tt
unfolding check_kept rows_eq row_eq table_of string_eq option_eq nat_eq
kept = refl

accepted : require_preserved none word no_checks true small_history small_history ≡ ok tt
unfolding require_preserved require_kept
accepted = rw (media_closed, recorded, closed, kept) refl

require_preserved-IsKept_example : IsKept none word small_history small_history "ai_media_cleanup"
require_preserved-IsKept_example =
    require_preserved-IsKept none word no_checks true small_history small_history "ai_media_cleanup"
      ai_media_cleanup_policy accepted recorded (Memᴰ.tail (Memᴰ.head refl))

requirements_found :
    find (λ t. t.0 == "job_requirements") tables
    ≡ some ("job_requirements", job_requirements_policy)
unfolding string_eq
requirements_found = refl

requirements_rows :
    table_of none word small_history "job_requirements"
    ≡ ok (((word "q1" ∷ []), requirement_row) ∷ [])
unfolding table_of string_eq
requirements_rows = refl

require_relational_closure-IsKnown_example :
    (v : Cell) × (cell none word requirement_row "job_id" ≡ ok v)
    × IsKnown none word small_history "jobs" "id" v
require_relational_closure-IsKnown_example =
    require_relational_closure-IsKnown none word no_checks small_history "job_requirements"
      job_requirements_policy (((word "q1" ∷ []), requirement_row) ∷ []) (word "q1" ∷ [])
      requirement_row (refers "job_id" "jobs" "id") closed
      (find-Mem (λ t. t.0 == "job_requirements") tables
        ("job_requirements", job_requirements_policy) requirements_found)
      requirements_rows (Memᴰ.head refl) (Memᴰ.head refl)

tables-referred_example :
    (has_column "job_id" job_requirements_policy ≡ true)
    × (target : TablePolicy) × (reviewed "jobs" ≡ some target)
    × (target.key ≡ "id" ∷ [])
    × (has_column "id" target ≡ true)
tables-referred_example =
    tables-referred "job_requirements" job_requirements_policy (refers "job_id" "jobs" "id")
      (find-Mem (λ t. t.0 == "job_requirements") tables
        ("job_requirements", job_requirements_policy) requirements_found)
      (Memᴰ.head refl)
