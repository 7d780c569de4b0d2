-- ===== src/Restore/Schema/Workflows.antt =====
-- backend/src/job_apply_pro/storage/restore_history_policy.py: the tables of workflows.
use job_apply_pro.Base.{option_eq, nat_eq, string_eq, false, [], ◌∷◌}
use job_apply_pro.Restore.Policy.{
  text_kind, integer_kind, datetime_kind, column, limited, TablePolicy,
}

abbrev pub workflow_checkpoints_policy : TablePolicy
workflow_checkpoints_policy = record {
  columns =
      limited "id" text_kind false 36
      ∷ limited "workflow_id" text_kind false 100
      ∷ column "sequence" integer_kind false
      ∷ limited "state" text_kind false 40
      ∷ limited "page_fingerprint" text_kind false 200
      ∷ column "encrypted_payload" text_kind false
      ∷ column "created_at" datetime_kind false
      ∷ [];
  key = "id" ∷ [];
  references = [];
}

abbrev pub workflow_events_policy : TablePolicy
workflow_events_policy = record {
  columns =
      limited "id" text_kind false 36
      ∷ limited "workflow_id" text_kind false 100
      ∷ column "sequence" integer_kind false
      ∷ limited "prior_state" text_kind false 40
      ∷ limited "next_state" text_kind false 40
      ∷ limited "actor" text_kind false 100
      ∷ column "cause" text_kind false
      ∷ limited "verification" text_kind false 20
      ∷ column "retry_count" integer_kind false
      ∷ column "occurred_at" datetime_kind false
      ∷ [];
  key = "id" ∷ [];
  references = [];
}
