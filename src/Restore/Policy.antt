-- ===== src/Restore/Policy.antt =====
-- backend/src/job_apply_pro/storage/restore_history_policy.py: what is reviewed of a table.
use job_apply_pro.Base.{option_eq, nat_eq, string_eq, ℕ, String, Bool, List}

pub data ColumnKind : Type 0 where
  text_kind json_kind integer_kind boolean_kind float_kind datetime_kind date_kind : ColumnKind

pub record Column : Type 0 where
  pub name : String
  pub kind : ColumnKind
  pub nullable : Bool
  pub limit : ℕ

-- `Column(name, kind, nullable)`, with the limit that the class gives it
abbrev pub column : String → ColumnKind → Bool → Column
column name kind nullable = record {
  name = name;
  kind = kind;
  nullable = nullable;
  limit = 8388608;
}

abbrev pub limited : String → ColumnKind → Bool → ℕ → Column
limited name kind nullable limit = record {
  name = name;
  kind = kind;
  nullable = nullable;
  limit = limit;
}

-- A column, the table that it refers to, and that table's column.
pub record Reference : Type 0 where
  pub field : String
  pub target : String
  pub target_field : String

abbrev pub refers : String → String → String → Reference
refers field target target_field = record {
  field = field;
  target = target;
  target_field = target_field;
}

pub record TablePolicy : Type 0 where
  pub columns : List Column
  pub key : List String
  pub references : List Reference
