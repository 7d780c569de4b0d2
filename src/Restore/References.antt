-- ===== src/Restore/References.antt =====
-- The references of the reviewed tables of
-- backend/src/job_apply_pro/storage/restore_history_policy.py.
use mathlib.Core.List.{Memᴰ}
use job_apply_pro.Base.{
  option_eq, nat_eq, string_eq, ◌==◌, eq_of_==, any, all, all-Mem, String, ◌≡◌, refl, Bool, true,
  false, ◌&&◌, Option, none, some, [], ◌∷◌, arith, ap, List,
}
use job_apply_pro.Restore.Policy.{Reference, TablePolicy}
use job_apply_pro.Restore.Schema.{tables}
use job_apply_pro.Restore.Snapshot.{lookup_by}

abbrev pub has_column : String → TablePolicy → Bool
has_column field t = any (λ c. c.name == field) t.columns

-- The key is this one column.
abbrev is_sole : String → List String → Bool
is_sole field (k ∷ []) = k == field
is_sole field _ = false

is_sole-inv : (field : String) (key : List String) → is_sole field key ≡ true → key ≡ field ∷ []
is_sole-inv field [] h = cc
is_sole-inv field (k ∷ []) h = ap (λ x. x ∷ []) (eq_of_== k field h)
is_sole-inv field (k ∷ k' ∷ key) h = cc

abbrev is_key : String → Option TablePolicy → Bool
is_key field none = false
is_key field (some t) = is_sole field t.key && has_column field t

-- The reviewed table of a name.
unfoldable pub reviewed : String → Option TablePolicy
unfolding string_eq
reviewed name = lookup_by (λ k. k == name) tables

-- The reference starts at a column of its table, and ends at the key of a reviewed table.
abbrev is_sound : TablePolicy → Reference → Bool
is_sound t r = has_column r.field t && is_key r.target_field (reviewed r.target)

all_sound : all (λ t. all (is_sound t.1) t.1.references) tables ≡ true
unfolding reviewed string_eq
all_sound = refl

both_true : (a b : Bool) → (a && b) ≡ true → (a ≡ true) × (b ≡ true)
both_true a b h = (ground arith, ground arith)

is_key-inv :
    (field : String) (o : Option TablePolicy)
    → is_key field o ≡ true
    → (t : TablePolicy) × (o ≡ some t) × (t.key ≡ field ∷ []) × (has_column field t ≡ true)
is_key-inv field none h = cc
is_key-inv field (some t) h =
    let (sole, has) = both_true (is_sole field t.key) (has_column field t) h in
    (t, refl, is_sole-inv field t.key sole, has)

-- Each reference of a reviewed table starts at one of that table's columns and ends at a reviewed
-- table, at the one column that is its key.
pub tables-referred :
    (name : String) (spec : TablePolicy) (r : Reference)
    → Memᴰ (name, spec) tables
    → Memᴰ r spec.references
    → (has_column r.field spec ≡ true)
      × (target : TablePolicy) × (reviewed r.target ≡ some target)
      × (target.key ≡ r.target_field ∷ [])
      × (has_column r.target_field target ≡ true)
tables-referred name spec r m mr =
    let of_table =
      all-Mem (λ t. all (is_sound t.1) t.1.references) tables (name, spec) all_sound m in
    let (own, far) =
      both_true (has_column r.field spec) (is_key r.target_field (reviewed r.target))
        (all-Mem (is_sound spec) spec.references r of_table mr) in
    let (target, at, key, has) = is_key-inv r.target_field (reviewed r.target) far in
    (own, target, at, key, has)
