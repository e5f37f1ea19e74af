-- ===== src/Namespace/Tests.antt =====
-- src/fdw/attach_namespace.rs and src/fdw/sync_namespace.rs: two tables that share a local name, and
-- one to drop.
use pglance.Base.{
  ℕ, ◌≡◌, refl, ◌≢◌, ◌↔◌, true, Option, some, none, List, [], ◌∷◌, Text, codes, Result, ok, All,
  false,
}
use pglance.Base.Map.{lookup, insert, cmp_list, ord_ℕ, ord_list}
use pglance.Naming.{
  schema_and_table_for_table_id, sanitize_ident, squeeze, mapped, is_ok, is_digit,
  to_ascii_lowercase, trim_start, trim_end,
}
use pglance.Namespace.{
  TableId, LocalMapping, AttachNamespaceRow, Services, AttachContext, attach_namespace,
  group_by_local, split_groups, build_mapping,
}
use pglance.Namespace.Sync.{Options, sync_namespace}
use pglance.Namespace.Local.{LocalRow}
use pglance.Namespace.Mapping.{ids_at, build_mapping-groups}
use mathlib.Core.Path.{subst}
use pglance.Namespace.NoDrop.{IsNoDrop, sync_namespace-no_drop}
use pglance.Base.{text_eq, trim, is_whitespace, join, strip_dims, strip_brackets, push_dims}
use pglance.Namespace.Drift.{
  canonical_type_string, without_quotes, split_whitespace, after_last_dot, canonical_base,
  summarize_column_diff, first_diff, type_mismatch,
}
use pglance.Namespace.DryRun.{sync_namespace-dry}
use mathlib.Core.List.{Perm, Memᴰ}
use pglance.Namespace.Rows.{row_ids, attach_namespace-rows}

-- A database that remembers its statements.
abbrev sample_services : Services
sample_services = record {
  Database = List Text;
  lookup_existing_relation = λ d schema table. ok none;
  run_sql = λ sql d. ok (sql ∷ d);
  load_fields = λ id. ok [];
  to_json = λ id. codes "[]";
  from_json = λ json. ok (json ∷ []);
  show_option = λ o. codes "None";
}

abbrev shared_ids : List TableId
shared_ids = (codes "A-b" ∷ []) ∷ (codes "c" ∷ []) ∷ (codes "a_b" ∷ []) ∷ []

abbrev dry_context : AttachContext
dry_context = record { server_name = codes "s"; batch_size = none; dry_run = true }

ids_not_empty : All (λ id. id ≢ []) shared_ids
ids_not_empty = (λ e. cc, (λ e. cc, (λ e. cc, tt)))

attach_namespace-rows_example :
    (rows : List AttachNamespaceRow) × ((attach_namespace sample_services dry_context
        (codes "p")
        shared_ids
        []).0
      ≡ ok rows)
    × Perm (row_ids rows) shared_ids
attach_namespace-rows_example =
    attach_namespace-rows sample_services dry_context (codes "p") shared_ids [] ids_not_empty

abbrev dry_options : Options
dry_options = record {
  server_name = codes "s";
  drop_missing = true;
  recreate_changed = true;
  dry_run = true;
}

abbrev gone : LocalRow
gone = record {
  table = record {
    local_schema = codes "p";
    local_table = codes "gone";
    relid = 1;
    batch_size = none;
  };
  table_id_json = some (codes "gone");
}

abbrev always_drift : List Text → TableId → Text → Text → ℕ → Result Text (Option Text)
always_drift d id schema table relid = ok (some (codes "schema drift"))

sync_namespace-dry_example :
    (sync_namespace sample_services always_drift dry_options
      (codes "p")
      []
      shared_ids
      (gone ∷ [])
      []).1
    ≡ []
sync_namespace-dry_example =
    sync_namespace-dry sample_services always_drift dry_options refl (codes "p") [] shared_ids
      (gone ∷ []) []

-- The first and the last id share a name, the second has its own.
mapped_ids :
    build_mapping (codes "p") shared_ids
    ≡ ok (
      (codes "A-b" ∷ []) ∷ (codes "a_b" ∷ []) ∷ [],
      (codes "c" ∷ [], codes "p" ∷ codes "c" ∷ []) ∷ [],
    )
unfolding build_mapping split_groups group_by_local schema_and_table_for_table_id sanitize_ident
    squeeze mapped is_ok is_digit to_ascii_lowercase trim_start trim_end lookup insert cmp_list
mapped_ids = refl

build_mapping-groups_example :
    (Memᴰ {A = TableId × LocalMapping}
        (codes "c" ∷ [], codes "p" ∷ codes "c" ∷ [])
        ((codes "c" ∷ [], codes "p" ∷ codes "c" ∷ []) ∷ [])
      ↔ (ids_at (codes "p") (codes "p" ∷ codes "c" ∷ []) shared_ids ≡ (codes "c" ∷ []) ∷ []))
    × (Memᴰ (codes "c" ∷ []) ((codes "A-b" ∷ []) ∷ (codes "a_b" ∷ []) ∷ []) ↔ (
        (shared : LocalMapping) × (a : TableId) × (b : TableId) × (rest : List TableId) × (ids_at
            (codes "p")
            shared
            shared_ids
          ≡ a ∷ b ∷ rest)
        × Memᴰ (codes "c" ∷ []) (a ∷ b ∷ rest)))
build_mapping-groups_example =
    build_mapping-groups (codes "p") shared_ids ((codes "A-b" ∷ []) ∷ (codes "a_b" ∷ []) ∷ [])
      ((codes "c" ∷ [], codes "p" ∷ codes "c" ∷ []) ∷ []) (codes "c" ∷ [])
      (codes "p" ∷ codes "c" ∷ []) mapped_ids

abbrev plain_options : Options
plain_options = record {
  server_name = codes "s";
  drop_missing = false;
  recreate_changed = false;
  dry_run = false;
}

logged_keeps :
    (sql : Text) (d d' : List Text)
    → IsNoDrop sql
    → All IsNoDrop d
    → sample_services.run_sql sql d ≡ ok d'
    → All IsNoDrop d'
logged_keeps sql d d' n i e = subst (All IsNoDrop) {x = sql ∷ d} (cc) (n, i)

sync_namespace-no_drop_example :
    All IsNoDrop
      (sync_namespace sample_services always_drift plain_options
        (codes "p")
        []
        shared_ids
        (gone ∷ [])
        []).1
sync_namespace-no_drop_example =
    sync_namespace-no_drop sample_services (All IsNoDrop) logged_keeps always_drift plain_options
      refl refl (codes "p") [] shared_ids (gone ∷ []) [] tt

-- What `format_type` prints and what the type mapping writes are compared as the same type.
canonical_double : canonical_type_string (codes " Double  PRECISION [] []") ≡ codes "float8[][]"
unfolding canonical_type_string without_quotes split_whitespace after_last_dot canonical_base
    to_ascii_lowercase trim is_whitespace join strip_dims strip_brackets push_dims text_eq
canonical_double = refl

abbrev expected_columns : List (Text × Text)
expected_columns = (codes "a", codes "int4") ∷ (codes "b", codes "text") ∷ []

abbrev actual_columns : List (Text × Text)
actual_columns = (codes "a", codes "int4") ∷ (codes "b", codes "int8") ∷ []

difference :
    summarize_column_diff expected_columns actual_columns
    ≡ type_mismatch (codes "b") (codes "text") (codes "int8")
unfolding summarize_column_diff first_diff text_eq
difference = refl
