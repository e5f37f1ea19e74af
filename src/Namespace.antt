-- ===== src/Namespace.antt =====
-- src/fdw/attach_namespace.rs: mapping the tables of a namespace to local names, and attaching one.
-- The catalog, the namespace client and JSON are parameters.
pub mod Local
pub mod Listing
pub mod Whole
pub mod Sync
pub mod Synced
pub mod Split
pub mod Mapping
pub mod Groups
pub mod Rows
pub mod Attached
pub mod Drift
pub mod DryRun
pub mod NoDrop
pub mod Tests
use pglance.Base.{
  ℕ, suc, ltb, Bool, true, false, Option, none, some, List, [], ◌∷◌, ◌++◌, Text, codes, Result, ok,
  err, ◌>>=◌, ◌==◌, not, length, if◌then◌else◌, text_eq,
}
use pglance.Base.Map.{Ord, ord_ℕ, ord_list, cmp_list, lookup, insert, is_eq}
use pglance.Base.Int.{ℤ}
use pglance.Base.Decimal.{show_ℤ}
use Prim.Native.Nat.{compare, Ordering}
use pglance.Arrow.{Field}
use pglance.Ddl.{
  CompositeTypeDef, create_schema_sql, create_composite_type_sql, create_foreign_table_sql,
}
use pglance.Ddl.Order.{order_composite_types}
use pglance.Naming.{schema_and_table_for_table_id}
use pglance.TypeMapping.{SchemaMapping, build_schema_mapping}

abbrev pub TableId : Type 0
TableId = List Text

-- A row of the result: the JSON of the table id is the id itself here.
pub record AttachNamespaceRow : Type 0 where
  pub table_id : TableId
  pub local_schema : Text
  pub local_table : Text
  pub action : Text
  pub status : Text
  pub detail : Text

abbrev pub make_row : TableId → Text → Text → Text → Text → Text → AttachNamespaceRow
make_row id schema table action status detail = record {
  table_id = id;
  local_schema = schema;
  local_table = table;
  action = action;
  status = status;
  detail = detail;
}

-- The key `(schema, table)` of `by_local`, in the order of pairs of strings.
abbrev pub LocalMapping : Type 0
LocalMapping = List Text

abbrev pub local_key : Text × Text → LocalMapping
local_key (schema, table) = schema ∷ table ∷ []

abbrev pub or_default {ℓ} : {A : Type ℓ} → Option (List A) → List A
or_default none = []
or_default (some ids) = ids

-- The loop that fills `by_local`.
unfoldable pub group_by_local :
    Text
    → List TableId
    → List (LocalMapping × List TableId)
    → Result Text (List (LocalMapping × List TableId))
group_by_local prefix [] by_local = ok by_local
group_by_local prefix (id ∷ ids) by_local = do
  local ← schema_and_table_for_table_id prefix id
  group_by_local prefix ids (
      insert (local_key local) (or_default (lookup (local_key local) by_local) ++ (id ∷ []))
        by_local)

-- The loop over `by_local`: the ids of a name with several, and the others with their name.
unfoldable pub split_groups :
    List (LocalMapping × List TableId) → List TableId × List (TableId × LocalMapping)
split_groups [] = ([], [])
split_groups ((local, ids) ∷ groups) =
    let rest = split_groups groups in
    elim ids [
      | [] ↦ rest
      | id ∷ [] ↦ (rest.0, (id, local) ∷ rest.1)
      | id ∷ jd ∷ more ↦ ((id ∷ jd ∷ more) ++ rest.0, rest.1)
    ]

unfoldable pub build_mapping :
    Text → List TableId → Result Text (List TableId × List (TableId × LocalMapping))
build_mapping prefix table_ids = do
  groups ← group_by_local prefix table_ids []
  ok (split_groups groups)

unfoldable pub row_error : TableId → Text → Text → AttachNamespaceRow
row_error id prefix detail = elim (schema_and_table_for_table_id prefix id) [
  | err e ↦ make_row id (codes "_") (codes "_") (codes "error") (codes "failed") detail
  | ok (schema, table) ↦ make_row id schema table (codes "error") (codes "failed") detail
]

pub data ExistingRelation : Type 0 where
  foreign_table : Text → Option Text → ExistingRelation
  other : ℕ → ExistingRelation

-- What the program asks of the database, of the namespace and of serde.
pub record Services : Type 1 where
  pub Database : Type 0
  pub lookup_existing_relation : Database → Text → Text → Result Text (Option ExistingRelation)
  -- `Spi::run`: an error leaves what was run before
  pub run_sql : Text → Database → Result Text Database
  pub load_fields : TableId → Result Text (List Field)
  pub to_json : TableId → Text
  pub from_json : Text → Result Text TableId
  pub show_option : Option Text → Text

pub record AttachContext : Type 0 where
  pub server_name : Text
  pub batch_size : Option ℤ
  pub dry_run : Bool

-- `actual == expected` of lists of strings.
abbrev pub ids_eq : TableId → TableId → Bool
ids_eq a b = is_eq (cmp_list (cmp_list compare) a b)

module _ (srv : Services) where
  open srv use {
    Database, lookup_existing_relation, run_sql, load_fields, to_json, from_json, show_option,
  }

  unfoldable pub table_id_matches : TableId → Option Text → Result Text Bool
  table_id_matches expected none = ok false
  table_id_matches expected (some json) = do actual ← from_json json; ok (ids_eq actual expected)

  -- The arm of a relation that exists.
  abbrev pub existing_row :
      AttachContext → TableId → Text → Text → ExistingRelation → Result Text AttachNamespaceRow
  existing_row ctx id schema table (other relkind) = err (
      codes "relation already exists with relkind='"
      ++ (relkind ∷ codes "' (expected foreign table)"))
  existing_row ctx id schema table (foreign_table server ns_table_id) =
      if not (text_eq server ctx.server_name)
      then err (
          codes "foreign table already exists with different server: existing="
          ++ (server ++ (codes " expected=" ++ ctx.server_name)))
      else elim (table_id_matches id ns_table_id) [
        | err e ↦ err e
        | ok false ↦ err (
            codes "foreign table already exists with different ns.table_id: existing="
            ++ (show_option ns_table_id ++ (codes " expected=" ++ to_json id)))
        | ok true ↦ ok (
            make_row id schema table (codes "skip_existing") (codes "skipped")
              (codes "already attached"))
      ]

  -- A statement after another, until one fails.
  unfoldable pub run_all : List Text → Database → Result Text (Unit {0}) × Database
  run_all [] d = (ok tt, d)
  run_all (sql ∷ sqls) d = elim (run_sql sql d) [ err e ↦ (err e, d) | ok d' ↦ run_all sqls d' ]

  abbrev pub table_options : AttachContext → TableId → List (Text × Text)
  table_options ctx id =
      (codes "ns.table_id", to_json id)
      ∷ (elim ctx.batch_size [ none ↦ [] | some bs ↦ (codes "batch_size", show_ℤ bs) ∷ [] ])

  abbrev pub map_types : (CompositeTypeDef → Text) → List CompositeTypeDef → List Text
  map_types f [] = []
  map_types f (t ∷ ts) = f t ∷ map_types f ts

  -- The statements that create a table, in the order in which they are run.
  unfoldable pub attach_sql : AttachContext → TableId → Text → Text → SchemaMapping → List Text
  attach_sql ctx id schema table mapping =
      create_schema_sql schema
      ∷ (map_types (create_composite_type_sql schema)
            (or_default (order_composite_types mapping.composite_types))
          ++ (create_foreign_table_sql ctx.server_name schema table (table_options ctx id)
                mapping.column_types
              ∷ []))

  abbrev pub create_table :
      AttachContext → TableId → Text → Text → Database → Result Text AttachNamespaceRow × Database
  create_table ctx id schema table d = elim (load_fields id >>= build_schema_mapping table) [
    | err e ↦ (err e, d)
    | ok mapping ↦
        let ran = run_all (attach_sql ctx id schema table mapping) d in
        elim ran.0 [
          | err e ↦ (err e, ran.1)
          | ok u ↦ (
            ok (make_row id schema table (codes "create_table") (codes "ok") (codes "attached")),
            ran.1,
          )
        ]
  ]

  unfoldable pub attach_one :
      AttachContext → TableId → Text → Text → Database → Result Text AttachNamespaceRow × Database
  attach_one ctx id schema table d = elim (lookup_existing_relation d schema table) [
    | err e ↦ (err e, d)
    | ok (some existing) ↦ (existing_row ctx id schema table existing, d)
    | ok none ↦
        if ctx.dry_run
        then (
          ok (make_row id schema table (codes "create_table") (codes "skipped") (codes "dry_run")),
          d,
        )
        else create_table ctx id schema table d
  ]

  abbrev pub failed_row : TableId → Text → Text → Text → Text → AttachNamespaceRow
  failed_row id schema table action detail = make_row id schema table action (codes "failed") detail

  abbrev pub row_or_failed :
      TableId → Text → Text → Text → Result Text AttachNamespaceRow → AttachNamespaceRow
  row_or_failed id schema table action (ok row) = row
  row_or_failed id schema table action (err e) = failed_row id schema table action e

  abbrev pub schema_of : LocalMapping → Text
  schema_of [] = []
  schema_of (schema ∷ rest) = schema

  abbrev pub table_of : LocalMapping → Text
  table_of [] = []
  table_of (schema ∷ rest) = schema_of rest

  -- The loop of `attach_namespace` over the mapping.
  unfoldable pub attach_all :
      AttachContext → List (TableId × LocalMapping) → Database → List AttachNamespaceRow × Database
  attach_all ctx [] d = ([], d)
  attach_all ctx ((id, local) ∷ rest) d =
      let one = attach_one ctx id (schema_of local) (table_of local) d in
      let more = attach_all ctx rest one.1 in
      (row_or_failed id (schema_of local) (table_of local) (codes "error") one.0 ∷ more.0, more.1)

  abbrev pub conflict_detail : Text
  conflict_detail = codes "mapping conflict: multiple table_id map to the same (schema, table)"

  abbrev pub conflict_rows : Text → List TableId → List AttachNamespaceRow
  conflict_rows prefix [] = []
  conflict_rows prefix (id ∷ ids) = row_error id prefix conflict_detail ∷ conflict_rows prefix ids

  -- `attach_namespace` after the listing of the tables.
  unfoldable pub attach_namespace :
      AttachContext
      → Text
      → List TableId
      → Database
      → Result Text (List AttachNamespaceRow) × Database
  attach_namespace ctx prefix table_ids d = elim (build_mapping prefix table_ids) [
    | err e ↦ (err e, d)
    | ok (conflicts, mapping) ↦
        let attached = attach_all ctx mapping d in
        (ok (conflict_rows prefix conflicts ++ attached.0), attached.1)
  ]
