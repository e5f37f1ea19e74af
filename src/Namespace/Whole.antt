-- ===== src/Namespace/Whole.antt =====
-- src/fdw/attach_namespace.rs and src/fdw/sync_namespace.rs: from the name of a server to its tables;
-- src/fdw/import.rs: one table by its URI. The runtime, the catalog of servers, the connection and the
-- dataset are parameters.
use pglance.Base.{
  ℕ, Bool, Option, none, some, List, [], ◌∷◌, ◌++◌, Text, codes, Result, ok, err, ◌>>=◌, ◌==◌,
  if◌then◌else◌,
}
use pglance.Base.Int.{ℤ}
use pglance.Base.Decimal.{show_ℤ}
use pglance.Arrow.{Field}
use pglance.Ddl.{create_composite_type_sql, create_foreign_table_sql}
use pglance.Ddl.Order.{order_composite_types}
use pglance.TypeMapping.{SchemaMapping, build_schema_mapping}
use pglance.Namespace.{
  TableId, AttachNamespaceRow, Services, attach_namespace, run_all, map_types, or_default,
}
use pglance.Namespace.Listing.{Client, list_table_ids}
use pglance.Options.{DefElem, OptionError, connect_namespace, has_nul}
use pglance.Options

-- What is asked of PostgreSQL for a server, and of the crate for a client.
pub record Connections : Type 0 where
  pub runtime : Result Text (Unit {0})
  -- `get_foreign_server_oid`: 0 is `InvalidOid`
  pub server_oid : Text → ℕ
  pub server_options : ℕ → Option (List (Option DefElem))
  pub connect : Text → Options.Options → Result Text Client
  pub message : OptionError → Text

unfoldable pub foreign_server_oid_by_name : (Text → ℕ) → Text → Result Text ℕ
foreign_server_oid_by_name server_oid server_name =
    if has_nul server_name
    then err (codes "server_name contains NUL")
    else if server_oid server_name == 0
    then err (codes "foreign server not found: " ++ server_name)
    else ok (server_oid server_name)

module _ (conn : Connections) (pages rounds : ℕ) where
  open conn use {runtime, server_oid, server_options, connect, message}

  -- The client of a server, by its name.
  unfoldable pub connect_by_name : Text → Result Text Client
  connect_by_name server_name = do
    u ← runtime
    oid ← foreign_server_oid_by_name server_oid server_name
    connect_namespace connect message oid (server_options oid)

  -- The tables below the root; `none` is out of fuel.
  unfoldable pub list_by_name : Text → ℤ → TableId → Option (Result Text (List TableId))
  list_by_name server_name limit root = elim (connect_by_name server_name) [
    | err e ↦ some (err e)
    | ok client ↦ list_table_ids client limit pages rounds root
  ]

  module _ (srv : Services) where
    open srv use {Database, run_sql, load_fields}

    abbrev pub after_listing :
        Option (Result Text (List TableId))
        → (List TableId → Result Text (List AttachNamespaceRow) × Database)
        → Database
        → Option (Result Text (List AttachNamespaceRow) × Database)
    after_listing none next d = none
    after_listing (some (err e)) next d = some (err e, d)
    after_listing (some (ok ids)) next d = some (next ids)

    -- The whole of `attach_namespace`.
    unfoldable pub attach_by_name :
        Text
        → TableId
        → Text
        → Option ℤ
        → ℤ
        → Bool
        → Database
        → Option (Result Text (List AttachNamespaceRow) × Database)
    attach_by_name server_name root prefix batch_size limit dry_run d =
        after_listing (list_by_name server_name limit root)
          (λ ids.
            attach_namespace srv
              (record { server_name = server_name; batch_size = batch_size; dry_run = dry_run })
              prefix ids d)
          d

    -- `import_lance_table`: no schema is made, and the options have the URI.
    abbrev pub import_options : Text → Option ℤ → List (Text × Text)
    import_options uri none = (codes "uri", uri) ∷ []
    import_options uri (some bs) = (codes "uri", uri) ∷ (codes "batch_size", show_ℤ bs) ∷ []

    abbrev pub import_sql : Text → Text → Text → Text → Option ℤ → SchemaMapping → List Text
    import_sql server_name local_schema table_name uri batch_size mapping =
        map_types srv (create_composite_type_sql local_schema)
          (or_default (order_composite_types mapping.composite_types))
        ++ (create_foreign_table_sql server_name local_schema table_name
              (import_options uri batch_size) mapping.column_types
            ∷ [])

    unfoldable pub import_lance_table :
        (Text → Result Text (List Field))
        → Text
        → Text
        → Text
        → Text
        → Option ℤ
        → Database
        → Result Text (Unit {0}) × Database
    import_lance_table open_fields server_name local_schema table_name uri batch_size d =
        elim ((runtime >>= λ u. open_fields uri) >>= build_schema_mapping table_name) [
          | err e ↦ (err e, d)
          | ok mapping ↦
              run_all srv (import_sql server_name local_schema table_name uri batch_size mapping) d
        ]
