-- ===== src/Namespace/Synced.antt =====
-- src/fdw/sync_namespace.rs from the name of a server, with the check of columns of Drift. The queries
-- of the catalog are parameters.
use pglance.Base.{ℕ, Option, List, Text, Result, ok, err, ◌>>=◌}
use pglance.Base.Int.{ℤ, pos}
use pglance.Namespace.{TableId, AttachNamespaceRow, Services, build_mapping}
use pglance.Namespace.Local.{LocalRow}
use pglance.Namespace.Drift.{Column, detect_schema_drift}
use pglance.Namespace.Sync.{Options, sync_namespace}
use pglance.Namespace.Whole.{Connections, list_by_name, after_listing}

abbrev pub default_limit_per_list_call : ℤ
default_limit_per_list_call = pos 1000

module _ (conn : Connections) (pages rounds : ℕ) (srv : Services)
    (local_columns : srv.Database → ℕ → Result Text (List Column))
    (local_tables : Text → srv.Database → Result Text (List LocalRow)) where
  open srv use {Database}

  -- After the listing: the mapping comes before the query of the local tables.
  unfoldable pub sync_listed :
      Options
      → TableId
      → Text
      → List TableId
      → Database
      → Result Text (List AttachNamespaceRow) × Database
  sync_listed opts root prefix ids d =
      elim (build_mapping prefix ids >>= λ m. local_tables opts.server_name d) [
        | err e ↦ (err e, d)
        | ok rows ↦
            sync_namespace srv (detect_schema_drift srv local_columns) opts prefix root ids rows d
      ]

  -- The whole of `sync_namespace`; `none` is out of fuel.
  unfoldable pub sync_by_name :
      Options
      → TableId
      → Text
      → Database
      → Option (Result Text (List AttachNamespaceRow) × Database)
  sync_by_name opts root prefix d =
      after_listing conn pages rounds srv
        (list_by_name conn pages rounds opts.server_name default_limit_per_list_call root)
        (λ ids. sync_listed opts root prefix ids d) d
