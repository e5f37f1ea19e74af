-- ===== src/Sql/Writes.antt =====
-- src/lib.rs: the SQL functions that write, attach and aggregate.
use pglance.Base.{ℕ, Bool, Option, none, some, List, ◌++◌, Text, codes, Result, ok, err, ◌>>=◌}
use pglance.Base.Int.{ℤ, pos, negsuc, wrap_i64}
use pglance.Convert.External.{Json}
use pglance.Maintenance.{error, Outcome}
use pglance.Maintenance.Vacuum.{lance_delete_impl}
use pglance.Namespace.{TableId, AttachNamespaceRow, Services}
use pglance.Namespace.Drift.{Column}
use pglance.Namespace.Local.{LocalRow}
use pglance.Namespace.Sync
use pglance.Namespace.Synced.{sync_by_name}
use pglance.Namespace.Whole.{Connections, attach_by_name, import_lance_table}
use pglance.Arrow.{Field, DataType}
use pglance.Write.{Write, WriteError, parse_arrow_type_overrides}
use pglance.Write.Builder.{Spi}
use pglance.Write.Rows.{ArrowLib, Row}
use pglance.Write.Append.{Lance, lance_append_impl}
use pglance.Write.MergeInsert.{
  MergeLance, MergeArgs, MergeRow, lance_merge_insert_impl, lance_merge_insert_with_schema_impl,
}
use pglance.Aggregate.{Floats}
use pglance.Aggregate.Print.{Printer, Columns, AggregateError, lance_min_impl, lance_max_impl}
use pglance.Sql.{
  Settings, max_write_buffer_bytes, write_chunk_rows, as_usize, reported, reported_by, on_run, same,
}

module _ (conn : Connections) (pages rounds : ℕ) (srv : Services) where
  unfoldable pub lance_import :
      (Text → Result Text (List Field))
      → Text
      → Text
      → Text
      → Text
      → Option ℤ
      → srv.Database
      → Outcome (Unit {0}) × srv.Database
  lance_import open_fields server_name local_schema table_name uri batch_size d =
      let r =
        import_lance_table conn pages rounds srv open_fields server_name local_schema table_name uri
          batch_size d in
      (reported_by same (codes "lance_import") r.0, r.1)

  unfoldable pub lance_attach_namespace :
      Text
      → TableId
      → Text
      → Option ℤ
      → ℤ
      → Bool
      → srv.Database
      → Option (Outcome (List AttachNamespaceRow) × srv.Database)
  lance_attach_namespace server_name root prefix batch_size limit dry_run d =
      on_run (λ r. (reported_by same (codes "lance_attach_namespace") r.0, r.1))
        (attach_by_name conn pages rounds srv server_name root prefix batch_size limit dry_run d)

  unfoldable pub lance_sync_namespace :
      (srv.Database → ℕ → Result Text (List Column))
      → (Text → srv.Database → Result Text (List LocalRow))
      → Sync.Options
      → TableId
      → Text
      → srv.Database
      → Option (Outcome (List AttachNamespaceRow) × srv.Database)
  lance_sync_namespace local_columns local_tables opts root prefix d =
      on_run (λ r. (reported_by same (codes "lance_sync_namespace") r.0, r.1))
        (sync_by_name conn pages rounds srv local_columns local_tables opts root prefix d)

module _ (settings : Settings) (message : WriteError → Text) (spi : Spi) (lib : ArrowLib)
    (runtime : Write (Unit {0})) (cols : List (Text × ℕ)) (rows : List (Row spi lib)) where
  -- The rows that were written.
  unfoldable pub lance_append :
      (lance : Lance lib.RecordBatch)
      → Write (Unit {0})
      → Text
      → ℤ
      → lance.Store
      → Option (Outcome ℤ)
  lance_append lance storage_options mode batch_size store =
      on_run
        (λ r. reported_by message (codes "lance_append") r >>= (λ end. ok (wrap_i64 (pos end.1))))
        (lance_append_impl spi lib lance mode (max_write_buffer_bytes settings)
          (as_usize batch_size) (write_chunk_rows settings) runtime storage_options cols rows store)

  -- A row of `lance_merge_insert`: unknown counts are null.
  pub record MergeInsertRow : Type 0 where
    pub rows_merged : ℤ
    pub rows_inserted : Option ℤ
    pub rows_updated : Option ℤ
    pub chunk_txns : ℤ
    pub chunk_rows : ℤ

  abbrev pub known : ℤ → Option ℤ
  known (pos n) = some (pos n)
  known (negsuc n) = none

  abbrev pub merge_insert_row : MergeRow → MergeInsertRow
  merge_insert_row r = record {
    rows_merged = r.rows_merged;
    rows_inserted = known r.rows_inserted;
    rows_updated = known r.rows_updated;
    chunk_txns = r.chunk_txns;
    chunk_rows = r.chunk_rows;
  }

  module _ (lance : MergeLance lib.RecordBatch) (on_columns : List Text)
      (when_matched when_not_matched : Text) where
    abbrev pub merge_args : MergeArgs
    merge_args = record {
      on_columns = on_columns;
      when_matched = when_matched;
      when_not_matched = when_not_matched;
      merge_use_index = settings.merge_use_index;
    }

    abbrev pub merge_result : Text → Option (Write MergeRow) → Option (Outcome MergeInsertRow)
    merge_result function r =
        on_run (λ w. reported_by message function w >>= (λ row. ok (merge_insert_row row))) r

    unfoldable pub lance_merge_insert : ℤ → Option (Outcome MergeInsertRow)
    lance_merge_insert batch_size = merge_result (codes "lance_merge_insert") (
        lance_merge_insert_impl spi lib lance merge_args (max_write_buffer_bytes settings)
          (as_usize batch_size) (write_chunk_rows settings) runtime cols rows)

    unfoldable pub lance_merge_insert_with_schema : Json → ℤ → Option (Outcome MergeInsertRow)
    lance_merge_insert_with_schema column_types batch_size =
        elim (parse_arrow_type_overrides column_types) [
          | err e ↦ some (err (error (codes "invalid column_types: " ++ message e)))
          | ok overrides ↦ merge_result (codes "lance_merge_insert_with_schema") (
              lance_merge_insert_with_schema_impl spi lib lance merge_args
                (max_write_buffer_bytes settings) (as_usize batch_size) (write_chunk_rows settings)
                runtime overrides cols rows)
        ]

unfoldable pub lance_delete :
    {D : Type 0}
    → (D → ℕ)
    → (Text → D → Result Text D)
    → Result Text (Unit {0})
    → Result Text D
    → Text
    → Outcome ℤ
lance_delete count_fragments delete runtime opened predicate =
    reported (codes "lance_delete")
      (lance_delete_impl count_fragments delete runtime opened predicate)

module _ (message : AggregateError → Text) (floats : Floats) (printer : Printer)
    (opened : Result Text Columns) where
  unfoldable pub lance_min : Text → Outcome (Option Text × DataType)
  lance_min column_name =
      reported_by message (codes "lance_min") (lance_min_impl floats printer opened column_name)

  unfoldable pub lance_max : Text → Outcome (Option Text × DataType)
  lance_max column_name =
      reported_by message (codes "lance_max") (lance_max_impl floats printer opened column_name)
