-- ===== src/Lib.antt =====
-- pglance is a PostgreSQL extension that reads and writes Lance datasets: a foreign data wrapper
-- scans a dataset as a table, SQL functions write query results to datasets and look after them, and
-- a namespace of datasets is attached to, and kept in step with, a schema of foreign tables.
--
-- The parts, and the modules that model them:
--
--   Base          lists, texts (lists of code points), results, integers, decimals, ordered maps
--   Naming        src/fdw/naming.rs: PostgreSQL identifiers and schemas from table ids
--   Ddl           src/fdw/ddl.rs: quoting, the statements, type strings, the order of composite types
--   Arrow         the data types of the arrow crate
--   TypeMapping   src/fdw/type_mapping.rs: PostgreSQL types and composite types for Arrow fields
--   Convert       src/fdw/convert.rs: which PostgreSQL type a column may have (Convert), arrays
--                 (Arrays), values (Scalars, Datum), JSON (Json), other crates (External)
--   Scan          src/fdw/scan.rs: begin_foreign_scan, iterate_foreign_scan, rescan, end (Scan), the
--                 opening of the dataset and EXPLAIN (Open), the planner's callbacks (Plan)
--   Write         src/write/pg_to_arrow.rs: types and overrides (Write), builders (Builder), batches
--                 and the cursor loop (Rows); src/write/append.rs (Append);
--                 src/write/merge_insert.rs (MergeInsert)
--   Options       src/fdw/options.rs, src/fdw/namespace.rs, src/write/storage.rs
--   Namespace     src/fdw/attach_namespace.rs (the mapping and attach_one in Namespace, the walk over
--                 the namespaces in Listing, from the server's name in Whole);
--                 src/fdw/sync_namespace.rs (Local, Drift, Sync, from the name in Synced);
--                 src/fdw/import.rs (Whole)
--   Aggregate     src/write/aggregate.rs: the least and the greatest value of a column, and its
--                 text (Print)
--   Maintenance   src/write/vacuum.rs and src/write/delete.rs (Vacuum), src/write/optimize.rs
--                 (Optimize), src/write/index.rs (Index, Fts)
--   Metadata      src/write/metadata.rs: fields and fragments (Metadata), versions, tags and
--                 branches (Refs), the functions (Describe)
--   Sql           src/lib.rs: settings, validator and build information (Sql), the functions on
--                 rows and namespaces (Writes), on metadata and maintenance (Reports)
--
-- A scan state is a record with the fields of LanceScanState; iterate_foreign_scan takes a state to a
-- slot and the next state. A write is a loop over the fetches of a cursor that passes the handler's
-- state along. Attaching and synchronising pass a database along, which the statements change.
-- Functions that can fail return Result; a conversion, and the policy of a vacuum, can also end in a
-- Rust panic, which is a failure of its own. Integers are native naturals or signed integers over
-- them; 64-bit arithmetic wraps around where a release build does.
--
-- Loops run on the structure of lists. On fuel are: the cursor loop (one more than the rows, since
-- every fetch takes at least one), the scan to its end (one more than the rows left), the passes
-- of order_composite_types (one more than the types, since every pass that goes on emits one) and
-- the walk of list_table_ids (more rounds than the namespaces below the root, and the pages of the
-- longest listing); each fuel is proved to be enough. Stripping [] from a type string has the length
-- of the string.
--
-- Parameters are what is not in the repository: pgrx's conversions, chrono and its clock, base64,
-- the casts and the printing of floats, RecordBatch::try_new, the lance dataset with its builders
-- and descriptions, the client of a namespace, PostgreSQL's catalog and Spi::run, serde_json.
-- Arrays are well formed as the arrow crate guarantees. The synchronisation takes the check of a
-- table's columns as an argument, which is detect_schema_drift of Drift. A fetch of the cursor
-- gives rows and no error of its own. Error codes, log details and durations are left out. Not
-- modelled is the registration of the settings and of the handlers in src/lib.rs and
-- src/fdw/handler.rs, which only hands the functions above to PostgreSQL.
pub mod Base
pub mod Naming
pub mod Options
pub mod Ddl
pub mod Arrow
pub mod TypeMapping
pub mod Convert
pub mod Write
pub mod Scan
pub mod Namespace
pub mod Aggregate
pub mod Maintenance
pub mod Metadata
pub mod Sql
