-- ===== src/Sql.antt =====
-- src/lib.rs: the settings, the validator of options, the build information, and how the SQL functions
-- report errors. Rows come back as records. The build's constants are parameters.
pub mod Writes
pub mod Reports
pub mod Accepted
pub mod Tests
use pglance.Base.{
  ℕ, zero, suc, ◌-◌, ◌*◌, ◌^◌, min, Bool, true, false, ◌||◌, Option, none, some, List, [], ◌∷◌,
  ◌++◌, Text, codes, Result, ok, err, ◌>>=◌, ◌==◌, if◌then◌else◌, text_eq, starts_with,
}
use pglance.Base.Int.{ℤ, pos, negsuc, wrap_i64}
use pglance.Convert.External.{Json}
use pglance.Maintenance.{Failure, error, panic, Outcome}
use pglance.Maintenance.Vacuum.{lance_delete_impl}
use pglance.Namespace.{TableId, AttachNamespaceRow, Services}
use pglance.Namespace.Drift.{Column}
use pglance.Namespace.Local.{LocalRow}
use pglance.Namespace.Sync
use pglance.Namespace.Synced.{sync_by_name}
use pglance.Namespace.Whole.{Connections, attach_by_name, import_lance_table}
use pglance.Arrow.{Field, DataType}
use pglance.Write.{Write, WriteError, parse_arrow_type_overrides}
use pglance.Write.Builder.{Spi}
use pglance.Write.Rows.{ArrowLib, Row}
use pglance.Write.Append.{Lance, AppendState, lance_append_impl}
use pglance.Write.MergeInsert.{
  MergeLance, MergeArgs, MergeRow, lance_merge_insert_impl, lance_merge_insert_with_schema_impl,
}
use pglance.Aggregate.{Floats}
use pglance.Aggregate.Print.{Printer, Columns, AggregateError, lance_min_impl, lance_max_impl}

-- The settings `lance.*`, as PostgreSQL holds them.
pub record Settings : Type 0 where
  pub max_write_buffer_mb : ℤ
  pub write_chunk_rows : ℤ
  pub merge_use_index : Bool

abbrev pub usize_max : ℕ
usize_max = 2 ^ 64 - 1

-- `saturating_mul`
abbrev pub bytes_of : ℤ → ℕ
bytes_of (pos mb) = min (mb * (1024 * 1024)) usize_max
bytes_of (negsuc n) = 0

unfoldable pub max_write_buffer_bytes : Settings → ℕ
max_write_buffer_bytes s = bytes_of s.max_write_buffer_mb

abbrev pub rows_of : ℤ → ℕ
rows_of (pos n) = n
rows_of (negsuc n) = 0

unfoldable pub write_chunk_rows : Settings → ℕ
write_chunk_rows s = rows_of s.write_chunk_rows

-- `batch_size as usize` of an `i32`.
abbrev pub as_usize : ℤ → ℕ
as_usize (pos n) = n
as_usize (negsuc n) = usize_max - n

unfoldable pub optional_build_value : Text → Option Text
optional_build_value [] = none
optional_build_value (c ∷ value) = some (c ∷ value)

-- The features of the build.
pub record Features : Type 0 where
  pub pg17 : Bool
  pub pg16 : Bool
  pub pg15 : Bool
  pub pg14 : Bool
  pub pg13 : Bool

unfoldable pub pg_feature : Features → Text
pg_feature f =
    if f.pg17
    then codes "pg17"
    else if f.pg16
    then codes "pg16"
    else if f.pg15
    then codes "pg15"
    else if f.pg14
    then codes "pg14"
    else if f.pg13
    then codes "pg13"
    else codes "unknown"

-- What the build script leaves in the environment.
pub record Build : Type 0 where
  pub pkg_version : Text
  pub pglance_git_revision : Text
  pub lance_version : Text
  pub lance_revision : Text
  pub lance_source : Text
  pub lance_index_version : Text
  pub lance_namespace_version : Text
  pub lance_namespace_impls_version : Text
  pub features : Features
  pub build_profile : Text
  pub rustc_version : Text

pub record BuildInfoRow : Type 0 where
  pub extension_name : Text
  pub pglance_version : Text
  pub pglance_git_revision : Option Text
  pub lance_version : Option Text
  pub lance_git_revision : Option Text
  pub lance_source : Option Text
  pub lance_index_version : Option Text
  pub lance_namespace_version : Option Text
  pub lance_namespace_impls_version : Option Text
  pub pg_feature : Text
  pub build_profile : Option Text
  pub rustc_version : Option Text

unfoldable pub lance_build_info : Build → BuildInfoRow
lance_build_info build = record {
  extension_name = codes "lance";
  pglance_version = build.pkg_version;
  pglance_git_revision = optional_build_value build.pglance_git_revision;
  lance_version = optional_build_value build.lance_version;
  lance_git_revision = optional_build_value build.lance_revision;
  lance_source = optional_build_value build.lance_source;
  lance_index_version = optional_build_value build.lance_index_version;
  lance_namespace_version = optional_build_value build.lance_namespace_version;
  lance_namespace_impls_version = optional_build_value build.lance_namespace_impls_version;
  pg_feature = pg_feature build.features;
  build_profile = optional_build_value build.build_profile;
  rustc_version = optional_build_value build.rustc_version;
}

-- `split_once('=')`: what stands before the first `=`.
unfoldable pub key_of : Text → Option Text
key_of [] = none
key_of (c ∷ s) =
    let later = key_of s in
    if c == b'=' then some [] else elim later [ none ↦ none | some k ↦ some (c ∷ k) ]

abbrev pub is_supported : Text → Bool
is_supported k =
    text_eq k (codes "uri")
    || text_eq k (codes "batch_size")
    || starts_with k (codes "aws_")
    || starts_with k (codes "s3_")
    || starts_with k (codes "ns.")

unfoldable pub lance_fdw_validator : List Text → Outcome (Unit {0})
lance_fdw_validator [] = ok tt
lance_fdw_validator (opt ∷ options) =
    let rest = lance_fdw_validator options in
    elim (key_of opt) [
      | none ↦ err (error (codes "invalid option format: " ++ opt))
      | some k ↦ if is_supported k then rest else err (error (codes "unsupported option: " ++ k))
    ]

-- `unwrap_or_else(|e| error!("{function} failed: {}", e))`
abbrev pub failed_text : Text → Text → Failure
failed_text function e = error (function ++ (codes " failed: " ++ e))

abbrev pub reported {ℓ} : {A : Type ℓ} → Text → Outcome A → Outcome A
reported function (err (error e)) = err (failed_text function e)
reported function (err panic) = err panic
reported function (ok a) = ok a

abbrev pub reported_by {ℓ} : {E : Type 0} {A : Type ℓ} → (E → Text) → Text → Result E A → Outcome A
reported_by message function (err e) = err (failed_text function (message e))
reported_by message function (ok a) = ok a

-- The result of a loop on fuel.
abbrev pub on_run {ℓ κ} : {A : Type ℓ} {B : Type κ} → (A → B) → Option A → Option B
on_run f none = none
on_run f (some a) = some (f a)

abbrev pub same {ℓ} : {A : Type ℓ} → A → A
same a = a
