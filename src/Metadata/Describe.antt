-- ===== src/Metadata/Describe.antt =====
-- src/write/metadata.rs: the functions that describe a dataset, and the plan of a cleanup. What is
-- called of the crate and of serde_json is a record.
use pglance.Base.{
  ℕ, Bool, Option, none, some, List, [], ◌++◌, Text, codes, Result, ok, err, ◌>>=◌, map,
}
use pglance.Base.Int.{ℤ, pos, negsuc}
use pglance.Convert.External.{Json}
use pglance.Maintenance.{error, panic, Outcome, context, in_runtime, opening}
use pglance.Maintenance.Vacuum.{Clock, CleanupPolicy, VacuumArgs, RemovalStats}
use pglance.Metadata.{
  LanceFields, TableFieldRow, collect_fields, schema_json, Fragment, FragmentRow, fragment_rows,
  FragmentStatsRow, fragment_stats, as_i64,
}
use pglance.Metadata.Refs.{
  BranchContents, BranchRow, TagContents, TagRow, Version, VersionRow, branch_row, sort_branches,
  tag_row, version_row,
}

-- `CleanupPlan`, with its lists as they are printed.
pub record CleanupPlan : Type 0 where
  pub read_version : ℕ
  pub stats : RemovalStats
  pub candidate_files_truncated : Bool
  pub candidate_file_limit : ℕ
  pub candidate_files : Text
  pub referenced_branches : Text
  pub warnings : Text

-- A dataset of the crate at its version.
pub record Described (clock : Clock) : Type 1 where
  pub Dataset : Type 0
  pub version_id : Dataset → ℕ
  pub latest_version_id : Dataset → Result Text ℕ
  pub count_rows : Dataset → Option Text → Result Text ℕ
  pub schema_fields : Dataset → LanceFields
  pub schema_metadata : Dataset → Json
  pub fragments : Dataset → List Fragment
  pub count_fragments : Dataset → ℕ
  pub versions : Dataset → Result Text (List Version)
  pub list_tags_ordered : Dataset → Result Text (List (Text × TagContents))
  pub fetch_branches : Dataset → Result Text (List (Text × BranchContents))
  -- `cleanup(policy)`, with the limit of the candidates where one is given, and `explain`
  pub explain : Dataset → CleanupPolicy clock.DateTime → Option ℕ → Result Text CleanupPlan
  pub print : Json → Text

pub record TableInfoRow : Type 0 where
  pub uri : Text
  pub version : ℤ
  pub latest_version : ℤ
  pub rows : ℤ
  pub fragments : ℤ
  pub schema : Text
  pub metadata : Text

pub record CleanupPlanRow : Type 0 where
  pub read_version : ℤ
  pub bytes_removed : ℤ
  pub old_versions : ℤ
  pub data_files_removed : ℤ
  pub transaction_files_removed : ℤ
  pub index_files_removed : ℤ
  pub deletion_files_removed : ℤ
  pub candidate_files_truncated : Bool
  pub candidate_file_limit : ℤ
  pub candidate_files : Text
  pub referenced_branches : Text
  pub warnings : Text

abbrev pub optional_u64 : Option ℤ → Text → Outcome (Option ℕ)
optional_u64 none name = ok none
optional_u64 (some (pos n)) name = ok (some n)
optional_u64 (some (negsuc n)) name = err (error (name ++ codes " must be non-negative"))

abbrev pub optional_usize : Option ℤ → Text → Outcome (Option ℕ)
optional_usize none name = ok none
optional_usize (some (pos n)) name = ok (some n)
optional_usize (some (negsuc n)) name = err (error (name ++ codes " must be non-negative"))

abbrev pub before_timestamp : (clock : Clock) → Option ℤ → Outcome (Option clock.DateTime)
before_timestamp clock none = ok none
before_timestamp clock (some (pos n)) = elim (clock.seconds_ago n) [
  | none ↦ err panic
  | some t ↦ ok (some t)
]
before_timestamp clock (some (negsuc n)) =
    err (error (codes "older_than_seconds must be non-negative"))

unfoldable pub cleanup_policy :
    (clock : Clock) → VacuumArgs → Outcome (CleanupPolicy clock.DateTime)
cleanup_policy clock args = do
  before ← before_timestamp clock args.older_than_seconds
  version ← optional_u64 args.before_version (codes "before_version")
  rate ← optional_u64 args.delete_rate_limit (codes "delete_rate_limit")
  ok (record {
    before_timestamp = before;
    before_version = version;
    delete_unverified = args.delete_unverified;
    error_if_tagged_old_versions = args.error_if_tagged_old_versions;
    clean_referenced_branches = args.clean_referenced_branches;
    delete_rate_limit = rate;
  })

abbrev pub cleanup_row : CleanupPlan → CleanupPlanRow
cleanup_row plan = record {
  read_version = as_i64 plan.read_version;
  bytes_removed = as_i64 plan.stats.bytes_removed;
  old_versions = as_i64 plan.stats.old_versions;
  data_files_removed = as_i64 plan.stats.data_files_removed;
  transaction_files_removed = as_i64 plan.stats.transaction_files_removed;
  index_files_removed = as_i64 plan.stats.index_files_removed;
  deletion_files_removed = as_i64 plan.stats.deletion_files_removed;
  candidate_files_truncated = plan.candidate_files_truncated;
  candidate_file_limit = as_i64 plan.candidate_file_limit;
  candidate_files = plan.candidate_files;
  referenced_branches = plan.referenced_branches;
  warnings = plan.warnings;
}

module _ (clock : Clock) (crate : Described clock) (runtime : Result Text (Unit {0}))
    (opened : Result Text crate.Dataset) where
  open crate use {
    Dataset, version_id, latest_version_id, count_rows, schema_fields, schema_metadata, fragments,
    count_fragments, versions, list_tags_ordered, fetch_branches, explain, print,
  }

  unfoldable pub lance_table_info_impl : Text → Outcome TableInfoRow
  lance_table_info_impl uri = in_runtime runtime (do
    dataset ← opening opened
    rows ← context (codes "failed to count rows: ") (count_rows dataset none)
    latest ← context (codes "failed to read latest version: ") (latest_version_id dataset)
    ok (record {
      uri = uri;
      version = as_i64 (version_id dataset);
      latest_version = as_i64 latest;
      rows = as_i64 rows;
      fragments = as_i64 (count_fragments dataset);
      schema = print (schema_json (schema_fields dataset) (schema_metadata dataset));
      metadata = print (schema_metadata dataset);
    }))

  unfoldable pub lance_table_fields_impl : Outcome (List TableFieldRow)
  lance_table_fields_impl =
      in_runtime runtime
        (do dataset ← opening opened; ok (collect_fields print (schema_fields dataset) none []))

  unfoldable pub lance_count_rows_impl : Option Text → Outcome ℤ
  lance_count_rows_impl filter = in_runtime runtime (do
    dataset ← opening opened
    rows ← context (codes "failed to count rows: ") (count_rows dataset filter)
    ok (as_i64 rows))

  unfoldable pub lance_list_fragments_impl : Outcome (List FragmentRow)
  lance_list_fragments_impl =
      in_runtime runtime (do dataset ← opening opened; ok (fragment_rows (fragments dataset)))

  unfoldable pub lance_fragment_stats_impl : Outcome FragmentStatsRow
  lance_fragment_stats_impl =
      in_runtime runtime (do dataset ← opening opened; ok (fragment_stats (fragments dataset)))

  unfoldable pub lance_list_versions_impl : Outcome (List VersionRow)
  lance_list_versions_impl = in_runtime runtime (do
    dataset ← opening opened
    listed ← context (codes "failed to list versions: ") (versions dataset)
    ok (map version_row listed))

  unfoldable pub lance_list_tags_impl : Outcome (List TagRow)
  lance_list_tags_impl = in_runtime runtime (do
    dataset ← opening opened
    tags ← context (codes "failed to list tags: ") (list_tags_ordered dataset)
    ok (map tag_row tags))

  unfoldable pub lance_list_branches_impl : Outcome (List BranchRow)
  lance_list_branches_impl = in_runtime runtime (do
    dataset ← opening opened
    branches ← context (codes "failed to list branches: ") (fetch_branches dataset)
    ok (map branch_row (sort_branches branches)))

  unfoldable pub lance_cleanup_plan_impl : VacuumArgs → Option ℤ → Outcome CleanupPlanRow
  lance_cleanup_plan_impl args max_candidate_files = do
    policy ← cleanup_policy clock args
    candidates ← optional_usize max_candidate_files (codes "max_candidate_files")
    in_runtime runtime (do
      dataset ← opening opened
      plan ← context (codes "failed to build cleanup plan: ") (explain dataset policy candidates)
      ok (cleanup_row plan))
