-- ===== src/Sql/Reports.antt =====
-- src/lib.rs: the SQL functions that describe and maintain a dataset. Columns of type jsonb are parsed
-- from the text that the function below made, and stand beside its row here.
use pglance.Base.{Bool, Option, List, [], ◌∷◌, ◌++◌, Text, codes, Result, ok, err, ◌>>=◌}
use pglance.Base.Int.{ℤ}
use pglance.Convert.External.{Json}
use pglance.Maintenance.{error, Outcome}
use pglance.Maintenance.Vacuum.{
  Clock, CleanupPolicy, VacuumArgs, VacuumStats, RemovalStats, lance_vacuum_impl,
}
use pglance.Maintenance.Optimize.{Compaction, OptimizeArgs, OptimizeRow, lance_optimize_impl}
use pglance.Maintenance.Index.{
  IndexCrate, IndexCreated, IndexListRow, FtsSearch, lance_create_scalar_index_impl,
  lance_create_fts_index_impl, lance_optimize_indices_impl, lance_list_indices_impl,
  lance_index_stats_impl, lance_drop_index_impl, lance_fts_search_count_impl,
}
use pglance.Maintenance.Fts.{FtsBuilder, FtsArgs}
use pglance.Metadata.{TableFieldRow, FragmentRow, FragmentStatsRow}
use pglance.Metadata.Describe.{
  Described, TableInfoRow, CleanupPlanRow, lance_table_info_impl, lance_table_fields_impl,
  lance_count_rows_impl, lance_list_fragments_impl, lance_fragment_stats_impl,
  lance_list_versions_impl, lance_list_tags_impl, lance_list_branches_impl, lance_cleanup_plan_impl,
}
use pglance.Metadata.Refs.{VersionRow, TagRow, BranchRow}
use pglance.Sql.{reported}

-- `serde_json::from_str`
module _ (from_str : Text → Result Text Json) where
  -- The message is what stands before the error.
  abbrev pub parse_or : Text → Text → Outcome Json
  parse_or message value = elim (from_str value) [
    | err e ↦ err (error (message ++ e))
    | ok j ↦ ok j
  ]

  abbrev pub parse_jsonb : Text → Text → Outcome Json
  parse_jsonb context value = parse_or (context ++ codes " failed to parse JSON output: ") value

  -- The rows of a function with their JSON columns.
  abbrev pub with_json {ℓ} : {A : Type ℓ} → (A → Outcome Json) → List A → Outcome (List (A × Json))
  with_json f [] = ok []
  with_json f (a ∷ as') = do j ← f a; rest ← with_json f as'; ok ((a, j) ∷ rest)

  module _ (clock : Clock) (crate : Described clock) (runtime : Result Text (Unit {0}))
      (opened : Result Text crate.Dataset) where
    unfoldable pub lance_table_info : Text → Outcome (TableInfoRow × Json × Json)
    lance_table_info uri = do
      row ←
          reported (codes "lance_table_info") (lance_table_info_impl clock crate runtime opened uri)
      schema ← parse_jsonb (codes "lance_table_info") row.schema
      metadata ← parse_jsonb (codes "lance_table_info") row.metadata
      ok (row, schema, metadata)

    unfoldable pub lance_table_fields : Outcome (List (TableFieldRow × Json))
    lance_table_fields = do
      rows ←
          reported (codes "lance_table_fields") (lance_table_fields_impl clock crate runtime opened)
      with_json (λ r. parse_jsonb (codes "lance_table_fields") r.metadata) rows

    unfoldable pub lance_count_rows : Option Text → Outcome ℤ
    lance_count_rows filter =
        reported (codes "lance_count_rows")
          (lance_count_rows_impl clock crate runtime opened filter)

    unfoldable pub lance_list_fragments : Outcome (List (FragmentRow × Json))
    lance_list_fragments = do
      rows ←
          reported (codes "lance_list_fragments")
            (lance_list_fragments_impl clock crate runtime opened)
      with_json (λ r. parse_jsonb (codes "lance_list_fragments") r.details) rows

    unfoldable pub lance_fragment_stats : Outcome FragmentStatsRow
    lance_fragment_stats =
        reported (codes "lance_fragment_stats")
          (lance_fragment_stats_impl clock crate runtime opened)

    unfoldable pub lance_list_versions : Outcome (List (VersionRow × Json))
    lance_list_versions = do
      rows ←
          reported (codes "lance_list_versions")
            (lance_list_versions_impl clock crate runtime opened)
      with_json (λ r. parse_jsonb (codes "lance_list_versions") r.metadata) rows

    unfoldable pub lance_list_tags : Outcome (List (TagRow × Json))
    lance_list_tags = do
      rows ← reported (codes "lance_list_tags") (lance_list_tags_impl clock crate runtime opened)
      with_json (λ r. parse_jsonb (codes "lance_list_tags") r.metadata) rows

    abbrev branch_json : List BranchRow → Outcome (List (BranchRow × Json × Json))
    branch_json [] = ok []
    branch_json (r ∷ rows) = do
      identifier ← parse_jsonb (codes "lance_list_branches") r.identifier
      metadata ← parse_jsonb (codes "lance_list_branches") r.metadata
      rest ← branch_json rows
      ok ((r, identifier, metadata) ∷ rest)

    unfoldable pub lance_list_branches : Outcome (List (BranchRow × Json × Json))
    lance_list_branches = do
      rows ←
          reported (codes "lance_list_branches")
            (lance_list_branches_impl clock crate runtime opened)
      branch_json rows

    unfoldable pub lance_cleanup_plan :
        VacuumArgs → Option ℤ → Outcome (CleanupPlanRow × Json × Json × Json)
    lance_cleanup_plan args max_candidate_files = do
      row ←
          reported (codes "lance_cleanup_plan")
            (lance_cleanup_plan_impl clock crate runtime opened args max_candidate_files)
      files ← parse_jsonb (codes "lance_cleanup_plan") row.candidate_files
      branches ← parse_jsonb (codes "lance_cleanup_plan") row.referenced_branches
      warnings ← parse_jsonb (codes "lance_cleanup_plan") row.warnings
      ok (row, files, branches, warnings)

  module _ (b : FtsBuilder) (crate : IndexCrate b) (runtime : Result Text (Unit {0}))
      (opened : Result Text crate.Dataset) where
    unfoldable pub lance_create_scalar_index : Text → Text → Text → Bool → Outcome IndexCreated
    lance_create_scalar_index column_name index_name index_type replace =
        reported (codes "lance_create_scalar_index") (
          lance_create_scalar_index_impl b crate runtime opened column_name index_name index_type
            replace)

    unfoldable pub lance_create_fts_index : Text → Text → Bool → FtsArgs → Outcome IndexCreated
    lance_create_fts_index column_name index_name replace args =
        reported (codes "lance_create_fts_index")
          (lance_create_fts_index_impl b crate runtime opened column_name index_name replace args)

    unfoldable pub lance_optimize_indices : List Text → Text → Option ℤ → Outcome ℤ
    lance_optimize_indices index_names mode num_indices_to_merge =
        reported (codes "lance_optimize_indices")
          (lance_optimize_indices_impl b crate runtime opened index_names mode num_indices_to_merge)

    abbrev index_json : List IndexListRow → Outcome (List (IndexListRow × Json × Json))
    index_json [] = ok []
    index_json (r ∷ rows) = do
      columns ← parse_or (codes "lance_list_indices failed to parse columns: ") r.column_names
      details ← parse_or (codes "lance_list_indices failed to parse details: ") r.details
      rest ← index_json rows
      ok ((r, columns, details) ∷ rest)

    unfoldable pub lance_list_indices : Outcome (List (IndexListRow × Json × Json))
    lance_list_indices = do
      rows ← reported (codes "lance_list_indices") (lance_list_indices_impl b crate runtime opened)
      index_json rows

    unfoldable pub lance_index_stats : Text → Outcome (Text × Json)
    lance_index_stats index_name = do
      row ←
          reported (codes "lance_index_stats")
            (lance_index_stats_impl b crate runtime opened index_name)
      stats ← parse_or (codes "lance_index_stats failed to parse stats: ") row.1
      ok (row.0, stats)

    unfoldable pub lance_drop_index : Text → Outcome Text
    lance_drop_index index_name =
        reported (codes "lance_drop_index")
          (lance_drop_index_impl b crate runtime opened index_name)

unfoldable pub lance_fts_search_count :
    (s : FtsSearch)
    → Result Text (Unit {0})
    → Result Text s.Dataset
    → Text
    → Text
    → Option ℤ
    → Outcome (Text × Text × ℤ)
lance_fts_search_count s runtime opened column_name query_text limit =
    reported (codes "lance_fts_search_count")
      (lance_fts_search_count_impl s runtime opened column_name query_text limit)

unfoldable pub lance_optimize :
    (crate : Compaction)
    → Result Text (Unit {0})
    → Result Text crate.Dataset
    → OptimizeArgs
    → Outcome OptimizeRow
lance_optimize crate runtime opened args =
    reported (codes "lance_optimize") (lance_optimize_impl crate runtime opened args)

unfoldable pub lance_vacuum :
    {D : Type 0} (clock : Clock)
    → (D → CleanupPolicy clock.DateTime → Result Text RemovalStats)
    → Result Text (Unit {0})
    → Result Text D
    → VacuumArgs
    → Outcome VacuumStats
lance_vacuum clock cleanup_with_policy runtime opened args =
    reported (codes "lance_vacuum")
      (lance_vacuum_impl clock cleanup_with_policy runtime opened args)
