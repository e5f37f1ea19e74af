-- ===== src/Maintenance/Index.antt =====
-- src/write/index.rs: indexes on a dataset. The parameters of an index, the dataset and serde_json are
-- parameters; the durations are left out.
use pglance.Base.{
  ℕ, ◌^◌, ◌-◌, Bool, ◌||◌, Option, none, some, List, [], ◌∷◌, ◌++◌, Text, codes, Result, ok, err,
  ◌>>=◌, ltb, if◌then◌else◌, text_eq, length, map,
}
use pglance.Base.Int.{ℤ, pos, negsuc, wrap_i64}
use pglance.Base.Decimal.{show_ℕ}
use pglance.Naming.{to_ascii_lowercase}
use pglance.Maintenance.{error, Outcome, context, in_runtime, opening, map_option}
use pglance.Maintenance.Fts.{
  FtsArgs, FtsBuilder, OptimizeOptions, build_fts_params, parse_optimize_mode,
}

pub data ScalarIndexType : Type 0 where
  btree bitmap label_list : ScalarIndexType

unfoldable pub parse_scalar_index_type : Text → Outcome ScalarIndexType
parse_scalar_index_type index_type =
    let t = map to_ascii_lowercase index_type in
    if text_eq t (codes "btree") || text_eq t (codes "b-tree")
    then ok btree
    else if text_eq t (codes "bitmap")
    then ok bitmap
    else if text_eq t (codes "label_list")
        || text_eq t (codes "labellist")
        || text_eq t (codes "label-list")
    then ok label_list
    else err (
        error (
          codes "unsupported scalar index type '"
          ++ (t ++ codes "'; expected btree, bitmap, or label_list")))

pub record IndexDescription : Type 0 where
  pub name : Text
  pub index_type : Text
  pub field_ids : List ℕ
  pub type_url : Text
  pub rows_indexed : ℕ
  pub total_size_bytes : Option ℕ
  pub details : Result Text Text

-- `id as i32` of a `u32`.
abbrev pub as_i32 : ℕ → ℤ
as_i32 id = if ltb id (2 ^ 31) then pos id else negsuc (2 ^ 32 - 1 - id)

-- What is called of the crate and of serde_json.
pub record IndexCrate (b : FtsBuilder) : Type 1 where
  pub Dataset : Type 0
  pub create_scalar_index : Dataset → Text → Text → ScalarIndexType → Bool → Result Text Text
  pub create_fts_index : Dataset → Text → Text → b.Params → Bool → Result Text Text
  pub optimize_indices : Dataset → OptimizeOptions → List Text → Result Text (Unit {0})
  pub describe_indices : Dataset → Result Text (List IndexDescription)
  pub field_path : Dataset → ℤ → Option Text
  pub index_statistics : Dataset → Text → Result Text Text
  pub drop_index : Dataset → Text → Result Text (Unit {0})
  pub show_index_type : ScalarIndexType → Text
  pub inverted : Text
  pub to_json : List Text → Result Text Text
  pub error_json : Text → Text

-- The name, the column and the type of the index that was made.
pub record IndexCreated : Type 0 where
  pub index_name : Text
  pub column_name : Text
  pub index_type : Text

pub record IndexListRow : Type 0 where
  pub index_name : Text
  pub index_type : Text
  pub column_names : Text
  pub type_url : Text
  pub rows_indexed : ℤ
  pub total_size_bytes : Option ℤ
  pub details : Text

module _ (b : FtsBuilder) (crate : IndexCrate b) (runtime : Result Text (Unit {0}))
    (opened : Result Text crate.Dataset) where
  open crate use {
    Dataset, create_scalar_index, create_fts_index, optimize_indices, describe_indices, field_path,
    index_statistics, drop_index, show_index_type, inverted, to_json, error_json,
  }

  unfoldable pub lance_create_scalar_index_impl : Text → Text → Text → Bool → Outcome IndexCreated
  lance_create_scalar_index_impl column_name index_name index_type replace = do
    kind ← parse_scalar_index_type index_type
    in_runtime runtime (do
      dataset ← opening opened
      name ←
          context (codes "failed to create scalar index: ")
            (create_scalar_index dataset column_name index_name kind replace)
      ok (record {
        index_name = name;
        column_name = column_name;
        index_type = show_index_type kind;
      }))

  unfoldable pub lance_create_fts_index_impl : Text → Text → Bool → FtsArgs → Outcome IndexCreated
  lance_create_fts_index_impl column_name index_name replace args = do
    params ← build_fts_params b args
    in_runtime runtime (do
      dataset ← opening opened
      name ←
          context (codes "failed to create FTS index: ")
            (create_fts_index dataset column_name index_name params replace)
      ok (record { index_name = name; column_name = column_name; index_type = inverted }))

  -- With no names the options are left as they are.
  unfoldable pub lance_optimize_indices_impl : List Text → Text → Option ℤ → Outcome ℤ
  lance_optimize_indices_impl index_names mode num_indices_to_merge = do
    options ← parse_optimize_mode mode num_indices_to_merge
    in_runtime runtime (do
      dataset ← opening opened
      u ←
          context (codes "failed to optimize indices: ")
            (optimize_indices dataset options index_names)
      ok (wrap_i64 (pos (length index_names))))

  abbrev pub column_path : Dataset → ℕ → Text
  column_path dataset id = elim (field_path dataset (as_i32 id)) [
    | none ↦ codes "<field:" ++ (show_ℕ id ++ codes ">")
    | some path ↦ path
  ]

  abbrev pub details_json : Result Text Text → Text
  details_json (ok details) = details
  details_json (err e) = error_json e

  unfoldable pub index_rows : Dataset → List IndexDescription → Outcome (List IndexListRow)
  index_rows dataset [] = ok []
  index_rows dataset (desc ∷ descs) = do
    columns ←
        context (codes "failed to serialize index columns: ")
          (to_json (map (column_path dataset) desc.field_ids))
    rows ← index_rows dataset descs
    ok (
        record {
          index_name = desc.name;
          index_type = desc.index_type;
          column_names = columns;
          type_url = desc.type_url;
          rows_indexed = wrap_i64 (pos desc.rows_indexed);
          total_size_bytes = map_option (λ n. wrap_i64 (pos n)) desc.total_size_bytes;
          details = details_json desc.details;
        }
        ∷ rows)

  unfoldable pub lance_list_indices_impl : Outcome (List IndexListRow)
  lance_list_indices_impl = in_runtime runtime (do
    dataset ← opening opened
    descriptions ← context (codes "failed to list indices: ") (describe_indices dataset)
    index_rows dataset descriptions)

  unfoldable pub lance_index_stats_impl : Text → Outcome (Text × Text)
  lance_index_stats_impl index_name = in_runtime runtime (do
    dataset ← opening opened
    stats ← context (codes "failed to get index statistics: ") (index_statistics dataset index_name)
    ok (index_name, stats))

  unfoldable pub lance_drop_index_impl : Text → Outcome Text
  lance_drop_index_impl index_name = in_runtime runtime (do
    dataset ← opening opened
    u ← context (codes "failed to drop index: ") (drop_index dataset index_name)
    ok index_name)

-- A query of a full-text search, and how the crate runs it.
pub record FtsSearch : Type 1 where
  pub Dataset : Type 0
  pub Query : Type 0
  pub Scanner : Type 0
  pub query_new : Text → Query
  pub with_column : Text → Query → Result Text Query
  pub limit : Option ℤ → Query → Query
  pub project : Dataset → Text → Result Text Scanner
  pub full_text_search : Query → Scanner → Result Text Scanner
  pub num_rows : Scanner → Result Text ℕ

-- The column, the text of the query and the rows that match.
unfoldable pub lance_fts_search_count_impl :
    (s : FtsSearch)
    → Result Text (Unit {0})
    → Result Text s.Dataset
    → Text
    → Text
    → Option ℤ
    → Outcome (Text × Text × ℤ)
lance_fts_search_count_impl s runtime opened column_name query_text limit = in_runtime runtime (do
  dataset ← opening opened
  query ←
      context (codes "failed to build FTS query: ")
        (s.with_column column_name (s.query_new query_text))
  scanner ← context (codes "failed to project FTS column: ") (s.project dataset column_name)
  searched ←
      context (codes "failed to configure FTS search: ")
        (s.full_text_search (s.limit limit query) scanner)
  count ← context (codes "FTS search failed: ") (s.num_rows searched)
  ok (column_name, query_text, wrap_i64 (pos count)))
