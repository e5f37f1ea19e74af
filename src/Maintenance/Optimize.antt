-- ===== src/Maintenance/Optimize.antt =====
-- src/write/optimize.rs: the options of a compaction. The crate's defaults, floats, fragments and
-- compaction are parameters; the duration is left out.
use pglance.Base.{
  ℕ, Bool, true, false, ◌&&◌, Option, none, some, List, [], ◌∷◌, ◌++◌, Text, codes, Result, ok, err,
  ◌>>=◌, ◌>>◌, not, if◌then◌else◌, text_eq,
}
use pglance.Base.Int.{ℤ, pos, negsuc, wrap_i64}
use pglance.Maintenance.{error, Outcome, context, in_runtime, opening}

pub data CompactionMode : Type 0 where
  reencode try_binary_copy force_binary_copy : CompactionMode

-- The threshold is the bits of an `f32`.
pub record CompactionOptions : Type 0 where
  pub target_rows_per_fragment : ℕ
  pub max_rows_per_group : ℕ
  pub max_bytes_per_file : Option ℕ
  pub materialize_deletions : Bool
  pub materialize_deletions_threshold : ℕ
  pub num_threads : Option ℕ
  pub batch_size : Option ℕ
  pub defer_index_remap : Bool
  pub compaction_mode : Option CompactionMode
  pub max_source_fragments : Option ℕ
  pub io_buffer_size : Option ℕ

pub record OptimizeArgs : Type 0 where
  pub target_rows_per_fragment : Option ℤ
  pub max_rows_per_group : Option ℤ
  pub max_bytes_per_file : Option ℤ
  pub materialize_deletions : Bool
  pub materialize_deletions_threshold : ℕ
  pub num_threads : Option ℤ
  pub batch_size : Option ℤ
  pub defer_index_remap : Bool
  pub compaction_mode : Option Text
  pub max_source_fragments : Option ℤ
  pub io_buffer_size : Option ℤ
  pub rewrite_all : Bool

-- `optional_usize` and `optional_u64`, which agree where a `usize` has 64 bits.
unfoldable pub optional_usize : Option ℤ → Text → Outcome (Option ℕ)
optional_usize none name = ok none
optional_usize (some (pos n)) name = ok (some n)
optional_usize (some (negsuc n)) name = err (error (name ++ codes " must be non-negative"))

abbrev pub mode_of : Text → Outcome (Option CompactionMode)
mode_of value =
    if text_eq value (codes "reencode")
    then ok (some reencode)
    else if text_eq value (codes "try_binary_copy")
    then ok (some try_binary_copy)
    else if text_eq value (codes "force_binary_copy")
    then ok (some force_binary_copy)
    else err (
        error (
          codes "invalid compaction_mode '"
          ++ (value ++ codes "': must be 'reencode', 'try_binary_copy', or 'force_binary_copy'")))

unfoldable pub parse_compaction_mode : Option Text → Outcome (Option CompactionMode)
parse_compaction_mode none = ok none
parse_compaction_mode (some value) = mode_of value

abbrev pub is_given {ℓ} : {A : Type ℓ} → Option A → Bool
is_given none = false
is_given (some a) = true

-- `if let Some(value) = … { options.field = value; }`
abbrev pub given_or : Option ℕ → ℕ → ℕ
given_or none default = default
given_or (some n) default = n

abbrev pub check : Bool → Text → Outcome (Unit {0})
check true message = ok tt
check false message = err (error message)

unfoldable pub compaction_options :
    (ℕ → Bool) → CompactionOptions → OptimizeArgs → Outcome CompactionOptions
compaction_options is_finite default args = do
  check (is_finite args.materialize_deletions_threshold)
      (codes "materialize_deletions_threshold must be finite")
  target ← optional_usize args.target_rows_per_fragment (codes "target_rows_per_fragment")
  group ← optional_usize args.max_rows_per_group (codes "max_rows_per_group")
  bytes ← optional_usize args.max_bytes_per_file (codes "max_bytes_per_file")
  threads ← optional_usize args.num_threads (codes "num_threads")
  batch ← optional_usize args.batch_size (codes "batch_size")
  mode ← parse_compaction_mode args.compaction_mode
  fragments ← optional_usize args.max_source_fragments (codes "max_source_fragments")
  buffer ← optional_usize args.io_buffer_size (codes "io_buffer_size")
  check (not (args.rewrite_all && is_given fragments))
      (codes "rewrite_all cannot be combined with max_source_fragments")
  ok (record {
    target_rows_per_fragment = given_or target default.target_rows_per_fragment;
    max_rows_per_group = given_or group default.max_rows_per_group;
    max_bytes_per_file = bytes;
    materialize_deletions = args.materialize_deletions;
    materialize_deletions_threshold = args.materialize_deletions_threshold;
    num_threads = threads;
    batch_size = batch;
    defer_index_remap = args.defer_index_remap;
    compaction_mode = mode;
    max_source_fragments = fragments;
    io_buffer_size = buffer;
  })

-- `CompactionPlan`: the tasks are lists of fragments.
pub record CompactionPlan (F : Type 0) : Type 0 where
  pub tasks : List (List F)
  pub read_version : ℕ
  pub options : CompactionOptions

-- `RewriteAllPlanner::plan`: one task with all fragments.
abbrev pub one_task {ℓ} : {F : Type ℓ} → List F → List (List F)
one_task [] = []
one_task (f ∷ fs) = (f ∷ fs) ∷ []

unfoldable pub rewrite_all_plan : {F : Type 0} → List F → ℕ → CompactionOptions → CompactionPlan F
rewrite_all_plan fragments version options = record {
  tasks = one_task fragments;
  read_version = version;
  options = options;
}

-- What is called of the crate. The version of a dataset goes into the plan.
pub record Compaction : Type 1 where
  pub Dataset : Type 0
  pub Fragment : Type 0
  pub default : CompactionOptions
  pub is_finite : ℕ → Bool
  pub get_fragments : Dataset → List Fragment
  pub version_id : Dataset → ℕ
  pub compact_files : Dataset → CompactionOptions → Result Text (ℕ × ℕ × ℕ × ℕ)
  pub compact_with_plan : Dataset → CompactionPlan Fragment → Result Text (ℕ × ℕ × ℕ × ℕ)

-- Fragments removed and added, files removed and added.
pub record OptimizeRow : Type 0 where
  pub fragments_removed : ℤ
  pub fragments_added : ℤ
  pub files_removed : ℤ
  pub files_added : ℤ

abbrev pub optimize_row : ℕ × ℕ × ℕ × ℕ → OptimizeRow
optimize_row m = record {
  fragments_removed = wrap_i64 (pos m.0);
  fragments_added = wrap_i64 (pos m.1);
  files_removed = wrap_i64 (pos m.2);
  files_added = wrap_i64 (pos m.3);
}

module _ (crate : Compaction) where
  open crate use {
    Dataset, default, is_finite, get_fragments, version_id, compact_files, compact_with_plan,
  }

  unfoldable pub lance_optimize_impl :
      Result Text (Unit {0}) → Result Text Dataset → OptimizeArgs → Outcome OptimizeRow
  lance_optimize_impl runtime opened args = do
    options ← compaction_options is_finite default args
    in_runtime runtime (do
      dataset ← opening opened
      metrics ← context (codes "lance optimize failed: ") (
          if args.rewrite_all
          then compact_with_plan dataset
              (rewrite_all_plan (get_fragments dataset) (version_id dataset) options)
          else compact_files dataset options)
      ok (optimize_row metrics))
