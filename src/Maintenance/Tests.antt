-- ===== src/Maintenance/Tests.antt =====
-- src/write/optimize.rs, src/write/index.rs and src/write/delete.rs: the reading of arguments.
use pglance.Base.{ℕ, ◌≡◌, refl, Bool, true, false, Option, none, some, codes, ok, text_eq}
use pglance.Base.Int.{pos, ◌-ℤ◌}
use pglance.Naming.{to_ascii_lowercase}
use pglance.Maintenance.Optimize.{
  CompactionMode, CompactionOptions, OptimizeArgs, compaction_options,
}
use pglance.Maintenance.Accepted.{Accepted, options_of, compaction_options-Accepted}
use pglance.Maintenance.Index.{parse_scalar_index_type, btree}
use pglance.Maintenance.Fts.{merge, parse_optimize_mode, optional_usize}
use pglance.Maintenance.Vacuum.{lance_delete_impl}

abbrev finite : ℕ → Bool
finite bits = true

abbrev defaults : CompactionOptions
defaults = record {
  target_rows_per_fragment = 1_048_576;
  max_rows_per_group = 1024;
  max_bytes_per_file = none;
  materialize_deletions = true;
  materialize_deletions_threshold = 0;
  num_threads = none;
  batch_size = none;
  defer_index_remap = false;
  compaction_mode = none;
  max_source_fragments = none;
  io_buffer_size = none;
}

abbrev sample_args : OptimizeArgs
sample_args = record {
  target_rows_per_fragment = some (pos 500);
  max_rows_per_group = none;
  max_bytes_per_file = none;
  materialize_deletions = true;
  materialize_deletions_threshold = 7;
  num_threads = some (pos 4);
  batch_size = none;
  defer_index_remap = false;
  compaction_mode = some (codes "try_binary_copy");
  max_source_fragments = none;
  io_buffer_size = none;
  rewrite_all = true;
}

compaction_options-Accepted_example :
    ((mode : Option CompactionMode)
      → Accepted finite sample_args mode
      → compaction_options finite defaults sample_args ≡ ok (options_of defaults sample_args mode))
    × ((options : CompactionOptions)
        → compaction_options finite defaults sample_args ≡ ok options
        → (mode : Option CompactionMode) × Accepted finite sample_args mode)
compaction_options-Accepted_example = compaction_options-Accepted finite defaults sample_args

merged : parse_optimize_mode (codes "MERGE") none ≡ ok (merge 1)
unfolding parse_optimize_mode optional_usize to_ascii_lowercase text_eq
merged = refl

b_tree : parse_scalar_index_type (codes "B-Tree") ≡ ok btree
unfolding parse_scalar_index_type to_ascii_lowercase text_eq
b_tree = refl

-- A deletion that leaves more fragments than there were counts none as removed.
deleted :
    lance_delete_impl (λ (n : ℕ). n) (λ predicate n. ok 5) (ok tt) (ok 3) (codes "x > 1")
    ≡ ok (pos 0)
unfolding lance_delete_impl ◌-ℤ◌
deleted = refl
