-- ===== src/Maintenance/Vacuum.antt =====
-- src/write/vacuum.rs and src/write/delete.rs. The clock of chrono and the dataset are parameters; the
-- durations are left out.
use pglance.Base.{ℕ, Bool, Option, none, some, ◌++◌, Text, codes, Result, ok, err, ◌>>=◌, ◌>>◌}
use pglance.Base.Int.{ℤ, pos, negsuc, wrap_i64, ◌-ℤ◌}
use pglance.Maintenance.{error, panic, Outcome, context, in_runtime, opening}

-- The clock: so many seconds before now, or a panic where chrono cannot represent it.
pub record Clock : Type 1 where
  pub DateTime : Type 0
  pub seconds_ago : ℕ → Option DateTime

pub record CleanupPolicy (T : Type 0) : Type 0 where
  pub before_timestamp : Option T
  pub before_version : Option ℕ
  pub delete_unverified : Bool
  pub error_if_tagged_old_versions : Bool
  pub clean_referenced_branches : Bool
  pub delete_rate_limit : Option ℕ

pub record VacuumArgs : Type 0 where
  pub older_than_seconds : Option ℤ
  pub before_version : Option ℤ
  pub delete_unverified : Bool
  pub error_if_tagged_old_versions : Bool
  pub clean_referenced_branches : Bool
  pub delete_rate_limit : Option ℤ

-- Every `i64` that is not negative fits in a `u64`.
abbrev pub optional_u64 : Option ℤ → Text → Outcome (Option ℕ)
optional_u64 none name = ok none
optional_u64 (some (pos n)) name = ok (some n)
optional_u64 (some (negsuc n)) name = err (error (name ++ codes " must be non-negative"))

abbrev pub check_seconds : Option ℤ → Outcome (Unit {0})
check_seconds (some (negsuc n)) = err (error (codes "older_than_seconds must be non-negative"))
check_seconds _ = ok tt

module _ (clock : Clock) where
  open clock use {DateTime, seconds_ago}

  -- `Utc::now() - Duration::seconds(seconds)`, for seconds that are not negative.
  abbrev pub timestamp : Option ℤ → Outcome (Option DateTime)
  timestamp (some (pos n)) = elim (seconds_ago n) [ none ↦ err panic | some t ↦ ok (some t) ]
  timestamp _ = ok none

  unfoldable pub vacuum_policy : VacuumArgs → Outcome (CleanupPolicy DateTime)
  vacuum_policy args = do
    check_seconds args.older_than_seconds
    before ← timestamp args.older_than_seconds
    version ← optional_u64 args.before_version (codes "before_version")
    rate ← optional_u64 args.delete_rate_limit (codes "delete_rate_limit")
    ok (record {
      before_timestamp = before;
      before_version = version;
      delete_unverified = args.delete_unverified;
      error_if_tagged_old_versions = args.error_if_tagged_old_versions;
      clean_referenced_branches = args.clean_referenced_branches;
      delete_rate_limit = rate;
    })

-- `RemovalStats` of the crate.
pub record RemovalStats : Type 0 where
  pub bytes_removed : ℕ
  pub old_versions : ℕ
  pub data_files_removed : ℕ
  pub transaction_files_removed : ℕ
  pub index_files_removed : ℕ
  pub deletion_files_removed : ℕ

-- The columns of the result, with the casts to `i64`.
pub record VacuumStats : Type 0 where
  pub bytes_removed : ℤ
  pub old_versions : ℤ
  pub data_files_removed : ℤ
  pub transaction_files_removed : ℤ
  pub index_files_removed : ℤ
  pub deletion_files_removed : ℤ

unfoldable pub vacuum_stats : RemovalStats → VacuumStats
vacuum_stats s = record {
  bytes_removed = wrap_i64 (pos s.bytes_removed);
  old_versions = wrap_i64 (pos s.old_versions);
  data_files_removed = wrap_i64 (pos s.data_files_removed);
  transaction_files_removed = wrap_i64 (pos s.transaction_files_removed);
  index_files_removed = wrap_i64 (pos s.index_files_removed);
  deletion_files_removed = wrap_i64 (pos s.deletion_files_removed);
}

unfoldable pub lance_vacuum_impl :
    {D : Type 0} (clock : Clock)
    → (D → CleanupPolicy clock.DateTime → Result Text RemovalStats)
    → Result Text (Unit {0})
    → Result Text D
    → VacuumArgs
    → Outcome VacuumStats
lance_vacuum_impl clock cleanup_with_policy runtime opened args = do
  policy ← vacuum_policy clock args
  in_runtime runtime (do
    dataset ← opening opened
    stats ← context (codes "lance vacuum failed: ") (cleanup_with_policy dataset policy)
    ok (vacuum_stats stats))

-- `removed.max(0)`
abbrev pub at_least_zero : ℤ → ℤ
at_least_zero (pos n) = pos n
at_least_zero (negsuc n) = pos 0

-- `lance_delete_impl`: the fragments before and after the deletion.
unfoldable pub lance_delete_impl :
    {D : Type 0}
    → (D → ℕ)
    → (Text → D → Result Text D)
    → Result Text (Unit {0})
    → Result Text D
    → Text
    → Outcome ℤ
lance_delete_impl count_fragments delete runtime opened predicate = in_runtime runtime (do
  dataset ← opening opened
  deleted ← context (codes "lance delete failed: ") (delete predicate dataset)
  ok (
      at_least_zero (
        wrap_i64
          (wrap_i64 (pos (count_fragments dataset)) -ℤ wrap_i64 (pos (count_fragments deleted))))))
