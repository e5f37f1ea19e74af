-- ===== src/Metadata/Plan.antt =====
-- src/write/metadata.rs against src/write/vacuum.rs: the plan of a cleanup and the cleanup.
use pglance.Base.{
  ℕ, ◌≡◌, refl, ap, ◌∙◌, inl, inr, Option, none, some, Text, codes, Result, ok, err, ◌>>=◌,
  >>=-eq-ok, Result-cases,
}
use pglance.Base.Int.{ℤ, pos, negsuc}
use pglance.Maintenance.{Outcome, context, in_runtime, opening}
use pglance.Maintenance.Vacuum.{
  Clock, CleanupPolicy, VacuumArgs, RemovalStats, VacuumStats, vacuum_policy, vacuum_stats,
  lance_vacuum_impl, check_seconds, timestamp, optional_u64,
}
use pglance.Metadata.Describe
use pglance.Metadata.Describe.{
  Described, CleanupPlan, CleanupPlanRow, cleanup_policy, cleanup_row, lance_cleanup_plan_impl,
  before_timestamp,
}

-- The columns that the two functions share.
abbrev pub removed : CleanupPlanRow → VacuumStats
removed row = record {
  bytes_removed = row.bytes_removed;
  old_versions = row.old_versions;
  data_files_removed = row.data_files_removed;
  transaction_files_removed = row.transaction_files_removed;
  index_files_removed = row.index_files_removed;
  deletion_files_removed = row.deletion_files_removed;
}

timestamps_same :
    (clock : Clock) (seconds : Option ℤ)
    → (check_seconds seconds >>= λ u. timestamp clock seconds) ≡ before_timestamp clock seconds
timestamps_same clock none = refl
timestamps_same clock (some (pos n)) = refl
timestamps_same clock (some (negsuc n)) = refl

bind_bind :
    {A B C : Type 0} (m : Outcome A) (f : A → Outcome B) (g : B → Outcome C)
    → (m >>= λ a. f a >>= g) ≡ (m >>= f >>= g)
bind_bind (ok a) f g = refl
bind_bind (err e) f g = refl

u64_same : (o : Option ℤ) (name : Text) → optional_u64 o name ≡ Describe.optional_u64 o name
u64_same none name = refl
u64_same (some (pos n)) name = refl
u64_same (some (negsuc n)) name = refl

policies_same :
    (clock : Clock) (args : VacuumArgs) → vacuum_policy clock args ≡ cleanup_policy clock args
unfolding vacuum_policy cleanup_policy
policies_same clock args =
    bind_bind (check_seconds args.older_than_seconds) (λ u. timestamp clock args.older_than_seconds)
      _
    ∙ rw (timestamps_same clock args.older_than_seconds) (simp u64_same)

module _ (clock : Clock) (crate : Described clock) (runtime : Result Text (Unit {0}))
    (opened : Result Text crate.Dataset)
    (cleanup_with_policy : crate.Dataset
      → CleanupPolicy clock.DateTime
      → Result Text RemovalStats) where
  -- A plan that `lance_cleanup_plan` returns tells what `lance_vacuum` removes: where the crate's plan
  -- for a policy has the statistics of a cleanup by it, `lance_vacuum` succeeds on the same dataset and
  -- arguments with the same six numbers, whatever the limit on candidate files. The two functions read
  -- the arguments alike.
  pub lance_vacuum_impl-planned :
      ((ds : crate.Dataset) (policy : CleanupPolicy clock.DateTime) (limit : Option ℕ)
          (plan : CleanupPlan)
        → crate.explain ds policy limit ≡ ok plan
        → cleanup_with_policy ds policy ≡ ok plan.stats)
      → (args : VacuumArgs) (max_candidate_files : Option ℤ) (row : CleanupPlanRow)
      → lance_cleanup_plan_impl clock crate runtime opened args max_candidate_files ≡ ok row
      → (vacuum_policy clock args ≡ cleanup_policy clock args)
        × (lance_vacuum_impl clock cleanup_with_policy runtime opened args ≡ ok (removed row))
  unfolding lance_vacuum_impl lance_cleanup_plan_impl vacuum_stats
  lance_vacuum_impl-planned agrees args max row h =
      let (policy, ep, h1) = >>=-eq-ok (cleanup_policy clock args) _ h in
      let (limit, el, h2) = >>=-eq-ok (Describe.optional_usize max _) _ h1 in
      let ep' = policies_same clock args ∙ ep in
      (policies_same clock args, rw ep' (ran policy limit runtime opened row h2))
    where
      ran :
          (policy : CleanupPolicy clock.DateTime) (limit : Option ℕ)
          (runtime : Result Text (Unit {0})) (opened : Result Text crate.Dataset)
          (row : CleanupPlanRow)
          → in_runtime runtime (
              opening opened >>= λ ds.
              context (codes "failed to build cleanup plan: ") (crate.explain ds policy limit)
              >>= λ plan. ok (cleanup_row plan))
            ≡ ok row
          → in_runtime runtime (
              opening opened >>= λ ds.
              context (codes "lance vacuum failed: ") (cleanup_with_policy ds policy) >>= λ stats.
              ok (vacuum_stats stats))
            ≡ ok (removed row)
      ran policy limit (err e) opened row h = absurd (cc)
      ran policy limit (ok u) (err e) row h = absurd (cc)
      ran policy limit (ok u) (ok ds) row h = elim (Result-cases (crate.explain ds policy limit)) [
        | inl (e, f) ↦ let bad = rw f at h in absurd (cc)
        | inr (plan, f) ↦
            let same : cleanup_row plan ≡ row = (let r = rw f at h in cc) in
            rw (agrees ds policy limit plan f) (ap (λ r. ok (removed r)) same)
      ]
