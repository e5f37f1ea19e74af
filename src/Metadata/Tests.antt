-- ===== src/Metadata/Tests.antt =====
-- src/write/metadata.rs: a dataset with a nested field, three fragments and a plan.
use pglance.Base.{
  ℕ, ◌-◌, ◌^◌, ◌<◌, ◌≡◌, refl, Bool, true, false, Option, none, some, List, [], ◌∷◌, map, Text,
  codes, Result, ok, arith,
}
use pglance.Base.Int.{pos, negsuc}
use pglance.Base.Map.{cmp_list}
use pglance.Convert.External.{Json}
use pglance.Maintenance.Vacuum.{
  Clock, CleanupPolicy, VacuumArgs, RemovalStats, lance_vacuum_impl, vacuum_policy,
}
use pglance.Metadata.{
  LanceFields, field, nil, cons, Fragment, collect_field_rows, collect_fields, fragment_rows,
  fragment_stats,
}
use pglance.Metadata.Describe.{
  Described, CleanupPlan, cleanup_policy, cleanup_row, lance_cleanup_plan_impl,
}
use pglance.Metadata.Refs.{insert_branch, sort_branches, BranchContents}
use pglance.Metadata.Fields.{walk_all, row_at, collect_fields-walk_all}
use pglance.Metadata.Fragments.{total, physical, logical, Agrees, fragment_stats-Agrees}
use pglance.Metadata.Plan.{removed, lance_vacuum_impl-planned}

abbrev no_text : Json → Text
no_text j = codes "{}"

abbrev sample_fields : LanceFields
sample_fields =
    cons
      (field (codes "a") (pos 0) (negsuc 0) (codes "Struct") true Json.null
        (cons (field (codes "b") (pos 1) (pos 0) (codes "Int32") false Json.null nil) nil))
      (cons (field (codes "c") (pos 2) (negsuc 0) (codes "Utf8") true Json.null nil) nil)

paths :
    map (λ r. r.field_path) (collect_fields no_text sample_fields none [])
    ≡ codes "a" ∷ codes "a.b" ∷ codes "c" ∷ []
unfolding collect_fields collect_field_rows
paths = refl

collect_fields-walk_all_example :
    collect_fields no_text sample_fields none [] ≡ map (row_at no_text) (walk_all [] sample_fields)
collect_fields-walk_all_example = collect_fields-walk_all no_text sample_fields

abbrev fragment : ℕ → Option ℕ → Option ℕ → Bool → Fragment
fragment id physical logical deletions = record {
  id = id;
  physical_rows = physical;
  num_rows = logical;
  files = 1;
  has_deletion_file = deletions;
  details = [];
}

abbrev sample_fragments : List Fragment
sample_fragments =
    fragment 0 (some 10) (some 7) true
    ∷ fragment 1 (some 5) (some 5) false
    ∷ fragment 2 none none false
    ∷ []

physical_small : total physical sample_fragments < 2 ^ 63
unfolding total
physical_small = omega arith

logical_small : total logical sample_fragments < 2 ^ 63
unfolding total
logical_small = omega arith

fragment_stats-Agrees_example :
    Agrees sample_fragments (fragment_rows sample_fragments) (fragment_stats sample_fragments)
fragment_stats-Agrees_example =
    fragment_stats-Agrees sample_fragments (omega arith) physical_small logical_small

abbrev sample_clock : Clock
sample_clock = record { DateTime = ℕ; seconds_ago = λ n. some (1_000_000 - n) }

abbrev sample_stats : RemovalStats
sample_stats = record {
  bytes_removed = 100;
  old_versions = 2;
  data_files_removed = 3;
  transaction_files_removed = 1;
  index_files_removed = 0;
  deletion_files_removed = 0;
}

abbrev sample_plan : CleanupPlan
sample_plan = record {
  read_version = 9;
  stats = sample_stats;
  candidate_files_truncated = false;
  candidate_file_limit = 1000;
  candidate_files = codes "[]";
  referenced_branches = codes "[]";
  warnings = codes "[]";
}

abbrev described : Described sample_clock
described = record {
  Dataset = Unit {0};
  version_id = λ ds. 9;
  latest_version_id = λ ds. ok 9;
  count_rows = λ ds filter. ok 12;
  schema_fields = λ ds. sample_fields;
  schema_metadata = λ ds. Json.null;
  fragments = λ ds. sample_fragments;
  count_fragments = λ ds. 3;
  versions = λ ds. ok [];
  list_tags_ordered = λ ds. ok [];
  fetch_branches = λ ds. ok [];
  explain = λ ds policy limit. ok sample_plan;
  print = no_text;
}

abbrev week_old : VacuumArgs
week_old = record {
  older_than_seconds = some (pos 604_800);
  before_version = none;
  delete_unverified = false;
  error_if_tagged_old_versions = false;
  clean_referenced_branches = false;
  delete_rate_limit = some (pos 5);
}

same_stats :
    (ds : Unit {0}) (policy : CleanupPolicy ℕ) (limit : Option ℕ) (plan : CleanupPlan)
    → described.explain ds policy limit ≡ ok plan
    → ◌≡◌ {A = Result Text RemovalStats} (ok sample_stats) (ok plan.stats)
same_stats ds policy limit plan h = cc

planned :
    lance_cleanup_plan_impl sample_clock described (ok tt) (ok tt) week_old (some (pos 50))
    ≡ ok (cleanup_row sample_plan)
unfolding lance_cleanup_plan_impl cleanup_policy
planned = refl

lance_vacuum_impl-planned_example :
    (vacuum_policy sample_clock week_old ≡ cleanup_policy sample_clock week_old)
    × (lance_vacuum_impl sample_clock
          (λ (ds : Unit {0}) policy. ok sample_stats)
          (ok tt)
          (ok tt)
          week_old
        ≡ ok (removed (cleanup_row sample_plan)))
lance_vacuum_impl-planned_example =
    lance_vacuum_impl-planned sample_clock described (ok tt) (ok tt) (λ ds policy. ok sample_stats)
      same_stats week_old (some (pos 50)) (cleanup_row sample_plan) planned

abbrev branch : Text → Text × BranchContents
branch name = (
  name,
  record {
    parent_branch = none;
    parent_version = 1;
    create_at = 0;
    manifest_size = 0;
    identifier = [];
    metadata = [];
  },
)

sorted :
    sort_branches (branch (codes "b") ∷ branch (codes "a") ∷ [])
    ≡ branch (codes "a") ∷ branch (codes "b") ∷ []
unfolding sort_branches insert_branch cmp_list
sorted = refl
