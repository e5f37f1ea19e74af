-- ===== src/Metadata.antt =====
-- src/write/metadata.rs: the rows that describe a dataset. The dataset, chrono's printing and
-- serde_json are parameters; the durations are left out.
pub mod Refs
pub mod Describe
pub mod Fields
pub mod Fragments
pub mod Plan
pub mod Tests
use pglance.Base.{
  ℕ, zero, ◌+◌, Bool, true, false, Option, none, some, List, [], ◌∷◌, ◌++◌, Text, codes, Result, ok,
  err, ◌>>=◌, ◌>>◌, ◌==◌, if◌then◌else◌, map, length,
}
use pglance.Base.Int.{ℤ, pos, negsuc, wrap_i64, clamp_i64, ◌+ℤ◌, ◌-ℤ◌}
use pglance.Base.Map.{ord_ℕ, cmp_list}
use Prim.Native.Nat.{compare, Ordering}
use pglance.Convert.External.{Json, Jsons, Members, end, member, string, number, bool, array}
use pglance.Maintenance.{Failure, error, panic, Outcome, context, in_runtime, opening, map_option}
use pglance.Maintenance.Vacuum.{Clock, CleanupPolicy, VacuumArgs, RemovalStats}

-- `lance_rs::datatypes::Field`, with its type as it is printed and its metadata as JSON.
mutual
  pub data LanceField : Type 0 where
    field : Text → ℤ → ℤ → Text → Bool → Json → LanceFields → LanceField

  pub data LanceFields : Type 0 where
    nil : LanceFields
    cons : LanceField → LanceFields → LanceFields

-- `(field_path, field_id, parent_id, field_name, data_type, nullable, metadata)`
pub record TableFieldRow : Type 0 where
  pub field_path : Text
  pub field_id : ℤ
  pub parent_id : ℤ
  pub field_name : Text
  pub data_type : Text
  pub nullable : Bool
  pub metadata : Text

abbrev pub path_of : Option Text → Text → Text
path_of none name = name
path_of (some parent) name = parent ++ (b'.' ∷ name)

-- `field_json`: an object, whose members serde_json keeps in the order of their keys.
unfoldable mutual
  pub field_json : LanceField → Json
  field_json (field name id parent_id data_type nullable metadata children) = Json.object (
      member (codes "children") (array (fields_json children)) (
        member (codes "data_type") (string data_type) (
          member (codes "id") (number id) (
            member (codes "metadata") metadata (
              member (codes "name") (string name) (
                member (codes "nullable") (bool nullable)
                  (member (codes "parent_id") (number parent_id) end)))))))

  pub fields_json : LanceFields → Jsons
  fields_json nil = Jsons.nil
  fields_json (cons f fs) = Jsons.cons (field_json f) (fields_json fs)

-- `schema_json`, of the fields and the metadata of a schema.
abbrev pub schema_json : LanceFields → Json → Json
schema_json fields metadata =
    Json.object (
      member (codes "fields") (array (fields_json fields)) (member (codes "metadata") metadata end))

-- `collect_field_rows`, and its loops over fields. `print` is `to_string` of serde_json.
module _ (print : Json → Text) where
  unfoldable mutual
    pub collect_field_rows : LanceField → Option Text → List TableFieldRow → List TableFieldRow
    collect_field_rows (field name id parent_id data_type nullable metadata children) parent_path
          rows =
        collect_fields children (some (path_of parent_path name)) (
          rows
          ++ (record {
            field_path = path_of parent_path name;
            field_id = id;
            parent_id = parent_id;
            field_name = name;
            data_type = data_type;
            nullable = nullable;
            metadata = print metadata;
          }
              ∷ []))

    pub collect_fields : LanceFields → Option Text → List TableFieldRow → List TableFieldRow
    collect_fields nil parent_path rows = rows
    collect_fields (cons f fs) parent_path rows =
        collect_fields fs parent_path (collect_field_rows f parent_path rows)

-- A fragment of the table format.
pub record Fragment : Type 0 where
  pub id : ℕ
  pub physical_rows : Option ℕ
  pub num_rows : Option ℕ
  pub files : ℕ
  pub has_deletion_file : Bool
  pub details : Text

pub record FragmentRow : Type 0 where
  pub fragment_id : ℤ
  pub physical_rows : Option ℤ
  pub logical_rows : Option ℤ
  pub data_files : ℤ
  pub has_deletions : Bool
  pub details : Text

abbrev pub as_i64 : ℕ → ℤ
as_i64 n = wrap_i64 (pos n)

unfoldable pub fragment_rows : List Fragment → List FragmentRow
fragment_rows [] = []
fragment_rows (f ∷ fs) =
    record {
      fragment_id = as_i64 f.id;
      physical_rows = map_option as_i64 f.physical_rows;
      logical_rows = map_option as_i64 f.num_rows;
      data_files = as_i64 f.files;
      has_deletions = f.has_deletion_file;
      details = f.details;
    }
    ∷ fragment_rows fs

-- The counters of `lance_fragment_stats_impl`.
pub record FragmentCounts : Type 0 where
  pub fragment_count : ℤ
  pub physical_rows : ℤ
  pub logical_rows : ℤ
  pub deletion_files : ℤ

-- `total += rows as i64`, which wraps around.
abbrev pub add_given : ℤ → Option ℕ → ℤ
add_given total none = total
add_given total (some rows) = wrap_i64 (total +ℤ as_i64 rows)

abbrev pub add_if : Bool → ℤ → ℤ
add_if true total = wrap_i64 (total +ℤ pos 1)
add_if false total = total

-- The loop over the fragments.
unfoldable pub count_fragments : FragmentCounts → List Fragment → FragmentCounts
count_fragments c [] = c
count_fragments c (f ∷ fs) =
    count_fragments
      (record {
        fragment_count = wrap_i64 (c.fragment_count +ℤ pos 1);
        physical_rows = add_given c.physical_rows f.physical_rows;
        logical_rows = add_given c.logical_rows f.num_rows;
        deletion_files = add_if f.has_deletion_file c.deletion_files;
      })
      fs

abbrev pub no_fragments : FragmentCounts
no_fragments = record {
  fragment_count = pos 0;
  physical_rows = pos 0;
  logical_rows = pos 0;
  deletion_files = pos 0;
}

-- The division of two floats is a parameter; the average is left as its arguments where there is one.
pub record FragmentStatsRow : Type 0 where
  pub fragments : ℤ
  pub physical_rows : ℤ
  pub logical_rows : ℤ
  pub deleted_rows : ℤ
  pub avg_rows_per_fragment : Option (ℤ × ℤ)
  pub fragments_with_deletions : ℤ

-- `logical_rows as f64 / fragment_count as f64`; `none` is the constant 0.0.
abbrev pub average : ℤ → ℤ → Option (ℤ × ℤ)
average total (pos zero) = none
average total count = some (total, count)

unfoldable pub fragment_stats : List Fragment → FragmentStatsRow
fragment_stats fragments =
    let c = count_fragments no_fragments fragments in
    record {
      fragments = c.fragment_count;
      physical_rows = c.physical_rows;
      logical_rows = c.logical_rows;
      deleted_rows = clamp_i64 (c.physical_rows -ℤ c.logical_rows);
      avg_rows_per_fragment = average c.logical_rows c.fragment_count;
      fragments_with_deletions = c.deletion_files;
    }
