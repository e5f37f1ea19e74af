-- ===== src/Write.antt =====
-- src/write/pg_to_arrow.rs: the Arrow types of the columns of a source query, and their overrides.
-- An error is a constructor with what its message shows.
pub mod Builder
pub mod Rows
pub mod Types
pub mod Cells
pub mod Chunks
pub mod Batches
pub mod Cursor
pub mod Append
pub mod MergeInsert
pub mod Micros
pub mod Samples
pub mod Tests
use pglance.Base.{
  ℕ, Bool, true, false, ◌||◌, Option, none, some, List, [], ◌∷◌, Text, codes, Result, ok, err,
  ◌>>=◌, ◌==◌, if◌then◌else◌, text_eq, map,
}
use pglance.Naming.{to_ascii_lowercase}
use pglance.Arrow.{
  DataType, Field, Fields, boolean, int16, int32, int64, float32, float64, utf8, binary, date32,
  timestamp, microsecond, new, nil, cons,
}
use pglance.Convert.External.{Json, Members, end, member}
use pglance.Convert.{
  bool_oid, bytea_oid, int8_oid, int2_oid, int4_oid, text_oid, float4_oid, float8_oid, date_oid,
  timestamp_oid, timestamptz_oid, numeric_oid, jsonb_oid,
}

pub data WriteError : Type 0 where
  unsupported_override unknown_column override_not_string : Text → WriteError
  unsupported_pg_type : ℕ → WriteError
  no_columns overrides_not_object : WriteError
  unsupported_builder : DataType → WriteError
  index_out_of_bounds : WriteError
  record_batch lance : Text → WriteError
  buffer_limit : ℕ → ℕ → WriteError
  invalid_mode invalid_when_matched invalid_when_not_matched : Text → WriteError
  empty_on_columns : WriteError
  not_in_source not_in_lance : Text → List Text → WriteError

abbrev pub Write {ℓ} : Type ℓ → Type ℓ
Write A = Result WriteError A

abbrev pub varchar_oid : ℕ
varchar_oid = 1043

abbrev pub uuid_oid : ℕ
uuid_oid = 2950

abbrev pub json_oid : ℕ
json_oid = 114

abbrev pub utc : Option Text
utc = some (codes "UTC")

-- The arms of a match on strings: the type of the first list that holds the name.
abbrev pub is_one_of : Text → List Text → Bool
is_one_of t [] = false
is_one_of t (name ∷ names) = text_eq t name || is_one_of t names

unfoldable pub match_name : Text → List (List Text × DataType) → Option DataType
match_name t [] = none
match_name t ((names, d) ∷ arms) =
    let later = match_name t arms in if is_one_of t names then some d else later

abbrev pub type_names : List (List Text × DataType)
type_names =
    (codes "bool" ∷ codes "boolean" ∷ [], boolean)
    ∷ (codes "int2" ∷ codes "int16" ∷ [], int16)
    ∷ (codes "int4" ∷ codes "int32" ∷ [], int32)
    ∷ (codes "int8" ∷ codes "int64" ∷ [], int64)
    ∷ (codes "float4" ∷ codes "float32" ∷ [], float32)
    ∷ (codes "float8" ∷ codes "float64" ∷ [], float64)
    ∷ (codes "text" ∷ codes "utf8" ∷ codes "json_text" ∷ codes "jsonb_text" ∷ [], utf8)
    ∷ (codes "bytea" ∷ codes "binary" ∷ [], binary)
    ∷ (codes "date32" ∷ codes "date_days" ∷ [], date32)
    ∷ (codes "timestamp" ∷ codes "timestamp_us" ∷ [], timestamp microsecond none)
    ∷ (codes "timestamptz" ∷ codes "timestamp_us_utc" ∷ [], timestamp microsecond utc)
    ∷ []

abbrev pub or_err {ℓ} : {A : Type ℓ} → Option A → WriteError → Write A
or_err none e = err e
or_err (some a) e = ok a

unfoldable pub parse_arrow_type_name : Text → Write DataType
parse_arrow_type_name type_name =
    let lower = map to_ascii_lowercase type_name in
    or_err (match_name lower type_names) (unsupported_override lower)

-- The map is ordered by its keys, as the members of the JSON object are.
abbrev pub ArrowTypeOverrides : Type 0
ArrowTypeOverrides = List (Text × DataType)

abbrev pub as_str : Json → Option Text
as_str (Json.string s) = some s
as_str _ = none

-- The loop over the members of the object.
unfoldable pub parse_members : Members → Write ArrowTypeOverrides
parse_members end = ok []
parse_members (member column ty rest) = do
  type_name ← or_err (as_str ty) (override_not_string column)
  d ← parse_arrow_type_name type_name
  overrides ← parse_members rest
  ok ((column, d) ∷ overrides)

unfoldable pub parse_arrow_type_overrides : Json → Write ArrowTypeOverrides
parse_arrow_type_overrides (Json.object members) = parse_members members
parse_arrow_type_overrides _ = err overrides_not_object

abbrev pub oid_types : List (ℕ × DataType)
oid_types =
    (bool_oid, boolean)
    ∷ (int2_oid, int16)
    ∷ (int4_oid, int32)
    ∷ (int8_oid, int64)
    ∷ (float4_oid, float32)
    ∷ (float8_oid, float64)
    ∷ (numeric_oid, utf8)
    ∷ (text_oid, utf8)
    ∷ (varchar_oid, utf8)
    ∷ (uuid_oid, utf8)
    ∷ (bytea_oid, binary)
    ∷ (date_oid, date32)
    ∷ (timestamp_oid, timestamp microsecond none)
    ∷ (timestamptz_oid, timestamp microsecond utc)
    ∷ (jsonb_oid, utf8)
    ∷ (json_oid, utf8)
    ∷ []

-- The arms of a match on OIDs.
unfoldable pub match_oid : ℕ → List (ℕ × DataType) → Option DataType
match_oid oid [] = none
match_oid oid ((o, d) ∷ arms) = let later = match_oid oid arms in if oid == o then some d else later

unfoldable pub pg_oid_to_arrow_type : ℕ → Write DataType
pg_oid_to_arrow_type oid = or_err (match_oid oid oid_types) (unsupported_pg_type oid)

pub record SpiColumnInfo : Type 0 where
  pub name : Text
  pub pg_oid : ℕ
  pub arrow_type : DataType

unfoldable pub build_arrow_schema : List SpiColumnInfo → Fields
build_arrow_schema [] = nil
build_arrow_schema (c ∷ cs) = cons (new c.name c.arrow_type true) (build_arrow_schema cs)

-- `iter_mut().find(|info| info.name == *column)`, and the assignment to what is found.
unfoldable pub set_arrow_type : Text → DataType → List SpiColumnInfo → Option (List SpiColumnInfo)
set_arrow_type column d [] = none
set_arrow_type column d (c ∷ cs) =
    let later = set_arrow_type column d cs in
    if text_eq c.name column
    then some (record { name = c.name; pg_oid = c.pg_oid; arrow_type = d } ∷ cs)
    else elim later [ none ↦ none | some rest ↦ some (c ∷ rest) ]

unfoldable pub apply_arrow_type_overrides :
    List SpiColumnInfo → ArrowTypeOverrides → Write (List SpiColumnInfo)
apply_arrow_type_overrides columns [] = ok columns
apply_arrow_type_overrides columns ((column, arrow_type) ∷ overrides) = do
  cs ← or_err (set_arrow_type column arrow_type columns) (unknown_column column)
  apply_arrow_type_overrides cs overrides

-- The loop of `extract_spi_columns` over the names and OIDs of a tuple table.
unfoldable pub column_infos : List (Text × ℕ) → Write (List SpiColumnInfo)
column_infos [] = ok []
column_infos ((name, oid) ∷ rest) = do
  d ← pg_oid_to_arrow_type oid
  cs ← column_infos rest
  ok (record { name = name; pg_oid = oid; arrow_type = d } ∷ cs)

abbrev pub extract_spi_columns : List (Text × ℕ) → Write (List SpiColumnInfo)
extract_spi_columns [] = err no_columns
extract_spi_columns (c ∷ cs) = column_infos (c ∷ cs)
