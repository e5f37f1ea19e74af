-- ===== src/TypeMapping.antt =====
-- src/fdw/type_mapping.rs: the PostgreSQL types of the columns of a dataset.
pub mod Columns
pub mod Shape
pub mod Accepted
pub mod Tests
use pglance.Base.{
  ℕ, ◌+◌, Bool, true, false, ◌&&◌, ◌||◌, Option, none, some, List, [], ◌∷◌, ◌++◌, Text, codes,
  Result, ok, err, ◌>>=◌, ◌==◌, leb, if◌then◌else◌, map, take,
}
use pglance.Base.Map.{lookup, insert, ord_ℕ, ord_list}
use pglance.Naming.{to_ascii_lowercase, is_digit}
use pglance.Ddl.{CompositeTypeDef}
use pglance.Arrow.{
  TimeUnit, DataType, Field, Fields, boolean, int8, int16, int32, int64, uint8, uint16, uint32,
  uint64, float16, float32, float64, utf8, large_utf8, binary, large_binary, date32, date64,
  fixed_size_binary, timestamp, decimal128, decimal256, list, large_list, fixed_size_list, struct,
  map_of, dictionary, other, new, nil, cons, field_name,
}

pub record SchemaMapping : Type 0 where
  pub composite_types : List CompositeTypeDef
  pub column_types : List (Text × Text)

-- `composites` and `seen`, which the walk over a type extends.
pub record Tables : Type 0 where
  pub composites : List (Text × CompositeTypeDef)
  pub seen : List (Text × Unit {0})

abbrev pub no_tables : Tables
no_tables = record { composites = []; seen = [] }

-- `c.is_ascii_alphanumeric() || c == '_'`, or an underscore in its place
unfoldable pub name_char : ℕ → ℕ
unfolding is_digit
name_char c =
    if leb b'a' c && leb c b'z' || leb b'A' c && leb c b'Z' || is_digit c || c == b'_'
    then c
    else b'_'

-- After the `map` all characters are ASCII, so `name.len()` counts them.
unfoldable pub composite_type_name : Text → Text → Text
unfolding to_ascii_lowercase name_char
composite_type_name table path =
    take 60
      (map name_char (map to_ascii_lowercase (codes "lance_" ++ (table ++ (codes "_" ++ path)))))

abbrev pub Mapped : Type 0
Mapped = Result Text (Text × Tables)

-- `seen.insert(name)`: whether the name is new.
unfoldable pub is_new : Text → Tables → Bool
is_new name t = elim (lookup name t.seen) [ none ↦ true | some _ ↦ false ]

unfoldable pub see : Text → Tables → Tables
see name t = record t { seen = insert name tt t.seen }

unfoldable pub add_composite : Text → List (Text × Text) → Tables → Tables
add_composite name cols t = record t {
  composites = insert name (record { type_name = name; fields = cols }) t.composites;
}

-- The two results that are put together after the recursive call.
abbrev pub array_of : Mapped → Mapped
array_of m = do r ← m; ok (r.0 ++ codes "[]", r.1)

abbrev pub composite_of : Text → Result Text (List (Text × Text) × Tables) → Mapped
composite_of name m = do r ← m; ok (name, add_composite name r.0 r.1)

unfoldable mutual
  -- `pg_type_for_arrow` looks at nothing of its field but the type.
  pub pg_type_for_type : Text → DataType → Text → Tables → Mapped
  pg_type_for_type table boolean path t = ok (codes "boolean", t)
  pg_type_for_type table int8 path t = ok (codes "int2", t)
  pg_type_for_type table uint8 path t = ok (codes "int2", t)
  pg_type_for_type table int16 path t = ok (codes "int2", t)
  pg_type_for_type table uint16 path t = ok (codes "int4", t)
  pg_type_for_type table int32 path t = ok (codes "int4", t)
  pg_type_for_type table uint32 path t = ok (codes "int8", t)
  pg_type_for_type table int64 path t = ok (codes "int8", t)
  pg_type_for_type table uint64 path t = ok (codes "int8", t)
  pg_type_for_type table float16 path t = ok (codes "float4", t)
  pg_type_for_type table float32 path t = ok (codes "float4", t)
  pg_type_for_type table float64 path t = ok (codes "float8", t)
  pg_type_for_type table utf8 path t = ok (codes "text", t)
  pg_type_for_type table large_utf8 path t = ok (codes "text", t)
  pg_type_for_type table binary path t = ok (codes "bytea", t)
  pg_type_for_type table large_binary path t = ok (codes "bytea", t)
  pg_type_for_type table (fixed_size_binary n) path t = ok (codes "bytea", t)
  pg_type_for_type table date32 path t = ok (codes "date", t)
  pg_type_for_type table date64 path t = ok (codes "date", t)
  pg_type_for_type table (timestamp u (some tz)) path t = ok (codes "timestamptz", t)
  pg_type_for_type table (timestamp u none) path t = ok (codes "timestamp", t)
  pg_type_for_type table (decimal128 p s) path t = ok (codes "numeric", t)
  pg_type_for_type table (decimal256 p s) path t = ok (codes "numeric", t)
  pg_type_for_type table (list elem) path t =
      array_of (pg_type_for_arrow table elem (path ++ codes "_item") t)
  pg_type_for_type table (large_list elem) path t =
      array_of (pg_type_for_arrow table elem (path ++ codes "_item") t)
  pg_type_for_type table (fixed_size_list elem n) path t =
      array_of (pg_type_for_arrow table elem (path ++ codes "_item") t)
  pg_type_for_type table (struct fields) path t =
      let type_name = composite_type_name table path in
      let walked =
        composite_of type_name (pg_type_for_fields table fields path (see type_name t)) in
      if is_new type_name t then walked else ok (type_name, t)
  pg_type_for_type table (map_of entries sorted) path t = ok (codes "jsonb", t)
  pg_type_for_type table (dictionary key value) path t =
      pg_type_for_type table value (path ++ codes "_dict") t
  pg_type_for_type table (other name) path t = ok (codes "jsonb", t)

  pub pg_type_for_arrow : Text → Field → Text → Tables → Mapped
  pg_type_for_arrow table (new name data_type nullable) path t =
      pg_type_for_type table data_type path t

  -- The loop over the fields of a struct.
  pub pg_type_for_fields : Text → Fields → Text → Tables → Result Text (List (Text × Text) × Tables)
  pg_type_for_fields table nil path t = ok ([], t)
  pg_type_for_fields table (cons f fs) path t = do
    r ← pg_type_for_arrow table f (path ++ (codes "_" ++ field_name f)) t
    rest ← pg_type_for_fields table fs path r.1
    ok ((field_name f, r.0) ∷ rest.0, rest.1)

-- The loop of `build_schema_mapping` over the columns.
unfoldable pub map_columns : Text → List Field → Tables → Result Text (List (Text × Text) × Tables)
map_columns table [] t = ok ([], t)
map_columns table (f ∷ fs) t = do
  r ← pg_type_for_arrow table f (field_name f) t
  rest ← map_columns table fs r.1
  ok ((field_name f, r.0) ∷ rest.0, rest.1)

-- `composites.into_values()`
abbrev pub values {ℓ κ} : {K : Type ℓ} {V : Type κ} → List (K × V) → List V
values [] = []
values ((k, v) ∷ m) = v ∷ values m

unfoldable pub build_schema_mapping : Text → List Field → Result Text SchemaMapping
unfolding map_columns
build_schema_mapping table fields = do
  r ← map_columns table fields no_tables
  ok (record { composite_types = values r.1.composites; column_types = r.0 })
