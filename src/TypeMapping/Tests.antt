-- ===== src/TypeMapping/Tests.antt =====
-- src/fdw/type_mapping.rs: a struct of a struct, and the theorems at concrete columns.
use pglance.Base.{
  List, ℕ, none, ◌++◌, ◌==◌, if◌then◌else◌, text_eq, ◌≤◌, ◌≡◌, refl, inl, inr, true, [], ◌∷◌, Text,
  codes, ok, arith, map, replicate, length,
}
use mathlib.Core.List.{Memᴰ}
use pglance.Base.Map.{lookup}
use pglance.Arrow.{uint16, int32, utf8, Fields, list, struct, new, nil, cons}
use pglance.Naming.{to_ascii_lowercase, is_digit}
use pglance.TypeMapping.{
  name_char, SchemaMapping, Tables, no_tables, composite_type_name, build_schema_mapping,
  pg_type_for_arrow, pg_type_for_type, add_composite, see, is_new,
}
use pglance.TypeMapping.Columns.{build_schema_mapping_total}
use pglance.Convert.{Catalog, validate_arrow_type_for_pg_oid}
use pglance.TypeMapping.Accepted.{
  Builtin, bool, int2, int4, bigint, float4, float8, text, bytea, date, timestamptz,
  plain_timestamp, numeric, jsonb, pg_type_for_type-Accepted,
}
use pglance.TypeMapping.Shape.{long_name, nested_struct_self_reference, columns_share_composite}

build_schema_mapping_total_example :
    (m : SchemaMapping) × (build_schema_mapping
        (codes "t")
        (new (codes "a") (list (new (codes "x") int32 true)) true ∷ [])
      ≡ ok m)
    × (map (λ (c : Text × Text). c.0) m.column_types ≡ codes "a" ∷ [])
build_schema_mapping_total_example =
    build_schema_mapping_total (codes "t")
      (new (codes "a") (list (new (codes "x") int32 true)) true ∷ [])

-- A table's name of 63 characters, as long as PostgreSQL allows.
abbrev long_table : Text
long_table = replicate 63 b'a'

long_enough : 60 ≤ length (long_name long_table (codes "s"))
unfolding name_char to_ascii_lowercase is_digit
long_enough = omega arith

name_new : is_new (composite_type_name long_table (codes "s")) no_tables ≡ true
unfolding is_new lookup
name_new = refl

-- A struct with a number and an inner struct.
abbrev two_fields : Fields
two_fields =
    cons (new (codes "x") int32 true)
      (cons (new (codes "in") (struct (cons (new (codes "y") utf8 true) nil)) true) nil)

nested_struct_self_reference_example :
    (cols : List (Text × Text)) × (t' : Tables) × (pg_type_for_type long_table
        (struct two_fields)
        (codes "s")
        no_tables
      ≡ ok (
        composite_type_name long_table (codes "s"),
        add_composite (composite_type_name long_table (codes "s")) cols t',
      ))
    × Memᴰ (codes "in", composite_type_name long_table (codes "s")) cols
nested_struct_self_reference_example =
    nested_struct_self_reference long_table (codes "s") (codes "in") true
      (cons (new (codes "y") utf8 true) nil) two_fields no_tables long_enough name_new
      (inr (inl refl))

abbrev shared : Text × Tables
shared = (
  codes "lance_t_a_b",
  add_composite (codes "lance_t_a_b") ((codes "y", codes "text") ∷ [])
      (see (codes "lance_t_a_b") no_tables),
)

same_name :
    composite_type_name (codes "t") (codes "a.b") ≡ composite_type_name (codes "t") (codes "A_b")
unfolding composite_type_name name_char to_ascii_lowercase is_digit
same_name = refl

first_column :
    pg_type_for_arrow
      (codes "t")
      (new (codes "a.b") (struct (cons (new (codes "y") utf8 true) nil)) true)
      (codes "a.b")
      no_tables
    ≡ ok shared
unfolding pg_type_for_type is_new lookup composite_type_name name_char to_ascii_lowercase is_digit
first_column = refl

-- The second column has an integer, and gets the text of the first.
columns_share_composite_example :
    pg_type_for_arrow
      (codes "t")
      (new (codes "A_b") (struct (cons (new (codes "y") int32 true) nil)) true)
      (codes "A_b")
      shared.1
    ≡ ok shared
columns_share_composite_example =
    columns_share_composite (codes "t") (codes "a.b") (codes "A_b") true true
      (cons (new (codes "y") utf8 true) nil) (cons (new (codes "y") int32 true) nil) no_tables
      same_name shared first_column

-- PostgreSQL's own types with their OIDs and those of their arrays.
abbrev builtins : List (Text × ℕ × ℕ)
builtins =
    (codes "boolean", 16, 1000)
    ∷ (codes "int2", 21, 1005)
    ∷ (codes "int4", 23, 1007)
    ∷ (codes "int8", 20, 1016)
    ∷ (codes "float4", 700, 1021)
    ∷ (codes "float8", 701, 1022)
    ∷ (codes "text", 25, 1009)
    ∷ (codes "bytea", 17, 1001)
    ∷ (codes "date", 1082, 1182)
    ∷ (codes "timestamptz", 1184, 1185)
    ∷ (codes "timestamp", 1114, 1115)
    ∷ (codes "numeric", 1700, 1231)
    ∷ (codes "jsonb", 3802, 3807)
    ∷ []

abbrev oid_in : List (Text × ℕ × ℕ) → Text → ℕ
oid_in [] name = 0
oid_in ((n, oid, array) ∷ types) name =
    let later = oid_in types name in
    if text_eq name n then oid else if text_eq name (n ++ codes "[]") then array else later

abbrev element_in : List (Text × ℕ × ℕ) → ℕ → ℕ
element_in [] oid = 0
element_in ((n, elem, array) ∷ types) oid =
    let later = element_in types oid in if oid == array then elem else later

abbrev builtin_catalog : Catalog
builtin_catalog = record { element_type = element_in builtins; tupdesc = λ oid. none }

oid_in-Builtin : {name : Text} {oid : ℕ} → Builtin name oid → oid_in builtins name ≡ oid
unfolding text_eq
oid_in-Builtin bool = refl
oid_in-Builtin int2 = refl
oid_in-Builtin int4 = refl
oid_in-Builtin bigint = refl
oid_in-Builtin float4 = refl
oid_in-Builtin float8 = refl
oid_in-Builtin text = refl
oid_in-Builtin bytea = refl
oid_in-Builtin date = refl
oid_in-Builtin timestamptz = refl
oid_in-Builtin plain_timestamp = refl
oid_in-Builtin numeric = refl
oid_in-Builtin jsonb = refl

element_in-Builtin :
    {name : Text} {oid : ℕ}
    → Builtin name oid
    → element_in builtins (oid_in builtins (name ++ codes "[]")) ≡ oid
unfolding text_eq
element_in-Builtin bool = refl
element_in-Builtin int2 = refl
element_in-Builtin int4 = refl
element_in-Builtin bigint = refl
element_in-Builtin float4 = refl
element_in-Builtin float8 = refl
element_in-Builtin text = refl
element_in-Builtin bytea = refl
element_in-Builtin date = refl
element_in-Builtin timestamptz = refl
element_in-Builtin plain_timestamp = refl
element_in-Builtin numeric = refl
element_in-Builtin jsonb = refl

pg_type_for_type-Accepted_example :
    (name : Text) × (pg_type_for_type
        (codes "t")
        (list (new (codes "item") uint16 true))
        (codes "c")
        no_tables
      ≡ ok (name, no_tables))
    × (validate_arrow_type_for_pg_oid builtin_catalog
          (list (new (codes "item") uint16 true))
          (oid_in builtins name)
        ≡ ok tt)
pg_type_for_type-Accepted_example =
    pg_type_for_type-Accepted builtin_catalog (codes "t") (oid_in builtins)
      (record { builtin = oid_in-Builtin; array = element_in-Builtin })
      (list (new (codes "item") uint16 true)) tt (codes "c") no_tables
