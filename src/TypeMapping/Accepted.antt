-- ===== src/TypeMapping/Accepted.antt =====
-- src/fdw/type_mapping.rs against src/fdw/convert.rs: the types that tables are created with, and
-- those that a scan accepts.
use pglance.Base.{
  ◌≡◌, refl, Bool-cases, inl, inr, ℕ, false, none, some, ◌++◌, Text, codes, ok, ◌==◌,
}
use pglance.Arrow.{
  DataType, Field, boolean, int8, int16, int32, int64, uint8, uint16, uint32, uint64, float16,
  float32, float64, utf8, large_utf8, binary, large_binary, date32, date64, fixed_size_binary,
  timestamp, decimal128, decimal256, list, large_list, fixed_size_list, struct, map_of, dictionary,
  other, new,
}
use pglance.Convert.{
  Catalog, bool_oid, bytea_oid, int8_oid, int2_oid, int4_oid, text_oid, float4_oid, float8_oid,
  date_oid, timestamp_oid, timestamptz_oid, numeric_oid, jsonb_oid, invalid_oid, check_list,
  require_target_oid, validate_arrow_type_for_pg_oid, validate_field,
}
use pglance.TypeMapping.{Tables, pg_type_for_type, pg_type_for_arrow, array_of}

-- PostgreSQL's names of its own types, with their OIDs.
pub data Builtin : Text → ℕ → Type 0 where
  bool : Builtin (codes "boolean") bool_oid
  int2 : Builtin (codes "int2") int2_oid
  int4 : Builtin (codes "int4") int4_oid
  bigint : Builtin (codes "int8") int8_oid
  float4 : Builtin (codes "float4") float4_oid
  float8 : Builtin (codes "float8") float8_oid
  text : Builtin (codes "text") text_oid
  bytea : Builtin (codes "bytea") bytea_oid
  date : Builtin (codes "date") date_oid
  timestamptz : Builtin (codes "timestamptz") timestamptz_oid
  plain_timestamp : Builtin (codes "timestamp") timestamp_oid
  numeric : Builtin (codes "numeric") numeric_oid
  jsonb : Builtin (codes "jsonb") jsonb_oid

-- `oid_of` resolves a type's name as PostgreSQL does, arrays included.
pub record Resolves (cat : Catalog) (oid_of : Text → ℕ) : Type 0 where
  pub builtin : {name : Text} {oid : ℕ} → Builtin name oid → oid_of name ≡ oid
  pub array :
      {name : Text} {oid : ℕ}
      → Builtin name oid
      → cat.element_type (oid_of (name ++ codes "[]")) ≡ oid

Builtin-valid : {name : Text} {oid : ℕ} → Builtin name oid → (oid == invalid_oid) ≡ false
Builtin-valid bool = refl
Builtin-valid int2 = refl
Builtin-valid int4 = refl
Builtin-valid bigint = refl
Builtin-valid float4 = refl
Builtin-valid float8 = refl
Builtin-valid text = refl
Builtin-valid bytea = refl
Builtin-valid date = refl
Builtin-valid timestamptz = refl
Builtin-valid plain_timestamp = refl
Builtin-valid numeric = refl
Builtin-valid jsonb = refl

-- No list and no struct.
abbrev pub IsScalar : DataType → Type 0
IsScalar (list elem) = ⊥
IsScalar (large_list elem) = ⊥
IsScalar (fixed_size_list elem n) = ⊥
IsScalar (struct fields) = ⊥
IsScalar (dictionary key value) = IsScalar value
IsScalar _ = Unit

abbrev pub IsScalarField : Field → Type 0
IsScalarField (new name d nullable) = IsScalar d

-- Scalars, lists of scalars, and dictionaries of these.
abbrev pub IsFlat : DataType → Type 0
IsFlat (list elem) = IsScalarField elem
IsFlat (large_list elem) = IsScalarField elem
IsFlat (fixed_size_list elem n) = IsScalarField elem
IsFlat (struct fields) = ⊥
IsFlat (dictionary key value) = IsFlat value
IsFlat _ = Unit

module _ (cat : Catalog) (table : Text) where
  -- The type of a scalar is one of PostgreSQL's own, and the one that the check asks for.
  abbrev ScalarType : DataType → Type 0
  ScalarType d =
      (name : Text) × (oid : ℕ) × Builtin name oid
      × ((path : Text) (t : Tables) → pg_type_for_type table d path t ≡ ok (name, t))
      × (validate_arrow_type_for_pg_oid cat d oid ≡ ok tt)

  scalar_lem : (d : DataType) → IsScalar d → ScalarType d
  unfolding pg_type_for_type validate_arrow_type_for_pg_oid require_target_oid
  scalar_lem boolean h = (_, _, bool, λ path t. refl, refl)
  scalar_lem int8 h = (_, _, int2, λ path t. refl, refl)
  scalar_lem uint8 h = (_, _, int2, λ path t. refl, refl)
  scalar_lem int16 h = (_, _, int2, λ path t. refl, refl)
  scalar_lem uint16 h = (_, _, int4, λ path t. refl, refl)
  scalar_lem int32 h = (_, _, int4, λ path t. refl, refl)
  scalar_lem uint32 h = (_, _, bigint, λ path t. refl, refl)
  scalar_lem int64 h = (_, _, bigint, λ path t. refl, refl)
  scalar_lem uint64 h = (_, _, bigint, λ path t. refl, refl)
  scalar_lem float16 h = (_, _, float4, λ path t. refl, refl)
  scalar_lem float32 h = (_, _, float4, λ path t. refl, refl)
  scalar_lem float64 h = (_, _, float8, λ path t. refl, refl)
  scalar_lem utf8 h = (_, _, text, λ path t. refl, refl)
  scalar_lem large_utf8 h = (_, _, text, λ path t. refl, refl)
  scalar_lem binary h = (_, _, bytea, λ path t. refl, refl)
  scalar_lem large_binary h = (_, _, bytea, λ path t. refl, refl)
  scalar_lem (fixed_size_binary n) h = (_, _, bytea, λ path t. refl, refl)
  scalar_lem date32 h = (_, _, date, λ path t. refl, refl)
  scalar_lem date64 h = (_, _, date, λ path t. refl, refl)
  scalar_lem (timestamp u (some tz)) h = (_, _, timestamptz, λ path t. refl, refl)
  scalar_lem (timestamp u none) h = (_, _, plain_timestamp, λ path t. refl, refl)
  scalar_lem (decimal128 p s) h = (_, _, numeric, λ path t. refl, refl)
  scalar_lem (decimal256 p s) h = (_, _, numeric, λ path t. refl, refl)
  scalar_lem (list elem) h = absurd h
  scalar_lem (large_list elem) h = absurd h
  scalar_lem (fixed_size_list elem n) h = absurd h
  scalar_lem (struct fields) h = absurd h
  scalar_lem (map_of entries sorted) h = (_, _, jsonb, λ path t. refl, refl)
  scalar_lem (dictionary key value) h =
      let (name, oid, known, mapped, accepted) = scalar_lem value h in
      (name, oid, known, λ path t. mapped (path ++ codes "_dict") t, accepted)
  scalar_lem (other name) h = (_, _, jsonb, λ path t. refl, refl)

  module _ (oid_of : Text → ℕ) (pg : Resolves cat oid_of) where
    -- `d` is mapped to a type that the check accepts for it.
    abbrev Accepted : DataType → Text → Tables → Type 0
    Accepted d path t =
        (name : Text) × (pg_type_for_type table d path t ≡ ok (name, t))
        × (validate_arrow_type_for_pg_oid cat d (oid_of name) ≡ ok tt)

    scalar-Accepted : (d : DataType) → IsScalar d → (path : Text) (t : Tables) → Accepted d path t
    scalar-Accepted d h path t =
        let (name, oid, known, mapped, accepted) = scalar_lem d h in
        (name, mapped path t, rw (pg.builtin known) accepted)

    -- The arm of the lists, for elements that are scalars.
    list_lem :
        (elem : Field)
        → IsScalarField elem
        → (path : Text) (t : Tables)
        → (name : Text) × (array_of (pg_type_for_arrow table elem path t) ≡ ok (name, t))
          × (check_list cat (validate_field cat elem) (oid_of name) ≡ ok tt)
    unfolding pg_type_for_type validate_arrow_type_for_pg_oid
    list_lem (new n d nullable) h path t =
        let (name, oid, known, mapped, accepted) = scalar_lem d h in
        let target = oid_of (name ++ codes "[]") in
        (
          name ++ codes "[]",
          rw (mapped path t) refl,
          elim (Bool-cases (target == jsonb_oid)) [
            | inl e ↦ rw e refl
            | inr e ↦ rw (e, pg.array known, Builtin-valid known) accepted
          ],
        )

    -- A table that is created for a dataset can be scanned, as far as its flat columns go: the type that
    -- the mapping gives a scalar, a list of scalars or a dictionary of these is accepted for it by the
    -- check at the beginning of a scan, when PostgreSQL resolves its own type names as documented.
    pub pg_type_for_type-Accepted :
        (d : DataType)
        → IsFlat d
        → (path : Text) (t : Tables)
        → (name : Text) × (pg_type_for_type table d path t ≡ ok (name, t))
          × (validate_arrow_type_for_pg_oid cat d (oid_of name) ≡ ok tt)
    unfolding pg_type_for_type validate_arrow_type_for_pg_oid
    pg_type_for_type-Accepted (list elem) h path t = list_lem elem h _ t
    pg_type_for_type-Accepted (large_list elem) h path t = list_lem elem h _ t
    pg_type_for_type-Accepted (fixed_size_list elem n) h path t = list_lem elem h _ t
    pg_type_for_type-Accepted (struct fields) h path t = absurd h
    pg_type_for_type-Accepted (dictionary key value) h path t =
        pg_type_for_type-Accepted value h _ t
    pg_type_for_type-Accepted d h path t = scalar-Accepted d h path t
