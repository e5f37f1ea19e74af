-- ===== src/Convert.antt =====
-- src/fdw/convert.rs: the errors of a conversion, and which PostgreSQL types an Arrow type fits.
pub mod Arrays
pub mod External
pub mod Scalars
pub mod Json
pub mod Datum
pub mod Nested
pub mod Mismatch
pub mod JsonMismatch
pub mod Checked
pub mod Samples
pub mod Tests
use pglance.Base.{
  ℕ, Bool, true, false, Option, none, some, List, [], ◌∷◌, ◌++◌, Text, codes, Result, ok, err,
  ◌>>=◌, ◌>>◌, ◌==◌, if◌then◌else◌, text_eq,
}
use pglance.Arrow.{
  DataType, Field, Fields, boolean, int8, int16, int32, int64, uint8, uint16, uint32, uint64,
  float16, float32, float64, utf8, large_utf8, binary, large_binary, date32, date64,
  fixed_size_binary, timestamp, decimal128, decimal256, list, large_list, fixed_size_list, struct,
  map_of, dictionary, other, new, nil, cons,
}

pub data ConvertErrorKind : Type 0 where
  type_mismatch unsupported_type value_out_of_range internal : ConvertErrorKind

pub record ConvertError : Type 0 where
  pub kind : ConvertErrorKind
  pub message : Text

-- A conversion ends with a value, with an error, or in a Rust panic (an index out of bounds).
pub data Failure : Type 0 where
  convert_error : ConvertError → Failure
  panic : Failure

abbrev pub Conv {ℓ} : Type ℓ → Type ℓ
Conv A = Result Failure A

abbrev pub fail {ℓ} : {A : Type ℓ} → ConvertErrorKind → Text → Conv A
fail kind message = err (convert_error (record { kind = kind; message = message }))

-- `option.ok_or_else(|| ConvertError::…(message))`
abbrev pub ok_or {ℓ} : {A : Type ℓ} → Option A → ConvertErrorKind → Text → Conv A
ok_or none kind message = fail kind message
ok_or (some a) kind message = ok a

-- The OIDs of PostgreSQL's catalog.
abbrev pub invalid_oid : ℕ
invalid_oid = 0

abbrev pub bool_oid : ℕ
bool_oid = 16

abbrev pub bytea_oid : ℕ
bytea_oid = 17

abbrev pub int8_oid : ℕ
int8_oid = 20

abbrev pub int2_oid : ℕ
int2_oid = 21

abbrev pub int4_oid : ℕ
int4_oid = 23

abbrev pub text_oid : ℕ
text_oid = 25

abbrev pub float4_oid : ℕ
float4_oid = 700

abbrev pub float8_oid : ℕ
float8_oid = 701

abbrev pub date_oid : ℕ
date_oid = 1082

abbrev pub timestamp_oid : ℕ
timestamp_oid = 1114

abbrev pub timestamptz_oid : ℕ
timestamptz_oid = 1184

abbrev pub numeric_oid : ℕ
numeric_oid = 1700

abbrev pub jsonb_oid : ℕ
jsonb_oid = 3802

pub record Attr : Type 0 where
  pub attname : Text
  pub atttypid : ℕ
  pub attisdropped : Bool

-- What the program asks PostgreSQL about types: `get_element_type`, and `lookup_type_cache` for the
-- attributes of a composite type.
pub record Catalog : Type 0 where
  pub element_type : ℕ → ℕ
  pub tupdesc : ℕ → Option (List Attr)

unfoldable pub require_target_oid : ℕ → ℕ → Text → Conv (Unit {0})
require_target_oid target expected message =
    if target == expected then ok tt else fail type_mismatch message

-- The loop over the attributes of a composite type, with the check of one named field.
unfoldable pub check_attrs : (Text → ℕ → Conv (Unit {0})) → List Attr → Conv (Unit {0})
check_attrs check [] = ok tt
check_attrs check (a ∷ rest) =
    if a.attisdropped
    then check_attrs check rest
    else check a.attname a.atttypid >>= λ _. check_attrs check rest

abbrev pub check_tupdesc : (Text → ℕ → Conv (Unit {0})) → Option (List Attr) → Conv (Unit {0})
check_tupdesc check none =
    fail type_mismatch (codes "arrow struct requires postgres composite type")
check_tupdesc check (some attrs) = check_attrs check attrs

module _ (cat : Catalog) where
  -- The arm of the list types, with the check of the elements.
  abbrev pub check_list : (ℕ → Conv (Unit {0})) → ℕ → Conv (Unit {0})
  check_list check target =
      if target == jsonb_oid
      then ok tt
      else if cat.element_type target == invalid_oid
      then fail type_mismatch (codes "arrow list requires postgres array (or jsonb)")
      else check (cat.element_type target)

  unfoldable mutual
    pub validate_arrow_type_for_pg_oid : DataType → ℕ → Conv (Unit {0})
    validate_arrow_type_for_pg_oid boolean target =
        require_target_oid target bool_oid (codes "arrow boolean requires postgres boolean")
    validate_arrow_type_for_pg_oid int8 target =
        require_target_oid target int2_oid (codes "arrow int8/uint8/int16 requires postgres int2")
    validate_arrow_type_for_pg_oid uint8 target =
        require_target_oid target int2_oid (codes "arrow int8/uint8/int16 requires postgres int2")
    validate_arrow_type_for_pg_oid int16 target =
        require_target_oid target int2_oid (codes "arrow int8/uint8/int16 requires postgres int2")
    validate_arrow_type_for_pg_oid uint16 target =
        require_target_oid target int4_oid (codes "arrow uint16/int32 requires postgres int4")
    validate_arrow_type_for_pg_oid int32 target =
        require_target_oid target int4_oid (codes "arrow uint16/int32 requires postgres int4")
    validate_arrow_type_for_pg_oid uint32 target =
        require_target_oid target int8_oid
          (codes "arrow uint32/int64/uint64 requires postgres int8")
    validate_arrow_type_for_pg_oid int64 target =
        require_target_oid target int8_oid
          (codes "arrow uint32/int64/uint64 requires postgres int8")
    validate_arrow_type_for_pg_oid uint64 target =
        require_target_oid target int8_oid
          (codes "arrow uint32/int64/uint64 requires postgres int8")
    validate_arrow_type_for_pg_oid float16 target =
        require_target_oid target float4_oid
          (codes "arrow float16/float32 requires postgres float4")
    validate_arrow_type_for_pg_oid float32 target =
        require_target_oid target float4_oid
          (codes "arrow float16/float32 requires postgres float4")
    validate_arrow_type_for_pg_oid float64 target =
        require_target_oid target float8_oid (codes "arrow float64 requires postgres float8")
    validate_arrow_type_for_pg_oid utf8 target =
        require_target_oid target text_oid (codes "arrow utf8 requires postgres text")
    validate_arrow_type_for_pg_oid large_utf8 target =
        require_target_oid target text_oid (codes "arrow utf8 requires postgres text")
    validate_arrow_type_for_pg_oid binary target =
        require_target_oid target bytea_oid (codes "arrow binary requires postgres bytea")
    validate_arrow_type_for_pg_oid large_binary target =
        require_target_oid target bytea_oid (codes "arrow binary requires postgres bytea")
    validate_arrow_type_for_pg_oid (fixed_size_binary n) target =
        require_target_oid target bytea_oid (codes "arrow binary requires postgres bytea")
    validate_arrow_type_for_pg_oid date32 target =
        require_target_oid target date_oid (codes "arrow date requires postgres date")
    validate_arrow_type_for_pg_oid date64 target =
        require_target_oid target date_oid (codes "arrow date requires postgres date")
    validate_arrow_type_for_pg_oid (timestamp u (some tz)) target =
        require_target_oid target timestamptz_oid
          (codes "arrow timestamp with timezone requires postgres timestamptz")
    validate_arrow_type_for_pg_oid (timestamp u none) target =
        require_target_oid target timestamp_oid
          (codes "arrow timestamp without timezone requires postgres timestamp")
    validate_arrow_type_for_pg_oid (decimal128 p s) target =
        require_target_oid target numeric_oid (codes "arrow decimal requires postgres numeric")
    validate_arrow_type_for_pg_oid (decimal256 p s) target =
        require_target_oid target numeric_oid (codes "arrow decimal requires postgres numeric")
    validate_arrow_type_for_pg_oid (dictionary key value) target =
        validate_arrow_type_for_pg_oid value target
    validate_arrow_type_for_pg_oid (list elem) target = check_list (validate_field elem) target
    validate_arrow_type_for_pg_oid (large_list elem) target =
        check_list (validate_field elem) target
    validate_arrow_type_for_pg_oid (fixed_size_list elem n) target =
        check_list (validate_field elem) target
    validate_arrow_type_for_pg_oid (struct fields) target =
        check_tupdesc (validate_named fields) (cat.tupdesc target)
    validate_arrow_type_for_pg_oid (map_of entries sorted) target =
        require_target_oid target jsonb_oid (codes "arrow map requires postgres jsonb")
    validate_arrow_type_for_pg_oid (other name) target =
        require_target_oid target jsonb_oid (codes "unsupported arrow type requires postgres jsonb")

    -- `elem.data_type()` against the element's type.
    pub validate_field : Field → ℕ → Conv (Unit {0})
    validate_field (new name data_type nullable) target =
        validate_arrow_type_for_pg_oid data_type target

    -- `fields.iter().find(|f| f.name() == &name)`, and the check of what is found.
    pub validate_named : Fields → Text → ℕ → Conv (Unit {0})
    validate_named nil name target = fail type_mismatch (codes "missing struct field: " ++ name)
    validate_named (cons (new n data_type nullable) fs) name target =
        let here = validate_arrow_type_for_pg_oid data_type target in
        let later = validate_named fs name target in if text_eq n name then here else later
