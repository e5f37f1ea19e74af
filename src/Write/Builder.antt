-- ===== src/Write/Builder.antt =====
-- src/write/pg_to_arrow.rs: the builders of columns. What pgrx reads from a tuple is a parameter.
use pglance.Base.{
  ℕ, Bool, Option, none, some, List, [], ◌∷◌, ◌++◌, Text, ok, err, ◌==◌, if◌then◌else◌,
}
use pglance.Base.Int.{ℤ, pos, ◌+ℤ◌, wrap_i64}
use pglance.Arrow
use pglance.Arrow.{DataType, microsecond}
use pglance.Convert.{int4_oid, int8_oid, jsonb_oid, numeric_oid}
use pglance.Convert.Arrays
use pglance.Convert.Arrays.{Array, boolean_array, primitive_array, string_array, binary_array}
use pglance.Convert.Scalars.{unix_to_postgres_epoch_micros}
use pglance.Write.{Write, unsupported_builder, json_oid, uuid_oid, utc}

-- pgrx: `value::<T>()` of a datum for each `T` of the code. The outer option is `none` for `Err`,
-- the inner one for a null. A numeric, a uuid and the JSON types come as their printed text, a date
-- as its Unix day, a timestamp as the microseconds since PostgreSQL's epoch.
pub record Spi : Type 1 where
  pub SpiDatum : Type 0
  pub bool_value : SpiDatum → Option (Option Bool)
  pub i16_value : SpiDatum → Option (Option ℤ)
  pub i32_value : SpiDatum → Option (Option ℤ)
  pub i64_value : SpiDatum → Option (Option ℤ)
  pub f32_value : SpiDatum → Option (Option ℤ)
  pub f64_value : SpiDatum → Option (Option ℤ)
  pub numeric_value : SpiDatum → Option (Option Text)
  pub jsonb_value : SpiDatum → Option (Option Text)
  pub json_value : SpiDatum → Option (Option Text)
  pub uuid_value : SpiDatum → Option (Option Text)
  pub string_value : SpiDatum → Option (Option Text)
  pub bytes_value : SpiDatum → Option (Option (List ℕ))
  pub date_value : SpiDatum → Option (Option ℤ)
  pub timestamp_value : SpiDatum → Option (Option ℤ)
  pub timestamptz_value : SpiDatum → Option (Option ℤ)

-- Each builder with the cells appended so far.
pub data TypedBuilder : Type 0 where
  boolean : List (Option Bool) → TypedBuilder
  int16 int32 int64 float32 float64 : List (Option ℤ) → TypedBuilder
  utf8 : List (Option Text) → TypedBuilder
  binary : List (Option (List ℕ)) → TypedBuilder
  date32 timestamp_micro timestamp_micro_utc : List (Option ℤ) → TypedBuilder

-- The capacities only reserve memory.
unfoldable pub new_builder : DataType → Write TypedBuilder
new_builder Arrow.boolean = ok (boolean [])
new_builder Arrow.int16 = ok (int16 [])
new_builder Arrow.int32 = ok (int32 [])
new_builder Arrow.int64 = ok (int64 [])
new_builder Arrow.float32 = ok (float32 [])
new_builder Arrow.float64 = ok (float64 [])
new_builder Arrow.utf8 = ok (utf8 [])
new_builder Arrow.binary = ok (binary [])
new_builder Arrow.date32 = ok (date32 [])
new_builder (Arrow.timestamp microsecond none) = ok (timestamp_micro [])
new_builder (Arrow.timestamp microsecond (some tz)) = ok (timestamp_micro_utc [])
new_builder d = err (unsupported_builder d)

unfoldable pub finish : TypedBuilder → Array
finish (boolean cs) = boolean_array cs
finish (int16 cs) = primitive_array Arrays.int16 cs
finish (int32 cs) = primitive_array Arrays.int32 cs
finish (int64 cs) = primitive_array Arrays.int64 cs
finish (float32 cs) = primitive_array Arrays.float32 cs
finish (float64 cs) = primitive_array Arrays.float64 cs
finish (utf8 cs) = string_array Arrays.utf8 cs
finish (binary cs) = binary_array Arrays.binary cs
finish (date32 cs) = primitive_array Arrays.date32 cs
finish (timestamp_micro cs) = primitive_array (Arrays.timestamp microsecond none) cs
finish (timestamp_micro_utc cs) = primitive_array (Arrays.timestamp microsecond utc) cs

-- `pg_micros + UNIX_TO_POSTGRES_EPOCH_SECS.saturating_mul(1_000_000)`, which wraps around.
unfoldable pub to_unix_micros : ℤ → ℤ
to_unix_micros pg_micros = wrap_i64 (pg_micros +ℤ pos unix_to_postgres_epoch_micros)

-- `Ok(Some(v)) => append_value(v)`; a null and an error append a null.
abbrev pub value_or_null {ℓ} : {A : Type ℓ} → Option (Option A) → Option A
value_or_null none = none
value_or_null (some cell) = cell

abbrev pub to_unix : Option (Option ℤ) → Option ℤ
to_unix (some (some ts)) = some (to_unix_micros ts)
to_unix _ = none

module _ (spi : Spi) where
  open spi use {
    SpiDatum, bool_value, i16_value, i32_value, i64_value, f32_value, f64_value, numeric_value,
    jsonb_value, json_value, uuid_value, string_value, bytes_value, date_value, timestamp_value,
    timestamptz_value,
  }

  -- The text of a datum for a column of text, by the type of the source column.
  unfoldable pub text_value : ℕ → SpiDatum → Option (Option Text)
  text_value oid d =
      if oid == numeric_oid
      then numeric_value d
      else if oid == jsonb_oid
      then jsonb_value d
      else if oid == json_oid
      then json_value d
      else if oid == uuid_oid
      then uuid_value d
      else string_value d

  -- A cell of a datum; a row without the column gives a null.
  abbrev pub cell {ℓ} : {A : Type ℓ} → (SpiDatum → Option A) → Option SpiDatum → Option A
  cell value none = none
  cell value (some d) = value d

  unfoldable pub append_datum : TypedBuilder → Option SpiDatum → ℕ → TypedBuilder
  append_datum (boolean cs) d oid =
      boolean (cs ++ (cell (λ v. value_or_null (bool_value v)) d ∷ []))
  append_datum (int16 cs) d oid = int16 (cs ++ (cell (λ v. value_or_null (i16_value v)) d ∷ []))
  append_datum (int32 cs) d oid = int32 (cs ++ (cell (λ v. value_or_null (i32_value v)) d ∷ []))
  append_datum (int64 cs) d oid = int64 (cs ++ (cell (λ v. value_or_null (i64_value v)) d ∷ []))
  append_datum (float32 cs) d oid = float32 (cs ++ (cell (λ v. value_or_null (f32_value v)) d ∷ []))
  append_datum (float64 cs) d oid = float64 (cs ++ (cell (λ v. value_or_null (f64_value v)) d ∷ []))
  append_datum (utf8 cs) d oid = utf8 (cs ++ (cell (λ v. value_or_null (text_value oid v)) d ∷ []))
  append_datum (binary cs) d oid = binary (cs ++ (cell (λ v. value_or_null (bytes_value v)) d ∷ []))
  append_datum (date32 cs) d oid = date32 (
      cs
      ++ (cell (λ v. value_or_null (if oid == int4_oid then i32_value v else date_value v)) d ∷ []))
  append_datum (timestamp_micro cs) d oid = timestamp_micro (
      cs
      ++ (cell
            (λ v.
              if oid == int8_oid then value_or_null (i64_value v) else to_unix (timestamp_value v))
            d
          ∷ []))
  append_datum (timestamp_micro_utc cs) d oid = timestamp_micro_utc (
      cs
      ++ (cell
            (λ v.
              if oid == int8_oid
              then value_or_null (i64_value v)
              else to_unix (timestamptz_value v))
            d
          ∷ []))
