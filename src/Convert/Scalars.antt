-- ===== src/Convert/Scalars.antt =====
-- src/fdw/convert.rs: the arms of `arrow_value_to_datum` for values that hold no others. An `as`
-- cast to a wider integer keeps the value; the downcasts are those of `Arrays`.
use pglance.Base.{
  ℕ, ◌-◌, ◌*◌, ◌^◌, Bool, false, Option, none, some, List, Text, codes, ok, err, ◌>>=◌, ◌>>◌, ltb,
  if◌then◌else◌, get_elem?,
}
use pglance.Base.Int.{ℤ, pos, pos_part, ◌-ℤ◌, scale_ℤ, div_ℤ, wrap_i64, clamp_i64}
use pglance.Arrow.{TimeUnit, second, millisecond, microsecond, nanosecond}
use pglance.Convert.{
  Conv, fail, ok_or, panic, internal, value_out_of_range, require_target_oid, bool_oid, bytea_oid,
  int8_oid, int2_oid, int4_oid, text_oid, float4_oid, float8_oid, date_oid, timestamp_oid,
  timestamptz_oid, numeric_oid,
}
use pglance.Convert.Arrays.{
  PrimType, int8, int16, int32, int64, uint8, uint16, uint32, uint64, float16, float32, float64,
  date32, date64, timestamp, decimal128, decimal256, StringKind, utf8, large_utf8, BinaryKind,
  binary, large_binary, fixed_size_binary,
}
use pglance.Convert.External.{External}

-- `is_null(row)` and `value(row)` of an array: out of bounds is a panic.
abbrev pub on_cell {ℓ} : {A : Type 0} {B : Type ℓ} → List (Option A) → ℕ → B → (A → Conv B) → Conv B
on_cell cells row null k = elim (get_elem? cells row) [
  | none ↦ err panic
  | some cell ↦ elim cell [ none ↦ ok null | some v ↦ k v ]
]

abbrev pub unix_to_postgres_epoch_micros : ℕ
unix_to_postgres_epoch_micros = 946_684_800 * 1_000_000

-- The Unix time in microseconds of a timestamp of each unit.
unfoldable pub unix_micros : TimeUnit → ℤ → ℤ
unix_micros second v = clamp_i64 (scale_ℤ 1_000_000 v)
unix_micros millisecond v = clamp_i64 (scale_ℤ 1_000 v)
unix_micros microsecond v = v
unix_micros nanosecond v = div_ℤ v 1_000

-- The subtraction wraps around, as in a release build.
unfoldable pub pg_micros : ℤ → ℤ
pg_micros unix = wrap_i64 (unix -ℤ pos unix_to_postgres_epoch_micros)

module _ (x : External) where
  open x use {
    Datum, bool_datum, int2_datum, int4_datum, int8_datum, float4_datum, float8_datum, text_datum,
    bytea_datum, f16_to_f32, epoch_add_days, date_of_millis, date_new, date_datum,
    timestamp_try_from, timestamp_datum, timestamptz_try_from, timestamptz_datum, decimal_string,
    numeric_try_from, numeric_datum,
  }

  -- `Ok((v.into_datum().ok_or_else(…)?, false))`
  abbrev pub not_null : Option Datum → Text → Conv (Datum × Bool)
  not_null d message = do v ← ok_or d internal message; ok (v, false)

  abbrev pub boolean_to_datum : Bool → ℕ → Conv (Datum × Bool)
  boolean_to_datum v target = do
    require_target_oid target bool_oid (codes "arrow boolean requires postgres boolean")
    not_null (bool_datum v) (codes "failed to convert bool")

  -- `if v > i64::MAX as u64 { return Err(…) }`
  abbrev pub uint64_to_datum : ℤ → Conv (Datum × Bool)
  uint64_to_datum v =
      if ltb (2 ^ 63 - 1) (pos_part v)
      then fail value_out_of_range (codes "arrow uint64 value out of range for postgres int8")
      else not_null (int8_datum v) (codes "failed to convert uint64")

  abbrev pub timestamp_to_datum : TimeUnit → Option Text → ℤ → ℕ → Conv (Datum × Bool)
  timestamp_to_datum unit (some tz) v target = do
    require_target_oid target timestamptz_oid
        (codes "arrow timestamp with timezone requires postgres timestamptz")
    ts ←
        ok_or (timestamptz_try_from (pg_micros (unix_micros unit v))) value_out_of_range
          (codes "invalid timestamptz")
    not_null (timestamptz_datum ts) (codes "failed to convert timestamptz")
  timestamp_to_datum unit none v target = do
    require_target_oid target timestamp_oid
        (codes "arrow timestamp without timezone requires postgres timestamp")
    ts ←
        ok_or (timestamp_try_from (pg_micros (unix_micros unit v))) value_out_of_range
          (codes "invalid timestamp")
    not_null (timestamp_datum ts) (codes "failed to convert timestamp")

  abbrev pub decimal_to_datum : Text → Text → ℕ → Conv (Datum × Bool)
  decimal_to_datum message v target = do
    require_target_oid target numeric_oid message
    n ← ok_or (numeric_try_from v) internal (codes "invalid numeric")
    not_null (numeric_datum n) (codes "failed to convert numeric")

  unfoldable pub primitive_to_datum : PrimType → ℤ → ℕ → Conv (Datum × Bool)
  primitive_to_datum int8 v target = do
    require_target_oid target int2_oid (codes "arrow int8 requires postgres int2")
    not_null (int2_datum v) (codes "failed to convert int8")
  primitive_to_datum int16 v target = do
    require_target_oid target int2_oid (codes "arrow int16 requires postgres int2")
    not_null (int2_datum v) (codes "failed to convert int16")
  primitive_to_datum int32 v target = do
    require_target_oid target int4_oid (codes "arrow int32 requires postgres int4")
    not_null (int4_datum v) (codes "failed to convert int32")
  primitive_to_datum int64 v target = do
    require_target_oid target int8_oid (codes "arrow int64 requires postgres int8")
    not_null (int8_datum v) (codes "failed to convert int64")
  primitive_to_datum uint8 v target = do
    require_target_oid target int2_oid (codes "arrow uint8 requires postgres int2")
    not_null (int2_datum v) (codes "failed to convert uint8")
  primitive_to_datum uint16 v target = do
    require_target_oid target int4_oid (codes "arrow uint16 requires postgres int4")
    not_null (int4_datum v) (codes "failed to convert uint16")
  primitive_to_datum uint32 v target = do
    require_target_oid target int8_oid (codes "arrow uint32 requires postgres int8")
    not_null (int8_datum v) (codes "failed to convert uint32")
  primitive_to_datum uint64 v target = do
    require_target_oid target int8_oid (codes "arrow uint64 requires postgres int8")
    uint64_to_datum v
  primitive_to_datum float16 v target = do
    require_target_oid target float4_oid (codes "arrow float16 requires postgres float4")
    not_null (float4_datum (f16_to_f32 v)) (codes "failed to convert float16")
  primitive_to_datum float32 v target = do
    require_target_oid target float4_oid (codes "arrow float32 requires postgres float4")
    not_null (float4_datum v) (codes "failed to convert float32")
  primitive_to_datum float64 v target = do
    require_target_oid target float8_oid (codes "arrow float64 requires postgres float8")
    not_null (float8_datum v) (codes "failed to convert float64")
  primitive_to_datum date32 v target = do
    require_target_oid target date_oid (codes "arrow date32 requires postgres date")
    dt ← ok_or (epoch_add_days v) value_out_of_range (codes "arrow date32 overflow")
    date ← ok_or (date_new dt) internal (codes "invalid date")
    not_null (date_datum date) (codes "failed to convert date")
  primitive_to_datum date64 v target = do
    require_target_oid target date_oid (codes "arrow date64 requires postgres date")
    dt ← ok_or (date_of_millis v) value_out_of_range (codes "arrow date64 overflow")
    date ← ok_or (date_new dt) internal (codes "invalid date")
    not_null (date_datum date) (codes "failed to convert date")
  primitive_to_datum (timestamp unit tz) v target = timestamp_to_datum unit tz v target
  primitive_to_datum (decimal128 p s) v target =
      decimal_to_datum (codes "arrow decimal128 requires postgres numeric") (decimal_string p s v)
        target
  primitive_to_datum (decimal256 p s) v target =
      decimal_to_datum (codes "arrow decimal256 requires postgres numeric") (decimal_string p s v)
        target

  unfoldable pub string_to_datum : StringKind → Text → ℕ → Conv (Datum × Bool)
  string_to_datum utf8 v target = do
    require_target_oid target text_oid (codes "arrow utf8 requires postgres text")
    not_null (text_datum v) (codes "failed to convert text")
  string_to_datum large_utf8 v target = do
    require_target_oid target text_oid (codes "arrow large utf8 requires postgres text")
    not_null (text_datum v) (codes "failed to convert text")

  unfoldable pub binary_to_datum : BinaryKind → List ℕ → ℕ → Conv (Datum × Bool)
  binary_to_datum binary v target = do
    require_target_oid target bytea_oid (codes "arrow binary requires postgres bytea")
    not_null (bytea_datum v) (codes "failed to convert bytea")
  binary_to_datum large_binary v target = do
    require_target_oid target bytea_oid (codes "arrow large binary requires postgres bytea")
    not_null (bytea_datum v) (codes "failed to convert bytea")
  binary_to_datum (fixed_size_binary n) v target = do
    require_target_oid target bytea_oid (codes "arrow fixed size binary requires postgres bytea")
    not_null (bytea_datum v) (codes "failed to convert bytea")
