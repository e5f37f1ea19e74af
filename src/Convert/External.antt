-- ===== src/Convert/External.antt =====
-- What the conversions call in other crates: pgrx's `into_datum` and its types, chrono's dates,
-- base64, the float conversions, and PostgreSQL's constructors of arrays and composite values.
use pglance.Base.{ℕ, Bool, Option, List, Text}
use pglance.Base.Int.{ℤ}
use pglance.Arrow.{DataType}

-- `serde_json::Value`. A number is an integer or the bits of a finite double.
mutual
  pub data Json : Type 0 where
    null : Json
    bool : Bool → Json
    number : ℤ → Json
    float : ℤ → Json
    string : Text → Json
    array : Jsons → Json
    object : Members → Json

  pub data Jsons : Type 0 where
    nil : Jsons
    cons : Json → Jsons → Jsons

  pub data Members : Type 0 where
    end : Members
    member : Text → Json → Members → Members

pub record External : Type 1 where
  pub Datum : Type 0
  -- `Datum::from(0usize)`
  pub zero_datum : Datum
  pub bool_datum : Bool → Option Datum
  pub int2_datum : ℤ → Option Datum
  pub int4_datum : ℤ → Option Datum
  pub int8_datum : ℤ → Option Datum
  pub float4_datum : ℤ → Option Datum
  pub float8_datum : ℤ → Option Datum
  pub text_datum : Text → Option Datum
  pub bytea_datum : List ℕ → Option Datum
  -- `f16::to_f32`, `f32 as f64` and `Number::from_f64`, on the bits
  pub f16_to_f32 : ℤ → ℤ
  pub f32_to_f64 : ℤ → ℤ
  pub number_from_f64 : ℤ → Option Json
  -- chrono: the epoch plus a number of days, and the day of a number of milliseconds
  pub NaiveDate : Type 0
  pub epoch_add_days : ℤ → Option NaiveDate
  pub date_of_millis : ℤ → Option NaiveDate
  -- pgrx: `Date::new` and the `try_from` of the other types
  pub Date : Type 0
  pub date_new : NaiveDate → Option Date
  pub date_datum : Date → Option Datum
  pub Timestamp : Type 0
  pub timestamp_try_from : ℤ → Option Timestamp
  pub timestamp_datum : Timestamp → Option Datum
  pub TimestampWithTimeZone : Type 0
  pub timestamptz_try_from : ℤ → Option TimestampWithTimeZone
  pub timestamptz_datum : TimestampWithTimeZone → Option Datum
  -- `value_as_string` of the decimal arrays, by precision and scale
  pub decimal_string : ℕ → ℤ → ℤ → Text
  pub AnyNumeric : Type 0
  pub numeric_try_from : Text → Option AnyNumeric
  pub numeric_datum : AnyNumeric → Option Datum
  pub base64 : List ℕ → Text
  pub jsonb_datum : Json → Option Datum
  -- `{:?}` of a data type
  pub debug_type : DataType → Text
  -- `construct_md_array` over the elements and their null flags, and `heap_form_tuple`; `none` is a
  -- null pointer
  pub construct_md_array : List (Datum × Bool) → ℕ → Option Datum
  pub heap_form_tuple : ℕ → List (Datum × Bool) → Option Datum
