-- ===== src/Aggregate/Print.antt =====
-- src/write/aggregate.rs: the text of a result, and the whole of `lance_extremum_impl`. The printing
-- of dates and floats, and the dataset, are parameters. A message is a constructor with what it
-- shows.
use pglance.Base.{
  ℕ, zero, suc, ◌-◌, Bool, Option, none, some, List, [], ◌∷◌, ◌++◌, Text, Result, ok, err, ◌>>=◌,
  ◌==◌, leb, if◌then◌else◌, text_eq, length, take, drop, replicate,
}
use pglance.Base.Int.{ℤ, pos, negsuc, scale_ℤ, div_ℤ, clamp_i64}
use pglance.Base.Decimal.{show_ℕ, show_ℤ}
use pglance.Arrow
use pglance.Arrow.{DataType, Field, field_name, field_type}
use pglance.Convert.Arrays.{Array}
use pglance.Aggregate.{Extremum, StateKind, Floats, new_state, update_batches}
use pglance.Aggregate

abbrev pub zeros : ℕ → Text
zeros n = replicate n b'0'

-- `digits` with as many zeros before it as leave a digit before the point.
abbrev pub padded : ℕ → Text → Text
padded scale digits =
    if leb (length digits) scale then zeros (suc scale - length digits) ++ digits else digits

-- `digits.insert(point, '.')`
abbrev pub with_point : ℕ → Text → Text
with_point scale digits =
    take (length digits - scale) digits ++ (b'.' ∷ drop (length digits - scale) digits)

abbrev pub with_sign : ℤ → Text → Text
with_sign (pos n) t = t
with_sign (negsuc n) t = b'-' ∷ t

abbrev pub unsigned_abs : ℤ → ℕ
unsigned_abs (pos n) = n
unsigned_abs (negsuc n) = suc n

-- The scale is an `i8`. `none` stands for the panic of the least one, which has no negation.
unfoldable pub format_decimal128 : ℤ → ℤ → Option Text
format_decimal128 value (pos (suc scale)) =
    some
      (with_sign value (with_point (suc scale) (padded (suc scale) (show_ℕ (unsigned_abs value)))))
format_decimal128 value (pos zero) = some (show_ℤ value)
format_decimal128 value (negsuc n) = if n == 127 then none else some (show_ℤ value ++ zeros (suc n))

-- What chrono and Rust's floats print; `none` is out of range.
pub record Printer : Type 0 where
  pub date_of_days : ℤ → Option Text
  pub date_of_millis : ℤ → Option Text
  pub rfc3339_of_micros : ℤ → Option Text
  pub naive_of_micros : ℤ → Option Text
  pub show_f32 : ℤ → Text
  pub show_f64 : ℤ → Text

pub data AggregateError : Type 0 where
  no_column : Text → AggregateError
  unsupported : DataType → AggregateError
  invalid_array : StateKind → AggregateError
  date32_range date64_range timestamp_range decimal_panic : AggregateError
  lance : Text → AggregateError

abbrev pub or_else {ℓ} : {A : Type ℓ} → Option A → AggregateError → Result AggregateError A
or_else none e = err e
or_else (some a) e = ok a

-- `value.map(f).transpose()`
abbrev pub map_transpose :
    (ℤ → Result AggregateError Text) → Option ℤ → Result AggregateError (Option Text)
map_transpose f none = ok none
map_transpose f (some v) = do t ← f v; ok (some t)

module _ (printer : Printer) where
  open printer use {
    date_of_days, date_of_millis, rfc3339_of_micros, naive_of_micros, show_f32, show_f64,
  }

  abbrev pub format_timestamp_micros : ℤ → Bool → Result AggregateError Text
  format_timestamp_micros micros has_tz =
      or_else (if has_tz then rfc3339_of_micros micros else naive_of_micros micros) timestamp_range

  -- How the value of a state is printed.
  unfoldable pub format_value : StateKind → ℤ → Result AggregateError Text
  format_value StateKind.float32 v = ok (show_f32 v)
  format_value StateKind.float64 v = ok (show_f64 v)
  format_value StateKind.date32 v = or_else (date_of_days v) date32_range
  format_value StateKind.date64 v = or_else (date_of_millis v) date64_range
  format_value (StateKind.timestamp Arrow.second has_tz) v =
      format_timestamp_micros (clamp_i64 (scale_ℤ 1_000_000 v)) has_tz
  format_value (StateKind.timestamp Arrow.millisecond has_tz) v =
      format_timestamp_micros (clamp_i64 (scale_ℤ 1_000 v)) has_tz
  format_value (StateKind.timestamp Arrow.microsecond has_tz) v = format_timestamp_micros v has_tz
  format_value (StateKind.timestamp Arrow.nanosecond has_tz) v =
      format_timestamp_micros (div_ℤ v 1_000) has_tz
  format_value (StateKind.decimal128 scale) v = or_else (format_decimal128 v scale) decimal_panic
  format_value _ v = ok (show_ℤ v)

  abbrev pub finish : StateKind → Option ℤ → Result AggregateError (Option Text)
  finish kind current = map_transpose (format_value kind) current

-- The dataset of the `lance` crate: its fields, and the batches of a scan of one column, up to the
-- first error.
pub record Columns : Type 0 where
  pub fields : List Field
  pub scan : Text → Result Text (List Array × Option Text)

abbrev pub find_field : Text → List Field → Option Field
find_field name [] = none
find_field name (f ∷ fs) =
    let later = find_field name fs in if text_eq (field_name f) name then some f else later

module _ (floats : Floats) (printer : Printer) where
  abbrev pub to_lance {ℓ} : {A : Type ℓ} → Result Text A → Result AggregateError A
  to_lance (err e) = err (lance e)
  to_lance (ok a) = ok a

  -- The loop over the stream: the batches before an error are used, then the error is returned.
  abbrev pub run_stream :
      StateKind → Extremum → List Array × Option Text → Result AggregateError (Option ℤ)
  run_stream kind op (columns, failure) = elim (update_batches floats kind op none columns) [
    | err k ↦ err (invalid_array k)
    | ok current ↦ elim failure [ none ↦ ok current | some e ↦ err (lance e) ]
  ]

  -- The value and the type of the column.
  unfoldable pub lance_extremum_impl :
      Result Text Columns → Text → Extremum → Result AggregateError (Option Text × DataType)
  lance_extremum_impl opened column_name op = do
    dataset ← to_lance opened
    field ← or_else (find_field column_name dataset.fields) (no_column column_name)
    stream ← to_lance (dataset.scan column_name)
    kind ← or_else (new_state (field_type field)) (unsupported (field_type field))
    current ← run_stream kind op stream
    value ← finish printer kind current
    ok (value, field_type field)

  abbrev pub lance_min_impl :
      Result Text Columns → Text → Result AggregateError (Option Text × DataType)
  lance_min_impl opened column_name = lance_extremum_impl opened column_name Aggregate.min

  abbrev pub lance_max_impl :
      Result Text Columns → Text → Result AggregateError (Option Text × DataType)
  lance_max_impl opened column_name = lance_extremum_impl opened column_name Aggregate.max
