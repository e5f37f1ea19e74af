-- ===== src/Aggregate.antt =====
-- src/write/aggregate.rs: the least and the greatest value of a column. A value is its integer, or
-- the bits of a float, whose order and NaN test are parameters.
pub mod Extreme
pub mod Print
pub mod Decimal
pub mod Tests
use pglance.Base.{
  Bool, true, false, ◌&&◌, Option, none, some, List, [], ◌∷◌, Text, codes, Result, ok, err, ◌>>=◌,
  if◌then◌else◌, not,
}
use pglance.Base.Int.{ℤ, ltb_ℤ}
use pglance.Arrow
use pglance.Arrow.{DataType, TimeUnit}
use pglance.Convert.Arrays
use pglance.Convert.Arrays.{PrimType, Array, primitive_array}

pub data Extremum : Type 0 where
  min max : Extremum

-- What `should_replace` asks of a candidate and the current value.
abbrev pub better {ℓ} : {A : Type ℓ} → (A → A → Bool) → Extremum → A → A → Bool
better lt min candidate current = lt candidate current
better lt max candidate current = lt current candidate

abbrev pub should_replace {ℓ} : {A : Type ℓ} → (A → A → Bool) → Extremum → Option A → A → Bool
should_replace lt op none candidate = true
should_replace lt op (some current) candidate = better lt op candidate current

-- The loops of `update_ord`, which skips nothing but nulls, and of `update_float`.
unfoldable pub update_cells {ℓ} :
    {A : Type ℓ} → (A → A → Bool) → (A → Bool) → Extremum → Option A → List (Option A) → Option A
update_cells lt skip op current [] = current
update_cells lt skip op current (none ∷ cells) = update_cells lt skip op current cells
update_cells lt skip op current (some value ∷ cells) =
    let kept = update_cells lt skip op current cells in
    let replaced = update_cells lt skip op (some value) cells in
    if not (skip value) && should_replace lt op current value then replaced else kept

-- The variants of `ExtremumState` apart from their value.
pub data StateKind : Type 0 where
  int8 int16 int32 int64 uint8 uint16 uint32 uint64 float32 float64 date32 date64 : StateKind
  timestamp : TimeUnit → Bool → StateKind
  decimal128 : ℤ → StateKind

abbrev pub is_some {ℓ} : {A : Type ℓ} → Option A → Bool
is_some none = false
is_some (some a) = true

unfoldable pub new_state : DataType → Option StateKind
new_state Arrow.int8 = some int8
new_state Arrow.int16 = some int16
new_state Arrow.int32 = some int32
new_state Arrow.int64 = some int64
new_state Arrow.uint8 = some uint8
new_state Arrow.uint16 = some uint16
new_state Arrow.uint32 = some uint32
new_state Arrow.uint64 = some uint64
new_state Arrow.float32 = some float32
new_state Arrow.float64 = some float64
new_state Arrow.date32 = some date32
new_state Arrow.date64 = some date64
new_state (Arrow.timestamp unit tz) = some (timestamp unit (is_some tz))
new_state (Arrow.decimal128 precision scale) = some (decimal128 scale)
new_state _ = none

abbrev pub unit_eq : TimeUnit → TimeUnit → Bool
unit_eq Arrow.second Arrow.second = true
unit_eq Arrow.millisecond Arrow.millisecond = true
unit_eq Arrow.microsecond Arrow.microsecond = true
unit_eq Arrow.nanosecond Arrow.nanosecond = true
unit_eq _ _ = false

-- `typed_array`: whether the array's Rust type is the one that the state expects.
abbrev pub is_typed : StateKind → PrimType → Bool
is_typed int8 Arrays.int8 = true
is_typed int16 Arrays.int16 = true
is_typed int32 Arrays.int32 = true
is_typed int64 Arrays.int64 = true
is_typed uint8 Arrays.uint8 = true
is_typed uint16 Arrays.uint16 = true
is_typed uint32 Arrays.uint32 = true
is_typed uint64 Arrays.uint64 = true
is_typed float32 Arrays.float32 = true
is_typed float64 Arrays.float64 = true
is_typed date32 Arrays.date32 = true
is_typed date64 Arrays.date64 = true
is_typed (timestamp unit has_tz) (Arrays.timestamp u tz) = unit_eq unit u
is_typed (decimal128 scale) (Arrays.decimal128 p s) = true
is_typed _ _ = false

abbrev pub never {ℓ} : {A : Type ℓ} → A → Bool
never a = false

-- `<` and `is_nan` of `f32` and of `f64`, on the bits.
pub record Floats : Type 0 where
  pub lt_f32 : ℤ → ℤ → Bool
  pub nan_f32 : ℤ → Bool
  pub lt_f64 : ℤ → ℤ → Bool
  pub nan_f64 : ℤ → Bool

module _ (floats : Floats) where
  open floats use {lt_f32, nan_f32, lt_f64, nan_f64}

  abbrev pub lt_of : StateKind → ℤ → ℤ → Bool
  lt_of float32 = lt_f32
  lt_of float64 = lt_f64
  lt_of _ = ltb_ℤ

  abbrev pub skip_of : StateKind → ℤ → Bool
  skip_of float32 = nan_f32
  skip_of float64 = nan_f64
  skip_of _ = never

  -- The error carries the state whose array was expected.
  unfoldable pub update : StateKind → Extremum → Option ℤ → Array → Result StateKind (Option ℤ)
  update kind op current (primitive_array p cells) =
      if is_typed kind p
      then ok (update_cells (lt_of kind) (skip_of kind) op current cells)
      else err kind
  update kind op current array = err kind

  -- The loop over the first columns of the batches.
  unfoldable pub update_batches :
      StateKind → Extremum → Option ℤ → List Array → Result StateKind (Option ℤ)
  update_batches kind op current [] = ok current
  update_batches kind op current (column ∷ columns) = do
    next ← update kind op current column
    update_batches kind op next columns
