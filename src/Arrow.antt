-- ===== src/Arrow.antt =====
-- The data types of the `arrow` crate, as the program matches on them. Every type that the program
-- treats by a catch-all arm only (times, intervals, views, unions, …) is `other`, with its name.
use pglance.Base.{ℕ, Option, Text, Bool}
use pglance.Base.Int.{ℤ}

pub data TimeUnit : Type 0 where
  second millisecond microsecond nanosecond : TimeUnit

mutual
  pub data DataType : Type 0 where
    boolean int8 int16 int32 int64 uint8 uint16 uint32 uint64 : DataType
    float16 float32 float64 utf8 large_utf8 binary large_binary date32 date64 : DataType
    fixed_size_binary : ℕ → DataType
    timestamp : TimeUnit → Option Text → DataType
    decimal128 decimal256 : ℕ → ℤ → DataType
    list large_list : Field → DataType
    fixed_size_list : Field → ℕ → DataType
    struct : Fields → DataType
    map_of : Field → Bool → DataType
    dictionary : DataType → DataType → DataType
    other : Text → DataType

  -- `Field`: a name, a type, and whether nulls may stand in it.
  pub data Field : Type 0 where
    new : Text → DataType → Bool → Field

  pub data Fields : Type 0 where
    nil : Fields
    cons : Field → Fields → Fields

abbrev pub field_name : Field → Text
field_name (new name data_type nullable) = name

abbrev pub field_type : Field → DataType
field_type (new name data_type nullable) = data_type
