-- ===== src/Convert/Arrays.antt =====
-- The arrays of the `arrow` crate, one constructor for each Rust type that the code downcasts to, so
-- that a downcast by the data type finds its array (as the crate guarantees). A cell is `none` where
-- the validity bitmap says null. Integers, floats (their bits), dates, timestamps and decimals are
-- the native values of a `PrimitiveArray`.
use pglance.Base.{ℕ, suc, Bool, Option, List, Text, ◌≡◌, length}
use pglance.Base.Int.{ℤ}
use pglance.Arrow
use pglance.Arrow.{DataType, Field, Fields, TimeUnit, field_type}

pub data PrimType : Type 0 where
  int8 int16 int32 int64 uint8 uint16 uint32 uint64 float16 float32 float64 date32 date64 : PrimType
  timestamp : TimeUnit → Option Text → PrimType
  decimal128 decimal256 : ℕ → ℤ → PrimType

pub data StringKind : Type 0 where
  utf8 large_utf8 : StringKind

pub data BinaryKind : Type 0 where
  binary large_binary : BinaryKind
  fixed_size_binary : ℕ → BinaryKind

pub data ListKind : Type 0 where
  list large_list : ListKind
  fixed_size_list : ℕ → ListKind

mutual
  pub data Array : Type 0 where
    boolean_array : List (Option Bool) → Array
    primitive_array : PrimType → List (Option ℤ) → Array
    string_array : StringKind → List (Option Text) → Array
    binary_array : BinaryKind → List (Option (List ℕ)) → Array
    list_array : ListKind → Field → Rows → Array
    struct_array : List Bool → Columns → Array
    dictionary_array : DataType → List (Option ℤ) → Array → Array
    map_array : Field → Bool → List Bool → Array
    other_array : Text → List Bool → Array

  -- The rows of a list array: null, or the slice of the values that `value(row)` returns.
  pub data Rows : Type 0 where
    no_rows : Rows
    null_row : Rows → Rows
    row : Array → Rows → Rows

  pub data Columns : Type 0 where
    no_columns : Columns
    column : Field → Array → Columns → Columns

abbrev pub prim_data_type : PrimType → DataType
prim_data_type int8 = Arrow.int8
prim_data_type int16 = Arrow.int16
prim_data_type int32 = Arrow.int32
prim_data_type int64 = Arrow.int64
prim_data_type uint8 = Arrow.uint8
prim_data_type uint16 = Arrow.uint16
prim_data_type uint32 = Arrow.uint32
prim_data_type uint64 = Arrow.uint64
prim_data_type float16 = Arrow.float16
prim_data_type float32 = Arrow.float32
prim_data_type float64 = Arrow.float64
prim_data_type date32 = Arrow.date32
prim_data_type date64 = Arrow.date64
prim_data_type (timestamp u tz) = Arrow.timestamp u tz
prim_data_type (decimal128 p s) = Arrow.decimal128 p s
prim_data_type (decimal256 p s) = Arrow.decimal256 p s

abbrev pub list_data_type : ListKind → Field → DataType
list_data_type list elem = Arrow.list elem
list_data_type large_list elem = Arrow.large_list elem
list_data_type (fixed_size_list n) elem = Arrow.fixed_size_list elem n

abbrev pub fields_of : Columns → Fields
fields_of no_columns = Arrow.nil
fields_of (column f a cs) = Arrow.cons f (fields_of cs)

abbrev pub data_type : Array → DataType
data_type (boolean_array vs) = Arrow.boolean
data_type (primitive_array p vs) = prim_data_type p
data_type (string_array utf8 vs) = Arrow.utf8
data_type (string_array large_utf8 vs) = Arrow.large_utf8
data_type (binary_array binary vs) = Arrow.binary
data_type (binary_array large_binary vs) = Arrow.large_binary
data_type (binary_array (fixed_size_binary n) vs) = Arrow.fixed_size_binary n
data_type (list_array k elem rs) = list_data_type k elem
data_type (struct_array validity cs) = Arrow.struct (fields_of cs)
data_type (dictionary_array key ks values) = Arrow.dictionary key (data_type values)
data_type (map_array entries sorted validity) = Arrow.map_of entries sorted
data_type (other_array name validity) = Arrow.other name

abbrev pub count_rows : Rows → ℕ
count_rows no_rows = 0
count_rows (null_row rs) = suc (count_rows rs)
count_rows (row a rs) = suc (count_rows rs)

-- `array.len()`
abbrev pub len : Array → ℕ
len (boolean_array vs) = length vs
len (primitive_array p vs) = length vs
len (string_array k vs) = length vs
len (binary_array k vs) = length vs
len (list_array k elem rs) = count_rows rs
len (struct_array validity cs) = length validity
len (dictionary_array key ks values) = length ks
len (map_array entries sorted validity) = length validity
len (other_array name validity) = length validity

-- What the crate guarantees of an array's parts: the slices of a list have the type of its elements,
-- and the columns of a struct have the types of their fields and as many rows as the struct.
abbrev mutual
  pub WellFormed : Array → Type 0
  WellFormed (list_array k elem rs) = WellFormedRows elem rs
  WellFormed (struct_array validity cs) = WellFormedColumns (length validity) cs
  WellFormed (dictionary_array key ks values) = WellFormed values
  WellFormed _ = Unit

  pub WellFormedRows : Field → Rows → Type 0
  WellFormedRows elem no_rows = Unit
  WellFormedRows elem (null_row rs) = WellFormedRows elem rs
  WellFormedRows elem (row a rs) =
      (data_type a ≡ field_type elem) × WellFormed a × WellFormedRows elem rs

  pub WellFormedColumns : ℕ → Columns → Type 0
  WellFormedColumns n no_columns = Unit
  WellFormedColumns n (column f a cs) =
      (data_type a ≡ field_type f) × (len a ≡ n) × WellFormed a × WellFormedColumns n cs
