-- ===== src/Convert/Json.antt =====
-- src/fdw/convert.rs: `arrow_value_to_json` and the keys of dictionaries.
use pglance.Base.{
  ℕ, zero, suc, ◌+◌, Bool, true, false, Option, none, some, List, [], ◌∷◌, ◌++◌, Text, codes, ok,
  err, ◌>>=◌, leb, if◌then◌else◌, get_elem?,
}
use Prim.Native.Nat.{compare, Ordering}
use pglance.Base.Map.{cmp_list}
use pglance.Base.Int.{ℤ, pos, negsuc, pos_part, wrap_i64}
use pglance.Arrow
use pglance.Arrow.{DataType, Field, new}
use pglance.Convert.{Conv, fail, panic, internal, unsupported_type}
use pglance.Convert.Arrays.{
  PrimType, int8, int16, int32, int64, uint8, uint16, uint32, uint64, float16, float32, float64,
  decimal128, decimal256, Array, Rows, Columns, boolean_array, primitive_array, string_array,
  binary_array, list_array, struct_array, dictionary_array, map_array, other_array, no_rows,
  null_row, row, no_columns, column, len, prim_data_type,
}
use pglance.Convert.External.{External, Json, Jsons, Members, end, member}
use pglance.Convert.Scalars.{on_cell}

abbrev pub or_null : Option Json → Json
or_null none = Json.null
or_null (some j) = j

abbrev pub negative_key : ℤ → Conv ℕ
negative_key (pos n) = ok n
negative_key (negsuc n) = fail internal (codes "negative dictionary key")

-- The value of a key, by the type of the keys. An unsigned key is cast to `usize`.
unfoldable pub dictionary_key_to_usize : DataType → ℤ → Conv ℕ
dictionary_key_to_usize Arrow.int8 v = negative_key v
dictionary_key_to_usize Arrow.int16 v = negative_key v
dictionary_key_to_usize Arrow.int32 v = negative_key v
dictionary_key_to_usize Arrow.int64 v = negative_key v
dictionary_key_to_usize Arrow.uint8 v = ok (pos_part v)
dictionary_key_to_usize Arrow.uint16 v = ok (pos_part v)
dictionary_key_to_usize Arrow.uint32 v = ok (pos_part v)
dictionary_key_to_usize Arrow.uint64 v = ok (pos_part v)
dictionary_key_to_usize _ v = fail unsupported_type (codes "unsupported dictionary key type")

-- `map.insert(name, value)`: `serde_json`'s map is ordered by its keys.
unfoldable pub insert_member : Text → Json → Members → Members
insert_member n j end = member n j end
insert_member n j (member m i rest) =
    let later = insert_member n j rest in
    elim (cmp_list compare n m) [
      | Ordering.lt ↦ member n j (member m i rest)
      | Ordering.eq ↦ member m j rest
      | Ordering.gt ↦ member m i later
    ]

-- The loop over the values of a list.
unfoldable pub json_values : (ℕ → Conv Json) → ℕ → ℕ → Conv Jsons
json_values f zero i = ok Jsons.nil
json_values f (suc n) i = do j ← f i; rest ← json_values f n (i + 1); ok (Jsons.cons j rest)

-- `is_null(row)` of an array that keeps its validity apart: out of bounds is a panic.
abbrev pub on_valid {ℓ} : {B : Type ℓ} → List Bool → ℕ → B → Conv B → Conv B
on_valid validity r null k = elim (get_elem? validity r) [
  | none ↦ err panic
  | some valid ↦ if valid then k else ok null
]

abbrev pub row_validity : Rows → List Bool
row_validity no_rows = []
row_validity (null_row rs) = false ∷ row_validity rs
row_validity (row a rs) = true ∷ row_validity rs

module _ (x : External) where
  open x use {f16_to_f32, f32_to_f64, number_from_f64, decimal_string, base64, debug_type}

  abbrev pub unsupported_json : DataType → Json
  unsupported_json d = Json.string (codes "<unsupported_type: " ++ (debug_type d ++ codes ">"))

  -- Dates and timestamps fall under the catch-all arm. `u64 as i64` wraps around.
  unfoldable pub primitive_to_json : PrimType → ℤ → Json
  primitive_to_json int8 v = Json.number v
  primitive_to_json int16 v = Json.number v
  primitive_to_json int32 v = Json.number v
  primitive_to_json int64 v = Json.number v
  primitive_to_json uint8 v = Json.number v
  primitive_to_json uint16 v = Json.number v
  primitive_to_json uint32 v = Json.number v
  primitive_to_json uint64 v = Json.number (wrap_i64 v)
  primitive_to_json float16 v = or_null (number_from_f64 (f32_to_f64 (f16_to_f32 v)))
  primitive_to_json float32 v = or_null (number_from_f64 (f32_to_f64 v))
  primitive_to_json float64 v = or_null (number_from_f64 v)
  primitive_to_json (decimal128 p s) v = Json.string (decimal_string p s v)
  primitive_to_json (decimal256 p s) v = Json.string (decimal_string p s v)
  primitive_to_json p v = unsupported_json (prim_data_type p)

  -- The lookup of a dictionary's value, with the conversion of the values by index.
  abbrev pub dictionary_value {ℓ} : {B : Type ℓ} → DataType → Array → (ℕ → Conv B) → ℤ → Conv B
  dictionary_value key values convert v = do
    idx ← dictionary_key_to_usize key v
    if leb (len values) idx
        then fail internal (codes "dictionary key out of range")
        else convert idx

  unfoldable mutual
    pub arrow_value_to_json : Array → ℕ → Conv Json
    arrow_value_to_json (boolean_array vs) r = on_cell vs r Json.null (λ v. ok (Json.bool v))
    arrow_value_to_json (primitive_array p vs) r =
        on_cell vs r Json.null (λ v. ok (primitive_to_json p v))
    arrow_value_to_json (string_array k vs) r = on_cell vs r Json.null (λ v. ok (Json.string v))
    arrow_value_to_json (binary_array k vs) r =
        on_cell vs r Json.null (λ v. ok (Json.string (base64 v)))
    arrow_value_to_json (list_array k elem rs) r =
        on_valid (row_validity rs) r Json.null (do js ← row_to_json rs r; ok (Json.array js))
    arrow_value_to_json (struct_array validity cs) r =
        on_valid validity r Json.null (do ms ← columns_to_json cs r; ok (Json.object (ms end)))
    arrow_value_to_json (dictionary_array key ks values) r =
        on_cell ks r Json.null (dictionary_value key values (arrow_value_to_json values))
    arrow_value_to_json (map_array entries sorted validity) r =
        on_valid validity r Json.null (ok (unsupported_json (Arrow.map_of entries sorted)))
    arrow_value_to_json (other_array name validity) r =
        on_valid validity r Json.null (ok (unsupported_json (Arrow.other name)))

    -- The values of one row of a list array. A null row has been dealt with before.
    pub row_to_json : Rows → ℕ → Conv Jsons
    row_to_json no_rows r = err panic
    row_to_json (null_row rs) zero = ok Jsons.nil
    row_to_json (null_row rs) (suc r) = row_to_json rs r
    row_to_json (row a rs) zero = json_values (arrow_value_to_json a) (len a) 0
    row_to_json (row a rs) (suc r) = row_to_json rs r

    -- The loop over the columns of a struct: what it adds to the map built so far.
    pub columns_to_json : Columns → ℕ → Conv (Members → Members)
    columns_to_json no_columns r = ok (λ map. map)
    columns_to_json (column (new name d nullable) a cs) r = do
      j ← arrow_value_to_json a r
      rest ← columns_to_json cs r
      ok (λ map. rest (insert_member name j map))
