-- ===== src/Convert/Datum.antt =====
-- src/fdw/convert.rs: `arrow_value_to_datum`, with arrays and composite values.
use pglance.Base.{
  ℕ, zero, suc, ◌+◌, Bool, true, Option, none, some, List, [], ◌∷◌, ◌++◌, Text, codes, ok, err,
  ◌>>=◌, ◌==◌, if◌then◌else◌, text_eq,
}
use pglance.Arrow.{new}
use pglance.Convert.{
  Conv, fail, panic, type_mismatch, Attr, Catalog, require_target_oid, invalid_oid, jsonb_oid,
}
use pglance.Convert.Arrays.{
  ListKind, fixed_size_list, Array, Rows, Columns, boolean_array, primitive_array, string_array,
  binary_array, list_array, struct_array, dictionary_array, map_array, other_array, no_rows,
  null_row, row, no_columns, column, len,
}
use pglance.Convert.External.{External, Json}
use pglance.Convert.Scalars.{
  on_cell, not_null, boolean_to_datum, primitive_to_datum, string_to_datum, binary_to_datum,
}
use pglance.Convert.Json.{arrow_value_to_json, dictionary_value, on_valid, row_validity}

abbrev pub list_mismatch : ListKind → Text
list_mismatch (fixed_size_list n) = codes "arrow fixed size list requires postgres array (or jsonb)"
list_mismatch k = codes "arrow list requires postgres array (or jsonb)"

module _ (x : External) (cat : Catalog) where
  open x use {Datum, zero_datum, jsonb_datum, construct_md_array, heap_form_tuple}

  abbrev pub Cell : Type 0
  Cell = Datum × Bool

  abbrev pub null_cell : Cell
  null_cell = (zero_datum, true)

  abbrev pub jsonb_of : Conv Json → Conv Cell
  jsonb_of json = do j ← json; not_null x (jsonb_datum j) (codes "failed to convert jsonb")

  -- The loop of `array_values_to_pg_array` over the indices from `i`.
  unfoldable pub convert_values : (ℕ → Conv Cell) → ℕ → ℕ → Conv (List Cell)
  convert_values f zero i = ok []
  convert_values f (suc n) i = do c ← f i; rest ← convert_values f n (i + 1); ok (c ∷ rest)

  abbrev pub array_values_to_pg_array : (ℕ → Conv Cell) → ℕ → ℕ → Conv Cell
  array_values_to_pg_array f n elem_oid = do
    cells ← convert_values f n 0
    not_null x (construct_md_array cells elem_oid) (codes "failed to construct array")

  -- The arm of the three list types, with the JSON and the array of the row.
  abbrev pub list_to_datum : ListKind → Conv Json → (ℕ → Conv Cell) → ℕ → Conv Cell
  list_to_datum k json array target =
      if cat.element_type target == invalid_oid
      then if target == jsonb_oid then jsonb_of json else fail type_mismatch (list_mismatch k)
      else array (cat.element_type target)

  -- The loop of `struct_to_composite_datum`, with the conversion of the column of a name.
  unfoldable pub convert_attrs : (Text → ℕ → Conv Cell) → List Attr → Conv (List Cell)
  convert_attrs f [] = ok []
  convert_attrs f (a ∷ attrs) = do
    c ← (if a.attisdropped then ok null_cell else f a.attname a.atttypid)
    rest ← convert_attrs f attrs
    ok (c ∷ rest)

  abbrev pub struct_to_composite_datum : (Text → ℕ → Conv Cell) → ℕ → Option (List Attr) → Conv Cell
  struct_to_composite_datum f target none =
      fail type_mismatch (codes "failed to lookup composite tupdesc")
  struct_to_composite_datum f target (some attrs) = do
    cells ← convert_attrs f attrs
    not_null x (heap_form_tuple target cells) (codes "failed to form heap tuple")

  abbrev pub jsonb_to_datum : Text → Conv Json → ℕ → Conv Cell
  jsonb_to_datum message json target =
      require_target_oid target jsonb_oid message >>= λ _. jsonb_of json

  unfoldable mutual
    pub arrow_value_to_datum : Array → ℕ → ℕ → Conv Cell
    arrow_value_to_datum (boolean_array vs) r target =
        on_cell vs r null_cell (λ v. boolean_to_datum x v target)
    arrow_value_to_datum (primitive_array p vs) r target =
        on_cell vs r null_cell (λ v. primitive_to_datum x p v target)
    arrow_value_to_datum (string_array k vs) r target =
        on_cell vs r null_cell (λ v. string_to_datum x k v target)
    arrow_value_to_datum (binary_array k vs) r target =
        on_cell vs r null_cell (λ v. binary_to_datum x k v target)
    arrow_value_to_datum (list_array k elem rs) r target = on_valid (row_validity rs) r null_cell (
        list_to_datum k (arrow_value_to_json x (list_array k elem rs) r) (row_to_array_datum rs r)
          target)
    arrow_value_to_datum (struct_array validity cs) r target =
        on_valid validity r null_cell
          (struct_to_composite_datum (named_column_to_datum cs r) target (cat.tupdesc target))
    arrow_value_to_datum (dictionary_array key ks values) r target =
        on_cell ks r null_cell
          (dictionary_value x key values (λ idx. arrow_value_to_datum values idx target))
    arrow_value_to_datum (map_array entries sorted validity) r target =
        on_valid validity r null_cell (
          jsonb_to_datum (codes "arrow map requires postgres jsonb")
            (arrow_value_to_json x (map_array entries sorted validity) r) target)
    arrow_value_to_datum (other_array name validity) r target = on_valid validity r null_cell (
        jsonb_to_datum (codes "unsupported arrow type requires postgres jsonb")
          (arrow_value_to_json x (other_array name validity) r) target)

    -- `list_to_array_datum` and `fixed_size_list_to_array_datum`: the values of one row. A null row
    -- has been dealt with before.
    pub row_to_array_datum : Rows → ℕ → ℕ → Conv Cell
    row_to_array_datum no_rows r elem_oid = err panic
    row_to_array_datum (null_row rs) zero elem_oid =
        array_values_to_pg_array (λ i. err panic) 0 elem_oid
    row_to_array_datum (null_row rs) (suc r) elem_oid = row_to_array_datum rs r elem_oid
    row_to_array_datum (row a rs) zero elem_oid =
        array_values_to_pg_array (λ i. arrow_value_to_datum a i elem_oid) (len a) elem_oid
    row_to_array_datum (row a rs) (suc r) elem_oid = row_to_array_datum rs r elem_oid

    -- `fields().iter().position(|f| f.name() == &name)`, and the conversion of that column's value.
    pub named_column_to_datum : Columns → ℕ → Text → ℕ → Conv Cell
    named_column_to_datum no_columns r name target =
        fail type_mismatch (codes "struct field name mismatch: " ++ name)
    named_column_to_datum (column (new n d nullable) a cs) r name target =
        let here = arrow_value_to_datum a r target in
        let later = named_column_to_datum cs r name target in if text_eq n name then here else later
