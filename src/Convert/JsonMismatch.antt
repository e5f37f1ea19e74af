-- ===== src/Convert/JsonMismatch.antt =====
-- src/fdw/convert.rs: the cells of arrays, the keys of dictionaries and `arrow_value_to_json`, which
-- have no type mismatch.
use pglance.Base.{
  ℕ, zero, suc, ◌+◌, Bool, true, false, Bool-cases, inl, inr, Option, none, some, List, ok, err,
  leb, if◌then◌else◌, get_elem?,
}
use pglance.Base.Int.{ℤ, pos, negsuc}
use pglance.Arrow
use pglance.Arrow.{DataType, Field, new}
use pglance.Convert.{Conv, panic, internal, unsupported_type}
use pglance.Convert.Arrays.{
  Array, Rows, Columns, boolean_array, primitive_array, string_array, binary_array, list_array,
  struct_array, dictionary_array, map_array, other_array, no_rows, null_row, row, no_columns,
  column, len,
}
use pglance.Convert.External.{External, Json, Jsons, end}
use pglance.Convert.Scalars.{on_cell}
use pglance.Convert.Json.{
  arrow_value_to_json, row_to_json, columns_to_json, json_values, dictionary_value, on_valid,
  row_validity, dictionary_key_to_usize, negative_key,
}
use pglance.Convert.Mismatch.{
  Matching, Matching-ok, Matching-panic, Matching-fail, Matching-bind, internal-ne, unsupported-ne,
}

pub on_cell-Matching {ℓ} :
    {A : Type 0} {B : Type ℓ} (cells : List (Option A)) (r : ℕ) (null : B) (k : A → Conv B)
    → ((v : A) → Matching (k v))
    → Matching (on_cell cells r null k)
on_cell-Matching {A = A} cells r null k h = go (get_elem? cells r)
  where
    go :
        (o : Option (Option A))
        → Matching
            (elim o [ none ↦ err panic | some cell ↦ elim cell [ none ↦ ok null | some v ↦ k v ] ])
    go none = Matching-panic
    go (some none) = Matching-ok null
    go (some (some v)) = h v

pub on_valid-Matching {ℓ} :
    {B : Type ℓ} (validity : List Bool) (r : ℕ) (null : B) (k : Conv B)
    → Matching k
    → Matching (on_valid validity r null k)
on_valid-Matching validity r null k h = go (get_elem? validity r)
  where
    go :
        (o : Option Bool)
        → Matching (elim o [ none ↦ err panic | some valid ↦ if valid then k else ok null ])
    go none = Matching-panic
    go (some true) = h
    go (some false) = Matching-ok null

negative_key-Matching : (v : ℤ) → Matching (negative_key v)
negative_key-Matching (pos n) = Matching-ok n
negative_key-Matching (negsuc n) = Matching-fail internal _ internal-ne

key-Matching : (key : DataType) (v : ℤ) → Matching (dictionary_key_to_usize key v)
unfolding dictionary_key_to_usize
key-Matching Arrow.int8 v = negative_key-Matching v
key-Matching Arrow.int16 v = negative_key-Matching v
key-Matching Arrow.int32 v = negative_key-Matching v
key-Matching Arrow.int64 v = negative_key-Matching v
key-Matching Arrow.uint8 v = Matching-ok _
key-Matching Arrow.uint16 v = Matching-ok _
key-Matching Arrow.uint32 v = Matching-ok _
key-Matching Arrow.uint64 v = Matching-ok _
key-Matching _ v = Matching-fail unsupported_type _ unsupported-ne

module _ (x : External) where
  pub dictionary-Matching {ℓ} :
      {B : Type ℓ} (key : DataType) (values : Array) (convert : ℕ → Conv B) (v : ℤ)
      → ((i : ℕ) → Matching (convert i))
      → Matching (dictionary_value x key values convert v)
  dictionary-Matching key values convert v h =
      Matching-bind (dictionary_key_to_usize key v) _ (key-Matching key v) λ idx _.
        elim (Bool-cases (leb (len values) idx)) [
          | inl e ↦ rw e (Matching-fail internal _ internal-ne)
          | inr e ↦ rw e (h idx)
        ]

  json_values-Matching :
      (f : ℕ → Conv Json) (n i : ℕ) → ((j : ℕ) → Matching (f j)) → Matching (json_values f n i)
  unfolding json_values
  json_values-Matching f zero i h = Matching-ok Jsons.nil
  json_values-Matching f (suc n) i h = Matching-bind (f i) _ (h i) λ j _.
      Matching-bind (json_values f n (i + 1)) _ (json_values-Matching f n (i + 1) h)
        λ rest _. Matching-ok (Jsons.cons j rest)

  mutual
    unfolding arrow_value_to_json row_to_json columns_to_json

    pub json-Matching : (a : Array) (r : ℕ) → Matching (arrow_value_to_json x a r)
    json-Matching (boolean_array vs) r = on_cell-Matching vs r Json.null _ λ v. Matching-ok _
    json-Matching (primitive_array p vs) r = on_cell-Matching vs r Json.null _ λ v. Matching-ok _
    json-Matching (string_array k vs) r = on_cell-Matching vs r Json.null _ λ v. Matching-ok _
    json-Matching (binary_array k vs) r = on_cell-Matching vs r Json.null _ λ v. Matching-ok _
    json-Matching (list_array k elem rs) r = on_valid-Matching (row_validity rs) r Json.null _ (
        Matching-bind (row_to_json x rs r) _ (json_row-Matching rs r)
          λ js _. Matching-ok (Json.array js))
    json-Matching (struct_array validity cs) r = on_valid-Matching validity r Json.null _ (
        Matching-bind (columns_to_json x cs r) _ (json_columns-Matching cs r)
          λ ms _. Matching-ok (Json.object (ms end)))
    json-Matching (dictionary_array key ks values) r =
        on_cell-Matching ks r Json.null _ λ v.
          dictionary-Matching key values (arrow_value_to_json x values) v (json-Matching values)
    json-Matching (map_array entries sorted validity) r =
        on_valid-Matching validity r Json.null _ (Matching-ok _)
    json-Matching (other_array name validity) r =
        on_valid-Matching validity r Json.null _ (Matching-ok _)

    json_row-Matching : (rs : Rows) (r : ℕ) → Matching (row_to_json x rs r)
    json_row-Matching no_rows r = Matching-panic
    json_row-Matching (null_row rs) zero = Matching-ok _
    json_row-Matching (null_row rs) (suc r) = json_row-Matching rs r
    json_row-Matching (row a rs) zero =
        json_values-Matching (arrow_value_to_json x a) (len a) 0 (json-Matching a)
    json_row-Matching (row a rs) (suc r) = json_row-Matching rs r

    json_columns-Matching : (cs : Columns) (r : ℕ) → Matching (columns_to_json x cs r)
    json_columns-Matching no_columns r = Matching-ok _
    json_columns-Matching (column (new name d nullable) a cs) r =
        Matching-bind (arrow_value_to_json x a r) _ (json-Matching a r) λ j _.
          Matching-bind (columns_to_json x cs r) _ (json_columns-Matching cs r)
            λ rest _. Matching-ok _
