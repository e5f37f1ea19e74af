-- ===== src/Convert/Samples.antt =====
-- src/fdw/convert.rs: concrete services for tests, with JSON as the values.
use pglance.Base.{
  ℕ, ltb, Bool, true, false, none, some, List, [], ◌∷◌, Text, codes, ◌==◌, if◌then◌else◌,
}
use pglance.Base.Int.{ℤ, pos, pos_part}
use pglance.Arrow
use pglance.Arrow.{Field, new}
use pglance.Convert.{Catalog}
use pglance.Convert.Arrays
use pglance.Convert.Arrays.{
  Array, primitive_array, string_array, list_array, struct_array, no_rows, null_row, row,
  no_columns, column,
}
use pglance.Convert.External.{External, Json, Jsons}

abbrev pub bytes_json : List ℕ → Jsons
bytes_json [] = Jsons.nil
bytes_json (b ∷ bs) = Jsons.cons (Json.number (pos b)) (bytes_json bs)

abbrev pub cells_json : List (Json × Bool) → Jsons
cells_json [] = Jsons.nil
cells_json ((j, is_null) ∷ cells) = Jsons.cons (if is_null then Json.null else j) (cells_json cells)

abbrev pub sample_external : External
sample_external = record {
  Datum = Json;
  zero_datum = Json.null;
  bool_datum = λ b. some (Json.bool b);
  int2_datum = λ v. some (Json.number v);
  int4_datum = λ v. some (Json.number v);
  int8_datum = λ v. some (Json.number v);
  float4_datum = λ v. some (Json.float v);
  float8_datum = λ v. some (Json.float v);
  text_datum = λ t. some (Json.string t);
  bytea_datum = λ bs. some (Json.array (bytes_json bs));
  f16_to_f32 = λ v. v;
  f32_to_f64 = λ v. v;
  number_from_f64 = λ v. some (Json.float v);
  NaiveDate = ℤ;
  epoch_add_days = λ v. if ltb (pos_part v) 100000 then some v else none;
  date_of_millis = λ v. some v;
  Date = ℤ;
  date_new = λ v. some v;
  date_datum = λ v. some (Json.number v);
  Timestamp = ℤ;
  timestamp_try_from = λ v. some v;
  timestamp_datum = λ v. some (Json.number v);
  TimestampWithTimeZone = ℤ;
  timestamptz_try_from = λ v. some v;
  timestamptz_datum = λ v. some (Json.number v);
  decimal_string = λ p s v. codes "1";
  AnyNumeric = Text;
  numeric_try_from = λ t. some t;
  numeric_datum = λ t. some (Json.string t);
  base64 = λ bs. bs;
  jsonb_datum = λ j. some j;
  debug_type = λ d. codes "type";
  construct_md_array = λ cells oid. some (Json.array (cells_json cells));
  heap_form_tuple = λ oid cells. some (Json.array (cells_json cells));
}

-- int4 is 23 and its array 1007; 50001 is a composite type (id int4[], a dropped attribute, name text).
abbrev pub sample_catalog : Catalog
sample_catalog = record {
  element_type = λ oid. if oid == 1007 then 23 else 0;
  tupdesc = λ oid.
      if oid == 50001
      then some (
          record { attname = codes "id"; atttypid = 1007; attisdropped = false }
          ∷ record { attname = codes "old"; atttypid = 0; attisdropped = true }
          ∷ record { attname = codes "name"; atttypid = 25; attisdropped = false }
          ∷ [])
      else none;
}

abbrev pub int_field : Field
int_field = new (codes "item") Arrow.int32 true

-- A list [7, null] and a null list, beside the names "a" and null.
abbrev pub sample_struct : Array
sample_struct = struct_array (true ∷ true ∷ []) (
    column (new (codes "id") (Arrow.list int_field) true)
      (list_array Arrays.list int_field
        (row (primitive_array Arrays.int32 (some (pos 7) ∷ none ∷ [])) (null_row no_rows)))
      (column (new (codes "name") Arrow.utf8 true)
        (string_array Arrays.utf8 (some (codes "a") ∷ none ∷ [])) no_columns))
