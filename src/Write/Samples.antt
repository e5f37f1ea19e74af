-- ===== src/Write/Samples.antt =====
-- src/write/pg_to_arrow.rs: a query of two columns, for the tests.
use pglance.Base.{ℕ, some, none, List, [], ◌∷◌, Text, codes, ok}
use pglance.Base.Int.{ℤ, pos}
use pglance.Convert.Arrays.{Array}
use pglance.Write.Builder.{Spi}
use pglance.Write.Rows.{ArrowLib}

-- A datum is its integer; text shows as no letters.
abbrev pub sample_spi : Spi
sample_spi = record {
  SpiDatum = ℤ;
  bool_value = λ v. none;
  i16_value = λ v. some (some v);
  i32_value = λ v. some (some v);
  i64_value = λ v. some (some v);
  f32_value = λ v. some (some v);
  f64_value = λ v. some (some v);
  numeric_value = λ v. some (some []);
  jsonb_value = λ v. some (some []);
  json_value = λ v. some (some []);
  uuid_value = λ v. some (some []);
  string_value = λ v. some (some (codes "x"));
  bytes_value = λ v. none;
  date_value = λ v. some (some v);
  timestamp_value = λ v. some (some v);
  timestamptz_value = λ v. some (some v);
}

abbrev pub sample_lib : ArrowLib
sample_lib = record {
  RecordBatch = List Array;
  try_new = λ schema arrays. ok arrays;
  memory_size = λ b. 10;
}

abbrev pub sample_cols : List (Text × ℕ)
sample_cols = (codes "id", 23) ∷ (codes "name", 25) ∷ []

abbrev pub sample_rows : List (List ℤ)
sample_rows = (pos 1 ∷ pos 0 ∷ []) ∷ (pos 2 ∷ pos 0 ∷ []) ∷ (pos 3 ∷ pos 0 ∷ []) ∷ []
