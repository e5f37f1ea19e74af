-- ===== src/Write/Tests.antt =====
-- src/write/pg_to_arrow.rs and src/write/append.rs: five rows of two columns, in batches of two.
use pglance.Base.{
  ℕ, ◌+◌, ◌≡◌, refl, false, Option, some, none, List, [], ◌∷◌, codes, ok, ◌>>=◌, arith, text_eq,
  length, concat, All,
}
use pglance.Base.Int.{ℤ, pos}
use pglance.Arrow
use pglance.Arrow.{DataType, Fields}
use pglance.Naming.{to_ascii_lowercase}
use pglance.Convert.Arrays.{Array, data_type, len}
use pglance.Convert.External.{Json, end, member}
use pglance.Convert.Scalars.{pg_micros}
use pglance.Write.{
  Write, WriteError, SpiColumnInfo, extract_spi_columns, column_infos, pg_oid_to_arrow_type,
  match_oid, parse_arrow_type_overrides, parse_members, parse_arrow_type_name, match_name,
  apply_arrow_type_overrides, set_arrow_type, build_arrow_schema,
}
use pglance.Write.Builder.{TypedBuilder, new_builder, finish, append_datum, to_unix_micros}
use pglance.Write.Rows.{
  new_builders, append_row, loop_rows, convert_spi_rows, handle_chunk, loop_chunks,
  for_each_spi_chunk,
}
use pglance.Write.Samples.{sample_spi, sample_lib, sample_cols, sample_rows}
use pglance.Write.Types.{AllWritable, overridden_columns_build}
use pglance.Write.Cells.{finish-append_datum}
use pglance.Write.Micros.{pg_micros-to_unix_micros}
use pglance.Write.Chunks.{Sized}
use pglance.Write.Batches.{batch_all, convert_spi_rows-cut}
use pglance.Write.Cursor.{for_each_spi_chunk_total, for_each_spi_chunk-count}
use pglance.Write.Append.{
  WriteMode, create, append, Modes, mode_log, write_chunk, lance_append_impl,
  lance_append_impl-Modes,
}

abbrev sample_infos : List SpiColumnInfo
sample_infos =
    record { name = codes "id"; pg_oid = 23; arrow_type = Arrow.int32 }
    ∷ record { name = codes "name"; pg_oid = 25; arrow_type = Arrow.utf8 }
    ∷ []

abbrev sample_override : Json
sample_override = Json.object (member (codes "id") (Json.string (codes "DATE32")) end)

abbrev overridden : List SpiColumnInfo
overridden =
    record { name = codes "id"; pg_oid = 23; arrow_type = Arrow.date32 }
    ∷ record { name = codes "name"; pg_oid = 25; arrow_type = Arrow.utf8 }
    ∷ []

extracted : extract_spi_columns sample_cols ≡ ok sample_infos
unfolding column_infos pg_oid_to_arrow_type match_oid
extracted = refl

parsed : parse_arrow_type_overrides sample_override ≡ ok ((codes "id", Arrow.date32) ∷ [])
unfolding parse_arrow_type_overrides parse_members parse_arrow_type_name match_name text_eq
    to_ascii_lowercase
parsed = refl

applied : apply_arrow_type_overrides sample_infos ((codes "id", Arrow.date32) ∷ []) ≡ ok overridden
unfolding apply_arrow_type_overrides set_arrow_type text_eq
applied = refl

overridden_columns_build_example : AllWritable overridden
overridden_columns_build_example =
    overridden_columns_build sample_cols sample_infos sample_override
      ((codes "id", Arrow.date32) ∷ []) overridden extracted parsed applied

finish-append_datum_example :
    (data_type (finish (append_datum sample_spi (TypedBuilder.int32 (none ∷ [])) (some (pos 4)) 23))
      ≡ data_type (finish (TypedBuilder.int32 (none ∷ []))))
    × (len (finish (append_datum sample_spi (TypedBuilder.int32 (none ∷ [])) (some (pos 4)) 23))
        ≡ len (finish (TypedBuilder.int32 (none ∷ []))) + 1)
finish-append_datum_example =
    finish-append_datum sample_spi (TypedBuilder.int32 (none ∷ [])) (some (pos 4)) 23

-- `infinity` is the greatest `i64`.
pg_micros-to_unix_micros_example :
    pg_micros (to_unix_micros (pos 9223372036854775807)) ≡ pos 9223372036854775807
pg_micros-to_unix_micros_example = pg_micros-to_unix_micros (pos 9223372036854775807) (omega arith)

abbrev fresh : List TypedBuilder
fresh = TypedBuilder.int32 [] ∷ TypedBuilder.utf8 [] ∷ []

fresh_made : new_builders sample_infos ≡ ok fresh
unfolding new_builders new_builder
fresh_made = refl

convert_spi_rows-cut_example :
    (cut : List (List (List ℤ))) × (concat cut ≡ sample_rows)
    × All (Sized 2) cut
    × (convert_spi_rows sample_spi sample_lib 100 sample_infos
          (build_arrow_schema sample_infos)
          2
          sample_rows
        ≡ (batch_all sample_spi sample_lib 100 sample_infos
              (build_arrow_schema sample_infos)
              fresh
              0
              cut
            >>= λ bs. ok (bs, 3)))
convert_spi_rows-cut_example =
    convert_spi_rows-cut sample_spi sample_lib 100 sample_infos (build_arrow_schema sample_infos)
      fresh 2 (omega arith) fresh_made sample_rows

abbrev count_batches : ℕ → Fields → List (List Array) → Write ℕ
count_batches n schema bs = ok (n + length bs)

for_each_spi_chunk_total_example :
    (r : Write (ℕ × ℕ)) × (for_each_spi_chunk sample_spi sample_lib 0 2 0 none count_batches
        sample_cols 0 sample_rows
      ≡ some r)
for_each_spi_chunk_total_example =
    for_each_spi_chunk_total sample_spi sample_lib 0 2 0 none count_batches sample_cols 0
      sample_rows

counted :
    for_each_spi_chunk sample_spi sample_lib 0 1 2 none count_batches sample_cols 0 sample_rows
    ≡ some (ok (3, 3))
unfolding loop_chunks handle_chunk convert_spi_rows loop_rows new_builders new_builder append_row
    append_datum finish column_infos pg_oid_to_arrow_type match_oid
counted = refl

for_each_spi_chunk-count_example : ◌≡◌ {A = ℕ} 3 (length sample_rows)
for_each_spi_chunk-count_example =
    for_each_spi_chunk-count sample_spi sample_lib 0 1 2 none count_batches sample_cols 0
      sample_rows 3 3 counted

abbrev never : List WriteMode → Option WriteError
never log = none

appended :
    lance_append_impl sample_spi sample_lib
      (mode_log (List Array) never)
      (codes "create")
      0
      1
      2
      (ok tt)
      (ok tt)
      sample_cols
      sample_rows
      []
    ≡ some (ok ((false, create ∷ append ∷ []), 3))
unfolding lance_append_impl write_chunk loop_chunks handle_chunk convert_spi_rows loop_rows
    new_builders new_builder append_row append_datum finish column_infos pg_oid_to_arrow_type
    match_oid text_eq
appended = refl

lance_append_impl-Modes_example : Modes (codes "create") (false, create ∷ append ∷ [])
lance_append_impl-Modes_example =
    lance_append_impl-Modes sample_spi sample_lib never (codes "create") 0 1 2 (ok tt) (ok tt)
      sample_cols sample_rows (false, create ∷ append ∷ []) 3 appended
