-- ===== src/Write/MergeInsert/Tests.antt =====
-- src/write/merge_insert.rs: a dataset that is the list of the words of its merges.
use pglance.Base.{
  ℕ, ◌≡◌, refl, false, none, some, List, [], ◌∷◌, ◌++◌, Text, codes, ok, err, ◌⊎◌, length, text_eq,
}
use pglance.Base.Int.{pos, negsuc}
use pglance.Convert.Arrays.{Array}
use pglance.Convert.External.{Json, end}
use pglance.Write.{
  WriteError, parse_arrow_type_overrides, parse_members, build_arrow_schema, column_infos,
  pg_oid_to_arrow_type, match_oid,
}
use pglance.Write.Builder.{new_builder, append_datum, finish}
use pglance.Write.Rows.{
  loop_chunks, handle_chunk, convert_spi_rows, loop_rows, new_builders, append_row,
}
use pglance.Write.Samples.{sample_spi, sample_lib, sample_cols, sample_rows}
use pglance.Write.MergeInsert.{
  MergeLance, MergeArgs, MergeRow, lance_merge_insert_impl_inner, lance_merge_insert_impl,
  lance_merge_insert_with_schema_impl, merge_loop, merge_chunk, open_checked, check_columns,
  names_of, merge_batches, parse_when_matched, parse_when_not_matched,
}
use pglance.Write.MergeInsert.Commits.{Chain}
use pglance.Write.MergeInsert.Chain.{row_of, lance_merge_insert-Chain}
use pglance.Write.MergeInsert.Same.{lance_merge_insert_with_schema_empty}

-- A builder is its dataset; every merge adds the name of a column.
abbrev sample_merge : MergeLance (List Array)
sample_merge = record {
  Dataset = List Text;
  MergeInsertBuilder = List Text;
  open_dataset = ok (codes "id" ∷ []);
  field_names = λ ds. ds;
  try_new = λ ds on. ok ds;
  use_index = λ b ds. ds;
  when_matched = λ w ds. ds;
  when_not_matched = λ w ds. ds;
  execute = λ ds schema bs. ok (ds ++ (codes "merged" ∷ []));
}

abbrev sample_args : MergeArgs
sample_args = record {
  on_columns = codes "id" ∷ [];
  when_matched = codes "update";
  when_not_matched = codes "insert";
  merge_use_index = false;
}

abbrev merged : MergeRow
merged = record {
  rows_merged = pos 3;
  rows_inserted = negsuc 0;
  rows_updated = negsuc 0;
  chunk_txns = pos 2;
  chunk_rows = pos 2;
}

merge_run :
    lance_merge_insert_impl_inner sample_spi sample_lib sample_merge sample_args 0 1 2
      (ok tt)
      none
      sample_cols
      sample_rows
    ≡ some (ok merged)
unfolding lance_merge_insert_impl_inner merge_loop merge_chunk open_checked check_columns names_of
    merge_batches parse_when_matched parse_when_not_matched loop_chunks handle_chunk
    convert_spi_rows loop_rows new_builders new_builder append_row append_datum finish column_infos
    pg_oid_to_arrow_type match_oid build_arrow_schema text_eq
merge_run = refl

lance_merge_insert-Chain_example :
    ((e : WriteError) × (lance_merge_insert_impl_inner sample_spi sample_lib sample_merge
          sample_args 0 1 2
          (ok tt)
          none
          sample_cols
          sample_rows
        ≡ some (err e)))
    ⊎ ((k : ℕ) × Chain sample_spi sample_lib sample_merge sample_args 0 1 2 none sample_cols
          sample_rows k
        × (lance_merge_insert_impl_inner sample_spi sample_lib sample_merge sample_args 0 1 2
              (ok tt)
              none
              sample_cols
              sample_rows
            ≡ some (
                ok (
                  row_of sample_spi sample_lib sample_merge sample_args 2 k (length sample_rows)))))
lance_merge_insert-Chain_example =
    lance_merge_insert-Chain sample_spi sample_lib sample_merge sample_args 0 1 2 (ok tt) none
      sample_cols sample_rows

empty_object : parse_arrow_type_overrides (Json.object end) ≡ ok []
unfolding parse_arrow_type_overrides parse_members
empty_object = refl

lance_merge_insert_with_schema_empty_example :
    lance_merge_insert_with_schema_impl sample_spi sample_lib sample_merge sample_args 0 1 2
      (ok tt)
      []
      sample_cols
      sample_rows
    ≡ lance_merge_insert_impl sample_spi sample_lib sample_merge sample_args 0 1 2
        (ok tt)
        sample_cols
        sample_rows
lance_merge_insert_with_schema_empty_example =
    lance_merge_insert_with_schema_empty sample_spi sample_lib 0 1 2 sample_merge sample_args
      (ok tt) sample_cols [] sample_rows empty_object
