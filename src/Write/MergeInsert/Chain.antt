-- ===== src/Write/MergeInsert/Chain.antt =====
-- src/write/merge_insert.rs: the result of a merge, and the commits that it makes.
use pglance.Base.{
  ℕ, suc, ◌≡◌, ap, ◌∙◌, inl, inr, Option, some, List, Text, ok, err, ◌⊎◌, Result-cases, List-cases,
  length,
}
use pglance.Base.Int.{pos, wrap_i64}
use pglance.Write.{Write, WriteError, ArrowTypeOverrides, empty_on_columns}
use pglance.Write.Builder.{Spi}
use pglance.Write.Rows.{ArrowLib, Row}
use pglance.Write.Cursor.{for_each_spi_chunk_total, for_each_spi_chunk-count}
use pglance.Write.MergeInsert.{
  MergeLance, MergeArgs, MergeState, MergeRow, merge_chunk, merge_loop, unknown_unless_empty, start,
  lance_merge_insert_impl_inner,
}
use pglance.Write.MergeInsert.Commits.{Chain, loop-Chain}

module _ (spi : Spi) (lib : ArrowLib) (lance : MergeLance lib.RecordBatch) (args : MergeArgs) where
  open lib use {RecordBatch}
  open lance use {Dataset, open_dataset, field_names}

  -- The result of so many commits for so many rows.
  abbrev pub row_of : (chunk_rows k rows : ℕ) → MergeRow
  row_of chunk_rows k rows = record {
    rows_merged = wrap_i64 (pos rows);
    rows_inserted = unknown_unless_empty spi lib lance args rows;
    rows_updated = unknown_unless_empty spi lib lance args rows;
    chunk_txns = wrap_i64 (pos k);
    chunk_rows = wrap_i64 (pos chunk_rows);
  }

  module _ (limit batch_size chunk_rows : ℕ) (runtime : Write (Unit {0}))
      (overrides : Option ArrowTypeOverrides) (cols : List (Text × ℕ))
      (rows : List (Row spi lib)) where
    abbrev run : Option (Write (MergeState spi lib lance args × ℕ))
    run = merge_loop spi lib lance args limit batch_size chunk_rows runtime overrides cols rows

    merge_loop_total : (r : Write (MergeState spi lib lance args × ℕ)) × (run ≡ some r)
    unfolding merge_loop
    merge_loop_total = elim (List-cases args.on_columns) [
      | inl e ↦ (err empty_on_columns, rw (e, merge_loop))
      | inr (c, cs, e) ↦ elim (Result-cases runtime) [
        | inl (failure, f) ↦ (err failure, rw (e, merge_loop) (rw (f, merge_loop)))
        | inr (u, f) ↦
            let (r, done) =
              for_each_spi_chunk_total spi lib limit batch_size chunk_rows overrides
                (merge_chunk spi lib lance args) cols (start spi lib lance args) rows in
            (r, rw (e, merge_loop) (rw (f, merge_loop) done))
      ]
    ]

    merge_loop-ends :
        (end : MergeState spi lib lance args) (total : ℕ)
        → run ≡ some (ok (end, total))
        → Chain spi lib lance args limit batch_size chunk_rows overrides cols rows end.chunk_txns
          × (total ≡ length rows)
    unfolding merge_loop
    merge_loop-ends end total h = elim (List-cases args.on_columns) [
      | inl e ↦ let bad = rw (e, merge_loop) at h in absurd (cc)
      | inr (c, cs, e) ↦
          let h1 = rw (e, merge_loop) at h in
          elim (Result-cases runtime) [
            | inl (failure, f) ↦ let bad = rw (f, merge_loop) at h1 in absurd (cc)
            | inr (u, f) ↦
                let h2 = rw (f, merge_loop) at h1 in
                (
                  loop-Chain spi lib lance args limit batch_size chunk_rows overrides cols
                      (suc (length rows)) rows end total h2,
                  for_each_spi_chunk-count spi lib limit batch_size chunk_rows overrides
                      (merge_chunk spi lib lance args) cols (start spi lib lance args) rows end
                      total h2,
                )
          ]
    ]

    -- A merge always ends, for every query, chunk size and dataset: in an error, or with a commit for
    -- each fetch of the rows, in order. An empty source makes no commit. Otherwise the dataset is
    -- opened and has every join column; the first commit is made on it and each further one on the
    -- dataset that the one before it returned; a commit merges exactly the batches that the rows of
    -- its fetch are converted to, under the schema of the query, with the behaviour that the two words
    -- name and without the index when the setting forbids it; and no row is left after the last. The
    -- result counts these commits and the rows of the source, as 64-bit integers, and it gives the
    -- inserted and updated rows as 0 for an empty source, else -1.
    pub lance_merge_insert-Chain :
        ((e : WriteError) × (lance_merge_insert_impl_inner spi lib lance args limit batch_size
              chunk_rows runtime overrides cols rows
            ≡ some (err e)))
        ⊎ ((k : ℕ) × Chain spi lib lance args limit batch_size chunk_rows overrides cols rows k
            × (lance_merge_insert_impl_inner spi lib lance args limit batch_size chunk_rows runtime
                  overrides cols rows
                ≡ some (ok (row_of chunk_rows k (length rows)))))
    unfolding lance_merge_insert_impl_inner
    lance_merge_insert-Chain =
        let (r, done) = merge_loop_total in
        elim (Result-cases r) [
          | inl (e, f) ↦
              let q : run ≡ some (err e) = done ∙ ap some f in
              inl (e, rw (q, lance_merge_insert_impl_inner))
          | inr ((end, total), f) ↦
              let q : run ≡ some (ok (end, total)) = done ∙ ap some f in
              let (linked, count) = merge_loop-ends end total q in
              inr (end.chunk_txns, linked, rw (← count) (rw (q, lance_merge_insert_impl_inner)))
        ]
