-- ===== src/Write/MergeInsert/Same.antt =====
-- src/write/merge_insert.rs: the function with a schema against the one without, and the empty
-- source.
use pglance.Base.{
  ℕ, zero, suc, ◌+◌, ◌≡◌, refl, inl, inr, Option, none, some, List, [], ◌∷◌, Text, ok, Result-cases,
  List-cases, take, drop, length,
}
use pglance.Arrow.{Fields}
use pglance.Convert.External.{end, object}
use pglance.Write.{
  Write, ArrowTypeOverrides, SpiColumnInfo, apply_arrow_type_overrides, parse_members,
  parse_arrow_type_overrides,
}
use pglance.Write.Builder.{Spi}
use pglance.Write.Rows.{ArrowLib, Row, fetch_count, handle_chunk, loop_chunks}
use pglance.Write.MergeInsert.{
  MergeLance, MergeArgs, merge_chunk, merge_loop, start, lance_merge_insert_impl_inner,
  lance_merge_insert_impl, lance_merge_insert_with_schema_impl,
}

module _ (spi : Spi) (lib : ArrowLib) (limit batch_size chunk_rows : ℕ) where
  open lib use {RecordBatch}

  module _ {S : Type 0} (handle : S → Fields → List RecordBatch → Write S) where
    abbrev handled :
        Option ArrowTypeOverrides
        → Option (List SpiColumnInfo)
        → List (Text × ℕ)
        → S
        → List (Row spi lib)
        → Write (List SpiColumnInfo × S × ℕ)
    handled overrides = handle_chunk spi lib limit batch_size chunk_rows overrides handle

    handled_same :
        (known : Option (List SpiColumnInfo)) (cols : List (Text × ℕ)) (s : S)
        (rows : List (Row spi lib))
        → handled (some []) known cols s rows ≡ handled none known cols s rows
    unfolding handle_chunk apply_arrow_type_overrides
    handled_same none cols s rows = refl
    handled_same (some infos) cols s rows = refl

    loop_same :
        (fuel : ℕ) (cols : List (Text × ℕ)) (known : Option (List SpiColumnInfo)) (s : S)
        (total : ℕ) (rows : List (Row spi lib))
        → loop_chunks spi lib limit batch_size chunk_rows
            (some [])
            handle
            fuel
            cols
            known
            s
            total
            rows
          ≡ loop_chunks spi lib limit batch_size chunk_rows none handle fuel cols known s total rows
    unfolding loop_chunks
    loop_same zero cols known s total rows = refl
    loop_same (suc fuel) cols known s total [] = refl
    loop_same (suc fuel) cols known s total (row ∷ rows) =
        let k = fetch_count spi lib chunk_rows in
        let same = handled_same known cols s (take k (row ∷ rows)) in
        elim (Result-cases (handled none known cols s (take k (row ∷ rows)))) [
          | inl (e, f) ↦ rw (same, loop_chunks) (rw (f, loop_chunks))
          | inr ((infos, s', n), f) ↦
              rw (same, loop_chunks)
                (rw (f, loop_chunks)
                  (loop_same fuel cols (some infos) s' (total + n) (drop k (row ∷ rows))))
        ]

  module _ (lance : MergeLance RecordBatch) (args : MergeArgs) (runtime : Write (Unit {0}))
      (cols : List (Text × ℕ)) where
    merge_loop_same :
        (rows : List (Row spi lib))
        → merge_loop spi lib lance args limit batch_size chunk_rows runtime (some []) cols rows
          ≡ merge_loop spi lib lance args limit batch_size chunk_rows runtime none cols rows
    unfolding merge_loop
    merge_loop_same rows = elim (List-cases args.on_columns) [
      | inl e ↦ rw (e, merge_loop)
      | inr (c, cs, e) ↦ elim (Result-cases runtime) [
        | inl (failure, f) ↦ rw (e, merge_loop) (rw (f, merge_loop))
        | inr (u, f) ↦
            rw (e, merge_loop)
              (rw (f, merge_loop)
                (loop_same (merge_chunk spi lib lance args) (suc (length rows)) cols none
                  (start spi lib lance args) 0 rows))
      ]
    ]

    -- A `column_types` argument that is the empty JSON object changes nothing: for every query, the
    -- merge with a schema returns what the merge without one returns, errors included.
    pub lance_merge_insert_with_schema_empty :
        (overrides : ArrowTypeOverrides) (rows : List (Row spi lib))
        → parse_arrow_type_overrides (object end) ≡ ok overrides
        → lance_merge_insert_with_schema_impl spi lib lance args limit batch_size chunk_rows runtime
            overrides cols rows
          ≡ lance_merge_insert_impl spi lib lance args limit batch_size chunk_rows runtime cols rows
    unfolding lance_merge_insert_with_schema_impl lance_merge_insert_impl
        lance_merge_insert_impl_inner parse_arrow_type_overrides parse_members
    lance_merge_insert_with_schema_empty overrides rows h =
        let none_given : overrides ≡ [] = cc in
        rw none_given (rw (merge_loop_same rows, lance_merge_insert_impl_inner))
