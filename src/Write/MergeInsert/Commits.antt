-- ===== src/Write/MergeInsert/Commits.antt =====
-- src/write/merge_insert.rs: the merges of the chunks, one on the result of the other.
use pglance.Base.{
  ℕ, zero, suc, ◌+◌, ◌≡◌, ◌≢◌, refl, sym, take, drop, max, take-cons, ap, ◌∙◌, inl, inr, true,
  Option, none, some, List, [], ◌∷◌, Text, ok, ◌⊎◌, >>=-eq-ok, Result-cases, length, All, arith,
}
use mathlib.Core.Path.{subst}
use pglance.Write.{Write, SpiColumnInfo, build_arrow_schema, ArrowTypeOverrides, is_one_of}
use pglance.Write.Builder.{Spi}
use pglance.Write.Rows.{
  ArrowLib, Row, convert_spi_rows, fetch_count, derive_columns, known_columns, handle_chunk,
  loop_chunks,
}
use pglance.Write.Cursor.{fetch_count-positive, convert_spi_rows-count}
use pglance.Write.Batches.{convert_spi_rows-nonempty}
use pglance.Write.MergeInsert.{MergeLance, MergeArgs, MergeState, merge_chunk, start}
use pglance.Write.MergeInsert.Merged.{Merged, merge_chunk-next, merge_chunk-first}

module _ (spi : Spi) (lib : ArrowLib) (lance : MergeLance lib.RecordBatch) (args : MergeArgs) where
  open lib use {RecordBatch}
  open lance use {Dataset, open_dataset, field_names}

  module _ (limit batch_size chunk_rows : ℕ) (overrides : Option ArrowTypeOverrides)
      (cols : List (Text × ℕ)) where
    abbrev columns : List (Text × ℕ) → Write (List SpiColumnInfo)
    columns =
        derive_columns spi lib limit batch_size chunk_rows overrides
          (merge_chunk spi lib lance args)

    -- The batches that the rows of one fetch are converted to.
    abbrev Converted : List SpiColumnInfo → List (Row spi lib) → List RecordBatch → Type 0
    Converted infos fetched batches =
        convert_spi_rows spi lib limit infos (build_arrow_schema infos) (max batch_size 1) fetched
        ≡ ok (batches, length fetched)

    -- So many commits, from a dataset to the last: each takes the next fetch of the rows, converts it,
    -- and merges exactly these batches into the dataset that the commit before it returned. No row is
    -- left after the last.
    abbrev pub Commits : List SpiColumnInfo → ℕ → Dataset → List (Row spi lib) → Dataset → Type 0
    Commits infos zero current left end = (left ≡ []) × (current ≡ end)
    Commits infos (suc k) current left end =
        (left ≢ [])
        × (batches : List RecordBatch) × (updated : Dataset) × Converted infos
            (take (fetch_count spi lib chunk_rows) left) batches
        × Merged spi lib lance args current (build_arrow_schema infos) batches updated
        × Commits infos k updated (drop (fetch_count spi lib chunk_rows) left) end

    -- The commits of a source: none for an empty one; else the dataset is opened, has every join
    -- column, and takes the commits, with the columns that the query has.
    abbrev pub Chain : List (Row spi lib) → ℕ → Type 0
    Chain left k =
        (left ≡ []) × (k ≡ 0)
        ⊎ ((infos : List SpiColumnInfo) × (columns cols ≡ ok infos)
            × (opened : Dataset) × (open_dataset ≡ ok opened)
            × All (λ c. is_one_of c (field_names opened) ≡ true) args.on_columns
            × (end : Dataset) × Commits infos k opened left end)

    abbrev handled :
        Option (List SpiColumnInfo)
        → MergeState spi lib lance args
        → List (Row spi lib)
        → Write (List SpiColumnInfo × MergeState spi lib lance args × ℕ)
    handled known s fetched =
        handle_chunk spi lib limit batch_size chunk_rows overrides (merge_chunk spi lib lance args)
          known cols s fetched

    -- A fetch that is handled: its columns, its batches, of which there is one, and the merge.
    Handled :
        Option (List SpiColumnInfo)
        → MergeState spi lib lance args
        → List (Row spi lib)
        → List SpiColumnInfo
        → MergeState spi lib lance args
        → Type 0
    Handled known s fetched infos s' =
        (known_columns spi lib limit batch_size chunk_rows overrides
            (merge_chunk spi lib lance args) known cols
          ≡ ok infos)
        × (b : RecordBatch) × (bs : List RecordBatch) × Converted infos fetched (b ∷ bs)
        × (merge_chunk spi lib lance args s (build_arrow_schema infos) (b ∷ bs) ≡ ok s')

    handled-Handled :
        (known : Option (List SpiColumnInfo)) (s : MergeState spi lib lance args)
        (row : Row spi lib) (more : List (Row spi lib)) {infos : List SpiColumnInfo}
        {s' : MergeState spi lib lance args} {n : ℕ}
        → handled known s (take (fetch_count spi lib chunk_rows) (row ∷ more)) ≡ ok (infos, s', n)
        → Handled known s (take (fetch_count spi lib chunk_rows) (row ∷ more)) infos s'
    unfolding handle_chunk Handled
    handled-Handled known s row more {infos} {s'} h =
        let fetched = take (fetch_count spi lib chunk_rows) (row ∷ more) in
        let (found, ei, e1) =
          >>=-eq-ok
            (known_columns spi lib limit batch_size chunk_rows overrides
              (merge_chunk spi lib lance args) known cols)
            _ h in
        let ((bs, m), ec, e2) =
          >>=-eq-ok
            (convert_spi_rows spi lib limit found (build_arrow_schema found) (max batch_size 1)
              fetched)
            _ e1 in
        let (s'', es, e3) =
          >>=-eq-ok (merge_chunk spi lib lance args s (build_arrow_schema found) bs) _ e2 in
        let same_infos : found ≡ infos = cc in
        let same_state : s'' ≡ s' = cc in
        let (first_row, others, some_rows) =
          take-cons (fetch_count spi lib chunk_rows) row more
            (fetch_count-positive spi lib chunk_rows) in
        let (b, rest, nonempty) =
          convert_spi_rows-nonempty spi lib limit found (build_arrow_schema found)
            (max batch_size 1) fetched first_row others some_rows ec in
        let count =
          convert_spi_rows-count spi lib limit found (build_arrow_schema found) (max batch_size 1)
            fetched ec in
        rw (← same_infos, ← same_state)
          (
            ei,
            b,
            rest,
            ec ∙ ap ok (ap (λ l. (l, m)) nonempty ∙ ap (λ k. (b ∷ rest, k)) count),
            subst (λ l. merge_chunk spi lib lance args s (build_arrow_schema found) l ≡ ok s'')
                nonempty es,
          )

    abbrev loop :
        ℕ
        → Option (List SpiColumnInfo)
        → MergeState spi lib lance args
        → ℕ
        → List (Row spi lib)
        → Option (Write (MergeState spi lib lance args × ℕ))
    loop fuel known s total left =
        loop_chunks spi lib limit batch_size chunk_rows overrides (merge_chunk spi lib lance args)
          fuel cols known s total left

    -- The commits of the fetches after the first.
    loop-Commits :
        (fuel : ℕ) (infos : List SpiColumnInfo) (s : MergeState spi lib lance args)
        (current : Dataset) (total : ℕ) (left : List (Row spi lib))
        (end : MergeState spi lib lance args) (count : ℕ)
        → s.dataset ≡ some current
        → loop fuel (some infos) s total left ≡ some (ok (end, count))
        → (k : ℕ) × (last : Dataset) × Commits infos k current left last
          × (end.chunk_txns ≡ s.chunk_txns + k)
    unfolding loop_chunks Handled
    loop-Commits zero infos s current total left end count e h = absurd (cc)
    loop-Commits (suc fuel) infos s current total [] end count e h =
        let same : s ≡ end = cc in (0, current, (refl, refl), rw (← same) (omega arith))
    loop-Commits (suc fuel) infos s current total (row ∷ more) end count e h =
        let n = fetch_count spi lib chunk_rows in
        elim (Result-cases (handled (some infos) s (take n (row ∷ more)))) [
          | inl (f, ef) ↦ let bad = rw (ef, loop_chunks) at h in absurd (cc)
          | inr ((found, s', m), ei) ↦
              let (known, b, bs, converted, ran) = handled-Handled (some infos) s row more ei in
              let same : infos ≡ found = cc in
              let (updated, merged, ed, ek) =
                merge_chunk-next spi lib lance args s s' current (build_arrow_schema found) b bs e
                  ran in
              let (k, last, commits, total_txns) =
                loop-Commits fuel found s' updated (total + m) (drop n (row ∷ more)) end count ed
                  (rw (ei, loop_chunks) at h) in
              (
                suc k,
                last,
                subst (λ i. Commits i (suc k) current (row ∷ more) last) (sym same)
                    (λ bad. cc, b ∷ bs, updated, converted, merged, commits),
                omega arith,
              )
        ]

    pub loop-Chain :
        (fuel : ℕ) (left : List (Row spi lib)) (end : MergeState spi lib lance args) (count : ℕ)
        → loop fuel none (start spi lib lance args) 0 left ≡ some (ok (end, count))
        → Chain left end.chunk_txns
    unfolding loop_chunks Handled
    loop-Chain zero left end count h = absurd (cc)
    loop-Chain (suc fuel) [] end count h =
        let same : start spi lib lance args ≡ end = cc in inl (refl, rw (← same) refl)
    loop-Chain (suc fuel) (row ∷ more) end count h =
        let n = fetch_count spi lib chunk_rows in
        let s = start spi lib lance args in
        elim (Result-cases (handled none s (take n (row ∷ more)))) [
          | inl (f, ef) ↦ let bad = rw (ef, loop_chunks) at h in absurd (cc)
          | inr ((infos, s', m), ei) ↦
              let (known, b, bs, converted, ran) = handled-Handled none s row more ei in
              let (opened, eo, has, (updated, merged, ed, ek)) =
                merge_chunk-first spi lib lance args s s' (build_arrow_schema infos) b bs refl
                  ran in
              let (k, last, commits, total_txns) =
                loop-Commits fuel infos s' updated (0 + m) (drop n (row ∷ more)) end count ed
                  (rw (ei, loop_chunks) at h) in
              let txns : suc k ≡ end.chunk_txns = omega arith in
              inr (
                infos,
                known,
                opened,
                eo,
                has,
                last,
                subst (λ j. Commits infos j opened (row ∷ more) last) txns
                    (λ bad. cc, b ∷ bs, updated, converted, merged, commits),
              )
        ]
