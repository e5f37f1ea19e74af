-- ===== src/Write/Cursor.antt =====
-- src/write/pg_to_arrow.rs: `for_each_spi_chunk`, its end, its count, and what its handler keeps.
use pglance.Base.{
  ℕ, zero, suc, ◌+◌, ◌≤◌, ◌<◌, ◌≡◌, refl, sym, ap, ◌∙◌, Bool-cases, inl, inr, Option, none, some,
  List, [], ◌∷◌, Text, ok, err, >>=-eq-ok, Result-cases, ◌==◌, arith, length, length-append,
  length-drop, take-append-drop, take, drop, max,
}
use mathlib.Core.Path.{subst}
use pglance.Arrow.{Fields}
use pglance.Write.{Write, SpiColumnInfo, ArrowTypeOverrides, build_arrow_schema}
use pglance.Write.Builder.{Spi}
use pglance.Write.Rows.{
  ArrowLib, Row, new_builders, convert_spi_rows, fetch_count, known_columns, handle_chunk,
  loop_chunks, for_each_spi_chunk,
}
use pglance.Write.Batches.{batch_all, convert_spi_rows-chunks}
use pglance.Write.Chunks.{chunks}

module _ (spi : Spi) (lib : ArrowLib) where
  open lib use {RecordBatch}

  pub convert_spi_rows-count :
      (limit : ℕ) (cols : List SpiColumnInfo) (schema : Fields) (n : ℕ) (rows : List (Row spi lib))
      {bs : List RecordBatch} {count : ℕ}
      → convert_spi_rows spi lib limit cols schema n rows ≡ ok (bs, count)
      → count ≡ length rows
  unfolding convert_spi_rows
  convert_spi_rows-count limit cols schema n rows h =
      let (bs0, eb, e1) = >>=-eq-ok (new_builders cols) _ h in
      let (bs, ebs, e2) =
        >>=-eq-ok (batch_all spi lib limit cols schema bs0 0 (chunks n [] rows)) _
          (sym (convert_spi_rows-chunks spi lib limit cols schema bs0 n eb rows) ∙ h) in
      cc

  pub fetch_count-positive : (chunk_rows : ℕ) → 1 ≤ fetch_count spi lib chunk_rows
  fetch_count-positive chunk_rows = elim (Bool-cases (chunk_rows == 0)) [
    | inl e ↦ rw e (omega arith)
    | inr e ↦ rw e (ground arith)
  ]

  module _ {S : Type 0} (limit batch_size chunk_rows : ℕ) (overrides : Option ArrowTypeOverrides)
      (handle : S → Fields → List RecordBatch → Write S) where
    abbrev loop :
        ℕ
        → List (Text × ℕ)
        → Option (List SpiColumnInfo)
        → S
        → ℕ
        → List (Row spi lib)
        → Option (Write (S × ℕ))
    loop = loop_chunks spi lib limit batch_size chunk_rows overrides handle

    abbrev handled :
        Option (List SpiColumnInfo)
        → List (Text × ℕ)
        → S
        → List (Row spi lib)
        → Write (List SpiColumnInfo × S × ℕ)
    handled = handle_chunk spi lib limit batch_size chunk_rows overrides handle

    loop_ends :
        (fuel : ℕ) (cols : List (Text × ℕ)) (known : Option (List SpiColumnInfo)) (s : S)
        (total : ℕ) (rows : List (Row spi lib))
        → length rows < fuel
        → (r : Write (S × ℕ)) × (loop fuel cols known s total rows ≡ some r)
    unfolding loop_chunks
    loop_ends zero cols known s total rows h = absurd (omega arith)
    loop_ends (suc fuel) cols known s total [] h = (ok (s, total), refl)
    loop_ends (suc fuel) cols known s total (row ∷ rows) h =
        let rest = drop (fetch_count spi lib chunk_rows) (row ∷ rows) in
        let shorter : length rest < fuel = omega (
          arith,
          length-drop (fetch_count spi lib chunk_rows) (row ∷ rows),
          fetch_count-positive chunk_rows,
        ) in
        elim (Result-cases
          (handled known cols s (take (fetch_count spi lib chunk_rows) (row ∷ rows)))) [
            | inl (e, ee) ↦ (err e, rw (ee, loop_chunks))
            | inr ((infos, s', n), ei) ↦
                rw (ei, loop_chunks) (loop_ends fuel cols (some infos) s' (total + n) rest shorter)
          ]

    -- The loop over the fetches ends, with a result or an error, for every query and handler.
    pub for_each_spi_chunk_total :
        (cols : List (Text × ℕ)) (s : S) (rows : List (Row spi lib))
        → (r : Write (S × ℕ)) × (for_each_spi_chunk spi lib limit batch_size chunk_rows overrides
              handle cols s rows
            ≡ some r)
    for_each_spi_chunk_total cols s rows =
        loop_ends (suc (length rows)) cols none s 0 rows (omega arith)

    handled-count :
        (known : Option (List SpiColumnInfo)) (cols : List (Text × ℕ)) (s : S)
        (rows : List (Row spi lib)) {infos : List SpiColumnInfo} {s' : S} {n : ℕ}
        → handled known cols s rows ≡ ok (infos, s', n)
        → n ≡ length rows
    unfolding handle_chunk
    handled-count known cols s rows h =
        let (infos, ei, e1) =
          >>=-eq-ok (known_columns spi lib limit batch_size chunk_rows overrides handle known cols)
            _ h in
        let ((bs, m), ec, e2) =
          >>=-eq-ok
            (convert_spi_rows spi lib limit infos (build_arrow_schema infos) (max batch_size 1)
              rows)
            _ e1 in
        let (s', es, e3) = >>=-eq-ok (handle s (build_arrow_schema infos) bs) _ e2 in
        let count =
          convert_spi_rows-count limit infos (build_arrow_schema infos) (max batch_size 1) rows
            ec in
        cc

    loop-count :
        (fuel : ℕ) (cols : List (Text × ℕ)) (known : Option (List SpiColumnInfo)) (s : S)
        (total : ℕ) (rows : List (Row spi lib)) (end : S) (count : ℕ)
        → loop fuel cols known s total rows ≡ some (ok (end, count))
        → count ≡ total + length rows
    unfolding loop_chunks
    loop-count zero cols known s total rows end count h = cc
    loop-count (suc fuel) cols known s total [] end count h =
        let same : total ≡ count = cc in omega arith
    loop-count (suc fuel) cols known s total (row ∷ rows) end count h =
        let k = fetch_count spi lib chunk_rows in
        let chunk = take k (row ∷ rows) in
        elim (Result-cases (handled known cols s chunk)) [
          | inl (e, ee) ↦ let bad = rw (ee, loop_chunks) at h in absurd (cc)
          | inr ((infos, s', n), ei) ↦
              let ih =
                loop-count fuel cols (some infos) s' (total + n) (drop k (row ∷ rows)) end count
                  (rw (ei, loop_chunks) at h) in
              let whole = ap length (take-append-drop k (row ∷ rows)) in
              omega (
                arith,
                ih,
                whole,
                handled-count known cols s chunk ei,
                length-append chunk (drop k (row ∷ rows)),
              )
        ]

    -- When the loop over the fetches succeeds, the count that it returns is the number of the rows of
    -- the source query, whatever the sizes of the chunks and the batches.
    pub for_each_spi_chunk-count :
        (cols : List (Text × ℕ)) (s : S) (rows : List (Row spi lib)) (end : S) (count : ℕ)
        → for_each_spi_chunk spi lib limit batch_size chunk_rows overrides handle cols s rows
          ≡ some (ok (end, count))
        → count ≡ length rows
    for_each_spi_chunk-count cols s rows end count h =
        omega (arith, loop-count (suc (length rows)) cols none s 0 rows end count h)

    module _ (Inv : S → Type 0)
        (keeps : (s s' : S) (schema : Fields) (bs : List RecordBatch)
          → Inv s
          → handle s schema bs ≡ ok s'
          → Inv s') where
      handled-Inv :
          (known : Option (List SpiColumnInfo)) (cols : List (Text × ℕ)) (s : S)
          (rows : List (Row spi lib)) {infos : List SpiColumnInfo} {s' : S} {n : ℕ}
          → Inv s
          → handled known cols s rows ≡ ok (infos, s', n)
          → Inv s'
      unfolding handle_chunk
      handled-Inv known cols s rows i h =
          let (infos, ei, e1) =
            >>=-eq-ok
              (known_columns spi lib limit batch_size chunk_rows overrides handle known cols) _ h in
          let ((bs, m), ec, e2) =
            >>=-eq-ok
              (convert_spi_rows spi lib limit infos (build_arrow_schema infos) (max batch_size 1)
                rows)
              _ e1 in
          let (s', es, e3) = >>=-eq-ok (handle s (build_arrow_schema infos) bs) _ e2 in
          subst Inv {x = s'} (cc) (keeps s s' (build_arrow_schema infos) bs i es)

      loop-Inv :
          (fuel : ℕ) (cols : List (Text × ℕ)) (known : Option (List SpiColumnInfo)) (s : S)
          (total : ℕ) (rows : List (Row spi lib)) (end : S) (count : ℕ)
          → Inv s
          → loop fuel cols known s total rows ≡ some (ok (end, count))
          → Inv end
      unfolding loop_chunks handle_chunk
      loop-Inv zero cols known s total rows end count i h = cc
      loop-Inv (suc fuel) cols known s total [] end count i h =
          let same : s ≡ end = cc in subst Inv same i
      loop-Inv (suc fuel) cols known s total (row ∷ rows) end count i h =
          let k = fetch_count spi lib chunk_rows in
          elim (Result-cases (handled known cols s (take k (row ∷ rows)))) [
            | inl (e, ee) ↦ let bad = rw (ee, loop_chunks) at h in absurd (cc)
            | inr ((infos, s', n), ei) ↦
                loop-Inv fuel cols (some infos) s' (total + n) (drop k (row ∷ rows)) end count
                  (handled-Inv known cols s (take k (row ∷ rows)) i ei) (rw (ei, loop_chunks) at h)
          ]

      -- What every call of the handler keeps holds at the end.
      pub for_each_spi_chunk-Inv :
          (cols : List (Text × ℕ)) (s : S) (rows : List (Row spi lib)) (end : S) (count : ℕ)
          → Inv s
          → for_each_spi_chunk spi lib limit batch_size chunk_rows overrides handle cols s rows
            ≡ some (ok (end, count))
          → Inv end
      for_each_spi_chunk-Inv cols s rows end count i h =
          loop-Inv (suc (length rows)) cols none s 0 rows end count i h
