-- ===== src/Write/Batches.antt =====
-- src/write/pg_to_arrow.rs: `convert_spi_rows` against its description by chunks.
use pglance.Base.{
  concat, All, ◌≤◌, ℕ, suc, ◌+◌, ◌≡◌, refl, sym, ap, ◌∙◌, >>=-eq-ok, List-cases, Bool-cases, inl,
  inr, List, [], ◌∷◌, ◌++◌, ok, err, ◌>>=◌, ◌>>◌, Result-cases, leb, lt→ltb, arith, length,
  length-append, map,
}
use mathlib.Core.List.{append_assoc, append-nil}
use native.Mathlib.Nat.{zero-add}
use pglance.Arrow.{Fields}
use pglance.Write.{Write, SpiColumnInfo}
use pglance.Write.Builder.{TypedBuilder, Spi, finish}
use pglance.Write.Rows.{
  ArrowLib, new_builders, Row, append_row, Batching, check_buffer, loop_rows, flush,
  convert_spi_rows,
}
use pglance.Write.Chunks.{concat-chunks, chunks-Sized, Sized, chunks}

add_zero : (n : ℕ) → n + 0 ≡ n
add_zero n = omega arith

-- One more batch in front, and its row counted.
shift_batch :
    {B : Type 0} (m : Write (List B)) (batches : List B) (batch : B) (total k : ℕ)
    → ◌>>=◌ {B = List B × ℕ} m (λ bs. ok ((batches ++ (batch ∷ [])) ++ bs, total + 1 + k))
      ≡ ◌>>=◌ {B = List B × ℕ}
          (m >>= λ rest. ok (batch ∷ rest))
          (λ bs. ok (batches ++ bs, total + suc k))
shift_batch (ok bs) batches batch total k =
    let sum : total + 1 + k ≡ total + suc k = omega arith in rw (append_assoc, sum)
shift_batch (err e) batches batch total k = refl

shift_total :
    {B : Type 0} (m : Write (List B)) (batches : List B) (total k : ℕ)
    → ◌>>=◌ {B = List B × ℕ} m (λ bs. ok (batches ++ bs, total + 1 + k))
      ≡ ◌>>=◌ {B = List B × ℕ} m (λ bs. ok (batches ++ bs, total + suc k))
shift_total (ok bs) batches total k =
    let sum : total + 1 + k ≡ total + suc k = omega arith in rw sum
shift_total (err e) batches total k = refl

module _ (spi : Spi) (lib : ArrowLib) where
  open lib use {RecordBatch, try_new, memory_size}

  abbrev pub append_rows :
      List TypedBuilder → List SpiColumnInfo → List (Row spi lib) → List TypedBuilder
  append_rows bs cols [] = bs
  append_rows bs cols (row ∷ rows) = append_rows (append_row spi lib bs cols 0 row) cols rows

  append_rows-append :
      (bs : List TypedBuilder) (cols : List SpiColumnInfo) (rows : List (Row spi lib))
      (row : Row spi lib)
      → append_rows bs cols (rows ++ (row ∷ []))
        ≡ append_row spi lib (append_rows bs cols rows) cols 0 row
  append_rows-append bs cols [] row = refl
  append_rows-append bs cols (r ∷ rows) row =
      append_rows-append (append_row spi lib bs cols 0 r) cols rows row

  module _ (limit : ℕ) (cols : List SpiColumnInfo) (schema : Fields) (bs0 : List TypedBuilder) where
    -- The batch of a chunk: fresh builders, all its rows, one array for each column.
    abbrev pub batch_of : List (Row spi lib) → Write RecordBatch
    batch_of rows = try_new schema (map finish (append_rows bs0 cols rows))

    -- One batch for each chunk, within the limit of bytes, after `buffered` bytes.
    unfoldable pub batch_all : ℕ → List (List (Row spi lib)) → Write (List RecordBatch)
    batch_all buffered [] = ok []
    batch_all buffered (c ∷ cs) = do
      batch ← batch_of c
      check_buffer spi lib limit (buffered + memory_size batch)
      rest ← batch_all (buffered + memory_size batch) cs
      ok (batch ∷ rest)

    module _ (n : ℕ) where
      -- The state of the loop after the rows `pending` of the current batch.
      abbrev at_rows : List (Row spi lib) → ℕ → List RecordBatch → ℕ → Batching spi lib
      at_rows pending buffered batches total = record {
        builders = append_rows bs0 cols pending;
        rows_in_batch = length pending;
        buffered_bytes = buffered;
        batches = batches;
        total_rows = total;
      }

      abbrev finish_loop : Batching spi lib → List (Row spi lib) → Write (List RecordBatch × ℕ)
      finish_loop s rows = do
        s' ← loop_rows spi lib limit cols schema n s rows
        s'' ← flush spi lib limit cols schema n s'
        ok (s''.batches, s''.total_rows)

      flush_lem :
          (pending : List (Row spi lib)) (buffered : ℕ) (batches : List RecordBatch) (total : ℕ)
          → finish_loop (at_rows pending buffered batches total) []
            ≡ (batch_all buffered (chunks n pending []) >>= λ bs. ok (batches ++ bs, total + 0))
      unfolding loop_rows chunks batch_all
      flush_lem [] buffered batches total = rw (append-nil batches, add_zero total)
      flush_lem (p ∷ ps) buffered batches total =
          let one = lt→ltb 0 (suc (length ps)) (omega arith) in
          elim (Result-cases (batch_of (p ∷ ps))) [
            | inl (x, ex) ↦ rw (one, ex)
            | inr (batch, eb) ↦
                elim (Result-cases (check_buffer spi lib limit (buffered + memory_size batch))) [
                  | inl (x, ex) ↦ rw (one, eb, ex)
                  | inr (u, eu) ↦ rw (one, eb, eu, add_zero total)
                ]
          ]

      loop_lem :
          new_builders cols ≡ ok bs0
          → (pending rows : List (Row spi lib)) (buffered : ℕ) (batches : List RecordBatch)
            (total : ℕ)
          → finish_loop (at_rows pending buffered batches total) rows ≡ (
              batch_all buffered (chunks n pending rows) >>= λ bs.
              ok (batches ++ bs, total + length rows))
      unfolding loop_rows chunks batch_all
      loop_lem e pending [] buffered batches total = flush_lem pending buffered batches total
      loop_lem e pending (row ∷ rows) buffered batches total =
          elim (Bool-cases (leb n (length pending + 1))) [
            | inl f ↦ elim (Result-cases (batch_of (pending ++ (row ∷ [])))) [
              | inl (x, ex) ↦ rw (f, ← append_rows-append bs0 cols pending row, ex)
              | inr (batch, eb) ↦
                  elim (Result-cases (check_buffer spi lib limit (buffered + memory_size batch))) [
                    | inl (x, ex) ↦ rw (f, ← append_rows-append bs0 cols pending row, eb, ex)
                    | inr (u, eu) ↦
                        rw (f, ← append_rows-append bs0 cols pending row, eb, eu, e)
                          (loop_lem e [] rows (buffered + memory_size batch)
                              (batches ++ (batch ∷ [])) (total + 1)
                            ∙ shift_batch
                                (batch_all (buffered + memory_size batch) (chunks n [] rows))
                                batches batch total (length rows))
                  ]
            ]
            | inr f ↦
                let ih = loop_lem e (pending ++ (row ∷ [])) rows buffered batches (total + 1) in
                rw (f, ← append_rows-append bs0 cols pending row)
                  ((rw (length-append pending (row ∷ [])) at ih)
                    ∙ shift_total (batch_all buffered (chunks n (pending ++ (row ∷ [])) rows))
                        batches total (length rows))
          ]

    pub convert_spi_rows-chunks :
        (n : ℕ)
        → new_builders cols ≡ ok bs0
        → (rows : List (Row spi lib))
        → convert_spi_rows spi lib limit cols schema n rows
          ≡ (batch_all 0 (chunks n [] rows) >>= λ bs. ok (bs, length rows))
    unfolding convert_spi_rows
    convert_spi_rows-chunks n e rows =
        rw (e, ← zero-add (length rows)) (loop_lem n e [] rows 0 [] 0)

    -- `convert_spi_rows` cuts its rows, none lost, doubled or moved, into chunks of one up to
    -- `batch_size` rows, and makes of each chunk the batch of fresh builders with exactly its rows. It
    -- fails where the first of them fails or the bytes of the batches so far pass the limit (0 is no
    -- limit), and counts every row. The columns have builders, and the batch size is at least 1.
    pub convert_spi_rows-cut :
        (batch_size : ℕ)
        → 1 ≤ batch_size
        → new_builders cols ≡ ok bs0
        → (rows : List (Row spi lib))
        → (cut : List (List (Row spi lib))) × (concat cut ≡ rows)
          × All (Sized batch_size) cut
          × (convert_spi_rows spi lib limit cols schema batch_size rows
              ≡ (batch_all 0 cut >>= λ bs. ok (bs, length rows)))
    convert_spi_rows-cut n h e rows = (
      chunks n [] rows,
      concat-chunks n [] rows,
      chunks-Sized n [] rows (omega arith),
      convert_spi_rows-chunks n e rows,
    )

  batch_all-nonempty :
      (limit : ℕ) (cols : List SpiColumnInfo) (schema : Fields) (bs0 : List TypedBuilder)
      (buffered : ℕ) (c : List (Row spi lib)) (cs : List (List (Row spi lib)))
      {bs : List RecordBatch}
      → batch_all limit cols schema bs0 buffered (c ∷ cs) ≡ ok bs
      → (b : RecordBatch) × (rest : List RecordBatch) × (bs ≡ b ∷ rest)
  unfolding batch_all
  batch_all-nonempty limit cols schema bs0 buffered c cs h =
      let (b, eb, h1) = >>=-eq-ok (batch_of limit cols schema bs0 c) _ h in
      let (u, eu, h2) = >>=-eq-ok (check_buffer spi lib limit (buffered + memory_size b)) _ h1 in
      let (rest, er, h3) =
        >>=-eq-ok (batch_all limit cols schema bs0 (buffered + memory_size b) cs) _ h2 in
      (b, rest, cc)

  -- Rows that are converted make at least one batch.
  pub convert_spi_rows-nonempty :
      (limit : ℕ) (cols : List SpiColumnInfo) (schema : Fields) (n : ℕ) (rows : List (Row spi lib))
      (row : Row spi lib) (more : List (Row spi lib)) {bs : List RecordBatch} {count : ℕ}
      → rows ≡ row ∷ more
      → convert_spi_rows spi lib limit cols schema n rows ≡ ok (bs, count)
      → (b : RecordBatch) × (rest : List RecordBatch) × (bs ≡ b ∷ rest)
  unfolding convert_spi_rows
  convert_spi_rows-nonempty limit cols schema n rows row more {bs} e h =
      let (bs0, eb, e1) = >>=-eq-ok (new_builders cols) _ h in
      let (found, ebs, e2) =
        >>=-eq-ok (batch_all limit cols schema bs0 0 (chunks n [] rows)) _
          (sym (convert_spi_rows-chunks limit cols schema bs0 n eb rows) ∙ h) in
      let same : found ≡ bs = cc in
      elim (List-cases (chunks n [] rows)) [
        | inl none_cut ↦
            let gone : [] ≡ rows = sym (ap concat none_cut) ∙ concat-chunks n [] rows in absurd (cc)
        | inr (c, cs, cut) ↦
            let all = rw cut at ebs in
            let (b, rest, nonempty) = batch_all-nonempty limit cols schema bs0 0 c cs all in
            (b, rest, sym same ∙ nonempty)
      ]
