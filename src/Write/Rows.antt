-- ===== src/Write/Rows.antt =====
-- src/write/pg_to_arrow.rs: `convert_spi_rows` and `for_each_spi_chunk`. `RecordBatch::try_new` and
-- the memory size of a batch are parameters, as is the handler of the chunks.
use pglance.Base.{
  ℕ, zero, suc, ◌+◌, ◌^◌, ◌-◌, min, max, ◌&&◌, Option, none, some, List, [], ◌∷◌, ◌++◌, Text, ok,
  err, ◌>>=◌, ◌>>◌, ◌==◌, ltb, leb, if◌then◌else◌, get_elem?, length, take, drop, map,
}
use pglance.Arrow.{Fields}
use pglance.Convert.Arrays.{Array}
use pglance.Write.{
  Write, SpiColumnInfo, buffer_limit, build_arrow_schema, ArrowTypeOverrides, extract_spi_columns,
  apply_arrow_type_overrides,
}
use pglance.Write.Builder.{TypedBuilder, Spi, new_builder, finish, append_datum}

pub record ArrowLib : Type 1 where
  pub RecordBatch : Type 0
  pub try_new : Fields → List Array → Write RecordBatch
  -- the sum of `get_array_memory_size` over the columns
  pub memory_size : RecordBatch → ℕ

-- `iter().map(|c| TypedBuilder::new(…)).collect::<Result<Vec<_>, _>>()`
unfoldable pub new_builders : List SpiColumnInfo → Write (List TypedBuilder)
new_builders [] = ok []
new_builders (c ∷ cs) = do b ← new_builder c.arrow_type; bs ← new_builders cs; ok (b ∷ bs)

module _ (spi : Spi) (lib : ArrowLib) where
  open spi use {SpiDatum}
  open lib use {RecordBatch, try_new, memory_size}

  -- A row of a tuple table: its datums by column.
  abbrev pub Row : Type 0
  Row = List SpiDatum

  -- The inner loop, from the column of index `i`. There is one builder for each column.
  unfoldable pub append_row : List TypedBuilder → List SpiColumnInfo → ℕ → Row → List TypedBuilder
  append_row (b ∷ bs) (c ∷ cs) i row =
      append_datum spi b (get_elem? row i) c.pg_oid ∷ append_row bs cs (i + 1) row
  append_row bs cs i row = bs

  pub record Batching : Type 0 where
    pub builders : List TypedBuilder
    pub rows_in_batch : ℕ
    pub buffered_bytes : ℕ
    pub batches : List RecordBatch
    pub total_rows : ℕ

  -- `if max_buffer_bytes > 0 && buffered_bytes > max_buffer_bytes { return Err(…) }`
  abbrev pub check_buffer : ℕ → ℕ → Write (Unit {0})
  check_buffer max_buffer_bytes buffered =
      if ltb 0 max_buffer_bytes && ltb max_buffer_bytes buffered
      then err (buffer_limit max_buffer_bytes buffered)
      else ok tt

  module _ (max_buffer_bytes : ℕ) (cols : List SpiColumnInfo) (schema : Fields)
      (batch_size : ℕ) where
    -- The batch of the builders, added to the batches and to the bytes counted.
    abbrev pub push_batch : Batching → Write Batching
    push_batch s = do
      batch ← try_new schema (map finish s.builders)
      check_buffer max_buffer_bytes (s.buffered_bytes + memory_size batch)
      ok (record {
        builders = s.builders;
        rows_in_batch = s.rows_in_batch;
        buffered_bytes = s.buffered_bytes + memory_size batch;
        batches = s.batches ++ (batch ∷ []);
        total_rows = s.total_rows;
      })

    abbrev pub reset_builders : Batching → Write Batching
    reset_builders s = do
      bs ← new_builders cols
      ok (record {
        builders = bs;
        rows_in_batch = 0;
        buffered_bytes = s.buffered_bytes;
        batches = s.batches;
        total_rows = s.total_rows;
      })

    abbrev pub add_row : Batching → Row → Batching
    add_row s row = record {
      builders = append_row s.builders cols 0 row;
      rows_in_batch = s.rows_in_batch + 1;
      buffered_bytes = s.buffered_bytes;
      batches = s.batches;
      total_rows = s.total_rows + 1;
    }

    -- The body of the outer loop.
    abbrev pub step_row : Batching → Row → Write Batching
    step_row s row =
        if leb batch_size (s.rows_in_batch + 1)
        then push_batch (add_row s row) >>= reset_builders
        else ok (add_row s row)

    unfoldable pub loop_rows : Batching → List Row → Write Batching
    loop_rows s [] = ok s
    loop_rows s (row ∷ rows) = do s' ← step_row s row; loop_rows s' rows

    abbrev pub flush : Batching → Write Batching
    flush s = if ltb 0 s.rows_in_batch then push_batch s else ok s

    unfoldable pub convert_spi_rows : List Row → Write (List RecordBatch × ℕ)
    convert_spi_rows rows = do
      bs ← new_builders cols
      s ←
          loop_rows
            (record {
              builders = bs;
              rows_in_batch = 0;
              buffered_bytes = 0;
              batches = [];
              total_rows = 0;
            })
            rows
      s' ← flush s
      ok (s'.batches, s'.total_rows)

  -- `c_long::MAX`
  abbrev pub c_long_max : ℕ
  c_long_max = 2 ^ 63 - 1

  abbrev pub fetch_count : ℕ → ℕ
  fetch_count chunk_rows = if chunk_rows == 0 then c_long_max else min chunk_rows c_long_max

  module _ {S : Type 0} (max_buffer_bytes batch_size chunk_rows : ℕ)
      (overrides : Option ArrowTypeOverrides)
      (handle : S → Fields → List RecordBatch → Write S) where
    -- The schema of the first fetch.
    abbrev pub derive_columns : List (Text × ℕ) → Write (List SpiColumnInfo)
    derive_columns cols = do
      infos ← extract_spi_columns cols
      elim overrides [ none ↦ ok infos | some o ↦ apply_arrow_type_overrides infos o ]

    abbrev pub known_columns :
        Option (List SpiColumnInfo) → List (Text × ℕ) → Write (List SpiColumnInfo)
    known_columns none cols = derive_columns cols
    known_columns (some infos) cols = ok infos

    -- One pass of the loop: the columns, the handler's state and the rows of the fetch.
    unfoldable pub handle_chunk :
        Option (List SpiColumnInfo)
        → List (Text × ℕ)
        → S
        → List Row
        → Write (List SpiColumnInfo × S × ℕ)
    handle_chunk known cols s tuptable = do
      infos ← known_columns known cols
      converted ←
          convert_spi_rows max_buffer_bytes infos (build_arrow_schema infos) (max batch_size 1)
            tuptable
      s' ← handle s (build_arrow_schema infos) converted.0
      ok (infos, s', converted.1)

    -- The loop over the fetches of the cursor, on fuel: `rows` are the rows that the cursor still
    -- has. `none` is out of fuel.
    unfoldable pub loop_chunks :
        ℕ
        → List (Text × ℕ)
        → Option (List SpiColumnInfo)
        → S
        → ℕ
        → List Row
        → Option (Write (S × ℕ))
    loop_chunks zero cols known s total rows = none
    loop_chunks (suc fuel) cols known s total [] = some (ok (s, total))
    loop_chunks (suc fuel) cols known s total (row ∷ rows) =
        elim (handle_chunk known cols s (take (fetch_count chunk_rows) (row ∷ rows))) [
          | err e ↦ some (err e)
          | ok (infos, s', n) ↦
              loop_chunks fuel cols (some infos) s' (total + n)
                (drop (fetch_count chunk_rows) (row ∷ rows))
        ]

    abbrev pub for_each_spi_chunk : List (Text × ℕ) → S → List Row → Option (Write (S × ℕ))
    for_each_spi_chunk cols s rows = loop_chunks (suc (length rows)) cols none s 0 rows
