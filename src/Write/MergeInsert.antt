-- ===== src/Write/MergeInsert.antt =====
-- src/write/merge_insert.rs: an upsert of a source query, one merge for each chunk. The dataset, the
-- builder of a merge and the runtime are parameters; the duration is left out.
pub mod Words
pub mod Merged
pub mod Commits
pub mod Chain
pub mod Same
pub mod Tests
use pglance.Base.{
  ℕ, ◌+◌, Bool, true, false, Option, none, some, List, [], ◌∷◌, Text, codes, ok, err, ◌>>=◌, ◌>>◌,
  ◌==◌, if◌then◌else◌, text_eq,
}
use pglance.Base.Int.{ℤ, pos, negsuc, wrap_i64}
use pglance.Arrow.{Fields, new, nil, cons}
use pglance.Write.{
  Write, ArrowTypeOverrides, is_one_of, invalid_when_matched, invalid_when_not_matched,
  empty_on_columns, not_in_source, not_in_lance,
}
use pglance.Write.Builder.{Spi}
use pglance.Write.Rows.{ArrowLib, Row, for_each_spi_chunk}

pub data WhenMatched : Type 0 where
  update_all do_nothing : WhenMatched

pub data WhenNotMatched : Type 0 where
  insert_all do_nothing : WhenNotMatched

-- The dataset of the `lance` crate at the URI, and `MergeInsertBuilder`. `execute` is `try_build`
-- with `execute_reader`.
pub record MergeLance (Batch : Type 0) : Type 1 where
  pub Dataset : Type 0
  pub MergeInsertBuilder : Type 0
  pub open_dataset : Write Dataset
  pub field_names : Dataset → List Text
  pub try_new : Dataset → List Text → Write MergeInsertBuilder
  pub use_index : Bool → MergeInsertBuilder → MergeInsertBuilder
  pub when_matched : WhenMatched → MergeInsertBuilder → MergeInsertBuilder
  pub when_not_matched : WhenNotMatched → MergeInsertBuilder → MergeInsertBuilder
  pub execute : MergeInsertBuilder → Fields → List Batch → Write Dataset

unfoldable pub parse_when_matched : Text → Write WhenMatched
parse_when_matched value =
    if text_eq value (codes "update")
    then ok update_all
    else if text_eq value (codes "nothing")
    then ok WhenMatched.do_nothing
    else err (invalid_when_matched value)

unfoldable pub parse_when_not_matched : Text → Write WhenNotMatched
parse_when_not_matched value =
    if text_eq value (codes "insert")
    then ok insert_all
    else if text_eq value (codes "nothing")
    then ok WhenNotMatched.do_nothing
    else err (invalid_when_not_matched value)

unfoldable pub names_of : Fields → List Text
names_of nil = []
names_of (cons (new name d nullable) fields) = name ∷ names_of fields

-- The loop over `on_columns`: the first that is not among the names.
unfoldable pub check_columns : (Text → Write (Unit {0})) → List Text → List Text → Write (Unit {0})
check_columns missing names [] = ok tt
check_columns missing names (col ∷ cols) =
    let later = check_columns missing names cols in
    if is_one_of col names then later else missing col

-- `(total_rows, rows_inserted, rows_updated, chunk_txns, chunk_rows)`
pub record MergeRow : Type 0 where
  pub rows_merged : ℤ
  pub rows_inserted : ℤ
  pub rows_updated : ℤ
  pub chunk_txns : ℤ
  pub chunk_rows : ℤ

-- The arguments that reach a chunk.
pub record MergeArgs : Type 0 where
  pub on_columns : List Text
  pub when_matched : Text
  pub when_not_matched : Text
  pub merge_use_index : Bool

module _ (spi : Spi) (lib : ArrowLib) (lance : MergeLance lib.RecordBatch) (args : MergeArgs) where
  open lib use {RecordBatch}
  open lance use {
    Dataset, MergeInsertBuilder, open_dataset, field_names, try_new, use_index, execute,
  }

  pub record MergeState : Type 0 where
    pub dataset : Option Dataset
    pub chunk_txns : ℕ

  -- The first chunk opens the dataset and checks the columns.
  unfoldable pub open_checked : Fields → Write Dataset
  open_checked schema = do
    ds ← open_dataset
    check_columns (λ col. err (not_in_source col (names_of schema))) (names_of schema)
        args.on_columns
    check_columns (λ col. err (not_in_lance col (field_names ds))) (field_names ds) args.on_columns
    ok ds

  -- The merge of a chunk into the dataset.
  unfoldable pub merge_batches : Dataset → Fields → List RecordBatch → Write Dataset
  merge_batches current schema batches = do
    builder ← try_new current args.on_columns
    matched ← parse_when_matched args.when_matched
    not_matched ← parse_when_not_matched args.when_not_matched
    execute
        (lance.when_not_matched not_matched (
          lance.when_matched matched
            (if args.merge_use_index then builder else use_index false builder)))
        schema batches

  -- The closure `handle_chunk`.
  unfoldable pub merge_chunk : MergeState → Fields → List RecordBatch → Write MergeState
  merge_chunk s schema [] = ok s
  merge_chunk s schema (b ∷ bs) = do
    current ← elim s.dataset [ some ds ↦ ok ds | none ↦ open_checked schema ]
    updated ← merge_batches current schema (b ∷ bs)
    ok (record { dataset = some updated; chunk_txns = s.chunk_txns + 1 })

  -- `0` for an empty source and `-1` for unknown.
  abbrev pub unknown_unless_empty : ℕ → ℤ
  unknown_unless_empty total = if total == 0 then pos 0 else negsuc 0

  abbrev pub merge_row : ℕ → MergeState × ℕ → MergeRow
  merge_row chunk_rows (s, total) = record {
    rows_merged = wrap_i64 (pos total);
    rows_inserted = unknown_unless_empty total;
    rows_updated = unknown_unless_empty total;
    chunk_txns = wrap_i64 (pos s.chunk_txns);
    chunk_rows = wrap_i64 (pos chunk_rows);
  }

  abbrev pub start : MergeState
  start = record { dataset = none; chunk_txns = 0 }

  -- The end of the whole, with the last state of the handler.
  unfoldable pub merge_loop :
      (limit batch_size chunk_rows : ℕ)
      → Write (Unit {0})
      → Option ArrowTypeOverrides
      → List (Text × ℕ)
      → List (Row spi lib)
      → Option (Write (MergeState × ℕ))
  merge_loop limit batch_size chunk_rows runtime overrides cols rows = elim args.on_columns [
    | [] ↦ some (err empty_on_columns)
    | col ∷ more ↦ elim runtime [
      | err e ↦ some (err e)
      | ok u ↦
          for_each_spi_chunk spi lib limit batch_size chunk_rows overrides merge_chunk cols start
            rows
    ]
  ]

  unfoldable pub lance_merge_insert_impl_inner :
      (limit batch_size chunk_rows : ℕ)
      → Write (Unit {0})
      → Option ArrowTypeOverrides
      → List (Text × ℕ)
      → List (Row spi lib)
      → Option (Write MergeRow)
  lance_merge_insert_impl_inner limit batch_size chunk_rows runtime overrides cols rows =
      elim (merge_loop limit batch_size chunk_rows runtime overrides cols rows) [
        | none ↦ none
        | some r ↦ some (r >>= λ end. ok (merge_row chunk_rows end))
      ]

  unfoldable pub lance_merge_insert_impl :
      (limit batch_size chunk_rows : ℕ)
      → Write (Unit {0})
      → List (Text × ℕ)
      → List (Row spi lib)
      → Option (Write MergeRow)
  lance_merge_insert_impl limit batch_size chunk_rows runtime cols rows =
      lance_merge_insert_impl_inner limit batch_size chunk_rows runtime none cols rows

  unfoldable pub lance_merge_insert_with_schema_impl :
      (limit batch_size chunk_rows : ℕ)
      → Write (Unit {0})
      → ArrowTypeOverrides
      → List (Text × ℕ)
      → List (Row spi lib)
      → Option (Write MergeRow)
  lance_merge_insert_with_schema_impl limit batch_size chunk_rows runtime overrides cols rows =
      lance_merge_insert_impl_inner limit batch_size chunk_rows runtime (some overrides) cols rows
