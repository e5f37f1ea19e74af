-- ===== src/Write/MergeInsert/Merged.antt =====
-- src/write/merge_insert.rs: what one chunk does, the merge of its batches.
use pglance.Base.{
  ◌+◌, ◌≡◌, sym, ap, true, false, none, some, List, ◌∷◌, ok, err, >>=-eq-ok, if◌then◌else◌, All,
}
use mathlib.Core.Path.{subst}
use pglance.Arrow.{Fields}
use pglance.Write.{is_one_of, not_in_source, not_in_lance}
use pglance.Write.Builder.{Spi}
use pglance.Write.Rows.{ArrowLib}
use pglance.Write.MergeInsert.{
  WhenMatched, WhenNotMatched, MergeLance, MergeArgs, MergeState, parse_when_matched,
  parse_when_not_matched, names_of, check_columns, open_checked, merge_batches, merge_chunk,
}
use pglance.Write.MergeInsert.Words.{
  MatchedWord, NotMatchedWord, check_columns-All, parse_when_matched-MatchedWord,
  parse_when_not_matched-NotMatchedWord,
}

module _ (spi : Spi) (lib : ArrowLib) (lance : MergeLance lib.RecordBatch) (args : MergeArgs) where
  open lib use {RecordBatch}
  open lance use {Dataset, open_dataset, field_names, try_new, use_index, execute}

  -- One commit of the given batches: the builder is made for the dataset and the join columns, with
  -- the behaviour that the two words ask for, and without the index when the setting forbids it.
  pub record Merged (current : Dataset) (schema : Fields) (batches : List RecordBatch)
      (updated : Dataset) : Type 0 where
    pub builder : lance.MergeInsertBuilder
    pub matched : WhenMatched
    pub not_matched : WhenNotMatched
    pub made : try_new current args.on_columns ≡ ok builder
    pub matched_word : MatchedWord args.when_matched matched
    pub not_matched_word : NotMatchedWord args.when_not_matched not_matched
    pub ran :
        execute
          (lance.when_not_matched not_matched (
            lance.when_matched matched
              (if args.merge_use_index then builder else use_index false builder)))
          schema
          batches
        ≡ ok updated

  merge_batches-Merged :
      (current : Dataset) (schema : Fields) (bs : List RecordBatch) {updated : Dataset}
      → merge_batches spi lib lance args current schema bs ≡ ok updated
      → Merged current schema bs updated
  unfolding merge_batches
  merge_batches-Merged current schema bs h =
      let (b, made, h1) = >>=-eq-ok (try_new current args.on_columns) _ h in
      let (m, em, h2) = >>=-eq-ok (parse_when_matched args.when_matched) _ h1 in
      let (n, en, h3) = >>=-eq-ok (parse_when_not_matched args.when_not_matched) _ h2 in
      record {
        builder = b;
        matched = m;
        not_matched = n;
        made = made;
        matched_word = parse_when_matched-MatchedWord args.when_matched em;
        not_matched_word = parse_when_not_matched-NotMatchedWord args.when_not_matched en;
        ran = h3;
      }

  open_checked-has :
      (schema : Fields) {end : Dataset}
      → open_checked spi lib lance args schema ≡ ok end
      → (open_dataset ≡ ok end) × All (λ c. is_one_of c (field_names end) ≡ true) args.on_columns
  unfolding open_checked
  open_checked-has schema {end} h =
      let (ds, eo, h1) = >>=-eq-ok open_dataset _ h in
      let (u, es, h2) =
        >>=-eq-ok
          (check_columns (λ col. err (not_in_source col (names_of schema))) (names_of schema)
            args.on_columns)
          _ h1 in
      let (v, el, h3) =
        >>=-eq-ok
          (check_columns (λ col. err (not_in_lance col (field_names ds))) (field_names ds)
            args.on_columns)
          _ h2 in
      let same : ds ≡ end = cc in
      subst
        (λ x. (open_dataset ≡ ok x) × All (λ c. is_one_of c (field_names x) ≡ true) args.on_columns)
        same (eo, check_columns-All _ (field_names ds) args.on_columns (λ col e. cc) el)

  -- A chunk with a batch is one commit, and counts one.
  abbrev pub Committed :
      MergeState spi lib lance args
      → Dataset
      → Fields
      → List RecordBatch
      → MergeState spi lib lance args
      → Type 0
  Committed s current schema bs s' =
      (updated : Dataset) × Merged current schema bs updated
      × (s'.dataset ≡ some updated)
      × (s'.chunk_txns ≡ s.chunk_txns + 1)

  pub merge_chunk-next :
      (s s' : MergeState spi lib lance args) (current : Dataset) (schema : Fields) (b : RecordBatch)
      (bs : List RecordBatch)
      → s.dataset ≡ some current
      → merge_chunk spi lib lance args s schema (b ∷ bs) ≡ ok s'
      → Committed s current schema (b ∷ bs) s'
  unfolding merge_chunk
  merge_chunk-next s s' current schema b bs e h =
      let h' = rw (e, merge_chunk) at h in
      let (updated, em, h2) =
        >>=-eq-ok (merge_batches spi lib lance args current schema (b ∷ bs)) _ h' in
      let same : ◌≡◌ {A = MergeState spi lib lance args}
          (record { dataset = some updated; chunk_txns = s.chunk_txns + 1 }) s' =
        cc in
      (
        updated,
        merge_batches-Merged current schema (b ∷ bs) em,
        sym (ap (λ (x : MergeState spi lib lance args). x.dataset) same),
        sym (ap (λ (x : MergeState spi lib lance args). x.chunk_txns) same),
      )

  pub merge_chunk-first :
      (s s' : MergeState spi lib lance args) (schema : Fields) (b : RecordBatch)
      (bs : List RecordBatch)
      → s.dataset ≡ none
      → merge_chunk spi lib lance args s schema (b ∷ bs) ≡ ok s'
      → (opened : Dataset) × (open_dataset ≡ ok opened)
        × All (λ c. is_one_of c (field_names opened) ≡ true) args.on_columns
        × Committed s opened schema (b ∷ bs) s'
  unfolding merge_chunk
  merge_chunk-first s s' schema b bs e h =
      let h' = rw (e, merge_chunk) at h in
      let (opened, eo, h1) = >>=-eq-ok (open_checked spi lib lance args schema) _ h' in
      let (updated, em, h2) =
        >>=-eq-ok (merge_batches spi lib lance args opened schema (b ∷ bs)) _ h1 in
      let (open_ok, has) = open_checked-has schema eo in
      let same : ◌≡◌ {A = MergeState spi lib lance args}
          (record { dataset = some updated; chunk_txns = s.chunk_txns + 1 }) s' =
        cc in
      (
        opened,
        open_ok,
        has,
        (
          updated,
          merge_batches-Merged opened schema (b ∷ bs) em,
          sym (ap (λ (x : MergeState spi lib lance args). x.dataset) same),
          sym (ap (λ (x : MergeState spi lib lance args). x.chunk_txns) same),
        ),
      )
