-- ===== src/Scan.antt =====
-- src/fdw/scan.rs: the state of a foreign scan, and its begin, iterate, rescan and end. Opening the
-- dataset and its stream are parameters: a stream is the list of the items that it will give.
pub mod Rows
pub mod Schema
pub mod Begun
pub mod Open
pub mod Plan
pub mod Tests
use pglance.Base.{
  ℕ, zero, suc, ◌+◌, ◌-◌, Bool, true, false, ◌||◌, Option, none, some, List, [], ◌∷◌, Text, codes,
  Result, ok, err, ◌>>=◌, ◌==◌, leb, if◌then◌else◌, text_eq, get_elem?,
}
use pglance.Arrow.{DataType, Field, new}
use pglance.Convert.{Conv, Failure, Attr, Catalog, validate_arrow_type_for_pg_oid}
use pglance.Convert.Arrays.{Array}
use pglance.Convert.External.{External}
use pglance.Convert.Datum.{arrow_value_to_datum}

-- `ereport!(ERROR, …)` ends the query; the kinds of the conversion errors choose its code.
pub data ScanError : Type 0 where
  column_not_found : Text → ScanError
  column_rejected : Text → Failure → ScanError
  read_failed : Text → ScanError
  -- `create_stream` fails
  stream_failed : Text → ScanError
  missing_mapping : ℕ → ScanError
  -- a Rust panic
  out_of_bounds : ℕ → ScanError
  conversion : ℕ → Failure → ScanError

pub record RecordBatch : Type 0 where
  pub num_rows : ℕ
  pub columns : List Array

abbrev pub Stream : Type 0
Stream = List (Result Text RecordBatch)

pub record LanceScanState : Type 0 where
  -- the dataset, as the stream that `create_stream` gives for it at the beginning
  pub dataset : Stream
  pub stream : Stream
  pub current_batch : Option RecordBatch
  pub current_row : ℕ
  pub atttypids : List ℕ
  pub att_to_batch_col : List (Option ℕ)

-- `name_to_idx`: a later field of the same name replaces an earlier one.
unfoldable pub name_to_idx : List Field → ℕ → Text → Option (ℕ × DataType)
name_to_idx [] i name = none
name_to_idx (new n d nullable ∷ fs) i name =
    let here = if text_eq n name then some (i, d) else none in
    elim (name_to_idx fs (i + 1) name) [ none ↦ here | some found ↦ some found ]

module _ (cat : Catalog) (fields : List Field) where
  -- The body of the loop over the attributes in `begin_foreign_scan`.
  abbrev pub map_attribute : Attr → Result ScanError (Option ℕ)
  map_attribute a = if a.attisdropped then ok none else elim (name_to_idx fields 0 a.attname) [
    | none ↦ err (column_not_found a.attname)
    | some (idx, d) ↦ elim (validate_arrow_type_for_pg_oid cat d a.atttypid) [
      | err e ↦ err (column_rejected a.attname e)
      | ok u ↦ ok (some idx)
    ]
  ]

  unfoldable pub map_attributes : List Attr → Result ScanError (List (Option ℕ))
  map_attributes [] = ok []
  map_attributes (a ∷ attrs) = do m ← map_attribute a; ms ← map_attributes attrs; ok (m ∷ ms)

  abbrev pub oids : List Attr → List ℕ
  oids [] = []
  oids (a ∷ attrs) = a.atttypid ∷ oids attrs

  unfoldable pub begin_foreign_scan : Stream → List Attr → Result ScanError LanceScanState
  begin_foreign_scan dataset attrs = do
    mapping ← map_attributes attrs
    ok (record {
      dataset = dataset;
      stream = dataset;
      current_batch = none;
      current_row = 0;
      atttypids = oids attrs;
      att_to_batch_col = mapping;
    })

-- Where the loop of `iterate_foreign_scan` stops: at a row of the current batch, or at the end.
pub record Fetched : Type 0 where
  pub found : Option (RecordBatch × ℕ)
  pub rest : Stream
  pub batch : Option RecordBatch
  pub row : ℕ

abbrev pub found_row : RecordBatch → ℕ → Stream → Fetched
found_row b r rest = record { found = some (b, r); rest = rest; batch = some b; row = r + 1 }

abbrev pub at_end : Option RecordBatch → ℕ → Fetched
at_end current r = record { found = none; rest = []; batch = current; row = r }

-- `need_batch`
abbrev pub need_batch : Option RecordBatch → ℕ → Bool
need_batch none r = true
need_batch (some b) r = leb b.num_rows r

-- The row of the current batch, where no batch is needed.
abbrev pub current : Option RecordBatch → ℕ → Stream → Fetched
current none r rest = at_end none r
current (some b) r rest = found_row b r rest

-- The loop: an empty batch is passed over.
unfoldable pub fetch_row : Stream → Option RecordBatch → ℕ → Result ScanError Fetched
fetch_row [] cur r = if need_batch cur r then ok (at_end cur r) else ok (current cur r [])
fetch_row (item ∷ rest) cur r =
    let later = fetch_row rest none 0 in
    if need_batch cur r
    then elim item [
      | err e ↦ err (read_failed e)
      | ok b ↦ if leb b.num_rows 0 then later else ok (found_row b 0 rest)
    ]
    else ok (current cur r (item ∷ rest))

abbrev pub at_fetched : LanceScanState → Fetched → LanceScanState
at_fetched s f = record {
  dataset = s.dataset;
  stream = f.rest;
  current_batch = f.batch;
  current_row = f.row;
  atttypids = s.atttypids;
  att_to_batch_col = s.att_to_batch_col;
}

-- What `create_stream` gives for the dataset when the scan is started again, and the node's
-- `fdw_state`, which is left alone where there is none.
unfoldable pub rescan_foreign_scan :
    Result Text Stream → Option LanceScanState → Result ScanError (Option LanceScanState)
rescan_foreign_scan created none = ok none
rescan_foreign_scan (err e) (some s) = err (stream_failed e)
rescan_foreign_scan (ok stream) (some s) = ok (
    some (record {
      dataset = s.dataset;
      stream = stream;
      current_batch = none;
      current_row = 0;
      atttypids = s.atttypids;
      att_to_batch_col = s.att_to_batch_col;
    }))

-- The node's `fdw_state` after `end_foreign_scan`.
unfoldable pub end_foreign_scan : Option LanceScanState → Option LanceScanState
end_foreign_scan state = none

abbrev pub flatten {ℓ} : {A : Type ℓ} → Option (Option A) → Option A
flatten none = none
flatten (some o) = o

module _ (x : External) (cat : Catalog) where
  open x use {Datum, zero_datum}

  -- One value of the slot: attribute `i`, its column, and the conversion. The slot's descriptor lists
  -- the attributes.
  abbrev pub fill_value :
      List ℕ → List (Option ℕ) → RecordBatch → ℕ → ℕ → Attr → Result ScanError (Datum × Bool)
  fill_value atttypids mapping b row i a =
      if a.attisdropped then ok (zero_datum, true) else elim (flatten (get_elem? mapping i)) [
        | none ↦ err (missing_mapping i)
        | some idx ↦ elim (get_elem? b.columns idx) [
          | none ↦ err (out_of_bounds idx)
          | some col ↦ elim (get_elem? atttypids i) [
            | none ↦ err (out_of_bounds i)
            | some target ↦ elim (arrow_value_to_datum x cat col row target) [
              | err e ↦ err (conversion i e)
              | ok v ↦ ok v
            ]
          ]
        ]
      ]

  unfoldable pub fill_slot :
      List ℕ
      → List (Option ℕ)
      → RecordBatch
      → ℕ
      → ℕ
      → List Attr
      → Result ScanError (List (Datum × Bool))
  fill_slot atttypids mapping b row i [] = ok []
  fill_slot atttypids mapping b row i (a ∷ attrs) = do
    v ← fill_value atttypids mapping b row i a
    vs ← fill_slot atttypids mapping b row (i + 1) attrs
    ok (v ∷ vs)

  -- `none` is the empty slot that ends the scan.
  unfoldable pub iterate_foreign_scan :
      List Attr → LanceScanState → Result ScanError (Option (List (Datum × Bool)) × LanceScanState)
  iterate_foreign_scan attrs s = do
    f ← fetch_row s.stream s.current_batch s.current_row
    elim f.found [
      | none ↦ ok (none, at_fetched s f)
      | some (b, row) ↦ do
        values ← fill_slot s.atttypids s.att_to_batch_col b row 0 attrs
        ok (some values, at_fetched s f)
    ]

  -- The executor's loop: a scan to its end, on fuel. `none` is out of fuel.
  unfoldable pub run_scan :
      ℕ → List Attr → LanceScanState → Option (Result ScanError (List (List (Datum × Bool))))
  run_scan zero attrs s = none
  run_scan (suc fuel) attrs s = elim (iterate_foreign_scan attrs s) [
    | err e ↦ some (err e)
    | ok (none, s') ↦ some (ok [])
    | ok (some t, s') ↦ elim (run_scan fuel attrs s') [
      | none ↦ none
      | some (err e) ↦ some (err e)
      | some (ok ts) ↦ some (ok (t ∷ ts))
    ]
  ]
