-- ===== src/Scan/Rows.antt =====
-- src/fdw/scan.rs: what a scan returns, against the rows of the stream.
use pglance.Base.{
  ℕ, zero, suc, ◌+◌, ◌-◌, ◌<◌, ◌≡◌, refl, Bool, true, false, Bool-cases, Result-cases, inl, inr,
  ◌⊎◌, Option, none, some, List, [], ◌∷◌, ◌++◌, Text, Result, ok, err, ◌>>=◌, leb, arith, length,
}
use mathlib.Core.Path.{subst}
use pglance.Convert.{Attr, Catalog}
use pglance.Convert.External.{External}
use pglance.Scan.{
  ScanError, read_failed, RecordBatch, Stream, LanceScanState, Fetched, fetch_row, need_batch,
  found_row, at_end, at_fetched, fill_slot, iterate_foreign_scan, run_scan, rescan_foreign_scan,
}

-- A row of a batch, or the error of the stream in its place.
abbrev pub Position : Type 0
Position = Result Text (RecordBatch × ℕ)

-- The `k` rows of a batch from row `r`.
abbrev pub rows_from : RecordBatch → ℕ → ℕ → List Position
rows_from b r zero = []
rows_from b r (suc k) = ok (b, r) ∷ rows_from b (r + 1) k

-- All rows of a stream, in order, up to any error.
unfoldable pub stream_rows : Stream → List Position
stream_rows [] = []
stream_rows (err e ∷ rest) = err e ∷ stream_rows rest
stream_rows (ok b ∷ rest) = rows_from b 0 b.num_rows ++ stream_rows rest

abbrev pub rows_left : Option RecordBatch → ℕ → List Position
rows_left none r = []
rows_left (some b) r = rows_from b r (b.num_rows - r)

-- The rows that a scan has not returned yet.
abbrev pub pending : Stream → Option RecordBatch → ℕ → List Position
pending stream cur r = rows_left cur r ++ stream_rows stream

rows_left-cases :
    (b : RecordBatch) (r : ℕ)
    → ((leb b.num_rows r ≡ true) × (rows_left (some b) r ≡ []))
      ⊎ ((leb b.num_rows r ≡ false)
          × (rows_left (some b) r ≡ ok (b, r) ∷ rows_left (some b) (r + 1)))
rows_left-cases b r = elim (Bool-cases (leb b.num_rows r)) [
  | inl e ↦ let gone : b.num_rows - r ≡ 0 = ground arith in inl (e, rw gone)
  | inr e ↦
      let more : b.num_rows - r ≡ suc (b.num_rows - (r + 1)) = ground arith in inr (e, rw more)
]

-- What the loop of an iteration comes to, by the first of the rows that are left.
abbrev FetchedAt : List Position → Result ScanError Fetched → Type 0
FetchedAt [] m = (f : Fetched) × (m ≡ ok f) × (f.found ≡ none)
FetchedAt (err e ∷ ps) m = m ≡ err (read_failed e)
FetchedAt (ok p ∷ ps) m =
    (f : Fetched) × (m ≡ ok f) × (f.found ≡ some p) × (pending f.rest f.batch f.row ≡ ps)

all_rows : (b : RecordBatch) → rows_from b 0 b.num_rows ≡ rows_left (some b) 0
all_rows b = let same : b.num_rows - 0 ≡ b.num_rows = omega arith in rw same

fetch_new :
    (stream : Stream)
    → ((cur : Option RecordBatch) (r : ℕ)
        → need_batch cur r ≡ true
        → FetchedAt (stream_rows stream) (fetch_row stream cur r))
unfolding stream_rows fetch_row
fetch_new [] cur r n = (at_end cur r, rw n, refl)
fetch_new (err e ∷ rest) cur r n = rw n
fetch_new (ok b ∷ rest) cur r n = elim (rows_left-cases b 0) [
  | inl (e, gone) ↦ rw (n, e, all_rows b, gone) (fetch_new rest none 0 refl)
  | inr (e, more) ↦ rw (n, e, all_rows b, more) (found_row b 0 rest, refl, refl, refl)
]

fetch_lem :
    (stream : Stream) (cur : Option RecordBatch) (r : ℕ)
    → FetchedAt (pending stream cur r) (fetch_row stream cur r)
unfolding fetch_row
fetch_lem stream none r = fetch_new stream none r refl
fetch_lem [] (some b) r = elim (rows_left-cases b r) [
  | inl (e, gone) ↦ rw gone (fetch_new [] (some b) r e)
  | inr (e, more) ↦ rw (more, e) (found_row b r [], refl, refl, refl)
]
fetch_lem (item ∷ rest) (some b) r = elim (rows_left-cases b r) [
  | inl (e, gone) ↦ rw gone (fetch_new (item ∷ rest) (some b) r e)
  | inr (e, more) ↦ rw (more, e) (found_row b r (item ∷ rest), refl, refl, refl)
]

module _ (x : External) (cat : Catalog) (attrs : List Attr) where
  open x use {Datum}

  -- The tuples of positions, up to the first error.
  unfoldable pub tuples :
      List ℕ → List (Option ℕ) → List Position → Result ScanError (List (List (Datum × Bool)))
  tuples atttypids mapping [] = ok []
  tuples atttypids mapping (err e ∷ ps) = err (read_failed e)
  tuples atttypids mapping (ok (b, r) ∷ ps) = do
    t ← fill_slot x cat atttypids mapping b r 0 attrs
    ts ← tuples atttypids mapping ps
    ok (t ∷ ts)

  abbrev pub left : LanceScanState → List Position
  left s = pending s.stream s.current_batch s.current_row

  fetched :
      (s : LanceScanState) → FetchedAt (left s) (fetch_row s.stream s.current_batch s.current_row)
  fetched s = fetch_lem s.stream s.current_batch s.current_row

  scan_lem :
      (ps : List Position) (fuel : ℕ) (s : LanceScanState)
      → left s ≡ ps
      → length ps < fuel
      → run_scan x cat fuel attrs s ≡ some (tuples s.atttypids s.att_to_batch_col ps)
  unfolding run_scan iterate_foreign_scan tuples
  scan_lem ps zero s e h = absurd (omega arith)
  scan_lem [] (suc fuel) s e h =
      let (f, ef, none_found) =
        subst (λ qs. FetchedAt qs (fetch_row s.stream s.current_batch s.current_row)) e
          (fetched s) in
      rw (ef, run_scan, iterate_foreign_scan, none_found)
  scan_lem (err m ∷ ps) (suc fuel) s e h =
      let ef =
        subst (λ qs. FetchedAt qs (fetch_row s.stream s.current_batch s.current_row)) e
          (fetched s) in
      rw (ef, run_scan, iterate_foreign_scan)
  scan_lem (ok (b, r) ∷ ps) (suc fuel) s e h =
      let (f, ef, found, rest) =
        subst (λ qs. FetchedAt qs (fetch_row s.stream s.current_batch s.current_row)) e
          (fetched s) in
      let ih = scan_lem ps fuel (at_fetched s f) rest (omega arith) in
      elim (Result-cases (fill_slot x cat s.atttypids s.att_to_batch_col b r 0 attrs)) [
        | inl (m, em) ↦ rw (ef, run_scan, iterate_foreign_scan, found, em)
        | inr (t, et) ↦ elim (Result-cases (tuples s.atttypids s.att_to_batch_col ps)) [
          | inl (m, em) ↦ rw (ef, run_scan, iterate_foreign_scan, found, et, ih, em)
          | inr (ts, ets) ↦ rw (ef, run_scan, iterate_foreign_scan, found, et, ih, ets)
        ]
      ]

  -- A scan run to its end from any state returns exactly the tuples of the rows that are left, each
  -- once and in order, over batches that may be empty, and stops at the first error of the stream or
  -- of a conversion: with fuel for one iteration more than there are rows, it always ends.
  pub run_scan-left :
      (s : LanceScanState)
      → run_scan x cat (suc (length (left s))) attrs s
        ≡ some (tuples s.atttypids s.att_to_batch_col (left s))
  run_scan-left s = scan_lem (left s) (suc (length (left s))) s refl (omega arith)

  -- Wherever the scan was, once `create_stream` has given a new stream the rescan succeeds, and the
  -- run from its state returns the tuples of all rows of that stream, whatever batch and row the scan
  -- was at.
  pub run_scan-rescan :
      (s : LanceScanState) (stream : Stream)
      → (again : LanceScanState) × (rescan_foreign_scan (ok stream) (some s) ≡ ok (some again))
        × (run_scan x cat (suc (length (stream_rows stream))) attrs again
            ≡ some (tuples s.atttypids s.att_to_batch_col (stream_rows stream)))
  unfolding rescan_foreign_scan
  run_scan-rescan s stream = (
    again,
    refl,
    scan_lem (stream_rows stream) (suc (length (stream_rows stream))) again refl (omega arith),
  )
    where
      again : LanceScanState
      again = record {
        dataset = s.dataset;
        stream = stream;
        current_batch = none;
        current_row = 0;
        atttypids = s.atttypids;
        att_to_batch_col = s.att_to_batch_col;
      }
