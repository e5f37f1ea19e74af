-- ===== src/Scan/Begun.antt =====
-- src/fdw/scan.rs with src/fdw/convert.rs: what a scan that has begun can still fail with.
use pglance.Base.{
  ℕ, suc, ◌+◌, ◌≡◌, ap, ◌∙◌, sym, ◌≢◌, Bool, Bool-cases, Result-cases, inl, inr, Option, none, some,
  List, [], ◌∷◌, Text, Result, ok, err, ◌>>=◌, >>=-eq-ok, get_elem?, All, arith, length,
}
use pglance.Arrow.{Field}
use pglance.Convert.{convert_error, type_mismatch, Attr, Catalog, invalid_oid, jsonb_oid}
use pglance.Convert.External.{External}
use pglance.Convert.Datum.{arrow_value_to_datum}
use pglance.Convert.Checked.{accepted_column_matches}
use pglance.Scan.{
  ScanError, column_not_found, column_rejected, read_failed, stream_failed, missing_mapping,
  out_of_bounds, conversion, RecordBatch, Stream, LanceScanState, map_attributes, oids,
  begin_foreign_scan, fill_value, fill_slot, run_scan,
}
use pglance.Scan.Rows.{Position, stream_rows, tuples, run_scan-left}
use pglance.Scan.Schema.{
  Columns, OfSchema, AtSchema, stream_rows-AtSchema, map_attributes-at, oids-at,
  map_attribute-column,
}

-- The errors of a scan that its beginning does not rule out.
abbrev pub Allowed : ScanError → Type 0
Allowed (read_failed e) = Unit
Allowed (conversion i f) =
    (message : Text) → f ≢ convert_error (record { kind = type_mismatch; message = message })
Allowed (stream_failed e) = ⊥
Allowed (column_not_found name) = ⊥
Allowed (column_rejected name f) = ⊥
Allowed (missing_mapping i) = ⊥
Allowed (out_of_bounds i) = ⊥

abbrev pub Fine {ℓ} : {A : Type ℓ} → Result ScanError A → Type 0
Fine (ok a) = Unit
Fine (err e) = Allowed e

Fine-bind {ℓ κ} :
    {A : Type ℓ} {B : Type κ} (m : Result ScanError A) (f : A → Result ScanError B)
    → Fine m
    → ((a : A) → Fine (f a))
    → Fine (m >>= f)
Fine-bind (ok a) f h k = k a
Fine-bind (err e) f h k = h

module _ (cat : Catalog) (fields : List Field) where
  module _ (x : External) (no_jsonb_array : cat.element_type jsonb_oid ≡ invalid_oid)
      (all_attrs : List Attr) (mapping : List (Option ℕ))
      (mapped : map_attributes cat fields all_attrs ≡ ok mapping) where
    module _ (b : RecordBatch) (columns : Columns fields b.columns) (row : ℕ) where
      fill_value-Fine :
          (i : ℕ) (a : Attr)
          → get_elem? all_attrs i ≡ some a
          → Fine (fill_value x cat (oids cat fields all_attrs) mapping b row i a)
      fill_value-Fine i a q = elim (Bool-cases a.attisdropped) [
        | inl e ↦ rw e tt
        | inr e ↦
            let (m, em, am) = map_attributes-at cat fields all_attrs mapping i a mapped q in
            let (idx, col, found, ec, wc, v) =
              map_attribute-column cat fields a m b.columns am e columns in
            let eo = oids-at cat fields all_attrs i a q in
            elim (Result-cases (arrow_value_to_datum x cat col row a.atttypid)) [
              | inl (f, ef) ↦
                  rw (e, em, found, ec, eo, ef)
                    λ message bad.
                      accepted_column_matches x cat no_jsonb_array col wc row a.atttypid v message
                        (ef ∙ ap err bad)
              | inr (val, ev) ↦ rw (e, em, found, ec, eo, ev) tt
            ]
      ]

      fill_slot-Fine :
          (i : ℕ) (attrs : List Attr)
          → ((k : ℕ) → get_elem? attrs k ≡ get_elem? all_attrs (i + k))
          → Fine (fill_slot x cat (oids cat fields all_attrs) mapping b row i attrs)
      unfolding fill_slot
      fill_slot-Fine i [] same = tt
      fill_slot-Fine i (a ∷ attrs) same =
          Fine-bind (fill_value x cat (oids cat fields all_attrs) mapping b row i a) _
            (fill_value-Fine i a
              (let z : i + 0 ≡ i = omega arith in (sym (same 0 ∙ ap (get_elem? all_attrs) z))))
            λ v.
              Fine-bind (fill_slot x cat (oids cat fields all_attrs) mapping b row (i + 1) attrs) _
                (fill_slot-Fine (i + 1) attrs
                  λ k. same (suc k) ∙ ap (get_elem? all_attrs) (omega arith))
                λ vs. tt

    tuples-Fine :
        (ps : List Position)
        → All (AtSchema fields) ps
        → Fine (tuples x cat all_attrs (oids cat fields all_attrs) mapping ps)
    unfolding tuples
    tuples-Fine [] h = tt
    tuples-Fine (err e ∷ ps) h = tt
    tuples-Fine (ok (b, r) ∷ ps) (h, hs) =
        Fine-bind (fill_slot x cat (oids cat fields all_attrs) mapping b r 0 all_attrs) _
          (fill_slot-Fine b h r 0 all_attrs λ k. ap (get_elem? all_attrs) (omega arith))
          λ t.
            Fine-bind (tuples x cat all_attrs (oids cat fields all_attrs) mapping ps) _
              (tuples-Fine ps hs) λ ts. tt

  -- A scan that has begun fails for no reason that its beginning can check: on a dataset whose batches
  -- have the columns of the schema, well formed and of the types it gives, in its order, the run from
  -- the begun state to the end always ends, and its result is a list of tuples, an error of the stream,
  -- or a conversion error that is no type mismatch; no column is missing or out of range. jsonb is
  -- assumed to be no array type.
  pub begin_foreign_scan-Fine :
      (x : External) (dataset : Stream) (attrs : List Attr) (s : LanceScanState)
      → cat.element_type jsonb_oid ≡ invalid_oid
      → begin_foreign_scan cat fields dataset attrs ≡ ok s
      → All (OfSchema fields) dataset
      → (result : Result ScanError (List (List (x.Datum × Bool)))) × (run_scan x cat
            (suc (length (stream_rows dataset)))
            attrs
            s
          ≡ some result)
        × Fine result
  unfolding begin_foreign_scan
  begin_foreign_scan-Fine x dataset attrs s no_jsonb_array begun conform =
      let (mapping, mapped, h) = >>=-eq-ok (map_attributes cat fields attrs) _ begun in
      let same : state mapping ≡ s = cc in
      rw (← same) (
        tuples x cat attrs (oids cat fields attrs) mapping (stream_rows dataset),
        run_scan-left x cat attrs (state mapping),
        tuples-Fine x no_jsonb_array attrs mapping mapped (stream_rows dataset)
            (stream_rows-AtSchema fields dataset conform),
      )
    where
      state : List (Option ℕ) → LanceScanState
      state mapping = record {
        dataset = dataset;
        stream = dataset;
        current_batch = none;
        current_row = 0;
        atttypids = oids cat fields attrs;
        att_to_batch_col = mapping;
      }
