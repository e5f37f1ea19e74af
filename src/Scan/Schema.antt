-- ===== src/Scan/Schema.antt =====
-- src/fdw/scan.rs: the attributes of a scan and the columns of its batches.
use pglance.Base.{
  ℕ, zero, suc, ◌+◌, ◌≡◌, refl, ap, ◌∙◌, sym, false, Bool-cases, Result-cases, Option-cases, inl,
  inr, Option, some, List, [], ◌∷◌, Text, Result, ok, err, >>=-eq-ok, text_eq, get_elem?, All,
  All-append, arith,
}
use mathlib.Core.Path.{subst}
use pglance.Arrow.{DataType, Field, new}
use pglance.Convert.{Attr, Catalog, validate_arrow_type_for_pg_oid}
use pglance.Convert.Arrays.{Array, WellFormed, data_type}
use pglance.Scan.{RecordBatch, Stream, name_to_idx, map_attribute, map_attributes, oids}
use pglance.Scan.Rows.{Position, rows_from, stream_rows}

-- The columns of a batch are those of the schema, in its order.
abbrev pub Columns : List Field → List Array → Type 0
Columns [] cols = Unit
Columns (new n d nullable ∷ fs) [] = ⊥
Columns (new n d nullable ∷ fs) (a ∷ cols) = (data_type a ≡ d) × WellFormed a × Columns fs cols

abbrev pub OfSchema : List Field → Result Text RecordBatch → Type 0
OfSchema fields (err e) = Unit
OfSchema fields (ok b) = Columns fields b.columns

abbrev pub AtSchema : List Field → Position → Type 0
AtSchema fields (err e) = Unit
AtSchema fields (ok (b, r)) = Columns fields b.columns

rows_from-AtSchema :
    (fields : List Field) (b : RecordBatch) (r k : ℕ)
    → Columns fields b.columns
    → All (AtSchema fields) (rows_from b r k)
rows_from-AtSchema fields b r zero h = tt
rows_from-AtSchema fields b r (suc k) h = (h, rows_from-AtSchema fields b (r + 1) k h)

pub stream_rows-AtSchema :
    (fields : List Field) (stream : Stream)
    → All (OfSchema fields) stream
    → All (AtSchema fields) (stream_rows stream)
unfolding stream_rows
stream_rows-AtSchema fields [] h = tt
stream_rows-AtSchema fields (err e ∷ rest) h = (tt, stream_rows-AtSchema fields rest h.1)
stream_rows-AtSchema fields (ok b ∷ rest) h =
    All-append (AtSchema fields) (rows_from b 0 b.num_rows) (stream_rows rest)
      (rows_from-AtSchema fields b 0 b.num_rows h.0) (stream_rows-AtSchema fields rest h.1)

-- The index that `name_to_idx` finds is that of a column of the type it gives.
name_to_idx-column :
    (fields : List Field) (i : ℕ) (name : Text) (idx : ℕ) (d : DataType) (cols : List Array)
    → name_to_idx fields i name ≡ some (idx, d)
    → Columns fields cols
    → (k : ℕ) × (a : Array) × (idx ≡ i + k)
      × (get_elem? cols k ≡ some a)
      × (data_type a ≡ d)
      × WellFormed a
unfolding name_to_idx
name_to_idx-column [] i name idx d cols h w = absurd (cc)
name_to_idx-column (new n e nullable ∷ fs) i name idx d [] h w = absurd w
name_to_idx-column (new n e nullable ∷ fs) i name idx d (a ∷ cols) h (same, wa, ws) =
    elim (Option-cases (name_to_idx fs (i + 1) name)) [
      | inl q ↦ elim (Bool-cases (text_eq n name)) [
        | inl t ↦
            let r = rw (q, t) at h in
            (
              zero,
              a,
              omega (arith, (let z : i ≡ idx = cc in z)),
              refl,
              same ∙ (let z : e ≡ d = cc in z),
              wa,
            )
        | inr t ↦ let r = rw (q, t) at h in absurd (cc)
      ]
      | inr ((idx', d'), q) ↦
          let r = rw q at h in
          let (k, b, ei, eb, ed, wb) = name_to_idx-column fs (i + 1) name idx' d' cols q ws in
          (
            suc k,
            b,
            omega (arith, ei, (let z : idx' ≡ idx = cc in z)),
            eb,
            (ed ∙ (let z : d' ≡ d = cc in z)),
            wb,
          )
    ]

module _ (cat : Catalog) (fields : List Field) where
  pub map_attributes-at :
      (attrs : List Attr) (ms : List (Option ℕ)) (k : ℕ) (a : Attr)
      → map_attributes cat fields attrs ≡ ok ms
      → get_elem? attrs k ≡ some a
      → (m : Option ℕ) × (get_elem? ms k ≡ some m) × (map_attribute cat fields a ≡ ok m)
  unfolding map_attributes
  map_attributes-at [] ms k a h q = absurd (cc)
  map_attributes-at (b ∷ attrs) ms zero a h q =
      let (m, em, h1) = >>=-eq-ok (map_attribute cat fields b) _ h in
      let (ms', ems, h2) = >>=-eq-ok (map_attributes cat fields attrs) _ h1 in
      let same : m ∷ ms' ≡ ms = cc in
      let this : b ≡ a = cc in
      (m, rw (← same) refl, subst (λ c. map_attribute cat fields c ≡ ok m) this em)
  map_attributes-at (b ∷ attrs) ms (suc k) a h q =
      let (m, em, h1) = >>=-eq-ok (map_attribute cat fields b) _ h in
      let (ms', ems, h2) = >>=-eq-ok (map_attributes cat fields attrs) _ h1 in
      let same : m ∷ ms' ≡ ms = cc in
      let (n, en, an) = map_attributes-at attrs ms' k a ems q in (n, rw (← same) en, an)

  pub oids-at :
      (attrs : List Attr) (k : ℕ) (a : Attr)
      → get_elem? attrs k ≡ some a
      → get_elem? (oids cat fields attrs) k ≡ some a.atttypid
  oids-at [] k a q = absurd (cc)
  oids-at (b ∷ attrs) zero a q = let same : b ≡ a = cc in rw same
  oids-at (b ∷ attrs) (suc k) a q = oids-at attrs k a q

  -- What the beginning of a scan has found for an attribute that is not dropped.
  pub map_attribute-column :
      (a : Attr) (m : Option ℕ) (cols : List Array)
      → map_attribute cat fields a ≡ ok m
      → a.attisdropped ≡ false
      → Columns fields cols
      → (idx : ℕ) × (col : Array) × (m ≡ some idx)
        × (get_elem? cols idx ≡ some col)
        × WellFormed col
        × (validate_arrow_type_for_pg_oid cat (data_type col) a.atttypid ≡ ok tt)
  map_attribute-column a m cols h kept w =
      let h1 = rw kept at h in
      elim (Option-cases (name_to_idx fields 0 a.attname)) [
        | inl q ↦ let bad = rw q at h1 in absurd (cc)
        | inr ((idx, d), q) ↦
            let h2 = rw q at h1 in
            elim (Result-cases (validate_arrow_type_for_pg_oid cat d a.atttypid)) [
              | inl (e, v) ↦ let bad = rw v at h2 in absurd (cc)
              | inr (u, v) ↦
                  let h3 = rw v at h2 in
                  let (k, col, ei, ec, ed, wc) =
                    name_to_idx-column fields 0 a.attname idx d cols q w in
                  let here : k ≡ idx = omega (arith, ei) in
                  (
                    idx,
                    col,
                    cc,
                    ap (get_elem? cols) (sym here) ∙ ec,
                    wc,
                    ap (λ t. validate_arrow_type_for_pg_oid cat t a.atttypid) ed ∙ v,
                  )
            ]
      ]
