-- ===== src/Convert/Checked.antt =====
-- src/fdw/convert.rs: a column that `validate_arrow_type_for_pg_oid` has accepted never fails with a
-- type mismatch in `arrow_value_to_datum`.
use pglance.Base.{
  ℕ, zero, suc, ◌+◌, ◌≡◌, refl, ap, ◌∙◌, Bool, Bool-cases, inl, inr, Option, none, some, List, [],
  ◌∷◌, Text, codes, ok, err, ◌>>=◌, ◌==◌, arith, text_eq, length,
}
use pglance.Arrow.{field_type, Field, new}
use pglance.Convert.{
  Conv, fail, type_mismatch, Attr, Catalog, invalid_oid, jsonb_oid, validate_arrow_type_for_pg_oid,
  validate_field, validate_named, check_attrs, check_list, check_tupdesc,
}
use pglance.Convert.Arrays
use pglance.Convert.Arrays.{
  ListKind, Array, Rows, Columns, boolean_array, primitive_array, string_array, binary_array,
  list_array, struct_array, dictionary_array, map_array, other_array, no_rows, null_row, row,
  no_columns, column, len, data_type, fields_of, WellFormed, WellFormedRows, WellFormedColumns,
  list_data_type,
}
use pglance.Convert.External.{External, Json}
use pglance.Convert.Json.{arrow_value_to_json, row_validity}
use pglance.Convert.Datum.{
  arrow_value_to_datum, row_to_array_datum, named_column_to_datum, convert_values, convert_attrs,
  list_to_datum, jsonb_of, array_values_to_pg_array, struct_to_composite_datum,
}
use pglance.Convert.Mismatch.{
  Matching, Matching-ok, Matching-panic, Matching-bind, Matching-not_null, required,
  primitive-Matching, string-Matching, binary-Matching,
}
use pglance.Convert.JsonMismatch.{
  on_cell-Matching, on_valid-Matching, dictionary-Matching, json-Matching,
}

both_pass : (m k : Conv (Unit {0})) → (m >>= λ _. k) ≡ ok tt → (m ≡ ok tt) × (k ≡ ok tt)
both_pass (ok tt) k h = (refl, h)
both_pass (err e) k h = absurd (cc)

list_check :
    (cat : Catalog) (k : ListKind) (elem : Field) (target : ℕ)
    → validate_arrow_type_for_pg_oid cat (list_data_type k elem) target ≡ ok tt
    → check_list cat (validate_field cat elem) target ≡ ok tt
unfolding validate_arrow_type_for_pg_oid
list_check cat Arrays.list elem target h = h
list_check cat Arrays.large_list elem target h = h
list_check cat (Arrays.fixed_size_list n) elem target h = h

field_check :
    (cat : Catalog) (elem : Field) (target : ℕ)
    → validate_field cat elem target ≡ ok tt
    → validate_arrow_type_for_pg_oid cat (field_type elem) target ≡ ok tt
unfolding validate_field
field_check cat (new n d nullable) target h = h

module _ (x : External) (cat : Catalog) where
  open x use {Datum, jsonb_datum, construct_md_array, heap_form_tuple}

  jsonb-Matching : (j : Conv Json) → Matching j → Matching (jsonb_of x cat j)
  jsonb-Matching j h =
      Matching-bind j _ h
        λ json _. Matching-not_null x (jsonb_datum json) (codes "failed to convert jsonb")

  values-Matching :
      (f : ℕ → Conv (Datum × Bool)) (n i : ℕ)
      → ((j : ℕ) → Matching (f j))
      → Matching (convert_values x cat f n i)
  unfolding convert_values
  values-Matching f zero i h = Matching-ok []
  values-Matching f (suc n) i h = Matching-bind (f i) _ (h i) λ c _.
      Matching-bind (convert_values x cat f n (i + 1)) _ (values-Matching f n (i + 1) h)
        λ rest _. Matching-ok (c ∷ rest)

  array-Matching :
      (f : ℕ → Conv (Datum × Bool)) (n elem_oid : ℕ)
      → ((j : ℕ) → Matching (f j))
      → Matching (array_values_to_pg_array x cat f n elem_oid)
  array-Matching f n elem_oid h =
      Matching-bind (convert_values x cat f n 0) _ (values-Matching f n 0 h) λ cells _.
        Matching-not_null x (construct_md_array cells elem_oid) (codes "failed to construct array")

  -- A list that has passed the check is an array of elements that pass, or goes to jsonb.
  list-Matching :
      (k : ListKind) (check : ℕ → Conv (Unit {0})) (json : Conv Json)
      (array : ℕ → Conv (Datum × Bool)) (target : ℕ)
      → cat.element_type jsonb_oid ≡ invalid_oid
      → check_list cat check target ≡ ok tt
      → Matching json
      → ((t : ℕ) → check t ≡ ok tt → Matching (array t))
      → Matching (list_to_datum x cat k json array target)
  list-Matching k check json array target hj hc mj ma =
      elim (Bool-cases (cat.element_type target == invalid_oid)) [
        | inl e ↦ elim (Bool-cases (target == jsonb_oid)) [
          | inl f ↦ rw e (rw f (jsonb-Matching json mj))
          | inr f ↦ absurd (ground arith)
        ]
        | inr e ↦ rw e (ma (cat.element_type target) (ground arith))
      ]

  attrs-Matching :
      (check : Text → ℕ → Conv (Unit {0})) (f : Text → ℕ → Conv (Datum × Bool)) (attrs : List Attr)
      → check_attrs check attrs ≡ ok tt
      → ((n : Text) (t : ℕ) → check n t ≡ ok tt → Matching (f n t))
      → Matching (convert_attrs x cat f attrs)
  unfolding check_attrs convert_attrs
  attrs-Matching check f [] hc m = Matching-ok []
  attrs-Matching check f (a ∷ attrs) hc m = elim (Bool-cases a.attisdropped) [
    | inl e ↦ rw e (
        Matching-bind (convert_attrs x cat f attrs) _
          (attrs-Matching check f attrs (ground arith) m) λ rest _. Matching-ok _)
    | inr e ↦ rw e (
        let both = both_pass (check a.attname a.atttypid) (check_attrs check attrs) (rw e at hc) in
        Matching-bind (f a.attname a.atttypid) _ (m a.attname a.atttypid both.0) λ c _.
          Matching-bind (convert_attrs x cat f attrs) _ (attrs-Matching check f attrs both.1 m)
            λ rest _. Matching-ok _)
  ]

  struct-Matching :
      (check : Text → ℕ → Conv (Unit {0})) (f : Text → ℕ → Conv (Datum × Bool)) (target : ℕ)
      (attrs : Option (List Attr))
      → check_tupdesc check attrs ≡ ok tt
      → ((n : Text) (t : ℕ) → check n t ≡ ok tt → Matching (f n t))
      → Matching (struct_to_composite_datum x cat f target attrs)
  struct-Matching check f target none hc m = absurd (cc)
  struct-Matching check f target (some attrs) hc m =
      Matching-bind (convert_attrs x cat f attrs) _ (attrs-Matching check f attrs hc m) λ cells _.
        Matching-not_null x (heap_form_tuple target cells) (codes "failed to form heap tuple")

  module _ (hj : cat.element_type jsonb_oid ≡ invalid_oid) where
    mutual
      unfolding arrow_value_to_datum row_to_array_datum named_column_to_datum
          validate_arrow_type_for_pg_oid validate_field validate_named

      checked :
          (a : Array)
          → WellFormed a
          → (r target : ℕ) → validate_arrow_type_for_pg_oid cat (data_type a) target ≡ ok tt
          → Matching (arrow_value_to_datum x cat a r target)
      checked (boolean_array vs) w r target h =
          on_cell-Matching vs r _ _ λ v. required _ _ _ h _ _ (Matching-not_null x _ _)
      checked (primitive_array p vs) w r target h =
          on_cell-Matching vs r _ _ λ v. primitive-Matching x cat p v target h
      checked (string_array k vs) w r target h =
          on_cell-Matching vs r _ _ λ v. string-Matching x cat k vs v target h
      checked (binary_array k vs) w r target h =
          on_cell-Matching vs r _ _ λ v. binary-Matching x cat k vs v target h
      checked (list_array k elem rs) w r target h = on_valid-Matching (row_validity rs) r _ _ (
          list-Matching k (validate_field cat elem) (arrow_value_to_json x (list_array k elem rs) r)
            (row_to_array_datum x cat rs r) target hj (list_check cat k elem target h)
            (json-Matching x (list_array k elem rs) r) λ t ht. checked_row elem rs w r t ht)
      checked (struct_array validity cs) w r target h = on_valid-Matching validity r _ _ (
          struct-Matching (validate_named cat (fields_of cs)) (named_column_to_datum x cat cs r)
            target (cat.tupdesc target) h λ n t ht. checked_column (length validity) cs w r n t ht)
      checked (dictionary_array key ks values) w r target h =
          on_cell-Matching ks r _ _
            λ v. dictionary-Matching x key values _ v λ i. checked values w i target h
      checked (map_array entries sorted validity) w r target h =
          on_valid-Matching validity r _ _
            (required _ _ _ h _ _ (jsonb-Matching _ (json-Matching x _ r)))
      checked (other_array name validity) w r target h =
          on_valid-Matching validity r _ _
            (required _ _ _ h _ _ (jsonb-Matching _ (json-Matching x _ r)))

      checked_row :
          (elem : Field) (rs : Rows)
          → WellFormedRows elem rs
          → (r target : ℕ) → validate_field cat elem target ≡ ok tt
          → Matching (row_to_array_datum x cat rs r target)
      checked_row elem no_rows w r target h = Matching-panic
      checked_row elem (null_row rs) w zero target h = array-Matching _ 0 target λ i. Matching-panic
      checked_row elem (null_row rs) w (suc r) target h = checked_row elem rs w r target h
      checked_row elem (row a rs) w zero target h = array-Matching _ (len a) target λ i.
          checked a w.1 i target (
            ap (λ d. validate_arrow_type_for_pg_oid cat d target) w.0
            ∙ field_check cat elem target h)
      checked_row elem (row a rs) w (suc r) target h = checked_row elem rs w.2 r target h

      checked_column :
          (n : ℕ) (cs : Columns)
          → WellFormedColumns n cs
          → (r : ℕ) (name : Text) (target : ℕ)
          → validate_named cat (fields_of cs) name target ≡ ok tt
          → Matching (named_column_to_datum x cat cs r name target)
      checked_column n no_columns w r name target h = absurd (cc)
      checked_column n (column (new f d nullable) a cs) w r name target h =
          elim (Bool-cases (text_eq f name)) [
            | inl e ↦ rw e (
                checked a w.2 r target
                  (ap (λ d. validate_arrow_type_for_pg_oid cat d target) w.0 ∙ rw e at h))
            | inr e ↦ rw e (checked_column n cs w.3 r name target (rw e at h))
          ]

-- A value of a well-formed array whose data type `validate_arrow_type_for_pg_oid` accepts for the
-- target type is never refused by `arrow_value_to_datum` with a type mismatch, at any depth of lists,
-- structs and dictionaries, when jsonb is no array type.
pub accepted_column_matches :
    (x : External) (cat : Catalog)
    → cat.element_type jsonb_oid ≡ invalid_oid
    → (a : Array) → WellFormed a
    → (r target : ℕ) → validate_arrow_type_for_pg_oid cat (data_type a) target ≡ ok tt
    → (message : Text) → ¬ (arrow_value_to_datum x cat a r target ≡ fail type_mismatch message)
accepted_column_matches x cat hj a w r target h message =
    (checked x cat hj a w r target h).at message
