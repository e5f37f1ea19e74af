-- ===== src/TypeMapping/Columns.antt =====
-- src/fdw/type_mapping.rs: `build_schema_mapping` never fails, and maps the columns in order.
use pglance.Base.{
  ◌≡◌, refl, ap, Bool, true, false, none, some, List, [], ◌∷◌, ◌++◌, Text, codes, Result, ok, map,
  if◌then◌else◌,
}
use pglance.Arrow.{
  DataType, Field, Fields, boolean, list, large_list, fixed_size_list, struct, dictionary, new, nil,
  cons, field_name, timestamp,
}
use pglance.TypeMapping.{
  Tables, Mapped, SchemaMapping, pg_type_for_type, pg_type_for_arrow, pg_type_for_fields,
  map_columns, build_schema_mapping, array_of, composite_of, is_new, see, composite_type_name,
  add_composite, no_tables, values,
}

-- `m` is no error.
abbrev Total {ℓ} : {A : Type ℓ} → Result Text A → Type ℓ
Total {A = A} m = (a : A) × (m ≡ ok a)

array_of-Total : (m : Mapped) → Total m → Total (array_of m)
array_of-Total m (r, e) = ((r.0 ++ codes "[]", r.1), rw e)

composite_of-Total :
    (name : Text) (m : Result Text (List (Text × Text) × Tables))
    → Total m
    → Total (composite_of name m)
composite_of-Total name m (r, e) = ((name, add_composite name r.0 r.1), rw e)

struct-Total : (b : Bool) (m n : Mapped) → Total m → Total n → Total (if b then m else n)
struct-Total true m n h k = h
struct-Total false m n h k = k

mutual
  unfolding pg_type_for_type

  type-Total :
      (table : Text) (d : DataType) (path : Text) (t : Tables)
      → Total (pg_type_for_type table d path t)
  type-Total table boolean path t = (_, refl)
  type-Total table (list elem) path t = array_of-Total _ (arrow-Total table elem _ t)
  type-Total table (large_list elem) path t = array_of-Total _ (arrow-Total table elem _ t)
  type-Total table (fixed_size_list elem n) path t = array_of-Total _ (arrow-Total table elem _ t)
  type-Total table (struct fields) path t =
      struct-Total (is_new (composite_type_name table path) t) _ _
        (composite_of-Total _ _
          (fields-Total table fields path (see (composite_type_name table path) t)))
        (_, refl)
  type-Total table (dictionary key value) path t = type-Total table value _ t
  type-Total table (timestamp u (some tz)) path t = (_, refl)
  type-Total table (timestamp u none) path t = (_, refl)
  type-Total table _ path t = (_, refl)

  pub arrow-Total :
      (table : Text) (f : Field) (path : Text) (t : Tables)
      → Total (pg_type_for_arrow table f path t)
  arrow-Total table (new name d nullable) path t = type-Total table d path t

  pub fields-Total :
      (table : Text) (fs : Fields) (path : Text) (t : Tables)
      → Total (pg_type_for_fields table fs path t)
  fields-Total table nil path t = (_, refl)
  fields-Total table (cons f fs) path t =
      let (r, e) = arrow-Total table f (path ++ (codes "_" ++ field_name f)) t in
      let (rest, e') = fields-Total table fs path r.1 in
      (((field_name f, r.0) ∷ rest.0, rest.1), rw (e, e'))

columns-Total :
    (table : Text) (fs : List Field) (t : Tables)
    → (r : List (Text × Text) × Tables) × (map_columns table fs t ≡ ok r)
      × (map (λ (c : Text × Text). c.0) r.0 ≡ map field_name fs)
unfolding map_columns
columns-Total table [] t = (_, refl, refl)
columns-Total table (f ∷ fs) t =
    let (r, e) = arrow-Total table f (field_name f) t in
    let (rest, e', names) = columns-Total table fs r.1 in
    (
      ((field_name f, r.0) ∷ rest.0, rest.1),
      rw (e, e'),
      ap (λ (l : List Text). field_name f ∷ l) names,
    )

-- For every dataset schema the mapping succeeds, whatever the types and the nesting, and its columns
-- are the fields of the dataset, all of them, by their own names and in their order.
pub build_schema_mapping_total :
    (table : Text) (fields : List Field)
    → (m : SchemaMapping) × (build_schema_mapping table fields ≡ ok m)
      × (map (λ (c : Text × Text). c.0) m.column_types ≡ map field_name fields)
unfolding build_schema_mapping
build_schema_mapping_total table fields =
    let (r, e, names) = columns-Total table fields no_tables in
    (record { composite_types = values r.1.composites; column_types = r.0 }, rw e, names)
