-- ===== src/Metadata/Fields.antt =====
-- src/write/metadata.rs: the rows of `lance_table_fields` in the order of a walk over the fields.
use pglance.Base.{
  ◌≡◌, refl, sym, ap, ◌∙◌, Option, none, some, List, [], ◌∷◌, ◌++◌, map, Text, codes, join,
}
use mathlib.Core.List.{append_assoc, append-nil, map-append}
use pglance.Convert.External.{Json}
use pglance.Metadata.{
  LanceField, LanceFields, field, nil, cons, TableFieldRow, path_of, collect_field_rows,
  collect_fields,
}

-- The fields below a path of names, each with the names that lead to it: a field before its children,
-- and the children in their order.
unfoldable mutual
  pub walk : List Text → LanceField → List (List Text × LanceField)
  walk names (field name id parent_id data_type nullable metadata children) =
      (names ++ (name ∷ []), field name id parent_id data_type nullable metadata children)
      ∷ walk_all (names ++ (name ∷ [])) children

  pub walk_all : List Text → LanceFields → List (List Text × LanceField)
  walk_all names nil = []
  walk_all names (cons f fs) = walk names f ++ walk_all names fs

-- The row of a field at the end of a path of names.
unfoldable pub row_at : (Json → Text) → List Text × LanceField → TableFieldRow
row_at print (names, field name id parent_id data_type nullable metadata children) = record {
  field_path = join (codes ".") names;
  field_id = id;
  parent_id = parent_id;
  field_name = name;
  data_type = data_type;
  nullable = nullable;
  metadata = print metadata;
}

-- The argument `parent_path` for a path of names.
abbrev parent_of : List Text → Option Text
parent_of [] = none
parent_of (n ∷ ns) = some (join (codes ".") (n ∷ ns))

join_snoc :
    (n : Text) (ns : List Text) (name : Text)
    → join (codes ".") ((n ∷ ns) ++ (name ∷ [])) ≡ join (codes ".") (n ∷ ns) ++ (b'.' ∷ name)
unfolding join
join_snoc n [] name = refl
join_snoc n (m ∷ ns) name =
    ap (λ (t : Text). n ++ (b'.' ∷ t)) (join_snoc m ns name)
    ∙ sym (append_assoc n (b'.' ∷ join (codes ".") (m ∷ ns)) (b'.' ∷ name))

path_of-parent_of :
    (names : List Text) (name : Text)
    → path_of (parent_of names) name ≡ join (codes ".") (names ++ (name ∷ []))
unfolding join
path_of-parent_of [] name = refl
path_of-parent_of (n ∷ ns) name = sym (join_snoc n ns name)

parent_of-snoc :
    (names : List Text) (name : Text)
    → parent_of (names ++ (name ∷ [])) ≡ some (join (codes ".") (names ++ (name ∷ [])))
parent_of-snoc [] name = refl
parent_of-snoc (n ∷ ns) name = refl

module _ (print : Json → Text) where
  mutual
    unfolding collect_field_rows collect_fields walk walk_all row_at

    collect_lem :
        (names : List Text) (f : LanceField) (rows : List TableFieldRow)
        → collect_field_rows print f (parent_of names) rows
          ≡ rows ++ map (row_at print) (walk names f)
    collect_lem names (field name id parent_id data_type nullable metadata children) rows =
        let row =
          row_at print
            (names ++ (name ∷ []), field name id parent_id data_type nullable metadata children) in
        rw (path_of-parent_of names name) (
          rw (← parent_of-snoc names name) (
            collect_all_lem (names ++ (name ∷ [])) children (rows ++ (row ∷ []))
            ∙ append_assoc rows (row ∷ [])
                (map (row_at print) (walk_all (names ++ (name ∷ [])) children))))

    collect_all_lem :
        (names : List Text) (fs : LanceFields) (rows : List TableFieldRow)
        → collect_fields print fs (parent_of names) rows
          ≡ rows ++ map (row_at print) (walk_all names fs)
    collect_all_lem names nil rows = sym (append-nil rows)
    collect_all_lem names (cons f fs) rows = rw (collect_lem names f rows) (
        collect_all_lem names fs (rows ++ map (row_at print) (walk names f))
        ∙ simp (map-append, append_assoc))

  -- The rows of `lance_table_fields` are the fields of the schema at every depth, each once and in the
  -- order of a walk that takes a field before its children. The path of a row is the names of the
  -- fields that lead to it, joined by dots, and the other columns are the field's own.
  pub collect_fields-walk_all :
      (fs : LanceFields) → collect_fields print fs none [] ≡ map (row_at print) (walk_all [] fs)
  collect_fields-walk_all fs = collect_all_lem [] fs []
