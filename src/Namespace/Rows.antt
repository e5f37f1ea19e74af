-- ===== src/Namespace/Rows.antt =====
-- src/fdw/attach_namespace.rs: the tables of the listing and the rows of `attach_namespace`.
use pglance.Base.{
  ◌≡◌, refl, ◌∙◌, ◌≢◌, inl, inr, Result-cases, Option-cases, ◌>>=◌, List, [], ◌∷◌, ◌++◌, map, Bool,
  true, false, Bool-cases, All, Text, codes, Result, ok, err, text_eq, if◌then◌else◌,
}
use mathlib.Core.List.{map-append, Perm}
use mathlib.Core.List.Perm
use pglance.Base.Map.{ord_ℕ, ord_list}
use pglance.Naming.{schema_and_table_for_table_id}
use pglance.TypeMapping.{build_schema_mapping}
use pglance.Namespace.{
  TableId, LocalMapping, split_groups, build_mapping, AttachNamespaceRow, row_error, Services,
  AttachContext, attach_one, attach_all, attach_namespace, conflict_rows, conflict_detail,
  row_or_failed, schema_of, table_of, ExistingRelation, table_id_matches, existing_row,
  create_table, run_all, attach_sql, foreign_table, other,
}
use pglance.Namespace.Groups.{first_ids, group-all_ids, group_by_local_total, split-all_ids}

abbrev pub row_ids : List AttachNamespaceRow → List TableId
row_ids rows = map (λ r. r.table_id) rows

row_error-id : (id : TableId) (prefix detail : Text) → (row_error id prefix detail).table_id ≡ id
unfolding row_error
row_error-id id prefix detail = elim (Result-cases (schema_and_table_for_table_id prefix id)) [
  | inl (e, f) ↦ rw (f, row_error) refl
  | inr ((schema, table), f) ↦ rw (f, row_error) refl
]

conflict_rows-ids :
    (srv : Services) (prefix : Text) (ids : List TableId)
    → row_ids (conflict_rows srv prefix ids) ≡ ids
conflict_rows-ids srv prefix [] = refl
conflict_rows-ids srv prefix (id ∷ ids) =
    rw (row_error-id id prefix (conflict_detail srv), conflict_rows-ids srv prefix ids) refl

-- A row, when there is one, is about the id.
abbrev About : TableId → Result Text AttachNamespaceRow → Type 0
About id (ok row) = row.table_id ≡ id
About id (err e) = Unit

module _ (srv : Services) (ctx : AttachContext) where
  existing_row-About :
      (id : TableId) (schema table : Text) (existing : ExistingRelation)
      → About id (existing_row srv ctx id schema table existing)
  existing_row-About id schema table (other relkind) = tt
  existing_row-About id schema table (foreign_table server json) =
      elim (Bool-cases (text_eq server ctx.server_name)) [
        | inr e ↦ rw e tt
        | inl e ↦ elim (Result-cases (table_id_matches srv id json)) [
          | inl (m, f) ↦ rw (e, f) tt
          | inr (b, f) ↦ elim (Bool-cases b) [ inl t ↦ rw (e, f, t) refl | inr t ↦ rw (e, f, t) tt ]
        ]
      ]

  create_table-About :
      (id : TableId) (schema table : Text) (d : srv.Database)
      → About id (create_table srv ctx id schema table d).0
  create_table-About id schema table d =
      elim (Result-cases (srv.load_fields id >>= build_schema_mapping table)) [
        | inl (e, f) ↦ rw (f, create_table) tt
        | inr (mapping, f) ↦
            elim (Result-cases (run_all srv (attach_sql srv ctx id schema table mapping) d).0) [
              | inl (e, g) ↦ rw (f, create_table, g) tt
              | inr (u, g) ↦ rw (f, create_table, g) refl
            ]
      ]

  attach_one-About :
      (id : TableId) (schema table : Text) (d : srv.Database)
      → About id (attach_one srv ctx id schema table d).0
  unfolding attach_one
  attach_one-About id schema table d =
      elim (Result-cases (srv.lookup_existing_relation d schema table)) [
        | inl (e, f) ↦ rw (f, attach_one) tt
        | inr (found, f) ↦ elim (Option-cases found) [
          | inr (existing, g) ↦ rw (f, attach_one, g) (existing_row-About id schema table existing)
          | inl g ↦
              rw (f, attach_one, g)
                (either ctx.dry_run _ _ refl (create_table-About id schema table d))
        ]
      ]
    where
      either :
          (b : Bool) (r s : Result Text AttachNamespaceRow × srv.Database)
          → About id r.0
          → About id s.0
          → About id (if b then r else s).0
      either true r s h k = h
      either false r s h k = k

  row_or_failed-id :
      (id : TableId) (schema table action : Text) (r : Result Text AttachNamespaceRow)
      → About id r
      → (row_or_failed srv id schema table action r).table_id ≡ id
  row_or_failed-id id schema table action (ok row) h = h
  row_or_failed-id id schema table action (err e) h = refl

  attach_all-ids :
      (mapping : List (TableId × LocalMapping)) (d : srv.Database)
      → row_ids (attach_all srv ctx mapping d).0 ≡ first_ids mapping
  unfolding attach_all
  attach_all-ids [] d = refl
  attach_all-ids ((id, local) ∷ mapping) d =
      let schema = schema_of srv local in
      let table = table_of srv local in
      let one = attach_one srv ctx id schema table d in
      rw
        (
          row_or_failed-id id schema table (codes "error") one.0
              (attach_one-About id schema table d),
          attach_all-ids mapping one.1,
        )
        refl

  -- `attach_namespace` gives each listed table one row: when no listed id is empty it never fails as a
  -- whole, and the table ids of its rows are the listed ids, each as often as it is listed, whatever
  -- exists in the database, which names clash, and which statements fail.
  pub attach_namespace-rows :
      (prefix : Text) (ids : List TableId) (d : srv.Database)
      → All (λ id. id ≢ []) ids
      → (rows : List AttachNamespaceRow) × ((attach_namespace srv ctx prefix ids d).0 ≡ ok rows)
        × Perm (row_ids rows) ids
  unfolding attach_namespace build_mapping
  attach_namespace-rows prefix ids d h =
      let (groups, eg) = group_by_local_total prefix ids [] h in
      let conflicts = (split_groups groups).0 in
      let mapping = (split_groups groups).1 in
      let same : row_ids (conflict_rows srv prefix conflicts ++ (attach_all srv ctx mapping d).0)
          ≡ conflicts ++ first_ids mapping =
        map-append (λ r. r.table_id) (conflict_rows srv prefix conflicts)
          (attach_all srv ctx mapping d).0
        ∙ rw (conflict_rows-ids srv prefix conflicts, attach_all-ids mapping d) refl in
      (
        conflict_rows srv prefix conflicts ++ (attach_all srv ctx mapping d).0,
        rw (eg, attach_namespace, build_mapping) refl,
        rw same (Perm.trans (split-all_ids groups) (group-all_ids prefix ids [] groups tt eg)),
      )
