-- ===== src/Namespace/Local.antt =====
-- src/fdw/sync_namespace.rs: `introspect_local_namespace_tables`, over the rows of its query.
use pglance.Base.{
  ℕ, Bool, false, Option, none, some, List, [], ◌∷◌, ◌++◌, Text, codes, Result, ok, err, length,
  if◌then◌else◌, leb, take,
}
use pglance.Base.Int.{ℤ}
use pglance.Base.Map.{ord_ℕ, ord_list, lookup, insert}
use pglance.Namespace.{TableId, AttachNamespaceRow, Services, failed_row, ids_eq}

pub record LocalNamespaceTable : Type 0 where
  pub local_schema : Text
  pub local_table : Text
  pub relid : ℕ
  pub batch_size : Option ℤ

unfoldable pub has_prefix : TableId → TableId → Bool
has_prefix full prefix =
    if leb (length prefix) (length full) then ids_eq (take (length prefix) full) prefix else false

-- One row of the query of `introspect_local_namespace_tables`.
pub record LocalRow : Type 0 where
  pub table : LocalNamespaceTable
  pub table_id_json : Option Text

abbrev pub Locals : Type 0
Locals = List (TableId × LocalNamespaceTable)

module _ (srv : Services) where
  open srv use {Database, run_sql, from_json}

  abbrev pub bad_local : LocalNamespaceTable → TableId → Text → AttachNamespaceRow
  bad_local t id detail = failed_row srv id t.local_schema t.local_table (codes "error") detail

  -- The table id of a row's option, or the detail of the error.
  abbrev pub local_id : Option Text → Result Text TableId
  local_id none = err (codes "missing required option: ns.table_id")
  local_id (some json) = elim (from_json json) [
    | err e ↦ err (codes "invalid option: ns.table_id must be a JSON array of strings, error=" ++ e)
    | ok [] ↦ err (codes "invalid option: ns.table_id must not be empty")
    | ok (x ∷ xs) ↦ ok (x ∷ xs)
  ]

  abbrev pub duplicate_rows : TableId → LocalNamespaceTable → Locals → List AttachNamespaceRow
  duplicate_rows id t locals = elim (lookup id locals) [
    | none ↦ []
    | some old ↦
        bad_local t id
          (codes "duplicate local ns.table_id (multiple foreign tables point to the same table_id)")
        ∷ []
  ]

  unfoldable pub introspect_rows :
      TableId → List LocalRow → Locals → List AttachNamespaceRow → Locals × List AttachNamespaceRow
  introspect_rows root [] locals errors = (locals, errors)
  introspect_rows root (r ∷ rows) locals errors =
      let id = local_id r.table_id_json in
      elim id [
        | err e ↦ introspect_rows root rows locals (errors ++ (bad_local r.table [] e ∷ []))
        | ok table_id ↦
            let outside = introspect_rows root rows locals errors in
            let inside =
              introspect_rows root rows (insert table_id r.table locals)
                (errors ++ duplicate_rows table_id r.table locals) in
            if has_prefix table_id root then inside else outside
      ]
