-- ===== src/Namespace/Sync.antt =====
-- src/fdw/sync_namespace.rs: comparing the tables of a namespace with the local foreign tables.
use pglance.Base.{
  ℕ, Bool, false, ◌||◌, Option, none, some, List, [], ◌∷◌, ◌++◌, Text, codes, Result, ok, err,
  ◌>>=◌, not, if◌then◌else◌, text_eq,
}
use pglance.Base.Int.{ℤ}
use pglance.Base.Map.{ord_ℕ, ord_list, cmp_list, lookup}
use Prim.Native.Nat.{compare, Ordering}
use pglance.Ddl.{quote_ident}
use pglance.Namespace.{
  TableId, AttachNamespaceRow, make_row, LocalMapping, build_mapping, conflict_rows, Services,
  AttachContext, attach_one, failed_row, row_or_failed, schema_of, table_of, ids_eq,
}
use pglance.Namespace.Local.{LocalNamespaceTable, LocalRow, Locals, introspect_rows}

unfoldable pub drop_sql : Text → Text → Text
drop_sql schema table =
    codes "DROP FOREIGN TABLE "
    ++ (quote_ident schema ++ (codes "." ++ (quote_ident table ++ codes ";")))

abbrev pub ok_row : TableId → Text → Text → Text → Text → AttachNamespaceRow
ok_row id schema table action detail = make_row id schema table action (codes "ok") detail

abbrev pub skipped_row : TableId → Text → Text → Text → Text → AttachNamespaceRow
skipped_row id schema table action detail = make_row id schema table action (codes "skipped") detail

-- The arguments of `sync_namespace` that choose what it does.
pub record Options : Type 0 where
  pub server_name : Text
  pub drop_missing : Bool
  pub recreate_changed : Bool
  pub dry_run : Bool

module _ (srv : Services) where
  open srv use {Database, run_sql}

  module _ (detect_schema_drift : Database → TableId → Text → Text → ℕ → Result Text (Option Text))
      (opts : Options) where
    abbrev pub context : Option ℤ → Bool → AttachContext
    context batch_size dry_run = record {
      server_name = opts.server_name;
      batch_size = batch_size;
      dry_run = dry_run;
    }

    abbrev pub recreated : Text → AttachNamespaceRow → AttachNamespaceRow
    recreated drift row =
        make_row row.table_id row.local_schema row.local_table (codes "recreate_table") row.status
          (codes "recreated: " ++ drift)

    -- A table whose columns differ, when it may be recreated.
    abbrev pub recreate :
        TableId → Text → Text → Option ℤ → Text → Database → AttachNamespaceRow × Database
    recreate id schema table batch_size drift d = elim (run_sql (drop_sql schema table) d) [
      | err e ↦ (
        failed_row srv id schema table (codes "recreate_table")
            (codes "failed to drop existing foreign table: " ++ e),
        d,
      )
      | ok d' ↦
          let one = attach_one srv (context batch_size false) id schema table d' in
          elim one.0 [
            | ok row ↦ (recreated drift row, one.1)
            | err e ↦ (
              failed_row srv id schema table (codes "recreate_table")
                  (codes "failed to recreate foreign table: " ++ e),
              one.1,
            )
          ]
    ]

    abbrev pub drifted :
        TableId → Text → Text → Option ℤ → Text → Database → AttachNamespaceRow × Database
    drifted id schema table batch_size drift d =
        if not opts.recreate_changed
        then (ok_row id schema table (codes "drift") drift, d)
        else if opts.dry_run
        then (skipped_row id schema table (codes "recreate_table") (codes "dry_run: " ++ drift), d)
        else recreate id schema table batch_size drift d

    -- One table of the mapping. An error ends the whole run.
    unfoldable pub sync_one :
        Locals → TableId → Text → Text → Database → Result Text AttachNamespaceRow × Database
    sync_one locals id schema table d = elim (lookup id locals) [
      | none ↦
          let one = attach_one srv (context none opts.dry_run) id schema table d in
          (ok (row_or_failed srv id schema table (codes "create_table") one.0), one.1)
      | some local ↦
          if not (text_eq local.local_schema schema) || not (text_eq local.local_table table)
          then (
            ok (
                ok_row id schema table (codes "drift") (
                  codes "local mapping differs: actual="
                  ++ (local.local_schema
                      ++ (codes "."
                          ++ (local.local_table
                              ++ (codes " expected=" ++ (schema ++ (codes "." ++ table)))))))),
            d,
          )
          else elim (detect_schema_drift d id schema table local.relid) [
            | err e ↦ (err e, d)
            | ok none ↦ (ok (ok_row id schema table (codes "in_sync") (codes "up to date")), d)
            | ok (some drift) ↦
                let one = drifted id schema table local.batch_size drift d in (ok one.0, one.1)
          ]
    ]

    unfoldable pub sync_mapping :
        Locals
        → List (TableId × LocalMapping)
        → Database
        → Result Text (List AttachNamespaceRow) × Database
    sync_mapping locals [] d = (ok [], d)
    sync_mapping locals ((id, local) ∷ rest) d =
        let one = sync_one locals id (schema_of srv local) (table_of srv local) d in
        let more = sync_mapping locals rest one.1 in
        elim one.0 [
          | err e ↦ (err e, one.1)
          | ok row ↦ (more.0 >>= λ rows. ok (row ∷ rows), more.1)
        ]

    -- One local table that the namespace does not list.
    unfoldable pub drop_one :
        TableId → LocalNamespaceTable → Database → AttachNamespaceRow × Database
    drop_one id local d =
        if not opts.drop_missing
        then (
          ok_row id local.local_schema local.local_table (codes "drift")
              (codes "local foreign table not found in remote namespace listing"),
          d,
        )
        else if opts.dry_run
        then (
          skipped_row id local.local_schema local.local_table (codes "drop_table")
              (codes "dry_run"),
          d,
        )
        else elim (run_sql (drop_sql local.local_schema local.local_table) d) [
          | ok d' ↦ (
            ok_row id local.local_schema local.local_table (codes "drop_table") (codes "dropped"),
            d',
          )
          | err e ↦
              (failed_row srv id local.local_schema local.local_table (codes "drop_table") e, d)
        ]

    unfoldable pub drop_all : Locals → Database → List AttachNamespaceRow × Database
    drop_all [] d = ([], d)
    drop_all ((id, local) ∷ rest) d =
        let one = drop_one id local d in let more = drop_all rest one.1 in (one.0 ∷ more.0, more.1)

    abbrev pub listed : TableId → List TableId → Bool
    listed id [] = false
    listed id (j ∷ ids) = ids_eq id j || listed id ids

    unfoldable pub local_only : List TableId → Locals → Locals
    local_only remote [] = []
    local_only remote ((id, local) ∷ rest) =
        let others = local_only remote rest in
        if listed id remote then others else (id, local) ∷ others

    abbrev pub name_of : LocalNamespaceTable → LocalMapping
    name_of t = t.local_schema ∷ t.local_table ∷ []

    -- `sort_by` is stable: an element goes before those that are greater.
    unfoldable pub insert_sorted : TableId × LocalNamespaceTable → Locals → Locals
    insert_sorted e [] = e ∷ []
    insert_sorted e (f ∷ rest) =
        let later = insert_sorted e rest in
        elim (cmp_list (cmp_list compare) (name_of e.1) (name_of f.1)) [
          | Ordering.gt ↦ f ∷ later
          | _ ↦ e ∷ f ∷ rest
        ]

    abbrev pub sort_locals : Locals → Locals
    sort_locals [] = []
    sort_locals (e ∷ rest) = insert_sorted e (sort_locals rest)

    -- `sync_namespace` after the listing of the namespace and of the local tables.
    unfoldable pub sync_namespace :
        Text
        → TableId
        → List TableId
        → List LocalRow
        → Database
        → Result Text (List AttachNamespaceRow) × Database
    sync_namespace prefix root remote rows d = elim (build_mapping prefix remote) [
      | err e ↦ (err e, d)
      | ok (conflicts, mapping) ↦
          let (locals, errors) = introspect_rows srv root rows [] [] in
          let synced = sync_mapping locals mapping d in
          let dropped = drop_all (sort_locals (local_only remote locals)) synced.1 in
          elim synced.0 [
            | err e ↦ (err e, synced.1)
            | ok done ↦ (
              ok (conflict_rows srv prefix conflicts ++ (errors ++ (done ++ dropped.0))),
              dropped.1,
            )
          ]
    ]
