-- ===== src/Namespace/NoDrop.antt =====
-- src/fdw/attach_namespace.rs and src/fdw/sync_namespace.rs: which statements are run.
use pglance.Base.{
  ℕ, ◌≡◌, refl, false, Bool-cases, inl, inr, Option, none, List, [], ◌∷◌, Text, codes, Result, ok,
  ◌>>=◌, not, ◌||◌, Result-cases, Option-cases, text_eq, starts_with, All, All-append,
}
use pglance.Base.Map.{lookup, ord_ℕ, ord_list}
use pglance.Ddl.{
  CompositeTypeDef, create_schema_sql, create_composite_type_sql, create_foreign_table_sql,
}
use pglance.Ddl.Order.{order_composite_types}
use pglance.TypeMapping.{SchemaMapping, build_schema_mapping}
use pglance.Namespace.{
  TableId, LocalMapping, build_mapping, Services, AttachContext, attach_one, attach_sql, run_all,
  map_types, or_default, schema_of, table_of, create_table,
}
use pglance.Namespace.Local.{LocalRow, Locals, introspect_rows}
use pglance.Namespace.Sync.{
  Options, context, sync_one, sync_mapping, drop_one, drop_all, sync_namespace, local_only,
  sort_locals,
}

abbrev pub IsNoDrop : Text → Type 0
IsNoDrop sql = starts_with sql (codes "DROP") ≡ false

module _ (srv : Services) (Inv : srv.Database → Type 0) where
  open srv use {Database, run_sql}

  module _
      (keeps : (sql : Text) (d d' : Database)
        → IsNoDrop sql
        → Inv d
        → run_sql sql d ≡ ok d'
        → Inv d') where
    run_all-Inv :
        (sqls : List Text) (d : Database) → All IsNoDrop sqls → Inv d → Inv (run_all srv sqls d).1
    unfolding run_all
    run_all-Inv [] d n i = i
    run_all-Inv (sql ∷ sqls) d n i = elim (Result-cases (run_sql sql d)) [
      | inl (e, ee) ↦ rw (ee, run_all) i
      | inr (d', ed) ↦ rw (ed, run_all) (run_all-Inv sqls d' n.1 (keeps sql d d' n.0 i ed))
    ]

    types-IsNoDrop :
        (schema : Text) (types : List CompositeTypeDef)
        → All IsNoDrop (map_types srv (create_composite_type_sql schema) types)
    unfolding create_composite_type_sql starts_with
    types-IsNoDrop schema [] = tt
    types-IsNoDrop schema (t ∷ types) = (refl, types-IsNoDrop schema types)

    attach_sql-IsNoDrop :
        (ctx : AttachContext) (id : TableId) (schema table : Text) (m : SchemaMapping)
        → All IsNoDrop (attach_sql srv ctx id schema table m)
    unfolding attach_sql create_schema_sql create_foreign_table_sql starts_with
    attach_sql-IsNoDrop ctx id schema table m = (
      refl,
      All-append IsNoDrop _ _
          (types-IsNoDrop schema (or_default (order_composite_types m.composite_types))) (refl, tt),
    )

    create_table-Inv :
        (ctx : AttachContext) (id : TableId) (schema table : Text) (d : Database)
        → Inv d
        → Inv (create_table srv ctx id schema table d).1
    create_table-Inv ctx id schema table d i =
        elim (Result-cases (srv.load_fields id >>= build_schema_mapping table)) [
          | inl (e, ee) ↦ rw (ee, create_table) i
          | inr (m, em) ↦
              let ran = run_all srv (attach_sql srv ctx id schema table m) d in
              let kept =
                run_all-Inv (attach_sql srv ctx id schema table m) d
                  (attach_sql-IsNoDrop ctx id schema table m) i in
              elim (Result-cases ran.0) [
                | inl (e, ee) ↦ rw (em, create_table, ee) kept
                | inr (u, eu) ↦ rw (em, create_table, eu) kept
              ]
        ]

    attach_one-Inv :
        (ctx : AttachContext) (id : TableId) (schema table : Text) (d : Database)
        → Inv d
        → Inv (attach_one srv ctx id schema table d).1
    unfolding attach_one attach_sql
    attach_one-Inv ctx id schema table d i =
        elim (Result-cases (srv.lookup_existing_relation d schema table)) [
          | inl (e, ee) ↦ rw (ee, attach_one) i
          | inr (found, ef) ↦ elim (Option-cases found) [
            | inr (r, er) ↦ rw (ef, attach_one, er) i
            | inl n ↦ elim (Bool-cases ctx.dry_run) [
              | inl h ↦ rw (ef, attach_one, n, h) i
              | inr h ↦ rw (ef, attach_one, n, h) (create_table-Inv ctx id schema table d i)
            ]
          ]
        ]

    module _ (drift : Database → TableId → Text → Text → ℕ → Result Text (Option Text))
        (opts : Options) (no_recreate : opts.recreate_changed ≡ false)
        (no_drop : opts.drop_missing ≡ false) where
      sync_one-Inv :
          (locals : Locals) (id : TableId) (schema table : Text) (d : Database)
          → Inv d
          → Inv (sync_one srv drift opts locals id schema table d).1
      unfolding sync_one
      sync_one-Inv locals id schema table d i = elim (Option-cases (lookup id locals)) [
        | inl n ↦
            rw (n, sync_one)
              (attach_one-Inv (context srv drift opts none opts.dry_run) id schema table d i)
        | inr (local, el) ↦
            elim (Bool-cases
              (not (text_eq local.local_schema schema) || not (text_eq local.local_table table))) [
                | inl e ↦ rw (el, sync_one, e) i
                | inr e ↦ elim (Result-cases (drift d id schema table local.relid)) [
                  | inl (m, em) ↦ rw (el, sync_one, e, em) i
                  | inr (found, ef) ↦ elim (Option-cases found) [
                    | inl n ↦ rw (el, sync_one, e, ef, n) i
                    | inr (why, ew) ↦ rw (el, sync_one, e, ef, ew, no_recreate) i
                  ]
                ]
              ]
      ]

      sync_mapping-Inv :
          (locals : Locals) (mapping : List (TableId × LocalMapping)) (d : Database)
          → Inv d
          → Inv (sync_mapping srv drift opts locals mapping d).1
      unfolding sync_mapping
      sync_mapping-Inv locals [] d i = i
      sync_mapping-Inv locals ((id, local) ∷ rest) d i =
          let one =
            sync_one srv drift opts locals id (schema_of srv local) (table_of srv local) d in
          let kept = sync_one-Inv locals id (schema_of srv local) (table_of srv local) d i in
          elim (Result-cases one.0) [
            | inl (m, em) ↦ rw (em, sync_mapping) kept
            | inr (row, er) ↦ rw (er, sync_mapping) (sync_mapping-Inv locals rest one.1 kept)
          ]

      drop_all-same : (locals : Locals) (d : Database) → (drop_all srv drift opts locals d).1 ≡ d
      unfolding drop_all drop_one
      drop_all-same [] d = refl
      drop_all-same ((id, local) ∷ rest) d = rw (no_drop, drop_all, drop_one) (drop_all-same rest d)

      -- Without `drop_missing` and `recreate_changed`, a synchronisation runs no statement that
      -- starts with DROP: what every other statement keeps true of the database is true at its end,
      -- also when it ends with an error.
      pub sync_namespace-no_drop :
          (prefix : Text) (root : TableId) (remote : List TableId) (rows : List LocalRow)
          (d : Database)
          → Inv d
          → Inv (sync_namespace srv drift opts prefix root remote rows d).1
      unfolding sync_namespace
      sync_namespace-no_drop prefix root remote rows d i =
          elim (Result-cases (build_mapping prefix remote)) [
            | inl (e, ee) ↦ rw (ee, sync_namespace) i
            | inr ((conflicts, mapping), em) ↦
                let locals = (introspect_rows srv root rows [] []).0 in
                let synced = sync_mapping srv drift opts locals mapping d in
                let kept = sync_mapping-Inv locals mapping d i in
                elim (Result-cases synced.0) [
                  | inl (m, es) ↦ rw (em, sync_namespace, es) kept
                  | inr (done, es) ↦
                      rw
                        (
                          em,
                          sync_namespace,
                          es,
                          drop_all-same
                              (sort_locals srv drift opts (local_only srv drift opts remote locals))
                              synced.1,
                        )
                        kept
                ]
          ]
