-- ===== src/Namespace/DryRun.antt =====
-- src/fdw/attach_namespace.rs and src/fdw/sync_namespace.rs: a dry run.
use pglance.Base.{
  ℕ, ◌≡◌, refl, ◌||◌, text_eq, ◌∙◌, true, Bool-cases, inl, inr, Option, none, List, [], ◌∷◌, Text,
  Result, not, Result-cases, Option-cases,
}
use pglance.Base.Int.{ℤ}
use pglance.Base.Map.{lookup, ord_ℕ, ord_list}
use pglance.Namespace.{
  TableId, LocalMapping, build_mapping, Services, AttachContext, attach_one, attach_all,
  attach_namespace, schema_of, table_of,
}
use pglance.Namespace.Sync.{
  Options, context, drifted, sync_one, sync_mapping, drop_one, drop_all, sync_namespace, local_only,
  sort_locals,
}
use pglance.Namespace.Local.{LocalNamespaceTable, LocalRow, Locals, introspect_rows}

module _ (srv : Services) where
  open srv use {Database}

  attach_one-dry :
      (ctx : AttachContext)
      → ctx.dry_run ≡ true
      → (id : TableId) (schema table : Text) (d : Database)
      → (attach_one srv ctx id schema table d).1 ≡ d
  unfolding attach_one
  attach_one-dry ctx h id schema table d =
      elim (Result-cases (srv.lookup_existing_relation d schema table)) [
        | inl (e, ee) ↦ rw (ee, attach_one)
        | inr (found, ef) ↦ elim (Option-cases found) [
          | inl n ↦ rw (ef, attach_one, n, h)
          | inr (r, er) ↦ rw (ef, attach_one, er)
        ]
      ]

  attach_all-dry :
      (ctx : AttachContext)
      → ctx.dry_run ≡ true
      → (mapping : List (TableId × LocalMapping)) (d : Database)
      → (attach_all srv ctx mapping d).1 ≡ d
  unfolding attach_all
  attach_all-dry ctx h [] d = refl
  attach_all-dry ctx h ((id, local) ∷ rest) d =
      attach_all-dry ctx h rest
        (attach_one srv ctx id (schema_of srv local) (table_of srv local) d).1
      ∙ attach_one-dry ctx h id (schema_of srv local) (table_of srv local) d

  -- A dry run of `attach_namespace` leaves the database as it was, whatever it reports.
  pub attach_namespace-dry :
      (ctx : AttachContext)
      → ctx.dry_run ≡ true
      → (prefix : Text) (table_ids : List TableId) (d : Database)
      → (attach_namespace srv ctx prefix table_ids d).1 ≡ d
  unfolding attach_namespace
  attach_namespace-dry ctx h prefix table_ids d =
      elim (Result-cases (build_mapping prefix table_ids)) [
        | inl (e, ee) ↦ rw (ee, attach_namespace)
        | inr ((conflicts, mapping), em) ↦
            rw (em, attach_namespace) (attach_all-dry ctx h mapping d)
      ]

  module _ (drift : Database → TableId → Text → Text → ℕ → Result Text (Option Text))
      (opts : Options) where
    drifted-dry :
        opts.dry_run ≡ true
        → (id : TableId) (schema table : Text) (bs : Option ℤ) (why : Text) (d : Database)
        → (drifted srv drift opts id schema table bs why d).1 ≡ d
    drifted-dry h id schema table bs why d = elim (Bool-cases opts.recreate_changed) [
      | inl e ↦ rw (e, h)
      | inr e ↦ rw e
    ]

    sync_one-dry :
        opts.dry_run ≡ true
        → (locals : Locals) (id : TableId) (schema table : Text) (d : Database)
        → (sync_one srv drift opts locals id schema table d).1 ≡ d
    unfolding sync_one
    sync_one-dry h locals id schema table d = elim (Option-cases (lookup id locals)) [
      | inl n ↦
          rw (n, sync_one)
            (attach_one-dry (context srv drift opts none opts.dry_run) h id schema table d)
      | inr (local, el) ↦
          elim (Bool-cases
            (not (text_eq local.local_schema schema) || not (text_eq local.local_table table))) [
              | inl e ↦ rw (el, sync_one, e)
              | inr e ↦ elim (Result-cases (drift d id schema table local.relid)) [
                | inl (m, em) ↦ rw (el, sync_one, e, em)
                | inr (found, ef) ↦ elim (Option-cases found) [
                  | inl n ↦ rw (el, sync_one, e, ef, n)
                  | inr (why, ew) ↦
                      rw (el, sync_one, e, ef, ew)
                        (drifted-dry h id schema table local.batch_size why d)
                ]
              ]
            ]
    ]

    sync_mapping-dry :
        opts.dry_run ≡ true
        → (locals : Locals) (mapping : List (TableId × LocalMapping)) (d : Database)
        → (sync_mapping srv drift opts locals mapping d).1 ≡ d
    unfolding sync_mapping
    sync_mapping-dry h locals [] d = refl
    sync_mapping-dry h locals ((id, local) ∷ rest) d =
        let one = sync_one srv drift opts locals id (schema_of srv local) (table_of srv local) d in
        let same = sync_one-dry h locals id (schema_of srv local) (table_of srv local) d in
        elim (Result-cases one.0) [
          | inl (m, em) ↦ rw (em, sync_mapping) same
          | inr (row, er) ↦ rw (er, sync_mapping) (sync_mapping-dry h locals rest one.1 ∙ same)
        ]

    drop_one-dry :
        opts.dry_run ≡ true
        → (id : TableId) (local : LocalNamespaceTable) (d : Database)
        → (drop_one srv drift opts id local d).1 ≡ d
    unfolding drop_one
    drop_one-dry h id local d = elim (Bool-cases opts.drop_missing) [
      | inl e ↦ rw (e, drop_one, h)
      | inr e ↦ rw (e, drop_one)
    ]

    drop_all-dry :
        opts.dry_run ≡ true
        → (locals : Locals) (d : Database) → (drop_all srv drift opts locals d).1 ≡ d
    unfolding drop_all
    drop_all-dry h [] d = refl
    drop_all-dry h ((id, local) ∷ rest) d =
        drop_all-dry h rest (drop_one srv drift opts id local d).1 ∙ drop_one-dry h id local d

    -- A dry run of `sync_namespace` leaves the database as it was, with any flags and on every
    -- branch: tables to attach, to recreate and to drop are only reported.
    pub sync_namespace-dry :
        opts.dry_run ≡ true
        → (prefix : Text) (root : TableId) (remote : List TableId) (rows : List LocalRow)
          (d : Database)
        → (sync_namespace srv drift opts prefix root remote rows d).1 ≡ d
    unfolding sync_namespace
    sync_namespace-dry h prefix root remote rows d =
        elim (Result-cases (build_mapping prefix remote)) [
          | inl (e, ee) ↦ rw (ee, sync_namespace)
          | inr ((conflicts, mapping), em) ↦
              let locals = (introspect_rows srv root rows [] []).0 in
              let synced = sync_mapping srv drift opts locals mapping d in
              let same = sync_mapping-dry h locals mapping d in
              elim (Result-cases synced.0) [
                | inl (m, es) ↦ rw (em, sync_namespace, es) same
                | inr (done, es) ↦
                    rw (em, sync_namespace, es)
                      (drop_all-dry h
                          (sort_locals srv drift opts (local_only srv drift opts remote locals))
                          synced.1
                        ∙ same)
              ]
        ]
