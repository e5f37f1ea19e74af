-- ===== src/Options/Attached.antt =====
-- src/fdw/options.rs against src/fdw/attach_namespace.rs: what a scan finds in the options of a table
-- that was attached.
use pglance.Base.{
  ℕ, suc, ◌≤◌, ◌≡◌, ◌≢◌, refl, Option, none, some, List, [], ◌∷◌, Text, codes, ok, List-cases, inl,
  inr,
}
use pglance.Base.Int.{ℤ, pos, negsuc}
use pglance.Base.Decimal.{
  parse_unsigned, show_ℕ, show_ℤ, parse_unsigned-show_ℕ, parse_unsigned_minus,
}
use pglance.Base.Map.{lookup, insert, cmp_list, ord_ℕ, ord_list}
use pglance.Namespace.{TableId, Services, AttachContext, table_options}
use pglance.Options.{
  Options, DefElem, namespace, max_usize, parse_defelem_list, parse_batch_size, choose_source,
  from_foreign_table, namespace_source, and_then, unwrap_or,
}

-- The catalog keeps the options of the statement as they are.
abbrev pub cells_of : Options → List (Option DefElem)
cells_of [] = []
cells_of ((name, value) ∷ opts) =
    some (record { defname = some name; value = some value }) ∷ cells_of opts

abbrev batch_option : Option ℤ → Options
batch_option none = []
batch_option (some bs) = (codes "batch_size", show_ℤ bs) ∷ []

-- The batch size of a server, or the one that the code falls back to.
abbrev pub server_batch_size : Options → ℕ
server_batch_size server_opts =
    unwrap_or (and_then (lookup (codes "batch_size") server_opts) (parse_unsigned max_usize)) 1024

-- A table's own batch size, where it was attached with one that is not negative.
abbrev pub batch_size_of : Options → Option ℤ → ℕ
batch_size_of server_opts none = server_batch_size server_opts
batch_size_of server_opts (some (pos n)) = n
batch_size_of server_opts (some (negsuc n)) = 1024

module _ (srv : Services) (ctx : AttachContext) (id : TableId) (serverid : ℕ)
    (servers : ℕ → Option (List (Option DefElem))) (server_cells : List (Option DefElem)) where
  abbrev table_opts : Text → Option ℤ → Options
  table_opts json bs =
      parse_defelem_list (cells_of ((codes "ns.table_id", json) ∷ batch_option bs)) []

  batch_size_lem :
      (server_opts : Options) (json : Text) (bs : Option ℤ)
      → ((n : ℕ) → bs ≡ some (pos n) → n ≤ max_usize)
      → parse_batch_size (table_opts json bs) server_opts ≡ batch_size_of server_opts bs
  unfolding parse_defelem_list lookup insert cmp_list
  batch_size_lem server_opts json none fits = refl
  batch_size_lem server_opts json (some (pos n)) fits =
      rw (parse_unsigned-show_ℕ max_usize n (fits n refl))
  batch_size_lem server_opts json (some (negsuc n)) fits =
      rw (parse_unsigned_minus max_usize (show_ℕ (suc n)))

  json_lem :
      (json : Text) (bs : Option ℤ) → lookup (codes "ns.table_id") (table_opts json bs) ≡ some json
  unfolding parse_defelem_list lookup insert cmp_list
  json_lem json none = refl
  json_lem json (some bs) = refl

  -- A scan of an attached table opens what it was attached for: the options that `attach_one` writes
  -- are read back by `from_foreign_table` as the namespace source with the server of the table and the
  -- same table id, whatever the server's options are, a URI included. The batch size is the one that
  -- was given; without one it is the server's, and else 1024; a negative one also gives 1024.
  pub from_foreign_table-table_options :
      id ≢ []
      → srv.from_json (srv.to_json id) ≡ ok id
      → servers serverid ≡ some server_cells
      → ((n : ℕ) → ctx.batch_size ≡ some (pos n) → n ≤ max_usize)
      → from_foreign_table srv.from_json
          (some (serverid, cells_of (table_options srv ctx id)))
          servers
        ≡ ok (record {
          source = namespace serverid id;
          batch_size = batch_size_of (parse_defelem_list server_cells []) ctx.batch_size;
        })
  unfolding from_foreign_table choose_source
  from_foreign_table-table_options nonempty reads server fits =
      let fields = split ctx.batch_size in
      let size =
        batch_size_lem (parse_defelem_list server_cells []) (srv.to_json id) ctx.batch_size fits in
      elim (List-cases id) [
        | inl e ↦ absurd (nonempty e)
        | inr (x, xs, e) ↦
            rw (server, from_foreign_table)
              (rw fields (
                rw (json_lem (srv.to_json id) ctx.batch_size, choose_source)
                  (rw (reads, namespace_source) (rw (e, namespace_source) (rw size)))))
      ]
    where
      split :
          (bs : Option ℤ)
          → elim bs [ none ↦ [] | some bs ↦ (codes "batch_size", show_ℤ bs) ∷ [] ] ≡ batch_option bs
      split none = refl
      split (some bs) = refl
