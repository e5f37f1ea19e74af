-- ===== src/Namespace/Attached.antt =====
-- src/fdw/attach_namespace.rs from the name of a server to the rows, on a server with finitely many
-- namespaces.
use pglance.Base.{
  ℕ, ◌+◌, ◌<◌, ◌≡◌, refl, sym, ◌∙◌, ap, ◌≢◌, ◌↔◌, Bool, Option, some, List, [], ◌∷◌, Text, ok, All,
  length,
}
use pglance.Base.Int.{ℤ}
use mathlib.Core.List.{Mem, Memᴰ}
use mathlib.Core.List.Perm
use mathlib.Core.Logic.{∥∥₁_map}
use pglance.Namespace.{TableId, AttachNamespaceRow, Services, AttachContext, attach_namespace}
use pglance.Namespace.Rows.{row_ids, attach_namespace-rows}
use pglance.Namespace.Listing.{Client, child_id}
use pglance.Namespace.Listing.Complete.{Catalog, Listed, list_table_ids-Listed}
use pglance.Namespace.Whole.{Connections, connect_by_name, list_by_name, attach_by_name}

All-of_mem {ℓ κ} :
    {A : Type ℓ} (P : A → Type κ) (xs : List A) → ((x : A) → Memᴰ x xs → P x) → All P xs
All-of_mem P [] h = tt
All-of_mem P (x ∷ xs) h = (h x (Memᴰ.head refl), All-of_mem P xs λ y m. h y (Memᴰ.tail m))

child_id-ne_nil : (ns : TableId) (name : Text) → child_id ns name ≢ []
child_id-ne_nil [] name e = cc
child_id-ne_nil (x ∷ ns) name e = cc

module _ {client : Client} {limit : ℤ} {root : TableId} (server : Catalog client limit root) where
  open server use {tables, children}

  Listed-ne_nil : (id : TableId) → Listed tables children root id → id ≢ []
  Listed-ne_nil id (ns, name, reach, m, e) empty = child_id-ne_nil ns name (sym e ∙ empty)

  -- When the client of the server can be had, and the server serves finitely many namespaces, each in
  -- a bounded number of pages, `attach_namespace` by the server's name ends without an error of the
  -- whole, in any database and for any prefix, and its rows are about exactly the tables of the
  -- namespaces that can be reached from the root: each of them has a row, and no row is about anything
  -- else.
  pub attach_by_name-Listed :
      (conn : Connections) (srv : Services) (rounds : ℕ) (server_name prefix : Text)
      (batch_size : Option ℤ) (dry_run : Bool) (d : srv.Database)
      → connect_by_name conn server.pages rounds server_name ≡ ok client
      → length server.all + 1 < rounds
      → (rows : List AttachNamespaceRow) × (d' : srv.Database) × (attach_by_name conn server.pages
            rounds srv server_name root prefix batch_size limit dry_run d
          ≡ some (ok rows, d'))
        × ((id : TableId) → Mem id (row_ids rows) ↔ ∥ Listed tables children root id ∥₁)
  unfolding attach_by_name list_by_name
  attach_by_name-Listed conn srv rounds server_name prefix batch_size dry_run d connected enough =
      let (out, listed, exact) = list_table_ids-Listed client limit root server rounds enough in
      let ctx : AttachContext = record {
        server_name = server_name;
        batch_size = batch_size;
        dry_run = dry_run;
      } in
      let (rows, attached, perm) =
        attach_namespace-rows srv ctx prefix out d
          (All-of_mem (λ id. id ≢ []) out λ id m. Listed-ne_nil id ((exact id).0 m)) in
      (
        rows,
        (attach_namespace srv ctx prefix out d).1,
        rw (connected, attach_by_name, list_by_name, listed)
            (ap (λ r. some (r, (attach_namespace srv ctx prefix out d).1)) attached),
        λ id. (
          λ m. ∥∥₁_map ((Perm.mem_iff perm).0 m) (exact id).0,
          λ l. (Perm.mem_iff perm).1 (∥∥₁_map l (exact id).1),
        ),
      )
