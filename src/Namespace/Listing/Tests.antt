-- ===== src/Namespace/Listing/Tests.antt =====
-- src/fdw/attach_namespace.rs: a server with a root, one namespace below it and a listing in two
-- pages.
use pglance.Base.{
  ◌≡◌, refl, ◌↔◌, err, false, text_eq, Option, none, some, List, [], ◌∷◌, Text, codes, Result, ok,
  arith,
}
use pglance.Base.Int.{ℤ, pos}
use pglance.Base.Map.{cmp_list, lookup, insert}
use mathlib.Core.List.{Mem, Memᴰ}
use mathlib.Core.List.Memᴰ
use pglance.Namespace.{TableId, AttachNamespaceRow, Services}
use pglance.Namespace.Rows.{row_ids}
use pglance.Namespace.Attached.{attach_by_name-Listed}
use pglance.Namespace.Whole.{
  Connections, connect_by_name, foreign_server_oid_by_name, attach_by_name,
}
use pglance.Options.{connect_namespace, parse_defelem_list, ns_properties}
use pglance.Namespace.Listing.{
  Page, Client, child_id, page_loop, push_tables, contains, visit_child, visit_children, list_loop,
  list_table_ids,
}
use pglance.Namespace.Listing.Pages.{Served, last, more}
use pglance.Namespace.Listing.Complete.{Catalog, Listed, list_table_ids-Listed}

abbrev page : List Text → Option Text → Result Text Page
page names token = ok (record { names = names; page_token = token })

abbrev sample_tables : TableId → Option Text → ℤ → Result Text Page
sample_tables [] token limit = page (codes "t" ∷ []) none
sample_tables (x ∷ xs) none limit = page (codes "u" ∷ []) (some (codes "2"))
sample_tables (x ∷ xs) (some token) limit = page (codes "v" ∷ []) (some [])

abbrev sample_namespaces : TableId → Option Text → ℤ → Result Text Page
sample_namespaces [] token limit = page (codes "a" ∷ codes "a" ∷ []) none
sample_namespaces (x ∷ xs) token limit = page [] none

abbrev sample_client : Client
sample_client = record { list_tables = sample_tables; list_namespaces = sample_namespaces }

abbrev tables_of : TableId → List Text
tables_of [] = codes "t" ∷ []
tables_of (x ∷ xs) = codes "u" ∷ codes "v" ∷ []

abbrev children_of : TableId → List Text
children_of [] = codes "a" ∷ codes "a" ∷ []
children_of (x ∷ xs) = []

abbrev namespaces : List TableId
namespaces = [] ∷ (codes "a" ∷ []) ∷ []

namespaces-closed :
    (ns : TableId) (name : Text)
    → Memᴰ ns namespaces
    → Memᴰ name (children_of ns)
    → Memᴰ (child_id ns name) namespaces
namespaces-closed [] name m (Memᴰ.head e) = rw e (Memᴰ.tail (Memᴰ.head refl))
namespaces-closed [] name m (Memᴰ.tail c) = rw (Memᴰ.eq_of_singleton c) (Memᴰ.tail (Memᴰ.head refl))
namespaces-closed (x ∷ xs) name m c = elim c [ ]

abbrev thousand : ℤ
thousand = pos 1000

tables-Served :
    (ns : TableId)
    → Memᴰ ns namespaces
    → Served (λ t. sample_client.list_tables ns t thousand) 2 none (tables_of ns)
tables-Served [] m = last (record { names = codes "t" ∷ []; page_token = none }) refl refl refl
tables-Served (x ∷ xs) m =
    more (record { names = codes "u" ∷ []; page_token = some (codes "2") }) (codes "2")
      (codes "v" ∷ []) refl refl
      (last (record { names = codes "v" ∷ []; page_token = some [] }) refl refl refl) refl

namespaces-Served :
    (ns : TableId)
    → Memᴰ ns namespaces
    → Served (λ t. sample_client.list_namespaces ns t thousand) 2 none (children_of ns)
namespaces-Served [] m =
    last (record { names = codes "a" ∷ codes "a" ∷ []; page_token = none }) refl refl refl
namespaces-Served (x ∷ xs) m = last (record { names = []; page_token = none }) refl refl refl

abbrev sample_catalog : Catalog sample_client thousand []
sample_catalog = record {
  tables = tables_of;
  children = children_of;
  all = namespaces;
  pages = 2;
  has_root = Memᴰ.head refl;
  closed = namespaces-closed;
  serves_tables = tables-Served;
  serves_children = namespaces-Served;
}

-- A child that a page names twice is listed once.
listed :
    list_table_ids sample_client thousand 2 4 []
    ≡ some
        (ok ((codes "t" ∷ []) ∷ (codes "a" ∷ codes "u" ∷ []) ∷ (codes "a" ∷ codes "v" ∷ []) ∷ []))
unfolding list_table_ids list_loop page_loop push_tables visit_children visit_child contains
    cmp_list
listed = refl

list_table_ids-Listed_example :
    (out : List TableId) × (list_table_ids sample_client thousand 2 4 [] ≡ some (ok out))
    × ((id : TableId)
        → (Memᴰ id out → Listed tables_of children_of [] id)
          × (Listed tables_of children_of [] id → Memᴰ id out))
list_table_ids-Listed_example =
    list_table_ids-Listed sample_client thousand [] sample_catalog 4 (omega arith)

-- A server with one name, and a database that refuses every statement.
abbrev sample_connections : Connections
sample_connections = record {
  runtime = ok tt;
  server_oid = λ name. 7;
  server_options = λ oid.
      some (some (record { defname = some (codes "ns.impl"); value = some (codes "dir") }) ∷ []);
  connect = λ impl properties. ok sample_client;
  message = λ e. codes "option";
}

abbrev refusing : Services
refusing = record {
  Database = Unit {0};
  lookup_existing_relation = λ d schema table. ok none;
  run_sql = λ sql d. err (codes "permission denied");
  load_fields = λ id. ok [];
  to_json = λ id. codes "[]";
  from_json = λ json. ok [];
  show_option = λ o. codes "None";
}

connected : connect_by_name sample_connections 2 4 (codes "s") ≡ ok sample_client
unfolding connect_by_name foreign_server_oid_by_name connect_namespace parse_defelem_list lookup
    insert cmp_list ns_properties text_eq
connected = refl

attach_by_name-Listed_example :
    (rows : List AttachNamespaceRow) × (d' : Unit {0}) × (attach_by_name sample_connections 2 4
        refusing
        (codes "s")
        []
        (codes "p")
        none
        thousand
        false
        tt
      ≡ some (ok rows, d'))
    × ((id : TableId) → Mem id (row_ids rows) ↔ ∥ Listed tables_of children_of [] id ∥₁)
attach_by_name-Listed_example =
    attach_by_name-Listed sample_catalog sample_connections refusing 4 (codes "s") (codes "p") none
      false tt connected (omega arith)
