-- ===== src/Options/Tests.antt =====
-- src/fdw/options.rs, src/fdw/namespace.rs and src/write/storage.rs: the options of sample servers.
use pglance.Base.{
  ◌≡◌, refl, false, none, some, [], ◌∷◌, Text, codes, ok, text_eq, starts_with, arith,
}
use pglance.Base.Int.{pos}
use pglance.Base.Map.{lookup, insert, cmp_list}
use pglance.Namespace.{Services, AttachContext, table_options}
use pglance.Options.{
  Options, namespace, parse_defelem_list, from_foreign_table, connect_namespace, ns_properties,
  resolve_storage_options, storage_loop,
}
use pglance.Options.Attached.{cells_of, batch_size_of, from_foreign_table-table_options}

abbrev sample_services : Services
sample_services = record {
  Database = Unit {0};
  lookup_existing_relation = λ d schema table. ok none;
  run_sql = λ sql d. ok d;
  load_fields = λ id. ok [];
  to_json = λ id. codes "[\"a\"]";
  from_json = λ json. ok (codes "a" ∷ []);
  show_option = λ o. [];
}

abbrev attached_context : AttachContext
attached_context = record { server_name = codes "s"; batch_size = some (pos 64); dry_run = false }

abbrev server_options : Options
server_options =
    (codes "uri", codes "s3://b")
    ∷ (codes "batch_size", codes "8")
    ∷ (codes "ns.impl", codes "dir")
    ∷ (codes "ns.root", codes "/data")
    ∷ (codes "aws_region", codes "x")
    ∷ []

from_foreign_table-table_options_example :
    from_foreign_table sample_services.from_json
      (some (7, cells_of (table_options sample_services attached_context (codes "a" ∷ []))))
      (λ oid. some (cells_of server_options))
    ≡ ok (record {
      source = namespace 7 (codes "a" ∷ []);
      batch_size = batch_size_of (parse_defelem_list (cells_of server_options) []) (some (pos 64));
    })
from_foreign_table-table_options_example =
    from_foreign_table-table_options sample_services attached_context (codes "a" ∷ []) 7
      (λ oid. some (cells_of server_options)) (cells_of server_options) (cc) refl refl
      (λ n e. ground arith)

-- Null names and values are passed over; the last of two equal names counts.
parsed :
    parse_defelem_list
      (none
        ∷ some (record { defname = none; value = some (codes "x") })
        ∷ some (record { defname = some (codes "b"); value = none })
        ∷ cells_of ((codes "b", codes "1") ∷ (codes "a", codes "2") ∷ (codes "b", codes "3") ∷ []))
      []
    ≡ (codes "a", codes "2") ∷ (codes "b", codes "3") ∷ []
unfolding parse_defelem_list insert cmp_list
parsed = refl

connected :
    connect_namespace {C = Text × Options}
      (λ name properties. ok (name, properties))
      (λ e. [])
      7
      (some (cells_of server_options))
    ≡ ok (codes "dir", (codes "root", codes "/data") ∷ [])
unfolding connect_namespace ns_properties parse_defelem_list insert lookup cmp_list text_eq
connected = refl

storage :
    resolve_storage_options (λ name. some (cells_of server_options)) (codes "s")
    ≡ ok ((codes "aws_region", codes "x") ∷ [])
unfolding resolve_storage_options storage_loop parse_defelem_list insert cmp_list starts_with
storage = refl
