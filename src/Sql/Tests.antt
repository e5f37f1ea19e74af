-- ===== src/Sql/Tests.antt =====
-- src/lib.rs: the settings, the validator and the build information.
use pglance.Base.{
  ◌≡◌, refl, true, false, some, none, [], ◌∷◌, codes, ok, err, text_eq, starts_with, map,
}
use pglance.Base.Int.{pos, negsuc}
use pglance.Maintenance.{error}
use pglance.Namespace.{Services, AttachContext, table_options}
use pglance.Namespace.Whole.{Connections, import_options}
use pglance.Sql.Accepted.{argument, lance_fdw_validator-written}
use pglance.Sql.{
  Settings, max_write_buffer_bytes, write_chunk_rows, as_usize, key_of, lance_fdw_validator,
  lance_build_info, Build, pg_feature, optional_build_value,
}

abbrev sample_settings : Settings
sample_settings = record {
  max_write_buffer_mb = pos 2048;
  write_chunk_rows = pos 100_000;
  merge_use_index = true;
}

settings_read :
    (max_write_buffer_bytes sample_settings ≡ 2_147_483_648)
    × (write_chunk_rows sample_settings ≡ 100_000)
    × (write_chunk_rows (record sample_settings { write_chunk_rows = negsuc 0 }) ≡ 0)
unfolding max_write_buffer_bytes write_chunk_rows
settings_read = (refl, refl, refl)

-- A negative batch size becomes a very large one.
negative_batch : as_usize (negsuc 0) ≡ 18_446_744_073_709_551_615
negative_batch = refl

validated :
    (lance_fdw_validator (codes "uri=s3://b?x=1" ∷ codes "ns.impl=dir" ∷ []) ≡ ok tt)
    × (lance_fdw_validator (codes "uri" ∷ []) ≡ err (error (codes "invalid option format: uri")))
    × (lance_fdw_validator (codes "aws_region=x" ∷ codes "mode=append" ∷ [])
        ≡ err (error (codes "unsupported option: mode")))
unfolding lance_fdw_validator key_of text_eq starts_with
validated = (refl, refl, refl)

abbrev sample_build : Build
sample_build = record {
  pkg_version = codes "1.0";
  pglance_git_revision = codes "abc";
  lance_version = codes "2.0";
  lance_revision = [];
  lance_source = [];
  lance_index_version = [];
  lance_namespace_version = [];
  lance_namespace_impls_version = [];
  features = record { pg17 = false; pg16 = true; pg15 = true; pg14 = false; pg13 = false };
  build_profile = codes "release";
  rustc_version = [];
}

built :
    ((lance_build_info sample_build).pg_feature ≡ codes "pg16")
    × ((lance_build_info sample_build).lance_version ≡ some (codes "2.0"))
    × ((lance_build_info sample_build).rustc_version ≡ none)
unfolding lance_build_info optional_build_value pg_feature
built = (refl, refl, refl)

abbrev sample_connections : Connections
sample_connections = record {
  runtime = ok tt;
  server_oid = λ name. 7;
  server_options = λ oid. none;
  connect = λ impl properties. err (codes "no client");
  message = λ e. codes "option";
}

abbrev sample_services : Services
sample_services = record {
  Database = Unit {0};
  lookup_existing_relation = λ d schema table. ok none;
  run_sql = λ sql d. ok d;
  load_fields = λ id. ok [];
  to_json = λ id. codes "[\"a=b\"]";
  from_json = λ json. ok [];
  show_option = λ o. codes "None";
}

abbrev sample_context : AttachContext
sample_context = record { server_name = codes "s"; batch_size = some (pos 64); dry_run = false }

lance_fdw_validator-written_example :
    (lance_fdw_validator
        (map argument (table_options sample_services sample_context (codes "a=b" ∷ [])))
      ≡ ok tt)
    × (lance_fdw_validator (
          map argument
            (import_options sample_connections 1 1 sample_services (codes "s3://b?x=1") none))
        ≡ ok tt)
lance_fdw_validator-written_example =
    lance_fdw_validator-written sample_connections 1 1 sample_services sample_context
      (codes "a=b" ∷ []) (codes "s3://b?x=1") none
