-- ===== src/Options.antt =====
-- src/fdw/options.rs, src/fdw/namespace.rs and src/write/storage.rs: the options of foreign tables
-- and servers. PostgreSQL's catalog, serde_json and the clients that are opened are parameters.
pub mod Attached
pub mod Tests
use pglance.Base.{
  ℕ, ◌-◌, ◌^◌, Bool, true, false, ◌||◌, Option, none, some, List, [], ◌∷◌, ◌++◌, Text, codes,
  Result, ok, err, ◌>>=◌, ◌==◌, if◌then◌else◌, text_eq, starts_with, drop,
}
use pglance.Base.Decimal.{parse_unsigned, show_ℕ}
use pglance.Base.Map.{Ord, ord_ℕ, ord_list, lookup, insert}
use pglance.Namespace.{TableId}

abbrev pub Options : Type 0
Options = List (Text × Text)

-- `DefElem`, with the null pointers that the code looks for. The value is what `defGetString` gives.
pub record DefElem : Type 0 where
  pub defname : Option Text
  pub value : Option Text

abbrev pub add_option : Option Text → Option Text → Options → Options
add_option none value out = out
add_option (some name) none out = out
add_option (some name) (some value) out = insert name value out

-- A null list and null cells are the empty list here.
unfoldable pub parse_defelem_list : List (Option DefElem) → Options → Options
parse_defelem_list [] out = out
parse_defelem_list (none ∷ cells) out = parse_defelem_list cells out
parse_defelem_list (some e ∷ cells) out =
    parse_defelem_list cells (add_option e.defname e.value out)

abbrev pub or_default {ℓ} : {A : Type ℓ} → Option A → Option A → Option A
or_default none other = other
or_default (some a) other = some a

abbrev pub unwrap_or {ℓ} : {A : Type ℓ} → Option A → A → A
unwrap_or none default = default
unwrap_or (some a) default = a

-- `get(key)` of the table's options, else of the server's.
abbrev pub table_or_server : Text → Options → Options → Option Text
table_or_server key table_opts server_opts =
    or_default (lookup key table_opts) (lookup key server_opts)

abbrev pub max_usize : ℕ
max_usize = 2 ^ 64 - 1

abbrev pub and_then {ℓ κ} : {A : Type ℓ} {B : Type κ} → Option A → (A → Option B) → Option B
and_then none f = none
and_then (some a) f = f a

pub data LanceDatasetSource : Type 0 where
  uri : Text → LanceDatasetSource
  namespace : ℕ → TableId → LanceDatasetSource

pub record LanceFdwOptions : Type 0 where
  pub source : LanceDatasetSource
  pub batch_size : ℕ

pub data OptionError : Type 0 where
  missing_foreign_table missing_foreign_server empty_table_id : OptionError
  missing_option : Text → OptionError
  invalid_table_id : Text → OptionError

abbrev pub parse_batch_size : Options → Options → ℕ
parse_batch_size table_opts server_opts =
    unwrap_or
      (and_then (table_or_server (codes "batch_size") table_opts server_opts)
        (parse_unsigned max_usize))
      1024

-- `from_foreign_table` once the options are read.
module _ (from_json : Text → Result Text TableId) where
  abbrev pub namespace_source : ℕ → ℕ → Text → Result OptionError LanceFdwOptions
  namespace_source serverid batch_size json = elim (from_json json) [
    | err e ↦ err (invalid_table_id e)
    | ok [] ↦ err empty_table_id
    | ok (segment ∷ rest) ↦
        ok (record { source = namespace serverid (segment ∷ rest); batch_size = batch_size })
  ]

  abbrev pub uri_source : ℕ → Option Text → Result OptionError LanceFdwOptions
  uri_source batch_size none = err (missing_option (codes "uri"))
  uri_source batch_size (some u) = ok (record { source = uri u; batch_size = batch_size })

  unfoldable pub choose_source : ℕ → Options → Options → Result OptionError LanceFdwOptions
  choose_source serverid table_opts server_opts = elim (lookup (codes "ns.table_id") table_opts) [
    | some json ↦ namespace_source serverid (parse_batch_size table_opts server_opts) json
    | none ↦
        uri_source (parse_batch_size table_opts server_opts)
          (table_or_server (codes "uri") table_opts server_opts)
  ]

  -- The foreign table with its server's OID and options, and the server's options.
  unfoldable pub from_foreign_table :
      Option (ℕ × List (Option DefElem))
      → (ℕ → Option (List (Option DefElem)))
      → Result OptionError LanceFdwOptions
  from_foreign_table none server = err missing_foreign_table
  from_foreign_table (some (serverid, table_cells)) server = elim (server serverid) [
    | none ↦ err missing_foreign_server
    | some server_cells ↦
        choose_source serverid (parse_defelem_list table_cells [])
          (parse_defelem_list server_cells [])
  ]

-- `to_json` gives `none` where serde fails.
abbrev pub dataset_label : (TableId → Option Text) → LanceFdwOptions → Text
dataset_label to_json options = elim options.source [
  | uri u ↦ codes "uri=" ++ u
  | namespace server_oid table_id ↦
      codes "server_oid="
      ++ (show_ℕ server_oid ++ (codes " table_id=" ++ unwrap_or (to_json table_id) (codes "[]")))
]

-- `strip_prefix(prefix)`
abbrev pub strip_prefix : Text → Text → Option Text
strip_prefix [] s = some s
strip_prefix (p ∷ ps) [] = none
strip_prefix (p ∷ ps) (c ∷ s) = if c == p then strip_prefix ps s else none

abbrev pub ns_prefix : Text
ns_prefix = codes "ns."

abbrev pub add_property : Text → Option Text → Options → Options
add_property value none properties = properties
add_property value (some key) properties =
    if text_eq key (codes "impl") then properties else insert key value properties

-- The loop over the server's options.
unfoldable pub ns_properties : Options → Options → Options
ns_properties [] properties = properties
ns_properties ((k, v) ∷ opts) properties =
    ns_properties opts (add_property v (strip_prefix ns_prefix k) properties)

-- `connect` is `ConnectBuilder`, by the implementation and the properties.
unfoldable pub connect_namespace :
    {C : Type 0}
    → (Text → Options → Result Text C)
    → (OptionError → Text)
    → ℕ
    → Option (List (Option DefElem))
    → Result Text C
connect_namespace connect message server_oid none =
    err (codes "missing ForeignServer, server_oid=" ++ show_ℕ server_oid)
connect_namespace connect message server_oid (some cells) =
    let raw_opts = parse_defelem_list cells [] in
    elim (lookup (codes "ns.impl") raw_opts) [
      | none ↦ err (message (missing_option (codes "ns.impl")))
      | some impl_name ↦ connect impl_name (ns_properties raw_opts [])
    ]

abbrev pub is_storage_key : Text → Bool
is_storage_key k = starts_with k (codes "aws_") || starts_with k (codes "s3_")

-- The loop of `resolve_storage_options`.
unfoldable pub storage_loop : Options → Options → Options
storage_loop [] storage_opts = storage_opts
storage_loop ((k, v) ∷ opts) storage_opts =
    storage_loop opts (if is_storage_key k then insert k v storage_opts else storage_opts)

abbrev pub has_nul : Text → Bool
has_nul [] = false
has_nul (c ∷ s) = c == 0 || has_nul s

-- The servers by name.
unfoldable pub resolve_storage_options :
    (Text → Option (List (Option DefElem))) → Text → Result Text Options
resolve_storage_options servers server_name =
    if has_nul server_name then err (codes "invalid server name") else elim (servers server_name) [
      | none ↦ err (codes "foreign server '" ++ (server_name ++ codes "' not found"))
      | some cells ↦ ok (storage_loop (parse_defelem_list cells []) [])
    ]

abbrev pub storage_options_vec :
    (Text → Option (List (Option DefElem))) → Option Text → Result Text Options
storage_options_vec servers none = ok []
storage_options_vec servers (some name) = resolve_storage_options servers name

-- `load` is `DatasetBuilder::from_uri` with its storage options.
unfoldable pub open_dataset :
    {D : Type 0}
    → (Text → Option (List (Option DefElem)))
    → (Text → Options → Result Text D)
    → Text
    → Option Text
    → Result Text D
open_dataset servers load location server_name = do
  storage_opts ← storage_options_vec servers server_name
  elim (load location storage_opts) [
    | ok dataset ↦ ok dataset
    | err e ↦ err (codes "failed to open dataset '" ++ (location ++ (codes "': " ++ e)))
  ]
