-- ===== src/Scan/Open.antt =====
-- src/fdw/scan.rs: what `begin_foreign_scan` does before it maps the columns, and
-- `explain_foreign_scan`. PostgreSQL's nodes and the datasets that are opened are parameters; the
-- details of the error reports are left out.
use pglance.Base.{
  ℕ, Bool, Option, none, some, List, [], ◌∷◌, ◌++◌, Text, codes, Result, ok, err, ◌>>=◌, ◌==◌,
  if◌then◌else◌, join,
}
use pglance.Base.Int.{ℤ, pos, wrap_i64}
use pglance.Arrow.{Field}
use pglance.Convert.{Attr, Catalog}
use pglance.Namespace.{TableId}
use pglance.Options.{
  OptionError, LanceFdwOptions, LanceDatasetSource, uri, namespace, unwrap_or, has_nul,
}
use pglance.Scan.{ScanError, Stream, LanceScanState, begin_foreign_scan}

-- `rd_id` and `rd_att` of a relation; the null pointer is `none`.
pub record Relation : Type 0 where
  pub rd_id : ℕ
  pub rd_att : Option (List Attr)

pub record Node : Type 0 where
  pub ss_current_relation : Option Relation
  pub fdw_state : Option LanceScanState

-- Where the query ends before the columns are mapped, with the crate's message.
pub data BeginError : Type 0 where
  missing_current_relation missing_tuple_descriptor : BeginError
  invalid_options : OptionError → BeginError
  no_runtime not_opened invalid_server_options not_opened_via_namespace no_stream :
      Text → BeginError
  scan : ScanError → BeginError

-- `map_err`, where `report` is what `ereport!` gets.
abbrev pub or_report {ℓ} : {E F : Type 0} {A : Type ℓ} → (E → F) → Result E A → Result F A
or_report report (err e) = err (report e)
or_report report (ok a) = ok a

-- What a scan opens.
pub record Opening : Type 1 where
  pub Dataset : Type 0
  pub Client : Type 0
  -- `from_foreign_table`, by the OID of the table
  pub options : ℕ → Result OptionError LanceFdwOptions
  pub runtime : Result Text (Unit {0})
  pub open_uri : Text → Result Text Dataset
  pub connect_namespace : ℕ → Result Text Client
  pub from_namespace : Client → TableId → Result Text Dataset
  pub schema_fields : Dataset → List Field
  -- the stream of a scanner with a batch size
  pub try_into_stream : Dataset → ℕ → Result Text Stream

-- The names of the attributes that are not dropped.
abbrev pub kept_names : List Attr → List Text
kept_names [] = []
kept_names (a ∷ attrs) =
    let names = kept_names attrs in if a.attisdropped then names else a.attname ∷ names

abbrev pub names_or_none : List Text → Text
names_or_none [] = codes "[]"
names_or_none (name ∷ names) = join (codes ", ") (name ∷ names)

unfoldable pub format_projection_list : Option (List Attr) → Text
format_projection_list none = codes "[]"
format_projection_list (some attrs) = names_or_none (kept_names attrs)

-- What `ExplainPropertyText` and `ExplainPropertyInteger` get.
pub data Property : Type 0 where
  text : Text → Text → Property
  integer : Text → ℤ → Property

-- `replace('\0', "")`
abbrev pub without_nul : Text → Text
without_nul [] = []
without_nul (c ∷ s) = let rest = without_nul s in if c == 0 then rest else c ∷ rest

abbrev pub explain_source : (TableId → Option Text) → LanceDatasetSource → List Property
explain_source to_json (uri u) = text (codes "Lance URI") (without_nul u) ∷ []
explain_source to_json (namespace server_oid table_id) =
    text (codes "Lance Table ID") (without_nul (unwrap_or (to_json table_id) (codes "[]")))
    ∷ integer (codes "Lance Namespace Server OID") (pos server_oid)
    ∷ []

-- A text with a NUL makes no C string, and the property is left out.
abbrev pub projection : Text → List Property
projection names = if has_nul names then [] else text (codes "Projection") names ∷ []

module _ (o : Opening) where
  open o use {Dataset, runtime, connect_namespace, from_namespace, schema_fields, try_into_stream}

  unfoldable pub open_source : LanceDatasetSource → Result BeginError Dataset
  open_source (uri u) = or_report not_opened (o.open_uri u)
  open_source (namespace server_oid table_id) = do
    client ← or_report invalid_server_options (connect_namespace server_oid)
    or_report not_opened_via_namespace (from_namespace client table_id)

  unfoldable pub create_stream : Dataset → ℕ → Result BeginError Stream
  create_stream dataset batch_size = or_report no_stream (try_into_stream dataset batch_size)

  abbrev pub descriptor : Option (List Attr) → Result BeginError (List Attr)
  descriptor none = err missing_tuple_descriptor
  descriptor (some attrs) = ok attrs

  unfoldable pub begin_relation : Catalog → Relation → Result BeginError LanceScanState
  begin_relation cat relation = do
    opts ← or_report invalid_options (o.options relation.rd_id)
    u ← or_report no_runtime runtime
    dataset ← open_source opts.source
    stream ← create_stream dataset opts.batch_size
    attrs ← descriptor relation.rd_att
    or_report scan (begin_foreign_scan cat (schema_fields dataset) stream attrs)

  -- The node after `begin_foreign_scan`; a null node and EXPLAIN without a run open nothing.
  unfoldable pub begin_node : Catalog → Bool → Option Node → Result BeginError (Option Node)
  begin_node cat explain_only none = ok none
  begin_node cat explain_only (some node) =
      if explain_only then ok (some node) else elim node.ss_current_relation [
        | none ↦ err missing_current_relation
        | some relation ↦ do
          state ← begin_relation cat relation
          ok (some (record { ss_current_relation = some relation; fdw_state = some state }))
      ]

  unfoldable pub explain_relation : (TableId → Option Text) → Relation → List Property
  explain_relation to_json relation = elim (o.options relation.rd_id) [
    | err e ↦ []
    | ok opts ↦
        explain_source to_json opts.source
        ++ (integer (codes "Batch Size") (wrap_i64 (pos opts.batch_size))
            ∷ projection (format_projection_list relation.rd_att))
  ]

  unfoldable pub explain_foreign_scan : (TableId → Option Text) → Option Node → List Property
  explain_foreign_scan to_json none = []
  explain_foreign_scan to_json (some node) = elim node.ss_current_relation [
    | none ↦ []
    | some relation ↦ explain_relation to_json relation
  ]
