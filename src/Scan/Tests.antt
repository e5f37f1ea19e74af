-- ===== src/Scan/Tests.antt =====
-- src/fdw/scan.rs: a scan over three batches, one of them empty, with a dropped attribute.
use pglance.Base.{
  leb, if◌then◌else◌, suc, ◌≡◌, refl, true, false, Option, some, none, List, [], ◌∷◌, codes, ok,
  text_eq, length, All, Result, Bool, err, ℕ, join,
}
use pglance.Base.Int.{ℤ, pos}
use pglance.Arrow
use pglance.Arrow.{Field, new}
use pglance.Convert.{Attr, require_target_oid, validate_arrow_type_for_pg_oid}
use pglance.Convert.Arrays
use pglance.Convert.Arrays.{primitive_array}
use pglance.Convert.External.{Json}
use pglance.Convert.Datum.{arrow_value_to_datum}
use pglance.Convert.Scalars.{primitive_to_datum}
use pglance.Convert.Samples.{sample_external, sample_catalog}
use pglance.Scan.{
  ScanError, RecordBatch, Stream, LanceScanState, name_to_idx, map_attributes, begin_foreign_scan,
  rescan_foreign_scan, fetch_row, fill_slot, iterate_foreign_scan, run_scan,
}
use pglance.Namespace.{TableId}
use pglance.Options.{namespace}
use pglance.Scan.Open.{
  Opening, Node, begin_node, begin_relation, open_source, create_stream, text, integer,
  explain_foreign_scan, explain_relation, format_projection_list,
}
use pglance.Scan.Plan.{Costs, get_foreign_paths, get_foreign_rel_size}
use pglance.Scan.Schema.{OfSchema}
use pglance.Scan.Begun.{Fine, begin_foreign_scan-Fine}
use pglance.Scan.Rows.{stream_rows, tuples, left, run_scan-left, run_scan-rescan}

abbrev attrs : List Attr
attrs =
    record { attname = codes "old"; atttypid = 0; attisdropped = true }
    ∷ record { attname = codes "id"; atttypid = 23; attisdropped = false }
    ∷ []

abbrev batch : List (Option ℤ) → RecordBatch
batch vs = record { num_rows = length vs; columns = primitive_array Arrays.int32 vs ∷ [] }

abbrev stream : Stream
stream = ok (batch (some (pos 1) ∷ none ∷ [])) ∷ ok (batch []) ∷ ok (batch (some (pos 3) ∷ [])) ∷ []

abbrev begun : LanceScanState
begun = record {
  dataset = stream;
  stream = stream;
  current_batch = none;
  current_row = 0;
  atttypids = 0 ∷ 23 ∷ [];
  att_to_batch_col = none ∷ some 0 ∷ [];
}

scan_begun :
    begin_foreign_scan sample_catalog (new (codes "id") Arrow.int32 true ∷ []) stream attrs
    ≡ ok begun
unfolding begin_foreign_scan map_attributes name_to_idx text_eq validate_arrow_type_for_pg_oid
    require_target_oid
scan_begun = refl

scan_run :
    run_scan sample_external sample_catalog 4 attrs begun
    ≡ some (
        ok (
          ((Json.null, true) ∷ (Json.number (pos 1), false) ∷ [])
          ∷ ((Json.null, true) ∷ (Json.null, true) ∷ [])
          ∷ ((Json.null, true) ∷ (Json.number (pos 3), false) ∷ [])
          ∷ []))
unfolding run_scan iterate_foreign_scan fetch_row fill_slot arrow_value_to_datum primitive_to_datum
    require_target_oid
scan_run = refl

run_scan-left_example :
    run_scan sample_external sample_catalog
      (suc (length (left sample_external sample_catalog attrs begun)))
      attrs
      begun
    ≡ some (
        tuples sample_external sample_catalog attrs
          (0 ∷ 23 ∷ [])
          (none ∷ some 0 ∷ [])
          (left sample_external sample_catalog attrs begun))
run_scan-left_example = run_scan-left sample_external sample_catalog attrs begun

run_scan-rescan_example :
    (again : LanceScanState) × (rescan_foreign_scan (ok stream) (some begun) ≡ ok (some again))
    × (run_scan sample_external sample_catalog (suc (length (stream_rows stream))) attrs again
        ≡ some (
            tuples sample_external sample_catalog attrs
              (0 ∷ 23 ∷ [])
              (none ∷ some 0 ∷ [])
              (stream_rows stream)))
run_scan-rescan_example = run_scan-rescan sample_external sample_catalog attrs begun stream

abbrev id_field : List Field
id_field = new (codes "id") Arrow.int32 true ∷ []

stream-OfSchema : All (OfSchema id_field) stream
stream-OfSchema = ((refl, tt, tt), ((refl, tt, tt), ((refl, tt, tt), tt)))

begin_foreign_scan-Fine_example :
    (result : Result ScanError (List (List (Json × Bool)))) × (run_scan sample_external
        sample_catalog
        (suc (length (stream_rows stream)))
        attrs
        begun
      ≡ some result)
    × Fine result
begin_foreign_scan-Fine_example =
    begin_foreign_scan-Fine sample_catalog id_field sample_external stream attrs begun refl
      scan_begun stream-OfSchema

-- A dataset is the table id that was opened.
abbrev sample_opening : Opening
sample_opening = record {
  Dataset = TableId;
  Client = ℕ;
  options = λ relid. ok (record { source = namespace 7 (codes "t" ∷ []); batch_size = 64 });
  runtime = ok tt;
  open_uri = λ u. err (codes "not found");
  connect_namespace = λ oid. ok oid;
  from_namespace = λ client id. ok id;
  schema_fields = λ ds. id_field;
  try_into_stream = λ ds batch_size. ok stream;
}

abbrev sample_node : Node
sample_node = record {
  ss_current_relation = some (record { rd_id = 1; rd_att = some attrs });
  fdw_state = none;
}

node_begun :
    begin_node sample_opening sample_catalog false (some sample_node)
    ≡ ok (some (record sample_node { fdw_state = some begun }))
unfolding begin_node begin_relation open_source create_stream begin_foreign_scan map_attributes
    name_to_idx text_eq validate_arrow_type_for_pg_oid require_target_oid
node_begun = refl

explained :
    explain_foreign_scan sample_opening (λ id. some (codes "[\"t\"]")) (some sample_node)
    ≡ text (codes "Lance Table ID") (codes "[\"t\"]")
      ∷ integer (codes "Lance Namespace Server OID") (pos 7)
      ∷ integer (codes "Batch Size") (pos 64)
      ∷ text (codes "Projection") (codes "id")
      ∷ []
unfolding explain_foreign_scan explain_relation format_projection_list join
explained = refl

-- Costs in whole units.
abbrev sample_costs : Costs
sample_costs = record {
  F64 = ℕ;
  thousand = 1000;
  zero_cost = 0;
  one = 1;
  max = λ a b. if leb a b then b else a;
}

planned :
    get_foreign_paths sample_costs
      (λ paths path. path ∷ paths)
      (some attrs)
      (get_foreign_rel_size sample_costs (some (record { relid = 5; rows = 0; pathlist = [] })))
    ≡ some (record {
      relid = 5;
      rows = 1000;
      pathlist = record { rows = 1000; startup_cost = 0; total_cost = 1000 } ∷ [];
    })
unfolding get_foreign_paths get_foreign_rel_size
planned = refl
