-- ===== src/Convert/Tests.antt =====
-- src/fdw/convert.rs: a struct with a list, converted and checked, and a list of lists.
use pglance.Base.{◌≡◌, refl, true, false, codes, ok, arith, text_eq}
use pglance.Base.Int.{pos}
use pglance.Arrow
use pglance.Arrow.{new}
use pglance.Convert.{
  fail, type_mismatch, require_target_oid, validate_arrow_type_for_pg_oid, validate_field,
  validate_named, check_attrs,
}
use pglance.Convert.Arrays.{data_type}
use pglance.Convert.External.{Json, Jsons}
use pglance.Convert.Datum.{
  arrow_value_to_datum, row_to_array_datum, named_column_to_datum, convert_values, convert_attrs,
}
use pglance.Convert.Scalars.{primitive_to_datum, string_to_datum}
use pglance.Convert.Checked.{accepted_column_matches}
use pglance.Convert.Nested.{nested_list_refused}
use pglance.Convert.Samples.{sample_external, sample_catalog, sample_struct, int_field}

struct_accepted :
    validate_arrow_type_for_pg_oid sample_catalog (data_type sample_struct) 50001 ≡ ok tt
unfolding validate_arrow_type_for_pg_oid validate_field validate_named check_attrs
    require_target_oid text_eq
struct_accepted = refl

struct_converted :
    arrow_value_to_datum sample_external sample_catalog sample_struct 0 50001
    ≡ ok (
      Json.array (
          Jsons.cons
            (Json.array (Jsons.cons (Json.number (pos 7)) (Jsons.cons Json.null Jsons.nil)))
            (Jsons.cons Json.null (Jsons.cons (Json.string (codes "a")) Jsons.nil))),
      false,
    )
unfolding arrow_value_to_datum row_to_array_datum named_column_to_datum convert_values convert_attrs
    primitive_to_datum string_to_datum require_target_oid text_eq
struct_converted = refl

accepted_column_matches_example : ¬ (
    arrow_value_to_datum sample_external sample_catalog sample_struct 1 50001
    ≡ fail type_mismatch (codes "arrow int32 requires postgres int4"))
accepted_column_matches_example =
    accepted_column_matches sample_external sample_catalog refl sample_struct
      ((refl, refl, (refl, tt, tt), (refl, refl, tt, tt))) 1 50001 struct_accepted
      (codes "arrow int32 requires postgres int4")

nested_list_refused_example : ¬ (
    validate_arrow_type_for_pg_oid sample_catalog
      (Arrow.list (new (codes "item") (Arrow.list int_field) true))
      1007
    ≡ ok tt)
nested_list_refused_example =
    nested_list_refused sample_catalog 1007 (omega arith) (omega arith) refl int_field
      (codes "item") true
