-- ===== src/Convert/Nested.antt =====
-- src/fdw/convert.rs: lists of lists. The element type of a PostgreSQL array is never an array type,
-- and src/fdw/type_mapping.rs maps a list of lists to `T[][]`, which PostgreSQL reads as `T[]`.
use pglance.Base.{ℕ, ◌≡◌, ◌≢◌, Bool, Text, ok, arith}
use pglance.Arrow.{Field, list, new}
use pglance.Convert.{
  Catalog, invalid_oid, jsonb_oid, validate_arrow_type_for_pg_oid, validate_field,
}

-- A column of lists of lists is refused for every target other than jsonb and arrays of jsonb, when
-- the target's element type is no array type itself: the array type that the import declares for
-- the column cannot be scanned.
pub nested_list_refused :
    (cat : Catalog) (target : ℕ)
    → target ≢ jsonb_oid
    → cat.element_type target ≢ jsonb_oid
    → cat.element_type (cat.element_type target) ≡ invalid_oid
    → (elem : Field) (name : Text) (nullable : Bool)
    → ¬ (validate_arrow_type_for_pg_oid cat (list (new name (list elem) nullable)) target ≡ ok tt)
unfolding validate_arrow_type_for_pg_oid validate_field
nested_list_refused cat target h1 h2 h3 elem name nullable e = ground arith
