-- ===== src/Ddl/Tests.antt =====
-- src/fdw/ddl.rs: statements for small inputs, and the theorems at concrete names.
use pglance.Base.{
  ◌≡◌, refl, All, ◌++◌, some, [], ◌∷◌, codes, arith, push_dims, strip_dims, trim, starts_with, join,
}
use pglance.Ddl.{
  quote_ident, quote_literal, single_quote, create_schema_sql, create_composite_type_sql,
  create_foreign_table_sql, qualify_type_string, qualify_base, base_type_name,
  qualify_composite_type,
}
use pglance.Base.{List, Text, starts_with, text_eq}
use pglance.Base.Map.{insert, cmp_list}
use pglance.Ddl.{CompositeTypeDef}
use pglance.Ddl.Order.{
  order_composite_types, collect_types, passes, pass, is_emitted, deps_of, leftover,
}
use mathlib.Core.List.{Perm}
use pglance.Ddl.Settled.{Waiting}
use pglance.Ddl.Leftover.{all_types}
use pglance.Ddl.InOrder.{InOrder, names_onto, order_composite_types-InOrder}
use pglance.Ddl.Quote.{
  read_token, read_identifier, utf8_length, read_identifier-quote_ident, read_token-quote_literal,
}
use pglance.Ddl.Body.{do_body, do_body-create_schema_sql, do_body-create_foreign_table_sql_dollars}

composite_array :
    create_composite_type_sql
      (codes "s")
      (record { type_name = codes "lance_t_a"; fields = (codes "x", codes "lance_t_b[]") ∷ [] })
    ≡ codes
        "DO $$ BEGIN CREATE TYPE \"s\".\"lance_t_a\" AS (\"x\" \"s\".\"lance_t_b\"[]); EXCEPTION WHEN duplicate_object THEN NULL; END $$;"
unfolding create_composite_type_sql quote_ident qualify_type_string qualify_base
    qualify_composite_type join push_dims strip_dims trim starts_with
composite_array = refl

read_identifier-quote_ident_example :
    read_identifier (quote_ident (codes "a\"b") ++ codes ".t") ≡ some (codes "a\"b", codes ".t")
read_identifier-quote_ident_example =
    read_identifier-quote_ident (codes "a\"b") (codes ".t") (λ e. cc) (omega arith)
      (unfold utf8_length in omega arith) refl

read_token-quote_literal_example :
    read_token single_quote (quote_literal (codes "it's") ++ codes ")")
    ≡ some (codes "it's", codes ")")
read_token-quote_literal_example = read_token-quote_literal (codes "it's") (codes ")") refl

do_body-create_schema_sql_example :
    do_body (create_schema_sql (codes "lance"))
    ≡ some (
      codes " BEGIN CREATE SCHEMA "
          ++ (quote_ident (codes "lance")
              ++ codes "; EXCEPTION WHEN duplicate_schema THEN NULL; END "),
      codes ";",
    )
do_body-create_schema_sql_example = do_body-create_schema_sql (codes "lance") (omega arith)

dollars_example :
    do_body (create_foreign_table_sql (codes "srv") (codes "s") (codes "t$x$$; DROP") [] [])
    ≡ some (
      codes " BEGIN CREATE FOREIGN TABLE " ++ (quote_ident (codes "s") ++ codes ".\"t$x"),
      codes
          "; DROP\" () SERVER \"srv\" OPTIONS (); EXCEPTION WHEN duplicate_table THEN NULL; END $$;",
    )
unfolding join quote_ident
dollars_example =
    do_body-create_foreign_table_sql_dollars (codes "srv") (codes "s") (codes "t$x")
      (codes "; DROP") [] [] (omega arith) (refl, (refl, omega arith))

abbrev type_of : Text → Text → CompositeTypeDef
type_of name ty = record { type_name = name; fields = (codes "f", ty) ∷ [] }

-- The first type uses the second.
abbrev two_types : List CompositeTypeDef
two_types =
    type_of (codes "lance_a") (codes "lance_b[]") ∷ type_of (codes "lance_b") (codes "int4") ∷ []

two_ordered :
    order_composite_types two_types
    ≡ some (
        type_of (codes "lance_b") (codes "int4")
        ∷ type_of (codes "lance_a") (codes "lance_b[]")
        ∷ [])
unfolding order_composite_types collect_types insert cmp_list passes pass is_emitted deps_of
    base_type_name strip_dims trim starts_with text_eq leftover
two_ordered = refl

order_composite_types-InOrder_example :
    (out : List CompositeTypeDef) × (left : List CompositeTypeDef) × (order_composite_types
        two_types
      ≡ some (out ++ left))
    × InOrder [] out
    × All (Waiting (names_onto [] out)) left
    × Perm (out ++ left) (all_types (collect_types two_types []))
order_composite_types-InOrder_example = order_composite_types-InOrder two_types
