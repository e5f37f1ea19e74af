-- ===== src/Ddl.antt =====
-- src/fdw/ddl.rs: the SQL statements that create schemas, composite types and foreign tables.
pub mod Quote
pub mod Body
pub mod Dims
pub mod Order
pub mod Passes
pub mod Leftover
pub mod Settled
pub mod InOrder
pub mod Tests
use pglance.Base.{
  ℕ, zero, suc, ◌+◌, Bool, true, false, ◌&&◌, ◌||◌, Option, none, some, List, [], ◌∷◌, ◌++◌, Text,
  codes, ◌==◌, leb, if◌then◌else◌, starts_with, map, trim, trim_end, strip_dims, push_dims, join,
  length,
}

-- `CompositeTypeDef` of src/fdw/type_mapping.rs; a field is its name and its type.
pub record CompositeTypeDef : Type 0 where
  pub type_name : Text
  pub fields : List (Text × Text)

-- `s.replace(q, qq)` for one character `q`.
pub double_char : ℕ → Text → Text
double_char q [] = []
double_char q (c ∷ s) = let rest = double_char q s in if c == q then q ∷ q ∷ rest else c ∷ rest

abbrev pub double_quote : ℕ
double_quote = 34

abbrev pub single_quote : ℕ
single_quote = 39

unfoldable pub quote_ident : Text → Text
unfolding double_char
quote_ident ident = double_quote ∷ (double_char double_quote ident ++ double_quote ∷ [])

unfoldable pub quote_literal : Text → Text
unfolding double_char
quote_literal value = single_quote ∷ (double_char single_quote value ++ single_quote ∷ [])

unfoldable pub create_schema_sql : Text → Text
create_schema_sql schema =
    codes "DO $$ BEGIN CREATE SCHEMA "
    ++ (quote_ident schema ++ codes "; EXCEPTION WHEN duplicate_schema THEN NULL; END $$;")

unfoldable pub qualify_composite_type : Text → Text → Text
qualify_composite_type type_name schema = quote_ident schema ++ (codes "." ++ quote_ident type_name)

pub qualify_base : Text → Text → Text
qualify_base t schema =
    if starts_with t (codes "lance_") then qualify_composite_type t schema else t

-- The loop takes off at least two characters a round, so the length is fuel enough.
pub qualify_type_string : Text → Text → Text
qualify_type_string ty schema =
    let (t, dims) = strip_dims (length ty) (trim ty) 0 in push_dims dims (qualify_base t schema)

-- One column of a `CREATE TYPE` or `CREATE FOREIGN TABLE`.
abbrev pub column_sql : Text → Text × Text → Text
column_sql schema (n, t) = quote_ident n ++ (codes " " ++ qualify_type_string t schema)

abbrev pub option_sql : Text × Text → Text
option_sql (k, v) = quote_ident k ++ (codes " " ++ quote_literal v)

unfoldable pub create_composite_type_sql : Text → CompositeTypeDef → Text
create_composite_type_sql schema ty =
    codes "DO $$ BEGIN CREATE TYPE "
    ++ (qualify_composite_type ty.type_name schema
        ++ (codes " AS ("
            ++ (join (codes ", ") (map (column_sql schema) ty.fields)
                ++ codes "); EXCEPTION WHEN duplicate_object THEN NULL; END $$;")))

unfoldable pub create_foreign_table_sql :
    Text → Text → Text → List (Text × Text) → List (Text × Text) → Text
create_foreign_table_sql server schema table options columns =
    codes "DO $$ BEGIN CREATE FOREIGN TABLE "
    ++ (quote_ident schema
        ++ (codes "."
            ++ (quote_ident table
                ++ (codes " ("
                    ++ (join (codes ", ") (map (column_sql schema) columns)
                        ++ (codes ") SERVER "
                            ++ (quote_ident server
                                ++ (codes " OPTIONS ("
                                    ++ (join (codes ", ") (map option_sql options)
                                        ++ codes
                                            "); EXCEPTION WHEN duplicate_table THEN NULL; END $$;")))))))))

-- `base_type_name` is never `None`.
unfoldable pub base_type_name : Text → Option Text
base_type_name ty = some (strip_dims (length ty) (trim ty) 0).0
