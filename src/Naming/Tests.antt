-- ===== src/Naming/Tests.antt =====
-- src/fdw/naming.rs: its unit tests, and the theorems at concrete names.
use pglance.Base.{◌≡◌, refl, ◌⊎◌, List, [], ◌∷◌, ◌++◌, Text, codes, ok, err}
use pglance.Naming.{sanitize_ident, schema_and_table_for_table_id}
use pglance.Naming.Ident.{IsIdent, sanitize_ident-IsIdent}
use pglance.Naming.Schema.{IsSchemaName, schema_and_table_total}

basic_1 : sanitize_ident (codes "HelloWorld") ≡ codes "helloworld"
unfolding sanitize_ident
basic_1 = refl

basic_2 : sanitize_ident (codes "a---b") ≡ codes "a_b"
unfolding sanitize_ident
basic_2 = refl

basic_3 : sanitize_ident (codes "__a__") ≡ codes "a"
unfolding sanitize_ident
basic_3 = refl

basic_4 : sanitize_ident (codes "") ≡ codes "_"
unfolding sanitize_ident
basic_4 = refl

basic_5 : sanitize_ident (codes "123") ≡ codes "_123"
unfolding sanitize_ident
basic_5 = refl

nested :
    schema_and_table_for_table_id
      (codes "lance")
      (codes "TeamA" ∷ codes "images" ∷ codes "train" ∷ [])
    ≡ ok (codes "lance__teama__images", codes "train")
unfolding schema_and_table_for_table_id sanitize_ident
nested = refl

IsIdent_example : IsIdent (sanitize_ident (codes "9 lives"))
IsIdent_example = sanitize_ident-IsIdent (codes "9 lives")

schema_and_table_total_example :
    (◌≡◌ {A = List Text} (codes "db" ∷ codes "t" ∷ []) [])
      × (schema_and_table_for_table_id (codes "lance") (codes "db" ∷ codes "t" ∷ [])
          ≡ err (codes "table_id must not be empty"))
    ⊎ ((before : List Text) × (name : Text) × (schema : Text) × (codes "db" ∷ codes "t" ∷ []
          ≡ before ++ (name ∷ []))
        × (schema_and_table_for_table_id (codes "lance") (codes "db" ∷ codes "t" ∷ [])
            ≡ ok (schema, sanitize_ident name))
        × IsSchemaName schema
        × IsIdent (sanitize_ident name))
schema_and_table_total_example =
    schema_and_table_total (codes "lance") (codes "db" ∷ codes "t" ∷ [])
