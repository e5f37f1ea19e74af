-- ===== src/Naming/Schema.antt =====
-- src/fdw/naming.rs: the schema and the table that a table id is mapped to.
use pglance.Base.{
  ◌≤◌, ◌<◌, ◌≡◌, refl, ap, ◌⊎◌, inl, inr, true, [], ◌∷◌, List, ◌++◌, Text, ok, err, arith, length,
  take, length-take-le, All-append, All-take, codes,
}
use pglance.Naming.{
  is_ok, sanitize_ident, last_of, init_of, push_segments, schema_and_table_for_table_id,
}
use pglance.Naming.Chars.{IdentChars}
use pglance.Naming.Ident.{IsIdent, sanitize_ident-IsIdent}

push_segments-IdentChars : (segs : List Text) → IdentChars (push_segments segs)
unfolding push_segments is_ok
push_segments-IdentChars [] = tt
push_segments-IdentChars (seg ∷ rest) =
    let here = (sanitize_ident-IsIdent seg).chars in
    (
      refl,
      (
        refl,
        All-append (λ c. is_ok c ≡ true) (sanitize_ident seg) _ here
            (push_segments-IdentChars rest),
      ),
    )

-- What both names of a mapping have in common.
pub record IsSchemaName (s : Text) : Type 0 where
  pub nonempty : 0 < length s
  pub short : length s ≤ 63
  pub chars : IdentChars s

module _ (schema_prefix : Text) where
  schema_name : List Text → Text
  schema_name [] = sanitize_ident schema_prefix
  schema_name (seg ∷ segs) = take 63 (sanitize_ident schema_prefix ++ push_segments (seg ∷ segs))

  schema_name-IsSchemaName : (segs : List Text) → IsSchemaName (schema_name segs)
  unfolding schema_name
  schema_name-IsSchemaName [] =
      let i = sanitize_ident-IsIdent schema_prefix in
      record { nonempty = i.nonempty; short = i.short; chars = i.chars }
  schema_name-IsSchemaName (seg ∷ segs) =
      let i = sanitize_ident-IsIdent schema_prefix in
      record {
        nonempty = front (sanitize_ident schema_prefix) _ i.nonempty;
        short = length-take-le 63 _;
        chars =
            All-take (λ c. is_ok c ≡ true) 63
              (sanitize_ident schema_prefix ++ push_segments (seg ∷ segs))
              (All-append (λ c. is_ok c ≡ true) (sanitize_ident schema_prefix) _ i.chars
                (push_segments-IdentChars (seg ∷ segs)));
      }
    where
      front : (p q : Text) → 0 < length p → 0 < length (take 63 (p ++ q))
      front [] q h = absurd (omega arith)
      front (c ∷ p) q h = omega arith

init-last : (y : Text) (ys : List Text) → y ∷ ys ≡ init_of y ys ++ (last_of y ys ∷ [])
init-last y [] = refl
init-last y (z ∷ ys) = ap (λ (l : List Text). y ∷ l) (init-last z ys)

-- A table id that is not empty is always mapped: the table's name is its last component, sanitized,
-- and both names are non-empty, at most 63 characters long, and made of lower-case letters, digits
-- and underscores. The empty table id alone is an error.
pub schema_and_table_total :
    (schema_prefix : Text) (table_id : List Text)
    → (table_id ≡ [])
        × (schema_and_table_for_table_id schema_prefix table_id
            ≡ err (codes "table_id must not be empty"))
      ⊎ ((before : List Text) × (name : Text) × (schema : Text) × (table_id ≡ before ++ (name ∷ []))
          × (schema_and_table_for_table_id schema_prefix table_id
              ≡ ok (schema, sanitize_ident name))
          × IsSchemaName schema
          × IsIdent (sanitize_ident name))
unfolding schema_and_table_for_table_id
schema_and_table_total schema_prefix [] = inl (refl, refl)
schema_and_table_total schema_prefix (x ∷ []) = inr (
  [],
  x,
  sanitize_ident schema_prefix,
  refl,
  refl,
  unfold schema_name in schema_name-IsSchemaName schema_prefix [],
  sanitize_ident-IsIdent x,
)
schema_and_table_total schema_prefix (x ∷ y ∷ ys) = inr (
  x ∷ init_of y ys,
  last_of y ys,
  schema_name schema_prefix (x ∷ init_of y ys),
  ap (λ (l : List Text). x ∷ l) (init-last y ys),
  unfold schema_name in refl,
  schema_name-IsSchemaName schema_prefix (x ∷ init_of y ys),
  sanitize_ident-IsIdent (last_of y ys),
)
