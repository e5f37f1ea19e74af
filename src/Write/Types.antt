-- ===== src/Write/Types.antt =====
-- src/write/pg_to_arrow.rs: the types that the tables and the overrides give, and the builders.
use pglance.Base.{
  ℕ, ◌≡◌, refl, Bool-cases, Option-cases, inl, inr, Option, none, some, List, [], ◌∷◌, Text, ok,
  >>=-eq-ok, ◌==◌, All, arith, text_eq, map,
}
use mathlib.Core.Path.{subst}
use pglance.Naming.{to_ascii_lowercase}
use pglance.Arrow.{DataType}
use pglance.Convert.Arrays.{data_type}
use pglance.Convert.External.{Json, Members, end, member}
use pglance.Write.{
  WriteError, SpiColumnInfo, ArrowTypeOverrides, match_name, match_oid, is_one_of, type_names,
  oid_types, or_err, parse_arrow_type_name, pg_oid_to_arrow_type, parse_members,
  parse_arrow_type_overrides, set_arrow_type, apply_arrow_type_overrides, column_infos,
  extract_spi_columns, as_str, override_not_string, unknown_column,
}
use pglance.Write.Builder.{TypedBuilder, new_builder, finish}

-- A builder exists for the type, and its arrays have the type.
pub record IsWritable (d : DataType) : Type 0 where
  pub builder : TypedBuilder
  pub made : new_builder d ≡ ok builder
  pub typed : data_type (finish builder) ≡ d

names-IsWritable :
    (t : Text) (arms : List (List Text × DataType))
    → All (λ arm. IsWritable arm.1) arms
    → (d : DataType) → match_name t arms ≡ some d
    → IsWritable d
unfolding match_name
names-IsWritable t [] w d e = cc
names-IsWritable t ((names, d') ∷ arms) w d e = elim (Bool-cases (is_one_of t names)) [
  | inl f ↦ subst IsWritable (ground arith) w.0
  | inr f ↦ names-IsWritable t arms w.1 d (rw f at e)
]

oids-IsWritable :
    (oid : ℕ) (arms : List (ℕ × DataType))
    → All (λ arm. IsWritable arm.1) arms
    → (d : DataType) → match_oid oid arms ≡ some d
    → IsWritable d
unfolding match_oid
oids-IsWritable oid [] w d e = cc
oids-IsWritable oid ((o, d') ∷ arms) w d e = elim (Bool-cases (oid == o)) [
  | inl f ↦ subst IsWritable (ground arith) w.0
  | inr f ↦ oids-IsWritable oid arms w.1 d (rw f at e)
]

abbrev writable :
    (b : TypedBuilder)
    → new_builder (data_type (finish b)) ≡ ok b
    → IsWritable (data_type (finish b))
writable b e = record { builder = b; made = e; typed = refl }

or_err-ok {ℓ} :
    {A : Type ℓ} (o : Option A) (e : WriteError) {a : A} → or_err o e ≡ ok a → o ≡ some a
or_err-ok none e h = cc
or_err-ok (some b) e h = cc

parsed-IsWritable : (t : Text) (d : DataType) → parse_arrow_type_name t ≡ ok d → IsWritable d
unfolding parse_arrow_type_name new_builder finish
parsed-IsWritable t d e =
    names-IsWritable (map to_ascii_lowercase t) type_names
      (
        writable (TypedBuilder.boolean []) refl,
        (
          writable (TypedBuilder.int16 []) refl,
          (
            writable (TypedBuilder.int32 []) refl,
            (
              writable (TypedBuilder.int64 []) refl,
              (
                writable (TypedBuilder.float32 []) refl,
                (
                  writable (TypedBuilder.float64 []) refl,
                  (
                    writable (TypedBuilder.utf8 []) refl,
                    (
                      writable (TypedBuilder.binary []) refl,
                      (
                        writable (TypedBuilder.date32 []) refl,
                        (
                          writable (TypedBuilder.timestamp_micro []) refl,
                          (writable (TypedBuilder.timestamp_micro_utc []) refl, tt),
                        ),
                      ),
                    ),
                  ),
                ),
              ),
            ),
          ),
        ),
      )
      d (or_err-ok _ _ e)

of_oid-IsWritable : (oid : ℕ) (d : DataType) → pg_oid_to_arrow_type oid ≡ ok d → IsWritable d
unfolding pg_oid_to_arrow_type new_builder finish
of_oid-IsWritable oid d e =
    let text = writable (TypedBuilder.utf8 []) refl in
    oids-IsWritable oid oid_types
      (
        writable (TypedBuilder.boolean []) refl,
        (
          writable (TypedBuilder.int16 []) refl,
          (
            writable (TypedBuilder.int32 []) refl,
            (
              writable (TypedBuilder.int64 []) refl,
              (
                writable (TypedBuilder.float32 []) refl,
                (
                  writable (TypedBuilder.float64 []) refl,
                  (
                    text,
                    (
                      text,
                      (
                        text,
                        (
                          text,
                          (
                            writable (TypedBuilder.binary []) refl,
                            (
                              writable (TypedBuilder.date32 []) refl,
                              (
                                writable (TypedBuilder.timestamp_micro []) refl,
                                (
                                  writable (TypedBuilder.timestamp_micro_utc []) refl,
                                  (text, (text, tt)),
                                ),
                              ),
                            ),
                          ),
                        ),
                      ),
                    ),
                  ),
                ),
              ),
            ),
          ),
        ),
      )
      d (or_err-ok _ _ e)

abbrev pub AllWritable : List SpiColumnInfo → Type 0
AllWritable = All (λ c. IsWritable c.arrow_type)

abbrev OverridesWritable : ArrowTypeOverrides → Type 0
OverridesWritable = All (λ o. IsWritable o.1)

column_infos-IsWritable :
    (cols : List (Text × ℕ)) (infos : List SpiColumnInfo)
    → column_infos cols ≡ ok infos
    → AllWritable infos
unfolding column_infos
column_infos-IsWritable [] infos e = subst AllWritable {x = []} (cc) tt
column_infos-IsWritable ((name, oid) ∷ rest) infos e =
    let (d, ed, e1) = >>=-eq-ok (pg_oid_to_arrow_type oid) _ e in
    let (cs, ec, e2) = >>=-eq-ok (column_infos rest) _ e1 in
    subst AllWritable {x = record { name = name; pg_oid = oid; arrow_type = d } ∷ cs} (cc)
      (of_oid-IsWritable oid d ed, column_infos-IsWritable rest cs ec)

parse_members-IsWritable :
    (members : Members) (overrides : ArrowTypeOverrides)
    → parse_members members ≡ ok overrides
    → OverridesWritable overrides
unfolding parse_members
parse_members-IsWritable end overrides e = subst OverridesWritable {x = []} (cc) tt
parse_members-IsWritable (member column ty rest) overrides e =
    let (type_name, et, e1) = >>=-eq-ok (or_err (as_str ty) (override_not_string column)) _ e in
    let (d, ed, e2) = >>=-eq-ok (parse_arrow_type_name type_name) _ e1 in
    let (os, eo, e3) = >>=-eq-ok (parse_members rest) _ e2 in
    subst OverridesWritable {x = (column, d) ∷ os} (cc)
      (parsed-IsWritable type_name d ed, parse_members-IsWritable rest os eo)

set_arrow_type-IsWritable :
    (column : Text) (d : DataType) (cs cs' : List SpiColumnInfo)
    → IsWritable d
    → AllWritable cs
    → set_arrow_type column d cs ≡ some cs'
    → AllWritable cs'
unfolding set_arrow_type
set_arrow_type-IsWritable column d [] cs' wd w e = cc
set_arrow_type-IsWritable column d (c ∷ cs) cs' wd w e = elim (Bool-cases (text_eq c.name column)) [
  | inl f ↦
      subst AllWritable {x = record { name = c.name; pg_oid = c.pg_oid; arrow_type = d } ∷ cs}
        (ground arith) (wd, w.1)
  | inr f ↦ elim (Option-cases (set_arrow_type column d cs)) [
    | inl n ↦ absurd (ground arith)
    | inr (rest, er) ↦
        subst AllWritable {x = c ∷ rest} (ground arith)
          (w.0, set_arrow_type-IsWritable column d cs rest wd w.1 er)
  ]
]

apply-IsWritable :
    (columns : List SpiColumnInfo) (overrides : ArrowTypeOverrides) (columns' : List SpiColumnInfo)
    → AllWritable columns
    → OverridesWritable overrides
    → apply_arrow_type_overrides columns overrides ≡ ok columns'
    → AllWritable columns'
unfolding apply_arrow_type_overrides
apply-IsWritable columns [] columns' w wo e = subst AllWritable (cc) w
apply-IsWritable columns ((column, d) ∷ overrides) columns' w wo e =
    let (cs, ec, e1) =
      >>=-eq-ok (or_err (set_arrow_type column d columns) (unknown_column column)) _ e in
    apply-IsWritable cs overrides columns'
      (set_arrow_type-IsWritable column d columns cs wo.0 w (or_err-ok _ _ ec)) wo.1 e1

-- Whatever types a source query has and whatever overrides are given: when the extraction and the
-- overrides succeed, every column has a builder, and the arrays of that builder have exactly the
-- type that the schema declares for the column.
pub overridden_columns_build :
    (cols : List (Text × ℕ)) (infos : List SpiColumnInfo) (json : Json)
    (overrides : ArrowTypeOverrides) (infos' : List SpiColumnInfo)
    → extract_spi_columns cols ≡ ok infos
    → parse_arrow_type_overrides json ≡ ok overrides
    → apply_arrow_type_overrides infos overrides ≡ ok infos'
    → AllWritable infos'
unfolding parse_arrow_type_overrides
overridden_columns_build [] infos json overrides infos' ei ej ea = cc
overridden_columns_build (c ∷ cs) infos (Json.object ms) overrides infos' ei ej ea =
    apply-IsWritable infos overrides infos' (column_infos-IsWritable (c ∷ cs) infos ei)
      (parse_members-IsWritable ms overrides ej) ea
overridden_columns_build (c ∷ cs) infos json overrides infos' ei ej ea = cc
