-- ===== src/Namespace/Drift.antt =====
-- src/fdw/sync_namespace.rs: whether the columns of a local table differ from those of its dataset.
use pglance.Base.{
  ℕ, ◌+◌, ◌≡◌, Bool, true, false, ◌&&◌, Bool-cases, inl, inr, Option, none, some, List, [], ◌∷◌,
  ◌++◌, Text, codes, Result, ok, ◌>>=◌, ◌==◌, not, if◌then◌else◌, text_eq, length, map, trim,
  strip_dims, push_dims, join, is_whitespace, arith,
}
use pglance.Base.Decimal.{show_ℕ}
use pglance.Naming.{to_ascii_lowercase}
use pglance.TypeMapping.{build_schema_mapping}
use pglance.Namespace.{TableId, Services}

-- `replace('\"', "")`
unfoldable pub without_quotes : Text → Text
without_quotes [] = []
without_quotes (c ∷ s) = let rest = without_quotes s in if c == b'"' then rest else c ∷ rest

abbrev pub add_word : Text → List Text → List Text
add_word [] words = words
add_word (c ∷ s) words = (c ∷ s) ∷ words

-- `split_whitespace`, with the word read so far.
unfoldable pub split_whitespace : Text → Text → List Text
split_whitespace word [] = add_word word []
split_whitespace word (c ∷ s) =
    let next = split_whitespace [] s in
    let longer = split_whitespace (word ++ (c ∷ [])) s in
    if is_whitespace c then add_word word next else longer

-- `rsplit('.').next()`, with the part read so far.
unfoldable pub after_last_dot : Text → Text → Text
after_last_dot part [] = part
after_last_dot part (c ∷ s) =
    let next = after_last_dot [] s in
    let longer = after_last_dot (part ++ (c ∷ [])) s in if c == b'.' then next else longer

-- The arms that change a name; all others keep it.
unfoldable pub canonical_base : Text → Text
canonical_base base =
    if text_eq base (codes "smallint")
    then codes "int2"
    else if text_eq base (codes "integer")
    then codes "int4"
    else if text_eq base (codes "bigint")
    then codes "int8"
    else if text_eq base (codes "real")
    then codes "float4"
    else if text_eq base (codes "double precision")
    then codes "float8"
    else if text_eq base (codes "timestamp without time zone")
    then codes "timestamp"
    else if text_eq base (codes "timestamp with time zone")
    then codes "timestamptz"
    else base

unfoldable pub canonical_type_string : Text → Text
canonical_type_string input =
    let lower = without_quotes (map to_ascii_lowercase (trim input)) in
    let s = join (codes " ") (split_whitespace [] lower) in
    let (stripped, dims) = strip_dims (length s) s 0 in
    push_dims dims (canonical_base (trim (after_last_dot [] stripped)))

abbrev pub Column : Type 0
Column = Text × Text

abbrev pub normal : List Column → List Column
normal [] = []
normal ((n, t) ∷ cols) = (n, canonical_type_string t) ∷ normal cols

-- `expected_norm == actual_norm`
unfoldable pub columns_eq : List Column → List Column → Bool
columns_eq [] [] = true
columns_eq ((n, t) ∷ es) ((m, u) ∷ bs) = text_eq n m && (text_eq t u && columns_eq es bs)
columns_eq _ _ = false

-- What `summarize_column_diff` describes.
pub data ColumnDiff : Type 0 where
  count_mismatch : ℕ → ℕ → ColumnDiff
  name_mismatch : ℕ → Text → Text → ColumnDiff
  type_mismatch : Text → Text → Text → ColumnDiff
  definitions_differ : ColumnDiff

-- The loop over both lists, at position `idx`.
unfoldable pub first_diff : ℕ → List Column → List Column → ColumnDiff
first_diff idx ((n, t) ∷ es) ((m, u) ∷ bs) =
    let later = first_diff (idx + 1) es bs in
    if not (text_eq n m)
    then name_mismatch (idx + 1) n m
    else if not (text_eq t u)
    then type_mismatch n t u
    else later
first_diff idx _ _ = definitions_differ

unfoldable pub summarize_column_diff : List Column → List Column → ColumnDiff
summarize_column_diff expected actual =
    if not (length expected == length actual)
    then count_mismatch (length expected) (length actual)
    else first_diff 0 expected actual

module _ (srv : Services) (local_columns : srv.Database → ℕ → Result Text (List Column)) where
  open srv use {Database, load_fields}

  abbrev pub describe : ColumnDiff → Text
  describe (count_mismatch e a) =
      codes " column count mismatch: expected=" ++ (show_ℕ e ++ (codes " actual=" ++ show_ℕ a))
  describe (name_mismatch idx e a) =
      codes " column name mismatch at position "
      ++ (show_ℕ idx ++ (codes ": expected=" ++ (e ++ (codes " actual=" ++ a))))
  describe (type_mismatch n e a) =
      codes " column type mismatch for "
      ++ (n ++ (codes ": expected=" ++ (e ++ (codes " actual=" ++ a))))
  describe definitions_differ = codes " column definitions differ"

  unfoldable pub detect_schema_drift :
      Database → TableId → Text → Text → ℕ → Result Text (Option Text)
  detect_schema_drift d id schema table relid = do
    fields ← load_fields id
    mapping ← build_schema_mapping table fields
    actual ← local_columns d relid
    (if columns_eq (normal mapping.column_types) (normal actual)
        then ok none
        else ok (
            some (
              codes "schema drift: "
              ++ (schema
                  ++ (codes "."
                      ++ (table
                          ++ describe (
                              summarize_column_diff (normal mapping.column_types)
                                (normal actual))))))))

first_diff-found :
    (idx : ℕ) (es bs : List Column)
    → length es ≡ length bs
    → columns_eq es bs ≡ false
    → ¬ (first_diff idx es bs ≡ definitions_differ)
unfolding first_diff columns_eq
first_diff-found idx [] [] h n e = cc
first_diff-found idx [] (a ∷ bs) h n e = absurd (omega arith)
first_diff-found idx (x ∷ es) [] h n e = absurd (omega arith)
first_diff-found idx ((n, t) ∷ es) ((m, u) ∷ bs) h ne e = elim (Bool-cases (text_eq n m)) [
  | inr f ↦ let bad = rw f at e in absurd (cc)
  | inl f ↦ elim (Bool-cases (text_eq t u)) [
    | inr g ↦ let bad = rw (f, g) at e in absurd (cc)
    | inl g ↦ first_diff-found (idx + 1) es bs (omega arith) (rw (f, g) at ne) (rw (f, g) at e)
  ]
]

-- When two lists of columns differ, the summary names a difference in their number, in a name or in
-- a type: the summary that says nothing more than that they differ is never given.
pub summarize_column_diff-found :
    (expected actual : List Column)
    → columns_eq expected actual ≡ false
    → ¬ (summarize_column_diff expected actual ≡ definitions_differ)
unfolding summarize_column_diff
summarize_column_diff-found expected actual h e =
    elim (Bool-cases (length expected == length actual)) [
      | inr f ↦ let bad = rw f at e in absurd (cc)
      | inl f ↦ first_diff-found 0 expected actual (ground arith) h (rw f at e)
    ]
