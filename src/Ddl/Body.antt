-- ===== src/Ddl/Body.antt =====
-- src/fdw/ddl.rs: the statements run inside `DO $$ … $$`, and what PostgreSQL takes for the body.
use mathlib.Core.List.{append_assoc}
use pglance.Base.{
  ℕ, ◌≡◌, refl, false, ◌≢◌, ◌&&◌, Option, none, some, List, [], ◌∷◌, ◌++◌, Text, codes, map, join,
  arith, ◌==◌, if◌then◌else◌, drop, All, All-append,
}
use pglance.Ddl.{
  double_char, double_quote, quote_ident, create_schema_sql, create_foreign_table_sql, column_sql,
  option_sql,
}

abbrev pub NoDollar : Text → Type 0
NoDollar = All (λ c. c ≢ b'$')

abbrev push_front : ℕ → Option (Text × Text) → Option (Text × Text)
push_front c none = none
push_front c (some (s, rest)) = some (c ∷ s, rest)

-- PostgreSQL's reading of dollar-quoted text: all up to the next `$$`, and what follows that.
until_dollars : Text → Option (Text × Text)
until_dollars [] = none
until_dollars (c ∷ []) = none
until_dollars (c ∷ d ∷ s) =
    let more = push_front c (until_dollars (d ∷ s)) in
    if (c == b'$') && (d == b'$') then some ([], s) else more

-- The body of a statement that begins with `DO $$`.
pub do_body : Text → Option (Text × Text)
unfolding until_dollars
do_body sql = until_dollars (drop 5 sql)

-- No `$$`, and no `$` at the end: what stands before the first `$$` of a text.
abbrev pub BeforeDollars : Text → Type 0
BeforeDollars [] = Unit
BeforeDollars (c ∷ []) = c ≢ b'$'
BeforeDollars (c ∷ d ∷ s) = (((c == b'$') && (d == b'$')) ≡ false) × BeforeDollars (d ∷ s)

BeforeDollars-NoDollar : (s : Text) → NoDollar s → BeforeDollars s
BeforeDollars-NoDollar [] h = tt
BeforeDollars-NoDollar (c ∷ []) h = h.0
BeforeDollars-NoDollar (c ∷ d ∷ s) h = (ground arith, BeforeDollars-NoDollar (d ∷ s) h.1)

BeforeDollars-append : (s t : Text) → NoDollar s → BeforeDollars t → BeforeDollars (s ++ t)
BeforeDollars-append [] t h k = k
BeforeDollars-append (c ∷ []) [] h k = h.0
BeforeDollars-append (c ∷ []) (d ∷ t) h k = (ground arith, k)
BeforeDollars-append (c ∷ d ∷ s) t h k = (ground arith, BeforeDollars-append (d ∷ s) t h.1 k)

BeforeDollars-double_char :
    (s : Text) → BeforeDollars s → BeforeDollars (double_char double_quote s)
unfolding double_char
BeforeDollars-double_char [] h = tt
BeforeDollars-double_char (c ∷ []) h = ground arith
BeforeDollars-double_char (c ∷ d ∷ s) h =
    let ih = BeforeDollars-double_char (d ∷ s) h.1 in ground arith

until_dollars-append :
    (a b : Text) → BeforeDollars a → until_dollars (a ++ (codes "$$" ++ b)) ≡ some (a, b)
unfolding until_dollars
until_dollars-append [] b h = refl
until_dollars-append (c ∷ []) b h = ground (arith, until_dollars-append [] b tt)
until_dollars-append (c ∷ d ∷ a) b h = ground (arith, until_dollars-append (d ∷ a) b h.1)

double_char-NoDollar : (s : Text) → NoDollar s → NoDollar (double_char double_quote s)
unfolding double_char
double_char-NoDollar [] h = tt
double_char-NoDollar (c ∷ s) h = ground (arith, double_char-NoDollar s h.1)

double_char-append :
    (q : ℕ) (a b : Text) → double_char q (a ++ b) ≡ double_char q a ++ double_char q b
unfolding double_char
double_char-append q [] b = refl
double_char-append q (c ∷ a) b = ground (arith, double_char-append q a b)

abbrev Plain : ℕ → Type 0
Plain c = c ≢ b'$'

quote_ident-NoDollar : (s : Text) → NoDollar s → NoDollar (quote_ident s)
unfolding quote_ident
quote_ident-NoDollar s h = (
  omega arith,
  All-append Plain (double_char double_quote s) _ (double_char-NoDollar s h) (omega arith),
)

do_body-append :
    (a b : Text)
    → BeforeDollars a
    → do_body (codes "DO $$" ++ (a ++ (codes "$$" ++ b))) ≡ some (a, b)
unfolding do_body
do_body-append a b h = until_dollars-append a b h

module _ (schema : Text) where
  abbrev pub schema_body : Text
  schema_body =
      codes " BEGIN CREATE SCHEMA "
      ++ (quote_ident schema ++ codes "; EXCEPTION WHEN duplicate_schema THEN NULL; END ")

  create_schema_sql_split :
      create_schema_sql schema ≡ codes "DO $$" ++ (schema_body ++ (codes "$$" ++ codes ";"))
  unfolding create_schema_sql
  create_schema_sql_split = simp append_assoc

  schema_body-NoDollar : NoDollar schema → NoDollar schema_body
  schema_body-NoDollar h =
      All-append Plain (codes " BEGIN CREATE SCHEMA ") _ (omega arith)
        (All-append Plain (quote_ident schema) _ (quote_ident-NoDollar schema h) (omega arith))

  -- For a schema name without a dollar sign PostgreSQL runs exactly the block that is meant: the
  -- whole `CREATE SCHEMA` with its exception handler, and nothing but `;` follows it.
  pub do_body-create_schema_sql :
      NoDollar schema → do_body (create_schema_sql schema) ≡ some (schema_body, codes ";")
  do_body-create_schema_sql h = rw create_schema_sql_split (
      do_body-append schema_body (codes ";")
        (BeforeDollars-NoDollar schema_body (schema_body-NoDollar h)))

module _ (server schema a b : Text) (options columns : List (Text × Text)) where
  abbrev cut_body : Text
  cut_body =
      codes " BEGIN CREATE FOREIGN TABLE "
      ++ (quote_ident schema ++ (codes "." ++ (double_quote ∷ double_char double_quote a)))

  cut_body-BeforeDollars : NoDollar schema → BeforeDollars a → BeforeDollars cut_body
  cut_body-BeforeDollars hs ha =
      BeforeDollars-append (codes " BEGIN CREATE FOREIGN TABLE ") _ (omega arith) (
        BeforeDollars-append (quote_ident schema) _ (quote_ident-NoDollar schema hs)
          (BeforeDollars-append (codes ".\"") _ (omega arith) (BeforeDollars-double_char a ha)))

  abbrev after_table : Text
  after_table =
      double_quote
      ∷ (codes " ("
          ++ (join (codes ", ") (map (column_sql schema) columns)
              ++ (codes ") SERVER "
                  ++ (quote_ident server
                      ++ (codes " OPTIONS ("
                          ++ (join (codes ", ") (map option_sql options)
                              ++ codes "); EXCEPTION WHEN duplicate_table THEN NULL; END $$;"))))))

  split_at_dollars :
      create_foreign_table_sql server schema (a ++ (codes "$$" ++ b)) options columns
      ≡ codes "DO $$" ++ (cut_body ++ (codes "$$" ++ (double_char double_quote b ++ after_table)))
  unfolding create_foreign_table_sql quote_ident
  split_at_dollars = simp (double_char-append, append_assoc)

  -- A table name that holds `$$`, in a schema whose name has no dollar sign, ends the block early. The
  -- name is `a`, its first `$$`, and `b`, so `a` has no `$$` and does not end in `$`, and may hold
  -- single dollar signs: the body that PostgreSQL runs stops inside the quoted table name, after `a`,
  -- and `b` is read as SQL of its own, with the rest of the statement behind it.
  pub do_body-create_foreign_table_sql_dollars :
      NoDollar schema
      → BeforeDollars a
      → do_body (create_foreign_table_sql server schema (a ++ (codes "$$" ++ b)) options columns)
        ≡ some (cut_body, double_char double_quote b ++ after_table)
  do_body-create_foreign_table_sql_dollars hs ha = rw split_at_dollars (
      do_body-append cut_body (double_char double_quote b ++ after_table)
        (cut_body-BeforeDollars hs ha))
