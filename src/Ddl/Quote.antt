-- ===== src/Ddl/Quote.antt =====
-- src/fdw/ddl.rs: `quote_ident` and `quote_literal` against the way PostgreSQL reads quoted text.
use pglance.Base.{
  ℕ, ◌+◌, ◌-◌, ◌≤◌, ◌≡◌, ◌≢◌, refl, ap, ◌∙◌, All, ◌||◌, ltb, leb, Bool, true, false, Option, none,
  some, [], ◌∷◌, ◌++◌, Text, arith, ◌==◌, if◌then◌else◌, inl, inr, Bool-cases, ==_iff, ==_refl,
}
use mathlib.Core.List.{append_assoc}
use pglance.Ddl.{double_char, quote_ident, quote_literal, double_quote, single_quote}

-- PostgreSQL's reading of the text after an opening quote, of a string literal (with standard
-- conforming strings) or of a quoted identifier: a doubled quote stands for one, and the first single
-- one ends the text. The result is the quoted text and what follows it.
abbrev push_front : ℕ → Option (Text × Text) → Option (Text × Text)
push_front c none = none
push_front c (some (s, rest)) = some (c ∷ s, rest)

-- `pending` is set when the character before was a quote that may still be doubled.
read_quoted : ℕ → Bool → Text → Option (Text × Text)
read_quoted q false [] = none
read_quoted q true [] = some ([], [])
read_quoted q false (c ∷ s) =
    let close = read_quoted q true s in
    let more = push_front c (read_quoted q false s) in if c == q then close else more
read_quoted q true (c ∷ s) =
    let more = push_front q (read_quoted q false s) in if c == q then more else some ([], c ∷ s)

pub read_token : ℕ → Text → Option (Text × Text)
unfolding read_quoted
read_token q [] = none
read_token q (c ∷ s) = if c == q then read_quoted q false s else none

-- What follows a token does not begin with its quote.
abbrev pub Clear : ℕ → Text → Type 0
Clear q [] = Unit
Clear q (c ∷ s) = (c == q) ≡ false

read_quoted_end : (q : ℕ) (rest : Text) → Clear q rest → read_quoted q true rest ≡ some ([], rest)
unfolding read_quoted
read_quoted_end q [] clear = refl
read_quoted_end q (c ∷ rest) clear = ground arith

read_quoted-double_char :
    (q : ℕ) (s rest : Text)
    → Clear q rest
    → read_quoted q false (double_char q s ++ q ∷ rest) ≡ some (s, rest)
unfolding read_quoted double_char
read_quoted-double_char q [] rest clear = ground (arith, read_quoted_end q rest clear)
read_quoted-double_char q (c ∷ s) rest clear = elim (Bool-cases (c == q)) [
  | inl e ↦ rw ((==_iff c q).0 e, ==_refl q, ==_refl q, read_quoted-double_char q s rest clear)
  | inr e ↦ rw (e, e, read_quoted-double_char q s rest clear)
]

-- The bytes of a code point in UTF-8.
abbrev utf8_size : ℕ → ℕ
utf8_size c = if ltb c 128 then 1 else if ltb c 2048 then 2 else if ltb c 65536 then 3 else 4

unfoldable pub utf8_length : Text → ℕ
utf8_length [] = 0
utf8_length (c ∷ s) = utf8_size c + utf8_length s

-- The longest prefix of at most so many bytes that ends between two characters.
clip : ℕ → Text → Text
clip n [] = []
clip n (c ∷ s) = let rest = clip (n - utf8_size c) s in if leb (utf8_size c) n then c ∷ rest else []

-- PostgreSQL's statements are strings that end at the first NUL.
abbrev pub NoNul : Text → Type 0
NoNul = All (λ c. c ≢ 0)

has_nul : Text → Bool
has_nul [] = false
has_nul (c ∷ s) = (c == 0) || has_nul s

-- The name in a quoted identifier: an empty one is an error, and one over 63 bytes is truncated.
identifier_name : Text × Text → Option (Text × Text)
unfolding has_nul clip
identifier_name ([], rest) = none
identifier_name (c ∷ s, rest) = if has_nul (c ∷ s) then none else some (clip 63 (c ∷ s), rest)

token_name : Option (Text × Text) → Option (Text × Text)
unfolding identifier_name
token_name none = none
token_name (some token) = identifier_name token

-- PostgreSQL's reading of a quoted identifier.
pub read_identifier : Text → Option (Text × Text)
read_identifier sql = token_name (read_token double_quote sql)

clip_lem : (n : ℕ) (s : Text) → utf8_length s ≤ n → clip n s ≡ s
unfolding clip utf8_length
clip_lem n [] h = refl
clip_lem n (c ∷ s) h =
    let ih = clip_lem (n - utf8_size c) s (omega arith) in
    let fits : leb (utf8_size c) n ≡ true = ground arith in rw (fits, ih)

has_nul-NoNul : (s : Text) → NoNul s → has_nul s ≡ false
unfolding has_nul
has_nul-NoNul [] h = refl
has_nul-NoNul (c ∷ s) h = ground (arith, has_nul-NoNul s h.1)

read_token-quote_ident :
    (ident rest : Text)
    → Clear double_quote rest
    → read_token double_quote (quote_ident ident ++ rest) ≡ some (ident, rest)
unfolding read_token quote_ident
read_token-quote_ident ident rest clear =
    rw append_assoc (read_quoted-double_char double_quote ident rest clear)

-- An identifier that is not empty, has no NUL and is at most 63 bytes long in UTF-8 is read back by
-- PostgreSQL from its quoted form, quotes included, and the reading goes on with the SQL that follows
-- it, which must not begin with another double quote.
pub read_identifier-quote_ident :
    (ident rest : Text)
    → ident ≢ []
    → NoNul ident
    → utf8_length ident ≤ 63
    → Clear double_quote rest
    → read_identifier (quote_ident ident ++ rest) ≡ some (ident, rest)
unfolding read_identifier token_name identifier_name
read_identifier-quote_ident [] rest nonempty no_nul short clear = absurd (nonempty refl)
read_identifier-quote_ident (c ∷ s) rest nonempty no_nul short clear =
    ap token_name (read_token-quote_ident (c ∷ s) rest clear)
    ∙ rw (has_nul-NoNul (c ∷ s) no_nul, clip_lem 63 (c ∷ s) short)

-- Whatever characters the value holds, quotes included, and whatever SQL follows it, the reading of
-- quoted text under standard conforming strings takes the literal of `quote_literal` as one token
-- whose content is that value, and goes on with what follows, which must not begin with another
-- single quote.
pub read_token-quote_literal :
    (value rest : Text)
    → Clear single_quote rest
    → read_token single_quote (quote_literal value ++ rest) ≡ some (value, rest)
unfolding read_token quote_literal
read_token-quote_literal value rest clear =
    rw append_assoc (read_quoted-double_char single_quote value rest clear)
