-- ===== src/Naming/Ident.antt =====
-- src/fdw/naming.rs: `sanitize_ident` yields identifiers, and leaves its own results alone.
use pglance.Base.{
  ℕ, ◌≤◌, ◌<◌, ◌≡◌, refl, ◌≢◌, ap, Bool, true, false, [], ◌∷◌, Text, arith, ◌==◌, length,
  length-take-le, take_short, All-take,
}
use pglance.Naming.{
  is_ok, is_digit, mapped, to_ascii_lowercase, squeeze, trim_start, trim_end, snoc_kept,
  or_underscore, guard_digit, sanitize_ident,
}
use pglance.Naming.Chars.{
  IdentChars, Apart, starts_digit, Apart-any, squeeze-IdentChars, squeeze-Apart,
  trim_start-IdentChars, trim_start-Apart, trim_end-IdentChars, trim_end-Apart, take-Apart,
  guard_digit-IdentChars, guard_digit-Apart, starts_digit-guard_digit, length-guard_digit,
}

-- An identifier that PostgreSQL takes whole and unquoted.
pub record IsIdent (s : Text) : Type 0 where
  pub nonempty : 0 < length s
  pub short : length s ≤ 63
  pub chars : IdentChars s
  pub no_digit_first : starts_digit s ≡ false
  pub single : Apart false s

-- What is left of the input after the loop and the two trims.
abbrev pub core : Text → Text
core input = trim_end (trim_start (squeeze false input))

core-IdentChars : (input : Text) → IdentChars (core input)
core-IdentChars input =
    trim_end-IdentChars _ (trim_start-IdentChars _ (squeeze-IdentChars false input))

core-Apart : (input : Text) → Apart false (core input)
core-Apart input = trim_end-Apart false _ (trim_start-Apart _ (squeeze-Apart false input))

-- Every input, empty or not, becomes a non-empty text of at most 63 characters, all of them
-- lower-case letters, digits or underscores, that does not begin with a digit and has no two
-- underscores side by side.
pub sanitize_ident-IsIdent : (input : Text) → IsIdent (sanitize_ident input)
unfolding sanitize_ident
sanitize_ident-IsIdent input = record {
  nonempty = length-guard_digit (core input);
  short = length-take-le 63 (guard_digit (or_underscore (core input)));
  chars =
      All-take (λ c. is_ok c ≡ true) 63 _
        (guard_digit-IdentChars (core input) (core-IdentChars input));
  no_digit_first = starts_digit-guard_digit (core input);
  single = take-Apart 63 false _ (guard_digit-Apart (core input) (core-Apart input));
}

-- The last character is no underscore.
abbrev EndsWell : Text → Type 0
EndsWell [] = Unit
EndsWell (c ∷ []) = c ≢ b'_'
EndsWell (c ∷ d ∷ s) = EndsWell (d ∷ s)

trim_end-EndsWell : (s : Text) → EndsWell (trim_end s)
unfolding trim_end
trim_end-EndsWell [] = tt
trim_end-EndsWell (c ∷ s) = snoc (trim_end s) (trim_end-EndsWell s)
  where
    snoc : (t : Text) → EndsWell t → EndsWell (snoc_kept c t)
    snoc [] k = ground arith
    snoc (d ∷ t) k = k

trim_end_self : (s : Text) → EndsWell s → trim_end s ≡ s
unfolding trim_end
trim_end_self [] h = refl
trim_end_self (c ∷ []) h = ground arith
trim_end_self (c ∷ d ∷ s) h = ap (snoc_kept c) (trim_end_self (d ∷ s) h)

trim_start_self : (s : Text) → Apart true s → trim_start s ≡ s
unfolding trim_start
trim_start_self [] h = refl
trim_start_self (c ∷ s) h = ground (arith, h.0 refl)

trim_start-Apart-true : (s : Text) → Apart false s → Apart true (trim_start s)
unfolding trim_start
trim_start-Apart-true [] h = tt
trim_start-Apart-true (c ∷ s) h =
    ground (arith, trim_start-Apart-true s (Apart-any (c == b'_') s h.1))

mapped_self : (c : ℕ) → is_ok c ≡ true → mapped c ≡ c
unfolding mapped is_ok is_digit to_ascii_lowercase
mapped_self c h = ground arith

squeeze_self : (last : Bool) (s : Text) → IdentChars s → Apart last s → squeeze last s ≡ s
unfolding squeeze
squeeze_self last [] h a = refl
squeeze_self last (c ∷ s) h a =
    ground (arith, mapped_self c h.0, squeeze_self (c == b'_') s h.1 a.1)

squeeze-guarded :
    (k : Text)
    → Apart true k
    → IdentChars k
    → squeeze false (guard_digit (or_underscore k)) ≡ guard_digit (or_underscore k)
squeeze-guarded k a h =
    squeeze_self false _ (guard_digit-IdentChars k h) (guard_digit-Apart k (Apart-any true k a))

trim-guarded :
    (k : Text)
    → Apart true k
    → EndsWell k
    → trim_end (trim_start (guard_digit (or_underscore k))) ≡ k
unfolding trim_start trim_end is_digit
trim-guarded [] a e = refl
trim-guarded (c ∷ s) a e =
    ground (arith, trim_start_self (c ∷ s) a, trim_end_self (c ∷ s) e, a.0 refl)

-- A result that is shorter than 63 characters, so that nothing was cut off, is left alone when it
-- is sanitized again.
pub sanitize_ident_idem :
    (input : Text)
    → length (sanitize_ident input) < 63
    → sanitize_ident (sanitize_ident input) ≡ sanitize_ident input
unfolding sanitize_ident
sanitize_ident_idem input short =
    let k = core input in
    let apart = trim_end-Apart true _ (trim_start-Apart-true _ (squeeze-Apart false input)) in
    let whole = take_short 63 (guard_digit (or_underscore k)) short in
    rw
      (
        whole,
        squeeze-guarded k apart (core-IdentChars input),
        trim-guarded k apart (trim_end-EndsWell (trim_start (squeeze false input))),
      )
      whole
