-- ===== src/Naming/Chars.antt =====
-- src/fdw/naming.rs: what each pass of `sanitize_ident` keeps.
use pglance.Base.{
  ℕ, zero, suc, ◌<◌, ◌≡◌, ◌≢◌, Bool, true, false, [], ◌∷◌, Text, arith, ◌==◌, length, take, All,
}
use pglance.Naming.{
  is_ok, mapped, is_digit, squeeze, trim_start, trim_end, snoc_kept, or_underscore, guard_digit,
}

abbrev pub IdentChars : Text → Type 0
IdentChars = All (λ c. is_ok c ≡ true)

-- No two underscores stand side by side, and none stands in front if `last` is set.
abbrev pub Apart : Bool → Text → Type 0
Apart last [] = Unit
Apart last (c ∷ s) = (last ≡ true → c ≢ b'_') × Apart (c == b'_') s

abbrev pub starts_digit : Text → Bool
starts_digit [] = false
starts_digit (c ∷ s) = is_digit c

is_ok-mapped : (ch : ℕ) → is_ok (mapped ch) ≡ true
unfolding mapped
is_ok-mapped ch = ground arith

pub squeeze-IdentChars : (last : Bool) (s : Text) → IdentChars (squeeze last s)
unfolding squeeze
squeeze-IdentChars last [] = tt
squeeze-IdentChars last (ch ∷ rest) =
    ground (arith, is_ok-mapped ch, squeeze-IdentChars true rest, squeeze-IdentChars false rest)

pub squeeze-Apart : (last : Bool) (s : Text) → Apart last (squeeze last s)
unfolding squeeze
squeeze-Apart last [] = tt
squeeze-Apart last (ch ∷ rest) = ground (arith, squeeze-Apart true rest, squeeze-Apart false rest)

Apart-weaken : (s : Text) → Apart true s → Apart false s
Apart-weaken [] h = tt
Apart-weaken (c ∷ s) h = (λ e. cc, h.1)

pub Apart-any : (last : Bool) (s : Text) → Apart last s → Apart false s
Apart-any true s h = Apart-weaken s h
Apart-any false s h = h

pub trim_start-IdentChars : (s : Text) → IdentChars s → IdentChars (trim_start s)
unfolding trim_start
trim_start-IdentChars [] h = tt
trim_start-IdentChars (c ∷ s) h = ground (arith, trim_start-IdentChars s h.1)

pub trim_start-Apart : (s : Text) → Apart false s → Apart false (trim_start s)
unfolding trim_start
trim_start-Apart [] h = tt
trim_start-Apart (c ∷ s) h = ground (arith, trim_start-Apart s (Apart-any (c == b'_') s h.1))

pub trim_end-IdentChars : (s : Text) → IdentChars s → IdentChars (trim_end s)
unfolding trim_end
trim_end-IdentChars [] h = tt
trim_end-IdentChars (c ∷ s) h = snoc (trim_end s) (trim_end-IdentChars s h.1)
  where
    snoc : (t : Text) → IdentChars t → IdentChars (snoc_kept c t)
    snoc [] k = ground arith
    snoc (d ∷ t) k = (h.0, k)

pub trim_end-Apart : (last : Bool) (s : Text) → Apart last s → Apart last (trim_end s)
unfolding trim_end
trim_end-Apart last [] h = tt
trim_end-Apart last (c ∷ s) h = snoc (trim_end s) (trim_end-Apart (c == b'_') s h.1)
  where
    snoc : (t : Text) → Apart (c == b'_') t → Apart last (snoc_kept c t)
    snoc [] k = ground arith
    snoc (d ∷ t) k = (h.0, k)

pub take-Apart : (n : ℕ) (last : Bool) (s : Text) → Apart last s → Apart last (take n s)
take-Apart n last s h = go n last s h
  where
    go : (n : ℕ) (last : Bool) (s : Text) → Apart last s → Apart last (take n s)
    go zero last s h = tt
    go (suc n) last [] h = tt
    go (suc n) last (c ∷ s) h = (h.0, go n (c == b'_') s h.1)

pub guard_digit-IdentChars : (s : Text) → IdentChars s → IdentChars (guard_digit (or_underscore s))
unfolding is_ok is_digit
guard_digit-IdentChars [] h = ground arith
guard_digit-IdentChars (c ∷ s) h = ground arith

pub guard_digit-Apart : (s : Text) → Apart false s → Apart false (guard_digit (or_underscore s))
unfolding is_digit
guard_digit-Apart [] h = ground arith
guard_digit-Apart (c ∷ s) h = ground arith

pub starts_digit-guard_digit :
    (s : Text) → starts_digit (take 63 (guard_digit (or_underscore s))) ≡ false
unfolding is_digit
starts_digit-guard_digit [] = ground arith
starts_digit-guard_digit (c ∷ s) = ground arith

pub length-guard_digit : (s : Text) → 0 < length (take 63 (guard_digit (or_underscore s)))
length-guard_digit [] = ground arith
length-guard_digit (c ∷ s) = ground arith
