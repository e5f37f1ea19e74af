-- ===== src/Base/Decimal.antt =====
-- Decimal digits: how Rust prints and parses unsigned integers.
use Prim.Native.Nat.{ℕ, zero, suc, ◌+◌, ◌-◌, ◌*◌, ◌/◌, ◌%◌, ◌≤◌, ◌<◌}
use mathlib.Core.Path.{◌≡◌, refl, ap, ◌∙◌}
use mathlib.Core.Logic.{inl, inr}
use mathlib.Core.Bool.{Bool, false, ◌&&◌}
use mathlib.Core.Option.{Option, none, some}
use mathlib.Core.List.{[], ◌∷◌, ◌++◌}
use native.Mathlib.Omega.{arith}
use pglance.Base.Tests.{◌==◌, leb, if◌then◌else◌, Bool-cases}
use pglance.Base.Lists.{length, All}
use pglance.Base.Int.{ℤ, pos, negsuc}
use pglance.Base.Texts.{Text}

-- The digits of a number before those of `out`. `n + 1` rounds are enough for `n`.
unfoldable pub push_digits : ℕ → ℕ → Text → Text
push_digits zero n out = out
push_digits (suc fuel) n out =
    let rest = push_digits fuel (n / 10) ((b'0' + n % 10) ∷ out) in
    if n / 10 == 0 then (b'0' + n % 10) ∷ out else rest

-- `n.to_string()`
unfoldable pub show_ℕ : ℕ → Text
unfolding push_digits
show_ℕ n = push_digits (suc n) n []

abbrev pub show_ℤ : ℤ → Text
show_ℤ (pos n) = show_ℕ n
show_ℤ (negsuc n) = b'-' ∷ show_ℕ (suc n)

abbrev pub is_decimal_digit : ℕ → Bool
is_decimal_digit c = leb b'0' c && leb c b'9'

-- The number that digits spell behind `acc`.
unfoldable pub value : ℕ → Text → ℕ
value acc [] = acc
value acc (c ∷ s) = value (acc * 10 + (c - b'0')) s

-- `str::parse` for an unsigned type with the given greatest value.
unfoldable pub parse_digits : ℕ → ℕ → Text → Option ℕ
parse_digits most acc [] = some acc
parse_digits most acc (c ∷ s) =
    let rest = parse_digits most (acc * 10 + (c - b'0')) s in
    if is_decimal_digit c && leb (acc * 10 + (c - b'0')) most then rest else none

abbrev pub parse_unsigned : ℕ → Text → Option ℕ
parse_unsigned most [] = none
parse_unsigned most (c ∷ []) = parse_digits most 0 (c ∷ [])
parse_unsigned most (c ∷ d ∷ s) = parse_digits most 0 (if c == b'+' then d ∷ s else c ∷ d ∷ s)

abbrev pub AllDigits : Text → Type 0
AllDigits = All (λ c. (b'0' ≤ c) × (c ≤ b'9'))

pub value-append : (acc : ℕ) (s t : Text) → value acc (s ++ t) ≡ value (value acc s) t
unfolding value
value-append acc [] t = refl
value-append acc (c ∷ s) t = value-append (acc * 10 + (c - b'0')) s t

value-push_digits :
    (fuel n : ℕ) (out : Text) → n < fuel → value 0 (push_digits fuel n out) ≡ value n out
unfolding value push_digits
value-push_digits zero n out h = absurd (omega arith)
value-push_digits (suc fuel) n out h = elim (Bool-cases (n / 10 == 0)) [
  | inl e ↦
      let same : 0 * 10 + (b'0' + n % 10 - b'0') ≡ n = ground arith in
      rw e (ap (λ (a : ℕ). value a out) same)
  | inr e ↦
      let same : n / 10 * 10 + (b'0' + n % 10 - b'0') ≡ n = omega arith in
      rw e (
        value-push_digits fuel (n / 10) ((b'0' + n % 10) ∷ out) (ground arith)
        ∙ ap (λ (a : ℕ). value a out) same)
]

pub value-show_ℕ : (n : ℕ) → value 0 (show_ℕ n) ≡ n
unfolding show_ℕ value
value-show_ℕ n = value-push_digits (suc n) n [] (omega arith)

push_digits-AllDigits :
    (fuel n : ℕ) (out : Text) → AllDigits out → AllDigits (push_digits fuel n out)
unfolding push_digits
push_digits-AllDigits zero n out h = h
push_digits-AllDigits (suc fuel) n out h = elim (Bool-cases (n / 10 == 0)) [
  | inl e ↦ rw e ((omega arith, omega arith), h)
  | inr e ↦
      rw e (
        push_digits-AllDigits fuel (n / 10) ((b'0' + n % 10) ∷ out) ((omega arith, omega arith), h))
]

pub show_ℕ-AllDigits : (n : ℕ) → AllDigits (show_ℕ n)
unfolding show_ℕ
show_ℕ-AllDigits n = push_digits-AllDigits (suc n) n [] tt

length-push_digits : (fuel n : ℕ) (out : Text) → length out ≤ length (push_digits fuel n out)
unfolding push_digits
length-push_digits zero n out = omega arith
length-push_digits (suc fuel) n out =
    ground (arith, length-push_digits fuel (n / 10) ((b'0' + n % 10) ∷ out))

pub show_ℕ-nonempty : (n : ℕ) → 0 < length (show_ℕ n)
unfolding show_ℕ
show_ℕ-nonempty n = ground (arith, length-push_digits n (n / 10) ((b'0' + n % 10) ∷ []))

le-value : (acc : ℕ) (s : Text) → acc ≤ value acc s
unfolding value
le-value acc [] = omega arith
le-value acc (c ∷ s) = omega (arith, le-value (acc * 10 + (c - b'0')) s)

parse_digits-value :
    (most acc : ℕ) (s : Text)
    → AllDigits s
    → value acc s ≤ most
    → parse_digits most acc s ≡ some (value acc s)
unfolding parse_digits value
parse_digits-value most acc [] h le = refl
parse_digits-value most acc (c ∷ s) h le = ground (
  arith,
  parse_digits-value most (acc * 10 + (c - b'0')) s h.1,
  le-value (acc * 10 + (c - b'0')) s,
)

parse_unsigned-digits :
    (most : ℕ) (s : Text)
    → AllDigits s
    → 0 < length s
    → parse_unsigned most s ≡ parse_digits most 0 s
parse_unsigned-digits most [] h n = absurd (omega arith)
parse_unsigned-digits most (c ∷ []) h n = refl
parse_unsigned-digits most (c ∷ d ∷ s) h n =
    let digit : (c == b'+') ≡ false = ground arith in rw digit

-- What is printed is parsed again, up to the greatest value of the type.
pub parse_unsigned-show_ℕ : (most n : ℕ) → n ≤ most → parse_unsigned most (show_ℕ n) ≡ some n
parse_unsigned-show_ℕ most n h =
    let v = value-show_ℕ n in
    parse_unsigned-digits most (show_ℕ n) (show_ℕ-AllDigits n) (show_ℕ-nonempty n)
    ∙ (parse_digits-value most 0 (show_ℕ n) (show_ℕ-AllDigits n) (omega (arith, v)) ∙ ap some v)

pub parse_unsigned_minus : (most : ℕ) (t : Text) → parse_unsigned most (b'-' ∷ t) ≡ none
unfolding parse_digits
parse_unsigned_minus most [] = refl
parse_unsigned_minus most (c ∷ t) = refl
