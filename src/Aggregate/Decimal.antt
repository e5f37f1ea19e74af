-- ===== src/Aggregate/Decimal.antt =====
-- src/write/aggregate.rs: what `format_decimal128` prints is read back as the number that it stands
-- for.
use pglance.Base.{
  ℕ, zero, suc, ◌+◌, ◌-◌, ◌*◌, ◌<◌, ◌≡◌, ◌≢◌, refl, sym, ap, ◌∙◌, inl, inr, Bool, false, Option,
  none, some, [], ◌∷◌, ◌++◌, Text, arith, ◌==◌, leb, leb→le, if◌then◌else◌, Bool-cases, length,
  length-append, length-drop, length-take, length-replicate, take, drop, take-append-drop,
  All-append, All-take, All-drop,
}
use mathlib.Core.List.{append-nil}
use native.Mathlib.Nat.{mul_comm}
use pglance.Base.Int.{ℤ, pos, negsuc, sub_ℕ, scale_ℤ}
use pglance.Base.Decimal.{
  show_ℕ, value, AllDigits, value-append, value-show_ℕ, show_ℕ-AllDigits, show_ℕ-nonempty,
}
use pglance.Aggregate.Print.{zeros, padded, with_point, format_decimal128}

-- A reader of decimal texts that knows nothing of scales: the digits as one number, and how many of
-- them stand behind the point.
abbrev bump : Option ℕ → Option ℕ
bump none = none
bump (some places) = some (suc places)

abbrev places_of : Option ℕ → ℕ
places_of none = 0
places_of (some places) = places

read_unsigned : ℕ → Option ℕ → Text → ℕ × ℕ
read_unsigned acc places [] = (acc, places_of places)
read_unsigned acc places (c ∷ s) =
    read_unsigned (if c == b'.' then acc else acc * 10 + (c - b'0'))
      (if c == b'.' then some 0 else bump places) s

abbrev is_minus : Text → Bool
is_minus [] = false
is_minus (c ∷ s) = c == b'-'

abbrev negated : ℕ × ℕ → ℤ × ℕ
negated (n, places) = (sub_ℕ 0 n, places)

abbrev plain : ℕ × ℕ → ℤ × ℕ
plain (n, places) = (pos n, places)

pub read_decimal : Text → ℤ × ℕ
read_decimal t =
    if is_minus t then negated (read_unsigned 0 none (drop 1 t)) else plain (read_unsigned 0 none t)

abbrev pub pow10 : ℕ → ℕ
pow10 zero = 1
pow10 (suc n) = pow10 n * 10

-- The number that a value of the given scale stands for: its digits and their places behind the point.
abbrev pub scaled : ℤ → ℤ → ℤ × ℕ
scaled v (pos scale) = (v, scale)
scaled v (negsuc n) = (scale_ℤ (pow10 (suc n)) v, 0)

abbrev add_places : ℕ → Option ℕ → Option ℕ
add_places zero places = places
add_places (suc n) places = add_places n (bump places)

add_places-some : (n k : ℕ) → add_places n (some k) ≡ some (k + n)
add_places-some zero k = ground arith
add_places-some (suc n) k = add_places-some n (suc k) ∙ ap some (omega arith)

add_places-none : (n : ℕ) → add_places n none ≡ none
add_places-none zero = refl
add_places-none (suc n) = add_places-none n

read_unsigned-append :
    (acc : ℕ) (places : Option ℕ) (s t : Text)
    → AllDigits s
    → read_unsigned acc places (s ++ t)
      ≡ read_unsigned (value acc s) (add_places (length s) places) t
unfolding read_unsigned value
read_unsigned-append acc places [] t h = refl
read_unsigned-append acc places (c ∷ s) t h =
    ground (arith, read_unsigned-append (acc * 10 + (c - b'0')) (bump places) s t h.1)

read_unsigned-whole :
    (acc : ℕ) (places : Option ℕ) (s : Text)
    → AllDigits s
    → read_unsigned acc places s ≡ (value acc s, places_of (add_places (length s) places))
unfolding read_unsigned
read_unsigned-whole acc places s h =
    ap (read_unsigned acc places) (sym (append-nil s)) ∙ read_unsigned-append acc places s [] h

read_unsigned-point :
    (s t : Text)
    → AllDigits s
    → AllDigits t
    → read_unsigned 0 none (s ++ (b'.' ∷ t)) ≡ (value 0 (s ++ t), length t)
unfolding read_unsigned
read_unsigned-point s t hs ht =
    let places : places_of (add_places (length t) (some 0)) ≡ length t =
      ap places_of (add_places-some (length t) 0) ∙ omega arith in
    let after =
      ap (λ (p : Option ℕ). read_unsigned (value 0 s) p (b'.' ∷ t)) (add_places-none (length s)) in
    let rest = read_unsigned-whole (value 0 s) (some 0) t ht in
    let whole = value-append 0 s t in
    read_unsigned-append 0 none s (b'.' ∷ t) hs ∙ (after ∙ (rest ∙ cc))

not_minus : (s t : Text) → AllDigits s → 0 < length s → is_minus (s ++ t) ≡ false
not_minus [] t h n = absurd (omega arith)
not_minus (c ∷ s) t h n = ground arith

zeros-AllDigits : (n : ℕ) → AllDigits (zeros n)
zeros-AllDigits zero = tt
zeros-AllDigits (suc n) = ((omega arith, omega arith), zeros-AllDigits n)

value-zeros : (n acc : ℕ) → value acc (zeros n) ≡ acc * pow10 n
unfolding value
value-zeros zero acc = omega arith
value-zeros (suc n) acc = value-zeros n (acc * 10 + (b'0' - b'0')) ∙ grind arith

module _ (scale n : ℕ) where
  padded-AllDigits : AllDigits (padded scale (show_ℕ n))
  padded-AllDigits = elim (Bool-cases (leb (length (show_ℕ n)) scale)) [
    | inl e ↦ rw e (
        All-append _ (zeros (suc scale - length (show_ℕ n))) (show_ℕ n) (zeros-AllDigits _)
          (show_ℕ-AllDigits n))
    | inr e ↦ rw e (show_ℕ-AllDigits n)
  ]

  value-padded : value 0 (padded scale (show_ℕ n)) ≡ n
  value-padded = elim (Bool-cases (leb (length (show_ℕ n)) scale)) [
    | inl e ↦ rw e (
        value-append 0 (zeros (suc scale - length (show_ℕ n))) (show_ℕ n)
        ∙ (ap (λ (a : ℕ). value a (show_ℕ n))
              (value-zeros (suc scale - length (show_ℕ n)) 0 ∙ omega arith)
            ∙ value-show_ℕ n))
    | inr e ↦ rw e (value-show_ℕ n)
  ]

  length-padded : scale < length (padded scale (show_ℕ n))
  length-padded = elim (Bool-cases (leb (length (show_ℕ n)) scale)) [
    | inl e ↦ rw e (
        omega (
          arith,
          leb→le _ _ e,
          length-append (zeros (suc scale - length (show_ℕ n))) (show_ℕ n),
          length-replicate {A = ℕ} (suc scale - length (show_ℕ n)) b'0',
        ))
    | inr e ↦ rw e (ground arith)
  ]

  with_point-read : read_unsigned 0 none (with_point scale (padded scale (show_ℕ n))) ≡ (n, scale)
  with_point-read =
      let digits = padded scale (show_ℕ n) in
      let k = length digits - scale in
      read_unsigned-point (take k digits) (drop k digits) (All-take _ k digits padded-AllDigits)
        (All-drop _ k digits padded-AllDigits)
      ∙ rw (take-append-drop k digits) (
          rw value-padded
            (ap (λ (l : ℕ). (n, l)) (omega (arith, length-drop k digits, length-padded))))

  with_point-positive : is_minus (with_point scale (padded scale (show_ℕ n))) ≡ false
  with_point-positive =
      let digits = padded scale (show_ℕ n) in
      let k = length digits - scale in
      not_minus (take k digits) (b'.' ∷ drop k digits) (All-take _ k digits padded-AllDigits)
        (omega (arith, length-take k digits (omega arith), length-padded))

-- Before a scale the digits of a number, behind them zeros.
module _ (k n : ℕ) where
  shifted-AllDigits : AllDigits (show_ℕ n ++ zeros k)
  shifted-AllDigits = All-append _ (show_ℕ n) (zeros k) (show_ℕ-AllDigits n) (zeros-AllDigits k)

  shifted-read : read_unsigned 0 none (show_ℕ n ++ zeros k) ≡ (n * pow10 k, 0)
  shifted-read =
      read_unsigned-whole 0 none (show_ℕ n ++ zeros k) shifted-AllDigits
      ∙ rw (add_places-none (length (show_ℕ n ++ zeros k))) (
          ap (λ (m : ℕ). (m, 0))
            (value-append 0 (show_ℕ n) (zeros k)
              ∙ (ap (λ (a : ℕ). value a (zeros k)) (value-show_ℕ n) ∙ value-zeros k n)))

  shifted-positive : is_minus (show_ℕ n ++ zeros k) ≡ false
  shifted-positive = not_minus (show_ℕ n) (zeros k) (show_ℕ-AllDigits n) (show_ℕ-nonempty n)

whole_read : (n : ℕ) → read_unsigned 0 none (show_ℕ n) ≡ (n, 0)
whole_read n =
    let w = read_unsigned-whole 0 none (show_ℕ n) (show_ℕ-AllDigits n) in
    let v = value-show_ℕ n in
    w ∙ rw (add_places-none (length (show_ℕ n))) (ap (λ (m : ℕ). (m, 0)) v)

show_ℕ-positive : (n : ℕ) → is_minus (show_ℕ n) ≡ false
show_ℕ-positive n =
    ap is_minus (sym (append-nil (show_ℕ n)))
    ∙ not_minus (show_ℕ n) [] (show_ℕ-AllDigits n) (show_ℕ-nonempty n)

plain_read :
    (t : Text) (n places : ℕ)
    → is_minus t ≡ false
    → read_unsigned 0 none t ≡ (n, places)
    → read_decimal t ≡ (pos n, places)
unfolding read_decimal
plain_read t n places h r = rw h (ap plain r)

minus_read :
    (t : Text) (n places : ℕ)
    → read_unsigned 0 none t ≡ (n, places)
    → read_decimal (b'-' ∷ t) ≡ (sub_ℕ 0 n, places)
unfolding read_decimal
minus_read t n places r = ap negated r

-- What `format_decimal128` prints is read back as the number that the value and the scale stand for:
-- for a positive scale the value's digits with the point before the last of them, for scale 0 the
-- value, and for a negative scale the value times that power of ten. The sign is kept. Only the
-- scale -128, which an `i8` cannot negate, has no text.
pub read_decimal-format_decimal128 :
    (v scale : ℤ)
    → scale ≢ negsuc 127
    → (t : Text) × (format_decimal128 v scale ≡ some t) × (read_decimal t ≡ scaled v scale)
unfolding format_decimal128
read_decimal-format_decimal128 (pos n) (pos (suc s)) h =
    let t = with_point (suc s) (padded (suc s) (show_ℕ n)) in
    (t, refl, plain_read t n (suc s) (with_point-positive (suc s) n) (with_point-read (suc s) n))
read_decimal-format_decimal128 (negsuc n) (pos (suc s)) h =
    let t = with_point (suc s) (padded (suc s) (show_ℕ (suc n))) in
    (b'-' ∷ t, refl, minus_read t (suc n) (suc s) (with_point-read (suc s) (suc n)) ∙ ground arith)
read_decimal-format_decimal128 (pos n) (pos zero) h =
    (show_ℕ n, refl, plain_read (show_ℕ n) n 0 (show_ℕ-positive n) (whole_read n))
read_decimal-format_decimal128 (negsuc n) (pos zero) h = (
  b'-' ∷ show_ℕ (suc n),
  refl,
  minus_read (show_ℕ (suc n)) (suc n) 0 (whole_read (suc n)) ∙ ground arith,
)
read_decimal-format_decimal128 (pos n) (negsuc k) h = (
  show_ℕ n ++ zeros (suc k),
  ground (arith, h),
  plain_read (show_ℕ n ++ zeros (suc k)) (n * pow10 (suc k)) 0 (shifted-positive (suc k) n)
        (shifted-read (suc k) n)
      ∙ ap (λ (m : ℕ). (pos m, 0)) (mul_comm n (pow10 (suc k))),
)
read_decimal-format_decimal128 (negsuc n) (negsuc k) h = (
  b'-' ∷ (show_ℕ (suc n) ++ zeros (suc k)),
  ground (arith, h),
  minus_read (show_ℕ (suc n) ++ zeros (suc k)) (suc n * pow10 (suc k)) 0
        (shifted-read (suc k) (suc n))
      ∙ ap (λ (m : ℕ). (sub_ℕ 0 m, 0)) (mul_comm (suc n) (pow10 (suc k))),
)
