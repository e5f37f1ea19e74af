-- ===== src/Base/Trim.antt =====
-- The methods of Rust's `str` that the program calls: `trim`, `trim_end`, `strip_suffix("[]")`,
-- `join`, and the loop that takes array brackets off a type's name.
use Prim.Native.Nat.{ℕ, zero, suc, ◌+◌, ◌≤◌}
use mathlib.Core.Path.{◌≡◌, refl}
use mathlib.Core.Bool.{Bool, ◌&&◌, ◌||◌}
use mathlib.Core.Option.{Option, none, some}
use mathlib.Core.List.{List, [], ◌∷◌, ◌++◌}
use native.Mathlib.Omega.{arith}
use pglance.Base.Tests.{◌==◌, leb, if◌then◌else◌}
use pglance.Base.Texts.{Text, codes}

-- The Unicode property White_Space.
unfoldable pub is_whitespace : ℕ → Bool
is_whitespace c =
    leb 9 c && leb c 13
    || c == 32
    || c == 0x85
    || c == 0xA0
    || c == 0x1680
    || leb 0x2000 c && leb c 0x200A
    || c == 0x2028
    || c == 0x2029
    || c == 0x202F
    || c == 0x205F
    || c == 0x3000

unfoldable pub trim_start : Text → Text
trim_start [] = []
trim_start (c ∷ s) = let rest = trim_start s in if is_whitespace c then rest else c ∷ s

abbrev pub keep_unless_blank : ℕ → Text → Text
keep_unless_blank c [] = if is_whitespace c then [] else c ∷ []
keep_unless_blank c (d ∷ s) = c ∷ d ∷ s

unfoldable pub trim_end : Text → Text
unfolding is_whitespace
trim_end [] = []
trim_end (c ∷ s) = keep_unless_blank c (trim_end s)

unfoldable pub trim : Text → Text
unfolding trim_start trim_end
trim s = trim_end (trim_start s)

-- `s.strip_suffix("[]")`
unfoldable pub strip_brackets : Text → Option Text
strip_brackets [] = none
strip_brackets (a ∷ []) = none
strip_brackets (a ∷ b ∷ []) = if (a == b'[') && (b == b']') then some [] else none
strip_brackets (a ∷ b ∷ c ∷ s) = elim (strip_brackets (b ∷ c ∷ s)) [
  | none ↦ none
  | some t ↦ some (a ∷ t)
]

-- `while let Some(stripped) = t.strip_suffix("[]") { dims += 1; t = stripped.trim_end(); }`
unfoldable pub strip_dims : ℕ → Text → ℕ → Text × ℕ
unfolding strip_brackets trim_end
strip_dims zero t dims = (t, dims)
strip_dims (suc fuel) t dims = elim (strip_brackets t) [
  | none ↦ (t, dims)
  | some stripped ↦ strip_dims fuel (trim_end stripped) (dims + 1)
]

-- `for _ in 0..dims { out.push_str("[]"); }`
unfoldable pub push_dims : ℕ → Text → Text
push_dims zero out = out
push_dims (suc n) out = push_dims n (out ++ codes "[]")

unfoldable pub join : Text → List Text → Text
join sep [] = []
join sep (x ∷ []) = x
join sep (x ∷ y ∷ ys) = x ++ (sep ++ join sep (y ∷ ys))

push_dims_zero : (out : Text) → push_dims 0 out ≡ out
unfolding push_dims
push_dims_zero out = refl

pub push_dims_snoc : (n : ℕ) (out : Text) → push_dims (suc n) out ≡ push_dims n out ++ codes "[]"
unfolding push_dims
push_dims_snoc zero out = refl
push_dims_snoc (suc n) out = push_dims_snoc n (out ++ codes "[]")

pub strip_brackets_snoc : (s : Text) → strip_brackets (s ++ codes "[]") ≡ some s
unfolding strip_brackets
strip_brackets_snoc [] = refl
strip_brackets_snoc (a ∷ []) = refl
strip_brackets_snoc (a ∷ b ∷ []) = refl
strip_brackets_snoc (a ∷ b ∷ c ∷ s) = ground (arith, strip_brackets_snoc (b ∷ c ∷ s))

trim_end-brackets : (s : Text) → trim_end (s ++ codes "[]") ≡ s ++ codes "[]"
unfolding trim_end
trim_end-brackets [] = refl
trim_end-brackets (c ∷ s) = rw (trim_end-brackets s) (keep s)
  where
    keep : (s : Text) → keep_unless_blank c (s ++ codes "[]") ≡ c ∷ (s ++ codes "[]")
    keep [] = refl
    keep (d ∷ s) = refl

-- A type name without brackets: nothing to trim at its end, and no brackets to take off.
pub record IsBase (b : Text) : Type 0 where
  pub trimmed : trim_end b ≡ b
  pub plain : strip_brackets b ≡ none

pub trim_end-push_dims : (n : ℕ) (b : Text) → IsBase b → trim_end (push_dims n b) ≡ push_dims n b
unfolding push_dims
trim_end-push_dims zero b h = h.trimmed
trim_end-push_dims (suc n) b h = rw (push_dims_snoc n b) (trim_end-brackets (push_dims n b))

-- With as much fuel as there are dimensions, exactly the brackets come off, and are counted.
pub strip_dims-push_dims :
    (b : Text)
    → IsBase b
    → (n fuel dims : ℕ) → n ≤ fuel
    → strip_dims fuel (push_dims n b) dims ≡ (b, dims + n)
unfolding strip_dims
strip_dims-push_dims b h zero zero dims le = ground (arith, push_dims_zero b)
strip_dims-push_dims b h zero (suc fuel) dims le = ground (arith, h.plain, push_dims_zero b)
strip_dims-push_dims b h (suc n) zero dims le = absurd (omega arith)
strip_dims-push_dims b h (suc n) (suc fuel) dims le = ground (
  arith,
  push_dims_snoc n b,
  strip_brackets_snoc (push_dims n b),
  trim_end-push_dims n b h,
  strip_dims-push_dims b h n fuel (dims + 1),
)
