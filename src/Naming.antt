-- ===== src/Naming.antt =====
-- src/fdw/naming.rs: PostgreSQL identifiers made from arbitrary names.
pub mod Chars
pub mod Ident
pub mod Schema
pub mod Tests
use pglance.Base.{
  ℕ, zero, suc, ◌+◌, ◌-◌, Bool, true, false, ◌&&◌, ◌||◌, List, [], ◌∷◌, ◌++◌, Text, codes, Result,
  ok, err, ◌==◌, leb, ltb, if◌then◌else◌, length, take,
}

unfoldable pub to_ascii_lowercase : ℕ → ℕ
to_ascii_lowercase ch = if leb b'A' ch && leb ch b'Z' then ch + 32 else ch

unfoldable pub is_digit : ℕ → Bool
is_digit ch = leb b'0' ch && leb ch b'9'

-- `matches!(lower, 'a'..='z' | '0'..='9' | '_')`
unfoldable pub is_ok : ℕ → Bool
unfolding is_digit
is_ok ch = leb b'a' ch && leb ch b'z' || is_digit ch || ch == b'_'

-- The character that the loop pushes, unless it skips it.
unfoldable pub mapped : ℕ → ℕ
unfolding to_ascii_lowercase is_ok
mapped ch = let lower = to_ascii_lowercase ch in if is_ok lower then lower else b'_'

-- The `for` loop; its output from here on, given `last_was_underscore`.
unfoldable pub squeeze : Bool → Text → Text
unfolding mapped
squeeze last [] = []
squeeze last (ch ∷ rest) = elim (mapped ch == b'_') [
  | true ↦ elim last [ true ↦ squeeze true rest | false ↦ b'_' ∷ squeeze true rest ]
  | false ↦ mapped ch ∷ squeeze false rest
]

-- `while out.starts_with('_') { out.remove(0); }`
unfoldable pub trim_start : Text → Text
trim_start [] = []
trim_start (c ∷ s) = let rest = trim_start s in if c == b'_' then rest else c ∷ s

abbrev pub snoc_kept : ℕ → Text → Text
snoc_kept c [] = if c == b'_' then [] else c ∷ []
snoc_kept c (d ∷ s) = c ∷ d ∷ s

-- `while out.ends_with('_') { out.pop(); }`
unfoldable pub trim_end : Text → Text
trim_end [] = []
trim_end (c ∷ s) = snoc_kept c (trim_end s)

abbrev pub or_underscore : Text → Text
or_underscore [] = b'_' ∷ []
or_underscore (c ∷ s) = c ∷ s

-- `if first is an ASCII digit { out.insert(0, '_'); }`
abbrev pub guard_digit : Text → Text
guard_digit [] = []
guard_digit (c ∷ s) = if is_digit c then b'_' ∷ c ∷ s else c ∷ s

-- All characters are ASCII here, so `out.len()` counts them.
unfoldable pub sanitize_ident : Text → Text
unfolding squeeze trim_start trim_end is_digit
sanitize_ident input =
    take 63 (guard_digit (or_underscore (trim_end (trim_start (squeeze false input)))))

-- `table_id.last()` and `&table_id[..table_id.len() - 1]`
abbrev pub last_of : Text → List Text → Text
last_of x [] = x
last_of x (y ∷ ys) = last_of y ys

abbrev pub init_of : Text → List Text → List Text
init_of x [] = []
init_of x (y ∷ ys) = x ∷ init_of y ys

-- The `for seg in namespace` loop.
unfoldable pub push_segments : List Text → Text
push_segments [] = []
push_segments (seg ∷ rest) = codes "__" ++ (sanitize_ident seg ++ push_segments rest)

unfoldable pub schema_and_table_for_table_id : Text → List Text → Result Text (Text × Text)
unfolding push_segments
schema_and_table_for_table_id schema_prefix [] = err (codes "table_id must not be empty")
schema_and_table_for_table_id schema_prefix (x ∷ xs) =
    let prefix = sanitize_ident schema_prefix in
    let table = sanitize_ident (last_of x xs) in
    elim (init_of x xs) [
      | [] ↦ ok (prefix, table)
      | seg ∷ segs ↦ ok (take 63 (prefix ++ push_segments (seg ∷ segs)), table)
    ]
