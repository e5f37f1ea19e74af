-- ===== src/Metadata/Fragments.antt =====
-- src/write/metadata.rs: `lance_fragment_stats` against the rows of `lance_list_fragments`.
use pglance.Base.{
  ℕ, zero, suc, ◌+◌, ◌^◌, ◌≤◌, ◌<◌, ◌≡◌, refl, ap, ◌∙◌, Bool, true, false, Option, none, some, List,
  [], ◌∷◌, length, arith, if◌then◌else◌, ◌↔◌,
}
use pglance.Base.Int.{ℤ, pos, pos_part, wrap_i64, clamp_i64, ◌+ℤ◌, ◌-ℤ◌}
use pglance.Maintenance.{map_option}
use pglance.Metadata.{
  Fragment, FragmentRow, as_i64, fragment_rows, FragmentCounts, add_given, add_if, count_fragments,
  no_fragments, FragmentStatsRow, fragment_stats, average,
}

abbrev pub number_of : Option ℕ → ℕ
number_of none = 0
number_of (some n) = n

-- The rows of all fragments, by the given count.
unfoldable pub total : (Fragment → Option ℕ) → List Fragment → ℕ
total count [] = 0
total count (f ∷ fs) = number_of (count f) + total count fs

-- The sum of a column of `lance_list_fragments`, without its nulls, and the rows with deletions.
abbrev pub shown : Option ℤ → ℕ
shown none = 0
shown (some v) = pos_part v

pub sum_column : (FragmentRow → Option ℤ) → List FragmentRow → ℕ
sum_column column [] = 0
sum_column column (r ∷ rs) = shown (column r) + sum_column column rs

pub with_deletions : List FragmentRow → ℕ
with_deletions [] = 0
with_deletions (r ∷ rs) = (if r.has_deletions then 1 else 0) + with_deletions rs

abbrev pub physical : Fragment → Option ℕ
physical f = f.physical_rows

abbrev pub logical : Fragment → Option ℕ
logical f = f.num_rows

wrap_i64_small : (n : ℕ) → n < 2 ^ 63 → wrap_i64 (pos n) ≡ pos n
wrap_i64_small n h = ground arith

plus_pos : (a b : ℕ) → pos a +ℤ pos b ≡ pos (a + b)
unfolding ◌+ℤ◌
plus_pos a b = ground arith

add_given_small :
    (a : ℕ) (o : Option ℕ) → a + number_of o < 2 ^ 63 → add_given (pos a) o ≡ pos (a + number_of o)
add_given_small a none h = ap pos (omega arith)
add_given_small a (some n) h =
    rw (wrap_i64_small n (omega arith), plus_pos a n) (wrap_i64_small (a + n) h)

add_if_small :
    (a : ℕ) (b : Bool) → a + 1 < 2 ^ 63 → add_if b (pos a) ≡ pos (a + (if b then 1 else 0))
add_if_small a true h = rw (plus_pos a 1) (wrap_i64_small (a + 1) h)
add_if_small a false h = ap pos (omega arith)

abbrev counts : (n p l d : ℕ) → FragmentCounts
counts n p l d = record {
  fragment_count = pos n;
  physical_rows = pos p;
  logical_rows = pos l;
  deletion_files = pos d;
}

counts_eq :
    {n n' p p' l l' d d' : ℕ}
    → n ≡ n'
    → p ≡ p'
    → l ≡ l'
    → d ≡ d'
    → counts n p l d ≡ counts n' p' l' d'
counts_eq en ep el ed = cc

shown_small : (o : Option ℕ) → number_of o < 2 ^ 63 → shown (map_option as_i64 o) ≡ number_of o
shown_small none h = refl
shown_small (some n) h = rw (wrap_i64_small n h)

length-fragment_rows : (fs : List Fragment) → length (fragment_rows fs) ≡ length fs
unfolding fragment_rows
length-fragment_rows [] = refl
length-fragment_rows (f ∷ fs) = ap suc (length-fragment_rows fs)

sum_physical :
    (fs : List Fragment)
    → total physical fs < 2 ^ 63
    → sum_column (λ r. r.physical_rows) (fragment_rows fs) ≡ total physical fs
unfolding fragment_rows sum_column total
sum_physical [] h = refl
sum_physical (f ∷ fs) h =
    omega (arith, shown_small f.physical_rows (omega arith), sum_physical fs (omega arith))

sum_logical :
    (fs : List Fragment)
    → total logical fs < 2 ^ 63
    → sum_column (λ r. r.logical_rows) (fragment_rows fs) ≡ total logical fs
unfolding fragment_rows sum_column total
sum_logical [] h = refl
sum_logical (f ∷ fs) h =
    omega (arith, shown_small f.num_rows (omega arith), sum_logical fs (omega arith))

with_deletions-le : (fs : List Fragment) → with_deletions (fragment_rows fs) ≤ length fs
unfolding fragment_rows with_deletions
with_deletions-le [] = omega arith
with_deletions-le (f ∷ fs) = ground (arith, with_deletions-le fs)

count_lem :
    (fs : List Fragment) (n p l d : ℕ)
    → n + length fs < 2 ^ 63
    → d + length fs < 2 ^ 63
    → p + total physical fs < 2 ^ 63
    → l + total logical fs < 2 ^ 63
    → count_fragments (counts n p l d) fs
      ≡ counts
          (n + length fs)
          (p + total physical fs)
          (l + total logical fs)
          (d + with_deletions (fragment_rows fs))
unfolding count_fragments total fragment_rows with_deletions
count_lem [] n p l d hn hd hp hl = ground arith
count_lem (f ∷ fs) n p l d hn hd hp hl =
    let one = plus_pos n 1 in
    let n' = wrap_i64_small (n + 1) (omega arith) in
    let p' = add_given_small p f.physical_rows (omega arith) in
    let l' = add_given_small l f.num_rows (omega arith) in
    let d' = add_if_small d f.has_deletion_file (omega arith) in
    rw one (
      rw n' (
        rw p' (
          rw l' (
            rw d' (
              count_lem fs (n + 1) (p + number_of f.physical_rows) (l + number_of f.num_rows)
                (d + (if f.has_deletion_file then 1 else 0)) (omega arith) (ground arith)
                (omega arith) (omega arith)
              ∙ counts_eq (omega arith) (omega arith) (omega arith) (omega arith))))))

-- What `lance_fragment_stats` reports.
pub record Agrees (fs : List Fragment) (rows : List FragmentRow) (stats : FragmentStatsRow)
    : Type 0 where
  pub fragments : stats.fragments ≡ pos (length rows)
  pub physical_rows : stats.physical_rows ≡ pos (sum_column (λ r. r.physical_rows) rows)
  pub logical_rows : stats.logical_rows ≡ pos (sum_column (λ r. r.logical_rows) rows)
  pub with_deletion : stats.fragments_with_deletions ≡ pos (with_deletions rows)
  pub deleted :
      stats.deleted_rows
      ≡ pos (sum_column (λ r. r.physical_rows) rows) -ℤ pos (sum_column (λ r. r.logical_rows) rows)
  pub empty : (stats.avg_rows_per_fragment ≡ none) ↔ (rows ≡ [])

minus_small : (a b : ℕ) → a < 2 ^ 63 → b < 2 ^ 63 → clamp_i64 (pos a -ℤ pos b) ≡ pos a -ℤ pos b
unfolding ◌-ℤ◌
minus_small a b ha hb = ground arith

average-none : (total count : ℕ) → (average (pos total) (pos count) ≡ none) ↔ (count ≡ 0)
average-none total zero = (λ _. refl, λ _. refl)
average-none total (suc count) = (λ h. cc, λ h. absurd (omega arith))

length-zero : (rows : List FragmentRow) → (length rows ≡ 0) ↔ (rows ≡ [])
length-zero [] = (λ _. refl, λ _. refl)
length-zero (r ∷ rows) = (λ h. absurd (omega arith), λ h. cc)

-- While the numbers of rows and fragments stay below 2^63, `lance_fragment_stats` reports the sums of
-- what `lance_list_fragments` lists: the number of its rows, the sums of its two row counts, the
-- number of its rows with deletions, and as deleted rows the exact difference of the two sums. The
-- average is the constant 0 exactly when there is no fragment.
pub fragment_stats-Agrees :
    (fs : List Fragment)
    → length fs < 2 ^ 63
    → total physical fs < 2 ^ 63
    → total logical fs < 2 ^ 63
    → Agrees fs (fragment_rows fs) (fragment_stats fs)
unfolding fragment_stats
fragment_stats-Agrees fs hn hp hl =
    let c = count_lem fs 0 0 0 0 (omega arith) (omega arith) (omega arith) (omega arith) in
    let p = sum_physical fs hp in
    let l = sum_logical fs hl in
    let n = length-fragment_rows fs in
    let physical_same : (count_fragments no_fragments fs).physical_rows
        ≡ pos (sum_column (λ r. r.physical_rows) (fragment_rows fs)) =
      ap (λ (x : FragmentCounts). x.physical_rows) c ∙ ap pos (omega (arith, p)) in
    let logical_same : (count_fragments no_fragments fs).logical_rows
        ≡ pos (sum_column (λ r. r.logical_rows) (fragment_rows fs)) =
      ap (λ (x : FragmentCounts). x.logical_rows) c ∙ ap pos (omega (arith, l)) in
    let count_same : (count_fragments no_fragments fs).fragment_count
        ≡ pos (length (fragment_rows fs)) =
      ap (λ (x : FragmentCounts). x.fragment_count) c ∙ ap pos (omega (arith, n)) in
    let averaged =
      average-none (sum_column (λ r. r.logical_rows) (fragment_rows fs))
        (length (fragment_rows fs)) in
    let shown_empty = length-zero (fragment_rows fs) in
    record {
      fragments = count_same;
      physical_rows = physical_same;
      logical_rows = logical_same;
      with_deletion = ap (λ (x : FragmentCounts). x.deletion_files) c ∙ ap pos (omega arith);
      deleted =
          rw (physical_same, logical_same) (minus_small _ _ (omega (arith, p)) (omega (arith, l)));
      empty =
          rw (logical_same, count_same)
            (λ h. shown_empty.0 (averaged.0 h), λ h. averaged.1 (shown_empty.1 h));
    }
