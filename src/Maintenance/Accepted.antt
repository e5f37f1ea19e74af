-- ===== src/Maintenance/Accepted.antt =====
-- src/write/optimize.rs: which arguments `lance_optimize_impl` accepts, and what it makes of them.
use pglance.Base.{
  ℕ, ◌≡◌, refl, ap, inl, inr, Bool, true, false, ◌&&◌, Bool-cases, Option, none, some, Text, codes,
  text_eq, text_eq_iff, ok, >>=-eq-ok, not,
}
use pglance.Base.Int.{ℤ, pos, negsuc}
use pglance.Maintenance.Optimize.{
  CompactionMode, reencode, try_binary_copy, force_binary_copy, CompactionOptions, OptimizeArgs,
  optional_usize, parse_compaction_mode, is_given, given_or, check, compaction_options,
}

-- A number that is absent or not negative, and its value.
abbrev pub NotNegative : Option ℤ → Type 0
NotNegative none = Unit
NotNegative (some (pos n)) = Unit
NotNegative (some (negsuc n)) = ⊥

abbrev pub value_of : Option ℤ → Option ℕ
value_of none = none
value_of (some (pos n)) = some n
value_of (some (negsuc n)) = none

-- The words for a mode.
pub data ModeWord : Option Text → Option CompactionMode → Type 0 where
  unset : {w : Option Text} {m : Option CompactionMode} → w ≡ none → m ≡ none → ModeWord w m
  reencodes :
      {w : Option Text} {m : Option CompactionMode}
      → w ≡ some (codes "reencode")
      → m ≡ some reencode
      → ModeWord w m
  tries_copy :
      {w : Option Text} {m : Option CompactionMode}
      → w ≡ some (codes "try_binary_copy")
      → m ≡ some try_binary_copy
      → ModeWord w m
  forces_copy :
      {w : Option Text} {m : Option CompactionMode}
      → w ≡ some (codes "force_binary_copy")
      → m ≡ some force_binary_copy
      → ModeWord w m

pub record Accepted (is_finite : ℕ → Bool) (args : OptimizeArgs) (mode : Option CompactionMode)
    : Type 0 where
  pub finite : is_finite args.materialize_deletions_threshold ≡ true
  pub target : NotNegative args.target_rows_per_fragment
  pub group : NotNegative args.max_rows_per_group
  pub bytes : NotNegative args.max_bytes_per_file
  pub threads : NotNegative args.num_threads
  pub batch : NotNegative args.batch_size
  pub word : ModeWord args.compaction_mode mode
  pub fragments : NotNegative args.max_source_fragments
  pub buffer : NotNegative args.io_buffer_size
  pub exclusive : args.rewrite_all ≡ true → value_of args.max_source_fragments ≡ none

-- The given numbers, and the defaults for the two that have one.
abbrev pub options_of : CompactionOptions → OptimizeArgs → Option CompactionMode → CompactionOptions
options_of default args mode = record {
  target_rows_per_fragment =
      given_or (value_of args.target_rows_per_fragment) default.target_rows_per_fragment;
  max_rows_per_group = given_or (value_of args.max_rows_per_group) default.max_rows_per_group;
  max_bytes_per_file = value_of args.max_bytes_per_file;
  materialize_deletions = args.materialize_deletions;
  materialize_deletions_threshold = args.materialize_deletions_threshold;
  num_threads = value_of args.num_threads;
  batch_size = value_of args.batch_size;
  defer_index_remap = args.defer_index_remap;
  compaction_mode = mode;
  max_source_fragments = value_of args.max_source_fragments;
  io_buffer_size = value_of args.io_buffer_size;
}

optional_usize_accepts :
    (o : Option ℤ) (name : Text) → NotNegative o → optional_usize o name ≡ ok (value_of o)
unfolding optional_usize
optional_usize_accepts none name h = refl
optional_usize_accepts (some (pos n)) name h = refl
optional_usize_accepts (some (negsuc n)) name h = absurd h

optional_usize_accepted :
    (o : Option ℤ) (name : Text) {r : Option ℕ}
    → optional_usize o name ≡ ok r
    → NotNegative o × (r ≡ value_of o)
unfolding optional_usize
optional_usize_accepted none name h = (tt, cc)
optional_usize_accepted (some (pos n)) name h = (tt, cc)
optional_usize_accepted (some (negsuc n)) name h = absurd (cc)

parse_compaction_mode_accepts :
    (w : Option Text) (m : Option CompactionMode) → ModeWord w m → parse_compaction_mode w ≡ ok m
unfolding parse_compaction_mode text_eq
parse_compaction_mode_accepts w m (unset e f) = rw (e, f)
parse_compaction_mode_accepts w m (reencodes e f) = rw (e, f)
parse_compaction_mode_accepts w m (tries_copy e f) = rw (e, f)
parse_compaction_mode_accepts w m (forces_copy e f) = rw (e, f)

parse_compaction_mode_accepted :
    (w : Option Text) (m : Option CompactionMode) → parse_compaction_mode w ≡ ok m → ModeWord w m
unfolding parse_compaction_mode
parse_compaction_mode_accepted none m h = unset refl (cc)
parse_compaction_mode_accepted (some t) m h = elim (Bool-cases (text_eq t (codes "reencode"))) [
  | inl e ↦ let r = rw e at h in reencodes (ap some ((text_eq_iff t _).0 e)) (cc)
  | inr e ↦ elim (Bool-cases (text_eq t (codes "try_binary_copy"))) [
    | inl f ↦ let r = rw (e, f) at h in tries_copy (ap some ((text_eq_iff t _).0 f)) (cc)
    | inr f ↦ elim (Bool-cases (text_eq t (codes "force_binary_copy"))) [
      | inl g ↦ let r = rw (e, f, g) at h in forces_copy (ap some ((text_eq_iff t _).0 g)) (cc)
      | inr g ↦ let r = rw (e, f, g) at h in absurd (cc)
    ]
  ]
]

check_passed : (b : Bool) (message : Text) → check b message ≡ ok tt → b ≡ true
check_passed true message h = refl
check_passed false message h = cc

exclusive_test :
    (rewrite_all : Bool) (fragments : Option ℕ)
    → not (rewrite_all && is_given fragments) ≡ true
    → rewrite_all ≡ true
    → fragments ≡ none
exclusive_test true none h r = refl
exclusive_test true (some n) h r = cc
exclusive_test false fragments h r = cc

exclusive_passes :
    (rewrite_all : Bool) (fragments : Option ℕ)
    → (rewrite_all ≡ true → fragments ≡ none)
    → not (rewrite_all && is_given fragments) ≡ true
exclusive_passes true fragments h = rw (h refl)
exclusive_passes false fragments h = refl

module _ (is_finite : ℕ → Bool) (default : CompactionOptions) (args : OptimizeArgs) where
  accepts :
      (mode : Option CompactionMode)
      → Accepted is_finite args mode
      → compaction_options is_finite default args ≡ ok (options_of default args mode)
  unfolding compaction_options
  accepts mode a = rw a.finite (
      rw (optional_usize_accepts args.target_rows_per_fragment _ a.target) (
        rw (optional_usize_accepts args.max_rows_per_group _ a.group) (
          rw (optional_usize_accepts args.max_bytes_per_file _ a.bytes) (
            rw (optional_usize_accepts args.num_threads _ a.threads) (
              rw (optional_usize_accepts args.batch_size _ a.batch) (
                rw (parse_compaction_mode_accepts args.compaction_mode mode a.word) (
                  rw (optional_usize_accepts args.max_source_fragments _ a.fragments) (
                    rw (optional_usize_accepts args.io_buffer_size _ a.buffer)
                      (rw (exclusive_passes args.rewrite_all _ a.exclusive))))))))))

  accepted :
      (options : CompactionOptions)
      → compaction_options is_finite default args ≡ ok options
      → (mode : Option CompactionMode) × Accepted is_finite args mode
  unfolding compaction_options
  accepted options h =
      let (u, e0, h0) = >>=-eq-ok (check (is_finite args.materialize_deletions_threshold) _) _ h in
      let (target, e1, h1) = >>=-eq-ok (optional_usize args.target_rows_per_fragment _) _ h0 in
      let (group, e2, h2) = >>=-eq-ok (optional_usize args.max_rows_per_group _) _ h1 in
      let (bytes, e3, h3) = >>=-eq-ok (optional_usize args.max_bytes_per_file _) _ h2 in
      let (threads, e4, h4) = >>=-eq-ok (optional_usize args.num_threads _) _ h3 in
      let (batch, e5, h5) = >>=-eq-ok (optional_usize args.batch_size _) _ h4 in
      let (mode, e6, h6) = >>=-eq-ok (parse_compaction_mode args.compaction_mode) _ h5 in
      let (fragments, e7, h7) = >>=-eq-ok (optional_usize args.max_source_fragments _) _ h6 in
      let (buffer, e8, h8) = >>=-eq-ok (optional_usize args.io_buffer_size _) _ h7 in
      let (v, e9, h9) = >>=-eq-ok (check (not (args.rewrite_all && is_given fragments)) _) _ h8 in
      let (fragments_ok, same) = optional_usize_accepted args.max_source_fragments _ e7 in
      (
        mode,
        record {
          finite = check_passed (is_finite args.materialize_deletions_threshold) _ e0;
          target = (optional_usize_accepted args.target_rows_per_fragment _ e1).0;
          group = (optional_usize_accepted args.max_rows_per_group _ e2).0;
          bytes = (optional_usize_accepted args.max_bytes_per_file _ e3).0;
          threads = (optional_usize_accepted args.num_threads _ e4).0;
          batch = (optional_usize_accepted args.batch_size _ e5).0;
          word = parse_compaction_mode_accepted args.compaction_mode mode e6;
          fragments = fragments_ok;
          buffer = (optional_usize_accepted args.io_buffer_size _ e8).0;
          exclusive = λ rewrites. rw (← same) (
              exclusive_test args.rewrite_all fragments
                (check_passed (not (args.rewrite_all && is_given fragments)) _ e9) rewrites);
        },
      )

  -- The arguments of `lance_optimize` are accepted exactly when the threshold is finite, no given
  -- number is negative, the compaction mode is absent or one of its three words, and a rewrite of all
  -- fragments is not combined with a number of source fragments. The options of the compaction then
  -- have every given number unchanged, the crate's defaults for the two numbers that have one, and the
  -- mode that the word stands for.
  pub compaction_options-Accepted :
      ((mode : Option CompactionMode)
        → Accepted is_finite args mode
        → compaction_options is_finite default args ≡ ok (options_of default args mode))
      × ((options : CompactionOptions)
          → compaction_options is_finite default args ≡ ok options
          → (mode : Option CompactionMode) × Accepted is_finite args mode)
  compaction_options-Accepted = (accepts, accepted)
