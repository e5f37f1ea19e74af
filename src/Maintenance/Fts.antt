-- ===== src/Maintenance/Fts.antt =====
-- src/write/index.rs: the numbers, the modes and the full-text parameters of the index functions.
use pglance.Base.{
  ℕ, ◌^◌, Bool, ◌||◌, Option, none, some, ◌++◌, Text, codes, Result, ok, err, ◌>>=◌, ltb,
  if◌then◌else◌, text_eq, map,
}
use pglance.Base.Int.{ℤ, pos, negsuc}
use pglance.Naming.{to_ascii_lowercase}
use pglance.Maintenance.{error, Outcome, context}

unfoldable pub optional_usize : Option ℤ → Text → Outcome (Option ℕ)
optional_usize none name = ok none
optional_usize (some (pos n)) name = ok (some n)
optional_usize (some (negsuc n)) name =
    err (error (name ++ codes " must be a non-negative integer"))

unfoldable pub optional_u32 : Option ℤ → Text → Outcome (Option ℕ)
optional_u32 none name = ok none
optional_u32 (some (pos n)) name =
    if ltb n (2 ^ 32) then ok (some n) else err (error (name ++ codes " must fit in u32"))
optional_u32 (some (negsuc n)) name = err (error (name ++ codes " must fit in u32"))

-- `OptimizeOptions` of the crate, by its constructors.
pub data OptimizeOptions : Type 0 where
  append retrain : OptimizeOptions
  merge : ℕ → OptimizeOptions
  auto : Option ℕ → OptimizeOptions

abbrev pub or_one : Option ℕ → ℕ
or_one none = 1
or_one (some n) = n

unfoldable pub parse_optimize_mode : Text → Option ℤ → Outcome OptimizeOptions
parse_optimize_mode mode num_indices_to_merge =
    let m = map to_ascii_lowercase mode in
    let count = optional_usize num_indices_to_merge (codes "num_indices_to_merge") in
    if text_eq m (codes "append")
    then ok append
    else if text_eq m (codes "merge")
    then count >>= (λ n. ok (merge (or_one n)))
    else if text_eq m (codes "retrain")
    then ok retrain
    else if text_eq m (codes "auto") || text_eq m (codes "default")
    then count >>= (λ n. ok (auto n))
    else err (
        error (
          codes "unsupported optimize mode '"
          ++ (m ++ codes "'; expected append, merge, retrain, or auto")))

-- `InvertedIndexParams` of the crate and its setters.
pub record FtsBuilder : Type 1 where
  pub Params : Type 0
  pub default : Params
  pub base_tokenizer : Text → Params → Params
  pub language : Text → Params → Result Text Params
  pub with_position : Bool → Params → Params
  pub lower_case : Bool → Params → Params
  pub stem : Bool → Params → Params
  pub remove_stop_words : Bool → Params → Params
  pub ascii_folding : Bool → Params → Params
  pub ngram_prefix_only : Bool → Params → Params
  pub max_token_length : Option ℕ → Params → Params
  pub ngram_min_length : ℕ → Params → Params
  pub ngram_max_length : ℕ → Params → Params
  pub memory_limit_mb : ℕ → Params → Params
  pub num_workers : ℕ → Params → Params

pub record FtsArgs : Type 0 where
  pub tokenizer : Text
  pub language : Text
  pub with_position : Bool
  pub lower_case : Bool
  pub stem : Bool
  pub remove_stop_words : Bool
  pub ascii_folding : Bool
  pub max_token_length : Option ℤ
  pub ngram_min_length : Option ℤ
  pub ngram_max_length : Option ℤ
  pub ngram_prefix_only : Bool
  pub memory_limit_mb : Option ℤ
  pub num_workers : Option ℤ

-- `if let Some(n) = … { params = params.set(n); }`
abbrev pub set_given : {P : Type 0} → (ℕ → P → P) → Option ℕ → P → P
set_given set none params = params
set_given set (some n) params = set n params

unfoldable pub build_fts_params : (b : FtsBuilder) → FtsArgs → Outcome b.Params
build_fts_params b args = do
  spoken ←
      context (codes "invalid FTS language '" ++ (args.language ++ codes "': "))
        (b.language args.language (b.base_tokenizer args.tokenizer b.default))
  max_token ← optional_usize args.max_token_length (codes "max_token_length")
  ngram_min ← optional_u32 args.ngram_min_length (codes "ngram_min_length")
  ngram_max ← optional_u32 args.ngram_max_length (codes "ngram_max_length")
  memory ← optional_usize args.memory_limit_mb (codes "memory_limit_mb")
  workers ← optional_usize args.num_workers (codes "num_workers")
  ok (
      set_given b.num_workers workers (
        set_given b.memory_limit_mb memory (
          set_given b.ngram_max_length ngram_max (
            set_given b.ngram_min_length ngram_min (
              b.max_token_length max_token (
                b.ngram_prefix_only args.ngram_prefix_only (
                  b.ascii_folding args.ascii_folding (
                    b.remove_stop_words args.remove_stop_words (
                      b.stem args.stem (
                        b.lower_case args.lower_case
                          (b.with_position args.with_position spoken)))))))))))

-- `describe_indices`: a column that the schema does not know has no path.
