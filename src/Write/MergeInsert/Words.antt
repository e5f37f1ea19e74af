-- ===== src/Write/MergeInsert/Words.antt =====
-- src/write/merge_insert.rs: what the checks of the arguments let through.
use pglance.Base.{
  ◌≡◌, inl, inr, true, Bool-cases, List, [], ◌∷◌, Text, codes, text_eq, text_eq_iff, ok, All,
}
use pglance.Write.{Write, is_one_of}
use pglance.Write.MergeInsert.{
  WhenMatched, WhenNotMatched, update_all, insert_all, parse_when_matched, parse_when_not_matched,
  check_columns,
}

-- What the two words of the arguments stand for.
pub data MatchedWord : Text → WhenMatched → Type 0 where
  update : {t : Text} {w : WhenMatched} → t ≡ codes "update" → w ≡ update_all → MatchedWord t w
  nothing :
      {t : Text} {w : WhenMatched}
      → t ≡ codes "nothing"
      → w ≡ WhenMatched.do_nothing
      → MatchedWord t w

pub data NotMatchedWord : Text → WhenNotMatched → Type 0 where
  insert :
      {t : Text} {w : WhenNotMatched} → t ≡ codes "insert" → w ≡ insert_all → NotMatchedWord t w
  nothing :
      {t : Text} {w : WhenNotMatched}
      → t ≡ codes "nothing"
      → w ≡ WhenNotMatched.do_nothing
      → NotMatchedWord t w

pub parse_when_matched-MatchedWord :
    (t : Text) {w : WhenMatched} → parse_when_matched t ≡ ok w → MatchedWord t w
unfolding parse_when_matched
parse_when_matched-MatchedWord t h = elim (Bool-cases (text_eq t (codes "update"))) [
  | inl e ↦ let r = rw e at h in update ((text_eq_iff t _).0 e) (cc)
  | inr e ↦ elim (Bool-cases (text_eq t (codes "nothing"))) [
    | inl f ↦ let r = rw (e, f) at h in nothing ((text_eq_iff t _).0 f) (cc)
    | inr f ↦ let r = rw (e, f) at h in absurd (cc)
  ]
]

pub parse_when_not_matched-NotMatchedWord :
    (t : Text) {w : WhenNotMatched} → parse_when_not_matched t ≡ ok w → NotMatchedWord t w
unfolding parse_when_not_matched
parse_when_not_matched-NotMatchedWord t h = elim (Bool-cases (text_eq t (codes "insert"))) [
  | inl e ↦ let r = rw e at h in insert ((text_eq_iff t _).0 e) (cc)
  | inr e ↦ elim (Bool-cases (text_eq t (codes "nothing"))) [
    | inl f ↦ let r = rw (e, f) at h in nothing ((text_eq_iff t _).0 f) (cc)
    | inr f ↦ let r = rw (e, f) at h in absurd (cc)
  ]
]

pub check_columns-All :
    (missing : Text → Write (Unit {0})) (names cols : List Text)
    → ((col : Text) → missing col ≡ ok tt → ⊥)
    → check_columns missing names cols ≡ ok tt
    → All (λ c. is_one_of c names ≡ true) cols
unfolding check_columns
check_columns-All missing names [] fails h = tt
check_columns-All missing names (col ∷ cols) fails h = elim (Bool-cases (is_one_of col names)) [
  | inl e ↦ (e, check_columns-All missing names cols fails (rw e at h))
  | inr e ↦ absurd (fails col (rw e at h))
]
