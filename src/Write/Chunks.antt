-- ===== src/Write/Chunks.antt =====
-- src/write/pg_to_arrow.rs: what the batching of `convert_spi_rows` comes to. The rows are cut into
-- chunks of the batch size, and each chunk becomes one batch.
use pglance.Base.{
  ℕ, ◌+◌, ◌≤◌, ◌<◌, ◌≡◌, refl, sym, ◌∙◌, Bool-cases, inl, inr, List, [], ◌∷◌, ◌++◌, leb,
  if◌then◌else◌, arith, length, length-append, concat, All,
}
use mathlib.Core.List.{append_assoc, append-nil}

module _ {ℓ} {A : Type ℓ} where
  abbrev pub last_chunk : List A → List (List A)
  last_chunk [] = []
  last_chunk (a ∷ xs) = (a ∷ xs) ∷ []

  -- The chunks of `pending` and the rows after it, where `pending` has begun a chunk.
  unfoldable pub chunks : ℕ → List A → List A → List (List A)
  chunks n pending [] = last_chunk pending
  chunks n pending (a ∷ xs) =
      let full = chunks n [] xs in
      let more = chunks n (pending ++ (a ∷ [])) xs in
      if leb n (length pending + 1) then (pending ++ (a ∷ [])) ∷ full else more

  concat-last_chunk : (xs : List A) → concat (last_chunk xs) ≡ xs
  concat-last_chunk [] = refl
  concat-last_chunk (a ∷ xs) = append-nil (a ∷ xs)

  -- No row is lost, doubled or moved by the cut.
  pub concat-chunks : (n : ℕ) (pending xs : List A) → concat (chunks n pending xs) ≡ pending ++ xs
  unfolding chunks
  concat-chunks n pending [] = concat-last_chunk pending ∙ sym (append-nil pending)
  concat-chunks n pending (a ∷ xs) = elim (Bool-cases (leb n (length pending + 1))) [
    | inl e ↦ rw e (rw (concat-chunks n [] xs, append_assoc))
    | inr e ↦ rw e (rw (concat-chunks n (pending ++ (a ∷ [])) xs, append_assoc))
  ]

  abbrev pub Sized : ℕ → List A → Type 0
  Sized n xs = (1 ≤ length xs) × (length xs ≤ n)

  last_chunk-Sized : (n : ℕ) (xs : List A) → length xs ≤ n → All (Sized n) (last_chunk xs)
  last_chunk-Sized n [] h = tt
  last_chunk-Sized n (a ∷ xs) h = ((omega arith, h), tt)

  -- Every chunk has at least one row and at most `n`.
  pub chunks-Sized :
      (n : ℕ) (pending xs : List A) → length pending < n → All (Sized n) (chunks n pending xs)
  unfolding chunks
  chunks-Sized n pending [] h = last_chunk-Sized n pending (omega arith)
  chunks-Sized n pending (a ∷ xs) h =
      let one = length-append pending (a ∷ []) in
      elim (Bool-cases (leb n (length pending + 1))) [
        | inl e ↦ rw e ((omega arith, ground arith), chunks-Sized n [] xs (omega arith))
        | inr e ↦ rw e (chunks-Sized n (pending ++ (a ∷ [])) xs (ground arith))
      ]
