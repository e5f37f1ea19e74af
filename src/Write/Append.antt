-- ===== src/Write/Append.antt =====
-- src/write/append.rs: `lance_append_impl`. The runtime, the storage options and the dataset are
-- parameters; the durations are left out.
use pglance.Base.{
  ℕ, zero, suc, ◌≡◌, refl, ap, Bool, true, false, ◌||◌, ◌&&◌, Bool-cases, Option-cases,
  Result-cases, ◌∙◌, inl, inr, Option, none, some, List, [], ◌∷◌, ◌++◌, Text, codes, ok, err, ◌>>=◌,
  ◌>>◌, >>=-eq-ok, if◌then◌else◌, text_eq, replicate,
}
use mathlib.Core.Path.{subst}
use pglance.Arrow.{Fields}
use pglance.Write.{Write, WriteError, invalid_mode}
use pglance.Write.Builder.{Spi}
use pglance.Write.Rows.{ArrowLib, Row, for_each_spi_chunk}
use pglance.Write.Cursor.{for_each_spi_chunk-Inv}

pub data WriteMode : Type 0 where
  create append overwrite : WriteMode

-- The dataset of the `lance` crate at the URI, with what the code does to it.
pub record Lance (Batch : Type 0) : Type 1 where
  pub Store : Type 0
  pub open_dataset : Store → Write (Unit {0})
  pub write : Store → WriteMode → Fields → List Batch → Write Store

abbrev pub is_mode : Text → Bool
is_mode mode =
    text_eq mode (codes "create")
    || text_eq mode (codes "append")
    || text_eq mode (codes "overwrite")

-- The mode of the first write.
abbrev pub first_mode : Text → WriteMode
first_mode mode =
    if text_eq mode (codes "create")
    then create
    else if text_eq mode (codes "overwrite")
    then overwrite
    else append

module _ (spi : Spi) (lib : ArrowLib) (lance : Lance lib.RecordBatch) (mode : Text) where
  open lib use {RecordBatch}
  open lance use {Store, open_dataset, write}

  -- `first`, with the dataset.
  abbrev pub AppendState : Type 0
  AppendState = Bool × Store

  -- The handler of a chunk.
  unfoldable pub write_chunk : AppendState → Fields → List RecordBatch → Write AppendState
  write_chunk (first, store) schema [] = ok (first, store)
  write_chunk (first, store) schema (b ∷ bs) = do
    (if first && text_eq mode (codes "append") then open_dataset store else ok tt)
    store' ← write store (if first then first_mode mode else append) schema (b ∷ bs)
    ok (false, store')

  unfoldable pub lance_append_impl :
      (limit batch_size chunk_rows : ℕ)
      → Write (Unit {0})
      → Write (Unit {0})
      → List (Text × ℕ)
      → List (Row spi lib)
      → Store
      → Option (Write (AppendState × ℕ))
  lance_append_impl limit batch_size chunk_rows runtime storage_options cols rows store =
      if is_mode mode
      then elim (runtime >> storage_options) [
        | err e ↦ some (err e)
        | ok u ↦
            for_each_spi_chunk spi lib limit batch_size chunk_rows none write_chunk cols
              (true, store) rows
      ]
      else some (err (invalid_mode mode))

-- A dataset that keeps the modes of its writes, in order; `refuse` says which calls fail.
abbrev pub mode_log : (Batch : Type 0) → (List WriteMode → Option WriteError) → Lance Batch
mode_log Batch refuse = record {
  Store = List WriteMode;
  open_dataset = λ log. elim (refuse log) [ none ↦ ok tt | some e ↦ err e ];
  write = λ log m schema bs. elim (refuse log) [ none ↦ ok (log ++ (m ∷ [])) | some e ↦ err e ];
}

-- No write so far, or one in the mode asked for and then appends only.
abbrev pub Modes : Text → Bool × List WriteMode → Type 0
Modes mode (true, log) = log ≡ []
Modes mode (false, log) = (k : ℕ) × (log ≡ first_mode mode ∷ replicate k append)

replicate_snoc : (k : ℕ) → replicate k append ++ (append ∷ []) ≡ replicate (suc k) append
replicate_snoc zero = refl
replicate_snoc (suc k) = ap (λ (l : List WriteMode). append ∷ l) (replicate_snoc k)

module _ (spi : Spi) (lib : ArrowLib) (refuse : List WriteMode → Option WriteError)
    (mode : Text) where
  abbrev dataset : Lance lib.RecordBatch
  dataset = mode_log lib.RecordBatch refuse

  logged :
      (log : List WriteMode) (m : WriteMode) (schema : Fields) (bs : List lib.RecordBatch)
      {log' : List WriteMode}
      → dataset.write log m schema bs ≡ ok log'
      → log' ≡ log ++ (m ∷ [])
  logged log m schema bs h = elim (Option-cases (refuse log)) [
    | inl e ↦ let same = rw e at h in cc
    | inr (x, e) ↦ let bad = rw e at h in absurd (cc)
  ]

  write_chunk-Modes :
      (s s' : Bool × List WriteMode) (schema : Fields) (bs : List lib.RecordBatch)
      → Modes mode s
      → write_chunk spi lib (mode_log lib.RecordBatch refuse) mode s schema bs ≡ ok s'
      → Modes mode s'
  unfolding write_chunk
  write_chunk-Modes (first, log) s' schema [] i h = subst (Modes mode) (cc) i
  write_chunk-Modes (true, log) s' schema (b ∷ bs) i h =
      let (u, eu, e1) =
        >>=-eq-ok
          (if true && text_eq mode (codes "append") then dataset.open_dataset log else ok tt) _ h in
      let (log', ew, e2) = >>=-eq-ok (dataset.write log (first_mode mode) schema (b ∷ bs)) _ e1 in
      let empty : log' ≡ first_mode mode ∷ [] =
        logged log (first_mode mode) schema (b ∷ bs) ew ∙ rw i in
      subst (Modes mode) {x = (false, log')} (cc) (0, empty)
  write_chunk-Modes (false, log) s' schema (b ∷ bs) (k, i) h =
      let (log', ew, e2) = >>=-eq-ok (dataset.write log append schema (b ∷ bs)) _ h in
      let longer : log' ≡ first_mode mode ∷ replicate (suc k) append =
        logged log append schema (b ∷ bs) ew
        ∙ rw i (ap (λ l. first_mode mode ∷ l) (replicate_snoc k)) in
      subst (Modes mode) {x = (false, log')} (cc) (suc k, longer)

  -- When an append succeeds, the dataset has seen no write at all, or one write in the mode asked for
  -- and after it only appends: a chunk after the first never creates or overwrites. This holds for
  -- every query, chunk size and limit, also when the dataset refuses some calls.
  pub lance_append_impl-Modes :
      (limit batch_size chunk_rows : ℕ) (runtime storage_options : Write (Unit {0}))
      (cols : List (Text × ℕ)) (rows : List (Row spi lib)) (end : Bool × List WriteMode) (count : ℕ)
      → lance_append_impl spi lib dataset mode limit batch_size chunk_rows runtime storage_options
          cols rows []
        ≡ some (ok (end, count))
      → Modes mode end
  unfolding lance_append_impl
  lance_append_impl-Modes limit batch_size chunk_rows runtime storage_options cols rows end count
        h =
      elim (Bool-cases (is_mode mode)) [
        | inr m ↦ let bad = rw m at h in absurd (cc)
        | inl m ↦ elim (Result-cases (runtime >> storage_options)) [
          | inl (e, ee) ↦ let bad = rw (m, ee) at h in absurd (cc)
          | inr (u, eu) ↦
              for_each_spi_chunk-Inv spi lib limit batch_size chunk_rows none
                (write_chunk spi lib dataset mode) (Modes mode) write_chunk-Modes cols (true, [])
                rows end count refl (rw (m, eu) at h)
        ]
      ]
