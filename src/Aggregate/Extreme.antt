-- ===== src/Aggregate/Extreme.antt =====
-- src/write/aggregate.rs: the value that the loops over the batches end with.
use pglance.Base.{
  arith, ◌≡◌, refl, ◌⊎◌, inl, inr, Bool, true, false, Bool-cases, Option, none, some, List, [], ◌∷◌,
  ◌++◌, ok, >>=-eq-ok, All, All-append, if◌then◌else◌,
}
use mathlib.Core.Path.{subst}
use mathlib.Core.List.{append_assoc, append-nil}
use pglance.Base.Int.{ℤ, ltb_ℤ}
use pglance.Convert.Arrays.{PrimType, Array, primitive_array}
use pglance.Aggregate.{
  Extremum, min, max, better, should_replace, update_cells, StateKind, Floats, lt_of, skip_of,
  is_typed, never, update, update_batches,
}

-- `v` is an element of `vs`.
abbrev pub Member : {A : Type 0} → A → List A → Type 0
Member v [] = ⊥
Member v (x ∷ vs) = (v ≡ x) ⊎ Member v vs

Member-append : {A : Type 0} (v : A) (vs ws : List A) → Member v vs → Member v (vs ++ ws)
Member-append v [] ws m = absurd m
Member-append v (x ∷ vs) ws (inl e) = inl e
Member-append v (x ∷ vs) ws (inr m) = inr (Member-append v vs ws m)

Member-last : {A : Type 0} (v : A) (vs : List A) → Member v (vs ++ (v ∷ []))
Member-last v [] = inl refl
Member-last v (x ∷ vs) = inr (Member-last v vs)

-- The values that count: not null, and not skipped.
unfoldable pub counted : {A : Type 0} → (A → Bool) → List (Option A) → List A
counted skip [] = []
counted skip (none ∷ cells) = counted skip cells
counted skip (some value ∷ cells) =
    let rest = counted skip cells in if skip value then rest else value ∷ rest

-- No value at all, or one of the values that none of them is better than.
abbrev pub Extreme :
    {A : Type 0} → (A → A → Bool) → (A → Bool) → Extremum → List A → Option A → Type 0
Extreme lt skip op vs none = vs ≡ []
Extreme lt skip op vs (some v) =
    (skip v ≡ false) × Member v vs × All (λ u. better lt op u v ≡ false) vs

-- What the order has to be, where the values in the middle are not skipped.
pub record IsOrder {A : Type 0} (lt : A → A → Bool) (skip : A → Bool) : Type 0 where
  pub asym : (a b : A) → lt a b ≡ true → lt b a ≡ false
  pub through : (a b c : A) → skip b ≡ false → lt a b ≡ false → lt b c ≡ false → lt a c ≡ false

module _ {A : Type 0} (lt : A → A → Bool) (skip : A → Bool) (order : IsOrder lt skip) where
  irreflexive : (a : A) → lt a a ≡ false
  irreflexive a = elim (Bool-cases (lt a a)) [ inl e ↦ order.asym a a e | inr e ↦ e ]

  better_self : (op : Extremum) (a : A) → better lt op a a ≡ false
  better_self min a = irreflexive a
  better_self max a = irreflexive a

  -- A value that is not better than one which a better value replaces is not better than that.
  better_after :
      (op : Extremum) (u v x : A)
      → skip v ≡ false
      → better lt op u v ≡ false
      → better lt op x v ≡ true
      → better lt op u x ≡ false
  better_after min u v x s h k = order.through u v x s h (order.asym x v k)
  better_after max u v x s h k = order.through x v u s (order.asym v x k) h

  All-after :
      (op : Extremum) (vs : List A) (v x : A)
      → skip v ≡ false
      → better lt op x v ≡ true
      → All (λ u. better lt op u v ≡ false) vs
      → All (λ u. better lt op u x ≡ false) vs
  All-after op [] v x s k a = tt
  All-after op (u ∷ vs) v x s k a = (better_after op u v x s a.0 k, All-after op vs v x s k a.1)

  add_value :
      (op : Extremum) (vs : List A) (current : Option A) (x : A)
      → skip x ≡ false
      → Extreme lt skip op vs current
      → Extreme lt skip op
          (vs ++ (x ∷ []))
          (if should_replace lt op current x then some x else current)
  add_value op vs none x s e = rw e (s, inl refl, (better_self op x, tt))
  add_value op vs (some v) x s (sv, m, a) = elim (Bool-cases (better lt op x v)) [
    | inl k ↦ rw k (
      s,
      Member-last x vs,
      All-append (λ u. better lt op u x ≡ false) vs (x ∷ []) (All-after op vs v x sv k a)
          (better_self op x, tt),
    )
    | inr k ↦ rw k (
      sv,
      Member-append v vs (x ∷ []) m,
      All-append (λ u. better lt op u v ≡ false) vs (x ∷ []) a (k, tt),
    )
  ]

  update_cells-Extreme :
      (op : Extremum) (vs : List A) (current : Option A) (cells : List (Option A))
      → Extreme lt skip op vs current
      → Extreme lt skip op (vs ++ counted skip cells) (update_cells lt skip op current cells)
  unfolding update_cells counted
  update_cells-Extreme op vs current [] e = rw (append-nil vs) e
  update_cells-Extreme op vs current (none ∷ cells) e = update_cells-Extreme op vs current cells e
  update_cells-Extreme op vs current (some x ∷ cells) e = elim (Bool-cases (skip x)) [
    | inl s ↦ rw s (update_cells-Extreme op vs current cells e)
    | inr s ↦
        let added = add_value op vs current x s e in
        elim (Bool-cases (should_replace lt op current x)) [
          | inl k ↦
              let ih = update_cells-Extreme op (vs ++ (x ∷ [])) (some x) cells (rw k at added) in
              rw (s, k) (rw append_assoc at ih)
          | inr k ↦
              let ih = update_cells-Extreme op (vs ++ (x ∷ [])) current cells (rw k at added) in
              rw (s, k) (rw append_assoc at ih)
        ]
  ]

pub int_order : IsOrder ltb_ℤ never
int_order = record { asym = λ a b h. ground arith; through = λ a b c s h k. ground arith }

module _ (floats : Floats) (order32 : IsOrder floats.lt_f32 floats.nan_f32)
    (order64 : IsOrder floats.lt_f64 floats.nan_f64) where
  order_of : (kind : StateKind) → IsOrder (lt_of floats kind) (skip_of floats kind)
  order_of StateKind.float32 = order32
  order_of StateKind.float64 = order64
  order_of _ = int_order

  -- The values of the columns that count for the state.
  abbrev pub column_values : StateKind → List Array → List ℤ
  column_values kind [] = []
  column_values kind (primitive_array p cells ∷ columns) =
      counted (skip_of floats kind) cells ++ column_values kind columns
  column_values kind (column ∷ columns) = column_values kind columns

  update-typed :
      (kind : StateKind) (op : Extremum) (current : Option ℤ) (p : PrimType)
      (cells : List (Option ℤ)) {next : Option ℤ}
      → update floats kind op current (primitive_array p cells) ≡ ok next
      → update_cells (lt_of floats kind) (skip_of floats kind) op current cells ≡ next
  unfolding update
  update-typed kind op current p cells h = elim (Bool-cases (is_typed kind p)) [
    | inl t ↦ let same = rw t at h in cc
    | inr t ↦ let bad = rw t at h in absurd (cc)
  ]

  batches_lem :
      (kind : StateKind) (op : Extremum) (vs : List ℤ) (current : Option ℤ) (columns : List Array)
      (result : Option ℤ)
      → Extreme (lt_of floats kind) (skip_of floats kind) op vs current
      → update_batches floats kind op current columns ≡ ok result
      → Extreme
          (lt_of floats kind)
          (skip_of floats kind)
          op
          (vs ++ column_values kind columns)
          result
  unfolding update_batches update
  batches_lem kind op vs current [] result e h =
      let same : current ≡ result = cc in
      rw (append-nil vs) (subst (Extreme (lt_of floats kind) (skip_of floats kind) op vs) same e)
  batches_lem kind op vs current (primitive_array p cells ∷ columns) result e h =
      let (next, en, h1) =
        >>=-eq-ok (update floats kind op current (primitive_array p cells)) _ h in
      let found =
        update_cells-Extreme (lt_of floats kind) (skip_of floats kind) (order_of kind) op vs current
          cells e in
      let here =
        subst
          (Extreme (lt_of floats kind) (skip_of floats kind) op
            (vs ++ counted (skip_of floats kind) cells))
          (update-typed kind op current p cells en) found in
      let ih =
        batches_lem kind op (vs ++ counted (skip_of floats kind) cells) next columns result here
          h1 in
      rw append_assoc at ih
  batches_lem kind op vs current (column ∷ columns) result e h = absurd (cc)

  -- What the loops over the batches of a column end with: nothing when all values are null or NaN,
  -- and otherwise one of the values that is not NaN, with no smaller one among them for the minimum
  -- and no greater one for the maximum. The order of floats is asymmetric and passes through every
  -- value but NaN.
  pub update_batches-Extreme :
      (kind : StateKind) (op : Extremum) (columns : List Array) (result : Option ℤ)
      → update_batches floats kind op none columns ≡ ok result
      → Extreme (lt_of floats kind) (skip_of floats kind) op (column_values kind columns) result
  update_batches-Extreme kind op columns result h =
      batches_lem kind op [] none columns result refl h
