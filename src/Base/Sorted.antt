-- ===== src/Base/Sorted.antt =====
-- Maps whose keys are in order, as `insert` keeps them.
use pglance.Base.Map.{Ord, ord_ℕ, ord_list, cmp_list, cmp_list_eq, lookup, insert, is_eq}
use Prim.Native.Nat.{ℕ, compare, Ordering}
use mathlib.Core.Path.{◌≡◌, refl, subst, sym, ap}
use mathlib.Core.Option.{none, some, some_inj}
use mathlib.Core.Logic.{inl, inr}
use mathlib.Core.Bool.{true}
use pglance.Base.Tests.{Bool-cases}
use pglance.Base.Lists.{All}
use mathlib.Core.List.{List, [], ◌∷◌, Memᴰ}
use native.Mathlib.Omega.{arith}

pub data OrderCase (o : Ordering) : Type 0 where
  first : o ≡ Ordering.lt → OrderCase o
  same : o ≡ Ordering.eq → OrderCase o
  last : o ≡ Ordering.gt → OrderCase o

pub Order-cases : (o : Ordering) → OrderCase o
Order-cases Ordering.lt = first refl
Order-cases Ordering.eq = same refl
Order-cases Ordering.gt = last refl

pub is_eq-true : (o : Ordering) → is_eq o ≡ true → o ≡ Ordering.eq
is_eq-true Ordering.eq h = refl
is_eq-true Ordering.lt h = absurd (cc)
is_eq-true Ordering.gt h = absurd (cc)

-- What makes the order of the keys linear, besides `cmp_eq`.
pub record Linear {ℓ} (K : Type ℓ) : Type ℓ where
  pub ord : Ord K
  pub flip : (a b : K) → ord.cmp a b ≡ Ordering.gt → ord.cmp b a ≡ Ordering.lt
  pub trans :
      (a b c : K)
      → ord.cmp a b ≡ Ordering.lt
      → ord.cmp b c ≡ Ordering.lt
      → ord.cmp a c ≡ Ordering.lt

pub ℕ_flip : (a b : ℕ) → compare a b ≡ Ordering.gt → compare b a ≡ Ordering.lt
ℕ_flip a b h = ground arith

pub ℕ_trans :
    (a b c : ℕ) → compare a b ≡ Ordering.lt → compare b c ≡ Ordering.lt → compare a c ≡ Ordering.lt
ℕ_trans a b c h k = ground arith

abbrev pub linear_ℕ : Linear ℕ
linear_ℕ = record { ord = ord_ℕ; flip = ℕ_flip; trans = ℕ_trans }

module _ {ℓ} {A : Type ℓ} (l : Linear A) where
  open l use {ord}

  pub list_flip :
      (a b : List A) → cmp_list ord.cmp a b ≡ Ordering.gt → cmp_list ord.cmp b a ≡ Ordering.lt
  unfolding cmp_list
  list_flip [] [] h = absurd (cc)
  list_flip [] (y ∷ ys) h = absurd (cc)
  list_flip (x ∷ xs) [] h = refl
  list_flip (x ∷ xs) (y ∷ ys) h =
      ground (arith, ord.cmp_eq x y, ord.cmp_eq y x, l.flip x y, list_flip xs ys)

  pub list_trans :
      (a b c : List A)
      → cmp_list ord.cmp a b ≡ Ordering.lt
      → cmp_list ord.cmp b c ≡ Ordering.lt
      → cmp_list ord.cmp a c ≡ Ordering.lt
  unfolding cmp_list
  list_trans [] [] c h k = absurd (cc)
  list_trans [] (y ∷ ys) [] h k = absurd (cc)
  list_trans [] (y ∷ ys) (z ∷ zs) h k = refl
  list_trans (x ∷ xs) [] c h k = absurd (cc)
  list_trans (x ∷ xs) (y ∷ ys) [] h k = absurd (cc)
  list_trans (x ∷ xs) (y ∷ ys) (z ∷ zs) h k =
      ground
        (arith, ord.cmp_eq x y, ord.cmp_eq y z, ord.cmp_eq x z, l.trans x y z, list_trans xs ys zs)

abbrev pub linear_list {ℓ} : {A : Type ℓ} → Linear A → Linear (List A)
linear_list l = record {
  ord = record { cmp = cmp_list l.ord.cmp; cmp_eq = cmp_list_eq l.ord };
  flip = list_flip l;
  trans = list_trans l;
}

-- The keys of the maps: lists of texts.
abbrev pub linear_texts : Linear (List (List ℕ))
linear_texts = linear_list (linear_list linear_ℕ)

module _ {ℓ κ} {K : Type ℓ} {V : Type κ} (l : Linear K) where
  open l use {ord}

  abbrev pub After : K → K × V → Type 0
  After k (j, v) = ord.cmp k j ≡ Ordering.lt

  -- Every key is below the keys after it.
  abbrev pub IsSorted : List (K × V) → Type 0
  IsSorted [] = Unit
  IsSorted ((k, v) ∷ entries) = All (After k) entries × IsSorted entries

  pub After-trans :
      (k j : K) (entries : List (K × V))
      → ord.cmp k j ≡ Ordering.lt
      → All (After j) entries
      → All (After k) entries
  After-trans k j [] h hs = tt
  After-trans k j ((i, v) ∷ entries) h hs = (l.trans k j i h hs.0, After-trans k j entries h hs.1)

  After-insert :
      (k j : K) (v : V) (entries : List (K × V))
      → ord.cmp j k ≡ Ordering.lt
      → All (After j) entries
      → All (After j) (insert ⦃o = ord⦄ k v entries)
  unfolding insert
  After-insert k j v [] h hs = (h, tt)
  After-insert k j v ((i, w) ∷ entries) h hs = elim (Order-cases (ord.cmp k i)) [
    | first e ↦ rw (e, insert) (h, hs)
    | same e ↦ rw (e, insert) (h, hs.1)
    | last e ↦ rw (e, insert) (hs.0, After-insert k j v entries h hs.1)
  ]

  pub insert-IsSorted :
      (k : K) (v : V) (entries : List (K × V))
      → IsSorted entries
      → IsSorted (insert ⦃o = ord⦄ k v entries)
  unfolding insert
  insert-IsSorted k v [] h = (tt, tt)
  insert-IsSorted k v ((i, w) ∷ entries) h = elim (Order-cases (ord.cmp k i)) [
    | first e ↦ rw (e, insert) ((e, After-trans k i entries e h.0), h)
    | same e ↦
        let k_i : k ≡ i = (ord.cmp_eq k i).0 e in
        rw (e, insert) (subst (λ j. All (After j) entries) (sym k_i) h.0, h.1)
    | last e ↦
        rw (e, insert)
          (After-insert k i v entries (l.flip k i e) h.0, insert-IsSorted k v entries h.1)
  ]

  -- A key below all others is not in the map.
  pub lookup-After :
      (k : K) (entries : List (K × V)) → All (After k) entries → lookup ⦃o = ord⦄ k entries ≡ none
  unfolding lookup
  lookup-After k [] h = refl
  lookup-After k ((i, v) ∷ entries) h = rw h.0 (lookup-After k entries h.1)

  -- The entries of a map are what `lookup` finds.
  pub mem-lookup :
      (k : K) (v : V) (entries : List (K × V))
      → lookup ⦃o = ord⦄ k entries ≡ some v
      → Memᴰ (k, v) entries
  unfolding lookup
  mem-lookup k v [] h = absurd (cc)
  mem-lookup k v ((i, w) ∷ entries) h = elim (Bool-cases (is_eq (ord.cmp k i))) [
    | inl e ↦
        let k_i : k ≡ i = (ord.cmp_eq k i).0 (is_eq-true (ord.cmp k i) e) in
        let found : some w ≡ some v = rw e at h in Memᴰ.head (rw (k_i, some_inj.0 found) refl)
    | inr e ↦
        let later : lookup ⦃o = ord⦄ k entries ≡ some v = rw e at h in
        Memᴰ.tail (mem-lookup k v entries later)
  ]

  pub mem-After :
      (j k : K) (v : V) (entries : List (K × V))
      → All (After j) entries
      → Memᴰ (k, v) entries
      → ord.cmp j k ≡ Ordering.lt
  mem-After j k v [] h m = elim m [ ]
  mem-After j k v (x ∷ entries) h (Memᴰ.head e) = subst (After j) (sym e) h.0
  mem-After j k v (x ∷ entries) h (Memᴰ.tail m) = mem-After j k v entries h.1 m

  pub lookup-mem :
      (k : K) (v : V) (entries : List (K × V))
      → IsSorted entries
      → Memᴰ (k, v) entries
      → lookup ⦃o = ord⦄ k entries ≡ some v
  unfolding lookup
  lookup-mem k v [] h m = elim m [ ]
  lookup-mem k v ((i, w) ∷ entries) h (Memᴰ.head e) =
      let k_i : k ≡ i = ap (λ (x : K × V). x.0) e in
      let v_w : v ≡ w = ap (λ (x : K × V). x.1) e in
      let hit : ord.cmp k i ≡ Ordering.eq = (ord.cmp_eq k i).1 k_i in rw hit (ap some (sym v_w))
  lookup-mem k v ((i, w) ∷ entries) h (Memᴰ.tail m) = elim (Order-cases (ord.cmp k i)) [
    | first e ↦ rw e (lookup-mem k v entries h.1 m)
    | same e ↦
        let k_i : k ≡ i = (ord.cmp_eq k i).0 e in
        let below : ord.cmp i k ≡ Ordering.lt = mem-After i k v entries h.0 m in
        let hit : ord.cmp i k ≡ Ordering.eq = (ord.cmp_eq i k).1 (sym k_i) in absurd (cc)
    | last e ↦ rw e (lookup-mem k v entries h.1 m)
  ]
