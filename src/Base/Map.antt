-- ===== src/Base/Map.antt =====
-- `BTreeMap` and `BTreeSet` as association lists in the order of their keys.
use pglance.Base.Tests.{if◌then◌else◌}
use Prim.Native.Nat.{ℕ, compare, Ordering}
use mathlib.Core.Path.{◌≡◌, refl}
use mathlib.Core.Logic.{◌↔◌}
use mathlib.Core.Bool.{Bool, true, false}
use mathlib.Core.Option.{Option, none, some}
use mathlib.Core.List.{List, [], ◌∷◌}
use native.Mathlib.Omega.{arith}

-- An order on keys that tells equal keys apart from the others.
pub record Ord {ℓ} (K : Type ℓ) : Type ℓ where
  pub cmp : K → K → Ordering
  pub cmp_eq : (a b : K) → (cmp a b ≡ Ordering.eq) ↔ (a ≡ b)

abbrev pub is_eq : Ordering → Bool
is_eq Ordering.eq = true
is_eq _ = false

unfoldable pub cmp_list {ℓ} : {A : Type ℓ} → (A → A → Ordering) → List A → List A → Ordering
cmp_list cmp [] [] = Ordering.eq
cmp_list cmp [] (y ∷ ys) = Ordering.lt
cmp_list cmp (x ∷ xs) [] = Ordering.gt
cmp_list cmp (x ∷ xs) (y ∷ ys) =
    let rest = cmp_list cmp xs ys in elim (cmp x y) [ Ordering.eq ↦ rest | o ↦ o ]

pub cmp_list_eq {ℓ} :
    {A : Type ℓ} (o : Ord A) (a b : List A) → (cmp_list o.cmp a b ≡ Ordering.eq) ↔ (a ≡ b)
unfolding cmp_list
cmp_list_eq o [] [] = (λ _. refl, λ _. refl)
cmp_list_eq o [] (y ∷ ys) = ground arith
cmp_list_eq o (x ∷ xs) [] = ground arith
cmp_list_eq o (x ∷ xs) (y ∷ ys) = ground (arith, o.cmp_eq x y, cmp_list_eq o xs ys)

pub cmp_ℕ_eq : (a b : ℕ) → (compare a b ≡ Ordering.eq) ↔ (a ≡ b)
cmp_ℕ_eq a b = ground arith

instance abbrev pub ord_ℕ : Ord ℕ
ord_ℕ = record { cmp = compare; cmp_eq = cmp_ℕ_eq }

instance abbrev pub ord_list {ℓ} : {A : Type ℓ} ⦃o : Ord A⦄ → Ord (List A)
ord_list ⦃o⦄ = record { cmp = cmp_list o.cmp; cmp_eq = cmp_list_eq o }

pub is_eq_refl {ℓ} : {K : Type ℓ} ⦃o : Ord K⦄ (k : K) → is_eq (o.cmp k k) ≡ true
is_eq_refl ⦃o⦄ k = rw ((o.cmp_eq k k).1 refl)

module _ {ℓ κ} {K : Type ℓ} {V : Type κ} ⦃o : Ord K⦄ where
  unfoldable pub lookup : K → List (K × V) → Option V
  lookup key [] = none
  lookup key ((k, value) ∷ entries) =
      let later = lookup key entries in if is_eq (o.cmp key k) then some value else later

  -- The entry of an equal key is replaced; a new key goes before the first greater one.
  unfoldable pub insert : K → V → List (K × V) → List (K × V)
  insert key value [] = (key, value) ∷ []
  insert key value ((k, old) ∷ entries) =
      let later = insert key value entries in
      elim (o.cmp key k) [
        | Ordering.gt ↦ (k, old) ∷ later
        | Ordering.eq ↦ (key, value) ∷ entries
        | Ordering.lt ↦ (key, value) ∷ (k, old) ∷ entries
      ]

  pub lookup-insert :
      (k j : K) (v : V) (m : List (K × V))
      → lookup j (insert k v m) ≡ (if is_eq (o.cmp j k) then some v else lookup j m)
  unfolding lookup insert
  lookup-insert k j v [] = refl
  lookup-insert k j v ((i, w) ∷ m) =
      ground (arith, o.cmp_eq k i, o.cmp_eq j i, o.cmp_eq j k, lookup-insert k j v m)

  pub lookup-insert_self : (k : K) (v : V) (m : List (K × V)) → lookup k (insert k v m) ≡ some v
  lookup-insert_self k v m = simp (lookup-insert, is_eq_refl)
