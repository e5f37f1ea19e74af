-- ===== src/Ddl/Leftover.antt =====
-- src/fdw/ddl.rs: the types that `order_composite_types` has not emitted, and all of them together.
use mathlib.Core.List.{Memᴰ, Perm, Permᴰ}
use mathlib.Core.List.Perm
use mathlib.Core.Path.{subst}
use Prim.Native.Nat.{Ordering}
use mathlib.Core.Logic.{∥∥₁_elim}
use native.Mathlib.Nat.{ℕ_set}
use pglance.Base.{
  suc, ◌≡◌, refl, sym, ap, ◌∙◌, true, false, Bool-cases, inl, inr, List, [], ◌∷◌, Text, text_eq,
  text_eq_iff, map, length, All, arith,
}
use pglance.Base.Map.{insert, ord_ℕ, ord_list}
use pglance.Base.Sorted.{Linear, linear_list, linear_ℕ, IsSorted, After, insert-IsSorted, mem-After}
use pglance.Ddl.{CompositeTypeDef}
use pglance.Ddl.Order.{is_emitted, ByName, leftover, collect_types}

abbrev pub names_order : Linear Text
names_order = linear_list linear_ℕ

-- The types of the map.
abbrev pub all_types : ByName → List CompositeTypeDef
all_types b = map (λ (entry : Text × CompositeTypeDef). entry.1) b

pub length-all_types : (b : ByName) → length (all_types b) ≡ length b
length-all_types [] = refl
length-all_types (entry ∷ b) = ap suc (length-all_types b)

Permᴰ-length : {A : Type 0} {xs ys : List A} → Permᴰ xs ys → length xs ≡ length ys
Permᴰ-length Permᴰ.nil = refl
Permᴰ-length (Permᴰ.cons e p) = ap suc (Permᴰ-length p)
Permᴰ-length (Permᴰ.swap {l} e f) = refl
Permᴰ-length (Permᴰ.trans p q) = Permᴰ-length p ∙ Permᴰ-length q

pub Perm-length : {A : Type 0} {xs ys : List A} → Perm xs ys → length xs ≡ length ys
Perm-length {xs = xs} {ys = ys} p = ∥∥₁_elim p (ℕ_set _ _) Permᴰ-length

pub collect_types-IsSorted :
    (ts : List CompositeTypeDef) (b : ByName)
    → IsSorted names_order b
    → IsSorted names_order (collect_types ts b)
unfolding collect_types
collect_types-IsSorted [] b h = h
collect_types-IsSorted (t ∷ ts) b h =
    collect_types-IsSorted ts (insert t.type_name t b)
      (insert-IsSorted names_order t.type_name t b h)

-- Two names of which one is below the other are not equal.
below-not_equal :
    (n m : Text)
    → names_order.ord.cmp n m ≡ Ordering.lt
    → (text_eq n m ≡ false) × (text_eq m n ≡ false)
below-not_equal n m h = ground (arith, text_eq_iff n m, text_eq_iff m n, names_order.ord.cmp_eq n m)

leftover-absent :
    (name : Text) (b : ByName) (e : List Text)
    → All (After names_order name) b
    → leftover (name ∷ e) b ≡ leftover e b
unfolding leftover is_emitted
leftover-absent name [] e h = refl
leftover-absent name ((n, def) ∷ b) e h =
    let other = (below-not_equal name n h.0).0 in rw (other, leftover-absent name b e h.1)

leftover-emit_first :
    (b : ByName) (n : Text) (d : CompositeTypeDef) (e : List Text)
    → All (After names_order n) b
    → is_emitted n e ≡ false
    → Perm (leftover e ((n, d) ∷ b)) (d ∷ leftover (n ∷ e) ((n, d) ∷ b))
unfolding leftover is_emitted
leftover-emit_first b n d e below h =
    let equal : text_eq n n ≡ true = (text_eq_iff n n).1 refl in
    rw (h, equal, leftover-absent n b e below) Perm.rfl

-- To emit a type takes it, and nothing else, out of those that are left.
pub leftover-emit :
    (b : ByName) (name : Text) (def : CompositeTypeDef) (e : List Text)
    → IsSorted names_order b
    → Memᴰ (name, def) b
    → is_emitted name e ≡ false
    → Perm (leftover e b) (def ∷ leftover (name ∷ e) b)
unfolding leftover is_emitted
leftover-emit [] name def e sorted m h = elim m [ ]
leftover-emit ((n, d) ∷ b) name def e sorted (Memᴰ.head same) h =
    subst
      (λ (x : Text × CompositeTypeDef).
        Perm (leftover e ((n, d) ∷ b)) (x.1 ∷ leftover (x.0 ∷ e) ((n, d) ∷ b)))
      (sym same)
      (leftover-emit_first b n d e sorted.0
        (subst (λ (x : Text × CompositeTypeDef). is_emitted x.0 e ≡ false) same h))
leftover-emit ((n, d) ∷ b) name def e sorted (Memᴰ.tail m) h =
    let other = (below-not_equal n name (mem-After names_order n name def b sorted.0 m)).1 in
    let ih = leftover-emit b name def e sorted.1 m h in
    elim (Bool-cases (is_emitted n e)) [
      | inl old ↦ rw (other, old) ih
      | inr new_name ↦ rw (other, new_name) (Perm.trans (Perm.cons d ih) (Perm.swap def d _))
    ]

-- At the start all are left.
pub leftover_all : (b : ByName) → leftover [] b ≡ all_types b
unfolding leftover is_emitted
leftover_all [] = refl
leftover_all ((n, d) ∷ b) = ap (λ (l : List CompositeTypeDef). d ∷ l) (leftover_all b)
