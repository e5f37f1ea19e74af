-- ===== src/Namespace/Split.antt =====
-- src/fdw/attach_namespace.rs: what `build_mapping` makes of its groups.
use mathlib.Core.List.{Memᴰ}
use mathlib.Core.List.Memᴰ
use mathlib.Core.Path.{subst}
use pglance.Base.{refl, ap, inl, inr, List, [], ◌∷◌}
use pglance.Namespace.{TableId, LocalMapping, split_groups}
use pglance.Namespace.Groups.{Groups}

pub split-attached :
    (groups : Groups) (id : TableId) (local : LocalMapping)
    → Memᴰ (id, local) (split_groups groups).1
    → Memᴰ (local, id ∷ []) groups
unfolding split_groups
split-attached [] id local m = elim m [ ]
split-attached ((l, []) ∷ groups) id local m = Memᴰ.tail (split-attached groups id local m)
split-attached ((l, i ∷ []) ∷ groups) id local (Memᴰ.head e) =
    Memᴰ.head (ap (λ (x : TableId × LocalMapping). (x.1, x.0 ∷ [])) e)
split-attached ((l, i ∷ []) ∷ groups) id local (Memᴰ.tail m) =
    Memᴰ.tail (split-attached groups id local m)
split-attached ((l, i ∷ j ∷ more) ∷ groups) id local m =
    Memᴰ.tail (split-attached groups id local m)

pub attached-split :
    (groups : Groups) (id : TableId) (local : LocalMapping)
    → Memᴰ (local, id ∷ []) groups
    → Memᴰ (id, local) (split_groups groups).1
unfolding split_groups
attached-split [] id local m = elim m [ ]
attached-split ((l, g) ∷ groups) id local (Memᴰ.head e) =
    subst (λ (x : LocalMapping × List TableId). Memᴰ (id, local) (split_groups (x ∷ groups)).1) e
      (Memᴰ.head refl)
attached-split ((l, []) ∷ groups) id local (Memᴰ.tail m) = attached-split groups id local m
attached-split ((l, i ∷ []) ∷ groups) id local (Memᴰ.tail m) =
    Memᴰ.tail (attached-split groups id local m)
attached-split ((l, i ∷ j ∷ more) ∷ groups) id local (Memᴰ.tail m) =
    attached-split groups id local m

-- An id in a group of several.
abbrev InShared : Groups → TableId → Type 0
InShared groups id =
    (local : LocalMapping) × (a : TableId) × (b : TableId) × (rest : List TableId) × Memᴰ
      (local, a ∷ b ∷ rest) groups
    × Memᴰ id (a ∷ b ∷ rest)

InShared-cons :
    (g : LocalMapping × List TableId) (groups : Groups) (id : TableId)
    → InShared groups id
    → InShared (g ∷ groups) id
InShared-cons g groups id (local, a, b, rest, m, k) = (local, a, b, rest, Memᴰ.tail m, k)

pub split-conflict :
    (groups : Groups) (id : TableId) → Memᴰ id (split_groups groups).0 → InShared groups id
unfolding split_groups
split-conflict [] id m = elim m [ ]
split-conflict ((l, []) ∷ groups) id m = InShared-cons _ groups id (split-conflict groups id m)
split-conflict ((l, i ∷ []) ∷ groups) id m = InShared-cons _ groups id (split-conflict groups id m)
split-conflict ((l, i ∷ j ∷ more) ∷ groups) id m =
    elim (Memᴰ.append_cases (i ∷ j ∷ more) {t = (split_groups groups).0} m) [
      | inl here ↦ (l, i, j, more, Memᴰ.head refl, here)
      | inr later ↦ InShared-cons _ groups id (split-conflict groups id later)
    ]

pub conflict-split :
    (groups : Groups) (id : TableId) (local : LocalMapping) (a b : TableId) (rest : List TableId)
    → Memᴰ (local, a ∷ b ∷ rest) groups
    → Memᴰ id (a ∷ b ∷ rest)
    → Memᴰ id (split_groups groups).0
unfolding split_groups
conflict-split [] id local a b rest m k = elim m [ ]
conflict-split ((l, g) ∷ groups) id local a b rest (Memᴰ.head e) k =
    subst (λ (x : LocalMapping × List TableId). Memᴰ id (split_groups (x ∷ groups)).0) e
      (Memᴰ.append_left (split_groups groups).0 k)
conflict-split ((l, []) ∷ groups) id local a b rest (Memᴰ.tail m) k =
    conflict-split groups id local a b rest m k
conflict-split ((l, i ∷ []) ∷ groups) id local a b rest (Memᴰ.tail m) k =
    conflict-split groups id local a b rest m k
conflict-split ((l, i ∷ j ∷ more) ∷ groups) id local a b rest (Memᴰ.tail m) k =
    Memᴰ.append_right (i ∷ j ∷ more) (conflict-split groups id local a b rest m k)
