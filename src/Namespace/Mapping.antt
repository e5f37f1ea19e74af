-- ===== src/Namespace/Mapping.antt =====
-- src/fdw/attach_namespace.rs: `build_mapping`, by the ids that share a local name.
use pglance.Base.{
  ◌≡◌, ◌↔◌, sym, ap, ◌∙◌, true, some, Option-cases, Bool-cases, inl, inr, List, [], ◌∷◌, ◌++◌, Text,
  ok, err, >>=-eq-ok, if◌then◌else◌,
}
use mathlib.Core.List.{append_assoc, append-nil, Memᴰ}
use mathlib.Core.Path.{subst}
use pglance.Base.Sorted.{
  linear_texts, is_eq-true, IsSorted, insert-IsSorted, mem-lookup, lookup-mem,
}
use pglance.Namespace.Groups.{Groups}
use pglance.Namespace.Split.{split-attached, attached-split, split-conflict, conflict-split}
use pglance.Base.Map.{Ord, ord_ℕ, ord_list, cmp_list, lookup, insert, is_eq, lookup-insert}
use Prim.Native.Nat.{compare}
use pglance.Naming.{schema_and_table_for_table_id}
use pglance.Namespace.{
  TableId, LocalMapping, local_key, or_default, group_by_local, split_groups, build_mapping,
}

-- The ids of a list that have the local name, in order.
unfoldable pub ids_at : Text → LocalMapping → List TableId → List TableId
ids_at prefix local [] = []
ids_at prefix local (id ∷ ids) =
    let rest = ids_at prefix local ids in
    elim (schema_and_table_for_table_id prefix id) [
      | err e ↦ rest
      | ok l ↦ if is_eq (cmp_list (cmp_list compare) local (local_key l)) then id ∷ rest else rest
    ]

keys_equal : (a b : LocalMapping) → is_eq (cmp_list (cmp_list compare) a b) ≡ true → a ≡ b
keys_equal a b h = (keys.cmp_eq a b).0 (is_eq-true (cmp_list (cmp_list compare) a b) h)
  where
    keys : Ord LocalMapping
    keys = ord_list

group_lem :
    (prefix : Text) (local : LocalMapping) (ids : List TableId)
    (m0 m : List (LocalMapping × List TableId))
    → group_by_local prefix ids m0 ≡ ok m
    → or_default (lookup local m) ≡ or_default (lookup local m0) ++ ids_at prefix local ids
unfolding group_by_local ids_at
group_lem prefix local [] m0 m h =
    let same : m0 ≡ m = cc in rw (same, append-nil (or_default (lookup local m)))
group_lem prefix local (id ∷ ids) m0 m h =
    let (l, el, h1) = >>=-eq-ok (schema_and_table_for_table_id prefix id) _ h in
    let old = or_default (lookup (local_key l) m0) ++ (id ∷ []) in
    let ih = group_lem prefix local ids (insert (local_key l) old m0) m h1 in
    let found = lookup-insert (local_key l) local old m0 in
    elim (Bool-cases (is_eq (cmp_list (cmp_list compare) local (local_key l)))) [
      | inl e ↦
          let same : lookup local m0 ≡ lookup (local_key l) m0 =
            ap (λ k. lookup k m0) (keys_equal local (local_key l) e) in
          rw (el, ids_at, e, same) (ih ∙ rw (found, e, append_assoc))
      | inr e ↦ rw (el, ids_at, e) (ih ∙ rw (found, e))
    ]

group-IsSorted :
    (prefix : Text) (ids : List TableId) (m0 m : Groups)
    → IsSorted linear_texts m0
    → group_by_local prefix ids m0 ≡ ok m
    → IsSorted linear_texts m
unfolding group_by_local
group-IsSorted prefix [] m0 m sorted h =
    let same : m0 ≡ m = cc in subst (IsSorted linear_texts) same sorted
group-IsSorted prefix (id ∷ ids) m0 m sorted h =
    let (l, el, h1) = >>=-eq-ok (schema_and_table_for_table_id prefix id) _ h in
    let value = or_default (lookup (local_key l) m0) ++ (id ∷ []) in
    group-IsSorted prefix ids (insert (local_key l) value m0) m
      (insert-IsSorted linear_texts (local_key l) value m0 sorted) h1

-- The group of a name, where it is not empty, is an entry, and the other way round.
module _ (prefix : Text) (ids : List TableId) (groups : Groups)
    (grouped : group_by_local prefix ids [] ≡ ok groups) where
  ids_at-mem :
      (local : LocalMapping) (group : List TableId)
      → Memᴰ (local, group) groups
      → ids_at prefix local ids ≡ group
  unfolding lookup
  ids_at-mem local group m =
      let found =
        lookup-mem linear_texts local group groups (group-IsSorted prefix ids [] groups tt grouped)
          m in
      sym (group_lem prefix local ids [] groups grouped) ∙ ap or_default found

  mem-ids_at :
      (local : LocalMapping) (id : TableId) (more : List TableId)
      → ids_at prefix local ids ≡ id ∷ more
      → Memᴰ (local, id ∷ more) groups
  unfolding lookup
  mem-ids_at local id more e =
      let group = group_lem prefix local ids [] groups grouped ∙ e in
      elim (Option-cases (lookup local groups)) [
        | inl absent ↦
            let bad : ◌≡◌ {A = List TableId} [] (id ∷ more) = rw absent at group in absurd (cc)
        | inr (found, present) ↦
            let same : found ≡ id ∷ more = rw present at group in
            mem-lookup linear_texts local (id ∷ more) groups (present ∙ ap some same)
      ]

-- What `build_mapping` makes of the listed ids, where it succeeds: an id is to be attached under a
-- local name exactly when it is the only listed id that is mapped to this name, and it is reported as
-- a conflict exactly when it is one of two or more listed ids that are mapped to one name.
pub build_mapping-groups :
    (prefix : Text) (ids conflicts : List TableId) (mapping : List (TableId × LocalMapping))
    (id : TableId) (local : LocalMapping)
    → build_mapping prefix ids ≡ ok (conflicts, mapping)
    → (Memᴰ (id, local) mapping ↔ (ids_at prefix local ids ≡ id ∷ []))
      × (Memᴰ id conflicts ↔ (
          (shared : LocalMapping) × (a : TableId) × (b : TableId) × (rest : List TableId) × (ids_at
              prefix shared ids
            ≡ a ∷ b ∷ rest)
          × Memᴰ id (a ∷ b ∷ rest)))
unfolding build_mapping
build_mapping-groups prefix ids conflicts mapping id local h =
    let (groups, eg, e) = >>=-eq-ok (group_by_local prefix ids []) _ h in
    let ec : (split_groups groups).0 ≡ conflicts = cc in
    let em : (split_groups groups).1 ≡ mapping = cc in
    rw (← ec, ← em)
      (
        (
          λ m. ids_at-mem prefix ids groups eg local (id ∷ []) (split-attached groups id local m),
          λ e. attached-split groups id local (mem-ids_at prefix ids groups eg local id [] e),
        ),
        (
          λ m.
              let (shared, a, b, rest, k, i) = split-conflict groups id m in
              (shared, a, b, rest, ids_at-mem prefix ids groups eg shared (a ∷ b ∷ rest) k, i),
          λ (shared, a, b, rest, e, i).
              conflict-split groups id shared a b rest
                (mem-ids_at prefix ids groups eg shared a (b ∷ rest) e) i,
        ),
      )
