-- ===== src/Namespace/Groups.antt =====
-- src/fdw/attach_namespace.rs: the ids in the groups of `build_mapping`.
use pglance.Base.{
  ◌≡◌, refl, ◌∙◌, sym, ◌≢◌, inl, inr, Option, none, some, List, [], ◌∷◌, ◌++◌, All, Text, ok,
  >>=-eq-ok,
}
use mathlib.Core.List.{append_assoc, append-nil, Perm, perm_middle}
use mathlib.Core.List.Perm
use pglance.Base.Map.{ord_ℕ, ord_list, lookup, insert}
use pglance.Base.Sorted.{
  linear_texts, IsSorted, insert-IsSorted, lookup-After, After-trans, Order-cases, first, same,
  last,
}
use pglance.Naming.{schema_and_table_for_table_id}
use pglance.Naming.Schema.{schema_and_table_total}
use pglance.Namespace.{TableId, LocalMapping, local_key, or_default, group_by_local, split_groups}

abbrev pub Groups : Type 0
Groups = List (LocalMapping × List TableId)

-- The ids of all groups.
abbrev pub all_ids : Groups → List TableId
all_ids [] = []
all_ids ((local, ids) ∷ groups) = ids ++ all_ids groups

pub insert-all_ids :
    (local : LocalMapping) (id : TableId) (groups : Groups) (old : Option (List TableId))
    → IsSorted linear_texts groups
    → lookup local groups ≡ old
    → Perm (all_ids (insert local (or_default old ++ (id ∷ [])) groups)) (id ∷ all_ids groups)
unfolding insert lookup
insert-all_ids local id [] old sorted h = let none_old : none ≡ old = h in rw (← none_old) Perm.rfl
insert-all_ids local id ((i, ids) ∷ groups) old sorted h =
    elim (Order-cases (linear_texts.ord.cmp local i)) [
      | first e ↦
          let absent : lookup local groups ≡ none =
            lookup-After linear_texts local groups
              (After-trans linear_texts local i groups e sorted.0) in
          let none_old : none ≡ old = sym absent ∙ rw (e, lookup) at h in
          rw (e, insert) (rw (← none_old) Perm.rfl)
      | same e ↦
          let ids_old : some ids ≡ old = rw (e, lookup) at h in
          rw (e, insert) (rw (← ids_old) (rw append_assoc (perm_middle ids (all_ids groups))))
      | last e ↦
          rw (e, insert)
            (Perm.trans
              (Perm.append (Perm.refl ids)
                (insert-all_ids local id groups old sorted.1 (rw (e, lookup) at h)))
              (perm_middle ids (all_ids groups)))
    ]

pub group-all_ids :
    (prefix : Text) (ids : List TableId) (groups groups' : Groups)
    → IsSorted linear_texts groups
    → group_by_local prefix ids groups ≡ ok groups'
    → Perm (all_ids groups') (all_ids groups ++ ids)
unfolding group_by_local
group-all_ids prefix [] groups groups' sorted h =
    let done : groups ≡ groups' = cc in rw (done, append-nil (all_ids groups')) Perm.rfl
group-all_ids prefix (id ∷ ids) groups groups' sorted h =
    let (l, el, h1) = >>=-eq-ok (schema_and_table_for_table_id prefix id) _ h in
    let value = or_default (lookup (local_key l) groups) ++ (id ∷ []) in
    Perm.trans
      (group-all_ids prefix ids (insert (local_key l) value groups) groups'
        (insert-IsSorted linear_texts (local_key l) value groups sorted) h1)
      (Perm.trans
        (Perm.append (insert-all_ids (local_key l) id groups _ sorted refl) (Perm.refl ids))
        (Perm.symm (perm_middle (all_ids groups) ids)))

pub group_by_local_total :
    (prefix : Text) (ids : List TableId) (groups : Groups)
    → All (λ id. id ≢ []) ids
    → (groups' : Groups) × (group_by_local prefix ids groups ≡ ok groups')
unfolding group_by_local
group_by_local_total prefix [] groups h = (groups, refl)
group_by_local_total prefix (id ∷ ids) groups h = elim (schema_and_table_total prefix id) [
  | inl (e, f) ↦ absurd (h.0 e)
  | inr (before, last_name, schema, split, e, s, t) ↦ rw e (group_by_local_total prefix ids _ h.1)
]

-- The ids of a mapping.
abbrev pub first_ids : List (TableId × LocalMapping) → List TableId
first_ids [] = []
first_ids ((id, local) ∷ mapping) = id ∷ first_ids mapping

pub split-all_ids :
    (groups : Groups)
    → Perm ((split_groups groups).0 ++ first_ids (split_groups groups).1) (all_ids groups)
unfolding split_groups
split-all_ids [] = Perm.rfl
split-all_ids ((local, []) ∷ groups) = split-all_ids groups
split-all_ids ((local, id ∷ []) ∷ groups) =
    Perm.trans (perm_middle (split_groups groups).0 (first_ids (split_groups groups).1))
      (Perm.cons id (split-all_ids groups))
split-all_ids ((local, id ∷ jd ∷ more) ∷ groups) =
    rw append_assoc (Perm.append (Perm.refl (id ∷ jd ∷ more)) (split-all_ids groups))
