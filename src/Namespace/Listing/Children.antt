-- ===== src/Namespace/Listing/Children.antt =====
-- src/fdw/attach_namespace.rs: what the children of a namespace add to `queue` and `visited`.
use pglance.Base.{
  ap, ℕ, ◌+◌, ◌≤◌, ◌<◌, ◌≡◌, refl, ◌⊎◌, inl, inr, true, false, Bool-cases, List, [], ◌∷◌, ◌++◌,
  Text, arith, if◌then◌else◌, length, length-append,
}
use mathlib.Core.List.{Memᴰ, map-append, append_assoc}
use mathlib.Core.List.Memᴰ
use pglance.Base.Map.{Ord, ord_ℕ, ord_list, is_eq, cmp_list, is_eq_refl}
use Prim.Native.Nat.{compare, Ordering}
use pglance.Namespace.{TableId, ids_eq}
use pglance.Namespace.Listing.{
  child_id, contains, Frontier, visit_child, visit_children, push_tables,
}

of_is_eq : (o : Ordering) → is_eq o ≡ true → o ≡ Ordering.eq
of_is_eq Ordering.eq h = refl
of_is_eq Ordering.lt h = cc
of_is_eq Ordering.gt h = cc

ids_eq→eq : (a b : TableId) → ids_eq a b ≡ true → a ≡ b
ids_eq→eq a b h =
    let o : Ord TableId = ord_list in
    (o.cmp_eq a b).0 (of_is_eq (cmp_list (cmp_list compare) a b) h)

ids_eq_refl : (a : TableId) → ids_eq a a ≡ true
ids_eq_refl a = is_eq_refl a

pub contains→Mem :
    (visited : List TableId) (id : TableId) → contains visited id ≡ true → Memᴰ id visited
unfolding contains
contains→Mem [] id h = cc
contains→Mem (v ∷ visited) id h = elim (Bool-cases (ids_eq id v)) [
  | inl e ↦ Memᴰ.head (ids_eq→eq id v e)
  | inr e ↦ Memᴰ.tail (contains→Mem visited id (rw e at h))
]

pub Mem→contains :
    (visited : List TableId) (id : TableId) → Memᴰ id visited → contains visited id ≡ true
unfolding contains
Mem→contains [] id m = elim m [ ]
Mem→contains (v ∷ visited) id (Memᴰ.head e) = rw e (rw (ids_eq_refl v))
Mem→contains (v ∷ visited) id (Memᴰ.tail m) = elim (Bool-cases (ids_eq id v)) [
  | inl e ↦ rw e
  | inr e ↦ rw e (Mem→contains visited id m)
]

pub visit_children-append :
    (ns : TableId) (f : Frontier) (xs ys : List Text)
    → visit_children ns (visit_children ns f xs) ys ≡ visit_children ns f (xs ++ ys)
unfolding visit_children
visit_children-append ns f [] ys = refl
visit_children-append ns f (x ∷ xs) ys = visit_children-append ns (visit_child ns f x) xs ys

pub push_tables-append :
    (ns : TableId) (out : List TableId) (xs ys : List Text)
    → push_tables ns (push_tables ns out xs) ys ≡ push_tables ns out (xs ++ ys)
unfolding push_tables
push_tables-append ns out xs ys = simp (map-append, append_assoc)

-- How one frontier follows from another by the children of `ns` among the names.
pub record Grows (ns : TableId) (names : List Text) (f g : Frontier) : Type 0 where
  pub kept : (id : TableId) → Memᴰ id f.visited → Memᴰ id g.visited
  pub kept_queue : (id : TableId) → Memᴰ id f.queue → Memᴰ id g.queue
  pub added : (name : Text) → Memᴰ name names → Memᴰ (child_id ns name) g.visited
  pub only :
      (id : TableId)
      → Memᴰ id g.visited
      → Memᴰ id f.visited ⊎ ((name : Text) × Memᴰ name names × (id ≡ child_id ns name))
  pub queued : (id : TableId) → Memᴰ id g.queue → Memᴰ id f.queue ⊎ Memᴰ id g.visited
  pub fresh : (id : TableId) → Memᴰ id g.visited → Memᴰ id f.visited ⊎ Memᴰ id g.queue

-- The namespaces of a list that are not visited yet.
unseen : List TableId → List TableId → ℕ
unseen visited [] = 0
unseen visited (id ∷ ids) = (if contains visited id then 0 else 1) + unseen visited ids

unseen-le-length : (visited ids : List TableId) → unseen visited ids ≤ length ids
unfolding unseen
unseen-le-length visited [] = omega arith
unseen-le-length visited (id ∷ ids) = ground (arith, unseen-le-length visited ids)

unseen-cons-le :
    (c : TableId) (visited ids : List TableId) → unseen (c ∷ visited) ids ≤ unseen visited ids
unfolding unseen contains
unseen-cons-le c visited [] = omega arith
unseen-cons-le c visited (id ∷ ids) = ground (arith, unseen-cons-le c visited ids)

unseen-cons-lt :
    (c : TableId) (visited ids : List TableId)
    → contains visited c ≡ false
    → Memᴰ c ids
    → unseen (c ∷ visited) ids < unseen visited ids
unfolding unseen contains
unseen-cons-lt c visited [] new m = elim m [ ]
unseen-cons-lt c visited (id ∷ ids) new (Memᴰ.head e) =
    rw (← e) (ground (arith, unseen-cons-le c visited ids, ids_eq_refl c))
unseen-cons-lt c visited (id ∷ ids) new (Memᴰ.tail m) =
    ground (arith, unseen-cons-lt c visited ids new m)

-- The queue and what may still come to it.
pub work : List TableId → Frontier → ℕ
work ids f = unseen f.visited ids + length f.queue

pub work-pop :
    (ids : List TableId) (f : Frontier) (ns : TableId) (rest : List TableId)
    → f.queue ≡ ns ∷ rest
    → work ids (record { queue = rest; visited = f.visited }) + 1 ≡ work ids f
unfolding work
work-pop ids f ns rest q = omega (arith, ap length q)

pub work-one : (ids : List TableId) (f : Frontier) → work ids f ≤ length ids + length f.queue
unfolding work
work-one ids f = omega (arith, unseen-le-length f.visited ids)

module _ (ns : TableId) where
  visit_child-Grows : (f : Frontier) (name : Text) → Grows ns (name ∷ []) f (visit_child ns f name)
  unfolding visit_child
  visit_child-Grows f name = elim (Bool-cases (contains f.visited (child_id ns name))) [
    | inl old ↦ rw old (record {
      kept = λ id m. m;
      kept_queue = λ id m. m;
      added = λ n m. rw (Memᴰ.eq_of_singleton m) (contains→Mem f.visited (child_id ns name) old);
      only = λ id m. inl m;
      queued = λ id m. inl m;
      fresh = λ id m. inl m;
    })
    | inr new ↦ rw new (record {
      kept = λ id m. Memᴰ.tail m;
      kept_queue = λ id m. Memᴰ.append_left (child_id ns name ∷ []) m;
      added = λ n m. rw (Memᴰ.eq_of_singleton m) (Memᴰ.head refl);
      only = λ id m. elim (Memᴰ.cases_cons m) [
        | inl e ↦ inr (name, Memᴰ.head refl, e)
        | inr t ↦ inl t
      ];
      queued = λ id m. elim (Memᴰ.append_cases f.queue m) [
        | inl q ↦ inl q
        | inr e ↦ inr (Memᴰ.head (Memᴰ.eq_of_singleton e))
      ];
      fresh = λ id m. elim (Memᴰ.cases_cons m) [
        | inl e ↦ inr (Memᴰ.append_right f.queue (Memᴰ.head e))
        | inr t ↦ inl t
      ];
    })
  ]

  pub visit_children-Grows :
      (names : List Text) (f : Frontier) → Grows ns names f (visit_children ns f names)
  unfolding visit_children
  visit_children-Grows [] f = record {
    kept = λ id m. m;
    kept_queue = λ id m. m;
    added = λ n m. elim m [ ];
    only = λ id m. inl m;
    queued = λ id m. inl m;
    fresh = λ id m. inl m;
  }
  visit_children-Grows (name ∷ names) f =
      let one = visit_child-Grows f name in
      let more = visit_children-Grows names (visit_child ns f name) in
      record {
        kept = λ id m. more.kept id (one.kept id m);
        kept_queue = λ id m. more.kept_queue id (one.kept_queue id m);
        added = λ n m. elim (Memᴰ.cases_cons m) [
          | inl e ↦ more.kept _ (one.added n (Memᴰ.head e))
          | inr t ↦ more.added n t
        ];
        only = λ id m. elim (more.only id m) [
          | inr (n, t, e) ↦ inr (n, Memᴰ.tail t, e)
          | inl v ↦ elim (one.only id v) [
            | inl old ↦ inl old
            | inr (n, t, e) ↦ inr (n, Memᴰ.head (Memᴰ.eq_of_singleton t), e)
          ]
        ];
        queued = λ id m. elim (more.queued id m) [
          | inr v ↦ inr v
          | inl q ↦ elim (one.queued id q) [ inl old ↦ inl old | inr v ↦ inr (more.kept id v) ]
        ];
        fresh = λ id m. elim (more.fresh id m) [
          | inr q ↦ inr q
          | inl v ↦ elim (one.fresh id v) [ inl old ↦ inl old | inr q ↦ inr (more.kept_queue id q) ]
        ];
      }

  visit_child-work :
      (ids : List TableId) (f : Frontier) (name : Text)
      → Memᴰ (child_id ns name) ids
      → work ids (visit_child ns f name) ≤ work ids f
  unfolding work visit_child
  visit_child-work ids f name m = elim (Bool-cases (contains f.visited (child_id ns name))) [
    | inl old ↦ rw old (omega arith)
    | inr new ↦ rw new (
        omega (
          arith,
          unseen-cons-lt (child_id ns name) f.visited ids new m,
          length-append f.queue (child_id ns name ∷ []),
        ))
  ]

  -- A round queues no more than it takes off what is still to come.
  pub visit_children-work :
      (ids : List TableId) (names : List Text) (f : Frontier)
      → ((name : Text) → Memᴰ name names → Memᴰ (child_id ns name) ids)
      → work ids (visit_children ns f names) ≤ work ids f
  unfolding visit_children
  visit_children-work ids [] f inside = omega arith
  visit_children-work ids (name ∷ names) f inside = omega (
    arith,
    visit_child-work ids f name (inside name (Memᴰ.head refl)),
    visit_children-work ids names (visit_child ns f name) (λ n m. inside n (Memᴰ.tail m)),
  )
