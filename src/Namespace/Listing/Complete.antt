-- ===== src/Namespace/Listing/Complete.antt =====
-- src/fdw/attach_namespace.rs: `list_table_ids` lists what can be reached from the root.
use pglance.Base.{
  sym, List-cases, ℕ, zero, suc, ◌+◌, ◌<◌, ◌≡◌, refl, ◌⊎◌, inl, inr, none, some, List, [], ◌∷◌, map,
  Text, ok, arith, length,
}
use pglance.Base.Int.{ℤ}
use mathlib.Core.Path.{subst}
use mathlib.Core.List.{Memᴰ}
use mathlib.Core.List.Memᴰ
use pglance.Namespace.{TableId}
use pglance.Namespace.Listing.{
  Client, child_id, push_tables, Frontier, visit_children, list_loop, list_table_ids,
}
use pglance.Namespace.Listing.Pages.{Served, page_loop-Served}
use pglance.Namespace.Listing.Children.{
  visit_children-append, push_tables-append, visit_children-Grows, work, visit_children-work,
  work-pop, work-one,
}

-- What a server holds: tables and children by namespace, each served in a bounded number of pages,
-- and a finite list of namespaces that has the root and all children.
pub record Catalog (client : Client) (limit : ℤ) (root : TableId) : Type 0 where
  pub tables : TableId → List Text
  pub children : TableId → List Text
  pub all : List TableId
  pub pages : ℕ
  pub has_root : Memᴰ root all
  pub closed :
      (ns : TableId) (name : Text)
      → Memᴰ ns all
      → Memᴰ name (children ns)
      → Memᴰ (child_id ns name) all
  pub serves_tables :
      (ns : TableId)
      → Memᴰ ns all
      → Served (λ t. client.list_tables ns t limit) pages none (tables ns)
  pub serves_children :
      (ns : TableId)
      → Memᴰ ns all
      → Served (λ t. client.list_namespaces ns t limit) pages none (children ns)

-- The namespaces below the root.
pub data Reach (children : TableId → List Text) (root : TableId) : TableId → Type 0 where
  here : Reach children root root
  below :
      {ns id : TableId} (name : Text)
      → Reach children root ns
      → Memᴰ name (children ns)
      → id ≡ child_id ns name
      → Reach children root id

-- A table of a namespace below the root.
abbrev pub Listed : (TableId → List Text) → (TableId → List Text) → TableId → TableId → Type 0
Listed tables children root id =
    (ns : TableId) × (name : Text) × Reach children root ns
    × Memᴰ name (tables ns)
    × (id ≡ child_id ns name)

module _ {client : Client} {limit : ℤ} {root : TableId} (server : Catalog client limit root) where
  open server use {tables, children, all, pages, has_root, closed, serves_tables, serves_children}

  record Inv (out : List TableId) (f : Frontier) : Type 0 where
    source : Memᴰ root f.visited
    queued : (id : TableId) → Memᴰ id f.queue → Memᴰ id f.visited
    sound : (id : TableId) → Memᴰ id f.visited → Reach children root id
    inside : (id : TableId) → Memᴰ id f.visited → Memᴰ id all
    spread :
        (ns : TableId) (name : Text)
        → Memᴰ ns f.visited
        → Memᴰ name (children ns)
        → Memᴰ ns f.queue ⊎ Memᴰ (child_id ns name) f.visited
    listed : (id : TableId) → Memᴰ id out → Listed tables children root id
    full :
        (ns : TableId) (name : Text)
        → Memᴰ ns f.visited
        → Memᴰ name (tables ns)
        → Memᴰ ns f.queue ⊎ Memᴰ (child_id ns name) out

  abbrev start : Frontier
  start = record { queue = root ∷ []; visited = root ∷ [] }

  Inv-start : Inv [] start
  Inv-start = record {
    source = Memᴰ.head refl;
    queued = λ id m. m;
    sound = λ id m. rw (Memᴰ.eq_of_singleton m) here;
    inside = λ id m. rw (Memᴰ.eq_of_singleton m) has_root;
    spread = λ ns name m c. inl m;
    listed = λ id m. elim m [ ];
    full = λ ns name m c. inl m;
  }

  abbrev next : TableId → List TableId → Frontier → Frontier
  next ns rest f = visit_children ns (record { queue = rest; visited = f.visited }) (children ns)

  Inv-next :
      (out : List TableId) (f : Frontier) (ns : TableId) (rest : List TableId)
      → f.queue ≡ ns ∷ rest
      → Inv out f
      → Inv (push_tables ns out (tables ns)) (next ns rest f)
  unfolding push_tables
  Inv-next out f ns rest q inv =
      let g =
        visit_children-Grows ns (children ns) (record { queue = rest; visited = f.visited }) in
      let here_queued : Memᴰ ns f.queue = rw q (Memᴰ.head refl) in
      let here_visited : Memᴰ ns f.visited = inv.queued ns here_queued in
      let here_reached = inv.sound ns here_visited in
      record {
        source = g.kept root inv.source;
        queued = λ id m. elim (g.queued id m) [
          | inl old ↦ g.kept id (inv.queued id (rw q (Memᴰ.tail old)))
          | inr v ↦ v
        ];
        sound = λ id m. elim (g.only id m) [
          | inl old ↦ inv.sound id old
          | inr (name, c, e) ↦ below name here_reached c e
        ];
        inside = λ id m. elim (g.only id m) [
          | inl old ↦ inv.inside id old
          | inr (name, c, e) ↦ rw e (closed ns name (inv.inside ns here_visited) c)
        ];
        spread = λ u name m c. elim (g.fresh u m) [
          | inr waits ↦ inl waits
          | inl old ↦ elim (inv.spread u name old c) [
            | inr v ↦ inr (g.kept (child_id u name) v)
            | inl waits ↦ elim (still u waits) [
              | inr later ↦ inl (g.kept_queue u later)
              | inl e ↦ inr (
                  subst (λ w. Memᴰ (child_id w name) (next ns rest f).visited) (sym e)
                    (g.added name (subst (λ w. Memᴰ name (children w)) e c)))
            ]
          ]
        ];
        listed = λ id m. elim (Memᴰ.append_cases out m) [
          | inl old ↦ inv.listed id old
          | inr new ↦
              let (name, t, e) = Memᴰ.of_map (child_id ns) (tables ns) new in
              (ns, name, here_reached, t, sym e)
        ];
        full = λ u name m t. elim (g.fresh u m) [
          | inr waits ↦ inl waits
          | inl old ↦ elim (inv.full u name old t) [
            | inr o ↦ inr (Memᴰ.append_left (map (child_id ns) (tables ns)) o)
            | inl waits ↦ elim (still u waits) [
              | inr later ↦ inl (g.kept_queue u later)
              | inl e ↦ inr (
                  Memᴰ.append_right out (
                    subst (λ w. Memᴰ (child_id w name) (map (child_id ns) (tables ns))) (sym e)
                      (Memᴰ.map (child_id ns) (subst (λ w. Memᴰ name (tables w)) e t))))
            ]
          ]
        ];
      }
    where
      still : (u : TableId) → Memᴰ u f.queue → (u ≡ ns) ⊎ Memᴰ u rest
      still u m = Memᴰ.cases_cons (subst (Memᴰ u) q m)

  -- With an empty queue the visited namespaces are the reachable ones.
  all_visited :
      (out : List TableId) (f : Frontier) (id : TableId)
      → Inv out f
      → f.queue ≡ []
      → Reach children root id
      → Memᴰ id f.visited
  all_visited out f id inv empty here = inv.source
  all_visited out f id inv empty (below {ns} name r c e) =
      elim (inv.spread ns name (all_visited out f ns inv empty r) c) [
        | inl waits ↦ absurd (Memᴰ.not-nil (subst (Memᴰ ns) empty waits))
        | inr v ↦ Memᴰ.cast e v
      ]

  abbrev Exact : List TableId → Type 0
  Exact out =
      (id : TableId)
      → (Memᴰ id out → Listed tables children root id)
        × (Listed tables children root id → Memᴰ id out)

  Exact-end : (out : List TableId) (f : Frontier) → Inv out f → f.queue ≡ [] → Exact out
  Exact-end out f inv empty id = (
    inv.listed id,
    λ (ns, name, r, t, e). elim (inv.full ns name (all_visited out f ns inv empty r) t) [
      | inl waits ↦ absurd (Memᴰ.not-nil (subst (Memᴰ ns) empty waits))
      | inr o ↦ Memᴰ.cast e o
    ],
  )

  one_round :
      (rounds : ℕ) (out : List TableId) (f : Frontier) (ns : TableId) (rest : List TableId)
      → f.queue ≡ ns ∷ rest
      → Memᴰ ns all
      → list_loop client limit pages (suc rounds) out f
        ≡ list_loop client limit pages rounds (push_tables ns out (tables ns)) (next ns rest f)
  unfolding list_loop
  one_round rounds out f ns rest q m =
      let t =
        page_loop-Served (λ t. client.list_tables ns t limit) (push_tables ns)
          (push_tables-append ns) pages none (tables ns) out (serves_tables ns m) in
      let c =
        page_loop-Served (λ t. client.list_namespaces ns t limit) (visit_children ns)
          (visit_children-append ns) pages none (children ns)
          (record { queue = rest; visited = f.visited }) (serves_children ns m) in
      rw (q, list_loop) (rw (t, list_loop) (rw (c, list_loop)))

  loop_lem :
      (rounds : ℕ) (out : List TableId) (f : Frontier)
      → Inv out f
      → work all f < rounds
      → (end : List TableId) × (list_loop client limit pages rounds out f ≡ some (ok end))
        × Exact end
  loop_lem zero out f inv enough = absurd (omega arith)
  loop_lem (suc rounds) out f inv enough = elim (List-cases f.queue) [
    | inl empty ↦ (out, unfold list_loop in rw (empty, list_loop), Exact-end out f inv empty)
    | inr (ns, rest, q) ↦
        let m = inv.inside ns (inv.queued ns (rw q (Memᴰ.head refl))) in
        let fewer =
          visit_children-work ns all (children ns) (record { queue = rest; visited = f.visited })
            (λ name c. closed ns name m c) in
        let less : work all (next ns rest f) < rounds =
          omega (arith, fewer, work-pop all f ns rest q) in
        let (end, e, exact) =
          loop_lem rounds (push_tables ns out (tables ns)) (next ns rest f)
            (Inv-next out f ns rest q inv) less in
        (end, rw (one_round rounds out f ns rest q m) e, exact)
  ]

-- On a server that serves finitely many namespaces, each in a bounded number of pages, the listing
-- ends without an error for every root and page limit, and the result has exactly the tables of the
-- namespaces that can be reached from the root: every one of them is listed, and nothing else is.
pub list_table_ids-Listed :
    (client : Client) (limit : ℤ) (root : TableId) (server : Catalog client limit root) (rounds : ℕ)
    → length server.all + 1 < rounds
    → (out : List TableId) × (list_table_ids client limit server.pages rounds root ≡ some (ok out))
      × ((id : TableId)
          → (Memᴰ id out → Listed server.tables server.children root id)
            × (Listed server.tables server.children root id → Memᴰ id out))
unfolding list_table_ids
list_table_ids-Listed client limit root server rounds enough =
    loop_lem server rounds [] (start server) (Inv-start server)
      (omega (arith, work-one server.all (start server)))
