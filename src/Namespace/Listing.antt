-- ===== src/Namespace/Listing.antt =====
-- src/fdw/attach_namespace.rs: `list_table_ids`, the breadth-first walk over the namespaces of a
-- server. The client of the namespace is a parameter.
pub mod Pages
pub mod Children
pub mod Complete
pub mod Tests
use pglance.Base.{
  ℕ, zero, suc, Bool, false, ◌||◌, Option, none, some, List, [], ◌∷◌, ◌++◌, map, Text, Result, ok,
  err, if◌then◌else◌,
}
use pglance.Base.Int.{ℤ}
use pglance.Namespace.{TableId, ids_eq}

-- `ListTablesResponse` and `ListNamespacesResponse`.
pub record Page : Type 0 where
  pub names : List Text
  pub page_token : Option Text

-- What `list_table_ids` calls of `LanceNamespace`: the namespace, the page token and the limit.
pub record Client : Type 0 where
  pub list_tables : TableId → Option Text → ℤ → Result Text Page
  pub list_namespaces : TableId → Option Text → ℤ → Result Text Page

-- The token to go on with: an absent and an empty one end the loop.
abbrev pub next_token : Option Text → Option Text
next_token none = none
next_token (some []) = none
next_token (some (c ∷ token)) = some (c ∷ token)

-- Both inner loops, on fuel, with what they do with the names of a page. `none` is out of fuel.
unfoldable pub page_loop :
    {S : Type 0}
    → (Option Text → Result Text Page)
    → (S → List Text → S)
    → ℕ
    → Option Text
    → S
    → Option (Result Text S)
page_loop request visit zero token s = none
page_loop request visit (suc fuel) token s = elim (request token) [
  | err e ↦ some (err e)
  | ok page ↦ elim (next_token page.page_token) [
    | none ↦ some (ok (visit s page.names))
    | some t ↦ page_loop request visit fuel (some t) (visit s page.names)
  ]
]

-- `let mut id = ns_id.clone(); id.push(name)`
abbrev pub child_id : TableId → Text → TableId
child_id ns name = ns ++ (name ∷ [])

unfoldable pub push_tables : TableId → List TableId → List Text → List TableId
push_tables ns out names = out ++ map (child_id ns) names

-- Membership in `visited`.
unfoldable pub contains : List TableId → TableId → Bool
contains [] id = false
contains (v ∷ visited) id = ids_eq id v || contains visited id

-- `queue` and `visited`.
pub record Frontier : Type 0 where
  pub queue : List TableId
  pub visited : List TableId

unfoldable pub visit_child : TableId → Frontier → Text → Frontier
visit_child ns f name = if contains f.visited (child_id ns name) then f else record {
  queue = f.queue ++ (child_id ns name ∷ []);
  visited = child_id ns name ∷ f.visited;
}

unfoldable pub visit_children : TableId → Frontier → List Text → Frontier
visit_children ns f [] = f
visit_children ns f (name ∷ names) = visit_children ns (visit_child ns f name) names

module _ (client : Client) (limit : ℤ) (pages : ℕ) where
  -- The loop over the queue, on fuel. `pages` is the fuel of the inner loops.
  unfoldable pub list_loop : ℕ → List TableId → Frontier → Option (Result Text (List TableId))
  list_loop zero out f = none
  list_loop (suc rounds) out f = elim f.queue [
    | [] ↦ some (ok out)
    | ns ∷ rest ↦
        elim (page_loop (λ t. client.list_tables ns t limit) (push_tables ns) pages none out) [
          | none ↦ none
          | some (err e) ↦ some (err e)
          | some (ok out') ↦
              elim (page_loop (λ t. client.list_namespaces ns t limit) (visit_children ns) pages
                none (record { queue = rest; visited = f.visited })) [
                  | none ↦ none
                  | some (err e) ↦ some (err e)
                  | some (ok f') ↦ list_loop rounds out' f'
                ]
        ]
  ]

  unfoldable pub list_table_ids : ℕ → TableId → Option (Result Text (List TableId))
  list_table_ids rounds root =
      list_loop rounds [] (record { queue = root ∷ []; visited = root ∷ [] })
