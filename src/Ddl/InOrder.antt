-- ===== src/Ddl/InOrder.antt =====
-- src/fdw/ddl.rs: the order of the types that `order_composite_types` returns.
use pglance.Base.{
  ℕ, zero, suc, ◌<◌, ◌≡◌, refl, sym, ap, ◌∙◌, true, false, Bool-cases, List-cases, inl, inr, some,
  List, [], ◌∷◌, ◌++◌, Text, length, length-append, arith, All,
}
use mathlib.Core.List.{Memᴰ, Perm, append_assoc}
use mathlib.Core.List.Perm
use pglance.Base.Sorted.{IsSorted}
use pglance.Ddl.Leftover.{
  names_order, all_types, length-all_types, Perm-length, collect_types-IsSorted, leftover-emit,
  leftover_all,
}
use mathlib.Core.Path.{subst}
use Prim.Native.Nat as NatOrdering
use Prim.Native.Nat.{compare}
use pglance.Base.Map.{insert, ord_ℕ, ord_list, cmp_list}
use pglance.Ddl.{CompositeTypeDef}
use pglance.Ddl.Order.{
  is_emitted, ByName, deps_of, all_emitted, Ordering, emit, visit, pass, restart, passes, leftover,
  collect_types, start, order_composite_types,
}
use pglance.Ddl.Settled.{Waiting, leftover-Waiting, pass-Settled}
use pglance.Ddl.Passes.{unemitted, unemitted_all, passes_end, stop_or-cases}

-- Each type stands after the types of `lance_` name that its fields use: `seen` are the names so far.
abbrev pub InOrder : List Text → List CompositeTypeDef → Type 0
InOrder seen [] = Unit
InOrder seen (def ∷ defs) =
    (all_emitted (deps_of def.fields) seen ≡ true) × InOrder (def.type_name ∷ seen) defs

abbrev pub names_onto : List Text → List CompositeTypeDef → List Text
names_onto seen [] = seen
names_onto seen (def ∷ defs) = names_onto (def.type_name ∷ seen) defs

InOrder-snoc :
    (seen : List Text) (defs : List CompositeTypeDef) (def : CompositeTypeDef)
    → InOrder seen defs
    → all_emitted (deps_of def.fields) (names_onto seen defs) ≡ true
    → InOrder seen (defs ++ (def ∷ []))
InOrder-snoc seen [] def i h = (h, tt)
InOrder-snoc seen (d ∷ defs) def i h = (i.0, InOrder-snoc (d.type_name ∷ seen) defs def i.1 h)

names_onto-snoc :
    (seen : List Text) (defs : List CompositeTypeDef) (def : CompositeTypeDef)
    → names_onto seen (defs ++ (def ∷ [])) ≡ def.type_name ∷ names_onto seen defs
names_onto-snoc seen [] def = refl
names_onto-snoc seen (d ∷ defs) def = names_onto-snoc (d.type_name ∷ seen) defs def

-- The keys of `by_name` are the names of its types.
abbrev Keyed : ByName → Type 0
Keyed b = All (λ (entry : Text × CompositeTypeDef). entry.0 ≡ entry.1.type_name) b

module _ (b : ByName) (sorted : IsSorted names_order b) where
  record Ordered (s : Ordering) : Type 0 where
    in_order : InOrder [] s.out
    names : s.emitted ≡ names_onto [] s.out
    all : Perm (s.out ++ leftover s.emitted b) (all_types b)

  emit-Ordered :
      (name : Text) (def : CompositeTypeDef) (s : Ordering)
      → name ≡ def.type_name
      → Memᴰ (name, def) b
      → is_emitted name s.emitted ≡ false
      → all_emitted (deps_of def.fields) s.emitted ≡ true
      → Ordered s
      → Ordered (emit name def s)
  emit-Ordered name def s key m e f o = record {
    in_order =
        InOrder-snoc [] s.out def o.in_order
          (ap (all_emitted (deps_of def.fields)) (sym o.names) ∙ f);
    names = rw (names_onto-snoc [] s.out def, key, o.names);
    all = rw append_assoc (
        Perm.trans
          (Perm.append (Perm.refl s.out)
            (Perm.symm (leftover-emit b name def s.emitted sorted m e)))
          o.all);
  }

  visit-Ordered :
      (name : Text) (def : CompositeTypeDef) (s : Ordering)
      → name ≡ def.type_name
      → Memᴰ (name, def) b
      → Ordered s
      → Ordered (visit name def s)
  visit-Ordered name def s key m o = elim (Bool-cases (is_emitted name s.emitted)) [
    | inl e ↦ rw e o
    | inr e ↦ elim (Bool-cases (all_emitted (deps_of def.fields) s.emitted)) [
      | inl f ↦ rw (e, f) (emit-Ordered name def s key m e f o)
      | inr f ↦ rw (e, f) o
    ]
  ]

  pass-Ordered :
      (rest : ByName) (s : Ordering)
      → Keyed rest
      → ((entry : Text × CompositeTypeDef) → Memᴰ entry rest → Memᴰ entry b)
      → Ordered s
      → Ordered (pass rest s)
  unfolding pass
  pass-Ordered [] s k entries o = o
  pass-Ordered ((name, def) ∷ rest) s k entries o =
      pass-Ordered rest (visit name def s) k.1 (λ entry m. entries entry (Memᴰ.tail m))
        (visit-Ordered name def s k.0 (entries (name, def) (Memᴰ.head refl)) o)

  -- At the end every type that is left waits.
  record Ended (s : Ordering) : Type 0 where
    ordered : Ordered s
    waiting : All (Waiting s.emitted) (leftover s.emitted b)

  full-Ended : (s : Ordering) → Ordered s → length s.out ≡ length b → Ended s
  full-Ended s o full = record {
    ordered = o;
    waiting =
        let whole = Perm-length o.all in
        let both = length-append s.out (leftover s.emitted b) in
        let types = length-all_types b in
        elim (List-cases (leftover s.emitted b)) [
          | inl e ↦ rw e tt
          | inr (def, defs, e) ↦
              let one : length (leftover s.emitted b) ≡ suc (length defs) = ap length e in
              absurd (omega arith)
        ];
  }

  pass-Ended :
      (s : Ordering)
      → Ordered (pass b (restart s))
      → (pass b (restart s)).progressed ≡ false
      → Ended (pass b (restart s))
  pass-Ended s o still =
      let (same, settled) = pass-Settled b (restart s) still in
      record {
        ordered = o;
        waiting =
            subst (λ (x : Ordering). All (Waiting x.emitted) (leftover x.emitted b)) (sym same)
              (leftover-Waiting b s.emitted settled);
      }

  passes-Ended :
      (fuel : ℕ) (s s' : Ordering) → Keyed b → Ordered s → passes fuel b s ≡ some s' → Ended s'
  unfolding passes
  passes-Ended zero s s' k o h = absurd (cc)
  passes-Ended (suc fuel) s s' k o h =
      let t = pass b (restart s) in
      let begun : Ordered (restart s) = record {
        in_order = o.in_order;
        names = o.names;
        all = o.all;
      } in
      let ot = pass-Ordered b (restart s) k (λ entry m. m) begun in
      elim (stop_or-cases (length b) t (passes fuel b t)) [
        | inl (stop, why) ↦
            let same : t ≡ s' = cc in
            subst Ended same
              (elim why [ inl still ↦ pass-Ended s ot still | inr full ↦ full-Ended t ot full ])
        | inr (p, more) ↦ passes-Ended fuel t s' k ot (sym more ∙ h)
      ]

Keyed-insert : (t : CompositeTypeDef) (b : ByName) → Keyed b → Keyed (insert t.type_name t b)
unfolding insert
Keyed-insert t [] k = (refl, tt)
Keyed-insert t ((n, def) ∷ b) k = go (cmp_list compare t.type_name n) (Keyed-insert t b k.1)
  where
    go :
        (o : NatOrdering.Ordering)
        → Keyed (insert t.type_name t b)
        → Keyed (elim o [
          | NatOrdering.Ordering.lt ↦ (t.type_name, t) ∷ (n, def) ∷ b
          | NatOrdering.Ordering.eq ↦ (t.type_name, t) ∷ b
          | NatOrdering.Ordering.gt ↦ (n, def) ∷ insert t.type_name t b
        ])
    go NatOrdering.Ordering.lt later = (refl, k)
    go NatOrdering.Ordering.eq later = (refl, k.1)
    go NatOrdering.Ordering.gt later = (k.0, later)

Keyed-collect_types :
    (ts : List CompositeTypeDef) (b : ByName) → Keyed b → Keyed (collect_types ts b)
unfolding collect_types
Keyed-collect_types [] b k = k
Keyed-collect_types (t ∷ ts) b k =
    Keyed-collect_types ts (insert t.type_name t b) (Keyed-insert t b k)

-- The ordering always ends, with one pass more than there are types as fuel. Its result is a permutation
-- of the types that are collected by name: first those that it has emitted, in which every type stands
-- after all the composite types that its fields use, and then the others, each of which uses a
-- composite type that is not among the emitted ones.
pub order_composite_types-InOrder :
    (types : List CompositeTypeDef)
    → (out : List CompositeTypeDef) × (left : List CompositeTypeDef) × (order_composite_types types
        ≡ some (out ++ left))
      × InOrder [] out
      × All (Waiting (names_onto [] out)) left
      × Perm (out ++ left) (all_types (collect_types types []))
unfolding order_composite_types
order_composite_types-InOrder types =
    let b = collect_types types [] in
    let sorted : IsSorted names_order b = collect_types-IsSorted types [] tt in
    let enough : unemitted b [] < suc (length b) = omega (arith, unemitted_all b) in
    let (s, es) = passes_end (suc (length b)) b start enough in
    let begun : Ordered b sorted start = record {
      in_order = tt;
      names = refl;
      all = rw (leftover_all b) Perm.rfl;
    } in
    let ended =
      passes-Ended b sorted (suc (length b)) start s (Keyed-collect_types types [] tt) begun es in
    (
      s.out,
      leftover s.emitted b,
      rw (es, order_composite_types),
      ended.ordered.in_order,
      subst (λ e. All (Waiting e) (leftover s.emitted b)) ended.ordered.names ended.waiting,
      ended.ordered.all,
    )
