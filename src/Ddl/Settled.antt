-- ===== src/Ddl/Settled.antt =====
-- src/fdw/ddl.rs: the pass of `order_composite_types` that emits nothing.
use pglance.Base.{◌≡◌, refl, sym, ◌⊎◌, true, false, Bool-cases, inl, inr, List, [], ◌∷◌, Text, All}
use mathlib.Core.Path.{subst}
use pglance.Base.Map.{ord_ℕ, ord_list}
use pglance.Ddl.{CompositeTypeDef}
use pglance.Ddl.Order.{
  is_emitted, ByName, deps_of, all_emitted, Ordering, emit, visit, pass, leftover,
}

-- A type that uses a type which is not emitted.
abbrev pub Waiting : List Text → CompositeTypeDef → Type 0
Waiting emitted def = all_emitted (deps_of def.fields) emitted ≡ false

-- Entries of the list are emitted or wait.
abbrev Settled : List Text → ByName → Type 0
Settled emitted b =
    All
      (λ (entry : Text × CompositeTypeDef).
        (is_emitted entry.0 emitted ≡ true) ⊎ Waiting emitted entry.1)
      b

pub leftover-Waiting :
    (b : ByName) (emitted : List Text)
    → Settled emitted b
    → All (Waiting emitted) (leftover emitted b)
unfolding leftover
leftover-Waiting [] emitted h = tt
leftover-Waiting ((n, def) ∷ b) emitted (here, h) =
    let ih = leftover-Waiting b emitted h in
    elim (Bool-cases (is_emitted n emitted)) [
      | inl e ↦ rw e ih
      | inr e ↦ elim here [ inl f ↦ absurd (cc) | inr w ↦ rw e (w, ih) ]
    ]

visit-cases :
    (name : Text) (def : CompositeTypeDef) (s : Ordering)
    → ((visit name def s ≡ s) × ((is_emitted name s.emitted ≡ true) ⊎ Waiting s.emitted def))
      ⊎ (visit name def s ≡ emit name def s)
visit-cases name def s = elim (Bool-cases (is_emitted name s.emitted)) [
  | inl e ↦ inl (rw e refl, inl e)
  | inr e ↦ elim (Bool-cases (all_emitted (deps_of def.fields) s.emitted)) [
    | inl f ↦ inr (rw (e, f) refl)
    | inr f ↦ inl (rw (e, f) refl, inr f)
  ]
]

pass-progressed :
    (rest : ByName) (s : Ordering) → s.progressed ≡ true → (pass rest s).progressed ≡ true
unfolding pass
pass-progressed [] s h = h
pass-progressed ((name, def) ∷ rest) s h = elim (visit-cases name def s) [
  | inl (e, why) ↦ subst (λ x. (pass rest x).progressed ≡ true) (sym e) (pass-progressed rest s h)
  | inr e ↦
      subst (λ x. (pass rest x).progressed ≡ true) (sym e)
        (pass-progressed rest (emit name def s) refl)
]

-- A pass that emits nothing changes nothing, and all that is left waits.
pub pass-Settled :
    (rest : ByName) (s : Ordering)
    → (pass rest s).progressed ≡ false
    → (pass rest s ≡ s) × Settled s.emitted rest
unfolding pass
pass-Settled [] s h = (refl, tt)
pass-Settled ((name, def) ∷ rest) s h = elim (visit-cases name def s) [
  | inl (e, why) ↦
      let (same, settled) =
        pass-Settled rest s (subst (λ x. (pass rest x).progressed ≡ false) e h) in
      (subst (λ x. pass rest x ≡ s) (sym e) same, (why, settled))
  | inr e ↦
      let moved = pass-progressed rest (emit name def s) refl in
      let still = subst (λ x. (pass rest x).progressed ≡ false) e h in absurd (cc)
]
