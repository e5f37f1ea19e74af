-- ===== src/Ddl/Passes.antt =====
-- src/fdw/ddl.rs: the passes of `order_composite_types` come to an end.
use pglance.Base.{
  ℕ, zero, suc, ◌+◌, ◌≤◌, ◌<◌, ◌≡◌, refl, ap, ◌∙◌, Bool, true, false, Bool-cases, ◌⊎◌, inl, inr,
  Option, some, List, [], ◌∷◌, Text, ◌==◌, if◌then◌else◌, text_eq_iff, ==_iff, length, arith,
}
use pglance.Base.Map.{ord_ℕ, ord_list}
use pglance.Ddl.{CompositeTypeDef}
use pglance.Ddl.Order.{
  is_emitted, ByName, deps_of, all_emitted, Ordering, visit, pass, restart, stop_or, passes,
}

-- The entries that are not emitted yet.
abbrev pub unemitted : ByName → List Text → ℕ
unemitted [] emitted = 0
unemitted ((name, def) ∷ rest) emitted =
    let k = unemitted rest emitted in if is_emitted name emitted then k else suc k

unemitted_mono : (m : Text) (b : ByName) (e : List Text) → unemitted b (m ∷ e) ≤ unemitted b e
unfolding is_emitted
unemitted_mono m [] e = omega arith
unemitted_mono m ((name, def) ∷ b) e = ground (arith, unemitted_mono m b e)

-- `name` is the name of an entry.
abbrev Named : Text → ByName → Type 0
Named name [] = ⊥
Named name ((n, def) ∷ b) = (name ≡ n) ⊎ Named name b

unemitted_less :
    (m : Text) (b : ByName) (e : List Text)
    → Named m b
    → is_emitted m e ≡ false
    → unemitted b (m ∷ e) < unemitted b e
unfolding is_emitted
unemitted_less m [] e p h = absurd p
unemitted_less m ((name, def) ∷ b) e (inl p) h =
    ground (arith, text_eq_iff m name, unemitted_mono m b e)
unemitted_less m ((name, def) ∷ b) e (inr p) h = ground (arith, unemitted_less m b e p h)

abbrev AllNamed : ByName → ByName → Type 0
AllNamed b [] = Unit
AllNamed b ((n, def) ∷ rest) = Named n b × AllNamed b rest

AllNamed-cons :
    (b rest : ByName) (entry : Text × CompositeTypeDef)
    → AllNamed b rest
    → AllNamed (entry ∷ b) rest
AllNamed-cons b [] entry h = tt
AllNamed-cons b ((n, def) ∷ rest) (m, def') h = (inr h.0, AllNamed-cons b rest (m, def') h.1)

AllNamed-refl : (b : ByName) → AllNamed b b
AllNamed-refl [] = tt
AllNamed-refl ((n, def) ∷ b) = (inl refl, AllNamed-cons b b (n, def) (AllNamed-refl b))

abbrev bit : Bool → ℕ
bit true = 1
bit false = 0

visit-unemitted :
    (b : ByName) (name : Text) (def : CompositeTypeDef) (s : Ordering)
    → Named name b
    → unemitted b (visit name def s).emitted + bit (visit name def s).progressed
      ≤ unemitted b s.emitted + bit s.progressed
visit-unemitted b name def s h = elim (Bool-cases (is_emitted name s.emitted)) [
  | inl e ↦ rw e (omega arith)
  | inr e ↦ elim (Bool-cases (all_emitted (deps_of def.fields) s.emitted)) [
    | inl f ↦ rw (e, f) (omega (arith, unemitted_less name b s.emitted h e))
    | inr f ↦ rw (e, f) (omega arith)
  ]
]

pass-unemitted :
    (b rest : ByName) (s : Ordering)
    → AllNamed b rest
    → unemitted b (pass rest s).emitted + bit (pass rest s).progressed
      ≤ unemitted b s.emitted + bit s.progressed
unfolding pass
pass-unemitted b [] s h = omega arith
pass-unemitted b ((name, def) ∷ rest) s h =
    omega (arith, pass-unemitted b rest (visit name def s) h.1, visit-unemitted b name def s h.0)

-- The loop stops after a pass that emitted nothing, or when all types are out.
pub stop_or-cases :
    (n : ℕ) (s : Ordering) (more : Option Ordering)
    → ((stop_or n s more ≡ some s) × ((s.progressed ≡ false) ⊎ (length s.out ≡ n)))
      ⊎ ((s.progressed ≡ true) × (stop_or n s more ≡ more))
stop_or-cases n s more = elim (Bool-cases s.progressed) [
  | inl e ↦ elim (Bool-cases (length s.out == n)) [
    | inl f ↦ inl (rw (e, f) refl, inr ((==_iff (length s.out) n).0 f))
    | inr f ↦ inr (e, rw (e, f) refl)
  ]
  | inr e ↦ inl (rw e refl, inl e)
]

-- Every pass that goes on has emitted a type.
pub passes_end :
    (fuel : ℕ) (b : ByName) (s : Ordering)
    → unemitted b s.emitted < fuel
    → (s' : Ordering) × (passes fuel b s ≡ some s')
unfolding passes
passes_end zero b s h = absurd (omega arith)
passes_end (suc fuel) b s h =
    let s' = pass b (restart s) in
    let less = pass-unemitted b b (restart s) (AllNamed-refl b) in
    elim (stop_or-cases (length b) s' (passes fuel b s')) [
      | inl (stop, why) ↦ (s', stop)
      | inr (p, more) ↦
          let fewer : unemitted b s'.emitted < fuel = omega (arith, less, ap bit p) in
          let (t, et) = passes_end fuel b s' fewer in (t, more ∙ et)
    ]

pub unemitted_all : (b : ByName) → unemitted b [] ≤ length b
unfolding is_emitted
unemitted_all [] = omega arith
unemitted_all ((n, def) ∷ b) = omega (arith, unemitted_all b)
