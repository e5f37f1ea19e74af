-- ===== src/Ddl/Order.antt =====
-- src/fdw/ddl.rs: `order_composite_types`, which puts composite types after those that they use.
use pglance.Base.{
  ℕ, zero, suc, Bool, true, false, ◌||◌, ◌&&◌, Option, none, some, List, [], ◌∷◌, ◌++◌, Text, codes,
  ◌==◌, not, if◌then◌else◌, text_eq, starts_with, length,
}
use pglance.Base.Map.{insert, ord_ℕ, ord_list}
use pglance.Ddl.{CompositeTypeDef, base_type_name}

-- `emitted`: the names for which it holds `true`.
unfoldable pub is_emitted : Text → List Text → Bool
is_emitted name [] = false
is_emitted name (m ∷ emitted) = text_eq m name || is_emitted name emitted

abbrev pub ByName : Type 0
ByName = List (Text × CompositeTypeDef)

-- `filter_map(base_type_name).filter(|t| t.starts_with("lance_"))`
unfoldable pub deps_of : List (Text × Text) → List Text
deps_of [] = []
deps_of ((n, ty) ∷ fields) =
    let rest = deps_of fields in
    elim (base_type_name ty) [
      | none ↦ rest
      | some base ↦ if starts_with base (codes "lance_") then base ∷ rest else rest
    ]

abbrev pub all_emitted : List Text → List Text → Bool
all_emitted [] emitted = true
all_emitted (d ∷ deps) emitted = is_emitted d emitted && all_emitted deps emitted

pub record Ordering : Type 0 where
  pub emitted : List Text
  pub out : List CompositeTypeDef
  pub progressed : Bool

abbrev pub emit : Text → CompositeTypeDef → Ordering → Ordering
emit name def s = record {
  emitted = name ∷ s.emitted;
  out = s.out ++ (def ∷ []);
  progressed = true;
}

abbrev pub visit : Text → CompositeTypeDef → Ordering → Ordering
visit name def s =
    if is_emitted name s.emitted
    then s
    else if all_emitted (deps_of def.fields) s.emitted
    then emit name def s
    else s

-- The `for` loop over `by_name`.
unfoldable pub pass : ByName → Ordering → Ordering
pass [] s = s
pass ((name, def) ∷ rest) s = pass rest (visit name def s)

abbrev pub restart : Ordering → Ordering
restart s = record { emitted = s.emitted; out = s.out; progressed = false }

-- `if !progressed { break; } if out.len() == by_name.len() { break; }`
abbrev pub stop_or : ℕ → Ordering → Option Ordering → Option Ordering
stop_or n s more = if not s.progressed then some s else if length s.out == n then some s else more

-- The outer loop, on fuel: `none` is out of fuel.
unfoldable pub passes : ℕ → ByName → Ordering → Option Ordering
passes zero by_name s = none
passes (suc fuel) by_name s =
    let s' = pass by_name (restart s) in
    let more = passes fuel by_name s' in stop_or (length by_name) s' more

-- The last loop: what was not emitted.
unfoldable pub leftover : List Text → ByName → List CompositeTypeDef
leftover emitted [] = []
leftover emitted ((name, def) ∷ rest) =
    let others = leftover emitted rest in if is_emitted name emitted then others else def ∷ others

unfoldable pub collect_types : List CompositeTypeDef → ByName → ByName
collect_types [] by_name = by_name
collect_types (t ∷ ts) by_name = collect_types ts (insert t.type_name t by_name)

abbrev pub start : Ordering
start = record { emitted = []; out = []; progressed = false }

unfoldable pub order_composite_types : List CompositeTypeDef → Option (List CompositeTypeDef)
order_composite_types types =
    let by_name = collect_types types [] in
    elim (passes (suc (length by_name)) by_name start) [
      | none ↦ none
      | some s ↦ some (s.out ++ leftover s.emitted by_name)
    ]
