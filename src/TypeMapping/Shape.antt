-- ===== src/TypeMapping/Shape.antt =====
-- src/fdw/type_mapping.rs: what `composite_type_name` loses, and what the walk makes of it.
use mathlib.Core.List.{map-append, append_assoc, Memᴰ}
use mathlib.Core.Path.{subst}
use pglance.TypeMapping.Columns.{arrow-Total, fields-Total}
use pglance.Base.{
  ℕ, zero, suc, ◌≤◌, ◌≡◌, ◌⊎◌, refl, sym, ◌∙◌, ap, Bool, true, false, none, some, List, [], ◌∷◌,
  ◌++◌, Text, codes, Result, ok, err, >>=-eq-ok, arith, inl, inr, Bool-cases, map, length, take,
}
use pglance.Base.Map.{lookup-insert, lookup-insert_self, ord_ℕ, ord_list}
use pglance.Arrow.{
  DataType, Field, Fields, boolean, list, large_list, fixed_size_list, dictionary, timestamp,
  struct, new, nil, cons, field_name,
}
use pglance.TypeMapping.{
  Tables, Mapped, array_of, composite_of, pg_type_for_type, pg_type_for_arrow, pg_type_for_fields,
  is_new, see, composite_type_name, add_composite, name_char,
}
use pglance.Naming.{to_ascii_lowercase}

-- The name before it is cut to 60 characters.
abbrev pub long_name : Text → Text → Text
long_name table path =
    map name_char (map to_ascii_lowercase (codes "lance_" ++ (table ++ (codes "_" ++ path))))

take-append_long : (n : ℕ) (a b : Text) → n ≤ length a → take n (a ++ b) ≡ take n a
take-append_long zero a b h = refl
take-append_long (suc n) [] b h = absurd (omega arith)
take-append_long (suc n) (x ∷ a) b h =
    ap (λ (l : Text). x ∷ l) (take-append_long n a b (omega arith))

long_name-append :
    (table path more : Text)
    → long_name table (path ++ more)
      ≡ long_name table path ++ map name_char (map to_ascii_lowercase more)
long_name-append table path more = simp (append_assoc, map-append)

composite_type_name-append :
    (table path more : Text)
    → 60 ≤ length (long_name table path)
    → composite_type_name table (path ++ more) ≡ composite_type_name table path
unfolding composite_type_name
composite_type_name-append table path more h =
    ap (take 60) (long_name-append table path more) ∙ take-append_long 60 (long_name table path) _ h

is_new-see : (name : Text) (t : Tables) → is_new name (see name t) ≡ false
unfolding is_new see
is_new-see name t = rw (lookup-insert_self name tt t.seen, is_new)

-- What has been seen stays seen.
abbrev Seen : Text → Tables → Type 0
Seen k t = is_new k t ≡ false

Seen-see : (k name : Text) (t : Tables) → Seen k t → Seen k (see name t)
unfolding is_new see
Seen-see k name t h = ground (arith, lookup-insert name k tt t.seen)

Seen-add_composite :
    (k name : Text) (cols : List (Text × Text)) (t : Tables)
    → Seen k t
    → Seen k (add_composite name cols t)
unfolding is_new add_composite
Seen-add_composite k name cols t h = h

array_of-Seen :
    (k : Text) (m : Mapped) (r : Text × Tables)
    → ((q : Text × Tables) → m ≡ ok q → Seen k q.1)
    → array_of m ≡ ok r
    → Seen k r.1
array_of-Seen k (ok q) r h e = ground (arith, h q refl)
array_of-Seen k (err x) r h e = cc

composite_of-Seen :
    (k name : Text) (m : Result Text (List (Text × Text) × Tables)) (r : Text × Tables)
    → ((q : List (Text × Text) × Tables) → m ≡ ok q → Seen k q.1)
    → composite_of name m ≡ ok r
    → Seen k r.1
composite_of-Seen k name (ok q) r h e = ground (arith, Seen-add_composite k name q.0 q.1 (h q refl))
composite_of-Seen k name (err x) r h e = cc

module _ (k table : Text) where
  mutual
    unfolding pg_type_for_type

    type-Seen :
        (d : DataType) (path : Text) (t : Tables) (r : Text × Tables)
        → Seen k t
        → pg_type_for_type table d path t ≡ ok r
        → Seen k r.1
    type-Seen boolean path t r s e = ground arith
    type-Seen (list elem) path t r s e =
        array_of-Seen k _ r (λ q. arrow-Seen elem (path ++ codes "_item") t q s) e
    type-Seen (large_list elem) path t r s e =
        array_of-Seen k _ r (λ q. arrow-Seen elem (path ++ codes "_item") t q s) e
    type-Seen (fixed_size_list elem n) path t r s e =
        array_of-Seen k _ r (λ q. arrow-Seen elem (path ++ codes "_item") t q s) e
    type-Seen (struct fields) path t r s e =
        let name = composite_type_name table path in
        elim (Bool-cases (is_new name t)) [
          | inl new_name ↦
              composite_of-Seen k name (pg_type_for_fields table fields path (see name t)) r
                (λ q. fields-Seen fields path (see name t) q (Seen-see k name t s))
                (rw new_name at e)
          | inr old ↦ let e' : ◌≡◌ {A = Mapped} (ok (name, t)) (ok r) = rw old at e in ground arith
        ]
    type-Seen (dictionary key value) path t r s e = type-Seen value (path ++ codes "_dict") t r s e
    type-Seen (timestamp u (some tz)) path t r s e = ground arith
    type-Seen (timestamp u none) path t r s e = ground arith
    type-Seen _ path t r s e = ground arith

    arrow-Seen :
        (f : Field) (path : Text) (t : Tables) (r : Text × Tables)
        → Seen k t
        → pg_type_for_arrow table f path t ≡ ok r
        → Seen k r.1
    arrow-Seen (new name d nullable) path t r s e = type-Seen d path t r s e

    fields-Seen :
        (fs : Fields) (path : Text) (t : Tables) (r : List (Text × Text) × Tables)
        → Seen k t
        → pg_type_for_fields table fs path t ≡ ok r
        → Seen k r.1
    fields-Seen nil path t r s e = ground arith
    fields-Seen (cons f fs) path t r s e =
        let (q, eq, e2) =
          >>=-eq-ok (pg_type_for_arrow table f (path ++ (codes "_" ++ field_name f)) t) _ e in
        let (rest, er, e3) = >>=-eq-ok (pg_type_for_fields table fs path q.1) _ e2 in
        let here = arrow-Seen f (path ++ (codes "_" ++ field_name f)) t q s eq in
        ground (arith, fields-Seen fs path q.1 rest here er)

-- The field is one of the fields of a struct.
abbrev pub HasField : Field → Fields → Type 0
HasField f nil = ⊥
HasField f (cons g gs) = (f ≡ g) ⊎ HasField f gs

module _ (table path inner : Text) (nullable : Bool) (fields : Fields) where
  abbrev own_name : Text
  own_name = composite_type_name table path

  abbrev Walk : Fields → Tables → Type 0
  Walk gs t =
      (r : List (Text × Text) × Tables) × (pg_type_for_fields table gs path t ≡ ok r)
      × Memᴰ (inner, own_name) r.0

  -- The inner struct, whose name has been seen.
  inner_struct :
      (t : Tables)
      → 60 ≤ length (long_name table path)
      → Seen own_name t
      → pg_type_for_type table (struct fields) (path ++ (codes "_" ++ inner)) t ≡ ok (own_name, t)
  unfolding pg_type_for_type
  inner_struct t h seen = rw (composite_type_name-append table path (codes "_" ++ inner) h, seen)

  fields_self_reference :
      (gs : Fields) (t : Tables)
      → 60 ≤ length (long_name table path)
      → Seen own_name t
      → HasField (new inner (struct fields) nullable) gs
      → Walk gs t
  unfolding pg_type_for_type
  fields_self_reference nil t h seen m = absurd m
  fields_self_reference (cons g gs) t h seen (inl same) =
      let (rest, er) = fields-Total table gs path t in
      subst (λ f. Walk (cons f gs) t) same
        (((inner, own_name) ∷ rest.0, rest.1), rw (inner_struct t h seen, er), Memᴰ.head refl)
  fields_self_reference (cons g gs) t h seen (inr m) =
      let (q, eq) = arrow-Total table g (path ++ (codes "_" ++ field_name g)) t in
      let kept = arrow-Seen own_name table g (path ++ (codes "_" ++ field_name g)) t q seen eq in
      let (rest, er, self) = fields_self_reference gs q.1 h kept m in
      (((field_name g, q.0) ∷ rest.0, rest.1), rw (eq, er), Memᴰ.tail self)

-- Where the path of a struct makes a name of 60 characters or more, and the name is new, a struct
-- directly among its fields, whatever the other fields are, gets the very same name: the composite
-- type that is created has a field of its own type, under that field's name.
pub nested_struct_self_reference :
    (table path inner : Text) (nullable : Bool) (fields gs : Fields) (t : Tables)
    → 60 ≤ length (long_name table path)
    → is_new (composite_type_name table path) t ≡ true
    → HasField (new inner (struct fields) nullable) gs
    → (cols : List (Text × Text)) × (t' : Tables) × (pg_type_for_type table (struct gs) path t
        ≡ ok (
          composite_type_name table path,
          add_composite (composite_type_name table path) cols t',
        ))
      × Memᴰ (inner, composite_type_name table path) cols
unfolding pg_type_for_type
nested_struct_self_reference table path inner nullable fields gs t h fresh m =
    let (r, e, self) =
      fields_self_reference table path inner nullable fields gs
        (see (composite_type_name table path) t) h (is_new-see (composite_type_name table path) t)
        m in
    (r.0, r.1, rw (fresh, e), self)

struct_result :
    (table path : Text) (fs : Fields) (t : Tables) (r : Text × Tables)
    → pg_type_for_type table (struct fs) path t ≡ ok r
    → (r.0 ≡ composite_type_name table path) × Seen (composite_type_name table path) r.1
unfolding pg_type_for_type
struct_result table path fs t r e =
    let name = composite_type_name table path in
    elim (Bool-cases (is_new name t)) [
      | inl new_name ↦
          let e' : composite_of name (pg_type_for_fields table fs path (see name t)) ≡ ok r =
            rw new_name at e in
          let (q, eq, last) = >>=-eq-ok (pg_type_for_fields table fs path (see name t)) _ e' in
          let seen = fields-Seen name table fs path (see name t) q (is_new-see name t) eq in
          let kept = Seen-add_composite name name q.0 q.1 seen in ground arith
      | inr old ↦ let e' : ◌≡◌ {A = Mapped} (ok (name, t)) (ok r) = rw old at e in ground arith
    ]

-- Two struct columns whose names differ only in the characters that are replaced, or in case, or
-- beyond the cut, share one composite type: the second column gets the fields of the first.
pub columns_share_composite :
    (table p q : Text) (n m : Bool) (fs gs : Fields) (t : Tables)
    → composite_type_name table p ≡ composite_type_name table q
    → (r : Text × Tables) → pg_type_for_arrow table (new p (struct fs) n) p t ≡ ok r
    → pg_type_for_arrow table (new q (struct gs) m) q r.1 ≡ ok r
unfolding pg_type_for_type
columns_share_composite table p q n m fs gs t same r e =
    let (named, seen) = struct_result table p fs t r e in
    rw (← same) (rw seen (ap (λ (x : Text). ok (x, r.1)) (sym named)))
