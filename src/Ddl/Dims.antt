-- ===== src/Ddl/Dims.antt =====
-- src/fdw/ddl.rs: array types, `base[][]…`, through `qualify_type_string` and `base_type_name`.
use pglance.Base.{
  ℕ, zero, suc, ◌+◌, ◌*◌, ◌≡◌, ap, false, some, ◌∷◌, ◌++◌, Text, codes, arith, length,
  length-append, push_dims, trim, trim_start, trim_end-push_dims, strip_dims-push_dims,
  is_whitespace, IsBase,
}
use pglance.Ddl.{qualify_type_string, qualify_base, base_type_name}

-- The name of a type without array brackets, as the importer writes it: it does not begin or end
-- with a blank, and no `[]` stands at its end.
pub record IsTypeName (b : Text) : Type 0 where
  pub first : ℕ
  pub rest : Text
  pub shape : b ≡ first ∷ rest
  pub no_blank : is_whitespace first ≡ false
  pub base : IsBase b

length-push_dims : (n : ℕ) (b : Text) → length (push_dims n b) ≡ length b + 2 * n
unfolding push_dims
length-push_dims zero b = omega arith
length-push_dims (suc n) b =
    omega (arith, length-push_dims n (b ++ codes "[]"), length-append b (codes "[]"))

trim_start-push_dims :
    (n c : ℕ) (s : Text)
    → is_whitespace c ≡ false
    → trim_start (push_dims n (c ∷ s)) ≡ push_dims n (c ∷ s)
unfolding push_dims trim_start
trim_start-push_dims zero c s h = rw h
trim_start-push_dims (suc n) c s h = trim_start-push_dims n c (s ++ codes "[]") h

trim-push_dims : (n : ℕ) (b : Text) → IsTypeName b → trim (push_dims n b) ≡ push_dims n b
unfolding trim
trim-push_dims n b t = rw t.shape (
    rw (trim_start-push_dims n t.first t.rest t.no_blank)
      (rw t.shape at (trim_end-push_dims n b t.base)))

-- Whatever the number of dimensions, the brackets come off, the base alone is qualified by the
-- schema (if it is one of the extension's composite types), and the same brackets are put back.
pub qualify_type_string_dims :
    (n : ℕ) (b schema : Text)
    → IsTypeName b
    → qualify_type_string (push_dims n b) schema ≡ push_dims n (qualify_base b schema)
unfolding qualify_type_string
qualify_type_string_dims n b schema t =
    rw
      (
        trim-push_dims n b t,
        strip_dims-push_dims b t.base n (length (push_dims n b)) 0
            (omega (arith, length-push_dims n b)),
      )
      (ap (λ k. push_dims k (qualify_base b schema)) (omega arith))

-- The dependency that `order_composite_types` reads off an array type is its base.
pub base_type_name_dims :
    (n : ℕ) (b : Text) → IsTypeName b → base_type_name (push_dims n b) ≡ some b
unfolding base_type_name
base_type_name_dims n b t = rw (
  trim-push_dims n b t,
  strip_dims-push_dims b t.base n (length (push_dims n b)) 0 (omega (arith, length-push_dims n b)),
)
