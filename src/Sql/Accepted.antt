-- ===== src/Sql/Accepted.antt =====
-- src/lib.rs: `lance_fdw_validator` against the options that the extension writes and reads.
use pglance.Base.{
  ℕ, ◌≡◌, refl, ◌↔◌, Bool, true, false, ◌||◌, Bool-cases, inl, inr, Option, none, some, [], ◌∷◌,
  ◌++◌, Text, ok, ◌==◌, All, map, text_eq, starts_with,
}
use pglance.Base.Int.{ℤ}
use pglance.Namespace.{TableId, Services, AttachContext, table_options}
use pglance.Namespace.Whole.{Connections, import_options}
use pglance.Options.{Options}
use pglance.Sql.{key_of, is_supported, lance_fdw_validator}

-- An option as PostgreSQL hands it to a validator.
abbrev pub argument : Text × Text → Text
argument (key, value) = key ++ (b'=' ∷ value)

abbrev pub has_equals : Text → Bool
has_equals [] = false
has_equals (c ∷ s) = c == b'=' || has_equals s

abbrev pub IsKey : Text → Type 0
IsKey key = has_equals key ≡ false

key_of-argument : (key value : Text) → IsKey key → key_of (argument (key, value)) ≡ some key
unfolding key_of
key_of-argument [] value h = refl
key_of-argument (c ∷ key) value h = elim (Bool-cases (c == b'=')) [
  | inl e ↦ let bad = rw e at h in absurd (cc)
  | inr e ↦ rw (e, key_of-argument key value (rw e at h)) refl
]

-- The validator lets through exactly the options with supported keys, whatever their values are, `=`
-- included, when no key has a `=`.
pub lance_fdw_validator-All :
    (options : Options)
    → All (λ o. IsKey o.0) options
    → (lance_fdw_validator (map argument options) ≡ ok tt)
      ↔ All (λ o. is_supported o.0 ≡ true) options
unfolding lance_fdw_validator
lance_fdw_validator-All [] h = (λ _. tt, λ _. refl)
lance_fdw_validator-All ((key, value) ∷ options) h =
    let ih = lance_fdw_validator-All options h.1 in
    let found = key_of-argument key value h.0 in
    elim (Bool-cases (is_supported key)) [
      | inl e ↦ (
        λ p. (e, ih.0 (rw (found, lance_fdw_validator, e) at p)),
        λ q. rw (found, lance_fdw_validator, e) (ih.1 q.1),
      )
      | inr e ↦
          (λ p. let bad = rw (found, lance_fdw_validator, e) at p in absurd (cc), λ q. absurd (cc))
    ]

module _ (conn : Connections) (pages rounds : ℕ) (srv : Services) where
  table_options-accepted :
      (ctx : AttachContext) (id : TableId) (batch_size : Option ℤ)
      → lance_fdw_validator
          (map argument (table_options srv (record ctx { batch_size = batch_size }) id))
        ≡ ok tt
  unfolding text_eq starts_with
  table_options-accepted ctx id none =
      (lance_fdw_validator-All (table_options srv (record ctx { batch_size = none }) id)
          (refl, tt)).1
        (refl, tt)
  table_options-accepted ctx id (some bs) =
      (lance_fdw_validator-All (table_options srv (record ctx { batch_size = some bs }) id)
          (refl, (refl, tt))).1
        (refl, (refl, tt))

  import_options-accepted :
      (uri : Text) (batch_size : Option ℤ)
      → lance_fdw_validator (map argument (import_options conn pages rounds srv uri batch_size))
        ≡ ok tt
  unfolding text_eq starts_with
  import_options-accepted uri none =
      (lance_fdw_validator-All (import_options conn pages rounds srv uri none) (refl, tt)).1
        (refl, tt)
  import_options-accepted uri (some bs) =
      (lance_fdw_validator-All (import_options conn pages rounds srv uri (some bs))
          (refl, (refl, tt))).1
        (refl, (refl, tt))

  -- The extension's own statements pass its validator: the options of the foreign tables that
  -- `attach_one` and `import_lance_table` create are accepted, for every table id, URI and batch size,
  -- whatever characters they have.
  pub lance_fdw_validator-written :
      (ctx : AttachContext) (id : TableId) (uri : Text) (batch_size : Option ℤ)
      → (lance_fdw_validator (map argument (table_options srv ctx id)) ≡ ok tt)
        × (lance_fdw_validator (map argument (import_options conn pages rounds srv uri batch_size))
            ≡ ok tt)
  lance_fdw_validator-written ctx id uri batch_size =
      (table_options-accepted ctx id ctx.batch_size, import_options-accepted uri batch_size)
