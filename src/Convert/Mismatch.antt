-- ===== src/Convert/Mismatch.antt =====
-- src/fdw/convert.rs: the arms of `arrow_value_to_datum` for plain values, after the check of their
-- type.
use pglance.Base.{
  ℕ, ◌-◌, ◌^◌, ltb, ◌≡◌, refl, ◌≢◌, Bool, false, Bool-cases, inl, inr, Option, none, some, List,
  Text, codes, ok, err, ◌>>=◌, ◌==◌, arith,
}
use pglance.Base.Int.{ℤ, pos_part}
use pglance.Convert.{
  Conv, ConvertErrorKind, fail, ok_or, panic, type_mismatch, unsupported_type, value_out_of_range,
  internal, Catalog, require_target_oid, validate_arrow_type_for_pg_oid,
}
use pglance.Convert.Arrays
use pglance.Convert.Arrays.{
  PrimType, StringKind, BinaryKind, ListKind, Array, Rows, Columns, boolean_array, primitive_array,
  string_array, binary_array, list_array, struct_array, dictionary_array, map_array, other_array,
  no_rows, null_row, row, no_columns, column, len, data_type, prim_data_type, fields_of, WellFormed,
  WellFormedRows, WellFormedColumns,
}
use pglance.Convert.External.{External}
use pglance.Convert.Scalars.{
  pg_micros, unix_micros, not_null, uint64_to_datum, primitive_to_datum, string_to_datum,
  binary_to_datum,
}

-- `m` is not a type mismatch, whatever the message.
pub record Matching {ℓ} {A : Type ℓ} (m : Conv A) : Type ℓ where
  pub at : (message : Text) → m ≢ fail type_mismatch message

module _ {ℓ} {A : Type ℓ} where
  pub Matching-ok : (a : A) → Matching {A = A} (ok a)
  Matching-ok a = record { at = λ message e. cc }

  pub Matching-panic : Matching {A = A} (err panic)
  Matching-panic = record { at = λ message e. cc }

  pub Matching-fail :
      (kind : ConvertErrorKind) (m : Text) → kind ≢ type_mismatch → Matching {A = A} (fail kind m)
  Matching-fail kind m h = record { at = λ message e. h (cc) }

  pub Matching-ok_or :
      (o : Option A) (kind : ConvertErrorKind) (m : Text)
      → kind ≢ type_mismatch
      → Matching (ok_or o kind m)
  Matching-ok_or none kind m h = Matching-fail kind m h
  Matching-ok_or (some a) kind m h = Matching-ok a

module _ {ℓ κ} {A : Type ℓ} {B : Type κ} where
  pub Matching-bind :
      (m : Conv A) (f : A → Conv B)
      → Matching m
      → ((a : A) → m ≡ ok a → Matching (f a))
      → Matching (m >>= f)
  Matching-bind (ok a) f h k = k a refl
  Matching-bind (err e) f h k = record { at = λ message p. h.at message (cc) }

pub internal-ne : internal ≢ type_mismatch
internal-ne e = cc

out_of_range-ne : value_out_of_range ≢ type_mismatch
out_of_range-ne e = cc

pub unsupported-ne : unsupported_type ≢ type_mismatch
unsupported-ne e = cc

-- A check of a target that has passed once passes again, under another message.
pub required {ℓ} :
    {A : Type ℓ} (target expected : ℕ) (m : Text)
    → require_target_oid target expected m ≡ ok tt
    → (m' : Text) (k : Conv A) → Matching k
    → Matching (require_target_oid target expected m' >>= λ _. k)
unfolding require_target_oid
required target expected m h m' k n = elim (Bool-cases (target == expected)) [
  | inl e ↦ rw e n
  | inr e ↦ absurd (ground arith)
]

module _ (x : External) where
  open x use {
    Datum, NaiveDate, date_new, date_datum, numeric_try_from, numeric_datum, epoch_add_days,
    date_of_millis, timestamp_try_from, timestamptz_try_from, timestamp_datum, timestamptz_datum,
  }

  pub Matching-not_null : (d : Option Datum) (m : Text) → Matching (not_null x d m)
  Matching-not_null d m =
      Matching-bind (ok_or d internal m) _ (Matching-ok_or d internal m internal-ne)
        (λ v _. Matching-ok (v, false))

  pub after_ok_or {κ} :
      {A : Type κ} (o : Option A) (kind : ConvertErrorKind) (m : Text) (f : A → Conv (Datum × Bool))
      → kind ≢ type_mismatch
      → ((a : A) → Matching (f a))
      → Matching (ok_or o kind m >>= f)
  after_ok_or o kind m f h k =
      Matching-bind (ok_or o kind m) f (Matching-ok_or o kind m h) (λ a _. k a)

  pub Matching-uint64 : (v : ℤ) → Matching (uint64_to_datum x v)
  Matching-uint64 v = elim (Bool-cases (ltb (2 ^ 63 - 1) (pos_part v))) [
    | inl e ↦ rw e (Matching-fail value_out_of_range _ out_of_range-ne)
    | inr e ↦ rw e (Matching-not_null _ _)
  ]

  date-Matching :
      (o : Option NaiveDate) (m : Text)
      → Matching (
          ok_or o value_out_of_range m >>= λ dt.
          ok_or (date_new dt) internal (codes "invalid date") >>= λ date.
          not_null x (date_datum date) (codes "failed to convert date"))
  date-Matching o m = after_ok_or o value_out_of_range m _ out_of_range-ne λ dt.
      after_ok_or (date_new dt) internal (codes "invalid date") _ internal-ne
        λ date. Matching-not_null (date_datum date) (codes "failed to convert date")

  timestamp-Matching :
      {A : Type 0} (o : Option A) (m m' : Text) (f : A → Option Datum)
      → Matching (ok_or o value_out_of_range m >>= λ t. not_null x (f t) m')
  timestamp-Matching o m m' f =
      after_ok_or o value_out_of_range m _ out_of_range-ne λ t. Matching-not_null (f t) m'

  numeric-Matching :
      (v : Text)
      → Matching (
          ok_or (numeric_try_from v) internal (codes "invalid numeric") >>= λ n.
          not_null x (numeric_datum n) (codes "failed to convert numeric"))
  numeric-Matching v =
      after_ok_or (numeric_try_from v) internal (codes "invalid numeric") _ internal-ne
        λ n. Matching-not_null (numeric_datum n) (codes "failed to convert numeric")

  pub primitive-Matching :
      (cat : Catalog) (p : PrimType) (v : ℤ) (target : ℕ)
      → validate_arrow_type_for_pg_oid cat (prim_data_type p) target ≡ ok tt
      → Matching (primitive_to_datum x p v target)
  unfolding primitive_to_datum validate_arrow_type_for_pg_oid
  primitive-Matching cat Arrays.int8 v target h = required _ _ _ h _ _ (Matching-not_null _ _)
  primitive-Matching cat Arrays.int16 v target h = required _ _ _ h _ _ (Matching-not_null _ _)
  primitive-Matching cat Arrays.int32 v target h = required _ _ _ h _ _ (Matching-not_null _ _)
  primitive-Matching cat Arrays.int64 v target h = required _ _ _ h _ _ (Matching-not_null _ _)
  primitive-Matching cat Arrays.uint8 v target h = required _ _ _ h _ _ (Matching-not_null _ _)
  primitive-Matching cat Arrays.uint16 v target h = required _ _ _ h _ _ (Matching-not_null _ _)
  primitive-Matching cat Arrays.uint32 v target h = required _ _ _ h _ _ (Matching-not_null _ _)
  primitive-Matching cat Arrays.uint64 v target h = required _ _ _ h _ _ (Matching-uint64 v)
  primitive-Matching cat Arrays.float16 v target h = required _ _ _ h _ _ (Matching-not_null _ _)
  primitive-Matching cat Arrays.float32 v target h = required _ _ _ h _ _ (Matching-not_null _ _)
  primitive-Matching cat Arrays.float64 v target h = required _ _ _ h _ _ (Matching-not_null _ _)
  primitive-Matching cat Arrays.date32 v target h =
      required _ _ _ h _ _ (date-Matching (epoch_add_days v) _)
  primitive-Matching cat Arrays.date64 v target h =
      required _ _ _ h _ _ (date-Matching (date_of_millis v) _)
  primitive-Matching cat (Arrays.timestamp u (some tz)) v target h = required _ _ _ h _ _ (
      timestamp-Matching (timestamptz_try_from (pg_micros (unix_micros u v))) _ _ timestamptz_datum)
  primitive-Matching cat (Arrays.timestamp u none) v target h =
      required _ _ _ h _ _
        (timestamp-Matching (timestamp_try_from (pg_micros (unix_micros u v))) _ _ timestamp_datum)
  primitive-Matching cat (Arrays.decimal128 p s) v target h =
      required _ _ _ h _ _ (numeric-Matching _)
  primitive-Matching cat (Arrays.decimal256 p s) v target h =
      required _ _ _ h _ _ (numeric-Matching _)

  pub string-Matching :
      (cat : Catalog) (k : StringKind) (vs : List (Option Text)) (v : Text) (target : ℕ)
      → validate_arrow_type_for_pg_oid cat (data_type (string_array k vs)) target ≡ ok tt
      → Matching (string_to_datum x k v target)
  unfolding string_to_datum validate_arrow_type_for_pg_oid
  string-Matching cat Arrays.utf8 vs v target h = required _ _ _ h _ _ (Matching-not_null _ _)
  string-Matching cat Arrays.large_utf8 vs v target h = required _ _ _ h _ _ (Matching-not_null _ _)

  pub binary-Matching :
      (cat : Catalog) (k : BinaryKind) (vs : List (Option (List ℕ))) (v : List ℕ) (target : ℕ)
      → validate_arrow_type_for_pg_oid cat (data_type (binary_array k vs)) target ≡ ok tt
      → Matching (binary_to_datum x k v target)
  unfolding binary_to_datum validate_arrow_type_for_pg_oid
  binary-Matching cat Arrays.binary vs v target h = required _ _ _ h _ _ (Matching-not_null _ _)
  binary-Matching cat Arrays.large_binary vs v target h =
      required _ _ _ h _ _ (Matching-not_null _ _)
  binary-Matching cat (Arrays.fixed_size_binary n) vs v target h =
      required _ _ _ h _ _ (Matching-not_null _ _)
