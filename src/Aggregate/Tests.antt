-- ===== src/Aggregate/Tests.antt =====
-- src/write/aggregate.rs: the extremes of two batches, one with nulls only.
use pglance.Base.{◌≡◌, refl, some, none, List, [], ◌∷◌, ok, Text, codes}
use pglance.Base.Int.{pos, negsuc, ltb_ℤ}
use pglance.Convert.Arrays
use pglance.Convert.Arrays.{Array, primitive_array}
use pglance.Base.Decimal.{show_ℕ, push_digits}
use pglance.Aggregate.Print.{format_decimal128}
use pglance.Aggregate.Decimal.{read_decimal, scaled, read_decimal-format_decimal128}
use pglance.Aggregate.{
  min, max, update_cells, StateKind, Floats, never, lt_of, skip_of, update, update_batches,
}
use pglance.Aggregate.Extreme.{Extreme, column_values, int_order, update_batches-Extreme}

abbrev sample_floats : Floats
sample_floats = record { lt_f32 = ltb_ℤ; nan_f32 = never; lt_f64 = ltb_ℤ; nan_f64 = never }

abbrev columns : List Array
columns =
    primitive_array Arrays.int32 (some (pos 4) ∷ none ∷ some (negsuc 2) ∷ [])
    ∷ primitive_array Arrays.int32 (none ∷ none ∷ [])
    ∷ primitive_array Arrays.int32 (some (pos 7) ∷ [])
    ∷ []

least : update_batches sample_floats StateKind.int32 min none columns ≡ ok (some (negsuc 2))
unfolding update_batches update update_cells
least = refl

greatest : update_batches sample_floats StateKind.int32 max none columns ≡ ok (some (pos 7))
unfolding update_batches update update_cells
greatest = refl

update_batches-Extreme_example :
    Extreme
      (lt_of sample_floats StateKind.int32)
      (skip_of sample_floats StateKind.int32)
      max
      (column_values sample_floats int_order int_order StateKind.int32 columns)
      (some (pos 7))
update_batches-Extreme_example =
    update_batches-Extreme sample_floats int_order int_order StateKind.int32 max columns
      (some (pos 7)) greatest

printed :
    (format_decimal128 (pos 5) (pos 3) ≡ some (codes "0.005"))
    × (format_decimal128 (negsuc 12344) (pos 2) ≡ some (codes "-123.45"))
    × (format_decimal128 (pos 7) (negsuc 1) ≡ some (codes "700"))
unfolding format_decimal128 show_ℕ push_digits
printed = (refl, refl, refl)

read_decimal-format_decimal128_example :
    (t : Text) × (format_decimal128 (negsuc 12344) (pos 2) ≡ some t)
    × (read_decimal t ≡ scaled (negsuc 12344) (pos 2))
read_decimal-format_decimal128_example = read_decimal-format_decimal128 (negsuc 12344) (pos 2) (cc)
