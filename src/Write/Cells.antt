-- ===== src/Write/Cells.antt =====
-- src/write/pg_to_arrow.rs: `append_datum`.
use pglance.Base.{◌≡◌, refl, ℕ, ◌+◌, Option, length-append}
use pglance.Convert.Arrays.{data_type, len}
use pglance.Write.Builder.{TypedBuilder, Spi, finish, append_datum}

-- Appending a datum, of whatever type, keeps the type of the array that the builder finishes and
-- adds one cell to it.
pub finish-append_datum :
    (spi : Spi) (b : TypedBuilder) (d : Option spi.SpiDatum) (oid : ℕ)
    → (data_type (finish (append_datum spi b d oid)) ≡ data_type (finish b))
      × (len (finish (append_datum spi b d oid)) ≡ len (finish b) + 1)
unfolding finish append_datum
finish-append_datum spi (TypedBuilder.boolean cs) d oid = (refl, length-append cs _)
finish-append_datum spi (TypedBuilder.int16 cs) d oid = (refl, length-append cs _)
finish-append_datum spi (TypedBuilder.int32 cs) d oid = (refl, length-append cs _)
finish-append_datum spi (TypedBuilder.int64 cs) d oid = (refl, length-append cs _)
finish-append_datum spi (TypedBuilder.float32 cs) d oid = (refl, length-append cs _)
finish-append_datum spi (TypedBuilder.float64 cs) d oid = (refl, length-append cs _)
finish-append_datum spi (TypedBuilder.utf8 cs) d oid = (refl, length-append cs _)
finish-append_datum spi (TypedBuilder.binary cs) d oid = (refl, length-append cs _)
finish-append_datum spi (TypedBuilder.date32 cs) d oid = (refl, length-append cs _)
finish-append_datum spi (TypedBuilder.timestamp_micro cs) d oid = (refl, length-append cs _)
finish-append_datum spi (TypedBuilder.timestamp_micro_utc cs) d oid = (refl, length-append cs _)
