-- ===== src/Write/Micros.antt =====
-- src/write/pg_to_arrow.rs and src/fdw/convert.rs: timestamps written and read back.
use pglance.Base.{◌≡◌, arith}
use pglance.Base.Int.{ℤ, pos, negsuc, InI64, ◌+ℤ◌, ◌-ℤ◌}
use pglance.Convert.Scalars.{pg_micros}
use pglance.Write.Builder.{to_unix_micros}

-- Every 64-bit PostgreSQL timestamp that a write shifts to the Unix epoch is shifted back by the
-- scan to the same timestamp, also where the shift wraps around.
pub pg_micros-to_unix_micros : (v : ℤ) → InI64 v → pg_micros (to_unix_micros v) ≡ v
unfolding pg_micros to_unix_micros ◌+ℤ◌ ◌-ℤ◌
pg_micros-to_unix_micros (pos n) h = ground arith
pg_micros-to_unix_micros (negsuc n) h = ground arith
