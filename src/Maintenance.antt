-- ===== src/Maintenance.antt =====
-- What the functions of src/write/vacuum.rs, optimize.rs, index.rs and delete.rs share: a runtime, a
-- dataset that is opened, and failures.
pub mod Vacuum
pub mod Optimize
pub mod Accepted
pub mod Fts
pub mod Index
pub mod Tests
use pglance.Base.{Option, none, some, ◌++◌, Text, codes, Result, ok, err, ◌>>=◌, map}
use pglance.Base.Int.{ℤ, pos, negsuc}
use pglance.Base.{ℕ}

-- An error with its message, or a Rust panic.
pub data Failure : Type 0 where
  error : Text → Failure
  panic : Failure

abbrev pub Outcome {ℓ} : Type ℓ → Type ℓ
Outcome A = Result Failure A

-- `map_err(|e| format!("{prefix}{}", e))`
abbrev pub context {ℓ} : {A : Type ℓ} → Text → Result Text A → Outcome A
context prefix (err e) = err (error (prefix ++ e))
context prefix (ok a) = ok a

abbrev pub in_runtime {ℓ} : {A : Type ℓ} → Result Text (Unit {0}) → Outcome A → Outcome A
in_runtime (err e) body = err (error (codes "failed to create tokio runtime: " ++ e))
in_runtime (ok u) body = body

-- `open_dataset(uri, server_name).await?`
abbrev pub opening {ℓ} : {A : Type ℓ} → Result Text A → Outcome A
opening (err e) = err (error e)
opening (ok a) = ok a

abbrev pub map_option {ℓ κ} : {A : Type ℓ} {B : Type κ} → (A → B) → Option A → Option B
map_option f none = none
map_option f (some a) = some (f a)
