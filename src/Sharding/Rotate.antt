-- ===== src/Sharding/Rotate.antt =====
-- api/strategy/impl/RotateServerByNameJobShardingStrategy.java
pub mod Int32
pub mod Cycle
pub mod Exactly
use elastic_job_lite.Prelude.{ℕ, zero, suc, ◌+◌, Option, none, some, List, [], ◌∷◌, length}
use mathlib.Core.Option
use elastic_job_lite.Sharding.Average.{JobInstance, Shards}
use elastic_job_lite.Sharding.Average
use elastic_job_lite.Sharding.Odevity.{hash_code}
use elastic_job_lite.Sharding.Rotate.Int32.{ℤ, pos, negsuc, of_bits, abs, plus, rem, get}

-- the loop, from its `i`; none is an `IndexOutOfBoundsException`
unfoldable pub rotate_each : List JobInstance → ℤ → ℕ → ℕ → Option (List JobInstance)
rotate_each units offset i zero = some []
rotate_each units offset i (suc rounds) = elim (get units (rem (plus i offset) (length units))) [
  | none ↦ none
  | some u ↦ Option.map (λ us. u ∷ us) (rotate_each units offset (i + 1) rounds)
]

unfoldable pub offset_of : List ℕ → ℕ → ℤ
offset_of job_name size = rem (abs (of_bits (hash_code job_name))) size

-- none is an exception: for no instances an `ArithmeticException`
unfoldable pub rotate_by : List JobInstance → ℤ → Option (List JobInstance)
unfolding rotate_each
rotate_by units (pos zero) = some units
rotate_by units offset = rotate_each units offset 0 (length units)

unfoldable pub rotate_server_list : List JobInstance → List ℕ → Option (List JobInstance)
unfolding rotate_by offset_of
rotate_server_list [] job_name = none
rotate_server_list (u ∷ us) job_name = rotate_by (u ∷ us) (offset_of job_name (length (u ∷ us)))

unfoldable pub sharding : List JobInstance → List ℕ → ℕ → Option Shards
unfolding rotate_server_list
sharding units job_name total =
    Option.map (λ us. Average.sharding us total) (rotate_server_list units job_name)
