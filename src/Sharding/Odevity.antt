-- ===== src/Sharding/Odevity.antt =====
-- api/strategy/impl/OdevitySortByNameJobShardingStrategy.java
pub mod Exactly
use elastic_job_lite.Prelude.{ℕ, ◌+◌, ◌*◌, ◌%◌, List, [], ◌∷◌, ◌==◌, if◌then◌else◌}
use mathlib.Core.List.{reverse}
use elastic_job_lite.Sharding.Average.{JobInstance, Shards}
use elastic_job_lite.Sharding.Average

-- `String.hashCode`: the 32 bits of an `int`, kept as a number below 2^32.
abbrev hash_from : ℕ → List ℕ → ℕ
hash_from h [] = h
hash_from h (c ∷ s) = hash_from ((h * 31 + c) % 4294967296) s

unfoldable pub hash_code : List ℕ → ℕ
hash_code = hash_from 0

-- `0 == jobNameHash % 2`: an `int` is even if its bits are. The list is reversed in place, and only
-- the strategy uses it afterwards.
unfoldable pub sort_by_odevity : List JobInstance → List ℕ → List JobInstance
unfolding hash_code
sort_by_odevity units job_name = if hash_code job_name % 2 == 0 then reverse units else units

unfoldable pub sharding : List JobInstance → List ℕ → ℕ → Shards
unfolding sort_by_odevity
sharding units job_name total = Average.sharding (sort_by_odevity units job_name) total
