-- ===== src/Sharding/Average.antt =====
-- api/strategy/impl/AverageAllocationJobShardingStrategy.java, with api/strategy/JobInstance.java.
pub mod Exactly
pub mod Balance
use elastic_job_lite.Prelude.{
  ℕ, zero, suc, ◌+◌, ◌-◌, ◌*◌, ◌/◌, ◌%◌, String, List, [], ◌∷◌, ◌++◌, length, ltb, ◌===◌,
  if◌then◌else◌,
}

-- Instances are equal if their ids are (`@EqualsAndHashCode(of = "jobInstanceId")`).
pub record JobInstance : Type 0 where
  pub job_instance_id : String

-- A `LinkedHashMap`: its entries in the order in which their keys were put first.
abbrev pub Shards : Type 0
Shards = List (JobInstance × List ℕ)

-- `put`: a key that is there keeps its place and loses its value.
unfoldable pub put : JobInstance → List ℕ → Shards → Shards
put k v [] = (k, v) ∷ []
put k v ((j, w) ∷ m) =
    if j.job_instance_id === k.job_instance_id then (j, v) ∷ m else (j, w) ∷ put k v m

-- `for (int i = from; i < from + n; i++) { shardingItems.add(i); }`
unfoldable pub items : ℕ → ℕ → List ℕ
items from zero = []
items from (suc n) = from ∷ items (from + 1) n

-- the loop over the instances, from its `count`
unfoldable pub put_each : ℕ → ℕ → List JobInstance → Shards → Shards
unfolding put items
put_each per count [] result = result
put_each per count (each ∷ units) result =
    put_each per (suc count) units
      (put each (items (count * per) ((count + 1) * per - count * per)) result)

unfoldable pub sharding_aliquot : List JobInstance → ℕ → Shards
unfolding put_each
sharding_aliquot units total = put_each (total / length units) 0 units []

-- the loop over the entries, from its `count`
unfoldable pub add_each : ℕ → ℕ → ℕ → Shards → Shards
add_each aliquant base count [] = []
add_each aliquant base count ((unit, shards) ∷ m) =
    (unit, if ltb count aliquant then shards ++ (base + count) ∷ [] else shards)
    ∷ add_each aliquant base (suc count) m

unfoldable pub add_aliquant : List JobInstance → ℕ → Shards → Shards
unfolding add_each
add_aliquant units total = add_each (total % length units) (total / length units * length units) 0

unfoldable pub sharding : List JobInstance → ℕ → Shards
unfolding sharding_aliquot add_aliquant
sharding [] total = []
sharding (u ∷ us) total = add_aliquant (u ∷ us) total (sharding_aliquot (u ∷ us) total)
