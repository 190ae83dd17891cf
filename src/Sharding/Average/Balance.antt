-- ===== src/Sharding/Average/Balance.antt =====
-- The instances keep their order and get equal shares, but for one item.
use elastic_job_lite.Prelude.{
  ℕ, zero, suc, ◌+◌, ◌*◌, ◌/◌, ◌%◌, ◌<◌, ◌≡◌, refl, ap, List, [], ◌∷◌, map, length, length-append,
  ltb, if◌then◌else◌, arith,
}
use elastic_job_lite.Sharding.Average.{JobInstance, Shards, items, add_each, sharding}
use elastic_job_lite.Sharding.Average.Exactly.{IsDistinct, blocks, sharding_lem}

-- The instances with the numbers of their items.
abbrev pub loads : Shards → List (JobInstance × ℕ)
loads = map (λ e. (e.0, length e.1))

-- `per` items each, and one more for the instances before `extra`, from a count on.
abbrev pub fair : ℕ → ℕ → ℕ → List JobInstance → List (JobInstance × ℕ)
fair per extra count [] = []
fair per extra count (u ∷ us) =
    (u, if ltb count extra then per + 1 else per) ∷ fair per extra (suc count) us

length-items : (from n : ℕ) → length (items from n) ≡ n
unfolding items
length-items from zero = refl
length-items from (suc n) = ap suc (length-items (from + 1) n)

loads-add_each :
    (per extra base count from : ℕ) (us : List JobInstance)
    → loads (add_each extra base count (blocks per from us)) ≡ fair per extra count us
unfolding add_each
loads-add_each per extra base count from [] = refl
loads-add_each per extra base count from (u ∷ us) = ground (
  arith,
  length-append (items from per) ((base + count) ∷ []),
  length-items from per,
  loads-add_each per extra base (suc count) (from + per) us,
)

-- With at least one instance and no two of the same id, the result lists the instances in the given
-- order. Each has the number of items divided by the number of instances, rounded down, and the
-- first ones have one more, as many of them as the division leaves over.
pub loads-sharding :
    (units : List JobInstance) (total : ℕ)
    → 0 < length units
    → IsDistinct units
    → loads (sharding units total) ≡ fair (total / length units) (total % length units) 0 units
loads-sharding [] total h d = absurd (omega arith)
loads-sharding (u ∷ us) total h d = rw (sharding_lem u us total d) (
    loads-add_each (total / length (u ∷ us)) (total % length (u ∷ us))
      (total / length (u ∷ us) * length (u ∷ us)) 0 0 (u ∷ us))
