-- ===== src/Tests/Sharding.antt =====
-- Runs of the sharding strategies.
use elastic_job_lite.Prelude.{
  ℕ, String, ◌≡◌, refl, inl, some, none, List, [], ◌∷◌, codes, arith, if◌then◌else◌, ltb, Bool,
  true, false, ◌&&◌, ◌||◌, not, ◌===◌, map,
}
use mathlib.Core.List.{Nodup, Nodup-cons, Mem, not-mem-nil, eq-or-mem_of_mem-cons}
use mathlib.Core.Logic.Or
use mathlib.Core.HLevel.{⊥_prop}
use text.Mathlib.TextEquality.{eq_iff}
use mathlib.Core.List.Pairwise
use elastic_job_lite.Sharding.Average.{JobInstance, Shards}
use elastic_job_lite.Sharding.Average
use elastic_job_lite.Sharding.Odevity
use elastic_job_lite.Sharding.Rotate
use elastic_job_lite.Sharding.Average.Exactly.{id, IsDistinct, assigned, assigned-sharding}
use elastic_job_lite.Sharding.Average.Balance.{loads, fair, loads-sharding}
use elastic_job_lite.Sharding.Rotate.Exactly.{
  HasLeastHash, assigned-sharding_by_rotation, sharding-least_hash,
}

abbrev instance_of : String → JobInstance
instance_of s = record { job_instance_id = s }

abbrev pub three : List JobInstance
three = instance_of "10.0.0.1@-@7" ∷ instance_of "10.0.0.2@-@7" ∷ instance_of "10.0.0.3@-@8" ∷ []

abbrev is_in : String → List String → Bool
is_in s [] = false
is_in s (t ∷ ts) = s === t || is_in s ts

abbrev all_apart : List String → Bool
all_apart [] = true
all_apart (s ∷ ts) = not (is_in s ts) && all_apart ts

not_in : (s : String) (ts : List String) → is_in s ts ≡ false → ¬ Mem s ts
not_in s [] h = not-mem-nil
not_in s (t ∷ ts) h = λ m.
    Or.elim ⊥_prop (eq-or-mem_of_mem-cons m) (λ e. ground (arith, eq_iff s t))
      (not_in s ts (ground arith))

all_apart-Nodup : (ts : List String) → all_apart ts ≡ true → Nodup ts
all_apart-Nodup [] h = Pairwise.nil
all_apart-Nodup (s ∷ ts) h =
    Nodup-cons.1 (not_in s ts (ground arith), all_apart-Nodup ts (ground arith))

pub three-IsDistinct : IsDistinct three
three-IsDistinct = all_apart-Nodup (map id three) refl

-- the examples of the strategy's own comment
abbrev shared_8 : Shards
shared_8 =
    (instance_of "10.0.0.1@-@7", 0 ∷ 1 ∷ 6 ∷ [])
    ∷ (instance_of "10.0.0.2@-@7", 2 ∷ 3 ∷ 7 ∷ [])
    ∷ (instance_of "10.0.0.3@-@8", 4 ∷ 5 ∷ [])
    ∷ []

sharding_8 : Average.sharding three 8 ≡ shared_8
unfolding Average.sharding Average.sharding_aliquot Average.add_aliquant Average.put_each
    Average.add_each Average.put Average.items
sharding_8 = refl

assigned-sharding_example : assigned 6 (Average.sharding three 8) ≡ 1
assigned-sharding_example = assigned-sharding three 8 6 (omega arith) three-IsDistinct

loads-sharding_example : loads (Average.sharding three 8) ≡ fair 2 2 0 three
loads-sharding_example = loads-sharding three 8 (omega arith) three-IsDistinct

-- with an even hash the instances are reversed
reversed :
    Odevity.sharding three (codes "b") 2
    ≡ (instance_of "10.0.0.3@-@8", 0 ∷ [])
      ∷ (instance_of "10.0.0.2@-@7", 1 ∷ [])
      ∷ (instance_of "10.0.0.1@-@7", [])
      ∷ []
unfolding Odevity.sharding Odevity.sort_by_odevity Odevity.hash_code Average.sharding
    Average.sharding_aliquot Average.add_aliquant Average.put_each Average.add_each Average.put
    Average.items
reversed = refl

job-HasLeastHash : ¬ HasLeastHash (codes "job")
unfolding Odevity.hash_code
job-HasLeastHash = λ h. ground (arith, h)

assigned-sharding_by_rotation_example :
    (shards : Shards) × (Rotate.sharding three (codes "job") 8 ≡ some shards)
    × ((i : ℕ) → assigned i shards ≡ (if ltb i 8 then 1 else 0))
assigned-sharding_by_rotation_example =
    assigned-sharding_by_rotation three (codes "job") 8 (omega arith) three-IsDistinct
      (inl job-HasLeastHash)

least : HasLeastHash (codes "polygenelubricants")
unfolding Odevity.hash_code
least = refl

sharding-least_hash_example : Rotate.sharding three (codes "polygenelubricants") 8 ≡ none
sharding-least_hash_example =
    sharding-least_hash three (codes "polygenelubricants") 8 least (omega arith)
