-- ===== src/Sharding/Odevity/Exactly.antt =====
-- Every item has exactly one instance, whatever the name of the job is.
use elastic_job_lite.Prelude.{
  ℕ, ◌%◌, ◌<◌, ◌≡◌, inl, inr, List, length, length-perm, ltb, ◌==◌, if◌then◌else◌, Bool-cases,
}
use mathlib.Core.List.{Perm, reverse_perm}
use mathlib.Core.List.Perm
use elastic_job_lite.Sharding.Average.{JobInstance}
use elastic_job_lite.Sharding.Average.Exactly.{
  IsDistinct, IsDistinct-perm, assigned, assigned-sharding,
}
use elastic_job_lite.Sharding.Odevity.{hash_code, sort_by_odevity, sharding}

sort_by_odevity_perm :
    (units : List JobInstance) (job_name : List ℕ) → Perm (sort_by_odevity units job_name) units
unfolding sort_by_odevity
sort_by_odevity_perm units job_name = elim (Bool-cases (hash_code job_name % 2 == 0)) [
  | inl even ↦ rw even (reverse_perm units)
  | inr odd ↦ rw odd (Perm.refl units)
]

-- With at least one instance and no two of the same id, each item of the job is assigned exactly
-- once, and nothing else is assigned, whatever the name of the job is.
pub assigned-sharding_by_odevity :
    (units : List JobInstance) (job_name : List ℕ) (total i : ℕ)
    → 0 < length units
    → IsDistinct units
    → assigned i (sharding units job_name total) ≡ (if ltb i total then 1 else 0)
unfolding sharding
assigned-sharding_by_odevity units job_name total i h d =
    let p = sort_by_odevity_perm units job_name in
    assigned-sharding (sort_by_odevity units job_name) total i (rw (length-perm p) h)
      (IsDistinct-perm p d)
