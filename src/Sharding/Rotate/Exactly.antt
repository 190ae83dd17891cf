-- ===== src/Sharding/Rotate/Exactly.antt =====
-- Every item has exactly one instance, but for one hash of the name the strategy fails.
use elastic_job_lite.Prelude.{
  ℕ, zero, suc, ◌+◌, ◌-◌, ◌%◌, ◌<◌, ◌≡◌, ◌≢◌, refl, ◌⊎◌, inl, inr, true, false, none, some, List,
  [], ◌∷◌, length, length-perm, take, drop, ltb, ◌==◌, if◌then◌else◌, arith, Bool-cases,
}
use mathlib.Core.List.{Perm, perm_middle, append-nil}
use mathlib.Core.List.Perm
use native.Mathlib.Nat.{mod-lt, mod-eq_of_lt}
use native.Mathlib.Decide.{ℕ_discrete}
use elastic_job_lite.Sharding.Average.{JobInstance, Shards}
use elastic_job_lite.Sharding.Average
use elastic_job_lite.Sharding.Average.Exactly.{
  IsDistinct, IsDistinct-perm, assigned, assigned-sharding,
}
use elastic_job_lite.Sharding.Odevity.{hash_code}
use elastic_job_lite.Sharding.Rotate.{
  rotate_by, rotate_each, offset_of, rotate_server_list, sharding,
}
use elastic_job_lite.Sharding.Rotate.Int32.{pos, negsuc, of_bits, abs, rem, plus, get}
use elastic_job_lite.Sharding.Rotate.Cycle.{cycle, rotate_each-cycle}

-- The name has the hash -2^31, the one `int` that `Math.abs` leaves negative.
abbrev pub HasLeastHash : List ℕ → Type 0
HasLeastHash job_name = hash_code job_name ≡ 2147483648

-- the place at which the rotated list begins
place : ℕ → ℕ → ℕ
place h n =
    if ltb h 2147483648 then h % n else if h == 2147483648 then 0 else (4294967295 - h + 1) % n

place-lt : (h n : ℕ) → 0 < n → place h n < n
unfolding place
place-lt h n pos_n = ground (arith, mod-lt h pos_n, mod-lt (4294967295 - h + 1) pos_n)

rem_small : (h n : ℕ) → ltb h 2147483648 ≡ true → rem (abs (of_bits h)) n ≡ pos (place h n)
unfolding of_bits abs rem place
rem_small h n e = rw e

rem_least : (n : ℕ) → 2147483648 % n ≡ 0 → rem (abs (of_bits 2147483648)) n ≡ pos 0
unfolding of_bits abs rem
rem_least n e = rw e

rem_large :
    (h n : ℕ)
    → ltb h 2147483648 ≡ false
    → h ≢ 2147483648
    → rem (abs (of_bits h)) n ≡ pos (place h n)
unfolding of_bits abs rem place
rem_large h n e ne = rw e (ground (arith, ne))

offset_of_bounds :
    (job_name : List ℕ) (n : ℕ)
    → 0 < n
    → (¬ HasLeastHash job_name) ⊎ (2147483648 % n ≡ 0)
    → (k : ℕ) × (k < n) × (offset_of job_name n ≡ pos k)
unfolding offset_of
offset_of_bounds job_name n h ok = elim (Bool-cases (ltb (hash_code job_name) 2147483648)) [
  | inl small ↦ (
    place (hash_code job_name) n,
    place-lt (hash_code job_name) n h,
    rem_small (hash_code job_name) n small,
  )
  | inr large ↦ elim (ℕ_discrete (hash_code job_name) 2147483648) [
    | yes e ↦ elim ok [ inl ne ↦ absurd (ne e) | inr divides ↦ (0, h, rw e (rem_least n divides)) ]
    | no ne ↦ (
      place (hash_code job_name) n,
      place-lt (hash_code job_name) n h,
      rem_large (hash_code job_name) n large ne,
    )
  ]
]

cycle_perm : {A : Type 0} (k : ℕ) (xs : List A) → Perm (cycle k xs) xs
cycle_perm zero xs = rw append-nil (Perm.refl xs)
cycle_perm (suc k) [] = Perm.refl []
cycle_perm (suc k) (x ∷ xs) =
    Perm.trans (perm_middle (drop k xs) (take k xs)) (Perm.cons x (cycle_perm k xs))

rotate_by_perm :
    (units : List JobInstance) (k : ℕ)
    → k < length units
    → (vs : List JobInstance) × (rotate_by units (pos k) ≡ some vs) × Perm vs units
unfolding rotate_by
rotate_by_perm units zero h = (units, refl, Perm.refl units)
rotate_by_perm units (suc k) h =
    (cycle (suc k) units, rotate_each-cycle units (suc k) h, cycle_perm (suc k) units)

-- With at least one instance and no two of the same id, and a name whose hash is not -2^31 (or a
-- number of instances that divides 2^31), the strategy succeeds, each item of the job is assigned
-- exactly once, and nothing else is assigned.
pub assigned-sharding_by_rotation :
    (units : List JobInstance) (job_name : List ℕ) (total : ℕ)
    → 0 < length units
    → IsDistinct units
    → (¬ HasLeastHash job_name) ⊎ (2147483648 % length units ≡ 0)
    → (shards : Shards) × (sharding units job_name total ≡ some shards)
      × ((i : ℕ) → assigned i shards ≡ (if ltb i total then 1 else 0))
unfolding sharding rotate_server_list
assigned-sharding_by_rotation [] job_name total h d ok = absurd (omega arith)
assigned-sharding_by_rotation (u ∷ us) job_name total h d ok =
    let (k, below, offset) = offset_of_bounds job_name (length (u ∷ us)) h ok in
    let (vs, found, p) = rotate_by_perm (u ∷ us) k below in
    (
      Average.sharding vs total,
      rw (offset, found),
      λ i. assigned-sharding vs total i (rw (length-perm p) h) (IsDistinct-perm p d),
    )

least_offset :
    (n : ℕ) → 0 < 2147483648 % n → rem (abs (of_bits 2147483648)) n ≡ negsuc (2147483648 % n - 1)
unfolding of_bits abs rem
least_offset n h = ground arith

-- Its first step reads before the beginning of the list.
rotate_by-negsuc :
    (units : List JobInstance) (m : ℕ)
    → 0 < m
    → m < length units
    → rotate_by units (negsuc (m - 1)) ≡ none
unfolding rotate_by rotate_each plus rem get
rotate_by-negsuc [] m h k = elim k [ ]
rotate_by-negsuc (u ∷ us) m h k =
    ground (arith, mod-eq_of_lt {n = suc (m - 1 - 0)} {m = suc (length us)})

-- A name with the hash -2^31 makes the strategy fail with an exception, for every number of instances
-- that does not divide 2^31.
pub sharding-least_hash :
    (units : List JobInstance) (job_name : List ℕ) (total : ℕ)
    → HasLeastHash job_name
    → 0 < 2147483648 % length units
    → sharding units job_name total ≡ none
unfolding sharding rotate_server_list offset_of
sharding-least_hash [] job_name total e h = refl
sharding-least_hash (u ∷ us) job_name total e h = rw (
  e,
  least_offset (length (u ∷ us)) h,
  rotate_by-negsuc (u ∷ us) (2147483648 % length (u ∷ us)) h (mod-lt 2147483648 (omega arith)),
)
