-- ===== src/Sharding/Average/Exactly.antt =====
-- Every item has exactly one instance.
use elastic_job_lite.Prelude.{
  ℕ, zero, suc, ◌+◌, ◌-◌, ◌*◌, ◌/◌, ◌%◌, ◌<◌, String, ◌≡◌, refl, sym, ap, ◌∙◌, ◌&&◌, List, [], ◌∷◌,
  ◌++◌, map, append_assoc, append-nil, length, ltb, leb, ◌==◌, if◌then◌else◌, arith,
}
use mathlib.Core.List.{Nodup, Mem, Nodup-append, map-append, mem-cons_self, mem-cons_of_mem}
use mathlib.Core.List.{Perm}
use mathlib.Core.List.Perm
use text.Mathlib.TextEquality.{eq_iff}
use native.Mathlib.Nat.{mod-lt, div-add-mod', mul_comm}
use elastic_job_lite.Sharding.Average.{
  JobInstance, Shards, put, items, put_each, sharding_aliquot, add_each, add_aliquant, sharding,
}

abbrev pub id : JobInstance → String
id u = u.job_instance_id

-- No two instances have the same id.
abbrev pub IsDistinct : List JobInstance → Type 0
IsDistinct units = Nodup (map id units)

pub IsDistinct-perm : {us vs : List JobInstance} → Perm us vs → IsDistinct vs → IsDistinct us
IsDistinct-perm p d = Perm.nodup (Perm.map id (Perm.symm p)) d

abbrev keys : Shards → List String
keys = map (λ e. e.0.job_instance_id)

put-absent :
    (u : JobInstance) (v : List ℕ) (m : Shards)
    → ¬ Mem (id u) (keys m)
    → put u v m ≡ m ++ (u, v) ∷ []
unfolding put
put-absent u v [] h = refl
put-absent u v ((j, w) ∷ m) h =
    let other : ¬ (id j ≡ id u) = λ e. h (rw e mem-cons_self) in
    let rest = put-absent u v m (λ q. h (mem-cons_of_mem (id j) q)) in
    ground (arith, eq_iff (id j) (id u), other, rest)

-- The blocks of `per` items, from an item on.
abbrev pub blocks : ℕ → ℕ → List JobInstance → Shards
blocks per from [] = []
blocks per from (u ∷ us) = (u, items from per) ∷ blocks per (from + per) us

put_each_lem :
    (per count from : ℕ) (units : List JobInstance) (m : Shards)
    → count * per ≡ from
    → Nodup (keys m ++ map id units)
    → put_each per count units m ≡ m ++ blocks per from units
unfolding put_each
put_each_lem per count from [] m h d = sym (append-nil m)
put_each_lem per count from (u ∷ us) m h d =
    let absent : ¬ Mem (id u) (keys m) = λ q. (Nodup-append.0 d).2 (id u) q mem-cons_self in
    let size : (count + 1) * per - count * per ≡ per = grind arith in
    let moved : keys (m ++ (u, items from per) ∷ []) ++ map id us ≡ keys m ++ map id (u ∷ us) =
      simp (map-append, append_assoc) in
    rw (size, h, put-absent u (items from per) m absent)
      (put_each_lem per (suc count) (from + per) us (m ++ (u, items from per) ∷ []) (grind arith)
          (rw moved d)
        ∙ append_assoc m ((u, items from per) ∷ []) (blocks per (from + per) us))

abbrev pub occurrences : ℕ → List ℕ → ℕ
occurrences i [] = 0
occurrences i (x ∷ xs) = (if x == i then 1 else 0) + occurrences i xs

-- how often an item is assigned
abbrev pub assigned : ℕ → Shards → ℕ
assigned i [] = 0
assigned i ((_, shards) ∷ m) = occurrences i shards + assigned i m

pub occurrences-append :
    (i : ℕ) (xs ys : List ℕ) → occurrences i (xs ++ ys) ≡ occurrences i xs + occurrences i ys
occurrences-append i [] ys = omega arith
occurrences-append i (x ∷ xs) ys = omega (arith, occurrences-append i xs ys)

occurrences-items :
    (i from n : ℕ)
    → occurrences i (items from n) ≡ (if leb from i && ltb i (from + n) then 1 else 0)
unfolding items
occurrences-items i from zero = ground arith
occurrences-items i from (suc n) = ground (arith, occurrences-items i (from + 1) n)

assigned-blocks :
    (i per from : ℕ) (us : List JobInstance)
    → assigned i (blocks per from us)
      ≡ (if leb from i && ltb i (from + length us * per) then 1 else 0)
assigned-blocks i per from [] = ground arith
assigned-blocks i per from (u ∷ us) =
    grind (arith, occurrences-items i from per, assigned-blocks i per (from + per) us)

assigned-add_each :
    (i aliquant base count : ℕ) (m : Shards)
    → assigned i (add_each aliquant base count m)
      ≡ assigned i m
        + (if leb (base + count) i && ltb i (base + aliquant) && ltb i (base + count + length m)
            then 1
            else 0)
unfolding add_each
assigned-add_each i aliquant base count [] = ground arith
assigned-add_each i aliquant base count ((u, shards) ∷ m) = ground (
  arith,
  occurrences-append i shards ((base + count) ∷ []),
  assigned-add_each i aliquant base (suc count) m,
)

length-blocks : (per from : ℕ) (us : List JobInstance) → length (blocks per from us) ≡ length us
length-blocks per from [] = refl
length-blocks per from (u ∷ us) = ap suc (length-blocks per (from + per) us)

pub sharding_lem :
    (u : JobInstance) (us : List JobInstance) (total : ℕ)
    → IsDistinct (u ∷ us)
    → let n = length (u ∷ us) in
      sharding (u ∷ us) total
      ≡ add_each (total % n) (total / n * n) 0 (blocks (total / n) 0 (u ∷ us))
unfolding sharding sharding_aliquot add_aliquant
sharding_lem u us total d =
    ap (add_each (total % length (u ∷ us)) (total / length (u ∷ us) * length (u ∷ us)) 0)
      (put_each_lem (total / length (u ∷ us)) 0 0 (u ∷ us) [] (omega arith) d)

-- The equal blocks and the rest make the whole.
two_parts :
    (i n per rest : ℕ)
    → rest < n
    → (if leb 0 i && ltb i (0 + n * per) then 1 else 0)
        + (if leb (per * n + 0) i && ltb i (per * n + rest) && ltb i (per * n + 0 + n)
            then 1
            else 0)
      ≡ (if ltb i (per * n + rest) then 1 else 0)
two_parts i n per rest h = ground (arith, mul_comm n per)

-- With at least one instance and no two of the same id, each item of the job is assigned exactly
-- once, and nothing else is assigned.
pub assigned-sharding :
    (units : List JobInstance) (total i : ℕ)
    → 0 < length units
    → IsDistinct units
    → assigned i (sharding units total) ≡ (if ltb i total then 1 else 0)
assigned-sharding [] total i h d = absurd (omega arith)
assigned-sharding (u ∷ us) total i h d =
    let n : ℕ = length (u ∷ us) in
    let per : ℕ = total / n in
    rw (sharding_lem u us total d) (
      assigned-add_each i (total % n) (per * n) 0 (blocks per 0 (u ∷ us))
      ∙ rw (assigned-blocks i per 0 (u ∷ us), length-blocks per 0 (u ∷ us))
          (two_parts i n per (total % n) (mod-lt total (omega arith))
            ∙ ap (λ (t : ℕ). if ltb i t then 1 else 0) (div-add-mod' total n)))
