-- ===== src/Sharding/Service/Owners.antt =====
-- The owners of the items are the instances that the strategy is given.
use elastic_job_lite.Prelude.{
  ℕ, suc, ◌<◌, String, ◌≡◌, refl, sym, ap, ◌∙◌, ◌⊎◌, inl, inr, some, List, [], ◌∷◌, ◌++◌, map,
  length, ◌==◌, arith, Bool-cases,
}
use mathlib.Core.List.{Mem, mem-cons_self, mem-cons_of_mem}
use mathlib.Core.Option.{some-injective}
use elastic_job_lite.Sharding.Average.{JobInstance, Shards}
use elastic_job_lite.Sharding.Average.Exactly.{id, IsDistinct}
use elastic_job_lite.Sharding.Average.Balance.{loads, fair, loads-sharding}
use elastic_job_lite.Sharding.Average
use elastic_job_lite.Sharding.Service.Persist.{items_of, pairs, owner}

abbrev pub ids : Shards → List String
ids = map (λ e. id e.0)

owner-items_of :
    (i : ℕ) (t : String) (is : List ℕ) (ps : List (ℕ × String))
    → (owner i (items_of t is ++ ps) ≡ some t) ⊎ (owner i (items_of t is ++ ps) ≡ owner i ps)
owner-items_of i t [] ps = inr refl
owner-items_of i t (j ∷ is) ps = elim (Bool-cases (j == i)) [
  | inl same ↦ inl (rw same)
  | inr other ↦ rw other (owner-items_of i t is ps)
]

-- An owner is one of the instances.
pub owner-ids : (i : ℕ) (s : String) (m : Shards) → owner i (pairs m) ≡ some s → Mem s (ids m)
owner-ids i s [] e = absurd (ground arith)
owner-ids i s ((u, is) ∷ m) e = elim (owner-items_of i (id u) is (pairs m)) [
  | inl own ↦ rw (some-injective s (id u) (sym e ∙ own)) mem-cons_self
  | inr rest ↦ mem-cons_of_mem (id u) (owner-ids i s m (sym rest ∙ e))
]

ids-loads : (m : Shards) → map (λ e. id e.0) (loads m) ≡ ids m
ids-loads [] = refl
ids-loads (e ∷ m) = ap (λ ks. id e.0 ∷ ks) (ids-loads m)

ids-fair :
    (per extra count : ℕ) (us : List JobInstance)
    → map (λ e. id e.0) (fair per extra count us) ≡ map id us
ids-fair per extra count [] = refl
ids-fair per extra count (u ∷ us) = ap (λ ks. id u ∷ ks) (ids-fair per extra (suc count) us)

pub ids-sharding :
    (us : List JobInstance) (total : ℕ)
    → 0 < length us
    → IsDistinct us
    → ids (Average.sharding us total) ≡ map id us
ids-sharding us total h d =
    sym (ids-loads (Average.sharding us total))
    ∙ ap (map (λ e. id e.0)) (loads-sharding us total h d)
    ∙ ids-fair _ _ 0 us
