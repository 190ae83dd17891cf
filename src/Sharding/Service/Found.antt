-- ===== src/Sharding/Service/Found.antt =====
-- The loop of `getShardingItems`, over the instances.
use elastic_job_lite.Prelude.{
  ℕ, zero, suc, ◌+◌, ◌≤◌, ◌<◌, String, ◌≡◌, refl, ap, ◌∙◌, inl, inr, ◌&&◌, none, some, List, [],
  ◌∷◌, map, ltb, leb, ◌==◌, ◌===◌, if◌then◌else◌, arith, Bool-cases, Option-cases,
}
use mathlib.Core.List.{
  Mem, Mem-prop, Nodup, Nodup-cons, mem-cons_self, mem-cons_of_mem, not-mem-nil,
  eq-or-mem_of_mem-cons,
}
use mathlib.Core.Logic.Or
use native.Mathlib.Decide.{ℕ_discrete}
use text.Mathlib.TextEquality.{eq_iff}
use elastic_job_lite.Registry.{Registry}
use elastic_job_lite.Sharding.Average.{JobInstance}
use elastic_job_lite.Sharding.Average.Exactly.{id, occurrences}
use elastic_job_lite.Sharding.Service.{Strategy, get_instance_node}
use elastic_job_lite.Sharding.Service.Run.{Peers, items_from}

module _ (R : Registry) where
  open R use {World, look}

  abbrev holds : String → ℕ → World → ℕ
  holds s i w = elim (look (get_instance_node i) w) [
    | none ↦ 0
    | some d ↦ (if s === d then 1 else 0)
  ]

  module _ (P : Peers R) (strategies : String → Strategy) (job_name : List ℕ) where
    items_from_step :
        (s : String) (i from rounds : ℕ) (w : World)
        → occurrences i (items_from R P strategies job_name s from (suc rounds) w)
          ≡ (if from == i then holds s from w else 0)
            + occurrences i (items_from R P strategies job_name s (from + 1) rounds w)
    unfolding items_from
    items_from_step s i from rounds w = elim (Option-cases (look (get_instance_node from) w)) [
      | inl absent ↦ rw (items_from, absent) (ground arith)
      | inr (d, there) ↦ rw (items_from, there) (ground arith)
    ]

    -- The loop reads the nodes of the items from its start on.
    occurrences-items_from :
        (s : String) (i from rounds : ℕ) (w : World)
        → occurrences i (items_from R P strategies job_name s from rounds w)
          ≡ (if leb from i && ltb i (from + rounds) then holds s i w else 0)
    unfolding items_from
    occurrences-items_from s i from zero w = ground arith
    occurrences-items_from s i from (suc rounds) w =
        let rest = occurrences-items_from s i (from + 1) rounds w in
        let step = items_from_step s i from rounds w in
        elim (ℕ_discrete from i) [
          | yes e ↦
              let same : holds s from w ≡ holds s i w = ap (λ k. holds s k w) e in
              step ∙ ground (arith, rest, same, e)
          | no ne ↦ step ∙ ground (arith, rest, ne)
        ]

    -- how often an item is found by the instances
    abbrev pub found : ℕ → ℕ → List JobInstance → World → ℕ
    found total i [] w = 0
    found total i (u ∷ us) w =
        occurrences i (items_from R P strategies job_name (id u) 0 total w) + found total i us w

    found_none :
        (total i : ℕ) (s : String) (us : List JobInstance) (w : World)
        → look (get_instance_node i) w ≡ some s
        → ¬ Mem s (map id us)
        → found total i us w ≡ 0
    found_none total i s [] w e h = refl
    found_none total i s (u ∷ us) w e h =
        let other : ¬ (id u ≡ s) = λ q. h (rw q mem-cons_self) in
        let rest = found_none total i s us w e (λ q. h (mem-cons_of_mem (id u) q)) in
        rw (occurrences-items_from (id u) i 0 total w, holds, e, rest)
          (ground (arith, eq_iff (id u) s))

    pub found_once :
        (total i : ℕ) (s : String) (us : List JobInstance) (w : World)
        → look (get_instance_node i) w ≡ some s
        → Nodup (map id us)
        → Mem s (map id us)
        → i < total
        → found total i us w ≡ 1
    found_once total i s [] w e d h below = absurd (not-mem-nil h)
    found_once total i s (u ∷ us) w e d h below =
        let (fresh, d') = Nodup-cons.0 d in
        elim (Bool-cases (id u === s)) [
          | inl same ↦
              let q : id u ≡ s = (eq_iff (id u) s).0 same in
              rw
                (
                  occurrences-items_from (id u) i 0 total w,
                  holds,
                  e,
                  found_none total i s us w e (λ m. fresh (rw q m)),
                )
                (ground arith)
          | inr other ↦
              let m : Mem s (map id us) =
                Or.elim Mem-prop (eq-or-mem_of_mem-cons h)
                  (λ q. absurd (ground (arith, eq_iff (id u) s))) (λ m. m) in
              rw
                (
                  occurrences-items_from (id u) i 0 total w,
                  holds,
                  e,
                  found_once total i s us w e d' m below,
                )
                (ground arith)
        ]

    pub found_beyond :
        (total i : ℕ) (us : List JobInstance) (w : World) → total ≤ i → found total i us w ≡ 0
    found_beyond total i [] w h = refl
    found_beyond total i (u ∷ us) w h =
        rw (occurrences-items_from (id u) i 0 total w, found_beyond total i us w h) (ground arith)
