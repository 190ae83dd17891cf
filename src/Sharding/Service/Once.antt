-- ===== src/Sharding/Service/Once.antt =====
-- After the leader's sharding the instances find their items in the registry center.
use elastic_job_lite.Prelude.{
  ℕ, ◌<◌, String, ◌≡◌, refl, ◌∙◌, inl, inr, true, none, some, List, [], ◌∷◌, map, length, ltb,
  if◌then◌else◌, arith, Bool-cases,
}
use mathlib.Core.List.{Mem}
use elastic_job_lite.Registry.{Registry}
use elastic_job_lite.Sharding.Average.{JobInstance, Shards}
use elastic_job_lite.Sharding.Average.Exactly.{id, IsDistinct, assigned-sharding}
use elastic_job_lite.Sharding.Average
use elastic_job_lite.Sharding.Service.{
  Strategy, get_strategy, get_instance_node, necessary, processing, get_available_job_instances,
  is_need_sharding,
}
use elastic_job_lite.Sharding.Service.Reset.{Exists}
use elastic_job_lite.Sharding.Service.Run.{Peers, Outcome, is_empty, share, sharding_if_necessary}
use elastic_job_lite.Sharding.Service.Flags.{IsFlagged}
use elastic_job_lite.Sharding.Service.Exactly.{IsExact, share-shared}
use elastic_job_lite.Sharding.Service.Owners.{owner-ids, ids-sharding}
use elastic_job_lite.Sharding.Service.Found.{found, found_once, found_beyond}

module _ (R : Registry) where
  open R use {World, look}

  module _ (P : Peers R) (strategies : String → Strategy) (job_name : List ℕ) where
    -- The leader's way through `shardingIfNecessary`.
    leads :
        (us : List JobInstance) (w : World)
        → get_available_job_instances R w ≡ some us
        → 0 < length us
        → is_need_sharding R w ≡ true
        → P.is_leader (P.elect w) ≡ true
        → sharding_if_necessary R P strategies job_name w
          ≡ share R P strategies job_name us (P.until_idle (P.elect w))
    unfolding sharding_if_necessary is_empty
    leads [] w available h need leader = absurd (omega arith)
    leads (u ∷ us) w available h need leader =
        rw (sharding_if_necessary, available, need, leader) refl

    default_strategy :
        (us : List JobInstance) (z : World)
        → P.job_sharding_strategy_class z ≡ ""
        → get_strategy strategies
            (P.job_sharding_strategy_class z)
            us
            job_name
            (P.sharding_total_count z)
          ≡ some (Average.sharding us (P.sharding_total_count z))
    unfolding get_strategy
    default_strategy us z default = rw default refl

    -- What the leader needs: there are instances, with distinct ids; the flag asks for the sharding;
    -- the default strategy is configured; the job's node stands, and nothing stands below the flag.
    pub record IsReady (us : List JobInstance) (w : World) : Type 0 where
      pub available : get_available_job_instances R w ≡ some us
      pub some_available : 0 < length us
      pub distinct : IsDistinct us
      pub need : is_need_sharding R w ≡ true
      pub leader : P.is_leader (P.elect w) ≡ true
      pub default : P.job_sharding_strategy_class (P.until_idle (P.elect w)) ≡ ""
      pub job_stands : Exists R [] (P.until_idle (P.elect w))
      pub flag : IsFlagged R necessary (P.until_idle (P.elect w))

    pub sharding_if_necessary-shared :
        (us : List JobInstance) (w : World)
        → IsReady us w
        → (v : World) × (sharding_if_necessary R P strategies job_name w ≡ (v, Outcome.shared))
          × ((i : ℕ)
              → i < P.sharding_total_count (P.until_idle (P.elect w))
              → (s : String) × Mem s (map id us) × (look (get_instance_node i) v ≡ some s))
          × (look necessary v ≡ none)
          × (look processing v ≡ none)
    sharding_if_necessary-shared us w r =
        let z = P.until_idle (P.elect w) in
        let total = P.sharding_total_count z in
        let m = Average.sharding us total in
        let exact : IsExact total m =
          λ i. assigned-sharding us total i r.some_available r.distinct in
        let (v, done, kept, gone, gone') =
          share-shared R P strategies job_name us m z (default_strategy us z r.default) exact
            r.job_stands r.flag in
        (
          v,
          leads us w r.available r.some_available r.need r.leader ∙ done,
          λ i below.
              let (s, own, e) = kept i below in
              (
                s,
                rw (← ids-sharding us total r.some_available r.distinct) (owner-ids i s m own),
                e,
              ),
          gone,
          gone',
        )

    -- When the flag asks for it, the leader shares the items of a job with the default strategy: the
    -- transaction is done, both flags are gone, and the loop of `getShardingItems` finds each item
    -- for exactly one of the instances that were available at the start. It is assumed that there are
    -- instances with distinct ids, that this instance is the leader, that the job's node stands and
    -- that nothing stands below the flag.
    pub sharding_if_necessary-found :
        (us : List JobInstance) (w : World)
        → IsReady us w
        → let total = P.sharding_total_count (P.until_idle (P.elect w)) in
          (v : World) × (sharding_if_necessary R P strategies job_name w ≡ (v, Outcome.shared))
          × ((i : ℕ) → found R P strategies job_name total i us v ≡ (if ltb i total then 1 else 0))
          × (look necessary v ≡ none)
          × (look processing v ≡ none)
    sharding_if_necessary-found us w r =
        let total = P.sharding_total_count (P.until_idle (P.elect w)) in
        let (v, done, kept, gone, gone') = sharding_if_necessary-shared us w r in
        (
          v,
          done,
          λ i. elim (Bool-cases (ltb i total)) [
            | inl below ↦
                let (s, one, e) = kept i (ground arith) in
                rw below (
                  found_once R P strategies job_name total i s us v e r.distinct one (ground arith))
            | inr beyond ↦
                rw beyond (found_beyond R P strategies job_name total i us v (ground arith))
          ],
          gone,
          gone',
        )
