-- ===== src/Sharding/Service/Run.antt =====
-- `shardingIfNecessary` and `getShardingItems`.
use elastic_job_lite.Prelude.{
  ℕ, zero, suc, ◌+◌, String, Bool, true, false, not, ◌||◌, ◌&&◌, Option, none, some, List, [], ◌∷◌,
  ◌===◌, if◌then◌else◌,
}
use elastic_job_lite.Registry.{Mode, Registry, commit}
use elastic_job_lite.Sharding.Average.{JobInstance}
use elastic_job_lite.Sharding.Service.{
  Strategy, get_strategy, get_ip, get_instance_node, instances, processing, is_available_server,
  get_available_job_instances, is_need_sharding, set_resharding_flag, reset_sharding_info,
  persist_sharding_info,
}

-- What the sharding takes from the services that are not modelled here: the state when
-- `isLeaderUntilBlock` returns and its answer, the states when the two waiting loops end, in which
-- others act, and what `ConfigurationService.load` reads.
pub record Peers (R : Registry) : Type 0 where
  pub elect : R.World → R.World
  pub is_leader : R.World → Bool
  pub until_idle : R.World → R.World
  pub until_completed : R.World → R.World
  pub sharding_total_count : R.World → ℕ
  pub job_sharding_strategy_class : R.World → String

-- How `shardingIfNecessary` ends: with nothing to do, after waiting for the leader, with the items
-- shared, with an exception (of the strategy, or for an id without an ip), or with a transaction that
-- was refused.
pub data Outcome : Type 0 where
  idle waited shared failed refused : Outcome

unfoldable pub contains : String → List String → Bool
contains d [] = false
contains d (each ∷ ids) = each === d || contains d ids

module _ (R : Registry) (P : Peers R) (strategies : String → Strategy) (job_name : List ℕ) where
  open R use {World, look, put, children}

  -- the leader's part, from `configService.load`
  unfoldable pub share : List JobInstance → World → World × Outcome
  share us w =
      let total = P.sharding_total_count w in
      let v = reset_sharding_info R total (put Mode.ephemeral processing "" w) in
      elim (get_strategy strategies (P.job_sharding_strategy_class w) us job_name total) [
        | none ↦ (v, Outcome.failed)
        | some m ↦ elim (commit R (persist_sharding_info m) v) [
          | none ↦ (v, Outcome.refused)
          | some v' ↦ (v', Outcome.shared)
        ]
      ]

  unfoldable pub is_empty : List JobInstance → Bool
  is_empty [] = true
  is_empty (u ∷ us) = false

  unfoldable pub sharding_if_necessary : World → World × Outcome
  unfolding share is_empty
  sharding_if_necessary w = elim (get_available_job_instances R w) [
    | none ↦ (w, Outcome.failed)
    | some us ↦
        (if not (is_need_sharding R w) || is_empty us
          then (w, Outcome.idle)
          else if P.is_leader (P.elect w)
          then share us (P.until_idle (P.elect w))
          else (P.until_completed (P.elect w), Outcome.waited))
  ]

  -- the loop of `getShardingItems`, from its `i`
  unfoldable pub items_from : String → ℕ → ℕ → World → List ℕ
  items_from id i zero w = []
  items_from id i (suc rounds) w =
      let rest = items_from id (i + 1) rounds w in
      elim (look (get_instance_node i) w) [
        | none ↦ rest
        | some d ↦ (if id === d then i ∷ rest else rest)
      ]

  -- none is the exception of `getIp`
  unfoldable pub get_sharding_items : JobInstance → World → Option (List ℕ)
  unfolding items_from
  get_sharding_items u w = elim (get_ip u) [
    | none ↦ none
    | some ip ↦
        (if is_available_server R ip w
          then some (items_from u.job_instance_id 0 (P.sharding_total_count w) w)
          else some [])
  ]

  -- the loop of `hasShardingInfoInOfflineServers`, from its `i`
  unfoldable pub offline_from : List String → ℕ → ℕ → World → Bool
  unfolding contains
  offline_from online i zero w = false
  offline_from online i (suc rounds) w =
      let rest = offline_from online (i + 1) rounds w in
      elim (look (get_instance_node i) w) [
        | none ↦ true
        | some d ↦ (if contains d online then rest else true)
      ]

  unfoldable pub has_sharding_info_in_offline_servers : World → Bool
  unfolding offline_from
  has_sharding_info_in_offline_servers w =
      offline_from (children instances w) 0 (P.sharding_total_count w) w

  -- the body of `ReconcileService.runOneIteration` when the interval has passed
  unfoldable pub reconcile : World → World
  unfolding has_sharding_info_in_offline_servers
  reconcile w =
      let v = P.elect w in
      if P.is_leader v && not (is_need_sharding R v) && has_sharding_info_in_offline_servers v
      then set_resharding_flag R v
      else v
