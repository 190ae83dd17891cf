-- ===== src/Sharding/Crash.antt =====
-- What an instance does when the node of another one goes: `JobCrashedJobListener` of
-- internal/failover/FailoverListenerManager.java, and `failoverIfNecessary` of
-- internal/failover/FailoverService.java.
pub mod Unnoticed
use elastic_job_lite.Prelude.{
  ℕ, String, Bool, true, false, not, ◌||◌, Option, none, some, List, [], ◌∷◌, ◌===◌, if◌then◌else◌,
}
use elastic_job_lite.Registry.{Registry}
use elastic_job_lite.Sharding.Average.{JobInstance}
use elastic_job_lite.Sharding.Service.{Strategy}
use elastic_job_lite.Sharding.Service.Run.{Peers, get_sharding_items}
use elastic_job_lite.Sharding.Items.{Running, need_failover, execute, set_crashed_failover_flag}
use elastic_job_lite.Sharding.Facade.{Local, Config, get_failover_items}

module _ (R : Registry) (parse_int : String → Option ℕ) where
  open R use {World}

  -- `until_latched` is the state when the latch of `executeInLeader` is had, before which others act;
  -- none is an exception. Whether the job is triggered is left out.
  unfoldable pub failover_if_necessary : (World → World) → Local → Running R → Option (World)
  unfolding need_failover execute
  failover_if_necessary until_latched l (is_job_running, w) =
      if need_failover R (is_job_running, w)
      then elim (execute R parse_int l.is_shutdown l.instance.job_instance_id
          (is_job_running, until_latched w)) [ none ↦ none | some (v, _) ↦ some v ]
      else some w

  -- the loops of the listener
  unfoldable pub failover_each : (World → World) → Local → Bool → List ℕ → World → Option World
  unfolding failover_if_necessary set_crashed_failover_flag
  failover_each until_latched l is_job_running [] w = some w
  failover_each until_latched l is_job_running (i ∷ is) w =
      elim (failover_if_necessary until_latched l
        (is_job_running, set_crashed_failover_flag R i w)) [
          | none ↦ none
          | some v ↦ failover_each until_latched l is_job_running is v
        ]

  module _ (P : Peers R) (strategies : String → Strategy) (job_name : List ℕ) (C : Config R) where
    -- `dataChanged` for the node of an instance that was removed
    unfoldable pub instance_removed :
        (World → World) → Local → Bool → JobInstance → World → Option World
    unfolding failover_each get_failover_items get_sharding_items
    instance_removed until_latched l is_job_running u w =
        if not (C.is_failover w) || u.job_instance_id === l.instance.job_instance_id
        then some w
        else elim (get_failover_items R parse_int u.job_instance_id w) [
          | none ↦ none
          | some (i ∷ is) ↦ failover_each until_latched l is_job_running (i ∷ is) w
          | some [] ↦ elim (get_sharding_items R P strategies job_name u w) [
            | none ↦ none
            | some items ↦ failover_each until_latched l is_job_running items w
          ]
        ]
