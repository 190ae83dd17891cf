-- ===== src/Statistics/Items.antt =====
-- internal/statistics/ShardingStatisticsAPIImpl.java and domain/ShardingInfo.java: a row of the table of
-- a job's items.
pub mod Disabled
use Prim.Native.String
use elastic_job_lite.Prelude.{
  String, ◌+◌, Bool, true, false, not, Option, none, some, leb, if◌then◌else◌,
}
use elastic_job_lite.Registry.{Registry}
use elastic_job_lite.Operations.{
  get_instance_node_path, get_sharding_node_path, only_separators, first_part, is_existed,
}

pub data ShardingStatus : Type 0 where
  disabled running sharding_flag pending : ShardingStatus

abbrev pub name : ShardingStatus → String
name disabled = "DISABLED"
name running = "RUNNING"
name sharding_flag = "SHARDING_FLAG"
name pending = "PENDING"

unfoldable pub get_sharding_status : Bool → Bool → Bool → ShardingStatus
get_sharding_status is_disabled is_running is_sharding_flag =
    if is_disabled
    then disabled
    else if is_running
    then running
    else if is_sharding_flag
    then sharding_flag
    else pending

pub record ShardingInfo : Type 0 where
  pub server_ip : Option String
  pub instance_id : Option String
  pub status : ShardingStatus
  pub failover : Bool

-- `split("@-@")[1]`: the text between the first separator and the next one, or the end; none is the
-- exception where `split` leaves just one part
unfoldable pub second_part : String → Option String
unfolding first_part
second_part s =
    let at = String.find s "@-@" in
    let rest = String.slice s (at + 3) (String.len s) in
    if not (leb at (String.len s))
    then none
    else if only_separators (String.len rest) rest
    then none
    else first_part rest

module _ (R : Registry) where
  open R use {World, look}

  -- a path with `null` in it, where the item has no instance
  unfoldable pub is_sharding_error : String → String → World → Bool
  unfolding is_existed
  is_sharding_error job item w = elim (look (get_sharding_node_path job item "instance") w) [
    | none ↦ not (is_existed R (get_instance_node_path job "null") w)
    | some id ↦ not (is_existed R (get_instance_node_path job id) w)
  ]

  unfoldable pub get_status : String → String → World → ShardingStatus
  unfolding is_existed is_sharding_error get_sharding_status
  get_status job item w =
      get_sharding_status (is_existed R (get_sharding_node_path job item "disabled") w)
        (is_existed R (get_sharding_node_path job item "running") w) (is_sharding_error job item w)

  -- but for the item's number, which is the text itself as a number
  unfoldable pub get_sharding_info : String → String → World → Option ShardingInfo
  unfolding get_status is_existed first_part second_part
  get_sharding_info job item w =
      let status = get_status job item w in
      let failover = is_existed R (get_sharding_node_path job item "failover") w in
      elim (look (get_sharding_node_path job item "instance") w) [
        | none ↦
            some (record {
              server_ip = none;
              instance_id = none;
              status = status;
              failover = failover;
            })
        | some id ↦ elim (first_part id) [
          | none ↦ none
          | some ip ↦ elim (second_part id) [
            | none ↦ none
            | some pid ↦ some (record {
              server_ip = some ip;
              instance_id = some pid;
              status = status;
              failover = failover;
            })
          ]
        ]
      ]
