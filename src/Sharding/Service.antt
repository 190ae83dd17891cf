-- ===== src/Sharding/Service.antt =====
-- internal/sharding/ShardingService.java, with what it calls of internal/storage/JobNodeStorage.java,
-- internal/instance/InstanceService.java and internal/server/ServerService.java. Reads of the
-- registry center see the writes before them: its cache is taken to be up to date.
pub mod Reset
pub mod Run
pub mod Persist
pub mod Flags
pub mod Exactly
pub mod Failed
pub mod Owners
pub mod Found
pub mod Once
pub mod Offline
pub mod Available
use elastic_job_lite.Prelude.{
  ℕ, zero, suc, ◌+◌, ◌-◌, String, Bool, true, false, ◌&&◌, ◌||◌, not, Option, none, some, List, [],
  ◌∷◌, ◌++◌, map, length, ltb, leb, ◌==◌, ◌===◌, if◌then◌else◌, ◌>>◌, skip,
}
use Prim.Native.String
use mathlib.Core.Option
use elastic_job_lite.Registry.{Segment, word, num, Node, Op, create, delete, Mode, Registry, commit}
use elastic_job_lite.Sharding.Average.{JobInstance, Shards}
use elastic_job_lite.Sharding.Average
use elastic_job_lite.Sharding.Odevity
use elastic_job_lite.Sharding.Rotate

-- internal/sharding/ShardingNode.java
abbrev pub root : Node
root = word "sharding" ∷ []

abbrev pub item_node : ℕ → Node
item_node i = word "sharding" ∷ num i ∷ []

abbrev pub get_instance_node : ℕ → Node
get_instance_node i = word "sharding" ∷ num i ∷ word "instance" ∷ []

abbrev pub necessary : Node
necessary = word "leader" ∷ word "sharding" ∷ word "necessary" ∷ []

abbrev pub processing : Node
processing = word "leader" ∷ word "sharding" ∷ word "processing" ∷ []

abbrev pub instances : Node
instances = word "instances" ∷ []

abbrev pub server_node : String → Node
server_node ip = word "servers" ∷ word ip ∷ []

-- `substring(0, indexOf("@-@"))`; none is the exception for an id without it.
unfoldable pub get_ip : JobInstance → Option String
get_ip u =
    let at = String.find u.job_instance_id "@-@" in
    if leb at (String.len u.job_instance_id)
    then some (String.slice u.job_instance_id 0 at)
    else none

-- What `getStrategy` gives for the name of a class. Of a class of the user, `custom`, the code only
-- knows that it is called; none is an exception.
abbrev pub Strategy : Type 0
Strategy = List JobInstance → List ℕ → ℕ → Option Shards

unfoldable pub get_strategy : (String → Strategy) → String → Strategy
get_strategy custom class_name units job_name total =
    if class_name === ""
      || class_name === "io.elasticjob.lite.api.strategy.impl.AverageAllocationJobShardingStrategy"
    then some (Average.sharding units total)
    else if class_name
        === "io.elasticjob.lite.api.strategy.impl.OdevitySortByNameJobShardingStrategy"
    then some (Odevity.sharding units job_name total)
    else if class_name
        === "io.elasticjob.lite.api.strategy.impl.RotateServerByNameJobShardingStrategy"
    then Rotate.sharding units job_name total
    else custom class_name units job_name total

-- `PersistShardingInfoTransactionExecutionCallback`
unfoldable pub create_items : JobInstance → List ℕ → List Op
create_items u [] = []
create_items u (i ∷ is) = create (get_instance_node i) u.job_instance_id ∷ create_items u is

unfoldable pub create_all : Shards → List Op
unfolding create_items
create_all [] = []
create_all ((u, is) ∷ m) = create_items u is ++ create_all m

unfoldable pub persist_sharding_info : Shards → List Op
unfolding create_all
persist_sharding_info m = create_all m ++ delete necessary ∷ delete processing ∷ []

module _ (R : Registry) where
  open R use {World, look, children, put, remove}

  unfoldable pub is_job_node_existed : Node → World → Bool
  is_job_node_existed n w = elim (look n w) [ none ↦ false | some _ ↦ true ]

  unfoldable pub create_job_node_if_needed : Node → World → World
  unfolding is_job_node_existed
  create_job_node_if_needed n w =
      if is_job_node_existed [] w && not (is_job_node_existed n w)
      then put Mode.persistent n "" w
      else w

  unfoldable pub remove_job_node_if_existed : Node → World → World
  unfolding is_job_node_existed
  remove_job_node_if_existed n w = if is_job_node_existed n w then remove n w else w

  unfoldable pub is_enable_server : String → World → Bool
  is_enable_server ip w = elim (look (server_node ip) w) [
    | none ↦ true
    | some d ↦ not (d === "DISABLED")
  ]

  -- `each.startsWith(ip)`
  unfoldable pub has_online_instance : String → List String → Bool
  has_online_instance ip [] = false
  has_online_instance ip (each ∷ ids) = String.find each ip == 0 || has_online_instance ip ids

  unfoldable pub is_available_server : String → World → Bool
  unfolding is_enable_server has_online_instance
  is_available_server ip w = is_enable_server ip w && has_online_instance ip (children instances w)

  -- the loop of `getAvailableJobInstances`
  unfoldable pub available_from : List String → World → Option (List JobInstance)
  unfolding get_ip is_enable_server
  available_from [] w = some []
  available_from (each ∷ ids) w =
      let rest = available_from ids w in
      elim (get_ip (record { job_instance_id = each })) [
        | none ↦ none
        | some ip ↦
            (if is_enable_server ip w
              then Option.map (λ us. record { job_instance_id = each } ∷ us) rest
              else rest)
      ]

  unfoldable pub get_available_job_instances : World → Option (List JobInstance)
  unfolding available_from
  get_available_job_instances w = available_from (children instances w) w

  unfoldable pub set_resharding_flag : World → World
  unfolding create_job_node_if_needed
  set_resharding_flag = create_job_node_if_needed necessary

  unfoldable pub is_need_sharding : World → Bool
  is_need_sharding = is_job_node_existed necessary

  -- the first loop of `resetShardingInfo`, from its `i`
  unfoldable pub reset_each : ℕ → ℕ → World → World
  unfolding remove_job_node_if_existed create_job_node_if_needed
  reset_each i zero = skip
  reset_each i (suc rounds) = do
    remove_job_node_if_existed (get_instance_node i)
    create_job_node_if_needed (item_node i)
    reset_each (i + 1) rounds

  -- its second loop
  unfoldable pub remove_each : ℕ → ℕ → World → World
  unfolding remove_job_node_if_existed
  remove_each i zero = skip
  remove_each i (suc rounds) = do
    remove_job_node_if_existed (item_node i)
    remove_each (i + 1) rounds

  unfoldable pub reset_sharding_info : ℕ → World → World
  unfolding reset_each remove_each
  reset_sharding_info total w =
      let v = reset_each 0 total w in
      let actual = length (children root v) in
      if ltb total actual then remove_each total (actual - total) v else v
