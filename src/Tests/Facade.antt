-- ===== src/Tests/Facade.antt =====
-- Two instances of a job of two items, of which the first has taken over the item of the second.
use mathlib.Core.Bool.{false≢true}
use text.Mathlib.TextBridge.{IsPrefix}
use text.Mathlib.TextEquality.{starts_with_iff}
use elastic_job_lite.Prelude.{
  ℕ, String, ◌≡◌, refl, true, false, ◌&&◌, Option, none, some, List, [], ◌∷◌, ◌===◌, if◌then◌else◌,
  codes, All,
}
use elastic_job_lite.Registry.{Node, same_node, Registry}
use elastic_job_lite.Registry.Memory.{memory}
use elastic_job_lite.Sharding.Service.{
  Strategy, root, instances, get_ip, get_instance_node, is_enable_server,
  get_available_job_instances, is_job_node_existed, is_need_sharding,
}
use elastic_job_lite.Sharding.Service.Run.{Peers}
use elastic_job_lite.Sharding.Items.{get_execution_failover_node}
use elastic_job_lite.Sharding.Items.Marks.{listed}
use elastic_job_lite.Sharding.Facade.{Local, Config, get_failover_items, get_sharding_contexts}
use elastic_job_lite.Sharding.Crash.{instance_removed}
use elastic_job_lite.Sharding.Crash.Unnoticed.{instance_removed-has_online_instance}
use elastic_job_lite.Sharding.Facade.Apart.{listed-get_sharding_contexts}

abbrev names : Node → List String
names n =
    if same_node n instances
    then "10.0.0.1@-@7" ∷ "10.0.0.2@-@8" ∷ []
    else if same_node n root
    then "0" ∷ "1" ∷ []
    else []

abbrev registry : Registry
registry = memory names

abbrev one : Local
one = record { is_shutdown = false; instance = record { job_instance_id = "10.0.0.1@-@7" } }

abbrev two : Local
two = record { is_shutdown = false; instance = record { job_instance_id = "10.0.0.2@-@8" } }

abbrev start : registry.World
start n =
    if same_node n (get_instance_node 0)
    then some "10.0.0.1@-@7"
    else if same_node n (get_instance_node 1)
    then some "10.0.0.2@-@8"
    else if same_node n (get_execution_failover_node 1)
    then some "10.0.0.1@-@7"
    else none

abbrev peers : Peers registry
peers = record {
  elect = λ w. w;
  is_leader = λ w. true;
  until_idle = λ w. w;
  until_completed = λ w. w;
  sharding_total_count = λ w. 2;
  job_sharding_strategy_class = λ w. "";
}

abbrev config : Config registry
config = record { is_failover = λ w. true; is_monitor_execution = λ w. true }

abbrev no_class : String → Strategy
no_class class_name us job_name total = none

abbrev parse_int : String → Option ℕ
parse_int s = if s === "0" then some 0 else if s === "1" then some 1 else none

ip_one : get_ip one.instance ≡ some "10.0.0.1"
unfolding get_ip
ip_one = refl

ip_two : get_ip two.instance ≡ some "10.0.0.2"
unfolding get_ip
ip_two = refl

both_available :
    get_available_job_instances registry start ≡ some (one.instance ∷ two.instance ∷ [])
unfolding get_available_job_instances get_ip is_enable_server
both_available = refl

nothing_needed : is_need_sharding registry start ≡ false
unfolding is_need_sharding is_job_node_existed
nothing_needed = refl

listed-get_sharding_contexts_example :
    (is : List ℕ) × ((js : List ℕ) × (get_sharding_contexts registry parse_int peers no_class
          (codes "job_a")
          config
          one
          start
        ≡ some (start, is))
      × (get_sharding_contexts registry parse_int peers no_class (codes "job_a") config two start
          ≡ some (start, js))
      × ((k : ℕ) → (listed k is && listed k js) ≡ false))
listed-get_sharding_contexts_example =
    listed-get_sharding_contexts registry peers no_class (codes "job_a") parse_int config one two
      "10.0.0.1" "10.0.0.2" (one.instance ∷ two.instance ∷ []) start ((0, refl), ((1, refl), tt))
      ip_one ip_two refl both_available nothing_needed

-- the first instance is gone
abbrev names_after : Node → List String
names_after n =
    if same_node n instances
    then "10.0.0.2@-@8" ∷ []
    else if same_node n root
    then "0" ∷ "1" ∷ []
    else []

abbrev crashed : Registry
crashed = memory names_after

-- it owns the first item, and had taken over none
abbrev after_crash : crashed.World
after_crash n = if same_node n (get_instance_node 0) then some "10.0.0.1@-@7" else none

abbrev crashed_peers : Peers crashed
crashed_peers = record {
  elect = λ w. w;
  is_leader = λ w. true;
  until_idle = λ w. w;
  until_completed = λ w. w;
  sharding_total_count = λ w. 2;
  job_sharding_strategy_class = λ w. "";
}

abbrev crashed_config : Config crashed
crashed_config = record { is_failover = λ w. true; is_monitor_execution = λ w. true }

offline_one : All (λ id. ¬ IsPrefix "10.0.0.1" id) (crashed.children instances after_crash)
offline_one = (λ h. false≢true ((starts_with_iff "10.0.0.2@-@8" "10.0.0.1").1 h), tt)

none_taken : get_failover_items crashed parse_int "10.0.0.1@-@7" after_crash ≡ some []
unfolding get_failover_items
none_taken = refl

instance_removed-has_online_instance_example :
    instance_removed crashed parse_int crashed_peers no_class
      (codes "job_a")
      crashed_config
      (λ w. w)
      two
      false
      one.instance
      after_crash
    ≡ some after_crash
instance_removed-has_online_instance_example =
    instance_removed-has_online_instance crashed parse_int crashed_peers no_class (codes "job_a")
      crashed_config (λ w. w) two false one.instance "10.0.0.1" after_crash ip_one offline_one
      none_taken
