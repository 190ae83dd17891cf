-- ===== src/Tests/Scheduler.antt =====
-- Runs of the scheduler's services over a registry in memory.
use elastic_job_lite.Prelude.{
  ℕ, ◌<◌, ◌⊎◌, String, ◌≡◌, refl, true, false, Option, some, none, List, [], ◌∷◌, codes, arith,
  if◌then◌else◌, ltb, map, ◌===◌,
}
use elastic_job_lite.Registry.{Node, word, num, is_under, same_node, Registry}
use elastic_job_lite.Registry.Memory.{memory}
use elastic_job_lite.Sharding.Average.Exactly.{id}
use elastic_job_lite.Sharding.Service.{
  Strategy, get_strategy, get_instance_node, necessary, processing, instances, is_job_node_existed,
  remove_job_node_if_existed, is_available_server, is_need_sharding, get_available_job_instances,
}
use elastic_job_lite.Sharding.Service.Flags.{IsFlagged}
use elastic_job_lite.Sharding.Service.Run.{
  Peers, Outcome, share, sharding_if_necessary, contains, reconcile,
}
use elastic_job_lite.Sharding.Service.Once.{IsReady, sharding_if_necessary-found}
use elastic_job_lite.Sharding.Service.Found.{found}
use elastic_job_lite.Sharding.Service.Failed.{share-failed}
use elastic_job_lite.Sharding.Service.Offline.{reconcile-is_need_sharding, reconcile-elect}
use elastic_job_lite.Sharding.Election.{
  has_leader, remove_leader, is_leader, Process, is_leader_until_block, has_available_servers,
}
use elastic_job_lite.Sharding.Election.Block.{is_leader_until_block_lem}
use elastic_job_lite.Sharding.Election
use elastic_job_lite.Sharding.Election.Leader.{
  Event, elected, removed, changes, leader_after, is_leader-changes,
}
use elastic_job_lite.Sharding.Items.{
  items_root, get_items_node, get_execution_failover_node, execute, set_crashed_failover_flag,
  need_failover, register_job_begin, register_job_completed, misfire_if_has_running_items,
  get_misfired_job_items, clear_misfire,
}
use elastic_job_lite.Sharding.Items.Misfire.{misfire-register_job_begin}
use elastic_job_lite.Sharding.Items.Failover.{execute-set_crashed_failover_flag}
use elastic_job_lite.Tests.Sharding.{three, three-IsDistinct}

-- three instances are online, and item 4 has a flag for failover
abbrev names : Node → List String
names n =
    if same_node n instances then map id three else if same_node n items_root then "4" ∷ [] else []

abbrev registry : Registry
registry = memory names

-- the job's node, and the flag for a sharding
abbrev start : Node → Option String
start [] = some ""
start (a ∷ n) = if same_node (a ∷ n) necessary then some "" else none

start-below :
    (m : Node) → is_under necessary m ≡ true → same_node m necessary ≡ false → start m ≡ none
start-below [] h g = absurd (ground arith)
start-below (a ∷ n) h g = rw g refl

start-IsFlagged : IsFlagged registry necessary start
start-IsFlagged = (("", refl), start-below)

-- a job of eight items, whose leader nobody disturbs
abbrev peers : String → Peers registry
peers class_name = record {
  elect = λ w. w;
  is_leader = λ w. true;
  until_idle = λ w. w;
  until_completed = λ w. w;
  sharding_total_count = λ w. 8;
  job_sharding_strategy_class = λ w. class_name;
}

-- no class of the user works
abbrev broken : String → Strategy
broken class_name us job_name total = none

start-IsReady : IsReady registry (peers "") broken (codes "job") three start
unfolding get_available_job_instances is_need_sharding is_job_node_existed
start-IsReady = record {
  available = refl;
  some_available = omega arith;
  distinct = three-IsDistinct;
  need = refl;
  leader = refl;
  default = refl;
  job_stands = ("", refl);
  flag = start-IsFlagged;
}

sharding_if_necessary-found_example :
    (v : Node → Option String) × (sharding_if_necessary registry
        (peers "")
        broken
        (codes "job")
        start
      ≡ (v, Outcome.shared))
    × ((i : ℕ)
        → found registry (peers "") broken (codes "job") 8 i three v ≡ (if ltb i 8 then 1 else 0))
    × (v necessary ≡ none)
    × (v processing ≡ none)
sharding_if_necessary-found_example =
    sharding_if_necessary-found registry (peers "") broken (codes "job") three start start-IsReady

broken_fails : get_strategy broken "com.example.Broken" three (codes "job") 8 ≡ none
unfolding get_strategy
broken_fails = refl

share-failed_example :
    (v : Node → Option String) × (share registry
        (peers "com.example.Broken")
        broken
        (codes "job")
        three
        start
      ≡ (v, Outcome.failed))
    × (is_need_sharding registry v ≡ true)
    × (is_job_node_existed registry processing v ≡ true)
    × ((i : ℕ) → i < 8 → v (get_instance_node i) ≡ none)
share-failed_example =
    share-failed registry (peers "com.example.Broken") broken (codes "job") three start broken_fails
      ("", refl) start-IsFlagged

reconcile-is_need_sharding_example :
    is_need_sharding registry (reconcile registry (peers "") broken (codes "job") start) ≡ true
reconcile-is_need_sharding_example =
    reconcile-is_need_sharding registry (peers "") broken (codes "job") 3 start refl ("", refl)
      (omega arith) (λ s e. ground (arith, e))

-- every item is with the first instance
abbrev settled : Node → Option String
settled (word s ∷ num i ∷ word t ∷ []) = some "10.0.0.1@-@7"
settled _ = none

online : contains "10.0.0.1@-@7" (names instances) ≡ true
unfolding contains
online = refl

reconcile-elect_example : reconcile registry (peers "") broken (codes "job") settled ≡ settled
reconcile-elect_example =
    reconcile-elect registry (peers "") broken (codes "job") settled
      (λ i below. ("10.0.0.1@-@7", refl, online))

abbrev second : String
second = "10.0.0.2@-@7"

-- the first leader leaves, and two instances get the latch
abbrev events : List Event
events = elected "10.0.0.1@-@7" ∷ removed ∷ elected second ∷ elected "10.0.0.3@-@8" ∷ []

leads : is_leader registry false second (changes registry events start) ≡ true
unfolding is_leader Election.execute has_leader remove_leader is_job_node_existed
    remove_job_node_if_existed
leads = refl

is_leader-changes_example : (leader_after events none ≡ some second) × (second ≡ second)
is_leader-changes_example =
    is_leader-changes registry events false false second second start leads leads

misfire-register_job_begin_example :
    (v : Node → Option String) × (misfire_if_has_running_items registry
        (some true)
        (2 ∷ 3 ∷ [])
        (register_job_begin registry true (1 ∷ 2 ∷ []) (false, start)).1
      ≡ (v, true))
    × (get_misfired_job_items registry (2 ∷ 3 ∷ []) v ≡ 2 ∷ 3 ∷ [])
    × (get_misfired_job_items registry (2 ∷ 3 ∷ []) (clear_misfire registry (2 ∷ 3 ∷ []) v) ≡ [])
    × ((misfire_if_has_running_items registry
          (some true)
          (1 ∷ 2 ∷ [])
          (register_job_completed registry true (1 ∷ 2 ∷ []) (true, v)).1).1
        ≡ false)
misfire-register_job_begin_example =
    misfire-register_job_begin registry 2 (1 ∷ 2 ∷ []) (2 ∷ 3 ∷ []) false start ("", refl) refl refl

abbrev parse_int : String → Option ℕ
parse_int s = if s === "4" then some 4 else none

abbrev crashed : Node → Option String
crashed [] = some ""
crashed (a ∷ n) = if is_under items_root (a ∷ n) then some "" else none

crashed_needs : need_failover registry (false, crashed) ≡ true
unfolding need_failover is_job_node_existed
crashed_needs = refl

execute-set_crashed_failover_flag_example :
    (v : Node → Option String) × (execute registry parse_int false "10.0.0.2@-@7" (false, crashed)
      ≡ some (v, true))
    × (v (get_execution_failover_node 4) ≡ some "10.0.0.2@-@7")
    × (v (get_items_node 4) ≡ none)
    × (set_crashed_failover_flag registry 4 v ≡ v)
execute-set_crashed_failover_flag_example =
    execute-set_crashed_failover_flag registry parse_int 4 "10.0.0.2@-@7" "4" [] crashed
      crashed_needs refl refl

-- a process on the second server, which nobody disturbs
abbrev process : Process registry
process = record {
  is_shutdown = false;
  job_instance_id = second;
  ip = "10.0.0.2";
  waiting_short_time = λ w. w;
  await_latch = λ w. w;
}

second_available : is_available_server registry "10.0.0.2" start ≡ true
unfolding is_available_server
second_available = refl

is_leader_until_block_lem_example :
    (v : Node → Option String) × (is_leader_until_block registry process 2 start
      ≡ some (v, is_leader registry false second v))
    × ((has_leader registry v ≡ true) ⊎ (has_available_servers registry v ≡ false))
is_leader_until_block_lem_example =
    is_leader_until_block_lem registry process 0 start refl second_available
