-- ===== src/Sharding/Items.antt =====
-- internal/sharding/ExecutionService.java and internal/failover/FailoverService.java, over the nodes
-- of the items. `load(true)` of the configuration is an argument.
pub mod Marks
pub mod Misfire
pub mod Failover
use elastic_job_lite.Prelude.{
  ℕ, String, Bool, true, false, ◌&&◌, ◌||◌, not, Option, none, some, List, [], ◌∷◌, if◌then◌else◌,
  each, ◌>>◌,
}
use elastic_job_lite.Registry.{word, num, Node, Mode, Registry}
use elastic_job_lite.Sharding.Service.{
  is_job_node_existed, create_job_node_if_needed, remove_job_node_if_existed,
}

abbrev pub get_running_node : ℕ → Node
get_running_node i = word "sharding" ∷ num i ∷ word "running" ∷ []

abbrev pub get_misfire_node : ℕ → Node
get_misfire_node i = word "sharding" ∷ num i ∷ word "misfire" ∷ []

abbrev pub get_disabled_node : ℕ → Node
get_disabled_node i = word "sharding" ∷ num i ∷ word "disabled" ∷ []

-- internal/failover/FailoverNode.java
abbrev pub get_execution_failover_node : ℕ → Node
get_execution_failover_node i = word "sharding" ∷ num i ∷ word "failover" ∷ []

abbrev pub items_root : Node
items_root = word "leader" ∷ word "failover" ∷ word "items" ∷ []

abbrev pub get_items_node : ℕ → Node
get_items_node i = word "leader" ∷ word "failover" ∷ word "items" ∷ num i ∷ []

module _ (R : Registry) where
  open R use {World, look, put, children}

  -- What a process keeps of the job (`JobRegistry.isJobRunning`), with the registry center.
  abbrev pub Running : Type 0
  Running = Bool × World

  unfoldable pub clear_running_info : List ℕ → World → World
  clear_running_info = each (λ i. remove_job_node_if_existed R (get_running_node i))

  unfoldable pub register_job_begin : Bool → List ℕ → Running → Running
  register_job_begin is_monitor_execution items (_, w) = (
    true,
    if is_monitor_execution
        then each (λ i. put Mode.ephemeral (get_running_node i) "") items w
        else w,
  )

  unfoldable pub register_job_completed : Bool → List ℕ → Running → Running
  register_job_completed is_monitor_execution items (_, w) = (
    false,
    if is_monitor_execution
        then each (λ i. remove_job_node_if_existed R (get_running_node i)) items w
        else w,
  )

  -- the loop of `hasRunningItems`
  unfoldable pub any_running : List ℕ → World → Bool
  any_running [] w = false
  any_running (i ∷ is) w = is_job_node_existed R (get_running_node i) w || any_running is w

  -- none is a configuration that is not there
  unfoldable pub has_running_items : Option Bool → List ℕ → World → Bool
  unfolding any_running
  has_running_items none items w = false
  has_running_items (some is_monitor_execution) items w =
      is_monitor_execution && any_running items w

  unfoldable pub set_misfire : List ℕ → World → World
  set_misfire = each (λ i. create_job_node_if_needed R (get_misfire_node i))

  unfoldable pub misfire_if_has_running_items : Option Bool → List ℕ → World → World × Bool
  unfolding has_running_items set_misfire
  misfire_if_has_running_items config items w =
      if has_running_items config items w then (set_misfire items w, true) else (w, false)

  -- the loop of `getMisfiredJobItems` and `getDisabledItems`
  unfoldable pub existing : (ℕ → Node) → List ℕ → World → List ℕ
  existing node [] w = []
  existing node (i ∷ is) w =
      let rest = existing node is w in if is_job_node_existed R (node i) w then i ∷ rest else rest

  unfoldable pub get_misfired_job_items : List ℕ → World → List ℕ
  unfolding existing
  get_misfired_job_items = existing get_misfire_node

  unfoldable pub clear_misfire : List ℕ → World → World
  clear_misfire = each (λ i. remove_job_node_if_existed R (get_misfire_node i))

  unfoldable pub get_disabled_items : List ℕ → World → List ℕ
  unfolding existing
  get_disabled_items = existing get_disabled_node

  unfoldable pub set_crashed_failover_flag : ℕ → World → World
  set_crashed_failover_flag i w =
      if not (is_job_node_existed R (get_execution_failover_node i) w)
      then create_job_node_if_needed R (get_items_node i) w
      else w

  unfoldable pub is_empty : List String → Bool
  is_empty [] = true
  is_empty (s ∷ ss) = false

  unfoldable pub need_failover : Running → Bool
  unfolding is_empty
  need_failover (is_job_running, w) =
      is_job_node_existed R items_root w
      && not (is_empty (children items_root w))
      && not is_job_running

  -- `FailoverLeaderExecutionCallback`: the state after it and whether the job is triggered; none is
  -- the exception of `Integer.parseInt`.
  unfoldable pub execute : (String → Option ℕ) → Bool → String → Running → Option (World × Bool)
  unfolding need_failover
  execute parse_int is_shutdown id (is_job_running, w) =
      if is_shutdown || not (need_failover (is_job_running, w))
      then some (w, false)
      else elim (children items_root w) [
        | [] ↦ none
        | first ∷ _ ↦ elim (parse_int first) [
          | none ↦ none
          | some crashed_item ↦
              let v = put Mode.ephemeral (get_execution_failover_node crashed_item) id w in
              some (remove_job_node_if_existed R (get_items_node crashed_item) v, true)
        ]
      ]

  unfoldable pub update_failover_complete : List ℕ → World → World
  update_failover_complete =
      each (λ i. remove_job_node_if_existed R (get_execution_failover_node i))
