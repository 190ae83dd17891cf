-- ===== src/Sharding/Facade.antt =====
-- Which items a run of a job works on: `getShardingContexts` of internal/schedule/LiteJobFacade.java, with
-- what it calls of internal/failover/FailoverService.java, of internal/sharding/ShardingService.java and
-- of internal/sharding/ExecutionContextService.java. What else the contexts hold is left out.
pub mod Listed
pub mod Named
pub mod Returns
pub mod Apart
pub mod Cleared
use mathlib.Core.Option
use elastic_job_lite.Prelude.{
  ℕ, String, Bool, true, false, not, ◌||◌, Option, none, some, List, [], ◌∷◌, leb, ◌==◌, ◌===◌,
  if◌then◌else◌, each, ◌&&◌, true, false,
}
use elastic_job_lite.Registry.{Registry}
use elastic_job_lite.Sharding.Average.{JobInstance}
use elastic_job_lite.Sharding.Service.{
  Strategy, root, get_ip, is_available_server, remove_job_node_if_existed,
  remove_job_node_if_existed, is_need_sharding,
}
use elastic_job_lite.Sharding.Service.Run.{
  Peers, Outcome, sharding_if_necessary, get_sharding_items,
}
use elastic_job_lite.Sharding.Items.{
  get_running_node, get_execution_failover_node, existing, get_disabled_items,
  get_misfired_job_items,
}
use elastic_job_lite.Sharding.Items.Marks.{listed}

-- What a process keeps of the job in its `JobRegistry`.
pub record Local : Type 0 where
  pub is_shutdown : Bool
  pub instance : JobInstance

-- What `ConfigurationService.load` reads.
pub record Config (R : Registry) : Type 0 where
  pub is_failover : R.World → Bool
  pub is_monitor_execution : R.World → Bool

unfoldable pub insert : ℕ → List ℕ → List ℕ
insert i [] = i ∷ []
insert i (j ∷ js) = let rest = insert i js in if leb i j then i ∷ j ∷ js else j ∷ rest

-- `Collections.sort`
unfoldable pub sort : List ℕ → List ℕ
unfolding insert
sort [] = []
sort (i ∷ is) = insert i (sort is)

unfoldable pub remove_all : List ℕ → List ℕ → List ℕ
remove_all [] js = []
remove_all (i ∷ is) js = let rest = remove_all is js in if listed i js then rest else i ∷ rest

abbrev pub is_empty : List ℕ → Bool
is_empty [] = true
is_empty (_ ∷ _) = false

module _ (R : Registry) (parse_int : String → Option ℕ) where
  open R use {World, look, children}

  -- the loop of `getFailoverItems`; none is the exception of `Integer.parseInt`
  unfoldable pub failover_from : String → List String → World → Option (List ℕ)
  failover_from id [] w = some []
  failover_from id (each ∷ items) w =
      let rest = failover_from id items w in
      elim (parse_int each) [
        | none ↦ none
        | some i ↦ elim (look (get_execution_failover_node i) w) [
          | none ↦ rest
          | some d ↦ (if id === d then Option.map (λ is. i ∷ is) rest else rest)
        ]
      ]

  unfoldable pub get_failover_items : String → World → Option (List ℕ)
  unfolding failover_from sort
  get_failover_items id w = Option.map sort (failover_from id (children root w) w)

  unfoldable pub get_local_failover_items : Local → World → Option (List ℕ)
  unfolding get_failover_items
  get_local_failover_items l w =
      if l.is_shutdown then some [] else get_failover_items l.instance.job_instance_id w

  -- the loop of `removeFailoverInfo`, and whether it ends without an exception
  unfoldable pub remove_failover_each : List String → World → World × Bool
  unfolding remove_job_node_if_existed
  remove_failover_each [] w = (w, true)
  remove_failover_each (each ∷ items) w = elim (parse_int each) [
    | none ↦ (w, false)
    | some i ↦
        remove_failover_each items (remove_job_node_if_existed R (get_execution_failover_node i) w)
  ]

  unfoldable pub remove_failover_info : World → World × Bool
  unfolding remove_failover_each
  remove_failover_info w = remove_failover_each (children root w) w

  -- The type of the job is `some` for a dataflow, with whether it streams.
  unfoldable pub is_eligible_for_job_running : Option Bool → World → Bool
  unfolding is_need_sharding
  is_eligible_for_job_running none w = not (is_need_sharding R w)
  is_eligible_for_job_running (some is_streaming_process) w =
      not (is_need_sharding R w) && is_streaming_process

  unfoldable pub is_execute_misfired : Option Bool → Bool → List ℕ → World → Bool
  unfolding is_eligible_for_job_running get_misfired_job_items
  is_execute_misfired dataflow is_misfire items w =
      is_eligible_for_job_running dataflow w
      && is_misfire
      && not (is_empty (get_misfired_job_items R items w))

  module _ (P : Peers R) (strategies : String → Strategy) (job_name : List ℕ) (C : Config R) where
    unfoldable pub get_local_sharding_items : Local → World → Option (List ℕ)
    unfolding get_sharding_items
    get_local_sharding_items l w = if l.is_shutdown then some [] else elim (get_ip l.instance) [
      | none ↦ none
      | some ip ↦
          (if is_available_server R ip w
            then get_sharding_items R P strategies job_name l.instance w
            else some [])
    ]

    unfoldable pub get_local_take_off_items : Local → World → Option (List ℕ)
    unfolding get_local_sharding_items existing
    get_local_take_off_items l w =
        Option.map (λ items. existing R get_execution_failover_node items w)
          (get_local_sharding_items l w)

    unfoldable pub remove_running_if_monitor_execution : Bool → List ℕ → World → List ℕ
    unfolding remove_all existing
    remove_running_if_monitor_execution is_monitor_execution items w =
        if is_monitor_execution
        then remove_all items (existing R get_running_node items w)
        else items

    -- the items of `getJobShardingContext`
    unfoldable pub get_job_sharding_context : List ℕ → World → List ℕ
    unfolding remove_running_if_monitor_execution
    get_job_sharding_context items w =
        remove_running_if_monitor_execution (C.is_monitor_execution w) items w

    -- what follows the sharding
    unfoldable pub own_items : Bool → Local → World → Option (List ℕ)
    unfolding get_local_sharding_items get_local_take_off_items get_disabled_items remove_all
        get_job_sharding_context
    own_items is_failover l w = elim (get_local_sharding_items l w) [
      | none ↦ none
      | some items ↦ elim (if is_failover then get_local_take_off_items l w else some []) [
        | none ↦ none
        | some taken ↦
            let kept = remove_all items taken in
            some (get_job_sharding_context (remove_all kept (get_disabled_items R kept w)) w)
      ]
    ]

    -- what follows the sharding, by how that ended
    unfoldable pub after_sharding : Bool → Local → World × Outcome → Option (World × List ℕ)
    unfolding own_items
    after_sharding is_failover l (v, Outcome.failed) = none
    after_sharding is_failover l (v, _) =
        Option.map (λ items. (v, items)) (own_items is_failover l v)

    -- the items taken over, if there are any
    unfoldable pub failover_or :
        World → Option (World × List ℕ) → Option (List ℕ) → Option (World × List ℕ)
    unfolding get_job_sharding_context
    failover_or w own none = none
    failover_or w own (some []) = own
    failover_or w own (some (i ∷ is)) = some (w, get_job_sharding_context (i ∷ is) w)

    -- the state after it and the items; none is an exception
    unfoldable pub get_sharding_contexts : Local → World → Option (World × List ℕ)
    unfolding get_local_failover_items sharding_if_necessary after_sharding failover_or
    get_sharding_contexts l w =
        let is_failover = C.is_failover w in
        let own = after_sharding is_failover l (sharding_if_necessary R P strategies job_name w) in
        if is_failover then failover_or w own (get_local_failover_items l w) else own
